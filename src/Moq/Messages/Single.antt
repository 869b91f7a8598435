-- ===== src/Moq/Messages/Single.antt =====
-- Messages that carry one number (moq.c): the builders `imquic_moq_add_max_request_id`,
-- `imquic_moq_add_requests_blocked`, `imquic_moq_add_publish_namespace_done`, `imquic_moq_add_unsubscribe` and
-- `imquic_moq_add_fetch_cancel`.
pub mod Parse
pub mod RoundTrip
use imquic.Base.{ℕ, ◌||◌, ltb, leb, if◌then◌else◌}
use imquic.Wire.Moqint.{version_17}
use imquic.Wire.Writer.{Writer, rejected, put_number}
use imquic.Moq.Messages.{add_message}

abbrev pub type_publish_namespace_done : ℕ
type_publish_namespace_done = 0x9

abbrev pub type_unsubscribe : ℕ
type_unsubscribe = 0xa

abbrev pub type_max_request_id : ℕ
type_max_request_id = 0x15

abbrev pub type_fetch_cancel : ℕ
type_fetch_cancel = 0x17

abbrev pub type_requests_blocked : ℕ
type_requests_blocked = 0x1a

-- The builders of messages that version 17 does away with.
abbrev pub add_old_number : (version type number : ℕ) → Writer
add_old_number version type number room =
    if ltb room 1 || leb version_17 version
    then rejected
    else add_message version type (put_number version number) room

unfoldable pub add_max_request_id : (version max_request_id : ℕ) → Writer
add_max_request_id version max_request_id room =
    add_old_number version type_max_request_id max_request_id room

unfoldable pub add_requests_blocked : (version max_request_id : ℕ) → Writer
add_requests_blocked version max_request_id room =
    add_old_number version type_requests_blocked max_request_id room

unfoldable pub add_publish_namespace_done : (version request_id : ℕ) → Writer
add_publish_namespace_done version request_id room =
    add_old_number version type_publish_namespace_done request_id room

unfoldable pub add_fetch_cancel : (version request_id : ℕ) → Writer
add_fetch_cancel version request_id room = add_old_number version type_fetch_cancel request_id room

-- UNSUBSCRIBE is built in every version.
unfoldable pub add_unsubscribe : (version request_id : ℕ) → Writer
add_unsubscribe version request_id room =
    if ltb room 2
    then rejected
    else add_message version type_unsubscribe (put_number version request_id) room
