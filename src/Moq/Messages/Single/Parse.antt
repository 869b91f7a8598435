-- ===== src/Moq/Messages/Single/Parse.antt =====
-- The parsers of messages that carry one number (moq.c): `imquic_moq_parse_requests_blocked`,
-- `imquic_moq_parse_publish_namespace_done`, `imquic_moq_parse_unsubscribe` and `imquic_moq_parse_fetch_cancel`.
use imquic.Base.{ℕ, length, leb, ◌==◌, if◌then◌else◌}
use imquic.Wire.Moqint.{version_17}
use imquic.Wire.Reader.{broken, protocol_violation, Reader, ◌>>=◌, pure, number}
use imquic.Moq.Subscriptions.{Subscriptions, receive_unsubscribe, receive_fetch_cancel}

-- The number that the application gets.
unfoldable pub parse_requests_blocked : (version : ℕ) → Reader ℕ
parse_requests_blocked version bytes =
    if leb version_17 version
    then protocol_violation
    else if length bytes == 0
    then broken
    else number version bytes

unfoldable pub parse_publish_namespace_done : (version : ℕ) → Reader ℕ
parse_publish_namespace_done version bytes =
    if length bytes == 0 then broken else number version bytes

unfoldable pub given_up : (version : ℕ) → Subscriptions → Reader (ℕ × Subscriptions)
given_up version s = do
  request_id ← number version
  pure (request_id, receive_unsubscribe s request_id)

-- The number that the application gets, and the tables then.
unfoldable pub parse_unsubscribe : (version : ℕ) → Subscriptions → Reader (ℕ × Subscriptions)
parse_unsubscribe version s bytes = if length bytes == 0 then broken else given_up version s bytes

unfoldable pub cancelled : (version : ℕ) → Subscriptions → Reader (ℕ × Subscriptions)
cancelled version s = do
  request_id ← number version
  pure (request_id, receive_fetch_cancel s request_id)

unfoldable pub parse_fetch_cancel : (version : ℕ) → Subscriptions → Reader (ℕ × Subscriptions)
parse_fetch_cancel version s bytes = if length bytes == 0 then broken else cancelled version s bytes
