-- ===== src/Moq/Messages/Done.antt =====
-- PUBLISH_DONE (moq.c): `imquic_moq_parse_publish_done`, which ends a request.
pub mod Build
pub mod RoundTrip
pub mod Once
pub mod Overrun
use imquic.Base.{
  ℕ, Bool, true, false, not, ◌&&◌, ◌||◌, Option, none, some, Bytes, length, ltb, leb, ◌==◌,
  if◌then◌else◌,
}
use imquic.Glib.{GSnprintf}
use imquic.Wire.Moqint.{version_16, version_17}
use imquic.Wire.Reader.{
  Parse, broken, protocol_violation, Reader, ◌>>=◌, ◌>>◌, pure, number, number_before,
}
use imquic.Moq.Messages.Reason.{parse_reason}

abbrev pub type_subscribe : ℕ
type_subscribe = 0x3

abbrev pub type_publish_done : ℕ
type_publish_done = 0xb

abbrev pub type_publish : ℕ
type_publish = 0x1d

-- `imquic_media_stream_request_state`
pub data RequestState : Type 0 where
  new sent ok error update_sent done : RequestState

-- The fields of `imquic_moq_stream` that the stream of a request has.
pub record RequestStream : Type 0 where
  pub request_type : ℕ
  pub request_id : ℕ
  pub request_state : RequestState
  pub request_sender : Bool

-- `request_state` is not NEW, ERROR or DONE.
abbrev pub is_under_way : RequestState → Bool
is_under_way new = false
is_under_way sent = true
is_under_way ok = true
is_under_way error = false
is_under_way update_sent = true
is_under_way done = false

-- The receiver of a PUBLISH or the sender of a SUBSCRIBE may get a PUBLISH_DONE.
unfoldable pub can_be_done : Option RequestStream → Bool
can_be_done none = false
can_be_done (some s) =
    (s.request_type == type_publish || s.request_type == type_subscribe)
    && not (s.request_type == type_publish && s.request_sender)
    && not (s.request_type == type_subscribe && not s.request_sender)
    && is_under_way s.request_state

-- What the application gets.
pub record PublishDone : Type 0 where
  pub request_id : ℕ
  pub status_code : ℕ
  pub streams_count : ℕ
  pub reason : Option Bytes

-- A stream that is NULL has been refused before its identifier is looked at.
abbrev pub id_of : Option RequestStream → ℕ
id_of none = 0
id_of (some s) = s.request_id

unfoldable pub read_request_id : (version : ℕ) → Option RequestStream → Reader ℕ
read_request_id version stream bytes =
    if leb version version_16 then number version bytes else pure (id_of stream) bytes

abbrev pub end_request : Option RequestStream → Option RequestStream
end_request none = none
end_request (some s) = some (record s { request_state = done })

unfoldable pub publish_done_fields :
    GSnprintf → (version : ℕ) → Option RequestStream → Reader (PublishDone × Option RequestStream)
publish_done_fields snprintf version stream = do
  request_id ← read_request_id version stream
  status_code ← number_before version
  streams_count ← number_before version
  reason ← parse_reason snprintf version
  pure (
    record {
      request_id = request_id;
      status_code = status_code;
      streams_count = streams_count;
      reason = reason;
    },
    end_request stream,
  )

-- What the application gets and the stream then.
unfoldable pub parse_publish_done :
    GSnprintf → (version : ℕ) → Option RequestStream → Reader (PublishDone × Option RequestStream)
parse_publish_done snprintf version stream bytes =
    if length bytes == 0
    then broken
    else if leb version_17 version && not (can_be_done stream)
    then protocol_violation
    else publish_done_fields snprintf version stream bytes
