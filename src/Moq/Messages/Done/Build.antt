-- ===== src/Moq/Messages/Done/Build.antt =====
-- The builder of PUBLISH_DONE (moq.c): `imquic_moq_add_publish_done`.
use imquic.Base.{ℕ, Bool, not, ◌&&◌, ◌||◌, Option, Bytes, length, ltb, leb, if◌then◌else◌}
use imquic.Wire.Moqint.{version_16, version_17}
use imquic.Wire.Writer.{Writer, rejected, ◌>>◌, when, put_number}
use imquic.Moq.Messages.{add_message}
use imquic.Moq.Messages.Reason.{sizeof_reason, text_of}
use imquic.Moq.Messages.Reason.Build.{put_reason}
use imquic.Moq.Messages.Done.{type_publish_done}

-- What follows the type and the length.
unfoldable pub done_content :
    (version request_id status streams_count : ℕ) (reason : Option Bytes) → Writer
done_content version request_id status streams_count reason = do
  when (leb version version_16) (put_number version request_id)
  put_number version status
  put_number version streams_count
  put_reason version reason

-- `has_stream` is that the stream is not NULL.
unfoldable pub add_publish_done :
    (version : ℕ) (has_stream : Bool) (request_id status streams_count : ℕ) (reason : Option Bytes)
    → Writer
add_publish_done version has_stream request_id status streams_count reason room =
    if ltb room 5
      || ltb sizeof_reason (length (text_of reason))
      || leb version_17 version && not has_stream
    then rejected
    else add_message version type_publish_done
        (done_content version request_id status streams_count reason) room
