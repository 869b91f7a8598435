-- ===== src/Moq/Messages/Cancel/Build.antt =====
-- The builder of PUBLISH_NAMESPACE_CANCEL (moq.c): `imquic_moq_add_publish_namespace_cancel`.
use imquic.Base.{ℕ, ◌||◌, Option, Bytes, length, ltb, leb, if◌then◌else◌}
use imquic.Wire.Moqint.{version_17}
use imquic.Wire.Writer.{Writer, rejected, ◌>>◌, put_number}
use imquic.Moq.Messages.{add_message}
use imquic.Moq.Messages.Reason.{sizeof_reason, text_of}
use imquic.Moq.Messages.Reason.Build.{put_reason}
use imquic.Moq.Messages.Cancel.{type_publish_namespace_cancel}

-- What follows the type and the length.
unfoldable pub cancel_content : (version request_id error : ℕ) (reason : Option Bytes) → Writer
cancel_content version request_id error reason = do
  put_number version request_id
  put_number version error
  put_reason version reason

unfoldable pub add_publish_namespace_cancel :
    (version request_id error : ℕ) (reason : Option Bytes) → Writer
add_publish_namespace_cancel version request_id error reason room =
    if ltb room 1 || ltb sizeof_reason (length (text_of reason)) || leb version_17 version
    then rejected
    else add_message version type_publish_namespace_cancel
        (cancel_content version request_id error reason) room
