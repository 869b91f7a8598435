-- ===== src/Moq/Messages/Cancel.antt =====
-- PUBLISH_NAMESPACE_CANCEL (moq.c): `imquic_moq_parse_publish_namespace_cancel` and
-- `imquic_moq_add_publish_namespace_cancel`.
pub mod Build
pub mod RoundTrip
use imquic.Base.{ℕ, Option, none, some, Bytes, length, ◌==◌, if◌then◌else◌}
use imquic.Glib.{GSnprintf}
use imquic.Wire.Reader.{broken, Reader, ◌>>=◌, pure, number_before}
use imquic.Moq.Messages.Reason.{parse_reason}

abbrev pub type_publish_namespace_cancel : ℕ
type_publish_namespace_cancel = 0xc

-- The array `reason`, which is handed to the application even where nothing has been printed into it.
pub data ReasonArray : Type 0 where
  uninitialised : ReasonArray
  holds : Bytes → ReasonArray

abbrev pub array_of : Option Bytes → ReasonArray
array_of none = uninitialised
array_of (some text) = holds text

-- What the application gets.
pub record NamespaceCancel : Type 0 where
  pub request_id : ℕ
  pub error_code : ℕ
  pub reason : ReasonArray

unfoldable pub cancel_fields : GSnprintf → (version : ℕ) → Reader NamespaceCancel
cancel_fields snprintf version = do
  request_id ← number_before version
  error_code ← number_before version
  reason ← parse_reason snprintf version
  pure (record { request_id = request_id; error_code = error_code; reason = array_of reason })

unfoldable pub parse_publish_namespace_cancel : GSnprintf → (version : ℕ) → Reader NamespaceCancel
parse_publish_namespace_cancel snprintf version bytes =
    if length bytes == 0 then broken else cancel_fields snprintf version bytes
