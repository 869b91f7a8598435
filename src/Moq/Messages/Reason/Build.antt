-- ===== src/Moq/Messages/Reason/Build.antt =====
-- The reason at the end of a message, in the builders `imquic_moq_add_publish_done` and
-- `imquic_moq_add_publish_namespace_cancel` (moq.c).
use imquic.Base.{ℕ, ◌+◌, ◌≤◌, Option, Bytes, length}
use imquic.Wire.Moqint.RoundTrip.{max_moqint}
use imquic.Wire.Writer.{
  Writer, Stores, ◌>>◌, put_number, put_bytes, put_number-Stores, put_bytes-Stores, >>-Stores,
}
use imquic.Moq.Messages.Reason.{text_of, reason_bytes}

unfoldable pub put_reason : (version : ℕ) → Option Bytes → Writer
put_reason version reason = do
  put_number version (length (text_of reason))
  put_bytes (text_of reason)

pub put_reason-Stores :
    (version : ℕ) (reason : Option Bytes)
    → length (text_of reason) ≤ max_moqint version
    → Stores
        (put_reason version reason)
        (9 + length (text_of reason))
        (reason_bytes version (text_of reason))
unfolding put_reason
put_reason-Stores version reason h =
    >>-Stores (put_number-Stores version _ h) (put_bytes-Stores (text_of reason))
