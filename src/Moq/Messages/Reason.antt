-- ===== src/Moq/Messages/Reason.antt =====
-- The reason at the end of a message (moq.c), in `imquic_moq_parse_publish_done` and
-- `imquic_moq_parse_publish_namespace_cancel`.
pub mod Build
use imquic.Base.{
  ℕ, zero, ◌+◌, ◌≤◌, ◌<◌, ◌≡◌, refl, sym, ap, ◌∙◌, arith, Bool, true, false, not, ◌⊎◌, inl, inr,
  Bool-cases, Option, none, some, [], ◌++◌, Bytes, length, All, leb, ◌==◌, if◌then◌else◌,
  length-zero,
}
use imquic.Glib.{GSnprintf}
use imquic.Wire.Moqint.{write_moqint}
use imquic.Wire.Moqint.RoundTrip.{max_moqint}
use imquic.Wire.Reader.{
  Reader, ◌>>=◌, ◌>>◌, pure, check_protocol, if_there, number, data_of, Reads, >>=-Reads,
  last-Reads, number-Reads, data_of-Reads, check_protocol-Reads, if_there-Reads, pure-Reads,
}

-- The size of the array that the text is printed into.
abbrev pub sizeof_reason : ℕ
sizeof_reason = 1024

unfoldable pub given_reason : GSnprintf → (rs_len : ℕ) → Reader (Option Bytes)
given_reason snprintf rs_len = do
  text ← data_of rs_len
  check_protocol (leb rs_len sizeof_reason)
  pure (some (snprintf.print sizeof_reason text))

-- `reason_str`, which is NULL where the length is 0.
unfoldable pub parse_reason : GSnprintf → (version : ℕ) → Reader (Option Bytes)
parse_reason snprintf version = do
  rs_len ← number version
  if_there (not (rs_len == 0)) none (given_reason snprintf rs_len)

-- A string, without the zero byte that ends it; NULL is none.
abbrev pub text_of : Option Bytes → Bytes
text_of none = []
text_of (some text) = text

-- A reason that the array can hold.
pub record IsReason (text : Bytes) : Type 0 where
  pub fits : length text < sizeof_reason
  pub no_zero : All (λ b. 0 < b) text

abbrev pub reason_bytes : (version : ℕ) (text : Bytes) → Bytes
reason_bytes version text = write_moqint version (length text) 9 ++ text

-- What the application gets for a text.
abbrev pub reason_str : Bytes → Option Bytes
reason_str text = if not (length text == 0) then some text else none

module _ (snprintf : GSnprintf) where
  given_reason-Reads :
      (text : Bytes) {rest : Bytes}
      → IsReason text
      → Reads (given_reason snprintf (length text)) text (some text) rest
  unfolding given_reason
  given_reason-Reads text {rest} valid =
      let fits = valid.fits in
      let short : leb (length text) sizeof_reason ≡ true = ground (arith, fits) in
      let all : Reads (pure (some (snprintf.print sizeof_reason text))) [] (some text) rest =
        record { reads = rw (snprintf.whole sizeof_reason text fits valid.no_zero) refl } in
      last-Reads _ (data_of-Reads text) (last-Reads _ (check_protocol-Reads short) all)

  empty_or_all : (text : Bytes) → (if not (length text == 0) then text else []) ≡ text
  empty_or_all text = elim (Bool-cases (length text == 0)) [
    | inl t ↦ rw t (sym (length-zero text (ground (arith, t))))
    | inr t ↦ rw t refl
  ]

  pub parse_reason-Reads :
      (version : ℕ) (text : Bytes) {rest : Bytes}
      → IsReason text
      → length text ≤ max_moqint version
      → Reads (parse_reason snprintf version) (reason_bytes version text) (reason_str text) rest
  unfolding parse_reason
  parse_reason-Reads version text {rest} valid h =
      let there : Reads
          (if_there (not (length text == 0)) none (given_reason snprintf (length text)))
          (if not (length text == 0) then text else []) (reason_str text) rest =
        if_there-Reads (not (length text == 0)) none (λ n. given_reason-Reads text valid) in
      >>=-Reads _ (number-Reads version (length text) h) (record {
        reads =
            ap
              (λ t.
                if_there (not (length text == 0)) none (given_reason snprintf (length text))
                  (t ++ rest))
              (sym (empty_or_all text))
            ∙ there.reads;
      })
