-- ===== src/Moq/Messages/Cancel/RoundTrip.antt =====
-- A PUBLISH_NAMESPACE_CANCEL that is built is framed and parsed.
use imquic.Base.{
  ℕ, ◌+◌, ◌≤◌, ◌<◌, ◌≡◌, sym, ap, ◌∙◌, arith, false, ◌||◌, Option, [], ◌++◌, append-nil, Bytes,
  length, ltb, leb, ◌==◌, append_pos, append_pos_right,
}
use imquic.Glib.{GSnprintf}
use imquic.Wire.Moqint.{version_16, version_17, write_moqint}
use imquic.Wire.Moqint.RoundTrip.{max_moqint}
use imquic.Wire.Moqint.Room.{write_moqint_pos}
use imquic.Wire.Writer.{stored, Stores, put_number-Stores, >>-Stores}
use imquic.Wire.Reader.{parsed, Reads, >>=-Reads, last-Reads, number_before-Reads, pure-Reads}
use imquic.Moq.Messages.{message, next_message}
use imquic.Moq.Messages.Framing.{framed, add_message-Stores, next_message-framed}
use imquic.Moq.Messages.Reason.{
  sizeof_reason, text_of, IsReason, reason_bytes, reason_str, parse_reason-Reads,
}
use imquic.Moq.Messages.Reason.Build.{put_reason-Stores}
use imquic.Moq.Messages.Cancel.{
  type_publish_namespace_cancel, array_of, cancel_fields, parse_publish_namespace_cancel,
}
use imquic.Moq.Messages.Cancel.Build.{cancel_content, add_publish_namespace_cancel}

-- What a PUBLISH_NAMESPACE_CANCEL can carry.
pub record IsCancel (version request_id error_code : ℕ) (text : Bytes) : Type 0 where
  pub old : version ≤ version_16
  pub id_fits : request_id ≤ max_moqint version
  pub error_fits : error_code ≤ max_moqint version
  pub reason : IsReason text

module _ (snprintf : GSnprintf) (version request_id error_code : ℕ) (reason : Option Bytes)
    (valid : IsCancel version request_id error_code (text_of reason)) where
  abbrev text : Bytes
  text = text_of reason

  abbrev error_on : Bytes
  error_on = write_moqint version error_code 9 ++ reason_bytes version text

  abbrev content : Bytes
  content = write_moqint version request_id 9 ++ error_on

  length_fits : length text ≤ max_moqint version
  length_fits = let h = valid.reason.fits in ground (arith, h)

  content-Stores :
      Stores
        (cancel_content version request_id error_code reason)
        (9 + (9 + (9 + length text)))
        content
  unfolding cancel_content
  content-Stores = >>-Stores (put_number-Stores version request_id valid.id_fits) (
      >>-Stores (put_number-Stores version error_code valid.error_fits)
        (put_reason-Stores version reason length_fits))

  reason_pos : 0 < length (reason_bytes version text)
  reason_pos =
      append_pos (write_moqint version (length text) 9) text
        (write_moqint_pos version (length text) length_fits)

  fields-Reads :
      Reads
        (cancel_fields snprintf version)
        content
        (record {
          request_id = request_id;
          error_code = error_code;
          reason = array_of (reason_str text);
        })
        []
  unfolding cancel_fields
  fields-Reads =
      let some_error =
        append_pos_right (write_moqint version error_code 9) (reason_bytes version text)
          reason_pos in
      >>=-Reads _
        (number_before-Reads version request_id valid.id_fits (rw (append-nil error_on) some_error))
        (>>=-Reads _
          (number_before-Reads version error_code valid.error_fits
            (rw (append-nil (reason_bytes version text)) reason_pos))
          (last-Reads _ (parse_reason-Reads snprintf version text valid.reason length_fits)
            (pure-Reads _)))

  -- With room for the type, the length, three numbers and the reason, in version 16, a PUBLISH_NAMESPACE_CANCEL whose
  -- numbers fit and whose reason has at most 1023 bytes, none of them zero, is built, whatever bytes come behind it in
  -- the stream it is the next message there, and parsing its content gives the application the numbers that were sent
  -- and the reason in an array, which is not initialised where the reason is empty.
  pub parse_publish_namespace_cancel-add_publish_namespace_cancel :
      (room : ℕ)
      → 38 + length (text_of reason) ≤ room
      → (bytes sent : Bytes) × (add_publish_namespace_cancel version request_id error_code reason
            room
          ≡ stored bytes)
        × ((rest : Bytes)
            → next_message version (bytes ++ rest)
              ≡ message type_publish_namespace_cancel sent rest)
        × (parse_publish_namespace_cancel snprintf version sent
            ≡ parsed (
              record {
                request_id = request_id;
                error_code = error_code;
                reason = array_of (reason_str (text_of reason));
              },
              [],
            ))
  unfolding add_publish_namespace_cancel parse_publish_namespace_cancel
  parse_publish_namespace_cancel-add_publish_namespace_cancel room fits =
      let reason_fits = valid.reason.fits in
      let old = valid.old in
      let few = content-Stores.few in
      let pos : 0 < length content =
        append_pos (write_moqint version request_id 9) error_on
          (write_moqint_pos version request_id valid.id_fits) in
      let type_fits : type_publish_namespace_cancel ≤ max_moqint version = ground arith in
      let t : (ltb room 1 || ltb sizeof_reason (length text) || leb version_17 version) ≡ false =
        ground (arith, reason_fits, fits, old) in
      let u : (length content == 0) ≡ false = ground (arith, pos) in
      let all = add_message-Stores version type_publish_namespace_cancel type_fits content-Stores in
      (
        framed version type_publish_namespace_cancel content,
        content,
        rw t (all.stores room (omega (arith, fits))),
        λ rest.
            next_message-framed version type_publish_namespace_cancel content rest type_fits
              (omega arith) (omega (arith, few, reason_fits)),
        rw u (ap (cancel_fields snprintf version) (sym (append-nil content)) ∙ fields-Reads.reads),
      )
