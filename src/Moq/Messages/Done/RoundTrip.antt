-- ===== src/Moq/Messages/Done/RoundTrip.antt =====
-- A PUBLISH_DONE that is built is framed and parsed.
use imquic.Base.{
  ℕ, ◌+◌, ◌≤◌, ◌<◌, ◌≡◌, refl, sym, ap, ◌∙◌, arith, Bool, true, false, not, ◌&&◌, ◌||◌, Option, [],
  ◌++◌, append-nil, Bytes, length, ltb, leb, ◌==◌, if◌then◌else◌, append_pos, append_pos_right,
}
use imquic.Glib.{GSnprintf}
use imquic.Wire.Moqint.{version_16, version_17, write_moqint}
use imquic.Wire.Moqint.RoundTrip.{max_moqint}
use imquic.Wire.Moqint.Room.{write_moqint_pos}
use imquic.Wire.Writer.{stored, Stores, put_number-Stores, >>-Stores, when-Stores}
use imquic.Wire.Reader.{
  parsed, Reads, pure, number, >>=-Reads, last-Reads, number-Reads, number_before-Reads, pure-Reads,
}
use imquic.Moq.Messages.{message, next_message}
use imquic.Moq.Messages.Framing.{framed, add_message-Stores, next_message-framed}
use imquic.Moq.Messages.Reason.{
  sizeof_reason, text_of, IsReason, reason_bytes, reason_str, parse_reason-Reads,
}
use imquic.Moq.Messages.Reason.Build.{put_reason-Stores}
use imquic.Moq.Messages.Done.{
  type_publish_done, RequestStream, can_be_done, PublishDone, id_of, read_request_id, end_request,
  publish_done_fields, parse_publish_done,
}
use imquic.Moq.Messages.Done.Build.{done_content, add_publish_done}

-- What a PUBLISH_DONE can carry.
pub record IsDone (version request_id status streams_count : ℕ) (text : Bytes) : Type 0 where
  pub id_fits : request_id ≤ max_moqint version
  pub status_fits : status ≤ max_moqint version
  pub count_fits : streams_count ≤ max_moqint version
  pub reason : IsReason text

-- The stream of the request, where the version has one: it can end, and is of this request.
pub record IsOpen (version request_id : ℕ) (stream : Option RequestStream) : Type 0 where
  pub can_end : version_17 ≤ version → can_be_done stream ≡ true
  pub same_id : version_17 ≤ version → id_of stream ≡ request_id

abbrev pub publish_done : (request_id status streams_count : ℕ) (text : Bytes) → PublishDone
publish_done request_id status streams_count text = record {
  request_id = request_id;
  status_code = status;
  streams_count = streams_count;
  reason = reason_str text;
}

module _ (snprintf : GSnprintf) (version request_id status streams_count : ℕ)
    (reason : Option Bytes)
    (valid : IsDone version request_id status streams_count (text_of reason)) where
  abbrev text : Bytes
  text = text_of reason

  abbrev count_on : Bytes
  count_on = write_moqint version streams_count 9 ++ reason_bytes version text

  abbrev status_on : Bytes
  status_on = write_moqint version status 9 ++ count_on

  abbrev content : Bytes
  content = (if leb version version_16 then write_moqint version request_id 9 else []) ++ status_on

  length_fits : length text ≤ max_moqint version
  length_fits = let h = valid.reason.fits in ground (arith, h)

  content-Stores :
      Stores
        (done_content version request_id status streams_count reason)
        (9 + (9 + (9 + (9 + length text))))
        content
  unfolding done_content
  content-Stores =
      >>-Stores
        (when-Stores (leb version version_16) (put_number-Stores version request_id valid.id_fits))
        (>>-Stores (put_number-Stores version status valid.status_fits) (
          >>-Stores (put_number-Stores version streams_count valid.count_fits)
            (put_reason-Stores version reason length_fits)))

  reason_pos : 0 < length (reason_bytes version text)
  reason_pos =
      append_pos (write_moqint version (length text) 9) text
        (write_moqint_pos version (length text) length_fits)

  number_or-Reads :
      (b : Bool) (n : ℕ) {rest : Bytes}
      → (b ≡ false → n ≡ request_id)
      → Reads
          (λ bytes. if b then number version bytes else pure n bytes)
          (if b then write_moqint version request_id 9 else [])
          request_id
          rest
  number_or-Reads true n h = record {
    reads = (number-Reads version request_id valid.id_fits).reads;
  }
  number_or-Reads false n {rest} h = record { reads = ap (λ m. parsed (m, rest)) (h refl) }

  read_request_id-Reads :
      (stream : Option RequestStream) {rest : Bytes}
      → IsOpen version request_id stream
      → Reads
          (read_request_id version stream)
          (if leb version version_16 then write_moqint version request_id 9 else [])
          request_id
          rest
  unfolding read_request_id
  read_request_id-Reads stream at =
      number_or-Reads (leb version version_16) (id_of stream) (λ t. at.same_id (ground (arith, t)))

  fields-Reads :
      (stream : Option RequestStream)
      → IsOpen version request_id stream
      → Reads
          (publish_done_fields snprintf version stream)
          content
          (publish_done request_id status streams_count text, end_request stream)
          []
  unfolding publish_done_fields
  fields-Reads stream at =
      let pos = reason_pos in
      let some_count : 0 < length count_on =
        append_pos_right (write_moqint version streams_count 9) (reason_bytes version text) pos in
      >>=-Reads _ (read_request_id-Reads stream at) (
        >>=-Reads _
          (number_before-Reads version status valid.status_fits
            (rw (append-nil count_on) some_count))
          (>>=-Reads _
            (number_before-Reads version streams_count valid.count_fits
              (rw (append-nil (reason_bytes version text)) pos))
            (last-Reads _ (parse_reason-Reads snprintf version text valid.reason length_fits)
              (pure-Reads _))))

  -- With room for the type, the length, four numbers and the reason, a PUBLISH_DONE whose numbers fit and whose reason
  -- has at most 1023 bytes, none of them zero, is built (from version 17 on, for a stream), whatever bytes come behind
  -- it in the stream it is the next message there, and parsing its content, for a stream of this request that can end,
  -- gives the application what was sent and leaves the stream's request done.
  pub parse_publish_done-add_publish_done :
      (room : ℕ)
      → 47 + length (text_of reason) ≤ room
      → (has_stream : Bool) → (version_17 ≤ version → has_stream ≡ true)
      → (stream : Option RequestStream) → IsOpen version request_id stream
      → (bytes sent : Bytes) × (add_publish_done version has_stream request_id status streams_count
            reason room
          ≡ stored bytes)
        × ((rest : Bytes)
            → next_message version (bytes ++ rest) ≡ message type_publish_done sent rest)
        × (parse_publish_done snprintf version stream sent
            ≡ parsed (
              (publish_done request_id status streams_count (text_of reason), end_request stream),
              [],
            ))
  unfolding add_publish_done parse_publish_done
  parse_publish_done-add_publish_done room fits has_stream streamed stream at =
      let reason_fits = valid.reason.fits in
      let all = content-Stores in
      let few = all.few in
      let pos : 0 < length content =
        append_pos_right (if leb version version_16 then write_moqint version request_id 9 else [])
          status_on
          (append_pos (write_moqint version status 9) count_on
            (write_moqint_pos version status valid.status_fits)) in
      let type_fits : type_publish_done ≤ max_moqint version = ground arith in
      let t : (ltb room 5
            || ltb sizeof_reason (length text)
            || leb version_17 version && not has_stream)
          ≡ false =
        ground (arith, reason_fits, fits, streamed) in
      let u : (length content == 0) ≡ false = ground (arith, pos) in
      let w : (leb version_17 version && not (can_be_done stream)) ≡ false =
        ground (arith, at.can_end) in
      let added =
        (add_message-Stores version type_publish_done type_fits all).stores room
          (omega (arith, fits)) in
      (
        framed version type_publish_done content,
        content,
        rw t added,
        λ rest.
            next_message-framed version type_publish_done content rest type_fits (omega arith)
              (omega (arith, few, reason_fits)),
        rw (u, w)
            (ap (publish_done_fields snprintf version stream) (sym (append-nil content))
              ∙ (fields-Reads stream at).reads),
      )
