-- ===== src/Moq/Objects/Encoding.antt =====
-- The bytes of an object on a subgroup's stream, as they are added and as they are parsed.
use imquic.Base.{
  ℕ, suc, ◌+◌, ◌≤◌, ◌<◌, ◌≡◌, arith, true, false, [], ◌∷◌, ◌++◌, Bytes, length, ltb, ◌==◌,
  if◌then◌else◌, length-append, append_pos, append_pos_right,
}
use imquic.Wire.Moqint.{write_moqint}
use imquic.Wire.Moqint.RoundTrip.{max_moqint}
use imquic.Wire.Moqint.Room.{write_moqint_pos}
use imquic.Wire.Writer.{Stores, put_number-Stores, put_bytes-Stores, >>-Stores, when-Stores}
use imquic.Wire.Reader.{
  Reads, >>=-Reads, last-Reads, number_before-Reads, number-Reads, data_before-Reads, data_of-Reads,
  if_there-Reads, pure-Reads,
}
use imquic.Moq.Objects.{Object, MoqStream}
use imquic.Moq.Objects.Parse.{
  ObjectFields, property_block, object_payload, subgroup_object_fields, flags_of,
}
use imquic.Moq.Objects.Send.{guarded, add_payload, add_subgroup_header_object}
use imquic.Moq.Objects.Datagram.Fields.{IsWritable, encode_block, add_properties-Stores}

abbrev pub encode_payload : (version object_status : ℕ) (payload : Bytes) → Bytes
encode_payload version object_status payload =
    write_moqint version (length payload) 9
    ++ ((if length payload == 0 then write_moqint version object_status 9 else []) ++ payload)

pub payload-Stores :
    (version object_status : ℕ) (payload : Bytes)
    → length payload ≤ max_moqint version
    → object_status ≤ max_moqint version
    → Stores
        (add_payload version object_status payload)
        (9 + (9 + length payload))
        (encode_payload version object_status payload)
unfolding add_payload
payload-Stores version object_status payload fits status =
    >>-Stores (put_number-Stores version _ fits) (
      >>-Stores (when-Stores (length payload == 0) (put_number-Stores version object_status status))
        (put_bytes-Stores payload))

content_pos :
    (version object_status : ℕ) (payload rest : Bytes)
    → object_status ≤ max_moqint version
    → 0
      < length (
          ((if length payload == 0 then write_moqint version object_status 9 else []) ++ payload)
          ++ rest)
content_pos version object_status [] rest status =
    append_pos _ rest (append_pos _ [] (write_moqint_pos version object_status status))
content_pos version object_status (b ∷ bs) rest status = append_pos _ rest (
    append_pos_right (if suc (length bs) == 0 then write_moqint version object_status 9 else [])
      (b ∷ bs) (omega arith))

pub payload-Reads :
    (version object_status : ℕ) (payload : Bytes) {rest : Bytes}
    → length payload ≤ max_moqint version
    → object_status ≤ max_moqint version
    → Reads
        (object_payload version)
        (encode_payload version object_status payload)
        (if length payload == 0 then object_status else 0, payload)
        rest
unfolding object_payload
payload-Reads version object_status payload {rest} fits status =
    >>=-Reads _
      (number_before-Reads version (length payload) fits
        (content_pos version object_status payload rest status))
      (>>=-Reads _
        (if_there-Reads (length payload == 0) 0
          (λ there. number-Reads version object_status status))
        (last-Reads _ (data_of-Reads payload) (pure-Reads _)))

-- An object's bytes on the stream.
abbrev pub encode_object : (version delta object_status : ℕ) (payload properties : Bytes) → Bytes
encode_object version delta object_status payload properties =
    write_moqint version delta 9
    ++ (encode_block version properties ++ encode_payload version object_status payload)

module _ (version : ℕ) (o : Object) (properties : Bytes) (w : IsWritable version o)
    (small : length properties ≤ max_moqint version) (delta : ℕ)
    (delta_fits : delta ≤ max_moqint version) where
  abbrev pub encoded : Bytes
  encoded = encode_object version delta o.object_status o.payload properties

  pub object-Stores :
      (stream : MoqStream)
      → (flags_of version stream).prop ≡ true
      → Stores
          (add_subgroup_header_object version stream delta o.object_status o.payload properties)
          (length properties + length o.payload + 100)
          encoded
  unfolding add_subgroup_header_object guarded
  object-Stores stream prop =
      let all = >>-Stores (put_number-Stores version delta delta_fits) (
        >>-Stores (when-Stores true (add_properties-Stores version properties small))
          (payload-Stores version o.object_status o.payload w.payload w.object_status)) in
      let few = all.few in
      record {
        few = omega (arith, few);
        stores = λ room r.
            (let t : ltb room 1 ≡ false = ground (arith, r) in
              rw (t, prop) (all.stores room (omega (arith, r))));
      }

  payload_pos :
      (rest : Bytes) → 0 < length (encode_payload version o.object_status o.payload ++ rest)
  payload_pos rest =
      append_pos _ rest (append_pos _ _ (write_moqint_pos version (length o.payload) w.payload))

  abbrev pub fields : ObjectFields
  fields = record {
    object_id = delta;
    block = properties;
    object_status = if length o.payload == 0 then o.object_status else 0;
    payload = o.payload;
  }

  pub fields-Reads :
      {rest : Bytes} → Reads (subgroup_object_fields version true) encoded fields rest
  unfolding subgroup_object_fields property_block
  fields-Reads {rest} =
      >>=-Reads _
        (number_before-Reads version delta delta_fits (
          append_pos _ rest
            (append_pos _ _ (append_pos _ _ (write_moqint_pos version (length properties) small)))))
        (>>=-Reads _
          (if_there-Reads true [] (λ there.
            >>=-Reads _
              (number_before-Reads version (length properties) small
                (append_pos_right properties _ (payload_pos rest)))
              (data_before-Reads properties (payload_pos rest))))
          (last-Reads _ (payload-Reads version o.object_status o.payload w.payload w.object_status)
            (pure-Reads _)))

  pub encoded-length : 2 ≤ length encoded
  encoded-length =
      let d = write_moqint_pos version delta delta_fits in
      let b = write_moqint_pos version (length properties) small in
      let content : Bytes = encode_payload version o.object_status o.payload in
      omega (
        arith,
        length-append (write_moqint version delta 9) (encode_block version properties ++ content),
        length-append (encode_block version properties) content,
        length-append (write_moqint version (length properties) 9) properties,
        d,
        b,
      )
