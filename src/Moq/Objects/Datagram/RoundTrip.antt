-- ===== src/Moq/Objects/Datagram/RoundTrip.antt =====
-- An object that is sent in a datagram is delivered.
use imquic.Base.{
  ℕ, ◌+◌, ◌≤◌, ◌<◌, ◌≡◌, ◌≢◌, refl, sym, ap, ◌∙◌, arith, ◌⊎◌, inl, true, false, not, List, [], ◌++◌,
  append-nil, some, Bytes, length, ◌==◌, if◌then◌else◌,
}
use imquic.Wire.Moqint.{read_moqint, write_moqint}
use imquic.Wire.Moqint.RoundTrip.{max_moqint}
use imquic.Wire.Moqint.Room.{write_moqint_pos}
use imquic.Wire.Writer.{stored, put_number-Stores, put_bytes-Stores}
use imquic.Wire.Reader.{
  parsed, Reads, pure, >>=-Reads, last-Reads, number-Reads, remaining-Reads, pure-Reads,
  check_protocol-Reads,
}
use imquic.Moq.DatagramType.{datagram_message_type_return}
use imquic.Moq.DatagramType.RoundTrip.{datagram_message_type_parse-return}
use imquic.Moq.Properties.{Property, parse_properties}
use imquic.Moq.Objects.{Object, end_of_track}
use imquic.Moq.Objects.Parse.{
  datagram_fields, parse_object_datagram, parse_object_datagram_status, map_parse, datagram_object,
  peeked, status_fields,
}
use imquic.Moq.Objects.Send.{datagram_flags, add_object_datagram, add_object_datagram_status}
use imquic.Moq.Objects.Datagram.{receive_datagram}
use imquic.Moq.Objects.Datagram.Fields.{
  IsWritable, known_properties-Reads, encode_fields, after_group, datagram-Stores, common-Reads,
  long_enough, receive_typed, object_id_kept,
}

pub peeked-Reads :
    (version : ℕ) (bytes : Bytes) → Reads (peeked version) [] (read_moqint version bytes).0 bytes
unfolding peeked
peeked-Reads version bytes = record { reads = refl }

module _ (version : ℕ) (o : Object) (properties : Bytes) (w : IsWritable version o)
    (small : length properties ≤ max_moqint version) (ps : List Property)
    (known : parse_properties version properties ≡ parsed ps) where
  -- An object with a payload that is sent in a datagram is delivered with its identifiers, its priority, its payload
  -- and the properties that its block is parsed to, if its numbers can be written, there is room for five numbers, the
  -- block and the payload, and either its identifier is not 0 or its payload has two bytes.
  pub receive_datagram-add_object_datagram :
      (room : ℕ)
      → 0 < length o.payload
      → (o.object_id ≢ 0) ⊎ (2 ≤ length o.payload)
      → 46 + length properties + length o.payload ≤ room
      → (bytes : Bytes) × (add_object_datagram version o properties room ≡ stored bytes)
        × (receive_datagram version bytes
            ≡ parsed (
                some
                  (datagram_object o.track_alias o.group_id o.object_id o.priority 0 o.payload ps)))
  unfolding add_object_datagram parse_object_datagram datagram_fields
  receive_datagram-add_object_datagram room some_payload which fits =
      let flags = datagram_flags true o properties in
      let dtype : ℕ = datagram_message_type_return flags in
      let fields : Bytes = encode_fields version o properties w small o.payload in
      let (parse, _) = datagram_message_type_parse-return flags in
      let reads =
        (common-Reads version o properties w small true some_payload (pure 0) 0 o.object_id _
          (object_id_kept o.object_id) (pure-Reads 0)
          (>>=-Reads _ (known_properties-Reads version properties ps known)
            (last-Reads _ (remaining-Reads o.payload) (pure-Reads _)))).reads in
      let delivered : parse_object_datagram version dtype fields
          ≡ parsed
              (datagram_object o.track_alias o.group_id o.object_id o.priority 0 o.payload ps, []) =
        rw (parse, long_enough version o properties w small o.payload some_payload which)
          (ap (datagram_fields version flags) (sym (append-nil fields)) ∙ reads) in
      (
        write_moqint version dtype 9 ++ fields,
        (datagram-Stores version o properties w small true (put_bytes-Stores o.payload)).stores room
            fits,
        receive_typed version o properties w small true fields
            ∙ ap (map_parse (λ r. some r.0)) delivered,
      )

  -- The status of an object that is sent in a datagram is delivered, with the object's identifiers, its priority and the
  -- properties that its block is parsed to, if its numbers can be written, its status is one that the protocol has, its
  -- identifier is not 0 and there is room for six numbers and the block.
  pub receive_datagram-add_object_datagram_status :
      (room : ℕ)
      → o.object_id ≢ 0
      → o.object_status ≤ end_of_track
      → 55 + length properties ≤ room
      → (bytes : Bytes) × (add_object_datagram_status version o properties room ≡ stored bytes)
        × (receive_datagram version bytes
            ≡ parsed (
                some (
                  datagram_object o.track_alias o.group_id o.object_id o.priority o.object_status []
                    ps)))
  unfolding add_object_datagram_status parse_object_datagram_status status_fields
  receive_datagram-add_object_datagram_status room identified status fits =
      let flags = datagram_flags false o properties in
      let dtype : ℕ = datagram_message_type_return flags in
      let end : Bytes = write_moqint version o.object_status 9 in
      let some_bytes = write_moqint_pos version o.object_status w.object_status in
      let fields : Bytes = encode_fields version o properties w small end in
      let (parse, _) = datagram_message_type_parse-return flags in
      let guess : ℕ =
        (read_moqint version (after_group version o properties w small end ++ [])).0 in
      let kept : (if not (o.object_id == 0) then o.object_id else guess) ≡ o.object_id =
        ground (arith, identified) in
      let reads =
        (common-Reads version o properties w small false some_bytes (peeked version) guess
          o.object_id _ kept (peeked-Reads version _)
          (>>=-Reads _ (known_properties-Reads version properties ps known) (
            last-Reads _ (number-Reads version o.object_status w.object_status) (
              >>=-Reads _ (check_protocol-Reads (ground (arith, status)))
                (pure-Reads _))))).reads in
      let delivered : parse_object_datagram_status version dtype fields
          ≡ parsed (
            datagram_object o.track_alias o.group_id o.object_id o.priority o.object_status [] ps,
            [],
          ) =
        rw (parse, long_enough version o properties w small end some_bytes (inl identified))
          (ap (status_fields version flags) (sym (append-nil fields)) ∙ reads) in
      let fits' : 46 + length properties + 9 ≤ room = omega (arith, fits) in
      (
        write_moqint version dtype 9 ++ fields,
        (datagram-Stores version o properties w small false
              (put_number-Stores version o.object_status w.object_status)).stores
            room fits',
        receive_typed version o properties w small false fields
            ∙ ap (map_parse (λ r. some r.0)) delivered,
      )
