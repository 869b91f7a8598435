-- ===== src/Moq/Objects/Datagram/LeftOut.antt =====
-- The first object of a group, whose identifier a datagram leaves out.
use imquic.Base.{
  ℕ, suc, ◌+◌, ◌≤◌, ◌<◌, ◌≡◌, refl, sym, ap, ◌∙◌, arith, true, false, not, [], ◌∷◌, ◌++◌,
  append-nil, some, Bytes, length, ltb, ◌==◌, if◌then◌else◌,
}
use imquic.Wire.Varint.{write_varint}
use imquic.Wire.Moqint.{read_moqint, write_moqint, write_long_moqint}
use imquic.Wire.Moqint.RoundTrip.{max_moqint}
use imquic.Wire.Moqint.Room.{write_moqint_pos, length-write_moqint}
use imquic.Wire.Writer.{stored, put_number-Stores, put_bytes-Stores}
use imquic.Wire.Reader.{
  broken, parsed, read_back, >>=-Reads, last-Reads, number-Reads, pure-Reads, check_protocol-Reads,
}
use imquic.Moq.DatagramType.{datagram_message_type_return}
use imquic.Moq.DatagramType.RoundTrip.{datagram_message_type_parse-return}
use imquic.Moq.Properties.{parse_properties, parse_loop}
use imquic.Moq.Objects.{Object, end_of_track}
use imquic.Moq.Objects.Parse.{
  parse_object_datagram, parse_object_datagram_status, map_parse, datagram_object, peeked,
  status_fields,
}
use imquic.Moq.Objects.Send.{datagram_flags, add_object_datagram, add_object_datagram_status}
use imquic.Moq.Objects.Datagram.{receive_datagram}
use imquic.Moq.Objects.Datagram.RoundTrip.{peeked-Reads}
use imquic.Moq.Objects.Datagram.Fields.{
  IsWritable, known_properties-Reads, encode_fields, after_group, datagram-Stores, common-Reads,
  fields_length, receive_typed,
}

small_number : (version n : ℕ) → n < 64 → length (write_moqint version n 9) ≡ 1
small_number version n h = ground (arith, length-write_moqint version n (ground (arith, h)), h)

written_small : (version b : ℕ) → b < 64 → write_moqint version b 9 ≡ b ∷ []
unfolding write_moqint write_long_moqint write_varint
written_small version b h = ground (arith, h)

read_small : (version b : ℕ) (rest : Bytes) → b < 64 → read_moqint version (b ∷ rest) ≡ (b, 1)
read_small version b rest h =
    let w = written_small version b h in
    let (read, _) = read_back version b rest (ground (arith, h)) in rw w at read

large_number :
    (version n : ℕ) → 128 ≤ n → n ≤ max_moqint version → 2 ≤ length (write_moqint version n 9)
large_number version n h fits = ground (arith, length-write_moqint version n fits, h)

module _ (version : ℕ) (o : Object) (w : IsWritable version o) (first : o.object_id ≡ 0) where
  none_small : length {A = ℕ} [] ≤ max_moqint version
  none_small = ground arith

  left_out_length :
      (tail : Bytes)
      → length (encode_fields version o [] w none_small tail)
        ≡ length (write_moqint version o.track_alias 9)
          + length (write_moqint version o.group_id 9)
          + suc (length tail)
  left_out_length tail =
      let t : (o.object_id == 0) ≡ true = ground (arith, first) in
      let e : length (if not (o.object_id == 0) then write_moqint version o.object_id 9 else [])
          ≡ 0 =
        rw t refl in
      omega (arith, fields_length version o [] w none_small tail, e)

  -- An object without properties, with the identifier 0 and one byte of payload, of a track and a group below 64, whose
  -- numbers can be written, is sent in a datagram, where there is room for 47 bytes, that the peer refuses as broken,
  -- since it is shorter than five bytes.
  pub first_object_dropped :
      (room : ℕ)
      → length o.payload ≡ 1
      → o.track_alias < 64
      → o.group_id < 64
      → 47 ≤ room
      → (bytes : Bytes) × (add_object_datagram version o [] room ≡ stored bytes)
        × (receive_datagram version bytes ≡ broken)
  unfolding add_object_datagram parse_object_datagram
  first_object_dropped room one track group fits =
      let flags = datagram_flags true o [] in
      let dtype : ℕ = datagram_message_type_return flags in
      let fields : Bytes = encode_fields version o [] w none_small o.payload in
      let short : ltb (length fields) 5 ≡ true = ground (
        arith,
        left_out_length o.payload,
        small_number version o.track_alias track,
        small_number version o.group_id group,
        one,
      ) in
      let refused : parse_object_datagram version dtype fields ≡ broken = rw short refl in
      (
        write_moqint version dtype 9 ++ fields,
        (datagram-Stores version o [] w none_small true (put_bytes-Stores o.payload)).stores room
            (omega (arith, one, fits)),
        receive_typed version o [] w none_small true fields
            ∙ ap (map_parse (λ r. some r.0)) refused,
      )

  -- The status of an object without properties, with the identifier 0, whose track's alias is 128 or more, whose
  -- priority is below 64, whose numbers can be written and whose status is one that the protocol has, is delivered, where
  -- there is room for 55 bytes, with the priority as the object's identifier.
  pub first_status_misread :
      (room : ℕ)
      → 128 ≤ o.track_alias
      → o.priority < 64
      → o.object_status ≤ end_of_track
      → 55 ≤ room
      → (bytes : Bytes) × (add_object_datagram_status version o [] room ≡ stored bytes)
        × (receive_datagram version bytes
            ≡ parsed (
                some (
                  datagram_object o.track_alias o.group_id o.priority o.priority o.object_status []
                    [])))
  unfolding add_object_datagram_status parse_object_datagram_status status_fields
  first_status_misread room track priority status fits =
      let flags = datagram_flags false o [] in
      let dtype : ℕ = datagram_message_type_return flags in
      let end : Bytes = write_moqint version o.object_status 9 in
      let some_bytes = write_moqint_pos version o.object_status w.object_status in
      let fields : Bytes = encode_fields version o [] w none_small end in
      let (parse, _) = datagram_message_type_parse-return flags in
      let t : (o.object_id == 0) ≡ true = ground (arith, first) in
      let read : read_moqint version (o.priority ∷ (end ++ [])) ≡ (o.priority, 1) =
        read_small version o.priority (end ++ []) priority in
      let found : (if not (o.object_id == 0)
            then o.object_id
            else (read_moqint version (after_group version o [] w none_small end ++ [])).0)
          ≡ o.priority =
        rw t (ap (λ r. r.0) read) in
      let reads =
        (common-Reads version o [] w none_small false some_bytes (peeked version) _ o.priority _
          found (peeked-Reads version (after_group version o [] w none_small end ++ []))
          (>>=-Reads _
            (known_properties-Reads version [] [] (unfold parse_properties parse_loop in refl))
            (last-Reads _ (number-Reads version o.object_status w.object_status) (
              >>=-Reads _ (check_protocol-Reads (ground (arith, status)))
                (pure-Reads _))))).reads in
      let long : ltb (length fields) 5 ≡ false = ground (
        arith,
        left_out_length end,
        large_number version o.track_alias track w.track_alias,
        write_moqint_pos version o.group_id w.group_id,
        some_bytes,
      ) in
      let delivered : parse_object_datagram_status version dtype fields
          ≡ parsed (
            datagram_object o.track_alias o.group_id o.priority o.priority o.object_status [] [],
            [],
          ) =
        rw (parse, long) (ap (status_fields version flags) (sym (append-nil fields)) ∙ reads) in
      (
        write_moqint version dtype 9 ++ fields,
        (datagram-Stores version o [] w none_small false
              (put_number-Stores version o.object_status w.object_status)).stores
            room (omega (arith, fits)),
        receive_typed version o [] w none_small false fields
            ∙ ap (map_parse (λ r. some r.0)) delivered,
      )
