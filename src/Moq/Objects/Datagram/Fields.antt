-- ===== src/Moq/Objects/Datagram/Fields.antt =====
-- What is added to a datagram and what is parsed of it, from its type to the payload or the status.
use imquic.Base.{
  ℕ, suc, ◌+◌, ◌%◌, ◌^◌, ◌≤◌, ◌<◌, ◌≡◌, ◌≢◌, refl, arith, ◌⊎◌, inl, inr, Bool, true, false, not,
  ◌&&◌, List, [], ◌∷◌, ◌++◌, some, Bytes, length, ltb, leb, ◌==◌, if◌then◌else◌, Bool-cases,
  length-append, drop-length_append, append_pos, append_pos_right,
}
use imquic.Wire.Moqint.{version_18, write_moqint}
use imquic.Wire.Moqint.RoundTrip.{max_moqint}
use imquic.Wire.Moqint.Room.{write_moqint_pos}
use imquic.Wire.Writer.{
  Writer, Stores, put_number-Stores, put_bytes-Stores, put_byte-Stores, >>-Stores, when-Stores,
}
use imquic.Wire.Reader.{
  parsed, Reads, Reader, read_back, >>=-Reads, Reads-value, number_before-Reads, data_before-Reads,
  byte-Reads, if_there-Reads, check_protocol-Reads,
}
use imquic.Moq.DatagramType.{DatagramFlags, datagram_message_type_return}
use imquic.Moq.DatagramType.RoundTrip.{datagram_message_type_parse-return}
use imquic.Moq.Properties.{Property, parse_properties}
use imquic.Moq.Objects.{Object}
use imquic.Moq.Objects.Parse.{
  known_properties, datagram_block, datagram_fields_of, parse_object_datagram,
  parse_object_datagram_status, map_parse,
}
use imquic.Moq.Objects.Send.{
  padding_datagram, guarded, add_properties, datagram_flags, datagram_fields_then,
}
use imquic.Moq.Objects.Datagram.{receive_datagram}

-- The numbers of an object can be written.
pub record IsWritable (version : ℕ) (o : Object) : Type 0 where
  pub track_alias : o.track_alias ≤ max_moqint version
  pub group_id : o.group_id ≤ max_moqint version
  pub subgroup_id : o.subgroup_id ≤ max_moqint version
  pub object_id : o.object_id ≤ max_moqint version
  pub object_status : o.object_status ≤ max_moqint version
  pub payload : length o.payload ≤ max_moqint version

-- A block of properties with its length.
abbrev pub encode_block : (version : ℕ) (properties : Bytes) → Bytes
encode_block version properties = write_moqint version (length properties) 9 ++ properties

pub add_properties-Stores :
    (version : ℕ) (properties : Bytes)
    → length properties ≤ max_moqint version
    → Stores
        (add_properties version properties)
        (9 + length properties)
        (encode_block version properties)
unfolding add_properties
add_properties-Stores version properties h =
    let all =
      >>-Stores (put_number-Stores version (length properties) h) (put_bytes-Stores properties) in
    let few = all.few in
    record {
      few = omega (arith, few);
      stores =
          λ room r. (let t : ltb room 1 ≡ false = ground (arith, r) in rw t (all.stores room r));
    }

pub known_properties-Reads :
    (version : ℕ) (block : Bytes) (ps : List Property) {rest : Bytes}
    → parse_properties version block ≡ parsed ps
    → Reads (known_properties version block) [] ps rest
unfolding known_properties
known_properties-Reads version block ps h = record { reads = rw h refl }

type_small : (f : DatagramFlags) → datagram_message_type_return f < 64
unfolding datagram_message_type_return
type_small f = ground arith

two_ways {ℓ} :
    {A : Type ℓ} (b : Bool) (x y z : A)
    → (if b then x else if not b then y else z) ≡ (if b then x else y)
two_ways true x y z = refl
two_ways false x y z = refl

small_type : (version : ℕ) (f : DatagramFlags) → datagram_message_type_return f ≤ max_moqint version
small_type version f = ground (arith, type_small f)

-- A block that there is, with bytes behind it.
datagram_block-Reads :
    (version : ℕ) (properties rest : Bytes)
    → length properties ≤ max_moqint version
    → 0 < length rest
    → ltb 0 (length properties) ≡ true
    → Reads (datagram_block version) (encode_block version properties) properties rest
unfolding datagram_block
datagram_block-Reads version properties rest small more some_bytes =
    >>=-Reads _
      (number_before-Reads version (length properties) small
        (append_pos properties rest (ground (arith, some_bytes))))
      (>>=-Reads _ (check_protocol-Reads (ground (arith, some_bytes)))
        (data_before-Reads properties more))

pub object_id_kept : (id : ℕ) → (if not (id == 0) then id else 0) ≡ id
object_id_kept id = ground arith

block_kept :
    (properties : Bytes) → (if ltb 0 (length properties) then properties else []) ≡ properties
block_kept [] = refl
block_kept (b ∷ bs) = let t : ltb 0 (suc (length bs)) ≡ true = ground arith in rw t refl

module _ (version : ℕ) (o : Object) (properties : Bytes) (w : IsWritable version o)
    (small : length properties ≤ max_moqint version) where
  -- The fields of a datagram between its type and what ends it, from the priority, from behind the group, and all.
  abbrev priority_on : (tail : Bytes) → Bytes
  priority_on tail =
      (o.priority ∷ [])
      ++ ((if ltb 0 (length properties) then encode_block version properties else []) ++ tail)

  abbrev pub after_group : (tail : Bytes) → Bytes
  after_group tail =
      (if not (o.object_id == 0) then write_moqint version o.object_id 9 else [])
      ++ priority_on tail

  abbrev pub encode_fields : (tail : Bytes) → Bytes
  encode_fields tail =
      write_moqint version o.track_alias 9
      ++ (write_moqint version o.group_id 9 ++ after_group tail)

  pub datagram-Stores :
      (payload : Bool) {end : Writer} {n : ℕ} {tail : Bytes}
      → Stores end n tail
      → Stores
          (guarded (datagram_fields_then version payload o properties end))
          (46 + length properties + n)
          (write_moqint version
              (datagram_message_type_return (datagram_flags payload o properties))
              9
            ++ encode_fields tail)
  unfolding datagram_fields_then guarded
  datagram-Stores payload {n} ends =
      let type : datagram_message_type_return (datagram_flags payload o properties)
          ≤ max_moqint version =
        small_type version _ in
      let all = >>-Stores (put_number-Stores version _ type) (
        >>-Stores (put_number-Stores version o.track_alias w.track_alias) (
          >>-Stores (put_number-Stores version o.group_id w.group_id) (
            >>-Stores
              (when-Stores (not (o.object_id == 0))
                (put_number-Stores version o.object_id w.object_id))
              (>>-Stores (put_byte-Stores o.priority) (
                >>-Stores
                  (when-Stores (ltb 0 (length properties))
                    (add_properties-Stores version properties small))
                  ends))))) in
      let few = all.few in
      record {
        few = omega (arith, few);
        stores = λ room r.
            (let t : ltb room 1 ≡ false = ground (arith, r) in
              rw t (all.stores room (omega (arith, r))));
      }

  -- The fields up to the properties.
  module _ (payload : Bool) {tail : Bytes} (more : 0 < length tail) where
    pub common-Reads :
        {A : Type 0} (no_id : Reader ℕ) (left_out found : ℕ) (f : ℕ → ℕ → ℕ → ℕ → Bytes → Reader A)
        {a : A} {rest : Bytes}
        → (if not (o.object_id == 0) then o.object_id else left_out) ≡ found
        → Reads no_id [] left_out (after_group tail ++ rest)
        → Reads (f o.track_alias o.group_id found o.priority properties) tail a rest
        → Reads
            (datagram_fields_of version (datagram_flags payload o properties) no_id f)
            (encode_fields tail)
            a
            rest
    unfolding datagram_fields_of
    common-Reads no_id left_out found f {rest} kept none end =
        >>=-Reads _
          (number_before-Reads version o.track_alias w.track_alias
            (append_pos _ rest (append_pos _ _ (write_moqint_pos version o.group_id w.group_id))))
          (>>=-Reads _
            (number_before-Reads version o.group_id w.group_id
              (append_pos _ rest (append_pos_right _ (priority_on tail) (omega arith))))
            (>>=-Reads _ none (
              >>=-Reads _
                (Reads-value
                  (if_there-Reads (not (o.object_id == 0)) left_out
                    (λ there. number_before-Reads version o.object_id w.object_id (omega arith)))
                  kept)
                (>>=-Reads _ (if_there-Reads true 0 (λ there. byte-Reads o.priority)) (
                  >>=-Reads _
                    (Reads-value
                      (if_there-Reads (ltb 0 (length properties)) [] (λ there.
                        datagram_block-Reads version properties _ small (append_pos tail rest more)
                          there))
                      (block_kept properties))
                    end)))))

  pub fields_length :
      (tail : Bytes)
      → length (encode_fields tail)
        ≡ length (write_moqint version o.track_alias 9)
          + (length (write_moqint version o.group_id 9)
              + (length (if not (o.object_id == 0) then write_moqint version o.object_id 9 else [])
                  + suc (
                      length
                        (if ltb 0 (length properties) then encode_block version properties else [])
                      + length tail)))
  fields_length tail = omega (
    arith,
    length-append (write_moqint version o.track_alias 9) (
        write_moqint version o.group_id 9
        ++ ((if not (o.object_id == 0) then write_moqint version o.object_id 9 else [])
            ++ priority_on tail)),
    length-append (write_moqint version o.group_id 9) (
        (if not (o.object_id == 0) then write_moqint version o.object_id 9 else [])
        ++ priority_on tail),
    length-append (if not (o.object_id == 0) then write_moqint version o.object_id 9 else [])
        (priority_on tail),
    length-append (if ltb 0 (length properties) then encode_block version properties else []) tail,
  )

  pub long_enough :
      (tail : Bytes)
      → 0 < length tail
      → (o.object_id ≢ 0) ⊎ (2 ≤ length tail)
      → ltb (length (encode_fields tail)) 5 ≡ false
  long_enough tail more which =
      let a = write_moqint_pos version o.track_alias w.track_alias in
      let g = write_moqint_pos version o.group_id w.group_id in
      let i = write_moqint_pos version o.object_id w.object_id in
      let total = fields_length tail in
      elim (Bool-cases (o.object_id == 0)) [
        | inl t ↦ ground (arith, a, g, total, more, which, t)
        | inr t ↦
            let e : length
                  (if not (o.object_id == 0) then write_moqint version o.object_id 9 else [])
                ≡ length (write_moqint version o.object_id 9) =
              rw t refl in
            ground (arith, a, g, i, e, total, more)
      ]

  -- The type comes first.
  pub receive_typed :
      (payload : Bool) (rest : Bytes)
      → let dtype = datagram_message_type_return (datagram_flags payload o properties) in
        receive_datagram version (write_moqint version dtype 9 ++ rest) ≡ (
          if payload
          then map_parse (λ r. some r.0) (parse_object_datagram version dtype rest)
          else map_parse (λ r. some r.0) (parse_object_datagram_status version dtype rest))
  unfolding receive_datagram
  receive_typed payload rest =
      let dtype : ℕ = datagram_message_type_return (datagram_flags payload o properties) in
      let (read, _) = read_back version dtype rest (small_type version _) in
      let (parse, valid) =
        datagram_message_type_parse-return (datagram_flags payload o properties) in
      let narrow : dtype % 2 ^ 32 ≡ dtype =
        omega (arith, type_small (datagram_flags payload o properties)) in
      let t : (leb version_18 version && dtype == padding_datagram) ≡ false =
        ground (arith, type_small (datagram_flags payload o properties)) in
      rw (read, drop-length_append (write_moqint version dtype 9) rest, narrow, t, valid, parse)
        (two_ways payload _ _ _)
