-- ===== src/Moq/Properties.antt =====
-- The properties of an object or a track (moq.c): `imquic_moq_parse_properties`, `imquic_moq_property_type_sort` and
-- `imquic_moq_build_properties`. The type of a property is written as the difference to the one before it.
pub mod RoundTrip
pub mod Input
pub mod Ends
use imquic.Base.{
  ℕ, zero, suc, ◌+◌, ◌-◌, ◌%◌, ◌^◌, ◌≤◌, ◌≡◌, Bool, true, false, ◌||◌, List, [], ◌∷◌, Bytes, u64,
  length, take, drop, ltb, leb, ◌==◌, if◌then◌else◌,
}
use imquic.Glib.{Comparison, negative, same, positive, GListSort}
use imquic.Wire.Moqint.{read_moqint}
use imquic.Wire.Writer.{Added, stored, Writer, ◌>>◌, put_number, put_bytes}
use imquic.Wire.Reader.{
  Parse, broken, protocol_violation, overread, parsed, Reader, ◌>>=◌, pure, number_before, number,
}

-- `imquic_moq_property`: of its union, an even type has the number and an odd one the data.
pub record Property : Type 0 where
  pub id : ℕ
  pub number : ℕ
  pub buffer : Bytes

-- The length of an odd type's data. It is compared to what is left before the length is taken off.
unfoldable pub prop_length : (version : ℕ) → Reader ℕ
prop_length version bytes =
    let (prop_len, len) = read_moqint version bytes in
    if len == 0 || leb (length bytes) len || leb (length bytes) prop_len
    then broken
    else parsed (prop_len, drop len bytes)

-- `memcpy(buffer, &properties[offset], prop_len)`
unfoldable pub copied : (prop_len : ℕ) → Reader Bytes
copied prop_len bytes =
    if ltb (length bytes) prop_len
    then overread
    else parsed (take prop_len bytes, drop prop_len bytes)

unfoldable pub property_data : (prop_type prop_len : ℕ) → Reader (Property × ℕ)
property_data prop_type prop_len = do
  buffer ← copied prop_len
  pure (record { id = prop_type % 2 ^ 32; number = 0; buffer = buffer }, prop_type)

-- What follows a type. The identifier of a property has 32 bits.
unfoldable pub property_value : (version prop_type : ℕ) → Reader (Property × ℕ)
property_value version prop_type =
    if prop_type % 2 == 0
    then (do
      prop_val ← number version
      pure (record { id = prop_type % 2 ^ 32; number = prop_val; buffer = [] }, prop_type))
    else (do prop_len ← prop_length version; property_data prop_type prop_len)

-- One round of the loop: a property and its type, behind the type `last_id`.
unfoldable pub parse_property : (version last_id : ℕ) → Reader (Property × ℕ)
parse_property version last_id = do
  delta ← number_before version
  property_value version ((delta + last_id) % u64)

abbrev pub cons_property : Property → Parse (List Property) → Parse (List Property)
cons_property p broken = broken
cons_property p protocol_violation = protocol_violation
cons_property p overread = overread
cons_property p (parsed ps) = parsed (p ∷ ps)

abbrev pub next_round :
    Parse ((Property × ℕ) × Bytes)
    → ((last_id : ℕ) → Bytes → Parse (List Property))
    → Parse (List Property)
next_round broken loop = broken
next_round protocol_violation loop = protocol_violation
next_round overread loop = overread
next_round (parsed ((p, last_id), rest)) loop = cons_property p (loop last_id rest)

-- The loop, for `fuel` rounds at most.
unfoldable pub parse_loop : (version fuel last_id : ℕ) → Bytes → Parse (List Property)
parse_loop version fuel last_id [] = parsed []
parse_loop version zero last_id (b ∷ bs) = broken
parse_loop version (suc fuel) last_id (b ∷ bs) =
    next_round (parse_property version last_id (b ∷ bs)) (parse_loop version fuel)

-- `broken` stands for the list without elements of properties that are broken.
unfoldable pub parse_properties : (version : ℕ) → Bytes → Parse (List Property)
parse_properties version properties = parse_loop version (length properties) 0 properties

unfoldable pub property_type_sort : (a b : Property) → Comparison
property_type_sort a b =
    if ltb a.id b.id then negative else if ltb b.id a.id then positive else same

unfoldable pub put_value : (version : ℕ) → Property → Writer
put_value version prop =
    if prop.id % 2 == 0
    then put_number version prop.number
    else (do put_number version (length prop.buffer); put_bytes prop.buffer)

-- The loop of the builder, with the type `last_id` of the property before.
unfoldable pub put_properties : (version last_id : ℕ) → List Property → Writer
put_properties version last_id [] room = stored []
put_properties version last_id (prop ∷ props) room =
    (do
      put_number version ((prop.id + u64 - last_id) % u64)
      put_value version prop
      put_properties version prop.id props)
      room

unfoldable pub build_properties : GListSort Property → (version : ℕ) → List Property → Writer
build_properties glib version properties room =
    if length properties == 0 || room == 0
    then stored []
    else put_properties version 0 (glib.sort property_type_sort properties) room
