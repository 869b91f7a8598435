-- ===== src/Moq/Properties/RoundTrip.antt =====
-- The properties that were built are parsed, in the order of their types.
use mathlib.Core.List.{Perm, IsChain}
use mathlib.Core.List.Perm
use imquic.Base.{
  ℕ, zero, suc, ◌+◌, ◌-◌, ◌%◌, ◌^◌, ◌≤◌, ◌<◌, ◌≡◌, ◌≢◌, refl, sym, ap, ◌∙◌, arith, inl, inr, false,
  ◌||◌, List, [], ◌∷◌, ◌++◌, append_assoc, All, Bytes, u64, length, ltb, leb, ◌==◌, if◌then◌else◌,
  length-append, drop-length_append, take-length_append, Bool-cases, length-zero, append_pos,
}
use native.Mathlib.Bridge.{le_prop}
use native.Mathlib.Nat.{ℕ_set}
use imquic.Glib.{positive, IsOrder, GListSort, All-perm, total, total-perm}
use imquic.Wire.Moqint.{write_moqint}
use imquic.Wire.Moqint.RoundTrip.{max_moqint}
use imquic.Wire.Moqint.Room.{write_moqint_pos}
use imquic.Wire.Writer.{stored, Stores, put_number-Stores, put_bytes-Stores, >>-Stores}
use imquic.Wire.Reader.{
  parsed, Reads, read_back, number-Reads, last-Reads, Reads-value, number_before-Reads, >>=-Reads,
  pure-Reads,
}
use imquic.Moq.Properties.{
  Property, prop_length, copied, property_data, property_value, parse_property, cons_property,
  next_round, parse_loop, parse_properties, property_type_sort, put_value, put_properties,
  build_properties,
}

-- A property that the application may send: of an even type with a number, or of an odd type with some data.
pub record IsProperty (version : ℕ) (p : Property) : Type 0 where
  pub id : p.id < 2 ^ 32
  pub number : p.number ≤ max_moqint version
  pub buffer : length p.buffer ≤ max_moqint version
  pub even : p.id % 2 ≡ 0 → length p.buffer ≡ 0
  pub odd : p.id % 2 ≡ 1 → (p.number ≡ 0) × (0 < length p.buffer)

-- The bytes behind a property's type, and the bytes of all properties.
abbrev pub encode_value : (version : ℕ) → Property → Bytes
encode_value version p =
    if p.id % 2 == 0
    then write_moqint version p.number 9
    else write_moqint version (length p.buffer) 9 ++ p.buffer

abbrev pub encode_properties : (version last_id : ℕ) → List Property → Bytes
encode_properties version last_id [] = []
encode_properties version last_id (p ∷ ps) =
    write_moqint version (p.id - last_id) 9
    ++ (encode_value version p ++ encode_properties version p.id ps)

abbrev pub property_room : Property → ℕ
property_room p = 18 + length p.buffer

abbrev pub Ascending : (last_id : ℕ) → List Property → Type 0
Ascending last_id [] = Unit {0}
Ascending last_id (p ∷ ps) = (last_id ≤ p.id) × Ascending p.id ps

value-Stores :
    (version : ℕ) (p : Property)
    → IsProperty version p
    → Stores (put_value version p) (9 + length p.buffer) (encode_value version p)
unfolding put_value
value-Stores version p v = elim (Bool-cases (p.id % 2 == 0)) [
  | inl even ↦
      let n = put_number-Stores version p.number v.number in
      let few = n.few in
      rw even
        (record { few = omega (arith, few); stores = λ room r. n.stores room (omega (arith, r)) })
  | inr odd ↦
      rw odd (
        >>-Stores (put_number-Stores version (length p.buffer) v.buffer)
          (put_bytes-Stores p.buffer))
]

properties-Stores :
    (version last_id : ℕ) (ps : List Property)
    → All (IsProperty version) ps
    → Ascending last_id ps
    → Stores
        (put_properties version last_id ps)
        (total property_room ps)
        (encode_properties version last_id ps)
unfolding put_properties
properties-Stores version last_id [] h a = record { few = omega arith; stores = λ room r. refl }
properties-Stores version last_id (p ∷ ps) (hp, h) (le, a) =
    let small = hp.id in
    let delta : (p.id + u64 - last_id) % u64 ≡ p.id - last_id = omega (arith, small, le) in
    let type = put_number-Stores version (p.id - last_id) (ground (arith, small)) in
    let all =
      >>-Stores type
        (>>-Stores (value-Stores version p hp) (properties-Stores version p.id ps h a)) in
    let few = all.few in
    record {
      few = omega (arith, few);
      stores = λ room r. rw delta (all.stores room (omega (arith, r)));
    }

prop_length-Reads :
    (version : ℕ) (buffer rest : Bytes)
    → length buffer ≤ max_moqint version
    → 0 < length buffer
    → Reads
        (prop_length version)
        (write_moqint version (length buffer) 9)
        (length buffer)
        (buffer ++ rest)
unfolding prop_length
prop_length-Reads version buffer rest fits more =
    let w : Bytes = write_moqint version (length buffer) 9 in
    let (read, pos) = read_back version (length buffer) (buffer ++ rest) fits in
    let total : length (w ++ (buffer ++ rest)) ≡ length w + (length buffer + length rest) =
      omega (arith, length-append w (buffer ++ rest), length-append buffer rest) in
    let t : (length w == 0
          || leb (length w + (length buffer + length rest)) (length w)
          || leb (length w + (length buffer + length rest)) (length buffer))
        ≡ false =
      ground (arith, pos, more) in
    record { reads = rw (read, total, t, drop-length_append w (buffer ++ rest)) refl }

copied-Reads : (buffer : Bytes) {rest : Bytes} → Reads (copied (length buffer)) buffer buffer rest
unfolding copied
copied-Reads buffer {rest} =
    let t : ltb (length (buffer ++ rest)) (length buffer) ≡ false =
      ground (arith, length-append buffer rest) in
    record { reads = rw (t, take-length_append buffer rest, drop-length_append buffer rest) refl }

module _ (version : ℕ) (p : Property) (v : IsProperty version p) where
  same_id : p.id % 2 ^ 32 ≡ p.id
  same_id = let small = v.id in omega (arith, small)

  value-Reads :
      {rest : Bytes} → Reads (property_value version p.id) (encode_value version p) (p, p.id) rest
  unfolding property_value property_data
  value-Reads {rest} = elim (Bool-cases (p.id % 2 == 0)) [
    | inl even ↦
        let empty = length-zero p.buffer (v.even (ground (arith, even))) in
        let same : ◌≡◌ {A = Property × ℕ}
            (record { id = p.id % 2 ^ 32; number = p.number; buffer = [] }, p.id) (p, p.id) =
          rw (same_id, ← empty) refl in
        rw even
          (Reads-value (last-Reads _ (number-Reads version p.number v.number) (pure-Reads _)) same)
    | inr odd ↦
        let (zero_number, some_bytes) = v.odd (ground (arith, odd)) in
        let same : ◌≡◌ {A = Property × ℕ}
            (record { id = p.id % 2 ^ 32; number = 0; buffer = p.buffer }, p.id) (p, p.id) =
          rw (same_id, ← zero_number) refl in
        rw odd (
          Reads-value
            (>>=-Reads _ (prop_length-Reads version p.buffer _ v.buffer some_bytes)
              (last-Reads _ (copied-Reads p.buffer) (pure-Reads _)))
            same)
  ]

encode_value_pos :
    (version : ℕ) (p : Property) → IsProperty version p → 0 < length (encode_value version p)
encode_value_pos version p v = elim (Bool-cases (p.id % 2 == 0)) [
  | inl even ↦ rw even (write_moqint_pos version p.number v.number)
  | inr odd ↦ rw odd (append_pos _ p.buffer (write_moqint_pos version (length p.buffer) v.buffer))
]

-- The types come back from their differences.
parse_property-Reads :
    (version last_id : ℕ) (p : Property) {rest : Bytes}
    → IsProperty version p
    → last_id ≤ p.id
    → Reads
        (parse_property version last_id)
        (write_moqint version (p.id - last_id) 9 ++ encode_value version p)
        (p, p.id)
        rest
unfolding parse_property
parse_property-Reads version last_id p {rest} v le =
    let small = v.id in
    let back : (p.id - last_id + last_id) % u64 ≡ p.id = omega (arith, small, le) in
    >>=-Reads _
      (number_before-Reads version (p.id - last_id) (ground (arith, small))
        (append_pos (encode_value version p) rest (encode_value_pos version p v)))
      (rw back (value-Reads version p v))

pub one_round :
    (version fuel last_id : ℕ) (bytes : Bytes)
    → 0 < length bytes
    → length bytes ≤ fuel
    → (less : ℕ) × (fuel ≡ suc less)
      × (parse_loop version fuel last_id bytes
          ≡ next_round (parse_property version last_id bytes) (parse_loop version less))
unfolding parse_loop
one_round version fuel last_id [] pos enough = absurd (omega arith)
one_round version zero last_id (b ∷ bs) pos enough = absurd (omega arith)
one_round version (suc fuel) last_id (b ∷ bs) pos enough = (fuel, refl, refl)

parse_loop-encode_properties :
    (version fuel last_id : ℕ) (ps : List Property)
    → All (IsProperty version) ps
    → Ascending last_id ps
    → length (encode_properties version last_id ps) ≤ fuel
    → parse_loop version fuel last_id (encode_properties version last_id ps) ≡ parsed ps
parse_loop-encode_properties version fuel last_id [] h a enough = unfold parse_loop in refl
parse_loop-encode_properties version fuel last_id (p ∷ ps) (hp, h) (le, a) enough =
    let w : Bytes = write_moqint version (p.id - last_id) 9 in
    let one : Bytes = w ++ encode_value version p in
    let more : Bytes = encode_properties version p.id ps in
    let bytes = append_assoc w (encode_value version p) more in
    let small = hp.id in
    let pos = write_moqint_pos version (p.id - last_id) (ground (arith, small)) in
    let total = length-append w (encode_value version p ++ more) in
    let part = length-append (encode_value version p) more in
    let (less, spent, step) =
      one_round version fuel last_id (w ++ (encode_value version p ++ more))
        (omega (arith, total, pos)) enough in
    let first =
      ap (parse_property version last_id) (sym bytes)
      ∙ (parse_property-Reads version last_id p hp le).reads in
    let rest =
      parse_loop-encode_properties version less p.id ps h a
        (omega (arith, enough, total, part, pos, spent)) in
    step ∙ ap (λ t. next_round t (parse_loop version less)) first ∙ ap (cons_property p) rest

property_type_sort-IsOrder : IsOrder property_type_sort
unfolding property_type_sort
property_type_sort-IsOrder = record {
  flips = λ a b h. ground (arith, h);
  trans = λ a b c h k. ground (arith, h, k);
}

ascending :
    {p : Property} {ps : List Property}
    → IsChain (λ a b. property_type_sort a b ≢ positive) (p ∷ ps)
    → Ascending p.id ps
ascending (IsChain.singleton _) = tt
ascending (IsChain.cons-cons h c) = (unfold property_type_sort in ground (arith, h), ascending c)

property_type_sort-Ascending :
    {ps : List Property} → IsChain (λ a b. property_type_sort a b ≢ positive) ps → Ascending 0 ps
property_type_sort-Ascending IsChain.nil = tt
property_type_sort-Ascending (IsChain.singleton _) = (omega arith, tt)
property_type_sort-Ascending (IsChain.cons-cons h c) =
    (omega arith, ascending (IsChain.cons-cons h c))

IsProperty-prop : (version : ℕ) (p : Property) → IsProp (IsProperty version p)
IsProperty-prop version p = hlevel (le_prop, ℕ_set)

-- Where there is room for two numbers and the data of each property, building valid properties stores bytes that are
-- parsed as the same properties, in an order in which the types do not fall.
pub parse_properties-build_properties :
    (glib : GListSort Property) (version room : ℕ) (ps : List Property)
    → All (IsProperty version) ps
    → total property_room ps ≤ room
    → (bytes : Bytes) × (sent : List Property) × (build_properties glib version ps room
        ≡ stored bytes)
      × (parse_properties version bytes ≡ parsed sent)
      × Perm sent ps
      × Ascending 0 sent
unfolding parse_properties build_properties
parse_properties-build_properties glib version room [] h fits =
    ([], [], refl, unfold parse_loop in refl, Perm.refl [], tt)
parse_properties-build_properties glib version room (p ∷ ps) h fits =
    let sent = glib.sort property_type_sort (p ∷ ps) in
    let same = glib.permutes property_type_sort (p ∷ ps) in
    let rising = property_type_sort-Ascending (glib.ordered property_type_sort-IsOrder (p ∷ ps)) in
    let valid = All-perm (IsProperty-prop version) same h in
    let size = total-perm property_room same in
    let added =
      (properties-Stores version 0 sent valid rising).stores room (omega (arith, size, fits)) in
    let test : (length (p ∷ ps) == 0 || room == 0) ≡ false = ground (arith, fits) in
    (
      encode_properties version 0 sent,
      sent,
      rw (test, added) refl,
      parse_loop-encode_properties version _ 0 sent valid rising (omega arith),
      same,
      rising,
    )
