-- ===== src/Moq/Properties/Input.antt =====
-- What parsing one property takes of the bytes, and properties that are refused or read past the end.
use imquic.Base.{
  ℕ, suc, ◌+◌, ◌%◌, ◌^◌, ◌≤◌, ◌<◌, ◌≡◌, refl, sym, ap, ◌∙◌, arith, true, false, inl, inr, [], ◌++◌,
  Bytes, u64, length, ltb, leb, ◌==◌, ◌||◌, length-append, length-drop, drop-length_append,
  Bool-cases, append_pos, append-nil,
}
use imquic.Wire.Moqint.{read_moqint, write_moqint}
use imquic.Wire.Moqint.RoundTrip.{max_moqint, moqint_size}
use imquic.Wire.Moqint.Room.{length-write_moqint, write_moqint_pos}
use imquic.Wire.Reader.{
  Parse, broken, overread, parsed, ◌>>=◌, and_then, read_back, number_before-Reads,
}
use imquic.Moq.Properties.RoundTrip.{one_round}
use imquic.Wire.Reader.Input.{
  Takes, Takes-fewer, >>=-Takes, number_before-Takes, number-Takes, pure-Takes,
}
use imquic.Moq.Properties.{
  prop_length, copied, property_data, property_value, parse_property, next_round, parse_loop,
  parse_properties,
}

prop_length-Takes : (version : ℕ) → Takes (prop_length version) 0
unfolding prop_length
prop_length-Takes version = record {
  left = λ bytes h.
      (let used = length-drop (read_moqint version bytes).1 bytes in ground (arith, used, h));
}

copied-Takes : (n : ℕ) → Takes (copied n) 0
unfolding copied
copied-Takes n = record {
  left = λ bytes h. (let used = length-drop n bytes in ground (arith, used, h));
}

property_data-Takes : (prop_type n : ℕ) → Takes (property_data prop_type n) 0
unfolding property_data
property_data-Takes prop_type n = >>=-Takes (copied-Takes n) (λ b. pure-Takes _)

property_value-Takes : (version prop_type : ℕ) → Takes (property_value version prop_type) 0
unfolding property_value
property_value-Takes version prop_type = elim (Bool-cases (prop_type % 2 == 0)) [
  | inl even ↦ rw even (Takes-fewer (>>=-Takes (number-Takes version) (λ n. pure-Takes _)))
  | inr odd ↦ rw odd (>>=-Takes (prop_length-Takes version) (λ n. property_data-Takes prop_type n))
]

-- Each property takes a byte at least.
pub parse_property-Takes : (version last_id : ℕ) → Takes (parse_property version last_id) 1
unfolding parse_property
parse_property-Takes version last_id =
    >>=-Takes (number_before-Takes version) (λ delta. property_value-Takes version _)

-- The type of a property, before what follows it.
one_property :
    (version prop_type : ℕ) (rest : Bytes)
    → prop_type < 2 ^ 32
    → 0 < length rest
    → (fuel : ℕ) × (parse_properties version (write_moqint version prop_type 9 ++ rest)
        ≡ next_round (property_value version prop_type rest) (parse_loop version fuel))
unfolding parse_properties parse_property ◌>>=◌
one_property version prop_type rest small more =
    let w : Bytes = write_moqint version prop_type 9 in
    let (less, _, step) =
      one_round version (length (w ++ rest)) 0 (w ++ rest)
        (append_pos w rest (write_moqint_pos version prop_type (ground (arith, small))))
        (omega arith) in
    let type : (prop_type + 0) % u64 ≡ prop_type = omega (arith, small) in
    (
      less,
      step
          ∙ ap (λ t. next_round t (parse_loop version less))
              (ap (λ t. and_then t (λ delta. property_value version ((delta + 0) % u64)))
                  (number_before-Reads version prop_type (ground (arith, small)) more).reads
                ∙ ap (λ t. property_value version t rest) type),
    )

module _ (version prop_type : ℕ) (small : prop_type < 2 ^ 32) (odd : prop_type % 2 ≡ 1) where
  odd_value :
      (rest : Bytes)
      → (p : Parse (ℕ × Bytes)) → prop_length version rest ≡ p
      → property_value version prop_type rest ≡ and_then p (property_data prop_type)
  unfolding property_value ◌>>=◌
  odd_value rest p e = let t : (prop_type % 2 == 0) ≡ false = ground (arith, odd) in rw (t, e) refl

  -- An odd property without data that stands last is refused: the list of properties is empty.
  pub empty_property_broken :
      parse_properties version (write_moqint version prop_type 9 ++ write_moqint version 0 9)
      ≡ broken
  empty_property_broken =
      let w : Bytes = write_moqint version 0 9 in
      let pos = write_moqint_pos version 0 (ground arith) in
      let (read, _) = read_back version 0 [] (ground arith) in
      let read_all : read_moqint version w ≡ (0, length w) =
        ap (read_moqint version) (sym (append-nil w)) ∙ read in
      let t : (length w == 0 || leb (length w) (length w) || leb (length w) 0) ≡ true =
        ground (arith, pos) in
      let refused : prop_length version w ≡ broken = unfold prop_length in rw (read_all, t) refl in
      let (fuel, one) = one_property version prop_type w small pos in
      one ∙ ap (λ t. next_round t (parse_loop version fuel)) (odd_value w broken refused)

  -- The data of an odd property is cut by one byte behind a length that takes two bytes or more: the parser reads
  -- past the end of the properties.
  pub cut_property_overread :
      (buffer : Bytes)
      → suc (length buffer) ≤ max_moqint version
      → 2 ≤ moqint_size version (suc (length buffer))
      → parse_properties version (
          write_moqint version prop_type 9
          ++ (write_moqint version (suc (length buffer)) 9 ++ buffer))
        ≡ overread
  cut_property_overread buffer fits wide =
      let n : ℕ = suc (length buffer) in
      let w : Bytes = write_moqint version n 9 in
      let (read, pos) = read_back version n buffer fits in
      let size = length-write_moqint version n fits in
      let total = length-append w buffer in
      let t : (length w == 0
            || leb (length (w ++ buffer)) (length w)
            || leb (length (w ++ buffer)) n)
          ≡ false =
        ground (arith, total, size, wide) in
      let passes : prop_length version (w ++ buffer) ≡ parsed (n, buffer) =
        unfold prop_length in rw (read, t, drop-length_append w buffer) refl in
      let past : copied n buffer ≡ overread =
        unfold copied in (let u : ltb (length buffer) n ≡ true = ground arith in rw u refl) in
      let (fuel, one) =
        one_property version prop_type (w ++ buffer) small (append_pos w buffer pos) in
      let over : property_data prop_type n buffer ≡ overread =
        unfold property_data ◌>>=◌ in rw past refl in
      one
      ∙ ap (λ t. next_round t (parse_loop version fuel))
          (odd_value (w ++ buffer) (parsed (n, buffer)) passes ∙ over)
