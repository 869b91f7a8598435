-- ===== src/Wire/Moqint/Room.antt =====
-- The size of what `write_moqint` stores, and room beyond it.
use imquic.Base.{
  ◌∷◌, refl, sym, ◌∙◌, true, false, inl, inr, Bool-cases, ◌-◌, ◌%◌, ◌^◌, [], ℕ, ◌≤◌, ◌<◌, ◌≡◌,
  arith, length, drop, length-drop, ltb, leb, big_endian, bump_first, length-be_onto,
}
use imquic.Wire.Varint.{write_varint, varint_size}
use imquic.Wire.Varint.Input.{length-write_varint, length-bump_first, length-stored}
use imquic.Wire.Moqint.{write_moqint, long_moqint_size, version_16, write_long_moqint}
use imquic.Wire.Moqint.Forms.{
  SizeClass, one, two, three, four, five, six, seven, eight, nine, size_class, write_two,
  write_three, write_four, write_five, write_six, write_seven, write_eight, write_nine,
}
use imquic.Wire.Moqint.RoundTrip.{moqint_size, moqint_size_pos, max_moqint}

write_varint_room : (v blen : ℕ) → varint_size v ≤ blen → write_varint v blen ≡ write_varint v 9
unfolding write_varint
write_varint_room v blen h = ground arith

write_one : (version v blen : ℕ) → v ≤ 127 → 1 ≤ blen → write_long_moqint version v blen ≡ v ∷ []
unfolding write_long_moqint
write_one version v blen h room =
    let some_room : ltb blen 1 ≡ false = ground arith in
    let small : leb v 127 ≡ true = ground arith in rw (some_room, small) refl

class_room :
    (version v s : ℕ)
    → SizeClass version v s
    → (blen : ℕ) → s ≤ blen
    → write_long_moqint version v blen ≡ write_long_moqint version v 9
class_room version v _ (one a) n r =
    write_one version v n a r ∙ sym (write_one version v 9 a (omega arith))
class_room version v _ (two a b) n r =
    write_two version v n a b r ∙ sym (write_two version v 9 a b (omega arith))
class_room version v _ (three a b) n r =
    write_three version v n a b r ∙ sym (write_three version v 9 a b (omega arith))
class_room version v _ (four a b) n r =
    write_four version v n a b r ∙ sym (write_four version v 9 a b (omega arith))
class_room version v _ (five a b) n r =
    write_five version v n a b r ∙ sym (write_five version v 9 a b (omega arith))
class_room version v _ (six a b) n r =
    write_six version v n a b r ∙ sym (write_six version v 9 a b (omega arith))
class_room version v _ (seven a b c) n r =
    write_seven version v n a b c r ∙ sym (write_seven version v 9 a b c (omega arith))
class_room version v _ (eight a b c) n r =
    write_eight version v n a b c r ∙ sym (write_eight version v 9 a b c (omega arith))
class_room version v _ (nine a) n r =
    write_nine version v n a r ∙ sym (write_nine version v 9 a (omega arith))

write_long_moqint_room :
    (version v blen : ℕ)
    → long_moqint_size version v ≤ blen
    → write_long_moqint version v blen ≡ write_long_moqint version v 9
write_long_moqint_room version v blen h = class_room version v _ (size_class version v) blen h

-- Room beyond a number's size changes nothing of what is stored.
pub write_moqint_room :
    (version v blen : ℕ)
    → moqint_size version v ≤ blen
    → write_moqint version v blen ≡ write_moqint version v 9
unfolding write_moqint
write_moqint_room version v blen h = elim (Bool-cases (leb version version_16)) [
  | inl old ↦ rw old (write_varint_room v blen (rw old at h))
  | inr new ↦ rw new (write_long_moqint_room version v blen (rw new at h))
]

length-big_endian : (n v : ℕ) → length (big_endian n v) ≡ n
unfolding big_endian
length-big_endian n v = omega (arith, length-be_onto n v [])

length-dropped : (k n m v : ℕ) → length (bump_first k (drop n (big_endian m v))) ≡ m - n
length-dropped k n m v = omega (
  arith,
  length-bump_first k (drop n (big_endian m v)),
  length-drop n (big_endian m v),
  length-big_endian m v,
)

-- As many bytes are stored as the format says, where there is room for any number.
pub length-write_moqint :
    (version v : ℕ)
    → v ≤ max_moqint version
    → length (write_moqint version v 9) ≡ moqint_size version v
unfolding write_moqint write_long_moqint
length-write_moqint version v h = ground (
  arith,
  length-write_varint v 9,
  length-stored 128 2 (v % 2 ^ 16),
  length-dropped 192 1 4 (v % 2 ^ 32),
  length-stored 224 4 (v % 2 ^ 32),
  length-dropped 240 3 8 v,
  length-dropped 248 2 8 v,
  length-dropped 252 1 8 v,
  length-drop 1 (big_endian 8 v),
  length-big_endian 8 v,
)

pub write_moqint_pos :
    (version v : ℕ) → v ≤ max_moqint version → 0 < length (write_moqint version v 9)
write_moqint_pos version v h =
    omega (arith, length-write_moqint version v h, moqint_size_pos version v)
