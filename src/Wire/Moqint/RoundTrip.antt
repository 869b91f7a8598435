-- ===== src/Wire/Moqint/RoundTrip.antt =====
-- `read_moqint` reads back what `write_moqint` wrote, in every version.
use imquic.Base.{
  ℕ, suc, ◌+◌, ◌-◌, ◌*◌, ◌/◌, ◌^◌, ◌≤◌, ◌<◌, ◌≡◌, refl, arith, inl, inr, true, false, ◌&&◌, [], ◌∷◌,
  ◌++◌, Bytes, length, ltb, leb, ◌==◌, if◌then◌else◌, Bool-cases, le→ltb, u64, be_onto, read_loop,
  be_onto-append, length-be_onto, read_loop-be_onto,
}
use imquic.Wire.Varint.{max_varint, varint_size}
use imquic.Wire.Varint.RoundTrip.{read_varint-write_varint}
use imquic.Wire.Moqint.Forms.{
  SizeClass, one, two, three, four, five, six, seven, eight, nine, size_class, first_two,
  first_three, first_four, first_five, first_six, first_seven, write_two, write_three, write_four,
  write_five, write_six, write_seven, write_eight, write_nine,
}
use imquic.Wire.Moqint.{
  version_16, version_18, announced_len, low_bits, read_long_moqint, read_moqint, write_long_moqint,
  write_moqint, long_moqint_size,
}

-- A number of `n + 1` bytes, whose first byte announces them over its low bits `h`.
read_long_prefixed :
    (version b n h l : ℕ) (rest : Bytes)
    → ((b == 0xfc) && ltb version version_18) ≡ false
    → announced_len b ≡ suc (suc n)
    → low_bits (suc (suc n)) b ≡ h
    → l < 256 ^ suc n
    → h * 256 ^ suc n + l < u64
    → read_long_moqint version b (be_onto (suc n) l rest) ≡ (h * 256 ^ suc n + l, suc (suc n))
unfolding read_long_moqint read_loop
read_long_prefixed version b n h l rest allowed len low hl fits =
    let long : ltb (suc (length (be_onto (suc n) l rest))) (suc (suc n)) ≡ false =
      le→ltb _ _ (omega (arith, length-be_onto (suc n) l rest)) in
    let m : suc (suc n) - 1 ≡ suc n + 0 = omega arith in
    rw (allowed, len, low, long, m, read_loop-be_onto (suc n) 0 h l rest hl fits) (ground arith)

read_back :
    (version blen b n h v l : ℕ) (rest : Bytes)
    → write_long_moqint version v blen ≡ b ∷ be_onto (suc n) l []
    → ((b == 0xfc) && ltb version version_18) ≡ false
    → announced_len b ≡ suc (suc n)
    → low_bits (suc (suc n)) b ≡ h
    → l < 256 ^ suc n
    → h * 256 ^ suc n + l ≡ v
    → v < u64
    → version_16 < version
    → read_moqint version (write_moqint version v blen ++ rest) ≡ (v, suc (suc n))
unfolding read_moqint write_moqint
read_back version blen b n h v l rest w allowed len low hl split fits new =
    let r = read_long_prefixed version b n h l rest allowed len low hl (omega (arith, split)) in
    let old : leb version version_16 ≡ false = ground arith in
    rw (old, w, be_onto-append (suc n) l [] rest) (rw split at r)

read_one :
    (version v blen : ℕ) (rest : Bytes)
    → version_16 < version
    → v ≤ 127
    → 1 ≤ blen
    → read_moqint version (write_moqint version v blen ++ rest) ≡ (v, 1)
unfolding read_moqint write_moqint read_long_moqint write_long_moqint announced_len
read_one version v blen rest new a room =
    let old : leb version version_16 ≡ false = ground arith in
    let some_room : ltb blen 1 ≡ false = ground arith in
    let small : leb v 127 ≡ true = ground arith in rw (old, some_room, small) (ground arith)

module _ (version v blen : ℕ) (rest : Bytes) (new : version_16 < version) (fits : v < u64) where
  read_class :
      {s : ℕ}
      → SizeClass version v s
      → s ≤ blen
      → read_moqint version (write_moqint version v blen ++ rest) ≡ (v, s)
  read_class (one a) room = read_one version v blen rest new a room
  read_class (two a b) room =
      let (len, low) = first_two (v / 256 ^ 1) (omega arith) in
      read_back version blen _ 0 _ v _ rest (write_two version v blen a b room) (ground arith) len
        low (omega arith) (omega arith) fits new
  read_class (three a b) room =
      let (len, low) = first_three (v / 256 ^ 2) (omega arith) in
      read_back version blen _ 1 _ v _ rest (write_three version v blen a b room) (ground arith) len
        low (omega arith) (omega arith) fits new
  read_class (four a b) room =
      let (len, low) = first_four (v / 256 ^ 3) (omega arith) in
      read_back version blen _ 2 _ v _ rest (write_four version v blen a b room) (ground arith) len
        low (omega arith) (omega arith) fits new
  read_class (five a b) room =
      let (len, low) = first_five (v / 256 ^ 4) (omega arith) in
      read_back version blen _ 3 _ v _ rest (write_five version v blen a b room) (ground arith) len
        low (omega arith) (omega arith) fits new
  read_class (six a b) room =
      let (len, low) = first_six (v / 256 ^ 5) (omega arith) in
      read_back version blen _ 4 _ v _ rest (write_six version v blen a b room) (ground arith) len
        low (omega arith) (omega arith) fits new
  read_class (seven a b c) room =
      let (len, low) = first_seven (v / 256 ^ 6) (omega arith) in
      read_back version blen _ 5 _ v _ rest (write_seven version v blen a b c room) (ground arith)
        len low (omega arith) (omega arith) fits new
  read_class (eight a b c) room =
      read_back version blen 0xfe 6 0 v v rest (write_eight version v blen a b c room) refl
        (unfold announced_len in refl) refl (omega arith) (omega arith) fits new
  read_class (nine a) room =
      read_back version blen 0xff 7 0 v v rest (write_nine version v blen a room) refl
        (unfold announced_len in refl) refl (omega arith) (omega arith) fits new

-- A number's size in every version.
abbrev pub moqint_size : (version number : ℕ) → ℕ
moqint_size version number =
    if leb version version_16 then varint_size number else long_moqint_size version number

pub moqint_size-le : (version number : ℕ) → moqint_size version number ≤ 9
moqint_size-le version number = ground arith

pub moqint_size_pos : (version number : ℕ) → 0 < moqint_size version number
moqint_size_pos version number = ground arith

-- The largest number that a version can write.
abbrev pub max_moqint : (version : ℕ) → ℕ
max_moqint version = if leb version version_16 then max_varint else u64 - 1

-- In every version, where the number is no larger than the version can write and its encoding fits the
-- room, reading what was written gives the number and the length of its encoding, whatever bytes follow.
pub read_moqint-write_moqint :
    (version v blen : ℕ) (rest : Bytes)
    → v ≤ max_moqint version
    → moqint_size version v ≤ blen
    → read_moqint version (write_moqint version v blen ++ rest) ≡ (v, moqint_size version v)
read_moqint-write_moqint version v blen rest hv room = elim (Bool-cases (leb version version_16)) [
  | inl old ↦
      unfold read_moqint write_moqint in
      rw old (read_varint-write_varint v blen rest (rw old at hv) (rw old at room))
  | inr new ↦
      let after : version_16 < version = ground arith in
      rw new (
        read_class version v blen rest after (omega (arith, rw new at hv)) (size_class version v)
          (rw new at room))
]
