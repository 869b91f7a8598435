-- ===== src/Wire/Varint/RoundTrip.antt =====
-- What `write_varint` writes, and that `read_varint` reads it back.
use imquic.Base.{
  ℕ, suc, ◌+◌, ◌-◌, ◌*◌, ◌/◌, ◌%◌, ◌^◌, ◌≤◌, ◌<◌, ◌≡◌, refl, ap, ◌∙◌, arith, ◌⊎◌, inl, inr, false,
  [], ◌∷◌, ◌++◌, Bytes, length, ltb, le→ltb, bit_and, low_six, u64, be_onto, big_endian, bump_first,
  read_loop, be_onto_head, be_onto-append, length-be_onto, read_loop-be_onto,
}
use imquic.Wire.Varint.{max_varint, read_varint, write_varint, varint_size}

-- A number of `n + 1` bytes, whose first byte holds `k` over the six bits `h`.
read_varint_prefixed :
    (k n h l : ℕ) (rest : Bytes)
    → k < 4
    → suc n ≡ 2 ^ k
    → h < 64
    → l < 256 ^ n
    → h * 256 ^ n + l < u64
    → read_varint ((k * 64 + h) ∷ be_onto n l rest) ≡ (h * 256 ^ n + l, suc n)
unfolding read_varint read_loop
read_varint_prefixed k n h l rest hk hn hh hl fits =
    let e : (k * 64 + h) / 64 ≡ k = omega arith in
    let f : bit_and (k * 64 + h) 0x3f ≡ h = low_six (k * 64 + h) (omega arith) ∙ omega arith in
    let long : ltb (suc (length (be_onto n l rest))) (suc n) ≡ false =
      le→ltb _ _ (omega (arith, length-be_onto n l rest)) in
    let m : suc n - 1 ≡ n + 0 = omega arith in
    rw (e, f, ← hn, long, m, read_loop-be_onto n 0 h l rest hl fits)

-- Each of the longer forms, as the mark of its length over the highest byte, and the other bytes.
pub write_varint_two :
    (v blen : ℕ)
    → 63 < v
    → v ≤ 16383
    → 2 ≤ blen
    → write_varint v blen ≡ (1 * 64 + v / 256 ^ 1) ∷ be_onto 1 (v % 256 ^ 1) []
unfolding write_varint big_endian bump_first
write_varint_two v blen lo hi room =
    let e : v % 2 ^ 16 ≡ v / 256 ^ 1 * 256 ^ 1 + v % 256 ^ 1 = omega arith in
    rw e (ground (arith, be_onto_head 1 (v / 256 ^ 1) (v % 256 ^ 1) []))

pub write_varint_four :
    (v blen : ℕ)
    → 16383 < v
    → v ≤ 1073741823
    → 4 ≤ blen
    → write_varint v blen ≡ (2 * 64 + v / 256 ^ 3) ∷ be_onto 3 (v % 256 ^ 3) []
unfolding write_varint big_endian bump_first
write_varint_four v blen lo hi room =
    let e : v % 2 ^ 32 ≡ v / 256 ^ 3 * 256 ^ 3 + v % 256 ^ 3 = omega arith in
    rw e (ground (arith, be_onto_head 3 (v / 256 ^ 3) (v % 256 ^ 3) []))

pub write_varint_eight :
    (v blen : ℕ)
    → 1073741823 < v
    → v ≤ max_varint
    → 8 ≤ blen
    → write_varint v blen ≡ (3 * 64 + v / 256 ^ 7) ∷ be_onto 7 (v % 256 ^ 7) []
unfolding write_varint big_endian bump_first
write_varint_eight v blen lo hi room =
    let e : v ≡ v / 256 ^ 7 * 256 ^ 7 + v % 256 ^ 7 = omega arith in
    let head = be_onto_head 7 (v / 256 ^ 7) (v % 256 ^ 7) [] (omega arith) (omega arith) in
    let f : be_onto 8 v [] ≡ (v / 256 ^ 7) ∷ be_onto 7 (v % 256 ^ 7) [] =
      ap (λ (t : ℕ). be_onto 8 t []) e ∙ head in
    ground (arith, f)

-- Reading a long form back, with any bytes behind it.
read_long :
    (k n v blen : ℕ) (rest : Bytes)
    → k < 4
    → suc n ≡ 2 ^ k
    → write_varint v blen ≡ (k * 64 + v / 256 ^ n) ∷ be_onto n (v % 256 ^ n) []
    → v / 256 ^ n < 64
    → v % 256 ^ n < 256 ^ n
    → v / 256 ^ n * 256 ^ n + v % 256 ^ n ≡ v
    → v < u64
    → read_varint (write_varint v blen ++ rest) ≡ (v, suc n)
read_long k n v blen rest hk hn w hh hl split fits =
    let e = be_onto-append n (v % 256 ^ n) [] rest in
    let r =
      read_varint_prefixed k n (v / 256 ^ n) (v % 256 ^ n) rest hk hn hh hl
        (omega (arith, split)) in
    rw (w, e) (rw split at r)

pub write_varint_one : (v blen : ℕ) → v ≤ 63 → 1 ≤ blen → write_varint v blen ≡ v ∷ []
unfolding write_varint
write_varint_one v blen hv room = ground arith

read_short :
    (v blen : ℕ) (rest : Bytes)
    → v ≤ 63
    → 1 ≤ blen
    → read_varint (write_varint v blen ++ rest) ≡ (v, 1)
unfolding read_varint read_loop
read_short v blen rest hv room =
    let e : v / 64 ≡ 0 = omega arith in
    let f : bit_and v 0x3f ≡ v = low_six v (omega arith) ∙ omega arith in
    rw (write_varint_one v blen hv room, e, f) (ground arith)

-- The four sizes, one of which every number up to the maximum has.
pub size_cases :
    (v : ℕ)
    → v ≤ max_varint
    → ((v ≤ 63) × (varint_size v ≡ 1))
      ⊎ ((63 < v) × (v ≤ 16383) × (varint_size v ≡ 2))
      ⊎ ((16383 < v) × (v ≤ 1073741823) × (varint_size v ≡ 4))
      ⊎ ((1073741823 < v) × (varint_size v ≡ 8))
size_cases v h = ground arith

-- Where the number is no larger than a varint can be and its encoding fits the room, reading what was
-- written gives the number and the length of its encoding, whatever bytes follow.
pub read_varint-write_varint :
    (v blen : ℕ) (rest : Bytes)
    → v ≤ max_varint
    → varint_size v ≤ blen
    → read_varint (write_varint v blen ++ rest) ≡ (v, varint_size v)
read_varint-write_varint v blen rest h room = elim (size_cases v h) [
  | inl (a, s) ↦ rw s (read_short v blen rest a (omega (arith, s)))
  | inr (inl (a, b, s)) ↦ rw s (
      read_long 1 1 v blen rest (omega arith) refl (write_varint_two v blen a b (omega (arith, s)))
        (omega arith) (omega arith) (omega arith) (omega arith))
  | inr (inr (inl (a, b, s))) ↦ rw s (
      read_long 2 3 v blen rest (omega arith) refl (write_varint_four v blen a b (omega (arith, s)))
        (omega arith) (omega arith) (omega arith) (omega arith))
  | inr (inr (inr (a, s))) ↦ rw s (
      read_long 3 7 v blen rest (omega arith) refl
        (write_varint_eight v blen a h (omega (arith, s))) (omega arith) (omega arith) (omega arith)
        (omega arith))
]
