-- ===== src/Wire/Varint/Input.antt =====
-- `read_varint` on any input, well formed or not, and `write_varint` with any room.
use imquic.Base.{
  ℕ, zero, suc, ◌+◌, ◌-◌, ◌*◌, ◌/◌, ◌%◌, ◌^◌, ◌≤◌, ◌<◌, ◌≡◌, ◌≢◌, refl, ap, arith, ◌⊎◌, inl, inr,
  ◌&&◌, [], ◌∷◌, ◌++◌, Bytes, IsByte, All, length, length-append, ltb, leb, if◌then◌else◌,
  Bool-cases, bit_and, low_six, u64, be_onto, big_endian, bump_first, read_loop, be_onto-IsByte,
  length-be_onto,
}
use native.Mathlib.Nat.{pow-suc}
use imquic.Wire.Varint.{max_varint, read_varint, write_varint, varint_size}

pub length-bump_first : (k : ℕ) (bs : Bytes) → length (bump_first k bs) ≡ length bs
unfolding bump_first
length-bump_first k [] = refl
length-bump_first k (b ∷ bs) = refl

pub length-stored : (k n v : ℕ) → length (bump_first k (big_endian n v)) ≡ n
unfolding big_endian
length-stored k n v = omega (arith, length-bump_first k (be_onto n v []), length-be_onto n v [])

-- The number of bytes stored is the size of the number's encoding, or 0 if the number is too large or
-- its encoding does not fit the room.
pub length-write_varint :
    (v blen : ℕ)
    → length (write_varint v blen)
      ≡ (if leb v max_varint && leb (varint_size v) blen then varint_size v else 0)
unfolding write_varint
length-write_varint v blen = ground (
  arith,
  length-stored 64 2 (v % 2 ^ 16),
  length-stored 128 4 (v % 2 ^ 32),
  length-stored 64 8 v,
  length-bump_first 128 (bump_first 64 (big_endian 8 v)),
)

write_varint-IsByte_long :
    (k n v blen : ℕ)
    → k < 4
    → v / 256 ^ n < 64
    → write_varint v blen ≡ (k * 64 + v / 256 ^ n) ∷ be_onto n (v % 256 ^ n) []
    → All IsByte (write_varint v blen)
write_varint-IsByte_long k n v blen hk hh w = rw w (omega arith, be_onto-IsByte n _ [] tt)

-- Reading further into the bytes of a number never leaves the bytes out of count.
pub read_loop-append :
    (n res : ℕ) (bs more : Bytes)
    → n ≤ length bs
    → read_loop n res (bs ++ more) ≡ read_loop n res bs
unfolding read_loop
read_loop-append zero res bs more h = refl
read_loop-append (suc n) res [] more h = absurd (omega arith)
read_loop-append (suc n) res (b ∷ bs) more h = read_loop-append n _ bs more (omega arith)

-- A reading that succeeds does not look past the number: bytes added behind the input change nothing.
pub read_varint-append :
    (bs more : Bytes) → (read_varint bs).1 ≢ 0 → read_varint (bs ++ more) ≡ read_varint bs
unfolding read_varint
read_varint-append [] more h = absurd (h refl)
read_varint-append (b ∷ bs) more h = elim (Bool-cases (ltb (length (b ∷ bs)) (2 ^ (b / 64)))) [
  | inl short ↦ absurd (h (rw short))
  | inr enough ↦
      ground
        (arith, read_loop-append (2 ^ (b / 64) - 1) (bit_and b 0x3f) bs more, length-append bs more)
]

pow_pos : (n : ℕ) → 0 < 256 ^ n
pow_pos zero = omega arith
pow_pos (suc n) = omega (arith, pow_pos n, pow-suc 256 n)

mul_grows : (a b p : ℕ) → 0 < p → a ≤ b → (a * p ≤ b * p) × (b ≤ b * p)
mul_grows a b p hp h = (grind arith, grind arith)

read_loop-lt_end : (res p : ℕ) → 0 < p → res < (res + 1) * p
read_loop-lt_end res p h = omega (arith, mul_grows (res + 1) (res + 1) p h (omega arith))

read_loop-lt :
    (n res : ℕ) (bs : Bytes)
    → All IsByte bs
    → (res + 1) * 256 ^ n ≤ u64
    → read_loop n res bs < (res + 1) * 256 ^ n
unfolding read_loop
read_loop-lt zero res bs h fits = omega arith
read_loop-lt (suc n) res [] h fits = read_loop-lt_end res (256 ^ suc n) (pow_pos (suc n))
read_loop-lt (suc n) res (b ∷ bs) (hb, h) fits =
    let p : 256 ^ suc n ≡ 256 ^ n * 256 = pow-suc 256 n in
    let q : (res + 1) * 256 ^ suc n ≡ (res * 256 + 256) * 256 ^ n =
      omega (arith, ap (λ (t : ℕ). (res + 1) * t) p) in
    let grows =
      mul_grows (res * 256 + b + 1) (res * 256 + 256) (256 ^ n) (pow_pos n) (omega arith) in
    let e : (res * 256 + b) % u64 ≡ res * 256 + b =
      omega
        (arith, grows, q, mul_grows (res * 256 + 256) (res * 256 + 256) (256 ^ n) (pow_pos n)) in
    rw e (omega (arith, q, grows, read_loop-lt n (res * 256 + b) bs h (omega (arith, q, grows))))

top_cases : (k : ℕ) → k < 4 → (k ≡ 0) ⊎ (k ≡ 1) ⊎ (k ≡ 2) ⊎ (k ≡ 3)
top_cases k h = omega arith

-- A failed reading answers 0 and 0 bytes. A successful one parses 1, 2, 4 or 8 bytes of the input, and its
-- value is no larger than a varint can be.
pub read_varint_bounds :
    (bs : Bytes)
    → All IsByte bs
    → (read_varint bs ≡ (0, 0))
      ⊎ (((read_varint bs).1 ≤ length bs)
          × ((read_varint bs).0 ≤ max_varint)
          × (varint_size (read_varint bs).0 ≤ (read_varint bs).1)
          × (((read_varint bs).1 ≡ 1)
              ⊎ ((read_varint bs).1 ≡ 2)
              ⊎ ((read_varint bs).1 ≡ 4)
              ⊎ ((read_varint bs).1 ≡ 8)))
unfolding read_varint
read_varint_bounds [] h = inl refl
read_varint_bounds (b ∷ bs) (hb, h) =
    let bits = low_six b hb in
    elim (top_cases (b / 64) (omega arith)) [
      | inl e ↦ rw e (ground (arith, bits, read_loop-lt 0 (bit_and b 0x3f) bs h))
      | inr (inl e) ↦ rw e (ground (arith, bits, read_loop-lt 1 (bit_and b 0x3f) bs h))
      | inr (inr (inl e)) ↦ rw e (ground (arith, bits, read_loop-lt 3 (bit_and b 0x3f) bs h))
      | inr (inr (inr e)) ↦ rw e (ground (arith, bits, read_loop-lt 7 (bit_and b 0x3f) bs h))
    ]

pub read_varint_used : (bs : Bytes) → (read_varint bs).1 ≤ length bs
unfolding read_varint
read_varint_used [] = omega arith
read_varint_used (b ∷ bs) = ground arith
