-- ===== src/Wire/Moqint/Input.antt =====
-- `read_moqint` on any input, well formed or not, and `write_moqint` with any room.
use imquic.Base.{
  ℕ, zero, suc, ◌-◌, ◌*◌, ◌%◌, ◌^◌, ◌≤◌, ◌<◌, ◌≡◌, ◌≢◌, arith, ◌⊎◌, inl, inr, [], ◌∷◌, ◌++◌, Bytes,
  IsByte, All, length, length-append, ltb, Bool-cases, u64, read_loop,
}
use native.Mathlib.Nat.{div-le_self}
use imquic.Wire.Varint.{read_varint}
use imquic.Wire.Varint.Input.{
  read_varint_bounds, read_varint_used, read_loop-append, read_varint-append,
}
use imquic.Wire.Moqint.{announced_len, low_bits, read_long_moqint, read_moqint}

read_loop-lt_u64 : (n res : ℕ) (bs : Bytes) → res < u64 → read_loop n res bs < u64
unfolding read_loop
read_loop-lt_u64 zero res bs h = h
read_loop-lt_u64 (suc n) res [] h = h
read_loop-lt_u64 (suc n) res (b ∷ bs) h = read_loop-lt_u64 n _ bs (omega arith)

announced_len-le : (b : ℕ) → announced_len b ≤ 9
unfolding announced_len
announced_len-le b = ground arith

low_bits-lt : (len b : ℕ) → b < 256 → low_bits len b < 256
low_bits-lt len b h = elim (Bool-cases (ltb len 8)) [
  | inl s ↦ rw s (omega (arith, div-le_self (b * 2 ^ len % 256) (2 ^ len)))
  | inr s ↦ rw s (omega arith)
]

-- A failed reading answers 0 and 0 bytes. A successful one parses 1 to 9 bytes, which lie within the input, and its
-- value has 64 bits.
pub read_moqint_bounds :
    (version : ℕ) (bs : Bytes)
    → All IsByte bs
    → (read_moqint version bs ≡ (0, 0))
      ⊎ ((0 < (read_moqint version bs).1)
          × ((read_moqint version bs).1 ≤ 9)
          × ((read_moqint version bs).1 ≤ length bs)
          × ((read_moqint version bs).0 < u64))
unfolding read_moqint read_long_moqint
read_moqint_bounds version [] h = ground (arith, read_varint_bounds [] h)
read_moqint_bounds version (b ∷ bs) (hb, h) = ground (
  arith,
  read_varint_bounds (b ∷ bs) (hb, h),
  announced_len-le b,
  low_bits-lt (announced_len b) b hb,
  read_loop-lt_u64 (announced_len b - 1) (low_bits (announced_len b) b) bs,
)

-- A reading that succeeds does not look past the number: bytes added behind the input change nothing.
pub read_moqint-append :
    (version : ℕ) (bs more : Bytes)
    → (read_moqint version bs).1 ≢ 0
    → read_moqint version (bs ++ more) ≡ read_moqint version bs
unfolding read_moqint read_long_moqint
read_moqint-append version [] more h = absurd (h (unfold read_varint in ground arith))
read_moqint-append version (b ∷ bs) more h = ground (
  arith,
  read_varint-append (b ∷ bs) more,
  length-append bs more,
  read_loop-append (announced_len b - 1) (low_bits (announced_len b) b) bs more,
)

pub read_moqint_used : (version : ℕ) (bs : Bytes) → (read_moqint version bs).1 ≤ length bs
unfolding read_moqint read_long_moqint
read_moqint_used version [] = ground (arith, read_varint_used [])
read_moqint_used version (b ∷ bs) = ground (arith, read_varint_used (b ∷ bs))
