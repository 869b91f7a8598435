-- ===== src/Wire/Pfxint.antt =====
-- `imquic_read_pfxint` and `imquic_write_pfxint` of utils.c: integers over the `n` low bits of a byte, with
-- seven bits in each byte that follows, lowest first.
-- A pointer with its length is the list of its bytes; NULL is the empty list, which the code treats alike.
pub mod RoundTrip
pub mod Input
use imquic.Base.{
  ℕ, zero, suc, ◌+◌, ◌-◌, ◌*◌, ◌/◌, ◌%◌, ◌^◌, ◌≤◌, ◌<◌, ◌≡◌, bit_and, bit_or, ◌||◌, List, [], ◌∷◌,
  Bytes, Option, none, some, length, ltb, leb, ◌==◌, if◌then◌else◌, u64,
}
use imquic.Wire.Varint.{Parsed}
use mathlib.Core.Option

-- `(1 << n) - 1`
abbrev pub prefix_cap : ℕ → ℕ
prefix_cap n = 2 ^ n - 1

-- The loop of the reader, from the byte at `i` on; `m` counts the bits read so far.
-- `none` is undefined behaviour: a shift of a 64-bit value by 64 bits or more. That stops the loop long
-- before the 8-bit variables `i` and `m` can wrap around.
unfoldable pub read_groups : Bytes → (m i number : ℕ) → Option Parsed
read_groups [] m i number = some (0, 0)
read_groups (b ∷ bs) m i number =
    let number' = (number + bit_and b 0x7f * 2 ^ m % u64) % u64 in
    let more = read_groups bs (m + 7) (i + 1) number' in
    if leb 64 m then none else if bit_and b 0x80 == 0 then some (number', i + 1) else more

unfoldable pub read_pfxint : ℕ → Bytes → Option Parsed
unfolding read_groups
read_pfxint n [] = some (0, 0)
read_pfxint n (b ∷ bs) =
    if ltb 8 n
    then some (0, 0)
    else if ltb (bit_and b (prefix_cap n)) (prefix_cap n)
    then some (bit_and b (prefix_cap n), 1)
    else read_groups bs 0 1 (prefix_cap n)

-- The loop of the writer and what follows it, over the bytes from `res` on: what the bytes become, and how
-- many were written, or `none` where the room ran out.
unfoldable pub write_groups : Bytes → (left : ℕ) → Bytes × Option ℕ
write_groups [] left = ([], none)
write_groups (x ∷ xs) left =
    let (ys, r) = write_groups xs (left / 128) in
    if leb 128 left then ((left % 128 + 128) ∷ ys, Option.map suc r) else (left ∷ xs, some 1)

-- What the buffer becomes, and the value returned.
unfoldable pub write_pfxint : (number n : ℕ) → Bytes → Bytes × ℕ
unfolding write_groups
write_pfxint number n [] = ([], 0)
write_pfxint number n (b ∷ bs) =
    if ltb 8 n
    then (b ∷ bs, 0)
    else if ltb number (prefix_cap n)
    then (bit_or b number ∷ bs, 1)
    else let (ys, r) = write_groups bs (number - prefix_cap n) in
      (bit_or b (prefix_cap n) ∷ ys, elim r [ none ↦ 0 | some k ↦ suc k ])

-- What the format says: the number of bytes behind the first.
abbrev pub groups : ℕ → ℕ → ℕ
groups zero left = 1
groups (suc k) left = let more = groups k (left / 128) in if ltb left 128 then 1 else suc more

abbrev pub pfxint_size : (number n : ℕ) → ℕ
pfxint_size number n =
    if ltb number (prefix_cap n) then 1 else suc (groups 9 (number - prefix_cap n))
