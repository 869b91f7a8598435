-- ===== src/Wire/Varint.antt =====
-- `imquic_read_varint` and `imquic_write_varint` of utils.c.
-- A pointer with its length is the list of the bytes that may be read; NULL is the empty list, which
-- the code treats alike. Writing answers with the bytes that are stored at the pointer: their number is
-- the value returned, and a failure stores nothing.
pub mod RoundTrip
pub mod Input
use imquic.Base.{
  ℕ, zero, suc, ◌+◌, ◌-◌, ◌*◌, ◌/◌, ◌%◌, ◌^◌, ◌≤◌, ◌<◌, ◌≡◌, bit_and, ◌||◌, List, [], ◌∷◌, Bytes,
  length, ltb, leb, if◌then◌else◌, big_endian, bump_first, read_loop,
}

-- The value, and the number of bytes that were parsed: 0 for a failure.
abbrev pub Parsed : Type 0
Parsed = ℕ × ℕ

abbrev pub max_varint : ℕ
max_varint = 2 ^ 62 - 1

unfoldable pub read_varint : Bytes → Parsed
read_varint [] = (0, 0)
read_varint (b ∷ bs) =
    let len = 2 ^ (b / 64) in
    if ltb (length (b ∷ bs)) len then (0, 0) else (read_loop (len - 1) (bit_and b 0x3f) bs, len)

unfoldable pub write_varint : (number blen : ℕ) → Bytes
write_varint number blen =
    if ltb blen 1 || ltb max_varint number
    then []
    else if leb number 63
    then number ∷ []
    else if leb number 16383
    then (if ltb blen 2 then [] else bump_first 64 (big_endian 2 (number % 2 ^ 16)))
    else if leb number 1073741823
    then (if ltb blen 4 then [] else bump_first 128 (big_endian 4 (number % 2 ^ 32)))
    else if ltb blen 8
    then []
    else bump_first 128 (bump_first 64 (big_endian 8 number))

-- What the format says of a number's size.
abbrev pub varint_size : ℕ → ℕ
varint_size n =
    if ltb n (2 ^ 6) then 1 else if ltb n (2 ^ 14) then 2 else if ltb n (2 ^ 30) then 4 else 8
