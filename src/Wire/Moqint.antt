-- ===== src/Wire/Moqint.antt =====
-- `imquic_read_moqint` and `imquic_write_moqint` of moq.c, for every version of the protocol.
mod Forms
pub mod RoundTrip
pub mod Input
pub mod Room
use imquic.Base.{
  ℕ, zero, suc, ◌+◌, ◌-◌, ◌*◌, ◌/◌, ◌%◌, ◌^◌, ◌≤◌, ◌<◌, ◌≡◌, ◌||◌, ◌&&◌, List, [], ◌∷◌, Bytes,
  length, drop, ltb, leb, ◌==◌, if◌then◌else◌, big_endian, bump_first, read_loop,
}
use imquic.Wire.Varint.{Parsed, read_varint, write_varint}

-- `imquic_moq_version`
abbrev pub version_16 : ℕ
version_16 = 0xff000010

abbrev pub version_17 : ℕ
version_17 = 0xff000011

abbrev pub version_18 : ℕ
version_18 = 0xff000012

-- The length that the first byte announces; 0 for none.
unfoldable pub announced_len : ℕ → ℕ
announced_len b =
    if b / 2 ^ 7 == 0
    then 1
    else if b / 2 ^ 6 == 0x02
    then 2
    else if b / 2 ^ 5 == 0x06
    then 3
    else if b / 2 ^ 4 == 0x0e
    then 4
    else if b / 2 ^ 3 == 0x1e
    then 5
    else if b / 2 ^ 2 == 0x3e
    then 6
    else if b / 2 ^ 1 == 0x7e
    then 7
    else if b == 0xfe
    then 8
    else if b == 0xff
    then 9
    else 0

-- `temp = bytes[0] << len; res = temp >> len` in 8 bits, where `len < 8`.
abbrev pub low_bits : (len b : ℕ) → ℕ
low_bits len b = if ltb len 8 then b * 2 ^ len % 256 / 2 ^ len else 0

-- A version later than 16, on a first byte and what follows it.
unfoldable pub read_long_moqint : (version b : ℕ) → Bytes → Parsed
unfolding announced_len
read_long_moqint version b bs =
    let len = announced_len b in
    if b == 0xfc && ltb version version_18
    then (0, 0)
    else if len == 1
    then (b, 1)
    else if len == 0 || ltb (length (b ∷ bs)) len
    then (0, 0)
    else (read_loop (len - 1) (low_bits len b) bs, len)

unfoldable pub read_moqint : (version : ℕ) → Bytes → Parsed
unfolding read_long_moqint
read_moqint version bs =
    if leb version version_16
    then read_varint bs
    else elim bs [ [] ↦ (0, 0) | b ∷ bs' ↦ read_long_moqint version b bs' ]

-- A version later than 16.
unfoldable pub write_long_moqint : (version number blen : ℕ) → Bytes
write_long_moqint version number blen =
    if ltb blen 1
    then []
    else if leb number 127
    then number ∷ []
    else if leb number 16383
    then (if ltb blen 2 then [] else bump_first 128 (big_endian 2 (number % 2 ^ 16)))
    else if leb number 2097151
    then (if ltb blen 3 then [] else bump_first 192 (drop 1 (big_endian 4 (number % 2 ^ 32))))
    else if leb number 268435455
    then (if ltb blen 4 then [] else bump_first 224 (big_endian 4 (number % 2 ^ 32)))
    else if leb number 34359738367
    then (if ltb blen 5 then [] else bump_first 240 (drop 3 (big_endian 8 number)))
    else if leb number 4398046511103
    then (if ltb blen 6 then [] else bump_first 248 (drop 2 (big_endian 8 number)))
    else if leb number 562949953421311 && leb version_18 version
    then (if ltb blen 7 then [] else bump_first 252 (drop 1 (big_endian 8 number)))
    else if leb number 72057594037927935
    then (if ltb blen 8 then [] else 0xfe ∷ drop 1 (big_endian 8 number))
    else if ltb blen 9
    then []
    else 0xff ∷ big_endian 8 number

unfoldable pub write_moqint : (version number blen : ℕ) → Bytes
unfolding write_long_moqint
write_moqint version number blen =
    if leb version version_16
    then write_varint number blen
    else write_long_moqint version number blen

-- What the format says of a number's size.
abbrev pub long_moqint_size : (version number : ℕ) → ℕ
long_moqint_size version number =
    if ltb number (2 ^ 7)
    then 1
    else if ltb number (2 ^ 14)
    then 2
    else if ltb number (2 ^ 21)
    then 3
    else if ltb number (2 ^ 28)
    then 4
    else if ltb number (2 ^ 35)
    then 5
    else if ltb number (2 ^ 42)
    then 6
    else if ltb number (2 ^ 49) && leb version_18 version
    then 7
    else if ltb number (2 ^ 56)
    then 8
    else 9
