-- ===== src/Tests/WireRuns.antt =====
-- The numbers of the wire formats, at small and large values.
use imquic.Base.{
  ◌*◌, ◌^◌, ◌≤◌, ◌<◌, ◌≡◌, ◌≢◌, arith, ◌⊎◌, [], ◌∷◌, ◌++◌, All, some, Bytes, IsByte, u64, length,
}
use imquic.Wire.Varint.{read_varint, write_varint}
use imquic.Wire.Varint.RoundTrip.{read_varint-write_varint}
use imquic.Wire.Moqint.{read_moqint, write_moqint, version_17, version_18}
use imquic.Wire.Moqint.RoundTrip.{read_moqint-write_moqint}
use imquic.Wire.Moqint.Input.{read_moqint_bounds}
use imquic.Wire.Pfxint.{read_pfxint, write_pfxint}
use imquic.Wire.Pfxint.RoundTrip.{read_pfxint-write_pfxint}

read_varint-write_varint_example : read_varint (write_varint 15293 2048 ++ (7 ∷ [])) ≡ (15293, 2)
read_varint-write_varint_example =
    read_varint-write_varint 15293 2048 (7 ∷ []) (omega arith) (omega arith)

-- The two bytes of 15293.
abbrev two_bytes : Bytes
two_bytes = 0x7b ∷ 0xbd ∷ []

two_bytes-IsByte : All IsByte two_bytes
two_bytes-IsByte = (omega arith, (omega arith, tt))

two_bytes_read : (read_varint two_bytes).1 ≢ 0
unfolding read_varint
two_bytes_read = λ e. omega arith

read_moqint-write_moqint_example :
    read_moqint version_18 (write_moqint version_18 (2 ^ 45) 9 ++ (7 ∷ [])) ≡ (2 ^ 45, 7)
read_moqint-write_moqint_example =
    read_moqint-write_moqint version_18 (2 ^ 45) 9 (7 ∷ []) (omega arith) (omega arith)

read_moqint_bounds_example :
    (read_moqint version_17 two_bytes ≡ (0, 0))
    ⊎ ((0 < (read_moqint version_17 two_bytes).1)
        × ((read_moqint version_17 two_bytes).1 ≤ 9)
        × ((read_moqint version_17 two_bytes).1 ≤ length two_bytes)
        × ((read_moqint version_17 two_bytes).0 < u64))
read_moqint_bounds_example = read_moqint_bounds version_17 two_bytes two_bytes-IsByte

one_byte_read : (read_moqint version_17 two_bytes).1 ≢ 0
unfolding read_moqint
one_byte_read = λ e. omega arith

read_pfxint-write_pfxint_example :
    (read_pfxint 5 (write_pfxint 1337 5 ((3 * 2 ^ 5) ∷ 0 ∷ 0 ∷ 0 ∷ [])).0 ≡ some (1337, 3))
    × ((write_pfxint 1337 5 ((3 * 2 ^ 5) ∷ 0 ∷ 0 ∷ 0 ∷ [])).1 ≡ 3)
read_pfxint-write_pfxint_example =
    read_pfxint-write_pfxint 1337 5 3 (0 ∷ 0 ∷ 0 ∷ []) (omega arith) (omega arith) (omega arith)
      (omega arith)

abbrev ten_bytes : Bytes
ten_bytes = 128 ∷ 128 ∷ 128 ∷ 128 ∷ 128 ∷ 128 ∷ 128 ∷ 128 ∷ 128 ∷ 128 ∷ []

abbrev range : (128 ≤ 128) × (128 < 256)
range = (omega arith, omega arith)
