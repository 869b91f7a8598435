-- ===== src/Wire/Pfxint/Input.antt =====
-- `read_pfxint` on any input, well formed or not.
use imquic.Base.{
  ℕ, suc, ◌+◌, ◌*◌, ◌%◌, ◌^◌, ◌≤◌, ◌<◌, ◌≡◌, arith, bit_and, [], ◌∷◌, ◌++◌, Bytes, All, Option,
  none, some, length, ltb, if◌then◌else◌, u64, top_bit, Bool-cases, inl, inr, ltb→lt, ltb→le,
}
use native.Mathlib.Nat.{add_comm, pow-le-pow_right}
use native.Mathlib.Numerals.{add-one}
use imquic.Wire.Varint.{Parsed}
use imquic.Wire.Pfxint.RoundTrip.{prefix_and}
use imquic.Wire.Pfxint.{prefix_cap, read_groups, read_pfxint}

-- Reading is defined, its value has 64 bits, and it parses at most `n` bytes.
abbrev pub Reads : Option Parsed → ℕ → Type 0
Reads none n = ⊥
Reads (some (v, k)) n = (v < u64) × (k ≤ n)

read_groups-Reads :
    (bs : Bytes) (m i number : ℕ)
    → m + 7 * length bs < 71
    → Reads (read_groups bs m i number) (i + length bs)
unfolding read_groups
read_groups-Reads [] m i number h = omega arith
read_groups-Reads (b ∷ bs) m i number h = ground (
  arith,
  later,
  read_groups-Reads bs (m + 7) (i + 1) ((number + bit_and b 0x7f * 2 ^ m % u64) % u64),
)
  where
    later : (r : Option Parsed) → Reads r (i + 1 + length bs) → Reads r (i + suc (length bs))
    later none r = r
    later (some (v, k)) r = omega arith

prefix_cap-lt : (n : ℕ) → n ≤ 8 → prefix_cap n < 256
prefix_cap-lt n h = omega (arith, pow-le-pow_right {n = 2} (omega arith) h)

first_byte :
    (n b : ℕ) (bs : Bytes)
    → prefix_cap n < 256
    → length bs ≤ 10
    → Reads
        (if ltb (bit_and b (prefix_cap n)) (prefix_cap n)
          then some (bit_and b (prefix_cap n), 1)
          else read_groups bs 0 1 (prefix_cap n))
        (suc (length bs))
first_byte n b bs cap h = elim (Bool-cases (ltb (bit_and b (prefix_cap n)) (prefix_cap n))) [
  | inl short ↦ rw short (omega (arith, ltb→lt _ _ short), omega arith)
  | inr full ↦ rw full (
      rw (add_comm 1 (length bs), add-one) at
        (read_groups-Reads bs 0 1 (prefix_cap n) (omega arith)))
]

-- On at most 11 bytes reading is defined: it answers with a 64-bit value and parses no more than the input.
pub read_pfxint-Reads : (n : ℕ) (bs : Bytes) → length bs ≤ 11 → Reads (read_pfxint n bs) (length bs)
unfolding read_pfxint
read_pfxint-Reads n [] h = omega arith
read_pfxint-Reads n (b ∷ bs) h = elim (Bool-cases (ltb 8 n)) [
  | inl wide ↦ rw wide (omega arith)
  | inr fits ↦ rw fits (first_byte n b bs (prefix_cap-lt n (ltb→le _ _ fits)) (omega arith))
]

abbrev Continues : ℕ → Type 0
Continues b = (128 ≤ b) × (b < 256)

read_groups_undefined :
    (mid : Bytes) (m i number x : ℕ) (rest : Bytes)
    → All Continues mid
    → 64 ≤ m + 7 * length mid
    → read_groups (mid ++ (x ∷ rest)) m i number ≡ none
unfolding read_groups
read_groups_undefined [] m i number x rest c h = ground arith
read_groups_undefined (b ∷ bs) m i number x rest (cb, c) h = ground (
  arith,
  top_bit b,
  read_groups_undefined bs (m + 7) (i + 1) ((number + bit_and b 0x7f * 2 ^ m % u64) % u64) x rest c,
)

-- A full prefix, ten bytes that announce a further one, and that further byte: the reader shifts a 64-bit
-- value by 70 bits, which is undefined behaviour, for every prefix of at most 8 bits.
pub read_pfxint_undefined :
    (n b x : ℕ) (mid rest : Bytes)
    → n ≤ 8
    → b < 256
    → b % 2 ^ n ≡ prefix_cap n
    → All Continues mid
    → length mid ≡ 10
    → read_pfxint n (b ∷ mid ++ (x ∷ rest)) ≡ none
unfolding read_pfxint
read_pfxint_undefined n b x mid rest hn hb full c len = ground (
  arith,
  prefix_and n b hn hb,
  read_groups_undefined mid 0 1 (prefix_cap n) x rest c (omega arith),
)
