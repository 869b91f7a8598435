-- ===== src/Wire/Pfxint/RoundTrip.antt =====
-- `read_pfxint` reads back what `write_pfxint` wrote.
use imquic.Base.{
  ℕ, zero, suc, ◌+◌, ◌-◌, ◌*◌, ◌/◌, ◌%◌, ◌^◌, ◌≤◌, ◌<◌, ◌≡◌, refl, ap, ◌∙◌, arith, bit_and, bit_or,
  [], ◌∷◌, Bytes, some, length, ltb, Bool-cases, ltb→lt, ltb→le, inl, inr, u64, low_seven, top_bit,
  agree_below, agree_below→eq,
}
use native.Mathlib.Numerals.{towards_suc}
use native.Mathlib.Nat.{
  div-add-mod, mul-add-div_right, mul-add-mod_self_right, mod-eq_of_lt, pow-suc, div-eq_of_lt,
}
use imquic.Wire.Pfxint.{
  prefix_cap, read_groups, read_pfxint, write_groups, write_pfxint, groups, pfxint_size,
}

-- For each prefix, a byte with that prefix clear takes any value of the prefix, and gives it back.
-- The byte and the prefix's length are one number below 9 * 256.
prefix_or_table :
    (c : ℕ)
    → c < 2304
    → bit_or (c % 256 / 2 ^ (c / 256) * 2 ^ (c / 256)) (c % 256 % 2 ^ (c / 256)) ≡ c % 256
unfolding agree_below
prefix_or_table = agree_below→eq _ _ 2304 refl

prefix_and_table :
    (c : ℕ) → c < 2304 → bit_and (c % 256) (2 ^ (c / 256) - 1) ≡ c % 256 % 2 ^ (c / 256)
unfolding agree_below
prefix_and_table = agree_below→eq _ _ 2304 refl

pub prefix_and : (n b : ℕ) → n ≤ 8 → b < 256 → bit_and b (prefix_cap n) ≡ b % 2 ^ n
prefix_and n b hn hb =
    let q : (n * 256 + b) / 256 ≡ n = omega arith in
    let r : (n * 256 + b) % 256 ≡ b = omega arith in
    rw (q, r) at (prefix_and_table (n * 256 + b) (omega arith))

pub prefix_or : (n b : ℕ) → n ≤ 8 → b < 256 → bit_or (b / 2 ^ n * 2 ^ n) (b % 2 ^ n) ≡ b
prefix_or n b hn hb =
    let q : (n * 256 + b) / 256 ≡ n = omega arith in
    let r : (n * 256 + b) % 256 ≡ b = omega arith in
    rw (q, r) at (prefix_or_table (n * 256 + b) (omega arith))

-- A number at bit `m` is its low seven bits there, and what is above them seven bits higher.
groups_at : (left m : ℕ) → left * 2 ^ m ≡ left % 128 * 2 ^ m + left / 128 * 2 ^ (m + 7)
groups_at left m =
    let higher : 2 ^ (m + 7) ≡ 128 * 2 ^ m = simp towards_suc (omega arith) in
    let whole = div-add-mod left 128 in
    rw higher
      (grind (arith, ap (λ (n : ℕ). n * 2 ^ m) whole, ap (λ (n : ℕ). left / 128 * n) higher))

groups_pos : (k left : ℕ) → 0 < groups k left
groups_pos zero left = omega arith
groups_pos (suc k) left = ground arith

-- What `write_groups` leaves, read from the bit `m` on.
read_groups-write_groups :
    (k : ℕ) (room : Bytes) (left m i number : ℕ)
    → left < 128 ^ suc k
    → groups k left ≤ length room
    → m + 7 * k < 64
    → number + left * 2 ^ m < u64
    → (read_groups (write_groups room left).0 m i number
        ≡ some (number + left * 2 ^ m, i + groups k left))
      × ((write_groups room left).1 ≡ some (groups k left))
unfolding read_groups write_groups
read_groups-write_groups k [] left m i number h room hm fits =
    absurd (omega (arith, groups_pos k left))
read_groups-write_groups zero (x ∷ xs) left m i number h room hm fits =
    ground (arith, low_seven left, top_bit left)
read_groups-write_groups (suc k) (x ∷ xs) left m i number h room hm fits = ground (
  arith,
  low_seven left,
  top_bit left,
  low_seven (left % 128 + 128),
  top_bit (left % 128 + 128),
  groups_at left m,
  read_groups-write_groups k xs (left / 128) (m + 7) (i + 1) (number + left % 128 * 2 ^ m),
)

-- A byte whose `n` low bits are clear takes a value of the prefix and gives it back.
take_prefix :
    (n f x : ℕ)
    → n ≤ 8
    → f * 2 ^ n + x < 256
    → x < 2 ^ n
    → bit_and (bit_or (f * 2 ^ n) x) (prefix_cap n) ≡ x
take_prefix n f x hn hb hx =
    let d : (f * 2 ^ n + x) / 2 ^ n ≡ f =
      mul-add-div_right (omega arith) f x ∙ rw (div-eq_of_lt hx) (omega arith) in
    let r : (f * 2 ^ n + x) % 2 ^ n ≡ x = mul-add-mod_self_right f (2 ^ n) x ∙ mod-eq_of_lt hx in
    let o = rw (d, r) at (prefix_or n (f * 2 ^ n + x) hn hb) in
    rw o (prefix_and n (f * 2 ^ n + x) hn hb ∙ r)

size_bound :
    (n number : ℕ) → n ≤ 8 → number < u64 → (number - prefix_cap n < 128 ^ 10) × (0 < 2 ^ n)
size_bound n number hn h = (omega arith, pow_pos n)
  where
    pow_pos : (k : ℕ) → 0 < 2 ^ k
    pow_pos zero = omega arith
    pow_pos (suc k) = omega (arith, pow_pos k, pow-suc 2 k)

-- Where the prefix has at most 8 bits and they are clear in the first byte, the number has 64 bits and
-- its encoding fits the buffer, the writer returns the size of the encoding, and reading the buffer that
-- it leaves gives the number and that size.
pub read_pfxint-write_pfxint :
    (number n f : ℕ) (room : Bytes)
    → n ≤ 8
    → f * 2 ^ n + 2 ^ n ≤ 256
    → number < u64
    → pfxint_size number n ≤ suc (length room)
    → (read_pfxint n (write_pfxint number n ((f * 2 ^ n) ∷ room)).0
        ≡ some (number, pfxint_size number n))
      × ((write_pfxint number n ((f * 2 ^ n) ∷ room)).1 ≡ pfxint_size number n)
unfolding read_pfxint write_pfxint
read_pfxint-write_pfxint number n f room hn hf hv fits =
    let (bound, pos) = size_bound n number hn hv in
    elim (Bool-cases (ltb number (prefix_cap n))) [
      | inl small ↦
          let t =
            take_prefix n f number hn (omega (arith, ltb→lt _ _ small))
              (omega (arith, ltb→lt _ _ small)) in
          ground (arith, t)
      | inr large ↦
          let big = ltb→le _ _ large in
          let t = take_prefix n f (prefix_cap n) hn (omega arith) (omega arith) in
          let enough : groups 9 (number - prefix_cap n) ≤ length room = ground arith in
          let (r, w) =
            read_groups-write_groups 9 room (number - prefix_cap n) 0 1 (prefix_cap n) bound enough
              (omega arith) (omega (arith, big)) in
          let whole : prefix_cap n + (number - prefix_cap n) * 2 ^ 0 ≡ number =
            omega (arith, big) in
          ground (arith, t, r, w, whole)
    ]
