-- ===== src/Wire/Moqint/Forms.antt =====
-- The forms that `write_moqint` gives to numbers after version 16, by their size.
use imquic.Base.{
  ℕ, suc, ◌+◌, ◌*◌, ◌/◌, ◌%◌, ◌^◌, ◌≤◌, ◌<◌, ◌≡◌, sym, ap, ◌∙◌, arith, ◌⊎◌, inl, inr, ◌&&◌, [], ◌∷◌,
  Bytes, leb, Bool-cases, be_onto, big_endian, bump_first, be_onto_head,
}
use mathlib.Core.Path.{subst}
use imquic.Wire.Moqint.{version_18, announced_len, low_bits, write_long_moqint, long_moqint_size}

be_onto_skip :
    (n v : ℕ) (tail : Bytes) → v < 256 ^ n → be_onto (suc n) v tail ≡ 0 ∷ be_onto n v tail
be_onto_skip n v tail h =
    let e : v ≡ 0 * 256 ^ n + v = omega arith in
    ap (λ (t : ℕ). be_onto (suc n) t tail) e ∙ be_onto_head n 0 v tail (omega arith) h

-- The number's highest byte apart from the others.
be_onto_split :
    (n v : ℕ)
    → v / 256 ^ n < 256
    → v % 256 ^ n < 256 ^ n
    → v / 256 ^ n * 256 ^ n + v % 256 ^ n ≡ v
    → be_onto (suc n) v [] ≡ (v / 256 ^ n) ∷ be_onto n (v % 256 ^ n) []
be_onto_split n v h l e = ap (λ (t : ℕ). be_onto (suc n) t []) (sym e) ∙ be_onto_head n _ _ [] h l

-- The forms of 2 to 7 bytes: the mark over the highest byte, and the other bytes.
module _ (version v blen : ℕ) where
  pub write_two :
      127 < v
      → v ≤ 16383
      → 2 ≤ blen
      → write_long_moqint version v blen ≡ (128 + v / 256 ^ 1) ∷ be_onto 1 (v % 256 ^ 1) []
  unfolding write_long_moqint big_endian bump_first
  write_two lo hi room =
      let e : v % 2 ^ 16 ≡ v = omega arith in rw e (ground (arith, be_onto_split 1 v))

  pub write_three :
      16383 < v
      → v ≤ 2097151
      → 3 ≤ blen
      → write_long_moqint version v blen ≡ (192 + v / 256 ^ 2) ∷ be_onto 2 (v % 256 ^ 2) []
  unfolding write_long_moqint big_endian bump_first
  write_three lo hi room =
      let e : v % 2 ^ 32 ≡ v = omega arith in
      rw e (ground (arith, be_onto_skip 3 v [], be_onto_split 2 v))

  pub write_four :
      2097151 < v
      → v ≤ 268435455
      → 4 ≤ blen
      → write_long_moqint version v blen ≡ (224 + v / 256 ^ 3) ∷ be_onto 3 (v % 256 ^ 3) []
  unfolding write_long_moqint big_endian bump_first
  write_four lo hi room =
      let e : v % 2 ^ 32 ≡ v = omega arith in rw e (ground (arith, be_onto_split 3 v))

  pub write_five :
      268435455 < v
      → v ≤ 34359738367
      → 5 ≤ blen
      → write_long_moqint version v blen ≡ (240 + v / 256 ^ 4) ∷ be_onto 4 (v % 256 ^ 4) []
  unfolding write_long_moqint big_endian bump_first
  write_five lo hi room =
      ground
        (arith, be_onto_skip 7 v [], be_onto_skip 6 v [], be_onto_skip 5 v [], be_onto_split 4 v)

  pub write_six :
      34359738367 < v
      → v ≤ 4398046511103
      → 6 ≤ blen
      → write_long_moqint version v blen ≡ (248 + v / 256 ^ 5) ∷ be_onto 5 (v % 256 ^ 5) []
  unfolding write_long_moqint big_endian bump_first
  write_six lo hi room = ground (arith, be_onto_skip 7 v [], be_onto_skip 6 v [], be_onto_split 5 v)

  pub write_seven :
      4398046511103 < v
      → v ≤ 562949953421311
      → version_18 ≤ version
      → 7 ≤ blen
      → write_long_moqint version v blen ≡ (252 + v / 256 ^ 6) ∷ be_onto 6 (v % 256 ^ 6) []
  unfolding write_long_moqint big_endian bump_first
  write_seven lo hi new room = ground (arith, be_onto_skip 7 v [], be_onto_split 6 v)

  pub write_eight :
      4398046511103 < v
      → (version < version_18) ⊎ (562949953421311 < v)
      → v ≤ 72057594037927935
      → 8 ≤ blen
      → write_long_moqint version v blen ≡ 0xfe ∷ be_onto 7 v []
  unfolding write_long_moqint big_endian bump_first
  write_eight lo old hi room = ground (arith, be_onto_skip 7 v [])

  pub write_nine :
      72057594037927935 < v → 9 ≤ blen → write_long_moqint version v blen ≡ 0xff ∷ be_onto 8 v []
  unfolding write_long_moqint big_endian
  write_nine lo room = ground arith

-- The announced length and the low bits of a first byte, by its mark.
module _ (h : ℕ) where
  pub first_two : h < 64 → (announced_len (128 + h) ≡ 2) × (low_bits 2 (128 + h) ≡ h)
  unfolding announced_len
  first_two p = ground arith

  pub first_three : h < 32 → (announced_len (192 + h) ≡ 3) × (low_bits 3 (192 + h) ≡ h)
  unfolding announced_len
  first_three p = ground arith

  pub first_four : h < 16 → (announced_len (224 + h) ≡ 4) × (low_bits 4 (224 + h) ≡ h)
  unfolding announced_len
  first_four p = ground arith

  pub first_five : h < 8 → (announced_len (240 + h) ≡ 5) × (low_bits 5 (240 + h) ≡ h)
  unfolding announced_len
  first_five p = ground arith

  pub first_six : h < 4 → (announced_len (248 + h) ≡ 6) × (low_bits 6 (248 + h) ≡ h)
  unfolding announced_len
  first_six p = ground arith

  pub first_seven : h < 2 → (announced_len (252 + h) ≡ 7) × (low_bits 7 (252 + h) ≡ h)
  unfolding announced_len
  first_seven p = ground arith

-- The nine sizes, one of which every number has.
pub data SizeClass (version v : ℕ) : ℕ → Type 0 where
  one : v ≤ 127 → SizeClass version v 1
  two : 127 < v → v ≤ 16383 → SizeClass version v 2
  three : 16383 < v → v ≤ 2097151 → SizeClass version v 3
  four : 2097151 < v → v ≤ 268435455 → SizeClass version v 4
  five : 268435455 < v → v ≤ 34359738367 → SizeClass version v 5
  six : 34359738367 < v → v ≤ 4398046511103 → SizeClass version v 6
  seven : 4398046511103 < v → v ≤ 562949953421311 → version_18 ≤ version → SizeClass version v 7
  eight :
      4398046511103 < v
      → (version < version_18) ⊎ (562949953421311 < v)
      → v ≤ 72057594037927935
      → SizeClass version v 8
  nine : 72057594037927935 < v → SizeClass version v 9

SizeClass-wide :
    (version v : ℕ) → 4398046511103 < v → SizeClass version v (long_moqint_size version v)
SizeClass-wide version v h = elim (Bool-cases (leb v 562949953421311 && leb version_18 version)) [
  | inl c ↦ subst (SizeClass version v) (ground arith) (seven h (ground arith) (ground arith))
  | inr c ↦ elim (Bool-cases (leb v 72057594037927935)) [
    | inl d ↦ subst (SizeClass version v) (ground arith) (eight h (ground arith) (ground arith))
    | inr d ↦ subst (SizeClass version v) (ground arith) (nine (ground arith))
  ]
]

-- The bound of a class is passed, or the number is of that class.
split_at : (b v : ℕ) → (v ≤ b) ⊎ (b < v)
split_at b v = omega arith

pub size_class : (version v : ℕ) → SizeClass version v (long_moqint_size version v)
size_class version v = elim (split_at 127 v) [
  | inl b ↦ subst (SizeClass version v) (ground arith) (one b)
  | inr a₁ ↦ elim (split_at 16383 v) [
    | inl b ↦ subst (SizeClass version v) (ground arith) (two a₁ b)
    | inr a₂ ↦ elim (split_at 2097151 v) [
      | inl b ↦ subst (SizeClass version v) (ground arith) (three a₂ b)
      | inr a₃ ↦ elim (split_at 268435455 v) [
        | inl b ↦ subst (SizeClass version v) (ground arith) (four a₃ b)
        | inr a₄ ↦ elim (split_at 34359738367 v) [
          | inl b ↦ subst (SizeClass version v) (ground arith) (five a₄ b)
          | inr a₅ ↦ elim (split_at 4398046511103 v) [
            | inl b ↦ subst (SizeClass version v) (ground arith) (six a₅ b)
            | inr a₆ ↦ SizeClass-wide version v a₆
          ]
        ]
      ]
    ]
  ]
]
