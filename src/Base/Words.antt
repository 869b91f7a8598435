-- ===== src/Base/Words.antt =====
-- Bytes and machine words as native numbers, the masks of one byte as arithmetic, and integers in
-- network order, which `htons`, `htonl` and `htonll` lay out in memory.
use Prim.Native.Nat.{ℕ, zero, suc, ◌+◌, ◌*◌, ◌/◌, ◌%◌, ◌^◌, ◌<◌, bit_and}
use mathlib.Core.Path.{◌≡◌, refl, ap}
use mathlib.Core.Bool.{Bool, true, false}
use mathlib.Core.List.{List, [], ◌∷◌, ◌++◌}
use mathlib.Core.Logic.{ite}
use native.Mathlib.Decide.{ℕ_discrete}
use native.Mathlib.Nat.{pow-suc}
use native.Mathlib.Omega.{arith}
use imquic.Base.Lists.{length, All}

abbrev pub Bytes : Type 0
Bytes = List ℕ

abbrev pub IsByte : ℕ → Type 0
IsByte b = b < 256

abbrev pub u64 : ℕ
u64 = 2 ^ 64

-- Two functions that agree below a bound, checked by evaluation.
module _ (f g : ℕ → ℕ) where
  unfoldable pub agree_below : ℕ → Bool
  unfolding ℕ_discrete
  agree_below zero = true
  agree_below (suc n) = ite (ℕ_discrete (f n) (g n)) (agree_below n) false

  pub agree_below→eq : (n : ℕ) → agree_below n ≡ true → (i : ℕ) → i < n → f i ≡ g i
  unfolding agree_below
  agree_below→eq zero e i h = absurd (omega arith)
  agree_below→eq (suc n) e i h = ground (arith, agree_below→eq n (ground arith) i)

pub low_six : (b : ℕ) → b < 256 → bit_and b 0x3f ≡ b % 64
unfolding agree_below
low_six = agree_below→eq _ _ 256 refl

pub low_seven : (b : ℕ) → b < 256 → bit_and b 0x7f ≡ b % 128
unfolding agree_below
low_seven = agree_below→eq _ _ 256 refl

pub top_bit : (b : ℕ) → b < 256 → bit_and b 0x80 ≡ b / 128 * 128
unfolding agree_below
top_bit = agree_below→eq _ _ 256 refl

-- The `n` low bytes of `v`, highest first, before `tail`.
unfoldable pub be_onto : ℕ → ℕ → Bytes → Bytes
be_onto zero v tail = tail
be_onto (suc n) v tail = be_onto n (v / 256) ((v % 256) ∷ tail)

unfoldable pub big_endian : ℕ → ℕ → Bytes
unfolding be_onto
big_endian n v = be_onto n v []

-- `*bytes += k` on the first byte.
unfoldable pub bump_first : ℕ → Bytes → Bytes
bump_first k [] = []
bump_first k (b ∷ bs) = ((b + k) % 256) ∷ bs

-- `for(i = 1; i < len; i++) res = (res << 8) + bytes[i]` over the `n` bytes that are left to read.
unfoldable pub read_loop : ℕ → ℕ → Bytes → ℕ
read_loop zero res bs = res
read_loop (suc n) res [] = res
read_loop (suc n) res (b ∷ bs) = read_loop n ((res * 256 + b) % u64) bs

pub be_onto-append :
    (n v : ℕ) (tail more : Bytes) → be_onto n v tail ++ more ≡ be_onto n v (tail ++ more)
unfolding be_onto
be_onto-append zero v tail more = refl
be_onto-append (suc n) v tail more = be_onto-append n (v / 256) ((v % 256) ∷ tail) more

pub length-be_onto : (n v : ℕ) (tail : Bytes) → length (be_onto n v tail) ≡ n + length tail
unfolding be_onto
length-be_onto zero v tail = omega arith
length-be_onto (suc n) v tail = omega (arith, length-be_onto n (v / 256) ((v % 256) ∷ tail))

pub be_onto-IsByte : (n v : ℕ) (tail : Bytes) → All IsByte tail → All IsByte (be_onto n v tail)
unfolding be_onto
be_onto-IsByte zero v tail h = h
be_onto-IsByte (suc n) v tail h = be_onto-IsByte n (v / 256) _ (omega arith, h)

-- The reading loop undoes the layout, as long as nothing is shifted out of 64 bits.
pub read_loop-be_onto :
    (n k res v : ℕ) (tail : Bytes)
    → v < 256 ^ n
    → res * 256 ^ n + v < u64
    → read_loop (n + k) res (be_onto n v tail) ≡ read_loop k (res * 256 ^ n + v) tail
unfolding be_onto
read_loop-be_onto zero k res v tail hv fits =
    let e : 0 + k ≡ k = omega arith in
    let f : res * 1 + v ≡ res * 256 ^ 0 + v = refl in
    let g : res ≡ res * 1 + v = omega arith in rw (e, ← f, ← g)
read_loop-be_onto (suc n) k res v tail hv fits =
    let p : 256 ^ suc n ≡ 256 ^ n * 256 = pow-suc 256 n in
    let e : suc n + k ≡ n + suc k = omega arith in
    let low : v / 256 < 256 ^ n = omega (arith, p) in
    let room : res * 256 ^ n + v / 256 < u64 = omega (arith, p, ap (λ (t : ℕ). res * t) p) in
    let whole : ((res * 256 ^ n + v / 256) * 256 + v % 256) % u64 ≡ res * 256 ^ suc n + v =
      omega (arith, p, ap (λ (t : ℕ). res * t) p) in
    rw (e, read_loop-be_onto n (suc k) res (v / 256) ((v % 256) ∷ tail) low room)
      (unfold read_loop in rw whole)

-- The highest of `n + 1` bytes stands first.
pub be_onto_head :
    (n h l : ℕ) (tail : Bytes)
    → h < 256
    → l < 256 ^ n
    → be_onto (suc n) (h * 256 ^ n + l) tail ≡ h ∷ be_onto n l tail
unfolding be_onto
be_onto_head zero h l tail hh hl = let e : (h * 256 ^ 0 + l) % 256 ≡ h = omega arith in rw e
be_onto_head (suc n) h l tail hh hl =
    let p : 256 ^ suc n ≡ 256 ^ n * 256 = pow-suc 256 n in
    let q : h * 256 ^ suc n ≡ h * 256 ^ n * 256 = omega (arith, ap (λ (t : ℕ). h * t) p) in
    let high : (h * 256 ^ suc n + l) / 256 ≡ h * 256 ^ n + l / 256 = omega (arith, q) in
    let low : (h * 256 ^ suc n + l) % 256 ≡ l % 256 = omega (arith, q) in
    rw (high, low) (be_onto_head n h (l / 256) ((l % 256) ∷ tail) hh (omega (arith, p)))
