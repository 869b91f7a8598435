-- ===== src/Glib.antt =====
-- What the sources use of GLib, `g_list_sort` and `g_snprintf`, of which only the documented behaviour is known.
use mathlib.Core.Logic.{∥∥₁_elim}
use mathlib.Core.List.{Mem, Perm, Permᴰ, IsChain, forall_mem-cons, not-mem-nil}
use mathlib.Core.List.Perm
use native.Mathlib.Nat.{ℕ_set}
use imquic.Base.{ℕ, ◌+◌, ◌<◌, length, arith, ◌≡◌, ◌≢◌, refl, ap, ◌∙◌, List, [], ◌∷◌, All}

-- The sign of what a comparison returns.
pub data Comparison : Type 0 where
  negative same positive : Comparison

-- A comparison that sorts: what comes after another does not also come before it, and coming before is transitive.
pub record IsOrder {ℓ} {A : Type ℓ} (compare : A → A → Comparison) : Type ℓ where
  pub flips : (a b : A) → compare a b ≡ positive → compare b a ≢ positive
  pub trans : (a b c : A) → compare a b ≢ positive → compare b c ≢ positive → compare a c ≢ positive

-- `g_list_sort`: the same elements, none of which comes after the next.
pub record GListSort {ℓ} (A : Type ℓ) : Type ℓ where
  pub sort : (A → A → Comparison) → List A → List A
  pub permutes : (compare : A → A → Comparison) (xs : List A) → Perm (sort compare xs) xs
  pub ordered :
      {compare : A → A → Comparison}
      → IsOrder compare
      → (xs : List A) → IsChain (λ a b. compare a b ≢ positive) (sort compare xs)

module _ {ℓ κ} {A : Type ℓ} {P : A → Type κ} (prop : (x : A) → IsProp (P x)) where
  All-mem : (xs : List A) → All P xs → (x : A) → Mem x xs → P x
  All-mem [] h x m = absurd (not-mem-nil m)
  All-mem (y ∷ ys) (hy, h) x m = (forall_mem-cons prop).1 (hy, All-mem ys h) x m

  All-of_mem : (xs : List A) → ((x : A) → Mem x xs → P x) → All P xs
  All-of_mem [] h = tt
  All-of_mem (y ∷ ys) h = let parts = (forall_mem-cons prop).0 h in (parts.0, All-of_mem ys parts.1)

  -- What holds of all elements holds of all of them in another order.
  pub All-perm : {xs ys : List A} → Perm xs ys → All P ys → All P xs
  All-perm {xs} {ys} p h = All-of_mem xs (λ x m. All-mem ys h x ((Perm.mem_iff p).0 m))

module _ {ℓ} {A : Type ℓ} (size : A → ℕ) where
  abbrev pub total : List A → ℕ
  total [] = 0
  total (x ∷ xs) = size x + total xs

  Permᴰ-total : {xs ys : List A} → Permᴰ xs ys → total xs ≡ total ys
  Permᴰ-total Permᴰ.nil = refl
  Permᴰ-total (Permᴰ.cons {a} e p) = omega (arith, ap size e, Permᴰ-total p)
  Permᴰ-total (Permᴰ.swap e f) = omega (arith, ap size e, ap size f)
  Permᴰ-total (Permᴰ.trans p q) = Permᴰ-total p ∙ Permᴰ-total q

  -- A sum over the elements does not depend on their order.
  pub total-perm : {xs ys : List A} → Perm xs ys → total xs ≡ total ys
  total-perm p = ∥∥₁_elim p (ℕ_set _ _) Permᴰ-total

-- `g_snprintf (buffer, size, "%.*s", length, bytes)`: the string that the buffer holds then. A text without a zero byte
-- that leaves room for the terminating one is there as a whole.
pub record GSnprintf : Type 0 where
  pub print : (size : ℕ) → List ℕ → List ℕ
  pub whole :
      (size : ℕ) (text : List ℕ)
      → length text < size
      → All (λ b. 0 < b) text
      → print size text ≡ text
