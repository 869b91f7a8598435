-- ===== src/Tests/Sorting.antt =====
-- A sorting function that keeps the promise of `g_list_sort`.
use mathlib.Core.List.{Perm, IsChain}
use mathlib.Core.List.Perm
use imquic.Base.{
  ◌≡◌, ◌≢◌, refl, inl, inr, Bool, true, false, List, [], ◌∷◌, Bool-cases, if◌then◌else◌,
}
use imquic.Glib.{Comparison, negative, same, positive, IsOrder, GListSort}

abbrev pub is_positive : Comparison → Bool
is_positive negative = false
is_positive same = false
is_positive positive = true

positive-of : (c : Comparison) → is_positive c ≡ true → c ≡ positive
positive-of negative h = cc h
positive-of same h = cc h
positive-of positive h = refl

not_positive : (c : Comparison) → is_positive c ≡ false → c ≢ positive
not_positive negative h = λ e. cc e
not_positive same h = λ e. cc e
not_positive positive h = cc h

module _ {ℓ} {A : Type ℓ} (compare : A → A → Comparison) where
  abbrev pub put : A → List A → List A
  put x [] = x ∷ []
  put x (y ∷ ys) = let rest = put x ys in if is_positive (compare x y) then y ∷ rest else x ∷ y ∷ ys

  abbrev pub sorted : List A → List A
  sorted [] = []
  sorted (x ∷ xs) = put x (sorted xs)

  put-perm : (x : A) (ys : List A) → Perm (put x ys) (x ∷ ys)
  put-perm x [] = Perm.refl (x ∷ [])
  put-perm x (y ∷ ys) = elim (Bool-cases (is_positive (compare x y))) [
    | inl t ↦ rw t (Perm.trans (Perm.cons y (put-perm x ys)) (Perm.swap x y ys))
    | inr t ↦ rw t (Perm.refl (x ∷ y ∷ ys))
  ]

  pub sorted-perm : (xs : List A) → Perm (sorted xs) xs
  sorted-perm [] = Perm.refl []
  sorted-perm (x ∷ xs) = Perm.trans (put-perm x (sorted xs)) (Perm.cons x (sorted-perm xs))

  module _ (order : IsOrder compare) where
    put_behind-IsChain :
        (z x : A) (ys : List A)
        → compare z x ≢ positive
        → IsChain (λ a b. compare a b ≢ positive) (z ∷ ys)
        → IsChain (λ a b. compare a b ≢ positive) (z ∷ put x ys)
    put_behind-IsChain z x [] h c = IsChain.cons-cons h (IsChain.singleton x)
    put_behind-IsChain z x (y ∷ ys) h (IsChain.cons-cons k c) =
        elim (Bool-cases (is_positive (compare x y))) [
          | inl t ↦ rw t (
              IsChain.cons-cons k (put_behind-IsChain y x ys (order.flips x y (positive-of _ t)) c))
          | inr t ↦ rw t (IsChain.cons-cons h (IsChain.cons-cons (not_positive _ t) c))
        ]

    put-IsChain :
        (x : A) (ys : List A)
        → IsChain (λ a b. compare a b ≢ positive) ys
        → IsChain (λ a b. compare a b ≢ positive) (put x ys)
    put-IsChain x [] c = IsChain.singleton x
    put-IsChain x (y ∷ ys) c = elim (Bool-cases (is_positive (compare x y))) [
      | inl t ↦ rw t (put_behind-IsChain y x ys (order.flips x y (positive-of _ t)) c)
      | inr t ↦ rw t (IsChain.cons-cons (not_positive _ t) c)
    ]

    pub sorted-IsChain : (xs : List A) → IsChain (λ a b. compare a b ≢ positive) (sorted xs)
    sorted-IsChain [] = IsChain.nil
    sorted-IsChain (x ∷ xs) = put-IsChain x (sorted xs) (sorted-IsChain xs)

abbrev pub insertion_sort {ℓ} : {A : Type ℓ} → GListSort A
insertion_sort = record {
  sort = λ compare xs. sorted compare xs;
  permutes = λ compare xs. sorted-perm compare xs;
  ordered = λ {compare} order xs. sorted-IsChain compare order xs;
}
