-- ===== src/Moq/Subscriptions/Owned.antt =====
-- What the table by identifiers holds has not been freed.
use mathlib.Core.Path.{subst}
use imquic.Base.{
  ℕ, ◌<◌, ◌≡◌, refl, sym, ap, ◌∙◌, arith, ◌≢◌, inl, inr, Bool-cases, List, ◌==◌, Option, none, some,
  lookup, insert, lookup-insert, lookup-remove,
}
use imquic.Moq.Subscriptions.{
  Subscription, Subscriptions, destroy, insert_by_id, remove_by_id, subscription_create,
}

-- What a request's identifier leads to: an address that has been given out, with a subscription of that request there.
pub record Owned (s : Subscriptions) (request_id address : ℕ) : Type 0 where
  pub given : address < s.fresh
  pub sub : Subscription
  pub there : lookup address s.heap ≡ some sub
  pub own : sub.request_id ≡ request_id

abbrev pub IsOwner : Subscriptions → Type 0
IsOwner s =
    (request_id address : ℕ) → lookup request_id s.by_id ≡ some address → Owned s request_id address

abbrev pub id_or : ℕ → Option Subscription → ℕ
id_or n none = n
id_or n (some sub) = sub.request_id

-- Two requests do not share an address.
address_once : (s : Subscriptions) (a b address : ℕ) → Owned s a address → Owned s b address → a ≡ b
address_once s a b address o p =
    let ta = o.there in
    let tb = p.there in
    let oa = o.own in
    let ob = p.own in
    let same : some o.sub ≡ some p.sub = sym ta ∙ tb in sym oa ∙ ap (λ m. id_or a m) same ∙ ob

destroy_other :
    (other : Option ℕ) (address : ℕ) (heap : List (ℕ × Subscription))
    → ((a : ℕ) → other ≡ some a → a ≢ address)
    → lookup address (destroy other heap) ≡ lookup address heap
destroy_other none address heap h = refl
destroy_other (some a) address heap h = ground (arith, lookup-remove a address heap, h a refl)

-- What is not this request's stays where it is when this one's is destroyed.
others_stay :
    (s : Subscriptions) (request_id id address : ℕ)
    → IsOwner s
    → request_id ≢ id
    → Owned s id address
    → (heap : List (ℕ × Subscription))
    → lookup address (destroy (lookup request_id s.by_id) heap) ≡ lookup address heap
others_stay s request_id id address h other o heap =
    destroy_other (lookup request_id s.by_id) address heap (λ a e same. other (
      address_once s request_id id address
        (subst (λ t. Owned s request_id t) same (h request_id a e)) o))

pub remove_by_id-IsOwner :
    (s : Subscriptions) (request_id : ℕ) → IsOwner s → IsOwner (remove_by_id s request_id)
unfolding remove_by_id
remove_by_id-IsOwner s request_id h id address e =
    let removed = lookup-remove request_id id s.by_id in
    let other : request_id ≢ id = ground (arith, e, removed) in
    let before : lookup id s.by_id ≡ some address = ground (arith, e, removed) in
    let o = h id address before in
    record {
      given = o.given;
      sub = o.sub;
      there = others_stay s request_id id address h other o s.heap ∙ o.there;
      own = o.own;
    }

-- A subscription that has just been created is entered.
pub created-IsOwner :
    (s : Subscriptions) (sub : Subscription)
    → IsOwner s
    → IsOwner (insert_by_id (subscription_create s sub) sub.request_id s.fresh)
unfolding insert_by_id subscription_create
created-IsOwner s sub h id address e = elim (Bool-cases (sub.request_id == id)) [
  | inl t ↦
      let at : s.fresh ≡ address =
        ground (arith, t, e, lookup-insert sub.request_id id s.fresh s.by_id) in
      let kept =
        destroy_other (lookup sub.request_id s.by_id) s.fresh (insert s.fresh sub s.heap)
          (λ a k same. (let g = (h sub.request_id a k).given in absurd (omega (arith, g, same)))) in
      subst (λ a. Owned (insert_by_id (subscription_create s sub) sub.request_id s.fresh) id a) at
        (record {
          given = omega arith;
          sub = sub;
          there = kept ∙ ground (arith, lookup-insert s.fresh s.fresh sub s.heap);
          own = ground (arith, t);
        })
  | inr t ↦
      let before : lookup id s.by_id ≡ some address =
        ground (arith, t, e, lookup-insert sub.request_id id s.fresh s.by_id) in
      let o = h id address before in
      let g = o.given in
      let there = o.there in
      record {
        given = omega (arith, g);
        sub = o.sub;
        there =
            others_stay s sub.request_id id address h (ground (arith, t)) o
              (insert s.fresh sub s.heap)
            ∙ ground (arith, g, there, lookup-insert s.fresh address sub s.heap);
        own = o.own;
      }
]
