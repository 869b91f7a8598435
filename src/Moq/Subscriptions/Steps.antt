-- ===== src/Moq/Subscriptions/Steps.antt =====
-- The tables as the session goes on.
use imquic.Base.{
  ℕ, ◌≡◌, refl, sym, ap, ◌∙◌, arith, inl, inr, Bool, true, false, Bool-cases, ◌==◌, if◌then◌else◌,
  Option, none, some, List, [], lookup, remove, lookup-insert,
}
use imquic.Moq.Subscriptions.{
  Subscription, Subscriptions, subscription, receive_subscription, publish, Found, null, freed,
  found, at_address, find_at, find, accept_found, accept_subscribe, unsubscribe_found,
  receive_unsubscribe, cancel_found, receive_fetch_cancel, end_fetch,
}
use imquic.Moq.Subscriptions.Owned.{IsOwner, id_or, remove_by_id-IsOwner, created-IsOwner}

found_at :
    (a : ℕ) (o : Option Subscription) {address : ℕ} {sub : Subscription}
    → at_address a o ≡ found address sub
    → (a ≡ address) × (o ≡ some sub)
found_at a none e = cc e
found_at a (some x) e = (cc e, cc e)

pub found_by :
    (entry : Option ℕ) (heap : List (ℕ × Subscription)) {address : ℕ} {sub : Subscription}
    → find_at entry heap ≡ found address sub
    → (entry ≡ some address) × (lookup address heap ≡ some sub)
found_by none heap e = cc e
found_by (some a) heap e =
    let (same, there) = found_at a (lookup a heap) e in
    (ap some same, ap (λ t. lookup t heap) (sym same) ∙ there)

-- The alias table does not matter for what is owned.
aliases_free :
    (s : Subscriptions) (aliases : List (ℕ × ℕ))
    → IsOwner s
    → IsOwner (record s { by_alias = aliases })
aliases_free s aliases h id address e =
    let o = h id address e in record { given = o.given; sub = o.sub; there = o.there; own = o.own }

accept_found-IsOwner :
    (s : Subscriptions) (request_id track_alias : ℕ) (f : Found)
    → find request_id s.by_id s.heap ≡ f
    → IsOwner s
    → IsOwner (accept_found s track_alias f)
unfolding find
accept_found-IsOwner s request_id track_alias null e h id a k = h id a k
accept_found-IsOwner s request_id track_alias freed e h id a k = h id a k
accept_found-IsOwner s request_id track_alias (found address sub) e h id a k =
    let (_, there) = found_by (lookup request_id s.by_id) s.heap e in
    let o = h id a k in
    let changed : Subscription = record sub { track_alias = track_alias } in
    let read = lookup-insert address a changed s.heap in
    elim (Bool-cases (address == a)) [
      | inl t ↦ record {
        given = o.given;
        sub = changed;
        there = read ∙ rw t refl;
        own =
            (let same : address ≡ a = ground (arith, t) in
              ap (id_or 0) (sym there ∙ ap (λ x. lookup x s.heap) same ∙ o.there) ∙ o.own);
      }
      | inr t ↦ record { given = o.given; sub = o.sub; there = read ∙ rw t o.there; own = o.own }
    ]

unsubscribe_found-IsOwner :
    (s : Subscriptions) (request_id : ℕ) (f : Found)
    → IsOwner s
    → IsOwner (unsubscribe_found s request_id f)
unsubscribe_found-IsOwner s request_id null h = h
unsubscribe_found-IsOwner s request_id freed h = h
unsubscribe_found-IsOwner s request_id (found address sub) h =
    remove_by_id-IsOwner _ request_id (aliases_free s (remove sub.track_alias s.by_alias) h)

one_of : (b : Bool) {s t : Subscriptions} → IsOwner s → IsOwner t → IsOwner (if b then s else t)
one_of true h k id a e = h id a e
one_of false h k id a e = k id a e

cancel_found-IsOwner :
    (s : Subscriptions) (request_id : ℕ) (f : Found)
    → IsOwner s
    → IsOwner (cancel_found s request_id f)
cancel_found-IsOwner s request_id null h = h
cancel_found-IsOwner s request_id freed h = h
cancel_found-IsOwner s request_id (found address sub) h =
    one_of sub.fetch (remove_by_id-IsOwner s request_id h) h

-- What happens to the tables.
pub data Step : Subscriptions → Subscriptions → Type 0 where
  received :
      (s : Subscriptions) (request_id : ℕ) (fetch : Bool)
      → Step s (receive_subscription s request_id fetch)
  published :
      (s : Subscriptions) (request_id track_alias : ℕ) → Step s (publish s request_id track_alias)
  accepted :
      (s : Subscriptions) (request_id track_alias : ℕ)
      → Step s (accept_subscribe s request_id track_alias)
  unsubscribed : (s : Subscriptions) (request_id : ℕ) → Step s (receive_unsubscribe s request_id)
  cancelled : (s : Subscriptions) (request_id : ℕ) → Step s (receive_fetch_cancel s request_id)
  ended : (s : Subscriptions) (request_id : ℕ) → Step s (end_fetch s request_id)

abbrev pub empty : Subscriptions
empty = record { heap = []; fresh = 0; by_id = []; by_alias = [] }

pub data Reachable : Subscriptions → Type 0 where
  start : Reachable empty
  next : {s t : Subscriptions} → Reachable s → Step s t → Reachable t

step-IsOwner : {s t : Subscriptions} → Step s t → IsOwner s → IsOwner t
unfolding receive_subscription publish accept_subscribe receive_unsubscribe receive_fetch_cancel
step-IsOwner (received s i fetch) h = created-IsOwner s (subscription i 0 fetch) h
step-IsOwner (published s i a) h = aliases_free _ _ (created-IsOwner s (subscription i a false) h)
step-IsOwner (accepted s i a) h = accept_found-IsOwner s i a (find i s.by_id s.heap) refl h
step-IsOwner (unsubscribed s i) h = unsubscribe_found-IsOwner s i (find i s.by_id s.heap) h
step-IsOwner (cancelled s i) h = cancel_found-IsOwner s i (find i s.by_id s.heap) h
step-IsOwner (ended s i) h = remove_by_id-IsOwner s i h

-- In every state of the tables that a session comes to, whatever is received, published, accepted, given up and ended
-- in whatever order, an identifier that is in the table by identifiers leads to an address that has not been freed,
-- with a subscription of that request there.
pub reachable-IsOwner : {s : Subscriptions} → Reachable s → IsOwner s
unfolding lookup
reachable-IsOwner start id address e = cc e
reachable-IsOwner (next r step) id address e = step-IsOwner step (reachable-IsOwner r) id address e
