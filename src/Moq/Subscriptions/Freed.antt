-- ===== src/Moq/Subscriptions/Freed.antt =====
-- What an object's track alias leads to, after the steps of a subscription.
use imquic.Base.{
  ℕ, ◌≡◌, ◌≢◌, sym, ap, ◌∙◌, arith, false, none, some, List, lookup, insert, remove, lookup-insert,
  lookup-remove,
}
use imquic.Moq.Subscriptions.{
  Subscription, Subscriptions, subscription, insert_by_id, remove_by_id, subscription_create,
  publish, null, freed, found, at_address, find_at, find, accept_found, accept_subscribe,
  unsubscribe_found, receive_unsubscribe, end_fetch, find_track,
}
use imquic.Moq.Subscriptions.Steps.{found_by}

inserted :
    {A : Type 0} (key : ℕ) (a : A) (table : List (ℕ × A)) → lookup key (insert key a table) ≡ some a
inserted key a table = ground (arith, lookup-insert key key a table)

removed : {A : Type 0} (key : ℕ) (table : List (ℕ × A)) → lookup key (remove key table) ≡ none
removed key table = ground (arith, lookup-remove key key table)

find_found :
    (key : ℕ) (table : List (ℕ × ℕ)) (heap : List (ℕ × Subscription)) {address : ℕ}
    {sub : Subscription}
    → lookup key table ≡ some address
    → lookup address heap ≡ some sub
    → find key table heap ≡ found address sub
unfolding find
find_found key table heap {address} e there =
    ap (λ o. find_at o heap) e ∙ ap (at_address address) there

by_id_found :
    (key : ℕ) (table : List (ℕ × ℕ)) (heap : List (ℕ × Subscription)) {address : ℕ}
    {sub : Subscription}
    → find key table heap ≡ found address sub
    → (lookup key table ≡ some address) × (lookup address heap ≡ some sub)
unfolding find
by_id_found key table heap e = found_by (lookup key table) heap e

find_null :
    (key : ℕ) (table : List (ℕ × ℕ)) (heap : List (ℕ × Subscription))
    → lookup key table ≡ none
    → find key table heap ≡ null
unfolding find
find_null key table heap e = ap (λ o. find_at o heap) e

find_freed :
    (key : ℕ) (table : List (ℕ × ℕ)) (heap : List (ℕ × Subscription)) {address : ℕ}
    → lookup key table ≡ some address
    → lookup address heap ≡ none
    → find key table heap ≡ freed
unfolding find
find_freed key table heap {address} e gone =
    ap (λ o. find_at o heap) e ∙ ap (at_address address) gone

unsubscribed_null :
    (s : Subscriptions) (request_id address : ℕ) (sub : Subscription)
    → find_track (unsubscribe_found s request_id (found address sub)) sub.track_alias ≡ null
unfolding remove_by_id
unsubscribed_null s request_id address sub = find_null _ _ _ (removed sub.track_alias s.by_alias)

-- A subscription that a request's identifier leads to is found by the alias that it is accepted with, and not any more
-- when the request is given up.
pub accepted_found :
    (s : Subscriptions) (request_id track_alias address : ℕ) (sub : Subscription)
    → find request_id s.by_id s.heap ≡ found address sub
    → (find_track (accept_subscribe s request_id track_alias) track_alias
        ≡ found address (record sub { track_alias = track_alias }))
      × (find_track
            (receive_unsubscribe (accept_subscribe s request_id track_alias) request_id)
            track_alias
          ≡ null)
unfolding accept_subscribe receive_unsubscribe
accepted_found s request_id track_alias address sub e =
    let changed : Subscription = record sub { track_alias = track_alias } in
    let t : Subscriptions = accept_found s track_alias (found address sub) in
    let (entry, there) = by_id_found request_id s.by_id s.heap e in
    let again : find request_id t.by_id t.heap ≡ found address changed =
      find_found request_id t.by_id t.heap entry (inserted address changed s.heap) in
    (
      rw e (
          find_found _ _ _ (inserted track_alias address s.by_alias)
            (inserted address changed s.heap)),
      rw (e, again) (unsubscribed_null t request_id address changed),
    )

kept :
    (s : Subscriptions) (request_id other address there : ℕ) (sub : Subscription)
    → request_id ≢ other
    → lookup other s.by_id ≡ some there
    → lookup other (unsubscribe_found s request_id (found address sub)).by_id ≡ some there
unfolding remove_by_id
kept s request_id other address there sub different e =
    ground (arith, different, e, lookup-remove request_id other s.by_id)

-- An UNSUBSCRIBE of a request whose subscription has the alias 0, which it has as long as it has not been accepted,
-- takes the entry of the alias 0 away: where that entry leads to the subscription of another request, the alias 0 leads
-- to none after it, and the identifier of the other request still leads to its address.
pub pending_unsubscribe :
    (s : Subscriptions) (request_id other address there : ℕ) (sub served : Subscription)
    → find request_id s.by_id s.heap ≡ found address sub
    → sub.track_alias ≡ 0
    → request_id ≢ other
    → lookup other s.by_id ≡ some there
    → find_track s 0 ≡ found there served
    → (find_track (receive_unsubscribe s request_id) 0 ≡ null)
      × (lookup other (receive_unsubscribe s request_id).by_id ≡ some there)
unfolding receive_unsubscribe
pending_unsubscribe s request_id other address there sub served e alias different by_id
      served_before =
    (
      rw e (
          ap (λ a. find_track (unsubscribe_found s request_id (found address sub)) a) (sym alias)
          ∙ unsubscribed_null s request_id address sub),
      rw e (kept s request_id other address there sub different by_id),
    )

-- A track that has been published, with an identifier that was not in use, and whose last object is then sent in the
-- way of a fetch, has been freed, but its alias still leads to the address.
pub published_ended_freed :
    (s : Subscriptions) (request_id track_alias : ℕ)
    → lookup request_id s.by_id ≡ none
    → find_track (end_fetch (publish s request_id track_alias) request_id) track_alias ≡ freed
unfolding publish remove_by_id insert_by_id subscription_create
published_ended_freed s request_id track_alias new =
    let sub : Subscription = subscription request_id track_alias false in
    find_freed _ _ _ (inserted track_alias s.fresh s.by_alias)
      (rw (inserted request_id s.fresh s.by_id, new) (removed s.fresh (insert s.fresh sub s.heap)))
