-- ===== src/Moq/Subscriptions.antt =====
-- The tables of the subscriptions that an endpoint serves (moq.c): `subscriptions_by_id`, which destroys what is taken
-- out of it, and `subscriptions`, keyed by track aliases, which does not, and what changes them:
-- `imquic_moq_parse_subscribe`, `imquic_moq_parse_fetch`, `imquic_moq_publish`, `imquic_moq_accept_subscribe`,
-- `imquic_moq_parse_unsubscribe`, `imquic_moq_parse_fetch_cancel` and the end of `imquic_moq_send_object`.
pub mod Owned
pub mod Steps
pub mod Freed
use imquic.Base.{
  ℕ, suc, Bool, true, false, Option, none, some, List, lookup, insert, remove, if◌then◌else◌,
}

-- `imquic_moq_subscription`
pub record Subscription : Type 0 where
  pub request_id : ℕ
  pub track_alias : ℕ
  pub fetch : Bool

-- The tables hold addresses; `heap` has what is at those that have not been freed, `fresh` is the next one.
pub record Subscriptions : Type 0 where
  pub heap : List (ℕ × Subscription)
  pub fresh : ℕ
  pub by_id : List (ℕ × ℕ)
  pub by_alias : List (ℕ × ℕ)

-- `imquic_moq_subscription_destroy`
abbrev pub destroy : Option ℕ → List (ℕ × Subscription) → List (ℕ × Subscription)
destroy none heap = heap
destroy (some address) heap = remove address heap

-- `g_hash_table_insert` destroys what was there.
unfoldable pub insert_by_id : Subscriptions → (request_id address : ℕ) → Subscriptions
insert_by_id s request_id address = record s {
  heap = destroy (lookup request_id s.by_id) s.heap;
  by_id = insert request_id address s.by_id;
}

-- `g_hash_table_remove` destroys what was there.
unfoldable pub remove_by_id : Subscriptions → (request_id : ℕ) → Subscriptions
remove_by_id s request_id = record s {
  heap = destroy (lookup request_id s.by_id) s.heap;
  by_id = remove request_id s.by_id;
}

-- `imquic_moq_subscription_create`, at the address `s.fresh`.
unfoldable pub subscription_create : Subscriptions → Subscription → Subscriptions
subscription_create s sub = record s { heap = insert s.fresh sub s.heap; fresh = suc s.fresh }

abbrev pub subscription : (request_id track_alias : ℕ) (fetch : Bool) → Subscription
subscription request_id track_alias fetch = record {
  request_id = request_id;
  track_alias = track_alias;
  fetch = fetch;
}

-- A SUBSCRIBE, or a FETCH, has arrived.
unfoldable pub receive_subscription :
    Subscriptions → (request_id : ℕ) (fetch : Bool) → Subscriptions
receive_subscription s request_id fetch =
    insert_by_id (subscription_create s (subscription request_id 0 fetch)) request_id s.fresh

unfoldable pub publish : Subscriptions → (request_id track_alias : ℕ) → Subscriptions
publish s request_id track_alias =
    let t =
      insert_by_id (subscription_create s (subscription request_id track_alias false)) request_id
        s.fresh in
    record t { by_alias = insert track_alias s.fresh t.by_alias }

-- What a table's address points to.
pub data Found : Type 0 where
  null : Found
  freed : Found
  found : (address : ℕ) → Subscription → Found

abbrev pub at_address : ℕ → Option Subscription → Found
at_address address none = freed
at_address address (some sub) = found address sub

abbrev pub find_at : Option ℕ → List (ℕ × Subscription) → Found
find_at none heap = null
find_at (some address) heap = at_address address (lookup address heap)

unfoldable pub find : (key : ℕ) (table : List (ℕ × ℕ)) → List (ℕ × Subscription) → Found
find key table heap = find_at (lookup key table) heap

-- The states that follow what is found by a request's identifier. What is behind a freed address is undefined; such
-- an address is not in `by_id`, so the state is left as it is.
abbrev pub accept_found : Subscriptions → (track_alias : ℕ) → Found → Subscriptions
accept_found s track_alias null = s
accept_found s track_alias freed = s
accept_found s track_alias (found address sub) = record s {
  heap = insert address (record sub { track_alias = track_alias }) s.heap;
  by_alias = insert track_alias address s.by_alias;
}

unfoldable pub accept_subscribe : Subscriptions → (request_id track_alias : ℕ) → Subscriptions
accept_subscribe s request_id track_alias =
    accept_found s track_alias (find request_id s.by_id s.heap)

abbrev pub unsubscribe_found : Subscriptions → (request_id : ℕ) → Found → Subscriptions
unsubscribe_found s request_id null = s
unsubscribe_found s request_id freed = s
unsubscribe_found s request_id (found address sub) =
    remove_by_id (record s { by_alias = remove sub.track_alias s.by_alias }) request_id

unfoldable pub receive_unsubscribe : Subscriptions → (request_id : ℕ) → Subscriptions
receive_unsubscribe s request_id = unsubscribe_found s request_id (find request_id s.by_id s.heap)

abbrev pub cancel_found : Subscriptions → (request_id : ℕ) → Found → Subscriptions
cancel_found s request_id null = s
cancel_found s request_id freed = s
cancel_found s request_id (found address sub) = if sub.fetch then remove_by_id s request_id else s

unfoldable pub receive_fetch_cancel : Subscriptions → (request_id : ℕ) → Subscriptions
receive_fetch_cancel s request_id = cancel_found s request_id (find request_id s.by_id s.heap)

-- The last object, or an END_OF_TRACK, has been sent in the way of a fetch, which looks up the request by its
-- identifier and does not test whether it is one.
abbrev pub end_fetch : Subscriptions → (request_id : ℕ) → Subscriptions
end_fetch s request_id = remove_by_id s request_id

-- The subscription that `imquic_moq_send_object` sends an object of a subgroup for.
abbrev pub find_track : Subscriptions → (track_alias : ℕ) → Found
find_track s track_alias = find track_alias s.by_alias s.heap
