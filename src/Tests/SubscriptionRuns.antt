-- ===== src/Tests/SubscriptionRuns.antt =====
-- The tables of subscriptions at concrete inputs.
use imquic.Base.{◌≡◌, refl, arith, false, some, lookup, insert}
use imquic.Moq.Subscriptions.{
  Subscriptions, subscription, insert_by_id, subscription_create, receive_subscription, null, found,
  find, accept_subscribe, receive_unsubscribe, find_track,
}
use imquic.Moq.Subscriptions.Owned.{Owned}
use imquic.Moq.Subscriptions.Steps.{empty, start, next, received, accepted, reachable-IsOwner}
use imquic.Moq.Subscriptions.Freed.{accepted_found, pending_unsubscribe}

-- Request 1 is pending.
abbrev pending : Subscriptions
pending = receive_subscription empty 1 false

-- Request 1 has the alias 0, and request 3 is pending.
abbrev served : Subscriptions
served = receive_subscription (accept_subscribe pending 1 0) 3 false

reachable-IsOwner_example : Owned served 3 1
unfolding receive_subscription accept_subscribe insert_by_id subscription_create lookup insert find
reachable-IsOwner_example =
    reachable-IsOwner
      (next (next (next start (received empty 1 false)) (accepted pending 1 0))
        (received (accept_subscribe pending 1 0) 3 false))
      3 1 refl

accepted_found_example :
    (find_track (accept_subscribe pending 1 7) 7 ≡ found 0 (subscription 1 7 false))
    × (find_track (receive_unsubscribe (accept_subscribe pending 1 7) 1) 7 ≡ null)
unfolding receive_subscription insert_by_id subscription_create lookup insert find
accepted_found_example = accepted_found pending 1 7 0 (subscription 1 0 false) refl

pending_unsubscribe_example :
    (find_track (receive_unsubscribe served 3) 0 ≡ null)
    × (lookup 1 (receive_unsubscribe served 3).by_id ≡ some 0)
unfolding receive_subscription accept_subscribe insert_by_id subscription_create lookup insert find
pending_unsubscribe_example =
    pending_unsubscribe served 3 1 1 0 (subscription 3 0 false) (subscription 1 0 false) refl refl
      (λ e. absurd (omega (arith, e))) refl refl
