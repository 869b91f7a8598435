-- ===== src/Moq/RequestId/Order.antt =====
-- The requests of one endpoint and their arrival at the other, over an ordered control stream.
use imquic.Base.{
  ℕ, ◌+◌, ◌%◌, ◌^◌, ◌≤◌, ◌<◌, ◌≡◌, ◌≢◌, arith, Bool, not, none, some, List, [], ◌∷◌, ◌++◌,
  if◌then◌else◌, u64, All, append-nil,
}
use imquic.Wire.Varint.{max_varint}
use imquic.Wire.Moqint.{version_16, write_moqint}
use imquic.Wire.Moqint.RoundTrip.{read_moqint-write_moqint, max_moqint, moqint_size, moqint_size-le}
use imquic.Moq.RequestId.{
  MoqContext, new_connection, send_request, receive_request, get_next_request_id,
  set_max_request_id, parse_max_request_id, accepted, apply_setup, setup_max_option,
}

-- The sender and the receiver of requests, the identifiers on their way, and the limits on their way
-- back as MAX_REQUEST_ID carries them; the oldest first.
pub record Link : Type 0 where
  pub sender : MoqContext
  pub receiver : MoqContext
  pub flight : List ℕ
  pub limits : List ℕ

-- The receiver raises its limit, to what a message can carry; the sender parses the oldest limit; the
-- application sends a request with the identifier that `get_next_request_id` gives it; the receiver takes
-- the oldest identifier.
pub data Step : Link → Link → Type 0 where
  announce :
      (l : Link) (max : ℕ) (r : MoqContext) (n : ℕ)
      → max ≤ 2 ^ 62
      → set_max_request_id l.receiver max ≡ some (r, n)
      → Step l (record l { receiver = r; limits = l.limits ++ (n ∷ []) })
  learn :
      (l : Link) (n : ℕ) (later : List ℕ) (s : MoqContext) (used : ℕ)
      → l.limits ≡ n ∷ later
      → parse_max_request_id l.sender (write_moqint l.receiver.version n 20) ≡ accepted s used
      → Step l (record l { sender = s; limits = later })
  send :
      (l : Link) (s : MoqContext)
      → send_request l.sender (get_next_request_id l.sender) ≡ some s
      → Step l (record l { sender = s; flight = l.flight ++ (get_next_request_id l.sender ∷ []) })
  arrive :
      (l : Link) (r : MoqContext) (id : ℕ) (later : List ℕ)
      → l.flight ≡ id ∷ later
      → receive_request l.receiver id ≡ some r
      → Step l (record l { receiver = r; flight = later })

pub data Reach (s : Link) : Link → Type 0 where
  here : Reach s s
  next : {t u : Link} → Reach s t → Step t u → Reach s u

-- The identifiers on their way count up by two from `from` to `to`, below `limit`.
abbrev pub CountsUp : (from to limit : ℕ) → List ℕ → Type 0
CountsUp from to limit [] = from ≡ to
CountsUp from to limit (id ∷ ids) = (id ≡ from) × (id < limit) × CountsUp (from + 2) to limit ids

abbrev pub Below : ℕ → List ℕ → Type 0
Below limit = All (λ n. n < limit)

pub record InStep (l : Link) : Type 0 where
  pub old : l.sender.version ≤ version_16
  pub same_version : l.receiver.version ≡ l.sender.version
  pub opposite : l.receiver.is_server ≡ not l.sender.is_server
  pub parity : l.sender.next_request_id % 2 ≡ (if l.sender.is_server then 1 else 0)
  pub parity_expected : l.receiver.expected_request_id % 2 ≡ (if l.sender.is_server then 1 else 0)
  pub limited : l.sender.max_request_id ≤ l.receiver.local_max_request_id
  pub small : l.receiver.local_max_request_id ≤ 2 ^ 62
  pub announced : Below l.receiver.local_max_request_id l.limits
  pub counts :
      CountsUp l.receiver.expected_request_id l.sender.next_request_id
        l.receiver.local_max_request_id l.flight

CountsUp-append :
    (from to limit : ℕ) (ids : List ℕ)
    → CountsUp from to limit ids
    → to < limit
    → CountsUp from (to + 2) limit (ids ++ (to ∷ []))
CountsUp-append from to limit [] c h = omega arith
CountsUp-append from to limit (id ∷ ids) (e, b, c) h =
    (e, b, CountsUp-append (from + 2) to limit ids c h)

CountsUp-raise :
    (from to limit limit' : ℕ) (ids : List ℕ)
    → CountsUp from to limit ids
    → limit ≤ limit'
    → CountsUp from to limit' ids
CountsUp-raise from to limit limit' [] c h = c
CountsUp-raise from to limit limit' (id ∷ ids) (e, b, c) h =
    (e, omega arith, CountsUp-raise (from + 2) to limit limit' ids c h)

Below-append :
    (limit limit' n : ℕ) (ns : List ℕ)
    → Below limit ns
    → limit ≤ limit'
    → n < limit'
    → Below limit' (ns ++ (n ∷ []))
Below-append limit limit' n [] b h hn = omega arith
Below-append limit limit' n (m ∷ ns) (bm, b) h hn =
    (omega arith, Below-append limit limit' n ns b h hn)

-- What a step's operation tells of its result.
set_max_request_id_inv :
    (moq : MoqContext) (max : ℕ) (r : MoqContext) (n : ℕ)
    → set_max_request_id moq max ≡ some (r, n)
    → (r ≡ record moq { local_max_request_id = max })
      × (moq.local_max_request_id < max)
      × (n + 1 ≡ max)
unfolding set_max_request_id
set_max_request_id_inv moq max r n e = ground arith

send_request_inv :
    (moq : MoqContext) (id : ℕ) (s : MoqContext)
    → moq.version ≤ version_16
    → send_request moq id ≡ some s
    → (s ≡ record moq { next_request_id = (id + 2) % u64 }) × (id < moq.max_request_id)
unfolding send_request
send_request_inv moq id s old e = ground arith

receive_request_inv :
    (moq : MoqContext) (id : ℕ) (r : MoqContext)
    → receive_request moq id ≡ some r
    → r ≡ record moq { expected_request_id = (id + 2) % u64 }
unfolding receive_request
receive_request_inv moq id r e = ground arith

parse_max_request_id_inv :
    (moq : MoqContext) (n : ℕ) (s : MoqContext) (used : ℕ)
    → moq.version ≤ version_16
    → n ≤ max_varint
    → parse_max_request_id moq (write_moqint moq.version n 20) ≡ accepted s used
    → s ≡ record moq { max_request_id = n + 1 }
unfolding parse_max_request_id
parse_max_request_id_inv moq n s used old small e =
    let hm : n ≤ max_moqint moq.version = ground arith in
    let hs : moqint_size moq.version n ≤ 20 = omega (arith, moqint_size-le moq.version n) in
    let r = rw append-nil at (read_moqint-write_moqint moq.version n 20 [] hm hs) in
    ground (arith, r)

-- The oldest entry apart from the others.
CountsUp-tail :
    (from to limit : ℕ) {id : ℕ} {ids later : List ℕ}
    → ids ≡ id ∷ later
    → CountsUp from to limit ids
    → (id ≡ from) × (id < limit) × CountsUp (from + 2) to limit later
CountsUp-tail from to limit e c = rw e at c

Below-tail :
    (limit : ℕ) {n : ℕ} {ns later : List ℕ}
    → ns ≡ n ∷ later
    → Below limit ns
    → (n < limit) × Below limit later
Below-tail limit e b = rw e at b

Step-InStep : {t u : Link} → Step t u → InStep t → InStep u
Step-InStep (announce l max r n fits e) i =
    let (er, up, en) = set_max_request_id_inv l.receiver max r n e in
    rw er (record {
      old = i.old;
      same_version = i.same_version;
      opposite = i.opposite;
      parity = i.parity;
      parity_expected = i.parity_expected;
      limited = omega arith;
      small = fits;
      announced = Below-append _ max n l.limits i.announced (omega arith) (omega arith);
      counts = CountsUp-raise _ _ _ max l.flight i.counts (omega arith);
    })
Step-InStep (learn l n later s used e p) i =
    let (hn, rest) = Below-tail _ e i.announced in
    let es =
      parse_max_request_id_inv l.sender n s used i.old (omega (arith, i.small))
        (rw i.same_version at p) in
    rw es (record {
      old = i.old;
      same_version = i.same_version;
      opposite = i.opposite;
      parity = i.parity;
      parity_expected = i.parity_expected;
      limited = omega arith;
      small = i.small;
      announced = rest;
      counts = i.counts;
    })
Step-InStep (send l s e) i =
    let (es, below) = send_request_inv l.sender (get_next_request_id l.sender) s i.old e in
    let no_wrap : (l.sender.next_request_id + 2) % u64 ≡ l.sender.next_request_id + 2 =
      omega (arith, i.limited, i.small) in
    rw (es, no_wrap)
      (record {
        old = i.old;
        same_version = i.same_version;
        opposite = i.opposite;
        parity = omega (arith, i.parity);
        parity_expected = i.parity_expected;
        limited = i.limited;
        small = i.small;
        announced = i.announced;
        counts = CountsUp-append _ _ _ l.flight i.counts (omega (arith, i.limited));
      })
Step-InStep (arrive l r id later e p) i =
    let er = receive_request_inv l.receiver id r p in
    let (hid, below, rest) = CountsUp-tail _ _ _ e i.counts in
    let no_wrap : (id + 2) % u64 ≡ l.receiver.expected_request_id + 2 = omega (arith, i.small) in
    rw (er, no_wrap)
      (record {
        old = i.old;
        same_version = i.same_version;
        opposite = i.opposite;
        parity = i.parity;
        parity_expected = omega (arith, i.parity_expected);
        limited = i.limited;
        small = i.small;
        announced = i.announced;
        counts = rest;
      })

Reach-InStep : {t u : Link} → InStep t → Reach t u → InStep u
Reach-InStep i here = i
Reach-InStep i (next r s) = Step-InStep s (Reach-InStep i r)

-- The two endpoints after the setup, in a version that has limits: `local_max` is what the receiver's
-- application has set, and the option of the setup message carries it.
abbrev pub start : (version local_max : ℕ) (sender_is_server : Bool) → Link
start version local_max sender_is_server =
    let receiver = record (new_connection (not sender_is_server) version) {
      local_max_request_id = local_max;
    } in
    record {
      sender = apply_setup (new_connection sender_is_server version) (setup_max_option receiver);
      receiver = receiver;
      flight = [];
      limits = [];
    }

start-InStep :
    (version local_max : ℕ) (sender_is_server : Bool)
    → version ≤ version_16
    → 0 < local_max
    → local_max ≤ 2 ^ 62
    → InStep (start version local_max sender_is_server)
unfolding new_connection apply_setup setup_max_option
start-InStep version local_max sender_is_server old pos fits = ground arith

accepts :
    (l : Link) (id : ℕ) (later : List ℕ)
    → InStep l
    → l.flight ≡ id ∷ later
    → receive_request l.receiver id ≢ none
unfolding receive_request
accepts l id later i e =
    let (hid, below, rest) = CountsUp-tail _ _ _ e i.counts in
    ground (arith, i.parity_expected, i.opposite)

-- In version 16, where the receiver has set a limit of 1 to 2 ^ 62 before the setup and the sender takes
-- each identifier from `get_next_request_id`: whatever limits are announced later, up to 2 ^ 62, and
-- however sending, arrivals and limits interleave, the receiver accepts the oldest identifier on its way.
pub reachable_request_accepted :
    (version local_max : ℕ) (sender_is_server : Bool) (l : Link) (id : ℕ) (later : List ℕ)
    → version ≤ version_16
    → 0 < local_max
    → local_max ≤ 2 ^ 62
    → Reach (start version local_max sender_is_server) l
    → l.flight ≡ id ∷ later
    → receive_request l.receiver id ≢ none
reachable_request_accepted version local_max srv l id later old pos fits r e =
    accepts l id later (Reach-InStep (start-InStep version local_max srv old pos fits) r) e
