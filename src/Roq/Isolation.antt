-- ===== src/Roq/Isolation.antt =====
-- What is kept of the streams of an endpoint: data on one stream touches no other, and its end removes it.
use imquic.Base.{
  ℕ, ◌<◌, ◌≡◌, ◌≢◌, refl, ◌∙◌, arith, ◌⊎◌, inl, inr, Bool, true, false, List, [], ◌∷◌, none, some,
  Bytes, length, drop, ◌==◌, if◌then◌else◌, Bool-cases, Option-cases, ==_refl, lookup, insert,
  lookup-insert, lookup-remove,
}
use imquic.Wire.Varint.{read_varint}
use imquic.Roq.{Endpoint, stream_incoming, buffer_data, forget, Delivery}
use imquic.Roq.Streams.{NonEmpty}

-- What two endpoints keep of an incoming stream is the same.
abbrev pub Same : ℕ → Endpoint → Endpoint → Type 0
Same other a b =
    (lookup other a.stream_flows_in ≡ lookup other b.stream_flows_in)
    × (lookup other a.packets ≡ lookup other b.packets)

forget-Same :
    (complete : Bool) (stream_id other : ℕ) (e : Endpoint)
    → other ≢ stream_id
    → Same other (forget complete stream_id e) e
forget-Same true stream_id other e ne = (
  lookup-remove stream_id other e.stream_flows_in ∙ ground arith,
  lookup-remove stream_id other e.packets ∙ ground arith,
)
forget-Same false stream_id other e ne = (refl, refl)

buffer_data-Same :
    (e : Endpoint) (flow_id stream_id other : ℕ) (bytes : Bytes)
    → other ≢ stream_id
    → Same other (buffer_data e flow_id stream_id bytes).0 e
unfolding buffer_data
buffer_data-Same e flow_id stream_id other bytes ne =
    (refl, lookup-insert stream_id other _ e.packets ∙ ground arith)

known-Same :
    (e : Endpoint) (flow_id stream_id other : ℕ) (complete : Bool)
    → other ≢ stream_id
    → Same other
        (if complete
          then e
          else record e { stream_flows_in = insert stream_id flow_id e.stream_flows_in })
        e
known-Same e flow_id stream_id other true ne = (refl, refl)
known-Same e flow_id stream_id other false ne =
    (lookup-insert stream_id other flow_id e.stream_flows_in ∙ ground arith, refl)

Same-trans : (other : ℕ) (a b c : Endpoint) → Same other a b → Same other b c → Same other a c
Same-trans other a b c (p, q) (r, s) = (p ∙ r, q ∙ s)

-- What a stream's first bytes make known.
abbrev learnt : Endpoint → (stream_id flow_id : ℕ) (complete : Bool) → Endpoint
learnt e stream_id flow_id complete =
    if complete
    then e
    else record e { stream_flows_in = insert stream_id flow_id e.stream_flows_in }

abbrev ended : Bool → (stream_id : ℕ) → Endpoint × List Delivery → Endpoint × List Delivery
ended complete stream_id (e, out) = (forget complete stream_id e, out)

-- The ways that data can be dealt with: there is none, or no flow can be read, or it is a known flow's or a
-- new one's.
data Incoming (e : Endpoint) (stream_id : ℕ) (bytes : Bytes) (complete : Bool)
    : Endpoint × List Delivery → Type 0 where
  nothing : length bytes ≡ 0 → Incoming e stream_id bytes complete (e, [])
  unreadable :
      lookup stream_id e.stream_flows_in ≡ none
      → (read_varint bytes).1 ≡ 0
      → Incoming e stream_id bytes complete (e, [])
  of_known :
      (flow_id : ℕ)
      → lookup stream_id e.stream_flows_in ≡ some flow_id
      → Incoming e stream_id bytes complete
          (ended complete stream_id (buffer_data e flow_id stream_id bytes))
  of_new :
      (flow_id n : ℕ)
      → lookup stream_id e.stream_flows_in ≡ none
      → Incoming e stream_id bytes complete (
          ended complete stream_id
            (buffer_data (learnt e stream_id flow_id complete) flow_id stream_id (drop n bytes)))

Incoming-case :
    (e : Endpoint) (stream_id : ℕ) (bytes : Bytes) (complete : Bool)
    → Incoming e stream_id bytes complete (stream_incoming e stream_id bytes complete)
unfolding stream_incoming
Incoming-case e stream_id [] complete = nothing refl
Incoming-case e stream_id (b ∷ bs) complete =
    elim (Option-cases (lookup stream_id e.stream_flows_in)) [
      | inl f ↦
          let (flow_id, n) = read_varint (b ∷ bs) in
          elim (Bool-cases (n == 0)) [
            | inl z ↦
                let q : stream_incoming e stream_id (b ∷ bs) complete ≡ (e, []) =
                  rw (stream_incoming, f, z) refl in
                rw q (unreadable f (ground arith))
            | inr nz ↦
                let q : stream_incoming e stream_id (b ∷ bs) complete
                    ≡ ended complete stream_id (
                        buffer_data (learnt e stream_id flow_id complete) flow_id stream_id
                          (drop n (b ∷ bs))) =
                  rw (stream_incoming, f, nz) refl in
                rw q (of_new flow_id n f)
          ]
      | inr (flow_id, f) ↦
          let q : stream_incoming e stream_id (b ∷ bs) complete
              ≡ ended complete stream_id (buffer_data e flow_id stream_id (b ∷ bs)) =
            rw (stream_incoming, f) refl in
          rw q (of_known flow_id f)
    ]

ended-Same :
    (e a : Endpoint) (flow_id stream_id other : ℕ) (bytes : Bytes) (complete : Bool)
    → other ≢ stream_id
    → Same other a e
    → Same other (ended complete stream_id (buffer_data a flow_id stream_id bytes)).0 e
ended-Same e a flow_id stream_id other bytes complete ne s =
    let c : Endpoint = (buffer_data a flow_id stream_id bytes).0 in
    Same-trans other (forget complete stream_id c) c e (forget-Same complete stream_id other c ne)
      (Same-trans other c a e (buffer_data-Same a flow_id stream_id other bytes ne) s)

Incoming-Same :
    (e : Endpoint) (stream_id other : ℕ) (bytes : Bytes) (complete : Bool)
    (r : Endpoint × List Delivery)
    → other ≢ stream_id
    → Incoming e stream_id bytes complete r
    → Same other r.0 e
Incoming-Same e stream_id other bytes complete _ ne (nothing _) = (refl, refl)
Incoming-Same e stream_id other bytes complete _ ne (unreadable _ _) = (refl, refl)
Incoming-Same e stream_id other bytes complete _ ne (of_known flow_id f) =
    ended-Same e e flow_id stream_id other bytes complete ne (refl, refl)
Incoming-Same e stream_id other bytes complete _ ne (of_new flow_id n f) =
    ended-Same e (learnt e stream_id flow_id complete) flow_id stream_id other (drop n bytes)
      complete ne (known-Same e flow_id stream_id other complete ne)

-- Data that arrives on one stream changes nothing of what is kept of the others.
pub stream_incoming_other :
    (e : Endpoint) (stream_id other : ℕ) (bytes : Bytes) (complete : Bool)
    → other ≢ stream_id
    → Same other (stream_incoming e stream_id bytes complete).0 e
stream_incoming_other e stream_id other bytes complete ne =
    Incoming-Same e stream_id other bytes complete _ ne (Incoming-case e stream_id bytes complete)

-- Nothing is kept of the stream.
abbrev pub Gone : ℕ → Endpoint → Type 0
Gone stream_id e = (lookup stream_id e.stream_flows_in ≡ none) × (lookup stream_id e.packets ≡ none)

forget-Gone : (stream_id : ℕ) (e : Endpoint) → Gone stream_id (forget true stream_id e)
forget-Gone stream_id e =
    let same : (stream_id == stream_id) ≡ true = ==_refl stream_id in
    (
      lookup-remove stream_id stream_id e.stream_flows_in ∙ rw same refl,
      lookup-remove stream_id stream_id e.packets ∙ rw same refl,
    )

Incoming-Gone :
    (e : Endpoint) (stream_id : ℕ) (bytes : Bytes) (r : Endpoint × List Delivery)
    → NonEmpty bytes
    → (lookup stream_id e.stream_flows_in ≢ none) ⊎ (0 < (read_varint bytes).1)
    → Incoming e stream_id bytes true r
    → Gone stream_id r.0
Incoming-Gone e stream_id bytes _ ne known (nothing z) = absurd (omega arith)
Incoming-Gone e stream_id bytes _ ne (inl known) (unreadable f z) = absurd (known f)
Incoming-Gone e stream_id bytes _ ne (inr read) (unreadable f z) = absurd (omega arith)
Incoming-Gone e stream_id bytes _ ne known (of_known flow_id f) =
    forget-Gone stream_id (buffer_data e flow_id stream_id bytes).0
Incoming-Gone e stream_id bytes _ ne known (of_new flow_id n f) =
    forget-Gone stream_id (buffer_data e flow_id stream_id (drop n bytes)).0

-- Bytes with which a stream ends leave nothing kept of it, if its flow is known or they tell it.
pub stream_incoming_complete :
    (e : Endpoint) (stream_id : ℕ) (bytes : Bytes)
    → NonEmpty bytes
    → (lookup stream_id e.stream_flows_in ≢ none) ⊎ (0 < (read_varint bytes).1)
    → Gone stream_id (stream_incoming e stream_id bytes true).0
stream_incoming_complete e stream_id bytes ne known =
    Incoming-Gone e stream_id bytes _ ne known (Incoming-case e stream_id bytes true)
