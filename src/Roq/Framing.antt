-- ===== src/Roq/Framing.antt =====
-- One round of the loop over a stream's buffer, and the loop with enough fuel.
use imquic.Base.{
  ◌+◌, ◌≤◌, ◌<◌, ◌≡◌, ◌≢◌, refl, sym, ap, ◌∙◌, arith, ◌⊎◌, inl, inr, true, false, List, ◌++◌, none,
  some, Bytes, length, ◌==◌, Bool-cases, Option-cases, length-append, length-drop, drop-append,
  take-append, ==_iff,
}
use mathlib.Core.Path.{subst}
use imquic.Wire.Varint.{read_varint}
use imquic.Wire.Varint.Input.{read_varint-append, read_varint_used}
use imquic.Roq.{Packet, Round, stop, go, round, read_rtp_len, take_packet}

-- More bytes behind a packet's buffer.
abbrev pub extend : Packet → Bytes → Packet
extend pkt more = record pkt { buffer = pkt.buffer ++ more }

-- The length that a round has, read from the buffer or kept, does not depend on bytes behind it.
read_rtp_len-extend :
    (pkt known : Packet) (more : Bytes)
    → read_rtp_len pkt ≡ some known
    → (read_rtp_len (extend pkt more) ≡ some (extend known more))
      × (length known.buffer ≤ length pkt.buffer)
      × (known.rtp_len ≡ 0 → length known.buffer < length pkt.buffer)
read_rtp_len-extend pkt known more h = ground (
  arith,
  read_varint-append pkt.buffer more,
  read_varint_used pkt.buffer,
  drop-append (read_varint pkt.buffer).1 pkt.buffer more,
  length-drop (read_varint pkt.buffer).1 pkt.buffer,
)

take_packet-extend :
    (known left : Packet) (more : Bytes) (out : List Bytes)
    → take_packet known ≡ some (left, out)
    → (take_packet (extend known more) ≡ some (extend left more, out))
      × (length left.buffer + known.rtp_len ≡ length known.buffer)
take_packet-extend known left more out h = ground (
  arith,
  length-append known.buffer more,
  drop-append known.rtp_len known.buffer more,
  take-append known.rtp_len known.buffer more,
  length-drop known.rtp_len known.buffer,
)

-- The ways that a round can go: the buffer is empty, no length can be read, the packet is not complete,
-- or a packet is taken.
pub data RoundCase (pkt : Packet) : Round → Type 0 where
  empty : length pkt.buffer ≡ 0 → RoundCase pkt (stop pkt)
  no_length :
      length pkt.buffer ≢ 0
      → read_rtp_len pkt ≡ none
      → RoundCase pkt (stop (record pkt { rtp_len = 0 }))
  incomplete :
      (known : Packet)
      → length pkt.buffer ≢ 0
      → read_rtp_len pkt ≡ some known
      → take_packet known ≡ none
      → RoundCase pkt (stop known)
  taken :
      (known left : Packet) (out : List Bytes)
      → length pkt.buffer ≢ 0
      → read_rtp_len pkt ≡ some known
      → take_packet known ≡ some (left, out)
      → RoundCase pkt (go left out)

pub round_case : (pkt : Packet) → RoundCase pkt (round pkt)
unfolding round
round_case pkt = elim (Bool-cases (length pkt.buffer == 0)) [
  | inl e ↦ let q : round pkt ≡ stop pkt = rw (round, e) refl in rw q (empty ((==_iff _ 0).0 e))
  | inr ne ↦ elim (Option-cases (read_rtp_len pkt)) [
    | inl r ↦
        let q : round pkt ≡ stop (record pkt { rtp_len = 0 }) = rw (round, ne, r) refl in
        rw q (no_length (ground arith) r)
    | inr (known, r) ↦ elim (Option-cases (take_packet known)) [
      | inl t ↦
          let q : round pkt ≡ stop known = rw (round, ne, r, t) refl in
          rw q (incomplete known (ground arith) r t)
      | inr ((left, out), t) ↦
          let q : round pkt ≡ go left out = rw (round, ne, r, t) refl in
          rw q (taken known left out (ground arith) r t)
    ]
  ]
]

-- A round that goes on with the length and the packet given.
pub round_taken :
    (pkt known left : Packet) (out : List Bytes)
    → length pkt.buffer ≢ 0
    → read_rtp_len pkt ≡ some known
    → take_packet known ≡ some (left, out)
    → round pkt ≡ go left out
unfolding round
round_taken pkt known left out ne r t =
    let n : (length pkt.buffer == 0) ≡ false = ground arith in rw (round, n, r, t) refl

round_stopped :
    (pkt known : Packet)
    → length pkt.buffer ≢ 0
    → read_rtp_len pkt ≡ some known
    → round pkt ≡ elim (take_packet known) [ none ↦ stop known | some (left, out) ↦ go left out ]
unfolding round
round_stopped pkt known ne r =
    let n : (length pkt.buffer == 0) ≡ false = ground arith in rw (round, n, r) refl

-- What a round means for the loop with bytes behind the buffer: it goes on alike, or the loop can be resumed
-- from what it left.
pub Resumes : Packet → Bytes → Round → Type 0
Resumes pkt more (stop p) =
    (round (extend pkt more) ≡ round (extend p more)) × (length p.buffer ≤ length pkt.buffer)
Resumes pkt more (go left out) =
    (round (extend pkt more) ≡ go (extend left more) out) × (length left.buffer < length pkt.buffer)

nonempty-extend :
    (pkt : Packet) (more : Bytes) → length pkt.buffer ≢ 0 → length (extend pkt more).buffer ≢ 0
nonempty-extend pkt more ne = let l = length-append pkt.buffer more in omega (arith, l, ne)

-- A round on a packet whose length is known already.
round_known :
    (known : Packet)
    → known.rtp_len ≢ 0
    → round known ≡ elim (take_packet known) [ none ↦ stop known | some (left, out) ↦ go left out ]
unfolding round
round_known known nz = elim (Bool-cases (length known.buffer == 0)) [
  | inl e ↦
      let t : take_packet known ≡ none = ground arith in
      let q : round known ≡ stop known = rw (round, e) refl in rw (q, t) refl
  | inr ne ↦ round_stopped known known (ground arith) (ground arith)
]

resumes : (pkt : Packet) (more : Bytes) (r : Round) → RoundCase pkt r → Resumes pkt more r
unfolding Resumes
resumes pkt more _ (empty e) = (refl, omega arith)
resumes pkt more _ (no_length ne r) =
    let z : pkt.rtp_len ≡ 0 = ground arith in
    (ap (λ n. round (extend (record pkt { rtp_len = n }) more)) z, omega arith)
resumes pkt more _ (incomplete known ne r t) =
    let (r', shorter, _) = read_rtp_len-extend pkt known more r in
    let nz : known.rtp_len ≢ 0 = λ z. ground arith in
    (
      round_stopped _ _ (nonempty-extend pkt more ne) r' ∙ sym (round_known (extend known more) nz),
      shorter,
    )
resumes pkt more _ (taken known left out ne r t) =
    let (r', shorter, zero_shorter) = read_rtp_len-extend pkt known more r in
    let (t', size) = take_packet-extend known left more out t in
    (
      round_taken _ _ _ _ (nonempty-extend pkt more ne) r' t',
      grind (arith, size, shorter, zero_shorter),
    )

pub round_empty : (pkt : Packet) → length pkt.buffer ≡ 0 → round pkt ≡ stop pkt
unfolding round
round_empty pkt e = let q : (length pkt.buffer == 0) ≡ true = ground arith in rw (round, q) refl

pub round-cases :
    (pkt : Packet)
    → ((p : Packet) × (round pkt ≡ stop p))
      ⊎ ((left : Packet) × (out : List Bytes) × (round pkt ≡ go left out))
round-cases pkt = classify (round pkt) refl
  where
    classify :
        (r : Round)
        → round pkt ≡ r
        → ((p : Packet) × (round pkt ≡ stop p))
          ⊎ ((left : Packet) × (out : List Bytes) × (round pkt ≡ go left out))
    classify (stop p) e = inl (p, e)
    classify (go left out) e = inr (left, out, e)

-- With bytes behind the buffer, a round that leaves the loop can be resumed from what it left.
pub round-extend_stop :
    (pkt p : Packet) (more : Bytes)
    → round pkt ≡ stop p
    → round (extend pkt more) ≡ round (extend p more)
unfolding Resumes
round-extend_stop pkt p more e =
    (subst (λ r. Resumes pkt more r) e (resumes pkt more (round pkt) (round_case pkt))).0

-- With bytes behind the buffer, a round that goes on goes on alike, from a shorter buffer.
pub round-extend_go :
    (pkt left : Packet) (out : List Bytes) (more : Bytes)
    → round pkt ≡ go left out
    → (round (extend pkt more) ≡ go (extend left more) out)
      × (length left.buffer < length pkt.buffer)
unfolding Resumes
round-extend_go pkt left out more e =
    subst (λ r. Resumes pkt more r) e (resumes pkt more (round pkt) (round_case pkt))
