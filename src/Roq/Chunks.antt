-- ===== src/Roq/Chunks.antt =====
-- The loop over a stream's buffer, run to its end, and data that arrives in pieces.
use imquic.Base.{
  ℕ, zero, suc, ◌≤◌, ◌≡◌, refl, sym, ap, ◌∙◌, arith, inl, inr, List, [], ◌∷◌, ◌++◌, append-nil,
  append_assoc, Bytes, length,
}
use imquic.Roq.{Packet, Round, stop, go, round, drain, receive}
use imquic.Roq.Framing.{extend, round_empty, round-cases, round-extend_stop, round-extend_go}

-- What the loop makes of the packet and of what it delivered before.
abbrev pub Result : Type 0
Result = Packet × List Bytes

abbrev pub settle : Packet → Result
settle pkt = drain (length pkt.buffer) pkt

abbrev pub deliver : List Bytes → Result → Result
deliver out (rest, more) = (rest, out ++ more)

-- The loop after a round, with fuel for the rest.
abbrev pub after : ℕ → Round → Result
after fuel (stop p) = (p, [])
after fuel (go left out) = deliver out (drain fuel left)

drain-suc :
    (fuel : ℕ) (pkt : Packet) (r : Round) → round pkt ≡ r → drain (suc fuel) pkt ≡ after fuel r
unfolding drain
drain-suc fuel pkt (stop p) e = rw (drain, e) refl
drain-suc fuel pkt (go left out) e = rw (drain, e) refl

-- Fuel beyond the buffer's length changes nothing.
pub fuel_enough :
    (f g : ℕ) (pkt : Packet)
    → length pkt.buffer ≤ f
    → length pkt.buffer ≤ g
    → drain f pkt ≡ drain g pkt
unfolding drain
fuel_enough zero zero pkt hf hg = refl
fuel_enough zero (suc g) pkt hf hg =
    sym (drain-suc g pkt (stop pkt) (round_empty pkt (omega arith)))
fuel_enough (suc f) zero pkt hf hg = drain-suc f pkt (stop pkt) (round_empty pkt (omega arith))
fuel_enough (suc f) (suc g) pkt hf hg = elim (round-cases pkt) [
  | inl (p, e) ↦ drain-suc f pkt (stop p) e ∙ sym (drain-suc g pkt (stop p) e)
  | inr (left, out, e) ↦
      let (_, shorter) = round-extend_go pkt left out [] e in
      drain-suc f pkt (go left out) e
      ∙ ap (deliver out) (fuel_enough f g left (omega arith) (omega arith))
      ∙ sym (drain-suc g pkt (go left out) e)
]

-- The loop is its first round and then the loop on what is left.
abbrev pub settle_after : Round → Result
settle_after (stop p) = (p, [])
settle_after (go left out) = deliver out (settle left)

pub settle-round : (pkt : Packet) → settle pkt ≡ settle_after (round pkt)
settle-round pkt = elim (round-cases pkt) [
  | inl (p, e) ↦
      fuel_enough _ _ pkt (omega arith) (omega arith)
      ∙ drain-suc (length pkt.buffer) pkt (stop p) e
      ∙ ap settle_after (sym e)
  | inr (left, out, e) ↦
      let (_, shorter) = round-extend_go pkt left out [] e in
      fuel_enough _ _ pkt (omega arith) (omega arith)
      ∙ drain-suc (length pkt.buffer) pkt (go left out) e
      ∙ ap (deliver out) (fuel_enough _ _ left (omega arith) (omega arith))
      ∙ ap settle_after (sym e)
]

-- The loop on the bytes so far, then again with those that come after them.
abbrev pub continue : Bytes → Result → Result
continue more (p, out) = deliver out (settle (extend p more))

deliver-append :
    (out out' : List Bytes) (r : Result) → deliver (out ++ out') r ≡ deliver out (deliver out' r)
deliver-append out out' (p, rest) = ap (λ t. (p, t)) (append_assoc out out' rest)

continue-deliver :
    (more : Bytes) (out : List Bytes) (r : Result)
    → continue more (deliver out r) ≡ deliver out (continue more r)
continue-deliver more out (p, out') = deliver-append out out' (settle (extend p more))

drain-continue :
    (f : ℕ) (pkt : Packet) (more : Bytes)
    → length pkt.buffer ≤ f
    → settle (extend pkt more) ≡ continue more (drain f pkt)
unfolding drain
drain-continue zero pkt more h = refl
drain-continue (suc f) pkt more h = elim (round-cases pkt) [
  | inl (p, e) ↦
      settle-round (extend pkt more)
      ∙ ap settle_after (round-extend_stop pkt p more e)
      ∙ sym (settle-round (extend p more))
      ∙ ap (continue more) (sym (drain-suc f pkt (stop p) e))
  | inr (left, out, e) ↦
      let (e', shorter) = round-extend_go pkt left out more e in
      settle-round (extend pkt more)
      ∙ ap settle_after e'
      ∙ ap (deliver out) (drain-continue f left more (omega arith))
      ∙ sym (continue-deliver more out (drain f left))
      ∙ ap (continue more) (sym (drain-suc f pkt (go left out) e))
]

-- However the bytes of a stream are split in two, the packets delivered and the state left are the same as
-- when they arrive at once.
pub receive-append :
    (pkt : Packet) (a b : Bytes)
    → receive pkt (a ++ b) ≡ (let (p, out) = receive pkt a in deliver out (receive p b))
receive-append pkt a b =
    let full : Packet = extend pkt a in
    let split : extend pkt (a ++ b) ≡ extend full b =
      ap (λ t. record pkt { buffer = t }) (sym (append_assoc pkt.buffer a b)) in
    ap settle split ∙ drain-continue (length full.buffer) full b (omega arith)

-- The pieces of a stream, as they arrive one after the other.
unfoldable pub receive_all : Packet → List Bytes → Result
receive_all pkt [] = (pkt, [])
receive_all pkt (bytes ∷ more) =
    let (p, out) = receive pkt bytes in deliver out (receive_all p more)

unfoldable pub joined : List Bytes → Bytes
joined [] = []
joined (bytes ∷ more) = bytes ++ joined more

-- The bytes of a stream that arrive in a first piece and then any number of further pieces leave the state
-- and deliver the packets that they do when they arrive at once.
pub receive_all-joined :
    (pkt : Packet) (bytes : Bytes) (more : List Bytes)
    → receive_all pkt (bytes ∷ more) ≡ receive pkt (bytes ++ joined more)
unfolding receive_all joined
receive_all-joined pkt bytes [] =
    ap (λ out. ((receive pkt bytes).0, out)) (append-nil (receive pkt bytes).1)
    ∙ ap (receive pkt) (sym (append-nil bytes))
receive_all-joined pkt bytes (next ∷ more) =
    ap (deliver (receive pkt bytes).1) (receive_all-joined (receive pkt bytes).0 next more)
    ∙ sym (receive-append pkt bytes (next ++ joined more))
