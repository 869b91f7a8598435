-- ===== src/Roq/Streams.antt =====
-- The stream of a flow from its sender to its receiver, in pieces.
use imquic.Base.{
  ℕ, ◌≤◌, ◌<◌, ◌≡◌, refl, sym, ap, ◌∙◌, arith, false, List, [], ◌∷◌, ◌++◌, map, All, none, some,
  Bytes, length, drop, ◌==◌, length-append, drop-length_append, lookup, insert, lookup-insert,
}
use imquic.Wire.Varint.{read_varint, write_varint, max_varint}
use imquic.Roq.{
  Packet, receive, new_packet, Endpoint, outlen, stream_incoming, buffer_data, Delivery,
}
use imquic.Roq.Chunks.{Result, deliver, receive_all, joined, receive_all-joined}
use imquic.Roq.RoundTrip.{
  framed, read_written, settle-framed, send_all, IsSendable, sendable-IsFramed, send_all-framed,
  IsFramed,
}

-- What arrives on a stream, piece by piece.
unfoldable pub incoming_all : Endpoint → (stream_id : ℕ) → List Bytes → Endpoint × List Delivery
incoming_all e stream_id [] = (e, [])
incoming_all e stream_id (bytes ∷ more) =
    let (e', out) = stream_incoming e stream_id bytes false in
    let (last, rest) = incoming_all e' stream_id more in (last, out ++ rest)

abbrev on_flow : ℕ → List Bytes → List Delivery
on_flow flow_id out = map (λ p. (flow_id, p)) out

map-append :
    (flow_id : ℕ) (xs ys : List Bytes)
    → on_flow flow_id (xs ++ ys) ≡ on_flow flow_id xs ++ on_flow flow_id ys
map-append flow_id [] ys = refl
map-append flow_id (x ∷ xs) ys = ap (λ t. (flow_id, x) ∷ t) (map-append flow_id xs ys)

abbrev pub NonEmpty : Bytes → Type 0
NonEmpty bytes = 0 < length bytes

incoming_known :
    (e : Endpoint) (stream_id flow_id : ℕ) (pkt : Packet) (bytes : Bytes)
    → lookup stream_id e.stream_flows_in ≡ some flow_id
    → lookup stream_id e.packets ≡ some pkt
    → NonEmpty bytes
    → ((stream_incoming e stream_id bytes false).1 ≡ on_flow flow_id (receive pkt bytes).1)
      × (lookup stream_id (stream_incoming e stream_id bytes false).0.stream_flows_in
          ≡ some flow_id)
      × (lookup stream_id (stream_incoming e stream_id bytes false).0.packets
          ≡ some (receive pkt bytes).0)
unfolding stream_incoming buffer_data
incoming_known e stream_id flow_id pkt [] f k h = absurd (omega arith)
incoming_known e stream_id flow_id pkt (b ∷ bs) f k h =
    ground (arith, lookup-insert stream_id stream_id (receive pkt (b ∷ bs)).0 e.packets, f, k)

-- Once a stream's flow is known, what is delivered is what the loop takes from the pieces.
incoming_all_known :
    (e : Endpoint) (stream_id flow_id : ℕ) (pkt : Packet) (pieces : List Bytes)
    → lookup stream_id e.stream_flows_in ≡ some flow_id
    → lookup stream_id e.packets ≡ some pkt
    → All NonEmpty pieces
    → (incoming_all e stream_id pieces).1 ≡ on_flow flow_id (receive_all pkt pieces).1
unfolding incoming_all receive_all
incoming_all_known e stream_id flow_id pkt [] f k h = refl
incoming_all_known e stream_id flow_id pkt (bytes ∷ more) f k (hb, h) =
    let (out, f', k') = incoming_known e stream_id flow_id pkt bytes f k hb in
    let e' : Endpoint = (stream_incoming e stream_id bytes false).0 in
    ap (λ t. t ++ (incoming_all e' stream_id more).1) out
    ∙ ap (λ t. on_flow flow_id (receive pkt bytes).1 ++ t)
        (incoming_all_known e' stream_id flow_id (receive pkt bytes).0 more f' k' h)
    ∙ sym (map-append flow_id (receive pkt bytes).1 (receive_all (receive pkt bytes).0 more).1)

-- The first bytes of a stream, where they tell its flow.
incoming_new :
    (e : Endpoint) (stream_id flow_id n : ℕ) (all : Bytes)
    → NonEmpty all
    → lookup stream_id e.stream_flows_in ≡ none
    → read_varint all ≡ (flow_id, n)
    → 0 < n
    → stream_incoming e stream_id all false
      ≡ buffer_data
          (record e { stream_flows_in = insert stream_id flow_id e.stream_flows_in })
          flow_id
          stream_id
          (drop n all)
unfolding stream_incoming
incoming_new e stream_id flow_id n [] h f r p = absurd (omega arith)
incoming_new e stream_id flow_id n (b ∷ bs) h f r p =
    let q : (n == 0) ≡ false = ground arith in rw (stream_incoming, f, r, q) refl

incoming_first :
    (e : Endpoint) (stream_id flow_id : ℕ) (bytes : Bytes)
    → flow_id ≤ max_varint
    → lookup stream_id e.stream_flows_in ≡ none
    → lookup stream_id e.packets ≡ none
    → let all : Bytes = write_varint flow_id outlen ++ bytes in
      ((stream_incoming e stream_id all false).1 ≡ on_flow flow_id (receive new_packet bytes).1)
      × (lookup stream_id (stream_incoming e stream_id all false).0.stream_flows_in ≡ some flow_id)
      × (lookup stream_id (stream_incoming e stream_id all false).0.packets
          ≡ some (receive new_packet bytes).0)
unfolding buffer_data
incoming_first e stream_id flow_id bytes h f k =
    let w : Bytes = write_varint flow_id outlen in
    let (parsed, size) = read_written flow_id bytes h in
    let step =
      incoming_new e stream_id flow_id (length w) (w ++ bytes)
        (omega (arith, length-append w bytes, size)) f parsed size in
    rw (step, drop-length_append w bytes, k)
      (
        refl,
        lookup-insert stream_id stream_id flow_id e.stream_flows_in ∙ ground arith,
        lookup-insert stream_id stream_id (receive new_packet bytes).0 e.packets ∙ ground arith,
      )

All-IsFramed : (ps : List Bytes) → All IsSendable ps → All IsFramed ps
All-IsFramed [] h = h
All-IsFramed (p ∷ ps) (hp, h) = (sendable-IsFramed p hp, All-IsFramed ps h)

-- The packets taken from pieces are those taken from all the bytes at once.
received :
    (first : Bytes) (more : List Bytes)
    → deliver (receive new_packet first).1 (receive_all (receive new_packet first).0 more)
      ≡ receive new_packet (first ++ joined more)
unfolding receive_all
received first more = receive_all-joined new_packet first more

-- The packets sent on a new stream of a flow are delivered to the peer with that flow, all of them, in the
-- order of sending and nothing else, however the bytes of the stream are cut into pieces. Each packet has 12
-- bytes at least and fits the local array with 16 bytes before it, the flow's identifier is a varint, the peer
-- keeps nothing of the stream yet, the first piece holds the whole identifier and no later piece is empty.
pub incoming_all-send_all :
    (sender receiver : Endpoint) (new_id stream_id flow_id : ℕ) (p : Bytes) (ps : List Bytes)
    (first : Bytes) (more : List Bytes)
    → All IsSendable (p ∷ ps)
    → flow_id ≤ max_varint
    → lookup flow_id sender.stream_flows_out ≡ none
    → lookup stream_id receiver.stream_flows_in ≡ none
    → lookup stream_id receiver.packets ≡ none
    → All NonEmpty more
    → write_varint flow_id outlen ++ (first ++ joined more)
      ≡ (send_all sender new_id flow_id (p ∷ ps)).1
    → (incoming_all receiver stream_id ((write_varint flow_id outlen ++ first) ∷ more)).1
      ≡ map (λ q. (flow_id, q)) (p ∷ ps)
unfolding incoming_all
incoming_all-send_all sender receiver new_id stream_id flow_id p ps first more h fits unsent f k ne
      cut =
    let w : Bytes = write_varint flow_id outlen in
    let (out, f', k') = incoming_first receiver stream_id flow_id first fits f k in
    let r : Endpoint = (stream_incoming receiver stream_id (w ++ first) false).0 in
    let bytes : first ++ joined more ≡ framed (p ∷ ps) =
      sym (drop-length_append w (first ++ joined more))
      ∙ ap (drop (length w)) (cut ∙ send_all-framed sender new_id flow_id p ps h unsent)
      ∙ drop-length_append w (framed (p ∷ ps)) in
    ap (λ t. t ++ (incoming_all r stream_id more).1) out
    ∙ ap (λ t. on_flow flow_id (receive new_packet first).1 ++ t)
        (incoming_all_known r stream_id flow_id (receive new_packet first).0 more f' k' ne)
    ∙ sym (
        map-append flow_id (receive new_packet first).1
          (receive_all (receive new_packet first).0 more).1)
    ∙ ap (λ (t : Result). on_flow flow_id t.1)
        (received first more
          ∙ ap (receive new_packet) bytes
          ∙ settle-framed (p ∷ ps) (All-IsFramed (p ∷ ps) h))
