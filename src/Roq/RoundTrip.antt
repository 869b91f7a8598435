-- ===== src/Roq/RoundTrip.antt =====
-- The packets of a stream, each behind its length, as they are sent and as they are taken apart again.
use imquic.Base.{
  ℕ, ◌+◌, ◌-◌, ◌≤◌, ◌<◌, ◌≡◌, refl, sym, ap, ◌∙◌, arith, false, List, [], ◌∷◌, ◌++◌, All,
  append_assoc, none, some, Bytes, length, length-append, take-length_append, drop-length_append,
  lookup, lookup-insert,
}
use imquic.Wire.Varint.{read_varint, write_varint, max_varint, varint_size}
use imquic.Wire.Varint.RoundTrip.{read_varint-write_varint}
use imquic.Wire.Varint.Input.{length-write_varint}
use imquic.Roq.{
  Packet, go, round, new_packet, Endpoint, RoqStream, Sent, refused, on_datagram, on_stream,
  overflow, outlen, send_on_stream,
}
use imquic.Roq.Framing.{round_taken, round_empty}
use imquic.Roq.Chunks.{settle, settle-round, settle_after, deliver}

-- A packet behind its length.
abbrev pub frame : Bytes → Bytes
frame p = write_varint (length p) outlen ++ p

abbrev pub framed : List Bytes → Bytes
framed [] = []
framed (p ∷ ps) = frame p ++ framed ps

-- A packet that has bytes, as many as a length can tell.
abbrev pub IsFramed : Bytes → Type 0
IsFramed p = (0 < length p) × (length p ≤ max_varint)

-- Reading a number that was written with room enough, and dropping its encoding.
pub read_written :
    (v : ℕ) (rest : Bytes)
    → v ≤ max_varint
    → (read_varint (write_varint v outlen ++ rest) ≡ (v, length (write_varint v outlen)))
      × (0 < length (write_varint v outlen))
read_written v rest h =
    let size : length (write_varint v outlen) ≡ varint_size v =
      length-write_varint v outlen ∙ ground arith in
    (
      read_varint-write_varint v outlen rest h (ground arith) ∙ ap (λ n. (v, n)) (sym size),
      ground arith,
    )

round_framed :
    (p rest : Bytes)
    → IsFramed p
    → round (record { buffer = frame p ++ rest; rtp_len = 0 })
      ≡ go (record { buffer = rest; rtp_len = 0 }) (p ∷ [])
round_framed p rest (some_bytes, fits) =
    let w : Bytes = write_varint (length p) outlen in
    let (parsed, size) = read_written (length p) (p ++ rest) fits in
    let known : Packet = record { buffer = p ++ rest; rtp_len = length p } in
    rw (append_assoc w p rest) (
      round_taken (record { buffer = w ++ (p ++ rest); rtp_len = 0 }) known
        (record { buffer = rest; rtp_len = 0 }) (p ∷ [])
        (grind (arith, length-append w (p ++ rest)))
        (ground (arith, parsed, drop-length_append w (p ++ rest)))
        (ground
          (arith, length-append p rest, drop-length_append p rest, take-length_append p rest)))

-- A buffer of packets behind their lengths gives these packets, in order, and nothing is left.
pub settle-framed :
    (ps : List Bytes)
    → All IsFramed ps
    → settle (record { buffer = framed ps; rtp_len = 0 }) ≡ (new_packet, ps)
settle-framed [] h = settle-round new_packet ∙ ap settle_after (round_empty new_packet refl)
settle-framed (p ∷ ps) (hp, h) =
    let q = settle-round (record { buffer = frame p ++ framed ps; rtp_len = 0 }) in
    q ∙ ap settle_after (round_framed p (framed ps) hp) ∙ ap (deliver (p ∷ [])) (settle-framed ps h)

-- Sending packets one after the other on a flow's stream, and the bytes that go out on it.
abbrev pub sent_bytes : Sent → Bytes
sent_bytes (on_stream _ bytes _) = bytes
sent_bytes (on_datagram bytes) = bytes
sent_bytes refused = []
sent_bytes overflow = []

unfoldable pub send_all : Endpoint → (new_id flow_id : ℕ) → List Bytes → Endpoint × Bytes
send_all e new_id flow_id [] = (e, [])
send_all e new_id flow_id (p ∷ ps) =
    let (e', sent) = send_on_stream e new_id flow_id p false in
    let (last, bytes) = send_all e' new_id flow_id ps in (last, sent_bytes sent ++ bytes)

-- A packet that has a header of RTP and fits the local array with the two numbers before it.
abbrev pub IsSendable : Bytes → Type 0
IsSendable p = (12 ≤ length p) × (length p + 16 ≤ outlen)

pub sendable-IsFramed : (p : Bytes) → IsSendable p → IsFramed p
sendable-IsFramed p h = omega arith

write_room : (v blen : ℕ) → 8 ≤ blen → write_varint v blen ≡ write_varint v outlen
unfolding write_varint
write_room v blen h = ground arith

written_size : (v : ℕ) → length (write_varint v outlen) ≤ 8
written_size v = ground (arith, length-write_varint v outlen)

abbrev opened : (id flow_id : ℕ) → RoqStream
opened id flow_id = record { stream_id = id; flow_id = flow_id; new_stream = false }

send_on_stream_open :
    (e : Endpoint) (new_id id flow_id : ℕ) (p : Bytes)
    → IsSendable p
    → lookup flow_id e.stream_flows_out ≡ some (opened id flow_id)
    → ((send_on_stream e new_id flow_id p false).1 ≡ on_stream id (frame p) false)
      × (lookup flow_id (send_on_stream e new_id flow_id p false).0.stream_flows_out
          ≡ some (opened id flow_id))
unfolding send_on_stream
send_on_stream_open e new_id id flow_id p h known = ground (
  arith,
  written_size (length p),
  lookup-insert flow_id flow_id (opened id flow_id) e.stream_flows_out,
)

send_on_stream_fresh :
    (e : Endpoint) (new_id flow_id : ℕ) (p : Bytes)
    → IsSendable p
    → lookup flow_id e.stream_flows_out ≡ none
    → ((send_on_stream e new_id flow_id p false).1
        ≡ on_stream new_id (write_varint flow_id outlen ++ frame p) false)
      × (lookup flow_id (send_on_stream e new_id flow_id p false).0.stream_flows_out
          ≡ some (opened new_id flow_id))
unfolding send_on_stream
send_on_stream_fresh e new_id flow_id p h unknown =
    let w : Bytes = write_varint flow_id outlen in
    let small : length w ≤ 8 = written_size flow_id in
    ground (
      arith,
      small,
      written_size (length p),
      write_room (length p) (outlen - length w) (omega arith),
      length-append w (write_varint (length p) outlen),
      append_assoc w (write_varint (length p) outlen) p,
      lookup-insert flow_id flow_id (opened new_id flow_id) e.stream_flows_out,
    )

send_all_open :
    (e : Endpoint) (new_id id flow_id : ℕ) (ps : List Bytes)
    → All IsSendable ps
    → lookup flow_id e.stream_flows_out ≡ some (opened id flow_id)
    → (send_all e new_id flow_id ps).1 ≡ framed ps
unfolding send_all
send_all_open e new_id id flow_id [] h known = refl
send_all_open e new_id id flow_id (p ∷ ps) (hp, h) known =
    let (sent, still) = send_on_stream_open e new_id id flow_id p hp known in
    let e' : Endpoint = (send_on_stream e new_id flow_id p false).0 in
    ap (λ s. sent_bytes s ++ (send_all e' new_id flow_id ps).1) sent
    ∙ ap (λ t. frame p ++ t) (send_all_open e' new_id id flow_id ps h still)

-- On a flow that has no stream yet, the bytes sent are the flow's identifier, and then each packet behind its
-- length, where each packet has 12 bytes at least and fits the local array with 16 bytes before it.
pub send_all-framed :
    (e : Endpoint) (new_id flow_id : ℕ) (p : Bytes) (ps : List Bytes)
    → All IsSendable (p ∷ ps)
    → lookup flow_id e.stream_flows_out ≡ none
    → (send_all e new_id flow_id (p ∷ ps)).1 ≡ write_varint flow_id outlen ++ framed (p ∷ ps)
unfolding send_all
send_all-framed e new_id flow_id p ps (hp, h) unknown =
    let (sent, still) = send_on_stream_fresh e new_id flow_id p hp unknown in
    let e' : Endpoint = (send_on_stream e new_id flow_id p false).0 in
    ap (λ s. sent_bytes s ++ (send_all e' new_id flow_id ps).1) sent
    ∙ ap (λ t. (write_varint flow_id outlen ++ frame p) ++ t)
        (send_all_open e' new_id new_id flow_id ps h still)
    ∙ append_assoc (write_varint flow_id outlen) (frame p) (framed ps)
