-- ===== src/Roq.antt =====
-- RTP over QUIC (roq.c): the packets of incoming streams and datagrams, and the sending of packets.
-- A stream's buffer stands here for its contents, on which the buffer acts as `Buffer.Contents` says. The
-- calls of the application's callback `rtp_incoming`, which is set, are the list of packets delivered; the
-- tracing of events is left out. An endpoint is one that the table of sessions holds.
pub mod Framing
pub mod Chunks
pub mod RoundTrip
pub mod Streams
pub mod Isolation
pub mod Datagrams
use imquic.Base.{
  ℕ, zero, suc, ◌+◌, ◌-◌, ◌≤◌, ◌<◌, Bool, true, false, List, [], ◌∷◌, ◌++◌, map, Option, none, some,
  Bytes, length, take, drop, ltb, leb, ◌==◌, if◌then◌else◌, lookup, insert, remove,
}
use imquic.Buffer.Contents
use imquic.Wire.Varint.{read_varint, write_varint}

-- `imquic_roq_packet`
pub record Packet : Type 0 where
  pub buffer : Bytes
  pub rtp_len : ℕ

-- The round of the loop that the length of a packet has been read for: `none` stands for the `break`.
abbrev pub take_packet : Packet → Option (Packet × List Bytes)
take_packet pkt =
    if leb pkt.rtp_len (length pkt.buffer)
    then some (
      record { buffer = Contents.shift pkt.buffer pkt.rtp_len; rtp_len = 0 },
      if ltb 0 pkt.rtp_len then take pkt.rtp_len pkt.buffer ∷ [] else [],
    )
    else none

-- `none` stands for the `break` where there is no length yet.
abbrev pub read_rtp_len : Packet → Option Packet
read_rtp_len pkt =
    let (len, parsed) = read_varint pkt.buffer in
    if pkt.rtp_len == 0
    then (if parsed == 0
        then none
        else some (record { buffer = Contents.shift pkt.buffer parsed; rtp_len = len }))
    else some pkt

-- A round of the loop of `imquic_roq_buffer_data`: it leaves the loop, or goes on after some deliveries.
pub data Round : Type 0 where
  stop : Packet → Round
  go : Packet → List Bytes → Round

unfoldable pub round : Packet → Round
round pkt = if length pkt.buffer == 0 then stop pkt else elim (read_rtp_len pkt) [
  | none ↦ stop (record pkt { rtp_len = 0 })
  | some known ↦ elim (take_packet known) [ none ↦ stop known | some (left, out) ↦ go left out ]
]

-- The loop: what is left and the packets delivered. Each round that goes on takes a byte of the buffer at
-- least, so the buffer's length is fuel enough.
unfoldable pub drain : (fuel : ℕ) → Packet → Packet × List Bytes
unfolding round
drain zero pkt = (pkt, [])
drain (suc fuel) pkt = elim (round pkt) [
  | stop p ↦ (p, [])
  | go left out ↦ let (rest, more) = drain fuel left in (rest, out ++ more)
]

-- New data behind what the buffer holds.
abbrev pub receive : Packet → Bytes → Packet × List Bytes
receive pkt bytes =
    let full : Packet = record pkt { buffer = Contents.append pkt.buffer bytes } in
    drain (length full.buffer) full

abbrev pub new_packet : Packet
new_packet = record { buffer = []; rtp_len = 0 }

-- `imquic_roq_stream`
pub record RoqStream : Type 0 where
  pub stream_id : ℕ
  pub flow_id : ℕ
  pub new_stream : Bool

-- `imquic_roq_endpoint`
pub record Endpoint : Type 0 where
  pub stream_flows_in : List (ℕ × ℕ)
  pub stream_flows_out : List (ℕ × RoqStream)
  pub packets : List (ℕ × Packet)

-- A call of the callback: the flow and the packet.
abbrev pub Delivery : Type 0
Delivery = ℕ × Bytes

unfoldable pub buffer_data : Endpoint → (flow_id stream_id : ℕ) → Bytes → Endpoint × List Delivery
unfolding drain
buffer_data e flow_id stream_id bytes =
    let pkt : Packet = elim (lookup stream_id e.packets) [ none ↦ new_packet | some pkt ↦ pkt ] in
    let (left, out) = receive pkt bytes in
    (record e { packets = insert stream_id left e.packets }, map (λ p. (flow_id, p)) out)

-- A stream's end removes what is kept of it.
abbrev pub forget : Bool → (stream_id : ℕ) → Endpoint → Endpoint
forget complete stream_id e =
    if complete
    then record e {
      stream_flows_in = remove stream_id e.stream_flows_in;
      packets = remove stream_id e.packets;
    }
    else e

unfoldable pub stream_incoming :
    Endpoint → (stream_id : ℕ) → Bytes → (complete : Bool) → Endpoint × List Delivery
unfolding buffer_data
stream_incoming e stream_id [] complete = (e, [])
stream_incoming e stream_id (b ∷ bs) complete = elim (lookup stream_id e.stream_flows_in) [
  | some flow_id ↦
      let (e', out) = buffer_data e flow_id stream_id (b ∷ bs) in
      (forget complete stream_id e', out)
  | none ↦
      let (flow_id, parsed) = read_varint (b ∷ bs) in
      let known : Endpoint =
        if complete
        then e
        else record e { stream_flows_in = insert stream_id flow_id e.stream_flows_in } in
      let (e', out) = buffer_data known flow_id stream_id (drop parsed (b ∷ bs)) in
      if parsed == 0 then (e, []) else (forget complete stream_id e', out)
]

unfoldable pub datagram_incoming : Bytes → List Delivery
datagram_incoming bytes =
    let (flow_id, parsed) = read_varint bytes in
    if parsed == 0
    then []
    else if ltb 0 (length bytes)
    then (flow_id, drop parsed bytes) ∷ []
    else []

-- What sending comes to: nothing is sent, the bytes go out on a datagram, or on a stream that ends with them or
-- not; or the 2048 bytes of the local array are written past their end.
pub data Sent : Type 0 where
  refused : Sent
  on_datagram : Bytes → Sent
  on_stream : (stream_id : ℕ) → Bytes → (close : Bool) → Sent
  overflow : Sent

abbrev pub outlen : ℕ
outlen = 2048

-- `memcpy(outgoing + offset, bytes, blen)` behind the `header`, and then the sending of all of it.
abbrev pub copied : (header bytes : Bytes) → (Bytes → Sent) → Sent
copied header bytes send =
    if ltb outlen (length header + length bytes) then overflow else send (header ++ bytes)

unfoldable pub send_on_datagram : (flow_id : ℕ) → Bytes → Sent
send_on_datagram flow_id bytes =
    if ltb (length bytes) 12
    then refused
    else copied (write_varint flow_id outlen) bytes on_datagram

-- `new_id` is the identifier that the QUIC stack gives to a stream that it opens.
unfoldable pub send_on_stream :
    Endpoint → (new_id flow_id : ℕ) → Bytes → (close : Bool) → Endpoint × Sent
send_on_stream e new_id flow_id bytes close =
    let stream : RoqStream = elim (lookup flow_id e.stream_flows_out) [
      | some s ↦ s
      | none ↦ record { stream_id = new_id; flow_id = flow_id; new_stream = true }
    ] in
    let first = if stream.new_stream then write_varint flow_id outlen else [] in
    let header = first ++ write_varint (length bytes) (outlen - length first) in
    let flows = insert flow_id (record stream { new_stream = false }) e.stream_flows_out in
    if ltb (length bytes) 12 then (e, refused) else (
      record e { stream_flows_out = if close then remove flow_id flows else flows },
      copied header bytes (λ all. on_stream stream.stream_id all close),
    )
