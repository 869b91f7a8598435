-- ===== src/Roq/Datagrams.antt =====
-- Packets on datagrams.
use imquic.Base.{ℕ, ◌≤◌, ◌≡◌, arith, [], ◌∷◌, ◌++◌, Bytes, length-append, drop-length_append}
use imquic.Wire.Varint.{write_varint, max_varint}
use imquic.Wire.Varint.Input.{length-write_varint}
use imquic.Roq.{on_datagram, outlen, send_on_datagram, datagram_incoming}
use imquic.Roq.RoundTrip.{read_written, IsSendable}

-- A packet sent on a datagram arrives as one packet of its flow, if the flow's identifier is a varint and the
-- packet has a header and fits the local array.
pub datagram_incoming-send_on_datagram :
    (flow_id : ℕ) (p : Bytes)
    → flow_id ≤ max_varint
    → IsSendable p
    → (all : Bytes) × (send_on_datagram flow_id p ≡ on_datagram all)
      × (datagram_incoming all ≡ (flow_id, p) ∷ [])
unfolding send_on_datagram datagram_incoming
datagram_incoming-send_on_datagram flow_id p h (header, fits) =
    let w : Bytes = write_varint flow_id outlen in
    let (parsed, size) = read_written flow_id p h in
    (
      w ++ p,
      ground (arith, length-write_varint flow_id outlen),
      ground (arith, parsed, size, drop-length_append w p, length-append w p),
    )
