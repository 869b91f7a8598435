-- ===== src/Tests/RoqRuns.antt =====
-- RTP over QUIC and the buffers, on small packets.
use imquic.Base.{
  ℕ, ◌≡◌, refl, sym, ◌∙◌, arith, true, List, [], ◌∷◌, ◌++◌, map, none, some, Bytes, length, lookup,
  insert, inl,
}
use imquic.Wire.Varint.{write_varint}
use imquic.Buffer.{Buffer, zeroed, append, shift}
use imquic.Buffer.Contents
use imquic.Buffer.Refinement.{IsValid, contents, append-contents, shift-contents}
use imquic.Roq.{
  Endpoint, on_datagram, outlen, receive, new_packet, stream_incoming, datagram_incoming,
  send_on_stream, send_on_datagram,
}
use imquic.Roq.Chunks.{receive_all, joined, receive_all-joined}
use imquic.Roq.RoundTrip.{send_all}
use imquic.Roq.Streams.{incoming_all, incoming_all-send_all}
use imquic.Roq.Isolation.{Same, Gone, stream_incoming_other, stream_incoming_complete}
use imquic.Roq.Datagrams.{datagram_incoming-send_on_datagram}

abbrev empty_endpoint : Endpoint
empty_endpoint = record { stream_flows_in = []; stream_flows_out = []; packets = [] }

abbrev packet : Bytes
packet = 128 ∷ 96 ∷ 0 ∷ 1 ∷ 0 ∷ 0 ∷ 0 ∷ 9 ∷ 1 ∷ 2 ∷ 3 ∷ 4 ∷ 7 ∷ []

abbrev second_packet : Bytes
second_packet = 128 ∷ 96 ∷ 0 ∷ 2 ∷ 0 ∷ 0 ∷ 0 ∷ 10 ∷ 1 ∷ 2 ∷ 3 ∷ 4 ∷ []

-- The first piece holds the flow's identifier and two bytes of the first packet.
abbrev first_piece : Bytes
first_piece = 13 ∷ 128 ∷ []

abbrev other_pieces : List Bytes
other_pieces =
    (96 ∷ 0 ∷ 1 ∷ 0 ∷ 0 ∷ 0 ∷ 9 ∷ 1 ∷ 2 ∷ 3 ∷ 4 ∷ 7 ∷ 12 ∷ 128 ∷ 96 ∷ 0 ∷ [])
    ∷ (2 ∷ 0 ∷ 0 ∷ 0 ∷ 10 ∷ 1 ∷ 2 ∷ 3 ∷ 4 ∷ [])
    ∷ []

same_bytes :
    write_varint 3 outlen ++ (first_piece ++ joined other_pieces)
    ≡ (send_all empty_endpoint 2 3 (packet ∷ second_packet ∷ [])).1
unfolding joined send_all send_on_stream write_varint lookup insert
same_bytes = refl

no_stream : {A : Type 0} → lookup {A = A} 3 [] ≡ none
unfolding lookup
no_stream = refl

incoming_all-send_all_example :
    (incoming_all empty_endpoint 3 ((write_varint 3 outlen ++ first_piece) ∷ other_pieces)).1
    ≡ map (λ q. (3, q)) (packet ∷ second_packet ∷ [])
incoming_all-send_all_example =
    incoming_all-send_all empty_endpoint empty_endpoint 2 3 3 packet (second_packet ∷ [])
      first_piece other_pieces ((omega arith, omega arith), ((omega arith, omega arith), tt))
      (omega arith) no_stream no_stream no_stream (omega arith, (omega arith, tt)) same_bytes

receive_all-joined_example :
    receive_all new_packet (first_piece ∷ other_pieces)
    ≡ receive new_packet (first_piece ++ joined other_pieces)
receive_all-joined_example = receive_all-joined new_packet first_piece other_pieces

-- Two streams, of which the first has a packet that is not complete.
abbrev busy_endpoint : Endpoint
busy_endpoint = record {
  stream_flows_in = (3, 1) ∷ (7, 2) ∷ [];
  stream_flows_out = [];
  packets = (3, record { buffer = 128 ∷ []; rtp_len = 13 }) ∷ (7, new_packet) ∷ [];
}

stream_incoming_other_example :
    Same 7 (stream_incoming busy_endpoint 3 (96 ∷ 0 ∷ []) true).0 busy_endpoint
stream_incoming_other_example =
    stream_incoming_other busy_endpoint 3 7 (96 ∷ 0 ∷ []) true (λ e. omega arith)

three_known : lookup 3 busy_endpoint.stream_flows_in ≡ some 1
unfolding lookup
three_known = refl

stream_incoming_complete_example : Gone 3 (stream_incoming busy_endpoint 3 (96 ∷ 0 ∷ []) true).0
stream_incoming_complete_example =
    stream_incoming_complete busy_endpoint 3 (96 ∷ 0 ∷ []) (omega arith)
      (inl (λ e. let q : some 1 ≡ none = sym three_known ∙ e in cc))

datagram_incoming-send_on_datagram_example :
    (all : Bytes) × (send_on_datagram 70000 packet ≡ on_datagram all)
    × (datagram_incoming all ≡ (70000, packet) ∷ [])
datagram_incoming-send_on_datagram_example =
    datagram_incoming-send_on_datagram 70000 packet (omega arith) (omega arith, omega arith)

-- As many zeros.
abbrev zeros : ℕ → Bytes
zeros ℕ.zero = []
zeros (ℕ.suc n) = 0 ∷ zeros n

length-zeros : (n : ℕ) → length (zeros n) ≡ n
length-zeros ℕ.zero = refl
length-zeros (ℕ.suc n) = omega (arith, length-zeros n)

zeroed-IsValid : IsValid zeroed
zeroed-IsValid = record { within = omega arith; allocated = refl; null_empty = λ e. refl }

append-contents_example :
    IsValid (append zeros zeroed packet).0
    × (contents (append zeros zeroed packet).0 ≡ Contents.append (contents zeroed) packet)
    × ((append zeros zeroed packet).1 ≡ true)
append-contents_example =
    append-contents zeros length-zeros zeroed packet zeroed-IsValid (omega arith)

abbrev held : Buffer
held = record { bytes = some packet; size = 13; len = 12 }

held-IsValid : IsValid held
held-IsValid = record { within = omega arith; allocated = refl; null_empty = λ e. cc }

shift-contents_example :
    IsValid (shift held 4) × (contents (shift held 4) ≡ Contents.shift (contents held) 4)
shift-contents_example = shift-contents held 4 held-IsValid
