-- ===== src/Moq/RequestId/Limit.antt =====
-- The limit of request identifiers, as one endpoint announces it and the other learns it.
use imquic.Base.{
  ℕ, ◌%◌, ◌^◌, ◌≤◌, ◌<◌, ◌≡◌, ◌≢◌, arith, true, false, none, some, [], if◌then◌else◌, append-nil,
}
use imquic.Wire.Moqint.{version_16, write_moqint}
use imquic.Wire.Moqint.Input.{read_moqint_used}
use imquic.Wire.Moqint.RoundTrip.{
  read_moqint-write_moqint, max_moqint, moqint_size, moqint_size-le, moqint_size_pos,
}
use imquic.Moq.RequestId.{
  MoqContext, new_connection, send_request, receive_request, get_next_request_id,
  set_max_request_id, parse_max_request_id, accepted, apply_setup, setup_max_option,
}

-- In version 16, where one endpoint raises its limit to at most 2 ^ 62 and the other's limit is lower, the
-- other parses the message that carries it, all of it, and then has that limit.
pub parse-set_max_request_id :
    (r r' s : MoqContext) (max n : ℕ)
    → r.version ≤ version_16
    → s.version ≡ r.version
    → max ≤ 2 ^ 62
    → s.max_request_id < max
    → set_max_request_id r max ≡ some (r', n)
    → parse_max_request_id s (write_moqint r.version n 20)
      ≡ accepted (record s { max_request_id = r'.local_max_request_id }) (moqint_size r.version n)
unfolding set_max_request_id parse_max_request_id
parse-set_max_request_id r r' s max n old same fits lower e =
    let small : n ≤ max_moqint r.version = ground arith in
    let room : moqint_size r.version n ≤ 20 = omega (arith, moqint_size-le r.version n) in
    let read = rw append-nil at (read_moqint-write_moqint r.version n 20 [] small room) in
    let used = read_moqint_used r.version (write_moqint r.version n 20) in
    rw same (ground (arith, read, used, moqint_size_pos r.version n))

-- In version 16, where the server has set no limit, the setup lets the client send its first request, and
-- the server refuses it.
pub first_request_refused :
    (version : ℕ) (client server : MoqContext)
    → version ≤ version_16
    → server ≡ new_connection true version
    → client ≡ apply_setup (new_connection false version) (setup_max_option server)
    → (send_request client (get_next_request_id client) ≢ none)
      × (receive_request server (get_next_request_id client) ≡ none)
unfolding new_connection apply_setup setup_max_option send_request receive_request
first_request_refused version client server old es ec = ground arith

-- In version 16 the sender may skip identifiers, and the receiver refuses what comes after the gap: an
-- identifier above the next one, of the right parity and below the limit.
pub skipped_request_refused :
    (sender receiver : MoqContext) (id : ℕ)
    → sender.version ≤ version_16
    → receiver.version ≡ sender.version
    → sender.next_request_id ≡ receiver.expected_request_id
    → sender.next_request_id < id
    → id % 2 ≡ (if sender.is_server then 1 else 0)
    → id < sender.max_request_id
    → (send_request sender id ≢ none) × (receive_request receiver id ≡ none)
unfolding send_request receive_request
skipped_request_refused sender receiver id old same at above parity below = ground arith
