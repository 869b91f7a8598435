-- ===== src/Moq/RequestId.antt =====
-- Request identifiers of a MoQ session (moq.c): `moq_is_request_id_valid`, what `imquic_moq_new_connection`
-- sets up for them, the check and update in `imquic_moq_publish_namespace` and in
-- `imquic_moq_parse_publish_namespace` (the other requests do the same),
-- `imquic_moq_get_next_request_id`, `imquic_moq_set_max_request_id` and `imquic_moq_parse_max_request_id`.
pub mod Order
pub mod Limit
use imquic.Base.{
  ℕ, suc, ◌+◌, ◌-◌, ◌%◌, ◌^◌, ◌≤◌, ◌<◌, Bool, true, false, not, ◌&&◌, ◌||◌, Option, none, some, ltb,
  leb, ◌==◌, if◌then◌else◌, u64, Bytes, length,
}
use imquic.Wire.Moqint.{version_17, read_moqint}

-- The fields of `imquic_moq_context` that identifiers go by.
pub record MoqContext : Type 0 where
  pub is_server : Bool
  pub version : ℕ
  pub next_request_id : ℕ
  pub expected_request_id : ℕ
  pub max_request_id : ℕ
  pub local_max_request_id : ℕ

abbrev pub request_id_increment : ℕ
request_id_increment = 2

-- `g_malloc0`, then the first identifiers.
unfoldable pub new_connection : (is_server : Bool) (version : ℕ) → MoqContext
new_connection is_server version = record {
  is_server = is_server;
  version = version;
  next_request_id = if is_server then 1 else 0;
  expected_request_id = if is_server then 0 else 1;
  max_request_id = 0;
  local_max_request_id = 0;
}

unfoldable pub is_request_id_valid : MoqContext → (request_id : ℕ) (outgoing : Bool) → Bool
is_request_id_valid moq request_id outgoing =
    if outgoing
    then (if moq.is_server && request_id % 2 == 0 || not moq.is_server && not (request_id % 2 == 0)
        then false
        else if leb version_17 moq.version
        then true
        else if ltb request_id moq.next_request_id
        then false
        else if leb moq.max_request_id request_id
        then false
        else true)
    else if moq.is_server && not (request_id % 2 == 0) || not moq.is_server && request_id % 2 == 0
    then false
    else if leb version_17 moq.version
    then true
    else if not (request_id == moq.expected_request_id)
    then false
    else if leb moq.local_max_request_id request_id
    then false
    else true

-- `none` is the refusal of an identifier, -1.
unfoldable pub send_request : MoqContext → (request_id : ℕ) → Option MoqContext
unfolding is_request_id_valid
send_request moq request_id =
    if not (is_request_id_valid moq request_id true)
    then none
    else some (record moq { next_request_id = (request_id + request_id_increment) % u64 })

-- `none` is the error INVALID_REQUEST_ID, which closes the session.
unfoldable pub receive_request : MoqContext → (request_id : ℕ) → Option MoqContext
unfolding is_request_id_valid
receive_request moq request_id =
    if not (is_request_id_valid moq request_id false)
    then none
    else some (record moq { expected_request_id = (request_id + request_id_increment) % u64 })

abbrev pub get_next_request_id : MoqContext → ℕ
get_next_request_id moq = moq.next_request_id

-- The new state and the number that the message MAX_REQUEST_ID carries; `none` is the refusal, -1.
unfoldable pub set_max_request_id : MoqContext → (max_request_id : ℕ) → Option (MoqContext × ℕ)
set_max_request_id moq max_request_id =
    if leb version_17 moq.version
      || max_request_id == 0
      || leb max_request_id moq.local_max_request_id
    then none
    else some (record moq { local_max_request_id = max_request_id }, max_request_id - 1)

-- What parsing MAX_REQUEST_ID answers: an error code of the protocol, too little data (0 and no state
-- change), or the new state and the number of bytes parsed.
pub data MaxParsed : Type 0 where
  protocol_violation : MaxParsed
  broken : MaxParsed
  accepted : MoqContext → ℕ → MaxParsed

unfoldable pub parse_max_request_id : MoqContext → Bytes → MaxParsed
parse_max_request_id moq bytes =
    let (read, used) = read_moqint moq.version bytes in
    let max = (read + 1) % u64 in
    if leb version_17 moq.version
    then protocol_violation
    else if ltb (length bytes) 1
    then broken
    else if used == 0 || ltb (length bytes) used
    then broken
    else if leb max moq.max_request_id
    then protocol_violation
    else accepted (record moq { max_request_id = max }) used

-- What the setup message of the peer does to the limit: `imquic_moq_parse_client_setup` and
-- `imquic_moq_parse_server_setup` take the option MAX_REQUEST_ID, if it is there, and make 1 of 0.
unfoldable pub apply_setup : MoqContext → (max_option : Option ℕ) → MoqContext
apply_setup moq max_option =
    let max : ℕ = elim max_option [ some max ↦ max | none ↦ moq.max_request_id ] in
    record moq { max_request_id = if max == 0 then 1 else max }

-- The option is sent where a limit has been set.
unfoldable pub setup_max_option : MoqContext → Option ℕ
setup_max_option moq =
    if ltb 0 moq.local_max_request_id then some moq.local_max_request_id else none
