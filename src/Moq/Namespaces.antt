-- ===== src/Moq/Namespaces.antt =====
-- The tuples of a track namespace inside a message (moq.c): the macros `IMQUIC_MOQ_PARSE_NAMESPACES` and
-- `IMQUIC_MOQ_ADD_NAMESPACES`, on the bytes from `offset` on. A namespace is the list of its fields.
pub mod RoundTrip
use imquic.Base.{
  ℕ, zero, suc, ◌+◌, ◌-◌, ◌≤◌, ◌<◌, Bool, true, false, not, ◌&&◌, ◌||◌, List, [], ◌∷◌, ◌++◌, Option,
  none, some, Bytes, length, take, drop, ltb, leb, ◌==◌, if◌then◌else◌,
}
use imquic.Wire.Moqint.{read_moqint, write_moqint}
use imquic.Wire.Writer.{Added, rejected, overrun, stored, then_stored}

-- `imquic_moq_message_type`, those whose namespace may have no field.
abbrev pub request_error : ℕ
request_error = 0x5

abbrev pub namespace : ℕ
namespace = 0x8

abbrev pub namespace_done : ℕ
namespace_done = 0xe

abbrev pub subscribe_namespace : ℕ
subscribe_namespace = 0x50

abbrev pub subscribe_tracks : ℕ
subscribe_tracks = 0x51

abbrev pub may_be_empty : (request : ℕ) → Bool
may_be_empty request =
    request == subscribe_namespace
    || request == subscribe_tracks
    || request == namespace
    || request == namespace_done
    || request == request_error

-- What a macro of a parser comes to: it returns 0, without an error or with PROTOCOL_VIOLATION, or it goes on
-- with what it parsed and the bytes that follow.
pub data FieldsParsed : Type 0 where
  broken : FieldsParsed
  protocol_violation : FieldsParsed
  fields : (tns : List Bytes) (rest : Bytes) → FieldsParsed

abbrev pub cons_field : Bytes → FieldsParsed → FieldsParsed
cons_field tn broken = broken
cons_field tn protocol_violation = protocol_violation
cons_field tn (fields tns rest) = fields (tn ∷ tns) rest

-- The loop, with `n` fields left.
unfoldable pub parse_fields : (version : ℕ) (last : Bool) (n : ℕ) → Bytes → FieldsParsed
parse_fields version last zero bytes = fields [] bytes
parse_fields version last (suc n) bytes =
    let (tns_len, len) = read_moqint version bytes in
    let left = drop len bytes in
    let more = parse_fields version last n (drop tns_len left) in
    if length bytes == 0
    then broken
    else if len == 0 || leb (length bytes) len
    then broken
    else if tns_len == 0
    then protocol_violation
    else if (if last && n == 0 then ltb (length left) tns_len else leb (length left) tns_len)
    then broken
    else cons_field (take tns_len left) more

abbrev pub total_len : List Bytes → ℕ
total_len [] = 0
total_len (tn ∷ tns) = length tn + total_len tns

abbrev pub check_total : FieldsParsed → FieldsParsed
check_total broken = broken
check_total protocol_violation = protocol_violation
check_total (fields tns rest) =
    if ltb 4096 (total_len tns) then protocol_violation else fields tns rest

unfoldable pub parse_namespaces : (version request : ℕ) (last : Bool) → Bytes → FieldsParsed
unfolding parse_fields
parse_namespaces version request last bytes =
    let (tns_num, len) = read_moqint version bytes in
    if len == 0 || ltb 0 tns_num && leb (length bytes) len
    then broken
    else if tns_num == 0 && not (may_be_empty request) || ltb 32 tns_num
    then protocol_violation
    else check_total (parse_fields version last tns_num (drop len bytes))

-- The second loop, with `room` bytes left of the buffer.
unfoldable pub add_fields : (version : ℕ) → List Bytes → (room : ℕ) → Added
add_fields version [] room = stored []
add_fields version (tn ∷ tns) room =
    let len = write_moqint version (length tn) room in
    let more = add_fields version tns (room - (length len + length tn)) in
    if ltb room (length len + length tn) then overrun else then_stored (len ++ tn) more

unfoldable pub add_namespaces : (version request : ℕ) → List Bytes → (room : ℕ) → Added
unfolding add_fields
add_namespaces version request tns room =
    let num = write_moqint version (length tns) room in
    if length tns == 0 && not (may_be_empty request) || ltb 32 (length tns)
    then rejected
    else then_stored num (add_fields version tns (room - length num))
