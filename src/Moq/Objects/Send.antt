-- ===== src/Moq/Objects/Send.antt =====
-- The builders of objects (moq.c): `imquic_moq_add_object_datagram`, `imquic_moq_add_object_datagram_status`,
-- `imquic_moq_add_subgroup_header`, `imquic_moq_add_subgroup_header_object`, `imquic_moq_add_fetch_header_object`,
-- `imquic_moq_add_padding` and `imquic_moq_add_properties`, on a buffer of `room` bytes. `rejected` stands for the 0 of a
-- refusal. The properties are the block that was built of them.
use imquic.Base.{
  ℕ, zero, suc, ◌+◌, ◌-◌, ◌%◌, Bool, true, false, not, ◌&&◌, ◌||◌, [], ◌∷◌, Bytes, u64, length, ltb,
  leb, ◌==◌, if◌then◌else◌,
}
use imquic.Wire.Moqint.{version_18}
use imquic.Wire.Writer.{
  Added, rejected, stored, Writer, ◌>>◌, when, put_number, put_bytes, put_byte,
}
use imquic.Moq.DatagramType.{DatagramFlags, datagram_message_type_return}
use imquic.Moq.SubgroupType.{padding_stream}
use imquic.Moq.FetchFlags.{parse_fetch_serialization_flags}
use imquic.Moq.Objects.{Object, MoqStream}
use imquic.Moq.Objects.Parse.{flags_of}
use imquic.Moq.Objects.Fetch.{before_flags, is_id}

unfoldable pub guarded : Writer → Writer
guarded w room = if ltb room 1 then rejected else w room

unfoldable pub add_properties : (version : ℕ) (properties : Bytes) → Writer
add_properties version properties room =
    if ltb room 1
    then stored []
    else (do put_number version (length properties); put_bytes properties) room

abbrev pub datagram_flags : (payload : Bool) → Object → (properties : Bytes) → DatagramFlags
datagram_flags payload o properties = record {
  payload = payload;
  prop = ltb 0 (length properties);
  eog = false;
  oid = not (o.object_id == 0);
  priority = true;
}

-- What the two kinds of datagrams start with, and what ends them.
unfoldable pub datagram_fields_then :
    (version : ℕ) (payload : Bool) → Object → (properties : Bytes) → Writer → Writer
datagram_fields_then version payload o properties end =
    let flags = datagram_flags payload o properties in
    do
      put_number version (datagram_message_type_return flags)
      put_number version o.track_alias
      put_number version o.group_id
      when flags.oid (put_number version o.object_id)
      put_byte o.priority
      when flags.prop (add_properties version properties)
      end

unfoldable pub add_object_datagram : (version : ℕ) → Object → (properties : Bytes) → Writer
add_object_datagram version o properties =
    guarded (datagram_fields_then version true o properties (put_bytes o.payload))

unfoldable pub add_object_datagram_status : (version : ℕ) → Object → (properties : Bytes) → Writer
add_object_datagram_status version o properties =
    guarded (datagram_fields_then version false o properties (put_number version o.object_status))

unfoldable pub add_subgroup_header : (version : ℕ) → MoqStream → Object → Writer
add_subgroup_header version stream o =
    let flags = flags_of version stream in
    guarded (do
      put_number version stream.type
      put_number version o.track_alias
      put_number version o.group_id
      when flags.subgroup (put_number version o.subgroup_id)
      when flags.priority (put_byte o.priority))

-- The length of the payload, and the payload or else the status.
unfoldable pub add_payload : (version object_status : ℕ) (payload : Bytes) → Writer
add_payload version object_status payload = do
  put_number version (length payload)
  when (length payload == 0) (put_number version object_status)
  put_bytes payload

unfoldable pub add_subgroup_header_object :
    (version : ℕ) → MoqStream → (object_id object_status : ℕ) (payload properties : Bytes) → Writer
add_subgroup_header_object version stream object_id object_status payload properties = guarded (do
  put_number version object_id
  when (flags_of version stream).prop (add_properties version properties)
  add_payload version object_status payload)

unfoldable pub add_fetch_header_object :
    (version flags group_id subgroup_id object_id priority object_status : ℕ)
    (payload properties : Bytes)
    → Writer
add_fetch_header_object version flags group_id subgroup_id object_id priority object_status payload
      properties =
    let f = parse_fetch_serialization_flags flags before_flags in
    guarded (do
      put_number version flags
      when f.group (put_number version group_id)
      when (is_id f.subgroup && not f.datagram) (put_number version subgroup_id)
      when f.oid (put_number version object_id)
      when f.priority (put_byte priority)
      when f.prop (add_properties version properties)
      add_payload version object_status payload)

-- `IMQUIC_MOQ_PADDING_DATAGRAM`
abbrev pub padding_datagram : ℕ
padding_datagram = 0x132b3e29

abbrev pub zeros : (n : ℕ) → Bytes
zeros zero = []
zeros (suc n) = 0 ∷ zeros n

unfoldable pub add_padding : (version padding : ℕ) (datagram : Bool) → Writer
add_padding version padding datagram room =
    if ltb room (4 + padding) || ltb version version_18
    then rejected
    else (do
      put_number version (if datagram then padding_datagram else padding_stream)
      put_bytes (zeros padding))
        room

-- `imquic_moq_send_object` on a subgroup's stream, past its header: the object is refused, or the stream knows it and
-- the builder has stored its bytes in a buffer of their size and 100.
pub data Sent : Type 0 where
  refused : Sent
  sent : MoqStream → Added → Sent

abbrev pub is_valid_pkt : Object → Bool
is_valid_pkt o = ltb 0 (length o.payload) || not (o.object_status == 0)

unfoldable pub object_delta : MoqStream → (object_id : ℕ) → ℕ
object_delta stream object_id =
    let delta = (object_id + u64 - stream.last_object_id) % u64 in
    if stream.got_objects then (delta + u64 - 1) % u64 else delta

unfoldable pub send_on_subgroup : (version : ℕ) → MoqStream → Object → (properties : Bytes) → Sent
send_on_subgroup version stream o properties =
    let next = record stream { got_objects = true; last_object_id = o.object_id } in
    let bufsize = length properties + length o.payload + 100 in
    if not (is_valid_pkt o)
    then sent stream (stored [])
    else if stream.got_objects && leb o.object_id stream.last_object_id
    then refused
    else sent next (
        add_subgroup_header_object version stream (object_delta stream o.object_id) o.object_status
          o.payload properties bufsize)
