-- ===== src/Moq/Objects/Parse.antt =====
-- The parsers of objects (moq.c): `imquic_moq_parse_object_datagram`, `imquic_moq_parse_object_datagram_status`,
-- `imquic_moq_parse_subgroup_header`, `imquic_moq_parse_subgroup_header_object` and
-- `imquic_moq_parse_fetch_header_object`. What they hand to the application is their result. `broken` stands for the
-- 0 and the -1 of bytes that do not suffice.
use imquic.Base.{
  ℕ, suc, ◌+◌, ◌%◌, Bool, true, false, not, ◌&&◌, ◌||◌, List, [], Bytes, u64, length, ltb, leb,
  ◌==◌, if◌then◌else◌,
}
use imquic.Wire.Moqint.{read_moqint}
use imquic.Wire.Reader.{
  Parse, broken, protocol_violation, overread, parsed, Reader, ◌>>=◌, ◌>>◌, pure, check_protocol,
  if_there, number_before, number, byte, data_before, data_of, remaining,
}
use imquic.Moq.DatagramType.{DatagramFlags, datagram_message_type_parse}
use imquic.Moq.SubgroupType.{
  SubgroupFlags, use_datagram, use_subgroup, data_message_type_to_subgroup_header,
}
use imquic.Moq.Properties.{Property, parse_properties}
use imquic.Moq.Objects.{Object, MoqStream, no_flags, end_of_track}

-- The list of properties, which is empty where they are broken.
abbrev pub listed : Parse (List Property) → Parse (List Property)
listed broken = parsed []
listed protocol_violation = protocol_violation
listed overread = overread
listed (parsed ps) = parsed ps

abbrev pub with_rest {ℓ} : {A : Type ℓ} → Bytes → Parse A → Parse (A × Bytes)
with_rest rest broken = broken
with_rest rest protocol_violation = protocol_violation
with_rest rest overread = overread
with_rest rest (parsed a) = parsed (a, rest)

unfoldable pub known_properties : (version : ℕ) → (block : Bytes) → Reader (List Property)
known_properties version block bytes = with_rest bytes (listed (parse_properties version block))

-- The block of properties, without its length.
unfoldable pub property_block : (version : ℕ) → Reader Bytes
property_block version = do prop_len ← number_before version; data_before prop_len

-- In a datagram, a block without bytes violates the protocol.
unfoldable pub datagram_block : (version : ℕ) → Reader Bytes
datagram_block version = do
  prop_len ← number_before version
  check_protocol (not (prop_len == 0))
  data_before prop_len

-- The fields that both kinds of datagrams start with, and what follows from them. What is read before the object's
-- identifier stands for one that is left out.
unfoldable pub datagram_fields_of :
    {A : Type 0} (version : ℕ) (flags : DatagramFlags) (no_id : Reader ℕ)
    → (end : (track_alias group_id object_id priority : ℕ) (block : Bytes) → Reader A) → Reader A
datagram_fields_of version flags no_id end = do
  track_alias ← number_before version
  group_id ← number_before version
  left_out ← no_id
  object_id ← if_there flags.oid left_out (number_before version)
  priority ← if_there flags.priority 0 byte
  block ← if_there flags.prop [] (datagram_block version)
  end track_alias group_id object_id priority block

abbrev pub datagram_object :
    (track_alias group_id object_id priority object_status : ℕ) (payload : Bytes)
    → List Property
    → Object
datagram_object track_alias group_id object_id priority object_status payload properties = record {
  request_id = 0;
  track_alias = track_alias;
  group_id = group_id;
  subgroup_id = 0;
  object_id = object_id;
  object_status = object_status;
  priority = priority;
  payload = payload;
  properties = properties;
  delivery = use_datagram;
  first_of_subgroup = false;
  end_of_stream = false;
}

unfoldable pub datagram_fields : (version : ℕ) (flags : DatagramFlags) → Reader Object
datagram_fields version flags =
    datagram_fields_of version flags (pure 0) (λ track_alias group_id object_id priority block. (do
      properties ← known_properties version block
      payload ← remaining
      pure (datagram_object track_alias group_id object_id priority 0 payload properties)))

unfoldable pub parse_object_datagram : (version dtype : ℕ) → Reader Object
parse_object_datagram version dtype bytes =
    if ltb (length bytes) 5
    then broken
    else datagram_fields version (datagram_message_type_parse dtype).0 bytes

-- `object_id = imquic_read_moqint(…)`, which the type's flag does not guard: nothing is taken of the bytes.
unfoldable pub peeked : (version : ℕ) → Reader ℕ
peeked version bytes = parsed ((read_moqint version bytes).0, bytes)

unfoldable pub status_fields : (version : ℕ) (flags : DatagramFlags) → Reader Object
status_fields version flags =
    datagram_fields_of version flags (peeked version)
      (λ track_alias group_id object_id priority block. (do
        properties ← known_properties version block
        object_status ← number version
        check_protocol (leb object_status end_of_track)
        pure (datagram_object track_alias group_id object_id priority object_status [] properties)))

unfoldable pub parse_object_datagram_status : (version dtype : ℕ) → Reader Object
parse_object_datagram_status version dtype bytes =
    if ltb (length bytes) 5
    then broken
    else status_fields version (datagram_message_type_parse dtype).0 bytes

-- The stream is the one whose type has been read.
unfoldable pub subgroup_header_fields :
    (version : ℕ) (flags : SubgroupFlags) (violation : Bool) → MoqStream → Reader MoqStream
subgroup_header_fields version flags violation stream = do
  track_alias ← number_before version
  group_id ← number_before version
  check_protocol (not violation)
  subgroup_id ← if_there flags.subgroup 0 (number_before version)
  priority ← if_there flags.priority 0 byte
  pure (record stream {
    request_id = 0;
    track_alias = track_alias;
    group_id = group_id;
    subgroup_id = subgroup_id;
    priority = priority;
    first_of_subgroup = flags.first_object;
    buffer = [];
  })

unfoldable pub parse_subgroup_header : (version : ℕ) → MoqStream → Reader MoqStream
parse_subgroup_header version stream bytes =
    let (flags, violation) =
      data_message_type_to_subgroup_header version stream.type (no_flags, false) in
    if ltb (length bytes) 4
    then broken
    else subgroup_header_fields version flags violation stream bytes

-- What the bytes of an object on a subgroup's stream say.
pub record ObjectFields : Type 0 where
  pub object_id : ℕ
  pub block : Bytes
  pub object_status : ℕ
  pub payload : Bytes

unfoldable pub object_payload : (version : ℕ) → Reader (ℕ × Bytes)
object_payload version = do
  p_len ← number_before version
  object_status ← if_there (p_len == 0) 0 (number version)
  payload ← data_of p_len
  pure (object_status, payload)

unfoldable pub subgroup_object_fields : (version : ℕ) (prop : Bool) → Reader ObjectFields
subgroup_object_fields version prop = do
  object_id ← number_before version
  block ← if_there prop [] (property_block version)
  content ← object_payload version
  pure (record {
    object_id = object_id;
    block = block;
    object_status = content.0;
    payload = content.1;
  })

-- The identifier is a difference to the one before; the first may name the subgroup.
unfoldable pub next_object_id : MoqStream → (delta : ℕ) → ℕ
next_object_id stream delta =
    let id = (delta + stream.last_object_id) % u64 in
    if stream.got_objects then suc id % u64 else id

abbrev pub after_object : SubgroupFlags → MoqStream → ObjectFields → MoqStream
after_object flags stream fields = record stream {
  subgroup_id =
      if not stream.got_objects && not flags.subgroup && not flags.sgid0
      then fields.object_id
      else stream.subgroup_id;
  got_objects = true;
  last_object_id = next_object_id stream fields.object_id;
}

abbrev pub subgroup_object : (complete : Bool) → MoqStream → ObjectFields → List Property → Object
subgroup_object complete stream fields properties = record {
  request_id = stream.request_id;
  track_alias = stream.track_alias;
  group_id = stream.group_id;
  subgroup_id = stream.subgroup_id;
  object_id = stream.last_object_id;
  object_status = fields.object_status;
  priority = stream.priority;
  payload = fields.payload;
  properties = properties;
  delivery = use_subgroup;
  first_of_subgroup = stream.first_of_subgroup;
  end_of_stream = complete;
}

abbrev pub map_parse {ℓ κ} : {A : Type ℓ} {B : Type κ} → (A → B) → Parse A → Parse B
map_parse f broken = broken
map_parse f protocol_violation = protocol_violation
map_parse f overread = overread
map_parse f (parsed a) = parsed (f a)

-- The object and the stream with the bytes that are left: the last lines of the parser.
unfoldable pub deliver_subgroup_object :
    (version : ℕ) (complete : Bool) (flags : SubgroupFlags)
    → MoqStream
    → Parse (ObjectFields × Bytes)
    → Parse (Object × MoqStream)
deliver_subgroup_object version complete flags stream broken = broken
deliver_subgroup_object version complete flags stream protocol_violation = protocol_violation
deliver_subgroup_object version complete flags stream overread = overread
deliver_subgroup_object version complete flags stream (parsed (fields, rest)) =
    let next = after_object flags stream fields in
    map_parse
      (λ properties. (
        subgroup_object complete next fields properties,
        record next { closed = next.closed || complete; buffer = rest },
      ))
      (listed (parse_properties version fields.block))

abbrev pub flags_of : (version : ℕ) → MoqStream → SubgroupFlags
flags_of version stream =
    (data_message_type_to_subgroup_header version stream.type (no_flags, false)).0

unfoldable pub parse_subgroup_header_object :
    (version : ℕ) (complete : Bool) → MoqStream → Parse (Object × MoqStream)
parse_subgroup_header_object version complete stream =
    let flags = flags_of version stream in
    if ltb (length stream.buffer) 2
    then broken
    else deliver_subgroup_object version complete flags stream
        (subgroup_object_fields version flags.prop stream.buffer)
