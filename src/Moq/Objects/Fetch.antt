-- ===== src/Moq/Objects/Fetch.antt =====
-- An object on the stream of a fetch (moq.c): `imquic_moq_parse_fetch_header_object`. A field that the flags leave
-- out is the one of the object before, or follows from it.
use imquic.Base.{
  ℕ, suc, ◌+◌, ◌-◌, ◌%◌, Bool, true, false, not, ◌&&◌, ◌||◌, List, [], Bytes, u64, length, drop,
  ltb, leb, ◌==◌, if◌then◌else◌,
}
use imquic.Wire.Moqint.{version_18, read_moqint}
use imquic.Wire.Reader.{
  Parse, broken, protocol_violation, overread, parsed, Reader, ◌>>=◌, ◌>>◌, pure, check_protocol,
  if_there, number_before, byte,
}
use imquic.Moq.SubgroupType.{use_fetch}
use imquic.Moq.FetchFlags.{
  FetchSubgroupType, FetchFlags, zero, previous, plus_one, id, parse_fetch_serialization_flags,
}
use imquic.Moq.Properties.{Property, parse_properties}
use imquic.Moq.Objects.{Object, MoqStream}
use imquic.Moq.Objects.Parse.{listed, map_parse, property_block, object_payload}

-- The flags before they are parsed.
abbrev pub before_flags : FetchFlags
before_flags = record {
  subgroup = id;
  oid = false;
  group = false;
  priority = false;
  prop = false;
  datagram = false;
  end_ne_range = false;
  end_uk_range = false;
  violation = false;
}

-- More bytes than the flags take follow them.
unfoldable pub flags_before : (version : ℕ) → Reader ℕ
flags_before version bytes =
    let (flags, len) = read_moqint version bytes in
    if len == 0 || leb (length bytes) len || leb (length bytes - len) len
    then broken
    else parsed (flags, drop len bytes)

-- A field, or what stands for it, which there is from the first object on.
unfoldable pub field_or {ℓ} : {A : Type ℓ} (there got_objects : Bool) → Reader A → A → Reader A
field_or there got_objects field before =
    if there then field else (do check_protocol got_objects; pure before)

unfoldable pub group_from : (version : ℕ) → MoqStream → (number : ℕ) → ℕ
group_from version stream number =
    if leb version_18 version && stream.got_objects
    then (if stream.ascending
        then (number + stream.last_group_id) % u64
        else (stream.last_group_id + u64 - number) % u64)
    else number

abbrev pub subgroup_from : FetchSubgroupType → MoqStream → ℕ
subgroup_from zero stream = 0
subgroup_from previous stream = stream.subgroup_id
subgroup_from plus_one stream = suc stream.subgroup_id % u64
subgroup_from id stream = 0

abbrev pub is_id : FetchSubgroupType → Bool
is_id zero = false
is_id previous = false
is_id plus_one = false
is_id id = true

unfoldable pub object_from : (version : ℕ) (group : Bool) → MoqStream → (number : ℕ) → ℕ
object_from version group stream number =
    if leb version_18 version && not group then (number + stream.last_object_id) % u64 else number

pub record FetchFields : Type 0 where
  pub group_id : ℕ
  pub subgroup_id : ℕ
  pub object_id : ℕ
  pub priority : ℕ
  pub block : Bytes
  pub object_status : ℕ
  pub payload : Bytes

unfoldable pub flagged_fields : (version : ℕ) → FetchFlags → MoqStream → Reader FetchFields
flagged_fields version f stream = do
  group ← field_or f.group stream.got_objects (number_before version) 0
  let group_id = if f.group then group_from version stream group else stream.last_group_id
  subgroup_id ←
      field_or (is_id f.subgroup) stream.got_objects (number_before version)
        (subgroup_from f.subgroup stream)
  object ← field_or f.oid stream.got_objects (number_before version) 0
  let object_id =
      if f.oid then object_from version f.group stream object else suc stream.last_object_id % u64
  priority ← field_or f.priority stream.got_objects byte stream.last_priority
  block ← if_there f.prop [] (property_block version)
  content ← object_payload version
  pure (record {
    group_id = group_id;
    subgroup_id = subgroup_id;
    object_id = object_id;
    priority = priority;
    block = block;
    object_status = content.0;
    payload = content.1;
  })

unfoldable pub fetch_object_fields : (version : ℕ) → MoqStream → Reader FetchFields
fetch_object_fields version stream = do
  flags ← flags_before version
  flagged_fields version (parse_fetch_serialization_flags flags before_flags) stream

abbrev pub after_fetch_object : MoqStream → FetchFields → MoqStream
after_fetch_object stream fields = record stream {
  got_objects = true;
  last_group_id = fields.group_id;
  last_subgroup_id = fields.subgroup_id;
  last_object_id = fields.object_id;
  last_priority = fields.priority;
}

abbrev pub fetch_object : (complete : Bool) → MoqStream → FetchFields → List Property → Object
fetch_object complete stream fields properties = record {
  request_id = stream.request_id;
  track_alias = stream.track_alias;
  group_id = fields.group_id;
  subgroup_id = fields.subgroup_id;
  object_id = fields.object_id;
  object_status = fields.object_status;
  priority = fields.priority;
  payload = fields.payload;
  properties = properties;
  delivery = use_fetch;
  first_of_subgroup = false;
  end_of_stream = complete;
}

unfoldable pub deliver_fetch_object :
    (complete : Bool) (version : ℕ)
    → MoqStream
    → Parse (FetchFields × Bytes)
    → Parse (Object × MoqStream)
deliver_fetch_object complete version stream broken = broken
deliver_fetch_object complete version stream protocol_violation = protocol_violation
deliver_fetch_object complete version stream overread = overread
deliver_fetch_object complete version stream (parsed (fields, rest)) =
    let next = after_fetch_object stream fields in
    map_parse
      (λ properties. (
        fetch_object complete stream fields properties,
        record next { closed = next.closed || complete; buffer = rest },
      ))
      (listed (parse_properties version fields.block))

unfoldable pub parse_fetch_header_object :
    (version : ℕ) (complete : Bool) → MoqStream → Parse (Object × MoqStream)
parse_fetch_header_object version complete stream =
    if ltb (length stream.buffer) 2
    then broken
    else deliver_fetch_object complete version stream
        (fetch_object_fields version stream stream.buffer)
