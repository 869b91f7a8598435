-- ===== src/Moq/Objects/Receive.antt =====
-- The stream of data messages in `imquic_moq_parse_message` (moq.c): the bytes that arrive are put behind those in the
-- stream's buffer, and objects are parsed until the buffer is empty or more bytes are needed.
use imquic.Base.{
  ℕ, zero, suc, Bool, ◌||◌, List, [], ◌∷◌, ◌++◌, Bytes, length, ltb, ◌==◌, if◌then◌else◌,
}
use imquic.Wire.Reader.{Parse, broken, protocol_violation, overread, parsed}
use imquic.Moq.SubgroupType.{fetch_header, padding_stream, is_data_message_type_valid}
use imquic.Moq.Objects.{Object, MoqStream}
use imquic.Moq.Objects.Parse.{parse_subgroup_header_object}
use imquic.Moq.Objects.Fetch.{parse_fetch_header_object}

-- The stream as it waits for bytes and the objects that the application got, or only those where the connection is
-- closed or a parser has read past the end of its bytes.
pub data Received : Type 0 where
  waiting : MoqStream → List Object → Received
  closed : List Object → Received
  out_of_bounds : List Object → Received

abbrev pub cons_object : Object → Received → Received
cons_object o (waiting stream os) = waiting stream (o ∷ os)
cons_object o (closed os) = closed (o ∷ os)
cons_object o (out_of_bounds os) = out_of_bounds (o ∷ os)

-- A loop over any parser of objects, for `fuel` objects at most.
module _ (parse_object : MoqStream → Parse (Object × MoqStream)) where
  abbrev pub next_object :
      MoqStream → Parse (Object × MoqStream) → (MoqStream → Received) → Received
  next_object stream broken more = waiting stream []
  next_object stream protocol_violation more = closed []
  next_object stream overread more = out_of_bounds []
  next_object stream (parsed (o, next)) more = cons_object o (more next)

  unfoldable pub object_loop : (fuel : ℕ) → MoqStream → Received
  object_loop zero stream = waiting stream []
  object_loop (suc fuel) stream =
      if length stream.buffer == 0
      then waiting stream []
      else next_object stream (parse_object stream) (object_loop fuel)

  unfoldable pub append_and_parse : MoqStream → Bytes → Received
  append_and_parse stream bytes =
      let buffer = stream.buffer ++ bytes in
      object_loop (length buffer) (record stream { buffer = buffer })

-- `imquic_moq_parse_padding_stream`, which drops what it gets.
unfoldable pub receive_padding : (complete : Bool) → MoqStream → Bytes → Received
receive_padding complete stream bytes =
    let buffer = stream.buffer ++ bytes in
    if ltb (length buffer) 2
    then waiting (record stream { buffer = buffer }) []
    else waiting (record stream { buffer = []; closed = stream.closed || complete }) []

-- A data stream, whose header has been parsed.
unfoldable pub receive : (version : ℕ) (complete : Bool) → MoqStream → Bytes → Received
receive version complete stream bytes =
    if length bytes == 0
    then waiting stream []
    else if stream.type == fetch_header
    then append_and_parse (parse_fetch_header_object version complete) stream bytes
    else if stream.type == padding_stream
    then receive_padding complete stream bytes
    else if is_data_message_type_valid version stream.type
    then append_and_parse (parse_subgroup_header_object version complete) stream bytes
    else waiting (record stream { buffer = stream.buffer ++ bytes }) []
