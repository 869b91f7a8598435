-- ===== src/Moq/Objects/Subgroup.antt =====
-- The parser of objects on a subgroup's stream is one that the loop over a stream can use.
use imquic.Base.{
  ℕ, ◌+◌, ◌≤◌, ◌≡◌, refl, sym, ap, ◌∙◌, arith, inl, inr, Bool, false, List, [], ◌++◌, Bytes, length,
  ltb, ◌==◌, Bool-cases, length-append,
}
use imquic.Wire.Reader.{Parse, broken, protocol_violation, overread, parsed}
use imquic.Wire.Reader.Input.{
  Takes, Takes-fewer, IsSettled, extend, >>=-Takes, >>=-IsSettled, number_before-Takes,
  number_before-IsSettled, number-Takes, number-IsSettled, data_before-Takes, data_before-IsSettled,
  data_of-Takes, data_of-IsSettled, pure-Takes, pure-IsSettled, if_there-Takes, if_there-IsSettled,
}
use imquic.Moq.Properties.{Property, parse_properties}
use imquic.Moq.SubgroupType.{SubgroupFlags}
use imquic.Moq.Objects.{Object, MoqStream}
use imquic.Moq.Objects.Parse.{
  ObjectFields, property_block, object_payload, subgroup_object_fields, listed, map_parse,
  deliver_subgroup_object, flags_of, parse_subgroup_header_object, next_object_id,
}
use imquic.Moq.Objects.Receive.{append_and_parse}
use imquic.Moq.Objects.Chunks.{
  IsObjectParser, extend_stream, extend_object, joined, receive_chunks, receive_chunks-joined,
}

property_block-Takes : (version : ℕ) → Takes (property_block version) 0
unfolding property_block
property_block-Takes version =
    Takes-fewer (>>=-Takes (number_before-Takes version) (λ n. data_before-Takes n))

property_block-IsSettled : (version : ℕ) → IsSettled (property_block version)
unfolding property_block
property_block-IsSettled version =
    >>=-IsSettled (number_before-IsSettled version) (λ n. data_before-IsSettled n)

object_payload-Takes : (version : ℕ) → Takes (object_payload version) 1
unfolding object_payload
object_payload-Takes version = >>=-Takes (number_before-Takes version) (λ p_len.
    >>=-Takes (if_there-Takes (p_len == 0) 0 (number-Takes version))
      (λ status. >>=-Takes (data_of-Takes p_len) (λ payload. pure-Takes _)))

object_payload-IsSettled : (version : ℕ) → IsSettled (object_payload version)
unfolding object_payload
object_payload-IsSettled version = >>=-IsSettled (number_before-IsSettled version) (λ p_len.
    >>=-IsSettled (if_there-IsSettled (p_len == 0) 0 (number-IsSettled version))
      (λ status. >>=-IsSettled (data_of-IsSettled p_len) (λ payload. pure-IsSettled _)))

module _ (version : ℕ) where
  subgroup_object_fields-Takes : (prop : Bool) → Takes (subgroup_object_fields version prop) 2
  unfolding subgroup_object_fields
  subgroup_object_fields-Takes prop = >>=-Takes (number_before-Takes version) (λ id.
      >>=-Takes (if_there-Takes prop _ (property_block-Takes version))
        (λ block. >>=-Takes (object_payload-Takes version) (λ content. pure-Takes _)))

  subgroup_object_fields-IsSettled : (prop : Bool) → IsSettled (subgroup_object_fields version prop)
  unfolding subgroup_object_fields
  subgroup_object_fields-IsSettled prop = >>=-IsSettled (number_before-IsSettled version) (λ id.
      >>=-IsSettled (if_there-IsSettled prop _ (property_block-IsSettled version))
        (λ block. >>=-IsSettled (object_payload-IsSettled version) (λ content. pure-IsSettled _)))

-- The bytes that are left behind an object.
abbrev left_of : Parse (Object × MoqStream) → Bytes
left_of broken = []
left_of protocol_violation = []
left_of overread = []
left_of (parsed (o, next)) = next.buffer

module _ (g : List Property → Object × MoqStream) where
  mapped_left :
      (known : Parse (List Property)) (rest : Bytes) {o : Object} {next : MoqStream}
      → ((ps : List Property) → (g ps).1.buffer ≡ rest)
      → map_parse g known ≡ parsed (o, next)
      → rest ≡ next.buffer
  mapped_left broken rest h e = cc e
  mapped_left protocol_violation rest h e = cc e
  mapped_left overread rest h e = cc e
  mapped_left (parsed ps) rest h e = sym (h ps) ∙ ap left_of e

  mapped_settled :
      (known : Parse (List Property)) (more : Bytes)
      → map_parse (λ ps. ((g ps).0, extend_stream (g ps).1 more)) known
        ≡ extend_object (map_parse g known) more
  mapped_settled broken more = refl
  mapped_settled protocol_violation more = refl
  mapped_settled overread more = refl
  mapped_settled (parsed ps) more = refl

module _ (version : ℕ) (complete : Bool) where
  deliver_left :
      (flags : SubgroupFlags) (stream : MoqStream) (p : Parse (ObjectFields × Bytes)) {o : Object}
      {next : MoqStream}
      → deliver_subgroup_object version complete flags stream p ≡ parsed (o, next)
      → (fields : ObjectFields) × (p ≡ parsed (fields, next.buffer))
  unfolding deliver_subgroup_object
  deliver_left flags stream broken e = cc e
  deliver_left flags stream protocol_violation e = cc e
  deliver_left flags stream overread e = cc e
  deliver_left flags stream (parsed (fields, rest)) e = (
    fields,
    ap (λ t. parsed (fields, t))
        (mapped_left _ (listed (parse_properties version fields.block)) rest (λ ps. refl) e),
  )

  deliver_settled :
      (flags : SubgroupFlags) (stream : MoqStream) (p : Parse (ObjectFields × Bytes)) (more : Bytes)
      → deliver_subgroup_object version complete flags (extend_stream stream more) (extend p more)
        ≡ extend_object (deliver_subgroup_object version complete flags stream p) more
  unfolding deliver_subgroup_object next_object_id
  deliver_settled flags stream broken more = refl
  deliver_settled flags stream protocol_violation more = refl
  deliver_settled flags stream overread more = refl
  deliver_settled flags stream (parsed (fields, rest)) more =
      mapped_settled _ (listed (parse_properties version fields.block)) more

  pub parse_subgroup_header_object-IsObjectParser :
      IsObjectParser (parse_subgroup_header_object version complete)
  unfolding parse_subgroup_header_object
  parse_subgroup_header_object-IsObjectParser = record {
    takes = λ stream {o} {next} h.
        (let flags = flags_of version stream in
          elim (Bool-cases (ltb (length stream.buffer) 2)) [
            | inl t ↦ cc (rw t at h)
            | inr t ↦
                let (fields, e) = deliver_left flags stream _ (rw t at h) in
                let few : 2 + length next.buffer ≤ length stream.buffer =
                  (subgroup_object_fields-Takes version flags.prop).left stream.buffer e in
                omega (arith, few)
          ]);
    settled = λ stream more.
        (let flags = flags_of version stream in
          elim (Bool-cases (ltb (length stream.buffer) 2)) [
            | inl t ↦ inl (rw t refl)
            | inr t ↦
                let u : ltb (length (stream.buffer ++ more)) 2 ≡ false =
                  ground (arith, t, length-append stream.buffer more) in
                elim ((subgroup_object_fields-IsSettled version flags.prop).settled stream.buffer
                  more) [
                    | inl e ↦ inl (rw (t, e) (unfold deliver_subgroup_object in refl))
                    | inr e ↦ inr (rw (u, e, t) (deliver_settled flags stream _ more))
                  ]
          ]);
  }

  -- On the stream of a subgroup, where all bytes arrive with the same `complete`, as those do that come before the end
  -- of the stream, the objects that are delivered, the state of the stream and the bytes that are left do not depend on
  -- how the bytes are split into chunks.
  pub subgroup_chunks :
      (stream : MoqStream) (first : Bytes) (chunks : List Bytes)
      → let parse_object = parse_subgroup_header_object version complete in
        receive_chunks parse_object (append_and_parse parse_object stream first) chunks
        ≡ append_and_parse parse_object stream (first ++ joined chunks)
  subgroup_chunks =
      receive_chunks-joined (parse_subgroup_header_object version complete)
        parse_subgroup_header_object-IsObjectParser
