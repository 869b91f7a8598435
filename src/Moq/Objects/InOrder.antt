-- ===== src/Moq/Objects/InOrder.antt =====
-- The objects that are sent on a subgroup's stream are delivered in order, however the stream's bytes are split.
pub mod Items
use imquic.Base.{
  ℕ, zero, suc, ◌+◌, ◌≤◌, ◌<◌, ◌≡◌, refl, sym, ap, ◌∙◌, arith, inl, inr, Bool, true, false, not,
  ◌&&◌, ◌||◌, List, [], ◌∷◌, ◌++◌, map, All, append-nil, Bytes, u64, length, ltb, leb, ◌==◌,
  if◌then◌else◌, Bool-cases,
}
use imquic.Wire.Moqint.RoundTrip.{max_moqint}
use imquic.Wire.Writer.{stored}
use imquic.Wire.Reader.{Parse, parsed}
use imquic.Moq.Properties.{Property, parse_properties}
use imquic.Moq.SubgroupType.{use_subgroup}
use imquic.Moq.Objects.{Object, MoqStream}
use imquic.Moq.Objects.Parse.{
  subgroup_object_fields, next_object_id, deliver_subgroup_object, flags_of,
  parse_subgroup_header_object,
}
use imquic.Moq.Objects.Receive.{waiting, cons_object, object_loop, append_and_parse}
use imquic.Moq.Objects.Chunks.{then_receive, append_and_parse-append}
use imquic.Moq.Objects.Subgroup.{parse_subgroup_header_object-IsObjectParser}
use imquic.Moq.Objects.Send.{sent, is_valid_pkt, object_delta, send_on_subgroup}
use imquic.Moq.Objects.Datagram.Fields.{IsWritable}
use imquic.Moq.Objects.Encoding.{encoded, encoded-length, object-Stores, fields-Reads}
use imquic.Moq.Objects.InOrder.Items.{
  delivered_status, and_false, not_behind, delta-le, id_back, Item, IsItem, delivered, AreTwins,
  after_item, loop_empty, loop_one, Sends, done, then_sends, Rises,
}

module _ (version : ℕ) (complete : Bool) where
  parse_object : MoqStream → Parse (Object × MoqStream)
  parse_object = parse_subgroup_header_object version complete

  module _ (i : Item) (valid : IsItem version i) (sender stream : MoqStream)
      (twins : AreTwins version sender stream)
      (rises : stream.got_objects ≡ true → stream.last_object_id < i.object.object_id) where
    id_fits : i.object.object_id < u64
    id_fits = let h = valid.writable.object_id in ground (arith, h)

    delta : ℕ
    delta = object_delta stream i.object.object_id

    delta_fits : delta ≤ max_moqint version
    unfolding delta
    delta_fits =
        let h = valid.writable.object_id in
        let less = delta-le stream i.object.object_id id_fits twins.small rises twins.starts in
        omega (arith, h, less)

    bytes : Bytes
    bytes = encoded version i.object i.block valid.writable valid.small delta delta_fits

    one_object :
        parse_object (record stream { buffer = bytes })
        ≡ parsed (delivered complete stream i, after_item complete stream i)
    unfolding parse_object parse_subgroup_header_object deliver_subgroup_object bytes delta
    one_object =
        let t : ltb (length bytes) 2 ≡ false = ground (
          arith,
          encoded-length version i.object i.block valid.writable valid.small delta delta_fits,
        ) in
        let reads =
          (fields-Reads version i.object i.block valid.writable valid.small delta delta_fits
            {rest = []}).reads in
        let read = ap (subgroup_object_fields version true) (sym (append-nil bytes)) ∙ reads in
        let id = id_back stream i.object.object_id id_fits twins.small rises twins.starts in
        let prop = twins.prop in
        let subgroup = twins.subgroup in
        let known = valid.known in
        let id' : next_object_id (record stream { buffer = bytes }) delta ≡ i.object.object_id =
          unfold next_object_id in id in
        rw (t, prop, read, known, subgroup, id', and_false (not stream.got_objects)) refl

    received_one :
        append_and_parse parse_object stream bytes
        ≡ waiting (after_item complete stream i) (delivered complete stream i ∷ [])
    unfolding append_and_parse
    received_one =
        let empty = twins.empty in
        let two =
          encoded-length version i.object i.block valid.writable valid.small delta delta_fits in
        let more : 0 < length bytes = unfold bytes in omega (arith, two) in
        rw empty (
          loop_one parse_object (length bytes) (record stream { buffer = bytes }) more (omega arith)
            one_object refl)

    sent_one :
        send_on_subgroup version sender i.object i.block
        ≡ sent
            (record sender { got_objects = true; last_object_id = i.object.object_id })
            (stored bytes)
    unfolding send_on_subgroup bytes
    sent_one =
        let got = twins.got_objects in
        let last = twins.last_object_id in
        let same : object_delta sender i.object.object_id ≡ delta =
          unfold delta object_delta in rw (got, last) refl in
        let prop : (flags_of version sender).prop ≡ true =
          (let e = twins.type in rw e twins.prop) in
        let put =
          (object-Stores version i.object i.block valid.writable valid.small delta delta_fits sender
              prop).stores
            (length i.block + length i.object.payload + 100) (omega arith) in
        let known = valid.valid in
        let t : (sender.got_objects && leb i.object.object_id sender.last_object_id) ≡ false =
          rw (got, last)
            (not_behind stream.got_objects i.object.object_id stream.last_object_id rises) in
        rw (known, t, same, put) refl

    twins_after :
        AreTwins version
          (record sender { got_objects = true; last_object_id = i.object.object_id })
          (after_item complete stream i)
    twins_after = record {
      type = twins.type;
      got_objects = refl;
      last_object_id = refl;
      small = id_fits;
      starts = λ e. cc e;
      empty = refl;
      prop = twins.prop;
      subgroup = twins.subgroup;
    }

  -- Valid objects whose identifiers rise are sent on the stream of a subgroup, and once the bytes of all have arrived on a
  -- stream that knows of the same objects, each has been delivered, in order, and no byte is left.
  pub subgroup_in_order :
      (items : List Item) (sender stream : MoqStream)
      → AreTwins version sender stream
      → All (IsItem version) items
      → Rises stream.got_objects stream.last_object_id items
      → (last next : MoqStream) × (bytes : Bytes) × Sends version sender items last bytes
        × (append_and_parse (parse_subgroup_header_object version complete) stream bytes
            ≡ waiting next (map (delivered complete stream) items))
        × (next.buffer ≡ [])
  unfolding parse_object
  subgroup_in_order [] sender stream twins h r =
      let empty = twins.empty in
      (
        sender,
        record stream { buffer = [] },
        [],
        done,
        unfold append_and_parse in rw empty (loop_empty _ 0 (record stream { buffer = [] }) refl),
        refl,
      )
  subgroup_in_order (i ∷ items) sender stream twins (hi, h) (rise, r) =
      let first : Bytes = bytes i hi sender stream twins rise in
      let (last, next, more, sends, arrives, empty) =
        subgroup_in_order items _ (after_item complete stream i)
          (twins_after i hi sender stream twins rise) h r in
      (
        last,
        next,
        first ++ more,
        then_sends (sent_one i hi sender stream twins rise) sends,
        append_and_parse-append parse_object
              (parse_subgroup_header_object-IsObjectParser version complete) stream first more
            ∙ ap (λ t. then_receive parse_object t more)
                (received_one i hi sender stream twins rise)
            ∙ ap (cons_object (delivered complete stream i)) arrives,
        empty,
      )
