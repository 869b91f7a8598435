-- ===== src/Moq/Objects/InOrder/Items.antt =====
-- The objects of a subgroup's stream: what sending and receiving one does to the two ends.
use imquic.Base.{
  ℕ, zero, suc, ◌≤◌, ◌<◌, ◌≡◌, refl, arith, inl, inr, Bool, true, false, ◌&&◌, ◌||◌, List, [], ◌∷◌,
  ◌++◌, Bytes, u64, length, leb, ◌==◌, if◌then◌else◌, Bool-cases,
}
use imquic.Wire.Moqint.RoundTrip.{max_moqint}
use imquic.Wire.Writer.{stored}
use imquic.Wire.Reader.{Parse, parsed}
use imquic.Moq.Properties.{Property, parse_properties}
use imquic.Moq.SubgroupType.{use_subgroup}
use imquic.Moq.Objects.{Object, MoqStream}
use imquic.Moq.Objects.Parse.{next_object_id, flags_of}
use imquic.Moq.Objects.Receive.{waiting, object_loop}
use imquic.Moq.Objects.Send.{sent, is_valid_pkt, object_delta, send_on_subgroup}
use imquic.Moq.Objects.Datagram.Fields.{IsWritable}

-- What an object is delivered as.
abbrev pub delivered_status : Object → ℕ
delivered_status o = if length o.payload == 0 then o.object_status else 0

pub and_false : (b : Bool) → (b && false) ≡ false
and_false true = refl
and_false false = refl

pub not_behind : (b : Bool) (x y : ℕ) → (b ≡ true → y < x) → (b && leb x y) ≡ false
not_behind true x y h = let less = h refl in ground (arith, less)
not_behind false x y h = refl

-- The delta that is sent, and the identifier that it comes to.
module _ (stream : MoqStream) (id : ℕ) (fits : id < u64) (last : stream.last_object_id < u64)
    (rises : stream.got_objects ≡ true → stream.last_object_id < id)
    (starts : stream.got_objects ≡ false → stream.last_object_id ≡ 0) where
  pub delta-le : object_delta stream id ≤ id
  unfolding object_delta
  delta-le = elim (Bool-cases stream.got_objects) [
    | inl t ↦ let r = rises t in rw t (omega (arith, r, fits, last))
    | inr t ↦ let r = starts t in rw t (omega (arith, r, fits))
  ]

  pub id_back : next_object_id stream (object_delta stream id) ≡ id
  unfolding object_delta next_object_id
  id_back = elim (Bool-cases stream.got_objects) [
    | inl t ↦ let r = rises t in rw t (omega (arith, r, fits, last))
    | inr t ↦ let r = starts t in rw t (omega (arith, r, fits))
  ]

-- What is sent, and what its block of properties is parsed to.
pub record Item : Type 0 where
  pub object : Object
  pub block : Bytes
  pub properties : List Property

pub record IsItem (version : ℕ) (i : Item) : Type 0 where
  pub writable : IsWritable version i.object
  pub small : length i.block ≤ max_moqint version
  pub known : parse_properties version i.block ≡ parsed i.properties
  pub valid : is_valid_pkt i.object ≡ true

-- What the application of the peer gets.
abbrev pub delivered : (complete : Bool) → MoqStream → Item → Object
delivered complete stream i = record {
  request_id = stream.request_id;
  track_alias = stream.track_alias;
  group_id = stream.group_id;
  subgroup_id = stream.subgroup_id;
  object_id = i.object.object_id;
  object_status = delivered_status i.object;
  priority = stream.priority;
  payload = i.object.payload;
  properties = i.properties;
  delivery = use_subgroup;
  first_of_subgroup = stream.first_of_subgroup;
  end_of_stream = complete;
}

-- The two ends of a stream know of the same objects; the subgroup and the properties are written.
pub record AreTwins (version : ℕ) (sender receiver : MoqStream) : Type 0 where
  pub type : sender.type ≡ receiver.type
  pub got_objects : sender.got_objects ≡ receiver.got_objects
  pub last_object_id : sender.last_object_id ≡ receiver.last_object_id
  pub small : receiver.last_object_id < u64
  pub starts : receiver.got_objects ≡ false → receiver.last_object_id ≡ 0
  pub empty : receiver.buffer ≡ []
  pub prop : (flags_of version receiver).prop ≡ true
  pub subgroup : (flags_of version receiver).subgroup ≡ true

abbrev pub after_item : (complete : Bool) → MoqStream → Item → MoqStream
after_item complete stream i = record stream {
  got_objects = true;
  last_object_id = i.object.object_id;
  closed = stream.closed || complete;
  buffer = [];
}

-- The loop over one object alone.
module _ (parse : MoqStream → Parse (Object × MoqStream)) where
  pub loop_empty :
      (fuel : ℕ) (stream : MoqStream)
      → length stream.buffer ≡ 0
      → object_loop parse fuel stream ≡ waiting stream []
  unfolding object_loop
  loop_empty zero stream h = refl
  loop_empty (suc fuel) stream h =
      let t : (length stream.buffer == 0) ≡ true = ground (arith, h) in rw t refl

  pub loop_one :
      (fuel : ℕ) (stream : MoqStream) {o : Object} {next : MoqStream}
      → 0 < length stream.buffer
      → length stream.buffer ≤ fuel
      → parse stream ≡ parsed (o, next)
      → length next.buffer ≡ 0
      → object_loop parse fuel stream ≡ waiting next (o ∷ [])
  unfolding object_loop
  loop_one zero stream more h e none_left = absurd (omega (arith, more, h))
  loop_one (suc fuel) stream {o} {next} more h e none_left =
      let t : (length stream.buffer == 0) ≡ false = ground (arith, more) in
      let rest = loop_empty fuel next none_left in rw (t, e, rest) refl

-- Objects go to a stream one after another.
pub data Sends (version : ℕ) : MoqStream → List Item → MoqStream → Bytes → Type 0 where
  done : {stream : MoqStream} → Sends version stream [] stream []
  then_sends :
      {stream next last : MoqStream} {i : Item} {is : List Item} {bytes more : Bytes}
      → send_on_subgroup version stream i.object i.block ≡ sent next (stored bytes)
      → Sends version next is last more
      → Sends version stream (i ∷ is) last (bytes ++ more)

-- The identifiers rise, from the one behind the last.
abbrev pub Rises : (got_objects : Bool) (last_object_id : ℕ) → List Item → Type 0
Rises got_objects last_object_id [] = Unit {0}
Rises got_objects last_object_id (i ∷ is) =
    (got_objects ≡ true → last_object_id < i.object.object_id) × Rises true i.object.object_id is
