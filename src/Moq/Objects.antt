-- ===== src/Moq/Objects.antt =====
-- MoQ objects (moq.c): what is sent and delivered, and the state of the streams that carry objects.
pub mod Parse
pub mod Fetch
pub mod Receive
pub mod Chunks
pub mod Subgroup
pub mod Encoding
pub mod InOrder
pub mod Send
pub mod Padding
pub mod Datagram
use imquic.Base.{ℕ, Bool, true, false, List, [], Bytes}
use imquic.Moq.SubgroupType.{Delivery, SubgroupFlags}
use imquic.Moq.Properties.{Property}

-- `imquic_moq_object`, of which a NULL payload has no bytes.
pub record Object : Type 0 where
  pub request_id : ℕ
  pub track_alias : ℕ
  pub group_id : ℕ
  pub subgroup_id : ℕ
  pub object_id : ℕ
  pub object_status : ℕ
  pub priority : ℕ
  pub payload : Bytes
  pub properties : List Property
  pub delivery : Delivery
  pub first_of_subgroup : Bool
  pub end_of_stream : Bool

-- `imquic_moq_object_status`, the last of them.
abbrev pub end_of_group : ℕ
end_of_group = 0x3

abbrev pub end_of_track : ℕ
end_of_track = 0x4

-- `imquic_moq_stream`, what the parsers of objects read and write of it.
pub record MoqStream : Type 0 where
  pub type : ℕ
  pub request_id : ℕ
  pub track_alias : ℕ
  pub group_id : ℕ
  pub subgroup_id : ℕ
  pub priority : ℕ
  pub first_of_subgroup : Bool
  pub got_objects : Bool
  pub last_group_id : ℕ
  pub last_subgroup_id : ℕ
  pub last_object_id : ℕ
  pub last_priority : ℕ
  pub ascending : Bool
  pub closed : Bool
  pub buffer : Bytes

-- The flags before a type is parsed, and a new stream, `g_malloc0`.
abbrev pub no_flags : SubgroupFlags
no_flags = record {
  subgroup = false;
  sgid0 = false;
  prop = false;
  eog = false;
  priority = false;
  first_object = false;
}

abbrev pub stream_create : (type priority : ℕ) → MoqStream
stream_create type priority = record {
  type = type;
  request_id = 0;
  track_alias = 0;
  group_id = 0;
  subgroup_id = 0;
  priority = priority;
  first_of_subgroup = false;
  got_objects = false;
  last_group_id = 0;
  last_subgroup_id = 0;
  last_object_id = 0;
  last_priority = 0;
  ascending = false;
  closed = false;
  buffer = [];
}
