-- ===== src/Tests/ObjectRuns.antt =====
-- Objects and their properties, at concrete inputs.
use mathlib.Core.List.{Perm}
use imquic.Base.{
  ℕ, zero, suc, ◌+◌, ◌≤◌, ◌≡◌, refl, arith, inl, true, false, List, [], ◌∷◌, ◌++◌, map, some, Bytes,
  length,
}
use imquic.Wire.Moqint.{version_16, version_18, write_moqint}
use imquic.Wire.Writer.{stored, overrun}
use imquic.Wire.Reader.{broken, overread, parsed}
use imquic.Moq.Properties.{Property, parse_loop, parse_properties, build_properties}
use imquic.Moq.Properties.RoundTrip.{IsProperty, Ascending, parse_properties-build_properties}
use imquic.Moq.Properties.Input.{cut_property_overread}
use imquic.Moq.Properties.Ends.{Ends}
use imquic.Moq.AuthToken.{register_alias, parse_auth_token}
use imquic.Moq.AuthToken.Build.{build_auth_token}
use imquic.Moq.AuthToken.RoundTrip.{token, parse_auth_token-build_auth_token}
use imquic.Moq.SubgroupType.{use_subgroup, data_message_type_to_subgroup_header}
use imquic.Moq.Objects.{Object, MoqStream, stream_create}
use imquic.Moq.Objects.Parse.{datagram_object, flags_of, parse_subgroup_header_object}
use imquic.Moq.Objects.Receive.{waiting, append_and_parse}
use imquic.Moq.Objects.Chunks.{receive_chunks}
use imquic.Moq.Objects.Subgroup.{subgroup_chunks}
use imquic.Moq.Objects.Send.{add_object_datagram, add_object_datagram_status, add_padding}
use imquic.Moq.Objects.InOrder.{subgroup_in_order}
use imquic.Moq.Objects.InOrder.Items.{AreTwins, IsItem, Item, Sends, delivered}
use imquic.Moq.Objects.Padding.{add_padding_overrun}
use imquic.Moq.Objects.Datagram.{receive_datagram}
use imquic.Moq.Objects.Datagram.Fields.{IsWritable}
use imquic.Moq.Objects.Datagram.RoundTrip.{
  receive_datagram-add_object_datagram, receive_datagram-add_object_datagram_status,
}
use imquic.Moq.Objects.Datagram.LowByte.{receive_datagram_low_byte}
use imquic.Moq.Objects.Datagram.LeftOut.{first_object_dropped, first_status_misread}
use imquic.Tests.Sorting.{insertion_sort}

abbrev timescale : Property
timescale = record { id = 8; number = 90000; buffer = [] }

abbrev config : Property
config = record { id = 13; number = 0; buffer = 1 ∷ 2 ∷ [] }

abbrev sample_properties : List Property
sample_properties = config ∷ timescale ∷ []

timescale-IsProperty : IsProperty version_18 timescale
timescale-IsProperty = record {
  id = omega arith;
  number = omega arith;
  buffer = omega arith;
  even = λ h. refl;
  odd = λ h. absurd (omega arith);
}

config-IsProperty : IsProperty version_18 config
config-IsProperty = record {
  id = omega arith;
  number = omega arith;
  buffer = omega arith;
  even = λ h. absurd (omega arith);
  odd = λ h. (refl, omega arith);
}

parse_properties-build_properties_example :
    (bytes : Bytes) × (sent : List Property) × (build_properties insertion_sort version_18
        sample_properties 100
      ≡ stored bytes)
    × (parse_properties version_18 bytes ≡ parsed sent)
    × Perm sent sample_properties
    × Ascending 0 sent
parse_properties-build_properties_example =
    parse_properties-build_properties insertion_sort version_18 100 sample_properties
      (config-IsProperty, (timescale-IsProperty, tt)) (omega arith)

abbrev many_zeros : ℕ → Bytes
many_zeros zero = []
many_zeros (suc n) = 0 ∷ many_zeros n

cut_property_overread_example :
    parse_properties version_16
      (write_moqint version_16 13 9 ++ (write_moqint version_16 64 9 ++ many_zeros 63))
    ≡ overread
cut_property_overread_example =
    cut_property_overread version_16 13 (omega arith) refl (many_zeros 63) (omega arith)
      (omega arith)

abbrev frame : (object_id object_status : ℕ) → Bytes → Object
frame object_id object_status payload = record {
  request_id = 0;
  track_alias = 300;
  group_id = 5;
  subgroup_id = 0;
  object_id = object_id;
  object_status = object_status;
  priority = 7;
  payload = payload;
  properties = [];
  delivery = use_subgroup;
  first_of_subgroup = false;
  end_of_stream = false;
}

frame-IsWritable :
    (object_id object_status : ℕ) (payload : Bytes)
    → object_id ≤ 63
    → object_status ≤ 4
    → length payload ≤ 63
    → IsWritable version_18 (frame object_id object_status payload)
frame-IsWritable object_id object_status payload id status few = record {
  track_alias = omega arith;
  group_id = omega arith;
  subgroup_id = omega arith;
  object_id = omega (arith, id);
  object_status = omega (arith, status);
  payload = omega (arith, few);
}

no_properties : parse_properties version_18 [] ≡ parsed []
unfolding parse_properties parse_loop
no_properties = refl

receive_datagram-add_object_datagram_example :
    (bytes : Bytes) × (add_object_datagram version_18 (frame 2 0 (9 ∷ [])) [] 100 ≡ stored bytes)
    × (receive_datagram version_18 bytes ≡ parsed (some (datagram_object 300 5 2 7 0 (9 ∷ []) [])))
receive_datagram-add_object_datagram_example =
    receive_datagram-add_object_datagram version_18 (frame 2 0 (9 ∷ [])) []
      (frame-IsWritable 2 0 (9 ∷ []) (omega arith) (omega arith) (omega arith)) (omega arith) []
      no_properties 100 (omega arith) (inl (λ e. absurd (omega (arith, e)))) (omega arith)

receive_datagram-add_object_datagram_status_example :
    (bytes : Bytes) × (add_object_datagram_status version_18 (frame 2 3 []) [] 100 ≡ stored bytes)
    × (receive_datagram version_18 bytes ≡ parsed (some (datagram_object 300 5 2 7 3 [] [])))
receive_datagram-add_object_datagram_status_example =
    receive_datagram-add_object_datagram_status version_18 (frame 2 3 []) []
      (frame-IsWritable 2 3 [] (omega arith) (omega arith) (omega arith)) (omega arith) []
      no_properties 100 (λ e. absurd (omega (arith, e))) (omega arith) (omega arith)

first_object_dropped_example :
    (bytes : Bytes) × (add_object_datagram version_18
        (record (frame 0 0 (9 ∷ [])) { track_alias = 3 })
        []
        100
      ≡ stored bytes)
    × (receive_datagram version_18 bytes ≡ broken)
first_object_dropped_example =
    first_object_dropped version_18 (record (frame 0 0 (9 ∷ [])) { track_alias = 3 })
      (record {
        track_alias = omega arith;
        group_id = omega arith;
        subgroup_id = omega arith;
        object_id = omega arith;
        object_status = omega arith;
        payload = omega arith;
      })
      refl 100 refl (omega arith) (omega arith) (omega arith)

first_status_misread_example :
    (bytes : Bytes) × (add_object_datagram_status version_18 (frame 0 3 []) [] 100 ≡ stored bytes)
    × (receive_datagram version_18 bytes ≡ parsed (some (datagram_object 300 5 7 7 3 [] [])))
first_status_misread_example =
    first_status_misread version_18 (frame 0 3 [])
      (frame-IsWritable 0 3 [] (omega arith) (omega arith) (omega arith)) refl 100 (omega arith)
      (omega arith) (omega arith) (omega arith)

add_padding_overrun_example : add_padding version_18 4092 false (4 + 4092) ≡ overrun
add_padding_overrun_example = add_padding_overrun version_18 4092 false (omega arith) (omega arith)

-- A stream whose type has a subgroup, properties and a priority.
abbrev sample_stream : MoqStream
sample_stream = record (stream_create 0x1d 128) { track_alias = 300; group_id = 5 }

sample_flags :
    ((flags_of version_18 sample_stream).prop ≡ true)
    × ((flags_of version_18 sample_stream).subgroup ≡ true)
unfolding data_message_type_to_subgroup_header
sample_flags = (refl, refl)

sample_twins : AreTwins version_18 sample_stream sample_stream
sample_twins = record {
  type = refl;
  got_objects = refl;
  last_object_id = refl;
  small = omega arith;
  starts = λ e. refl;
  empty = refl;
  prop = sample_flags.0;
  subgroup = sample_flags.1;
}

abbrev first_item : Item
first_item = record { object = frame 2 0 (1 ∷ 2 ∷ []); block = []; properties = [] }

abbrev second_item : Item
second_item = record { object = frame 6 3 []; block = []; properties = [] }

first-IsItem : IsItem version_18 first_item
first-IsItem = record {
  writable = frame-IsWritable 2 0 (1 ∷ 2 ∷ []) (omega arith) (omega arith) (omega arith);
  small = omega arith;
  known = no_properties;
  valid = refl;
}

second-IsItem : IsItem version_18 second_item
second-IsItem = record {
  writable = frame-IsWritable 6 3 [] (omega arith) (omega arith) (omega arith);
  small = omega arith;
  known = no_properties;
  valid = refl;
}

subgroup_in_order_example :
    (last next : MoqStream) × (bytes : Bytes) × Sends version_18 sample_stream
      (first_item ∷ second_item ∷ [])
      last
      bytes
    × (append_and_parse (parse_subgroup_header_object version_18 false) sample_stream bytes
        ≡ waiting next (map (delivered false sample_stream) (first_item ∷ second_item ∷ [])))
    × (next.buffer ≡ [])
subgroup_in_order_example =
    subgroup_in_order version_18 false (first_item ∷ second_item ∷ []) sample_stream sample_stream
      sample_twins (first-IsItem, (second-IsItem, tt)) ((λ e. cc e), ((λ e. omega arith), tt))

subgroup_chunks_example :
    receive_chunks
      (parse_subgroup_header_object version_18 false)
      (append_and_parse (parse_subgroup_header_object version_18 false) sample_stream (2 ∷ 0 ∷ []))
      ((1 ∷ []) ∷ (5 ∷ 3 ∷ []) ∷ [])
    ≡ append_and_parse
        (parse_subgroup_header_object version_18 false)
        sample_stream
        (2 ∷ 0 ∷ 1 ∷ 5 ∷ 3 ∷ [])
subgroup_chunks_example =
    subgroup_chunks version_18 false sample_stream (2 ∷ 0 ∷ []) ((1 ∷ []) ∷ (5 ∷ 3 ∷ []) ∷ [])

parse_auth_token-build_auth_token_example :
    (bytes : Bytes) × (build_auth_token version_18 (token register_alias 70 5 (1 ∷ 2 ∷ [])) 40
      ≡ stored bytes)
    × (parse_auth_token version_18 bytes ≡ parsed (token register_alias 70 5 (1 ∷ 2 ∷ []), []))
parse_auth_token-build_auth_token_example =
    parse_auth_token-build_auth_token version_18 register_alias 70 5 (1 ∷ 2 ∷ [])
      (record { known = refl; alias_fits = omega arith; type_fits = omega arith }) 40 (omega arith)

receive_datagram_low_byte_example :
    receive_datagram version_18 (write_moqint version_18 264 9 ++ (1 ∷ 2 ∷ 3 ∷ 4 ∷ 5 ∷ []))
    ≡ receive_datagram version_18 (write_moqint version_18 8 9 ++ (1 ∷ 2 ∷ 3 ∷ 4 ∷ 5 ∷ []))
receive_datagram_low_byte_example =
    receive_datagram_low_byte version_18 264 (1 ∷ 2 ∷ 3 ∷ 4 ∷ 5 ∷ []) (omega arith)
      (λ e. absurd (omega (arith, e)))
