-- ===== src/Moq/SubgroupType/RoundTrip.antt =====
-- Types and flags of subgroup headers determine one another.
use imquic.Base.{ℕ, ◌≡◌, ◌≢◌, arith, Bool, true, false, not, ◌&&◌, none, some, leb, if◌then◌else◌}
use imquic.Wire.Moqint.{version_18}
use imquic.Moq.SubgroupType.{
  SubgroupFlags, use_subgroup, padding_stream, is_data_message_type_valid,
  data_message_type_to_delivery, data_message_type_from_subgroup_header,
  data_message_type_to_subgroup_header,
}

-- Parsing the type made of some flags leaves the flag of a violation alone and gives the flags back, but
-- that a subgroup identifier excludes the mark of identifier zero, and that before version 18 the mark of
-- the first object is not sent and stays what it was.
pub data_message_type_to-from_subgroup_header :
    (version : ℕ) (f before : SubgroupFlags) (violation : Bool)
    → data_message_type_to_subgroup_header version
        (data_message_type_from_subgroup_header version f)
        (before, violation)
      ≡ (
        record f {
          sgid0 = not f.subgroup && f.sgid0;
          first_object = if leb version_18 version then f.first_object else before.first_object;
        },
        violation,
      )
unfolding data_message_type_to_subgroup_header data_message_type_from_subgroup_header
data_message_type_to-from_subgroup_header version f before violation = ground arith

-- The type made of some flags is a valid one, and it is delivered as a subgroup.
pub data_message_type_from_subgroup_header-delivery :
    (version : ℕ) (f : SubgroupFlags)
    → (is_data_message_type_valid version (data_message_type_from_subgroup_header version f) ≡ true)
      × (data_message_type_to_delivery (data_message_type_from_subgroup_header version f) version
          ≡ some use_subgroup)
unfolding is_data_message_type_valid data_message_type_to_delivery
    data_message_type_from_subgroup_header
data_message_type_from_subgroup_header-delivery version f = ground arith

-- A type other than that of padding is delivered exactly if it is valid, and padding is not delivered.
pub data_message_type_to_delivery-valid :
    (version type : ℕ)
    → type ≢ padding_stream
    → (is_data_message_type_valid version type
        ≡ (elim (data_message_type_to_delivery type version) [ none ↦ false | some _ ↦ true ]))
      × (data_message_type_to_delivery padding_stream version ≡ none)
unfolding is_data_message_type_valid data_message_type_to_delivery
data_message_type_to_delivery-valid version type h = (ground arith, ground arith)
