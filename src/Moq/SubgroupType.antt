-- ===== src/Moq/SubgroupType.antt =====
-- The type of a MoQ data stream (moq.c): `imquic_moq_is_data_message_type_valid`,
-- `imquic_moq_data_message_type_from_subgroup_header`, `..._to_subgroup_header` and `..._to_delivery`.
-- The pointers of the parser are not NULL.
pub mod RoundTrip
use imquic.Base.{
  ℕ, ◌≤◌, ◌<◌, Bool, true, false, not, ◌&&◌, ◌||◌, Option, none, some, bit_and, bit_or, ltb, leb,
  ◌==◌, if◌then◌else◌,
}
use imquic.Wire.Moqint.{version_18}
use imquic.Moq.DatagramType.{is_set, set_if}

abbrev pub fetch_header : ℕ
fetch_header = 0x5

abbrev pub padding_stream : ℕ
padding_stream = 0x132b3e28

abbrev pub in_range : (lo hi type : ℕ) → Bool
in_range lo hi type = leb lo type && leb type hi

unfoldable pub is_data_message_type_valid : (version type : ℕ) → Bool
is_data_message_type_valid version type =
    if type == fetch_header || leb version_18 version && type == padding_stream
    then true
    else if in_range 0x10 0x1d type || in_range 0x30 0x3d type
    then true
    else if leb version_18 version && (in_range 0x50 0x5d type || in_range 0x70 0x7d type)
    then true
    else false

-- `imquic_moq_delivery`; `none` stands for the -1 of an unknown type.
pub data Delivery : Type 0 where
  use_datagram use_subgroup use_fetch : Delivery

unfoldable pub data_message_type_to_delivery : (type version : ℕ) → Option Delivery
data_message_type_to_delivery type version =
    if type == fetch_header
    then some use_fetch
    else if in_range 0x10 0x1d type || in_range 0x30 0x3d type
    then some use_subgroup
    else if leb version_18 version && (in_range 0x50 0x5d type || in_range 0x70 0x7d type)
    then some use_subgroup
    else none

-- What a type says of its subgroup.
pub record SubgroupFlags : Type 0 where
  pub subgroup : Bool
  pub sgid0 : Bool
  pub prop : Bool
  pub eog : Bool
  pub priority : Bool
  pub first_object : Bool

unfoldable pub data_message_type_from_subgroup_header : (version : ℕ) → SubgroupFlags → ℕ
data_message_type_from_subgroup_header version f =
    let sgid0 = if f.subgroup then false else f.sgid0 in
    let with_subgroup = set_if f.subgroup 0x10 0x04 in
    let with_sgid0 = set_if sgid0 with_subgroup 0x02 in
    let with_prop = set_if f.prop with_sgid0 0x01 in
    let with_eog = set_if f.eog with_prop 0x08 in
    let with_first = set_if (leb version_18 version && f.first_object) with_eog 0x40 in
    set_if (not f.priority) with_first 0x20

-- What the output variables become, and the flag of a violation, both from what they were before.
unfoldable pub data_message_type_to_subgroup_header :
    (version type : ℕ) → SubgroupFlags × Bool → SubgroupFlags × Bool
data_message_type_to_subgroup_header version type (before, violation) =
    if bit_and type 0x10 == 0 then (before, true) else (
      record {
        subgroup = is_set type 0x04;
        sgid0 = is_set type 0x02;
        prop = is_set type 0x01;
        eog = is_set type 0x08;
        priority = not (is_set type 0x20);
        first_object = if leb version_18 version then is_set type 0x40 else before.first_object;
      },
      violation,
    )
