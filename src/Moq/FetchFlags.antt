-- ===== src/Moq/FetchFlags.antt =====
-- The serialization flags of a MoQ fetch object (moq.c):
-- `imquic_moq_is_fetch_serialization_flags_valid`, `imquic_moq_generate_fetch_serialization_flags` and
-- `imquic_moq_parse_fetch_serialization_flags`.
-- The version is an argument that none of them reads. The pointers of the parser are not NULL.
pub mod RoundTrip
use imquic.Base.{
  ℕ, ◌%◌, ◌≤◌, ◌<◌, Bool, true, false, not, ◌&&◌, ◌||◌, bit_and, bit_or, ltb, leb, ◌==◌,
  if◌then◌else◌,
}
use imquic.Moq.DatagramType.{is_set, set_if}

-- `imquic_moq_fetch_subgroup_type`
pub data FetchSubgroupType : Type 0 where
  zero previous plus_one id : FetchSubgroupType

abbrev pub subgroup_code : FetchSubgroupType → ℕ
subgroup_code zero = 0x00
subgroup_code previous = 0x01
subgroup_code plus_one = 0x02
subgroup_code id = 0x03

pub record FetchFlags : Type 0 where
  pub subgroup : FetchSubgroupType
  pub oid : Bool
  pub group : Bool
  pub priority : Bool
  pub prop : Bool
  pub datagram : Bool
  pub end_ne_range : Bool
  pub end_uk_range : Bool
  pub violation : Bool

unfoldable pub is_fetch_serialization_flags_valid : (flags : ℕ) → Bool
is_fetch_serialization_flags_valid flags =
    if ltb 128 flags && not (flags == 0x8c) && not (flags == 0x10c) then false else true

-- The `violation` of the flags is not written.
unfoldable pub generate_fetch_serialization_flags : FetchFlags → ℕ
generate_fetch_serialization_flags f =
    if f.end_ne_range
    then 0x8c
    else if f.end_uk_range
    then 0x10c
    else let with_oid = set_if f.oid (subgroup_code f.subgroup) 0x04 in
      let with_group = set_if f.group with_oid 0x08 in
      let with_priority = set_if f.priority with_group 0x10 in
      let with_prop = set_if f.prop with_priority 0x20 in set_if f.datagram with_prop 0x40

-- `if(*subgroup) { … }`: the output variable is read, and written only if it is not zero; the third test
-- alone has an `else`, which covers the first two.
abbrev pub parse_subgroup : FetchSubgroupType → (lsb : ℕ) → FetchSubgroupType
parse_subgroup before lsb =
    if subgroup_code before == 0
    then before
    else let first = if lsb == 0x00 then zero else before in
      let second = if lsb == 0x01 then previous else first in if lsb == 0x02 then plus_one else id

-- What the output variables become, from what they were before.
unfoldable pub parse_fetch_serialization_flags : (flags : ℕ) → FetchFlags → FetchFlags
unfolding is_fetch_serialization_flags_valid
parse_fetch_serialization_flags flags out =
    if not (is_fetch_serialization_flags_valid flags)
    then (if out.violation then record out { violation = true } else out)
    else if flags == 0x8c || flags == 0x10c
    then record out { end_ne_range = flags == 0x8c; end_uk_range = flags == 0x10c }
    else let flags8 = flags % 256 in
      record out {
        subgroup = parse_subgroup out.subgroup (bit_and flags8 0x03);
        oid = is_set flags8 0x04;
        group = is_set flags8 0x08;
        priority = is_set flags8 0x10;
        prop = is_set flags8 0x20;
        datagram = is_set flags8 0x40;
      }
