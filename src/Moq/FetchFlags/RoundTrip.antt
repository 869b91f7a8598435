-- ===== src/Moq/FetchFlags/RoundTrip.antt =====
-- What parsing recovers of the flags that were generated, and what it does not.
use imquic.Base.{ℕ, ◌≡◌, arith, false}
use imquic.Moq.FetchFlags.{
  plus_one, id, FetchFlags, generate_fetch_serialization_flags, parse_fetch_serialization_flags,
}

-- As `imquic_moq_parse_fetch_header_object` sets its variables before it parses.
abbrev pub before_parsing : FetchFlags
before_parsing = record {
  subgroup = id;
  oid = false;
  group = false;
  priority = false;
  prop = false;
  datagram = false;
  end_ne_range = false;
  end_uk_range = false;
  violation = false;
}

-- Of the flags of an object, parsing with the caller's variables gives back all but the subgroup type,
-- which it gives back only if that is `plus_one` or `id`: the other two come back as `id`.
pub parse-generate_fetch_serialization_flags :
    (f : FetchFlags)
    → f.end_ne_range ≡ false
    → f.end_uk_range ≡ false
    → f.violation ≡ false
    → parse_fetch_serialization_flags (generate_fetch_serialization_flags f) before_parsing
      ≡ record f { subgroup = elim f.subgroup [ plus_one ↦ plus_one | _ ↦ id ] }
unfolding parse_fetch_serialization_flags generate_fetch_serialization_flags
parse-generate_fetch_serialization_flags f a b c = ground arith

-- No flags whatever are reported as a violation to a caller who starts without one.
pub parse_fetch_serialization_flags_silent :
    (flags : ℕ) (out : FetchFlags)
    → out.violation ≡ false
    → (parse_fetch_serialization_flags flags out).violation ≡ false
unfolding parse_fetch_serialization_flags
parse_fetch_serialization_flags_silent flags out h = ground arith
