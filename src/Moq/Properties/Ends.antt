-- ===== src/Moq/Properties/Ends.antt =====
-- The loop of `imquic_moq_parse_properties` (moq.c) ends, whatever the bytes are.
use imquic.Base.{ℕ, suc, ◌≤◌, ◌≡◌, List, [], ◌∷◌, Bytes, length}
use imquic.Wire.Reader.{Parse, broken, protocol_violation, overread, parsed}
use imquic.Moq.Properties.{Property, parse_property, cons_property}

-- The rounds of the loop, without a bound on them: behind the type `last_id` and before these bytes, the loop comes to
-- its end after so many rounds, with that result.
pub data Ends (version : ℕ)
    : (last_id : ℕ) → Bytes → (rounds : ℕ) → Parse (List Property) → Type 0 where
  no_bytes : {last_id : ℕ} → Ends version last_id [] 0 (parsed [])
  refused :
      {last_id b : ℕ} {bs : Bytes}
      → parse_property version last_id (b ∷ bs) ≡ broken
      → Ends version last_id (b ∷ bs) 1 broken
  violated :
      {last_id b : ℕ} {bs : Bytes}
      → parse_property version last_id (b ∷ bs) ≡ protocol_violation
      → Ends version last_id (b ∷ bs) 1 protocol_violation
  past_end :
      {last_id b : ℕ} {bs : Bytes}
      → parse_property version last_id (b ∷ bs) ≡ overread
      → Ends version last_id (b ∷ bs) 1 overread
  goes_on :
      {last_id b next rounds : ℕ} {bs rest : Bytes} {p : Property} {r : Parse (List Property)}
      → parse_property version last_id (b ∷ bs) ≡ parsed ((p, next), rest)
      → Ends version next rest rounds r
      → Ends version last_id (b ∷ bs) (suc rounds) (cons_property p r)

-- No more rounds than bytes.
abbrev EndsInTime : (version last_id : ℕ) → Bytes → Parse (List Property) → Type 0
EndsInTime version last_id bytes r =
    (rounds : ℕ) × (rounds ≤ length bytes) × Ends version last_id bytes rounds r
