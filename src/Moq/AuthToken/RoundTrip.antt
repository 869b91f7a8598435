-- ===== src/Moq/AuthToken/RoundTrip.antt =====
-- A token that is built is parsed.
use imquic.Base.{
  ℕ, ◌+◌, ◌≤◌, ◌≡◌, sym, ap, ◌∙◌, arith, Bool, true, false, not, ◌||◌, Option, none, some, [], ◌++◌,
  append-nil, Bytes, length, ◌==◌, if◌then◌else◌, append_pos,
}
use imquic.Wire.Moqint.{write_moqint}
use imquic.Wire.Moqint.RoundTrip.{max_moqint}
use imquic.Wire.Moqint.Room.{write_moqint_pos}
use imquic.Wire.Writer.{
  stored, Stores, when, put_number-Stores, put_bytes-Stores, >>-Stores, when-Stores,
  when-false-Stores,
}
use imquic.Wire.Reader.{
  parsed, Reads, if_there, >>=-Reads, last-Reads, number-Reads, check-Reads, if_there-Reads,
  remaining-Reads, pure-Reads,
}
use imquic.Moq.AuthToken.{
  AuthToken, use_value, is_alias_type, has_value, alias_field, value_field, no_value,
  auth_token_fields, parse_auth_token,
}
use imquic.Moq.AuthToken.Build.{put_set, put_typed, build_auth_token}

-- A token with the fields that its type asks for: an alias, or a value with a type.
pub record IsToken (version : ℕ) (alias_type alias type : ℕ) : Type 0 where
  pub known : is_alias_type alias_type ≡ true
  pub alias_fits : alias ≤ max_moqint version
  pub type_fits : type ≤ max_moqint version

abbrev pub value_part : (there : Bool) (type : ℕ) (value : Bytes) → Option ℕ × Bytes
value_part there type value = if there then (some type, value) else no_value

abbrev pub token : (alias_type alias type : ℕ) (value : Bytes) → AuthToken
token alias_type alias type value = record {
  alias_type = alias_type;
  token_alias = if not (alias_type == use_value) then some alias else none;
  token_type = (value_part (has_value alias_type) type value).0;
  token_value = (value_part (has_value alias_type) type value).1;
}

module _ (version alias_type alias type : ℕ) (value : Bytes)
    (valid : IsToken version alias_type alias type) where
  abbrev fields : Bytes
  fields =
      (if not (alias_type == use_value) then write_moqint version alias 9 else [])
      ++ (if has_value alias_type then write_moqint version type 9 ++ value else [])

  abbrev encoded : Bytes
  encoded = write_moqint version alias_type 9 ++ fields

  alias_type_fits : alias_type ≤ max_moqint version
  alias_type_fits = let h = valid.known in ground (arith, h)

  alias-Stores :
      (b : Bool)
      → Stores
          (when b (put_set version (if b then some alias else none)))
          9
          (if b then write_moqint version alias 9 else [])
  alias-Stores true = when-Stores true (put_number-Stores version alias valid.alias_fits)
  alias-Stores false = when-false-Stores _

  value-Stores :
      (b : Bool)
      → Stores
          (when b (put_typed version (value_part b type value).0 (value_part b type value).1))
          (9 + length value)
          (if b then write_moqint version type 9 ++ value else [])
  unfolding put_typed
  value-Stores true =
      when-Stores true
        (>>-Stores (put_number-Stores version type valid.type_fits) (put_bytes-Stores value))
  value-Stores false = when-false-Stores _

  alias-Reads :
      (b : Bool) {rest : Bytes}
      → Reads
          (if_there b none (alias_field version))
          (if b then write_moqint version alias 9 else [])
          (if b then some alias else none)
          rest
  unfolding alias_field
  alias-Reads b =
      if_there-Reads b none
        (λ there. last-Reads _ (number-Reads version alias valid.alias_fits) (pure-Reads _))

  value-Reads :
      (b : Bool)
      → Reads
          (if_there b no_value (value_field version))
          (if b then write_moqint version type 9 ++ value else [])
          (value_part b type value)
          []
  unfolding value_field
  value-Reads b = if_there-Reads b no_value (λ there.
      >>=-Reads _ (number-Reads version type valid.type_fits)
        (last-Reads _ (remaining-Reads value) (pure-Reads _)))

  token-Reads : Reads (auth_token_fields version) encoded (token alias_type alias type value) []
  unfolding auth_token_fields
  token-Reads = >>=-Reads _ (number-Reads version alias_type alias_type_fits) (
      >>=-Reads _ (check-Reads valid.known) (
        >>=-Reads _ (alias-Reads (not (alias_type == use_value)))
          (last-Reads _ (value-Reads (has_value alias_type)) (pure-Reads _))))

  -- A token that has the fields its type asks for is built where there is room for three numbers and the value, and
  -- parsing what was built gives the token.
  pub parse_auth_token-build_auth_token :
      (room : ℕ)
      → 27 + length value ≤ room
      → (bytes : Bytes) × (build_auth_token version (token alias_type alias type value) room
          ≡ stored bytes)
        × (parse_auth_token version bytes ≡ parsed (token alias_type alias type value, []))
  unfolding build_auth_token parse_auth_token
  parse_auth_token-build_auth_token room fits =
      let known = valid.known in
      let t : (room == 0 || not (is_alias_type alias_type)) ≡ false = ground (arith, known, fits) in
      let all = >>-Stores (put_number-Stores version alias_type alias_type_fits) (
        >>-Stores (alias-Stores (not (alias_type == use_value)))
          (value-Stores (has_value alias_type))) in
      let added = all.stores room (omega (arith, fits)) in
      let pos =
        append_pos (write_moqint version alias_type 9) fields
          (write_moqint_pos version alias_type alias_type_fits) in
      let u : (length encoded == 0) ≡ false = ground (arith, pos) in
      (
        encoded,
        rw t added,
        rw u (ap (auth_token_fields version) (sym (append-nil encoded)) ∙ token-Reads.reads),
      )
