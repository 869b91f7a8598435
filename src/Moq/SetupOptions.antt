-- ===== src/Moq/SetupOptions.antt =====
-- A setup option of MoQ (moq.c): `imquic_moq_setup_option_add_int`, `imquic_moq_setup_option_add_data` and
-- `imquic_moq_parse_setup_option`. The type of an option is written as the difference to the one before it.
pub mod RoundTrip
use imquic.Base.{
  ℕ, zero, suc, ◌+◌, ◌-◌, ◌%◌, ◌≤◌, ◌<◌, Bool, true, false, not, ◌&&◌, ◌||◌, List, [], ◌∷◌, ◌++◌,
  Option, none, some, Bytes, u64, length, take, drop, ltb, leb, ◌==◌, if◌then◌else◌,
}
use imquic.Wire.Moqint.{version_17, read_moqint, write_moqint}
use imquic.Wire.Writer.{Added, rejected, overrun, stored}
use imquic.Moq.Grease.{is_grease}

-- `imquic_moq_setup_options`: a field is there if its `_set` is; the arrays of characters stand for the texts
-- in them.
pub record SetupOptions : Type 0 where
  pub path_set : Bool
  pub path : Bytes
  pub max_request_id_set : Bool
  pub max_request_id : ℕ
  pub max_auth_token_cache_size_set : Bool
  pub max_auth_token_cache_size : ℕ
  pub auth_token_set : Bool
  pub auth_token : Bytes
  pub authority_set : Bool
  pub authority : Bytes
  pub moqt_implementation_set : Bool
  pub moqt_implementation : Bytes
  pub unknown : Bool

-- The bytes stored; none of them stands for the 0 of a refusal.
unfoldable pub add_int : (version : ℕ) (blen param prev number : ℕ) → Bytes
add_int version blen param prev number =
    let type = write_moqint version (param - prev) blen in
    if blen == 0
    then []
    else if not (param % 2 == 0)
    then []
    else if ltb param prev
    then []
    else type ++ write_moqint version number (blen - length type)

-- The room for the length is taken to be the whole of `blen`, and the data are copied without a look at the room.
unfoldable pub add_data : (version : ℕ) (blen param prev : ℕ) → Bytes → Added
add_data version blen param prev buf =
    let type = write_moqint version (param - prev) blen in
    let buflen = write_moqint version (length buf) blen in
    let all = type ++ (buflen ++ buf) in
    if blen == 0 || ltb 65535 (length buf)
    then rejected
    else if not (param % 2 == 1)
    then rejected
    else if ltb param prev
    then rejected
    else if ltb blen (length all)
    then overrun
    else stored all

-- `g_snprintf(text, 256, "%.*s", len, bytes)`: at most 255 characters, up to the first that is 0.
unfoldable pub printed : (size : ℕ) → Bytes → Bytes
printed zero bytes = []
printed (suc size) [] = []
printed (suc size) (b ∷ bs) = let rest = printed size bs in if b == 0 then [] else b ∷ rest

-- The text is left alone where there is nothing to print.
abbrev pub text_set : (before value : Bytes) → Bytes
text_set before value = if ltb 0 (length value) then printed 255 value else before

-- What is left of the option's bytes behind its type: the length and the data of an odd type, nothing of an even
-- one. `none` stands for the broken option.
abbrev pub option_data : (version type : ℕ) → Bytes → Option (Bytes × Bytes)
option_data version type bytes =
    let (len, used) = read_moqint version bytes in
    let left = drop used bytes in
    if not (type % 2 == 1)
    then some ([], bytes)
    else if used == 0
    then none
    else if ltb (length left) len
    then none
    else some (take len left, drop len left)

-- An even type's number, and what follows it.
abbrev pub option_number : (version : ℕ) → Bytes → Option (ℕ × Bytes)
option_number version bytes =
    let (number, used) = read_moqint version bytes in
    if used == 0 then none else some (number, drop used bytes)

-- The options, the type and the bytes that follow. An unknown option of an even type skips as many bytes as its
-- type had, `type_len`.
abbrev pub Parsed : Type 0
Parsed = Option (SetupOptions × ℕ × Bytes)

unfoldable pub update : (version type type_len : ℕ) → SetupOptions → (value left : Bytes) → Parsed
update version type type_len params value left =
    if type == 0x01
    then some (record params { path_set = true; path = text_set params.path value }, type, left)
    else if type == 0x02
    then elim (option_number version left) [
      | none ↦ none
      | some (n, more) ↦
          some (record params { max_request_id_set = true; max_request_id = n }, type, more)
    ]
    else if type == 0x04
    then elim (option_number version left) [
      | none ↦ none
      | some (n, more) ↦ some (
        record params { max_auth_token_cache_size_set = true; max_auth_token_cache_size = n },
        type,
        more,
      )
    ]
    else if type == 0x03
    then some (record params { auth_token_set = true; auth_token = take 256 value }, type, left)
    else if type == 0x05
    then some (
      record params { authority_set = true; authority = text_set params.authority value },
      type,
      left,
    )
    else if type == 0x07
    then some (
      record params {
        moqt_implementation_set = true;
        moqt_implementation = text_set params.moqt_implementation value;
      },
      type,
      left,
    )
    else if leb version_17 version && is_grease type
    then (if type % 2 == 0
        then elim (option_number version left) [
          | none ↦ none
          | some (n, more) ↦ some (params, type, more)
        ]
        else some (params, type, left))
    else some
        (record params { unknown = true }, type, if type % 2 == 0 then drop type_len left else left)

-- The update, with the data that an odd type has.
unfoldable pub update_with :
    (version type type_len : ℕ) → SetupOptions → Option (Bytes × Bytes) → Parsed
unfolding update
update_with version type type_len params none = none
update_with version type type_len params (some (value, left)) =
    update version type type_len params value left

-- `prev` is the type of the option before.
unfoldable pub parse_setup_option : (version prev : ℕ) → SetupOptions → Bytes → Parsed
unfolding update_with
parse_setup_option version prev params bytes =
    let (delta, used) = read_moqint version bytes in
    let type = (delta + prev) % u64 in
    if ltb (length bytes) 1
    then none
    else if used == 0 || leb (length bytes) used
    then none
    else update_with version type used params (option_data version type (drop used bytes))
