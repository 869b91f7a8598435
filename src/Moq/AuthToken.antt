-- ===== src/Moq/AuthToken.antt =====
-- Authorization tokens (moq.c): `imquic_moq_parse_auth_token`.
pub mod Build
pub mod RoundTrip
use imquic.Base.{
  ℕ, ◌≤◌, Bool, true, false, not, ◌&&◌, ◌||◌, Option, none, some, [], Bytes, length, ltb, leb, ◌==◌,
  if◌then◌else◌,
}
use imquic.Wire.Reader.{
  Parse, broken, Reader, ◌>>=◌, ◌>>◌, pure, check, if_there, number, remaining,
}

-- `imquic_moq_auth_token_alias_type`
abbrev pub delete_alias : ℕ
delete_alias = 0x0

abbrev pub register_alias : ℕ
register_alias = 0x1

abbrev pub use_alias : ℕ
use_alias = 0x2

abbrev pub use_value : ℕ
use_value = 0x3

-- `imquic_moq_auth_token`: a field is there if its `_set` is.
pub record AuthToken : Type 0 where
  pub alias_type : ℕ
  pub token_alias : Option ℕ
  pub token_type : Option ℕ
  pub token_value : Bytes

abbrev pub is_alias_type : ℕ → Bool
is_alias_type t = t == delete_alias || t == register_alias || t == use_alias || t == use_value

abbrev pub has_value : ℕ → Bool
has_value t = t == register_alias || t == use_value

unfoldable pub alias_field : (version : ℕ) → Reader (Option ℕ)
alias_field version = do n ← number version; pure (some n)

-- The type of the token, and its value: what is left.
unfoldable pub value_field : (version : ℕ) → Reader (Option ℕ × Bytes)
value_field version = do n ← number version; left ← remaining; pure (some n, left)

abbrev pub no_value : Option ℕ × Bytes
no_value = (none, [])

unfoldable pub auth_token_fields : (version : ℕ) → Reader AuthToken
auth_token_fields version = do
  alias_type ← number version
  check (is_alias_type alias_type)
  token_alias ← if_there (not (alias_type == use_value)) none (alias_field version)
  value ← if_there (has_value alias_type) no_value (value_field version)
  pure (record {
    alias_type = alias_type;
    token_alias = token_alias;
    token_type = value.0;
    token_value = value.1;
  })

-- `broken` stands for the -1.
unfoldable pub parse_auth_token : (version : ℕ) → Reader AuthToken
parse_auth_token version bytes =
    if length bytes == 0 then broken else auth_token_fields version bytes
