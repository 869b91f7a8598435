-- ===== src/Moq/AuthToken/Build.antt =====
-- The builder of an authorization token (moq.c): `imquic_moq_build_auth_token`.
use imquic.Base.{ℕ, not, ◌||◌, Option, none, some, Bytes, ◌==◌, if◌then◌else◌}
use imquic.Wire.Writer.{Writer, rejected, ◌>>◌, when, put_number, put_bytes}
use imquic.Moq.AuthToken.{AuthToken, use_value, is_alias_type, has_value}

-- A field that must be set.
abbrev pub put_set : (version : ℕ) → Option ℕ → Writer
put_set version none room = rejected
put_set version (some n) room = put_number version n room

unfoldable pub put_typed : (version : ℕ) → Option ℕ → (value : Bytes) → Writer
put_typed version type value = do put_set version type; put_bytes value

unfoldable pub build_auth_token : (version : ℕ) → AuthToken → Writer
build_auth_token version token room =
    if room == 0 || not (is_alias_type token.alias_type)
    then rejected
    else (do
      put_number version token.alias_type
      when (not (token.alias_type == use_value)) (put_set version token.token_alias)
      when (has_value token.alias_type) (put_typed version token.token_type token.token_value))
        room
