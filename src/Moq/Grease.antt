-- ===== src/Moq/Grease.antt =====
-- Reserved values and the version of a session (moq.c): `imquic_moq_is_grease`, `imquic_moq_random_grease` and
-- `imquic_moq_version_from_alpn`.
pub mod Values
use Prim.Native.String.{String}
use imquic.Base.{
  ℕ, ◌+◌, ◌-◌, ◌*◌, ◌/◌, ◌%◌, Bool, true, false, Option, none, some, ltb, ◌==◌, if◌then◌else◌, u64,
}
use imquic.Wire.Moqint.{version_16, version_17, version_18}

abbrev pub grease_base : ℕ
grease_base = 0x7f

abbrev pub grease_sum : ℕ
grease_sum = 0x9d

unfoldable pub is_grease : (value : ℕ) → Bool
is_grease value =
    let n = (value - grease_sum) / grease_base in
    if ltb value grease_sum then false else (n * grease_base + grease_sum) % u64 == value

-- The random number is the parameter: `g_random_int_range(0, 1000)` gives one below 1000.
unfoldable pub random_grease : (n : ℕ) → ℕ
random_grease n = (n * grease_base + grease_sum) % u64

-- `none` stands for NULL; `same` is `strcasecmp` of the C library being 0.
unfoldable pub version_from_alpn :
    (same : String → String → Bool) (alpn : Option String) (fallback : ℕ) → ℕ
version_from_alpn same none fallback = fallback
version_from_alpn same (some alpn) fallback =
    if same alpn "moqt-18"
    then version_18
    else if same alpn "moqt-17"
    then version_17
    else if same alpn "moqt-16"
    then version_16
    else fallback
