-- ===== src/Moq/Codes/Distinct.antt =====
-- A name that the code gives tells which number was meant.
use Prim.Native.String.{String}
use text.Mathlib.Text
use text.Mathlib.TextPositions.{eq_refl}
use imquic.Base.{
  leb, ℕ, ◌≡◌, ◌≢◌, refl, sym, ap, ◌∙◌, arith, ◌⊎◌, inl, inr, Bool, true, not, ◌&&◌, [], ◌∷◌,
  Option, some, lookup, Bool-cases, ◌==◌, ==_iff,
}
use imquic.Wire.Moqint.{version_18}
use imquic.Moq.Codes.{
  Table, error_codes, error_code_str, request_error_codes, request_error_code_str, pub_done_codes,
  pub_done_code_str, reset_stream_codes, reset_stream_code_str, request_states, request_state_str,
  setup_option_types, setup_option_type_str, filter_types, filter_type_str, group_orders,
  group_order_str, subscribe_namespace_options_table, subscribe_namespace_options_str, fetch_types,
  fetch_type_str, auth_token_alias_types, auth_token_alias_type_str, message_types,
  message_type_str, request_parameter_types, request_parameter_type_str,
}

-- No entry of the table has the name, and no two entries have the same one.
abbrev fresh_name : String → Table → Bool
fresh_name n [] = true
fresh_name n ((c, m) ∷ t) = not (Text.◌==◌ n m) && fresh_name n t

abbrev distinct : Table → Bool
distinct [] = true
distinct ((c, m) ∷ t) = fresh_name m t && distinct t

some_injective : (m n : String) → some m ≡ some n → m ≡ n
some_injective m n e = cc

fresh_unnamed : (n : String) (t : Table) (c : ℕ) → fresh_name n t ≡ true → lookup c t ≡ some n → ⊥
unfolding lookup
fresh_unnamed n [] c f h = cc
fresh_unnamed n ((j, m) ∷ t) c f h = elim (Bool-cases (j == c)) [
  | inl same ↦
      let q : m ≡ n = some_injective m n (rw same at h) in
      let r : (Text.◌==◌ n m) ≡ true = rw q (eq_refl n) in ground (arith, r, f)
  | inr other ↦ fresh_unnamed n t c (ground arith) (rw other at h)
]

-- Looking up in a table whose names are distinct tells codes apart.
distinct_names :
    (t : Table) (c d : ℕ) (n : String)
    → distinct t ≡ true
    → lookup c t ≡ some n
    → lookup d t ≡ some n
    → c ≡ d
unfolding lookup
distinct_names [] c d n e hc hd = absurd cc
distinct_names ((j, m) ∷ t) c d n e hc hd = elim (Bool-cases (j == c)) [
  | inl jc ↦ elim (Bool-cases (j == d)) [
    | inl jd ↦ omega (arith, (==_iff j c).0 jc, (==_iff j d).0 jd)
    | inr not_d ↦
        let q : m ≡ n = some_injective m n (rw jc at hc) in
        absurd (fresh_unnamed m t d (ground arith) (rw not_d at hd ∙ ap some (sym q)))
  ]
  | inr not_c ↦ elim (Bool-cases (j == d)) [
    | inl jd ↦
        let q : m ≡ n = some_injective m n (rw jd at hd) in
        absurd (fresh_unnamed m t c (ground arith) (rw not_c at hc ∙ ap some (sym q)))
    | inr not_d ↦ distinct_names t c d n (ground arith) (rw not_c at hc) (rw not_d at hd)
  ]
]

-- The tables of numbers that have one name each.
pub data Codes : Type 0 where
  of_error_code : Codes
  of_request_error_code : Codes
  of_pub_done_code : Codes
  of_reset_stream_code : Codes
  of_request_state : Codes
  of_setup_option_type : Codes
  of_filter_type : Codes
  of_group_order : Codes
  of_subscribe_namespace_options : Codes
  of_fetch_type : Codes
  of_auth_token_alias_type : Codes
  of_request_parameter_type : (version : ℕ) → Codes

abbrev pub table_of : Codes → Table
table_of of_error_code = error_codes
table_of of_request_error_code = request_error_codes
table_of of_pub_done_code = pub_done_codes
table_of of_reset_stream_code = reset_stream_codes
table_of of_request_state = request_states
table_of of_setup_option_type = setup_option_types
table_of of_filter_type = filter_types
table_of of_group_order = group_orders
table_of of_subscribe_namespace_options = subscribe_namespace_options_table
table_of of_fetch_type = fetch_types
table_of of_auth_token_alias_type = auth_token_alias_types
table_of (of_request_parameter_type version) = request_parameter_types version

-- What `..._str` answers for each of them.
abbrev pub code_str : Codes → ℕ → Option String
code_str of_error_code = error_code_str
code_str of_request_error_code = request_error_code_str
code_str of_pub_done_code = pub_done_code_str
code_str of_reset_stream_code = reset_stream_code_str
code_str of_request_state = request_state_str
code_str of_setup_option_type = setup_option_type_str
code_str of_filter_type = filter_type_str
code_str of_group_order = group_order_str
code_str of_subscribe_namespace_options = subscribe_namespace_options_str
code_str of_fetch_type = fetch_type_str
code_str of_auth_token_alias_type = auth_token_alias_type_str
code_str (of_request_parameter_type version) = request_parameter_type_str version

table_distinct : (k : Codes) → distinct (table_of k) ≡ true
table_distinct of_error_code = refl
table_distinct of_request_error_code = refl
table_distinct of_pub_done_code = refl
table_distinct of_reset_stream_code = refl
table_distinct of_request_state = refl
table_distinct of_setup_option_type = refl
table_distinct of_filter_type = refl
table_distinct of_group_order = refl
table_distinct of_subscribe_namespace_options = refl
table_distinct of_fetch_type = refl
table_distinct of_auth_token_alias_type = refl
table_distinct (of_request_parameter_type version) = elim (Bool-cases (leb version_18 version)) [
  | inl e ↦ rw e refl
  | inr e ↦ rw e refl
]

code_str_table : (k : Codes) (c : ℕ) → code_str k c ≡ lookup c (table_of k)
code_str_table of_error_code c = refl
code_str_table of_request_error_code c = refl
code_str_table of_pub_done_code c = refl
code_str_table of_reset_stream_code c = refl
code_str_table of_request_state c = refl
code_str_table of_setup_option_type c = refl
code_str_table of_filter_type c = refl
code_str_table of_group_order c = refl
code_str_table of_subscribe_namespace_options c = refl
code_str_table of_fetch_type c = refl
code_str_table of_auth_token_alias_type c = refl
code_str_table (of_request_parameter_type version) c = refl

-- Two different numbers are never given the same name: error codes of sessions, of requests, of ended
-- publications and of reset streams, request states, setup options, request parameters of any version,
-- filters, group orders, namespace options, fetch types and kinds of token alias.
pub code_str_distinct :
    (k : Codes) (c d : ℕ) (n : String) → c ≢ d → code_str k c ≡ some n → code_str k d ≢ some n
code_str_distinct k c d n differ hc = λ hd. differ (
    distinct_names (table_of k) c d n (table_distinct k) (sym (code_str_table k c) ∙ hc)
      (sym (code_str_table k d) ∙ hd))

message_types_tail : Table
message_types_tail = elim message_types [ [] ↦ [] | _ ∷ t ↦ t ]

message_type_str_same :
    (c d : ℕ) (n : String)
    → message_type_str c ≡ some n
    → message_type_str d ≡ some n
    → (c ≡ d) ⊎ (n ≡ "SUBSCRIBE_NAMESPACE")
unfolding lookup message_types_tail
message_type_str_same c d n hc hd = elim (Bool-cases (17 == c)) [
  | inl old ↦ inr (sym (some_injective _ n (rw old at hc)))
  | inr not_c ↦ elim (Bool-cases (17 == d)) [
    | inl old ↦ inr (sym (some_injective _ n (rw old at hd)))
    | inr not_d ↦
        inl (distinct_names message_types_tail c d n refl (rw not_c at hc) (rw not_d at hd))
  ]
]

-- Two different message types are never given the same name, but for the two of SUBSCRIBE_NAMESPACE.
pub message_type_str_distinct :
    (c d : ℕ) (n : String)
    → c ≢ d
    → n ≢ "SUBSCRIBE_NAMESPACE"
    → message_type_str c ≡ some n
    → message_type_str d ≢ some n
message_type_str_distinct c d n differ other hc =
    λ hd. elim (message_type_str_same c d n hc hd) [ inl e ↦ differ e | inr e ↦ other e ]
