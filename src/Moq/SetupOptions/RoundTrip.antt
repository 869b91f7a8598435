-- ===== src/Moq/SetupOptions/RoundTrip.antt =====
-- A setup option that was added is parsed.
use imquic.Base.{
  ℕ, zero, suc, ◌+◌, ◌-◌, ◌%◌, ◌≤◌, ◌<◌, ◌≡◌, refl, sym, ap, ◌∙◌, arith, true, false, ◌||◌, [], ◌∷◌,
  ◌++◌, append_assoc, Option, none, some, Bytes, u64, length, take, ltb, leb, ◌==◌, length-append,
  drop-length_append, take-length_append,
}
use imquic.Wire.Moqint.{read_moqint, write_moqint}
use imquic.Wire.Moqint.RoundTrip.{
  moqint_size, max_moqint, read_moqint-write_moqint, moqint_size_pos, moqint_size-le,
}
use imquic.Wire.Moqint.Room.{length-write_moqint, write_moqint_room}
use imquic.Wire.Writer.{stored}
use imquic.Moq.SetupOptions.{
  SetupOptions, Parsed, add_int, add_data, option_data, option_number, update, update_with,
  parse_setup_option,
}

-- Reading a number that was written with room for any.
read_number :
    (version n : ℕ) (rest : Bytes)
    → n ≤ max_moqint version
    → (read_moqint version (write_moqint version n 9 ++ rest)
        ≡ (n, length (write_moqint version n 9)))
      × (0 < length (write_moqint version n 9))
      × (length (write_moqint version n 9) ≤ 9)
read_number version n rest h =
    let size = length-write_moqint version n h in
    (
      read_moqint-write_moqint version n 9 rest h (moqint_size-le version n)
          ∙ ap (λ k. (n, k)) (sym size),
      omega (arith, size, moqint_size_pos version n),
      omega (arith, size, moqint_size-le version n),
    )

-- The type of the option that starts the bytes.
parse_type :
    (version prev param : ℕ) (params : SetupOptions) (rest : Bytes)
    → prev ≤ param
    → param ≤ max_moqint version
    → 0 < length rest
    → parse_setup_option version prev params (write_moqint version (param - prev) 9 ++ rest)
      ≡ update_with version param
          (length (write_moqint version (param - prev) 9))
          params
          (option_data version param rest)
unfolding parse_setup_option
parse_type version prev param params rest le fits more =
    let w : Bytes = write_moqint version (param - prev) 9 in
    let (read, pos, small) = read_number version (param - prev) rest (omega arith) in
    let type : (param - prev + prev) % u64 ≡ param = ground arith in
    let total = length-append w rest in
    let t₁ : ltb (length (w ++ rest)) 1 ≡ false = ground (arith, total, pos) in
    let t₂ : (length w == 0 || leb (length (w ++ rest)) (length w)) ≡ false =
      ground (arith, total, pos, more) in
    rw (read, t₁, t₂, type, drop-length_append w rest) refl

parse_data :
    (version param : ℕ) (buf rest : Bytes)
    → param % 2 ≡ 1
    → length buf ≤ 65535
    → option_data version param ((write_moqint version (length buf) 9 ++ buf) ++ rest)
      ≡ some (buf, rest)
parse_data version param buf rest odd small =
    let w : Bytes = write_moqint version (length buf) 9 in
    let (read, pos, _) = read_number version (length buf) (buf ++ rest) (ground arith) in
    let t₁ : (param % 2 == 1) ≡ true = ground arith in
    let t₂ : (length w == 0) ≡ false = ground arith in
    let t₃ : ltb (length (buf ++ rest)) (length buf) ≡ false =
      ground (arith, length-append buf rest) in
    rw
      (
        append_assoc w buf rest,
        read,
        drop-length_append w (buf ++ rest),
        t₁,
        t₂,
        t₃,
        take-length_append buf rest,
        drop-length_append buf rest,
      )
      refl

-- What is added, where there is room for two numbers and the data.
added_data :
    (version blen prev param : ℕ) (buf : Bytes)
    → prev ≤ param
    → param ≤ max_moqint version
    → param % 2 ≡ 1
    → length buf ≤ 65535
    → 18 + length buf ≤ blen
    → add_data version blen param prev buf
      ≡ stored
          (write_moqint version (param - prev) 9 ++ (write_moqint version (length buf) 9 ++ buf))
unfolding add_data
added_data version blen prev param buf le fits odd small room =
    let s₁ = moqint_size-le version (param - prev) in
    let s₂ = moqint_size-le version (length buf) in
    let r₁ = write_moqint_room version (param - prev) blen (omega (arith, s₁, room)) in
    let r₂ = write_moqint_room version (length buf) blen (omega (arith, s₂, room)) in
    let w : Bytes = write_moqint version (param - prev) 9 in
    let v : Bytes = write_moqint version (length buf) 9 in
    let few : length (w ++ (v ++ buf)) ≤ blen = omega (
      arith,
      s₁,
      s₂,
      length-write_moqint version (param - prev) (omega (arith, fits)),
      length-write_moqint version (length buf) (ground (arith, small)),
      length-append w (v ++ buf),
      length-append v buf,
      room,
    ) in
    let t₁ : (blen == 0 || ltb 65535 (length buf)) ≡ false = ground (arith, small, room) in
    let t₂ : (param % 2 == 1) ≡ true = ground (arith, odd) in
    let t₃ : ltb param prev ≡ false = ground (arith, le) in
    let t₄ : ltb blen (length (w ++ (v ++ buf))) ≡ false = ground (arith, few) in
    rw (t₁, t₂, t₃, r₁, r₂, t₄) refl

added_int :
    (version blen prev param number : ℕ)
    → prev ≤ param
    → param ≤ max_moqint version
    → param % 2 ≡ 0
    → 18 ≤ blen
    → add_int version blen param prev number
      ≡ write_moqint version (param - prev) 9 ++ write_moqint version number 9
unfolding add_int
added_int version blen prev param number le fits even room =
    let s₁ = moqint_size-le version (param - prev) in
    let s₂ = moqint_size-le version number in
    let r₁ = write_moqint_room version (param - prev) blen (omega (arith, s₁)) in
    let size = length-write_moqint version (param - prev) (omega (arith, fits)) in
    let left : moqint_size version number ≤ blen - length (write_moqint version (param - prev) 9) =
      omega (arith, s₁, s₂, size) in
    let r₂ =
      write_moqint_room version number (blen - length (write_moqint version (param - prev) 9))
        left in
    let t₁ : (blen == 0) ≡ false = ground (arith, room) in
    let t₂ : (param % 2 == 0) ≡ true = ground (arith, even) in
    let t₃ : ltb param prev ≡ false = ground (arith, le) in rw (t₁, t₂, t₃, r₁, r₂) refl

take_short : (n : ℕ) (bytes : Bytes) → length bytes ≤ n → take n bytes ≡ bytes
take_short zero [] h = refl
take_short zero (b ∷ bs) h = absurd (omega arith)
take_short (suc n) [] h = refl
take_short (suc n) (b ∷ bs) h = ap (λ t. b ∷ t) (take_short n bs (omega arith))

small_type : (version param : ℕ) → param ≤ 64 → param ≤ max_moqint version
small_type version param h = ground arith

-- An authorization token of at most 256 bytes is added to the setup behind an option of no higher type, if there is
-- room for two numbers and the token, and parsing what was added, before whatever bytes, finds the token, with the type
-- and the bytes that follow.
pub parse_setup_option-add_data :
    (version blen prev : ℕ) (params : SetupOptions) (token rest : Bytes)
    → prev ≤ 0x03
    → length token ≤ 256
    → 18 + length token ≤ blen
    → (bytes : Bytes) × (add_data version blen 0x03 prev token ≡ stored bytes)
      × (parse_setup_option version prev params (bytes ++ rest)
          ≡ some (record params { auth_token_set = true; auth_token = token }, 0x03, rest))
unfolding update_with update
parse_setup_option-add_data version blen prev params token rest le small room =
    let w : Bytes = write_moqint version (0x03 - prev) 9 in
    let v : Bytes = write_moqint version (length token) 9 ++ token in
    let fits = small_type version 0x03 (omega arith) in
    let (_, pos, _) = read_number version (length token) [] (ground arith) in
    let some_bytes : 0 < length (v ++ rest) = omega (
      arith,
      length-append v rest,
      length-append (write_moqint version (length token) 9) token,
      pos,
    ) in
    (
      w ++ v,
      added_data version blen prev 0x03 token le fits refl (omega arith) room,
      ap (parse_setup_option version prev params) (append_assoc w v rest)
          ∙ parse_type version prev 0x03 params (v ++ rest) le fits some_bytes
          ∙ ap (update_with version 0x03 (length w) params)
              (parse_data version 0x03 token rest refl (omega arith))
          ∙ ap (λ t. some (record params { auth_token_set = true; auth_token = t }, 0x03, rest))
              (take_short 256 token small),
    )

number_read :
    (version number : ℕ) (rest : Bytes)
    → number ≤ max_moqint version
    → option_number version (write_moqint version number 9 ++ rest) ≡ some (number, rest)
number_read version number rest fits =
    let w : Bytes = write_moqint version number 9 in
    let (read, pos, _) = read_number version number rest fits in
    let t : (length w == 0) ≡ false = ground (arith, pos) in
    rw (read, t, drop-length_append w rest) refl

module _ (version blen prev param number : ℕ) (params : SetupOptions) (rest : Bytes)
    (le : prev ≤ param) (small : param ≤ 64) (even : param % 2 ≡ 0)
    (fits : number ≤ max_moqint version) (room : 18 ≤ blen) where
  parse_int :
      parse_setup_option version prev params (add_int version blen param prev number ++ rest)
      ≡ update version param
          (length (write_moqint version (param - prev) 9))
          params
          []
          (write_moqint version number 9 ++ rest)
  unfolding update_with
  parse_int =
      let w : Bytes = write_moqint version (param - prev) 9 in
      let v : Bytes = write_moqint version number 9 in
      let (_, pos, _) = read_number version number [] fits in
      let not_odd : (param % 2 == 1) ≡ false = ground (arith, even) in
      let kept : option_data version param (v ++ rest) ≡ some ([], v ++ rest) = rw not_odd refl in
      ap (λ t. parse_setup_option version prev params (t ++ rest))
        (added_int version blen prev param number le (small_type version param small) even room)
      ∙ ap (parse_setup_option version prev params) (append_assoc w v rest)
      ∙ parse_type version prev param params (v ++ rest) le (small_type version param small)
          (omega (arith, length-append v rest, pos))
      ∙ ap (update_with version param (length w) params) kept

-- A limit of request identifiers and a size of the token cache that are added to the setup, behind an option of
-- type 2 at most, are what parsing finds, with the type and the bytes that follow, if the number is no larger than
-- the version can write and there is room for two numbers.
pub parse_setup_option-add_int :
    (version blen prev number : ℕ) (params : SetupOptions) (rest : Bytes)
    → prev ≤ 0x02
    → number ≤ max_moqint version
    → 18 ≤ blen
    → (parse_setup_option version prev params (add_int version blen 0x02 prev number ++ rest)
        ≡ some (record params { max_request_id_set = true; max_request_id = number }, 0x02, rest))
      × (parse_setup_option version prev params (add_int version blen 0x04 prev number ++ rest)
          ≡ some (
            record params {
              max_auth_token_cache_size_set = true;
              max_auth_token_cache_size = number;
            },
            0x04,
            rest,
          ))
unfolding update
parse_setup_option-add_int version blen prev number params rest le fits room =
    let read = number_read version number rest fits in
    (
      parse_int version blen prev 0x02 number params rest le (omega arith) refl fits room
          ∙ ap
              (λ (o : Option (ℕ × Bytes)). elim o as (λ _. Parsed) [
                | none ↦ none
                | some (n, more) ↦
                    some
                      (record params { max_request_id_set = true; max_request_id = n }, 0x02, more)
              ])
              read,
      parse_int version blen prev 0x04 number params rest (omega arith) (omega arith) refl fits room
          ∙ ap
              (λ (o : Option (ℕ × Bytes)). elim o as (λ _. Parsed) [
                | none ↦ none
                | some (n, more) ↦ some (
                  record params {
                    max_auth_token_cache_size_set = true;
                    max_auth_token_cache_size = n;
                  },
                  0x04,
                  more,
                )
              ])
              read,
    )
