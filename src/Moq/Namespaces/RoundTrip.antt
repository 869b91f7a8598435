-- ===== src/Moq/Namespaces/RoundTrip.antt =====
-- What is added to a message is what is parsed out of it.
use imquic.Base.{
  ℕ, suc, ◌+◌, ◌-◌, ◌≤◌, ◌<◌, ◌≡◌, refl, sym, ap, ◌∙◌, arith, ◌⊎◌, inr, Bool, true, false, not,
  ◌&&◌, ◌||◌, List, [], ◌∷◌, ◌++◌, append_assoc, All, Bytes, length, drop, ltb, leb, ◌==◌,
  if◌then◌else◌, length-append, drop-length_append, take-length_append,
}
use imquic.Wire.Moqint.{read_moqint, write_moqint}
use imquic.Wire.Moqint.RoundTrip.{
  moqint_size, max_moqint, read_moqint-write_moqint, moqint_size_pos, moqint_size-le,
}
use imquic.Wire.Moqint.Room.{length-write_moqint, write_moqint_room}
use imquic.Wire.Writer.{stored}
use imquic.Moq.Namespaces.{
  may_be_empty, fields, cons_field, parse_fields, total_len, parse_namespaces, add_fields,
  add_namespaces,
}

-- The bytes of a field and of all fields, and their size.
abbrev pub encode_field : (version : ℕ) → Bytes → Bytes
encode_field version tn = write_moqint version (length tn) 9 ++ tn

abbrev pub encode_fields : (version : ℕ) → List Bytes → Bytes
encode_fields version [] = []
encode_fields version (tn ∷ tns) = encode_field version tn ++ encode_fields version tns

abbrev pub fields_size : (version : ℕ) → List Bytes → ℕ
fields_size version [] = 0
fields_size version (tn ∷ tns) =
    moqint_size version (length tn) + length tn + fields_size version tns

-- A field that has bytes, and no more than a whole namespace may have.
abbrev pub IsField : Bytes → Type 0
IsField tn = (0 < length tn) × (length tn ≤ 4096)

small_max : (version n : ℕ) → n ≤ 4096 → n ≤ max_moqint version
small_max version n h = ground arith

-- With room enough, nothing is written past the end.
add_fields_room :
    (version room : ℕ) (tns : List Bytes)
    → All IsField tns
    → fields_size version tns ≤ room
    → add_fields version tns room ≡ stored (encode_fields version tns)
unfolding add_fields
add_fields_room version room [] h fits = refl
add_fields_room version room (tn ∷ tns) ((some_bytes, few), h) fits =
    let w = write_moqint_room version (length tn) room (omega arith) in
    let size = length-write_moqint version (length tn) (small_max version _ few) in
    let rest =
      add_fields_room version (room - (moqint_size version (length tn) + length tn)) tns h
        (omega arith) in
    let test : ltb room (moqint_size version (length tn) + length tn) ≡ false = ground arith in
    rw (w, size, test, rest) refl

read_field :
    (version : ℕ) (tn tail : Bytes)
    → length tn ≤ 4096
    → read_moqint version (encode_field version tn ++ tail)
      ≡ (length tn, length (write_moqint version (length tn) 9))
read_field version tn tail few =
    let w : Bytes = write_moqint version (length tn) 9 in
    let size = length-write_moqint version (length tn) (small_max version _ few) in
    ap (read_moqint version) (append_assoc w tn tail)
    ∙ read_moqint-write_moqint version (length tn) 9 (tn ++ tail) (small_max version _ few)
        (moqint_size-le version (length tn))
    ∙ ap (λ n. (length tn, n)) (sym size)

room_left :
    (last : Bool) (n : ℕ) (tn tail : Bytes)
    → ((last && n == 0) ≡ true) ⊎ (0 < length tail)
    → (if last && n == 0
        then ltb (length (tn ++ tail)) (length tn)
        else leb (length (tn ++ tail)) (length tn))
      ≡ false
room_left last n tn tail ends = ground (arith, length-append tn tail, ends)

-- One round of the loop takes one field, if it is the last of a message or bytes follow.
parse_field :
    (version n : ℕ) (last : Bool) (tn tail : Bytes)
    → IsField tn
    → ((last && n == 0) ≡ true) ⊎ (0 < length tail)
    → parse_fields version last (suc n) (encode_field version tn ++ tail)
      ≡ cons_field tn (parse_fields version last n tail)
unfolding parse_fields
parse_field version n last tn tail (some_bytes, few) ends =
    let w : Bytes = write_moqint version (length tn) 9 in
    let size = length-write_moqint version (length tn) (small_max version _ few) in
    let pos = moqint_size_pos version (length tn) in
    let left : drop (length w) ((w ++ tn) ++ tail) ≡ tn ++ tail =
      ap (drop (length w)) (append_assoc w tn tail) ∙ drop-length_append w (tn ++ tail) in
    let total : length ((w ++ tn) ++ tail) ≡ length w + (length tn + length tail) =
      omega (arith, length-append (w ++ tn) tail, length-append w tn) in
    let t₁ : (length w + (length tn + length tail) == 0) ≡ false = ground (arith, some_bytes) in
    let t₂ : (length w == 0 || leb (length w + (length tn + length tail)) (length w)) ≡ false =
      ground (arith, size, pos, some_bytes) in
    let t₃ : (length tn == 0) ≡ false = ground (arith, some_bytes) in
    let t₄ : (if last && n == 0
          then ltb (length (tn ++ tail)) (length tn)
          else leb (length (tn ++ tail)) (length tn))
        ≡ false =
      room_left last n tn tail ends in
    rw
      (
        read_field version tn tail few,
        left,
        take-length_append tn tail,
        drop-length_append tn tail,
        total,
        t₁,
        t₂,
        t₃,
        t₄,
      )
      refl

-- The field is the message's last, or bytes follow it.
ends_after :
    (version : ℕ) (last : Bool) (tns : List Bytes) (tail : Bytes)
    → All IsField tns
    → (last ≡ true) ⊎ (0 < length tail)
    → ((last && length tns == 0) ≡ true) ⊎ (0 < length (encode_fields version tns ++ tail))
ends_after version last [] tail h ends = ground (arith, ends)
ends_after version last (tn ∷ tns) tail ((some_bytes, _), h) ends = inr (
    omega (
      arith,
      length-append (encode_field version tn ++ encode_fields version tns) tail,
      length-append (encode_field version tn) (encode_fields version tns),
      length-append (write_moqint version (length tn) 9) tn,
      some_bytes,
    ))

parse_fields-encode_fields :
    (version : ℕ) (last : Bool) (tns : List Bytes) (tail : Bytes)
    → All IsField tns
    → (last ≡ true) ⊎ (0 < length tail)
    → parse_fields version last (length tns) (encode_fields version tns ++ tail) ≡ fields tns tail
unfolding parse_fields
parse_fields-encode_fields version last [] tail h ends = refl
parse_fields-encode_fields version last (tn ∷ tns) tail (ht, h) ends =
    ap (parse_fields version last (suc (length tns)))
      (append_assoc (encode_field version tn) (encode_fields version tns) tail)
    ∙ parse_field version (length tns) last tn (encode_fields version tns ++ tail) ht
        (ends_after version last tns tail h ends)
    ∙ ap (cons_field tn) (parse_fields-encode_fields version last tns tail h ends)

-- The tests before the loop, on the numbers that they compare.
enough_fields :
    (n : ℕ) (empty : Bool)
    → n ≤ 32
    → (0 < n) ⊎ (empty ≡ true)
    → (n == 0 && not empty || ltb 32 n) ≡ false
enough_fields n empty few one = ground (arith, one)

bytes_follow :
    (size n total : ℕ)
    → 0 < size
    → (0 < n → size < total)
    → (size == 0 || ltb 0 n && leb total size) ≡ false
bytes_follow size n total pos more = ground (arith, more)

encoded_longer :
    (version : ℕ) (tns : List Bytes) (w tail : Bytes)
    → All IsField tns
    → 0 < length tns
    → length w < length (w ++ (encode_fields version tns ++ tail))
encoded_longer version [] w tail h some_field = absurd (omega arith)
encoded_longer version (tn ∷ tns) w tail ((some_bytes, _), h) some_field =
    let all : Bytes = encode_fields version (tn ∷ tns) in
    omega (
      arith,
      length-append w (all ++ tail),
      length-append all tail,
      length-append (encode_field version tn) (encode_fields version tns),
      length-append (write_moqint version (length tn) 9) tn,
      some_bytes,
    )

-- A namespace of at most 32 fields, none of them empty and 4096 bytes in all, is stored where the room is
-- enough, and parsing what was stored gives its fields and the bytes that follow. A request that cannot go
-- without a field has one, and bytes follow where the namespace is not the last of the message.
pub parse_namespaces-add_namespaces :
    (version request room : ℕ) (last : Bool) (tns : List Bytes) (tail : Bytes)
    → All IsField tns
    → length tns ≤ 32
    → total_len tns ≤ 4096
    → (0 < length tns) ⊎ (may_be_empty request ≡ true)
    → (last ≡ true) ⊎ (0 < length tail)
    → 9 + fields_size version tns ≤ room
    → (all : Bytes) × (add_namespaces version request tns room ≡ stored all)
      × (parse_namespaces version request last (all ++ tail) ≡ fields tns tail)
unfolding parse_namespaces add_namespaces
parse_namespaces-add_namespaces version request room last tns tail h few total one ends fits =
    let n : ℕ = length tns in
    let w : Bytes = write_moqint version n 9 in
    let small : n ≤ max_moqint version = small_max version n (omega arith) in
    let le = moqint_size-le version n in
    let pos = moqint_size_pos version n in
    let size = length-write_moqint version n small in
    let known = write_moqint_room version n room (omega (arith, le)) in
    let added = add_fields_room version (room - length w) tns h (omega (arith, le, size)) in
    let read = read_moqint-write_moqint version n 9 (encode_fields version tns ++ tail) small le in
    let body : drop (moqint_size version n) (w ++ (encode_fields version tns ++ tail))
        ≡ encode_fields version tns ++ tail =
      rw (← size) (drop-length_append w (encode_fields version tns ++ tail)) in
    let parsed = parse_fields-encode_fields version last tns tail h ends in
    let bytes = append_assoc w (encode_fields version tns) tail in
    let refuse : (n == 0 && not (may_be_empty request) || ltb 32 n) ≡ false =
      enough_fields n (may_be_empty request) few one in
    let start : (moqint_size version n == 0
          || ltb 0 n
            && leb (length (w ++ (encode_fields version tns ++ tail))) (moqint_size version n))
        ≡ false =
      bytes_follow (moqint_size version n) n _ pos
        (λ p. rw (← size) (encoded_longer version tns w tail h p)) in
    let whole : ltb 4096 (total_len tns) ≡ false = ground arith in
    (
      w ++ encode_fields version tns,
      rw (known, refuse, added) refl,
      rw (bytes, read, start, refuse, body, parsed, whole) refl,
    )
