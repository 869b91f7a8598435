-- ===== src/Wire/Reader.antt =====
-- Parsing one thing behind another in a buffer, the way the parsers of moq.c do: the bytes from `offset` on, of
-- which each step takes what it parsed. The names of the steps follow the test that a parser makes.
pub mod Input
use imquic.Base.{
  ℕ, zero, suc, ◌+◌, ◌-◌, ◌≤◌, ◌<◌, ◌≡◌, refl, sym, ap, ◌∙◌, arith, Bool, true, false, ◌||◌, [],
  ◌∷◌, ◌++◌, append-nil, append_assoc, Bytes, length, take, drop, ltb, leb, ◌==◌, if◌then◌else◌,
  length-append, drop-length_append, take-length_append, drop-append, take-append, length-drop,
}
use imquic.Wire.Moqint.{read_moqint, write_moqint}
use imquic.Wire.Moqint.RoundTrip.{
  max_moqint, read_moqint-write_moqint, moqint_size_pos, moqint_size-le,
}
use imquic.Wire.Moqint.Room.{length-write_moqint}
use imquic.Wire.Moqint.Input.{read_moqint-append, read_moqint_used}

-- What a parser comes to: it fails without an error code or with PROTOCOL_VIOLATION, it reads past the end of its
-- bytes, or it goes on.
pub data Parse {ℓ} (A : Type ℓ) : Type ℓ where
  broken : Parse A
  protocol_violation : Parse A
  overread : Parse A
  parsed : A → Parse A

abbrev pub Reader {ℓ} : Type ℓ → Type ℓ
Reader A = Bytes → Parse (A × Bytes)

abbrev pub and_then {ℓ κ} :
    {A : Type ℓ} {B : Type κ} → Parse (A × Bytes) → (A → Reader B) → Parse (B × Bytes)
and_then broken f = broken
and_then protocol_violation f = protocol_violation
and_then overread f = overread
and_then (parsed (a, rest)) f = f a rest

infixl 5 ◌>>=◌ ◌>>◌
unfoldable pub ◌>>=◌ {ℓ κ} : {A : Type ℓ} {B : Type κ} → Reader A → (A → Reader B) → Reader B
◌>>=◌ m f bytes = and_then (m bytes) f

abbrev pub ◌>>◌ {ℓ κ} : {A : Type ℓ} {B : Type κ} → Reader A → Reader B → Reader B
m >> r = m >>= λ _. r

abbrev pub pure {ℓ} : {A : Type ℓ} → A → Reader A
pure a bytes = parsed (a, bytes)

abbrev pub check : Bool → Reader (Unit {0})
check ok bytes = if ok then parsed (tt, bytes) else broken

abbrev pub check_protocol : Bool → Reader (Unit {0})
check_protocol ok bytes = if ok then parsed (tt, bytes) else protocol_violation

unfoldable pub if_there {ℓ} : {A : Type ℓ} → Bool → A → Reader A → Reader A
if_there b a r bytes = if b then r bytes else parsed (a, bytes)

-- A number that bytes follow: `length == 0 || length >= blen-offset` fails.
unfoldable pub number_before : (version : ℕ) → Reader ℕ
number_before version bytes =
    let (number, len) = read_moqint version bytes in
    if len == 0 || leb (length bytes) len then broken else parsed (number, drop len bytes)

-- A number that may be the last: `length == 0 || length > blen-offset` fails.
unfoldable pub number : (version : ℕ) → Reader ℕ
number version bytes =
    let (n, len) = read_moqint version bytes in
    if len == 0 || ltb (length bytes) len then broken else parsed (n, drop len bytes)

-- `bytes[offset]; offset++`
abbrev pub byte : Reader ℕ
byte [] = overread
byte (b ∷ bs) = parsed (b, bs)

-- `n` bytes that bytes follow: `n >= blen-offset` fails.
unfoldable pub data_before : (n : ℕ) → Reader Bytes
data_before n bytes = if leb (length bytes) n then broken else parsed (take n bytes, drop n bytes)

-- `n` bytes that may be the last: `n > blen-offset` fails.
unfoldable pub data_of : (n : ℕ) → Reader Bytes
data_of n bytes = if ltb (length bytes) n then broken else parsed (take n bytes, drop n bytes)

-- All the bytes that are left.
abbrev pub remaining : Reader Bytes
remaining bytes = parsed (bytes, [])

-- Before this rest, the reader takes these bytes for that value.
pub record Reads {ℓ} {A : Type ℓ} (r : Reader A) (bytes : Bytes) (a : A) (rest : Bytes)
    : Type ℓ where
  pub reads : r (bytes ++ rest) ≡ parsed (a, rest)

pub >>=-Reads {ℓ κ} :
    {A : Type ℓ} {B : Type κ} {m : Reader A} (f : A → Reader B) {b c : Bytes} {a : A} {d : B}
    {rest : Bytes}
    → Reads m b a (c ++ rest)
    → Reads (f a) c d rest
    → Reads (m >>= f) (b ++ c) d rest
unfolding ◌>>=◌
>>=-Reads {m} f {b} {c} {rest} hm hf = record {
  reads = ap (λ t. and_then t f) (ap m (append_assoc b c rest) ∙ hm.reads) ∙ hf.reads;
}

pub last-Reads {ℓ κ} :
    {A : Type ℓ} {B : Type κ} {m : Reader A} (f : A → Reader B) {b : Bytes} {a : A} {d : B}
    {rest : Bytes}
    → Reads m b a rest
    → Reads (f a) [] d rest
    → Reads (m >>= f) b d rest
unfolding ◌>>=◌
last-Reads f hm hf = record { reads = ap (λ t. and_then t f) hm.reads ∙ hf.reads }

-- What is read, up to an equation.
pub Reads-value {ℓ} :
    {A : Type ℓ} {r : Reader A} {b : Bytes} {a c : A} {rest : Bytes}
    → Reads r b a rest
    → a ≡ c
    → Reads r b c rest
Reads-value {rest} h e = record { reads = h.reads ∙ ap (λ t. parsed (t, rest)) e }

pub read_back :
    (version n : ℕ) (rest : Bytes)
    → n ≤ max_moqint version
    → (read_moqint version (write_moqint version n 9 ++ rest)
        ≡ (n, length (write_moqint version n 9)))
      × (0 < length (write_moqint version n 9))
read_back version n rest h =
    let size = length-write_moqint version n h in
    (
      read_moqint-write_moqint version n 9 rest h (moqint_size-le version n)
          ∙ ap (λ k. (n, k)) (sym size),
      omega (arith, size, moqint_size_pos version n),
    )

pub number_before-Reads :
    (version n : ℕ) {rest : Bytes}
    → n ≤ max_moqint version
    → 0 < length rest
    → Reads (number_before version) (write_moqint version n 9) n rest
unfolding number_before
number_before-Reads version n {rest} h more =
    let w : Bytes = write_moqint version n 9 in
    let (read, pos) = read_back version n rest h in
    let t : (length w == 0 || leb (length (w ++ rest)) (length w)) ≡ false =
      ground (arith, pos, more, length-append w rest) in
    record { reads = rw (read, t, drop-length_append w rest) refl }

pub number-Reads :
    (version n : ℕ) {rest : Bytes}
    → n ≤ max_moqint version
    → Reads (number version) (write_moqint version n 9) n rest
unfolding number
number-Reads version n {rest} h =
    let w : Bytes = write_moqint version n 9 in
    let (read, pos) = read_back version n rest h in
    let t : (length w == 0 || ltb (length (w ++ rest)) (length w)) ≡ false =
      ground (arith, pos, length-append w rest) in
    record { reads = rw (read, t, drop-length_append w rest) refl }

pub data_before-Reads :
    (bytes : Bytes) {rest : Bytes}
    → 0 < length rest
    → Reads (data_before (length bytes)) bytes bytes rest
unfolding data_before
data_before-Reads bytes {rest} more =
    let t : leb (length (bytes ++ rest)) (length bytes) ≡ false =
      ground (arith, more, length-append bytes rest) in
    record { reads = rw (t, take-length_append bytes rest, drop-length_append bytes rest) refl }

pub data_of-Reads : (bytes : Bytes) {rest : Bytes} → Reads (data_of (length bytes)) bytes bytes rest
unfolding data_of
data_of-Reads bytes {rest} =
    let t : ltb (length (bytes ++ rest)) (length bytes) ≡ false =
      ground (arith, length-append bytes rest) in
    record { reads = rw (t, take-length_append bytes rest, drop-length_append bytes rest) refl }

pub if_there-Reads {ℓ} :
    {A : Type ℓ} (b : Bool) (a : A) {c : A} {r : Reader A} {bytes rest : Bytes}
    → (b ≡ true → Reads r bytes c rest)
    → Reads (if_there b a r) (if b then bytes else []) (if b then c else a) rest
unfolding if_there
if_there-Reads true a h = record { reads = (h refl).reads }
if_there-Reads false a h = record { reads = refl }

pub pure-Reads {ℓ} : {A : Type ℓ} (a : A) {rest : Bytes} → Reads (pure a) [] a rest
pure-Reads a = record { reads = refl }

pub byte-Reads : (b : ℕ) {rest : Bytes} → Reads byte (b ∷ []) b rest
byte-Reads b = record { reads = refl }

pub remaining-Reads : (bytes : Bytes) → Reads remaining bytes bytes []
remaining-Reads bytes = record { reads = ap (λ t. parsed (t, [])) (append-nil bytes) }

pub check-Reads : {b : Bool} {rest : Bytes} → b ≡ true → Reads (check b) [] tt rest
check-Reads h = record { reads = rw h refl }

pub check_protocol-Reads :
    {b : Bool} {rest : Bytes} → b ≡ true → Reads (check_protocol b) [] tt rest
check_protocol-Reads h = record { reads = rw h refl }
