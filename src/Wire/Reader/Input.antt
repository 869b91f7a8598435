-- ===== src/Wire/Reader/Input.antt =====
-- Parsers on any input: how many bytes a step takes, and that it does not look past what it took.
use imquic.Base.{
  ℕ, ◌+◌, ◌≤◌, ◌≡◌, refl, ap, arith, ◌⊎◌, inl, inr, Bool, true, false, [], ◌∷◌, ◌++◌, Bytes, length,
  ltb, leb, ◌==◌, ◌||◌, Bool-cases, length-append, length-drop, drop-append, take-append,
}
use imquic.Wire.Moqint.{read_moqint}
use imquic.Wire.Moqint.Input.{read_moqint-append, read_moqint_used}
use imquic.Wire.Reader.{
  Parse, broken, protocol_violation, overread, parsed, Reader, and_then, ◌>>=◌, pure, check,
  check_protocol, if_there, number_before, number, byte, data_before, data_of,
}

and_then_parsed {ℓ κ} :
    {A : Type ℓ} {B : Type κ} (p : Parse (A × Bytes)) (f : A → Reader B) {b : B} {rest : Bytes}
    → and_then p f ≡ parsed (b, rest)
    → (a : A) × (mid : Bytes) × (p ≡ parsed (a, mid)) × (f a mid ≡ parsed (b, rest))
and_then_parsed broken f h = cc
and_then_parsed protocol_violation f h = cc
and_then_parsed overread f h = cc
and_then_parsed (parsed (a, mid)) f h = (a, mid, refl, h)

-- A chain that parses has parsed its first part, and the rest from there.
pub >>=-parsed {ℓ κ} :
    {A : Type ℓ} {B : Type κ} (m : Reader A) (f : A → Reader B) {bytes rest : Bytes} {b : B}
    → (m >>= f) bytes ≡ parsed (b, rest)
    → (a : A) × (mid : Bytes) × (m bytes ≡ parsed (a, mid)) × (f a mid ≡ parsed (b, rest))
unfolding ◌>>=◌
>>=-parsed m f {bytes} e = and_then_parsed (m bytes) f e

-- The reader takes at least `k` bytes.
pub record Takes {ℓ} {A : Type ℓ} (r : Reader A) (k : ℕ) : Type ℓ where
  pub left :
      (bytes : Bytes) {a : A} {rest : Bytes}
      → r bytes ≡ parsed (a, rest)
      → k + length rest ≤ length bytes

-- A result with bytes behind what is left.
abbrev pub extend {ℓ} : {A : Type ℓ} → Parse (A × Bytes) → Bytes → Parse (A × Bytes)
extend broken more = broken
extend protocol_violation more = protocol_violation
extend overread more = overread
extend (parsed (a, rest)) more = parsed (a, rest ++ more)

-- Unless the reader waits for bytes, what it comes to does not depend on bytes behind those that it has.
pub record IsSettled {ℓ} {A : Type ℓ} (r : Reader A) : Type ℓ where
  pub settled :
      (bytes more : Bytes) → (r bytes ≡ broken) ⊎ (r (bytes ++ more) ≡ extend (r bytes) more)

pub >>=-Takes {ℓ κ} :
    {A : Type ℓ} {B : Type κ} {m : Reader A} {f : A → Reader B} {k j : ℕ}
    → Takes m k
    → ((a : A) → Takes (f a) j)
    → Takes (m >>= f) (k + j)
unfolding ◌>>=◌
>>=-Takes {m} {f} hm hf = record {
  left = λ bytes h.
      (let (a, mid, first, second) = and_then_parsed (m bytes) f h in
        let one = hm.left bytes first in
        let two = (hf a).left mid second in omega (arith, one, two));
}

settled_after {ℓ κ} :
    {A : Type ℓ} {B : Type κ} (f : A → Reader B) (p : Parse (A × Bytes)) (more : Bytes)
    → ((a : A) → IsSettled (f a))
    → (and_then p f ≡ broken) ⊎ (and_then (extend p more) f ≡ extend (and_then p f) more)
settled_after f broken more h = inl refl
settled_after f protocol_violation more h = inr refl
settled_after f overread more h = inr refl
settled_after f (parsed (a, rest)) more h = (h a).settled rest more

pub >>=-IsSettled {ℓ κ} :
    {A : Type ℓ} {B : Type κ} {m : Reader A} {f : A → Reader B}
    → IsSettled m
    → ((a : A) → IsSettled (f a))
    → IsSettled (m >>= f)
unfolding ◌>>=◌
>>=-IsSettled {m} {f} hm hf = record {
  settled = λ bytes more. elim (hm.settled bytes more) [
    | inl e ↦ inl (ap (λ t. and_then t f) e)
    | inr e ↦ rw e (settled_after f (m bytes) more hf)
  ];
}

pub Takes-fewer {ℓ} : {A : Type ℓ} {r : Reader A} {k : ℕ} → Takes r k → Takes r 0
Takes-fewer {k} t = record {
  left = λ bytes {a} {rest} h.
      (let one : k + length rest ≤ length bytes = t.left bytes h in omega (arith, one));
}

pub number_before-Takes : (version : ℕ) → Takes (number_before version) 1
unfolding number_before
number_before-Takes version = record {
  left = λ bytes h.
      (let used = length-drop (read_moqint version bytes).1 bytes in ground (arith, used, h));
}

pub number-Takes : (version : ℕ) → Takes (number version) 1
unfolding number
number-Takes version = record {
  left = λ bytes h.
      (let used = length-drop (read_moqint version bytes).1 bytes in
        let most = read_moqint_used version bytes in ground (arith, used, most, h));
}

pub data_before-Takes : (n : ℕ) → Takes (data_before n) 0
unfolding data_before
data_before-Takes n = record {
  left = λ bytes h. (let used = length-drop n bytes in ground (arith, used, h));
}

pub data_of-Takes : (n : ℕ) → Takes (data_of n) 0
unfolding data_of
data_of-Takes n = record {
  left = λ bytes h. (let used = length-drop n bytes in ground (arith, used, h));
}

pub pure-Takes {ℓ} : {A : Type ℓ} (a : A) → Takes (pure a) 0
pure-Takes a = record { left = λ bytes h. ground (arith, h) }

pub check-Takes : (b : Bool) → Takes (check b) 0
check-Takes true = record { left = λ bytes h. ground (arith, h) }
check-Takes false = record { left = λ bytes h. cc h }

byte_left :
    (bytes : Bytes) {b : ℕ} {rest : Bytes}
    → byte bytes ≡ parsed (b, rest)
    → 1 + length rest ≤ length bytes
byte_left [] h = cc h
byte_left (b ∷ bs) h = ground (arith, h)

pub byte-Takes : Takes byte 1
byte-Takes = record { left = byte_left }

pub number_before-IsSettled : (version : ℕ) → IsSettled (number_before version)
unfolding number_before
number_before-IsSettled version = record {
  settled = λ bytes more.
      (let len : ℕ = (read_moqint version bytes).1 in
        elim (Bool-cases (len == 0 || leb (length bytes) len)) [
          | inl t ↦ inl (rw t refl)
          | inr t ↦
              let kept = read_moqint-append version bytes more (ground (arith, t)) in
              let u : (len == 0 || leb (length (bytes ++ more)) len) ≡ false =
                ground (arith, t, length-append bytes more) in
              let rest = drop-append len bytes more (read_moqint_used version bytes) in
              inr (rw (kept, u, t, rest) refl)
        ]);
}

pub number-IsSettled : (version : ℕ) → IsSettled (number version)
unfolding number
number-IsSettled version = record {
  settled = λ bytes more.
      (let len : ℕ = (read_moqint version bytes).1 in
        elim (Bool-cases (len == 0 || ltb (length bytes) len)) [
          | inl t ↦ inl (rw t refl)
          | inr t ↦
              let kept = read_moqint-append version bytes more (ground (arith, t)) in
              let u : (len == 0 || ltb (length (bytes ++ more)) len) ≡ false =
                ground (arith, t, length-append bytes more) in
              let rest = drop-append len bytes more (read_moqint_used version bytes) in
              inr (rw (kept, u, t, rest) refl)
        ]);
}

pub data_before-IsSettled : (n : ℕ) → IsSettled (data_before n)
unfolding data_before
data_before-IsSettled n = record {
  settled = λ bytes more. elim (Bool-cases (leb (length bytes) n)) [
    | inl t ↦ inl (rw t refl)
    | inr t ↦
        let le : n ≤ length bytes = ground (arith, t) in
        let u : leb (length (bytes ++ more)) n ≡ false =
          ground (arith, t, length-append bytes more) in
        inr (rw (u, t, take-append n bytes more le, drop-append n bytes more le) refl)
  ];
}

pub data_of-IsSettled : (n : ℕ) → IsSettled (data_of n)
unfolding data_of
data_of-IsSettled n = record {
  settled = λ bytes more. elim (Bool-cases (ltb (length bytes) n)) [
    | inl t ↦ inl (rw t refl)
    | inr t ↦
        let le : n ≤ length bytes = ground (arith, t) in
        let u : ltb (length (bytes ++ more)) n ≡ false =
          ground (arith, t, length-append bytes more) in
        inr (rw (u, t, take-append n bytes more le, drop-append n bytes more le) refl)
  ];
}

pub pure-IsSettled {ℓ} : {A : Type ℓ} (a : A) → IsSettled (pure a)
pure-IsSettled a = record { settled = λ bytes more. inr refl }

pub check_protocol-IsSettled : (b : Bool) → IsSettled (check_protocol b)
check_protocol-IsSettled true = record { settled = λ bytes more. inr refl }
check_protocol-IsSettled false = record { settled = λ bytes more. inr refl }

pub if_there-IsSettled {ℓ} :
    {A : Type ℓ} (b : Bool) (a : A) {r : Reader A} → IsSettled r → IsSettled (if_there b a r)
unfolding if_there
if_there-IsSettled true a h = record { settled = h.settled }
if_there-IsSettled false a h = record { settled = λ bytes more. inr refl }

pub if_there-Takes {ℓ} :
    {A : Type ℓ} (b : Bool) (a : A) {r : Reader A} {k : ℕ} → Takes r k → Takes (if_there b a r) 0
unfolding if_there
if_there-Takes true a h = record {
  left = λ bytes e. (let one = h.left bytes e in omega (arith, one));
}
if_there-Takes false a h = record { left = λ bytes e. ground (arith, e) }
