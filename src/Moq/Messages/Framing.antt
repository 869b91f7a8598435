-- ===== src/Moq/Messages/Framing.antt =====
-- A message that is built is the next message of the stream.
use imquic.Base.{
  ℕ, ◌+◌, ◌-◌, ◌*◌, ◌/◌, ◌%◌, ◌^◌, ◌≤◌, ◌<◌, ◌≡◌, refl, ap, ◌∙◌, arith, false, ◌++◌, append_assoc,
  Bytes, length, ltb, length-append, drop-length_append, take-length_append,
}
use imquic.Wire.Moqint.{write_moqint}
use imquic.Wire.Moqint.RoundTrip.{max_moqint}
use imquic.Wire.Reader.{read_back}
use imquic.Wire.Writer.{Writer, Stores, put_number-Stores, >>-Stores}
use imquic.Moq.Messages.{
  length_field, behind_length, put_content, add_message, message, next_message,
}

put_content-Stores :
    {content : Writer} {n : ℕ} {b : Bytes}
    → Stores content n b
    → Stores (put_content content) (2 + n) (length_field (length b) ++ b)
unfolding put_content
put_content-Stores {b} s =
    let few = s.few in
    record {
      few = omega (arith, few);
      stores = λ room r.
          (let t : ltb room 2 ≡ false = ground (arith, r) in
            rw t (ap behind_length (s.stores (room - 2) (omega (arith, r)))));
    }

-- A message: its type, the length of its content and the content.
abbrev pub framed : (version type : ℕ) (content : Bytes) → Bytes
framed version type content =
    write_moqint version type 9 ++ (length_field (length content) ++ content)

pub add_message-Stores :
    (version type : ℕ) {content : Writer} {n : ℕ} {b : Bytes}
    → type ≤ max_moqint version
    → Stores content n b
    → Stores (add_message version type content) (9 + (2 + n)) (framed version type b)
unfolding add_message
add_message-Stores version type h s =
    >>-Stores (put_number-Stores version type h) (put_content-Stores s)

-- The type of a message, a length of its content of less than 2^16 and the content, before any bytes, are the next
-- message of the stream: that type, that content and those bytes behind.
pub next_message-framed :
    (version type : ℕ) (content rest : Bytes)
    → type ≤ max_moqint version
    → type < 2 ^ 32
    → length content < 65536
    → next_message version (framed version type content ++ rest) ≡ message type content rest
unfolding next_message
next_message-framed version type content rest fits narrow short =
    let head : Bytes = write_moqint version type 9 in
    let body : Bytes = content ++ rest in
    let behind : Bytes = length_field (length content) ++ body in
    let (read, pos) = read_back version type behind fits in
    let len : length content / 256 % 256 * 256 + length content % 256 ≡ length content =
      omega (arith, short) in
    let t : ltb (length behind) 2 ≡ false = ground arith in
    let u : ltb (length body) (length content) ≡ false =
      ground (arith, length-append content rest) in
    let same : type % 2 ^ 32 ≡ type = omega (arith, narrow) in
    ap (next_message version) (append_assoc head (length_field (length content) ++ content) rest)
    ∙ rw
        (
          read,
          drop-length_append head behind,
          t,
          len,
          u,
          same,
          take-length_append content rest,
          drop-length_append content rest,
        )
        refl
