-- ===== src/Moq/Messages.antt =====
-- Control messages (moq.c): the macros IMQUIC_MOQ_ADD_MESSAGE_TYPE and IMQUIC_MOQ_ADD_MESSAGE_LENGTH of the builders,
-- and what `imquic_moq_parse_message` makes of a control stream's buffer before it calls a parser.
pub mod Framing
pub mod Reason
pub mod Done
pub mod Cancel
pub mod Single
use imquic.Base.{
  ℕ, ◌+◌, ◌-◌, ◌*◌, ◌/◌, ◌%◌, ◌^◌, Bool, true, false, [], ◌∷◌, ◌++◌, Bytes, length, take, drop, ltb,
  if◌then◌else◌,
}
use imquic.Wire.Moqint.{read_moqint}
use imquic.Wire.Writer.{Added, rejected, overrun, stored, Writer, ◌>>◌, put_number}

-- `htons` of a `uint16_t`, which the length wraps around in.
abbrev pub length_field : ℕ → Bytes
length_field n = (n / 256 % 256) ∷ (n % 256) ∷ []

abbrev pub behind_length : Added → Added
behind_length rejected = rejected
behind_length overrun = overrun
behind_length (stored content) = stored (length_field (length content) ++ content)

-- The two bytes of the length are left free, and stored when the content is there.
unfoldable pub put_content : Writer → Writer
put_content content room = if ltb room 2 then overrun else behind_length (content (room - 2))

unfoldable pub add_message : (version type : ℕ) → (content : Writer) → Writer
add_message version type content = do put_number version type; put_content content

-- The first message of the buffer, its content and the bytes behind it, or more bytes are waited for.
pub data NextMessage : Type 0 where
  wait : NextMessage
  message : (type : ℕ) (content : Bytes) (rest : Bytes) → NextMessage

-- `ntohs` of the first two bytes.
abbrev pub u16_of : Bytes → ℕ
u16_of [] = 0
u16_of (a ∷ []) = 0
u16_of (a ∷ b ∷ bs) = a * 256 + b

-- The type is an enumeration of 32 bits.
unfoldable pub next_message : (version : ℕ) → Bytes → NextMessage
next_message version bytes =
    let (number, tlen) = read_moqint version bytes in
    let left = drop tlen bytes in
    let plen = u16_of left in
    let body = drop 2 left in
    if ltb (length left) 2
    then wait
    else if ltb (length body) plen
    then wait
    else message (number % 2 ^ 32) (take plen body) (drop plen body)
