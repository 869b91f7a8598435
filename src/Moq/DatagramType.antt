-- ===== src/Moq/DatagramType.antt =====
-- The type of a MoQ datagram (moq.c): `imquic_moq_is_datagram_message_type_valid`,
-- `imquic_moq_datagram_message_type_return` and `imquic_moq_datagram_message_type_parse`.
-- The version is an argument that none of them reads. The type that is tested and parsed is a `uint8_t`, to which the
-- number that a caller hands over is converted. The pointers of the parser are not NULL.
pub mod RoundTrip
use imquic.Base.{
  ℕ, ◌≤◌, ◌<◌, Bool, true, false, not, ◌&&◌, ◌||◌, ◌%◌, bit_and, bit_or, ltb, leb, ◌==◌,
  if◌then◌else◌,
}

-- What a type says of its datagram.
pub record DatagramFlags : Type 0 where
  pub payload : Bool
  pub prop : Bool
  pub eog : Bool
  pub oid : Bool
  pub priority : Bool

-- A `gboolean` that a mask gives.
abbrev pub is_set : (type mask : ℕ) → Bool
is_set type mask = not (bit_and type mask == 0)

abbrev pub set_if : Bool → (type mask : ℕ) → ℕ
set_if b type mask = if b then bit_or type mask else type

-- `uint8_t`
abbrev pub as_byte : ℕ → ℕ
as_byte n = n % 256

unfoldable pub is_datagram_message_type_valid : (number : ℕ) → Bool
is_datagram_message_type_valid number =
    let type = as_byte number in leb type 0x0f || leb 0x20 type && leb type 0x2d

unfoldable pub datagram_message_type_return : DatagramFlags → ℕ
datagram_message_type_return f =
    let type : ℕ = if f.payload then 0x00 else 0x20 in
    let eog = if not f.payload then false else f.eog in
    let with_eog = set_if eog type 0x02 in
    let with_prop = set_if f.prop with_eog 0x01 in
    let with_oid = set_if (not f.oid) with_prop 0x04 in set_if (not f.priority) with_oid 0x08

-- The flags, and whether the type violates the protocol.
unfoldable pub datagram_message_type_parse : (number : ℕ) → DatagramFlags × Bool
datagram_message_type_parse number =
    let type = as_byte number in
    (
      record {
        payload = not (is_set type 0x20);
        prop = is_set type 0x01;
        eog = is_set type 0x02;
        oid = not (is_set type 0x04);
        priority = not (is_set type 0x08);
      },
      ltb 0x0f type && ltb type 0x20 || ltb 0x2d type || leb 0x20 type && is_set type 0x02,
    )
