-- ===== src/Moq/Objects/Datagram/LowByte.antt =====
-- The conversion of a datagram's type to a byte.
use imquic.Base.{
  ℕ, ◌%◌, ◌^◌, ◌≤◌, ◌≡◌, ◌≢◌, refl, arith, false, ◌&&◌, ◌++◌, Bytes, leb, ◌==◌, drop-length_append,
}
use imquic.Wire.Moqint.{version_18, write_moqint}
use imquic.Wire.Moqint.RoundTrip.{max_moqint}
use imquic.Wire.Reader.{read_back}
use imquic.Moq.DatagramType.{as_byte, is_datagram_message_type_valid, datagram_message_type_parse}
use imquic.Moq.Objects.Parse.{parse_object_datagram, parse_object_datagram_status}
use imquic.Moq.Objects.Send.{padding_datagram}
use imquic.Moq.Objects.Datagram.{receive_datagram}

same_valid :
    (a b : ℕ)
    → as_byte a ≡ as_byte b
    → is_datagram_message_type_valid a ≡ is_datagram_message_type_valid b
unfolding is_datagram_message_type_valid
same_valid a b e = rw e refl

same_flags :
    (a b : ℕ)
    → as_byte a ≡ as_byte b
    → datagram_message_type_parse a ≡ datagram_message_type_parse b
unfolding datagram_message_type_parse
same_flags a b e = rw e refl

-- A datagram whose type is a number that the version can write, and in 32 bits not the type of a padding, is received
-- as if its type were the low byte of that number: a type of 256 and above, which the protocol does not have, is taken
-- for one below.
pub receive_datagram_low_byte :
    (version n : ℕ) (rest : Bytes)
    → n ≤ max_moqint version
    → n % 2 ^ 32 ≢ padding_datagram
    → receive_datagram version (write_moqint version n 9 ++ rest)
      ≡ receive_datagram version (write_moqint version (n % 256) 9 ++ rest)
unfolding receive_datagram parse_object_datagram parse_object_datagram_status
receive_datagram_low_byte version n rest fits other =
    let low_fits : n % 256 ≤ max_moqint version = ground arith in
    let (read, _) = read_back version n rest fits in
    let (read_low, _) = read_back version (n % 256) rest low_fits in
    let e : as_byte (n % 2 ^ 32) ≡ as_byte (n % 256 % 2 ^ 32) = omega arith in
    let t : (leb version_18 version && n % 2 ^ 32 == padding_datagram) ≡ false =
      ground (arith, other) in
    let u : (leb version_18 version && n % 256 % 2 ^ 32 == padding_datagram) ≡ false =
      ground arith in
    rw
      (
        read,
        read_low,
        drop-length_append (write_moqint version n 9) rest,
        drop-length_append (write_moqint version (n % 256) 9) rest,
        t,
        u,
        same_valid (n % 2 ^ 32) (n % 256 % 2 ^ 32) e,
        same_flags (n % 2 ^ 32) (n % 256 % 2 ^ 32) e,
      )
      refl
