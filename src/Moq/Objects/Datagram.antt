-- ===== src/Moq/Objects/Datagram.antt =====
-- Datagrams of objects (moq.c): the branch for datagrams of `imquic_moq_parse_message`.
pub mod Fields
pub mod RoundTrip
pub mod LeftOut
pub mod LowByte
use imquic.Base.{
  ℕ, ◌%◌, ◌^◌, ◌≤◌, Bool, true, false, not, ◌&&◌, Option, none, some, Bytes, drop, leb, ◌==◌,
  if◌then◌else◌,
}
use imquic.Wire.Moqint.{version_18, read_moqint}
use imquic.Wire.Reader.{Parse, broken, parsed}
use imquic.Moq.DatagramType.{is_datagram_message_type_valid, datagram_message_type_parse}
use imquic.Moq.Objects.{Object}
use imquic.Moq.Objects.Parse.{map_parse, parse_object_datagram, parse_object_datagram_status}
use imquic.Moq.Objects.Send.{padding_datagram}

-- The object that the application gets, none of a padding. The type is an enumeration of 32 bits.
unfoldable pub receive_datagram : (version : ℕ) → Bytes → Parse (Option Object)
receive_datagram version bytes =
    let (number, tlen) = read_moqint version bytes in
    let dtype = number % 2 ^ 32 in
    let left = drop tlen bytes in
    let valid = is_datagram_message_type_valid dtype in
    let payload = (datagram_message_type_parse dtype).0.payload in
    if leb version_18 version && dtype == padding_datagram
    then parsed none
    else if valid && payload
    then map_parse (λ r. some r.0) (parse_object_datagram version dtype left)
    else if valid && not payload
    then map_parse (λ r. some r.0) (parse_object_datagram_status version dtype left)
    else broken
