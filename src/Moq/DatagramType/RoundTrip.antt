-- ===== src/Moq/DatagramType/RoundTrip.antt =====
-- Types and flags of datagrams determine one another.
use imquic.Base.{
  ℕ, ◌<◌, ◌≡◌, refl, arith, true, false, ◌&&◌, if◌then◌else◌, agree_below, agree_below→eq,
}
use imquic.Moq.DatagramType.{
  DatagramFlags, is_datagram_message_type_valid, datagram_message_type_return,
  datagram_message_type_parse,
}

-- Parsing the type made of some flags reports no violation and gives the flags back, but for the end of
-- group, which only a datagram with a payload carries; and the type is a valid one.
pub datagram_message_type_parse-return :
    (f : DatagramFlags)
    → (datagram_message_type_parse (datagram_message_type_return f)
        ≡ (record f { eog = f.payload && f.eog }, false))
      × (is_datagram_message_type_valid (datagram_message_type_return f) ≡ true)
unfolding datagram_message_type_parse datagram_message_type_return is_datagram_message_type_valid
datagram_message_type_parse-return f = ground arith

return_parse_table :
    (type : ℕ)
    → type < 256
    → (if (datagram_message_type_parse type).1
        then type
        else datagram_message_type_return (datagram_message_type_parse type).0)
      ≡ type
unfolding agree_below datagram_message_type_parse datagram_message_type_return
return_parse_table = agree_below→eq _ (λ type. type) 256 refl

-- A byte that parsing finds no violation in is the type made of the flags that it parses to.
pub datagram_message_type_return-parse :
    (type : ℕ)
    → type < 256
    → (datagram_message_type_parse type).1 ≡ false
    → datagram_message_type_return (datagram_message_type_parse type).0 ≡ type
datagram_message_type_return-parse type h ok = rw ok at (return_parse_table type h)
