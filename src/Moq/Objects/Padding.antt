-- ===== src/Moq/Objects/Padding.antt =====
-- The padding that `imquic_moq_add_padding` stores.
use imquic.Base.{
  ℕ, zero, suc, ◌+◌, ◌-◌, ◌≤◌, ◌<◌, ◌≡◌, refl, ap, ◌∙◌, arith, Bool, true, false, ◌||◌, length, ltb,
  if◌then◌else◌,
}
use imquic.Wire.Moqint.{version_18, write_moqint}
use imquic.Wire.Moqint.RoundTrip.{moqint_size}
use imquic.Wire.Moqint.Room.{length-write_moqint, write_moqint_room}
use imquic.Wire.Writer.{overrun, ◌>>◌, put_number, put_bytes}
use imquic.Moq.SubgroupType.{padding_stream}
use imquic.Moq.Objects.Send.{padding_datagram, zeros, add_padding}

length-zeros : (n : ℕ) → length (zeros n) ≡ n
length-zeros zero = refl
length-zeros (suc n) = ap suc (length-zeros n)

type_size :
    (version type : ℕ)
    → version_18 ≤ version
    → 268435455 < type
    → type ≤ 34359738367
    → (room : ℕ) → 5 ≤ room
    → length (write_moqint version type room) ≡ 5
type_size version type new large small room fits =
    let five : moqint_size version type ≡ 5 = ground (arith, new, large, small) in
    ap length (write_moqint_room version type room (omega (arith, five, fits)))
    ∙ length-write_moqint version type (ground (arith, small))
    ∙ five

-- The type of a padding takes five bytes, where the room is only tested for four: with a byte of padding or more and
-- room for four bytes and the padding, which the test lets pass, the padding is written past the end of the buffer.
pub add_padding_overrun :
    (version padding : ℕ) (datagram : Bool)
    → version_18 ≤ version
    → 1 ≤ padding
    → add_padding version padding datagram (4 + padding) ≡ overrun
unfolding add_padding put_number put_bytes ◌>>◌
add_padding_overrun version padding datagram new some_padding =
    let type : ℕ = if datagram then padding_datagram else padding_stream in
    let t : (ltb (4 + padding) (4 + padding) || ltb version version_18) ≡ false =
      ground (arith, new) in
    let size =
      type_size version type new (ground arith) (ground arith) (4 + padding)
        (omega (arith, some_padding)) in
    let u : ltb (4 + padding - 5) (length (zeros padding)) ≡ true =
      ground (arith, length-zeros padding, some_padding) in
    rw (t, size, u) refl
