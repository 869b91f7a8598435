-- ===== src/Wire/Writer.antt =====
-- Storing one thing behind another in a buffer, the way the builders of moq.c do: `offset` moves on by what was
-- stored, and the room that is left falls by as much. `imquic_write_moqint` stores nothing where it has no room;
-- a `memcpy` or an assignment does not look at the room.
pub mod Overrun
use imquic.Base.{
  ℕ, ◌+◌, ◌-◌, ◌≤◌, ◌≡◌, refl, ap, ◌∙◌, arith, Bool, true, false, [], ◌∷◌, ◌++◌, Bytes, length, ltb,
  length-append, if◌then◌else◌,
}
use imquic.Wire.Moqint.{write_moqint}
use imquic.Wire.Moqint.RoundTrip.{max_moqint, moqint_size-le}
use imquic.Wire.Moqint.Room.{length-write_moqint, write_moqint_room}

-- What a builder comes to: it returns 0, or it stores past the end of the buffer, or it has stored bytes.
pub data Added : Type 0 where
  rejected : Added
  overrun : Added
  stored : Bytes → Added

abbrev pub then_stored : Bytes → Added → Added
then_stored bytes rejected = rejected
then_stored bytes overrun = overrun
then_stored bytes (stored more) = stored (bytes ++ more)

abbrev pub Writer : Type 0
Writer = (room : ℕ) → Added

abbrev pub go_on : Added → (room : ℕ) → Writer → Added
go_on rejected room w = rejected
go_on overrun room w = overrun
go_on (stored bytes) room w = then_stored bytes (w (room - length bytes))

infixl 5 ◌>>◌
unfoldable pub ◌>>◌ : Writer → Writer → Writer
◌>>◌ v w room = go_on (v room) room w

unfoldable pub when : Bool → Writer → Writer
when b w room = if b then w room else stored []

unfoldable pub put_number : (version number : ℕ) → Writer
put_number version number room = stored (write_moqint version number room)

unfoldable pub put_bytes : Bytes → Writer
put_bytes bytes room = if ltb room (length bytes) then overrun else stored bytes

-- A byte, `bytes[offset] = value; offset++`.
unfoldable pub put_byte : (value : ℕ) → Writer
put_byte value room = if ltb room 1 then overrun else stored (value ∷ [])

-- With `n` bytes of room and more, the writer stores these bytes, which are at most `n`.
pub record Stores (w : Writer) (n : ℕ) (bytes : Bytes) : Type 0 where
  pub few : length bytes ≤ n
  pub stores : (room : ℕ) → n ≤ room → w room ≡ stored bytes

pub put_number-Stores :
    (version number : ℕ)
    → number ≤ max_moqint version
    → Stores (put_number version number) 9 (write_moqint version number 9)
unfolding put_number
put_number-Stores version number h =
    let small = moqint_size-le version number in
    record {
      few = omega (arith, length-write_moqint version number h, small);
      stores =
          λ room r. ap stored (write_moqint_room version number room (omega (arith, small, r)));
    }

pub put_bytes-Stores : (bytes : Bytes) → Stores (put_bytes bytes) (length bytes) bytes
unfolding put_bytes
put_bytes-Stores bytes = record {
  few = omega arith;
  stores = λ room r. (let t : ltb room (length bytes) ≡ false = ground (arith, r) in rw t refl);
}

pub put_byte-Stores : (value : ℕ) → Stores (put_byte value) 1 (value ∷ [])
unfolding put_byte
put_byte-Stores value = record {
  few = omega arith;
  stores = λ room r. (let t : ltb room 1 ≡ false = ground (arith, r) in rw t refl);
}

pub >>-Stores :
    {v w : Writer} {n m : ℕ} {b c : Bytes}
    → Stores v n b
    → Stores w m c
    → Stores (v >> w) (n + m) (b ++ c)
unfolding ◌>>◌
>>-Stores {w} {n} {m} {b} {c} hv hw =
    let fv = hv.few in
    let fw = hw.few in
    record {
      few = omega (arith, length-append b c, fv, fw);
      stores = λ room r.
          (ap (λ t. go_on t room w) (hv.stores room (omega (arith, r)))
            ∙ ap (then_stored b) (hw.stores (room - length b) (omega (arith, fv, r))));
    }

pub when-Stores :
    (b : Bool) {w : Writer} {n : ℕ} {c : Bytes}
    → Stores w n c
    → Stores (when b w) n (if b then c else [])
unfolding when
when-Stores true s = record { few = s.few; stores = s.stores }
when-Stores false s = record { few = omega arith; stores = λ room r. refl }

pub when-false-Stores : (w : Writer) {n : ℕ} → Stores (when false w) n []
unfolding when
when-false-Stores w = record { few = omega arith; stores = λ room r. refl }
