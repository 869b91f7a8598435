-- ===== src/Wire/Writer/Overrun.antt =====
-- Builders that store past the end of a buffer.
use imquic.Base.{
  ℕ, ◌-◌, ◌≤◌, ◌<◌, ◌≡◌, refl, ap, ◌∙◌, arith, Bool, true, false, [], Bytes, length, ltb,
}
use imquic.Wire.Moqint.{write_moqint}
use imquic.Wire.Writer.{
  overrun, stored, Writer, then_stored, go_on, ◌>>◌, when, put_number, put_bytes,
}

-- With `n` bytes of room and less, the writer stores past the end.
pub record Overruns (w : Writer) (n : ℕ) : Type 0 where
  pub overruns : (room : ℕ) → room ≤ n → w room ≡ overrun

-- The writer always stores something, or nothing, and goes on.
pub record Keeps (w : Writer) : Type 0 where
  pub keeps : (room : ℕ) → (bytes : Bytes) × (w room ≡ stored bytes)

pub put_number-Keeps : (version number : ℕ) → Keeps (put_number version number)
unfolding put_number
put_number-Keeps version number = record {
  keeps = λ room. (write_moqint version number room, refl);
}

pub when-Keeps : (b : Bool) {w : Writer} → Keeps w → Keeps (when b w)
unfolding when
when-Keeps true k = record { keeps = k.keeps }
when-Keeps false k = record { keeps = λ room. ([], refl) }

pub put_bytes-Overruns : (bytes : Bytes) {n : ℕ} → n < length bytes → Overruns (put_bytes bytes) n
unfolding put_bytes
put_bytes-Overruns bytes h = record {
  overruns = λ room r. (let t : ltb room (length bytes) ≡ true = ground (arith, h, r) in rw t refl);
}

pub >>-Overruns : {v w : Writer} {n : ℕ} → Keeps v → Overruns w n → Overruns (v >> w) n
unfolding ◌>>◌
>>-Overruns {w} k o = record {
  overruns = λ room r.
      (let (bytes, e) = k.keeps room in
        ap (λ t. go_on t room w) e
        ∙ ap (then_stored bytes) (o.overruns (room - length bytes) (omega (arith, r))));
}
