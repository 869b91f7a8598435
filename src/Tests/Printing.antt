-- ===== src/Tests/Printing.antt =====
-- A `g_snprintf` that runs: it copies up to a zero byte, as far as there is room.
use imquic.Base.{
  ℕ, zero, suc, ◌-◌, ◌≤◌, ◌<◌, ◌≡◌, refl, ap, arith, false, [], ◌∷◌, Bytes, length, ◌==◌,
  if◌then◌else◌, All,
}
use imquic.Glib.{GSnprintf}

abbrev pub copy_text : (room : ℕ) → Bytes → Bytes
copy_text zero text = []
copy_text (suc n) [] = []
copy_text (suc n) (b ∷ bs) = if b == 0 then [] else b ∷ copy_text n bs

pub copy_text_whole :
    (room : ℕ) (text : Bytes)
    → length text ≤ room
    → All (λ b. 0 < b) text
    → copy_text room text ≡ text
copy_text_whole zero [] h k = refl
copy_text_whole zero (b ∷ bs) h k = absurd (omega (arith, h))
copy_text_whole (suc n) [] h k = refl
copy_text_whole (suc n) (b ∷ bs) h (pos, k) =
    let t : (b == 0) ≡ false = ground (arith, pos) in
    rw t (ap (λ r. b ∷ r) (copy_text_whole n bs (omega (arith, h)) k))

abbrev pub text_copy : GSnprintf
text_copy = record {
  print = λ size text. copy_text (size - 1) text;
  whole = λ size text fits k. copy_text_whole (size - 1) text (omega (arith, fits)) k;
}
