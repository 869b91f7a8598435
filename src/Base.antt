-- ===== src/Base.antt =====
-- The names that the other modules share: the libraries', passed on, and those of the children.
mod Tests
mod Lists
mod Wf
mod Words
pub use Tests.*
pub use Words.{
  agree_below→eq, Bytes, IsByte, u64, low_six, low_seven, top_bit, be_onto-append, length-be_onto,
  be_onto-IsByte, read_loop-be_onto, be_onto_head,
}
unfoldable pub use Words.{agree_below, be_onto, big_endian, bump_first, read_loop}
pub use Lists.{
  length, get_elem?, take, drop, length-append, length-drop, length-take, drop-length_append,
  take-length_append, drop-append, take-append, drop_all, take_all, append_pos, append_pos_right,
  length-zero, List-cases, All, lookup-insert, lookup-remove,
}
unfoldable pub use Lists.{lookup, insert, remove}
unfoldable pub use Wf.{lt_wf}
pub use Prim.Native.Nat.{ℕ, zero, suc, ◌+◌, ◌-◌, ◌*◌, ◌/◌, ◌%◌, ◌^◌, ◌≤◌, ◌<◌}
pub use Prim.Native.Nat.{bit_and, bit_or}
pub use mathlib.Core.Path.{◌≡◌, refl, sym, ap, ◌∙◌, fun_ext}
pub use mathlib.Core.Logic.{◌≢◌, ◌↔◌, ◌⊎◌, inl, inr}
pub use mathlib.Core.Bool.{Bool, true, false, not, ◌&&◌, ◌||◌}
pub use mathlib.Core.Option.{Option, none, some}
pub use mathlib.Core.List.{List, [], ◌∷◌, ◌++◌, map, append-nil, append_assoc}
pub use native.Mathlib.Omega.{arith}
