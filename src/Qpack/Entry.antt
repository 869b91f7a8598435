-- ===== src/Qpack/Entry.antt =====
-- `imquic_qpack_entry` and `imquic_qpack_entry_size` (qpack.c).
use Prim.Native.String.{String}
use imquic.Base.{ℕ, ◌+◌, Option, none, some}

-- `none` stands for NULL.
pub record Entry : Type 0 where
  pub id : ℕ
  pub name : Option String
  pub value : Option String

-- The id is filled in when the entry goes into a table.
abbrev pub entry_create : (name value : Option String) → Entry
entry_create name value = record { id = 0; name = name; value = value }

-- `strlen` of a field, which is the parameter `strlen` of a text.
abbrev field_len : (String → ℕ) → Option String → ℕ
field_len strlen none = 0
field_len strlen (some s) = strlen s

-- The local pointer and the local size: `entry += …` moves the pointer on, and not the size.
abbrev locals : (strlen : String → ℕ) → Option Entry → ℕ × ℕ
locals strlen none = (0, 0)
locals strlen (some e) = (field_len strlen e.name + field_len strlen e.value + 32, 0)

unfoldable pub entry_size : (strlen : String → ℕ) → (entry : Option Entry) → ℕ
entry_size strlen entry = let (moved, size) = locals strlen entry in size
