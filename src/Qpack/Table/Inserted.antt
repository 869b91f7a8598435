-- ===== src/Qpack/Table/Inserted.antt =====
-- What a dynamic table holds after insertions.
use Prim.Native.String.{String}
use imquic.Base.{
  ℕ, zero, suc, ◌+◌, ◌%◌, ◌^◌, ◌<◌, ◌≡◌, refl, ◌∙◌, arith, List, [], ◌∷◌, Option, none, some,
  length, get_elem?, lookup, lookup-insert,
}
use imquic.Qpack.Entry.{Entry, entry_size}
use imquic.Qpack.Table.{DynamicTable, table_add}

-- Entries that are added one after the other.
unfoldable pub table_add_all : (strlen : String → ℕ) → DynamicTable → List Entry → DynamicTable
table_add_all strlen table [] = table
table_add_all strlen table (e ∷ es) = table_add_all strlen (table_add strlen table e) es

-- The entry as it was added.
abbrev pub stamped : ℕ → Option Entry → Option Entry
stamped id none = none
stamped id (some e) = some (record e { id = id })

-- The ids below the index are kept when entries are added.
add_all_keeps :
    (strlen : String → ℕ) (table : DynamicTable) (es : List Entry) (id : ℕ)
    → id < table.index
    → table.index + length es < 2 ^ 16
    → lookup id (table_add_all strlen table es).table_byid ≡ lookup id table.table_byid
unfolding table_add_all table_add
add_all_keeps strlen table [] id h fits = refl
add_all_keeps strlen table (e ∷ es) id h fits =
    add_all_keeps strlen (table_add strlen table e) es id (omega arith) (omega arith)
    ∙ lookup-insert table.index id _ table.table_byid
    ∙ ground arith

-- As long as the index does not wrap around, the entry that is found under an id is the one that was added as
-- that one in order.
pub lookup-table_add_all :
    (strlen : String → ℕ) (table : DynamicTable) (es : List Entry) (i : ℕ)
    → i < length es
    → table.index + length es < 2 ^ 16
    → lookup (table.index + i) (table_add_all strlen table es).table_byid
      ≡ stamped (table.index + i) (get_elem? es i)
unfolding table_add_all table_add
lookup-table_add_all strlen table [] i h fits = absurd (omega arith)
lookup-table_add_all strlen table (e ∷ es) zero h fits =
    let here : table.index + 0 ≡ table.index = omega arith in
    rw here (
      add_all_keeps strlen (table_add strlen table e) es table.index (omega arith) (omega arith)
      ∙ lookup-insert table.index table.index _ table.table_byid
      ∙ ground arith)
lookup-table_add_all strlen table (e ∷ es) (suc i) h fits =
    let next : (table.index + 1) % 2 ^ 16 + i ≡ table.index + suc i = omega arith in
    rw (← next)
      (lookup-table_add_all strlen (table_add strlen table e) es i (omega arith) (omega arith))

-- Whatever is added, the size of the table stays what it was.
pub table_add_all_size :
    (strlen : String → ℕ) (table : DynamicTable) (es : List Entry)
    → (table_add_all strlen table es).size ≡ table.size
unfolding table_add_all table_add entry_size
table_add_all_size strlen table [] = refl
table_add_all_size strlen table (e ∷ es) =
    table_add_all_size strlen (table_add strlen table e) es ∙ omega arith
