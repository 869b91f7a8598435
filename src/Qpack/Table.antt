-- ===== src/Qpack/Table.antt =====
-- The dynamic table of QPACK (qpack.c): `imquic_qpack_dynamic_table` and what `imquic_qpack_decode` and
-- `imquic_qpack_encode` do to add an entry.
pub mod Inserted
use Prim.Native.String.{String}
use imquic.Base.{ℕ, ◌+◌, ◌%◌, ◌^◌, List, [], ◌∷◌, Option, none, some, insert}
use imquic.Qpack.Entry.{Entry, entry_size}

-- The list has the newest entry first.
pub record DynamicTable : Type 0 where
  pub capacity : ℕ
  pub size : ℕ
  pub index : ℕ
  pub table_byid : List (ℕ × Entry)
  pub list : List Entry

abbrev pub table_create : (capacity : ℕ) → DynamicTable
table_create capacity = record {
  capacity = capacity;
  size = 0;
  index = 0;
  table_byid = [];
  list = [];
}

-- The index and the id have 16 bits.
unfoldable pub table_add : (strlen : String → ℕ) → DynamicTable → Entry → DynamicTable
unfolding entry_size
table_add strlen table entry =
    let added : Entry = record entry { id = table.index } in
    record table {
      size = table.size + entry_size strlen (some added);
      index = (table.index + 1) % 2 ^ 16;
      table_byid = insert table.index added table.table_byid;
      list = added ∷ table.list;
    }
