-- ===== src/Tests/TableRuns.antt =====
-- The tables of QPACK, on a few headers.
use Prim.Native.String.{String}
use text.Mathlib.Text
use imquic.Base.{ℕ, refl, [], some}
use imquic.Qpack.Entry.{Entry, entry_create}
use imquic.Qpack.Static.{static_table}
use imquic.Qpack.Table.{DynamicTable, table_create}
use imquic.Qpack.Find.{find_entry}
use imquic.Qpack.Find.Matches.{Promise, find_entry-Promise}

abbrev accept_any : Entry
accept_any = entry_create (some "accept") (some "*/*")

abbrev own_header : Entry
own_header = entry_create (some "x-own") (some "1")

abbrev table : DynamicTable
table = table_create 4096

abbrev text_len : String → ℕ
text_len s = 5

find_entry-Promise_example :
    Promise Text.◌==◌ accept_any static_table [] (find_entry Text.◌==◌ table accept_any)
find_entry-Promise_example = find_entry-Promise Text.◌==◌ accept_any table "accept" refl
