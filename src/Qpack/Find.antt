-- ===== src/Qpack/Find.antt =====
-- `imquic_qpack_find_entry` (qpack.c). The comparison of texts, `strcasecmp` of the C library being 0, is the
-- parameter `same`. The entries of the tables have names.
pub mod Matches
use Prim.Native.String.{String}
use imquic.Base.{Bool, true, false, ◌&&◌, List, [], ◌∷◌, Option, none, some, if◌then◌else◌}
use imquic.Qpack.Entry.{Entry}
use imquic.Qpack.Static.{static_table}
use imquic.Qpack.Table.{DynamicTable}

-- The reference, and what the function stores for its caller.
pub record Found : Type 0 where
  pub ref : Option Entry
  pub dynamic : Bool
  pub full_match : Bool

abbrev pub nothing_found : Found
nothing_found = record { ref = none; dynamic = false; full_match = false }

module _ (same : String → String → Bool) where
  abbrev pub same_name : (temp entry : Entry) → Bool
  same_name temp entry = elim (temp.name) [
    | none ↦ false
    | some a ↦ elim (entry.name) [ none ↦ false | some b ↦ same a b ]
  ]

  -- Both are NULL, or neither is and they are the same.
  abbrev pub same_value : (temp entry : Entry) → Bool
  same_value temp entry = elim (temp.value) [
    | none ↦ elim (entry.value) [ none ↦ true | some _ ↦ false ]
    | some a ↦ elim (entry.value) [ none ↦ false | some b ↦ same a b ]
  ]

  -- One of the two loops, on the rest of the table.
  unfoldable pub search : (is_dynamic : Bool) (entry : Entry) → Found → List Entry → Found
  search is_dynamic entry found [] = found
  search is_dynamic entry found (temp ∷ more) =
      let partial : Found = elim (found.ref) [
        | none ↦ record { ref = some temp; dynamic = is_dynamic; full_match = false }
        | some _ ↦ found
      ] in
      let rest = search is_dynamic entry (if same_name temp entry then partial else found) more in
      if same_name temp entry && same_value temp entry
      then record { ref = some temp; dynamic = is_dynamic; full_match = true }
      else rest

  -- The function on any two tables.
  unfoldable pub find_in : (fixed_table dynamic_list : List Entry) (entry : Entry) → Found
  unfolding search
  find_in fixed_table dynamic_list entry =
      let fixed = search false entry nothing_found fixed_table in
      elim (entry.name) [
        | none ↦ nothing_found
        | some _ ↦ if fixed.full_match then fixed else search true entry fixed dynamic_list
      ]

  unfoldable pub find_entry : DynamicTable → (entry : Entry) → Found
  unfolding find_in
  find_entry dtable entry = find_in static_table dtable.list entry
