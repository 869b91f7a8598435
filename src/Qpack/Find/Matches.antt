-- ===== src/Qpack/Find/Matches.antt =====
-- What `find_entry` finds.
use Prim.Native.String.{String}
use mathlib.Core.Path.{subst}
use imquic.Base.{
  ◌≡◌, refl, sym, ap, Bool, true, false, ◌&&◌, List, [], ◌∷◌, Option, none, some, All,
  if◌then◌else◌, Bool-cases, Option-cases, inl, inr,
}
use imquic.Qpack.Entry.{Entry}
use imquic.Qpack.Static.{static_table}
use imquic.Qpack.Table.{DynamicTable}
use imquic.Qpack.Find.{Found, nothing_found, same_name, same_value, search, find_in, find_entry}

-- An entry stands in a list.
pub data In (t : Entry) : List Entry → Type 0 where
  here : (rest : List Entry) → In t (t ∷ rest)
  later : (first : Entry) (rest : List Entry) → In t rest → In t (first ∷ rest)

module _ (same : String → String → Bool) (entry : Entry) where
  -- Name and value are the same.
  abbrev pub full : Entry → Bool
  full t = same_name same t entry && same_value same t entry

  abbrev pub NoName : List Entry → Type 0
  NoName ts = All (λ t. same_name same t entry ≡ false) ts

  abbrev pub NoFull : List Entry → Type 0
  NoFull ts = All (λ t. full t ≡ false) ts

  -- The ways that a loop can end, from what was found before it.
  data Searched (is_dynamic : Bool) (found : Found) (ts : List Entry) : Found → Type 0 where
    full_match :
        (t : Entry)
        → In t ts
        → full t ≡ true
        → Searched is_dynamic found ts
            (record { ref = some t; dynamic = is_dynamic; full_match = true })
    name_match :
        (t : Entry)
        → found.ref ≡ none
        → In t ts
        → same_name same t entry ≡ true
        → NoFull ts
        → Searched is_dynamic found ts
            (record { ref = some t; dynamic = is_dynamic; full_match = false })
    had_one : (t : Entry) → found.ref ≡ some t → NoFull ts → Searched is_dynamic found ts found
    no_match : found.ref ≡ none → NoName ts → NoFull ts → Searched is_dynamic found ts found

  more_before :
      (d : Bool) (found : Found) (t : Entry) (ts : List Entry) (r : Found)
      → full t ≡ false
      → (same_name same t entry ≡ false)
      → Searched d found ts r
      → Searched d found (t ∷ ts) r
  more_before d found t ts _ nf nn (full_match u m f) = full_match u (later t ts m) f
  more_before d found t ts _ nf nn (name_match u e m f none_full) =
      name_match u e (later t ts m) f (nf, none_full)
  more_before d found t ts _ nf nn (had_one u e none_full) = had_one u e (nf, none_full)
  more_before d found t ts _ nf nn (no_match e nn' none_full) = no_match e (nn, nn') (nf, none_full)

  -- After an entry with the name, where there was one before.
  kept_before :
      (d : Bool) (found : Found) (t u : Entry) (ts : List Entry) (r : Found)
      → full t ≡ false
      → found.ref ≡ some u
      → Searched d found ts r
      → Searched d found (t ∷ ts) r
  kept_before d found t u ts _ nf e (full_match v m f) = full_match v (later t ts m) f
  kept_before d found t u ts _ nf e (name_match v e' m f none_full) = absurd cc
  kept_before d found t u ts _ nf e (had_one v e' none_full) = had_one v e' (nf, none_full)
  kept_before d found t u ts _ nf e (no_match e' nn none_full) = absurd cc

  -- The first entry with the name.
  first_before :
      (d : Bool) (found : Found) (t : Entry) (ts : List Entry) (r : Found)
      → full t ≡ false
      → same_name same t entry ≡ true
      → found.ref ≡ none
      → Searched d (record { ref = some t; dynamic = d; full_match = false }) ts r
      → Searched d found (t ∷ ts) r
  first_before d found t ts _ nf n e (full_match v m f) = full_match v (later t ts m) f
  first_before d found t ts _ nf n e (name_match v e' m f none_full) = absurd cc
  first_before d found t ts _ nf n e (had_one v e' none_full) =
      name_match t e (here ts) n (nf, none_full)
  first_before d found t ts _ nf n e (no_match e' nn none_full) = absurd cc

  search-Searched :
      (d : Bool) (found : Found) (ts : List Entry)
      → Searched d found ts (search same d entry found ts)
  unfolding search
  search-Searched d found [] = elim (Option-cases found.ref) [
    | inl e ↦ no_match e tt tt
    | inr (t, e) ↦ had_one t e tt
  ]
  search-Searched d found (t ∷ ts) = elim (Bool-cases (same_name same t entry)) [
    | inl n ↦ elim (Bool-cases (same_value same t entry)) [
      | inl v ↦
          let q : search same d entry found (t ∷ ts)
              ≡ record { ref = some t; dynamic = d; full_match = true } =
            rw (search, n, v) refl in
          subst (Searched d found (t ∷ ts)) (sym q) (full_match t (here ts) (rw (n, v) refl))
      | inr v ↦ elim (Option-cases found.ref) [
        | inl e ↦
            let next : Found = record { ref = some t; dynamic = d; full_match = false } in
            let q : search same d entry found (t ∷ ts) ≡ search same d entry next ts =
              rw (search, n, v, e) refl in
            subst (Searched d found (t ∷ ts)) (sym q)
              (first_before d found t ts _ (rw (n, v) refl) n e (search-Searched d next ts))
        | inr (u, e) ↦
            let q : search same d entry found (t ∷ ts) ≡ search same d entry found ts =
              let kept =
                ap
                  (λ (o : Option Entry). elim o as (λ _. Found) [
                    | none ↦ record { ref = some t; dynamic = d; full_match = false }
                    | some _ ↦ found
                  ])
                  e in
              rw (search, n, v) (ap (λ (next : Found). search same d entry next ts) kept) in
            subst (Searched d found (t ∷ ts)) (sym q)
              (kept_before d found t u ts _ (rw (n, v) refl) e (search-Searched d found ts))
      ]
    ]
    | inr n ↦
        let q : search same d entry found (t ∷ ts) ≡ search same d entry found ts =
          rw (search, n) refl in
        subst (Searched d found (t ∷ ts)) (sym q)
          (more_before d found t ts _ (rw n refl) n (search-Searched d found ts))
  ]

  -- What `find_entry` promises on a static and a dynamic table: a full match, in the static table if it has one;
  -- else an entry with the name, in the static table if it has one; else nothing.
  pub data Promise (fixed_table dynamic_list : List Entry) : Found → Type 0 where
    full_static :
        (t : Entry)
        → In t fixed_table
        → full t ≡ true
        → Promise fixed_table dynamic_list
            (record { ref = some t; dynamic = false; full_match = true })
    full_dynamic :
        (t : Entry)
        → NoFull fixed_table
        → In t dynamic_list
        → full t ≡ true
        → Promise fixed_table dynamic_list
            (record { ref = some t; dynamic = true; full_match = true })
    name_static :
        (t : Entry)
        → NoFull fixed_table
        → NoFull dynamic_list
        → In t fixed_table
        → same_name same t entry ≡ true
        → Promise fixed_table dynamic_list
            (record { ref = some t; dynamic = false; full_match = false })
    name_dynamic :
        (t : Entry)
        → NoName fixed_table
        → NoFull dynamic_list
        → In t dynamic_list
        → same_name same t entry ≡ true
        → Promise fixed_table dynamic_list
            (record { ref = some t; dynamic = true; full_match = false })
    absent :
        NoName fixed_table → NoName dynamic_list → Promise fixed_table dynamic_list nothing_found

  second_loop :
      (fixed_table dynamic_list : List Entry) (fixed : Found)
      → Searched false nothing_found fixed_table fixed
      → Promise fixed_table dynamic_list
          (if fixed.full_match then fixed else search same true entry fixed dynamic_list)
  second_loop fixed_table ds _ (full_match t m f) = full_static t m f
  second_loop fixed_table ds _ (name_match t e m f none_full) =
      after_name ds t none_full m f _
        (search-Searched true (record { ref = some t; dynamic = false; full_match = false }) ds)
    where
      after_name :
          (ds : List Entry) (t : Entry)
          → NoFull fixed_table
          → In t fixed_table
          → same_name same t entry ≡ true
          → (r : Found)
          → Searched true (record { ref = some t; dynamic = false; full_match = false }) ds r
          → Promise fixed_table ds r
      after_name ds t none_full m f _ (full_match u m' f') = full_dynamic u none_full m' f'
      after_name ds t none_full m f _ (name_match u e _ _ _) = absurd cc
      after_name ds t none_full m f _ (had_one u e none_full') =
          name_static t none_full none_full' m f
      after_name ds t none_full m f _ (no_match e _ _) = absurd cc
  second_loop fixed_table ds _ (had_one t e none_full) = absurd cc
  second_loop fixed_table ds _ (no_match e no_name none_full) =
      after_none ds no_name none_full _ (search-Searched true nothing_found ds)
    where
      after_none :
          (ds : List Entry)
          → NoName fixed_table
          → NoFull fixed_table
          → (r : Found) → Searched true nothing_found ds r
          → Promise fixed_table ds r
      after_none ds no_name none_full _ (full_match u m f) = full_dynamic u none_full m f
      after_none ds no_name none_full _ (name_match u e m f none_full') =
          name_dynamic u no_name none_full' m f
      after_none ds no_name none_full _ (had_one u e _) = absurd cc
      after_none ds no_name none_full _ (no_match e no_name' _) = absent no_name no_name'

  find_in-Promise :
      (fixed_table dynamic_list : List Entry) (name : String)
      → entry.name ≡ some name
      → Promise fixed_table dynamic_list (find_in same fixed_table dynamic_list entry)
  unfolding find_in
  find_in-Promise fixed_table ds name e =
      let fixed : Found = search same false entry nothing_found fixed_table in
      let q : find_in same fixed_table ds entry
          ≡ (if fixed.full_match then fixed else search same true entry fixed ds) =
        ap
          (λ (o : Option String). elim o as (λ _. Found) [
            | none ↦ nothing_found
            | some _ ↦ if fixed.full_match then fixed else search same true entry fixed ds
          ])
          e in
      subst (Promise fixed_table ds) (sym q)
        (second_loop fixed_table ds fixed (search-Searched false nothing_found fixed_table))

  -- For an entry with a name, what is found is a full match in the static table; or, if there is none there, in
  -- the dynamic one; or, if neither table has a full match, an entry with the name, from the dynamic table only
  -- if the static one has no such name; and nothing only if neither table has the name.
  pub find_entry-Promise :
      (dtable : DynamicTable) (name : String)
      → entry.name ≡ some name
      → Promise static_table dtable.list (find_entry same dtable entry)
  unfolding find_entry
  find_entry-Promise dtable name e = find_in-Promise static_table dtable.list name e
