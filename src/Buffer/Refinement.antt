-- ===== src/Buffer/Refinement.antt =====
-- The operations of the buffer implement those of `Contents`, for every allocator that gives as much memory
-- as it is asked for.
use imquic.Base.{
  ℕ, zero, suc, ◌+◌, ◌-◌, ◌%◌, ◌≤◌, ◌<◌, ◌≡◌, refl, sym, ap, ◌∙◌, arith, true, [], ◌∷◌, ◌++◌,
  append_assoc, append-nil, Option, none, some, Bytes, u64, length, take, drop, length-append,
  length-take, length-drop, take-append, take-length_append, ltb, leb, ◌==◌, Bool-cases, inl, inr,
  ltb→lt, ltb→le, Option-cases, ==_iff,
}
use imquic.Buffer.{Buffer, block, store, move_down, grow, resize, append, shift}
use imquic.Buffer.Contents

-- The bytes that the buffer holds.
abbrev pub contents : Buffer → Bytes
contents b = take b.len (block b.bytes)

-- The block is as large as the size says, and the length stays within it.
pub record IsValid (b : Buffer) : Type 0 where
  pub within : b.len ≤ b.size
  pub allocated : length (block b.bytes) ≡ b.size
  pub null_empty : b.bytes ≡ none → b.size ≡ 0

take_append_exact : (n : ℕ) (xs ys : Bytes) → length xs ≡ n → take n (xs ++ ys) ≡ xs
take_append_exact n xs ys h = rw (← h) (take-length_append xs ys)

-- Memory after a copy behind the first `off` bytes, up to the end of the copy.
take-store :
    (off : ℕ) (bs mem : Bytes)
    → off ≤ length mem
    → take (off + length bs) (store off bs mem) ≡ take off mem ++ bs
take-store off bs mem h =
    let e = sym (append_assoc (take off mem) bs (drop (off + length bs) mem)) in
    rw e
      (take_append_exact _ (take off mem ++ bs) _ (rw (length-append, length-take off mem h) refl))

length-store :
    (off : ℕ) (bs mem : Bytes)
    → off + length bs ≤ length mem
    → length (store off bs mem) ≡ length mem
length-store off bs mem h = omega (
  arith,
  length-append (take off mem) (bs ++ drop (off + length bs) mem),
  length-append bs (drop (off + length bs) mem),
  length-take off mem (omega arith),
  length-drop (off + length bs) mem,
)

-- The copy at the end of `append`, where the block has room for it.
copied-contents :
    (c : Buffer) (x : ℕ) (xs : Bytes)
    → IsValid c
    → c.len + length (x ∷ xs) ≤ c.size
    → let d = record c {
      bytes = some (store c.len (x ∷ xs) (block c.bytes));
      len = c.len + length (x ∷ xs);
    } in
      IsValid d × (contents d ≡ contents c ++ (x ∷ xs))
copied-contents c x xs v room = (
  record {
    within = room;
    allocated =
        length-store c.len (x ∷ xs) (block c.bytes) (omega (arith, v.allocated)) ∙ v.allocated;
    null_empty = λ h. cc;
  },
  take-store c.len (x ∷ xs) (block c.bytes) (omega (arith, v.allocated, v.within)),
)

module _ (fresh : ℕ → Bytes) (enough : (n : ℕ) → length (fresh n) ≡ n) where
  length-grow :
      (mem : Option Bytes) (size n : ℕ)
      → length (block mem) ≡ size
      → size < n
      → length (grow fresh mem size n) ≡ n
  unfolding grow
  length-grow none size n h p = enough n
  length-grow (some bs) size n h p =
      omega (arith, length-append bs (fresh (n - size)), enough (n - size))

  take-grow :
      (mem : Option Bytes) (size n len : ℕ)
      → length (block mem) ≡ size
      → len ≤ size
      → take len (grow fresh mem size n) ≡ take len (block mem)
  unfolding grow
  take-grow none size n zero h p = refl
  take-grow none size n (suc len) h p = absurd (omega arith)
  take-grow (some bs) size n len h p = take-append len bs _ (omega arith)

  grown : Buffer → ℕ → Buffer
  grown b n = record b { bytes = some (grow fresh b.bytes b.size n); size = n }

  resize-grown : (b : Buffer) (n : ℕ) → b.size < n → resize fresh b n ≡ (grown b n, true)
  unfolding resize grown
  resize-grown b n h = ground arith

  grown-contents :
      (b : Buffer) (n : ℕ)
      → IsValid b
      → b.size < n
      → IsValid (grown b n) × (contents (grown b n) ≡ contents b)
  unfolding grown
  grown-contents b n v h = (
    record {
      within = omega (arith, v.within);
      allocated = length-grow b.bytes b.size n v.allocated h;
      null_empty = λ e. cc;
    },
    take-grow b.bytes b.size n b.len v.allocated v.within,
  )

  -- With an allocator that gives as much memory as it is asked for, and where the new length fits 64 bits,
  -- appending to a valid buffer succeeds unless there is nothing to append, leaves a valid buffer, and adds the
  -- bytes behind its contents.
  pub append-contents :
      (b : Buffer) (bs : Bytes)
      → IsValid b
      → b.len + length bs < u64
      → IsValid (append fresh b bs).0
        × (contents (append fresh b bs).0 ≡ Contents.append (contents b) bs)
        × ((append fresh b bs).1 ≡ ltb 0 (length bs))
  unfolding append grown
  append-contents b [] v h = (v, sym (append-nil (contents b)), refl)
  append-contents b (x ∷ xs) v h =
      let n = length (x ∷ xs) in
      let e : (b.len + n) % u64 ≡ b.len + n = omega arith in
      elim (Bool-cases (ltb b.size (b.len + n))) [
        | inl small ↦
            let (gv, gc) = grown-contents b (b.len + n) v (ltb→lt _ _ small) in
            let (cv, c) = copied-contents (grown b (b.len + n)) x xs gv (omega arith) in
            let e' : ((grown b (b.len + n)).len + n) % u64 ≡ b.len + n = e in
            rw (e, small, resize-grown b (b.len + n) (ltb→lt _ _ small), e')
              (cv, c ∙ ap (λ (t : Bytes). t ++ (x ∷ xs)) gc, ground arith)
        | inr fits ↦
            let (cv, c) = copied-contents b x xs v (ltb→le _ _ fits) in
            rw (e, fits) (cv, c, ground arith)
      ]

take-nil : (n : ℕ) → take {A = ℕ} n [] ≡ []
take-nil zero = refl
take-nil (suc n) = refl

take-take-drop :
    (n len : ℕ) (mem : Bytes) → n ≤ len → take (len - n) (drop n mem) ≡ drop n (take len mem)
take-take-drop zero len mem h = let e : len - 0 ≡ len = omega arith in rw e
take-take-drop (suc n) zero mem h = absurd (omega arith)
take-take-drop (suc n) (suc len) [] h = take-nil (suc len - suc n)
take-take-drop (suc n) (suc len) (x ∷ mem) h =
    let e : suc len - suc n ≡ len - n = omega arith in rw e (take-take-drop n len mem (omega arith))

drop-take_past : (n len : ℕ) (mem : Bytes) → len ≤ n → drop n (take len mem) ≡ []
drop-take_past zero zero mem h = refl
drop-take_past (suc n) zero mem h = refl
drop-take_past zero (suc len) mem h = absurd (omega arith)
drop-take_past (suc n) (suc len) [] h = refl
drop-take_past (suc n) (suc len) (x ∷ mem) h = drop-take_past n len mem (omega arith)

drop-nil : (n : ℕ) → drop {A = ℕ} n [] ≡ []
drop-nil zero = refl
drop-nil (suc n) = refl

-- What the move leaves of the block.
move_down-contents :
    (n len : ℕ) (mem : Bytes)
    → n ≤ len
    → len ≤ length mem
    → (length (move_down n len mem) ≡ length mem)
      × (take (len - n) (move_down n len mem) ≡ drop n (take len mem))
move_down-contents n len mem h fits =
    let kept : Bytes = take (len - n) (drop n mem) in
    let size : length kept ≡ len - n =
      length-take (len - n) (drop n mem) (omega (arith, length-drop n mem)) in
    (
      length-store 0 kept mem (omega (arith, size)),
      take_append_exact (len - n) kept _ size ∙ take-take-drop n len mem h,
    )

-- Shifting a valid buffer leaves a valid one, without the bytes at its front.
pub shift-contents :
    (b : Buffer) (n : ℕ)
    → IsValid b
    → IsValid (shift b n) × (contents (shift b n) ≡ Contents.shift (contents b) n)
unfolding shift
shift-contents b n v = elim (Option-cases b.bytes) [
  | inl null ↦
      let empty : b.len ≡ 0 = omega (arith, v.within, v.null_empty null) in
      rw (null, shift) (v, rw empty (sym (drop-nil n)))
  | inr (mem, e) ↦
      let held : contents b ≡ take b.len mem = ap (λ o. take b.len (block o)) e in
      let fits : b.len ≤ length mem =
        omega (arith, v.within, v.allocated, ap (λ o. length (block o)) e) in
      elim (Bool-cases (n == 0)) [
        | inl none_at_all ↦
            let z : n ≡ 0 = (==_iff n 0).0 none_at_all in
            rw (e, shift, none_at_all) (v, held ∙ rw z)
        | inr some_of_it ↦ elim (Bool-cases (leb b.len n)) [
          | inl all_of_it ↦
              rw (e, shift, some_of_it, all_of_it)
                (
                  record {
                    within = omega arith;
                    allocated = v.allocated;
                    null_empty = v.null_empty;
                  },
                  sym (drop-take_past n b.len mem (ground arith)),
                )
          | inr part ↦
              let (size, moved) = move_down-contents n b.len mem (ground arith) fits in
              rw (e, shift, some_of_it, part)
                (
                  record {
                    within = omega (arith, v.within);
                    allocated = size ∙ sym (ap (λ o. length (block o)) e) ∙ v.allocated;
                    null_empty = λ h. cc;
                  },
                  moved,
                )
        ]
      ]
]
