-- ===== src/Buffer.antt =====
-- The byte buffer of buffer.c. The memory block is the list of its bytes; what `g_malloc` and `g_realloc`
-- leave in new memory is the parameter `fresh`. A NULL buffer has no model: each operation then returns
-- at once.
pub mod Contents
pub mod Refinement
use imquic.Base.{
  ℕ, zero, suc, ◌+◌, ◌-◌, ◌%◌, ◌≤◌, ◌<◌, ◌≡◌, Bool, true, false, ◌||◌, List, [], ◌∷◌, ◌++◌, Option,
  none, some, Bytes, u64, length, take, drop, ltb, leb, ◌==◌, if◌then◌else◌,
}

pub record Buffer : Type 0 where
  pub bytes : Option Bytes
  pub size : ℕ
  pub len : ℕ

-- NULL has no bytes.
abbrev pub block : Option Bytes → Bytes
block none = []
block (some bs) = bs

-- `memcpy(block + offset, bs, …)`
abbrev pub store : (offset : ℕ) (bs mem : Bytes) → Bytes
store offset bs mem = take offset mem ++ (bs ++ drop (offset + length bs) mem)

-- `g_malloc0`
abbrev pub zeroed : Buffer
zeroed = record { bytes = none; size = 0; len = 0 }

module _ (fresh : ℕ → Bytes) where
  -- `g_malloc(new_size)` for NULL, `g_realloc(bytes, new_size)` otherwise.
  unfoldable pub grow : Option Bytes → (size new_size : ℕ) → Bytes
  grow none size new_size = fresh new_size
  grow (some bs) size new_size = bs ++ fresh (new_size - size)

  unfoldable pub resize : Buffer → (new_size : ℕ) → Buffer × Bool
  resize b new_size =
      if leb new_size b.size
      then (b, false)
      else (record b { bytes = some (grow b.bytes b.size new_size); size = new_size }, true)

  -- `false` stands for -1. NULL for the bytes to append is the empty list, which the code treats alike.
  unfoldable pub append : Buffer → Bytes → Buffer × Bool
  unfolding resize
  append b [] = (b, false)
  append b (x ∷ xs) =
      let n = length (x ∷ xs) in
      let sum = (b.len + n) % u64 in
      let copy = λ (c : Buffer). record c {
        bytes = some (store c.len (x ∷ xs) (block c.bytes));
        len = (c.len + n) % u64;
      } in
      if ltb b.size sum
      then (let (c, resized) = resize b sum in if resized then (copy c, true) else (c, false))
      else (copy b, true)

  -- `none` stands for NULL.
  unfoldable pub create : Bytes → Option Buffer
  unfolding append
  create [] = some zeroed
  create (x ∷ xs) = let (b, appended) = append zeroed (x ∷ xs) in if appended then some b else none

-- `memmove(bytes, bytes + n, len - n)`
abbrev pub move_down : (n len : ℕ) → Bytes → Bytes
move_down n len mem = store 0 (take (len - n) (drop n mem)) mem

unfoldable pub shift : Buffer → (n : ℕ) → Buffer
shift b n = elim (b.bytes) [
  | none ↦ b
  | some mem ↦
      if n == 0
      then b
      else if leb b.len n
      then record b { len = 0 }
      else record b { bytes = some (move_down n b.len mem); len = b.len - n }
]
