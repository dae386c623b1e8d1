-- ===== src/Storage/Merge.antt =====
-- mergeIterator of storage/zstorage/merge_iterator.go: several ascending sources merged into one. A
-- source is whatever answers `next`; Storage/SsTable/Iterator has the files' iterator. The heap of
-- container/heap is the list of its sources in the order of `Less`, so h[0] is its head.
pub mod Queue
pub mod Newest
pub mod Steps
pub mod Drain
pub mod Rounds
pub mod Streams
pub mod Errors
use ban_db.Prelude.{
  ℕ, zero, suc, ◌+◌, ltb, List, [], ◌∷◌, length, Bool, true, false, Option, none, some,
  if◌then◌else◌, not,
}
use ban_db.Bytes.{Bytes}
use ban_db.Bytes.Order.{less, same}
use ban_db.Storage.Entries.{Entry}

-- Next: true with the entry and the iterator after it, false, or false with Err() set.
pub data Outcome (It : Type 0) : Type 0 where
  item : Entry → It → Outcome It
  ended : Outcome It
  failed : Outcome It

-- mergeSource; `prev` is nil before the first pull.
pub record Source (It : Type 0) : Type 0 where
  pub it : It
  pub src_idx : ℕ
  pub key : Bytes
  pub value : Option Bytes
  pub prev : Option Bytes

-- The result of pull: an entry, the end (s.key == nil), or an error.
pub data Pulled (It : Type 0) : Type 0 where
  live : Source It → Pulled It
  drained : Pulled It
  broken : Pulled It

-- s.prev != nil && bytes.Compare(k, s.prev) <= 0
abbrev pub is_unsorted : Option Bytes → Bytes → Bool
is_unsorted none k = false
is_unsorted (some p) k = not (less p k)

module _ {It : Type 0} where
  -- Less: ascending keys, and of equal keys the newer source first.
  unfoldable pub before : Source It → Source It → Bool
  before a b = if same a.key b.key then ltb b.src_idx a.src_idx else less a.key b.key

  -- heap.Push
  unfoldable pub push : Source It → List (Source It) → List (Source It)
  push s [] = s ∷ []
  push s (t ∷ h) = let later = push s h in if before s t then s ∷ (t ∷ h) else t ∷ later

module _ {It : Type 0} (next : It → Outcome It) where
  unfoldable pub pull : Source It → Pulled It
  pull s = elim (next s.it) [
    | item e it' ↦
        if is_unsorted s.prev e.0
        then broken
        else live (record s { it = it'; key = e.0; value = e.1; prev = some e.0 })
    | ended ↦ drained
    | failed ↦ broken
  ]

  -- `none` is the error.
  unfoldable pub advance : Source It → List (Source It) → Option (List (Source It))
  advance s h = elim (pull s) [ live t ↦ some (push t h) | drained ↦ some h | broken ↦ none ]

  -- The loop that drops the older versions of a key.
  unfoldable pub discard : ℕ → Bytes → List (Source It) → Option (List (Source It))
  discard zero dup h = some h
  discard (suc fuel) dup [] = some []
  discard (suc fuel) dup (s ∷ h) =
      let rest : Option (List (Source It)) = elim (advance s h) [
        | none ↦ none
        | some h' ↦ discard fuel dup h'
      ] in
      if same s.key dup then rest else some (s ∷ h)

  -- Next of the merge; each source has one entry of a key, so the heap's length bounds the loop.
  unfoldable pub merge_next : List (Source It) → Outcome (List (Source It))
  merge_next [] = ended
  merge_next (top ∷ h) = elim (advance top h) [
    | none ↦ failed
    | some h₁ ↦ elim (discard (length h₁) top.key h₁) [
      | none ↦ failed
      | some h₂ ↦ item (top.key, top.value) h₂
    ]
  ]

  -- newMergeIterator: the sources in order, the first with the index `idx`.
  unfoldable pub open_all : ℕ → List It → List (Source It) → Option (List (Source It))
  open_all idx [] h = some h
  open_all idx (it' ∷ its) h =
      elim (advance (record { it = it'; src_idx = idx; key = []; value = none; prev = none }) h) [
        | none ↦ none
        | some h' ↦ open_all (idx + 1) its h'
      ]

  unfoldable pub new_merge_iterator : List It → Option (List (Source It))
  new_merge_iterator its = open_all 0 its []

  -- Everything that an iterator gives, up to `fuel` entries.
  unfoldable pub drain : ℕ → It → Option (List Entry)
  drain zero s = none
  drain (suc fuel) s = elim (next s) [
    | failed ↦ none
    | ended ↦ some []
    | item e s' ↦ elim (drain fuel s') [ none ↦ none | some es ↦ some (e ∷ es) ]
  ]

-- The entries themselves as an iterator.
unfoldable pub next_entry : List Entry → Outcome (List Entry)
next_entry [] = ended
next_entry (e ∷ es) = item e es
