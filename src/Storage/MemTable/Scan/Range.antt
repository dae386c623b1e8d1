-- ===== src/Storage/MemTable/Scan/Range.antt =====
-- The range scan of storage/zstorage/memtable.go as a whole: firstGTE in both lists, then the merge.
use ban_db.Prelude.{
  ◌+◌, List, [], ◌∷◌, length, Bool, true, false, Option, none, some, if◌then◌else◌, ◌≡◌, refl, ◌∙◌,
  ap, arith, Bool-cases, inl, inr,
}
use ban_db.Bytes.{Bytes}
use ban_db.Bytes.Order.{less, same, less_trans, less_total, same→eq}
use ban_db.Storage.SkipList.{Node, SkipList, first_gte, search}
use ban_db.Storage.SkipList.Search
use ban_db.Storage.SkipList.Search.{from_key}
use ban_db.Storage.SkipList.Table.{lookup, lookup-Above, Above-trans}
use ban_db.Storage.SkipList.Refine
use ban_db.Storage.Entries.{assoc, IsAscending}
use ban_db.Storage.MemTable.{MemTable, or_else, dirty_search}
use ban_db.Storage.MemTable.Scan.{is_past, scan_range}
use ban_db.Storage.MemTable.Scan.Picked.{visible}
use ban_db.Storage.MemTable.Scan.Listing.{
  collect, scan_loop-collect, scan_list-IsAscending, assoc-scan_list,
}

from_key-IsAscending :
    (start : Bytes) (s : List Node) → Search.IsAscending s → Search.IsAscending (from_key start s)
unfolding from_key
from_key-IsAscending start [] asc = tt
from_key-IsAscending start (n ∷ s) asc = elim (Bool-cases (less n.key start)) [
  | inl e ↦ rw e (from_key-IsAscending start s asc.2)
  | inr e ↦ rw e asc
]

-- From the start of the range on, a key is where it was; below it there is none.
lookup-from_key :
    (start : Bytes) (s : List Node) (j : Bytes)
    → Search.IsAscending s
    → lookup j (from_key start s) ≡ (if less j start then none else lookup j s)
unfolding from_key lookup
lookup-from_key start [] j asc = elim (Bool-cases (less j start)) [
  | inl e ↦ rw e refl
  | inr e ↦ rw e refl
]
lookup-from_key start (n ∷ s) j asc = elim (Bool-cases (less n.key start)) [
  | inl e ↦ elim (Bool-cases (less j start)) [
    | inl f ↦ rw (from_key, e, f) (lookup-from_key start s j asc.2 ∙ rw f refl)
    | inr f ↦ rw (from_key, e, f, other e f) (lookup-from_key start s j asc.2 ∙ rw f refl)
  ]
  | inr e ↦ elim (Bool-cases (less j start)) [
    | inl f ↦
        let under = below e f in
        rw (from_key, e, f) (lookup-Above j (n ∷ s) (under, Above-trans j n.key s under asc.1))
    | inr f ↦ rw (from_key, e, f) refl
  ]
]
  where
    other : less n.key start ≡ true → less j start ≡ false → same n.key j ≡ false
    other e f = elim (Bool-cases (same n.key j)) [
      | inl g ↦ cc (ap (λ k. less k start) (same→eq n.key j g), e, f)
      | inr g ↦ g
    ]

    below : less n.key start ≡ false → less j start ≡ true → less j n.key ≡ true
    below e f = elim (Bool-cases (same n.key start)) [
      | inl g ↦ ap (λ k. less j k) (same→eq n.key start g) ∙ f
      | inr g ↦ less_trans j start n.key f (less_total n.key start e g)
    ]

-- The lists of the table are valid.
abbrev pub DirtyValid : Option SkipList → Type 0
DirtyValid none = Unit
DirtyValid (some d) = Refine.IsValid d

-- Whether a key lies in the range.
abbrev pub outside : Bytes → Bytes → Bytes → Bool
outside start end j = if less j start then true else is_past end j

abbrev dirty_from : Option SkipList → Bytes → List Node
dirty_from o start = elim o [ none ↦ [] | some x ↦ first_gte x start ]

module _ (start j : Bytes) where
  active-lookup :
      (sl : SkipList)
      → Refine.IsValid sl
      → Search.IsAscending (first_gte sl start)
        × (lookup j (first_gte sl start) ≡ (if less j start then none else search sl j))
  active-lookup sl v =
      let cut = (Refine.search-lookup sl start v).1 in
      let found = (Refine.search-lookup sl j v).0 in
      rw (cut, found)
        (
          from_key-IsAscending start sl.nodes v.ascending,
          lookup-from_key start sl.nodes j v.ascending,
        )

  dirty-lookup :
      (o : Option SkipList)
      → DirtyValid o
      → Search.IsAscending (dirty_from o start)
        × (lookup j (dirty_from o start) ≡ (if less j start then none else dirty_search o j))
  unfolding dirty_search
  dirty-lookup none v = (
    tt,
    unfold lookup in elim (Bool-cases (less j start)) [ inl e ↦ rw e refl | inr e ↦ rw e refl ],
  )
  dirty-lookup (some d) v = active-lookup d v

  in_range :
      (end : Bytes) (x y : Option (Option Bytes))
      → (if is_past end j
          then none
          else visible
              (or_else (if less j start then none else x) (if less j start then none else y)))
        ≡ (if outside start end j then none else visible (or_else x y))
  unfolding or_else
  in_range end x y = elim (Bool-cases (less j start)) [
    | inr e ↦ rw e refl
    | inl e ↦ elim (Bool-cases (is_past end j)) [ inl f ↦ rw (e, f) refl | inr f ↦ rw (e, f) refl ]
  ]

  -- A scan of a range lists, in ascending order and each key once, exactly the keys in the range that
  -- Get finds in the two lists in memory, with the values that it gives: the active list hides the
  -- dirty one, and tombstones are left out. An empty end is no bound, and the callback never stops the
  -- scan. The lists are valid.
  pub scan_range-visible :
      {File : Type 0} (m : MemTable File) (end : Bytes)
      → Refine.IsValid m.active
      → DirtyValid m.dirty
      → IsAscending (scan_range collect m start end [])
        × (assoc j (scan_range collect m start end []) ≡ (
            if outside start end j
            then none
            else visible (or_else (search m.active j) (dirty_search m.dirty j))))
  unfolding scan_range
  scan_range-visible m end va vd =
      let a = first_gte m.active start in
      let d = dirty_from m.dirty start in
      let (asc_a, found_a) = active-lookup m.active va in
      let (asc_d, found_d) = dirty-lookup m.dirty vd in
      let fuel = length a + length d in
      let listed = scan_loop-collect end fuel a d [] in
      (
        rw listed (scan_list-IsAscending end fuel a d asc_a asc_d),
        rw listed (
            assoc-scan_list end fuel a d j asc_a asc_d (omega arith)
            ∙ (λ k. if is_past end j then none else visible (or_else (found_a k) (found_d k)))
            ∙ in_range end (search m.active j) (dirty_search m.dirty j)),
      )
