-- ===== src/Storage/MemTable/Scan.antt =====
-- ScanRange of storage/zstorage/memtable.go: the active list and the dirty one, merged in ascending order
-- of their keys, the active one hiding the other.
pub mod Picked
pub mod Listing
pub mod Range
use ban_db.Prelude.{
  ℕ, zero, suc, ◌+◌, ltb, List, [], ◌∷◌, length, Bool, true, false, ◌&&◌, Option, none, some,
  if◌then◌else◌,
}
use ban_db.Bytes.{Bytes}
use ban_db.Bytes.Order.{less}
use ban_db.Storage.SkipList.{Node, SkipList, first_gte}
use ban_db.Storage.MemTable.{MemTable}

-- A key with its value, and what is left of the two lists.
abbrev pub Step : Type 0
Step = Bytes × Option Bytes × List Node × List Node

-- The switch; `none` is the end of both lists.
unfoldable pub pick : List Node → List Node → Option Step
pick [] [] = none
pick (a ∷ rest) [] = some (a.key, a.value, rest, [])
pick [] (d ∷ ds) = some (d.key, d.value, [], ds)
pick (a ∷ rest) (d ∷ ds) =
    if less a.key d.key
    then some (a.key, a.value, rest, d ∷ ds)
    else if less d.key a.key
    then some (d.key, d.value, a ∷ rest, ds)
    else some (a.key, a.value, rest, ds)

-- `len(end) > 0 && bytes.Compare(key, end) > 0`
abbrev pub is_past : Bytes → Bytes → Bool
is_past end key = ltb 0 (length end) && less end key

module _ {ℓ} {S : Type ℓ} (fn : Bytes → Bytes → S → S × Bool) where
  unfoldable pub scan_loop : ℕ → List Node → List Node → Bytes → S → S
  scan_loop zero a d end s = s
  scan_loop (suc fuel) a d end s = elim (pick a d) [
    | none ↦ s
    | some (key, value, a', d') ↦ if is_past end key then s else elim value [
      | none ↦ scan_loop fuel a' d' end s
      | some v ↦
          (let (s', more) = fn key v s in
            elim more [ true ↦ scan_loop fuel a' d' end s' | false ↦ s' ])
    ]
  ]

  unfoldable pub scan_range : {File : Type 0} → MemTable File → Bytes → Bytes → S → S
  unfolding scan_loop
  scan_range m start end s =
      let a = first_gte m.active start in
      let d : List Node = elim m.dirty [ none ↦ [] | some x ↦ first_gte x start ] in
      scan_loop (length a + length d) a d end s
