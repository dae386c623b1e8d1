-- ===== src/Storage/MemTable/Compact.antt =====
-- CompactSSTable of storage/zstorage/memtable.go, and the list of files that it works on (GetLevelFiles,
-- AddMata and RemoveMata of SSTable.go). `same_meta` is the equality of pointers. DeleteSSTable takes a
-- file away that the list no longer names.
pub mod Levels
pub mod Reads
pub mod Whole
use ban_db.Prelude.{
  ℕ, zero, suc, ◌+◌, ◌-◌, ◌==◌, ltb, List, [], ◌∷◌, ◌++◌, length, map, Bool, true, false, Option,
  none, some, if◌then◌else◌,
}
use ban_db.Bytes.{Bytes}
use ban_db.Storage.MemTable.{Meta}

abbrev pub max_level : ℕ
max_level = 10

module _ {File : Type 0} where
  unfoldable pub get_level_files : List (Meta File) → ℕ → List (Meta File)
  get_level_files [] level = []
  get_level_files (m ∷ ms) level =
      let rest = get_level_files ms level in if m.level == level then m ∷ rest else rest

  unfoldable pub add_mata : List (Meta File) → Meta File → List (Meta File)
  add_mata ms m = ms ++ (m ∷ [])

module _ {File : Type 0} (same_meta : Meta File → Meta File → Bool) where
  -- The first entry that is `target` goes.
  unfoldable pub remove_mata : List (Meta File) → Meta File → List (Meta File)
  remove_mata [] target = []
  remove_mata (m ∷ ms) target =
      let rest = remove_mata ms target in if same_meta m target then ms else m ∷ rest

  unfoldable pub remove_files : List (Meta File) → List (Meta File) → List (Meta File)
  unfolding remove_mata
  remove_files ms [] = ms
  remove_files ms (f ∷ files) = remove_files (remove_mata ms f) files

  -- `merge` is MergeSSTable up to AddMata: the least key, the greatest and the file.
  module _ (merge : List File → Option (Bytes × Bytes × File)) (max_compaction_size : ℕ) where
    -- One round of the loop.
    unfoldable pub compact_level : ℕ → List (Meta File) → List (Meta File)
    unfolding remove_files add_mata
    compact_level level ms =
        let files = get_level_files ms level in
        if ltb (length files) max_compaction_size
        then ms
        else elim (merge (map (λ m. m.file) files)) [
          | none ↦ ms
          | some (least, greatest, f) ↦
              let merged : Meta File = record {
                level = level + 1;
                min_key = least;
                max_key = greatest;
                file = f;
              } in
              remove_files (add_mata ms merged) files
        ]

    unfoldable pub compact_from : ℕ → ℕ → List (Meta File) → List (Meta File)
    unfolding compact_level
    compact_from zero level ms = ms
    compact_from (suc rounds) level ms = compact_from rounds (level + 1) (compact_level level ms)

    unfoldable pub compact_ss_table : ℕ → List (Meta File) → List (Meta File)
    unfolding compact_from
    compact_ss_table start_level ms = compact_from (max_level - start_level) start_level ms
