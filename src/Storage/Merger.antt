-- ===== src/Storage/Merger.antt =====
-- The interface between compaction (storage/zstorage/memtable.go) and the files: what CompactSSTable
-- relies on in MergeSSTable. Storage/SsTable/Merged has its implementation.
use ban_db.Prelude.{ℕ, ◌<◌, ◌≤◌, List, ◌∷◌, map, ◌≡◌, Option, some}
use ban_db.Bytes.{Bytes}
use ban_db.Storage.Entries.{
  Entry, IsAscending, assoc, All, last_key, FileRun, entries, size, total, newest_of, AllRuns,
}
use ban_db.Storage.Format.{Format}

-- The outcome of merging the files that were written from `rs`, the oldest first: the file of one
-- ascending run, that says of every key what the newest of the files says that has it.
pub record IsMerge (fmt : Format) (merge : List fmt.File → Option (Bytes × Bytes × fmt.File))
    (entry_size : Entry → ℕ) (rs : List FileRun) : Type 0 where
  pub first : Entry
  pub rest : List Entry
  pub done :
      merge (map (λ r. fmt.write (entries r)) rs)
      ≡ some (first.0, last_key first.0 rest, fmt.write (first ∷ rest))
  pub ascending : IsAscending (first ∷ rest)
  pub fit : All fmt.Fits (first ∷ rest)
  pub reads : (j : Bytes) → assoc j (first ∷ rest) ≡ newest_of (map entries rs) j
  pub no_larger : size entry_size (first ∷ rest) ≤ total entry_size (map entries rs)

pub record Merger (fmt : Format) : Type 1 where
  -- The least key, the greatest and the file; `none` is nil.
  pub merge : List fmt.File → Option (Bytes × Bytes × fmt.File)
  pub entry_size : Entry → ℕ
  pub limit : ℕ
  pub merge-newest :
      (r : FileRun) (rs : List FileRun)
      → AllRuns fmt.Fits (map entries (r ∷ rs))
      → total entry_size (map entries (r ∷ rs)) < limit
      → IsMerge fmt merge entry_size (r ∷ rs)
