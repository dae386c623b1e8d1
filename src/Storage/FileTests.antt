-- ===== src/Storage/FileTests.antt =====
-- Examples of the theorems on the files of storage/zstorage: merging, compaction and reading them back.
use ban_db.Prelude.{◌≤◌, false}
use ban_db.Storage.MemTable.Compact.Reads.{stored}
use ban_db.Storage.MemTable.{Meta}
use ban_db.Prelude.{
  ℕ, ◌==◌, List, [], ◌∷◌, ◌++◌, map, Bool, true, none, some, ◌≡◌, refl, arith, inl,
}
use ban_db.Prelude.Int.{pos}
use ban_db.Bytes.{Bytes}
use ban_db.Bytes.Order.{cmp, less}
use ban_db.Storage.Bloom.{Partitions}
use ban_db.Storage.Entries.{FileRun, entries, assoc, last_key}
use ban_db.Storage.Merger.{IsMerge}
use ban_db.Storage.Merge.Errors.{AllAscending}
use ban_db.Storage.MemTable.{Meta, new_mem_table, find, get_from_sstables}
use ban_db.Storage.MemTable.Valid.{IsValid, IsValid-new}
use ban_db.Storage.MemTable.Compact.{compact_ss_table, get_level_files}
use ban_db.Storage.MemTable.Compact.Levels.{IsPointer}
use ban_db.Storage.MemTable.Compact.Whole.{IsCompact, Few, compact_ss_table-get}
use ban_db.Storage.MemTable.Snapshot.{flush_to_ss_table, latest, below, flush_to_ss_table-find}
use ban_db.Storage.SsTable.Record.{encode_all}
use ban_db.Storage.Format.{Format}
use ban_db.Storage.Merge.Streams.{AllYield}
use ban_db.Storage.MemTable.Compact.Reads.{stored}
use ban_db.Storage.SsTable.Index.{cut, index_from}
use ban_db.Storage.SsTable.Filter.{ss_table_format}
use ban_db.Storage.SsTable.Footer.{file_tail, load_block_index_from_file}
use ban_db.Storage.SsTable.Iterator.{
  next, read_all_from_ss_table, read_from_ss_table_full, new_ss_table_iterator,
}
use ban_db.Storage.SsTable.Iterator.Yields.{read_all_from_ss_table-written}
use ban_db.Storage.SsTable.Merged.{entry_size, merge_ss_table}
use ban_db.Storage.SsTable.Merged.Newest.{
  format, merge_files, file_of, content_of, merge_ss_table-newest, ss_table_merger, IsSized-build,
  Yields-file,
}
use ban_db.Storage.SsTable.Merged.Refused.{merge_ss_table-AllAscending}
use ban_db.Storage.SsTable.Reopened.{read_cold, read_cold-write_file}

abbrev m_of : ℕ → ℕ
m_of n = 64

abbrev k_of : ℕ → ℕ → ℕ
k_of n m = 2

abbrev no_blob : Partitions → Bytes
no_blob bloom = []

abbrev a : Bytes
a = 97 ∷ []

abbrev b : Bytes
b = 98 ∷ []

-- The older file has both keys, the newer one a tombstone for the first.
abbrev older : FileRun
older = ((a, some (1 ∷ [])), (b, some []) ∷ [])

abbrev newer : FileRun
newer = ((a, none), [])

merge_ss_table-newest_example :
    IsMerge
      (format m_of k_of no_blob)
      (merge_files m_of k_of no_blob)
      entry_size
      (older ∷ (newer ∷ []))
unfolding less cmp
merge_ss_table-newest_example =
    merge_ss_table-newest m_of k_of no_blob older (newer ∷ [])
      (
        ((refl, tt), (tt, tt)),
        ((omega arith, omega arith), ((omega arith, omega arith), tt)),
        ((tt, tt), (omega arith, tt), tt),
      )
      (omega arith)

read_all_from_ss_table-written_example :
    (read_all_from_ss_table (
        encode_all ((a, none) ∷ [])
        ++ file_tail [] (encode_all ((a, none) ∷ [])) (index_from 0 (cut 1 (a, none) [] [])))
      ≡ some ((a, none) ∷ []))
    × (read_from_ss_table_full
          (encode_all ((a, none) ∷ [])
            ++ file_tail [] (encode_all ((a, none) ∷ [])) (index_from 0 (cut 1 (a, none) [] [])))
          a
        ≡ assoc a ((a, none) ∷ []))
read_all_from_ss_table-written_example =
    read_all_from_ss_table-written ((a, none) ∷ []) [] (index_from 0 (cut 1 (a, none) [] [])) a
      (omega arith, tt) (IsSized-build (a, none) [] (omega arith))

read_cold-write_file_example :
    (load_block_index_from_file (file_of m_of k_of no_blob ((a, none) ∷ [])).content
      ≡ some (file_of m_of k_of no_blob ((a, none) ∷ [])).index)
    × (read_cold none (file_of m_of k_of no_blob ((a, none) ∷ [])).content a
        ≡ assoc a ((a, none) ∷ []))
unfolding less last_key cmp
read_cold-write_file_example =
    read_cold-write_file m_of k_of no_blob (a, none) [] none a (omega arith, tt) (tt, tt)
      (omega arith) refl (inl refl)

abbrev merged_once :
    IsMerge (format m_of k_of no_blob) (merge_files m_of k_of no_blob) entry_size (newer ∷ [])
merged_once =
    merge_ss_table-newest m_of k_of no_blob newer [] ((tt, tt), (omega arith, tt), tt) (omega arith)

one_yields :
    AllYield next
      (map new_ss_table_iterator (content_of m_of k_of no_blob newer ∷ []))
      (((a, none) ∷ []) ∷ [])
one_yields = (Yields-file m_of k_of no_blob newer (omega arith, tt) (omega arith), tt)

one_merges :
    merge_ss_table m_of k_of no_blob (content_of m_of k_of no_blob newer ∷ [])
    ≡ some (
      merged_once.first.0,
      last_key merged_once.first.0 merged_once.rest,
      file_of m_of k_of no_blob (merged_once.first ∷ merged_once.rest),
    )
unfolding merge_files ss_table_format
one_merges = merged_once.done

merge_ss_table-AllAscending_example : AllAscending (((a, none) ∷ []) ∷ [])
merge_ss_table-AllAscending_example =
    merge_ss_table-AllAscending m_of k_of no_blob (content_of m_of k_of no_blob newer ∷ [])
      (((a, none) ∷ []) ∷ []) _ one_yields one_merges

-- Two files of level 0, and a merge at two.
abbrev fmt : Format
fmt = format m_of k_of no_blob

abbrev meta_of : FileRun → Meta fmt.File
meta_of r = record {
  level = 0;
  min_key = r.0.0;
  max_key = last_key r.0.0 r.1;
  file = fmt.write (entries r);
}

abbrev metas : List (Meta fmt.File)
metas = meta_of older ∷ (meta_of newer ∷ [])

abbrev same_level : Meta fmt.File → Meta fmt.File → Bool
same_level x y = x.level == y.level

pointers : IsPointer same_level
pointers = record { itself = λ m. ground arith; one_level = λ x y h. ground arith }

IsCompact-metas :
    IsCompact fmt (ss_table_merger m_of k_of no_blob) same_level pointers 2 (omega arith) metas
unfolding less cmp ss_table_format get_level_files stored ss_table_merger
IsCompact-metas = record {
  metas_ok = (
    record {
      first = older.0;
      rest = older.1;
      fit = ((omega arith, omega arith), ((omega arith, omega arith), tt));
      ascending = ((refl, tt), (tt, tt));
      least = refl;
      greatest = refl;
      content = refl;
    },
    (
      record {
        first = newer.0;
        rest = newer.1;
        fit = (omega arith, tt);
        ascending = (tt, tt);
        least = refl;
        greatest = refl;
        content = refl;
      },
      tt,
    ),
  );
  leveled = ((omega arith, tt), (tt, tt));
  few = λ k h i. ground arith;
  small = omega arith;
}

abbrev compacted : List (Meta (Format.File fmt))
compacted = compact_ss_table same_level (merge_files m_of k_of no_blob) 2 0 metas

compact_ss_table-get_example :
    (c' : IsCompact fmt
      (ss_table_merger m_of k_of no_blob)
      same_level
      pointers
      2
      (omega arith)
      compacted)
    × (stored fmt (ss_table_merger m_of k_of no_blob) same_level pointers 2 compacted c'.metas_ok
        ≤ stored fmt
            (ss_table_merger m_of k_of no_blob)
            same_level
            pointers
            2
            metas
            IsCompact-metas.metas_ok)
    × Few fmt (ss_table_merger m_of k_of no_blob) same_level pointers 2 (omega arith) 0 compacted
    × ((key : Bytes) → get_from_sstables fmt compacted key ≡ get_from_sstables fmt metas key)
unfolding ss_table_merger
compact_ss_table-get_example =
    compact_ss_table-get fmt (ss_table_merger m_of k_of no_blob) same_level pointers 2 (omega arith)
      metas IsCompact-metas _ refl

flush_to_ss_table-find_example :
    (let (after, ok) = flush_to_ss_table fmt true ((1, older.0) ∷ []) (new_mem_table (pos 10)) in
      IsValid fmt after
      × (ok ≡ true)
      × (find fmt after a ≡ below fmt (new_mem_table (pos 10)) a (latest a ((1, older.0) ∷ [])))
      × ((flush_to_ss_table fmt false ((1, older.0) ∷ []) (new_mem_table (pos 10))).0
          ≡ new_mem_table (pos 10)))
unfolding ss_table_format
flush_to_ss_table-find_example =
    flush_to_ss_table-find fmt true ((1, older.0) ∷ []) (new_mem_table (pos 10)) a
      (omega arith, (omega arith, omega arith), tt) (IsValid-new fmt (pos 10))
