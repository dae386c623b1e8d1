-- ===== src/Storage/SsTable/Merged.antt =====
-- MergeSSTable of storage/zstorage/SSTable.go: the entries that the merge iterator gives are written as
-- they come, with the layout of WriteToSSTable.
pub mod Written
pub mod Newest
pub mod Refused
use ban_db.Prelude.{
  ℕ, zero, suc, ◌+◌, ◌/◌, ◌%◌, ◌==◌, List, [], ◌∷◌, ◌++◌, length, map, true, false, Option, none,
  some, if◌then◌else◌,
}
use ban_db.Bytes.{Bytes}
use ban_db.Storage.Entries.{Entry}
use ban_db.Storage.Bloom.{Partitions, build_partitioned_bloom}
use ban_db.Storage.Merge.{Outcome, item, ended, failed, Source, merge_next, new_merge_iterator}
use ban_db.Storage.SsTable.{BlockIndexEntry, ss_table_block_size, encode_entry, set_last_key}
use ban_db.Storage.SsTable.Filter.{Cached, default_namespace_sep}
use ban_db.Storage.SsTable.Footer.{file_tail}
use ban_db.Storage.SsTable.Iterator.{SsTableIterator, new_ss_table_iterator, next}

-- The variables of the loop; `buf` is what has gone through the buffered writer.
pub record Writing : Type 0 where
  pub count : ℕ
  pub buf : Bytes
  pub data_offset : ℕ
  pub block_idx : List BlockIndexEntry
  pub keys : List Bytes
  pub min_key : Bytes
  pub max_key : Bytes

abbrev pub nothing_written : Writing
nothing_written = record {
  count = 0;
  buf = [];
  data_offset = 0;
  block_idx = [];
  keys = [];
  min_key = [];
  max_key = [];
}

-- What an entry adds to the offset.
abbrev pub entry_size : Entry → ℕ
entry_size (k, none) = 8 + length k
entry_size (k, some v) = 8 + length k + length v

-- The body of the loop.
unfoldable pub write_merged : Entry → Writing → Writing
write_merged e w =
    let bi = w.count / ss_table_block_size in
    let idx =
      if w.count % ss_table_block_size == 0
      then w.block_idx ++ (record { last_key = []; block_offset = w.data_offset } ∷ [])
      else w.block_idx in
    record w {
      count = w.count + 1;
      buf = w.buf ++ encode_entry e;
      data_offset = w.data_offset + entry_size e;
      block_idx = set_last_key idx bi e.0;
      keys = w.keys ++ (e.0 ∷ []);
      min_key = if w.count == 0 then e.0 else w.min_key;
      max_key = e.0;
    }

-- The loop over mi.Next(), with mi.Err() after it; `none` is the error.
unfoldable pub merge_loop : ℕ → List (Source SsTableIterator) → Writing → Option Writing
unfolding write_merged
merge_loop zero h w = none
merge_loop (suc fuel) h w = elim (merge_next next h) [
  | failed ↦ none
  | ended ↦ some w
  | item e h' ↦ merge_loop fuel h' (write_merged e w)
]

-- The bytes of the sources; each entry takes some, so the loop has fewer rounds.
abbrev pub all_bytes : List Bytes → ℕ
all_bytes [] = 0
all_bytes (c ∷ cs) = length c + all_bytes cs

-- `encode_bloom` is the filter's Encode.
module _ (optimal_m : ℕ → ℕ) (optimal_k : ℕ → ℕ → ℕ) (encode_bloom : Partitions → Bytes) where
  unfoldable pub finish : Writing → Cached
  finish w =
      let bloom = build_partitioned_bloom optimal_m optimal_k w.keys default_namespace_sep in
      record {
        content = w.buf ++ file_tail (encode_bloom bloom) w.buf w.block_idx;
        index = w.block_idx;
        bloom = bloom;
      }

  -- The least key, the greatest, and the file; `none` is nil.
  unfoldable pub merge_ss_table : List Bytes → Option (Bytes × Bytes × Cached)
  unfolding merge_loop finish
  merge_ss_table [] = none
  merge_ss_table (f ∷ files) =
      elim (new_merge_iterator next (map new_ss_table_iterator (f ∷ files))) [
        | none ↦ none
        | some h ↦ elim (merge_loop (suc (all_bytes (f ∷ files))) h nothing_written) [
          | none ↦ none
          | some w ↦ if w.count == 0 then none else some (w.min_key, w.max_key, finish w)
        ]
      ]
