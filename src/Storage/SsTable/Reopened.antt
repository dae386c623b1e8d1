-- ===== src/Storage/SsTable/Reopened.antt =====
-- ReadFromSSTable (storage/zstorage/SSTable.go) of a file that is not in the caches, as after a restart:
-- the block index comes from the file, and a file without one is read as a whole.
use ban_db.Prelude.{
  ℕ, ◌+◌, ◌^◌, ◌<◌, List, [], ◌∷◌, length, length-append, Bool, ◌⊎◌, inl, inr, true, false, Option,
  none, some, if◌then◌else◌, ◌≡◌, ◌∙◌, ap, arith,
}
use ban_db.Bytes.{Bytes}
use ban_db.Bytes.Order.{less}
use ban_db.Storage.Bloom.{Partitions, partitions_may_contain}
use ban_db.Storage.Entries.{Entry, IsAscending, All, assoc, last_key, size}
use ban_db.Storage.SsTable.{search_block}
use ban_db.Storage.SsTable.Record.{Fits, encode_all}
use ban_db.Storage.SsTable.Index.{
  Block, cut, index_from, entries_in, entries_in-cut, build_lem, encode_all-append,
}
use ban_db.Storage.SsTable.Lookup.{All-left, All-right, search_block-build}
use ban_db.Storage.SsTable.Filter.{
  default_namespace_sep, write_file, read_from_ss_table, read_from_ss_table-write_file,
}
use ban_db.Storage.SsTable.Footer.{load_block_index_from_file}
use ban_db.Storage.SsTable.Footer.Loaded.{FitIndex, load_block_index-tail}
use ban_db.Storage.SsTable.Iterator.{read_from_ss_table_full}
use ban_db.Storage.SsTable.Merged.{entry_size}
use ban_db.Storage.SsTable.Merged.Newest.{limit, file_of, tail_of, size-encode_all, IsSized-build}

-- A nil filter rules nothing out.
abbrev pub may_hold : Option Partitions → Bytes → Bool
may_hold none key = true
may_hold (some bloom) key = partitions_may_contain default_namespace_sep bloom key

-- `bloom` is what getBloom gives.
unfoldable pub read_cold : Option Partitions → Bytes → Bytes → Option (Option Bytes)
read_cold bloom content key =
    if may_hold bloom key
    then elim (load_block_index_from_file content) [
      | some idx ↦ search_block content key idx
      | none ↦ read_from_ss_table_full content key
    ]
    else none

Fits-key : (k : Bytes) (v : Option Bytes) → Fits k v → length k < 2 ^ 32
Fits-key k none f = f
Fits-key k (some v) f = f.0

last_key-Fits :
    (e : Entry) (es : List Entry) → All Fits (e ∷ es) → length (last_key e.0 es) < 2 ^ 32
unfolding last_key
last_key-Fits (k, v) [] f = Fits-key k v f.0
last_key-Fits e (x ∷ es) f = last_key-Fits x es f.1

FitIndex-from :
    (off : ℕ) (bs : List Block)
    → All Fits (entries_in bs)
    → off + length (encode_all (entries_in bs)) < 2 ^ 64
    → FitIndex (index_from off bs)
unfolding index_from entries_in
FitIndex-from off [] f h = tt
FitIndex-from off ((e, es) ∷ bs) f h =
    let both =
      ap length (encode_all-append (e ∷ es) (entries_in bs))
      ∙ length-append (encode_all (e ∷ es)) (encode_all (entries_in bs)) in
    (
      last_key-Fits e es (All-left (e ∷ es) (entries_in bs) f),
      omega (arith, both, h),
      FitIndex-from (off + length (encode_all (e ∷ es))) bs (All-right (e ∷ es) (entries_in bs) f)
          (omega (arith, both, h)),
    )

module _ (optimal_m : ℕ → ℕ) (optimal_k : ℕ → ℕ → ℕ) (encode_bloom : Partitions → Bytes) where
  load_block_index-file :
      (e : Entry) (es : List Entry)
      → All Fits (e ∷ es)
      → size entry_size (e ∷ es) < limit
      → load_block_index_from_file (file_of optimal_m optimal_k encode_bloom (e ∷ es)).content
        ≡ some (file_of optimal_m optimal_k encode_bloom (e ∷ es)).index
  unfolding write_file
  load_block_index-file e es f s =
      let blocks = entries_in-cut 1 e [] es in
      rw (build_lem e es) (
        load_block_index-tail (encode_all (e ∷ es)) _ (index_from 0 (cut 1 e [] es))
          (IsSized-build e es s)
          (FitIndex-from 0 (cut 1 e [] es) (rw blocks f)
            (rw blocks (omega (arith, s, size-encode_all (e ∷ es))))))

  -- ReadFromSSTable of a file that is in no cache answers as it did when the file was written: the index
  -- that is loaded is the one that was cached, and the search over it gives the key what the entries
  -- say. The filter is nil or the one that was written. The key is not past the last one; the entries
  -- ascend, fit their fields, and stay under 32 GiB.
  pub read_cold-write_file :
      (e : Entry) (es : List Entry) (bloom : Option Partitions) (key : Bytes)
      → All Fits (e ∷ es)
      → IsAscending (e ∷ es)
      → size entry_size (e ∷ es) < limit
      → less (last_key e.0 es) key ≡ false
      → (bloom ≡ none) ⊎ (bloom ≡ some (file_of optimal_m optimal_k encode_bloom (e ∷ es)).bloom)
      → (load_block_index_from_file (file_of optimal_m optimal_k encode_bloom (e ∷ es)).content
          ≡ some (file_of optimal_m optimal_k encode_bloom (e ∷ es)).index)
        × (read_cold bloom (file_of optimal_m optimal_k encode_bloom (e ∷ es)).content key
            ≡ assoc key (e ∷ es))
  unfolding read_cold
  read_cold-write_file e es bloom key f asc s h b =
      let file = file_of optimal_m optimal_k encode_bloom (e ∷ es) in
      let loaded = load_block_index-file e es f s in
      (
        loaded,
        elim b [
          | inl n ↦
              rw (n, read_cold, loaded)
                (unfold write_file in
                  search_block-build e es (tail_of optimal_m optimal_k encode_bloom _ _ _) key f asc
                    h)
          | inr n ↦
              rw (n, read_cold, loaded)
                (unfold read_from_ss_table in
                  read_from_ss_table-write_file optimal_m optimal_k
                    (tail_of optimal_m optimal_k encode_bloom) e es key f asc h)
        ],
      )
