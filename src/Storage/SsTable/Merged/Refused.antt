-- ===== src/Storage/SsTable/Merged/Refused.antt =====
-- When MergeSSTable (storage/zstorage/SSTable.go) gives nil for what the files hold.
use ban_db.Prelude.{
  ℕ, zero, suc, List, [], ◌∷◌, map, none, some, ◌≡◌, refl, sym, ◌∙◌, Option-cases, inl, inr,
}
use ban_db.Bytes.{Bytes}
use ban_db.Storage.Bloom.{Partitions}
use ban_db.Storage.Entries.{Entry}
use ban_db.Storage.Merge.{
  Outcome, item, ended, failed, Source, merge_next, new_merge_iterator, drain,
}
use ban_db.Storage.Merge.Streams.{AllYield}
use ban_db.Storage.Merge.Rounds.{drain_step}
use ban_db.Storage.Merge.Errors.{AllAscending, drain-AllAscending}
use ban_db.Storage.SsTable.Filter.{Cached}
use ban_db.Storage.SsTable.Iterator.{SsTableIterator, new_ss_table_iterator, next}
use ban_db.Storage.SsTable.Merged.{
  Writing, nothing_written, write_merged, merge_loop, merge_ss_table, all_bytes,
}

-- The loop ends only where the merge has ended without an error.
merge_loop-drained :
    (fuel : ℕ) (h : List (Source SsTableIterator)) (w w' : Writing)
    → merge_loop fuel h w ≡ some w'
    → (out : List Entry) × (drain (merge_next next) fuel h ≡ some out)
unfolding merge_loop drain
merge_loop-drained zero h w w' l = cc
merge_loop-drained (suc fuel) h w w' l = go (merge_loop-drained fuel) (merge_next next h) refl
  where
    go :
        ((g : List (Source SsTableIterator)) (u u' : Writing)
          → merge_loop fuel g u ≡ some u'
          → (out : List Entry) × (drain (merge_next next) fuel g ≡ some out))
        → (o : Outcome (List (Source SsTableIterator))) → merge_next next h ≡ o
        → (out : List Entry) × (drain (merge_next next) (suc fuel) h ≡ some out)
    go further failed e = let bad : merge_loop (suc fuel) h w ≡ none = rw (merge_loop, e) in cc
    go further ended e = ([], rw (drain, e))
    go further (item x h₁) e =
        let here : merge_loop (suc fuel) h w ≡ merge_loop fuel h₁ (write_merged x w) =
          rw (merge_loop, e) in
        let (out, d) = further h₁ (write_merged x w) w' (sym here ∙ l) in
        (x ∷ out, drain_step (merge_next next) fuel h h₁ x out e d)

module _ (optimal_m : ℕ → ℕ) (optimal_k : ℕ → ℕ → ℕ) (encode_bloom : Partitions → Bytes) where
  -- MergeSSTable gives a file only if the entries of every source have strictly ascending keys: where one
  -- has not, it gives nil, whatever the other sources hold. `rs` is what the iterators of the files
  -- give.
  pub merge_ss_table-AllAscending :
      (files : List Bytes) (rs : List (List Entry)) (result : Bytes × Bytes × Cached)
      → AllYield next (map new_ss_table_iterator files) rs
      → merge_ss_table optimal_m optimal_k encode_bloom files ≡ some result
      → AllAscending rs
  unfolding merge_ss_table
  merge_ss_table-AllAscending [] rs result y m = cc
  merge_ss_table-AllAscending (f ∷ files) rs result y m =
      elim (Option-cases (new_merge_iterator next (map new_ss_table_iterator (f ∷ files)))) [
        | inl o ↦
            let bad : merge_ss_table optimal_m optimal_k encode_bloom (f ∷ files) ≡ none =
              rw (merge_ss_table, o) in
            cc
        | inr (h, o) ↦
            elim (Option-cases (merge_loop (suc (all_bytes (f ∷ files))) h nothing_written)) [
              | inl l ↦
                  let bad : merge_ss_table optimal_m optimal_k encode_bloom (f ∷ files) ≡ none =
                    rw (merge_ss_table, o, l) in
                  cc
              | inr (w, l) ↦
                  let (out, d) =
                    merge_loop-drained (suc (all_bytes (f ∷ files))) h nothing_written w l in
                  drain-AllAscending next (suc (all_bytes (f ∷ files)))
                    (map new_ss_table_iterator (f ∷ files)) rs h out y o d
            ]
      ]
