-- ===== src/Storage/SsTable/Merged/Newest.antt =====
-- MergeSSTable (storage/zstorage/SSTable.go) over files that WriteToSSTable wrote.
use mathlib.Core.Path.{subst}
use ban_db.Prelude.{
  ℕ, suc, ◌+◌, ◌*◌, ◌^◌, ◌==◌, Bool-cases, ◌<◌, ◌≤◌, List, [], ◌∷◌, ◌++◌, length, length-append,
  map, false, ◌≡◌, ◌≢◌, refl, sym, ◌∙◌, ap, arith, Option, none, some, inl, inr,
}
use ban_db.Bytes.{Bytes}
use ban_db.Bytes.Order.{same_refl}
use ban_db.Storage.Entries.{
  Entry, IsAscending, All, assoc, last_key, or_else, FileRun, entries, size, total, newest_of,
  AllRuns,
}
use ban_db.Storage.Merge.{Source, new_merge_iterator, drain, merge_next}
use ban_db.Storage.Merge.Drain.{one, Merged, merge_runs}
use ban_db.Storage.Merge.Streams.{AllYield, Yields, new_merge_iterator-Same}
use ban_db.Storage.Format.{Format}
use ban_db.Storage.Merger.{IsMerge, Merger}
use ban_db.Storage.Bloom.{Partitions, build_partitioned_bloom}
use ban_db.Storage.SsTable.{BlockIndexEntry, encode_entry, build}
use ban_db.Storage.SsTable.Record.{Fits, encode_all}
use ban_db.Storage.SsTable.Index.{cut, index_from, build_lem}
use ban_db.Storage.SsTable.Filter.{
  Cached, default_namespace_sep, write_file, keys_of, ss_table_format,
}
use ban_db.Storage.SsTable.Footer.{file_tail}
use ban_db.Storage.SsTable.Footer.Loaded.{IsSized}
use ban_db.Storage.SsTable.Iterator.{SsTableIterator, new_ss_table_iterator, next}
use ban_db.Storage.SsTable.Iterator.Yields.{Yields-written}
use ban_db.Storage.SsTable.Merged.{
  Writing, nothing_written, entry_size, merge_loop, finish, merge_ss_table, all_bytes,
}
use ban_db.Storage.SsTable.Merged.Written.{Wrote, merge_loop-Wrote, length-encode_entry}

-- The bytes of all runs together stay under 32 GiB, so that the counts and offsets fit their fields.
abbrev pub limit : ℕ
limit = 2 ^ 35

pub size-encode_all : (es : List Entry) → size entry_size es ≡ length (encode_all es)
unfolding encode_all
size-encode_all [] = refl
size-encode_all (e ∷ es) = omega (
  arith,
  size-encode_all es,
  length-encode_entry e,
  length-append (encode_entry e) (encode_all es),
)

size_one : (es : List Entry) → 8 * size one es ≤ size entry_size es
size_one [] = omega arith
size_one ((k, none) ∷ es) = omega (arith, size_one es)
size_one ((k, some v) ∷ es) = omega (arith, size_one es)

length-cut :
    (c : ℕ) (first : Entry) (others es : List Entry) (off : ℕ)
    → (0 < length (index_from off (cut c first others es)))
      × (length (index_from off (cut c first others es)) ≤ suc (size one es))
unfolding cut index_from
length-cut c first others [] off = omega arith
length-cut c first others (e ∷ es) off = elim (Bool-cases (c == 64)) [
  | inl z ↦
      let further = length-cut 1 e [] es (off + length (encode_all (first ∷ others))) in
      rw (z, index_from) (omega (arith, further.1))
  | inr z ↦ rw z (omega (arith, length-cut (c + 1) first (others ++ (e ∷ [])) es off))
]

pub IsSized-build :
    (e : Entry) (es : List Entry)
    → size entry_size (e ∷ es) < limit
    → IsSized (encode_all (e ∷ es)) (index_from 0 (cut 1 e [] es))
IsSized-build e es h = record {
  some_data = omega (arith, size-encode_all (e ∷ es), size_one (e ∷ es));
  data_fits = omega (arith, size-encode_all (e ∷ es));
  some_block = (length-cut 1 e [] es 0).0;
  blocks_fit = omega (arith, (length-cut 1 e [] es 0).1, size_one (e ∷ es));
}

module _ (optimal_m : ℕ → ℕ) (optimal_k : ℕ → ℕ → ℕ) (encode_bloom : Partitions → Bytes) where
  -- What stands after the data section, the encoded filter in it.
  abbrev pub tail_of : Partitions → Bytes → List BlockIndexEntry → Bytes
  tail_of bloom data' idx = file_tail (encode_bloom bloom) data' idx

  abbrev pub file_of : List Entry → Cached
  file_of es = write_file optimal_m optimal_k tail_of es

  abbrev pub content_of : FileRun → Bytes
  content_of r = (file_of (entries r)).content

  pub Yields-file :
      (r : FileRun)
      → All Fits (entries r)
      → size entry_size (entries r) < limit
      → Yields next (new_ss_table_iterator (content_of r)) (entries r)
  unfolding write_file
  Yields-file (e, es) f s =
      rw (build_lem e es)
        (Yields-written (e ∷ es) _ (index_from 0 (cut 1 e [] es)) f (IsSized-build e es s))

  AllYield-files :
      (rs : List FileRun)
      → AllRuns Fits (map entries rs)
      → total entry_size (map entries rs) < limit
      → AllYield next (map new_ss_table_iterator (map content_of rs)) (map entries rs)
  AllYield-files [] a s = tt
  AllYield-files (r ∷ rs) a s =
      (Yields-file r a.1 (omega (arith, s)), AllYield-files rs a.2 (omega (arith, s)))

  closed : Bytes × List BlockIndexEntry → List Bytes → Cached
  closed (buf, idx) keys =
      let bloom = build_partitioned_bloom optimal_m optimal_k keys default_namespace_sep in
      record { content = buf ++ file_tail (encode_bloom bloom) buf idx; index = idx; bloom = bloom }

  finish-Wrote :
      (e : Entry) (es : List Entry) (w : Writing)
      → Wrote e es w
      → finish optimal_m optimal_k encode_bloom w ≡ file_of (e ∷ es)
  unfolding finish write_file closed
  finish-Wrote e es w h =
      ap (λ b. closed b w.keys) h.same_build ∙ ap (closed (build 0 (e ∷ es) [] [])) h.same_keys

  -- A merge of at least one run has an entry.
  newest-ne-none : (r : FileRun) (rs : List FileRun) → newest_of (map entries (r ∷ rs)) r.0.0 ≢ none
  unfolding newest_of or_else assoc
  newest-ne-none ((k, v), es) rs h = ground (arith, same_refl k)

  abbrev pub format : Format
  format = ss_table_format optimal_m optimal_k tail_of

  unfoldable pub merge_files : List format.File → Option (Bytes × Bytes × format.File)
  unfolding ss_table_format
  merge_files files = merge_ss_table optimal_m optimal_k encode_bloom (map (λ f. f.content) files)

  contents-files :
      (rs : List FileRun)
      → map (λ f. f.content) (map (λ r. file_of (entries r)) rs) ≡ map content_of rs
  contents-files [] = refl
  contents-files (r ∷ rs) = ap (λ cs. content_of r ∷ cs) (contents-files rs)

  content-one : (r : FileRun) → size one (entries r) ≤ length (content_of r)
  unfolding write_file
  content-one (e, es) =
      let (data', idx) = build 0 (e ∷ es) [] [] in
      let bloom =
        build_partitioned_bloom optimal_m optimal_k (keys_of (e ∷ es)) default_namespace_sep in
      omega (
        arith,
        ap (λ (p : Bytes × List BlockIndexEntry). length p.0) (build_lem e es),
        length-append data' (tail_of bloom data' idx),
        size_one (e ∷ es),
        size-encode_all (e ∷ es),
      )

  all_bytes-one : (rs : List FileRun) → total one (map entries rs) ≤ all_bytes (map content_of rs)
  all_bytes-one [] = omega arith
  all_bytes-one (r ∷ rs) = omega (arith, content-one r, all_bytes-one rs)

  opened-merge :
      (r : FileRun) (rs : List FileRun) (h : List (Source SsTableIterator)) (w : Writing)
      → new_merge_iterator next (map new_ss_table_iterator (map content_of (r ∷ rs))) ≡ some h
      → merge_loop (suc (all_bytes (map content_of (r ∷ rs)))) h nothing_written ≡ some w
      → (w.count == 0) ≡ false
      → merge_ss_table optimal_m optimal_k encode_bloom (map content_of (r ∷ rs))
        ≡ some (w.min_key, w.max_key, finish optimal_m optimal_k encode_bloom w)
  unfolding merge_ss_table
  opened-merge r rs h w o l c = rw (merge_ss_table, o, l, c)

  -- MergeSSTable over files that WriteToSSTable wrote, the oldest first, succeeds, and gives the file that
  -- WriteToSSTable would write of one ascending run, with the run's first and last key: of every key
  -- the run says what the newest of the files says that has the key, a tombstone included, and it is
  -- no larger than the files together. The files together stay under 32 GiB of entries, and the
  -- lengths of their entries fit their fields.
  pub merge_ss_table-newest :
      (r : FileRun) (rs : List FileRun)
      → AllRuns Fits (map entries (r ∷ rs))
      → total entry_size (map entries (r ∷ rs)) < limit
      → IsMerge format merge_files entry_size (r ∷ rs)
  unfolding ss_table_format merge_files
  merge_ss_table-newest r rs a s =
      let fuel = suc (all_bytes (map content_of (r ∷ rs))) in
      let m =
        merge_runs Fits (map entries (r ∷ rs)) fuel a (omega (arith, all_bytes-one (r ∷ rs))) in
      let (h, o, d) =
        new_merge_iterator-Same next fuel (map new_ss_table_iterator (map content_of (r ∷ rs)))
          (map entries (r ∷ rs)) m.heap m.out (AllYield-files (r ∷ rs) a s) m.opened m.done in
      go h o m.out m refl d
    where
      go :
          (h : List (Source SsTableIterator))
          → new_merge_iterator next (map new_ss_table_iterator (map content_of (r ∷ rs))) ≡ some h
          → (out : List Entry)
          → (m : Merged Fits (suc (all_bytes (map content_of (r ∷ rs)))) (map entries (r ∷ rs)))
          → m.out ≡ out
          → drain (merge_next next) (suc (all_bytes (map content_of (r ∷ rs)))) h ≡ some out
          → IsMerge format merge_files entry_size (r ∷ rs)
      go h o [] m e d =
          absurd (newest-ne-none r rs (sym (m.reads r.0.0) ∙ (unfold assoc in ap (assoc r.0.0) e)))
      go h o (x ∷ es) m e d =
          let (w, l, v) = merge_loop-Wrote _ h x es d in
          record {
            first = x;
            rest = es;
            done =
                ap (merge_ss_table optimal_m optimal_k encode_bloom) (contents-files (r ∷ rs))
                ∙ opened-merge r rs h w o l v.some_entry
                ∙ ap (λ k. some (k, w.max_key, finish optimal_m optimal_k encode_bloom w)) v.least
                ∙ ap (λ k. some (x.0, k, finish optimal_m optimal_k encode_bloom w)) v.greatest
                ∙ ap (λ f. some (x.0, last_key x.0 es, f)) (finish-Wrote x es w v);
            ascending = subst IsAscending e m.ascending;
            fit = subst (All Fits) e m.fit;
            reads = λ j. sym (ap (assoc j) e) ∙ m.reads j;
            no_larger = omega (arith, m.no_larger entry_size, ap (size entry_size) e);
          }

  unfoldable pub ss_table_merger : Merger format
  unfolding ss_table_format
  ss_table_merger = record {
    merge = merge_files;
    entry_size = entry_size;
    limit = limit;
    merge-newest = merge_ss_table-newest;
  }
