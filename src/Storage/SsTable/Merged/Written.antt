-- ===== src/Storage/SsTable/Merged/Written.antt =====
-- The loop of MergeSSTable (storage/zstorage/SSTable.go) writes the file that WriteToSSTable would write of
-- the merged entries.
use mathlib.Core.List.{append_assoc, append-nil}
use ban_db.Prelude.{
  ℕ, zero, suc, ◌+◌, ◌/◌, ◌%◌, ◌==◌, ◌<◌, List, [], ◌∷◌, ◌++◌, length, length-append, false, ◌≡◌,
  refl, sym, ◌∙◌, ap, arith, none, some, if◌then◌else◌,
}
use ban_db.Bytes.Fixed.{put_u32_be}
use ban_db.Storage.Entries.{Entry, last_key}
use ban_db.Storage.Merge.{Source, merge_next, drain}
use ban_db.Storage.Merge.Rounds.{First, over, more, drain-First}
use ban_db.Storage.SsTable.{ss_table_block_size, encode_value, encode_entry, build, set_last_key}
use ban_db.Storage.SsTable.Filter.{keys_of}
use ban_db.Storage.SsTable.Iterator.{SsTableIterator, next}
use ban_db.Storage.SsTable.Merged.{Writing, nothing_written, entry_size, write_merged, merge_loop}

write_all : List Entry → Writing → Writing
write_all [] w = w
write_all (e ∷ es) w = write_all es (write_merged e w)

merge_loop-drain :
    (fuel : ℕ) (h : List (Source SsTableIterator)) (w : Writing) (out : List Entry)
    → drain (merge_next next) fuel h ≡ some out
    → merge_loop fuel h w ≡ some (write_all out w)
unfolding merge_loop drain write_all
merge_loop-drain zero h w out d = cc
merge_loop-drain (suc fuel) h w out d =
    go (merge_loop-drain fuel) (drain-First (merge_next next) fuel h out d)
  where
    go :
        ((g : List (Source SsTableIterator)) (u : Writing) (rest : List Entry)
          → drain (merge_next next) fuel g ≡ some rest
          → merge_loop fuel g u ≡ some (write_all rest u))
        → First (merge_next next) fuel h out
        → merge_loop (suc fuel) h w ≡ some (write_all out w)
    go further (over m e) = rw (merge_loop, m, e)
    go further (more x h₁ rest m r e) = rw (merge_loop, m, e) (further h₁ (write_merged x w) rest r)

pub length-encode_entry : (e : Entry) → length (encode_entry e) ≡ entry_size e
unfolding encode_entry encode_value put_u32_be
length-encode_entry (k, none) = omega (arith, length-append k (put_u32_be 0xFFFFFFFF))
length-encode_entry (k, some v) = omega (arith, length-append k (put_u32_be (length v) ++ v))

record Agrees (es : List Entry) (w w' : Writing) : Type 0 where
  same_build : (w'.buf, w'.block_idx) ≡ build w.count es w.buf w.block_idx
  same_keys : w'.keys ≡ w.keys ++ keys_of es
  counted : w'.count ≡ w.count + length es

write_all-build :
    (es : List Entry) (w : Writing) → w.data_offset ≡ length w.buf → Agrees es w (write_all es w)
unfolding write_all write_merged build
write_all-build [] w h = record {
  same_build = refl;
  same_keys = sym (append-nil w.keys);
  counted = omega arith;
}
write_all-build (e ∷ es) w h =
    let offset : w.data_offset + entry_size e ≡ length (w.buf ++ encode_entry e) =
      omega (arith, length-append w.buf (encode_entry e), length-encode_entry e) in
    let r = write_all-build es (write_merged e w) offset in
    record {
      same_build =
          r.same_build
          ∙ ap
              (λ off. build (w.count + 1) es (w.buf ++ encode_entry e) (
                set_last_key
                  (if w.count % ss_table_block_size == 0
                    then w.block_idx ++ (record { last_key = []; block_offset = off } ∷ [])
                    else w.block_idx)
                  (w.count / ss_table_block_size) e.0))
              h;
      same_keys = r.same_keys ∙ append_assoc w.keys (e.0 ∷ []) (keys_of es);
      counted = omega (arith, r.counted);
    }

-- The least key is set by the first entry only.
min-write_all : (es : List Entry) (w : Writing) → 0 < w.count → (write_all es w).min_key ≡ w.min_key
unfolding write_all write_merged
min-write_all [] w h = refl
min-write_all (e ∷ es) w h =
    let later : (w.count == 0) ≡ false = ground arith in
    min-write_all es (write_merged e w) (omega arith) ∙ rw later

min-first : (e : Entry) (es : List Entry) → (write_all (e ∷ es) nothing_written).min_key ≡ e.0
unfolding write_all write_merged
min-first e es = min-write_all es (write_merged e nothing_written) (omega arith)

max-write_all :
    (e : Entry) (es : List Entry) (w : Writing) → (write_all (e ∷ es) w).max_key ≡ last_key e.0 es
unfolding write_all write_merged last_key
max-write_all e [] w = refl
max-write_all e (x ∷ es) w = max-write_all x es (write_merged e w)

-- What MergeSSTable has written of some entries at the end of its loop: what WriteToSSTable builds of
-- them, with their keys, the first and the last.
pub record Wrote (e : Entry) (es : List Entry) (w : Writing) : Type 0 where
  pub same_build : (w.buf, w.block_idx) ≡ build 0 (e ∷ es) [] []
  pub same_keys : w.keys ≡ keys_of (e ∷ es)
  pub some_entry : (w.count == 0) ≡ false
  pub least : w.min_key ≡ e.0
  pub greatest : w.max_key ≡ last_key e.0 es

write_all-Wrote : (e : Entry) (es : List Entry) → Wrote e es (write_all (e ∷ es) nothing_written)
write_all-Wrote e es =
    let a = write_all-build (e ∷ es) nothing_written refl in
    record {
      same_build = a.same_build;
      same_keys = a.same_keys;
      some_entry = ground (arith, a.counted);
      least = min-first e es;
      greatest = max-write_all e es nothing_written;
    }

pub merge_loop-Wrote :
    (fuel : ℕ) (h : List (Source SsTableIterator)) (e : Entry) (es : List Entry)
    → drain (merge_next next) fuel h ≡ some (e ∷ es)
    → (w : Writing) × (merge_loop fuel h nothing_written ≡ some w) × Wrote e es w
merge_loop-Wrote fuel h e es d = (
  write_all (e ∷ es) nothing_written,
  merge_loop-drain fuel h nothing_written (e ∷ es) d,
  write_all-Wrote e es,
)
