-- ===== src/Storage/MemTable/Reads.antt =====
-- What Get sees of MemTable (storage/zstorage/memtable.go): writes, deletes and flushes.
use mathlib.Core.Path.{subst}
use ban_db.Prelude.{
  ℕ, ◌<◌, ◌≡◌, refl, sym, ap, ◌∙◌, List, [], ◌∷◌, ◌++◌, Bool, Option, none, some, Bool-cases,
  Option-cases, inl, inr, ◌==◌, if◌then◌else◌, ◌&&◌,
}
use ban_db.Prelude.Int.{ℤ}
use ban_db.Bytes.{Bytes}
use ban_db.Bytes.Order.{less, same}
use ban_db.Credit.{release}
use ban_db.Storage.SkipList.{SkipList, new_skip_list, search, entries_of, collect_all_entry}
use ban_db.Storage.SkipList.Refine
use ban_db.Storage.Entries.{
  or_else_assoc, or_else-none, Entry, IsAscending, All, assoc, last_key, assoc-below, assoc-past,
  assoc-entries_of, All-entries_of, IsAscending-entries_of,
}
use ban_db.Storage.Format.{Format}
use ban_db.Storage.MemTable.{
  Meta, MemTable, dirty_search, or_else, in_file, get_from_sstables, find, acquire_credit,
  write_entry, write_to_sstable, flush_begin, flush_end,
}
use ban_db.Storage.MemTable.Valid.{
  TableOk, DirtyOk, MetaOk, IsValid, kept-acquire_credit, kept-write_entry,
}
use ban_db.Storage.MemTable.Flush.{
  begin_idle, begin_swap, begin_retry, end_idle, end_failed, end_written, written-MetaOk,
  written-entries,
}

search-new : (key : Bytes) → search new_skip_list key ≡ none
unfolding search
search-new key = refl

module _ (fmt : Format) where
  open fmt use {File, Fits, read}

  -- A file gives what was written to it, the range test included.
  pub in_file-MetaOk :
      (key : Bytes) (meta : Meta File) (ok : MetaOk fmt meta)
      → in_file fmt key meta ≡ assoc key (ok.first ∷ ok.rest)
  unfolding in_file
  in_file-MetaOk key meta ok =
      rw (ok.least, ok.greatest)
        (elim (Bool-cases (less key ok.first.0)) [
          | inl below ↦ rw below (sym (assoc-below key ok.first ok.rest ok.ascending below))
          | inr least ↦ elim (Bool-cases (less (last_key ok.first.0 ok.rest) key)) [
            | inl past ↦ rw (least, past) (sym (assoc-past key ok.first ok.rest ok.ascending past))
            | inr within ↦
                rw (least, within)
                  (ap (λ f. read f key) ok.content
                    ∙ fmt.read-write ok.first ok.rest key ok.fit ok.ascending within)
          ]
        ])

  pub get_from-append :
      (ms : List (Meta File)) (meta : Meta File) (key : Bytes)
      → get_from_sstables fmt (ms ++ (meta ∷ [])) key
        ≡ or_else (in_file fmt key meta) (get_from_sstables fmt ms key)
  unfolding get_from_sstables
  get_from-append [] meta key = sym (or_else-none (in_file fmt key meta))
  get_from-append (x ∷ ms) meta key =
      rw (get_from-append ms meta key) (or_else_assoc (in_file fmt key meta) _ _)

  find-acquire :
      (m : MemTable File) (n : ℤ) (j : Bytes) → find fmt (acquire_credit fmt m n).0 j ≡ find fmt m j
  unfolding find
  find-acquire m n j = let (a, d, ms) = kept-acquire_credit fmt m n in rw (a, d, ms)

  find-write :
      (max : ℕ) (m : MemTable File) (full : ℤ) (height : ℕ) (key : Bytes) (value : Option Bytes)
      (j : Bytes)
      → 0 < height
      → Refine.IsValid m.active
      → find fmt (write_entry fmt max m full height key value) j
        ≡ (if same key j then some value else find fmt m j)
  unfolding find
  find-write max m full height key value j h v =
      let (a, d, ms) = kept-write_entry fmt max m full height key value in
      rw (a, d, ms, Refine.search-insert m.active height key value v h j)
        (elim (Bool-cases (same key j)) [ inl e ↦ rw e | inr e ↦ rw e ])

  pub find-granted :
      (max : ℕ) (m : MemTable File) (full : ℤ) (height : ℕ) (key : Bytes) (value : Option Bytes)
      (j : Bytes)
      → 0 < height
      → IsValid fmt m
      → find fmt
          (if (acquire_credit fmt m full).1
            then write_entry fmt max (acquire_credit fmt m full).0 full height key value
            else (acquire_credit fmt m full).0)
          j
        ≡ (if (acquire_credit fmt m full).1 && same key j then some value else find fmt m j)
  find-granted max m full height key value j h v =
      let (a, d, ms) = kept-acquire_credit fmt m full in
      let valid : Refine.IsValid (acquire_credit fmt m full).0.active = rw a v.active_ok.valid in
      elim (Bool-cases (acquire_credit fmt m full).1) [
        | inl e ↦ rw e (
            find-write max (acquire_credit fmt m full).0 full height key value j h valid
            ∙ rw (find-acquire m full j))
        | inr e ↦ rw e (find-acquire m full j)
      ]

  in_file-written :
      (io : Bool) (es : List Entry) (meta : Meta File) (j : Bytes)
      → write_to_sstable fmt io es ≡ some meta
      → All Fits es
      → IsAscending es
      → in_file fmt j meta ≡ assoc j es
  in_file-written io es meta j w fit asc =
      in_file-MetaOk j meta (written-MetaOk fmt io es meta w fit asc)
      ∙ ap (assoc j) (written-entries fmt io es meta w fit asc)

  -- The file that a list was flushed to answers as the list did.
  pub file_is :
      (io : Bool) (d : SkipList) (meta : Meta File) (j : Bytes)
      → TableOk fmt d
      → write_to_sstable fmt io (collect_all_entry d) ≡ some meta
      → in_file fmt j meta ≡ search d j
  unfolding collect_all_entry
  file_is io d meta j ok w =
      in_file-written io (entries_of d.nodes) meta j w (All-entries_of Fits d.nodes ok.fit)
        (IsAscending-entries_of d.nodes ok.valid.ascending)
      ∙ assoc-entries_of j d.nodes
      ∙ sym (Refine.search-lookup d j ok.valid).0

  pub dirty-search :
      (m : MemTable File) (o : Option SkipList) (j : Bytes)
      → m.dirty ≡ o
      → find fmt m j
        ≡ or_else (search m.active j) (or_else (dirty_search o j) (get_from_sstables fmt m.metas j))
  unfolding find
  dirty-search m o j e = rw e

  pub find-flush_begin :
      (m : MemTable File) (j : Bytes) → find fmt (flush_begin fmt m) j ≡ find fmt m j
  find-flush_begin m j = elim (Option-cases m.dirty) [
    | inr (d, e) ↦ ap (λ t. find fmt t j) (begin_retry fmt m d e)
    | inl e ↦ elim (Bool-cases (m.active.size == 0)) [
      | inl z ↦ ap (λ t. find fmt t j) (begin_idle fmt m e z)
      | inr z ↦
          ap (λ t. find fmt t j) (begin_swap fmt m e z) ∙ swapped ∙ sym (dirty-search m none j e)
    ]
  ]
    where
      swapped :
          find fmt (record m { dirty = some m.active; active = new_skip_list }) j
          ≡ or_else
              (search m.active j)
              (or_else (dirty_search none j) (get_from_sstables fmt m.metas j))
      swapped = unfold find in rw (search-new j)

  pub find-flush_end :
      (io : Bool) (m : MemTable File) (j : Bytes)
      → IsValid fmt m
      → find fmt (flush_end fmt io m) j ≡ find fmt m j
  find-flush_end io m j v = elim (Option-cases m.dirty) [
    | inl e ↦ ap (λ t. find fmt t j) (end_idle fmt m io e)
    | inr (d, e) ↦ elim (Option-cases (write_to_sstable fmt io (collect_all_entry d))) [
      | inl w ↦ ap (λ t. find fmt t j) (end_failed fmt m io d e w) ∙ unfold find in refl
      | inr (meta, w) ↦
          ap (λ t. find fmt t j) (end_written fmt m io d meta e w)
          ∙ moved d meta (subst (DirtyOk fmt) e v.dirty_ok) w
          ∙ sym (dirty-search m (some d) j e)
    ]
  ]
    where
      moved :
          (d : SkipList) (meta : Meta File) (ok : TableOk fmt d)
          → write_to_sstable fmt io (collect_all_entry d) ≡ some meta
          → find fmt
              (record m {
                metas = m.metas ++ (meta ∷ []);
                dirty = none;
                pool = release m.pool d.byte_size;
              })
              j
            ≡ or_else
                (search m.active j)
                (or_else (dirty_search (some d) j) (get_from_sstables fmt m.metas j))
      moved d meta ok w =
          unfold find in rw (get_from-append m.metas meta j, file_is io d meta j ok w)
