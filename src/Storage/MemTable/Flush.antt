-- ===== src/Storage/MemTable/Flush.antt =====
-- The two halves of Flush (storage/zstorage/memtable.go), branch by branch, and the invariant.
use mathlib.Core.Path.{subst}
use ban_db.Prelude.{
  ◌≡◌, refl, ap, ◌∙◌, List, [], ◌∷◌, ◌++◌, Bool, true, false, none, some, arith, Bool-cases,
  Option-cases, inl, inr, ◌==◌,
}
use ban_db.Prelude.Int.{◌+ℤ◌, int_laws}
use ban_db.Credit.{release}
use ban_db.Storage.SkipList.{SkipList, new_skip_list, entries_of, collect_all_entry}
use ban_db.Storage.SkipList.Refine
use ban_db.Storage.Entries.{Entry, IsAscending, All, IsAscending-entries_of, All-entries_of}
use ban_db.Storage.Format.{Format}
use ban_db.Storage.MemTable.{Meta, MemTable, write_to_sstable, flush_begin, flush_end}
use ban_db.Storage.MemTable.Valid.{
  TableOk, DirtyOk, MetaOk, AllMetas, dirty_bytes, IsValid, release-used,
}

module _ (fmt : Format) where
  open fmt use {File, Fits}

  pub written-MetaOk :
      (io : Bool) (es : List Entry) (meta : Meta File)
      → write_to_sstable fmt io es ≡ some meta
      → All Fits es
      → IsAscending es
      → MetaOk fmt meta
  unfolding write_to_sstable
  written-MetaOk io [] meta w fit asc = cc
  written-MetaOk io (e ∷ es) meta w fit asc = record {
    first = e;
    rest = es;
    fit = fit;
    ascending = asc;
    least = ground arith;
    greatest = ground arith;
    content = ground arith;
  }

  pub written-entries :
      (io : Bool) (es : List Entry) (meta : Meta File) (w : write_to_sstable fmt io es ≡ some meta)
      (fit : All Fits es) (asc : IsAscending es)
      → (written-MetaOk io es meta w fit asc).first ∷ (written-MetaOk io es meta w fit asc).rest
        ≡ es
  unfolding written-MetaOk
  written-entries io [] meta w fit asc = unfold write_to_sstable in cc
  written-entries io (e ∷ es) meta w fit asc = refl

  pub AllMetas-append :
      (ms : List (Meta File)) (meta : Meta File)
      → AllMetas fmt ms
      → MetaOk fmt meta
      → AllMetas fmt (ms ++ (meta ∷ []))
  AllMetas-append [] meta a ok = (ok, tt)
  AllMetas-append (x ∷ ms) meta a ok = (a.0, AllMetas-append ms meta a.1 ok)

  pub collected-MetaOk :
      (io : Bool) (d : SkipList) (meta : Meta File)
      → TableOk fmt d
      → write_to_sstable fmt io (collect_all_entry d) ≡ some meta
      → MetaOk fmt meta
  unfolding collect_all_entry
  collected-MetaOk io d meta ok w =
      written-MetaOk io (entries_of d.nodes) meta w (All-entries_of Fits d.nodes ok.fit)
        (IsAscending-entries_of d.nodes ok.valid.ascending)

module _ (fmt : Format) (m : MemTable fmt.File) where
  open fmt use {File, Fits}

  pub begin_idle : m.dirty ≡ none → (m.active.size == 0) ≡ true → flush_begin fmt m ≡ m
  unfolding flush_begin
  begin_idle e z = ground arith

  pub begin_swap :
      m.dirty ≡ none
      → (m.active.size == 0) ≡ false
      → flush_begin fmt m ≡ record m { dirty = some m.active; active = new_skip_list }
  unfolding flush_begin
  begin_swap e z = ground arith

  pub begin_retry : (d : SkipList) → m.dirty ≡ some d → flush_begin fmt m ≡ m
  unfolding flush_begin
  begin_retry d e = ground arith

  pub end_idle : (io : Bool) → m.dirty ≡ none → flush_end fmt io m ≡ m
  unfolding flush_end
  end_idle io e = ground arith

  pub end_failed :
      (io : Bool) (d : SkipList)
      → m.dirty ≡ some d
      → write_to_sstable fmt io (collect_all_entry d) ≡ none
      → flush_end fmt io m ≡ record m { flush_signal = true }
  unfolding flush_end
  end_failed io d e w = ground arith

  pub end_written :
      (io : Bool) (d : SkipList) (meta : Meta File)
      → m.dirty ≡ some d
      → write_to_sstable fmt io (collect_all_entry d) ≡ some meta
      → flush_end fmt io m ≡ record m {
        metas = m.metas ++ (meta ∷ []);
        dirty = none;
        pool = release m.pool d.byte_size;
      }
  unfolding flush_end
  end_written io d meta e w = ground arith

  begin-IsValid : IsValid fmt m → IsValid fmt (flush_begin fmt m)
  begin-IsValid v = elim (Option-cases m.dirty) [
    | inr (d, e) ↦ rw (begin_retry d e) v
    | inl e ↦ elim (Bool-cases (m.active.size == 0)) [
      | inl z ↦ rw (begin_idle e z) v
      | inr z ↦
          let debt = v.credited ∙ ap (λ o. m.active.byte_size +ℤ dirty_bytes fmt o) e in
          rw (begin_swap e z) (record {
            active_ok = record { valid = Refine.IsValid-new; fit = tt };
            dirty_ok = v.active_ok;
            metas_ok = v.metas_ok;
            credited = debt ∙ omega int_laws;
          })
    ]
  ]

  end-IsValid : (io : Bool) → IsValid fmt m → IsValid fmt (flush_end fmt io m)
  end-IsValid io v = elim (Option-cases m.dirty) [
    | inl e ↦ rw (end_idle io e) v
    | inr (d, e) ↦
        let ok : TableOk fmt d = subst (DirtyOk fmt) e v.dirty_ok in
        let debt : m.pool.used ≡ m.active.byte_size +ℤ d.byte_size =
          v.credited ∙ ap (λ o. m.active.byte_size +ℤ dirty_bytes fmt o) e in
        elim (Option-cases (write_to_sstable fmt io (collect_all_entry d))) [
          | inl w ↦ rw (end_failed io d e w) (record {
            active_ok = v.active_ok;
            dirty_ok = v.dirty_ok;
            metas_ok = v.metas_ok;
            credited = v.credited;
          })
          | inr (meta, w) ↦ rw (end_written io d meta e w) (record {
            active_ok = v.active_ok;
            dirty_ok = tt;
            metas_ok =
                AllMetas-append fmt m.metas meta v.metas_ok (collected-MetaOk fmt io d meta ok w);
            credited =
                release-used m.pool m.active.byte_size d.byte_size _ debt v.active_ok.valid.weighed;
          })
        ]
  ]

  -- Both halves of Flush keep the invariant, whether the file is written or not: a failed write keeps
  -- the list and its credit, a written file releases exactly the bytes that it holds.
  pub flush-IsValid :
      (io : Bool)
      → IsValid fmt m
      → IsValid fmt (flush_begin fmt m) × IsValid fmt (flush_end fmt io m)
  flush-IsValid io v = (begin-IsValid v, end-IsValid io v)
