-- ===== src/Storage/MemTable/Compact/Reads.antt =====
-- What CompactSSTable (storage/zstorage/memtable.go) does to what Get finds in the files.
use mathlib.Core.List.{append_assoc}
use mathlib.Core.Path.{subst}
use ban_db.Prelude.{
  ℕ, ◌+◌, ◌≤◌, ◌<◌, ltb, List, [], ◌∷◌, ◌++◌, length, map, Bool, true, false, some, ◌≡◌, refl, sym,
  ◌∙◌, ap, arith,
}
use ban_db.Bytes.{Bytes}
use ban_db.Storage.Entries.{
  or_else, or_else_assoc, or_else-none, FileRun, entries, size, total, newest_of, AllRuns, last_key,
}
use ban_db.Storage.Format.{Format}
use ban_db.Storage.Merger.{Merger}
use ban_db.Storage.MemTable.{Meta, in_file, get_from_sstables}
use ban_db.Storage.MemTable.Valid.{MetaOk, AllMetas}
use ban_db.Storage.MemTable.Reads.{in_file-MetaOk, get_from-append}
use ban_db.Storage.MemTable.Compact.{get_level_files, add_mata, remove_files, compact_level}
use ban_db.Storage.MemTable.Compact.Levels.{
  AtLeast, AllAt, IsLeveled, get_level-append, get_level-other, IsLeveled-snoc, AtLeast-snoc,
  IsPointer, remove_files-level,
}

module _ (fmt : Format) where
  open fmt use {File, Fits, write}

  -- The runs that the files were written from.
  abbrev pub runs_of : (ms : List (Meta File)) → AllMetas fmt ms → List FileRun
  runs_of [] ok = []
  runs_of (m ∷ ms) ok = (ok.0.first, ok.0.rest) ∷ runs_of ms ok.1

  pub get_from-runs :
      (ms : List (Meta File)) (ok : AllMetas fmt ms) (key : Bytes)
      → get_from_sstables fmt ms key ≡ newest_of (map entries (runs_of ms ok)) key
  unfolding get_from_sstables newest_of
  get_from-runs [] ok key = refl
  get_from-runs (m ∷ ms) ok key = rw (get_from-runs ms ok.1 key, in_file-MetaOk fmt key m ok.0)

  pub get_from-both :
      (xs ys : List (Meta File)) (key : Bytes)
      → get_from_sstables fmt (xs ++ ys) key
        ≡ or_else (get_from_sstables fmt ys key) (get_from_sstables fmt xs key)
  unfolding get_from_sstables
  get_from-both [] ys key = sym (or_else-none (get_from_sstables fmt ys key))
  get_from-both (x ∷ xs) ys key =
      rw (get_from-both xs ys key) (or_else_assoc (get_from_sstables fmt ys key) _ _)

  pub AllMetas-split :
      (xs ys : List (Meta File)) → AllMetas fmt (xs ++ ys) → AllMetas fmt xs × AllMetas fmt ys
  AllMetas-split [] ys a = (tt, a)
  AllMetas-split (x ∷ xs) ys a = let (b, c) = AllMetas-split xs ys a.1 in ((a.0, b), c)

  pub AllMetas-join :
      (xs ys : List (Meta File)) → AllMetas fmt xs → AllMetas fmt ys → AllMetas fmt (xs ++ ys)
  AllMetas-join [] ys a b = b
  AllMetas-join (x ∷ xs) ys a b = (a.0, AllMetas-join xs ys a.1 b)

  files-written :
      (ms : List (Meta File)) (ok : AllMetas fmt ms)
      → map (λ m. m.file) ms ≡ map (λ r. write (entries r)) (runs_of ms ok)
  files-written [] ok = refl
  files-written (m ∷ ms) ok = rw (ok.0.content, files-written ms ok.1)

  AllRuns-runs_of :
      (ms : List (Meta File)) (ok : AllMetas fmt ms) → AllRuns Fits (map entries (runs_of ms ok))
  AllRuns-runs_of [] ok = tt
  AllRuns-runs_of (m ∷ ms) ok = (ok.0.ascending, ok.0.fit, AllRuns-runs_of ms ok.1)

  module _ (mg : Merger fmt) (same_meta : Meta File → Meta File → Bool) (p : IsPointer same_meta)
      (max_size : ℕ) where
    unfoldable pub stored : (ms : List (Meta File)) → AllMetas fmt ms → ℕ
    stored ms ok = total mg.entry_size (map entries (runs_of ms ok))

    stored-split :
        (xs ys : List (Meta File)) (ok : AllMetas fmt (xs ++ ys))
        → stored (xs ++ ys) ok
          ≡ stored xs (AllMetas-split xs ys ok).0 + stored ys (AllMetas-split xs ys ok).1
    unfolding stored AllMetas-split
    stored-split [] ys ok = omega arith
    stored-split (x ∷ xs) ys ok = omega (arith, stored-split xs ys ok.1)

    stored-join :
        (xs ys : List (Meta File)) (a : AllMetas fmt xs) (b : AllMetas fmt ys)
        → stored (xs ++ ys) (AllMetas-join xs ys a b) ≡ stored xs a + stored ys b
    unfolding stored AllMetas-join
    stored-join [] ys a b = omega arith
    stored-join (x ∷ xs) ys a b = omega (arith, stored-join xs ys a.1 b)

    round_merges :
        (l : ℕ) (ms files : List (Meta File)) (least greatest : Bytes) (x : File)
        → get_level_files ms l ≡ files
        → ltb (length files) max_size ≡ false
        → mg.merge (map (λ m. m.file) files) ≡ some (least, greatest, x)
        → compact_level same_meta mg.merge max_size l ms
          ≡ remove_files same_meta
              (ms ++ (record { level = l + 1; min_key = least; max_key = greatest; file = x } ∷ []))
              files
    unfolding compact_level add_mata
    round_merges l ms files least greatest x e enough m = rw (compact_level, e, enough, m, e)

    pub round_rests :
        (l : ℕ) (ms : List (Meta File))
        → ltb (length (get_level_files ms l)) max_size ≡ true
        → compact_level same_meta mg.merge max_size l ms ≡ ms
    unfolding compact_level
    round_rests l ms few = rw few

    -- The file that the files of a level are merged into.
    record MergedInto (l : ℕ) (older files : List (Meta File)) (ok : AllMetas fmt files)
        : Type 0 where
      meta : Meta File
      done : compact_level same_meta mg.merge max_size l (older ++ files) ≡ older ++ (meta ∷ [])
      meta_ok : MetaOk fmt meta
      next_level : meta.level ≡ l + 1
      reads : (key : Bytes) → in_file fmt key meta ≡ get_from_sstables fmt files key
      no_larger : size mg.entry_size (meta_ok.first ∷ meta_ok.rest) ≤ stored files ok

    merged_level :
        (l : ℕ) (older : List (Meta File)) (f : Meta File) (fs : List (Meta File))
        (ok : AllMetas fmt (f ∷ fs))
        → AtLeast (l + 1) older
        → AllAt l (f ∷ fs)
        → ltb (length (f ∷ fs)) max_size ≡ false
        → stored (f ∷ fs) ok < mg.limit
        → MergedInto l older (f ∷ fs) ok
    unfolding compact_level add_mata stored
    merged_level l older f fs ok a b enough small =
        let r =
          mg.merge-newest (ok.0.first, ok.0.rest) (runs_of fs ok.1) (AllRuns-runs_of (f ∷ fs) ok)
            small in
        let m : Meta File = record {
          level = l + 1;
          min_key = r.first.0;
          max_key = last_key r.first.0 r.rest;
          file = write (r.first ∷ r.rest);
        } in
        let m_ok : MetaOk fmt m = record {
          first = r.first;
          rest = r.rest;
          fit = r.fit;
          ascending = r.ascending;
          least = refl;
          greatest = refl;
          content = refl;
        } in
        record {
          meta = m;
          done =
              round_merges l (older ++ (f ∷ fs)) (f ∷ fs) r.first.0 (last_key r.first.0 r.rest)
                (write (r.first ∷ r.rest)) (get_level-append l older (f ∷ fs) a b) enough
                (ap mg.merge (files-written (f ∷ fs) ok) ∙ r.done)
              ∙ ap (λ ms. remove_files same_meta ms (f ∷ fs)) (append_assoc older (f ∷ fs) (m ∷ []))
              ∙ remove_files-level same_meta p l older (f ∷ fs) (m ∷ []) a b;
          meta_ok = m_ok;
          next_level = refl;
          reads = λ key.
              in_file-MetaOk fmt key m m_ok ∙ r.reads key ∙ sym (get_from-runs (f ∷ fs) ok key);
          no_larger = r.no_larger;
        }

    -- The files `ms'` say of every key what `ms` say, and take no more room.
    pub record Kept (ms ms' : List (Meta File)) (ok : AllMetas fmt ms) : Type 0 where
      pub metas_ok : AllMetas fmt ms'
      pub leveled : IsLeveled ms'
      pub reads : (key : Bytes) → get_from_sstables fmt ms' key ≡ get_from_sstables fmt ms key
      pub no_larger : stored ms' metas_ok ≤ stored ms ok

    -- One round of the loop that merges: the older files and the merged one.
    pub record Round (l : ℕ) (ms : List (Meta File)) (ok : AllMetas fmt ms) : Type 0 where
      pub after : List (Meta File)
      pub done : compact_level same_meta mg.merge max_size l ms ≡ after
      pub kept : Kept ms after ok
      pub higher : AtLeast (l + 1) after
      pub count : (k : ℕ) → l + 2 ≤ k → get_level_files after k ≡ get_level_files ms k

    pub round_lem :
        (l : ℕ) (older : List (Meta File)) (f : Meta File) (fs : List (Meta File))
        (ok : AllMetas fmt (older ++ (f ∷ fs)))
        → AtLeast (l + 1) older
        → AllAt l (f ∷ fs)
        → IsLeveled older
        → ltb (length (f ∷ fs)) max_size ≡ false
        → stored (older ++ (f ∷ fs)) ok < mg.limit
        → Round l (older ++ (f ∷ fs)) ok
    unfolding stored
    round_lem l older f fs ok a b v enough small =
        let (ok_older, ok_files) = AllMetas-split older (f ∷ fs) ok in
        let parts = stored-split older (f ∷ fs) ok in
        let g = merged_level l older f fs ok_files a b enough (omega (arith, parts, small)) in
        let last_ok : AllMetas fmt (g.meta ∷ []) = (g.meta_ok, tt) in
        record {
          after = older ++ (g.meta ∷ []);
          done = g.done;
          kept = record {
            metas_ok = AllMetas-join older (g.meta ∷ []) ok_older last_ok;
            leveled =
                IsLeveled-snoc older g.meta v (subst (λ k. AtLeast k older) (sym g.next_level) a);
            reads = λ key.
                get_from-append fmt older g.meta key
                ∙ ap (λ o. or_else o (get_from_sstables fmt older key)) (g.reads key)
                ∙ sym (get_from-both older (f ∷ fs) key);
            no_larger =
                omega (arith, parts, stored-join older (g.meta ∷ []) ok_older last_ok, g.no_larger);
          };
          higher = AtLeast-snoc (l + 1) older g.meta a (omega (arith, g.next_level));
          count = λ k h.
              get_level-other (l + 1) k older (g.meta ∷ []) (g.next_level, tt) (omega arith)
              ∙ sym (get_level-other l k older (f ∷ fs) b (omega arith));
        }
