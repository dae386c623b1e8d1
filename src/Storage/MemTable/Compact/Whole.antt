-- ===== src/Storage/MemTable/Compact/Whole.antt =====
-- The whole loop of CompactSSTable (storage/zstorage/memtable.go).
use mathlib.Core.Path.{subst}
use ban_db.Prelude.{
  ℕ, zero, suc, ◌+◌, ◌≤◌, ◌<◌, ◌==◌, ltb, List, [], ◌∷◌, ◌++◌, length, Bool, true, false, ◌≡◌, refl,
  sym, ◌∙◌, ap, arith, Bool-cases, inl, inr,
}
use ban_db.Bytes.{Bytes}
use ban_db.Storage.Format.{Format}
use ban_db.Storage.Merger.{Merger}
use ban_db.Storage.MemTable.{Meta, get_from_sstables}
use ban_db.Storage.MemTable.Valid.{AllMetas}
use ban_db.Storage.MemTable.Compact.{get_level_files, compact_from, compact_ss_table, max_level}
use ban_db.Storage.MemTable.Compact.Levels.{
  AtLeast, AllAt, IsLeveled, Split-level, get_level-append, IsPointer,
}
use ban_db.Storage.MemTable.Compact.Reads.{stored, Kept, Round, round_lem, round_rests}

module _ (fmt : Format) (mg : Merger fmt) (same_meta : Meta fmt.File → Meta fmt.File → Bool)
    (p : IsPointer same_meta) (max_size : ℕ) (some_size : 0 < max_size) where
  open fmt use {File}

  -- The level has too few files to be merged.
  abbrev pub Few : ℕ → List (Meta File) → Type 0
  Few k ms = ltb (length (get_level_files ms k)) max_size ≡ true

  below_all : (l k : ℕ) (ms : List (Meta File)) → AtLeast l ms → k < l → get_level_files ms k ≡ []
  unfolding get_level_files
  below_all l k [] a h = refl
  below_all l k (m ∷ ms) a h =
      let other : (m.level == k) ≡ false = ground (arith, a.0) in rw other (below_all l k ms a.1 h)

  Few-below : (l k : ℕ) (ms : List (Meta File)) → AtLeast l ms → k < l → Few k ms
  Few-below l k ms a h =
      ap (λ (r : List (Meta File)). ltb (length r) max_size) (below_all l k ms a h)
      ∙ ground (arith, some_size)

  idle :
      (rounds l : ℕ) (ms : List (Meta File))
      → ((k : ℕ) → l ≤ k → k < l + rounds → Few k ms)
      → compact_from same_meta mg.merge max_size rounds l ms ≡ ms
  unfolding compact_from
  idle zero l ms few = refl
  idle (suc rounds) l ms few =
      rw (round_rests fmt mg same_meta p max_size l ms (few l (omega arith) (omega arith)))
        (idle rounds (l + 1) ms (λ k a b. few k (omega arith) (omega arith)))

  Kept-self :
      (ms : List (Meta File)) (ok : AllMetas fmt ms)
      → IsLeveled ms
      → Kept fmt mg same_meta p max_size ms ms ok
  Kept-self ms ok v = record {
    metas_ok = ok;
    leveled = v;
    reads = λ key. refl;
    no_larger = omega arith;
  }

  Kept-then :
      (ms after last : List (Meta File)) (ok : AllMetas fmt ms)
      (a : Kept fmt mg same_meta p max_size ms after ok)
      → Kept fmt mg same_meta p max_size after last a.metas_ok
      → Kept fmt mg same_meta p max_size ms last ok
  Kept-then ms after last ok a b = record {
    metas_ok = b.metas_ok;
    leveled = b.leveled;
    reads = λ key. b.reads key ∙ a.reads key;
    no_larger = omega (arith, a.no_larger, b.no_larger);
  }

  abbrev Rounds : ℕ → List (Meta File) → Type 0
  Rounds l ms =
      (ok : AllMetas fmt ms)
      → ltb (length (get_level_files ms l)) max_size ≡ false
      → stored fmt mg same_meta p max_size ms ok < mg.limit
      → Round fmt mg same_meta p max_size l ms ok

  round_parts :
      (l : ℕ) (older files : List (Meta File))
      → AtLeast (l + 1) older
      → AllAt l files
      → IsLeveled older
      → Rounds l (older ++ files)
  round_parts l older [] a b v ok enough small =
      let here = get_level-append l older [] a b in
      absurd (ground (arith, ap (λ (r : List (Meta File)). length r) here, some_size))
  round_parts l older (f ∷ fs) a b v ok enough small =
      let here = get_level-append l older (f ∷ fs) a b in
      round_lem fmt mg same_meta p max_size l older f fs ok a b v
        (ap (λ (r : List (Meta File)). ltb (length r) max_size) (sym here) ∙ enough) small

  round_of : (l : ℕ) (ms : List (Meta File)) → IsLeveled ms → AtLeast l ms → Rounds l ms
  round_of l ms v b =
      let s = Split-level l ms v b in
      subst (Rounds l) (sym s.parts) (round_parts l s.older s.files s.above s.at_level s.leveled)

  -- What the loop leaves: the same answers, and few files on each of its levels.
  record Settled (bound : ℕ) (ms ms' : List (Meta File)) (ok : AllMetas fmt ms) : Type 0 where
    kept : Kept fmt mg same_meta p max_size ms ms' ok
    few : (k : ℕ) → k < bound → Few k ms'

  Few-everywhere :
      (l bound : ℕ) (ms : List (Meta File))
      → AtLeast l ms
      → Few l ms
      → ((k : ℕ) → l < k → k < bound → Few k ms)
      → (k : ℕ) → k < bound
      → Few k ms
  Few-everywhere l bound ms b f few k h = elim (Bool-cases (ltb k l)) [
    | inl z ↦ Few-below l k ms b (ground arith)
    | inr z ↦ elim (Bool-cases (k == l)) [
      | inl w ↦ let e : l ≡ k = ground arith in subst (λ n. Few n ms) e f
      | inr w ↦ few k (ground arith) h
    ]
  ]

  compact_from_lem :
      (rounds l bound : ℕ) (ms : List (Meta File)) (ok : AllMetas fmt ms)
      → l + rounds ≡ bound
      → IsLeveled ms
      → AtLeast l ms
      → stored fmt mg same_meta p max_size ms ok < mg.limit
      → ((k : ℕ) → l < k → k < bound → Few k ms)
      → Settled bound ms (compact_from same_meta mg.merge max_size rounds l ms) ok
  unfolding compact_from
  compact_from_lem zero l bound ms ok e v b small few = record {
    kept = Kept-self ms ok v;
    few = λ k h. Few-below l k ms b (omega arith);
  }
  compact_from_lem (suc rounds) l bound ms ok e v b small few =
      elim (Bool-cases (ltb (length (get_level_files ms l)) max_size)) [
        | inl f ↦
            let all = Few-everywhere l bound ms b f few in
            let same_end =
              ap (compact_from same_meta mg.merge max_size rounds (l + 1))
                (round_rests fmt mg same_meta p max_size l ms f)
              ∙ idle rounds (l + 1) ms (λ k g h. all k (omega arith)) in
            subst (λ q. Settled bound ms q ok) (sym same_end)
              (record { kept = Kept-self ms ok v; few = all })
        | inr f ↦
            let r = round_of l ms v b ok f small in
            let s =
              compact_from_lem rounds (l + 1) bound r.after r.kept.metas_ok (omega arith)
                r.kept.leveled r.higher (omega (arith, r.kept.no_larger, small))
                (λ k h i.
                  ap (λ (q : List (Meta File)). ltb (length q) max_size) (r.count k (omega arith))
                  ∙ few k (omega arith) i) in
            let same_end = ap (compact_from same_meta mg.merge max_size rounds (l + 1)) r.done in
            subst (λ q. Settled bound ms q ok) (sym same_end)
              (record { kept = Kept-then ms r.after _ ok r.kept s.kept; few = s.few })
      ]

  -- What compaction needs of the files, and a flush keeps: older files have the higher levels, and no
  -- level but the lowest has enough files to be merged.
  pub record IsCompact (ms : List (Meta File)) : Type 0 where
    pub metas_ok : AllMetas fmt ms
    pub leveled : IsLeveled ms
    pub few : (k : ℕ) → 0 < k → k < max_level → Few k ms
    pub small : stored fmt mg same_meta p max_size ms metas_ok < mg.limit

  AtLeast-zero : (ms : List (Meta File)) → AtLeast 0 ms
  AtLeast-zero [] = tt
  AtLeast-zero (m ∷ ms) = (omega arith, AtLeast-zero ms)

  -- CompactSSTable leaves every key what Get finds for it in the files, keeps the invariant of the files
  -- and their order by age, and the entries take no more room than before; afterwards no level below the
  -- highest has enough files to be merged. Before it the files are valid and ordered by age, together
  -- under the limit of a merge, and of the levels below the highest only level 0 may have enough files
  -- to be merged. No write is flushed while it runs.
  pub compact_ss_table-get :
      (ms : List (Meta File)) (c : IsCompact ms)
      → (after : List (Meta File)) → compact_ss_table same_meta mg.merge max_size 0 ms ≡ after
      → (c' : IsCompact after) × (stored fmt mg same_meta p max_size after c'.metas_ok
          ≤ stored fmt mg same_meta p max_size ms c.metas_ok)
        × Few 0 after
        × ((key : Bytes) → get_from_sstables fmt after key ≡ get_from_sstables fmt ms key)
  unfolding compact_ss_table
  compact_ss_table-get ms c after e =
      let s =
        compact_from_lem 10 0 10 ms c.metas_ok (omega arith) c.leveled (AtLeast-zero ms) c.small
          c.few in
      let s' = subst (λ q. Settled 10 ms q c.metas_ok) e s in
      (
        record {
          metas_ok = s'.kept.metas_ok;
          leveled = s'.kept.leveled;
          few = λ k a b. s'.few k b;
          small = omega (arith, s'.kept.no_larger, c.small);
        },
        s'.kept.no_larger,
        s'.few 0 (omega arith),
        s'.kept.reads,
      )
