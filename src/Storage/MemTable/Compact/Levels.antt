-- ===== src/Storage/MemTable/Compact/Levels.antt =====
-- The levels of the files that CompactSSTable (storage/zstorage/memtable.go) works on: older files have
-- higher levels, so the files of the lowest level are the newest.
use mathlib.Core.Path.{subst}
use ban_db.Prelude.{
  ℕ, ◌+◌, ◌≤◌, ◌<◌, ◌==◌, List, [], ◌∷◌, ◌++◌, Bool, true, false, if◌then◌else◌, ◌≡◌, refl, ◌∙◌, ap,
  arith, Bool-cases, inl, inr,
}
use ban_db.Storage.MemTable.{Meta}
use ban_db.Storage.MemTable.Compact.{get_level_files, remove_mata, remove_files}

module _ {File : Type 0} where
  abbrev pub AtMost : ℕ → List (Meta File) → Type 0
  AtMost l [] = Unit
  AtMost l (m ∷ ms) = (m.level ≤ l) × AtMost l ms

  abbrev pub AtLeast : ℕ → List (Meta File) → Type 0
  AtLeast l [] = Unit
  AtLeast l (m ∷ ms) = (l ≤ m.level) × AtLeast l ms

  abbrev pub AllAt : ℕ → List (Meta File) → Type 0
  AllAt l [] = Unit
  AllAt l (m ∷ ms) = (m.level ≡ l) × AllAt l ms

  -- No file is older than one of a higher level.
  abbrev pub IsLeveled : List (Meta File) → Type 0
  IsLeveled [] = Unit
  IsLeveled (m ∷ ms) = AtMost m.level ms × IsLeveled ms

  -- The files of the level `l`, which is the lowest there is, and the others, which are older.
  pub record Split (l : ℕ) (ms : List (Meta File)) : Type 0 where
    pub older : List (Meta File)
    pub files : List (Meta File)
    pub parts : ms ≡ older ++ files
    pub above : AtLeast (l + 1) older
    pub at_level : AllAt l files
    pub leveled : IsLeveled older

  AllAt-squeeze :
      (l k : ℕ) (ms : List (Meta File)) → k ≤ l → AtMost k ms → AtLeast l ms → AllAt l ms
  AllAt-squeeze l k [] h a b = tt
  AllAt-squeeze l k (m ∷ ms) h a b = (omega (arith, a.0, b.0), AllAt-squeeze l k ms h a.1 b.1)

  AtMost-append : (l : ℕ) (xs ys : List (Meta File)) → AtMost l (xs ++ ys) → AtMost l xs
  AtMost-append l [] ys a = tt
  AtMost-append l (x ∷ xs) ys a = (a.0, AtMost-append l xs ys a.1)

  pub Split-level : (l : ℕ) (ms : List (Meta File)) → IsLeveled ms → AtLeast l ms → Split l ms
  Split-level l [] v b = record {
    older = [];
    files = [];
    parts = refl;
    above = tt;
    at_level = tt;
    leveled = tt;
  }
  Split-level l (m ∷ ms) v b = elim (Bool-cases (m.level == l)) [
    | inl e ↦ record {
      older = [];
      files = m ∷ ms;
      parts = refl;
      above = tt;
      at_level = (ground arith, AllAt-squeeze l m.level ms (ground arith) v.0 b.1);
      leveled = tt;
    }
    | inr e ↦
        let s = Split-level l ms v.1 b.1 in
        record {
          older = m ∷ s.older;
          files = s.files;
          parts = ap (λ r. m ∷ r) s.parts;
          above = (ground (arith, b.0), s.above);
          at_level = s.at_level;
          leveled = (
            AtMost-append m.level s.older s.files (subst (AtMost m.level) s.parts v.0),
            s.leveled,
          );
        }
  ]

  get_level-none :
      (l : ℕ) (xs ys : List (Meta File))
      → AtLeast (l + 1) xs
      → get_level_files (xs ++ ys) l ≡ get_level_files ys l
  unfolding get_level_files
  get_level-none l [] ys a = refl
  get_level-none l (x ∷ xs) ys a =
      let other : (x.level == l) ≡ false = ground (arith, a.0) in
      rw other (get_level-none l xs ys a.1)

  get_level-all : (l : ℕ) (ys : List (Meta File)) → AllAt l ys → get_level_files ys l ≡ ys
  unfolding get_level_files
  get_level-all l [] a = refl
  get_level-all l (y ∷ ys) a =
      let this : (y.level == l) ≡ true = ground (arith, a.0) in rw (this, get_level-all l ys a.1)

  pub get_level-append :
      (l : ℕ) (older files : List (Meta File))
      → AtLeast (l + 1) older
      → AllAt l files
      → get_level_files (older ++ files) l ≡ files
  get_level-append l older files a b = get_level-none l older files a ∙ get_level-all l files b

  -- Files of another level do not show.
  pub get_level-other :
      (l k : ℕ) (xs ys : List (Meta File))
      → AllAt l ys
      → l < k
      → get_level_files (xs ++ ys) k ≡ get_level_files xs k
  unfolding get_level_files
  get_level-other l k [] [] a h = refl
  get_level-other l k [] (y ∷ ys) a h =
      let other : (y.level == k) ≡ false = ground (arith, a.0) in
      rw other (get_level-other l k [] ys a.1 h)
  get_level-other l k (x ∷ xs) ys a h =
      ap (λ r. if x.level == k then x ∷ r else r) (get_level-other l k xs ys a h)

  pub IsLeveled-snoc :
      (ms : List (Meta File)) (m : Meta File)
      → IsLeveled ms
      → AtLeast m.level ms
      → IsLeveled (ms ++ (m ∷ []))
  IsLeveled-snoc [] m v a = (tt, tt)
  IsLeveled-snoc (x ∷ ms) m v a = (AtMost-snoc x.level ms m v.0 a.0, IsLeveled-snoc ms m v.1 a.1)
    where
      AtMost-snoc :
          (l : ℕ) (xs : List (Meta File)) (m : Meta File)
          → AtMost l xs
          → m.level ≤ l
          → AtMost l (xs ++ (m ∷ []))
      AtMost-snoc l [] m v h = (h, tt)
      AtMost-snoc l (y ∷ xs) m v h = (v.0, AtMost-snoc l xs m v.1 h)

  pub AtLeast-snoc :
      (l : ℕ) (ms : List (Meta File)) (m : Meta File)
      → AtLeast l ms
      → l ≤ m.level
      → AtLeast l (ms ++ (m ∷ []))
  AtLeast-snoc l [] m a h = (h, tt)
  AtLeast-snoc l (x ∷ ms) m a h = (a.0, AtLeast-snoc l ms m a.1 h)

-- What is asked of the equality of pointers: a pointer is itself, and equal pointers have one level.
pub record IsPointer {File : Type 0} (same_meta : Meta File → Meta File → Bool) : Type 0 where
  pub itself : (m : Meta File) → same_meta m m ≡ true
  pub one_level : (a b : Meta File) → same_meta a b ≡ true → a.level ≡ b.level

module _ {File : Type 0} (same_meta : Meta File → Meta File → Bool) (p : IsPointer same_meta) where
  remove_mata-older :
      (l : ℕ) (older rest : List (Meta File)) (f : Meta File)
      → AtLeast (l + 1) older
      → f.level ≡ l
      → remove_mata same_meta (older ++ (f ∷ rest)) f ≡ older ++ rest
  unfolding remove_mata
  remove_mata-older l [] rest f a e = rw (p.itself f)
  remove_mata-older l (m ∷ older) rest f a e = elim (Bool-cases (same_meta m f)) [
    | inl z ↦ absurd (omega (arith, p.one_level m f z, a.0, e))
    | inr z ↦ rw (z, remove_mata-older l older rest f a.1 e)
  ]

  -- Removing the files of a level leaves the older files and what came after.
  pub remove_files-level :
      (l : ℕ) (older files after : List (Meta File))
      → AtLeast (l + 1) older
      → AllAt l files
      → remove_files same_meta (older ++ (files ++ after)) files ≡ older ++ after
  unfolding remove_files
  remove_files-level l older [] after a b = refl
  remove_files-level l older (f ∷ files) after a b =
      rw (remove_mata-older l older (files ++ after) f a b.0)
        (remove_files-level l older files after a b.1)
