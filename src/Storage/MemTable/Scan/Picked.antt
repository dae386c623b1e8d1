-- ===== src/Storage/MemTable/Scan/Picked.antt =====
-- One round of the loop of ScanRange (storage/zstorage/memtable.go): which key it takes, and what is left.

use mathlib.Core.Path.{subst}
use ban_db.Prelude.{
  ◌+◌, ◌<◌, ltb, List, [], ◌∷◌, length, Bool, true, false, ◌&&◌, Option, none, some, if◌then◌else◌,
  ◌≡◌, refl, sym, ◌∙◌, ap, arith, Bool-cases, inl, inr,
}
use ban_db.Bytes.{Bytes}
use ban_db.Bytes.Order.{less, same, less_trans, less_total, same→eq}
use ban_db.Storage.SkipList.{Node}
use ban_db.Storage.SkipList.Search
use ban_db.Storage.SkipList.Search.{from_key}
use ban_db.Storage.SkipList.Table.{lookup, lookup-Above, lookup-past}
use ban_db.Storage.SkipList.Table
use ban_db.Storage.MemTable.{or_else}
use ban_db.Storage.MemTable.Scan.{Step, pick, is_past}

-- What a reader sees: tombstones and missing keys are the same.
abbrev pub visible : Option (Option Bytes) → Option (Option Bytes)
visible (some (some v)) = some (some v)
visible (some none) = none
visible none = none

abbrev pub both : Bytes → List Node → List Node → Option (Option Bytes)
both j a d = or_else (lookup j a) (lookup j d)

-- One key was taken from the two lists: it is the smallest one, and the newest version of it.
pub record Picked (a d : List Node) (s : Step) : Type 0 where
  pub key_above_a : Search.Above s.0 s.2
  pub key_above_d : Search.Above s.0 s.3
  pub ascending_a : Search.IsAscending s.2
  pub ascending_d : Search.IsAscending s.3
  pub shorter : length s.2 + length s.3 < length a + length d
  pub over :
      (k : Bytes)
      → Search.Above k a
      → Search.Above k d
      → (less k s.0 ≡ true) × Search.Above k s.2 × Search.Above k s.3
  pub looks : (j : Bytes) → both j a d ≡ (if same s.0 j then some s.1 else both j s.2 s.3)

if_else :
    (b : Bool) (v : Option Bytes) (o p : Option (Option Bytes))
    → or_else (if b then some v else o) p ≡ (if b then some v else or_else o p)
unfolding or_else
if_else true v o p = refl
if_else false v o p = refl

-- The three ways to take a key.
take_active :
    (a : Node) (rest d : List Node)
    → Search.IsAscending (a ∷ rest)
    → Search.Above a.key d
    → Search.IsAscending d
    → Picked (a ∷ rest) d (a.key, a.value, rest, d)
unfolding lookup
take_active a rest d asc above asc_d = record {
  key_above_a = asc.1;
  key_above_d = above;
  ascending_a = asc.2;
  ascending_d = asc_d;
  shorter = omega arith;
  over = λ k x y. (x.0, x.1, y);
  looks = λ j. if_else (same a.key j) a.value (lookup j rest) (lookup j d);
}

take_dirty :
    (d : Node) (a rest : List Node)
    → Search.IsAscending (d ∷ rest)
    → Search.Above d.key a
    → Search.IsAscending a
    → Picked a (d ∷ rest) (d.key, d.value, a, rest)
unfolding lookup
take_dirty d a rest asc above asc_a = record {
  key_above_a = above;
  key_above_d = asc.1;
  ascending_a = asc_a;
  ascending_d = asc.2;
  shorter = omega arith;
  over = λ k x y. (y.0, x, y.1);
  looks = λ j. elim (Bool-cases (same d.key j)) [
    | inl e ↦
        rw (e, lookup-Above j a (subst (λ k. Search.Above k a) (same→eq d.key j e) above))
          (unfold or_else in refl)
    | inr e ↦ rw e refl
  ];
}

take_both :
    (a d : Node) (rest ds : List Node)
    → Search.IsAscending (a ∷ rest)
    → Search.IsAscending (d ∷ ds)
    → same a.key d.key ≡ true
    → Picked (a ∷ rest) (d ∷ ds) (a.key, a.value, rest, ds)
unfolding lookup
take_both a d rest ds asc asc_d h =
    let equal = same→eq a.key d.key h in
    record {
      key_above_a = asc.1;
      key_above_d = subst (λ k. Search.Above k ds) (sym equal) asc_d.1;
      ascending_a = asc.2;
      ascending_d = asc_d.2;
      shorter = omega arith;
      over = λ k x y. (x.0, x.1, y.1);
      looks = λ j.
          if_else (same a.key j) a.value (lookup j rest) (lookup j (d ∷ ds))
          ∙ elim (Bool-cases (same a.key j)) [
            | inl e ↦ rw e refl
            | inr e ↦
                let other : same d.key j ≡ false = ap (λ k. same k j) (sym equal) ∙ e in
                rw (e, other) refl
          ];
    }

some_step : {s t : Step} → some s ≡ some t → s ≡ t
some_step {s = s} h = ap (λ (o : Option Step). elim o [ none ↦ s | some x ↦ x ]) h

pub pick-Picked :
    (a d : List Node) (s : Step)
    → Search.IsAscending a
    → Search.IsAscending d
    → pick a d ≡ some s
    → Picked a d s
unfolding pick
pick-Picked [] [] s asc_a asc_d h = absurd (no h)
  where
    no : none ≡ some s → ⊥
    no c = cc c
pick-Picked (a ∷ rest) [] s asc_a asc_d h =
    subst (Picked (a ∷ rest) []) (some_step h) (take_active a rest [] asc_a tt tt)
pick-Picked [] (d ∷ ds) s asc_a asc_d h =
    subst (Picked [] (d ∷ ds)) (some_step h) (take_dirty d [] ds asc_d tt tt)
pick-Picked (a ∷ rest) (d ∷ ds) s asc_a asc_d h = elim (Bool-cases (less a.key d.key)) [
  | inl e ↦
      subst (Picked (a ∷ rest) (d ∷ ds)) (some_step (rw e at h))
        (take_active a rest (d ∷ ds) asc_a (e, Table.Above-trans a.key d.key ds e asc_d.1) asc_d)
  | inr e ↦ elim (Bool-cases (less d.key a.key)) [
    | inl f ↦
        subst (Picked (a ∷ rest) (d ∷ ds)) (some_step (rw (e, f) at h))
          (take_dirty d (a ∷ rest) ds asc_d (f, Table.Above-trans d.key a.key rest f asc_a.1) asc_a)
    | inr f ↦
        subst (Picked (a ∷ rest) (d ∷ ds)) (some_step (rw (e, f) at h))
          (take_both a d rest ds asc_a asc_d (same_of a.key d.key e f))
  ]
]
  where
    same_of : (x y : Bytes) → less x y ≡ false → less y x ≡ false → same x y ≡ true
    same_of x y e f = elim (Bool-cases (same x y)) [
      | inl g ↦ g
      | inr g ↦ cc (less_total x y e g, f)
    ]

pub gone : (j : Bytes) (a d : List Node) → Search.Above j a → Search.Above j d → both j a d ≡ none
unfolding or_else
gone j a d x y = rw (lookup-Above j a x, lookup-Above j d y)

no_step : {s : Step} → some s ≡ none → ⊥
no_step c = cc c

pub pick-none : (a d : List Node) (j : Bytes) → pick a d ≡ none → both j a d ≡ none
unfolding pick or_else lookup
pick-none [] [] j h = refl
pick-none (a ∷ rest) [] j h = absurd (no_step h)
pick-none [] (d ∷ ds) j h = absurd (no_step h)
pick-none (a ∷ rest) (d ∷ ds) j h = elim (Bool-cases (less a.key d.key)) [
  | inl e ↦ cc (rw e at h)
  | inr e ↦ elim (Bool-cases (less d.key a.key)) [
    | inl f ↦ cc (rw (e, f) at h)
    | inr f ↦ cc (rw (e, f) at h)
  ]
]

-- A key that is not past the end lies below one that is.
pub below_past :
    (end key j : Bytes) → is_past end key ≡ true → is_past end j ≡ false → less j key ≡ true
below_past end key j p q =
    let (bounded, over) = and_both (ltb 0 (length end)) (less end key) p in
    let under : less end j ≡ false = rw bounded at q in
    elim (Bool-cases (same end j)) [
      | inl e ↦ ap (λ k. less k key) (sym (same→eq end j e)) ∙ over
      | inr e ↦ less_trans j end key (less_total end j under e) over
    ]
  where
    and_both : (x y : Bool) → (x && y) ≡ true → (x ≡ true) × (y ≡ true)
    and_both true y h = (refl, h)
    and_both false y h = cc h

pub hidden : (b : Bool) → none ≡ (if b then none else visible none)
hidden true = refl
hidden false = refl
