-- ===== src/Storage/Merge/Queue.antt =====
-- The heap of storage/zstorage/merge_iterator.go: its order, its invariant, and what a push keeps.
use ban_db.Prelude.{
  ℕ, ◌+◌, ◌≤◌, ◌≡◌, ◌≢◌, refl, List, [], ◌∷◌, length, true, false, Option, some, arith, Bool-cases,
  inl, inr, if◌then◌else◌, sym, suc,
}
use ban_db.Bytes.{Bytes}
use ban_db.Bytes.Order.{
  less, same, less_trans, same→eq, same_comm, same_refl, less_total, less→not-same, less_asymm,
}
use ban_db.Storage.Entries.{Entry, IsAscending, All, size}
use ban_db.Storage.Merge.{Source, before, push}

-- A source over a list of entries; what it still holds is its entry and that list.
abbrev pub Run : Type 0
Run = Source (List Entry)

abbrev pub run : Run → List Entry
run s = (s.key, s.value) ∷ s.it

abbrev pub AllAfter : Run → List Run → Type 0
AllAfter s [] = Unit
AllAfter s (t ∷ h) = (before s t ≡ true) × AllAfter s h

-- No source of the heap has this index.
abbrev pub Fresh : ℕ → List Run → Type 0
Fresh i [] = Unit
Fresh i (t ∷ h) = (i ≢ t.src_idx) × Fresh i h

-- No key of the heap is smaller.
abbrev pub NoneBelow : Bytes → List Run → Type 0
NoneBelow k [] = Unit
NoneBelow k (t ∷ h) = (less t.key k ≡ false) × NoneBelow k h

-- Every key of the heap is greater.
abbrev pub Beyond : Bytes → List Run → Type 0
Beyond k [] = Unit
Beyond k (t ∷ h) = (less k t.key ≡ true) × Beyond k h

pub before_trans : (a b c : Run) → before a b ≡ true → before b c ≡ true → before a c ≡ true
unfolding before
before_trans a b c p q = ground (
  arith,
  same→eq a.key b.key,
  same→eq b.key c.key,
  less_trans a.key b.key c.key,
  less→not-same a.key c.key,
  same_refl c.key,
)

pub before_total : (a b : Run) → a.src_idx ≢ b.src_idx → before a b ≡ false → before b a ≡ true
unfolding before
before_total a b d h =
    ground (arith, same_comm a.key b.key, less_total a.key b.key, less_asymm a.key b.key)

AllAfter-trans : (s t : Run) (h : List Run) → before s t ≡ true → AllAfter t h → AllAfter s h
AllAfter-trans s t [] p a = tt
AllAfter-trans s t (u ∷ h) p a = (before_trans s t u p a.0, AllAfter-trans s t h p a.1)

AllAfter-push :
    (s t : Run) (h : List Run) → before s t ≡ true → AllAfter s h → AllAfter s (push t h)
unfolding push
AllAfter-push s t [] p a = (p, tt)
AllAfter-push s t (u ∷ h) p a = elim (Bool-cases (before t u)) [
  | inl e ↦ rw e (p, a)
  | inr e ↦ rw e (a.0, AllAfter-push s t h p a.1)
]

pub Fresh-push : (i : ℕ) (t : Run) (h : List Run) → i ≢ t.src_idx → Fresh i h → Fresh i (push t h)
unfolding push
Fresh-push i t [] p a = (p, tt)
Fresh-push i t (u ∷ h) p a = elim (Bool-cases (before t u)) [
  | inl e ↦ rw e (p, a)
  | inr e ↦ rw e (a.0, Fresh-push i t h p a.1)
]

pub NoneBelow-push :
    (k : Bytes) (t : Run) (h : List Run)
    → less t.key k ≡ false
    → NoneBelow k h
    → NoneBelow k (push t h)
unfolding push
NoneBelow-push k t [] p a = (p, tt)
NoneBelow-push k t (u ∷ h) p a = elim (Bool-cases (before t u)) [
  | inl e ↦ rw e (p, a)
  | inr e ↦ rw e (a.0, NoneBelow-push k t h p a.1)
]

module _ (P : Bytes → Option Bytes → Type 0) where
  -- What a source in the heap still holds ascends, and satisfies `P`.
  pub record RunOk (s : Run) : Type 0 where
    pub ascending : IsAscending (run s)
    pub fit : All P (run s)
    pub last : s.prev ≡ some s.key

  abbrev pub HeapOk : List Run → Type 0
  HeapOk [] = Unit
  HeapOk (s ∷ h) = RunOk s × AllAfter s h × Fresh s.src_idx h × HeapOk h

  pub push-HeapOk :
      (s : Run) (h : List Run) → RunOk s → Fresh s.src_idx h → HeapOk h → HeapOk (push s h)
  unfolding push
  push-HeapOk s [] ok f k = (ok, tt, tt, tt)
  push-HeapOk s (t ∷ h) ok f k = elim (Bool-cases (before s t)) [
    | inl e ↦ rw e (ok, (e, AllAfter-trans s t h e k.1), f, k)
    | inr e ↦ rw e (
      k.0,
      AllAfter-push t s h (before_total s t f.0 e) k.1,
      Fresh-push t.src_idx s h (λ z. f.0 (sym z)) k.2,
      push-HeapOk s h ok f.1 k.3,
    )
  ]

-- How many sources stand at the key.
abbrev pub at_key : Bytes → List Run → ℕ
at_key k [] = 0
at_key k (t ∷ h) = if same t.key k then suc (at_key k h) else at_key k h

pub at_key-push :
    (k : Bytes) (t : Run) (h : List Run) → same t.key k ≡ false → at_key k (push t h) ≡ at_key k h
unfolding push
at_key-push k t [] p = rw p
at_key-push k t (u ∷ h) p = elim (Bool-cases (before t u)) [
  | inl e ↦ rw (e, p)
  | inr e ↦ rw (e, at_key-push k t h p)
]

pub at_key-le : (k : Bytes) (h : List Run) → at_key k h ≤ length h
at_key-le k [] = omega arith
at_key-le k (t ∷ h) = ground (arith, at_key-le k h)

-- The size of the entries that the sources still hold.
abbrev pub weight : (Entry → ℕ) → List Run → ℕ
weight sz [] = 0
weight sz (t ∷ h) = size sz (run t) + weight sz h

pub weight-push :
    (sz : Entry → ℕ) (t : Run) (h : List Run) → weight sz (push t h) ≡ size sz (run t) + weight sz h
unfolding push
weight-push sz t [] = refl
weight-push sz t (u ∷ h) = elim (Bool-cases (before t u)) [
  | inl e ↦ rw e
  | inr e ↦ rw e (omega (arith, weight-push sz t h))
]
