-- ===== src/Storage/SkipList/Search.antt =====
-- The descent through the levels stops exactly before the first key that is not smaller, and the
-- neighbours that it finds on each level are those that insert links the new node to.
use mathlib.Core.Path.{subst}
use ban_db.Prelude.{
  ℕ, zero, suc, ◌<◌, List, [], ◌∷◌, ◌≡◌, refl, sym, ◌∙◌, ap, arith, ltb, Bool, true, false, Option,
  none, some, if◌then◌else◌, ◌==◌, Bool-cases, inl, inr,
}
use ban_db.Bytes.{Bytes}
use ban_db.Bytes.Order.{less, less_trans}
use ban_db.Storage.SkipList.{Node, SkipList, walk, descend}

-- Every key is above `key`.
abbrev pub Above : Bytes → List Node → Type 0
Above key [] = Unit
Above key (n ∷ s) = (less key n.key ≡ true) × Above key s

-- Strictly ascending keys, and every node on level 0.
abbrev pub IsAscending : List Node → Type 0
IsAscending [] = Unit
IsAscending (n ∷ s) = (0 < n.height) × Above n.key s × IsAscending s

-- The nodes from the first key that is not smaller.
unfoldable pub from_key : Bytes → List Node → List Node
from_key key [] = []
from_key key (n ∷ s) = if less n.key key then from_key key s else n ∷ s

-- The first node of `s` has a smaller key.
abbrev head_less : Bytes → List Node → Bool
head_less key [] = false
head_less key (n ∷ s) = less n.key key

-- A node that the level passes over: what stood behind it still stands behind.
skip_short :
    (key : Bytes) (n : Node) (s here : List Node)
    → Above n.key s
    → (less n.key key ≡ true → from_key key here ≡ from_key key (n ∷ s))
    → head_less key s ≡ true
    → from_key key here ≡ from_key key s
unfolding from_key
skip_short key n [] here above behind h = cc
skip_short key n (m ∷ s) here above behind h =
    let smaller = less_trans n.key m.key key above.0 h in behind smaller ∙ rw smaller

from_key-walk :
    (i : ℕ) (key : Bytes) (here s : List Node)
    → IsAscending s
    → (head_less key s ≡ true → from_key key here ≡ from_key key s)
    → from_key key (walk i key here s) ≡ from_key key here
unfolding walk from_key
from_key-walk i key here [] asc behind = refl
from_key-walk i key here (n ∷ s) asc behind = ground (
  arith,
  from_key-walk i key s s asc.2 (λ h. refl),
  from_key-walk i key here s asc.2 (skip_short key n s here asc.1 behind),
)

walk-IsAscending :
    (i : ℕ) (key : Bytes) (here s : List Node)
    → IsAscending here
    → IsAscending s
    → IsAscending (walk i key here s)
unfolding walk
walk-IsAscending i key here [] h asc = h
walk-IsAscending i key here (n ∷ s) h asc = elim (Bool-cases (ltb i n.height)) [
  | inl tall ↦ elim (Bool-cases (less n.key key)) [
    | inl e ↦ rw (tall, e) (walk-IsAscending i key s s asc.2 asc.2)
    | inr e ↦ rw (tall, e) h
  ]
  | inr short ↦ rw short (walk-IsAscending i key here s h asc.2)
]

-- On the bottom level, where every node is linked, the walk ends before the first key not smaller.
walk-zero : (key : Bytes) (s : List Node) → IsAscending s → walk 0 key s s ≡ from_key key s
unfolding walk from_key
walk-zero key [] asc = refl
walk-zero key (n ∷ s) asc = ground (arith, walk-zero key s asc.2)

pub descend_lem :
    (i : ℕ) (key : Bytes) (p : List Node) → 0 < i → IsAscending p → descend i key p ≡ from_key key p
unfolding descend
descend_lem zero key p pos asc = elim pos [ ]
descend_lem (suc zero) key p pos asc = walk-zero key p asc
descend_lem (suc (suc i)) key p pos asc =
    descend_lem (suc i) key (walk (suc i) key p p) (omega arith)
      (walk-IsAscending (suc i) key p p asc asc)
    ∙ from_key-walk (suc i) key p p asc (λ h. refl)

-- p.Next[i]
unfoldable pub next : ℕ → List Node → Option Node
next i [] = none
next i (n ∷ s) = let rest = next i s in if ltb i n.height then some n else rest

-- The position on level `i` in which the descent from level `l` leaves the level: update[i].
unfoldable pub update : ℕ → ℕ → Bytes → List Node → List Node
unfolding walk
update zero i key p = p
update (suc l) i key p =
    let here = walk l key p p in let below = update l i key here in if l == i then here else below

-- The next node of the level is not before the key.
abbrev Stops : Bytes → Option Node → Type 0
Stops key none = Unit
Stops key (some n) = less n.key key ≡ false

next_tall : (i : ℕ) (n : Node) (s : List Node) → ltb i n.height ≡ true → next i (n ∷ s) ≡ some n
unfolding next
next_tall i n s h = rw h

next_short : (i : ℕ) (n : Node) (s : List Node) → ltb i n.height ≡ false → next i (n ∷ s) ≡ next i s
unfolding next
next_short i n s h = rw h

next-from_key :
    (i : ℕ) (key : Bytes) (s : List Node)
    → Stops key (next i s)
    → next i s ≡ next i (from_key key s)
unfolding from_key
next-from_key i key [] st = refl
next-from_key i key (n ∷ s) st = elim (Bool-cases (less n.key key)) [
  | inr e ↦ rw e
  | inl e ↦ elim (Bool-cases (ltb i n.height)) [
    | inl tall ↦ cc (subst (Stops key) (next_tall i n s tall) st, e)
    | inr short ↦ rw e (
        next_short i n s short
        ∙ next-from_key i key s (subst (Stops key) (next_short i n s short) st))
  ]
]

walk-Stops :
    (i : ℕ) (key : Bytes) (here s : List Node)
    → next i here ≡ next i s
    → Stops key (next i (walk i key here s))
unfolding walk
walk-Stops i key here [] e = rw e (unfold next in tt)
walk-Stops i key here (n ∷ s) e = elim (Bool-cases (ltb i n.height)) [
  | inl tall ↦ elim (Bool-cases (less n.key key)) [
    | inl l ↦ rw (tall, l) (walk-Stops i key s s refl)
    | inr l ↦ rw (tall, l) (subst (Stops key) (sym (e ∙ next_tall i n s tall)) l)
  ]
  | inr short ↦ rw short (walk-Stops i key here s (e ∙ next_short i n s short))
]

update_lem :
    (l i : ℕ) (key : Bytes) (p : List Node)
    → i < l
    → IsAscending p
    → (next i (update l i key p) ≡ next i (from_key key p))
      × (from_key key (update l i key p) ≡ from_key key p)
unfolding update
update_lem zero i key p h asc = elim h [ ]
update_lem (suc l) i key p h asc =
    let here = walk l key p p in
    let same_rest = from_key-walk l key p p asc (λ h. refl) in
    let asc' = walk-IsAscending l key p p asc asc in
    elim (Bool-cases (l == i)) [
      | inl e ↦
          let l=i : l ≡ i = ground arith in
          rw e (
            next-from_key i key here
                  (subst (λ k. Stops key (next k here)) l=i (walk-Stops l key p p refl))
                ∙ ap (next i) same_rest,
            same_rest,
          )
      | inr e ↦
          let (a, b) = update_lem l i key here (ground arith) asc' in
          rw e (a ∙ ap (next i) same_rest, b ∙ same_rest)
    ]

-- On every level below the list's, the descent's `update[i]` has the same successor on that level as
-- the place where the new node is put: linking the node behind `update[i]` on each of its levels is
-- what `before ++ node ∷ after` says.
pub update_links :
    (sl : SkipList) (i : ℕ) (key : Bytes)
    → i < sl.level
    → IsAscending sl.nodes
    → next i (update sl.level i key sl.nodes) ≡ next i (descend sl.level key sl.nodes)
update_links sl i key h asc =
    (update_lem sl.level i key sl.nodes h asc).0
    ∙ ap (next i) (sym (descend_lem sl.level key sl.nodes (omega arith) asc))
