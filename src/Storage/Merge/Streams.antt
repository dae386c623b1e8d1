-- ===== src/Storage/Merge/Streams.antt =====
-- The merge of storage/zstorage/merge_iterator.go sees of an iterator only the entries that it gives: the
-- merge of any iterators goes as the merge of their lists of entries.
use mathlib.Core.Path.{subst}
use ban_db.Prelude.{
  ℕ, zero, suc, ◌+◌, ◌≡◌, refl, sym, ◌∙◌, ap, List, [], ◌∷◌, length, true, none, some, Bool-cases,
  Option-cases, inl, inr,
}
use ban_db.Bytes.{Bytes}
use ban_db.Bytes.Order.{same}
use ban_db.Storage.Entries.{Entry}
use ban_db.Storage.Merge.{
  Source, Outcome, item, ended, failed, is_unsorted, before, push, pull, advance, discard,
  merge_next, open_all, new_merge_iterator, drain, next_entry,
}
use ban_db.Storage.Merge.Queue.{Run}
use ban_db.Storage.Merge.Rounds.{First, over, more, drain-First, drain_step, merge_next-goes_on}

module _ {It : Type 0} (next : It → Outcome It) where
  -- The iterator gives these entries, and then ends without an error.
  abbrev pub Yields : It → List Entry → Type 0
  Yields it' [] = next it' ≡ ended
  Yields it' (e ∷ es) = (after : It) × (next it' ≡ item e after) × Yields after es

  abbrev pub AllYield : List It → List (List Entry) → Type 0
  AllYield [] [] = Unit
  AllYield [] (r ∷ rs) = ⊥
  AllYield (i ∷ its) [] = ⊥
  AllYield (i ∷ its) (r ∷ rs) = Yields i r × AllYield its rs

  record Same (s : Source It) (g : Run) : Type 0 where
    idx : s.src_idx ≡ g.src_idx
    at : s.key ≡ g.key
    val : s.value ≡ g.value
    last : s.prev ≡ g.prev
    yields : Yields s.it g.it

  abbrev SameHeap : List (Source It) → List Run → Type 0
  SameHeap [] [] = Unit
  SameHeap [] (g ∷ gs) = ⊥
  SameHeap (s ∷ h) [] = ⊥
  SameHeap (s ∷ h) (g ∷ gs) = Same s g × SameHeap h gs

  before-Same : (s t : Source It) (g u : Run) → Same s g → Same t u → before s t ≡ before g u
  unfolding before
  before-Same s t g u p q = rw (p.idx, p.at, q.idx, q.at)

  push-Same :
      (s : Source It) (h : List (Source It)) (g : Run) (gs : List Run)
      → Same s g
      → SameHeap h gs
      → SameHeap (push s h) (push g gs)
  unfolding push
  push-Same s [] g [] p q = (p, tt)
  push-Same s [] g (u ∷ gs) p q = absurd q
  push-Same s (t ∷ h) g [] p q = absurd q
  push-Same s (t ∷ h) g (u ∷ gs) p q = elim (Bool-cases (before g u)) [
    | inl e ↦ rw (before-Same s t g u p q.0, e) (p, q)
    | inr e ↦ rw (before-Same s t g u p q.0, e) (q.0, push-Same s h g gs p q.1)
  ]

  length-Same : (h : List (Source It)) (gs : List Run) → SameHeap h gs → length h ≡ length gs
  length-Same [] [] q = refl
  length-Same [] (u ∷ gs) q = absurd q
  length-Same (t ∷ h) [] q = absurd q
  length-Same (t ∷ h) (u ∷ gs) q = ap suc (length-Same h gs q.1)

  abbrev taken : {J : Type 0} → Source J → Entry → J → Source J
  taken s e it' = record s { it = it'; key = e.0; value = e.1; prev = some e.0 }

  -- Where the merge of the lists goes on, so does that of the iterators.
  advance-Same :
      (s : Source It) (h : List (Source It)) (g : Run) (gs gs' : List Run)
      → Same s g
      → SameHeap h gs
      → advance next_entry g gs ≡ some gs'
      → (h' : List (Source It)) × (advance next s h ≡ some h') × SameHeap h' gs'
  unfolding advance pull next_entry
  advance-Same s h g gs gs' p q a = go g.it refl p.yields
    where
      go :
          (r : List Entry)
          → g.it ≡ r
          → Yields s.it r
          → (h' : List (Source It)) × (advance next s h ≡ some h') × SameHeap h' gs'
      go [] e y =
          let here : advance next_entry g gs ≡ some gs = rw (advance, pull, e) in
          let same_heap : gs ≡ gs' = cc in
          (h, rw (advance, pull, y), subst (SameHeap h) (same_heap) q)
      go (x ∷ r) e y = elim (Bool-cases (is_unsorted g.prev x.0)) [
        | inl u ↦ let here : advance next_entry g gs ≡ none = rw (advance, pull, e, u) in cc
        | inr u ↦
            let here : advance next_entry g gs ≡ some (push (taken g x r) gs) =
              rw (advance, pull, e, u) in
            let same_heap : push (taken g x r) gs ≡ gs' = cc in
            let one : Same (taken s x y.0) (taken g x r) = record {
              idx = p.idx;
              at = refl;
              val = refl;
              last = refl;
              yields = y.2;
            } in
            (
              push (taken s x y.0) h,
              rw (advance, pull, y.1, p.last, u),
              subst (SameHeap (push (taken s x y.0) h)) (same_heap)
                  (push-Same (taken s x y.0) h (taken g x r) gs one q),
            )
      ]

  discard_step :
      (fuel : ℕ) (dup : Bytes) (s : Source It) (h h₁ h₂ : List (Source It))
      → same s.key dup ≡ true
      → advance next s h ≡ some h₁
      → discard next fuel dup h₁ ≡ some h₂
      → discard next (suc fuel) dup (s ∷ h) ≡ some h₂
  unfolding discard
  discard_step fuel dup s h h₁ h₂ e a d = rw (e, a) d

  merge_next_step :
      (s : Source It) (h h₁ h₂ : List (Source It)) (e : Entry)
      → advance next s h ≡ some h₁
      → discard next (length h₁) s.key h₁ ≡ some h₂
      → (s.key, s.value) ≡ e
      → merge_next next (s ∷ h) ≡ item e h₂
  unfolding merge_next
  merge_next_step s h h₁ h₂ e a d v = rw (merge_next, a, d) (ap (λ x. item x h₂) v)

  discard-Same :
      (fuel : ℕ) (dup : Bytes) (h : List (Source It)) (gs gs' : List Run)
      → SameHeap h gs
      → discard next_entry fuel dup gs ≡ some gs'
      → (h' : List (Source It)) × (discard next fuel dup h ≡ some h') × SameHeap h' gs'
  unfolding discard
  discard-Same zero dup h gs gs' q d = let e : gs ≡ gs' = cc in (h, refl, subst (SameHeap h) (e) q)
  discard-Same (suc fuel) dup [] [] gs' q d =
      let e : [] ≡ gs' = cc in ([], refl, subst (SameHeap []) (e) tt)
  discard-Same (suc fuel) dup [] (g ∷ gs) gs' q d = absurd q
  discard-Same (suc fuel) dup (s ∷ h) [] gs' q d = absurd q
  discard-Same (suc fuel) dup (s ∷ h) (g ∷ gs) gs' q d = elim (Bool-cases (same g.key dup)) [
    | inr e ↦
        let done : discard next_entry (suc fuel) dup (g ∷ gs) ≡ some (g ∷ gs) = rw (discard, e) in
        let same_heap : g ∷ gs ≡ gs' = cc in
        (s ∷ h, rw (discard, q.0.at, e), subst (SameHeap (s ∷ h)) (same_heap) q)
    | inl e ↦ elim (Option-cases (advance next_entry g gs)) [
      | inl a ↦
          let done : discard next_entry (suc fuel) dup (g ∷ gs) ≡ none = rw (discard, e, a) in cc
      | inr (gs₁, a) ↦
          let (h₁, b, q₁) = advance-Same s h g gs gs₁ q.0 q.1 a in
          let done : discard next_entry (suc fuel) dup (g ∷ gs) ≡ discard next_entry fuel dup gs₁ =
            rw (discard, e, a) in
          let (h₂, c, q₂) = discard-Same fuel dup h₁ gs₁ gs' q₁ (sym done ∙ d) in
          (h₂, discard_step fuel dup s h h₁ h₂ (ap (λ k. same k dup) q.0.at ∙ e) b c, q₂)
    ]
  ]

  merge_next-Same :
      (h : List (Source It)) (gs gs' : List Run) (e : Entry)
      → SameHeap h gs
      → merge_next next_entry gs ≡ item e gs'
      → (h' : List (Source It)) × (merge_next next h ≡ item e h') × SameHeap h' gs'
  unfolding merge_next
  merge_next-Same [] [] gs' e q m = cc
  merge_next-Same [] (g ∷ gs) gs' e q m = absurd q
  merge_next-Same (s ∷ h) [] gs' e q m = absurd q
  merge_next-Same (s ∷ h) (g ∷ gs) gs' e q m = elim (Option-cases (advance next_entry g gs)) [
    | inl a ↦ let bad : merge_next next_entry (g ∷ gs) ≡ failed = rw (merge_next, a) in cc
    | inr (gs₁, a) ↦ elim (Option-cases (discard next_entry (length gs₁) g.key gs₁)) [
      | inl d ↦ let bad : merge_next next_entry (g ∷ gs) ≡ failed = rw (merge_next, a, d) in cc
      | inr (gs₂, d) ↦
          let done : merge_next next_entry (g ∷ gs) ≡ item (g.key, g.value) gs₂ =
            rw (merge_next, a, d) in
          let same_heap : gs₂ ≡ gs' = cc in
          let same_entry : (g.key, g.value) ≡ e = cc in
          let (h₁, b, q₁) = advance-Same s h g gs gs₁ q.0 q.1 a in
          let (h₂, c, q₂) = discard-Same (length gs₁) g.key h₁ gs₁ gs₂ q₁ d in
          (
            h₂,
            merge_next_step s h h₁ h₂ e b
                (ap (λ n. discard next n s.key h₁) (length-Same h₁ gs₁ q₁)
                  ∙ ap (λ k. discard next (length gs₁) k h₁) q.0.at
                  ∙ c)
                (ap (λ k. (k, s.value)) q.0.at ∙ ap (λ v. (g.key, v)) q.0.val ∙ same_entry),
            subst (SameHeap h₂) (same_heap) q₂,
          )
    ]
  ]

  drain-Same :
      (fuel : ℕ) (h : List (Source It)) (gs : List Run) (out : List Entry)
      → SameHeap h gs
      → drain (merge_next next_entry) fuel gs ≡ some out
      → drain (merge_next next) fuel h ≡ some out
  unfolding drain
  drain-Same zero h gs out q d = cc
  drain-Same (suc fuel) [] [] out q d = unfold merge_next in d
  drain-Same (suc fuel) [] (g ∷ gs) out q d = absurd q
  drain-Same (suc fuel) (s ∷ h) [] out q d = absurd q
  drain-Same (suc fuel) (s ∷ h) (g ∷ gs) out q d =
      go (drain-Same fuel) (drain-First (merge_next next_entry) fuel (g ∷ gs) out d)
    where
      go :
          ((h : List (Source It)) (gs : List Run) (rest : List Entry)
            → SameHeap h gs
            → drain (merge_next next_entry) fuel gs ≡ some rest
            → drain (merge_next next) fuel h ≡ some rest)
          → First (merge_next next_entry) fuel (g ∷ gs) out
          → drain (merge_next next) (suc fuel) (s ∷ h) ≡ some out
      go further (over e _) = absurd (merge_next-goes_on next_entry g gs e)
      go further (more x gs₁ rest m r e) =
          let (h₁, m', q₁) = merge_next-Same (s ∷ h) (g ∷ gs) gs₁ x q m in
          drain_step (merge_next next) fuel (s ∷ h) h₁ x rest m' (further h₁ gs₁ rest q₁ r)
          ∙ ap some (sym e)

  abbrev opening : {J : Type 0} → ℕ → J → Source J
  opening i it' = record { it = it'; src_idx = i; key = []; value = none; prev = none }

  open-Same :
      (i : ℕ) (its : List It) (rs : List (List Entry)) (h : List (Source It)) (gs gs' : List Run)
      → AllYield its rs
      → SameHeap h gs
      → open_all next_entry i rs gs ≡ some gs'
      → (h' : List (Source It)) × (open_all next i its h ≡ some h') × SameHeap h' gs'
  unfolding open_all
  open-Same i [] [] h gs gs' y q o = let e : gs ≡ gs' = cc in (h, refl, subst (SameHeap h) (e) q)
  open-Same i [] (r ∷ rs) h gs gs' y q o = absurd y
  open-Same i (it' ∷ its) [] h gs gs' y q o = absurd y
  open-Same i (it' ∷ its) (r ∷ rs) h gs gs' y q o =
      elim (Option-cases (advance next_entry (opening i r) gs)) [
        | inl a ↦ let bad : open_all next_entry i (r ∷ rs) gs ≡ none = rw (open_all, a) in cc
        | inr (gs₁, a) ↦
            let done : open_all next_entry i (r ∷ rs) gs ≡ open_all next_entry (i + 1) rs gs₁ =
              rw (open_all, a) in
            let one : Same (opening i it') (opening i r) = record {
              idx = refl;
              at = refl;
              val = refl;
              last = refl;
              yields = y.0;
            } in
            let (h₁, b, q₁) = advance-Same (opening i it') h (opening i r) gs gs₁ one q a in
            let (h', c, q') = open-Same (i + 1) its rs h₁ gs₁ gs' y.1 q₁ (sym done ∙ o) in
            (h', rw (open_all, b) c, q')
      ]

  -- Iterators that give the runs `rs` merge as these do.
  pub new_merge_iterator-Same :
      (fuel : ℕ) (its : List It) (rs : List (List Entry)) (g : List Run) (out : List Entry)
      → AllYield its rs
      → new_merge_iterator next_entry rs ≡ some g
      → drain (merge_next next_entry) fuel g ≡ some out
      → (h : List (Source It)) × (new_merge_iterator next its ≡ some h)
        × (drain (merge_next next) fuel h ≡ some out)
  unfolding new_merge_iterator
  new_merge_iterator-Same fuel its rs g out y o d =
      let (h, o', q) = open-Same 0 its rs [] [] g y tt o in (h, o', drain-Same fuel h g out q d)
