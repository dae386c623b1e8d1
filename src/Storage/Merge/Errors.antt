-- ===== src/Storage/Merge/Errors.antt =====
-- The check of pull in storage/zstorage/merge_iterator.go: a merge that ends without an error has read
-- only sources that ascend.
use mathlib.Core.Path.{subst}
use ban_db.Prelude.{
  ℕ, zero, suc, ◌+◌, ◌≡◌, refl, sym, ◌∙◌, ap, List, [], ◌∷◌, length, true, false, none, some, arith,
  Bool-cases, Option-cases, inl, inr,
}
use ban_db.Bytes.{Bytes}
use ban_db.Bytes.Order.{less, same}
use ban_db.Storage.Entries.{Entry, IsAscending, Above-trans}
use ban_db.Storage.Merge.{
  Source, Outcome, item, ended, failed, is_unsorted, before, push, pull, advance, discard,
  merge_next, open_all, new_merge_iterator, drain,
}
use ban_db.Storage.Merge.Rounds.{First, over, more, drain-First, merge_next-goes_on}
use ban_db.Storage.Merge.Streams.{Yields, AllYield}

abbrev pub AllAscending : List (List Entry) → Type 0
AllAscending [] = Unit
AllAscending (r ∷ rs) = IsAscending r × AllAscending rs

module _ {It : Type 0} (next : It → Outcome It) where
  -- Whatever the source still gives ascends from its entry on.
  abbrev Ascends : Source It → Type 0
  Ascends s = (es : List Entry) → Yields next s.it es → IsAscending ((s.key, s.value) ∷ es)

  abbrev AllAscend : List (Source It) → Type 0
  AllAscend [] = Unit
  AllAscend (s ∷ h) = Ascends s × AllAscend h

  -- A source in the heap has been pulled before.
  abbrev Pulls : List (Source It) → Type 0
  Pulls [] = Unit
  Pulls (s ∷ h) = (s.prev ≡ some s.key) × Pulls h

  AllAscend-push :
      (t : Source It) (h : List (Source It)) → AllAscend (push t h) → Ascends t × AllAscend h
  unfolding push
  AllAscend-push t [] a = (a.0, tt)
  AllAscend-push t (u ∷ h) a = elim (Bool-cases (before t u)) [
    | inl e ↦ let b : AllAscend (t ∷ (u ∷ h)) = rw e at a in (b.0, b.1)
    | inr e ↦
        let b : AllAscend (u ∷ push t h) = rw e at a in
        let (x, y) = AllAscend-push t h b.1 in (x, (b.0, y))
  ]

  Pulls-push :
      (t : Source It) (h : List (Source It)) → t.prev ≡ some t.key → Pulls h → Pulls (push t h)
  unfolding push
  Pulls-push t [] p a = (p, tt)
  Pulls-push t (u ∷ h) p a = elim (Bool-cases (before t u)) [
    | inl e ↦ rw e (p, a)
    | inr e ↦ rw e (a.0, Pulls-push t h p a.1)
  ]

  abbrev taken : Source It → Entry → It → Source It
  taken s e it' = record s { it = it'; key = e.0; value = e.1; prev = some e.0 }

  -- How an advance succeeds.
  data Advances (s : Source It) (h h' : List (Source It)) : Type 0 where
    pulled :
        (e : Entry) (it' : It)
        → next s.it ≡ item e it'
        → is_unsorted s.prev e.0 ≡ false
        → push (taken s e it') h ≡ h'
        → Advances s h h'
    finished : next s.it ≡ ended → h ≡ h' → Advances s h h'

  advance-Advances :
      (s : Source It) (h h' : List (Source It)) → advance next s h ≡ some h' → Advances s h h'
  unfolding advance pull
  advance-Advances s h h' a = go (next s.it) refl
    where
      go : (o : Outcome It) → next s.it ≡ o → Advances s h h'
      go failed e = let bad : advance next s h ≡ none = rw (advance, pull, e) in cc
      go ended e = let here : advance next s h ≡ some h = rw (advance, pull, e) in finished e (cc)
      go (item x it') e = elim (Bool-cases (is_unsorted s.prev x.0)) [
        | inl u ↦ let bad : advance next s h ≡ none = rw (advance, pull, e, u) in cc
        | inr u ↦
            let here : advance next s h ≡ some (push (taken s x it') h) =
              rw (advance, pull, e, u) in
            pulled x it' e u (cc)
      ]

  Pulls-advance : (s : Source It) (h h' : List (Source It)) → Advances s h h' → Pulls h → Pulls h'
  Pulls-advance s h h' (pulled e it' n u q) p = subst Pulls q (Pulls-push (taken s e it') h refl p)
  Pulls-advance s h h' (finished n q) p = subst Pulls q p

  -- Going back over an advance: what ascends after it ascended before it.
  AllAscend-advance :
      (s : Source It) (h h' : List (Source It)) → Advances s h h' → AllAscend h' → AllAscend h
  AllAscend-advance s h h' (pulled e it' n u q) a =
      (AllAscend-push (taken s e it') h (subst AllAscend (sym q) a)).1
  AllAscend-advance s h h' (finished n q) a = subst AllAscend (sym q) a

  -- What the source gives next ascends by itself.
  rest_ascends :
      (s : Source It) (h h' : List (Source It))
      → Advances s h h'
      → AllAscend h'
      → (es : List Entry) → Yields next s.it es
      → IsAscending es
  rest_ascends s h h' v a [] y = tt
  rest_ascends s h h' (finished n q) a (x ∷ es) y = let (it', m, y') = y in cc
  rest_ascends s h h' (pulled e it' n u q) a (x ∷ es) y =
      let (it'', m, y') = y in
      let same_it : it'' ≡ it' = cc in
      let same_entry : x ≡ e = cc in
      let t = (AllAscend-push (taken s e it') h (subst AllAscend (sym q) a)).0 in
      subst (λ z. IsAscending (z ∷ es)) (sym same_entry)
        (t es (subst (λ i. Yields next i es) same_it y'))

  Ascends-advance :
      (s : Source It) (h h' : List (Source It))
      → s.prev ≡ some s.key
      → Advances s h h'
      → AllAscend h'
      → Ascends s
  Ascends-advance s h h' p v a [] y = (tt, tt)
  Ascends-advance s h h' p (finished n q) a (x ∷ es) y = let (it', m, y') = y in cc
  Ascends-advance s h h' p (pulled e it' n u q) a (x ∷ es) y =
      let (it'', m, y') = y in
      let same_entry : x ≡ e = cc in
      let asc = rest_ascends s h h' (pulled e it' n u q) a (x ∷ es) y in
      let next_up : is_unsorted (some s.key) x.0 ≡ false =
        ap (λ o. is_unsorted o x.0) (sym p) ∙ ap (λ z. is_unsorted s.prev z.0) same_entry ∙ u in
      let up : less s.key x.0 ≡ true = ground arith in
      ((up, Above-trans s.key x.0 es up asc.0), asc)

  record Before (h h' : List (Source It)) : Type 0 where
    pulls : Pulls h'
    back : AllAscend h' → AllAscend h

  discard-Before :
      (fuel : ℕ) (dup : Bytes) (h h' : List (Source It))
      → discard next fuel dup h ≡ some h'
      → Pulls h
      → Before h h'
  unfolding discard
  discard-Before zero dup h h' d p =
      let e : h ≡ h' = cc in
      record { pulls = subst Pulls (e) p; back = λ a. subst AllAscend (sym e) a }
  discard-Before (suc fuel) dup [] h' d p =
      let e : [] ≡ h' = cc in
      record { pulls = subst Pulls (e) p; back = λ a. subst AllAscend (sym e) a }
  discard-Before (suc fuel) dup (s ∷ h) h' d p = elim (Bool-cases (same s.key dup)) [
    | inr f ↦
        let done : discard next (suc fuel) dup (s ∷ h) ≡ some (s ∷ h) = rw (discard, f) in
        let e : s ∷ h ≡ h' = cc in
        record { pulls = subst Pulls (e) p; back = λ a. subst AllAscend (sym e) a }
    | inl f ↦ elim (Option-cases (advance next s h)) [
      | inl a ↦ let bad : discard next (suc fuel) dup (s ∷ h) ≡ none = rw (discard, f, a) in cc
      | inr (h₁, a) ↦
          let v = advance-Advances s h h₁ a in
          let done : discard next (suc fuel) dup (s ∷ h) ≡ discard next fuel dup h₁ =
            rw (discard, f, a) in
          let b = discard-Before fuel dup h₁ h' (sym done ∙ d) (Pulls-advance s h h₁ v p.1) in
          record {
            pulls = b.pulls;
            back = λ c.
                (Ascends-advance s h h₁ p.0 v (b.back c), AllAscend-advance s h h₁ v (b.back c));
          }
    ]
  ]

  merge_next-Before :
      (h h' : List (Source It)) (x : Entry) → merge_next next h ≡ item x h' → Pulls h → Before h h'
  unfolding merge_next
  merge_next-Before [] h' x m p = cc
  merge_next-Before (s ∷ h) h' x m p = elim (Option-cases (advance next s h)) [
    | inl a ↦ let bad : merge_next next (s ∷ h) ≡ failed = rw (merge_next, a) in cc
    | inr (h₁, a) ↦ elim (Option-cases (discard next (length h₁) s.key h₁)) [
      | inl d ↦ let bad : merge_next next (s ∷ h) ≡ failed = rw (merge_next, a, d) in cc
      | inr (h₂, d) ↦
          let done : merge_next next (s ∷ h) ≡ item (s.key, s.value) h₂ = rw (merge_next, a, d) in
          let e : h₂ ≡ h' = cc in
          let v = advance-Advances s h h₁ a in
          let b = discard-Before (length h₁) s.key h₁ h₂ d (Pulls-advance s h h₁ v p.1) in
          record {
            pulls = subst Pulls (e) b.pulls;
            back = λ c.
                let c' = b.back (subst AllAscend (sym e) c) in
                (Ascends-advance s h h₁ p.0 v c', AllAscend-advance s h h₁ v c');
          }
    ]
  ]

  drain-AllAscend :
      (fuel : ℕ) (h : List (Source It)) (out : List Entry)
      → drain (merge_next next) fuel h ≡ some out
      → Pulls h
      → AllAscend h
  unfolding drain
  drain-AllAscend zero h out d p = cc
  drain-AllAscend (suc fuel) h out d p =
      go (drain-AllAscend fuel) h p (drain-First (merge_next next) fuel h out d)
    where
      go :
          ((g : List (Source It)) (rest : List Entry)
            → drain (merge_next next) fuel g ≡ some rest
            → Pulls g
            → AllAscend g)
          → (h : List (Source It)) → Pulls h
          → First (merge_next next) fuel h out
          → AllAscend h
      go further [] p f = tt
      go further (s ∷ h) p (over m e) = absurd (merge_next-goes_on next s h m)
      go further (s ∷ h) p (more x h₁ rest m r e) =
          let b = merge_next-Before (s ∷ h) h₁ x m p in b.back (further h₁ rest r b.pulls)

  open_all-ascending :
      (i : ℕ) (its : List It) (rs : List (List Entry)) (h h' : List (Source It))
      → open_all next i its h ≡ some h'
      → AllYield next its rs
      → Pulls h
      → Pulls h' × (AllAscend h' → AllAscending rs × AllAscend h)
  unfolding open_all
  open_all-ascending i [] [] h h' o y p =
      let e : h ≡ h' = cc in (subst Pulls (e) p, λ a. (tt, subst AllAscend (sym e) a))
  open_all-ascending i [] (r ∷ rs) h h' o y p = absurd y
  open_all-ascending i (j ∷ its) [] h h' o y p = absurd y
  open_all-ascending i (j ∷ its) (r ∷ rs) h h' o y p =
      let s : Source It = record { it = j; src_idx = i; key = []; value = none; prev = none } in
      elim (Option-cases (advance next s h)) [
        | inl a ↦ let bad : open_all next i (j ∷ its) h ≡ none = rw (open_all, a) in cc
        | inr (h₁, a) ↦
            let v = advance-Advances s h h₁ a in
            let done : open_all next i (j ∷ its) h ≡ open_all next (i + 1) its h₁ =
              rw (open_all, a) in
            let (p', back) =
              open_all-ascending (i + 1) its rs h₁ h' (sym done ∙ o) y.1
                (Pulls-advance s h h₁ v p) in
            (
              p',
              λ c.
                  let (asc, c₁) = back c in
                  ((rest_ascends s h h₁ v c₁ r y.0, asc), AllAscend-advance s h h₁ v c₁),
            )
      ]

  -- A merge that comes to its end without an error has read only sources that ascend: a key that is not
  -- greater than the one before it in its source ends the merge with an error.
  pub drain-AllAscending :
      (fuel : ℕ) (its : List It) (rs : List (List Entry)) (h : List (Source It)) (out : List Entry)
      → AllYield next its rs
      → new_merge_iterator next its ≡ some h
      → drain (merge_next next) fuel h ≡ some out
      → AllAscending rs
  unfolding new_merge_iterator
  drain-AllAscending fuel its rs h out y o d =
      let (p, back) = open_all-ascending 0 its rs [] h o y tt in
      (back (drain-AllAscend fuel h out d p)).0
