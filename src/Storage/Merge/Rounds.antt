-- ===== src/Storage/Merge/Rounds.antt =====
-- The rounds of a loop over `Next`, as of storage/zstorage/merge_iterator.go, that ends without an error.
use ban_db.Prelude.{
  ℕ, suc, ◌≡◌, ◌≢◌, refl, List, [], ◌∷◌, length, none, some, Option-cases, inl, inr,
}
use ban_db.Storage.Entries.{Entry}
use ban_db.Storage.Merge.{Source, Outcome, item, ended, failed, advance, discard, merge_next, drain}

pub drain_step :
    {J : Type 0} (step : J → Outcome J) (fuel : ℕ) (h h₁ : J) (e : Entry) (out : List Entry)
    → step h ≡ item e h₁
    → drain step fuel h₁ ≡ some out
    → drain step (suc fuel) h ≡ some (e ∷ out)
unfolding drain
drain_step step fuel h h₁ e out m d = rw (drain, m, d)

-- What a drain that succeeds has done first.
pub data First {J : Type 0} (step : J → Outcome J) (fuel : ℕ) (h : J) (out : List Entry)
    : Type 0 where
  over : step h ≡ ended → out ≡ [] → First step fuel h out
  more :
      (e : Entry) (h₁ : J) (rest : List Entry)
      → step h ≡ item e h₁
      → drain step fuel h₁ ≡ some rest
      → out ≡ e ∷ rest
      → First step fuel h out

pub drain-First :
    {J : Type 0} (step : J → Outcome J) (fuel : ℕ) (h : J) (out : List Entry)
    → drain step (suc fuel) h ≡ some out
    → First step fuel h out
unfolding drain
drain-First {J} step fuel h out d = go (step h) refl
  where
    go : (o : Outcome J) → step h ≡ o → First step fuel h out
    go failed e = let bad : drain step (suc fuel) h ≡ none = rw (drain, e) in cc
    go ended e = let done : drain step (suc fuel) h ≡ some [] = rw (drain, e) in over e (cc)
    go (item x h₁) e = elim (Option-cases (drain step fuel h₁)) [
      | inl b ↦ let bad : drain step (suc fuel) h ≡ none = rw (drain, e, b) in cc
      | inr (rest, b) ↦
          let done : drain step (suc fuel) h ≡ some (x ∷ rest) = rw (drain, e, b) in
          more x h₁ rest e b (cc)
    ]

pub merge_next-goes_on :
    {J : Type 0} (step : J → Outcome J) (s : Source J) (h : List (Source J))
    → merge_next step (s ∷ h) ≢ ended
unfolding merge_next
merge_next-goes_on step s h e = elim (Option-cases (advance step s h)) [
  | inl a ↦ let bad : merge_next step (s ∷ h) ≡ failed = rw (merge_next, a) in cc
  | inr (h₁, a) ↦ elim (Option-cases (discard step (length h₁) s.key h₁)) [
    | inl d ↦ let bad : merge_next step (s ∷ h) ≡ failed = rw (merge_next, a, d) in cc
    | inr (h₂, d) ↦
        let bad : merge_next step (s ∷ h) ≡ item (s.key, s.value) h₂ = rw (merge_next, a, d) in cc
  ]
]
