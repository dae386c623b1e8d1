-- ===== src/Raft/Promise/Invariant.antt =====
-- What the promises of a node have to do with its state, and RequestVote of Raft/rpc.go.

use ban_db.Prelude.{
  ℕ, List, ◌∷◌, Bool, true, false, ◌&&◌, ◌||◌, if◌then◌else◌, ◌≡◌, ◌≢◌, refl, sym, ◌∙◌, arith,
  Bool-cases, inl, inr, ◌⊎◌,
}
use ban_db.Prelude.Int.{ℤ, pos, negsuc, ltb_ℤ, eq_ℤ, eq_ℤ→eq, ltb_ℤ→lt}
use ban_db.Raft.{is_candidate, Raft, persist_state, step_down}
use ban_db.Raft.Rpc.{RequestVoteArgs, is_log_up_to_date, see_term, request_vote}
use ban_db.Raft.Promise.{Promise, ◌<ℤ◌, Held, Before, Agree, Held-newer, Keeps-Held, Held-nobody}

module _ (me : ℕ) where
  -- The promises hold for what the node has in memory and for what it has on disk. A candidate has
  -- promised nothing in its term yet, and both are for itself.
  unfoldable pub Standing : Raft → List Promise → Type 0
  Standing r ps =
      Before ps r.term
      × (r.voted_for ≡ pos me)
      × (r.disk.term ≡ r.term)
      × (r.disk.voted_for ≡ pos me)

  unfoldable pub IsKept : Raft → List Promise → Type 0
  unfolding Standing
  IsKept r ps =
      Held ps r.term r.voted_for
      × Held ps r.disk.term r.disk.voted_for
      × Agree ps
      × (is_candidate r.state ≡ true → Standing r ps)
      × (r.me ≡ me)

  pub persist_state-IsKept :
      (r : Raft) (ps : List Promise) → IsKept r ps → IsKept (persist_state r) ps
  unfolding persist_state IsKept Standing
  persist_state-IsKept r ps k = (k.0, k.0, k.2, λ c. (let s = k.3 c in (s.0, s.1, refl, s.1)), k.4)

  pub step_down-IsKept :
      (r : Raft) (t : ℤ) (ps : List Promise) → r.term <ℤ t → IsKept r ps → IsKept (step_down r t) ps
  unfolding step_down IsKept Standing
  step_down-IsKept r t ps l k =
      (Held-newer ps r.term r.voted_for t (negsuc 0) k.0 l, k.1, k.2, λ c. cc c, k.4)

  pub see_term-IsKept :
      (r : Raft) (t : ℤ) (ps : List Promise) → IsKept r ps → IsKept (see_term r t) ps
  unfolding see_term
  see_term-IsKept r t ps k = elim (Bool-cases (ltb_ℤ r.term t)) [
    | inl e ↦
        rw e (
          persist_state-IsKept (step_down r t) ps (step_down-IsKept r t ps (ltb_ℤ→lt r.term t e) k))
    | inr e ↦ rw e k
  ]

  -- Granting a vote.
  grant-IsKept :
      (r : Raft) (c : ℤ) (ps : List Promise)
      → c ≢ negsuc 0
      → c ≢ pos me
      → (r.voted_for ≡ negsuc 0) ⊎ (r.voted_for ≡ c)
      → IsKept r ps
      → IsKept (persist_state (record r { voted_for = c })) ((r.term, c) ∷ ps)
  unfolding persist_state IsKept Standing
  grant-IsKept r c ps real other free k =
      let held : Held ps r.term c = elim free [
        | inl e ↦ Held-nobody ps r.term c (rw (← e) k.0)
        | inr e ↦ rw (← e) k.0
      ] in
      let all : Held ((r.term, c) ∷ ps) r.term c = (omega arith, λ e. refl, real, held) in
      (all, all, (Keeps-Held ps r.term c held, k.2), λ s. absurd (nobody (k.3 s).1), k.4)
    where
      nobody : r.voted_for ≢ pos me
      nobody e = elim free [ inl f ↦ cc (e, f) | inr f ↦ other (sym f ∙ e) ]

  or_true : (a b : Bool) → (a || b) ≡ true → (a ≡ true) ⊎ (b ≡ true)
  or_true true b h = inl refl
  or_true false b h = inr h

  and_true : (a b : Bool) → (a && b) ≡ true → a ≡ true
  and_true true b h = refl
  and_true false b h = h

  pub request_vote-IsKept :
      (r : Raft) (args : RequestVoteArgs) (ps : List Promise)
      → args.candidate_id ≢ negsuc 0
      → args.candidate_id ≢ pos me
      → IsKept r ps
      → IsKept (request_vote r args).0 (
          if (request_vote r args).1.vote_granted
          then ((request_vote r args).1.term, args.candidate_id) ∷ ps
          else ps)
  unfolding request_vote
  request_vote-IsKept r args ps real other k =
      let c = args.candidate_id in
      let r₁ = see_term r args.term in
      let k₁ = see_term-IsKept r args.term ps k in
      let free = eq_ℤ r₁.voted_for (negsuc 0) || eq_ℤ r₁.voted_for c in
      let up = is_log_up_to_date r₁ args.last_log_index args.last_log_term in
      elim (Bool-cases (ltb_ℤ args.term r.term)) [
        | inl e ↦ rw e k
        | inr e ↦ elim (Bool-cases (free && up)) [
          | inr f ↦ rw (e, f) k₁
          | inl f ↦
              rw (e, f)
                (grant-IsKept r₁ c ps real other
                  (elim (or_true _ _ (and_true free up f)) [
                    | inl x ↦ inl (eq_ℤ→eq r₁.voted_for (negsuc 0) x)
                    | inr x ↦ inr (eq_ℤ→eq r₁.voted_for c x)
                  ])
                  k₁)
        ]
      ]
