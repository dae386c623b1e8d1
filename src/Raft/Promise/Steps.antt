-- ===== src/Raft/Promise/Steps.antt =====
-- The other steps of a node (Raft/raft.go, Raft/rpc.go), and what they leave of its promises.
use mathlib.Core.List.{reverse}
use ban_db.Prelude.{
  ℕ, ltb, List, [], ◌∷◌, length, Bool, false, set, if◌then◌else◌, ◌==◌, Option-cases, refl, sym,
  ◌∙◌, ap, arith, Bool-cases, inl, inr,
}
use ban_db.Prelude.Int.{ℤ, pos, negsuc, pos_part, neg_part, ◌+ℤ◌, ltb_ℤ, leb_ℤ, ltb_ℤ→lt, +ℤ_parts}
use ban_db.Bytes.{Bytes}
use ban_db.Raft.{
  is_leader, is_candidate, LogEntry, Raft, new_raft, persist_state, step_down, apply_committed_logs,
  start_election, election_timeout, become_leader, votes_won, reply_term, find_commit,
  update_commit_index, append_reply, append_entry, get_last_log_index,
}
use ban_db.Raft.Rpc.{
  AppendEntriesArgs, InstallSnapshotArgs, see_term, prev_matches, append_loop, store_entries,
  commit_to, append_entries, install_snapshot,
}
use ban_db.Raft.Promise.{Promise, ◌<ℤ◌, Held-newer, Held-Before, Before-newer, Keeps-Held}
use ban_db.Raft.Promise.Invariant.{
  Standing, IsKept, persist_state-IsKept, step_down-IsKept, see_term-IsKept,
}

module _ (me : ℕ) where
  -- The logs and the indexes do not count.
  pub books-IsKept :
      (r : Raft) (ps : List Promise) (log ch logs : List LogEntry) (ci la ls li lt si st : ℤ)
      (next_index match_index : List ℤ)
      → IsKept me r ps
      → IsKept me
          (record r {
            log = log;
            apply_ch = ch;
            commit_index = ci;
            last_applied = la;
            last_snapshot_index = ls;
            last_included_index = li;
            last_included_term = lt;
            next_index = next_index;
            match_index = match_index;
            disk = record r.disk { logs = logs; snap_index = si; snap_term = st };
          })
          ps
  unfolding IsKept Standing
  books-IsKept r ps log ch logs ci la ls li lt si st next_index match_index k = k

  pub apply_committed_logs-IsKept :
      (r : Raft) (ps : List Promise) → IsKept me r ps → IsKept me (apply_committed_logs r) ps
  unfolding apply_committed_logs IsKept Standing
  apply_committed_logs-IsKept r ps k = k

  pub commit_to-IsKept :
      (r : Raft) (n : ℤ) (ps : List Promise) → IsKept me r ps → IsKept me (commit_to r n) ps
  unfolding commit_to
  commit_to-IsKept r n ps k = elim (Bool-cases (ltb_ℤ r.commit_index n)) [
    | inr e ↦ rw e k
    | inl e ↦ rw e (apply_committed_logs-IsKept _ ps (books-IsKept r ps _ _ _ _ _ _ _ _ _ _ _ _ k))
  ]

  pub store_entries-IsKept :
      (r : Raft) (log : List LogEntry) (rebuild : Bool) (new : List LogEntry) (ps : List Promise)
      → IsKept me r ps
      → IsKept me (store_entries r log rebuild new) ps
  unfolding store_entries
  store_entries-IsKept r log rebuild new ps k =
      persist_state-IsKept me _ ps (books-IsKept r ps _ _ _ _ _ _ _ _ _ _ _ _ k)

  pub append_entries-IsKept :
      (r : Raft) (args : AppendEntriesArgs) (ps : List Promise)
      → IsKept me r ps
      → IsKept me (append_entries r args).0 ps
  unfolding append_entries
  append_entries-IsKept r args ps k =
      let r₁ = see_term r args.term in
      let k₁ = see_term-IsKept me r args.term ps k in
      let looped = append_loop r₁.last_included_index args.entries r₁.log false [] in
      elim (Bool-cases (ltb_ℤ args.term r.term)) [
        | inl e ↦ rw e k
        | inr e ↦ elim (Bool-cases (prev_matches r₁ args.prev_log_index args.prev_log_term)) [
          | inr f ↦ rw (e, f) k₁
          | inl f ↦ elim (Option-cases looped) [
            | inl g ↦ rw (e, f, g) k₁
            | inr ((log, rebuild, new), g) ↦
                rw (e, f, g)
                  (commit_to-IsKept
                    (if ltb 0 (length args.entries) then store_entries r₁ log rebuild new else r₁)
                    args.leader_commit ps
                    (elim (Bool-cases (ltb 0 (length args.entries))) [
                      | inl h ↦ rw h (store_entries-IsKept r₁ log rebuild new ps k₁)
                      | inr h ↦ rw h k₁
                    ]))
          ]
        ]
      ]

  pub install_snapshot-IsKept :
      (room : Bool) (r : Raft) (args : InstallSnapshotArgs) (ps : List Promise)
      → IsKept me r ps
      → IsKept me (install_snapshot room r args).0 ps
  unfolding install_snapshot
  install_snapshot-IsKept room r args ps k =
      let newer = ltb_ℤ r.term args.term in
      let r₁ = if newer then step_down r args.term else r in
      let k₁ : IsKept me r₁ ps = elim (Bool-cases newer) [
        | inl e ↦ rw e (step_down-IsKept me r args.term ps (ltb_ℤ→lt r.term args.term e) k)
        | inr e ↦ rw e k
      ] in
      elim (Bool-cases (ltb_ℤ args.term r.term)) [
        | inl e ↦ rw e k
        | inr e ↦ elim (Bool-cases (leb_ℤ args.last_included_index r₁.last_included_index)) [
          | inl f ↦ rw (e, f) k₁
          | inr f ↦
              rw (e, f)
                (persist_state-IsKept me _ ps (books-IsKept r₁ ps _ _ _ _ _ _ _ _ _ _ _ _ k₁))
        ]
      ]

  pub start_election-IsKept :
      (r : Raft) (ps : List Promise) → IsKept me r ps → IsKept me (start_election r) ps
  unfolding start_election persist_state IsKept Standing
  start_election-IsKept r ps k =
      let t = r.term +ℤ pos 1 in
      let newer : r.term <ℤ t = omega (arith, +ℤ_parts r.term (pos 1)) in
      let held = Held-newer ps r.term r.voted_for t (pos r.me) k.0 newer in
      elim (Bool-cases (is_leader r.state)) [
        | inl e ↦ rw e k
        | inr e ↦ rw e (
          held,
          held,
          k.2,
          λ c. (Before-newer ps r.term r.voted_for t k.0 newer, ap pos k.4, refl, ap pos k.4),
          k.4,
        )
      ]

  pub election_timeout-IsKept :
      (r : Raft) (ps : List Promise) → IsKept me r ps → IsKept me (election_timeout r) ps
  unfolding election_timeout IsKept Standing
  election_timeout-IsKept r ps k = elim (Bool-cases (is_candidate r.state)) [
    | inr e ↦ rw e k
    | inl e ↦
        rw e (Held-Before ps r.term r.voted_for (negsuc 0) (k.3 e).0 k.0, k.1, k.2, λ c. cc c, k.4)
  ]

  pub votes_won-IsKept :
      (r : Raft) (ps : List Promise)
      → IsKept me r ps
      → IsKept me (votes_won r) (if is_candidate r.state then (r.term, pos r.me) ∷ ps else ps)
  unfolding votes_won become_leader IsKept Standing
  votes_won-IsKept r ps k = elim (Bool-cases (is_candidate r.state)) [
    | inr e ↦ rw e k
    | inl e ↦
        let s = k.3 e in
        let mine = ap pos k.4 in
        rw e (
          (omega arith, λ x. mine ∙ sym s.1, λ x. cc x, k.0),
          (omega (arith, ap pos_part s.2, ap neg_part s.2), λ x. mine ∙ sym s.3, λ x. cc x, k.1),
          (rw (mine ∙ sym s.1) (Keeps-Held ps r.term r.voted_for k.0), k.2),
          λ c. cc c,
          k.4,
        )
  ]

  pub reply_term-IsKept :
      (r : Raft) (t : ℤ) (ps : List Promise) → IsKept me r ps → IsKept me (reply_term r t) ps
  unfolding reply_term
  reply_term-IsKept r t ps k = elim (Bool-cases (ltb_ℤ r.term t)) [
    | inl e ↦ rw e (step_down-IsKept me r t ps (ltb_ℤ→lt r.term t e) k)
    | inr e ↦ rw e k
  ]

  pub update_commit_index-IsKept :
      (r : Raft) (ps : List Promise) → IsKept me r ps → IsKept me (update_commit_index r) ps
  unfolding update_commit_index
  update_commit_index-IsKept r ps k = elim (Bool-cases (is_leader r.state)) [
    | inr e ↦ rw e k
    | inl e ↦ elim (Option-cases (find_commit r (reverse r.log))) [
      | inl f ↦ rw (e, f) k
      | inr (n, f) ↦
          rw (e, f) (apply_committed_logs-IsKept _ ps (books-IsKept r ps _ _ _ _ _ _ _ _ _ _ _ _ k))
    ]
  ]

  -- The peer has the whole log.
  abbrev acked : Raft → ℕ → Raft
  acked r peer = record r {
    next_index = set r.next_index peer (get_last_log_index r +ℤ pos 1);
    match_index = set r.match_index peer (get_last_log_index r);
  }

  pub append_reply-IsKept :
      (r : Raft) (peer : ℕ) (t : ℤ) (success : Bool) (ps : List Promise)
      → IsKept me r ps
      → IsKept me (append_reply r peer t success) ps
  unfolding append_reply
  append_reply-IsKept r peer t success ps k = elim (Bool-cases (ltb_ℤ r.term t)) [
    | inl e ↦ rw e (step_down-IsKept me r t ps (ltb_ℤ→lt r.term t e) k)
    | inr e ↦ elim (Bool-cases success) [
      | inl f ↦
          rw (e, f)
            (update_commit_index-IsKept (acked r peer) ps
              (books-IsKept r ps _ _ _ _ _ _ _ _ _ _ _ _ k))
      | inr f ↦ rw (e, f) (books-IsKept r ps _ _ _ _ _ _ _ _ _ _ _ _ k)
    ]
  ]

  pub append_entry-IsKept :
      (r : Raft) (command : Bytes) (ps : List Promise)
      → IsKept me r ps
      → IsKept me (append_entry r command).0 ps
  unfolding append_entry
  append_entry-IsKept r command ps k = elim (Bool-cases (is_leader r.state)) [
    | inr e ↦ rw e k
    | inl e ↦ elim (Bool-cases (r.peers == 1)) [
      | inl f ↦
          rw (e, f) (apply_committed_logs-IsKept _ ps (books-IsKept r ps _ _ _ _ _ _ _ _ _ _ _ _ k))
      | inr f ↦ rw (e, f) (books-IsKept r ps _ _ _ _ _ _ _ _ _ _ _ _ k)
    ]
  ]

  -- A crash, and the start after it.
  pub restart-IsKept :
      (r : Raft) (ps : List Promise) → IsKept me r ps → IsKept me (new_raft r.peers r.me r.disk) ps
  unfolding new_raft IsKept Standing
  restart-IsKept r ps k = (k.1, k.1, k.2, λ c. cc c, k.4)
