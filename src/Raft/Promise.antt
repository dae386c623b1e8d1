-- ===== src/Raft/Promise.antt =====
-- The promises of a node (Raft/raft.go, Raft/rpc.go): a vote that it grants to a candidate, and the
-- leadership that it takes for itself.
pub mod Invariant
pub mod Steps
pub mod History
use mathlib.Core.List.{reverse}
use ban_db.Prelude.{
  ℕ, suc, ◌+◌, ◌≤◌, ◌<◌, ltb, List, [], ◌∷◌, ◌++◌, length, Bool, true, false, ◌&&◌, ◌||◌, set,
  Option, none, some, if◌then◌else◌, ◌==◌, Option-cases, ◌≡◌, ◌≢◌, refl, sym, ◌∙◌, ap, arith,
  Bool-cases, inl, inr, ◌⊎◌,
}
use ban_db.Prelude.Int.{
  ℤ, pos, negsuc, pos_part, neg_part, ◌+ℤ◌, ◌≤ℤ◌, ltb_ℤ, leb_ℤ, eq_ℤ, eq_ℤ→eq, ltb_ℤ→lt, ltb_ℤ→le,
  int_laws, +ℤ_parts,
}
use ban_db.Bytes.{Bytes}
use ban_db.Raft.{
  Role, is_leader, is_candidate, LogEntry, Raft, new_raft, persist_state, step_down,
  apply_committed_logs, start_election, election_timeout, become_leader, votes_won, reply_term,
  find_commit, update_commit_index, append_reply, append_entry, get_last_log_index,
}
use ban_db.Raft.Rpc.{
  RequestVoteArgs, RequestVoteReply, AppendEntriesArgs, Reply, InstallSnapshotArgs,
  is_log_up_to_date, see_term, request_vote, prev_matches, append_loop, store_entries, commit_to,
  append_entries, install_snapshot,
}

-- A term, and the node that has the vote in it.
abbrev pub Promise : Type 0
Promise = ℤ × ℤ

abbrev pub ◌<ℤ◌ : ℤ → ℤ → Type 0
a <ℤ b = pos_part a + neg_part b < pos_part b + neg_part a

infix 50 ◌<ℤ◌
-- The promises so far are of this term at most, and one of this very term is to this node.
abbrev pub Held : List Promise → ℤ → ℤ → Type 0
Held [] t v = Unit
Held (p ∷ ps) t v = (p.0 ≤ℤ t) × (p.0 ≡ t → p.1 ≡ v) × (p.1 ≢ negsuc 0) × Held ps t v

abbrev pub Before : List Promise → ℤ → Type 0
Before [] t = Unit
Before (p ∷ ps) t = (p.0 <ℤ t) × Before ps t

-- Promises of one term are to one node.
abbrev pub Keeps : Promise → List Promise → Type 0
Keeps p [] = Unit
Keeps p (q ∷ qs) = (q.0 ≡ p.0 → q.1 ≡ p.1) × Keeps p qs

abbrev pub Agree : List Promise → Type 0
Agree [] = Unit
Agree (p ∷ ps) = Keeps p ps × Agree ps

pub Held-newer : (ps : List Promise) (t v t' v' : ℤ) → Held ps t v → t <ℤ t' → Held ps t' v'
Held-newer [] t v t' v' h l = tt
Held-newer (p ∷ ps) t v t' v' h l = (
  omega (arith, h.0),
  λ e. absurd (omega (arith, h.0, ap pos_part e, ap neg_part e)),
  h.2,
  Held-newer ps t v t' v' h.3 l,
)

pub Held-Before : (ps : List Promise) (t v v' : ℤ) → Before ps t → Held ps t v → Held ps t v'
Held-Before [] t v v' b h = tt
Held-Before (p ∷ ps) t v v' b h = (
  h.0,
  λ e. absurd (omega (arith, b.0, ap pos_part e, ap neg_part e)),
  h.2,
  Held-Before ps t v v' b.1 h.3,
)

pub Before-newer : (ps : List Promise) (t v t' : ℤ) → Held ps t v → t <ℤ t' → Before ps t'
Before-newer [] t v t' h l = tt
Before-newer (p ∷ ps) t v t' h l = (omega (arith, h.0), Before-newer ps t v t' h.3 l)

pub Keeps-Held : (ps : List Promise) (t v : ℤ) → Held ps t v → Keeps (t, v) ps
Keeps-Held [] t v h = tt
Keeps-Held (p ∷ ps) t v h = (h.1, Keeps-Held ps t v h.3)

-- A node that has given its vote to nobody has promised nothing in its term.
pub Held-nobody : (ps : List Promise) (t v : ℤ) → Held ps t (negsuc 0) → Held ps t v
Held-nobody [] t v h = tt
Held-nobody (p ∷ ps) t v h = (h.0, λ e. absurd (h.2 (h.1 e)), h.2, Held-nobody ps t v h.3)
