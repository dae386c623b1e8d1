-- ===== src/Raft/Promise/History.antt =====
-- What a node goes through: the handlers of Raft/rpc.go, the steps of Raft/raft.go, and crashes, in any
-- order, each under the lock of the node.
use ban_db.Prelude.{
  ℕ, List, [], ◌∷◌, Bool, none, some, if◌then◌else◌, ◌≢◌, refl, inl, inr, Option-cases,
}
use ban_db.Prelude.Int.{ℤ, pos, negsuc}
use ban_db.Bytes.{Bytes}
use ban_db.Raft.{
  is_candidate, Raft, Disk, new_raft, start_election, election_timeout, votes_won, reply_term,
  append_reply, append_entry,
}
use ban_db.Raft.Rpc.{
  RequestVoteArgs, AppendEntriesArgs, InstallSnapshotArgs, request_vote, append_entries,
  install_snapshot,
}
use ban_db.Raft.Promise.{Promise, Agree}
use ban_db.Raft.Promise.Invariant.{IsKept, request_vote-IsKept}
use ban_db.Raft.Promise.Steps.{
  append_entries-IsKept, install_snapshot-IsKept, start_election-IsKept, election_timeout-IsKept,
  votes_won-IsKept, reply_term-IsKept, append_reply-IsKept, append_entry-IsKept, restart-IsKept,
}

pub data Event : Type 0 where
  vote : RequestVoteArgs → Event
  append_call : AppendEntriesArgs → Event
  -- with room in ApplyCh or not
  snapshot : Bool → InstallSnapshotArgs → Event
  command : Bytes → Event
  -- a peer's reply to an AppendEntries: its term, and whether it succeeded
  acked : ℕ → ℤ → Bool → Event
  -- the term in another reply
  seen : ℤ → Event
  election : Event
  won : Event
  timed_out : Event
  crash : Event

abbrev restart : Raft → Raft
restart r = new_raft r.peers r.me r.disk

-- A panic in a handler ends the process.
abbrev pub step : Event → Raft × List Promise → Raft × List Promise
step (Event.vote args) s =
    let (r, reply) = request_vote s.0 args in
    (r, if reply.vote_granted then (reply.term, args.candidate_id) ∷ s.1 else s.1)
step (Event.append_call args) s =
    let (r, reply) = append_entries s.0 args in (elim reply [ none ↦ restart r | some x ↦ r ], s.1)
step (Event.snapshot room args) s = ((install_snapshot room s.0 args).0, s.1)
step (Event.command c) s = ((append_entry s.0 c).0, s.1)
step (Event.acked peer t success) s = (append_reply s.0 peer t success, s.1)
step (Event.seen t) s = (reply_term s.0 t, s.1)
step Event.election s = (start_election s.0, s.1)
step Event.won s =
    (votes_won s.0, if is_candidate s.0.state then (s.0.term, pos s.0.me) ∷ s.1 else s.1)
step Event.timed_out s = (election_timeout s.0, s.1)
step Event.crash s = (restart s.0, s.1)

abbrev pub run : List Event → Raft × List Promise → Raft × List Promise
run [] s = s
run (e ∷ es) s = run es (step e s)

-- A request for a vote comes from another node, under its number.
abbrev pub FromOthers : ℕ → List Event → Type 0
FromOthers me [] = Unit
FromOthers me (Event.vote args ∷ es) =
    ((args.candidate_id ≢ negsuc 0) × (args.candidate_id ≢ pos me)) × FromOthers me es
FromOthers me (e ∷ es) = FromOthers me es

run-IsKept :
    (me : ℕ) (es : List Event) (s : Raft × List Promise)
    → FromOthers me es
    → IsKept me s.0 s.1
    → IsKept me (run es s).0 (run es s).1
run-IsKept me [] s ok k = k
run-IsKept me (Event.vote args ∷ es) s ok k =
    run-IsKept me es _ ok.1 (request_vote-IsKept me s.0 args s.1 ok.0.0 ok.0.1 k)
run-IsKept me (Event.append_call args ∷ es) s ok k =
    let k₁ = append_entries-IsKept me s.0 args s.1 k in
    let panics = (append_entries s.0 args).1 in
    run-IsKept me es (step (Event.append_call args) s) ok (elim (Option-cases panics) [
      | inl e ↦ rw (step, e) (restart-IsKept me (append_entries s.0 args).0 s.1 k₁)
      | inr (x, e) ↦ rw (step, e) k₁
    ])
run-IsKept me (Event.snapshot room args ∷ es) s ok k =
    run-IsKept me es _ ok (install_snapshot-IsKept me room s.0 args s.1 k)
run-IsKept me (Event.command c ∷ es) s ok k =
    run-IsKept me es _ ok (append_entry-IsKept me s.0 c s.1 k)
run-IsKept me (Event.acked peer t success ∷ es) s ok k =
    run-IsKept me es _ ok (append_reply-IsKept me s.0 peer t success s.1 k)
run-IsKept me (Event.seen t ∷ es) s ok k = run-IsKept me es _ ok (reply_term-IsKept me s.0 t s.1 k)
run-IsKept me (Event.election ∷ es) s ok k =
    run-IsKept me es _ ok (start_election-IsKept me s.0 s.1 k)
run-IsKept me (Event.won ∷ es) s ok k = run-IsKept me es _ ok (votes_won-IsKept me s.0 s.1 k)
run-IsKept me (Event.timed_out ∷ es) s ok k =
    run-IsKept me es _ ok (election_timeout-IsKept me s.0 s.1 k)
run-IsKept me (Event.crash ∷ es) s ok k = run-IsKept me es _ ok (restart-IsKept me s.0 s.1 k)

-- A node makes at most one promise in a term: from any disk on, whatever requests, replies, commands,
-- elections and crashes it goes through, two votes that it grants in one term are for the same node,
-- and it does not lead in a term in which it has given another node its vote. Requests for votes come
-- from the other nodes.
pub run-Agree :
    (peers me : ℕ) (d : Disk) (es : List Event)
    → FromOthers me es
    → Agree (run es (new_raft peers me d, [])).1
unfolding IsKept new_raft
run-Agree peers me d es ok =
    (run-IsKept me es (new_raft peers me d, []) ok (tt, tt, tt, λ c. cc c, refl)).2
