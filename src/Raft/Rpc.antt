-- ===== src/Raft/Rpc.antt =====
-- Raft/rpc.go: the handlers RequestVote, AppendEntries and InstallSnapshot of a node.
use ban_db.Prelude.{
  ltb, leb, List, [], ◌∷◌, ◌++◌, length, get_or, take, drop, Bool, true, false, ◌&&◌, ◌||◌, not,
  Option, none, some, if◌then◌else◌, ◌==◌,
}
use ban_db.Prelude.Int.{ℤ, pos, negsuc, ◌+ℤ◌, ◌-ℤ◌, ltb_ℤ, leb_ℤ, eq_ℤ}
use ban_db.Bytes.{Bytes}
use ban_db.Raft.{
  LogEntry, blank, Raft, persist_state, step_down, last_of, relative_index, apply_committed_logs,
}

pub record RequestVoteArgs : Type 0 where
  pub term : ℤ
  pub candidate_id : ℤ
  pub last_log_index : ℤ
  pub last_log_term : ℤ

pub record RequestVoteReply : Type 0 where
  pub term : ℤ
  pub vote_granted : Bool

pub record AppendEntriesArgs : Type 0 where
  pub term : ℤ
  pub leader_id : ℤ
  pub prev_log_index : ℤ
  pub prev_log_term : ℤ
  pub entries : List LogEntry
  pub leader_commit : ℤ

pub record Reply : Type 0 where
  pub term : ℤ
  pub success : Bool

pub record InstallSnapshotArgs : Type 0 where
  pub term : ℤ
  pub data' : Bytes
  pub last_included_index : ℤ
  pub last_included_term : ℤ

unfoldable pub is_log_up_to_date : Raft → ℤ → ℤ → Bool
unfolding last_of
is_log_up_to_date r last_index last_term =
    let own : ℤ × ℤ = elim r.log [
      | [] ↦ (r.last_included_index, r.last_included_term)
      | e ∷ es ↦ let l = last_of e es in (l.index, l.term)
    ] in
    if length r.log == 0 && eq_ℤ r.last_included_index (pos 0)
    then true
    else if ltb_ℤ own.1 last_term
    then true
    else eq_ℤ last_term own.1 && leb_ℤ own.0 last_index

-- `if args.Term > r.Term`, with the state written to disk
unfoldable pub see_term : Raft → ℤ → Raft
unfolding step_down persist_state
see_term r t = if ltb_ℤ r.term t then persist_state (step_down r t) else r

unfoldable pub request_vote : Raft → RequestVoteArgs → Raft × RequestVoteReply
unfolding is_log_up_to_date see_term persist_state
request_vote r args =
    let r₁ = see_term r args.term in
    let voted_for_me = eq_ℤ r₁.voted_for (negsuc 0) || eq_ℤ r₁.voted_for args.candidate_id in
    let granted = voted_for_me && is_log_up_to_date r₁ args.last_log_index args.last_log_term in
    if ltb_ℤ args.term r.term
    then (r, record { term = r.term; vote_granted = false })
    else if granted
    then (
      persist_state (record r₁ { voted_for = args.candidate_id }),
      record { term = r₁.term; vote_granted = true },
    )
    else (r₁, record { term = r₁.term; vote_granted = false })

-- The test on PrevLogIndex and PrevLogTerm. A negative position is never asked for.
unfoldable pub prev_matches : Raft → ℤ → ℤ → Bool
prev_matches r prev_index prev_term =
    let lii = r.last_included_index in
    if ltb_ℤ prev_index (pos 0)
    then true
    else if eq_ℤ prev_index lii && ltb_ℤ (pos 0) lii
    then eq_ℤ prev_term r.last_included_term
    else if ltb_ℤ lii prev_index
    then elim (relative_index prev_index lii) [
      | negsuc n ↦ false
      | pos n ↦ ltb n (length r.log) && eq_ℤ (get_or r.log n blank).term prev_term
    ]
    else false

-- The loop over args.Entries: the log, needRebuild and newEntries. `none` is the panic of a negative
-- index into the log.
unfoldable pub append_loop :
    ℤ
    → List LogEntry
    → List LogEntry
    → Bool
    → List LogEntry
    → Option (List LogEntry × Bool × List LogEntry)
append_loop lii [] log rebuild new = some (log, rebuild, new)
append_loop lii (entry ∷ entries) log rebuild new = elim (relative_index entry.index lii) [
  | negsuc n ↦ none
  | pos n ↦
      (let conflict = ltb n (length log) && not (eq_ℤ (get_or log n blank).term entry.term) in
        let log₁ = if conflict then take n log else log in
        let rebuild₁ = if conflict then true else rebuild in
        if leb (length log₁) n
        then append_loop lii entries (log₁ ++ (entry ∷ [])) rebuild₁ (new ++ (entry ∷ []))
        else append_loop lii entries log₁ rebuild₁ new)
]

-- What follows the loop: the log file, then the commit index.
unfoldable pub store_entries : Raft → List LogEntry → Bool → List LogEntry → Raft
unfolding persist_state
store_entries r log rebuild new =
    let logs = if rebuild then log else r.disk.logs ++ new in
    persist_state (record r { log = log; disk = record r.disk { logs = logs } })

unfoldable pub last_index : Raft → ℤ
unfolding last_of
last_index r = elim r.log [ [] ↦ r.last_included_index | e ∷ es ↦ (last_of e es).index ]

abbrev pub min_ℤ : ℤ → ℤ → ℤ
min_ℤ a b = if ltb_ℤ a b then a else b

unfoldable pub commit_to : Raft → ℤ → Raft
unfolding apply_committed_logs last_index
commit_to r leader_commit =
    if ltb_ℤ r.commit_index leader_commit
    then apply_committed_logs (record r { commit_index = min_ℤ leader_commit (last_index r) })
    else r

-- `none` for a panic, with the state in which it left the node.
unfoldable pub append_entries : Raft → AppendEntriesArgs → Raft × Option Reply
unfolding see_term prev_matches append_loop store_entries commit_to
append_entries r args =
    let r₁ = see_term r args.term in
    if ltb_ℤ args.term r.term
    then (r, some (record { term = r.term; success = false }))
    else if prev_matches r₁ args.prev_log_index args.prev_log_term
    then elim (append_loop r₁.last_included_index args.entries r₁.log false []) [
      | none ↦ (r₁, none)
      | some (log, rebuild, new) ↦
          (let r₂ = if ltb 0 (length args.entries) then store_entries r₁ log rebuild new else r₁ in
            (commit_to r₂ args.leader_commit, some (record { term = r₁.term; success = true })))
    ]
    else (r₁, some (record { term = r₁.term; success = false }))

unfoldable pub renumber : ℤ → List LogEntry → List LogEntry
renumber i [] = []
renumber i (e ∷ es) = record e { index = i } ∷ renumber (i +ℤ pos 1) es

-- The part of the log that stays behind a snapshot at `index`, for both ways to get one.
unfoldable pub log_after : List LogEntry → ℤ → ℤ → List LogEntry
unfolding renumber
log_after log index lii = elim (index +ℤ pos 1 -ℤ lii) [
  | negsuc n ↦ []
  | pos n ↦ if leb n (length log) then renumber (index +ℤ pos 1) (drop n log) else []
]

-- TruncateLogs
unfoldable pub truncate_logs : ℤ → List LogEntry → List LogEntry
truncate_logs i [] = []
truncate_logs i (e ∷ es) =
    let rest = truncate_logs i es in if ltb_ℤ i e.index then e ∷ rest else rest

-- ApplyCh has room for 100 entries; `room` says whether it has some now.
unfoldable pub install_snapshot : Bool → Raft → InstallSnapshotArgs → Raft × Reply
unfolding step_down persist_state log_after truncate_logs
install_snapshot room r args =
    let r₁ = if ltb_ℤ r.term args.term then step_down r args.term else r in
    let i = args.last_included_index in
    let entry : LogEntry = record {
      index = i;
      term = args.last_included_term;
      command = args.data';
      is_snapshot = true;
    } in
    if ltb_ℤ args.term r.term
    then (r, record { term = r.term; success = false })
    else if leb_ℤ i r₁.last_included_index
    then (r₁, record { term = r₁.term; success = false })
    else (
      persist_state (record r₁ {
        log = log_after r₁.log i r₁.last_included_index;
        commit_index = i;
        last_applied = i;
        last_snapshot_index = i;
        last_included_index = i;
        last_included_term = args.last_included_term;
        apply_ch = if room then r₁.apply_ch ++ (entry ∷ []) else r₁.apply_ch;
        disk = record r₁.disk {
          logs = truncate_logs i r₁.disk.logs;
          snap_index = i;
          snap_term = args.last_included_term;
        };
      }),
      record { term = r₁.term; success = true },
    )
