-- ===== src/Raft.antt =====
-- Raft/raft.go: the state of a node, its log arithmetic, and the steps that a node makes by itself. A
-- Go int is taken as an integer: indexes and terms stay below 2^63. A peer is its position in `peers`.
-- `apply_ch` has what was sent to ApplyCh so far. The disk holds the state file and the log file
-- (Raft/raft_wal.go), as values; the file system does not fail here.
pub mod Log
pub mod Rpc
pub mod Promise
pub mod Election
pub mod Wal
pub mod Snapshot
mod Tests
use ban_db.Prelude.{
  ℕ, zero, suc, ◌+◌, ◌/◌, ltb, leb, List, [], ◌∷◌, ◌++◌, length, get_or, set, drop, replicate, Bool,
  true, false, ◌&&◌, not, Option, none, some, if◌then◌else◌, ◌==◌,
}
use mathlib.Core.List.{reverse}
use ban_db.Prelude.Int.{ℤ, pos, negsuc, ◌+ℤ◌, ◌-ℤ◌, ltb_ℤ, leb_ℤ, eq_ℤ}
use ban_db.Bytes.{Bytes}

-- State
pub data Role : Type 0 where
  follower candidate leader : Role

abbrev pub is_leader : Role → Bool
is_leader Role.leader = true
is_leader _ = false

abbrev pub is_candidate : Role → Bool
is_candidate Role.candidate = true
is_candidate _ = false

pub record LogEntry : Type 0 where
  pub index : ℤ
  pub term : ℤ
  pub command : Bytes
  pub is_snapshot : Bool

abbrev pub blank : LogEntry
blank = record { index = pos 0; term = pos 0; command = []; is_snapshot = false }

-- What a restart finds: raft_state.dat, raft_log.dat, and the newest snapshot with its index and term.
pub record Disk : Type 0 where
  pub term : ℤ
  pub voted_for : ℤ
  pub logs : List LogEntry
  pub snap_index : ℤ
  pub snap_term : ℤ

pub record Raft : Type 0 where
  pub peers : ℕ
  pub me : ℕ
  pub state : Role
  pub voted_for : ℤ
  pub term : ℤ
  pub commit_index : ℤ
  pub last_applied : ℤ
  pub last_snapshot_index : ℤ
  pub next_index : List ℤ
  pub match_index : List ℤ
  pub log : List LogEntry
  pub apply_ch : List LogEntry
  pub last_included_index : ℤ
  pub last_included_term : ℤ
  pub disk : Disk

-- NewRaftWithDataDir with readPersist. The snapshot that it sends to the state machine is not in it.
unfoldable pub new_raft : ℕ → ℕ → Disk → Raft
new_raft peers me d =
    let start = if ltb_ℤ (pos 0) d.snap_index then d.snap_index else negsuc 0 in
    record {
      peers = peers;
      me = me;
      state = Role.follower;
      voted_for = d.voted_for;
      term = d.term;
      commit_index = start;
      last_applied = start;
      last_snapshot_index = if ltb_ℤ (pos 0) d.snap_index then d.snap_index else pos 0;
      next_index = replicate peers (pos 0);
      match_index = replicate peers (pos 0);
      log = d.logs;
      apply_ch = [];
      last_included_index = d.snap_index;
      last_included_term = d.snap_term;
      disk = d;
    }

-- persistStateLocked
unfoldable pub persist_state : Raft → Raft
persist_state r = record r { disk = record r.disk { term = r.term; voted_for = r.voted_for } }

-- The node learns of a newer term: `r.Term = …; r.state = Follower; r.votedFor = -1`.
unfoldable pub step_down : Raft → ℤ → Raft
step_down r t = record r { term = t; state = Role.follower; voted_for = negsuc 0 }

unfoldable pub last_of : LogEntry → List LogEntry → LogEntry
last_of e [] = e
last_of e (f ∷ es) = last_of f es

unfoldable pub get_last_log_index : Raft → ℤ
unfolding last_of
get_last_log_index r = elim r.log [
  | e ∷ es ↦ (last_of e es).index
  | [] ↦ if ltb_ℤ (pos 0) r.last_included_index then r.last_included_index else negsuc 0
]

-- The term that a candidate sends with it.
unfoldable pub last_log_term : Raft → ℤ
unfolding last_of
last_log_term r = elim r.log [
  | e ∷ es ↦ (last_of e es).term
  | [] ↦ if ltb_ℤ (pos 0) r.last_included_index then r.last_included_term else pos 0
]

-- The position in the array of an absolute index; negative ones are none.
abbrev pub relative_index : ℤ → ℤ → ℤ
relative_index abs last_included = abs -ℤ last_included -ℤ pos 1

abbrev pub log_at : List LogEntry → ℤ → Option LogEntry
log_at log (negsuc n) = none
log_at log (pos n) = if ltb n (length log) then some (get_or log n blank) else none

unfoldable pub get_term_at : Raft → ℤ → ℤ
get_term_at r abs =
    if ltb_ℤ abs (pos 0)
    then pos 0
    else if eq_ℤ abs r.last_included_index && ltb_ℤ (pos 0) r.last_included_index
    then r.last_included_term
    else elim (log_at r.log (relative_index abs r.last_included_index)) [
      | some e ↦ e.term
      | none ↦ pos 0
    ]

-- The loop of applyCommittedLogs: what it sends, and the new lastApplied. The fuel is the number of
-- rounds, commitIndex - lastApplied.
unfoldable pub apply_loop : ℕ → ℤ → ℤ → List LogEntry → ℤ → List LogEntry → ℤ × List LogEntry
apply_loop zero last_applied commit log last_included sent = (last_applied, sent)
apply_loop (suc fuel) last_applied commit log last_included sent =
    let next = last_applied +ℤ pos 1 in
    let sent₁ : List LogEntry = elim (log_at log (relative_index next last_included)) [
      | some e ↦ sent ++ (e ∷ [])
      | none ↦ sent
    ] in
    let rest = apply_loop fuel next commit log last_included sent₁ in
    if ltb_ℤ last_applied commit then rest else (last_applied, sent)

abbrev pub distance : ℤ → ℤ → ℕ
distance a b = elim (b -ℤ a) [ pos n ↦ n | negsuc n ↦ 0 ]

-- Raft/rpc.go has it as it is; the one of Raft/raft.go then calls checkSnapshotTrigger, which changes
-- nothing by itself: the TakeSnapshot that it may start is a step of its own (Raft/Snapshot).
unfoldable pub apply_committed_logs : Raft → Raft
unfolding apply_loop
apply_committed_logs r =
    let (applied, sent) =
      apply_loop (distance r.last_applied r.commit_index) r.last_applied r.commit_index r.log
        r.last_included_index r.apply_ch in
    record r { last_applied = applied; apply_ch = sent }

-- startElection, up to the first Unlock; the votes are counted later.
unfoldable pub start_election : Raft → Raft
unfolding persist_state
start_election r =
    if is_leader r.state
    then r
    else persist_state
        (record r { state = Role.candidate; term = r.term +ℤ pos 1; voted_for = pos r.me })

-- The case of startElection where the time is over.
unfoldable pub election_timeout : Raft → Raft
election_timeout r =
    if is_candidate r.state then record r { state = Role.follower; voted_for = negsuc 0 } else r

unfoldable pub become_leader : Raft → Raft
become_leader r =
    let next : ℤ = elim r.log [
      | e ∷ es ↦ (last_of e es).index +ℤ pos 1
      | [] ↦ if ltb_ℤ (pos 0) r.last_included_index then r.last_included_index +ℤ pos 1 else pos 0
    ] in
    record r {
      state = Role.leader;
      next_index = replicate r.peers next;
      match_index = replicate r.peers r.last_included_index;
    }

-- A majority of the votes was counted.
unfoldable pub votes_won : Raft → Raft
unfolding become_leader
votes_won r = if is_candidate r.state then become_leader r else r

-- A reply with a newer term; it is not written to disk.
unfoldable pub reply_term : Raft → ℤ → Raft
unfolding step_down
reply_term r t = if ltb_ℤ r.term t then step_down r t else r

-- How many peers, the node itself included, have the entry `n`.
unfoldable pub count_match : ℕ → ℕ → List ℤ → ℤ → ℕ
count_match i me [] n = 1
count_match i me (m ∷ ms) n =
    let rest = count_match (i + 1) me ms n in if not (i == me) && leb_ℤ n m then suc rest else rest

-- The loop of updateCommitIndex, from the last entry back: the new commitIndex, if there is one.
unfoldable pub find_commit : Raft → List LogEntry → Option ℤ
unfolding count_match
find_commit r [] = none
find_commit r (e ∷ es) =
    let rest = find_commit r es in
    if leb_ℤ e.index r.commit_index
    then rest
    else if not (eq_ℤ e.term r.term)
    then rest
    else if ltb (r.peers / 2) (count_match 0 r.me r.match_index e.index)
    then some e.index
    else rest

unfoldable pub update_commit_index : Raft → Raft
unfolding find_commit apply_committed_logs
update_commit_index r =
    if is_leader r.state
    then elim (find_commit r (reverse r.log)) [
      | none ↦ r
      | some n ↦ apply_committed_logs (record r { commit_index = n })
    ]
    else r

-- The reply of a peer to an AppendEntries, in the goroutines of replicateLog and SendHeartBeat.
unfoldable pub append_reply : Raft → ℕ → ℤ → Bool → Raft
unfolding step_down get_last_log_index update_commit_index
append_reply r peer t success =
    let last = get_last_log_index r in
    if ltb_ℤ r.term t
    then step_down r t
    else if success
    then update_commit_index (record r {
      next_index = set r.next_index peer (last +ℤ pos 1);
      match_index = set r.match_index peer last;
    })
    else record r { next_index = set r.next_index peer (get_or r.next_index peer (pos 0) -ℤ pos 1) }

-- AppendEntry, but for the messages of replicateLog. `none` is the error "not leader".
unfoldable pub append_entry : Raft → Bytes → Raft × Option ℤ
unfolding get_last_log_index apply_committed_logs
append_entry r command =
    let index = get_last_log_index r +ℤ pos 1 in
    let entry : LogEntry = record {
      index = index;
      term = r.term;
      command = command;
      is_snapshot = false;
    } in
    let r₁ = record r {
      log = r.log ++ (entry ∷ []);
      disk = record r.disk { logs = r.disk.logs ++ (entry ∷ []) };
    } in
    if is_leader r.state
    then (
      if r.peers == 1 then apply_committed_logs (record r₁ { commit_index = index }) else r₁,
      some index,
    )
    else (r, none)
