-- ===== src/Raft/Tests.antt =====
-- Nodes of a cluster of three, and a cluster of one.
use ban_db.Prelude.{
  ℕ, List, [], ◌∷◌, ◌++◌, take, drop, get_elem?, ◌≡◌, refl, arith, true, false, some,
}
use ban_db.Prelude.Int.{pos, negsuc, ◌+ℤ◌, ◌-ℤ◌}
use ban_db.Raft.{
  become_leader, Role, LogEntry, Disk, Raft, new_raft, append_entry, apply_committed_logs,
}
use ban_db.Raft.Rpc.{RequestVoteArgs, AppendEntriesArgs, see_term, prev_matches, append_entries}
use ban_db.Raft.Log.{overlay, append_entries-overlay, append_entries-terms}
use ban_db.Raft.Log.Apply.{apply_committed_logs-slice, append_entry-lag}
use ban_db.Raft.Election.{finish_election, finish_election-doubled}
use ban_db.Raft.Wal.{
  write_entry, append_logs, load_logs, save_state, load_state, serialize_log_entries,
  deserialize_log_entries,
}
use ban_db.Raft.Wal.RoundTrip.{
  plain, length-write_entry, load_logs-append_logs, load_state-save_state,
  deserialize-serialize_log_entries,
}
use ban_db.Prelude.{map}
use ban_db.Raft.{get_term_at}
use ban_db.Raft.Snapshot.{take_snapshot}
use ban_db.Raft.Snapshot.First.{take_snapshot-first}
use ban_db.Raft.Promise.{Agree}
use ban_db.Raft.Promise.History.{Event, run, run-Agree}

abbrev entry : ℕ → ℕ → LogEntry
entry i t = record { index = pos i; term = pos t; command = i ∷ []; is_snapshot = false }

abbrev no_disk : Disk
no_disk = record {
  term = pos 0;
  voted_for = negsuc 0;
  logs = [];
  snap_index = pos 0;
  snap_term = pos 0;
}

abbrev vote_for : ℕ → ℕ → RequestVoteArgs
vote_for t c = record {
  term = pos t;
  candidate_id = pos c;
  last_log_index = negsuc 0;
  last_log_term = pos 0;
}

-- A vote in term 4, a crash, another candidate of term 4, and a leadership in term 5.
abbrev story : List Event
story =
    Event.vote (vote_for 4 1)
    ∷ (Event.crash ∷ (Event.vote (vote_for 4 2) ∷ (Event.election ∷ (Event.won ∷ []))))

run-Agree_example : Agree (run story (new_raft 3 0 no_disk, [])).1
run-Agree_example =
    run-Agree 3 0 no_disk story ((λ e. cc e, λ e. cc e), ((λ e. cc e, λ e. cc e), tt))

-- A follower behind a snapshot at 10, with two entries of its own.
abbrev behind : Raft
behind = record (new_raft 3 0 no_disk) {
  term = pos 2;
  log = entry 11 1 ∷ (entry 12 1 ∷ []);
  last_included_index = pos 10;
  last_included_term = pos 1;
  last_applied = pos 10;
  commit_index = pos 12;
}

abbrev from_leader : AppendEntriesArgs
from_leader = record {
  term = pos 2;
  leader_id = pos 1;
  prev_log_index = pos 11;
  prev_log_term = pos 1;
  entries = entry 12 2 ∷ (entry 13 2 ∷ []);
  leader_commit = pos 10;
}

append_entries-overlay_example :
    ((append_entries behind from_leader).0.log
      ≡ take 1 behind.log ++ overlay (drop 1 behind.log) from_leader.entries)
    × ((append_entries behind from_leader).1
        ≡ some (record { term = (see_term behind (pos 2)).term; success = true }))
unfolding see_term prev_matches ◌+ℤ◌ ◌-ℤ◌
append_entries-overlay_example =
    append_entries-overlay behind from_leader 1 refl refl (refl, (refl, tt)) refl (omega arith)

append_entries-terms_example :
    (f : LogEntry) × (get_elem? (append_entries behind from_leader).0.log 1 ≡ some f)
    × (f.index ≡ pos 12)
    × (f.term ≡ pos 2)
unfolding see_term prev_matches ◌+ℤ◌ ◌-ℤ◌
append_entries-terms_example =
    append_entries-terms behind from_leader 1 0 (entry 12 2) (refl, (refl, tt)) refl refl
      (refl, (refl, tt)) refl (omega arith) refl

apply_committed_logs-slice_example : apply_committed_logs behind ≡ record behind {
  last_applied = pos 12;
  apply_ch = behind.apply_ch ++ take 2 (drop 0 behind.log);
}
unfolding ◌+ℤ◌
apply_committed_logs-slice_example = apply_committed_logs-slice behind 0 2 refl refl

-- A leader of its own with one command.
abbrev alone : Raft
alone = record (new_raft 1 0 no_disk) {
  state = Role.leader;
  log = entry 0 1 ∷ [];
  last_applied = pos 0;
  commit_index = pos 0;
}

append_entry-lag_example :
    ((append_entry alone (9 ∷ [])).0.commit_index ≡ pos 1)
    × ((append_entry alone (9 ∷ [])).0.last_applied ≡ pos 1)
    × ((append_entry alone (9 ∷ [])).0.apply_ch ≡ alone.apply_ch ++ (entry 0 1 ∷ []))
unfolding new_raft
append_entry-lag_example =
    append_entry-lag alone [] (entry 0 1) (9 ∷ []) refl refl refl refl refl refl

-- Two of three nodes refuse, and still the vote is won.
abbrev running : Raft
running = record (new_raft 3 0 no_disk) { state = Role.candidate; term = pos 1; voted_for = pos 0 }

finish_election-doubled_example :
    finish_election true (false ∷ (false ∷ [])) running ≡ become_leader running
unfolding new_raft
finish_election-doubled_example =
    finish_election-doubled true (false ∷ (false ∷ [])) running (omega arith)

load_logs-append_logs_example :
    load_logs (some (append_logs [] (entry 1 1 ∷ []) ++ take 9 (write_entry (entry 2 1))))
    ≡ map plain (entry 1 1 ∷ [])
load_logs-append_logs_example =
    load_logs-append_logs (entry 1 1 ∷ []) (entry 2 1) 9
      (((omega arith), (omega arith), (omega arith)), tt)
      ((omega arith), (omega arith), (omega arith)) (omega (arith, length-write_entry (entry 2 1)))

load_state-save_state_example :
    load_state (some (save_state (pos 7) (negsuc 0))) ≡ some (pos 7, negsuc 0)
load_state-save_state_example = load_state-save_state (pos 7) (negsuc 0) (omega arith) (omega arith)

deserialize-serialize_log_entries_example :
    deserialize_log_entries (serialize_log_entries (entry 1 1 ∷ [])) ≡ map plain (entry 1 1 ∷ [])
deserialize-serialize_log_entries_example =
    deserialize-serialize_log_entries (entry 1 1 ∷ [])
      (((omega arith), (omega arith), (omega arith)), tt) (omega arith)

-- A leader with three entries, two of them committed.
abbrev unsnapped : Raft
unsnapped =
    record (new_raft 1 0 (record no_disk { logs = entry 0 1 ∷ (entry 1 1 ∷ (entry 2 2 ∷ [])) })) {
      term = pos 2;
      commit_index = pos 1;
    }

take_snapshot-first_example :
    (let (after, ok) = take_snapshot true unsnapped (pos 1) in
      (ok ≡ true)
      × (after.log ≡ entry 2 2 ∷ [])
      × (after.disk.logs ≡ entry 2 2 ∷ [])
      × (after.apply_ch
          ≡ record {
            index = pos 1;
            term = pos 1;
            command = serialize_log_entries (entry 0 1 ∷ (entry 1 1 ∷ []));
            is_snapshot = true;
          }
            ∷ [])
      × (get_term_at after (pos 2) ≡ pos 2)
      × (get_term_at (new_raft 1 0 after.disk) (pos 2) ≡ pos 2))
unfolding new_raft
take_snapshot-first_example =
    take_snapshot-first true unsnapped 1 2 refl refl (refl, (refl, (refl, tt))) refl (omega arith)
      (omega arith) (omega arith) (omega arith) (omega arith)
