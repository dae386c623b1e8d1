-- ===== src/Raft/Snapshot.antt =====
-- TakeSnapshot and checkSnapshotTrigger of Raft/raft.go. The files are written without an error; the
-- snapshot's data is in the message to the state machine, while the disk keeps its index and term.
pub mod First
use ban_db.Prelude.{
  ◌+◌, ltb, List, [], ◌∷◌, ◌++◌, length, take, Bool, true, false, ◌&&◌, Option, none, some,
  if◌then◌else◌,
}
use ban_db.Prelude.Int.{ℤ, pos, negsuc, ◌+ℤ◌, ◌-ℤ◌, ltb_ℤ, leb_ℤ, eq_ℤ}
use ban_db.Raft.{is_leader, LogEntry, Raft, last_of, persist_state}
use ban_db.Raft.Rpc.{log_after, truncate_logs}
use ban_db.Raft.Wal.{serialize_log_entries}

-- The index at which a snapshot is to be taken, if any: `threshold` and `keep` are the two settings.
unfoldable pub check_snapshot_trigger : ℤ → ℤ → Raft → Option ℤ
check_snapshot_trigger threshold keep r =
    let limit = if leb_ℤ threshold (pos 0) then pos 10000 else threshold in
    let kept = if leb_ℤ keep (pos 0) then pos 100 else keep in
    let index = r.commit_index -ℤ kept in
    if is_leader r.state && ltb_ℤ limit (pos (length r.log)) && ltb_ℤ r.last_snapshot_index index
    then some index
    else none

-- The loop that collects the entries: `relativeEnd` is index + 1 - LastIncludedIndex.
unfoldable pub snapshot_entries : Raft → ℤ → List LogEntry
snapshot_entries r index = elim (index +ℤ pos 1 -ℤ r.last_included_index) [
  | negsuc n ↦ []
  | pos n ↦ take n r.log
]

unfoldable pub snapshot_term : Raft → ℤ → List LogEntry → ℤ
unfolding last_of
snapshot_term r index [] = if eq_ℤ index r.last_included_index then r.last_included_term else pos 0
snapshot_term r index (e ∷ es) = (last_of e es).term

-- false: an error, for an index that has a snapshot or is not committed. `room` says whether ApplyCh
-- has room.
unfoldable pub take_snapshot : Bool → Raft → ℤ → Raft × Bool
unfolding snapshot_entries snapshot_term log_after truncate_logs persist_state
take_snapshot room r index =
    let entries = snapshot_entries r index in
    let term = snapshot_term r index entries in
    let entry : LogEntry = record {
      index = index;
      term = term;
      command = serialize_log_entries entries;
      is_snapshot = true;
    } in
    if leb_ℤ index r.last_snapshot_index
    then (r, false)
    else if ltb_ℤ r.commit_index index
    then (r, false)
    else (
      persist_state (record r {
        log = log_after r.log index r.last_included_index;
        last_snapshot_index = index;
        last_included_index = index;
        last_included_term = term;
        apply_ch = if room then r.apply_ch ++ (entry ∷ []) else r.apply_ch;
        disk = record r.disk {
          logs = truncate_logs index r.disk.logs;
          snap_index = index;
          snap_term = term;
        };
      }),
      true,
    )
