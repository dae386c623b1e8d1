-- ===== src/Service.antt =====
-- service/fsm.go, the standalone mode: writeStandalone appends a command to the write-ahead log and then
-- writes it to the memory table, and replayWAL does so for every record of the log at the start.
pub mod Restart
pub mod Dispatch
pub mod Ingest
pub mod Router
mod RouterTests
mod Tests
use ban_db.Prelude.{ℕ, ◌==◌, List, [], ◌∷◌, Bool, true, false, Option, none, some, if◌then◌else◌}
use ban_db.Bytes.{Bytes}
use ban_db.Storage.Format.{Format}
use ban_db.Storage.MemTable.{MemTable, put, delete}
use ban_db.Storage.Wal.{Record, wal_op_put, wal_op_delete, append, replay}

-- Command; any other Type does nothing.
pub data Command : Type 0 where
  put_command : Bytes → Option Bytes → Command
  delete_command : Bytes → Command
  other_command : Command

-- The levels that randomLevel() will give to new nodes.
abbrev pub draw : List ℕ → ℕ × List ℕ
draw [] = (1, [])
draw (h ∷ hs) = (h, hs)

module _ (fmt : Format) (max_size : ℕ) where
  open fmt use {File}

  -- The file of the log, and the table. false: the write waits for credit, with its record in the log.
  unfoldable pub write_standalone :
      Command → ℕ → Bytes × MemTable File → (Bytes × MemTable File) × Bool
  write_standalone (put_command key value) height (file, m) =
      let r : Record = record { op = wal_op_put; key = key; value = value } in
      let (m', done) = put fmt max_size m height key value in ((append file r, m'), done)
  write_standalone (delete_command key) height (file, m) =
      let r : Record = record { op = wal_op_delete; key = key; value = none } in
      let (m', done) = delete fmt max_size m height key in ((append file r, m'), done)
  write_standalone other_command height (file, m) = ((file, m), true)

  -- The callback of replayWAL. false: it waits for credit.
  unfoldable pub apply_record : Record → List ℕ × MemTable File → (List ℕ × MemTable File) × Bool
  apply_record r (hs, m) =
      let (h, hs') = draw hs in
      let (p, put_done) = put fmt max_size m h r.key r.value in
      let (d, delete_done) = delete fmt max_size m h r.key in
      if r.op == wal_op_put
      then ((hs', p), put_done)
      else if r.op == wal_op_delete
      then ((hs', d), delete_done)
      else ((hs, m), true)

  unfoldable pub replay_wal :
      Option Bytes → List ℕ × MemTable File → (List ℕ × MemTable File) × Bool
  replay_wal file s = replay apply_record file s
