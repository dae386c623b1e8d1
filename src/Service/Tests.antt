-- ===== src/Service/Tests.antt =====
-- A server that serves three commands, crashes in the middle of a write, and starts again.
use ban_db.Prelude.{◌*◌}
use ban_db.Prelude.{List, [], ◌∷◌, ◌++◌, take, ◌≡◌, arith, true, some}
use ban_db.Prelude.Int.{pos}
use ban_db.Bytes.Fixed.{put_u32_be}
use ban_db.Storage.Format.{Format}
use ban_db.Storage.Wal.{Record, encode_record}
use ban_db.Storage.SsTable.Filter.{ss_table_format}
use ban_db.Storage.MemTable.{new_mem_table, get}
use ban_db.Storage.MemTable.Valid.{IsValid-new}
use ban_db.Service.{Command, replay_wal}
use ban_db.Storage.Wal.Recovery.{append_all}
use ban_db.Service.Restart.{records_of, after, restored, serve, replay_wal-serve}

abbrev format : Format
format = ss_table_format (λ n. 10 * n) (λ n m. 7) (λ bloom data' idx. [])

abbrev commands : List Command
commands =
    Command.put_command (97 ∷ []) (some (5 ∷ []))
    ∷ (Command.put_command (98 ∷ []) (some []) ∷ (Command.delete_command (99 ∷ []) ∷ []))

abbrev torn : Record
torn = record { op = 1; key = 97 ∷ []; value = some (6 ∷ []) }

-- A life before that one.
abbrev earlier : List Command
earlier = Command.put_command (99 ∷ []) (some (8 ∷ [])) ∷ []

replay_wal-serve_example :
    let file = append_all [] (records_of earlier) in
    let log =
      (serve format 100 commands [] (file, new_mem_table (pos 0))).0
      ++ take 6 (encode_record torn) in
    let restarted = replay_wal format 100 (some log) ([], new_mem_table (pos 0)) in
    (get format (serve format 100 commands [] (file, new_mem_table (pos 0))).1 (97 ∷ [])
      ≡ after (λ v. v) commands (get format (new_mem_table (pos 0))) (97 ∷ []))
    × (restarted.1 ≡ true)
    × (get format restarted.0.1 (97 ∷ [])
        ≡ after restored (earlier ++ commands) (get format (new_mem_table (pos 0))) (97 ∷ []))
unfolding ss_table_format new_mem_table encode_record put_u32_be
replay_wal-serve_example =
    replay_wal-serve format 100 earlier commands torn 6 [] [] (new_mem_table (pos 0))
      (new_mem_table (pos 0)) (97 ∷ []) (((omega arith, omega arith), omega arith), tt)
      (
        ((omega arith, omega arith), omega arith),
        (((omega arith, omega arith), omega arith), (omega arith, tt)),
      )
      ((omega arith, omega arith), tt)
      ((omega arith, omega arith), ((omega arith, omega arith), ((omega arith, omega arith), tt)))
      (omega arith, omega arith) (omega arith) tt tt (IsValid-new format (pos 0), omega arith)
      (IsValid-new format (pos 0), omega arith)
