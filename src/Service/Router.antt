-- ===== src/Service/Router.antt =====
-- service/router.go over the standalone server of service/fsm.go: what a request does to the server and
-- what is sent back. The handlers run one at a time here; `waiting` is a write that waits for credit,
-- with its answer still to come. The write to the log succeeds.
pub mod ReadBack
pub mod Scanned
use ban_db.Prelude.{
  ℕ, ◌+◌, ◌%◌, leb, List, [], ◌∷◌, ◌++◌, length, Bool, true, false, not, Option, none, some,
  if◌then◌else◌,
}
use ban_db.Bytes.{Bytes}
use ban_db.Bytes.Order.{same}
use ban_db.Bytes.Fixed.{put_u32_le}
use ban_db.Storage.Format.{Format}
use ban_db.Storage.MemTable.{MemTable, get}
use ban_db.Storage.MemTable.Scan.{scan_range}
use ban_db.Wire.Put.{parse_put, parse_key}
use ban_db.Wire.Scan.{Predicate, ScanEntry, decode_scan_request, encode_scan_response}
use ban_db.Service.{Command, write_standalone}

abbrev pub msg_put : Bytes
msg_put = b'P' ∷ (b'U' ∷ (b'T' ∷ []))

abbrev pub msg_get : Bytes
msg_get = b'G' ∷ (b'E' ∷ (b'T' ∷ []))

abbrev pub msg_delete : Bytes
msg_delete = b'D' ∷ (b'E' ∷ (b'L' ∷ []))

abbrev pub msg_scan : Bytes
msg_scan = b'S' ∷ (b'C' ∷ (b'A' ∷ (b'N' ∷ [])))

abbrev pub msg_resp_ok : Bytes
msg_resp_ok = b'O' ∷ (b'K' ∷ [])

abbrev pub msg_resp_err : Bytes
msg_resp_err = b'E' ∷ (b'R' ∷ (b'R' ∷ []))

abbrev pub status_ok : Bytes
status_ok = b'o' ∷ (b'k' ∷ [])

abbrev pub status_error : Bytes
status_error = b'e' ∷ (b'r' ∷ (b'r' ∷ (b'o' ∷ (b'r' ∷ []))))

-- What goes back to the client: nothing, nothing yet, or one message.
pub data Answer : Type 0 where
  silent : Answer
  waiting : Answer
  send : Bytes → Bytes → Answer

unfoldable pub status_payload : Bytes → Bytes
status_payload status = (length status % 256) ∷ status

unfoldable pub send_err : Answer
unfolding status_payload
send_err = send msg_resp_err (status_payload status_error)

unfoldable pub send_ok : Answer
unfolding status_payload
send_ok = send msg_resp_ok (status_payload status_ok)

-- The answer of handleGet: [statusLen u8][status][valueLen u32 LE][value].
unfoldable pub get_reply : Option Bytes → Answer
unfolding status_payload send_err
get_reply none = send_err
get_reply (some value) =
    send msg_resp_ok (status_payload status_ok ++ (put_u32_le (length value) ++ value))

abbrev pub max_scan_results : ℕ
max_scan_results = 10000

-- `eval` is Predicate.Eval, which reads the value as JSON.
module _ (fmt : Format) (max_size : ℕ) (eval : Predicate → Bytes → Bool) where
  open fmt use {File}

  -- The log's file and the table.
  abbrev pub KvServer : Type 0
  KvServer = Bytes × MemTable File

  unfoldable pub handle_write : Command → ℕ → KvServer → KvServer × Answer
  handle_write cmd height s =
      let (s', done) = write_standalone fmt max_size cmd height s in
      (s', if done then send_ok else waiting)

  -- `height` is what randomLevel() returns.
  unfoldable pub handle_put : Bytes → ℕ → KvServer → KvServer × Answer
  unfolding handle_write
  handle_put payload height s = elim (parse_put payload) [
    | none ↦ (s, silent)
    | some (key, value) ↦ handle_write (Command.put_command key (some value)) height s
  ]

  unfoldable pub handle_get : Bytes → KvServer → KvServer × Answer
  handle_get payload s = elim (parse_key payload) [
    | none ↦ (s, silent)
    | some key ↦ (s, get_reply (get fmt s.1 key))
  ]

  unfoldable pub handle_delete : Bytes → ℕ → KvServer → KvServer × Answer
  unfolding handle_write
  handle_delete payload height s = elim (parse_key payload) [
    | none ↦ (s, silent)
    | some key ↦ handle_write (Command.delete_command key) height s
  ]

  -- The callback of KVServer.Scan: false stops the scan at the limit.
  unfoldable pub keep_match : Predicate → Bytes → Bytes → List ScanEntry → List ScanEntry × Bool
  keep_match pred key value out =
      let out' = out ++ (record { key = key; value = value } ∷ []) in
      if eval pred value then (out', not (leb max_scan_results (length out'))) else (out, true)

  unfoldable pub kv_scan : MemTable File → Bytes → Bytes → Predicate → List ScanEntry
  unfolding keep_match
  kv_scan m start end pred = scan_range (keep_match pred) m start end []

  unfoldable pub handle_scan : Bytes → KvServer → KvServer × Answer
  unfolding kv_scan
  handle_scan payload s = elim (decode_scan_request payload) [
    | none ↦ (s, send_err)
    | some r ↦
        (s, send msg_resp_ok (encode_scan_response status_ok (kv_scan s.1 r.start r.end r.pred)))
  ]

  unfoldable pub handle : Bytes → Bytes → ℕ → KvServer → KvServer × Answer
  unfolding handle_put handle_get handle_delete handle_scan
  handle msg_id payload height s =
      if same msg_id msg_put
      then handle_put payload height s
      else if same msg_id msg_get
      then handle_get payload s
      else if same msg_id msg_delete
      then handle_delete payload height s
      else if same msg_id msg_scan
      then handle_scan payload s
      else (s, silent)
