-- ===== src/Service/RouterTests.antt =====
-- A PUT and a DEL that are answered and read back, and a SCAN with a predicate.
use ban_db.Prelude.{
  ◌*◌, ◌==◌, [], ◌∷◌, take, length, Bool, none, some, if◌then◌else◌, ◌≡◌, ◌&&◌, arith,
}
use ban_db.Prelude.{List, Option, true, refl}
use ban_db.Service.{Command}
use ban_db.Service.Router.{handle_write}
use ban_db.Service.Ingest.{
  parse_device, redact, Object, Filter, new_filter, redacted_value, filter_handle,
}
use ban_db.Service.Ingest.Rising.{Frame, IsRising, passed, passed-IsRising}
use ban_db.Service.Dispatch.{is_registered, do_msg_handle}
use ban_db.Service.Dispatch.Redacted.{do_msg_handle-put}
use ban_db.Prelude.Int.{pos}
use ban_db.Bytes.{Bytes}
use ban_db.Bytes.Order.{same, cmp}
use ban_db.Storage.Format.{Format}
use ban_db.Storage.SsTable.Filter.{ss_table_format}
use ban_db.Storage.SkipList.{new_skip_list, insert}
use ban_db.Storage.MemTable.{MemTable, new_mem_table, get}
use ban_db.Storage.MemTable.Scan.{scan_range}
use ban_db.Storage.MemTable.Scan.Listing.{collect}
use ban_db.Storage.MemTable.Valid.{IsValid-new}
use ban_db.Wire.Put.{new_kv_data}
use ban_db.Wire.Scan.{Predicate}
use ban_db.Service.Router.{
  max_scan_results, KvServer, kv_scan, get_reply, msg_put, msg_get, msg_delete, handle,
}
use ban_db.Service.Router.ReadBack.{key_frame, is_sent, handle-read_back}
use ban_db.Service.Router.Scanned.{matching, kv_scan-take}

abbrev format : Format
format = ss_table_format (λ n. 10 * n) (λ n m. 7) (λ bloom data' idx. [])

-- Lets a value of one byte through.
abbrev short : Predicate → Bytes → Bool
short pred value = length value == 1

abbrev key : Bytes
key = 97 ∷ []

abbrev server : KvServer format 100 short
server = ([], new_mem_table (pos 50))

handle-read_back_example :
    (let (after, answer) = handle format 100 short msg_put (new_kv_data key (5 ∷ [])) 2 server in
      (handle format 100 short msg_get (key_frame key) 1 after).1
      ≡ get_reply
          (if is_sent answer && same key key then some (5 ∷ []) else get format server.1 key))
    × (let (after, answer) = handle format 100 short msg_delete (key_frame key) 2 server in
        (handle format 100 short msg_get (key_frame key) 1 after).1
        ≡ get_reply (if is_sent answer && same key key then none else get format server.1 key))
unfolding ss_table_format new_mem_table
handle-read_back_example =
    handle-read_back format 100 short key (5 ∷ []) key 2 1 server (omega arith) (omega arith)
      (omega arith) (omega arith) (omega arith, omega arith) (omega arith)
      (IsValid-new format (pos 50))

-- The active list has two keys, the dirty one a third with a longer value.
abbrev three_keys : MemTable (Format.File format)
three_keys = record (new_mem_table (pos 0)) {
  active = (insert (insert new_skip_list 3 (97 ∷ []) (some (5 ∷ []))).0 1 (98 ∷ []) none).0;
  dirty =
      some
        (insert (insert new_skip_list 2 (99 ∷ []) (some (6 ∷ (7 ∷ [])))).0 1 (100 ∷ [])
          (some (8 ∷ []))).0;
}

abbrev any_field : Predicate
any_field = record { field = []; op = 0; operand = [] }

kv_scan-take_example :
    kv_scan format 100 short three_keys (97 ∷ []) [] any_field
    ≡ take max_scan_results
        (matching short any_field (scan_range collect three_keys (97 ∷ []) [] []))
unfolding ss_table_format
kv_scan-take_example = kv_scan-take format 100 short any_field [] three_keys (97 ∷ [])

-- Objects are a field and its value; the only JSON is the text `x`, whose field is `k`.
abbrev unmarshal : Bytes → Option Object
unmarshal text = if same text (120 ∷ []) then some ((107 ∷ [], 49 ∷ []) ∷ []) else none

abbrev marshal : Object → Option Bytes
marshal [] = none
marshal ((name, text) ∷ m) = some text

abbrev imu : Bytes
imu = 100 ∷ (58 ∷ (53 ∷ []))

-- It has seen the time 4 of the device `d`.
abbrev seen : Filter
seen = record (new_filter ((107 ∷ []) ∷ []) (pos 8) true) {
  last_ts = λ d. if same d (100 ∷ []) then some (pos 4) else none;
}

do_msg_handle-put_example :
    (let (after, answer) =
        do_msg_handle
          (some (filter_handle unmarshal marshal))
          format
          100
          short
          (msg_get ∷ (msg_put ∷ []))
          msg_put
          (new_kv_data imu (120 ∷ []))
          1
          (seen, server) in
      (after.1, answer))
    ≡ handle_write format 100 short (Command.put_command imu (some redacted_value)) 1 server
unfolding ss_table_format new_mem_table new_filter is_registered same cmp redact handle_write
    parse_device
do_msg_handle-put_example =
    do_msg_handle-put unmarshal marshal format 100 short (msg_get ∷ (msg_put ∷ [])) imu (120 ∷ []) 1
      seen server refl (omega arith) (omega arith) (omega arith)

-- A later time, the same once more, and one of another device.
abbrev frames : List Frame
frames =
    (msg_put, new_kv_data imu [])
    ∷ ((msg_put, new_kv_data imu [])
        ∷ ((msg_get, []) ∷ ((msg_put, new_kv_data (101 ∷ (58 ∷ (49 ∷ []))) []) ∷ [])))

passed-IsRising_example : IsRising (some (pos 4)) (passed unmarshal marshal (100 ∷ []) frames seen)
unfolding new_filter same cmp
passed-IsRising_example = passed-IsRising unmarshal marshal (100 ∷ []) frames seen refl
