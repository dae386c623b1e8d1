-- ===== src/Wire/Tests.antt =====
-- The wire formats at concrete messages.
use ban_db.Prelude.{List, [], ◌∷◌, ◌++◌, ◌≡◌, arith, some, inr}
use ban_db.Bytes.{Bytes}
use ban_db.Wire.Frame.{new_message, pack, read_frame, received, read_frame-pack}
use ban_db.Wire.Scan.{
  ScanRequest, ScanEntry, encode_scan_request, decode_scan_request, encode_scan_response,
  decode_scan_response,
}
use ban_db.Wire.Scan.RoundTrip.{decode-encode_scan_request, decode-encode_scan_response}

abbrev put_id : Bytes
put_id = 80 ∷ 85 ∷ 84 ∷ []

abbrev sensor : Bytes
sensor = 115 ∷ 49 ∷ []

abbrev reading : Bytes
reading = 7 ∷ 0 ∷ 255 ∷ []

read_frame-pack_example :
    (frame : Bytes) × (pack (new_message put_id reading) ≡ some frame)
    × (read_frame 4096 (frame ++ sensor) ≡ some (received put_id reading, sensor))
read_frame-pack_example =
    read_frame-pack 4096 put_id reading sensor (omega arith) (omega arith) (inr (omega arith))

abbrev request : ScanRequest
request = record {
  start = sensor;
  end = [];
  pred = record { field = 116 ∷ []; op = 3; operand = 52 ∷ [] };
}

decode-encode_scan_request_example :
    decode_scan_request (encode_scan_request request) ≡ some request
decode-encode_scan_request_example =
    decode-encode_scan_request request (omega arith) (omega arith) (omega arith) (omega arith)

abbrev two_entries : List ScanEntry
two_entries = record { key = sensor; value = reading } ∷ (record { key = put_id; value = [] } ∷ [])

decode-encode_scan_response_example :
    decode_scan_response (encode_scan_response (79 ∷ 75 ∷ []) two_entries)
    ≡ some (79 ∷ 75 ∷ [], two_entries)
decode-encode_scan_response_example =
    decode-encode_scan_response (79 ∷ 75 ∷ []) two_entries (omega arith) (omega arith)
      (omega arith, omega arith, (omega arith, omega arith, tt))
