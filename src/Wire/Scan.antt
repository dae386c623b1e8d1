-- ===== src/Wire/Scan.antt =====
-- pkg/proto/scan.go: the SCAN request [startLen u32][endLen u32][fieldLen u32][op u8][start][end]
-- [field][operand] and the response [statusLen u8][status][count u32] with
-- [keyLen u32][valueLen u32][key][value] for each entry, all little endian. `Predicate` is the
-- record of pkg/predicate/predicate.go.
pub mod RoundTrip
use mathlib.Core.List.{append_assoc, append-nil}
use mathlib.Core.Path.{subst}
use ban_db.Prelude.{
  ℕ, zero, suc, ◌+◌, ◌^◌, ◌≤◌, ◌<◌, ◌%◌, List, [], ◌∷◌, ◌++◌, ◌≡◌, ◌⊎◌, refl, sym, ◌∙◌, ap, arith,
  length, length-append, ltb, Bool, true, false, Option, none, some, if◌then◌else◌, drop,
}
use ban_db.Bytes.{Bytes}
use ban_db.Bytes.Fixed.{
  slice, put_u32_le, u32_le, u32_le-field, length-put_u32_le, slice-append, slice-append_second,
  slice-append_third,
}

-- Op is a uint8
pub record Predicate : Type 0 where
  pub field : Bytes
  pub op : ℕ
  pub operand : Bytes

pub record ScanRequest : Type 0 where
  pub start : Bytes
  pub end : Bytes
  pub pred : Predicate

pub record ScanEntry : Type 0 where
  pub key : Bytes
  pub value : Bytes

abbrev pub scan_req_header_len : ℕ
scan_req_header_len = 13

unfoldable pub encode_scan_request : ScanRequest → Bytes
encode_scan_request r =
    put_u32_le (length r.start)
    ++ (put_u32_le (length r.end)
        ++ (put_u32_le (length r.pred.field)
            ++ ((r.pred.op % 256) ∷ (r.start ++ (r.end ++ (r.pred.field ++ r.pred.operand))))))

-- data[i]
unfoldable pub byte_at : Bytes → ℕ → ℕ
byte_at d i = elim (drop i d) [ [] ↦ 0 | b ∷ _ ↦ b ]

unfoldable pub scan_fields : Bytes → ℕ → ℕ → ℕ → ℕ → Option ScanRequest
scan_fields d start_len end_len field_len op =
    if ltb (length d) (scan_req_header_len + start_len + end_len + field_len)
    then none
    else (let a = scan_req_header_len in
        let b = a + start_len in
        let c = b + end_len in
        let e = c + field_len in
        some (record {
          start = slice d a b;
          end = slice d b c;
          pred = record { field = slice d c e; op = op; operand = drop e d };
        }))

-- `none` is an error. The length fields are never negative as 64-bit ints.
unfoldable pub decode_scan_request : Bytes → Option ScanRequest
decode_scan_request d =
    if ltb (length d) scan_req_header_len
    then none
    else scan_fields d (u32_le (slice d 0 4)) (u32_le (slice d 4 8)) (u32_le (slice d 8 12))
        (byte_at d 12)

encode_entry : ScanEntry → Bytes
encode_entry e = put_u32_le (length e.key) ++ (put_u32_le (length e.value) ++ (e.key ++ e.value))

encode_entries : List ScanEntry → Bytes
encode_entries [] = []
encode_entries (e ∷ es) = encode_entry e ++ encode_entries es

unfoldable pub encode_scan_response : Bytes → List ScanEntry → Bytes
unfolding encode_entry encode_entries
encode_scan_response status entries =
    (length status % 256) ∷ (status ++ (put_u32_le (length entries) ++ encode_entries entries))

-- The loop of DecodeScanResponse: `count` rounds from the offset `off`; `none` is a truncation error.
decode_entries : ℕ → Bytes → ℕ → Option (List ScanEntry)
decode_entries zero d off = some []
decode_entries (suc count) d off =
    let key_len = u32_le (slice d off (off + 4)) in
    let value_len = u32_le (slice d (off + 4) (off + 8)) in
    let body = off + 8 in
    let rest = decode_entries count d (body + key_len + value_len) in
    let entry : ScanEntry = record {
      key = slice d body (body + key_len);
      value = slice d (body + key_len) (body + key_len + value_len);
    } in
    if ltb (length d) (off + 8)
    then none
    else if ltb (length d) (body + key_len + value_len)
    then none
    else elim rest [ none ↦ none | some es ↦ some (entry ∷ es) ]

scan_results : Bytes → Option (List ScanEntry) → Option (Bytes × List ScanEntry)
scan_results status none = none
scan_results status (some es) = some (status, es)

unfoldable pub decode_scan_response : Bytes → Option (Bytes × List ScanEntry)
unfolding decode_entries scan_results
decode_scan_response d =
    if ltb (length d) 1
    then none
    else (let status_len = byte_at d 0 in
        if ltb (length d) (1 + status_len + 4)
        then none
        else (let off = 1 + status_len in
            let count = u32_le (slice d off (off + 4)) in
            scan_results (slice d 1 off) (decode_entries count d (off + 4))))
