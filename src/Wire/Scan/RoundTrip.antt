-- ===== src/Wire/Scan/RoundTrip.antt =====
-- What one side encodes the other decodes: SCAN requests and responses.
use mathlib.Core.List.{append_assoc}
use ban_db.Prelude.{
  ℕ, ◌+◌, ◌^◌, ◌<◌, ◌%◌, List, [], ◌∷◌, ◌++◌, ◌≡◌, refl, sym, ◌∙◌, ap, arith, length, length-append,
  some, drop,
}
use ban_db.Bytes.{Bytes}
use ban_db.Bytes.Fixed.{
  slice, put_u32_le, u32_le, u32_le-field, u32_le-field_second, length-put_u32_le, slice-append,
  slice-append_second, slice-append_third, slice-append_fourth, drop-append_fourth,
}
use ban_db.Wire.Scan.{
  ScanRequest, ScanEntry, encode_scan_request, decode_scan_request, scan_fields, byte_at,
  encode_entry, encode_entries, encode_scan_response, decode_entries, decode_scan_response,
}

module _ (r : ScanRequest) where
  open r use {start, end, pred}

  abbrev lens : Bytes
  lens = put_u32_le (length start) ++ (put_u32_le (length end) ++ put_u32_le (length pred.field))

  abbrev head : Bytes
  head = lens ++ ((pred.op % 256) ∷ [])

  abbrev wire : Bytes
  wire = head ++ (start ++ (end ++ (pred.field ++ pred.operand)))

  encode-wire : encode_scan_request r ≡ wire
  unfolding encode_scan_request put_u32_le
  encode-wire = refl

  length-head : length head ≡ 13
  unfolding put_u32_le
  length-head = refl

  length-wire :
      length wire ≡ 13 + length start + length end + length pred.field + length pred.operand
  length-wire = omega (
    arith,
    length-head,
    length-append head (start ++ (end ++ (pred.field ++ pred.operand))),
    length-append start (end ++ (pred.field ++ pred.operand)),
    length-append end (pred.field ++ pred.operand),
    length-append pred.field pred.operand,
  )

  fields_of_wire : scan_fields wire (length start) (length end) (length pred.field) pred.op ≡ some r
  unfolding scan_fields
  fields_of_wire =
      let s : slice wire 13 (13 + length start) ≡ start =
        slice-append head start _ 13 _ (sym length-head) refl in
      let e : slice wire (13 + length start) (13 + length start + length end) ≡ end =
        slice-append_second head start end _ _ _ (omega (arith, length-head)) refl in
      let f : slice wire (13 + length start + length end)
            (13 + length start + length end + length pred.field)
          ≡ pred.field =
        slice-append_third head start end pred.field _ _ _ (omega (arith, length-head)) refl in
      let o : drop (13 + length start + length end + length pred.field) wire ≡ pred.operand =
        drop-append_fourth head start end pred.field pred.operand _ (omega (arith, length-head)) in
      rw (s, e, f, o) (ground (arith, length-wire))

-- A SCAN request that is encoded and decoded is the same request: both bounds, the field, the
-- operator and the operand. The three length fields hold the lengths (below 2^32), and the operator
-- is a byte.
pub decode-encode_scan_request :
    (r : ScanRequest)
    → length r.start < 2 ^ 32
    → length r.end < 2 ^ 32
    → length r.pred.field < 2 ^ 32
    → r.pred.op < 256
    → decode_scan_request (encode_scan_request r) ≡ some r
unfolding decode_scan_request
decode-encode_scan_request r hs he hf ho =
    let tail = r.start ++ (r.end ++ (r.pred.field ++ r.pred.operand)) in
    let f = put_u32_le (length r.pred.field) ++ ((r.pred.op % 256) ∷ tail) in
    let e = put_u32_le (length r.end) ++ f in
    let s : u32_le (slice (wire r) 0 4) ≡ length r.start =
      unfold put_u32_le in u32_le-field [] (length r.start) e 0 4 (omega arith) (omega arith) hs in
    let t : u32_le (slice (wire r) 4 8) ≡ length r.end =
      unfold put_u32_le in
      u32_le-field (put_u32_le (length r.start)) (length r.end) f 4 8 (omega arith) (omega arith)
        he in
    let u : u32_le (slice (wire r) 8 12) ≡ length r.pred.field =
      unfold put_u32_le in
      u32_le-field_second (put_u32_le (length r.start)) (put_u32_le (length r.end))
        (length r.pred.field) ((r.pred.op % 256) ∷ tail) 8 12 (omega arith) (omega arith) hf in
    let o : byte_at (wire r) 12 ≡ r.pred.op = unfold put_u32_le byte_at in omega arith in
    rw (encode-wire r, s, t, u, o) (ground (arith, fields_of_wire r, length-wire r))

-- The lengths of an entry fit their fields.
abbrev pub Fits : List ScanEntry → Type 0
Fits [] = Unit
Fits (e ∷ es) = (length e.key < 2 ^ 32) × (length e.value < 2 ^ 32) × Fits es

module _ (pre : Bytes) (e : ScanEntry) (es : List ScanEntry) where
  abbrev spread : Bytes
  spread =
      pre
      ++ (put_u32_le (length e.key)
          ++ (put_u32_le (length e.value) ++ (e.key ++ (e.value ++ encode_entries es))))

  spread-eq : pre ++ encode_entries (e ∷ es) ≡ spread
  unfolding encode_entries encode_entry put_u32_le
  spread-eq =
      ap (λ t. pre ++ (put_u32_le (length e.key) ++ (put_u32_le (length e.value) ++ t)))
        (append_assoc e.key e.value (encode_entries es))

  spread-next : pre ++ encode_entries (e ∷ es) ≡ (pre ++ encode_entry e) ++ encode_entries es
  unfolding encode_entries
  spread-next = sym (append_assoc pre (encode_entry e) (encode_entries es))

  length-spread :
      length (pre ++ encode_entries (e ∷ es))
      ≡ length pre + 8 + length e.key + length e.value + length (encode_entries es)
  unfolding encode_entries encode_entry put_u32_le
  length-spread = omega (
    arith,
    length-append pre (encode_entries (e ∷ es)),
    length-append e.key e.value,
    length-append (e.key ++ e.value) (encode_entries es),
  )

  length-entry : length (pre ++ encode_entry e) ≡ length pre + 8 + length e.key + length e.value
  unfolding encode_entry put_u32_le
  length-entry = omega (arith, length-append pre (encode_entry e), length-append e.key e.value)

decode-encode_entries :
    (es : List ScanEntry) (pre d : Bytes) (off : ℕ)
    → Fits es
    → d ≡ pre ++ encode_entries es
    → off ≡ length pre
    → decode_entries (length es) d off ≡ some es
unfolding decode_entries
decode-encode_entries [] pre d off fits eq start = refl
decode-encode_entries (e ∷ es) pre d off fits eq start =
    let d' = eq ∙ spread-eq pre e es in
    let kl = put_u32_le (length e.key) in
    let vl = put_u32_le (length e.value) in
    let k : u32_le (slice d off (off + 4)) ≡ length e.key =
      rw d' (u32_le-field pre (length e.key) _ off _ start refl fits.0) in
    let v : u32_le (slice d (off + 4) (off + 8)) ≡ length e.value = rw d' (
      u32_le-field_second pre kl (length e.value) _ (off + 4) _
        (omega (arith, length-put_u32_le (length e.key))) (omega arith) fits.1) in
    let key : slice d (off + 8) (off + 8 + length e.key) ≡ e.key = rw d' (
      slice-append_third pre kl vl e.key _ (off + 8) _
        (omega (arith, length-put_u32_le (length e.key), length-put_u32_le (length e.value)))
        refl) in
    let value : slice d (off + 8 + length e.key) (off + 8 + length e.key + length e.value)
        ≡ e.value =
      rw d' (
        slice-append_fourth pre kl vl e.key e.value _ (off + 8 + length e.key) _
          (omega (arith, length-put_u32_le (length e.key), length-put_u32_le (length e.value)))
          refl) in
    let rest =
      decode-encode_entries es (pre ++ encode_entry e) d (off + 8 + length e.key + length e.value)
        fits.2 (eq ∙ spread-next pre e es) (omega (arith, length-entry pre e es)) in
    let size : length d ≡ off + 8 + length e.key + length e.value + length (encode_entries es) =
      ap length eq ∙ length-spread pre e es ∙ omega arith in
    ground (arith, size, k, v, key, value, rest)

-- A SCAN response that is encoded and decoded gives the same status and the same entries, in order.
-- The status has fewer than 256 bytes, and the entries and their number fit the u32 fields.
pub decode-encode_scan_response :
    (status : Bytes) (entries : List ScanEntry)
    → length status < 256
    → length entries < 2 ^ 32
    → Fits entries
    → decode_scan_response (encode_scan_response status entries) ≡ some (status, entries)
unfolding decode_scan_response encode_scan_response
decode-encode_scan_response status entries hs hn fits =
    let byte = (length status % 256) ∷ [] in
    let count = put_u32_le (length entries) in
    let es = encode_entries entries in
    let d = byte ++ (status ++ (count ++ es)) in
    let b : byte_at d 0 ≡ length status = unfold byte_at in omega arith in
    let s : slice d 1 (1 + length status) ≡ status =
      slice-append byte status (count ++ es) 1 _ (omega arith) refl in
    let c : u32_le (slice d (1 + length status) (1 + length status + 4)) ≡ length entries =
      u32_le-field_second byte status (length entries) es _ _ (omega arith) refl hn in
    let rest : decode_entries (length entries) d (1 + length status + 4) ≡ some entries =
      decode-encode_entries entries (byte ++ (status ++ count)) d (1 + length status + 4) fits
        (ap (λ t. byte ++ t) (sym (append_assoc status count es)))
        (omega (arith, length-append status count, length-put_u32_le (length entries))) in
    let size : length d ≡ 1 + length status + 4 + length es = omega (
      arith,
      length-append status (count ++ es),
      length-append count es,
      length-put_u32_le (length entries),
    ) in
    rw (b, s, c, rest) (ground (arith, size))
