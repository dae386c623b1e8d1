-- ===== src/Wire/Put.antt =====
-- The PUT payload [keyLen u32 LE][valueLen u32 LE][key][value]: `NewKVData` of
-- pkg/utils/message.go, `parsePut` and `encodePut` of service/ingesthook/filter.go, and the payload
-- tests of `handlePut` and `handleGet` in service/router.go.
use mathlib.Core.List.{append-nil}
use ban_db.Prelude.{
  ◌+◌, ◌^◌, ◌<◌, List, [], ◌∷◌, ◌++◌, ◌≡◌, refl, arith, length, length-append, ltb, Option, none,
  some, if◌then◌else◌,
}
use ban_db.Bytes.{Bytes}
use ban_db.Bytes.Fixed.{
  slice, put_u32_le, u32_le, u32_le-field, length-put_u32_le, slice-append, slice-append_second,
}

-- `copy` one after the other into a buffer of the total length
unfoldable pub byte_builder : List Bytes → Bytes
byte_builder [] = []
byte_builder (b ∷ bs) = b ++ byte_builder bs

unfoldable pub new_kv_data : Bytes → Bytes → Bytes
unfolding byte_builder
new_kv_data key value =
    byte_builder (put_u32_le (length key) ∷ put_u32_le (length value) ∷ key ∷ value ∷ [])

unfoldable pub encode_put : Bytes → Bytes → Bytes
encode_put key value = put_u32_le (length key) ++ (put_u32_le (length value) ++ (key ++ value))

-- `none` is ok == false. The lengths come from a u32 and are never negative as a 64-bit int.
unfoldable pub parse_put : Bytes → Option (Bytes × Bytes)
parse_put d =
    if ltb (length d) 8
    then none
    else (let key_len = u32_le (slice d 0 4) in
        let value_len = u32_le (slice d 4 8) in
        if ltb (length d) (8 + key_len + value_len)
        then none
        else some (slice d 8 (8 + key_len), slice d (8 + key_len) (8 + key_len + value_len)))

-- handleGet and handleDelete: [keyLen u32 LE][key]
unfoldable pub parse_key : Bytes → Option Bytes
parse_key d =
    if ltb (length d) 4
    then none
    else (let key_len = u32_le (slice d 0 4) in
        if ltb (length d) (4 + key_len) then none else some (slice d 4 (4 + key_len)))

-- A frame with anything behind it; the parsers ignore what follows the value.
abbrev framed : Bytes → Bytes → Bytes → Bytes
framed key value rest =
    put_u32_le (length key) ++ (put_u32_le (length value) ++ (key ++ (value ++ rest)))

length-framed :
    (key value rest : Bytes)
    → length (framed key value rest) ≡ 8 + length key + length value + length rest
unfolding put_u32_le
length-framed key value rest =
    omega (arith, length-append key (value ++ rest), length-append value rest)

pub parse_put-framed :
    (key value rest : Bytes)
    → length key < 2 ^ 32
    → length value < 2 ^ 32
    → parse_put (framed key value rest) ≡ some (key, value)
unfolding parse_put
parse_put-framed key value rest hk hv =
    let d = framed key value rest in
    let lens = put_u32_le (length key) ++ put_u32_le (length value) in
    let kl : u32_le (slice d 0 4) ≡ length key =
      u32_le-field [] (length key) _ 0 4 (omega arith) (omega arith) hk in
    let vl : u32_le (slice d 4 8) ≡ length value =
      u32_le-field (put_u32_le (length key)) (length value) _ 4 8
        (omega (arith, length-put_u32_le (length key))) (omega arith) hv in
    let k : slice d 8 (8 + length key) ≡ key =
      unfold put_u32_le in slice-append lens key (value ++ rest) 8 _ (omega arith) refl in
    let v : slice d (8 + length key) (8 + length key + length value) ≡ value =
      unfold put_u32_le in slice-append_second lens key value rest _ _ (omega arith) refl in
    rw (kl, vl, k, v) (ground (arith, length-framed key value rest))

-- What a client packs by NewKVData, or the ingest filter by encodePut, parsePut reads back: for
-- every key and value below 4 GiB, the same key and value.
pub parse_put-new_kv_data :
    (key value : Bytes)
    → length key < 2 ^ 32
    → length value < 2 ^ 32
    → (parse_put (new_kv_data key value) ≡ some (key, value))
      × (parse_put (encode_put key value) ≡ some (key, value))
unfolding new_kv_data encode_put
parse_put-new_kv_data key value hk hv = (
  parse_put-framed key value [] hk hv,
  rw (append-nil value) at (parse_put-framed key value [] hk hv),
)

-- A GET or DEL payload [keyLen u32 LE][key] gives its key, whatever follows.
pub parse_key-encode :
    (key rest : Bytes)
    → length key < 2 ^ 32
    → parse_key (put_u32_le (length key) ++ (key ++ rest)) ≡ some key
unfolding parse_key
parse_key-encode key rest hk =
    let d = put_u32_le (length key) ++ (key ++ rest) in
    let kl : u32_le (slice d 0 4) ≡ length key =
      u32_le-field [] (length key) _ 0 4 (omega arith) (omega arith) hk in
    let k : slice d 4 (4 + length key) ≡ key =
      slice-append (put_u32_le (length key)) key rest 4 _
        (omega (arith, length-put_u32_le (length key))) refl in
    let n : length d ≡ 4 + length key + length rest =
      unfold put_u32_le in omega (arith, length-append key rest) in
    rw (kl, k) (ground (arith, n))
