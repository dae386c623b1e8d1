-- ===== src/Storage/SsTable.antt =====
-- storage/zstorage/SSTable.go: the data section of a file with its block index, and the search
-- over the cached index: the loops of `WriteToSSTable` and `searchBlock`.
pub mod Record
pub mod Index
pub mod Search
pub mod Lookup
pub mod Filter
pub mod Footer
pub mod Iterator
pub mod Merged
pub mod Reopened
use ban_db.Prelude.{
  ℕ, zero, suc, ◌+◌, ◌-◌, ◌/◌, ◌%◌, ◌==◌, ltb, leb, List, [], ◌∷◌, ◌++◌, length, set, drop, Bool,
  true, false, ◌≡◌, Option, none, some, if◌then◌else◌, get_or, map, Ordering,
}
use ban_db.Bytes.{Bytes}
use ban_db.Bytes.Order.{cmp, less}
use ban_db.Bytes.Fixed.{put_u32_be, u32_be}
use ban_db.Bytes.Reader.{read_full}
use ban_db.Storage.Entries.{Entry}

abbrev pub ss_table_block_size : ℕ
ss_table_block_size = 64

abbrev pub tombstone_val_len : ℕ
tombstone_val_len = 0xFFFFFFFF

-- The value part: a tombstone is only the sentinel length.
unfoldable pub encode_value : Option Bytes → Bytes
encode_value none = put_u32_be tombstone_val_len
encode_value (some v) = put_u32_be (length v) ++ v

unfoldable pub encode_entry : Entry → Bytes
encode_entry (k, v) = put_u32_be (length k) ++ (k ++ encode_value v)

pub record BlockIndexEntry : Type 0 where
  pub last_key : Bytes
  pub block_offset : ℕ

abbrev blank : BlockIndexEntry
blank = record { last_key = []; block_offset = 0 }

-- blockIdx[bi].lastKey = key
pub set_last_key : List BlockIndexEntry → ℕ → Bytes → List BlockIndexEntry
set_last_key idx bi key = set idx bi (record (get_or idx bi blank) { last_key = key })

-- The loop over the entries: the buffer and the block index.
pub build : ℕ → List Entry → Bytes → List BlockIndexEntry → Bytes × List BlockIndexEntry
build i [] buf idx = (buf, idx)
build i (e ∷ es) buf idx =
    let bi = i / ss_table_block_size in
    let idx₁ =
      if i % ss_table_block_size == 0
      then idx ++ (record { last_key = []; block_offset = length buf } ∷ [])
      else idx in
    build (i + 1) es (buf ++ encode_entry e) (set_last_key idx₁ bi e.0)

infixl 5 ◌>>=◌
abbrev ◌>>=◌ {ℓ κ} : {A : Type ℓ} {B : Type κ} → Option A → (A → Option B) → Option B
none >>= f = none
some a >>= f = f a

-- The value and what follows it.
unfoldable pub read_value : ℕ → Bytes → Option (Option Bytes × Bytes)
read_value len s =
    if len == tombstone_val_len
    then some (none, s)
    else (do (v, r) ← read_full len s; some (some v, r))

unfoldable pub read_entry : Bytes → Option (Entry × Bytes)
read_entry s = do
  (kl, s₁) ← read_full 4 s
  (k, s₂) ← read_full (u32_be kl) s₁
  (vl, s₃) ← read_full 4 s₂
  (v, s₄) ← read_value (u32_be vl) s₃
  some ((k, v), s₄)

-- The loop over one block: `rounds` entries at most. `none` is found == false.
pub scan_block : ℕ → Bytes → Bytes → Option (Option Bytes)
scan_block zero s key = none
scan_block (suc rounds) s key = elim (read_entry s) [
  | none ↦ none
  | some (e, rest) ↦ elim (cmp e.0 key) [
    | Ordering.eq ↦ some e.1
    | Ordering.gt ↦ none
    | Ordering.lt ↦ scan_block rounds rest key
  ]
]

-- The binary search over the last keys; the fuel is the length of the index.
pub find_block : ℕ → Bytes → List BlockIndexEntry → ℕ → ℕ → ℕ
find_block zero key idx lo hi = lo
find_block (suc fuel) key idx lo hi =
    let mid = (lo + hi) / 2 in
    let left = find_block fuel key idx lo mid in
    let right = find_block fuel key idx (mid + 1) hi in
    if ltb lo hi then (if less (get_or idx mid blank).last_key key then right else left) else lo

unfoldable pub search_block : Bytes → Bytes → List BlockIndexEntry → Option (Option Bytes)
unfolding scan_block find_block
search_block content key idx =
    let lo = find_block (length idx) key idx 0 (length idx - 1) in
    if leb (length idx) lo
    then none
    else scan_block ss_table_block_size (drop (get_or idx lo blank).block_offset content) key
