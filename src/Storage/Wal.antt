-- ===== src/Storage/Wal.antt =====
-- storage/wal.go: the write-ahead log of the standalone mode. The state is the content of the file.
-- A record is [op u8][klen u32][vlen u32][key][value], big endian. A nil slice is `none` and an empty
-- one `some []`; on disk both are a length of 0.
pub mod Ended
pub mod Recovery
use ban_db.Prelude.{
  ℕ, zero, suc, ◌+◌, ◌%◌, List, [], ◌∷◌, ◌++◌, length, ltb, Bool, true, false, Option, none, some,
  if◌then◌else◌, take, drop,
}
use ban_db.Bytes.{Bytes}
use ban_db.Bytes.Fixed.{slice, put_u32_be, u32_be}
use ban_db.Bytes.Reader.{read_full}

pub record Record : Type 0 where
  pub op : ℕ
  pub key : Bytes
  pub value : Option Bytes

abbrev pub wal_op_put : ℕ
wal_op_put = 1

abbrev pub wal_op_delete : ℕ
wal_op_delete = 2

-- the bytes of a slice; nil has none
abbrev pub bytes_of : Option Bytes → Bytes
bytes_of none = []
bytes_of (some v) = v

unfoldable pub encode_record : Record → Bytes
encode_record r =
    (r.op % 256)
    ∷ (put_u32_be (length r.key)
        ++ (put_u32_be (length (bytes_of r.value)) ++ (r.key ++ bytes_of r.value)))

-- One write at the end of the file, then fsync.
unfoldable pub append : Bytes → Record → Bytes
append file r = file ++ encode_record r

infixl 5 ◌>>=◌
abbrev ◌>>=◌ {ℓ κ} : {A : Type ℓ} {B : Type κ} → Option A → (A → Option B) → Option B
none >>= f = none
some a >>= f = f a

-- `var value []byte; if vlen > 0 { … }`
read_value : ℕ → Bytes → Option (Option Bytes × Bytes)
read_value zero s = some (none, s)
read_value (suc n) s = do (v, r) ← read_full (suc n) s; some (some v, r)

op_of : Bytes → ℕ
op_of [] = 0
op_of (b ∷ r) = b

-- One round of the loop; `none` is the end of the file or a torn record.
pub read_record : Bytes → Option (Record × Bytes)
unfolding read_value
read_record s = do
  (hdr, s₁) ← read_full 9 s
  (key, s₂) ← read_full (u32_be (slice hdr 1 5)) s₁
  (value, s₃) ← read_value (u32_be (slice hdr 5 9)) s₂
  some (record { op = op_of hdr; key = key; value = value }, s₃)

-- `fn` runs on the caller's state `S`; false is an error, which stops the replay.
module _ {ℓ} {S : Type ℓ} (fn : Record → S → S × Bool) where
  pub replay_loop : ℕ → Bytes → S → S × Bool
  replay_loop zero file s = (s, true)
  replay_loop (suc fuel) file s = elim (read_record file) [
    | none ↦ (s, true)
    | some (r, rest) ↦
        (let (s', good) = fn r s in
          elim good [ true ↦ replay_loop fuel rest s' | false ↦ (s', false) ])
  ]

  -- `file` is none where the file does not exist.
  unfoldable pub replay : Option Bytes → S → S × Bool
  unfolding replay_loop read_record op_of
  replay none s = (s, true)
  replay (some file) s = replay_loop (suc (length file)) file s
