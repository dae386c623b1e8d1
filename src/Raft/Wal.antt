-- ===== src/Raft/Wal.antt =====
-- Raft/raft_wal.go: the bytes of raft_log.dat and raft_state.dat, over the contents of the files; and the
-- snapshot data of SerializeLogEntries (Raft/raft.go), whose entries have the same bytes. An int64 is
-- written in two's complement, big endian.
pub mod RoundTrip
use ban_db.Prelude.{
  ℕ, zero, suc, ◌+◌, ◌-◌, ◌%◌, ◌^◌, ◌==◌, ltb, List, [], ◌∷◌, ◌++◌, length, Bool, true, false,
  Option, none, some, if◌then◌else◌,
}
use ban_db.Prelude.Int.{ℤ, pos, negsuc}
use ban_db.Bytes.{Bytes}
use ban_db.Bytes.Fixed.{put_u32_be, u32_be, put_u64_be, u64_be}
use ban_db.Bytes.Reader.{read_full}
use ban_db.Raft.{LogEntry}

-- uint64(z)
abbrev pub to_u64 : ℤ → ℕ
to_u64 (pos n) = n % 2 ^ 64
to_u64 (negsuc n) = 2 ^ 64 - 1 - n % 2 ^ 64

unfoldable pub put_i64 : ℤ → Bytes
put_i64 z = put_u64_be (to_u64 z)

unfoldable pub i64_be : Bytes → ℤ
i64_be b = let u = u64_be b in if ltb u (2 ^ 63) then pos u else negsuc (2 ^ 64 - 1 - u)

abbrev pub magic_number : ℕ
magic_number = 0x52415654

abbrev pub version_number : ℕ
version_number = 1

unfoldable pub write_entry : LogEntry → Bytes
write_entry e =
    put_i64 e.index ++ (put_i64 e.term ++ (put_i64 (pos (length e.command)) ++ e.command))

unfoldable pub append_log : Bytes → LogEntry → Bytes
append_log file e = file ++ write_entry e

unfoldable pub append_logs : Bytes → List LogEntry → Bytes
unfolding append_log
append_logs file [] = file
append_logs file (e ∷ es) = append_logs (append_log file e) es

infixl 5 ◌>>=◌
abbrev ◌>>=◌ {ℓ κ} : {A : Type ℓ} {B : Type κ} → Option A → (A → Option B) → Option B
none >>= f = none
some a >>= f = f a

-- `cmd := make([]byte, cmdLen)`, filled; a negative length is a damaged file, at which the program
-- panics.
unfoldable pub read_command : ℤ → Bytes → Option (Bytes × Bytes)
read_command (pos n) s = read_full n s
read_command (negsuc n) s = none

-- One round of the loop of LoadLogs; `none` leaves it.
unfoldable pub load_entry : Bytes → Option (LogEntry × Bytes)
load_entry s = do
  (index, s₁) ← read_full 8 s
  (term, s₂) ← read_full 8 s₁
  (len, s₃) ← read_full 8 s₂
  (command, s₄) ← read_command (i64_be len) s₃
  some (
    record { index = i64_be index; term = i64_be term; command = command; is_snapshot = false },
    s₄,
  )

unfoldable pub load_loop : ℕ → Bytes → List LogEntry
load_loop zero s = []
load_loop (suc fuel) s = elim (load_entry s) [ none ↦ [] | some (e, r) ↦ e ∷ load_loop fuel r ]

unfoldable pub load_logs : Option Bytes → List LogEntry
load_logs none = []
load_logs (some file) = load_loop (suc (length file)) file

-- RebuildLogFile, and SavePersist after the state.
unfoldable pub rebuild_log_file : List LogEntry → Bytes
rebuild_log_file es = append_logs [] es

-- The whole file; it always has the same size, so that writing over it leaves nothing of the old one.
unfoldable pub save_state : ℤ → ℤ → Bytes
save_state term voted_for =
    put_u32_be magic_number ++ (put_u32_be version_number ++ (put_i64 term ++ put_i64 voted_for))

read_state : Bytes → Option (ℤ × ℤ)
read_state s = do
  (version, s₁) ← read_full 4 s
  (term, s₂) ← read_full 8 s₁
  (voted_for, s₃) ← read_full 8 s₂
  some (i64_be term, i64_be voted_for)

-- `none` is an error. A file that is not there, or of another kind, is a node that has not voted.
unfoldable pub load_state : Option Bytes → Option (ℤ × ℤ)
unfolding read_state
load_state none = some (pos 0, negsuc 0)
load_state (some file) = do
  (magic, s) ← read_full 4 file
  if u32_be magic == magic_number then read_state s else some (pos 0, negsuc 0)

-- The entries one after the other.
unfoldable pub encode_all : List LogEntry → Bytes
encode_all [] = []
encode_all (e ∷ es) = write_entry e ++ encode_all es

-- nil for no entries
unfoldable pub serialize_log_entries : List LogEntry → Bytes
unfolding encode_all
serialize_log_entries [] = []
serialize_log_entries (e ∷ es) = put_u32_be (length (e ∷ es)) ++ encode_all (e ∷ es)

-- The loop of DeserializeLogEntries over `count` entries; it ends where an entry is cut off.
unfoldable pub deserialize_loop : ℕ → Bytes → List LogEntry
deserialize_loop zero s = []
deserialize_loop (suc count) s = elim (load_entry s) [
  | none ↦ []
  | some (e, r) ↦ e ∷ deserialize_loop count r
]

unfoldable pub deserialize_log_entries : Bytes → List LogEntry
unfolding deserialize_loop
deserialize_log_entries data' = elim (read_full 4 data') [
  | none ↦ []
  | some (count, s) ↦ deserialize_loop (u32_be count) s
]
