-- ===== src/Raft/Wal/RoundTrip.antt =====
-- What the files of Raft/raft_wal.go and a snapshot's data give back.
use mathlib.Core.List.{append_assoc, append-nil}
use mathlib.Core.Path.{subst}
use ban_db.Prelude.{
  ℕ, zero, suc, ◌+◌, ◌-◌, ◌%◌, ◌^◌, ◌≤◌, ◌<◌, ltb, List, [], ◌∷◌, ◌++◌, length, length-append, take,
  length-take, map, false, none, some, ◌≡◌, refl, sym, ◌∙◌, ap, arith, Bool-cases, inl, inr,
}
use ban_db.Prelude.Int.{ℤ, pos, negsuc}
use ban_db.Bytes.{Bytes}
use ban_db.Bytes.Fixed.{
  put_u32_be, u32_be, put_u64_be, u64_be, u32_be-put, u64_be-put, length-put_u32_be,
  length-put_u64_be,
}
use ban_db.Bytes.Reader.{read_full, read_full-append, read_full-short}
use ban_db.Raft.{LogEntry}
use ban_db.Raft.Wal.{
  to_u64, put_i64, i64_be, write_entry, append_log, append_logs, read_command, load_entry,
  load_loop, load_logs, save_state, read_state, load_state, encode_all, serialize_log_entries,
  deserialize_loop, deserialize_log_entries,
}

-- An int64.
abbrev pub IsInt64 : ℤ → Type 0
IsInt64 (pos n) = n < 2 ^ 63
IsInt64 (negsuc n) = n < 2 ^ 63

i64_be-put_i64 : (z : ℤ) → IsInt64 z → i64_be (put_i64 z) ≡ z
unfolding i64_be put_i64
i64_be-put_i64 (pos n) h =
    let u : u64_be (put_u64_be (n % 2 ^ 64)) ≡ n =
      rw (append-nil (put_u64_be (n % 2 ^ 64))) at (u64_be-put (n % 2 ^ 64) [] (omega arith))
      ∙ omega arith in
    rw u (ground arith)
i64_be-put_i64 (negsuc n) h =
    let m = 2 ^ 64 - 1 - n % 2 ^ 64 in
    let u : u64_be (put_u64_be m) ≡ m =
      rw (append-nil (put_u64_be m)) at (u64_be-put m [] (omega arith)) in
    rw u (ground arith)

length-put_i64 : (z : ℤ) → length (put_i64 z) ≡ 8
unfolding put_i64
length-put_i64 z = length-put_u64_be (to_u64 z)

read_i64 : (z : ℤ) (r : Bytes) → read_full 8 (put_i64 z ++ r) ≡ some (put_i64 z, r)
read_i64 z r =
    subst (λ n. read_full n (put_i64 z ++ r) ≡ some (put_i64 z, r)) (length-put_i64 z)
      (read_full-append (put_i64 z) r)

read_u32 : (n : ℕ) (r : Bytes) → read_full 4 (put_u32_be n ++ r) ≡ some (put_u32_be n, r)
read_u32 n r =
    subst (λ m. read_full m (put_u32_be n ++ r) ≡ some (put_u32_be n, r)) (length-put_u32_be n)
      (read_full-append (put_u32_be n) r)

abbrev pub Fits : LogEntry → Type 0
Fits e = IsInt64 e.index × IsInt64 e.term × (length e.command < 2 ^ 63)

abbrev pub AllFit : List LogEntry → Type 0
AllFit [] = Unit
AllFit (e ∷ es) = Fits e × AllFit es

-- An entry as it is read back: the mark of a snapshot is not written.
abbrev pub plain : LogEntry → LogEntry
plain e = record e { is_snapshot = false }

load_entry-write_entry :
    (e : LogEntry) (rest : Bytes)
    → Fits e
    → load_entry (write_entry e ++ rest) ≡ some (plain e, rest)
unfolding load_entry write_entry read_command
load_entry-write_entry e rest f =
    let len = pos (length e.command) in
    rw (
      append_assoc (put_i64 e.index) (put_i64 e.term ++ (put_i64 len ++ e.command)) rest,
      append_assoc (put_i64 e.term) (put_i64 len ++ e.command) rest,
      append_assoc (put_i64 len) e.command rest,
      read_i64 e.index (put_i64 e.term ++ (put_i64 len ++ (e.command ++ rest))),
      read_i64 e.term (put_i64 len ++ (e.command ++ rest)),
      read_i64 len (e.command ++ rest),
      i64_be-put_i64 len f.2,
      read_full-append e.command rest,
      i64_be-put_i64 e.index f.0,
      i64_be-put_i64 e.term f.1,
    )

minus_zero : (n : ℕ) → n ≡ n - 0
minus_zero n = omega arith

-- A field that the end of the file cuts, and one before it.
take-append_past :
    (x r : Bytes) (n : ℕ) → length x ≤ n → take n (x ++ r) ≡ x ++ take (n - length x) r
take-append_past [] r n h = ap (λ m. take m r) (minus_zero n)
take-append_past (b ∷ x) r zero h = absurd (omega (arith, h))
take-append_past (b ∷ x) r (suc n) h =
    ap (λ t. b ∷ t)
      (take-append_past x r n (omega arith) ∙ ap (λ m. x ++ take m r) (same n (length x)))
  where
    same : (a b : ℕ) → a - b ≡ suc a - suc b
    same a b = omega arith

read_cut : (x r : Bytes) (n : ℕ) → n < length x → read_full (length x) (take n (x ++ r)) ≡ none
read_cut x r n h =
    read_full-short (length x) (take n (x ++ r)) (omega (arith, length-take n (x ++ r)))

read_past :
    (x r : Bytes) (n : ℕ)
    → length x ≤ n
    → read_full (length x) (take n (x ++ r)) ≡ some (x, take (n - length x) r)
read_past x r n h = rw (take-append_past x r n h) (read_full-append x (take (n - length x) r))

i64_cut : (z : ℤ) (r : Bytes) (n : ℕ) → n < 8 → read_full 8 (take n (put_i64 z ++ r)) ≡ none
i64_cut z r n h =
    subst (λ m. read_full m (take n (put_i64 z ++ r)) ≡ none) (length-put_i64 z)
      (read_cut (put_i64 z) r n (omega (arith, length-put_i64 z, h)))

i64_past :
    (z : ℤ) (r : Bytes) (n : ℕ)
    → 8 ≤ n
    → read_full 8 (take n (put_i64 z ++ r)) ≡ some (put_i64 z, take (n - 8) r)
i64_past z r n h =
    subst (λ m. read_full m (take n (put_i64 z ++ r)) ≡ some (put_i64 z, take (n - m) r))
      (length-put_i64 z) (read_past (put_i64 z) r n (omega (arith, length-put_i64 z, h)))

pub length-write_entry : (e : LogEntry) → length (write_entry e) ≡ 24 + length e.command
unfolding write_entry
length-write_entry e =
    let len = pos (length e.command) in
    omega (
      arith,
      length-append (put_i64 e.index) (put_i64 e.term ++ (put_i64 len ++ e.command)),
      length-append (put_i64 e.term) (put_i64 len ++ e.command),
      length-append (put_i64 len) e.command,
      length-put_i64 e.index,
      length-put_i64 e.term,
      length-put_i64 len,
    )

load_entry-torn :
    (e : LogEntry) (n : ℕ)
    → Fits e
    → n < length (write_entry e)
    → load_entry (take n (write_entry e)) ≡ none
unfolding load_entry write_entry read_command
load_entry-torn e n f cut =
    let len = pos (length e.command) in
    let c = put_i64 len ++ e.command in
    let b = put_i64 e.term ++ c in
    let size = length-write_entry e in
    elim (Bool-cases (ltb n 8)) [
      | inl first ↦ rw (i64_cut e.index b n (ground arith))
      | inr past₁ ↦ elim (Bool-cases (ltb (n - 8) 8)) [
        | inl second ↦
            rw (i64_past e.index b n (ground arith), i64_cut e.term c (n - 8) (ground arith))
        | inr past₂ ↦ elim (Bool-cases (ltb (n - 8 - 8) 8)) [
          | inl third ↦ rw (
            i64_past e.index b n (ground arith),
            i64_past e.term c (n - 8) (ground arith),
            i64_cut len e.command (n - 8 - 8) (ground arith),
          )
          | inr past₃ ↦ rw (
            i64_past e.index b n (ground arith),
            i64_past e.term c (n - 8) (ground arith),
            i64_past len e.command (n - 8 - 8) (ground arith),
            i64_be-put_i64 len f.2,
            read_full-short (length e.command) (take (n - 8 - 8 - 8) e.command)
                (ground (arith, size, length-take (n - 8 - 8 - 8) e.command)),
          )
        ]
      ]
    ]

append_logs-eq : (file : Bytes) (es : List LogEntry) → append_logs file es ≡ file ++ encode_all es
unfolding append_logs append_log encode_all
append_logs-eq file [] = sym (append-nil file)
append_logs-eq file (e ∷ es) =
    append_logs-eq (file ++ write_entry e) es ∙ append_assoc file (write_entry e) (encode_all es)

length-encode_all : (es : List LogEntry) → length es ≤ length (encode_all es)
unfolding encode_all
length-encode_all [] = omega arith
length-encode_all (e ∷ es) = omega (
  arith,
  length-encode_all es,
  length-append (write_entry e) (encode_all es),
  length-write_entry e,
)

load_loop-all :
    (es : List LogEntry) (fuel : ℕ) (tail : Bytes)
    → AllFit es
    → load_entry tail ≡ none
    → length es < fuel
    → load_loop fuel (encode_all es ++ tail) ≡ map plain es
unfolding load_loop encode_all
load_loop-all es zero tail fits torn enough = elim enough [ ]
load_loop-all [] (suc fuel) tail fits torn enough = rw (torn, load_loop) refl
load_loop-all (e ∷ es) (suc fuel) tail fits torn enough =
    rw
      (
        append_assoc (write_entry e) (encode_all es) tail,
        load_entry-write_entry e (encode_all es ++ tail) fits.0,
        load_loop,
      )
      (ap (λ t. plain e ∷ t) (load_loop-all es fuel tail fits.1 torn (omega arith)))

-- LoadLogs gives back the entries that were appended to the log file, in order, also where the last
-- write was torn: what it left is passed over. The indexes and terms are int64s.
pub load_logs-append_logs :
    (es : List LogEntry) (last : LogEntry) (n : ℕ)
    → AllFit es
    → Fits last
    → n < length (write_entry last)
    → load_logs (some (append_logs [] es ++ take n (write_entry last))) ≡ map plain es
unfolding load_logs
load_logs-append_logs es last n fits fit cut =
    let torn = take n (write_entry last) in
    rw append_logs-eq (
      load_loop-all es (suc (length (encode_all es ++ torn))) torn fits
        (load_entry-torn last n fit cut)
        (omega (arith, length-encode_all es, length-append (encode_all es) torn)))

-- A node that starts reads the term and the vote that SaveState wrote, both int64s.
pub load_state-save_state :
    (term voted_for : ℤ)
    → IsInt64 term
    → IsInt64 voted_for
    → load_state (some (save_state term voted_for)) ≡ some (term, voted_for)
unfolding load_state save_state read_state
load_state-save_state term voted_for ht hv =
    let v = put_i64 voted_for in
    let last : read_full 8 v ≡ some (v, []) = rw (append-nil v) at (read_i64 voted_for []) in
    let magic : u32_be (put_u32_be 0x52415654) ≡ 0x52415654 =
      unfold u32_be put_u32_be in omega arith in
    rw (
      read_u32 0x52415654 (put_u32_be 1 ++ (put_i64 term ++ v)),
      magic,
      read_u32 1 (put_i64 term ++ v),
      read_i64 term v,
      last,
      i64_be-put_i64 term ht,
      i64_be-put_i64 voted_for hv,
    )

deserialize_loop-all :
    (es : List LogEntry) → AllFit es → deserialize_loop (length es) (encode_all es) ≡ map plain es
unfolding deserialize_loop encode_all
deserialize_loop-all [] fits = refl
deserialize_loop-all (e ∷ es) fits =
    rw (load_entry-write_entry e (encode_all es) fits.0, deserialize_loop)
      (ap (λ t. plain e ∷ t) (deserialize_loop-all es fits.1))

deserialize-counted :
    (es : List LogEntry)
    → AllFit es
    → length es < 2 ^ 32
    → deserialize_log_entries (put_u32_be (length es) ++ encode_all es) ≡ map plain es
unfolding deserialize_log_entries
deserialize-counted es fits small =
    let count = put_u32_be (length es) in
    let counted : u32_be count ≡ length es =
      rw (append-nil count) at (u32_be-put (length es) [] small) in
    rw (deserialize_log_entries, read_u32 (length es) (encode_all es), counted)
      (deserialize_loop-all es fits)

-- A snapshot's data gives back the entries that it was made of. There are fewer than 2^32, with
-- indexes and terms that are int64s.
pub deserialize-serialize_log_entries :
    (es : List LogEntry)
    → AllFit es
    → length es < 2 ^ 32
    → deserialize_log_entries (serialize_log_entries es) ≡ map plain es
unfolding serialize_log_entries
deserialize-serialize_log_entries [] fits small = unfold deserialize_log_entries read_full in refl
deserialize-serialize_log_entries (e ∷ es) fits small = deserialize-counted (e ∷ es) fits small
