-- ===== src/Raft/Snapshot/First.antt =====
-- The first snapshot of a node (TakeSnapshot of Raft/raft.go), of a log that begins at index 0.
use mathlib.Core.Path.{subst}
use ban_db.Prelude.{
  if◌then◌else◌, Bool, ℕ, zero, suc, ◌+◌, ◌-◌, ◌≤◌, ◌<◌, leb, ltb, List, [], ◌∷◌, ◌++◌, length,
  take, drop, get_or, length-drop, true, false, ◌≡◌, refl, sym, ◌∙◌, ap, arith, Bool-cases, inl,
  inr,
}
use ban_db.Prelude.Int.{ℤ, pos, ◌+ℤ◌, ◌-ℤ◌, ◌≤ℤ◌, ltb_ℤ, leb_ℤ, eq_ℤ, int_laws}
use ban_db.Raft.{
  LogEntry, blank, Raft, new_raft, last_of, relative_index, get_term_at, persist_state,
}
use ban_db.Raft.Rpc.{renumber, log_after, truncate_logs}
use ban_db.Raft.Wal.{serialize_log_entries}
use ban_db.Raft.Snapshot.{snapshot_entries, snapshot_term, take_snapshot}

-- The entries have the indexes from `i` on.
abbrev pub Numbered : ℕ → List LogEntry → Type 0
Numbered i [] = Unit
Numbered i (e ∷ es) = (e.index ≡ pos i) × Numbered (suc i) es

pos_suc : (i : ℕ) → pos i +ℤ pos 1 ≡ pos (suc i)
pos_suc i = omega int_laws

Numbered-drop :
    (i k j : ℕ) (es : List LogEntry) → Numbered i es → i + k ≡ j → Numbered j (drop k es)
Numbered-drop i zero j es h s = subst (λ n. Numbered n es) (omega arith) h
Numbered-drop i (suc k) j [] h s = tt
Numbered-drop i (suc k) j (e ∷ es) h s = Numbered-drop (suc i) k j es h.1 (omega arith)

renumber-Numbered : (i : ℕ) (es : List LogEntry) → Numbered i es → renumber (pos i) es ≡ es
unfolding renumber
renumber-Numbered i [] h = refl
renumber-Numbered i (e ∷ es) h =
    rw (pos_suc i, renumber-Numbered (suc i) es h.1)
      (ap (λ x. record e { index = x } ∷ es) (sym h.0))

truncate_logs-later :
    (n i : ℕ) (es : List LogEntry) → Numbered i es → n < i → truncate_logs (pos n) es ≡ es
unfolding truncate_logs
truncate_logs-later n i [] h later = refl
truncate_logs-later n i (e ∷ es) h later =
    let lt : ltb_ℤ (pos n) e.index ≡ true = rw h.0 (ground arith) in
    rw (lt, truncate_logs-later n (suc i) es h.1 (omega arith))

truncate_logs-drop :
    (n i k : ℕ) (es : List LogEntry)
    → Numbered i es
    → i + k ≡ suc n
    → truncate_logs (pos n) es ≡ drop k es
unfolding truncate_logs
truncate_logs-drop n i zero es h s = truncate_logs-later n i es h (omega arith)
truncate_logs-drop n i (suc k) [] h s = refl
truncate_logs-drop n i (suc k) (e ∷ es) h s =
    let ge : ltb_ℤ (pos n) e.index ≡ false = rw h.0 (ground arith) in
    rw (ge, truncate_logs-drop n (suc i) k es h.1 (omega arith))

last_of-take :
    (n : ℕ) (e : LogEntry) (es : List LogEntry)
    → n < suc (length es)
    → last_of e (take n es) ≡ get_or (e ∷ es) n blank
unfolding last_of
last_of-take zero e es h = refl
last_of-take (suc n) e [] h = absurd (omega arith)
last_of-take (suc n) e (f ∷ es) h = last_of-take n f es (omega arith)

get_or-drop :
    (k j n : ℕ) (es : List LogEntry) → k + j ≡ n → get_or (drop k es) j blank ≡ get_or es n blank
get_or-drop zero j n es s = ap (λ i. get_or es i blank) (omega arith)
get_or-drop (suc k) j n [] s = refl
get_or-drop (suc k) j zero (e ∷ es) s = absurd (omega arith)
get_or-drop (suc k) j (suc n) (e ∷ es) s = get_or-drop k j n es (omega arith)

whole : (n : ℕ) → pos n +ℤ pos 1 -ℤ pos 0 ≡ pos (suc n)
whole n = omega int_laws

log_after-first :
    (log : List LogEntry) (n : ℕ)
    → Numbered 0 log
    → n < length log
    → log_after log (pos n) (pos 0) ≡ drop (suc n) log
unfolding log_after
log_after-first log n h lt =
    let room : leb (suc n) (length log) ≡ true = ground arith in
    rw (log_after, whole n, room, pos_suc n)
      (renumber-Numbered (suc n) (drop (suc n) log)
        (Numbered-drop 0 (suc n) (suc n) log h (omega arith)))

snapshot_entries-first :
    (r : Raft) (n : ℕ)
    → r.last_included_index ≡ pos 0
    → snapshot_entries r (pos n) ≡ take (suc n) r.log
unfolding snapshot_entries
snapshot_entries-first r n h = rw (snapshot_entries, h, whole n)

snapshot_term-taken :
    (r : Raft) (index : ℤ) (n : ℕ) (log : List LogEntry)
    → n < length log
    → snapshot_term r index (take (suc n) log) ≡ (get_or log n blank).term
unfolding snapshot_term
snapshot_term-taken r index n [] lt = absurd (omega arith)
snapshot_term-taken r index n (e ∷ es) lt = ap (λ x. x.term) (last_of-take n e es lt)

-- What getTermAt reads in the log behind a snapshot.
get_term_at-behind :
    (x : Raft) (log : List LogEntry) (n m : ℕ)
    → x.log ≡ drop (suc n) log
    → x.last_included_index ≡ pos n
    → x.last_included_term ≡ (get_or log n blank).term
    → 0 < n
    → n ≤ m
    → m < length log
    → get_term_at x (pos m) ≡ (get_or log m blank).term
unfolding get_term_at
get_term_at-behind x log n m hl hi ht up le lt =
    let start : ltb_ℤ (pos 0) (pos n) ≡ true = ground arith in
    let natural : ltb_ℤ (pos m) (pos 0) ≡ false = ground arith in
    elim (Bool-cases (eq_ℤ (pos m) (pos n))) [
      | inl e ↦ rw (natural, hi, start, e) (ht ∙ ap (λ i. (get_or log i blank).term) (ground arith))
      | inr e ↦
          let above : n < m = ground arith in
          let j : relative_index (pos m) (pos n) ≡ pos (m - suc n) = omega (int_laws, above) in
          let inside : ltb (m - suc n) (length (drop (suc n) log)) ≡ true =
            ground (arith, length-drop (suc n) log) in
          rw (natural, hi, start, e, j, hl, inside)
            (ap (λ y. y.term) (get_or-drop (suc n) (m - suc n) m log (ground arith)))
    ]

-- The first TakeSnapshot of a node, at a committed index `n` that is not 0: the log is numbered from 0 and
-- agrees with the log file. It succeeds, sends the entries up to `n` with the term of the last of them if
-- ApplyCh has room (`room`) and nothing if it is full, and keeps the later ones, in memory and in the file; a node that restarts from the disk reads the same
-- terms as this one, which are those of the log before, from `n` on.
pub take_snapshot-first :
    (room : Bool) (r : Raft) (n m : ℕ)
    → r.last_included_index ≡ pos 0
    → r.last_snapshot_index ≡ pos 0
    → Numbered 0 r.log
    → r.disk.logs ≡ r.log
    → 0 < n
    → pos n ≤ℤ r.commit_index
    → n < length r.log
    → n ≤ m
    → m < length r.log
    → (let (after, ok) = take_snapshot room r (pos n) in
        (ok ≡ true)
        × (after.log ≡ drop (suc n) r.log)
        × (after.disk.logs ≡ drop (suc n) r.log)
        × (after.apply_ch ≡ (
            if room
            then r.apply_ch
              ++ (record {
                index = pos n;
                term = (get_or r.log n blank).term;
                command = serialize_log_entries (take (suc n) r.log);
                is_snapshot = true;
              }
                  ∷ [])
            else r.apply_ch))
        × (get_term_at after (pos m) ≡ (get_or r.log m blank).term)
        × (get_term_at (new_raft r.peers r.me after.disk) (pos m) ≡ (get_or r.log m blank).term))
unfolding take_snapshot persist_state new_raft
take_snapshot-first room r n m lii lsi numbered file up committed inside le lt =
    let entries = snapshot_entries-first r n lii in
    let newer : leb_ℤ (pos n) r.last_snapshot_index ≡ false = rw lsi (ground arith) in
    let bounded : ltb_ℤ r.commit_index (pos n) ≡ false = ground arith in
    let term : snapshot_term r (pos n) (snapshot_entries r (pos n)) ≡ (get_or r.log n blank).term =
      rw entries (snapshot_term-taken r (pos n) n r.log inside) in
    let kept : log_after r.log (pos n) r.last_included_index ≡ drop (suc n) r.log =
      rw lii (log_after-first r.log n numbered inside) in
    let written : truncate_logs (pos n) r.disk.logs ≡ drop (suc n) r.log =
      rw file (truncate_logs-drop n 0 (suc n) r.log numbered (omega arith)) in
    (
      rw (newer, bounded) refl,
      rw (newer, bounded) kept,
      rw (newer, bounded) written,
      rw (newer, bounded, term, entries) refl,
      rw (newer, bounded) (get_term_at-behind _ r.log n m kept refl term up le lt),
      rw (newer, bounded) (get_term_at-behind _ r.log n m written refl term up le lt),
    )
