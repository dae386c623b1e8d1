-- ===== src/Raft/Log/Apply.antt =====
-- What applyCommittedLogs (Raft/raft.go) sends to the state machine.
use mathlib.Core.List.{append_assoc, append-nil}
use ban_db.Prelude.{
  ℕ, zero, suc, ◌≤◌, ◌<◌, ltb, List, [], ◌∷◌, ◌++◌, length, take, drop, get_or, true, false,
  if◌then◌else◌, ◌≡◌, refl, sym, ◌∙◌, ap, arith, Bool-cases, inl, inr, ◌==◌,
}
use ban_db.Prelude.Int.{ℤ, pos, ◌+ℤ◌, ◌-ℤ◌, ltb_ℤ}
use ban_db.Bytes.{Bytes}
use ban_db.Raft.{
  is_leader, LogEntry, blank, Raft, relative_index, apply_loop, distance, apply_committed_logs,
  get_last_log_index, append_entry, last_of,
}

next_index :
    (la : ℤ) (lii : ℤ) (a : ℕ)
    → la ≡ lii +ℤ pos a
    → (relative_index (la +ℤ pos 1) lii ≡ pos a) × (la +ℤ pos 1 ≡ lii +ℤ pos (suc a))
unfolding ◌+ℤ◌ ◌-ℤ◌
next_index la lii a h = rw h (ground arith, ground arith)

take_step :
    (log : List LogEntry) (a n : ℕ)
    → a < length log
    → take (suc n) (drop a log) ≡ get_or log a blank ∷ take n (drop (suc a) log)
take_step [] a n h = elim h [ ]
take_step (x ∷ log) zero n h = refl
take_step (x ∷ log) (suc a) n h = take_step log a n (omega arith)

take_past : (log : List LogEntry) (a n : ℕ) → length log ≤ a → take n (drop a log) ≡ []
take_past [] zero zero h = refl
take_past [] zero (suc n) h = refl
take_past [] (suc a) zero h = refl
take_past [] (suc a) (suc n) h = refl
take_past (x ∷ log) zero n h = absurd (omega arith)
take_past (x ∷ log) (suc a) n h = take_past log a n (omega arith)

-- What one round sends.
abbrev sent_at : List LogEntry → ℕ → List LogEntry
sent_at log a = if ltb a (length log) then get_or log a blank ∷ [] else []

take-sent_at :
    (log : List LogEntry) (a n : ℕ)
    → sent_at log a ++ take n (drop (suc a) log) ≡ take (suc n) (drop a log)
take-sent_at log a n = elim (Bool-cases (ltb a (length log))) [
  | inl e ↦ rw e (sym (take_step log a n (ground arith)))
  | inr e ↦ rw (e, take_past log a (suc n) (ground arith), take_past log (suc a) n (ground arith))
]

round :
    (n : ℕ) (la lii c : ℤ) (a : ℕ) (log sent : List LogEntry)
    → relative_index (la +ℤ pos 1) lii ≡ pos a
    → ltb_ℤ la c ≡ true
    → apply_loop (suc n) la c log lii sent
      ≡ apply_loop n (la +ℤ pos 1) c log lii (sent ++ sent_at log a)
unfolding apply_loop
round n la lii c a log sent h more = elim (Bool-cases (ltb a (length log))) [
  | inl e ↦ rw (h, more, e)
  | inr e ↦
      rw (h, more, e) (ap (λ t. apply_loop n (la +ℤ pos 1) c log lii t) (sym (append-nil sent)))
]

further :
    (la : ℤ) (n : ℕ)
    → (la +ℤ pos (suc n) ≡ la +ℤ pos 1 +ℤ pos n) × (ltb_ℤ la (la +ℤ pos (suc n)) ≡ true)
unfolding ◌+ℤ◌
further la n = (ground arith, ground arith)

add_zero : (la : ℤ) → la +ℤ pos 0 ≡ la
unfolding ◌+ℤ◌
add_zero la = ground arith

-- The loop, from the last applied index on.
apply_loop_lem :
    (n : ℕ) (la lii : ℤ) (a : ℕ) (log sent : List LogEntry)
    → la ≡ lii +ℤ pos a
    → apply_loop n la (la +ℤ pos n) log lii sent ≡ (la +ℤ pos n, sent ++ take n (drop a log))
unfolding apply_loop
apply_loop_lem zero la lii a log sent h = rw (add_zero la, append-nil sent)
apply_loop_lem (suc n) la lii a log sent h =
    let at = next_index la lii a h in
    let next = further la n in
    round n la lii (la +ℤ pos (suc n)) a log sent at.0 next.1
    ∙ ap (λ c. apply_loop n (la +ℤ pos 1) c log lii (sent ++ sent_at log a)) next.0
    ∙ apply_loop_lem n (la +ℤ pos 1) lii (suc a) log (sent ++ sent_at log a) at.1
    ∙ λ k. (
      sym next.0 k,
      (append_assoc sent (sent_at log a) (take n (drop (suc a) log))
            ∙ ap (λ t. sent ++ t) (take-sent_at log a n))
          k,
    )

distance_add : (la : ℤ) (n : ℕ) → distance la (la +ℤ pos n) ≡ n
unfolding ◌+ℤ◌ ◌-ℤ◌
distance_add la n = ground arith

-- Applying sends to the state machine, in order, the part of the log array from the position
-- lastApplied - LastIncludedIndex on, as many entries as the commit index is ahead and the log holds,
-- and then all is applied. The last applied index is not below the snapshot's and not past the commit
-- index.
pub apply_committed_logs-slice :
    (r : Raft) (a n : ℕ)
    → r.last_applied ≡ r.last_included_index +ℤ pos a
    → r.commit_index ≡ r.last_applied +ℤ pos n
    → apply_committed_logs r
      ≡ record r { last_applied = r.commit_index; apply_ch = r.apply_ch ++ take n (drop a r.log) }
unfolding apply_committed_logs
apply_committed_logs-slice r a n behind ahead =
    let la = r.last_applied in
    let looped =
      ap (λ c. apply_loop (distance la c) la c r.log r.last_included_index r.apply_ch) ahead
      ∙ ap (λ m. apply_loop m la (la +ℤ pos n) r.log r.last_included_index r.apply_ch)
          (distance_add la n)
      ∙ apply_loop_lem n la r.last_included_index a r.log r.apply_ch behind
      ∙ ap (λ c. (c, r.apply_ch ++ take n (drop a r.log))) (sym ahead) in
    ap (λ (t : ℤ × List LogEntry). record r { last_applied = t.0; apply_ch = t.1 }) looped

last_of-snoc : (x : LogEntry) (pre : List LogEntry) (e : LogEntry) → last_of x (pre ++ (e ∷ [])) ≡ e
unfolding last_of
last_of-snoc x [] e = refl
last_of-snoc x (p ∷ pre) e = last_of-snoc p pre e

get_last_log_index-snoc :
    (pre : List LogEntry) (r : Raft) (e : LogEntry)
    → r.log ≡ pre ++ (e ∷ [])
    → get_last_log_index r ≡ e.index
unfolding get_last_log_index last_of
get_last_log_index-snoc [] r e h = rw h refl
get_last_log_index-snoc (p ∷ pre) r e h =
    rw h (ap (λ (x : LogEntry). x.index) (last_of-snoc p pre e))

drop_all : (pre xs : List LogEntry) → drop (length pre) (pre ++ xs) ≡ xs
drop_all [] xs = refl
drop_all (p ∷ pre) xs = drop_all pre xs

first_left :
    (pre : List LogEntry) (e f : LogEntry)
    → take 1 (drop (length pre) ((pre ++ (e ∷ [])) ++ (f ∷ []))) ≡ e ∷ []
first_left pre e f = rw (append_assoc pre (e ∷ []) (f ∷ []), drop_all pre (e ∷ (f ∷ []))) refl

one_more : (n : ℕ) → (pos n +ℤ pos 1 ≡ pos (suc n)) × (pos n ≡ pos 0 +ℤ pos n)
unfolding ◌+ℤ◌
one_more n = (ground arith, ground arith)

-- A single node without a snapshot that gets a command commits it at once and counts it as applied, but
-- what it sends to the state machine is the entry before it. The log's last entry e has the index of
-- its position, and it counts as applied.
pub append_entry-lag :
    (r : Raft) (pre : List LogEntry) (e : LogEntry) (command : Bytes)
    → is_leader r.state ≡ true
    → r.peers ≡ 1
    → r.last_included_index ≡ pos 0
    → r.log ≡ pre ++ (e ∷ [])
    → e.index ≡ pos (length pre)
    → r.last_applied ≡ pos (length pre)
    → ((append_entry r command).0.commit_index ≡ pos (suc (length pre)))
      × ((append_entry r command).0.last_applied ≡ pos (suc (length pre)))
      × ((append_entry r command).0.apply_ch ≡ r.apply_ch ++ (e ∷ []))
unfolding append_entry
append_entry-lag r pre e command lead one no_snapshot log_is index applied =
    let n = length pre in
    let new : LogEntry = record {
      index = get_last_log_index r +ℤ pos 1;
      term = r.term;
      command = command;
      is_snapshot = false;
    } in
    let r₁ : Raft = record r {
      log = r.log ++ (new ∷ []);
      disk = record r.disk { logs = r.disk.logs ++ (new ∷ []) };
      commit_index = get_last_log_index r +ℤ pos 1;
    } in
    let at : r₁.commit_index ≡ pos (suc n) =
      ap (λ i. i +ℤ pos 1) (get_last_log_index-snoc pre r e log_is ∙ index) ∙ (one_more n).0 in
    let slice =
      apply_committed_logs-slice r₁ n 1
        (applied ∙ (one_more n).1 ∙ ap (λ i. i +ℤ pos n) (sym no_snapshot))
        (at ∙ sym (one_more n).0 ∙ ap (λ i. i +ℤ pos 1) (sym applied)) in
    let sole : (r.peers == 1) ≡ true = ground arith in
    let sent = ap (λ l. take 1 (drop n (l ++ (new ∷ [])))) log_is ∙ first_left pre e new in
    rw (lead, sole)
      (
        ap (λ (x : Raft). x.commit_index) slice ∙ at,
        ap (λ (x : Raft). x.last_applied) slice ∙ at,
        ap (λ (x : Raft). x.apply_ch) slice ∙ ap (λ l. r.apply_ch ++ l) sent,
      )
