-- ===== src/Raft/Log.antt =====
-- The log of a node: what AppendEntries (Raft/rpc.go) makes of it.
pub mod Apply
use mathlib.Core.Path.{subst}
use mathlib.Core.List.{append_assoc, append-nil}
use ban_db.Prelude.{
  ℕ, zero, suc, ◌+◌, ◌≤◌, ◌<◌, ltb, leb, List, [], ◌∷◌, ◌++◌, length, length-append, take, drop,
  take-append-drop, length-take, get_or, get_elem?, Bool, true, false, ◌&&◌, not, Option, none,
  some, if◌then◌else◌, ◌≡◌, refl, sym, ◌∙◌, ap, arith, Bool-cases, inl, inr,
}
use ban_db.Prelude.Int.{
  ℤ, pos, negsuc, pos_part, neg_part, ◌+ℤ◌, ◌-ℤ◌, ltb_ℤ, eq_ℤ, eq_ℤ→eq, int_laws,
}
use ban_db.Bytes.Fixed.{drop-append}
use ban_db.Raft.{
  LogEntry, blank, Raft, relative_index, step_down, persist_state, apply_committed_logs,
}
use ban_db.Raft.Rpc.{
  AppendEntriesArgs, Reply, see_term, prev_matches, append_loop, store_entries, commit_to,
  append_entries,
}

-- What is left of the log `xs` when the leader's entries are laid over it: equal terms keep the entry,
-- the first other term replaces all that follows.
unfoldable pub overlay : List LogEntry → List LogEntry → List LogEntry
overlay [] es = es
overlay (x ∷ xs) [] = x ∷ xs
overlay (x ∷ xs) (e ∷ es) =
    let rest = overlay xs es in if eq_ℤ x.term e.term then x ∷ rest else e ∷ es

abbrev get_or_blank : Option LogEntry → LogEntry
get_or_blank none = blank
get_or_blank (some e) = e

-- The indexes run from `i` on.
abbrev pub Runs : ℤ → List LogEntry → Type 0
Runs i [] = Unit
Runs i (e ∷ es) = (e.index ≡ i) × Runs (i +ℤ pos 1) es

overlay-nil : (xs : List LogEntry) → overlay xs [] ≡ xs
unfolding overlay
overlay-nil [] = refl
overlay-nil (x ∷ xs) = refl

get_or-append :
    (pre : List LogEntry) (x : LogEntry) (xs : List LogEntry)
    → get_or (pre ++ (x ∷ xs)) (length pre) blank ≡ x
get_or-append [] x xs = refl
get_or-append (p ∷ pre) x xs = get_or-append pre x xs

take_all : (pre xs : List LogEntry) → take (length pre) (pre ++ xs) ≡ pre
take_all [] xs = refl
take_all (p ∷ pre) xs = ap (λ t. p ∷ t) (take_all pre xs)

next_position :
    (i lii : ℤ) (n : ℕ)
    → relative_index i lii ≡ pos n
    → relative_index (i +ℤ pos 1) lii ≡ pos (n + 1)
unfolding ◌+ℤ◌ ◌-ℤ◌
next_position i lii n h = ground arith

-- What the loop gives: some log, whatever it says about the log file.
abbrev Gives : Option (List LogEntry × Bool × List LogEntry) → List LogEntry → Type 0
Gives o log = (rebuild : Bool) × (new : List LogEntry) × (o ≡ some (log, rebuild, new))

longer : (pre : List LogEntry) (e : LogEntry) → length (pre ++ (e ∷ [])) ≡ length pre + 1
longer pre e = length-append pre (e ∷ [])

-- One round of the loop, at the end of the log and inside it.
loop-end :
    (lii : ℤ) (e : LogEntry) (es pre : List LogEntry) (rebuild : Bool) (new : List LogEntry)
    → relative_index e.index lii ≡ pos (length pre)
    → append_loop lii (e ∷ es) pre rebuild new
      ≡ append_loop lii es (pre ++ (e ∷ [])) rebuild (new ++ (e ∷ []))
unfolding append_loop
loop-end lii e es pre rebuild new h =
    let out : ltb (length pre) (length pre) ≡ false = ground arith in
    let past : leb (length pre) (length pre) ≡ true = ground arith in rw (append_loop, h, out, past)

loop-same :
    (lii : ℤ) (e : LogEntry) (es pre : List LogEntry) (x : LogEntry) (xs : List LogEntry)
    (rebuild : Bool) (new : List LogEntry)
    → relative_index e.index lii ≡ pos (length pre)
    → eq_ℤ x.term e.term ≡ true
    → append_loop lii (e ∷ es) (pre ++ (x ∷ xs)) rebuild new
      ≡ append_loop lii es (pre ++ (x ∷ xs)) rebuild new
unfolding append_loop
loop-same lii e es pre x xs rebuild new h same =
    let size = length-append pre (x ∷ xs) in
    let inside : ltb (length pre) (length (pre ++ (x ∷ xs))) ≡ true = ground (arith, size) in
    let short : leb (length (pre ++ (x ∷ xs))) (length pre) ≡ false = ground (arith, size) in
    rw (append_loop, h, get_or-append pre x xs, same, inside, short)

loop-conflict :
    (lii : ℤ) (e : LogEntry) (es pre : List LogEntry) (x : LogEntry) (xs : List LogEntry)
    (rebuild : Bool) (new : List LogEntry)
    → relative_index e.index lii ≡ pos (length pre)
    → eq_ℤ x.term e.term ≡ false
    → append_loop lii (e ∷ es) (pre ++ (x ∷ xs)) rebuild new
      ≡ append_loop lii es (pre ++ (e ∷ [])) true (new ++ (e ∷ []))
unfolding append_loop
loop-conflict lii e es pre x xs rebuild new h other =
    let size = length-append pre (x ∷ xs) in
    let inside : ltb (length pre) (length (pre ++ (x ∷ xs))) ≡ true = ground (arith, size) in
    let past : leb (length pre) (length pre) ≡ true = ground arith in
    rw (append_loop, h, get_or-append pre x xs, other, inside, take_all pre (x ∷ xs), past)

Gives-rw :
    {o o' : Option (List LogEntry × Bool × List LogEntry)} {l l' : List LogEntry}
    → o ≡ o'
    → l ≡ l'
    → Gives o' l'
    → Gives o l
Gives-rw e f (rebuild, new, g) = (rebuild, new, e ∙ g ∙ ap (λ t. some (t, rebuild, new)) (sym f))

module _ (lii : ℤ) where
  append_loop-Gives :
      (es pre suf : List LogEntry) (i : ℤ) (rebuild : Bool) (new : List LogEntry)
      → Runs i es
      → relative_index i lii ≡ pos (length pre)
      → Gives (append_loop lii es (pre ++ suf) rebuild new) (pre ++ overlay suf es)
  unfolding append_loop overlay
  append_loop-Gives [] pre suf i rebuild new runs h =
      (rebuild, new, ap (λ t. some (pre ++ t, rebuild, new)) (sym (overlay-nil suf)))
  append_loop-Gives (e ∷ es) pre [] i rebuild new runs h =
      let at = ap (λ t. relative_index t lii) runs.0 ∙ h in
      let next = next_position i lii (length pre) h ∙ ap pos (sym (longer pre e)) in
      Gives-rw
        (ap (λ t. append_loop lii (e ∷ es) t rebuild new) (append-nil pre)
          ∙ loop-end lii e es pre rebuild new at
          ∙ ap (λ t. append_loop lii es t rebuild (new ++ (e ∷ [])))
              (sym (append-nil (pre ++ (e ∷ [])))))
        (sym (append_assoc pre (e ∷ []) es))
        (append_loop-Gives es (pre ++ (e ∷ [])) [] (i +ℤ pos 1) rebuild (new ++ (e ∷ [])) runs.1
          next)
  append_loop-Gives (e ∷ es) pre (x ∷ xs) i rebuild new runs h =
      let at = ap (λ t. relative_index t lii) runs.0 ∙ h in
      elim (Bool-cases (eq_ℤ x.term e.term)) [
        | inl same ↦ rw same (
            Gives-rw
              (loop-same lii e es pre x xs rebuild new at same
                ∙ ap (λ t. append_loop lii es t rebuild new) (sym (append_assoc pre (x ∷ []) xs)))
              (sym (append_assoc pre (x ∷ []) (overlay xs es)))
              (append_loop-Gives es (pre ++ (x ∷ [])) xs (i +ℤ pos 1) rebuild new runs.1
                (next_position i lii (length pre) h ∙ ap pos (sym (longer pre x)))))
        | inr other ↦ rw other (
            Gives-rw
              (loop-conflict lii e es pre x xs rebuild new at other
                ∙ ap (λ t. append_loop lii es t true (new ++ (e ∷ [])))
                    (sym (append-nil (pre ++ (e ∷ [])))))
              (sym (append_assoc pre (e ∷ []) es))
              (append_loop-Gives es (pre ++ (e ∷ [])) [] (i +ℤ pos 1) true (new ++ (e ∷ [])) runs.1
                (next_position i lii (length pre) h ∙ ap pos (sym (longer pre e)))))
      ]

commit_to-log : (r : Raft) (n : ℤ) → (commit_to r n).log ≡ r.log
unfolding commit_to apply_committed_logs
commit_to-log r n = elim (Bool-cases (ltb_ℤ r.commit_index n)) [ inl e ↦ rw e | inr e ↦ rw e ]

store_entries-log :
    (r : Raft) (log : List LogEntry) (rebuild : Bool) (new : List LogEntry)
    → (store_entries r log rebuild new).log ≡ log
unfolding store_entries persist_state
store_entries-log r log rebuild new = refl

see_term-log :
    (r : Raft) (t : ℤ)
    → ((see_term r t).log ≡ r.log) × ((see_term r t).last_included_index ≡ r.last_included_index)
unfolding see_term step_down persist_state
see_term-log r t = elim (Bool-cases (ltb_ℤ r.term t)) [
  | inl e ↦ rw e (refl, refl)
  | inr e ↦ rw e (refl, refl)
]

stored-log :
    (r : Raft) (es log : List LogEntry) (rebuild : Bool) (new : List LogEntry)
    → (length es ≡ 0 → r.log ≡ log)
    → (if ltb 0 (length es) then store_entries r log rebuild new else r).log ≡ log
stored-log r [] log rebuild new h = h refl
stored-log r (e ∷ es) log rebuild new h =
    let some_of : ltb 0 (length (e ∷ es)) ≡ true = ground arith in
    rw some_of (store_entries-log r log rebuild new)

laid-nothing :
    (xs : List LogEntry) (k : ℕ) (es : List LogEntry)
    → length es ≡ 0
    → xs ≡ take k xs ++ overlay (drop k xs) es
laid-nothing xs k [] h =
    sym (ap (λ t. take k xs ++ t) (overlay-nil (drop k xs)) ∙ take-append-drop k xs)
laid-nothing xs k (e ∷ es) h = absurd (omega (arith, h))

next_relative : (prev lii : ℤ) → relative_index (prev +ℤ pos 1) lii ≡ prev -ℤ lii
next_relative prev lii = omega int_laws

-- A node that accepts an AppendEntries ends with the leader's entries laid over its log from the array
-- position prevLogIndex - LastIncludedIndex on, without a panic, and says success: that is the position
-- after the previous entry's where the log begins at LastIncludedIndex + 1, and the previous entry's own
-- where it begins at LastIncludedIndex. The term is not an old one, the previous entry matches, the
-- entries' indexes run from prevLogIndex + 1 on, and the position is not outside the log.
pub append_entries-overlay :
    (r : Raft) (args : AppendEntriesArgs) (k : ℕ)
    → ltb_ℤ args.term r.term ≡ false
    → prev_matches (see_term r args.term) args.prev_log_index args.prev_log_term ≡ true
    → Runs (args.prev_log_index +ℤ pos 1) args.entries
    → args.prev_log_index -ℤ r.last_included_index ≡ pos k
    → k ≤ length r.log
    → ((append_entries r args).0.log ≡ take k r.log ++ overlay (drop k r.log) args.entries)
      × ((append_entries r args).1
          ≡ some (record { term = (see_term r args.term).term; success = true }))
unfolding append_entries
append_entries-overlay r args k fresh matches runs h inside =
    let r₁ = see_term r args.term in
    let log = take k r.log ++ overlay (drop k r.log) args.entries in
    let size : k ≡ length (take k r.log) = omega (arith, length-take k r.log) in
    let (rebuild, new, looped) =
      append_loop-Gives r.last_included_index args.entries (take k r.log) (drop k r.log)
        (args.prev_log_index +ℤ pos 1) false [] runs
        (next_relative args.prev_log_index r.last_included_index ∙ h ∙ ap pos size) in
    let start =
      (λ j.
        append_loop ((see_term-log r args.term).1 j) args.entries ((see_term-log r args.term).0 j)
          false [])
      ∙ ap (λ t. append_loop r.last_included_index args.entries t false [])
          (sym (take-append-drop k r.log))
      ∙ looped in
    rw (fresh, matches, start)
      (
        commit_to-log (if ltb 0 (length args.entries) then store_entries r₁ log rebuild new else r₁)
              args.leader_commit
            ∙ stored-log r₁ args.entries log rebuild new
                (λ e. (see_term-log r args.term).0 ∙ laid-nothing r.log k args.entries e),
        refl,
      )

-- Where the leader's entries are laid, the log has entries with their terms and their indexes.
overlay-entry :
    (xs es : List LogEntry) (j : ℤ) (i : ℕ) (e : LogEntry)
    → Runs j xs
    → Runs j es
    → get_elem? es i ≡ some e
    → (f : LogEntry) × (get_elem? (overlay xs es) i ≡ some f)
      × (f.index ≡ e.index)
      × (f.term ≡ e.term)
unfolding overlay
overlay-entry [] es j i e rx re h = (e, h, refl, refl)
overlay-entry (x ∷ xs) [] j i e rx re h = cc h
overlay-entry (x ∷ xs) (f ∷ es) j zero e rx re h = elim (Bool-cases (eq_ℤ x.term f.term)) [
  | inl z ↦ rw z (
    x,
    refl,
    rx.0 ∙ sym re.0 ∙ ap (λ t. (get_or_blank t).index) h,
    eq_ℤ→eq x.term f.term z ∙ ap (λ t. (get_or_blank t).term) h,
  )
  | inr z ↦ rw z (e, h, refl, refl)
]
overlay-entry (x ∷ xs) (f ∷ es) j (suc i) e rx re h = elim (Bool-cases (eq_ℤ x.term f.term)) [
  | inl z ↦ rw z (overlay-entry xs es (j +ℤ pos 1) i e rx.1 re.1 h)
  | inr z ↦ rw z (e, h, refl, refl)
]

Runs-drop : (i j : ℤ) (k : ℕ) (xs : List LogEntry) → Runs i xs → i +ℤ pos k ≡ j → Runs j (drop k xs)
Runs-drop i j zero xs h s =
    let e : i ≡ j = omega (int_laws, ap pos_part s, ap neg_part s) in subst (λ t. Runs t xs) e h
Runs-drop i j (suc k) [] h s = tt
Runs-drop i j (suc k) (x ∷ xs) h s =
    Runs-drop (i +ℤ pos 1) j k xs h.1 (omega (int_laws, ap pos_part s, ap neg_part s))

get_elem?-past :
    (pre xs : List LogEntry) (k i : ℕ)
    → k ≡ length pre
    → get_elem? (pre ++ xs) (k + i) ≡ get_elem? xs i
get_elem?-past pre xs k i h = ap (λ n. get_elem? (pre ++ xs) (n + i)) h ∙ go pre i
  where
    go : (ps : List LogEntry) (j : ℕ) → get_elem? (ps ++ xs) (length ps + j) ≡ get_elem? xs j
    go [] j = ap (λ n. get_elem? xs n) (zero_plus j)
      where
        zero_plus : (n : ℕ) → 0 + n ≡ n
        zero_plus n = omega arith
    go (p ∷ ps) j = ap (λ n. get_elem? (p ∷ (ps ++ xs)) n) (suc_plus (length ps) j) ∙ go ps j
      where
        suc_plus : (a b : ℕ) → suc a + b ≡ suc (a + b)
        suc_plus a b = omega arith

-- After an AppendEntries that a node accepts, its log has for each of the leader's entries one of the
-- same index and term, at the position of that index, so that a conflicting entry is gone. The log's
-- indexes run from LastIncludedIndex + 1 on, as they do behind a snapshot; the term is not an old one,
-- the previous entry matches, and is in the log or is the snapshot's last; and the entries' indexes run
-- from prevLogIndex + 1 on.
pub append_entries-terms :
    (r : Raft) (args : AppendEntriesArgs) (k i : ℕ) (e : LogEntry)
    → Runs (r.last_included_index +ℤ pos 1) r.log
    → ltb_ℤ args.term r.term ≡ false
    → prev_matches (see_term r args.term) args.prev_log_index args.prev_log_term ≡ true
    → Runs (args.prev_log_index +ℤ pos 1) args.entries
    → args.prev_log_index -ℤ r.last_included_index ≡ pos k
    → k ≤ length r.log
    → get_elem? args.entries i ≡ some e
    → (f : LogEntry) × (get_elem? (append_entries r args).0.log (k + i) ≡ some f)
      × (f.index ≡ e.index)
      × (f.term ≡ e.term)
append_entries-terms r args k i e own fresh matches runs h inside at =
    let log = (append_entries-overlay r args k fresh matches runs h inside).0 in
    let start : r.last_included_index +ℤ pos 1 +ℤ pos k ≡ args.prev_log_index +ℤ pos 1 =
      omega (int_laws, ap pos_part h, ap neg_part h) in
    let behind = Runs-drop (r.last_included_index +ℤ pos 1) _ k r.log own start in
    let (f, found, same_index, same_term) =
      overlay-entry (drop k r.log) args.entries _ i e behind runs at in
    (
      f,
      ap (λ l. get_elem? l (k + i)) log
          ∙ get_elem?-past (take k r.log) (overlay (drop k r.log) args.entries) k i
              (omega (arith, length-take k r.log, inside))
          ∙ found,
      same_index,
      same_term,
    )
