-- ===== src/Storage/Merge/Drain.antt =====
-- The whole output of the merge of storage/zstorage/merge_iterator.go, over sources that ascend.
use ban_db.Prelude.{
  ℕ, zero, suc, ◌+◌, ◌≤◌, ◌<◌, ◌≡◌, refl, sym, ◌∙◌, ap, List, [], ◌∷◌, true, false, Option, none,
  some, arith, Bool-cases, inl, inr, ltb,
}
use ban_db.Bytes.{Bytes}
use ban_db.Bytes.Order.{less, same, less_trans, same→eq}
use ban_db.Storage.Entries.{
  or_else, or_else_assoc, or_else-none, Entry, assoc, Above, IsAscending, All, size, total,
  newest_of, AllRuns,
}
use ban_db.Storage.Merge.{
  before, push, pull, advance, merge_next, next_entry, open_all, new_merge_iterator, drain,
}
use ban_db.Storage.Merge.Queue.{
  Run, run, Fresh, Beyond, RunOk, HeapOk, push-HeapOk, weight, weight-push,
}
use ban_db.Storage.Merge.Newest.{Version, value_of, version, newest, later, own, newest-push}
use ban_db.Storage.Merge.Steps.{Stepped, merge_next_lem}

-- Each entry counts as one.
abbrev pub one : Entry → ℕ
one e = 1

module _ (P : Bytes → Option Bytes → Type 0) where
  pub record Drained (fuel : ℕ) (h : List Run) (out : List Entry) : Type 0 where
    pub done : drain (merge_next next_entry) fuel h ≡ some out
    pub ascending : IsAscending out
    pub above : (k : Bytes) → Beyond k h → Above k out
    pub fit : All P out
    pub reads : (j : Bytes) → assoc j out ≡ value_of (newest h j)
    pub no_larger : (sz : Entry → ℕ) → size sz out ≤ weight sz h

  drain_more :
      (fuel : ℕ) (top : Run) (h h₁ : List Run) (out : List Entry)
      → RunOk P top
      → Stepped P top h h₁
      → Drained fuel h₁ out
      → Drained (suc fuel) (top ∷ h) ((top.key, top.value) ∷ out)
  unfolding drain assoc
  drain_more fuel top h h₁ out ok s d = record {
    done = rw (drain, s.done, d.done);
    ascending = (d.above top.key s.beyond, d.ascending);
    above = λ k b. (b.0, d.above k (Beyond-trans k top.key h₁ b.0 s.beyond));
    fit = (ok.fit.0, d.fit);
    reads = λ j. elim (Bool-cases (same top.key j)) [
      | inl e ↦
          rw e (sym (ap value_of (ap (newest (top ∷ h)) (sym (same→eq top.key j e)) ∙ s.first)))
      | inr e ↦ rw e (d.reads j ∙ ap value_of (s.looks j e))
    ];
    no_larger = λ sz. omega (arith, d.no_larger sz, s.lighter sz);
  }
    where
      Beyond-trans : (a b : Bytes) (g : List Run) → less a b ≡ true → Beyond b g → Beyond a g
      Beyond-trans a b [] l t = tt
      Beyond-trans a b (u ∷ g) l t = (less_trans a b u.key l t.0, Beyond-trans a b g l t.1)

  pub drain_lem :
      (fuel : ℕ) (h : List Run)
      → HeapOk P h
      → weight one h < fuel
      → (out : List Entry) × Drained fuel h out
  unfolding drain merge_next newest assoc
  drain_lem zero h k enough = absurd (omega (arith, enough))
  drain_lem (suc fuel) [] k enough = (
    [],
    record {
      done = refl;
      ascending = tt;
      above = λ b g. tt;
      fit = tt;
      reads = λ j. refl;
      no_larger = λ sz. omega arith;
    },
  )
  drain_lem (suc fuel) (top ∷ h) k enough =
      let (h₁, s) = merge_next_lem P top h k in
      let (out, d) = drain_lem fuel h₁ s.valid (omega (arith, s.lighter one)) in
      ((top.key, top.value) ∷ out, drain_more fuel top h h₁ out k.0 s d)

  -- Every index of the heap is smaller.
  abbrev Older : ℕ → List Run → Type 0
  Older i [] = Unit
  Older i (t ∷ h) = (t.src_idx < i) × Older i h

  record Opened (i : ℕ) (rs : List (List Entry)) (h h' : List Run) : Type 0 where
    done : open_all next_entry i rs h ≡ some h'
    valid : HeapOk P h'
    reads : (j : Bytes) → value_of (newest h' j) ≡ or_else (newest_of rs j) (value_of (newest h j))
    weighs : (sz : Entry → ℕ) → weight sz h' ≡ total sz rs + weight sz h

  Older-Fresh : (i : ℕ) (h : List Run) → Older i h → Fresh i h
  Older-Fresh i [] o = tt
  Older-Fresh i (t ∷ h) o = (λ z. omega (arith, z, o.0), Older-Fresh i h o.1)

  Older-suc : (i : ℕ) (h : List Run) → Older i h → Older (i + 1) h
  Older-suc i [] o = tt
  Older-suc i (t ∷ h) o = (omega (arith, o.0), Older-suc i h o.1)

  Older-push : (i : ℕ) (s : Run) (h : List Run) → s.src_idx < i → Older i h → Older i (push s h)
  unfolding push
  Older-push i s [] l o = (l, tt)
  Older-push i s (t ∷ h) l o = elim (Bool-cases (before s t)) [
    | inl e ↦ rw e (l, o)
    | inr e ↦ rw e (o.0, Older-push i s h l o.1)
  ]

  abbrev Under : ℕ → Option Version → Type 0
  Under i none = Unit
  Under i (some v) = v.0 < i

  later-Under : (i : ℕ) (a b : Option Version) → Under i a → Under i b → Under i (later a b)
  unfolding later
  later-Under i none b p q = q
  later-Under i (some a) none p q = p
  later-Under i (some a) (some b) p q = elim (Bool-cases (ltb a.0 b.0)) [
    | inl e ↦ rw e q
    | inr e ↦ rw e p
  ]

  version-Under : (i k : ℕ) (x : Option (Option Bytes)) → k < i → Under i (version k x)
  version-Under i k none l = tt
  version-Under i k (some v) l = l

  newest-Under : (i : ℕ) (h : List Run) (j : Bytes) → Older i h → Under i (newest h j)
  unfolding newest own
  newest-Under i [] j o = tt
  newest-Under i (t ∷ h) j o =
      later-Under i (own t j) (newest h j) (version-Under i t.src_idx (assoc j (run t)) o.0)
        (newest-Under i h j o.1)

  -- A newer source hides what the older ones say.
  hides :
      (i : ℕ) (x : Option (Option Bytes)) (b : Option Version)
      → Under i b
      → value_of (later (version i x) b) ≡ or_else x (value_of b)
  unfolding later or_else
  hides i none b u = refl
  hides i (some v) none u = refl
  hides i (some v) (some b) u = let newer : ltb i b.0 ≡ false = ground arith in rw newer

  abbrev opening : ℕ → List Entry → Run
  opening i r = record { it = r; src_idx = i; key = []; value = none; prev = none }

  open_one :
      (i : ℕ) (e : Entry) (r : List Entry) (h : List Run)
      → advance next_entry (opening i (e ∷ r)) h
        ≡ some (push (record { it = r; src_idx = i; key = e.0; value = e.1; prev = some e.0 }) h)
  unfolding advance pull next_entry
  open_one i e r h = refl

  open_none : (i : ℕ) (h : List Run) → advance next_entry (opening i []) h ≡ some h
  unfolding advance pull next_entry
  open_none i h = refl

  open_lem :
      (i : ℕ) (rs : List (List Entry)) (h : List Run)
      → AllRuns P rs
      → HeapOk P h
      → Older i h
      → (h' : List Run) × Opened i rs h h'
  unfolding open_all newest_of assoc own or_else
  open_lem i [] h a k o = (
    h,
    record {
      done = refl;
      valid = k;
      reads = λ j. unfold or_else in refl;
      weighs = λ sz. omega arith;
    },
  )
  open_lem i ([] ∷ rs) h a k o =
      let (h', r) = open_lem (i + 1) rs h a.2 k (Older-suc i h o) in
      (
        h',
        record {
          done = rw (open_all, open_none i h) r.done;
          valid = r.valid;
          reads = λ j.
              r.reads j
              ∙ ap (λ o. or_else o (value_of (newest h j))) (sym (or_else-none (newest_of rs j)));
          weighs = λ sz. omega (arith, r.weighs sz);
        },
      )
  open_lem i ((e ∷ es) ∷ rs) h a k o =
      let s : Run = record { it = es; src_idx = i; key = e.0; value = e.1; prev = some e.0 } in
      let fresh = Older-Fresh i h o in
      let ok : RunOk P s = record { ascending = a.0; fit = a.1; last = refl } in
      let (h', r) =
        open_lem (i + 1) rs (push s h) a.2 (push-HeapOk P s h ok fresh k)
          (Older-push (i + 1) s h (omega arith) (Older-suc i h o)) in
      (
        h',
        record {
          done = rw (open_all, open_one i e es h) r.done;
          valid = r.valid;
          reads = λ j.
              r.reads j
              ∙ ap (or_else (newest_of rs j)) (
                  ap value_of (newest-push s h j fresh)
                  ∙ hides i (assoc j (e ∷ es)) (newest h j) (newest-Under i h j o))
              ∙ sym (or_else_assoc (newest_of rs j) (assoc j (e ∷ es)) (value_of (newest h j)));
          weighs = λ sz. omega (arith, r.weighs sz, weight-push sz s h);
        },
      )

  -- The merge of the runs `rs`.
  pub record Merged (fuel : ℕ) (rs : List (List Entry)) : Type 0 where
    pub heap : List Run
    pub opened : new_merge_iterator next_entry rs ≡ some heap
    pub out : List Entry
    pub done : drain (merge_next next_entry) fuel heap ≡ some out
    pub ascending : IsAscending out
    pub fit : All P out
    pub reads : (j : Bytes) → assoc j out ≡ newest_of rs j
    pub no_larger : (sz : Entry → ℕ) → size sz out ≤ total sz rs

  pub merge_runs :
      (rs : List (List Entry)) (fuel : ℕ) → AllRuns P rs → total one rs < fuel → Merged fuel rs
  unfolding new_merge_iterator
  merge_runs rs fuel a enough =
      let (h, r) = open_lem 0 rs [] a tt tt in
      let (out, d) = drain_lem fuel h r.valid (omega (arith, r.weighs one)) in
      record {
        heap = h;
        opened = r.done;
        out = out;
        done = d.done;
        ascending = d.ascending;
        fit = d.fit;
        reads = λ j. d.reads j ∙ r.reads j ∙ (unfold newest in or_else-none (newest_of rs j));
        no_larger = λ sz. omega (arith, d.no_larger sz, r.weighs sz);
      }
