-- ===== src/Storage/Merge/Steps.antt =====
-- One step of the merge of storage/zstorage/merge_iterator.go over sources that ascend: advance, the loop
-- that drops older versions, and Next.
use mathlib.Core.Path.{subst}
use ban_db.Prelude.{
  ℕ, zero, suc, ◌+◌, ◌≤◌, ◌≡◌, ◌≢◌, refl, sym, ◌∙◌, ap, List, [], ◌∷◌, length, true, false, Option,
  some, arith, Bool-cases, inl, inr,
}
use ban_db.Bytes.{Bytes}
use ban_db.Bytes.Order.{
  less, same, less_trans, same→eq, same_comm, less→not-same, less_irrefl, less_asymm, less_total,
}
use ban_db.Storage.Entries.{Entry, IsAscending, All, size}
use ban_db.Storage.Merge.{
  before, push, pull, live, drained, advance, discard, merge_next, next_entry, item,
}
use ban_db.Storage.Merge.Queue.{
  Run, run, AllAfter, Fresh, NoneBelow, Beyond, RunOk, HeapOk, Fresh-push, NoneBelow-push,
  push-HeapOk, at_key, at_key-push, at_key-le, weight, weight-push,
}
use ban_db.Storage.Merge.Newest.{newest, later, own, newest-push, own_rest, own_last, newest_head}

-- The source after its next entry.
abbrev stepped : Run → Entry → List Entry → Run
stepped s e es = record s { it = es; key = e.0; value = e.1; prev = some e.0 }

module _ (P : Bytes → Option Bytes → Type 0) where
  -- `h'` is the heap `h` without the entry of `s`, of which nothing but that entry is lost.
  record Advanced (s : Run) (h h' : List Run) : Type 0 where
    done : advance next_entry s h ≡ some h'
    valid : HeapOk P h'
    fresh : (i : ℕ) → i ≢ s.src_idx → Fresh i h → Fresh i h'
    none_below : (k : Bytes) → less s.key k ≡ false → NoneBelow k h → NoneBelow k h'
    same_count : (k : Bytes) → s.key ≡ k → at_key k h' ≡ at_key k h
    looks : (j : Bytes) → same s.key j ≡ false → newest h' j ≡ later (own s j) (newest h j)
    lighter : (sz : Entry → ℕ) → weight sz h' + sz (s.key, s.value) ≡ size sz (run s) + weight sz h

  pull_more :
      (s : Run) (e : Entry) (es : List Entry)
      → RunOk P s
      → s.it ≡ e ∷ es
      → pull next_entry s ≡ live (stepped s e es)
  unfolding pull next_entry
  pull_more s e es ok h =
      let asc : IsAscending ((s.key, s.value) ∷ (e ∷ es)) =
        subst (λ r. IsAscending ((s.key, s.value) ∷ r)) h ok.ascending in
      rw (h, ok.last) (rw (asc.0.0))

  pull_last : (s : Run) → s.it ≡ [] → pull next_entry s ≡ drained
  unfolding pull next_entry
  pull_last s h = rw h

  stepped-RunOk :
      (s : Run) (e : Entry) (es : List Entry)
      → RunOk P s
      → s.it ≡ e ∷ es
      → RunOk P (stepped s e es) × (less s.key e.0 ≡ true)
  stepped-RunOk s e es ok h =
      let asc : IsAscending ((s.key, s.value) ∷ (e ∷ es)) =
        subst (λ r. IsAscending ((s.key, s.value) ∷ r)) h ok.ascending in
      let fit : All P ((s.key, s.value) ∷ (e ∷ es)) =
        subst (λ r. All P ((s.key, s.value) ∷ r)) h ok.fit in
      (record { ascending = asc.1; fit = fit.1; last = refl }, asc.0.0)

  advance_lem :
      (s : Run) (h : List Run)
      → RunOk P s
      → Fresh s.src_idx h
      → HeapOk P h
      → (h' : List Run) × Advanced s h h'
  unfolding advance
  advance_lem s h ok f k = go s.it refl
    where
      go : (r : List Entry) → s.it ≡ r → (h' : List Run) × Advanced s h h'
      go [] e = (
        h,
        record {
          done = rw (advance, pull_last s e);
          valid = k;
          fresh = λ i d g. g;
          none_below = λ b l g. g;
          same_count = λ b l. refl;
          looks = λ j d. unfold later in rw (own_last s j e d);
          lighter = λ sz. rw e (omega arith);
        },
      )
      go (x ∷ r) e =
          let t = stepped s x r in
          let (t_ok, up) = stepped-RunOk s x r ok e in
          (
            push t h,
            record {
              done = rw (advance, pull_more s x r ok e);
              valid = push-HeapOk P t h t_ok f k;
              fresh = λ i d g. Fresh-push i t h d g;
              none_below = λ b l g. NoneBelow-push b t h (ground (arith, less_trans s.key x.0 b)) g;
              same_count = λ b l.
                  at_key-push b t h
                    (ap (same x.0) (sym l) ∙ same_comm x.0 s.key ∙ less→not-same s.key x.0 up);
              looks = λ j d.
                  newest-push t h j f
                  ∙ ap (λ o. later o (newest h j)) (own_rest s t x r j e refl refl d);
              lighter = λ sz. rw e (omega (arith, weight-push sz t h));
            },
          )

  -- What the loop of Next leaves, once every older version of the key `dup` is gone.
  record Discarded (fuel : ℕ) (dup : Bytes) (h h' : List Run) : Type 0 where
    done : discard next_entry fuel dup h ≡ some h'
    valid : HeapOk P h'
    beyond : Beyond dup h'
    looks : (j : Bytes) → same dup j ≡ false → newest h' j ≡ newest h j
    lighter : (sz : Entry → ℕ) → weight sz h' ≤ weight sz h

  -- A heap whose head is past the key is past it everywhere.
  AllAfter-Beyond :
      (dup : Bytes) (s : Run) (h : List Run) → less dup s.key ≡ true → AllAfter s h → Beyond dup h
  unfolding before
  AllAfter-Beyond dup s [] l a = tt
  AllAfter-Beyond dup s (t ∷ h) l a = (
    ground (arith, less_trans dup s.key t.key, same→eq s.key t.key),
    AllAfter-Beyond dup s h l a.1,
  )

  -- The older version of `s` is dropped, and the loop goes on.
  discard_more :
      (fuel : ℕ) (dup : Bytes) (s : Run) (h h₁ h₂ : List Run)
      → same s.key dup ≡ true
      → Advanced s h h₁
      → Discarded fuel dup h₁ h₂
      → Discarded (suc fuel) dup (s ∷ h) h₂
  unfolding discard newest
  discard_more fuel dup s h h₁ h₂ e a r = record {
    done = rw (discard, e, a.done) r.done;
    valid = r.valid;
    beyond = r.beyond;
    looks = λ j d. r.looks j d ∙ a.looks j (ap (λ q. same q j) (same→eq s.key dup e) ∙ d);
    lighter = λ sz. omega (arith, r.lighter sz, a.lighter sz);
  }

  fewer :
      (fuel : ℕ) (dup : Bytes) (s : Run) (h h₁ : List Run)
      → same s.key dup ≡ true
      → Advanced s h h₁
      → at_key dup (s ∷ h) ≤ suc fuel
      → at_key dup h₁ ≤ fuel
  fewer fuel dup s h h₁ e a enough =
      let counted : at_key dup h ≤ fuel = ground arith in
      omega (arith, a.same_count dup (same→eq s.key dup e))

  discard_lem :
      (fuel : ℕ) (dup : Bytes) (h : List Run)
      → HeapOk P h
      → NoneBelow dup h
      → at_key dup h ≤ fuel
      → (h' : List Run) × Discarded fuel dup h h'
  unfolding discard newest
  discard_lem zero dup [] k b enough = (
    [],
    record {
      done = refl;
      valid = tt;
      beyond = tt;
      looks = λ j d. refl;
      lighter = λ sz. omega arith;
    },
  )
  discard_lem (suc fuel) dup [] k b enough = (
    [],
    record {
      done = refl;
      valid = tt;
      beyond = tt;
      looks = λ j d. refl;
      lighter = λ sz. omega arith;
    },
  )
  discard_lem zero dup (s ∷ h) k b enough =
      let e : same s.key dup ≡ false = ground arith in
      let l : less dup s.key ≡ true = less_total s.key dup b.0 e in
      (
        s ∷ h,
        record {
          done = refl;
          valid = k;
          beyond = (l, AllAfter-Beyond dup s h l k.1);
          looks = λ j d. refl;
          lighter = λ sz. omega arith;
        },
      )
  discard_lem (suc fuel) dup (s ∷ h) k b enough = elim (Bool-cases (same s.key dup)) [
    | inr e ↦
        let l : less dup s.key ≡ true = less_total s.key dup b.0 e in
        (
          s ∷ h,
          record {
            done = rw (discard, e);
            valid = k;
            beyond = (l, AllAfter-Beyond dup s h l k.1);
            looks = λ j d. refl;
            lighter = λ sz. omega arith;
          },
        )
    | inl e ↦
        let (h₁, a) = advance_lem s h k.0 k.2 k.3 in
        let (h₂, r) =
          discard_lem fuel dup h₁ a.valid (a.none_below dup b.0 b.1)
            (fewer fuel dup s h h₁ e a enough) in
        (h₂, discard_more fuel dup s h h₁ h₂ e a r)
  ]

  NoneBelow-after : (s : Run) (h : List Run) → AllAfter s h → NoneBelow s.key h
  unfolding before
  NoneBelow-after s [] a = tt
  NoneBelow-after s (t ∷ h) a = (
    ground (arith, less_asymm s.key t.key, same→eq s.key t.key, less_irrefl t.key),
    NoneBelow-after s h a.1,
  )

  -- Next of the merge: the newest version of the least key, and then the same without that key.
  pub record Stepped (top : Run) (h h' : List Run) : Type 0 where
    pub done : merge_next next_entry (top ∷ h) ≡ item (top.key, top.value) h'
    pub valid : HeapOk P h'
    pub beyond : Beyond top.key h'
    pub first : newest (top ∷ h) top.key ≡ some (top.src_idx, top.value)
    pub looks : (j : Bytes) → same top.key j ≡ false → newest h' j ≡ newest (top ∷ h) j
    pub lighter : (sz : Entry → ℕ) → weight sz h' + sz (top.key, top.value) ≤ weight sz (top ∷ h)

  pub merge_next_lem :
      (top : Run) (h : List Run) → HeapOk P (top ∷ h) → (h' : List Run) × Stepped top h h'
  unfolding merge_next newest
  merge_next_lem top h k =
      let (h₁, a) = advance_lem top h k.0 k.2 k.3 in
      let below = a.none_below top.key (less_irrefl top.key) (NoneBelow-after top h k.1) in
      let (h₂, r) = discard_lem (length h₁) top.key h₁ a.valid below (at_key-le top.key h₁) in
      (
        h₂,
        record {
          done = rw (merge_next, a.done, r.done);
          valid = r.valid;
          beyond = r.beyond;
          first = unfold newest in newest_head P top h k;
          looks = λ j d. r.looks j d ∙ a.looks j d;
          lighter = λ sz. omega (arith, r.lighter sz, a.lighter sz);
        },
      )
