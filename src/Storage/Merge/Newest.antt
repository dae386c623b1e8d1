-- ===== src/Storage/Merge/Newest.antt =====
-- What the sources of a merge (storage/zstorage/merge_iterator.go) say of a key: the version of the
-- source with the largest index.
use ban_db.Prelude.{
  ℕ, ◌≡◌, ◌≢◌, refl, sym, ◌∙◌, ap, List, [], ◌∷◌, true, false, Option, none, some, arith,
  Bool-cases, inl, inr, if◌then◌else◌, ltb,
}
use ban_db.Bytes.{Bytes}
use ban_db.Bytes.Order.{less, same, same_comm, same_refl}
use ban_db.Storage.Entries.{Entry, assoc, IsAscending, assoc-Above, Above-trans}
use ban_db.Storage.Merge.{before, push}
use ban_db.Storage.Merge.Queue.{Run, run, AllAfter, Fresh, Beyond, HeapOk}

-- A version with the index of its source.
abbrev pub Version : Type 0
Version = ℕ × Option Bytes

abbrev pub version : ℕ → Option (Option Bytes) → Option Version
version i none = none
version i (some v) = some (i, v)

abbrev pub value_of : Option Version → Option (Option Bytes)
value_of none = none
value_of (some v) = some v.1

-- Of two versions the one with the larger index.
unfoldable pub later : Option Version → Option Version → Option Version
later none b = b
later (some a) none = some a
later (some a) (some b) = if ltb a.0 b.0 then some b else some a

unfoldable pub own : Run → Bytes → Option Version
own s j = version s.src_idx (assoc j (run s))

unfoldable pub newest : List Run → Bytes → Option Version
newest [] j = none
newest (s ∷ h) j = later (own s j) (newest h j)

later_swap :
    (i k : ℕ) (x y : Option (Option Bytes)) (c : Option Version)
    → i ≢ k
    → later (version i x) (later (version k y) c) ≡ later (version k y) (later (version i x) c)
unfolding later
later_swap i k none none c d = refl
later_swap i k none (some w) none d = refl
later_swap i k none (some w) (some c) d = refl
later_swap i k (some v) none none d = refl
later_swap i k (some v) none (some c) d = refl
later_swap i k (some v) (some w) none d = ground arith
later_swap i k (some v) (some w) (some c) d = ground arith

-- The order in the heap does not matter to what it says.
pub newest-push :
    (s : Run) (h : List Run) (j : Bytes)
    → Fresh s.src_idx h
    → newest (push s h) j ≡ later (own s j) (newest h j)
unfolding newest push own
newest-push s [] j f = refl
newest-push s (t ∷ h) j f = elim (Bool-cases (before s t)) [
  | inl e ↦ rw e
  | inr e ↦ rw e (
      ap (λ r. later (own t j) r) (newest-push s h j f.1)
      ∙ later_swap t.src_idx s.src_idx (assoc j (run t)) (assoc j (run s)) (newest h j)
          (λ z. f.0 (sym z)))
]

-- A key before all the others is in no source.
own-none : (s : Run) (j : Bytes) → IsAscending (run s) → less j s.key ≡ true → own s j ≡ none
unfolding own
own-none s j asc h =
    ap (version s.src_idx) (assoc-Above j (run s) (h, Above-trans j s.key s.it h asc.0))

pub newest-Beyond :
    (P : Bytes → Option Bytes → Type 0) (h : List Run) (k : Bytes)
    → HeapOk P h
    → Beyond k h
    → newest h k ≡ none
unfolding newest later
newest-Beyond P [] k ok b = refl
newest-Beyond P (s ∷ h) k ok b = rw (own-none s k ok.0.ascending b.0) (newest-Beyond P h k ok.3 b.1)

own_first : (s : Run) (j : Bytes) → same s.key j ≡ true → own s j ≡ some (s.src_idx, s.value)
unfolding own assoc
own_first s j h = rw h

-- A heap that comes after `s`: at the key of `s` it has nothing newer.
older_than :
    (P : Bytes → Option Bytes → Type 0) (s : Run) (h : List Run)
    → HeapOk P h
    → AllAfter s h
    → later (some (s.src_idx, s.value)) (newest h s.key) ≡ some (s.src_idx, s.value)
unfolding newest later before
older_than P s [] ok a = refl
older_than P s (t ∷ h) ok a = elim (Bool-cases (same t.key s.key)) [
  | inl e ↦
      let ih = older_than P s h ok.3 a.1 in
      rw (own_first t s.key e) (ground (arith, same_comm s.key t.key, ih))
  | inr e ↦
      let far : less s.key t.key ≡ true = ground (arith, same_comm s.key t.key) in
      rw (own-none t s.key ok.0.ascending far) (older_than P s h ok.3 a.1)
]

-- The head of the heap has the newest version of its key.
pub newest_head :
    (P : Bytes → Option Bytes → Type 0) (s : Run) (h : List Run)
    → HeapOk P (s ∷ h)
    → newest (s ∷ h) s.key ≡ some (s.src_idx, s.value)
unfolding newest
newest_head P s h ok = rw (own_first s s.key (same_refl s.key)) (older_than P s h ok.3 ok.1)

-- What a source says of the keys after its first does not change when that one is taken.
pub own_rest :
    (s t : Run) (e : Entry) (es : List Entry) (j : Bytes)
    → s.it ≡ e ∷ es
    → run t ≡ e ∷ es
    → t.src_idx ≡ s.src_idx
    → same s.key j ≡ false
    → own t j ≡ own s j
unfolding own assoc
own_rest s t e es j hs ht hi h =
    let past : own s j ≡ version s.src_idx (assoc j s.it) = rw h in
    ap (λ i. version i (assoc j (run t))) hi
    ∙ ap (λ r. version s.src_idx (assoc j r)) (ht ∙ sym hs)
    ∙ sym past

pub own_last : (s : Run) (j : Bytes) → s.it ≡ [] → same s.key j ≡ false → own s j ≡ none
unfolding own assoc
own_last s j hs h = rw (h, hs)
