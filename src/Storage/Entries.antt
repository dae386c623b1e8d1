-- ===== src/Storage/Entries.antt =====
-- Runs of entries (istorage.LogEntry: a key and a value, nil for a tombstone) in ascending order of
-- their keys, as collectAllEntry gives them and an SSTable holds them.
use ban_db.Prelude.{
  ℕ, ◌+◌, List, [], ◌∷◌, ◌≡◌, refl, arith, true, Option, none, some, if◌then◌else◌,
}
use ban_db.Bytes.{Bytes}
use ban_db.Bytes.Order.{less, same, less_trans, same_comm, less→not-same}
use ban_db.Storage.SkipList.{Node, entries_of}
use ban_db.Storage.SkipList.Search
use ban_db.Storage.SkipList.Table.{lookup, AllNodes}

abbrev pub Entry : Type 0
Entry = Bytes × Option Bytes

-- The entry of a key: `none` if there is none, `some none` for a tombstone.
unfoldable pub assoc : Bytes → List Entry → Option (Option Bytes)
assoc key [] = none
assoc key ((k, v) ∷ es) = if same k key then some v else assoc key es

-- What is looked up second counts only where the first has nothing; a tombstone is something.
unfoldable pub or_else : Option (Option Bytes) → Option (Option Bytes) → Option (Option Bytes)
or_else (some v) r = some v
or_else none r = r

pub or_else_assoc :
    (a b c : Option (Option Bytes)) → or_else (or_else a b) c ≡ or_else a (or_else b c)
unfolding or_else
or_else_assoc none b c = refl
or_else_assoc (some v) b c = refl

pub or_else-none : (a : Option (Option Bytes)) → or_else a none ≡ a
unfolding or_else
or_else-none none = refl
or_else-none (some v) = refl

abbrev pub Above : Bytes → List Entry → Type 0
Above key [] = Unit
Above key (e ∷ es) = (less key e.0 ≡ true) × Above key es

abbrev pub IsAscending : List Entry → Type 0
IsAscending [] = Unit
IsAscending (e ∷ es) = Above e.0 es × IsAscending es

Above-entries_of : (key : Bytes) (s : List Node) → Search.Above key s → Above key (entries_of s)
unfolding entries_of
Above-entries_of key [] a = tt
Above-entries_of key (n ∷ s) a = (a.0, Above-entries_of key s a.1)

pub IsAscending-entries_of : (s : List Node) → Search.IsAscending s → IsAscending (entries_of s)
unfolding entries_of
IsAscending-entries_of [] a = tt
IsAscending-entries_of (n ∷ s) a = (Above-entries_of n.key s a.1, IsAscending-entries_of s a.2)

pub assoc-entries_of : (key : Bytes) (s : List Node) → assoc key (entries_of s) ≡ lookup key s
unfolding assoc entries_of lookup
assoc-entries_of key [] = refl
assoc-entries_of key (n ∷ s) = ground (arith, assoc-entries_of key s)

-- The key of the last entry.
unfoldable pub last_key : Bytes → List Entry → Bytes
last_key k [] = k
last_key k (e ∷ es) = last_key e.0 es

pub assoc-Above : (key : Bytes) (es : List Entry) → Above key es → assoc key es ≡ none
unfolding assoc
assoc-Above key [] a = refl
assoc-Above key (e ∷ es) a =
    ground (arith, assoc-Above key es a.1, less→not-same key e.0 a.0, same_comm e.0 key)

pub Above-trans : (a b : Bytes) (es : List Entry) → less a b ≡ true → Above b es → Above a es
Above-trans a b [] h s = tt
Above-trans a b (e ∷ es) h s = (less_trans a b e.0 h s.0, Above-trans a b es h s.1)

-- Nothing lies outside the range from the first key to the last.
pub assoc-below :
    (key : Bytes) (e : Entry) (es : List Entry)
    → IsAscending (e ∷ es)
    → less key e.0 ≡ true
    → assoc key (e ∷ es) ≡ none
assoc-below key e es asc h = assoc-Above key (e ∷ es) (h, Above-trans key e.0 es h asc.0)

pub less-last_key :
    (k : Bytes) (es : List Entry) (key : Bytes)
    → Above k es
    → IsAscending es
    → less (last_key k es) key ≡ true
    → less k key ≡ true
unfolding last_key
less-last_key k [] key a asc h = h
less-last_key k (e ∷ es) key a asc h =
    less_trans k e.0 key a.0 (less-last_key e.0 es key asc.0 asc.1 h)

pub assoc-past :
    (key : Bytes) (e : Entry) (es : List Entry)
    → IsAscending (e ∷ es)
    → less (last_key e.0 es) key ≡ true
    → assoc key (e ∷ es) ≡ none
unfolding assoc last_key
assoc-past key e [] asc h =
    let below = less-last_key e.0 [] key asc.0 asc.1 h in ground (arith, less→not-same e.0 key)
assoc-past key e (f ∷ es) asc h =
    let below = less-last_key e.0 (f ∷ es) key asc.0 asc.1 h in
    ground (arith, less→not-same e.0 key, assoc-past key f es asc.1 h)

abbrev pub All : (Bytes → Option Bytes → Type 0) → List Entry → Type 0
All P [] = Unit
All P (e ∷ es) = P e.0 e.1 × All P es

pub All-entries_of :
    (P : Bytes → Option Bytes → Type 0) (s : List Node) → AllNodes P s → All P (entries_of s)
unfolding entries_of
All-entries_of P [] a = tt
All-entries_of P (n ∷ s) a = (a.0, All-entries_of P s a.1)

-- A run of entries that a file can be written from: the first and the others.
abbrev pub FileRun : Type 0
FileRun = Entry × List Entry

abbrev pub entries : FileRun → List Entry
entries (e, es) = e ∷ es

-- The size of some entries, by a size of each.
abbrev pub size : (Entry → ℕ) → List Entry → ℕ
size sz [] = 0
size sz (e ∷ es) = sz e + size sz es

abbrev pub total : (Entry → ℕ) → List (List Entry) → ℕ
total sz [] = 0
total sz (r ∷ rs) = size sz r + total sz rs

-- What the runs say of a key, the newest one, which is the last, first.
unfoldable pub newest_of : List (List Entry) → Bytes → Option (Option Bytes)
newest_of [] j = none
newest_of (r ∷ newer) j = or_else (newest_of newer j) (assoc j r)

module _ (P : Bytes → Option Bytes → Type 0) where
  abbrev pub AllRuns : List (List Entry) → Type 0
  AllRuns [] = Unit
  AllRuns (r ∷ rs) = IsAscending r × All P r × AllRuns rs
