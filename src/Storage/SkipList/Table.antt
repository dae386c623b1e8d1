-- ===== src/Storage/SkipList/Table.antt =====
-- What a skip list means: a table in ascending order of the keys, with the plain lookup and the plain
-- insertion that the linked structure is compared with.
use ban_db.Prelude.{
  ℕ, ◌+◌, ◌≤◌, ◌<◌, List, [], ◌∷◌, ◌≡◌, refl, arith, length, true, false, Option, none, some,
  if◌then◌else◌, Bool-cases, inl, inr,
}
use ban_db.Bytes.{Bytes}
use ban_db.Bytes.Order.{
  less, same, less_trans, less_total, less→not-same, same→eq, same_refl, same_comm,
}
use ban_db.Storage.SkipList.{Node, value_len}
use ban_db.Storage.SkipList.Search.{Above, IsAscending}

unfoldable pub lookup : Bytes → List Node → Option (Option Bytes)
lookup key [] = none
lookup key (n ∷ s) = if same n.key key then some n.value else lookup key s

-- Insertion into the ordered table.
unfoldable pub put : ℕ → Bytes → Option Bytes → List Node → List Node
put height key value [] = record { height = height; key = key; value = value } ∷ []
put height key value (n ∷ s) =
    let rest = put height key value s in
    if less n.key key
    then n ∷ rest
    else if same n.key key
    then record n { value = value } ∷ s
    else record { height = height; key = key; value = value } ∷ n ∷ s

abbrev pub Levels : ℕ → List Node → Type 0
Levels level [] = Unit
Levels level (n ∷ s) = (n.height ≤ level) × Levels level s

abbrev pub AllNodes : (Bytes → Option Bytes → Type 0) → List Node → Type 0
AllNodes P [] = Unit
AllNodes P (n ∷ s) = P n.key n.value × AllNodes P s

-- The bytes of all keys and values.
unfoldable pub weight : List Node → ℕ
weight [] = 0
weight (n ∷ s) = length n.key + value_len n.value + weight s

pub lookup-Above : (key : Bytes) (s : List Node) → Above key s → lookup key s ≡ none
unfolding lookup
lookup-Above key [] above = refl
lookup-Above key (n ∷ s) above =
    ground (arith, lookup-Above key s above.1, less→not-same key n.key above.0, same_comm n.key key)

pub Above-trans : (a b : Bytes) (s : List Node) → less a b ≡ true → Above b s → Above a s
Above-trans a b [] h above = tt
Above-trans a b (n ∷ s) h above = (less_trans a b n.key h above.0, Above-trans a b s h above.1)

-- Behind a greater key there is only what is greater still.
pub lookup-past :
    (key : Bytes) (n : Node) (s : List Node)
    → less n.key key ≡ false
    → same n.key key ≡ false
    → Above n.key s
    → lookup key s ≡ none
lookup-past key n s e q above =
    lookup-Above key s (Above-trans key n.key s (less_total n.key key e q) above)

pub lookup-put :
    (height : ℕ) (key : Bytes) (value : Option Bytes) (s : List Node) (j : Bytes)
    → lookup j (put height key value s) ≡ (if same key j then some value else lookup j s)
unfolding lookup put
lookup-put height key value [] j = refl
lookup-put height key value (n ∷ s) j = ground (
  arith,
  lookup-put height key value s j,
  less→not-same n.key key,
  same→eq n.key j,
  same→eq key j,
  same→eq n.key key,
  same_refl j,
  same_refl key,
)

Above-put :
    (a : Bytes) (height : ℕ) (key : Bytes) (value : Option Bytes) (s : List Node)
    → less a key ≡ true
    → Above a s
    → Above a (put height key value s)
unfolding put
Above-put a height key value [] h above = (h, tt)
Above-put a height key value (n ∷ s) h above = elim (Bool-cases (less n.key key)) [
  | inl e ↦ rw e (above.0, Above-put a height key value s h above.1)
  | inr e ↦ elim (Bool-cases (same n.key key)) [
    | inl q ↦ rw (e, q) above
    | inr q ↦ rw (e, q) (h, above)
  ]
]

pub IsAscending-put :
    (height : ℕ) (key : Bytes) (value : Option Bytes) (s : List Node)
    → 0 < height
    → IsAscending s
    → IsAscending (put height key value s)
unfolding put
IsAscending-put height key value [] h asc = (h, tt, tt)
IsAscending-put height key value (n ∷ s) h asc = elim (Bool-cases (less n.key key)) [
  | inl e ↦ rw e (
    asc.0,
    Above-put n.key height key value s e asc.1,
    IsAscending-put height key value s h asc.2,
  )
  | inr e ↦ elim (Bool-cases (same n.key key)) [
    | inl q ↦ rw (e, q) asc
    | inr q ↦
        let above = less_total n.key key e q in
        rw (e, q) (h, (above, Above-trans key n.key s above asc.1), asc)
  ]
]

pub Levels-put :
    (height : ℕ) (key : Bytes) (value : Option Bytes) (s : List Node) (level : ℕ)
    → height ≤ level
    → Levels level s
    → Levels level (put height key value s)
unfolding put
Levels-put height key value [] level h lv = (h, tt)
Levels-put height key value (n ∷ s) level h lv = elim (Bool-cases (less n.key key)) [
  | inl e ↦ rw e (lv.0, Levels-put height key value s level h lv.1)
  | inr e ↦ elim (Bool-cases (same n.key key)) [ inl q ↦ rw (e, q) lv | inr q ↦ rw (e, q) (h, lv) ]
]

pub Levels-mono : (s : List Node) (l m : ℕ) → l ≤ m → Levels l s → Levels m s
Levels-mono [] l m h lv = tt
Levels-mono (n ∷ s) l m h lv = (omega arith, Levels-mono s l m h lv.1)

-- insert adds one node or none: which, and how much it weighs.
abbrev pub growth : Bytes → Option Bytes → Option (Option Bytes) → ℕ
growth key value none = length key + value_len value
growth key value (some old) = value_len value

abbrev pub shrink : Option (Option Bytes) → ℕ
shrink none = 0
shrink (some old) = value_len old

abbrev pub fresh : Option (Option Bytes) → ℕ
fresh none = 1
fresh (some old) = 0

pub weight-put :
    (height : ℕ) (key : Bytes) (value : Option Bytes) (s : List Node)
    → IsAscending s
    → weight (put height key value s) + shrink (lookup key s)
      ≡ weight s + growth key value (lookup key s)
unfolding weight put lookup
weight-put height key value [] asc = omega arith
weight-put height key value (n ∷ s) asc = elim (Bool-cases (less n.key key)) [
  | inl e ↦ rw (e, less→not-same n.key key e) (omega (arith, weight-put height key value s asc.2))
  | inr e ↦ elim (Bool-cases (same n.key key)) [
    | inl q ↦ rw (e, q) (omega arith)
    | inr q ↦ rw (e, q, lookup-past key n s e q asc.1) (omega arith)
  ]
]

pub length-put :
    (height : ℕ) (key : Bytes) (value : Option Bytes) (s : List Node)
    → IsAscending s
    → length (put height key value s) ≡ length s + fresh (lookup key s)
unfolding put lookup
length-put height key value [] asc = omega arith
length-put height key value (n ∷ s) asc = elim (Bool-cases (less n.key key)) [
  | inl e ↦ rw (e, less→not-same n.key key e) (omega (arith, length-put height key value s asc.2))
  | inr e ↦ elim (Bool-cases (same n.key key)) [
    | inl q ↦ rw (e, q) (omega arith)
    | inr q ↦ rw (e, q, lookup-past key n s e q asc.1) (omega arith)
  ]
]

-- An overwrite changes no height.
pub Levels-put_old :
    (height : ℕ) (key : Bytes) (value old : Option Bytes) (s : List Node) (level : ℕ)
    → IsAscending s
    → lookup key s ≡ some old
    → Levels level s
    → Levels level (put height key value s)
unfolding put lookup
Levels-put_old height key value old [] level asc found lv = cc
Levels-put_old height key value old (n ∷ s) level asc found lv =
    elim (Bool-cases (less n.key key)) [
      | inl e ↦ rw e (
        lv.0,
        Levels-put_old height key value old s level asc.2 (rw (less→not-same n.key key e) at found)
            lv.1,
      )
      | inr e ↦ elim (Bool-cases (same n.key key)) [
        | inl q ↦ rw (e, q) lv
        | inr q ↦ cc (rw q at found, lookup-past key n s e q asc.1)
      ]
    ]

pub All-put :
    (P : Bytes → Option Bytes → Type 0) (height : ℕ) (key : Bytes) (value : Option Bytes)
    (s : List Node)
    → P key value
    → AllNodes P s
    → AllNodes P (put height key value s)
unfolding put
All-put P height key value [] p all = (p, tt)
All-put P height key value (n ∷ s) p all = elim (Bool-cases (less n.key key)) [
  | inl e ↦ rw e (all.0, All-put P height key value s p all.1)
  | inr e ↦ elim (Bool-cases (same n.key key)) [
    | inl q ↦ rw (e, q) (rw (same→eq n.key key q) p, all.1)
    | inr q ↦ rw (e, q) (p, all)
  ]
]
