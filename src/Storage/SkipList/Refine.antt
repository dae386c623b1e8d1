-- ===== src/Storage/SkipList/Refine.antt =====
-- SkipList against the ordered table: search, insert and firstGTE beside the plain lookup, insertion and
-- cut, and the counters size, level and byteSize.
use ban_db.Prelude.{
  ℕ, zero, suc, ◌+◌, ◌-◌, ◌≤◌, ◌<◌, List, [], ◌∷◌, ◌++◌, ◌≡◌, refl, sym, ◌∙◌, ap, arith, length,
  Option, none, some, if◌then◌else◌, take, Bool-cases, inl, inr,
}
use ban_db.Prelude.Int.{ℤ, pos, ◌+ℤ◌, ◌-ℤ◌, int_laws}
use ban_db.Bytes.{Bytes}
use ban_db.Bytes.Order.{less, same, less→not-same}
use ban_db.Storage.SkipList.{
  Node, SkipList, new_skip_list, value_len, descend, first_gte, found, search, before, max_level,
  insert_at, insert,
}
use ban_db.Storage.SkipList.Search.{IsAscending, from_key, descend_lem}
use ban_db.Storage.SkipList.Table.{
  lookup, put, lookup-past, Levels-put_old, growth, shrink, fresh, weight-put, length-put, Levels,
  weight, lookup-put, IsAscending-put, Levels-put, Levels-mono,
}

pub record IsValid (sl : SkipList) : Type 0 where
  pub ascending : IsAscending sl.nodes
  pub levels : Levels sl.level sl.nodes
  pub counted : sl.size ≡ length sl.nodes
  pub weighed : sl.byte_size ≡ pos (weight sl.nodes)

pub IsValid-new : IsValid new_skip_list
unfolding weight
IsValid-new = record { ascending = tt; levels = tt; counted = refl; weighed = refl }

-- A list with no level has no node.
descend-IsValid :
    (sl : SkipList) (key : Bytes)
    → IsValid sl
    → descend sl.level key sl.nodes ≡ from_key key sl.nodes
descend-IsValid sl key v = go sl.level sl.nodes v.ascending v.levels
  where
    go : (l : ℕ) (s : List Node) → IsAscending s → Levels l s → descend l key s ≡ from_key key s
    go zero [] asc lv = unfold descend from_key in refl
    go zero (n ∷ s) asc lv = absurd (omega arith)
    go (suc l) s asc lv = descend_lem (suc l) key s (omega arith) asc

found-from_key :
    (key : Bytes) (s : List Node) → IsAscending s → found key (from_key key s) ≡ lookup key s
unfolding found from_key lookup
found-from_key key [] asc = refl
found-from_key key (n ∷ s) asc = elim (Bool-cases (less n.key key)) [
  | inl e ↦ rw (e, less→not-same n.key key e) (found-from_key key s asc.2)
  | inr e ↦ elim (Bool-cases (same n.key key)) [
    | inl q ↦ rw (e, q)
    | inr q ↦ rw (e, q) (sym (lookup-past key n s e q asc.1))
  ]
]

-- In a valid list search finds what the table holds at the key, tombstones included, and firstGTE
-- gives the nodes from the first key that is not smaller.
pub search-lookup :
    (sl : SkipList) (key : Bytes)
    → IsValid sl
    → (search sl key ≡ lookup key sl.nodes) × (first_gte sl key ≡ from_key key sl.nodes)
unfolding search first_gte
search-lookup sl key v = (
  ap (found key) (descend-IsValid sl key v) ∙ found-from_key key sl.nodes v.ascending,
  descend-IsValid sl key v,
)

-- The nodes up to the cut.
until_key : Bytes → List Node → List Node
until_key key [] = []
until_key key (n ∷ s) = let rest = until_key key s in if less n.key key then n ∷ rest else []

length-from_key : (key : Bytes) (s : List Node) → length (from_key key s) ≤ length s
unfolding from_key
length-from_key key [] = omega arith
length-from_key key (n ∷ s) = ground (arith, length-from_key key s)

take_until :
    (key : Bytes) (s : List Node) → take (length s - length (from_key key s)) s ≡ until_key key s
unfolding from_key until_key
take_until key [] = refl
take_until key (n ∷ s) = elim (Bool-cases (less n.key key)) [
  | inl e ↦
      let one : suc (length s) - length (from_key key s)
          ≡ suc (length s - length (from_key key s)) =
        omega (arith, length-from_key key s) in
      rw (e, one, take_until key s)
  | inr e ↦ let none_left : suc (length s) - suc (length s) ≡ 0 = omega arith in rw (e, none_left)
]

-- What insert makes of the nodes, as a plain insertion.
spliced : ℕ → Bytes → Option Bytes → List Node → List Node
spliced height key value [] = record { height = height; key = key; value = value } ∷ []
spliced height key value (n ∷ s) =
    if same n.key key
    then record n { value = value } ∷ s
    else record { height = height; key = key; value = value } ∷ n ∷ s

put-spliced :
    (height : ℕ) (key : Bytes) (value : Option Bytes) (s : List Node)
    → until_key key s ++ spliced height key value (from_key key s) ≡ put height key value s
unfolding until_key spliced from_key put
put-spliced height key value [] = refl
put-spliced height key value (n ∷ s) = ground (arith, put-spliced height key value s)

put-insert_at :
    (sl : SkipList) (height : ℕ) (key : Bytes) (value : Option Bytes) (after : List Node)
    → (insert_at sl height key value after).0.nodes
      ≡ before sl.nodes after ++ spliced height key value after
unfolding insert_at spliced
put-insert_at sl height key value [] = refl
put-insert_at sl height key value (n ∷ rest) = ground arith

abbrev pub delta_of : Bytes → Option Bytes → Option (Option Bytes) → ℤ
delta_of key value none = pos (length key) +ℤ pos (value_len value)
delta_of key value (some old) = pos (value_len value) -ℤ pos (value_len old)

abbrev pub level_of : ℕ → ℕ → Option (Option Bytes) → ℕ
level_of height level none = max_level height level
level_of height level (some old) = level

counters-insert_at :
    (sl : SkipList) (height : ℕ) (key : Bytes) (value : Option Bytes) (after : List Node)
    → ((insert_at sl height key value after).0.size ≡ sl.size + fresh (found key after))
      × ((insert_at sl height key value after).0.level ≡ level_of height sl.level (found key after))
      × ((insert_at sl height key value after).1 ≡ delta_of key value (found key after))
      × ((insert_at sl height key value after).0.byte_size
          ≡ sl.byte_size +ℤ (insert_at sl height key value after).1)
unfolding insert_at found
counters-insert_at sl height key value [] = ground arith
counters-insert_at sl height key value (n ∷ rest) = ground arith

module _ (sl : SkipList) (height : ℕ) (key : Bytes) (value : Option Bytes) (v : IsValid sl) where
  pub nodes-insert : (insert sl height key value).0.nodes ≡ put height key value sl.nodes
  unfolding insert before
  nodes-insert =
      put-insert_at sl height key value (descend sl.level key sl.nodes)
      ∙ rw (descend-IsValid sl key v, take_until key sl.nodes)
          (put-spliced height key value sl.nodes)

  pub counters-insert :
      ((insert sl height key value).0.size ≡ sl.size + fresh (lookup key sl.nodes))
      × ((insert sl height key value).0.level ≡ level_of height sl.level (lookup key sl.nodes))
      × ((insert sl height key value).1 ≡ delta_of key value (lookup key sl.nodes))
      × ((insert sl height key value).0.byte_size ≡ sl.byte_size +ℤ (insert sl height key value).1)
  unfolding insert
  counters-insert =
      let eq : found key (descend sl.level key sl.nodes) ≡ lookup key sl.nodes =
        unfold search in (search-lookup sl key v).0 in
      rw eq at (counters-insert_at sl height key value (descend sl.level key sl.nodes))

  weighed-insert :
      (o : Option (Option Bytes)) (w : ℕ)
      → w + shrink o ≡ weight sl.nodes + growth key value o
      → pos (weight sl.nodes) +ℤ delta_of key value o ≡ pos w
  weighed-insert none w h = omega int_laws
  weighed-insert (some old) w h = omega int_laws

  Levels-insert :
      (o : Option (Option Bytes))
      → lookup key sl.nodes ≡ o
      → Levels (level_of height sl.level o) (put height key value sl.nodes)
  Levels-insert none e =
      Levels-put height key value sl.nodes _ (ground arith)
        (Levels-mono sl.nodes sl.level _ (ground arith) v.levels)
  Levels-insert (some old) e =
      Levels-put_old height key value old sl.nodes sl.level v.ascending e v.levels

  -- Inserting keeps the list valid: ascending keys, no height above the level, and size and byteSize
  -- the number of the nodes and the bytes of their keys and values.
  pub insert-IsValid : 0 < height → IsValid (insert sl height key value).0
  insert-IsValid h =
      let (sized, leveled, delta, weighed) = counters-insert in
      let s = sl.nodes in
      record {
        ascending = rw nodes-insert (IsAscending-put height key value s h v.ascending);
        levels = rw (nodes-insert, leveled) (Levels-insert (lookup key s) refl);
        counted =
            rw (nodes-insert, sized, v.counted) (sym (length-put height key value s v.ascending));
        weighed =
            rw (nodes-insert, weighed, delta, v.weighed)
              (weighed-insert (lookup key s) _ (weight-put height key value s v.ascending));
      }

  -- search after insert: the new value at the key, and at every other key what was found before.
  pub search-insert :
      0 < height
      → (j : Bytes)
      → search (insert sl height key value).0 j ≡ (if same key j then some value else search sl j)
  search-insert h j =
      rw
        (
          (search-lookup (insert sl height key value).0 j (insert-IsValid h)).0,
          nodes-insert,
          (search-lookup sl j v).0,
        )
        (lookup-put height key value sl.nodes j)
