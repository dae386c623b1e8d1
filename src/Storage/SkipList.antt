-- ===== src/Storage/SkipList.antt =====
-- SkipList of storage/zstorage/memtable.go. The nodes stand in the order of the bottom level; a node
-- with `height` h is linked on the levels below h. A position p is written as the nodes behind it,
-- so `p.Next[i]` is the first node of that list whose height passes i, and a new node stands on each
-- of its levels between its neighbours there (SkipList/Search.antt shows that these are
-- `update[i]` and `update[i].Next[i]`). A nil value is a tombstone.
pub mod Search
pub mod Table
pub mod Refine
use ban_db.Prelude.{
  ℕ, zero, suc, ◌+◌, ◌-◌, List, [], ◌∷◌, ◌++◌, length, ltb, Bool, true, false, Option, none, some,
  if◌then◌else◌, take,
}
use ban_db.Prelude.Int.{ℤ, pos, ◌+ℤ◌, ◌-ℤ◌}
use ban_db.Bytes.{Bytes}
use ban_db.Bytes.Order.{less, same}

pub record Node : Type 0 where
  pub height : ℕ
  pub key : Bytes
  pub value : Option Bytes

pub record SkipList : Type 0 where
  pub size : ℕ
  pub level : ℕ
  pub nodes : List Node
  pub byte_size : ℤ

abbrev pub new_skip_list : SkipList
new_skip_list = record { size = 0; level = 0; nodes = []; byte_size = pos 0 }

-- len(value); nil has length 0
abbrev pub value_len : Option Bytes → ℕ
value_len none = 0
value_len (some v) = length v

-- The inner loop on level i: from the position `here`, forward while p.Next[i] has a smaller key.
-- `s` is what is still to be looked through for the next node of level i.
pub walk : ℕ → Bytes → List Node → List Node → List Node
walk i key here [] = here
walk i key here (n ∷ s) =
    let forward = walk i key s s in
    let over = walk i key here s in
    if ltb i n.height then (if less n.key key then forward else here) else over

-- The outer loop: the levels below `i`, from the top down.
pub descend : ℕ → Bytes → List Node → List Node
unfolding walk
descend zero key p = p
descend (suc i) key p = descend i key (walk i key p p)

-- firstGTE returns the first node here.
unfoldable pub first_gte : SkipList → Bytes → List Node
unfolding descend
first_gte sl key = descend sl.level key sl.nodes

found : Bytes → List Node → Option (Option Bytes)
found key [] = none
found key (n ∷ s) = if same n.key key then some n.value else none

-- `none` is found == false; `some none` is a tombstone.
unfoldable pub search : SkipList → Bytes → Option (Option Bytes)
unfolding descend found
search sl key = found key (descend sl.level key sl.nodes)

-- The nodes up to `update[0]`, given those behind it.
before : List Node → List Node → List Node
before all after = take (length all - length after) all

abbrev pub max_level : ℕ → ℕ → ℕ
max_level new_level level = if ltb level new_level then new_level else level

-- A new node behind `update[0]`, on the levels below `height`.
add : SkipList → ℕ → Bytes → Option Bytes → List Node → SkipList × ℤ
unfolding before
add sl height key value after =
    let delta = pos (length key) +ℤ pos (value_len value) in
    (
      record {
        size = sl.size + 1;
        level = max_level height sl.level;
        nodes =
            before sl.nodes after ++ (record { height = height; key = key; value = value } ∷ after);
        byte_size = sl.byte_size +ℤ delta;
      },
      delta,
    )

overwrite : SkipList → Option Bytes → List Node → Node → List Node → SkipList × ℤ
unfolding before
overwrite sl value after n rest =
    let delta = pos (value_len value) -ℤ pos (value_len n.value) in
    (
      record sl {
        nodes = before sl.nodes after ++ (record n { value = value } ∷ rest);
        byte_size = sl.byte_size +ℤ delta;
      },
      delta,
    )

insert_at : SkipList → ℕ → Bytes → Option Bytes → List Node → SkipList × ℤ
unfolding add overwrite
insert_at sl height key value [] = add sl height key value []
insert_at sl height key value (n ∷ rest) =
    if same n.key key
    then overwrite sl value (n ∷ rest) n rest
    else add sl height key value (n ∷ rest)

-- `height` is what randomLevel() returns. The second part is the returned delta of byteSize.
unfoldable pub insert : SkipList → ℕ → Bytes → Option Bytes → SkipList × ℤ
unfolding insert_at descend
insert sl height key value = insert_at sl height key value (descend sl.level key sl.nodes)

-- collectAllEntry: the keys and values along the bottom level.
unfoldable pub entries_of : List Node → List (Bytes × Option Bytes)
entries_of [] = []
entries_of (n ∷ s) = (n.key, n.value) ∷ entries_of s

unfoldable pub collect_all_entry : SkipList → List (Bytes × Option Bytes)
unfolding entries_of
collect_all_entry sl = entries_of sl.nodes
