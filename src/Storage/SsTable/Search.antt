-- ===== src/Storage/SsTable/Search.antt =====
-- The search for the block, in `searchBlock` of storage/zstorage/SSTable.go: the binary search over the
-- last keys, and what the blocks before and behind the one that it finds have to do with a key.

use ban_db.Prelude.{
  ℕ, zero, suc, ◌+◌, ◌/◌, ◌≤◌, ◌<◌, List, [], ◌∷◌, ◌++◌, length, get_or, true, false, ◌≡◌, arith,
  ltb, if◌then◌else◌, Bool-cases, inl, inr,
}
use ban_db.Bytes.{Bytes}
use ban_db.Bytes.Order.{less, same, less_trans, less_total, less→not-same}
use ban_db.Storage.Entries.{
  Entry, assoc, Above, IsAscending, last_key, assoc-Above, Above-trans, less-last_key,
}
use ban_db.Storage.SsTable.{BlockIndexEntry, blank, find_block}

-- The first line of the index whose last key is not smaller than the key.
unfoldable pub first_line : Bytes → List BlockIndexEntry → ℕ
first_line key [] = 0
first_line key (b ∷ bs) =
    let rest = suc (first_line key bs) in if less b.last_key key then rest else 0

-- The last keys ascend.
unfoldable pub LastsAbove : Bytes → List BlockIndexEntry → Type 0
LastsAbove k [] = Unit
LastsAbove k (b ∷ bs) = (less k b.last_key ≡ true) × LastsAbove k bs

abbrev pub AscendingLasts : List BlockIndexEntry → Type 0
AscendingLasts [] = Unit
AscendingLasts (b ∷ bs) = LastsAbove b.last_key bs × AscendingLasts bs

abbrev last_at : List BlockIndexEntry → ℕ → Bytes
last_at idx i = (get_or idx i blank).last_key

-- Before the first line the last keys are smaller, from it on they are not.
below_first :
    (key : Bytes) (idx : List BlockIndexEntry) (i : ℕ)
    → i < first_line key idx
    → less (last_at idx i) key ≡ true
unfolding first_line
below_first key [] i h = elim h [ ]
below_first key (b ∷ bs) zero h = ground arith
below_first key (b ∷ bs) (suc i) h = ground (arith, below_first key bs i)

lasts_past :
    (key k : Bytes) (bs : List BlockIndexEntry) (i : ℕ)
    → less k key ≡ false
    → LastsAbove k bs
    → i < length bs
    → less (last_at bs i) key ≡ false
unfolding LastsAbove
lasts_past key k [] i h a l = elim l [ ]
lasts_past key k (b ∷ bs) zero h a l = elim (Bool-cases (less b.last_key key)) [
  | inl e ↦ cc (less_trans k b.last_key key a.0 e, h)
  | inr e ↦ e
]
lasts_past key k (b ∷ bs) (suc i) h a l = lasts_past key k bs i h a.1 (omega arith)

from_first :
    (key : Bytes) (idx : List BlockIndexEntry) (i : ℕ)
    → AscendingLasts idx
    → first_line key idx ≤ i
    → i < length idx
    → less (last_at idx i) key ≡ false
unfolding first_line
from_first key [] i asc h l = elim l [ ]
from_first key (b ∷ bs) zero asc h l = ground arith
from_first key (b ∷ bs) (suc i) asc h l = elim (Bool-cases (less b.last_key key)) [
  | inl e ↦ from_first key bs i asc.1 (ground arith) (omega arith)
  | inr e ↦ lasts_past key b.last_key bs i e asc.0 (omega arith)
]

pub Above-left : (k : Bytes) (xs ys : List Entry) → Above k (xs ++ ys) → Above k xs
Above-left k [] ys a = tt
Above-left k (x ∷ xs) ys a = (a.0, Above-left k xs ys a.1)

pub asc_left : (xs ys : List Entry) → IsAscending (xs ++ ys) → IsAscending xs
asc_left [] ys a = tt
asc_left (x ∷ xs) ys a = (Above-left x.0 xs ys a.0, asc_left xs ys a.1)

pub asc_right : (xs ys : List Entry) → IsAscending (xs ++ ys) → IsAscending ys
asc_right [] ys a = a
asc_right (x ∷ xs) ys a = asc_right xs ys a.1

pub find_block_lem :
    (fuel : ℕ) (key : Bytes) (idx : List BlockIndexEntry) (lo hi : ℕ)
    → AscendingLasts idx
    → lo ≤ first_line key idx
    → first_line key idx ≤ hi
    → hi < length idx
    → hi < lo + fuel
    → find_block fuel key idx lo hi ≡ first_line key idx
unfolding find_block
find_block_lem zero key idx lo hi asc a b c f = omega arith
find_block_lem (suc fuel) key idx lo hi asc a b c f =
    let mid = (lo + hi) / 2 in
    elim (Bool-cases (ltb lo hi)) [
      | inr done ↦ rw done (ground arith)
      | inl more ↦ elim (Bool-cases (less (last_at idx mid) key)) [
        | inl e ↦
            rw (more, e)
              (find_block_lem fuel key idx (mid + 1) hi asc
                (ground (arith, from_first key idx mid asc)) b c (ground arith))
        | inr e ↦
            rw (more, e)
              (find_block_lem fuel key idx lo mid asc a (ground (arith, below_first key idx mid))
                (ground arith) (ground arith))
      ]
    ]

-- What stands in a block with smaller keys only does not count.
pub assoc-skip :
    (key : Bytes) (e : Entry) (es rest : List Entry)
    → IsAscending (e ∷ (es ++ rest))
    → less (last_key e.0 es) key ≡ true
    → assoc key (e ∷ (es ++ rest)) ≡ assoc key rest
unfolding assoc last_key
assoc-skip key e [] rest asc h = ground (arith, less→not-same e.0 key)
assoc-skip key e (x ∷ es) rest asc h =
    let below =
      less-last_key e.0 (x ∷ es) key (Above-left e.0 (x ∷ es) rest asc.0)
        (asc_left (x ∷ es) rest asc.1) h in
    rw (less→not-same e.0 key below) (assoc-skip key x es rest asc.1 h)

-- Nor does what follows a block whose last key is not smaller.
pub assoc-stop :
    (key : Bytes) (e : Entry) (es rest : List Entry)
    → IsAscending (e ∷ (es ++ rest))
    → less (last_key e.0 es) key ≡ false
    → assoc key (e ∷ (es ++ rest)) ≡ assoc key (e ∷ es)
unfolding assoc last_key
assoc-stop key e [] rest asc h = elim (Bool-cases (same e.0 key)) [
  | inl q ↦ rw q
  | inr q ↦ rw q (assoc-Above key rest (Above-trans key e.0 rest (less_total e.0 key h q) asc.0))
]
assoc-stop key e (x ∷ es) rest asc h = rw (assoc-stop key x es rest asc.1 h)
