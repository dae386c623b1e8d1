-- ===== src/Storage/Bloom.antt =====
-- storage/zstorage/bloom.go and partitioned_bloom.go: the Bloom filters of the SSTables. The bit array is
-- a list with one Boolean for each bit of `bits`. The optimal sizes that the code computes with floats
-- are the parameters `optimal_m` and `optimal_k` of a filter for n keys; the code's bounds on them are
-- kept. A map from names to filters is an association list.
pub mod Positive
pub mod Partitions
use ban_db.Prelude.{
  ℕ, zero, suc, ◌+◌, ◌*◌, ◌/◌, ◌%◌, ◌^◌, ◌==◌, ltb, List, [], ◌∷◌, ◌++◌, map, set, get_or,
  replicate, Bool, true, false, Option, none, some, if◌then◌else◌,
}
use Prim.Native.Nat.{bit_xor}
use ban_db.Bytes.{Bytes}
use ban_db.Bytes.Order.{same}

pub record BloomFilter : Type 0 where
  pub bits : List Bool
  pub m : ℕ
  pub k : ℕ

abbrev pub bloom_min_bits : ℕ
bloom_min_bits = 64

abbrev fnv_offset64 : ℕ
fnv_offset64 = 14695981039346656037

abbrev fnv_prime64 : ℕ
fnv_prime64 = 1099511628211

abbrev bloom_seed2 : ℕ
bloom_seed2 = 0x9e3779b97f4a7c15

pub fnv_loop : Bytes → ℕ → ℕ
fnv_loop [] h = h
fnv_loop (c ∷ data') h = fnv_loop data' (bit_xor h c * fnv_prime64 % 2 ^ 64)

unfoldable pub fnv1a : Bytes → ℕ → ℕ
unfolding fnv_loop
fnv1a data' seed = fnv_loop data' (bit_xor fnv_offset64 seed)

unfoldable pub hash_pair : Bytes → ℕ × ℕ
unfolding fnv1a
hash_pair key = (fnv1a key 0, fnv1a key bloom_seed2)

-- (h1 + i*h2) % b.m, in 64 bits
unfoldable pub position : ℕ × ℕ → ℕ → ℕ → ℕ
position h i m = (h.0 + i * h.1) % 2 ^ 64 % m

unfoldable pub add_loop : ℕ → ℕ → ℕ × ℕ → ℕ → List Bool → List Bool
unfolding position
add_loop zero i h m bits = bits
add_loop (suc rounds) i h m bits = add_loop rounds (i + 1) h m (set bits (position h i m) true)

unfoldable pub add : BloomFilter → Bytes → BloomFilter
unfolding add_loop hash_pair
add b key = record b { bits = add_loop b.k 0 (hash_pair key) b.m b.bits }

unfoldable pub test_loop : ℕ → ℕ → ℕ × ℕ → ℕ → List Bool → Bool
unfolding position
test_loop zero i h m bits = true
test_loop (suc rounds) i h m bits =
    let rest = test_loop rounds (i + 1) h m bits in
    if get_or bits (position h i m) false then rest else false

unfoldable pub may_contain : BloomFilter → Bytes → Bool
unfolding test_loop hash_pair
may_contain b key = test_loop b.k 0 (hash_pair key) b.m b.bits

-- The part of a key before the first separator, and what follows it; none where there is no separator.
unfoldable pub index_byte : Bytes → ℕ → Option (Bytes × Bytes)
index_byte [] sep = none
index_byte (c ∷ key) sep =
    let rest = index_byte key sep in
    if c == sep
    then some ([], key)
    else elim rest [ none ↦ none | some (ns, suffix) ↦ some (c ∷ ns, suffix) ]

unfoldable pub split_namespace : Bytes → ℕ → Bytes × Bytes
unfolding index_byte
split_namespace key sep = elim (index_byte key sep) [ none ↦ ([], key) | some parts ↦ parts ]

-- counts[ns]++
unfoldable pub count_up : Bytes → List (Bytes × ℕ) → List (Bytes × ℕ)
count_up ns [] = (ns, 1) ∷ []
count_up ns ((n, c) ∷ counts) =
    let rest = count_up ns counts in if same n ns then (n, c + 1) ∷ counts else (n, c) ∷ rest

unfoldable pub count_all : ℕ → List Bytes → List (Bytes × ℕ) → List (Bytes × ℕ)
unfolding count_up
count_all sep [] counts = counts
count_all sep (key ∷ keys) counts = count_all sep keys (count_up (split_namespace key sep).0 counts)

abbrev pub Partitions : Type 0
Partitions = List (Bytes × BloomFilter)

-- pb.partitions[ns]
unfoldable pub partition_of : Bytes → Partitions → Option BloomFilter
partition_of ns [] = none
partition_of ns ((n, b) ∷ parts) = if same n ns then some b else partition_of ns parts

-- pb.partitions[ns].Add(suffix)
unfoldable pub add_to : Bytes → Bytes → Partitions → Partitions
add_to ns suffix [] = []
add_to ns suffix ((n, b) ∷ parts) =
    let rest = add_to ns suffix parts in
    if same n ns then (n, add b suffix) ∷ parts else (n, b) ∷ rest

unfoldable pub add_keys : ℕ → List Bytes → Partitions → Partitions
unfolding add_to
add_keys sep [] parts = parts
add_keys sep (key ∷ keys) parts =
    let (ns, suffix) = split_namespace key sep in add_keys sep keys (add_to ns suffix parts)

unfoldable pub partitions_may_contain : ℕ → Partitions → Bytes → Bool
unfolding partition_of
partitions_may_contain sep parts key =
    let (ns, suffix) = split_namespace key sep in
    elim (partition_of ns parts) [ none ↦ false | some b ↦ may_contain b suffix ]

abbrev pub at_least : ℕ → ℕ → ℕ
at_least low n = if ltb n low then low else n

module _ (optimal_m : ℕ → ℕ) (optimal_k : ℕ → ℕ → ℕ) where
  unfoldable pub new_bloom_filter : ℕ → BloomFilter
  new_bloom_filter n =
      let n' = at_least 1 n in
      let m = at_least bloom_min_bits (optimal_m n') in
      let k = at_least 1 (optimal_k n' m) in
      record { bits = replicate ((m + 63) / 64 * 64) false; m = m; k = k }

  unfoldable pub new_partitions : List (Bytes × ℕ) → Partitions
  new_partitions [] = []
  new_partitions ((ns, c) ∷ counts) = (ns, new_bloom_filter c) ∷ new_partitions counts

  unfoldable pub build_partitioned_bloom : List Bytes → ℕ → Partitions
  unfolding new_partitions count_all add_keys
  build_partitioned_bloom keys sep = add_keys sep keys (new_partitions (count_all sep keys []))
