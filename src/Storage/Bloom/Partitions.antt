-- ===== src/Storage/Bloom/Partitions.antt =====
-- The partitioned filter of an SSTable (storage/zstorage/partitioned_bloom.go): one filter for each name
-- before the separator.
use ban_db.Prelude.{
  ℕ, ◌+◌, ◌*◌, ◌/◌, List, [], ◌∷◌, ◌++◌, Bool, true, false, Option, none, some, if◌then◌else◌, ◌≡◌,
  refl, ◌∙◌, ap, arith, Bool-cases, inl, inr, length-replicate,
}
use ban_db.Bytes.{Bytes}
use ban_db.Bytes.Order.{same, same→eq, same_refl}
use ban_db.Storage.Bloom.{
  BloomFilter, add, may_contain, split_namespace, count_up, count_all, Partitions, partition_of,
  add_to, add_keys, partitions_may_contain, at_least, new_bloom_filter, new_partitions,
  build_partitioned_bloom,
}
use ban_db.Storage.Bloom.Positive.{IsValid, add-IsValid, may_contain-add}

abbrev with_key : Bytes → Option BloomFilter → Option BloomFilter
with_key suffix none = none
with_key suffix (some b) = some (add b suffix)

partition_of-add_to_same :
    (ns suffix : Bytes) (parts : Partitions)
    → partition_of ns (add_to ns suffix parts) ≡ with_key suffix (partition_of ns parts)
unfolding partition_of add_to
partition_of-add_to_same ns suffix [] = refl
partition_of-add_to_same ns suffix ((p, f) ∷ parts) = elim (Bool-cases (same p ns)) [
  | inl e ↦ rw (e, partition_of, e) refl
  | inr e ↦ rw (e, partition_of, e) (partition_of-add_to_same ns suffix parts)
]

partition_of-add_to_other :
    (ns n suffix : Bytes) (parts : Partitions)
    → same n ns ≡ false
    → partition_of ns (add_to n suffix parts) ≡ partition_of ns parts
unfolding partition_of add_to
partition_of-add_to_other ns n suffix [] h = refl
partition_of-add_to_other ns n suffix ((p, f) ∷ parts) h = elim (Bool-cases (same p n)) [
  | inl e ↦
      let other : same p ns ≡ false = ap (λ t. same t ns) (same→eq p n e) ∙ h in
      rw (e, partition_of, other) refl
  | inr e ↦ elim (Bool-cases (same p ns)) [
    | inl g ↦ rw (e, partition_of, g) refl
    | inr g ↦ rw (e, partition_of, g) (partition_of-add_to_other ns n suffix parts h)
  ]
]

-- The partition of a name is there, and valid.
abbrev Ready : Bytes → Partitions → Type 0
Ready ns parts = (b : BloomFilter) × (partition_of ns parts ≡ some b) × IsValid b

-- A filter that says yes to the suffix is there, and valid.
abbrev Says : Bytes → Bytes → Partitions → Type 0
Says ns suffix parts =
    (b : BloomFilter) × (partition_of ns parts ≡ some b) × IsValid b × (may_contain b suffix ≡ true)

add_to-Ready :
    (ns n suffix : Bytes) (parts : Partitions) → Ready ns parts → Ready ns (add_to n suffix parts)
add_to-Ready ns n suffix parts (b, found, v) = elim (Bool-cases (same n ns)) [
  | inl e ↦ (
    add b suffix,
    ap (λ t. partition_of ns (add_to t suffix parts)) (same→eq n ns e)
        ∙ partition_of-add_to_same ns suffix parts
        ∙ ap (with_key suffix) found,
    add-IsValid b suffix v,
  )
  | inr e ↦ (b, partition_of-add_to_other ns n suffix parts e ∙ found, v)
]

add_to-Says :
    (ns n suffix s : Bytes) (parts : Partitions)
    → Says ns s parts
    → Says ns s (add_to n suffix parts)
add_to-Says ns n suffix s parts (b, found, v, said) = elim (Bool-cases (same n ns)) [
  | inl e ↦ (
    add b suffix,
    ap (λ t. partition_of ns (add_to t suffix parts)) (same→eq n ns e)
        ∙ partition_of-add_to_same ns suffix parts
        ∙ ap (with_key suffix) found,
    add-IsValid b suffix v,
    (may_contain-add b suffix s v).1 said,
  )
  | inr e ↦ (b, partition_of-add_to_other ns n suffix parts e ∙ found, v, said)
]

add_to-Says_here :
    (ns suffix : Bytes) (parts : Partitions)
    → Ready ns parts
    → Says ns suffix (add_to ns suffix parts)
add_to-Says_here ns suffix parts (b, found, v) = (
  add b suffix,
  partition_of-add_to_same ns suffix parts ∙ ap (with_key suffix) found,
  add-IsValid b suffix v,
  (may_contain-add b suffix suffix v).0,
)

module _ (sep : ℕ) where
  add_keys-Says :
      (ns s : Bytes) (keys : List Bytes) (parts : Partitions)
      → Says ns s parts
      → Says ns s (add_keys sep keys parts)
  unfolding add_keys
  add_keys-Says ns s [] parts y = y
  add_keys-Says ns s (key ∷ keys) parts y =
      add_keys-Says ns s keys _
        (add_to-Says ns (split_namespace key sep).0 (split_namespace key sep).1 s parts y)

  add_keys-here :
      (before : List Bytes) (key : Bytes) (rest : List Bytes) (parts : Partitions)
      → Ready (split_namespace key sep).0 parts
      → Says
          (split_namespace key sep).0
          (split_namespace key sep).1
          (add_keys sep (before ++ (key ∷ rest)) parts)
  unfolding add_keys
  add_keys-here [] key rest parts r =
      add_keys-Says _ _ rest _
        (add_to-Says_here (split_namespace key sep).0 (split_namespace key sep).1 parts r)
  add_keys-here (b ∷ before) key rest parts r = add_keys-here before key rest _ (
      add_to-Ready (split_namespace key sep).0 (split_namespace b sep).0 (split_namespace b sep).1
        parts r)

-- Whether a name was counted.
has : Bytes → List (Bytes × ℕ) → Bool
has ns [] = false
has ns ((n, c) ∷ counts) = let rest = has ns counts in if same n ns then true else rest

has-count_up_here : (ns : Bytes) (counts : List (Bytes × ℕ)) → has ns (count_up ns counts) ≡ true
unfolding has count_up
has-count_up_here ns [] = rw (same_refl ns) refl
has-count_up_here ns ((n, c) ∷ counts) = elim (Bool-cases (same n ns)) [
  | inl e ↦ rw (e, has, e) refl
  | inr e ↦ rw (e, has, e) (has-count_up_here ns counts)
]

has-count_up :
    (ns m : Bytes) (counts : List (Bytes × ℕ))
    → has ns counts ≡ true
    → has ns (count_up m counts) ≡ true
unfolding has count_up
has-count_up ns m [] h = absurd (no h)
  where
    no : false ≡ true → ⊥
    no c = cc c
has-count_up ns m ((n, c) ∷ counts) h = elim (Bool-cases (same n m)) [
  | inl e ↦ rw (e, has) h
  | inr e ↦ elim (Bool-cases (same n ns)) [
    | inl g ↦ rw (e, has, g) refl
    | inr g ↦ rw (e, has, g) (has-count_up ns m counts (rw g at h))
  ]
]

has-count_all :
    (sep : ℕ) (ns : Bytes) (keys : List Bytes) (counts : List (Bytes × ℕ))
    → has ns counts ≡ true
    → has ns (count_all sep keys counts) ≡ true
unfolding count_all
has-count_all sep ns [] counts h = h
has-count_all sep ns (key ∷ keys) counts h =
    has-count_all sep ns keys _ (has-count_up ns (split_namespace key sep).0 counts h)

has-count_all_here :
    (sep : ℕ) (before : List Bytes) (key : Bytes) (rest : List Bytes) (counts : List (Bytes × ℕ))
    → has (split_namespace key sep).0 (count_all sep (before ++ (key ∷ rest)) counts) ≡ true
unfolding count_all
has-count_all_here sep [] key rest counts =
    has-count_all sep _ rest _ (has-count_up_here (split_namespace key sep).0 counts)
has-count_all_here sep (b ∷ before) key rest counts = has-count_all_here sep before key rest _

module _ (optimal_m : ℕ → ℕ) (optimal_k : ℕ → ℕ → ℕ) where
  new_bloom_filter-IsValid : (n : ℕ) → IsValid (new_bloom_filter optimal_m optimal_k n)
  unfolding new_bloom_filter
  new_bloom_filter-IsValid n =
      let m = at_least 64 (optimal_m (at_least 1 n)) in
      record {
        some_bits = ground arith;
        room = omega (arith, length-replicate ((m + 63) / 64 * 64) false);
      }

  new_partitions-Ready :
      (ns : Bytes) (counts : List (Bytes × ℕ))
      → has ns counts ≡ true
      → Ready ns (new_partitions optimal_m optimal_k counts)
  unfolding has new_partitions partition_of
  new_partitions-Ready ns [] h = absurd (no h)
    where
      no : false ≡ true → ⊥
      no c = cc c
  new_partitions-Ready ns ((n, c) ∷ counts) h = elim (Bool-cases (same n ns)) [
    | inl e ↦ rw (partition_of, e) (_, refl, new_bloom_filter-IsValid c)
    | inr e ↦ rw (partition_of, e) (new_partitions-Ready ns counts (rw e at h))
  ]

  -- The filter that WriteToSSTable builds for the keys of a file never rules out one of them, whatever
  -- the separator and the sizes that the float formulas give.
  pub partitions_may_contain-build :
      (before : List Bytes) (key : Bytes) (rest : List Bytes) (sep : ℕ)
      → partitions_may_contain sep
          (build_partitioned_bloom optimal_m optimal_k (before ++ (key ∷ rest)) sep)
          key
        ≡ true
  unfolding partitions_may_contain build_partitioned_bloom
  partitions_may_contain-build before key rest sep =
      let (b, found, v, said) = add_keys-here sep before key rest _ (
        new_partitions-Ready (split_namespace key sep).0 _
          (has-count_all_here sep before key rest [])) in
      rw (partitions_may_contain, found) said
