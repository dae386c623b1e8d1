-- ===== src/Storage/SsTable/Filter.antt =====
-- ReadFromSSTable (storage/zstorage/SSTable.go): the Bloom filter of the file's keys is asked before the
-- blocks are searched.
use ban_db.Prelude.{
  ℕ, List, [], ◌∷◌, ◌++◌, true, false, Option, none, some, if◌then◌else◌, ◌≡◌, sym, ◌∙◌, ap,
  Bool-cases, Option-cases, inl, inr,
}
use ban_db.Bytes.{Bytes}
use ban_db.Bytes.Order.{less, same, same→eq}
use ban_db.Storage.Entries.{Entry, assoc, IsAscending, All, last_key}
use ban_db.Storage.Format.{Format}
use ban_db.Storage.Bloom.{Partitions, partitions_may_contain, build_partitioned_bloom}
use ban_db.Storage.Bloom.Partitions.{partitions_may_contain-build}
use ban_db.Storage.SsTable.{BlockIndexEntry, build, search_block}
use ban_db.Storage.SsTable.Record.{Fits}
use ban_db.Storage.SsTable.Lookup.{search_block-build}

-- DefaultNamespaceSep, ':'
abbrev pub default_namespace_sep : ℕ
default_namespace_sep = 58

-- A file with what is cached for it: the block index and the filter.
pub record Cached : Type 0 where
  pub content : Bytes
  pub index : List BlockIndexEntry
  pub bloom : Partitions

unfoldable pub read_from_ss_table : Cached → Bytes → Option (Option Bytes)
read_from_ss_table f key =
    if partitions_may_contain default_namespace_sep f.bloom key
    then search_block f.content key f.index
    else none

abbrev pub keys_of : List Entry → List Bytes
keys_of [] = []
keys_of (e ∷ es) = e.0 ∷ keys_of es

-- A key that is found stands among the keys.
assoc-keys :
    (key : Bytes) (v : Option Bytes) (es : List Entry)
    → assoc key es ≡ some v
    → (before : List Bytes) × (rest : List Bytes) × (keys_of es ≡ before ++ (key ∷ rest))
unfolding assoc
assoc-keys key v [] h = absurd (no h)
  where
    no : none ≡ some v → ⊥
    no c = cc c
assoc-keys key v (e ∷ es) h = elim (Bool-cases (same e.0 key)) [
  | inl z ↦ ([], keys_of es, ap (λ k. k ∷ keys_of es) (same→eq e.0 key z))
  | inr z ↦
      let (before, rest, split) = assoc-keys key v es (rw z at h) in
      (e.0 ∷ before, rest, ap (λ ks. e.0 ∷ ks) split)
]

module _ (optimal_m : ℕ → ℕ) (optimal_k : ℕ → ℕ → ℕ)
    (tail : Partitions → Bytes → List BlockIndexEntry → Bytes) where
  -- WriteToSSTable: the file, and what it caches. `tail` is what follows the data section.
  unfoldable pub write_file : List Entry → Cached
  write_file es =
      let (data', index) = build 0 es [] [] in
      let bloom = build_partitioned_bloom optimal_m optimal_k (keys_of es) default_namespace_sep in
      record { content = data' ++ tail bloom data' index; index = index; bloom = bloom }

  ruled_out :
      (es : List Entry) (key : Bytes)
      → partitions_may_contain default_namespace_sep (write_file es).bloom key ≡ false
      → assoc key es ≡ none
  unfolding write_file
  ruled_out es key h = elim (Option-cases (assoc key es)) [
    | inl e ↦ e
    | inr (v, e) ↦
        let (before, rest, split) = assoc-keys key v es e in
        let found =
          partitions_may_contain-build optimal_m optimal_k before key rest default_namespace_sep in
        let same_filter =
          ap
            (λ ks.
              partitions_may_contain default_namespace_sep
                (build_partitioned_bloom optimal_m optimal_k ks default_namespace_sep) key)
            split in
        absurd (no (sym h ∙ same_filter ∙ found))
  ]
    where
      no : false ≡ true → ⊥
      no c = cc c

  -- ReadFromSSTable after WriteToSSTable gives a key what the entries say, whatever the filter's sizes
  -- and whatever follows the data section: the filter rules out no key that is there, and the search
  -- finds it. The key is not past the last one; the entries ascend, and their lengths fit their fields.
  pub read_from_ss_table-write_file :
      (e : Entry) (es : List Entry) (key : Bytes)
      → All Fits (e ∷ es)
      → IsAscending (e ∷ es)
      → less (last_key e.0 es) key ≡ false
      → read_from_ss_table (write_file (e ∷ es)) key ≡ assoc key (e ∷ es)
  unfolding read_from_ss_table
  read_from_ss_table-write_file e es key fit asc h =
      let f = write_file (e ∷ es) in
      elim (Bool-cases (partitions_may_contain default_namespace_sep f.bloom key)) [
        | inl said ↦
            rw said (unfold write_file in search_block-build e es (tail _ _ _) key fit asc h)
        | inr denied ↦ rw denied (sym (ruled_out (e ∷ es) key denied))
      ]

  unfoldable pub ss_table_format : Format
  ss_table_format = record {
    File = Cached;
    write = write_file;
    read = read_from_ss_table;
    Fits = Fits;
    read-write = read_from_ss_table-write_file;
  }
