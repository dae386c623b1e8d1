-- ===== src/Storage/MemTable/Snapshot.antt =====
-- FlushToSSTable and WriteSSTable of storage/zstorage/memtable.go: entries that go to a file past the
-- active table. An entry comes with the level that randomLevel() returns for it.

use ban_db.Prelude.{
  ℕ, ◌<◌, ◌≡◌, ◌||◌, length, arith, refl, sym, ◌∙◌, ap, List, [], ◌∷◌, ◌++◌, Bool, true, false,
  Option, none, some, if◌then◌else◌, ◌⊎◌, Option-cases, inl, inr,
}
use ban_db.Bytes.{Bytes}
use ban_db.Bytes.Order.{same}
use ban_db.Storage.SkipList.Table.{put}
use ban_db.Storage.SkipList.{
  Node, entries_of, SkipList, new_skip_list, insert, search, collect_all_entry,
}
use ban_db.Storage.SkipList.Refine
use ban_db.Storage.Entries.{Entry, or_else, or_else_assoc, or_else-none}
use ban_db.Storage.Format.{Format}
use ban_db.Storage.MemTable.{
  Meta, MemTable, dirty_search, find, in_file, get_from_sstables, write_to_sstable, signal_compact,
}
use ban_db.Storage.MemTable.Valid.{TableOk, IsValid, insert-TableOk}
use ban_db.Storage.MemTable.Flush.{collected-MetaOk, AllMetas-append}
use ban_db.Storage.MemTable.Reads.{get_from-append, file_is}

-- The loop of FlushToSSTable over its entries; a nil value is inserted as a tombstone.
unfoldable pub insert_all : SkipList → List (ℕ × Entry) → SkipList
insert_all tmp [] = tmp
insert_all tmp ((height, (key, value)) ∷ es) = insert_all (insert tmp height key value).0 es

-- What the entries say of a key: the last of them counts.
unfoldable pub latest : Bytes → List (ℕ × Entry) → Option (Option Bytes)
latest j [] = none
latest j ((height, (key, value)) ∷ es) =
    or_else (latest j es) (if same key j then some value else none)

abbrev pub is_nil : List (ℕ × Entry) → Bool
is_nil [] = true
is_nil (e ∷ es) = false

positive-put :
    (height : ℕ) (key : Bytes) (value : Option Bytes) (ns : List Node)
    → 0 < length (put height key value ns)
unfolding put
positive-put height key value [] = omega arith
positive-put height key value (n ∷ ns) = ground (arith, positive-put height key value ns)

module _ (fmt : Format) where
  open fmt use {File, Fits}

  -- The file of the entries is added to the list, or an error comes back; then a compaction is asked for.
  unfoldable pub append_file : Bool → List Entry → MemTable File → MemTable File × Bool
  append_file io sorted m = elim (write_to_sstable fmt io sorted) [
    | none ↦ (m, false)
    | some meta ↦ (record m { metas = m.metas ++ (meta ∷ []) }, true)
  ]

  unfoldable pub flush_to_ss_table : Bool → List (ℕ × Entry) → MemTable File → MemTable File × Bool
  unfolding insert_all append_file signal_compact
  flush_to_ss_table io [] m = (m, true)
  flush_to_ss_table io (e ∷ es) m =
      let (m', done) = append_file io (collect_all_entry (insert_all new_skip_list (e ∷ es))) m in
      if done then (signal_compact m', true) else (m, false)

  -- The active list stays where it is, and a compaction is asked for whether the write succeeds or not.
  unfoldable pub write_ss_table : Bool → MemTable File → MemTable File × Bool
  unfolding append_file signal_compact
  write_ss_table io m =
      let (m', done) = append_file io (collect_all_entry m.active) m in (signal_compact m', done)

  abbrev pub AllFit : List (ℕ × Entry) → Type 0
  AllFit [] = Unit
  AllFit ((height, (key, value)) ∷ es) = (0 < height) × Fits key value × AllFit es

  insert_all-TableOk :
      (tmp : SkipList) (es : List (ℕ × Entry))
      → AllFit es
      → TableOk fmt tmp
      → TableOk fmt (insert_all tmp es)
  unfolding insert_all
  insert_all-TableOk tmp [] a ok = ok
  insert_all-TableOk tmp ((height, (key, value)) ∷ es) a ok =
      insert_all-TableOk (insert tmp height key value).0 es a.2
        (insert-TableOk fmt tmp height key value a.0 a.1 ok)

  search-insert_all :
      (tmp : SkipList) (es : List (ℕ × Entry)) (j : Bytes)
      → AllFit es
      → TableOk fmt tmp
      → search (insert_all tmp es) j ≡ or_else (latest j es) (search tmp j)
  unfolding insert_all latest or_else
  search-insert_all tmp [] j a ok = refl
  search-insert_all tmp ((height, (key, value)) ∷ es) j a ok =
      search-insert_all (insert tmp height key value).0 es j a.2
        (insert-TableOk fmt tmp height key value a.0 a.1 ok)
      ∙ ap (or_else (latest j es))
          (Refine.search-insert tmp height key value ok.valid a.0 j ∙ if_or (same key j))
      ∙ sym (or_else_assoc (latest j es) _ (search tmp j))
    where
      if_or :
          (b : Bool)
          → (if b then some value else search tmp j)
            ≡ or_else (if b then some value else none) (search tmp j)
      if_or true = refl
      if_or false = refl

  TableOk-new : TableOk fmt new_skip_list
  TableOk-new = record { valid = Refine.IsValid-new; fit = tt }

  -- The state with the file of `es`, where the file system takes it.
  appended :
      (io : Bool) (sl : SkipList) (m : MemTable File)
      → (((append_file io (collect_all_entry sl) m ≡ (m, false))
            × (write_to_sstable fmt io (collect_all_entry sl) ≡ none))
          ⊎ ((meta : Meta File) × (append_file io (collect_all_entry sl) m
                ≡ (record m { metas = m.metas ++ (meta ∷ []) }, true))
              × (write_to_sstable fmt io (collect_all_entry sl) ≡ some meta)))
  unfolding append_file
  appended io sl m = elim (Option-cases (write_to_sstable fmt io (collect_all_entry sl))) [
    | inl w ↦ inl (rw (append_file, w), w)
    | inr (meta, w) ↦ inr (meta, rw (append_file, w), w)
  ]

  flushed :
      (io : Bool) (e : ℕ × Entry) (es : List (ℕ × Entry)) (m m' : MemTable File) (done : Bool)
      → append_file io (collect_all_entry (insert_all new_skip_list (e ∷ es))) m ≡ (m', done)
      → flush_to_ss_table io (e ∷ es) m ≡ (if done then (signal_compact m', true) else (m, false))
  unfolding flush_to_ss_table
  flushed io e es m m' done h = rw (flush_to_ss_table, h)

  -- What Get finds once a file says `found` of the key.
  abbrev pub below : MemTable File → Bytes → Option (Option Bytes) → Option (Option Bytes)
  below m j found =
      or_else (search m.active j)
        (or_else (dirty_search m.dirty j) (or_else found (get_from_sstables fmt m.metas j)))

  -- There is a node.
  abbrev Filled : SkipList → Type 0
  Filled sl = 0 < length sl.nodes

  Filled-insert :
      (sl : SkipList) (height : ℕ) (key : Bytes) (value : Option Bytes)
      → Refine.IsValid sl
      → Filled (insert sl height key value).0
  Filled-insert sl height key value v =
      rw (Refine.nodes-insert sl height key value v) (positive-put height key value sl.nodes)

  Filled-insert_all :
      (tmp : SkipList) (es : List (ℕ × Entry))
      → AllFit es
      → TableOk fmt tmp
      → Filled tmp
      → Filled (insert_all tmp es)
  unfolding insert_all
  Filled-insert_all tmp [] a ok h = h
  Filled-insert_all tmp ((height, (key, value)) ∷ es) a ok h =
      Filled-insert_all (insert tmp height key value).0 es a.2
        (insert-TableOk fmt tmp height key value a.0 a.1 ok)
        (Filled-insert tmp height key value ok.valid)

  -- A list with a node is refused only where the file system fails.
  pub refused :
      (io : Bool) (ns : List Node)
      → 0 < length ns
      → write_to_sstable fmt io (entries_of ns) ≡ none
      → io ≡ false
  unfolding write_to_sstable entries_of
  refused io [] h w = absurd (omega arith)
  refused false (n ∷ ns) h w = refl
  refused true (n ∷ ns) h w = absurd (cc w)

  failing : (es : List Entry) → write_to_sstable fmt false es ≡ none
  unfolding write_to_sstable
  failing [] = refl
  failing (e ∷ es) = refl

  pub taken :
      (io : Bool) (es : List Entry) (meta : Meta File)
      → write_to_sstable fmt io es ≡ some meta
      → io ≡ true
  taken true es meta w = refl
  taken false es meta w = absurd (cc (sym (failing es) ∙ w))

  flush_to_ss_table-failed :
      (es : List (ℕ × Entry)) (m : MemTable File) → (flush_to_ss_table false es m).0 ≡ m
  unfolding flush_to_ss_table append_file
  flush_to_ss_table-failed [] m = refl
  flush_to_ss_table-failed (e ∷ es) m =
      rw
        (
          flush_to_ss_table,
          append_file,
          failing (collect_all_entry (insert_all new_skip_list (e ∷ es))),
        )
        refl

  filled :
      (e : ℕ × Entry) (es : List (ℕ × Entry))
      → AllFit (e ∷ es)
      → 0 < length (insert_all new_skip_list (e ∷ es)).nodes
  unfolding insert_all
  filled (height, (key, value)) es a =
      Filled-insert_all (insert new_skip_list height key value).0 es a.2
        (insert-TableOk fmt new_skip_list height key value a.0 a.1 TableOk-new)
        (Filled-insert new_skip_list height key value Refine.IsValid-new)

  -- FlushToSSTable succeeds exactly if the file system does (`io`) or there are no entries, and then its
  -- entries lie under the active and the dirty list and over all files, the last entry of a key counting
  -- and a nil value as a tombstone; where the file system fails the table is left as it was. The table
  -- stays valid. New nodes have a level, and the entries fit the file.
  pub flush_to_ss_table-find :
      (io : Bool) (es : List (ℕ × Entry)) (m : MemTable File) (j : Bytes)
      → AllFit es
      → IsValid fmt m
      → IsValid fmt (flush_to_ss_table io es m).0
        × ((flush_to_ss_table io es m).1 ≡ (io || is_nil es))
        × (find fmt (flush_to_ss_table io es m).0 j ≡ below m j (if io then latest j es else none))
        × ((flush_to_ss_table false es m).0 ≡ m)
  unfolding flush_to_ss_table find latest entries_of collect_all_entry
  flush_to_ss_table-find true [] m j a v = (v, refl, unfold or_else in refl, refl)
  flush_to_ss_table-find false [] m j a v = (v, refl, unfold or_else in refl, refl)
  flush_to_ss_table-find io (e ∷ es) m j a v =
      elim (appended io (insert_all new_skip_list (e ∷ es)) m) [
        | inl (h, w) ↦
            let off = refused io (insert_all new_skip_list (e ∷ es)).nodes (filled e es a) w in
            rw (flushed io e es m m false h, off)
              (v, refl, unfold or_else in refl, flush_to_ss_table-failed (e ∷ es) m)
        | inr (meta, h, w) ↦
            let on = taken io _ meta w in
            let ok = insert_all-TableOk new_skip_list (e ∷ es) a TableOk-new in
            let says : in_file fmt j meta ≡ latest j (e ∷ es) =
              file_is fmt io (insert_all new_skip_list (e ∷ es)) meta j ok w
              ∙ search-insert_all new_skip_list (e ∷ es) j a TableOk-new
              ∙ unfold search in or_else-none (latest j (e ∷ es)) in
            rw (flushed io e es m (record m { metas = m.metas ++ (meta ∷ []) }) true h, on)
              (
                record {
                  active_ok = v.active_ok;
                  dirty_ok = v.dirty_ok;
                  metas_ok =
                      AllMetas-append fmt m.metas meta v.metas_ok
                        (collected-MetaOk fmt io _ meta ok w);
                  credited = v.credited;
                },
                refl,
                unfold signal_compact in
                    ap (λ o. or_else (search m.active j) (or_else (dirty_search m.dirty j) o))
                      (get_from-append fmt m.metas meta j
                        ∙ ap (λ o. or_else o (get_from_sstables fmt m.metas j)) says),
                flush_to_ss_table-failed (e ∷ es) m,
              )
      ]
