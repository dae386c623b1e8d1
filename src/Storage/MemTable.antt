-- ===== src/Storage/MemTable.antt =====
-- MemTable of storage/zstorage/memtable.go: the active skip list, the list that is being flushed, and
-- the SSTables under them, with the credit pool and the two signal channels of capacity 1. Each
-- function is one critical section; what runs between them is in `Event`. `active` is never nil.
pub mod Valid
pub mod Flush
pub mod Reads
pub mod History
pub mod Scan
pub mod Compact
pub mod Snapshot
pub mod Flushed
use ban_db.Prelude.{
  ℕ, ◌+◌, ltb, List, [], ◌∷◌, ◌++◌, length, Bool, true, false, ◌||◌, Option, none, some,
  if◌then◌else◌, ◌==◌, zero,
}
use mathlib.Core.List.{reverse}
use ban_db.Prelude.Int.{ℤ, pos, ◌-ℤ◌, eq_ℤ}
use ban_db.Bytes.{Bytes}
use ban_db.Bytes.Order.{less}
use ban_db.Credit
use ban_db.Credit.{Pool, try_acquire, acquire, release}
use ban_db.Storage.SkipList.{SkipList, new_skip_list, value_len, search, insert, collect_all_entry}
use ban_db.Storage.Entries.{Entry, last_key}
unfoldable pub use ban_db.Storage.Entries.{or_else}
use ban_db.Storage.Format.{Format}

-- istorage.SSTableMata, with the content of its file.
pub record Meta (File : Type 0) : Type 0 where
  pub level : ℕ
  pub min_key : Bytes
  pub max_key : Bytes
  pub file : File

-- `metas` has the oldest file first, as AddMata appends them.
pub record MemTable (File : Type 0) : Type 0 where
  pub active : SkipList
  pub dirty : Option SkipList
  pub metas : List (Meta File)
  pub pool : Pool
  pub flush_signal : Bool
  pub compact_signal : Bool

module _ {File : Type 0} where
  unfoldable pub new_mem_table : ℤ → MemTable File
  new_mem_table budget = record {
    active = new_skip_list;
    dirty = none;
    metas = [];
    pool = Credit.new budget;
    flush_signal = false;
    compact_signal = false;
  }

  -- A send on a channel of capacity 1 that does not block.
  unfoldable pub start_flush : MemTable File → MemTable File
  start_flush m = record m { flush_signal = true }

  unfoldable pub signal_compact : MemTable File → MemTable File
  signal_compact m = record m { compact_signal = true }

unfoldable pub dirty_search : Option SkipList → Bytes → Option (Option Bytes)
dirty_search none key = none
dirty_search (some d) key = search d key

abbrev pub value_of : Option (Option Bytes) → Option Bytes
value_of none = none
value_of (some v) = v

module _ (fmt : Format) where
  open fmt use {File, write, read}

  -- One round of the loop of getFromSSTables.
  pub in_file : Bytes → Meta File → Option (Option Bytes)
  in_file key meta =
      if less key meta.min_key || less meta.max_key key then none else read meta.file key

  -- The loop runs from the newest file, the last of the list, to the oldest.
  pub get_from_sstables : List (Meta File) → Bytes → Option (Option Bytes)
  unfolding in_file or_else
  get_from_sstables [] key = none
  get_from_sstables (meta ∷ newer) key = or_else (get_from_sstables newer key) (in_file key meta)

  -- What Get finds in the active list, the dirty one, or the files, in this order.
  unfoldable pub find : MemTable File → Bytes → Option (Option Bytes)
  unfolding get_from_sstables dirty_search or_else
  find m key =
      or_else (search m.active key)
        (or_else (dirty_search m.dirty key) (get_from_sstables m.metas key))

  -- `none` is the error "Key not found", for a tombstone too.
  unfoldable pub get : MemTable File → Bytes → Option Bytes
  get m key = value_of (find m key)

  -- acquireCredit; false waits for credit, with a flush on its way.
  unfoldable pub acquire_credit : MemTable File → ℤ → MemTable File × Bool
  unfolding start_flush
  acquire_credit m n =
      let (pool, granted) = try_acquire m.pool n in
      let m' = start_flush m in
      if granted then (record m { pool = pool }, true) else elim (acquire m'.pool n) [
        | some pool' ↦ (record m' { pool = pool' }, true)
        | none ↦ (m', false)
      ]

  -- The rest of Put and Delete, with the credit `full` in hand. `max_size` is
  -- config.G.MaxMemTableSize.
  unfoldable pub write_entry : ℕ → MemTable File → ℤ → ℕ → Bytes → Option Bytes → MemTable File
  unfolding start_flush
  write_entry max_size m full height key value =
      let (active, delta) = insert m.active height key value in
      let m₁ = record m { active = active } in
      let m₂ = if ltb max_size active.size then start_flush m₁ else m₁ in
      let over = full -ℤ delta in
      if eq_ℤ over (pos 0) then m₂ else record m₂ { pool = release m₂.pool over }

  -- `height` is what randomLevel() returns. false: the caller waits for credit. Acquire, the write under
  -- m.mu and Release are critical sections of their own, and one step here: a reader sees the lists,
  -- which only the second changes, and other writers may find less credit in between.
  unfoldable pub put : ℕ → MemTable File → ℕ → Bytes → Option Bytes → MemTable File × Bool
  put max_size m height key value =
      let full = pos (length key + value_len value) in
      let (m', granted) = acquire_credit m full in
      if granted then (write_entry max_size m' full height key value, true) else (m', false)

  unfoldable pub delete : ℕ → MemTable File → ℕ → Bytes → MemTable File × Bool
  delete max_size m height key =
      let full = pos (length key) in
      let (m', granted) = acquire_credit m full in
      if granted then (write_entry max_size m' full height key none, true) else (m', false)

  -- WriteToSSTable followed by AddMata; `none` is an error. `io` is false where the file system
  -- fails.
  unfoldable pub write_to_sstable : Bool → List Entry → Option (Meta File)
  write_to_sstable io [] = none
  write_to_sstable io (e ∷ es) =
      if io
      then some
          (record { level = 0; min_key = e.0; max_key = last_key e.0 es; file = write (e ∷ es) })
      else none

  -- Flush up to the first Unlock: the active list becomes the dirty one, unless a failed flush left
  -- one there.
  unfoldable pub flush_begin : MemTable File → MemTable File
  flush_begin m = elim m.dirty [
    | none ↦
        if m.active.size == 0 then m else record m { dirty = some m.active; active = new_skip_list }
    | some d ↦ m
  ]

  -- The rest of Flush.
  unfoldable pub flush_end : Bool → MemTable File → MemTable File
  unfolding start_flush
  flush_end io m = elim m.dirty [
    | none ↦ m
    | some d ↦ elim (write_to_sstable io (collect_all_entry d)) [
      | none ↦ start_flush m
      | some meta ↦ record m {
        metas = m.metas ++ (meta ∷ []);
        dirty = none;
        pool = release m.pool d.byte_size;
      }
    ]
  ]
