-- ===== src/Storage/SsTable/Iterator.antt =====
-- sstableIterator of storage/zstorage/iterator.go, and ReadAllFromSSTable and readFromSSTableFull of
-- SSTable.go, which read the same way.
pub mod Yields
use ban_db.Prelude.{
  ℕ, suc, ◌+◌, ◌-◌, ltb, leb, List, [], ◌∷◌, length, Bool, true, false, Option, none, some,
  if◌then◌else◌,
}
use ban_db.Bytes.{Bytes}
use ban_db.Bytes.Order.{same}
use ban_db.Storage.Entries.{Entry}
use ban_db.Storage.Merge.{Outcome, item, ended, failed, drain}
use ban_db.Storage.SsTable.{read_entry}
use ban_db.Storage.SsTable.Footer.{ss_table_data_end, index_footer_size}

-- What is left of the file, and the offset. `data_end` is `none` where the source has -1.
pub record SsTableIterator : Type 0 where
  pub rest : Bytes
  pub pos : ℕ
  pub data_end : Option ℕ

unfoldable pub new_ss_table_iterator : Bytes → SsTableIterator
new_ss_table_iterator content = record {
  rest = content;
  pos = 0;
  data_end = ss_table_data_end content;
}

-- it.dataEnd > 0 && pos >= it.dataEnd
abbrev pub is_at_end : Option ℕ → ℕ → Bool
is_at_end none pos = false
is_at_end (some end) pos = leb end pos

-- At the end of the file binary.Read gives io.EOF, which is no error; a torn entry is one.
unfoldable pub read_next : SsTableIterator → Outcome SsTableIterator
read_next it = elim it.rest [
  | [] ↦ ended
  | b ∷ bs ↦ elim (read_entry (b ∷ bs)) [
    | none ↦ failed
    | some (e, r) ↦ item e (record it { rest = r; pos = it.pos + (length (b ∷ bs) - length r) })
  ]
]

unfoldable pub next : SsTableIterator → Outcome SsTableIterator
next it = if is_at_end it.data_end it.pos then ended else read_next it

-- ReadAllFromSSTable: without a footer the reads of sstableDataEnd have moved a file that is long enough
-- for one to its end, and only with a footer does it go back to the start.
unfoldable pub read_all_from_ss_table : Bytes → Option (List Entry)
read_all_from_ss_table content =
    let end = ss_table_data_end content in
    let start : Bytes = elim end [
      | some n ↦ content
      | none ↦ if ltb (length content) index_footer_size then content else []
    ] in
    drain next (suc (length content)) (record { rest = start; pos = 0; data_end = end })

-- The first entry with the key.
unfoldable pub find_entry : Bytes → List Entry → Option (Option Bytes)
find_entry key [] = none
find_entry key ((k, v) ∷ es) = if same k key then some v else find_entry key es

-- readFromSSTableFull; on an error the entries are nil.
unfoldable pub read_from_ss_table_full : Bytes → Bytes → Option (Option Bytes)
unfolding find_entry
read_from_ss_table_full content key = elim (read_all_from_ss_table content) [
  | none ↦ none
  | some es ↦ find_entry key es
]
