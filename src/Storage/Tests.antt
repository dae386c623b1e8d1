-- ===== src/Storage/Tests.antt =====
-- A log, a skip list, a file and a memory table with few entries.
use ban_db.Prelude.{◌*◌}
use ban_db.Prelude.{
  List, [], ◌∷◌, ◌++◌, map, take, ◌≡◌, refl, arith, Bool, true, none, some, if◌then◌else◌,
}
use ban_db.Storage.Wal.Ended.{Runs, replay-Runs}
use ban_db.Bytes.Reader.{read_full}
use ban_db.Bytes.Fixed.{u32_be, slice}
use ban_db.Prelude.{◌+◌, length}
use ban_db.Storage.MemTable.{find}
use ban_db.Storage.MemTable.Flushed.{flush-find}
use ban_db.Storage.MemTable.{acquire_credit, write_entry}
use ban_db.Credit.{try_acquire}
use ban_db.Prelude.Int.{◌-ℤ◌, ◌+ℤ◌}
use ban_db.Prelude.Int.{pos}
use ban_db.Bytes.{Bytes}
use ban_db.Bytes.Order.{cmp, less, same}
use ban_db.Bytes.Fixed.{put_u32_be}
use ban_db.Storage.Wal.{Record, encode_record, replay}
use ban_db.Storage.Wal.Recovery.{append_all, feed, normal, replay-append_all}
use ban_db.Storage.SkipList.{new_skip_list, search, first_gte, insert}
use ban_db.Storage.SkipList.Refine
use ban_db.Storage.SkipList.Search.{from_key}
use ban_db.Storage.SkipList.Table.{lookup}
use ban_db.Storage.Entries.{Entry, assoc, last_key}
use ban_db.Storage.Entries.{IsAscending}
use ban_db.Storage.MemTable.{MemTable, or_else, dirty_search}
use ban_db.Storage.MemTable.Scan.{scan_range}
use ban_db.Storage.MemTable.Scan.Listing.{collect}
use ban_db.Storage.MemTable.Scan.Picked.{visible}
use ban_db.Storage.MemTable.Scan.Range.{outside, scan_range-visible}
use ban_db.Storage.SsTable.{BlockIndexEntry, build, search_block}
use ban_db.Storage.SsTable.Record.{encode_all}
use ban_db.Storage.SsTable.Index.{cut, index_from, build_lem}
use ban_db.Storage.SsTable.Lookup.{search_block-build}
use ban_db.Storage.SsTable.Filter.{
  ss_table_format, write_file, read_from_ss_table, read_from_ss_table-write_file,
}
use ban_db.Storage.Format.{Format}
use ban_db.Storage.Bloom.{Partitions, build_partitioned_bloom, partitions_may_contain}
use ban_db.Storage.Bloom.Partitions.{partitions_may_contain-build}
use ban_db.Storage.MemTable.{new_mem_table, put, delete, get, flush_begin, flush_end}
use ban_db.Storage.MemTable.Valid.{IsValid, IsValid-new, put-IsValid}
use ban_db.Storage.MemTable.History.{Event, run, promises, get-run}

abbrev a : Bytes
a = 97 ∷ []

abbrev b : Bytes
b = 98 ∷ []

abbrev put_a : Record
put_a = record { op = 1; key = a; value = some (5 ∷ []) }

abbrev delete_a : Record
delete_a = record { op = 2; key = a; value = none }

-- The callback keeps the operations that it was given.
abbrev keep : Record → List Record → List Record × Bool
keep r rs = (rs ++ (r ∷ []), true)

replay-append_all_example :
    replay keep (some (append_all [] (put_a ∷ (delete_a ∷ [])) ++ take 6 (encode_record put_a))) []
    ≡ feed keep (map normal (put_a ∷ (delete_a ∷ []))) []
unfolding encode_record put_u32_be
replay-append_all_example =
    replay-append_all keep (put_a ∷ (delete_a ∷ [])) put_a 6 []
      ((omega arith, omega arith), ((omega arith, omega arith), tt)) (omega arith, omega arith)
      (omega arith)

search-lookup_example :
    (search new_skip_list a ≡ lookup a []) × (first_gte new_skip_list a ≡ from_key a [])
search-lookup_example = Refine.search-lookup new_skip_list a Refine.IsValid-new

insert-IsValid_example : Refine.IsValid (insert new_skip_list 3 a (some (5 ∷ []))).0
insert-IsValid_example =
    Refine.insert-IsValid new_skip_list 3 a (some (5 ∷ [])) Refine.IsValid-new (omega arith)

search-insert_example :
    search (insert new_skip_list 3 a (some (5 ∷ []))).0 b
    ≡ (if same a b then some (some (5 ∷ [])) else search new_skip_list b)
search-insert_example =
    Refine.search-insert new_skip_list 3 a (some (5 ∷ [])) Refine.IsValid-new (omega arith) b

abbrev first : Entry
first = (a, some (5 ∷ []))

abbrev others : List Entry
others = (b, none) ∷ []

build_example :
    build 0 (first ∷ others) [] []
    ≡ (encode_all (first ∷ others), index_from 0 (cut 1 first [] others))
build_example = build_lem first others

search_block-build_example :
    search_block
      ((build 0 (first ∷ others) [] []).0 ++ (1 ∷ []))
      b
      (build 0 (first ∷ others) [] []).1
    ≡ assoc b (first ∷ others)
unfolding less last_key cmp
search_block-build_example =
    search_block-build first others (1 ∷ []) b ((omega arith, omega arith), (omega arith, tt))
      ((refl, tt), (tt, tt)) refl

-- Nothing follows the data section.
abbrev no_tail : Partitions → Bytes → List BlockIndexEntry → Bytes
no_tail bloom data' idx = []

abbrev format : Format
format = ss_table_format (λ n. 10 * n) (λ n m. 7) no_tail

read_from_ss_table-write_file_example :
    read_from_ss_table (write_file (λ n. 10 * n) (λ n m. 7) no_tail (first ∷ others)) b
    ≡ assoc b (first ∷ others)
unfolding less last_key cmp
read_from_ss_table-write_file_example =
    read_from_ss_table-write_file (λ n. 10 * n) (λ n m. 7) no_tail first others b
      ((omega arith, omega arith), (omega arith, tt)) ((refl, tt), (tt, tt)) refl

partitions_may_contain-build_example :
    partitions_may_contain 58
      (build_partitioned_bloom (λ n. 10 * n) (λ n m. 7) ((97 ∷ 58 ∷ 49 ∷ []) ∷ (b ∷ [])) 58)
      b
    ≡ true
partitions_may_contain-build_example =
    partitions_may_contain-build (λ n. 10 * n) (λ n m. 7) ((97 ∷ 58 ∷ 49 ∷ []) ∷ []) b [] 58

abbrev events : List Event
events =
    Event.put_event 2 a (some (5 ∷ []))
    ∷ (Event.begin_event
        ∷ (Event.put_event 1 b (some (6 ∷ []))
            ∷ (Event.end_event true ∷ (Event.delete_event 1 a ∷ []))))

put-IsValid_example :
    IsValid format (put format 100 (new_mem_table (pos 10)) 2 a (some (5 ∷ []))).0
    × IsValid format (delete format 100 (new_mem_table (pos 10)) 2 a).0
unfolding ss_table_format
put-IsValid_example =
    put-IsValid format 100 (new_mem_table (pos 10)) 2 a (some (5 ∷ [])) (omega arith)
      (omega arith, omega arith) (omega arith) (IsValid-new format (pos 10))

-- One entry in the active list.
abbrev one_entry : MemTable (Format.File format)
one_entry = (put format 100 (new_mem_table (pos 10)) 2 a (some (5 ∷ []))).0

flush-find_example :
    (let begun = flush_begin format one_entry in
      let ended = flush_end format true begun in
      IsValid format begun
      × IsValid format ended
      × (find format begun a ≡ find format one_entry a)
      × (find format ended a ≡ find format one_entry a)
      × (ended.dirty ≡ none)
      × (length ended.metas ≡ length one_entry.metas + 1)
      × (ended.pool.used ≡ begun.active.byte_size))
unfolding ss_table_format flush_begin put acquire_credit try_acquire new_mem_table write_entry ◌-ℤ◌
    insert ◌+ℤ◌
flush-find_example =
    flush-find format true one_entry one_entry.active a
      (put-IsValid format 100 (new_mem_table (pos 10)) 2 a (some (5 ∷ [])) (omega arith)
        (omega arith, omega arith) (omega arith) (IsValid-new format (pos 10))).0
      refl (omega arith)

get-run_example :
    IsValid format (run format 3 events (new_mem_table (pos 10)))
    × (get format (run format 3 events (new_mem_table (pos 10))) b
        ≡ promises format 3 events (new_mem_table (pos 10)) (λ k. none) b)
unfolding ss_table_format
get-run_example = get-run format 3 events (pos 10) b (
  (omega arith, (omega arith, omega arith), omega arith),
  (
    tt,
    (
      (omega arith, (omega arith, omega arith), omega arith),
      (tt, ((omega arith, omega arith, omega arith), tt)),
    ),
  ),
)

-- One key in the active list, one in the dirty one.
abbrev two_lists : MemTable Bytes
two_lists = record (new_mem_table (pos 0)) {
  active = (insert new_skip_list 3 a (some (5 ∷ []))).0;
  dirty = some (insert new_skip_list 2 b (some (6 ∷ []))).0;
}

scan_range-visible_example :
    IsAscending (scan_range collect two_lists a [] [])
    × (assoc b (scan_range collect two_lists a [] []) ≡ (
        if outside a [] b
        then none
        else visible (or_else (search two_lists.active b) (dirty_search two_lists.dirty b))))
unfolding new_mem_table
scan_range-visible_example =
    scan_range-visible a b two_lists []
      (Refine.insert-IsValid new_skip_list 3 a (some (5 ∷ [])) Refine.IsValid-new (omega arith))
      (Refine.insert-IsValid new_skip_list 2 b (some (6 ∷ [])) Refine.IsValid-new (omega arith))

-- A record, and a second one that is cut off in its header.
replay-Runs_example :
    Runs
      (λ r s. (r ∷ s, true))
      (1 ∷ (0 ∷ (0 ∷ (0 ∷ (1 ∷ (0 ∷ (0 ∷ (0 ∷ (0 ∷ (97 ∷ (2 ∷ (0 ∷ []))))))))))))
      []
      (record { op = 1; key = a; value = none } ∷ [], true)
unfolding replay read_full u32_be slice
replay-Runs_example =
    replay-Runs (λ r s. (r ∷ s, true))
      (1 ∷ (0 ∷ (0 ∷ (0 ∷ (1 ∷ (0 ∷ (0 ∷ (0 ∷ (0 ∷ (97 ∷ (2 ∷ (0 ∷ [])))))))))))) []
