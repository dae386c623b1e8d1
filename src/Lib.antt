-- ===== src/Lib.antt =====
-- A verification library for BanDB, a key-value store written in Go: the wire protocol, the memory
-- table with its credit pool, the SSTable files under it, the write-ahead log of the standalone mode,
-- and the consensus module.
--
-- How the parts meet. A client sends frames (network/banNet/DataPack.go), whose payloads are PUT, GET,
-- DEL and SCAN bodies (pkg/utils/message.go, pkg/proto/scan.go). A write goes to the log (storage/wal.go)
-- or through Raft (Raft/), and then to the memory table (storage/zstorage/memtable.go): a skip list that
-- takes the writes, one that is being flushed, and files (storage/zstorage/SSTable.go). A pool of byte
-- credits (pkg/credit/credit.go) holds back the writes while too much is not on disk.
--
-- Which file models what:
--   Prelude, Bytes: shared tests, lists and integers; bytes as numbers, bytes.Compare (Bytes/Order),
--     encoding/binary (Bytes/Fixed), io.ReadFull (Bytes/Reader).
--   Wire/Frame: Pack, UnPack and one round of StartReader. Wire/Put: NewKVData, encodePut, parsePut, and
--     the parsing of GET and DEL. Wire/Scan: pkg/proto/scan.go.
--   Credit: the pool; each method is one step under its mutex. Credit/Waiting: the calls of Acquire that
--     wait, with cond.Wait and Broadcast.
--   Storage/Wal: Append and Replay, over the content of the file.
--   Storage/SkipList: the nodes along level 0 with their heights; the chain of level i is the part of
--     them that is taller than i, and `walk` and `descend` follow it as the loops do.
--   Storage/SsTable: the loops of WriteToSSTable and searchBlock. Storage/Format is what the memory
--     table needs of a file format, and Storage/SsTable/Filter fills it, with the Bloom filter of the
--     keys (Storage/Bloom) asked first.
--     Footer: what follows the data section, and its readers; Reopened: a read of a file that is not
--     cached. Iterator: sstableIterator and ReadAllFromSSTable. Merged: MergeSSTable over the merge.
--   Storage/Merge: mergeIterator of merge_iterator.go, over any iterator that answers Next. Queue has the
--     heap, Newest what the sources say of a key, Steps and Drain a step and the whole; Streams carries
--     this from lists of entries to iterators, and Errors is the check that a source ascends.
--   Storage/Merger is what compaction needs of MergeSSTable, Storage/SsTable/Merged/Newest fills it, and
--     Storage/MemTable/Compact is CompactSSTable over it, with GetLevelFiles, AddMata and RemoveMata.
--     Storage/MemTable/Snapshot: FlushToSSTable and WriteSSTable.
--   Storage/MemTable: Put, Delete and Get as one step each, and Flush as two; History runs them in any
--     order. Put and Delete take and give back their credit in critical sections of their own, which no
--     reader of the lists sees; a write that has to wait for credit is an event that lets nothing through.
--     Scan: ScanRange. Flushed: what Flush leaves.
--   Raft: the state and the steps of raft.go, with TakeSnapshot in Raft/Snapshot; Raft/Rpc: the handlers
--     of rpc.go; Promise runs them in any order, with crashes. Raft/Election: the counting of the votes
--     and what comes of it. Raft/Wal: the bytes of the log and state files of raft_wal.go, which the node
--     sees as values, and of a snapshot's data.
--   Service: the standalone server of service/fsm.go over the log and the memory table.
--     Service/Router: the handlers of service/router.go over it; Scanned is about KVServer.Scan.
--     Service/Ingest: the filter of service/ingesthook/filter.go; Service/Dispatch: DoMsgHandle of
--     network/banNet/msgHandle.go, which asks the hook and then the router.
--
-- Bounds and fuel. A byte is a number, and the lemmas on fields ask that lengths fit theirs. A Go int is
-- an integer here; lengths, indexes and terms stay below 2^63. Replay runs on as much fuel as the file
-- has bytes, plus one: a record has nine bytes at least (Storage/Wal/Ended). The binary search of searchBlock runs on the
-- length of the index, which halves in each round, and the loop of applyCommittedLogs on the distance of
-- its bounds, which is the number of its rounds. The loop that drops old versions in a merge runs on the
-- length of the heap, since each source has one entry of a key; the loop over a whole merge, and a reading
-- of a whole file, on the bytes of the files, of which each entry takes eight at least. The theorems on
-- merging ask that the entries of the files stay under 32 GiB together, so that counts and offsets fit.
--
-- Not modelled: goroutines, timers, sockets and configuration; JSON, a parameter; file errors but for a
-- failed flush and the end of a log; the encoding of a Bloom filter, whose bytes are a parameter, and
-- its reading from a file; the float formulas for the sizes of a filter, which are parameters as well;
-- MaxKey and the order of the files after a restart; a flush or a read that runs beside a compaction.
-- Between AddMata and `m.dirty = nil` a reader sees the list and its file at once, which agree; here
-- this is one step.
-- Raft's replies are events: what the network loses or repeats is a matter of their order.
pub mod Prelude
pub mod Bytes
pub mod Wire
pub mod Credit
pub mod Storage
pub mod Raft
pub mod Service
