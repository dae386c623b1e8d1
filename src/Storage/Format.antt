-- ===== src/Storage/Format.antt =====
-- The interface between the memory table and the SSTable files: what MemTable relies on in
-- `WriteToSSTable` and `ReadFromSSTable`, for keys that are not past the last one. Storage/SsTable/Filter.antt has the file format.
use ban_db.Prelude.{◌≡◌, Option, List, ◌∷◌, false}
use ban_db.Bytes.{Bytes}
use ban_db.Storage.Entries.{Entry, IsAscending, assoc, All, last_key}
use ban_db.Bytes.Order.{less}

pub record Format : Type 1 where
  -- the content of a file
  pub File : Type 0
  pub write : List Entry → File
  -- `none` is found == false, `some none` a tombstone
  pub read : File → Bytes → Option (Option Bytes)
  -- which entries a file can hold
  pub Fits : Bytes → Option Bytes → Type 0
  pub read-write :
      (e : Entry) (es : List Entry) (key : Bytes)
      → All Fits (e ∷ es)
      → IsAscending (e ∷ es)
      → less (last_key e.0 es) key ≡ false
      → read (write (e ∷ es)) key ≡ assoc key (e ∷ es)
