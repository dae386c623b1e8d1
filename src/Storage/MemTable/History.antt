-- ===== src/Storage/MemTable/History.antt =====
-- MemTable (storage/zstorage/memtable.go) against a plain map: the goroutines that write and the
-- flush worker run their critical sections in any order, and Get always answers by the writes that
-- were let through, in their order, whatever was flushed in between.
use ban_db.Prelude.{
  ℕ, ◌+◌, ◌<◌, ◌≡◌, refl, ap, ◌∙◌, List, [], ◌∷◌, length, Bool, true, false, Option, none, some,
  arith, if◌then◌else◌, ◌&&◌,
}
use ban_db.Prelude.Int.{ℤ, pos}
use ban_db.Bytes.{Bytes}
use ban_db.Bytes.Order.{same}
use ban_db.Storage.SkipList.{value_len, search}
use ban_db.Storage.Format.{Format}
use ban_db.Storage.MemTable.{
  MemTable, new_mem_table, value_of, find, get, acquire_credit, put, delete, flush_begin, flush_end,
}
use ban_db.Storage.MemTable.Valid.{IsValid, IsValid-new, put-IsValid, table-put, table-delete}
use ban_db.Storage.MemTable.Flush.{flush-IsValid}
use ban_db.Storage.MemTable.Reads.{find-granted, find-flush_begin, find-flush_end}

-- One critical section. The number is what randomLevel() returns, the Boolean whether the file system
-- takes the file.
pub data Event : Type 0 where
  put_event : ℕ → Bytes → Option Bytes → Event
  delete_event : ℕ → Bytes → Event
  begin_event : Event
  end_event : Bool → Event

-- What the clients were promised: the value of each key, none where it is absent.
abbrev pub Contents : Type 0
Contents = Bytes → Option Bytes

abbrev pub update : Bool → Bytes → Option Bytes → Contents → Contents
update done key value c j = if done && same key j then value else c j

module _ (fmt : Format) (max_size : ℕ) where
  open fmt use {File, Fits}

  unfoldable pub step : Event → MemTable File → MemTable File
  step (put_event height key value) m = (put fmt max_size m height key value).0
  step (delete_event height key) m = (delete fmt max_size m height key).0
  step begin_event m = flush_begin fmt m
  step (end_event io) m = flush_end fmt io m

  -- A write counts from when it was let through; a flush changes nothing.
  unfoldable pub promise : Event → MemTable File → Contents → Contents
  promise (put_event height key value) m c =
      update (put fmt max_size m height key value).1 key value c
  promise (delete_event height key) m c = update (delete fmt max_size m height key).1 key none c
  promise begin_event m c = c
  promise (end_event io) m c = c

  unfoldable pub run : List Event → MemTable File → MemTable File
  run [] m = m
  run (e ∷ es) m = run es (step e m)

  unfoldable pub promises : List Event → MemTable File → Contents → Contents
  promises [] m c = c
  promises (e ∷ es) m c = promises es (step e m) (promise e m c)

  -- Nodes have a level, and the entries fit the files.
  abbrev pub EventOk : Event → Type 0
  EventOk (put_event height key value) = (0 < height) × Fits key value × Fits key none
  EventOk (delete_event height key) = (0 < height) × Fits key none × Fits key none
  EventOk begin_event = Unit
  EventOk (end_event io) = Unit

  abbrev pub AllOk : List Event → Type 0
  AllOk [] = Unit
  AllOk (e ∷ es) = EventOk e × AllOk es

  step-IsValid :
      (e : Event) (m : MemTable File) → EventOk e → IsValid fmt m → IsValid fmt (step e m)
  unfolding step
  step-IsValid (put_event height key value) m ok v =
      (put-IsValid fmt max_size m height key value ok.0 ok.1 ok.2 v).0
  step-IsValid (delete_event height key) m ok v =
      (put-IsValid fmt max_size m height key none ok.0 ok.1 ok.2 v).1
  step-IsValid begin_event m ok v = (flush-IsValid fmt m true v).0
  step-IsValid (end_event io) m ok v = (flush-IsValid fmt m io v).1

  granted-put :
      (m : MemTable File) (height : ℕ) (key : Bytes) (value : Option Bytes)
      → (put fmt max_size m height key value).1
        ≡ (acquire_credit fmt m (pos (length key + value_len value))).1
  unfolding put
  granted-put m height key value = ground arith

  granted-delete :
      (m : MemTable File) (height : ℕ) (key : Bytes)
      → (delete fmt max_size m height key).1 ≡ (acquire_credit fmt m (pos (length key))).1
  unfolding delete
  granted-delete m height key = ground arith

  value_of_if :
      (b : Bool) (value : Option Bytes) (o : Option (Option Bytes))
      → value_of (if b then some value else o) ≡ (if b then value else value_of o)
  value_of_if true value o = refl
  value_of_if false value o = refl

  pub get-step :
      (e : Event) (m : MemTable File) (j : Bytes)
      → EventOk e
      → IsValid fmt m
      → get fmt (step e m) j ≡ promise e m (get fmt m) j
  unfolding step promise get
  get-step (put_event height key value) m j ok v =
      rw
        (
          table-put fmt max_size m height key value,
          granted-put m height key value,
          find-granted fmt max_size m (pos (length key + value_len value)) height key value j ok.0
              v,
        )
        (value_of_if _ value (find fmt m j))
  get-step (delete_event height key) m j ok v =
      rw
        (
          table-delete fmt max_size m height key,
          granted-delete m height key,
          find-granted fmt max_size m (pos (length key)) height key none j ok.0 v,
        )
        (value_of_if _ none (find fmt m j))
  get-step begin_event m j ok v = ap value_of (find-flush_begin fmt m j)
  get-step (end_event io) m j ok v = ap value_of (find-flush_end fmt io m j v)

  promise-ext :
      (e : Event) (m : MemTable File) (c d : Contents)
      → ((j : Bytes) → c j ≡ d j)
      → (j : Bytes) → promise e m c j ≡ promise e m d j
  unfolding promise
  promise-ext (put_event height key value) m c d h j = rw (h j)
  promise-ext (delete_event height key) m c d h j = rw (h j)
  promise-ext begin_event m c d h j = h j
  promise-ext (end_event io) m c d h j = h j

  get-run_from :
      (es : List Event) (m : MemTable File) (c : Contents)
      → AllOk es
      → IsValid fmt m
      → ((j : Bytes) → get fmt m j ≡ c j)
      → IsValid fmt (run es m) × ((j : Bytes) → get fmt (run es m) j ≡ promises es m c j)
  unfolding run promises
  get-run_from [] m c ok v h = (v, h)
  get-run_from (e ∷ es) m c ok v h =
      get-run_from es (step e m) (promise e m c) ok.1 (step-IsValid e m ok.0 v)
        (λ j. get-step e m j ok.0 v ∙ promise-ext e m (get fmt m) c h j)

  get-new : (budget : ℤ) (j : Bytes) → get fmt (new_mem_table budget) j ≡ none
  unfolding get find new_mem_table search
  get-new budget j = refl

  -- From an empty table, whatever writes, deletes and flushes run and whatever files fail to be
  -- written: Get gives each key the value of the last write to it that was let through, and none where
  -- that was a delete or there was none; and the table's invariant holds, with the credit that is out
  -- the bytes that are not on disk. Every node has a level, and the entries fit the files.
  pub get-run :
      (es : List Event) (budget : ℤ) (j : Bytes)
      → AllOk es
      → IsValid fmt (run es (new_mem_table budget))
        × (get fmt (run es (new_mem_table budget)) j
            ≡ promises es (new_mem_table budget) (λ k. none) j)
  get-run es budget j ok =
      let (valid, kept) =
        get-run_from es (new_mem_table budget) (λ k. none) ok (IsValid-new fmt budget)
          (get-new budget) in
      (valid, kept j)
