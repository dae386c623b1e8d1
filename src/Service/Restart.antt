-- ===== src/Service/Restart.antt =====
-- What a standalone server (service/fsm.go) has after a crash: its log, with the records of all writes
-- and perhaps a torn one, replayed into the table that the start found on disk.
use ban_db.Prelude.{
  ℕ, ◌<◌, List, [], ◌∷◌, ◌++◌, length, take, map, true, Option, none, some, if◌then◌else◌, ◌≡◌,
  refl, ◌∙◌, ap, arith,
}
use ban_db.Prelude.Int.{pos, ◌≤ℤ◌}
use ban_db.Bytes.{Bytes}
use ban_db.Bytes.Order.{same}
use ban_db.Credit.{fits, try_acquire, acquire, release}
use ban_db.Storage.Format.{Format}
use ban_db.Storage.Wal.{Record, bytes_of, encode_record, append}
use ban_db.Storage.Wal.Recovery.{normal, normal_value, AllFit, append_all, feed, replay-append_all}
use ban_db.Storage.Wal.Recovery
use ban_db.Storage.MemTable.{MemTable, put, delete, get, acquire_credit, write_entry}
use ban_db.Storage.MemTable.Valid.{IsValid, put-IsValid}
use ban_db.Storage.MemTable.History.{Contents, Event, step, promise, update, get-step}
use ban_db.Service.{Command, draw, write_standalone, apply_record, replay_wal}

-- The record that a command leaves in the log.
abbrev pub records_of : List Command → List Record
records_of [] = []
records_of (Command.put_command key value ∷ cs) =
    record { op = 1; key = key; value = value } ∷ records_of cs
records_of (Command.delete_command key ∷ cs) =
    record { op = 2; key = key; value = none } ∷ records_of cs
records_of (Command.other_command ∷ cs) = records_of cs

-- The value as a replay gives it: an empty one is nil.
abbrev pub restored : Option Bytes → Option Bytes
restored v = normal_value (bytes_of v)

-- What the keys have after the commands, each value as `keep` leaves it.
abbrev pub after : (Option Bytes → Option Bytes) → List Command → Contents → Contents
after keep [] c = c
after keep (Command.put_command key value ∷ cs) c = after keep cs (update true key (keep value) c)
after keep (Command.delete_command key ∷ cs) c = after keep cs (update true key none c)
after keep (Command.other_command ∷ cs) c = after keep cs c

append_all-records_of :
    (old cs : List Command) (file : Bytes)
    → append_all (append_all file (records_of old)) (records_of cs)
      ≡ append_all file (records_of (old ++ cs))
append_all-records_of [] cs file = refl
append_all-records_of (Command.put_command key value ∷ old) cs file =
    append_all-records_of old cs (append file (record { op = 1; key = key; value = value }))
append_all-records_of (Command.delete_command key ∷ old) cs file =
    append_all-records_of old cs (append file (record { op = 2; key = key; value = none }))
append_all-records_of (Command.other_command ∷ old) cs file = append_all-records_of old cs file

AllFit-records_of :
    (old cs : List Command)
    → AllFit (records_of old)
    → AllFit (records_of cs)
    → AllFit (records_of (old ++ cs))
AllFit-records_of [] cs a b = b
AllFit-records_of (Command.put_command key value ∷ old) cs a b =
    (a.0, AllFit-records_of old cs a.1 b)
AllFit-records_of (Command.delete_command key ∷ old) cs a b = (a.0, AllFit-records_of old cs a.1 b)
AllFit-records_of (Command.other_command ∷ old) cs a b = AllFit-records_of old cs a b

module _ (fmt : Format) (max_size : ℕ) where
  open fmt use {File, Fits}

  abbrev pub AllWritable : List Command → Type 0
  AllWritable [] = Unit
  AllWritable (Command.put_command key value ∷ cs) =
      (Fits key value × Fits key none) × AllWritable cs
  AllWritable (Command.delete_command key ∷ cs) = Fits key none × AllWritable cs
  AllWritable (Command.other_command ∷ cs) = AllWritable cs

  abbrev pub AllPositive : List ℕ → Type 0
  AllPositive [] = Unit
  AllPositive (h ∷ hs) = (0 < h) × AllPositive hs

  -- The credit limit is off.
  abbrev pub Unlimited : MemTable File → Type 0
  Unlimited m = m.pool.budget ≤ℤ pos 0

  put-granted :
      (m : MemTable File) (h : ℕ) (key : Bytes) (value : Option Bytes)
      → Unlimited m
      → ((put fmt max_size m h key value).1 ≡ true)
        × ((put fmt max_size m h key value).0.pool.budget ≡ m.pool.budget)
  unfolding put acquire_credit write_entry try_acquire acquire release fits
  put-granted m h key value free = ground arith

  delete-granted :
      (m : MemTable File) (h : ℕ) (key : Bytes)
      → Unlimited m
      → ((delete fmt max_size m h key).1 ≡ true)
        × ((delete fmt max_size m h key).0.pool.budget ≡ m.pool.budget)
  unfolding delete acquire_credit write_entry try_acquire acquire release fits
  delete-granted m h key free = ground arith

  -- One record, replayed: what it leaves and what Get gives then.
  record Replayed (m m' : MemTable File) (key : Bytes) (value : Option Bytes) : Type 0 where
    valid : IsValid fmt m'
    free : Unlimited m'
    gives : (j : Bytes) → get fmt m' j ≡ update true key value (get fmt m) j

  put-Replayed :
      (m : MemTable File) (h : ℕ) (key : Bytes) (value : Option Bytes)
      → 0 < h
      → Fits key value × Fits key none
      → IsValid fmt m
      → Unlimited m
      → Replayed m (put fmt max_size m h key value).0 key value
  put-Replayed m h key value high fit v free =
      let (granted, budget) = put-granted m h key value free in
      record {
        valid = (put-IsValid fmt max_size m h key value high fit.0 fit.1 v).0;
        free = rw budget free;
        gives = λ j.
            unfold step promise in
            (get-step fmt max_size (Event.put_event h key value) m j (high, fit.0, fit.1) v
              ∙ ap (λ done. update done key value (get fmt m) j) granted);
      }

  delete-Replayed :
      (m : MemTable File) (h : ℕ) (key : Bytes)
      → 0 < h
      → Fits key none
      → IsValid fmt m
      → Unlimited m
      → Replayed m (delete fmt max_size m h key).0 key none
  delete-Replayed m h key high fit v free =
      let (granted, budget) = delete-granted m h key free in
      record {
        valid = (put-IsValid fmt max_size m h key none high fit fit v).1;
        free = rw budget free;
        gives = λ j.
            unfold step promise in
            (get-step fmt max_size (Event.delete_event h key) m j (high, fit, fit) v
              ∙ ap (λ done. update done key none (get fmt m) j) granted);
      }

  draw-positive : (hs : List ℕ) → AllPositive hs → (0 < (draw hs).0) × AllPositive (draw hs).1
  draw-positive [] p = (omega arith, tt)
  draw-positive (h ∷ hs) p = p

  after-ext :
      (keep : Option Bytes → Option Bytes) (cs : List Command) (c d : Contents)
      → ((j : Bytes) → c j ≡ d j)
      → (j : Bytes) → after keep cs c j ≡ after keep cs d j
  after-ext keep [] c d e j = e j
  after-ext keep (Command.put_command key value ∷ cs) c d e j =
      after-ext keep cs _ _ (λ i. ap (λ t. if same key i then keep value else t) (e i)) j
  after-ext keep (Command.delete_command key ∷ cs) c d e j =
      after-ext keep cs _ _ (λ i. ap (λ t. if same key i then none else t) (e i)) j
  after-ext keep (Command.other_command ∷ cs) c d e j = after-ext keep cs c d e j

  Fits-restored :
      (key : Bytes) (value : Option Bytes)
      → Fits key value × Fits key none
      → Fits key (restored value)
  Fits-restored key none f = f.1
  Fits-restored key (some []) f = f.1
  Fits-restored key (some (b ∷ v)) f = f.0

  -- Feeding the records of the commands to the callback.
  feed-after :
      (cs : List Command) (hs : List ℕ) (m : MemTable File) (j : Bytes)
      → AllWritable cs
      → AllPositive hs
      → IsValid fmt m
      → Unlimited m
      → ((feed (apply_record fmt max_size) (map normal (records_of cs)) (hs, m)).1 ≡ true)
        × (get fmt (feed (apply_record fmt max_size) (map normal (records_of cs)) (hs, m)).0.1 j
            ≡ after restored cs (get fmt m) j)
  unfolding apply_record
  feed-after [] hs m j w p v free = (refl, refl)
  feed-after (Command.put_command key value ∷ cs) hs m j w p v free =
      let (high, p') = draw-positive hs p in
      let granted = (put-granted m (draw hs).0 key (restored value) free).0 in
      let r =
        put-Replayed m (draw hs).0 key (restored value) high (Fits-restored key value w.0, w.0.1) v
          free in
      let (done, gives) =
        feed-after cs (draw hs).1 (put fmt max_size m (draw hs).0 key (restored value)).0 j w.1 p'
          r.valid r.free in
      rw (feed, granted) (done, gives ∙ after-ext restored cs _ _ r.gives j)
  feed-after (Command.delete_command key ∷ cs) hs m j w p v free =
      let (high, p') = draw-positive hs p in
      let granted = (delete-granted m (draw hs).0 key free).0 in
      let r = delete-Replayed m (draw hs).0 key high w.0 v free in
      let (done, gives) =
        feed-after cs (draw hs).1 (delete fmt max_size m (draw hs).0 key).0 j w.1 p' r.valid
          r.free in
      rw (feed, granted) (done, gives ∙ after-ext restored cs _ _ r.gives j)
  feed-after (Command.other_command ∷ cs) hs m j w p v free = feed-after cs hs m j w p v free

  -- Commands one after the other.
  abbrev pub serve : List Command → List ℕ → Bytes × MemTable File → Bytes × MemTable File
  serve [] hs s = s
  serve (c ∷ cs) hs s = serve cs (draw hs).1 (write_standalone fmt max_size c (draw hs).0 s).0

  serve-after :
      (cs : List Command) (hs : List ℕ) (file : Bytes) (m : MemTable File) (j : Bytes)
      → AllWritable cs
      → AllPositive hs
      → IsValid fmt m
      → Unlimited m
      → ((serve cs hs (file, m)).0 ≡ append_all file (records_of cs))
        × (get fmt (serve cs hs (file, m)).1 j ≡ after (λ v. v) cs (get fmt m) j)
  unfolding write_standalone
  serve-after [] hs file m j w p v free = (refl, refl)
  serve-after (Command.put_command key value ∷ cs) hs file m j w p v free =
      let (high, p') = draw-positive hs p in
      let r = put-Replayed m (draw hs).0 key value high w.0 v free in
      let (log, gives) =
        serve-after cs (draw hs).1 (append file (record { op = 1; key = key; value = value }))
          (put fmt max_size m (draw hs).0 key value).0 j w.1 p' r.valid r.free in
      (log, gives ∙ after-ext (λ v. v) cs _ _ r.gives j)
  serve-after (Command.delete_command key ∷ cs) hs file m j w p v free =
      let (high, p') = draw-positive hs p in
      let r = delete-Replayed m (draw hs).0 key high w.0 v free in
      let (log, gives) =
        serve-after cs (draw hs).1 (append file (record { op = 2; key = key; value = none }))
          (delete fmt max_size m (draw hs).0 key).0 j w.1 p' r.valid r.free in
      (log, gives ∙ after-ext (λ v. v) cs _ _ r.gives j)
  serve-after (Command.other_command ∷ cs) hs file m j w p v free =
      serve-after cs (draw hs).1 file m j w (draw-positive hs p).1 v free

  AllWritable-append :
      (cs ds : List Command) → AllWritable cs → AllWritable ds → AllWritable (cs ++ ds)
  AllWritable-append [] ds a b = b
  AllWritable-append (Command.put_command key value ∷ cs) ds a b =
      (a.0, AllWritable-append cs ds a.1 b)
  AllWritable-append (Command.delete_command key ∷ cs) ds a b =
      (a.0, AllWritable-append cs ds a.1 b)
  AllWritable-append (Command.other_command ∷ cs) ds a b = AllWritable-append cs ds a b

  -- A standalone server whose log holds whole records only, those of the commands `old` of earlier lives,
  -- gives each key its last value when it has served some more; and after a crash, whatever the last write
  -- left of a torn record, the replay of its log ends without an error and gives each key the last value
  -- of the old and the new commands, but nothing where that value was empty, and what the table found on
  -- disk gives for the keys that no command wrote. The credit limit is off, new nodes have a level, and
  -- keys and values fit the files and the log.
  pub replay_wal-serve :
      (old cs : List Command) (last : Record) (n : ℕ) (hs hs' : List ℕ) (m m₀ : MemTable File)
      (j : Bytes)
      → AllWritable old
      → AllWritable cs
      → AllFit (records_of old)
      → AllFit (records_of cs)
      → Recovery.Fits last
      → n < length (encode_record last)
      → AllPositive hs
      → AllPositive hs'
      → IsValid fmt m × Unlimited m
      → IsValid fmt m₀ × Unlimited m₀
      → (let file = append_all [] (records_of old) in
          let log = (serve cs hs (file, m)).0 ++ take n (encode_record last) in
          let restarted = replay_wal fmt max_size (some log) (hs', m₀) in
          (get fmt (serve cs hs (file, m)).1 j ≡ after (λ v. v) cs (get fmt m) j)
          × (restarted.1 ≡ true)
          × (get fmt restarted.0.1 j ≡ after restored (old ++ cs) (get fmt m₀) j))
  unfolding replay_wal
  replay_wal-serve old cs last n hs hs' m m₀ j w₀ w fit_old fit_log fit cut p p' v v₀ =
      let (log, gives) = serve-after cs hs (append_all [] (records_of old)) m j w p v.0 v.1 in
      let whole = log ∙ append_all-records_of old cs [] in
      let replayed =
        replay-append_all (apply_record fmt max_size) (records_of (old ++ cs)) last n (hs', m₀)
          (AllFit-records_of old cs fit_old fit_log) fit cut in
      let (done, again) =
        feed-after (old ++ cs) hs' m₀ j (AllWritable-append old cs w₀ w) p' v₀.0 v₀.1 in
      rw (whole, replayed) (gives, done, again)
