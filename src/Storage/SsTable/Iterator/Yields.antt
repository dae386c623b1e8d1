-- ===== src/Storage/SsTable/Iterator/Yields.antt =====
-- What the iterator of storage/zstorage/iterator.go gives of a file that WriteToSSTable wrote.
use mathlib.Core.List.{append_assoc}
use mathlib.Core.Path.{subst}
use ban_db.Prelude.{
  ℕ, zero, suc, ◌+◌, ◌-◌, ◌<◌, ◌≤◌, List, [], ◌∷◌, ◌++◌, length, true, false, ◌≡◌, refl, ◌∙◌, ap,
  arith, Option, none, some, length-append, if◌then◌else◌,
}
use ban_db.Bytes.{Bytes}
use ban_db.Bytes.Order.{same}
use ban_db.Bytes.Fixed.{put_u32_be, length-put_u32_be}
use ban_db.Storage.Entries.{Entry, All, assoc}
use ban_db.Storage.Merge.{Outcome, item, ended, drain}
use ban_db.Storage.Merge.Streams.{Yields}
use ban_db.Storage.SsTable.{BlockIndexEntry, encode_value, encode_entry, read_entry}
use ban_db.Storage.SsTable.Record.{Fits, encode_all, read_entry-encode}
use ban_db.Storage.SsTable.Footer.{file_tail}
use ban_db.Storage.SsTable.Footer.Loaded.{IsSized, ss_table_data_end-tail}
use ban_db.Storage.SsTable.Iterator.{
  SsTableIterator, new_ss_table_iterator, is_at_end, next, read_next, read_all_from_ss_table,
  find_entry, read_from_ss_table_full,
}

length-encode_value : (v : Option Bytes) → 4 ≤ length (encode_value v)
unfolding encode_value put_u32_be
length-encode_value none = omega arith
length-encode_value (some v) = omega arith

length-encode_entry : (e : Entry) → 8 ≤ length (encode_entry e)
unfolding encode_entry
length-encode_entry (k, v) =
    let four = length-put_u32_be (length k) in
    omega (
      arith,
      length-append (put_u32_be (length k)) (k ++ encode_value v),
      length-append k (encode_value v),
      length-encode_value v,
      four,
    )

read_next-cons :
    (it : SsTableIterator) (b : ℕ) (bs : Bytes) (e : Entry) (r : Bytes)
    → it.rest ≡ b ∷ bs
    → read_entry (b ∷ bs) ≡ some (e, r)
    → read_next it ≡ item e (record it { rest = r; pos = it.pos + (length (b ∷ bs) - length r) })
unfolding read_next
read_next-cons it b bs e r h k = rw (read_next, h, k)

read_next-encode :
    (it : SsTableIterator) (e : Entry) (r : Bytes)
    → Fits e.0 e.1
    → it.rest ≡ encode_entry e ++ r
    → read_next it ≡ item e (record it { rest = r; pos = it.pos + length (encode_entry e) })
read_next-encode it e r f h = go (encode_entry e) refl
  where
    go :
        (x : Bytes)
        → encode_entry e ≡ x
        → read_next it ≡ item e (record it { rest = r; pos = it.pos + length (encode_entry e) })
    go [] z = absurd (omega (arith, length-encode_entry e, ap length z))
    go (b ∷ bs) z =
        let first : it.rest ≡ b ∷ (bs ++ r) = h ∙ ap (λ y. y ++ r) z in
        let entry : read_entry (b ∷ (bs ++ r)) ≡ some (e, r) =
          subst (λ y. read_entry (y ++ r) ≡ some (e, r)) z (read_entry-encode e r f) in
        let moved : length (b ∷ (bs ++ r)) - length r ≡ length (encode_entry e) =
          omega (arith, ap length z, length-append bs r) in
        read_next-cons it b (bs ++ r) e r first entry
        ∙ ap (λ n. item e (record it { rest = r; pos = it.pos + n })) moved

next-inside : (it : SsTableIterator) → is_at_end it.data_end it.pos ≡ false → next it ≡ read_next it
unfolding next
next-inside it h = rw h

next-outside : (it : SsTableIterator) → is_at_end it.data_end it.pos ≡ true → next it ≡ ended
unfolding next
next-outside it h = rw h

-- The iterator gives the entries of the data section, and no byte after it is taken for an entry.
Yields-data :
    (es : List Entry) (it : SsTableIterator) (junk : Bytes) (end : ℕ)
    → All Fits es
    → it.rest ≡ encode_all es ++ junk
    → it.data_end ≡ some end
    → it.pos + length (encode_all es) ≡ end
    → Yields next it es
unfolding encode_all
Yields-data [] it junk end f h d p = next-outside it (ap (λ o. is_at_end o it.pos) d ∙ ground arith)
Yields-data (e ∷ es) it junk end f h d p =
    let bytes = length-append (encode_entry e) (encode_all es) in
    let inside : is_at_end it.data_end it.pos ≡ false =
      ap (λ o. is_at_end o it.pos) d ∙ ground (arith, bytes, length-encode_entry e) in
    let after : SsTableIterator = record it {
      rest = encode_all es ++ junk;
      pos = it.pos + length (encode_entry e);
    } in
    (
      after,
      next-inside it inside
          ∙ read_next-encode it e (encode_all es ++ junk) f.0
              (h ∙ append_assoc (encode_entry e) (encode_all es) junk),
      Yields-data es after junk end f.1 refl d (omega (arith, bytes, p)),
    )

-- A file that was written gives the iterator the entries it was written from, and then ends.
pub Yields-written :
    (es : List Entry) (blob : Bytes) (idx : List BlockIndexEntry)
    → All Fits es
    → IsSized (encode_all es) idx
    → Yields next (new_ss_table_iterator (encode_all es ++ file_tail blob (encode_all es) idx)) es
unfolding new_ss_table_iterator
Yields-written es blob idx f s =
    Yields-data es _ (file_tail blob (encode_all es) idx) (length (encode_all es)) f refl
      (ss_table_data_end-tail (encode_all es) blob idx s) (omega arith)

-- Enough rounds drain an iterator.
pub drain-Yields :
    {It : Type 0} (step : It → Outcome It) (fuel : ℕ) (it' : It) (es : List Entry)
    → Yields step it' es
    → length es < fuel
    → drain step fuel it' ≡ some es
unfolding drain
drain-Yields step zero it' es y l = absurd (omega arith)
drain-Yields step (suc fuel) it' [] y l = rw (drain, y)
drain-Yields step (suc fuel) it' (e ∷ es) y l =
    rw (drain, y.1, drain-Yields step fuel y.0 es y.2 (omega (arith, l)))

find_entry-assoc : (key : Bytes) (es : List Entry) → find_entry key es ≡ assoc key es
unfolding find_entry assoc
find_entry-assoc key [] = refl
find_entry-assoc key (e ∷ es) =
    ap (λ r. if same e.0 key then some e.1 else r) (find_entry-assoc key es)

entries_fit : (es : List Entry) → length es ≤ length (encode_all es)
unfolding encode_all
entries_fit [] = omega arith
entries_fit (e ∷ es) =
    omega
      (arith, entries_fit es, length-encode_entry e, length-append (encode_entry e) (encode_all es))

-- ReadAllFromSSTable gives back exactly the entries that a file was written from, without an error and
-- whatever the filter section holds, and readFromSSTableFull finds in it the first entry of a key. The
-- lengths of the entries fit their fields, and the file's sizes those of the footer.
pub read_all_from_ss_table-written :
    (es : List Entry) (blob : Bytes) (idx : List BlockIndexEntry) (key : Bytes)
    → All Fits es
    → IsSized (encode_all es) idx
    → (read_all_from_ss_table (encode_all es ++ file_tail blob (encode_all es) idx) ≡ some es)
      × (read_from_ss_table_full (encode_all es ++ file_tail blob (encode_all es) idx) key
          ≡ assoc key es)
unfolding read_all_from_ss_table read_from_ss_table_full
read_all_from_ss_table-written es blob idx key f s =
    let content = encode_all es ++ file_tail blob (encode_all es) idx in
    let end = ss_table_data_end-tail (encode_all es) blob idx s in
    let all : read_all_from_ss_table content ≡ some es =
      rw (read_all_from_ss_table, end)
        (drain-Yields next (suc (length content)) _ es
          (Yields-data es _ (file_tail blob (encode_all es) idx) (length (encode_all es)) f refl
            refl (omega arith))
          (omega (
            arith,
            entries_fit es,
            length-append (encode_all es) (file_tail blob (encode_all es) idx),
          ))) in
    (all, rw (read_from_ss_table_full, all) (find_entry-assoc key es))
