-- ===== src/Storage/SsTable/Lookup.antt =====
-- ReadFromSSTable after WriteToSSTable (storage/zstorage/SSTable.go): what the file of some entries
-- gives for a key.
use mathlib.Core.List.{append_assoc, append-nil}
use ban_db.Prelude.{
  ℕ, ◌+◌, ◌-◌, ◌<◌, List, [], ◌∷◌, ◌++◌, length, drop, get_or, true, false, ◌≡◌, refl, sym, ◌∙◌, ap,
  arith, Option, leb, Bool-cases, inl, inr, length-append,
}
use ban_db.Bytes.{Bytes}
use ban_db.Bytes.Order.{less}
use ban_db.Bytes.Fixed.{drop-append}
use ban_db.Storage.Entries.{Entry, assoc, Above, IsAscending, All, last_key}
use ban_db.Storage.SsTable.{BlockIndexEntry, blank, build, scan_block, search_block}
use ban_db.Storage.SsTable.Record.{Fits, encode_all, scan_block-encode_all}
use ban_db.Storage.SsTable.Index.{
  Block, cut, index_from, entries_in, Small, entries_in-cut, cut-Small, build_lem,
  encode_all-append,
}
use ban_db.Storage.SsTable.Search.{
  first_line, LastsAbove, AscendingLasts, Above-left, asc_left, asc_right, find_block_lem,
  assoc-skip, assoc-stop,
}

Above-right : (k : Bytes) (xs ys : List Entry) → Above k (xs ++ ys) → Above k ys
Above-right k [] ys a = a
Above-right k (x ∷ xs) ys a = Above-right k xs ys a.1

Above-last :
    (k : Bytes) (e : Entry) (es : List Entry) → Above k (e ∷ es) → less k (last_key e.0 es) ≡ true
unfolding last_key
Above-last k e [] a = a.0
Above-last k e (x ∷ es) a = Above-last k x es a.1

Above-after :
    (e : Entry) (es rest : List Entry)
    → IsAscending (e ∷ (es ++ rest))
    → Above (last_key e.0 es) rest
unfolding last_key
Above-after e [] rest asc = asc.0
Above-after e (x ∷ es) rest asc = Above-after x es rest asc.1

last_key-append :
    (k : Bytes) (es : List Entry) (f : Entry) (rest : List Entry)
    → last_key k (es ++ (f ∷ rest)) ≡ last_key f.0 rest
unfolding last_key
last_key-append k [] f rest = refl
last_key-append k (e ∷ es) f rest = last_key-append e.0 es f rest

pub All-left : (xs ys : List Entry) → All Fits (xs ++ ys) → All Fits xs
All-left [] ys a = tt
All-left (x ∷ xs) ys a = (a.0, All-left xs ys a.1)

pub All-right : (xs ys : List Entry) → All Fits (xs ++ ys) → All Fits ys
All-right [] ys a = a
All-right (x ∷ xs) ys a = All-right xs ys a.1

lasts :
    (k : Bytes) (off : ℕ) (bs : List Block)
    → Above k (entries_in bs)
    → LastsAbove k (index_from off bs)
unfolding LastsAbove index_from entries_in
lasts k off [] a = tt
lasts k off ((e, es) ∷ bs) a = (
  Above-last k e es (Above-left k (e ∷ es) (entries_in bs) a),
  lasts k (off + length (encode_all (e ∷ es))) bs (Above-right k (e ∷ es) (entries_in bs) a),
)

-- The index of ascending entries ascends.
index_from-AscendingLasts :
    (off : ℕ) (bs : List Block) → IsAscending (entries_in bs) → AscendingLasts (index_from off bs)
unfolding index_from entries_in
index_from-AscendingLasts off [] asc = tt
index_from-AscendingLasts off ((e, es) ∷ bs) asc =
    let after = off + length (encode_all (e ∷ es)) in
    (
      lasts (last_key e.0 es) after bs (Above-after e es (entries_in bs) asc),
      index_from-AscendingLasts after bs (asc_right (e ∷ es) (entries_in bs) asc),
    )

-- The entries reach the key: the last one's is not smaller.
abbrev Reaching : Bytes → List Entry → Type 0
Reaching key [] = ⊥
Reaching key (e ∷ es) = less (last_key e.0 es) key ≡ false

Reaches : Bytes → List Block → Type 0
unfolding entries_in
Reaches key bs = Reaching key (entries_in bs)

Reaches-next :
    (key : Bytes) (e : Entry) (es : List Entry) (bs : List Block)
    → Reaches key ((e, es) ∷ bs)
    → less (last_key e.0 es) key ≡ true
    → Reaches key bs
unfolding Reaches entries_in
Reaches-next key e es [] r h =
    let end = ap (λ t. less (last_key e.0 t) key) (append-nil es) in cc (r, end, h)
Reaches-next key e es ((f, fs) ∷ bs) r h =
    ap (λ t. less t key) (sym (last_key-append e.0 es f (fs ++ entries_in bs))) ∙ r

first_line-within :
    (key : Bytes) (off : ℕ) (bs : List Block)
    → Reaches key bs
    → first_line key (index_from off bs) < length (index_from off bs)
unfolding first_line index_from Reaches
first_line-within key off [] r = elim r [ ]
first_line-within key off ((e, es) ∷ bs) r = elim (Bool-cases (less (last_key e.0 es) key)) [
  | inr z ↦ rw z (omega arith)
  | inl z ↦ rw z (
      omega (
        arith,
        first_line-within key (off + length (encode_all (e ∷ es))) bs
            (Reaches-next key e es bs r z),
      ))
]

-- The scan that searchBlock makes at the line that it has found.
abbrev scan_at : Bytes → Bytes → List BlockIndexEntry → Option (Option Bytes)
scan_at content key idx =
    scan_block 64 (drop (get_or idx (first_line key idx) blank).block_offset content) key

scan_here :
    (pre : Bytes) (e : Entry) (es : List Entry) (rest : List Entry) (junk key : Bytes)
    → length es < 64
    → All Fits (e ∷ (es ++ rest))
    → IsAscending (e ∷ (es ++ rest))
    → less (last_key e.0 es) key ≡ false
    → scan_block 64 (drop (length pre) (pre ++ (encode_all (e ∷ (es ++ rest)) ++ junk))) key
      ≡ assoc key (e ∷ (es ++ rest))
scan_here pre e es rest junk key small fit asc h =
    let split = encode_all-append (e ∷ es) rest in
    rw
      (
        drop-append pre (encode_all (e ∷ (es ++ rest)) ++ junk),
        split,
        append_assoc (encode_all (e ∷ es)) (encode_all rest) junk,
        assoc-stop key e es rest asc h,
      )
      (scan_block-encode_all 64 e es (encode_all rest ++ junk) key (All-left (e ∷ es) rest fit)
        (asc_left (e ∷ es) rest asc) h small)

scan_blocks :
    (pre : Bytes) (bs : List Block) (junk key : Bytes)
    → Small bs
    → All Fits (entries_in bs)
    → IsAscending (entries_in bs)
    → Reaches key bs
    → scan_at (pre ++ (encode_all (entries_in bs) ++ junk)) key (index_from (length pre) bs)
      ≡ assoc key (entries_in bs)
unfolding Reaches entries_in index_from first_line
scan_blocks pre [] junk key small fit asc r = elim r [ ]
scan_blocks pre ((e, es) ∷ bs) junk key small fit asc r =
    let rest = entries_in bs in
    let block = encode_all (e ∷ es) in
    elim (Bool-cases (less (last_key e.0 es) key)) [
      | inr z ↦ rw z (scan_here pre e es rest junk key small.0 fit asc z)
      | inl z ↦
          rw (z, assoc-skip key e es rest asc z)
            (ap
                (λ (content : Bytes).
                  scan_at content key (index_from (length pre + length block) bs))
                (further z)
              ∙ ap
                  (λ n. scan_at ((pre ++ block) ++ (encode_all rest ++ junk)) key (index_from n bs))
                  (sym (length-append pre block))
              ∙ scan_blocks (pre ++ block) bs junk key small.1 (All-right (e ∷ es) rest fit)
                  (asc_right (e ∷ es) rest asc) (Reaches-next key e es bs r z))
    ]
  where
    further :
        less (last_key e.0 es) key ≡ true
        → pre ++ (encode_all (e ∷ (es ++ entries_in bs)) ++ junk)
          ≡ (pre ++ encode_all (e ∷ es)) ++ (encode_all (entries_in bs) ++ junk)
    further z = rw (
      encode_all-append (e ∷ es) (entries_in bs),
      append_assoc pre (encode_all (e ∷ es)) (encode_all (entries_in bs) ++ junk),
      append_assoc (encode_all (e ∷ es)) (encode_all (entries_in bs)) junk,
    )

search_block-index :
    (bs : List Block) (junk key : Bytes)
    → Small bs
    → All Fits (entries_in bs)
    → IsAscending (entries_in bs)
    → Reaches key bs
    → search_block (encode_all (entries_in bs) ++ junk) key (index_from 0 bs)
      ≡ assoc key (entries_in bs)
unfolding search_block
search_block-index bs junk key small fit asc r =
    let idx = index_from 0 bs in
    let inside = first_line-within key 0 bs r in
    let found =
      find_block_lem (length idx) key idx 0 (length idx - 1) (index_from-AscendingLasts 0 bs asc)
        (omega arith) (omega (arith, inside)) (omega (arith, inside)) (omega (arith, inside)) in
    let stays : leb (length idx) (first_line key idx) ≡ false = ground (arith, inside) in
    rw (found, stays) (scan_blocks [] bs junk key small fit asc r)

cut-Reaches :
    (key : Bytes) (e : Entry) (es : List Entry)
    → less (last_key e.0 es) key ≡ false
    → Reaches key (cut 1 e [] es)
unfolding Reaches
cut-Reaches key e es h = rw (entries_in-cut 1 e [] es) h

-- A key that is not past the last one is found in the file of some entries exactly as the entries say,
-- a tombstone or a missing key included, whatever the file holds after its data section. The entries
-- are not empty, ascend, and have lengths that fit their fields.
pub search_block-build :
    (e : Entry) (es : List Entry) (junk key : Bytes)
    → All Fits (e ∷ es)
    → IsAscending (e ∷ es)
    → less (last_key e.0 es) key ≡ false
    → search_block ((build 0 (e ∷ es) [] []).0 ++ junk) key (build 0 (e ∷ es) [] []).1
      ≡ assoc key (e ∷ es)
search_block-build e es junk key fit asc h =
    let bs = cut 1 e [] es in
    let all = entries_in-cut 1 e [] es in
    rw (build_lem e es, ← all)
      (search_block-index bs junk key (cut-Small 1 e [] es refl (omega arith)) (rw all fit)
        (rw all asc) (cut-Reaches key e es h))
