-- ===== src/Storage/SsTable/Index.antt =====
-- What the loop of WriteToSSTable (storage/zstorage/SSTable.go) builds: the entries one after the
-- other, cut into blocks of 64, and for each block its last key and its offset.
use mathlib.Core.List.{append_assoc, append-nil}
use ban_db.Prelude.{
  ℕ, suc, ◌+◌, ◌*◌, ◌/◌, ◌%◌, ◌≤◌, ◌<◌, ◌==◌, List, [], ◌∷◌, ◌++◌, length, length-append, true,
  false, ◌≡◌, refl, sym, ◌∙◌, ap, arith, if◌then◌else◌, Bool-cases, inl, inr,
}
use ban_db.Bytes.{Bytes}
use ban_db.Storage.Entries.{Entry, last_key}
use ban_db.Storage.SsTable.{BlockIndexEntry, set_last_key, encode_entry, build}
use ban_db.Storage.SsTable.Record.{encode_all}

-- A block: its first entry and the others.
abbrev pub Block : Type 0
Block = Entry × List Entry

-- The blocks of `first ∷ others ++ es`, where the current one has `c` entries so far.
unfoldable pub cut : ℕ → Entry → List Entry → List Entry → List Block
cut c first others [] = (first, others) ∷ []
cut c first others (e ∷ es) =
    let next = (first, others) ∷ cut 1 e [] es in
    let same = cut (c + 1) first (others ++ (e ∷ [])) es in if c == 64 then next else same

unfoldable pub index_from : ℕ → List Block → List BlockIndexEntry
index_from off [] = []
index_from off ((e, es) ∷ bs) =
    record { last_key = last_key e.0 es; block_offset = off }
    ∷ index_from (off + length (encode_all (e ∷ es))) bs

unfoldable pub entries_in : List Block → List Entry
entries_in [] = []
entries_in ((e, es) ∷ bs) = e ∷ (es ++ entries_in bs)

abbrev pub Small : List Block → Type 0
Small [] = Unit
Small ((e, es) ∷ bs) = (length es < 64) × Small bs

pub entries_in-cut :
    (c : ℕ) (first : Entry) (others es : List Entry)
    → entries_in (cut c first others es) ≡ first ∷ (others ++ es)
unfolding cut entries_in
entries_in-cut c first others [] = refl
entries_in-cut c first others (e ∷ es) = elim (Bool-cases (c == 64)) [
  | inl z ↦ rw (z, entries_in, entries_in-cut 1 e [] es)
  | inr z ↦
      rw (z, entries_in-cut (c + 1) first (others ++ (e ∷ [])) es, append_assoc others (e ∷ []) es)
]

pub cut-Small :
    (c : ℕ) (first : Entry) (others es : List Entry)
    → c ≡ suc (length others)
    → c ≤ 64
    → Small (cut c first others es)
unfolding cut
cut-Small c first others [] h l = (omega arith, tt)
cut-Small c first others (e ∷ es) h l = elim (Bool-cases (c == 64)) [
  | inl z ↦ rw z (omega arith, cut-Small 1 e [] es refl (omega arith))
  | inr z ↦ rw z (
      cut-Small (c + 1) first (others ++ (e ∷ [])) es (omega (arith, length-append others (e ∷ [])))
        (ground arith))
]

last_key-snoc : (k : Bytes) (es : List Entry) (e : Entry) → last_key k (es ++ (e ∷ [])) ≡ e.0
unfolding last_key
last_key-snoc k [] e = refl
last_key-snoc k (x ∷ es) e = last_key-snoc x.0 es e

set_last_key-end :
    (done : List BlockIndexEntry) (b : BlockIndexEntry) (bi : ℕ) (k : Bytes)
    → bi ≡ length done
    → set_last_key (done ++ (b ∷ [])) bi k ≡ done ++ (record b { last_key = k } ∷ [])
unfolding set_last_key
set_last_key-end [] b bi k h = rw h
set_last_key-end (x ∷ done) b bi k h =
    rw h (ap (λ t. x ∷ t) (unfold set_last_key in set_last_key-end done b (length done) k refl))

pub encode_all-append :
    (xs ys : List Entry) → encode_all (xs ++ ys) ≡ encode_all xs ++ encode_all ys
unfolding encode_all
encode_all-append [] ys = refl
encode_all-append (x ∷ xs) ys =
    rw (encode_all-append xs ys)
      (sym (append_assoc (encode_entry x) (encode_all xs) (encode_all ys)))

-- One round of the loop: the first entry of a block, and a further one.
build-first :
    (i : ℕ) (e : Entry) (es : List Entry) (buf : Bytes) (idx : List BlockIndexEntry)
    → (i % 64 == 0) ≡ true
    → i / 64 ≡ length idx
    → build i (e ∷ es) buf idx
      ≡ build
          (i + 1)
          es
          (buf ++ encode_entry e)
          (idx ++ (record { last_key = e.0; block_offset = length buf } ∷ []))
unfolding build
build-first i e es buf idx h d =
    rw
      (h, set_last_key-end idx (record { last_key = []; block_offset = length buf }) (i / 64) e.0 d)

build-further :
    (i : ℕ) (e : Entry) (es : List Entry) (buf : Bytes) (done : List BlockIndexEntry)
    (b : BlockIndexEntry)
    → (i % 64 == 0) ≡ false
    → i / 64 ≡ length done
    → build i (e ∷ es) buf (done ++ (b ∷ []))
      ≡ build (i + 1) es (buf ++ encode_entry e) (done ++ (record b { last_key = e.0 } ∷ []))
unfolding build
build-further i e es buf done b h d = rw (h, set_last_key-end done b (i / 64) e.0 d)

cut-full :
    (c : ℕ) (first : Entry) (others : List Entry) (e : Entry) (es : List Entry)
    → (c == 64) ≡ true
    → cut c first others (e ∷ es) ≡ (first, others) ∷ cut 1 e [] es
unfolding cut
cut-full c first others e es z = rw z

cut-room :
    (c : ℕ) (first : Entry) (others : List Entry) (e : Entry) (es : List Entry)
    → (c == 64) ≡ false
    → cut c first others (e ∷ es) ≡ cut (c + 1) first (others ++ (e ∷ [])) es
unfolding cut
cut-room c first others e es z = rw z

data-append :
    (buf : Bytes) (e : Entry) (es : List Entry)
    → (buf ++ encode_entry e) ++ encode_all es ≡ buf ++ encode_all (e ∷ es)
unfolding encode_all
data-append buf e es = append_assoc buf (encode_entry e) (encode_all es)

length-one :
    (buf : Bytes) (e : Entry)
    → length (buf ++ encode_entry e) ≡ length buf + length (encode_all (e ∷ []))
unfolding encode_all
length-one buf e = rw (append-nil (encode_entry e)) (length-append buf (encode_entry e))

length-more :
    (buf : Bytes) (off : ℕ) (first : Entry) (others : List Entry) (e : Entry)
    → length buf ≡ off + length (encode_all (first ∷ others))
    → length (buf ++ encode_entry e) ≡ off + length (encode_all (first ∷ (others ++ (e ∷ []))))
length-more buf off first others e h =
    let whole = encode_all-append (first ∷ others) (e ∷ []) in
    rw whole (
      omega (
        arith,
        length-one buf e,
        h,
        length-append (encode_all (first ∷ others)) (encode_all (e ∷ [])),
      ))

build-cut :
    (i c off : ℕ) (first : Entry) (others es : List Entry) (buf : Bytes)
    (done : List BlockIndexEntry)
    → c ≡ suc (length others)
    → c ≤ 64
    → i ≡ 64 * length done + c
    → length buf ≡ off + length (encode_all (first ∷ others))
    → build i es buf
        (done ++ (record { last_key = last_key first.0 others; block_offset = off } ∷ []))
      ≡ (buf ++ encode_all es, done ++ index_from off (cut c first others es))
unfolding last_key
build-cut i c off first others [] buf done hc lc hi hb =
    unfold build cut index_from encode_all in rw (append-nil buf)
build-cut i c off first others (e ∷ es) buf done hc lc hi hb =
    let b : BlockIndexEntry = record { last_key = last_key first.0 others; block_offset = off } in
    let size = length-append done (b ∷ []) in
    elim (Bool-cases (c == 64)) [
      | inl z ↦
          build-first i e es buf (done ++ (b ∷ [])) (ground arith) (ground (arith, size))
          ∙ build-cut (i + 1) 1 (length buf) e [] es (buf ++ encode_entry e) (done ++ (b ∷ [])) refl
              (omega arith) (ground (arith, size)) (length-one buf e)
          ∙ λ k. (data-append buf e es k, next_index z k)
      | inr z ↦
          build-further i e es buf done b (ground arith) (ground arith)
          ∙ ap
              (λ (key : Bytes).
                build (i + 1) es (buf ++ encode_entry e)
                  (done ++ (record { last_key = key; block_offset = off } ∷ [])))
              (sym (last_key-snoc first.0 others e))
          ∙ build-cut (i + 1) (c + 1) off first (others ++ (e ∷ [])) es (buf ++ encode_entry e) done
              (omega (arith, length-append others (e ∷ []))) (ground arith) (omega arith)
              (length-more buf off first others e hb)
          ∙ λ k. (
            data-append buf e es k,
            done ++ index_from off (sym (cut-room c first others e es z) k),
          )
    ]
  where
    next_index :
        (c == 64) ≡ true
        → (done ++ (record { last_key = last_key first.0 others; block_offset = off } ∷ []))
            ++ index_from (length buf) (cut 1 e [] es)
          ≡ done ++ index_from off (cut c first others (e ∷ es))
    next_index z =
        rw (cut-full c first others e es z) (unfold index_from in rw (← hb) (append_assoc done _ _))

-- The loop of WriteToSSTable writes the entries one after the other, and its index has a line for each
-- block of 64 entries, the last one shorter: the block's last key and the offset at which it begins.
pub build_lem :
    (e : Entry) (es : List Entry)
    → build 0 (e ∷ es) [] [] ≡ (encode_all (e ∷ es), index_from 0 (cut 1 e [] es))
unfolding encode_entry last_key
build_lem e es =
    build-first 0 e es [] [] refl refl
    ∙ build-cut 1 1 0 e [] es (encode_entry e) [] refl (omega arith) refl (length-one [] e)
    ∙ λ k. (data-append [] e es k, index_from 0 (cut 1 e [] es))
