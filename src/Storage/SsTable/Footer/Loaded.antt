-- ===== src/Storage/SsTable/Footer/Loaded.antt =====
-- What sstableDataEnd and loadBlockIndexFromFile (storage/zstorage/SSTable.go) read from a file that
-- WriteToSSTable wrote.
use mathlib.Core.List.{append_assoc}
use mathlib.Core.Path.{subst}
use ban_db.Prelude.{
  ℕ, ◌+◌, ◌-◌, ◌^◌, ◌<◌, ltb, List, [], ◌∷◌, ◌++◌, length, true, false, ◌≡◌, refl, ◌∙◌, ap, arith,
  some, length-append,
}
use ban_db.Bytes.{Bytes}
use ban_db.Bytes.Fixed.{
  put_u32_be, put_u64_be, u32_be, u64_be, slice, length-put_u32_be, length-put_u64_be,
  drop-append_at, drop-append,
}
use ban_db.Bytes.Reader.{read_full, read_full-append}
use ban_db.Storage.SsTable.{BlockIndexEntry}
use ban_db.Storage.SsTable.Footer.{
  index_footer_magic, bloom_section, encode_index, footer, file_tail, read_footer, is_footer,
  ss_table_data_end, read_index, load_block_index_from_file,
}

length-footer : (c o : ℕ) → length (footer c o) ≡ 16
unfolding footer put_u32_be put_u64_be
length-footer c o = refl

footer_fields :
    (c o : ℕ)
    → c < 2 ^ 32
    → o < 2 ^ 64
    → (u32_be (footer c o) ≡ c)
      × (u64_be (slice (footer c o) 4 12) ≡ o)
      × (u32_be (slice (footer c o) 12 16) ≡ index_footer_magic)
unfolding footer put_u32_be put_u64_be u32_be u64_be slice
footer_fields c o h k = (omega arith, omega arith, refl)

-- The footer is found at the end, whatever stands before it.
read_footer-append :
    (x : Bytes) (c o : ℕ)
    → c < 2 ^ 32
    → o < 2 ^ 64
    → read_footer (x ++ footer c o) ≡ some (c, o, index_footer_magic)
unfolding read_footer
read_footer-append x c o h k =
    let (e₁, e₂, e₃) = footer_fields c o h k in
    let long : length (x ++ footer c o) ≡ length x + 16 =
      length-append x (footer c o) ∙ ap (λ n. length x + n) (length-footer c o) in
    let start : length (x ++ footer c o) - 16 ≡ length x = omega (arith, long) in
    let enough : ltb (length (x ++ footer c o)) 16 ≡ false = ground (arith, long) in
    rw (enough, drop-append_at x (footer c o) (length (x ++ footer c o) - 16) start, e₁, e₂, e₃)

-- The tail with what comes before the footer put together.
split_tail :
    (data' blob : Bytes) (idx : List BlockIndexEntry)
    → data' ++ file_tail blob data' idx
      ≡ (data' ++ (encode_index idx ++ bloom_section blob)) ++ footer (length idx) (length data')
unfolding file_tail
split_tail data' blob idx = rw (
  append_assoc data' (encode_index idx ++ bloom_section blob) (footer (length idx) (length data')),
  append_assoc (encode_index idx) (bloom_section blob) (footer (length idx) (length data')),
)

-- The file has at least one block, and its sizes fit the fields of the footer.
pub record IsSized (data' : Bytes) (idx : List BlockIndexEntry) : Type 0 where
  pub some_data : 0 < length data'
  pub data_fits : length data' < 2 ^ 63
  pub some_block : 0 < length idx
  pub blocks_fit : length idx < 2 ^ 32

read_footer-tail :
    (data' blob : Bytes) (idx : List BlockIndexEntry)
    → IsSized data' idx
    → read_footer (data' ++ file_tail blob data' idx)
      ≡ some (length idx, length data', index_footer_magic)
read_footer-tail data' blob idx s =
    ap read_footer (split_tail data' blob idx)
    ∙ read_footer-append (data' ++ (encode_index idx ++ bloom_section blob)) (length idx)
        (length data') s.blocks_fit (omega (arith, s.data_fits))

is_footer-sized :
    (data' : Bytes) (idx : List BlockIndexEntry)
    → IsSized data' idx
    → is_footer (length idx, length data', index_footer_magic) ≡ true
is_footer-sized data' idx s = ground (arith, s.some_data, s.data_fits, s.some_block)

-- sstableDataEnd of a written file is the end of its data section.
pub ss_table_data_end-tail :
    (data' blob : Bytes) (idx : List BlockIndexEntry)
    → IsSized data' idx
    → ss_table_data_end (data' ++ file_tail blob data' idx) ≡ some (length data')
unfolding ss_table_data_end
ss_table_data_end-tail data' blob idx s =
    rw (ss_table_data_end, read_footer-tail data' blob idx s, is_footer-sized data' idx s)

-- The keys and offsets of the index fit their fields.
abbrev pub FitIndex : List BlockIndexEntry → Type 0
FitIndex [] = Unit
FitIndex (b ∷ bs) = (length b.last_key < 2 ^ 32) × (b.block_offset < 2 ^ 64) × FitIndex bs

read_field : (w x r : Bytes) → length w ≡ length x → read_full (length w) (x ++ r) ≡ some (x, r)
read_field w x r h = rw h (read_full-append x r)

read_index-encode :
    (idx : List BlockIndexEntry) (rest : Bytes)
    → FitIndex idx
    → read_index (length idx) (encode_index idx ++ rest) ≡ some idx
unfolding read_index encode_index
read_index-encode [] rest f = refl
read_index-encode (b ∷ bs) rest f =
    let k = put_u32_be (length b.last_key) in
    let o = put_u64_be b.block_offset in
    let four : read_full 4 (k ++ (b.last_key ++ (o ++ (encode_index bs ++ rest))))
        ≡ some (k, b.last_key ++ (o ++ (encode_index bs ++ rest))) =
      subst
        (λ n.
          read_full n (k ++ (b.last_key ++ (o ++ (encode_index bs ++ rest))))
          ≡ some (k, b.last_key ++ (o ++ (encode_index bs ++ rest))))
        (length-put_u32_be (length b.last_key)) (read_full-append k _) in
    let eight : read_full 8 (o ++ (encode_index bs ++ rest)) ≡ some (o, encode_index bs ++ rest) =
      subst (λ n. read_full n (o ++ (encode_index bs ++ rest)) ≡ some (o, encode_index bs ++ rest))
        (length-put_u64_be b.block_offset) (read_full-append o _) in
    let key_len : u32_be k ≡ length b.last_key =
      unfold put_u32_be in unfold u32_be in omega (arith, f.0) in
    let offset : u64_be o ≡ b.block_offset =
      unfold put_u64_be in unfold u64_be in omega (arith, f.1) in
    rw (
      append_assoc k (b.last_key ++ (o ++ encode_index bs)) rest,
      append_assoc b.last_key (o ++ encode_index bs) rest,
      append_assoc o (encode_index bs) rest,
      four,
      key_len,
      read_full-append b.last_key (o ++ (encode_index bs ++ rest)),
      eight,
      offset,
      read_index-encode bs rest f.2,
    )

-- loadBlockIndexFromFile gives back the index that was written.
pub load_block_index-tail :
    (data' blob : Bytes) (idx : List BlockIndexEntry)
    → IsSized data' idx
    → FitIndex idx
    → load_block_index_from_file (data' ++ file_tail blob data' idx) ≡ some idx
unfolding load_block_index_from_file
load_block_index-tail data' blob idx s f =
    rw
      (
        load_block_index_from_file,
        read_footer-tail data' blob idx s,
        is_footer-sized data' idx s,
        drop-append data' (file_tail blob data' idx),
      )
      (unfold file_tail in
        read_index-encode idx (bloom_section blob ++ footer (length idx) (length data')) f)
