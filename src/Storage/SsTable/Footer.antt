-- ===== src/Storage/SsTable/Footer.antt =====
-- The end of a file of storage/zstorage/SSTable.go: the block index, the filter section and the footer as
-- WriteToSSTable and writeBloomSection write them, and sstableDataEnd and loadBlockIndexFromFile, which
-- read them. `blob` is the encoded filter.
pub mod Loaded
use ban_db.Prelude.{
  ℕ, zero, suc, ◌+◌, ◌-◌, ◌^◌, ◌==◌, ltb, leb, List, [], ◌∷◌, ◌++◌, length, drop, Bool, true, false,
  ◌||◌, ◌&&◌, not, Option, none, some, if◌then◌else◌,
}
use ban_db.Bytes.{Bytes}
use ban_db.Bytes.Fixed.{put_u32_be, put_u64_be, u32_be, u64_be, slice}
use ban_db.Bytes.Reader.{read_full}
use ban_db.Storage.SsTable.{BlockIndexEntry}

abbrev pub index_footer_magic : ℕ
index_footer_magic = 0x49445846

abbrev pub index_footer_size : ℕ
index_footer_size = 16

abbrev pub bloom_trailer_magic : ℕ
bloom_trailer_magic = 0x424c4d46

-- [LastKeyLen(4B)][LastKey][BlockOffset(8B)], for each block
unfoldable pub encode_index : List BlockIndexEntry → Bytes
encode_index [] = []
encode_index (b ∷ bs) =
    put_u32_be (length b.last_key) ++ (b.last_key ++ (put_u64_be b.block_offset ++ encode_index bs))

unfoldable pub bloom_section : Bytes → Bytes
bloom_section blob = blob ++ (put_u64_be (length blob) ++ put_u32_be bloom_trailer_magic)

unfoldable pub footer : ℕ → ℕ → Bytes
footer block_count index_offset =
    put_u32_be block_count ++ (put_u64_be index_offset ++ put_u32_be index_footer_magic)

-- What WriteToSSTable writes after the data section.
unfoldable pub file_tail : Bytes → Bytes → List BlockIndexEntry → Bytes
file_tail blob data' idx =
    encode_index idx ++ (bloom_section blob ++ footer (length idx) (length data'))

-- The three fields of the footer; `none` where the file is shorter than one.
unfoldable pub read_footer : Bytes → Option (ℕ × ℕ × ℕ)
read_footer content =
    let f = drop (length content - index_footer_size) content in
    if ltb (length content) index_footer_size
    then none
    else some (u32_be f, u64_be (slice f 4 12), u32_be (slice f 12 16))

-- magic == indexFooterMagic && blockCount > 0 && indexOffset > 0, the offset an int64
abbrev pub is_footer : ℕ × ℕ × ℕ → Bool
is_footer (count, offset, magic) =
    magic == index_footer_magic && (ltb 0 count && (ltb 0 offset && ltb offset (2 ^ 63)))

-- sstableDataEnd; `none` is -1.
unfoldable pub ss_table_data_end : Bytes → Option ℕ
ss_table_data_end content = elim (read_footer content) [
  | none ↦ none
  | some f ↦ if is_footer f then some f.1 else none
]

infixl 5 ◌>>=◌
abbrev ◌>>=◌ {ℓ κ} : {A : Type ℓ} {B : Type κ} → Option A → (A → Option B) → Option B
none >>= f = none
some a >>= f = f a

-- The loop of loadBlockIndexFromFile.
unfoldable pub read_index : ℕ → Bytes → Option (List BlockIndexEntry)
read_index zero s = some []
read_index (suc count) s = do
  (kl, s₁) ← read_full 4 s
  (k, s₂) ← read_full (u32_be kl) s₁
  (off, s₃) ← read_full 8 s₂
  rest ← read_index count s₃
  some (record { last_key = k; block_offset = u64_be off } ∷ rest)

-- loadBlockIndexFromFile; `none` is nil.
unfoldable pub load_block_index_from_file : Bytes → Option (List BlockIndexEntry)
load_block_index_from_file content = elim (read_footer content) [
  | none ↦ none
  | some f ↦ if is_footer f then read_index f.0 (drop f.1 content) else none
]
