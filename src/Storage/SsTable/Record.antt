-- ===== src/Storage/SsTable/Record.antt =====
-- One entry of the data section of storage/zstorage/SSTable.go, written and read back, and the scan of
-- a block of them.
use mathlib.Core.List.{append_assoc}
use mathlib.Core.Path.{subst}
use ban_db.Prelude.{
  ℕ, zero, suc, ◌-◌, ◌^◌, ◌<◌, ◌==◌, List, [], ◌∷◌, ◌++◌, length, true, false, ◌≡◌, refl, arith,
  Option, none, some, inl, inr, Ordering, ◌⊎◌,
}
use ban_db.Bytes.{Bytes}
use ban_db.Bytes.Order.{cmp, less, same, cmp_flip}
use ban_db.Bytes.Fixed.{put_u32_be, u32_be, length-put_u32_be}
use ban_db.Bytes.Reader.{read_full, read_full-append}
use ban_db.Storage.Entries.{Entry, assoc, IsAscending, All, last_key, assoc-below}
use ban_db.Storage.SsTable.{encode_value, encode_entry, read_value, read_entry, scan_block}

-- The lengths fit their fields, and no value has the sentinel length.
abbrev pub Fits : Bytes → Option Bytes → Type 0
Fits k none = length k < 2 ^ 32
Fits k (some v) = (length k < 2 ^ 32) × (length v < 2 ^ 32 - 1)

read_u32 : (n : ℕ) (r : Bytes) → read_full 4 (put_u32_be n ++ r) ≡ some (put_u32_be n, r)
read_u32 n r =
    subst (λ m. read_full m (put_u32_be n ++ r) ≡ some (put_u32_be n, r)) (length-put_u32_be n)
      (read_full-append (put_u32_be n) r)

u32_value : (n : ℕ) → n < 2 ^ 32 → u32_be (put_u32_be n) ≡ n
unfolding put_u32_be u32_be
u32_value n h = omega arith

pub read_entry-encode :
    (e : Entry) (rest : Bytes) → Fits e.0 e.1 → read_entry (encode_entry e ++ rest) ≡ some (e, rest)
unfolding read_entry encode_entry encode_value read_value
read_entry-encode (k, none) rest f =
    let sentinel = put_u32_be 0xFFFFFFFF in
    rw (
      append_assoc (put_u32_be (length k)) (k ++ sentinel) rest,
      append_assoc k sentinel rest,
      read_u32 (length k) (k ++ (sentinel ++ rest)),
      u32_value (length k) f,
      read_full-append k (sentinel ++ rest),
      read_u32 0xFFFFFFFF rest,
      u32_value 0xFFFFFFFF (omega arith),
    )
read_entry-encode (k, some v) rest f =
    let vl = put_u32_be (length v) in
    let plain : (length v == 0xFFFFFFFF) ≡ false = ground arith in
    rw (
      append_assoc (put_u32_be (length k)) (k ++ (vl ++ v)) rest,
      append_assoc k (vl ++ v) rest,
      append_assoc vl v rest,
      read_u32 (length k) (k ++ (vl ++ (v ++ rest))),
      u32_value (length k) f.0,
      read_full-append k (vl ++ (v ++ rest)),
      read_u32 (length v) (v ++ rest),
      u32_value (length v) (omega (arith, f.1)),
      plain,
      read_full-append v rest,
    )

-- The entries one after the other.
unfoldable pub encode_all : List Entry → Bytes
encode_all [] = []
encode_all (e ∷ es) = encode_entry e ++ encode_all es

pub less_of_cmp : (a b : Bytes) → cmp a b ≡ Ordering.lt → less a b ≡ true
unfolding less
less_of_cmp a b h = ground arith

assoc-greater :
    (e : Entry) (es : List Entry) (key : Bytes)
    → IsAscending (e ∷ es)
    → cmp e.0 key ≡ Ordering.gt
    → assoc key (e ∷ es) ≡ none
assoc-greater e es key asc h =
    assoc-below key e es asc (less_of_cmp key e.0 ((cmp_flip e.0 key).0 h))

assoc-equal :
    (e : Entry) (es : List Entry) (key : Bytes)
    → cmp e.0 key ≡ Ordering.eq
    → assoc key (e ∷ es) ≡ some e.1
unfolding assoc same
assoc-equal e es key h = ground arith

assoc-smaller :
    (e : Entry) (es : List Entry) (key : Bytes)
    → cmp e.0 key ≡ Ordering.lt
    → assoc key (e ∷ es) ≡ assoc key es
unfolding assoc same
assoc-smaller e es key h = ground arith

Ordering-cases : (o : Ordering) → (o ≡ Ordering.lt) ⊎ ((o ≡ Ordering.eq) ⊎ (o ≡ Ordering.gt))
Ordering-cases Ordering.lt = inl refl
Ordering-cases Ordering.eq = inr (inl refl)
Ordering-cases Ordering.gt = inr (inr refl)

scan_step :
    (rounds : ℕ) (e : Entry) (es : List Entry) (rest key : Bytes)
    → Fits e.0 e.1
    → IsAscending (e ∷ es)
    → (cmp e.0 key ≡ Ordering.lt → scan_block rounds (encode_all es ++ rest) key ≡ assoc key es)
    → scan_block (suc rounds) (encode_all (e ∷ es) ++ rest) key ≡ assoc key (e ∷ es)
unfolding scan_block encode_all
scan_step rounds e es rest key fit asc further =
    rw
      (
        append_assoc (encode_entry e) (encode_all es) rest,
        read_entry-encode e (encode_all es ++ rest) fit,
        scan_block,
      )
      (elim (Ordering-cases (cmp e.0 key)) [
        | inr (inl eq) ↦ rw (eq, assoc-equal e es key eq)
        | inr (inr gt) ↦ rw (gt, assoc-greater e es key asc gt)
        | inl lt ↦ rw (lt, assoc-smaller e es key lt) (further lt)
      ])

-- A scan of a block finds what the block holds at the key, whatever bytes follow the block, if the key
-- is not past the last one and the scan has as many rounds as the block has entries.
pub scan_block-encode_all :
    (rounds : ℕ) (e : Entry) (es : List Entry) (rest key : Bytes)
    → All Fits (e ∷ es)
    → IsAscending (e ∷ es)
    → less (last_key e.0 es) key ≡ false
    → length es < rounds
    → scan_block rounds (encode_all (e ∷ es) ++ rest) key ≡ assoc key (e ∷ es)
unfolding last_key
scan_block-encode_all zero e es rest key fit asc within enough = elim enough [ ]
scan_block-encode_all (suc rounds) e [] rest key fit asc within enough =
    scan_step rounds e [] rest key fit.0 asc (λ lt. cc (less_of_cmp e.0 key lt, within))
scan_block-encode_all (suc rounds) e (x ∷ es) rest key fit asc within enough =
    scan_step rounds e (x ∷ es) rest key fit.0 asc
      (λ lt. scan_block-encode_all rounds x es rest key fit.1 asc.1 within (omega arith))
