-- ===== src/Storage/Wal/Recovery.antt =====
-- What a replay of storage/wal.go recovers, also from a file whose last write was torn.
use mathlib.Core.List.{append_assoc, append-nil}
use mathlib.Core.Path.{subst}
use ban_db.Prelude.{
  ℕ, zero, suc, ◌+◌, ◌-◌, ◌^◌, ◌%◌, ◌≤◌, ◌<◌, List, [], ◌∷◌, ◌++◌, ◌≡◌, inl, inr, refl, sym, ◌∙◌,
  ap, arith, length, ltb, Bool, true, false, Option, none, some, take, drop, map, length-append,
  length-take, length-drop, Bool-cases,
}
use ban_db.Bytes.{Bytes}
use ban_db.Bytes.Fixed.{slice, put_u32_be, u32_be}
use ban_db.Bytes.Reader.{read_full, read_full-append, read_full-short, read_full-long}
use ban_db.Storage.Wal.{
  Record, bytes_of, encode_record, append, read_value, op_of, read_record, replay_loop, replay,
}

-- A record as it is read back: an empty value comes back as nil.
abbrev pub normal_value : Bytes → Option Bytes
normal_value [] = none
normal_value (b ∷ v) = some (b ∷ v)

abbrev pub normal : Record → Record
normal r = record { op = r.op % 256; key = r.key; value = normal_value (bytes_of r.value) }

-- The length fields hold the lengths.
abbrev pub Fits : Record → Type 0
Fits r = (length r.key < 2 ^ 32) × (length (bytes_of r.value) < 2 ^ 32)

module _ (r : Record) where
  abbrev header : Bytes
  header = (r.op % 256) ∷ (put_u32_be (length r.key) ++ put_u32_be (length (bytes_of r.value)))

  abbrev body : Bytes
  body = r.key ++ bytes_of r.value

  encode-header : encode_record r ≡ header ++ body
  unfolding encode_record put_u32_be
  encode-header = refl

  length-header : length header ≡ 9
  unfolding put_u32_be
  length-header = refl

  key_len : length r.key < 2 ^ 32 → u32_be (slice header 1 5) ≡ length r.key
  unfolding put_u32_be slice u32_be
  key_len h = omega arith

  value_len :
      length (bytes_of r.value) < 2 ^ 32 → u32_be (slice header 5 9) ≡ length (bytes_of r.value)
  unfolding put_u32_be slice u32_be
  value_len h = omega arith

  op-header : op_of header ≡ r.op % 256
  unfolding op_of
  op-header = refl

read_header : (r : Record) (s : Bytes) → read_full 9 (header r ++ s) ≡ some (header r, s)
read_header r s =
    subst (λ n. read_full n (header r ++ s) ≡ some (header r, s)) (length-header r)
      (read_full-append (header r) s)

read_value-append :
    (v rest : Bytes) → read_value (length v) (v ++ rest) ≡ some (normal_value v, rest)
unfolding read_value
read_value-append [] rest = refl
read_value-append (b ∷ v) rest = rw (read_full-append (b ∷ v) rest)

read_record-encode :
    (r : Record) (rest : Bytes)
    → Fits r
    → read_record (encode_record r ++ rest) ≡ some (normal r, rest)
unfolding read_record
read_record-encode r rest fits = rw (
  encode-header r,
  append_assoc (header r) (body r) rest,
  read_header r (body r ++ rest),
  key_len r fits.0,
  value_len r fits.1,
  append_assoc r.key (bytes_of r.value) rest,
  read_full-append r.key (bytes_of r.value ++ rest),
  read_value-append (bytes_of r.value) rest,
  op-header r,
)

read_value-short : (n : ℕ) (s : Bytes) → length s < n → read_value n s ≡ none
unfolding read_value
read_value-short zero s h = elim h [ ]
read_value-short (suc n) s h = rw (read_full-short (suc n) s h)

-- The body of a record, cut short.
read_body_cut :
    (key v : Bytes) (m : ℕ) (hdr : Bytes)
    → u32_be (slice hdr 1 5) ≡ length key
    → u32_be (slice hdr 5 9) ≡ length v
    → read_full 9 (hdr ++ take m (key ++ v)) ≡ some (hdr, take m (key ++ v))
    → m < length key + length v
    → read_record (hdr ++ take m (key ++ v)) ≡ none
unfolding read_record
read_body_cut key v m hdr hk hv head cut =
    let t = take m (key ++ v) in
    let size : length t ≡ m = omega (arith, length-take m (key ++ v), length-append key v) in
    elim (Bool-cases (ltb m (length key))) [
      | inl in_key ↦ rw (head, hk, read_full-short (length key) t (ground (arith, size)))
      | inr past ↦ rw (
        head,
        hk,
        read_full-long (length key) t (ground (arith, size)),
        hv,
        read_value-short (length v) (drop (length key) t)
            (ground (arith, size, length-drop (length key) t)),
      )
    ]

take_past :
    (r : Record) (m : ℕ)
    → take (suc (suc (suc (suc (suc (suc (suc (suc (suc m))))))))) (encode_record r)
      ≡ header r ++ take m (body r)
unfolding encode_record put_u32_be
take_past r m = refl

-- A proper prefix of a record is no record.
read_record-torn :
    (r : Record) (n : ℕ)
    → Fits r
    → n < length (encode_record r)
    → read_record (take n (encode_record r)) ≡ none
unfolding read_record
read_record-torn r n fits cut =
    let size : length (encode_record r) ≡ 9 + length r.key + length (bytes_of r.value) =
      rw (encode-header r) (
        omega (
          arith,
          length-append (header r) (body r),
          length-header r,
          length-append r.key (bytes_of r.value),
        )) in
    elim (Bool-cases (ltb n 9)) [
      | inl in_head ↦ rw (
          read_full-short 9 (take n (encode_record r))
            (ground (arith, length-take n (encode_record r))))
      | inr past ↦
          let m = n - 9 in
          let e : n ≡ suc (suc (suc (suc (suc (suc (suc (suc (suc m)))))))) = ground arith in
          let parts : take n (encode_record r) ≡ header r ++ take m (body r) =
            ap (λ t. take t (encode_record r)) e ∙ take_past r m in
          rw parts (
            read_body_cut r.key (bytes_of r.value) m (header r) (key_len r fits.0)
              (value_len r fits.1) (read_header r (take m (body r))) (omega (arith, size)))
    ]

-- The file after the records `rs` were appended to it, in order.
abbrev pub append_all : Bytes → List Record → Bytes
append_all file [] = file
append_all file (r ∷ rs) = append_all (append file r) rs

abbrev pub AllFit : List Record → Type 0
AllFit [] = Unit
AllFit (r ∷ rs) = Fits r × AllFit rs

encode_all : List Record → Bytes
encode_all [] = []
encode_all (r ∷ rs) = encode_record r ++ encode_all rs

append_all-eq : (file : Bytes) (rs : List Record) → append_all file rs ≡ file ++ encode_all rs
unfolding encode_all append
append_all-eq file [] = sym (append-nil file)
append_all-eq file (r ∷ rs) =
    append_all-eq (file ++ encode_record r) rs ∙ append_assoc file (encode_record r) (encode_all rs)

length-encode_all : (rs : List Record) → length rs ≤ length (encode_all rs)
unfolding encode_all encode_record
length-encode_all [] = omega arith
length-encode_all (r ∷ rs) =
    omega (arith, length-encode_all rs, length-append (encode_record r) (encode_all rs))

module _ {ℓ} {S : Type ℓ} (fn : Record → S → S × Bool) where
  -- Feeding records to the callback one after the other, up to the first error.
  abbrev pub feed : List Record → S → S × Bool
  feed [] s = (s, true)
  feed (r ∷ rs) s = let (s', good) = fn r s in elim good [ true ↦ feed rs s' | false ↦ (s', false) ]

  replay_loop-all :
      (rs : List Record) (fuel : ℕ) (tail : Bytes) (s : S)
      → AllFit rs
      → read_record tail ≡ none
      → length rs < fuel
      → replay_loop fn fuel (encode_all rs ++ tail) s ≡ feed (map normal rs) s
  unfolding replay_loop encode_all
  replay_loop-all rs zero tail s fits torn enough = elim enough [ ]
  replay_loop-all [] (suc fuel) tail s fits torn enough = rw (torn, replay_loop)
  replay_loop-all (r ∷ rs) (suc fuel) tail s fits torn enough =
      let (s', good) = fn (normal r) s in
      let ih = replay_loop-all rs fuel tail s' fits.1 torn (omega arith) in
      rw
        (
          append_assoc (encode_record r) (encode_all rs) tail,
          read_record-encode r (encode_all rs ++ tail) fits.0,
          replay_loop,
        )
        (elim (Bool-cases good) [ inl e ↦ rw e ih | inr e ↦ rw e ])

  -- A replay of a log gives the callback exactly the records that were appended, in order, up to the
  -- first error of the callback: whatever the last write left of a torn record is passed over. An
  -- empty value comes back as nil. The keys and values fit their length fields.
  pub replay-append_all :
      (rs : List Record) (last : Record) (n : ℕ) (s : S)
      → AllFit rs
      → Fits last
      → n < length (encode_record last)
      → replay fn (some (append_all [] rs ++ take n (encode_record last))) s
        ≡ feed (map normal rs) s
  unfolding replay
  replay-append_all rs last n s fits fit cut = rw append_all-eq (
      replay_loop-all rs (suc (length (encode_all rs ++ torn))) torn s fits
        (read_record-torn last n fit cut)
        (omega (arith, length-encode_all rs, length-append (encode_all rs) torn)))
    where
      torn : Bytes
      torn = take n (encode_record last)
