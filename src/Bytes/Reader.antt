-- ===== src/Bytes/Reader.antt =====
-- Reading a stream, as io.ReadFull and binary.Read do: the bytes that are left, or the failure.
use ban_db.Prelude.{
  ℕ, take, drop, ◌≤◌, zero, suc, ◌+◌, ◌<◌, List, [], ◌∷◌, ◌++◌, ◌≡◌, refl, arith, length, Option,
  none, some,
}

-- The next `n` bytes and what follows; `none` is io.EOF or io.ErrUnexpectedEOF.
unfoldable pub read_full : ℕ → List ℕ → Option (List ℕ × List ℕ)
read_full zero s = some ([], s)
read_full (suc n) [] = none
read_full (suc n) (b ∷ s) = elim (read_full n s) [ none ↦ none | some (x, r) ↦ some (b ∷ x, r) ]

pub read_full-append : (x r : List ℕ) → read_full (length x) (x ++ r) ≡ some (x, r)
unfolding read_full
read_full-append [] r = refl
read_full-append (b ∷ x) r = rw (read_full-append x r, read_full)

pub read_full-short : (n : ℕ) (s : List ℕ) → length s < n → read_full n s ≡ none
unfolding read_full
read_full-short zero s h = elim h [ ]
read_full-short (suc n) [] h = refl
read_full-short (suc n) (b ∷ s) h = ground (arith, read_full-short n s)

-- What is read is shorter by what was asked for.
pub read_full-length :
    (n : ℕ) (s x r : List ℕ)
    → read_full n s ≡ some (x, r)
    → (length x ≡ n) × (length r + n ≡ length s)
unfolding read_full
read_full-length zero s x r h = ground arith
read_full-length (suc n) [] x r h = ground arith
read_full-length (suc n) (b ∷ s) [] r h = ground arith
read_full-length (suc n) (b ∷ s) (c ∷ x) r h = ground (arith, read_full-length n s x r)

-- Where the bytes are there, they are read.
pub read_full-long : (n : ℕ) (s : List ℕ) → n ≤ length s → read_full n s ≡ some (take n s, drop n s)
unfolding read_full
read_full-long zero s h = refl
read_full-long (suc n) [] h = absurd (omega arith)
read_full-long (suc n) (b ∷ s) h = rw (read_full-long n s (omega arith), read_full)
