-- ===== src/Bytes/Fixed.antt =====
-- Slices `data[i:j]`, and the fixed-width integers of encoding/binary: PutUint16, PutUint32 and
-- PutUint64 with their readers, little endian and big endian.
use mathlib.Core.List.{append_assoc}
use ban_db.Prelude.{
  ℕ, ◌+◌, ◌-◌, ◌*◌, ◌/◌, ◌%◌, ◌^◌, ◌<◌, List, [], ◌∷◌, ◌++◌, ◌≡◌, refl, sym, ◌∙◌, ap, arith, length,
  take, drop, length-append,
}

-- data[i:j], within the bounds
unfoldable pub slice : List ℕ → ℕ → ℕ → List ℕ
slice d i j = take (j - i) (drop i d)

unfoldable pub put_u16_le : ℕ → List ℕ
put_u16_le n = (n % 256) ∷ (n / 256 % 256) ∷ []

unfoldable pub put_u32_le : ℕ → List ℕ
put_u32_le n = (n % 256) ∷ (n / 2 ^ 8 % 256) ∷ (n / 2 ^ 16 % 256) ∷ (n / 2 ^ 24 % 256) ∷ []

unfoldable pub put_u32_be : ℕ → List ℕ
put_u32_be n = (n / 2 ^ 24 % 256) ∷ (n / 2 ^ 16 % 256) ∷ (n / 2 ^ 8 % 256) ∷ (n % 256) ∷ []

unfoldable pub put_u64_be : ℕ → List ℕ
unfolding put_u32_be
put_u64_be n = put_u32_be (n / 2 ^ 32) ++ put_u32_be n

-- The readers look at the first bytes; each caller has checked that they are there.
unfoldable pub u16_le : List ℕ → ℕ
u16_le (a ∷ b ∷ r) = a + 256 * b
u16_le _ = 0

unfoldable pub u32_le : List ℕ → ℕ
u32_le (a ∷ b ∷ c ∷ d ∷ r) = a + 2 ^ 8 * b + 2 ^ 16 * c + 2 ^ 24 * d
u32_le _ = 0

unfoldable pub u32_be : List ℕ → ℕ
u32_be (a ∷ b ∷ c ∷ d ∷ r) = 2 ^ 24 * a + 2 ^ 16 * b + 2 ^ 8 * c + d
u32_be _ = 0

unfoldable pub u64_be : List ℕ → ℕ
unfolding u32_be
u64_be r = 2 ^ 32 * u32_be (take 4 r) + u32_be (drop 4 r)

pub u16_le-put : (n : ℕ) (r : List ℕ) → n < 2 ^ 16 → u16_le (put_u16_le n ++ r) ≡ n
unfolding u16_le put_u16_le
u16_le-put n r h = omega arith

pub u32_le-put : (n : ℕ) (r : List ℕ) → n < 2 ^ 32 → u32_le (put_u32_le n ++ r) ≡ n
unfolding u32_le put_u32_le
u32_le-put n r h = omega arith

pub u32_be-put : (n : ℕ) (r : List ℕ) → n < 2 ^ 32 → u32_be (put_u32_be n ++ r) ≡ n
unfolding u32_be put_u32_be
u32_be-put n r h = omega arith

pub u64_be-put : (n : ℕ) (r : List ℕ) → n < 2 ^ 64 → u64_be (put_u64_be n ++ r) ≡ n
unfolding u64_be put_u64_be
u64_be-put n r h = omega arith

pub length-put_u16_le : (n : ℕ) → length (put_u16_le n) ≡ 2
unfolding put_u16_le
length-put_u16_le n = refl

pub length-put_u32_le : (n : ℕ) → length (put_u32_le n) ≡ 4
unfolding put_u32_le
length-put_u32_le n = refl

pub length-put_u32_be : (n : ℕ) → length (put_u32_be n) ≡ 4
unfolding put_u32_be
length-put_u32_be n = refl

pub length-put_u64_be : (n : ℕ) → length (put_u64_be n) ≡ 8
unfolding put_u64_be
length-put_u64_be n = refl

pub drop-append : (p r : List ℕ) → drop (length p) (p ++ r) ≡ r
drop-append [] r = refl
drop-append (x ∷ p) r = drop-append p r

pub take-append : (p r : List ℕ) → take (length p) (p ++ r) ≡ p
take-append [] r = refl
take-append (x ∷ p) r = ap (λ t. x ∷ t) (take-append p r)

-- The middle of three parts, at the offsets that their lengths give.
pub slice-append :
    (p x r : List ℕ) (i j : ℕ) → i ≡ length p → j ≡ i + length x → slice (p ++ (x ++ r)) i j ≡ x
unfolding slice
slice-append p x r i j hi hj =
    let e : j - i ≡ length x = omega arith in rw (e, hi, drop-append p (x ++ r)) (take-append x r)

-- The second and the third of the parts behind a prefix.
pub slice-append_second :
    (p x y r : List ℕ) (i j : ℕ)
    → i ≡ length p + length x
    → j ≡ i + length y
    → slice (p ++ (x ++ (y ++ r))) i j ≡ y
slice-append_second p x y r i j hi hj =
    rw (← append_assoc p x (y ++ r))
      (slice-append (p ++ x) y r i j (hi ∙ sym (length-append p x)) hj)

pub slice-append_third :
    (p x y z r : List ℕ) (i j : ℕ)
    → i ≡ length p + length x + length y
    → j ≡ i + length z
    → slice (p ++ (x ++ (y ++ (z ++ r)))) i j ≡ z
slice-append_third p x y z r i j hi hj = rw (← append_assoc p x (y ++ (z ++ r))) (
    slice-append_second (p ++ x) y z r i j (hi ∙ ap (λ t. t + length y) (sym (length-append p x)))
      hj)

-- A u32 field at its offset.
pub u32_le-field :
    (p : List ℕ) (n : ℕ) (r : List ℕ) (i j : ℕ)
    → i ≡ length p
    → j ≡ i + 4
    → n < 2 ^ 32
    → u32_le (slice (p ++ (put_u32_le n ++ r)) i j) ≡ n
unfolding u32_le put_u32_le
u32_le-field p n r i j hi hj h = ap u32_le (slice-append p (put_u32_le n) r i j hi hj) ∙ omega arith

pub slice-append_fourth :
    (p x y z w r : List ℕ) (i j : ℕ)
    → i ≡ length p + length x + length y + length z
    → j ≡ i + length w
    → slice (p ++ (x ++ (y ++ (z ++ (w ++ r))))) i j ≡ w
slice-append_fourth p x y z w r i j hi hj = rw (← append_assoc p x (y ++ (z ++ (w ++ r)))) (
    slice-append_third (p ++ x) y z w r i j
      (hi ∙ ap (λ t. t + length y + length z) (sym (length-append p x))) hj)

pub u32_le-field_second :
    (p x : List ℕ) (n : ℕ) (r : List ℕ) (i j : ℕ)
    → i ≡ length p + length x
    → j ≡ i + 4
    → n < 2 ^ 32
    → u32_le (slice (p ++ (x ++ (put_u32_le n ++ r))) i j) ≡ n
u32_le-field_second p x n r i j hi hj h =
    rw (← append_assoc p x (put_u32_le n ++ r))
      (u32_le-field (p ++ x) n r i j (hi ∙ sym (length-append p x)) hj h)

pub drop-append_at : (p r : List ℕ) (i : ℕ) → i ≡ length p → drop i (p ++ r) ≡ r
drop-append_at p r i h = rw h (drop-append p r)

drop-append_second : (p x r : List ℕ) (i : ℕ) → i ≡ length p + length x → drop i (p ++ (x ++ r)) ≡ r
drop-append_second p x r i h =
    rw (← append_assoc p x r) (drop-append_at (p ++ x) r i (h ∙ sym (length-append p x)))

drop-append_third :
    (p x y r : List ℕ) (i : ℕ)
    → i ≡ length p + length x + length y
    → drop i (p ++ (x ++ (y ++ r))) ≡ r
drop-append_third p x y r i h =
    rw (← append_assoc p x (y ++ r))
      (drop-append_second (p ++ x) y r i (h ∙ ap (λ t. t + length y) (sym (length-append p x))))

pub drop-append_fourth :
    (p x y z r : List ℕ) (i : ℕ)
    → i ≡ length p + length x + length y + length z
    → drop i (p ++ (x ++ (y ++ (z ++ r)))) ≡ r
drop-append_fourth p x y z r i h = rw (← append_assoc p x (y ++ (z ++ r))) (
    drop-append_third (p ++ x) y z r i
      (h ∙ ap (λ t. t + length y + length z) (sym (length-append p x))))
