-- ===== src/Bytes/Order.antt =====
-- `bytes.Compare`, `bytes.Equal` and the test `bytes.Compare(a, b) < 0` on byte strings.
use ban_db.Prelude.{ℕ, compare, Ordering, List, [], ◌∷◌, ◌≡◌, refl, Bool, true, false, arith, ◌↔◌}

unfoldable pub cmp : List ℕ → List ℕ → Ordering
cmp [] [] = Ordering.eq
cmp [] (b ∷ bs) = Ordering.lt
cmp (a ∷ r) [] = Ordering.gt
cmp (a ∷ r) (b ∷ bs) = elim (compare a b) [
  | Ordering.lt ↦ Ordering.lt
  | Ordering.gt ↦ Ordering.gt
  | Ordering.eq ↦ cmp r bs
]

-- bytes.Compare(a, b) < 0
unfoldable pub less : List ℕ → List ℕ → Bool
less a b = elim (cmp a b) [ Ordering.lt ↦ true | _ ↦ false ]

-- bytes.Equal(a, b), and bytes.Compare(a, b) == 0
unfoldable pub same : List ℕ → List ℕ → Bool
same a b = elim (cmp a b) [ Ordering.eq ↦ true | _ ↦ false ]

pub cmp_refl : (a : List ℕ) → cmp a a ≡ Ordering.eq
unfolding cmp
cmp_refl [] = refl
cmp_refl (a ∷ r) = ground (arith, cmp_refl r)

pub eq_of_cmp : (a b : List ℕ) → cmp a b ≡ Ordering.eq → a ≡ b
unfolding cmp
eq_of_cmp [] [] h = refl
eq_of_cmp [] (b ∷ bs) h = ground arith
eq_of_cmp (a ∷ r) [] h = ground arith
eq_of_cmp (a ∷ r) (b ∷ bs) h = ground (arith, eq_of_cmp r bs)

pub cmp_flip : (a b : List ℕ) → (cmp a b ≡ Ordering.gt) ↔ (cmp b a ≡ Ordering.lt)
unfolding cmp
cmp_flip [] [] = ground arith
cmp_flip [] (b ∷ bs) = ground arith
cmp_flip (a ∷ r) [] = ground arith
cmp_flip (a ∷ r) (b ∷ bs) = ground (arith, cmp_flip r bs)

pub less_trans : (a b c : List ℕ) → less a b ≡ true → less b c ≡ true → less a c ≡ true
unfolding less cmp
less_trans [] [] c h k = ground arith
less_trans [] (b ∷ bs) [] h k = ground arith
less_trans [] (b ∷ bs) (c ∷ cs) h k = refl
less_trans (a ∷ r) [] c h k = ground arith
less_trans (a ∷ r) (b ∷ bs) [] h k = ground arith
less_trans (a ∷ r) (b ∷ bs) (c ∷ cs) h k = ground (arith, less_trans r bs cs)

pub less_irrefl : (a : List ℕ) → less a a ≡ false
unfolding less
less_irrefl a = ground (arith, cmp_refl a)

pub same_refl : (a : List ℕ) → same a a ≡ true
unfolding same
same_refl a = ground (arith, cmp_refl a)

pub same→eq : (a b : List ℕ) → same a b ≡ true → a ≡ b
unfolding same
same→eq a b h = eq_of_cmp a b (ground arith)

pub less→not-same : (a b : List ℕ) → less a b ≡ true → same a b ≡ false
unfolding less same
less→not-same a b h = ground arith

pub same_comm : (a b : List ℕ) → same a b ≡ same b a
unfolding same
same_comm a b =
    ground (arith, cmp_flip a b, cmp_flip b a, eq_of_cmp a b, eq_of_cmp b a, cmp_refl a, cmp_refl b)

-- Of two keys one is less, or they are the same.
pub less_total : (a b : List ℕ) → less a b ≡ false → same a b ≡ false → less b a ≡ true
unfolding less same
less_total a b h k = ground (arith, cmp_flip a b)

pub less_asymm : (a b : List ℕ) → less a b ≡ true → less b a ≡ false
unfolding less
less_asymm a b h = ground (arith, cmp_flip b a)
