-- ===== src/Storage/Bloom/Positive.antt =====
-- Adding keys to the filters of storage/zstorage/bloom.go and asking for them.
use ban_db.Prelude.{
  ℕ, zero, suc, ◌+◌, ◌≤◌, ◌<◌, List, [], ◌∷◌, length, set, get_or, Bool, true, false, ◌≡◌, refl,
  ◌∙◌, arith, Bool-cases, inl, inr, length-set,
}
use ban_db.Bytes.{Bytes}
use ban_db.Storage.Bloom.{BloomFilter, position, add_loop, add, test_loop, may_contain, hash_pair}

-- The positions lie within the bits.
pub record IsValid (b : BloomFilter) : Type 0 where
  pub some_bits : 0 < b.m
  pub room : b.m ≤ length b.bits

get_or-set_kept :
    (bits : List Bool) (p q : ℕ)
    → get_or bits q false ≡ true
    → get_or (set bits p true) q false ≡ true
get_or-set_kept [] p q h = h
get_or-set_kept (b ∷ bits) zero zero h = refl
get_or-set_kept (b ∷ bits) zero (suc q) h = h
get_or-set_kept (b ∷ bits) (suc p) zero h = h
get_or-set_kept (b ∷ bits) (suc p) (suc q) h = get_or-set_kept bits p q h

get_or-set_here :
    (bits : List Bool) (p : ℕ) → p < length bits → get_or (set bits p true) p false ≡ true
get_or-set_here [] p h = elim h [ ]
get_or-set_here (b ∷ bits) zero h = refl
get_or-set_here (b ∷ bits) (suc p) h = get_or-set_here bits p (omega arith)

get_or-add_loop :
    (n i : ℕ) (h : ℕ × ℕ) (m : ℕ) (bits : List Bool) (q : ℕ)
    → get_or bits q false ≡ true
    → get_or (add_loop n i h m bits) q false ≡ true
unfolding add_loop
get_or-add_loop zero i h m bits q t = t
get_or-add_loop (suc n) i h m bits q t =
    get_or-add_loop n (i + 1) h m (set bits (position h i m) true) q
      (get_or-set_kept bits (position h i m) q t)

length-add_loop :
    (n i : ℕ) (h : ℕ × ℕ) (m : ℕ) (bits : List Bool) → length (add_loop n i h m bits) ≡ length bits
unfolding add_loop
length-add_loop zero i h m bits = refl
length-add_loop (suc n) i h m bits =
    length-add_loop n (i + 1) h m (set bits (position h i m) true)
    ∙ length-set bits (position h i m) true

-- Bits that are set stay set, and pass the test.
test_loop-more :
    (n i : ℕ) (h : ℕ × ℕ) (m : ℕ) (bits bits' : List Bool)
    → ((q : ℕ) → get_or bits q false ≡ true → get_or bits' q false ≡ true)
    → test_loop n i h m bits ≡ true
    → test_loop n i h m bits' ≡ true
unfolding test_loop
test_loop-more zero i h m bits bits' more t = refl
test_loop-more (suc n) i h m bits bits' more t =
    elim (Bool-cases (get_or bits (position h i m) false)) [
      | inl e ↦
          rw (more (position h i m) e) (test_loop-more n (i + 1) h m bits bits' more (rw e at t))
      | inr e ↦ absurd (contradiction (rw e at t))
    ]
  where
    contradiction : false ≡ true → ⊥
    contradiction c = cc c

test_loop-add_loop :
    (n i : ℕ) (h : ℕ × ℕ) (m : ℕ) (bits : List Bool)
    → 0 < m
    → m ≤ length bits
    → test_loop n i h m (add_loop n i h m bits) ≡ true
unfolding test_loop add_loop
test_loop-add_loop zero i h m bits some_bits room = refl
test_loop-add_loop (suc n) i h m bits some_bits room =
    let p = position h i m in
    let inside : p < length bits = unfold position in omega arith in
    rw (get_or-add_loop n (i + 1) h m (set bits p true) p (get_or-set_here bits p inside)) (
      test_loop-add_loop n (i + 1) h m (set bits p true) some_bits
        (omega (arith, length-set bits p true)))

-- A filter may contain a key that was added, and whatever it might contain before.
pub may_contain-add :
    (b : BloomFilter) (key j : Bytes)
    → IsValid b
    → (may_contain (add b key) key ≡ true)
      × (may_contain b j ≡ true → may_contain (add b key) j ≡ true)
unfolding may_contain add
may_contain-add b key j v = (
  test_loop-add_loop b.k 0 (hash_pair key) b.m b.bits v.some_bits v.room,
  test_loop-more b.k 0 (hash_pair j) b.m b.bits _
      (λ q t. get_or-add_loop b.k 0 (hash_pair key) b.m b.bits q t),
)

pub add-IsValid : (b : BloomFilter) (key : Bytes) → IsValid b → IsValid (add b key)
unfolding add
add-IsValid b key v = record {
  some_bits = v.some_bits;
  room = omega (arith, v.room, length-add_loop b.k 0 (hash_pair key) b.m b.bits);
}
