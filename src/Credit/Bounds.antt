-- ===== src/Credit/Bounds.antt =====
-- How much the credit pool of pkg/credit/credit.go hands out.
use ban_db.Prelude.{ℕ, ◌≤◌, Option, none, some, List, [], ◌∷◌, arith, ◌⊎◌}
use ban_db.Prelude.Int.{pos, ◌+ℤ◌, ◌-ℤ◌, ◌≤ℤ◌}
use ban_db.Credit.{Pool, try_acquire, acquire, release}

-- What one caller does to the pool. A refused TryAcquire and a waiting Acquire change nothing.
pub data Call : Type 0 where
  try_acquire_call acquire_call release_call : ℕ → Call

wait : Pool → Option Pool → Pool
wait p none = p
wait p (some p') = p'

unfoldable pub exec : Call → Pool → Pool
unfolding wait try_acquire acquire release
exec (try_acquire_call n) p = (try_acquire p (pos n)).0
exec (acquire_call n) p = wait p (acquire p (pos n))
exec (release_call n) p = release p (pos n)

unfoldable pub exec_all : List Call → Pool → Pool
exec_all [] p = p
exec_all (c ∷ cs) p = exec_all cs (exec c p)

-- No request is larger than `most`.
abbrev pub AtMost : ℕ → List Call → Type 0
AtMost most [] = Unit
AtMost most (try_acquire_call n ∷ cs) = (n ≤ most) × AtMost most cs
AtMost most (acquire_call n ∷ cs) = (n ≤ most) × AtMost most cs
AtMost most (release_call n ∷ cs) = AtMost most cs

-- With the limit on, the pool holds at most the budget, or one single request.
pub record IsBounded (most : ℕ) (p : Pool) : Type 0 where
  pub nonneg : pos 0 ≤ℤ p.used
  pub limited : (p.budget ≤ℤ pos 0) ⊎ ((p.used ≤ℤ p.budget) ⊎ (p.used ≤ℤ pos most))

acquire-IsBounded :
    (most n : ℕ) (p : Pool) → n ≤ most → IsBounded most p → IsBounded most (try_acquire p (pos n)).0
unfolding try_acquire ◌+ℤ◌
acquire-IsBounded most n p h b = ground arith

wait-IsBounded :
    (most n : ℕ) (p : Pool)
    → n ≤ most
    → IsBounded most p
    → IsBounded most (wait p (acquire p (pos n)))
unfolding wait acquire ◌+ℤ◌
wait-IsBounded most n p h b = ground arith

release-IsBounded : (most n : ℕ) (p : Pool) → IsBounded most p → IsBounded most (release p (pos n))
unfolding release ◌-ℤ◌
release-IsBounded most n p b = ground arith

-- Whatever the callers do, in whatever order, the credit that is out never goes below 0 and, with the
-- limit on, never above the budget, or above the largest single request where that is larger.
pub exec_all-IsBounded :
    (cs : List Call) (most : ℕ) (p : Pool)
    → AtMost most cs
    → IsBounded most p
    → IsBounded most (exec_all cs p)
unfolding exec_all exec
exec_all-IsBounded [] most p small b = b
exec_all-IsBounded (try_acquire_call n ∷ cs) most p small b =
    exec_all-IsBounded cs most (try_acquire p (pos n)).0 small.1
      (acquire-IsBounded most n p small.0 b)
exec_all-IsBounded (acquire_call n ∷ cs) most p small b =
    exec_all-IsBounded cs most (wait p (acquire p (pos n))) small.1
      (wait-IsBounded most n p small.0 b)
exec_all-IsBounded (release_call n ∷ cs) most p small b =
    exec_all-IsBounded cs most (release p (pos n)) small (release-IsBounded most n p b)
