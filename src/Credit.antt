-- ===== src/Credit.antt =====
-- pkg/credit/credit.go: the pool of byte credits. Each function is one critical section of the
-- mutex. `acquire` is a round of the loop of Acquire: `none` goes to cond.Wait, which is in Credit/Waiting.
pub mod Bounds
pub mod Waiting
mod Tests
use ban_db.Prelude.{Bool, true, false, ◌||◌, Option, none, some, if◌then◌else◌}
use ban_db.Prelude.Int.{ℤ, pos, ◌+ℤ◌, ◌-ℤ◌, leb_ℤ, ltb_ℤ, eq_ℤ}

pub record Pool : Type 0 where
  pub budget : ℤ
  pub used : ℤ

abbrev pub new : ℤ → Pool
new budget = record { budget = budget; used = pos 0 }

unfoldable pub fits : Pool → ℤ → Bool
fits p n = leb_ℤ p.budget (pos 0) || (eq_ℤ p.used (pos 0) || leb_ℤ (p.used +ℤ n) p.budget)

unfoldable pub try_acquire : Pool → ℤ → Pool × Bool
unfolding fits
try_acquire p n = if fits p n then (record p { used = p.used +ℤ n }, true) else (p, false)

unfoldable pub acquire : Pool → ℤ → Option Pool
unfolding fits
acquire p n = if fits p n then some (record p { used = p.used +ℤ n }) else none

unfoldable pub release : Pool → ℤ → Pool
release p n =
    let used = p.used -ℤ n in record p { used = if ltb_ℤ used (pos 0) then pos 0 else used }
