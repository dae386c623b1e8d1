-- ===== src/Credit/Waiting.antt =====
-- The requests that wait in Acquire of pkg/credit/credit.go: its loop around cond.Wait, and Release, which
-- gives the mutex back before it calls Broadcast.
pub mod Woken
use ban_db.Prelude.{
  ℕ, zero, suc, ◌+◌, ◌-◌, List, [], ◌∷◌, ◌++◌, Bool, true, false, Option, none, some, if◌then◌else◌,
}
use ban_db.Prelude.Int.{ℤ, pos}
use ban_db.Credit.{Pool, new, try_acquire, acquire, release}

-- A call of Acquire that has not returned: in cond.Wait, or woken and on its way to the mutex.
pub record Waiter : Type 0 where
  pub amount : ℕ
  pub asleep : Bool

-- `broadcasts` counts the calls of Release that have yet to call Broadcast.
pub record Shared : Type 0 where
  pub pool : Pool
  pub waiters : List Waiter
  pub broadcasts : ℕ

abbrev pub quiet : ℤ → Shared
quiet budget = record { pool = new budget; waiters = []; broadcasts = 0 }

-- Acquire up to its return or its first Wait.
unfoldable pub arrive : ℕ → Shared → Shared
arrive n s = elim (acquire s.pool (pos n)) [
  | some pool ↦ record s { pool = pool }
  | none ↦ record s { waiters = s.waiters ++ (record { amount = n; asleep = true } ∷ []) }
]

-- A woken call has the mutex again and tests once more.
unfoldable pub recheck_at : ℕ → Pool → List Waiter → Pool × List Waiter
recheck_at i p [] = (p, [])
recheck_at zero p (w ∷ ws) = if w.asleep then (p, w ∷ ws) else elim (acquire p (pos w.amount)) [
  | some p' ↦ (p', ws)
  | none ↦ (p, record w { asleep = true } ∷ ws)
]
recheck_at (suc i) p (w ∷ ws) = let (p', ws') = recheck_at i p ws in (p', w ∷ ws')

unfoldable pub recheck : ℕ → Shared → Shared
unfolding recheck_at
recheck i s = let (p, ws) = recheck_at i s.pool s.waiters in record s { pool = p; waiters = ws }

-- Release up to Unlock.
unfoldable pub begin_release : ℤ → Shared → Shared
begin_release n s = record s { pool = release s.pool n; broadcasts = suc s.broadcasts }

abbrev pub wake_all : List Waiter → List Waiter
wake_all [] = []
wake_all (w ∷ ws) = record w { asleep = false } ∷ wake_all ws

-- The Broadcast of a Release.
unfoldable pub broadcast : Shared → Shared
broadcast s = elim s.broadcasts [
  | zero ↦ s
  | suc b ↦ record s { waiters = wake_all s.waiters; broadcasts = b }
]

pub data Event : Type 0 where
  try_event acquire_event release_event recheck_event : ℕ → Event
  broadcast_event : Event

unfoldable pub step : Event → Shared → Shared
unfolding arrive recheck begin_release broadcast
step (try_event n) s = record s { pool = (try_acquire s.pool (pos n)).0 }
step (acquire_event n) s = arrive n s
step (release_event n) s = begin_release (pos n) s
step (recheck_event i) s = recheck i s
step broadcast_event s = broadcast s

unfoldable pub run : List Event → Shared → Shared
unfolding step
run [] s = s
run (e ∷ es) s = run es (step e s)
