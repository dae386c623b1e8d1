-- ===== src/Credit/Tests.antt =====
-- A pool of ten credits.
use ban_db.Prelude.{List, [], ◌∷◌, ◌<◌, ◌⊎◌, arith, inl, inr}
use ban_db.Credit.Waiting.{Shared, Event, quiet, run}
use ban_db.Credit.Waiting.Woken.{AllQuiet, run-AllQuiet}
use ban_db.Prelude.Int.{pos}
use ban_db.Credit.{new}
use ban_db.Credit.Bounds
use ban_db.Credit.Bounds.{exec_all, IsBounded, exec_all-IsBounded}

abbrev calls : List Bounds.Call
calls =
    Bounds.Call.try_acquire_call 4
    ∷ (Bounds.Call.acquire_call 12
        ∷ (Bounds.Call.release_call 4 ∷ (Bounds.Call.acquire_call 12 ∷ [])))

exec_all-IsBounded_example : IsBounded 12 (exec_all calls (new (pos 10)))
exec_all-IsBounded_example =
    exec_all-IsBounded calls 12 (new (pos 10)) (omega arith, (omega arith, (omega arith, tt)))
      (record { nonneg = omega arith; limited = inr (inl (omega arith)) })

-- Nine credits are out, and two calls sleep.
abbrev crowded : Shared
crowded =
    run (Event.acquire_event 9 ∷ (Event.acquire_event 12 ∷ (Event.acquire_event 2 ∷ [])))
      (quiet (pos 10))

-- One of them is let through after a release, the other sleeps again.
abbrev passing : List Event
passing =
    Event.acquire_event 9
    ∷ (Event.acquire_event 12
        ∷ (Event.acquire_event 2
            ∷ (Event.release_event 4
                ∷ (Event.broadcast_event
                    ∷ (Event.recheck_event 1 ∷ (Event.recheck_event 0 ∷ []))))))

run-AllQuiet_example :
    (0 < (run passing (quiet (pos 10))).broadcasts)
    ⊎ AllQuiet (run passing (quiet (pos 10))).pool (run passing (quiet (pos 10))).waiters
run-AllQuiet_example = run-AllQuiet (pos 10) passing
