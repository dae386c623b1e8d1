-- ===== src/Credit/Waiting/Woken.antt =====
-- No wake-up of the credit pool (pkg/credit/credit.go) is lost.
use ban_db.Prelude.{
  ℕ, zero, suc, ◌<◌, List, [], ◌∷◌, ◌++◌, true, false, ◌&&◌, ◌≡◌, ◌⊎◌, refl, arith, Bool-cases, inl,
  inr,
}
use ban_db.Prelude.Int.{ℤ, pos, ◌+ℤ◌, ◌-ℤ◌, ◌≤ℤ◌}
use ban_db.Credit.{Pool, fits, try_acquire, acquire, release}
use ban_db.Credit.Waiting.{
  Waiter, Shared, quiet, arrive, recheck_at, recheck, begin_release, wake_all, broadcast, Event,
  step, run,
}

-- It is not asleep, or the pool has no room for it.
abbrev pub IsQuiet : Pool → Waiter → Type 0
IsQuiet p w = (w.asleep && fits p (pos w.amount)) ≡ false

abbrev pub AllQuiet : Pool → List Waiter → Type 0
AllQuiet p [] = Unit
AllQuiet p (w ∷ ws) = IsQuiet p w × AllQuiet p ws

abbrev NonNeg : Pool → Type 0
NonNeg p = pos 0 ≤ℤ p.used

-- Credit was taken, or nothing was done.
record Taken (p p' : Pool) : Type 0 where
  nonneg : NonNeg p'
  room : (n : ℕ) → fits p (pos n) ≡ false → fits p' (pos n) ≡ false

Taken-none : (p : Pool) → NonNeg p → Taken p p
Taken-none p h = record { nonneg = h; room = λ n e. e }

Taken-some : (p : Pool) (m : ℕ) → NonNeg p → Taken p (record p { used = p.used +ℤ pos m })
unfolding ◌+ℤ◌ fits
Taken-some p m h = record { nonneg = ground arith; room = λ n e. ground arith }

IsQuiet-Taken : (p p' : Pool) (w : Waiter) → Taken p p' → IsQuiet p w → IsQuiet p' w
IsQuiet-Taken p p' w t q = elim (Bool-cases w.asleep) [
  | inl e ↦ rw e (t.room w.amount (rw e at q))
  | inr e ↦ rw e refl
]

AllQuiet-Taken : (p p' : Pool) (ws : List Waiter) → Taken p p' → AllQuiet p ws → AllQuiet p' ws
AllQuiet-Taken p p' [] t q = tt
AllQuiet-Taken p p' (w ∷ ws) t q = (IsQuiet-Taken p p' w t q.0, AllQuiet-Taken p p' ws t q.1)

AllQuiet-append :
    (p : Pool) (ws : List Waiter) (w : Waiter)
    → AllQuiet p ws
    → IsQuiet p w
    → AllQuiet p (ws ++ (w ∷ []))
AllQuiet-append p [] w q h = (h, tt)
AllQuiet-append p (x ∷ ws) w q h = (q.0, AllQuiet-append p ws w q.1 h)

AllQuiet-wake_all : (p : Pool) (ws : List Waiter) → AllQuiet p (wake_all ws)
AllQuiet-wake_all p [] = tt
AllQuiet-wake_all p (w ∷ ws) = (refl, AllQuiet-wake_all p ws)

recheck_at-Taken : (i : ℕ) (p : Pool) (ws : List Waiter) → NonNeg p → Taken p (recheck_at i p ws).0
unfolding recheck_at acquire
recheck_at-Taken i p [] h = Taken-none p h
recheck_at-Taken zero p (w ∷ ws) h = elim (Bool-cases w.asleep) [
  | inl e ↦ rw e (Taken-none p h)
  | inr e ↦ elim (Bool-cases (fits p (pos w.amount))) [
    | inl f ↦ rw (e, f) (Taken-some p w.amount h)
    | inr f ↦ rw (e, f) (Taken-none p h)
  ]
]
recheck_at-Taken (suc i) p (w ∷ ws) h = recheck_at-Taken i p ws h

recheck_at-AllQuiet :
    (i : ℕ) (p : Pool) (ws : List Waiter)
    → NonNeg p
    → AllQuiet p ws
    → AllQuiet (recheck_at i p ws).0 (recheck_at i p ws).1
unfolding recheck_at acquire
recheck_at-AllQuiet i p [] h q = tt
recheck_at-AllQuiet zero p (w ∷ ws) h q = elim (Bool-cases w.asleep) [
  | inl e ↦ rw e (rw e at q.0, q.1)
  | inr e ↦ elim (Bool-cases (fits p (pos w.amount))) [
    | inl f ↦ rw (e, f) (AllQuiet-Taken p _ ws (Taken-some p w.amount h) q.1)
    | inr f ↦ rw (e, f) (f, q.1)
  ]
]
recheck_at-AllQuiet (suc i) p (w ∷ ws) h q =
    (IsQuiet-Taken p _ w (recheck_at-Taken i p ws h) q.0, recheck_at-AllQuiet i p ws h q.1)

-- A broadcast is still to come, or no sleeper has room.
record IsAlert (s : Shared) : Type 0 where
  nonneg : NonNeg s.pool
  alert : (0 < s.broadcasts) ⊎ AllQuiet s.pool s.waiters

arrive-IsAlert : (n : ℕ) (s : Shared) → IsAlert s → IsAlert (arrive n s)
unfolding arrive acquire
arrive-IsAlert n s a = elim (Bool-cases (fits s.pool (pos n))) [
  | inl f ↦
      rw (arrive, f)
        (record {
          nonneg = (Taken-some s.pool n a.nonneg).nonneg;
          alert = elim a.alert [
            | inl b ↦ inl b
            | inr q ↦ inr (AllQuiet-Taken s.pool _ s.waiters (Taken-some s.pool n a.nonneg) q)
          ];
        })
  | inr f ↦
      rw (arrive, f)
        (record {
          nonneg = a.nonneg;
          alert = elim a.alert [
            | inl b ↦ inl b
            | inr q ↦
                inr (AllQuiet-append s.pool s.waiters (record { amount = n; asleep = true }) q f)
          ];
        })
]

try-IsAlert : (n : ℕ) (s : Shared) → IsAlert s → IsAlert (step (Event.try_event n) s)
unfolding step try_acquire
try-IsAlert n s a = elim (Bool-cases (fits s.pool (pos n))) [
  | inl f ↦ rw f (record {
    nonneg = (Taken-some s.pool n a.nonneg).nonneg;
    alert = elim a.alert [
      | inl b ↦ inl b
      | inr q ↦ inr (AllQuiet-Taken s.pool _ s.waiters (Taken-some s.pool n a.nonneg) q)
    ];
  })
  | inr f ↦ rw f a
]

release_nonneg : (p : Pool) (n : ℤ) → NonNeg (release p n)
unfolding release ◌-ℤ◌
release_nonneg p n = ground arith

broadcast-IsAlert : (s : Shared) → IsAlert s → IsAlert (broadcast s)
unfolding broadcast
broadcast-IsAlert s a = go s.broadcasts refl
  where
    go : (b : ℕ) → s.broadcasts ≡ b → IsAlert (broadcast s)
    go zero e = rw (broadcast, e) a
    go (suc b) e =
        rw (broadcast, e)
          (record { nonneg = a.nonneg; alert = inr (AllQuiet-wake_all s.pool s.waiters) })

step-IsAlert : (e : Event) (s : Shared) → IsAlert s → IsAlert (step e s)
unfolding step recheck begin_release
step-IsAlert (Event.try_event n) s a = try-IsAlert n s a
step-IsAlert (Event.acquire_event n) s a = arrive-IsAlert n s a
step-IsAlert (Event.release_event n) s a = record {
  nonneg = release_nonneg s.pool (pos n);
  alert = inl (omega arith);
}
step-IsAlert (Event.recheck_event i) s a = record {
  nonneg = (recheck_at-Taken i s.pool s.waiters a.nonneg).nonneg;
  alert = elim a.alert [
    | inl b ↦ inl b
    | inr q ↦ inr (recheck_at-AllQuiet i s.pool s.waiters a.nonneg q)
  ];
}
step-IsAlert Event.broadcast_event s a = broadcast-IsAlert s a

run-IsAlert : (es : List Event) (s : Shared) → IsAlert s → IsAlert (run es s)
unfolding run
run-IsAlert [] s a = a
run-IsAlert (e ∷ es) s a = run-IsAlert es (step e s) (step-IsAlert e s a)

-- No wake-up is lost: whatever calls of TryAcquire, Acquire and Release and whatever rounds of waiting calls
-- there were since the pool was made, in whatever order, a Broadcast is still to come or none of the
-- calls that sleep in cond.Wait could take its credit now.
pub run-AllQuiet :
    (budget : ℤ) (es : List Event)
    → (0 < (run es (quiet budget)).broadcasts)
      ⊎ AllQuiet (run es (quiet budget)).pool (run es (quiet budget)).waiters
run-AllQuiet budget es =
    (run-IsAlert es (quiet budget) (record { nonneg = omega arith; alert = inr tt })).alert
