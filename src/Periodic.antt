-- ===== src/Periodic.antt =====
-- The class PeriodicCallback of src/core/ioloop.cc. Times are milliseconds, and each operation takes the
-- time `now` that `msec_now` answers.
use ctornado.Base.{
  Bool, Bool-cases, Option, Result, arith, err, false, if◌then◌else◌, inl, inr, leb, leb→le, max,
  no_fuel, none, ok, some, suc, true, zero, ℕ, ◌*◌, ◌+◌, ◌-◌, ◌<◌, ◌>>=◌, ◌∙◌, ◌≡◌, ◌≤◌,
}

-- `timeout` is the deadline of the timeout that the loop was given last, unless it was cancelled.
pub record Periodic : Type 0 where
  pub callback_time : ℕ
  pub running : Bool
  pub next_timeout : ℕ
  pub timeout : Option ℕ

-- `while (next_timeout_ <= current_time) next_timeout_ += callback_time_`. With a callback time that is
-- not 0, one round more than the difference of the times is enough fuel.
unfoldable pub advance : ℕ → ℕ → ℕ → ℕ → Result ℕ
advance zero period now next = err no_fuel
advance (suc fuel) period now next =
    let rest = advance fuel period now (next + period) in if leb next now then rest else ok next

unfoldable pub schedule_next : ℕ → Periodic → Result Periodic
unfolding advance
schedule_next now p =
    let set : Result Periodic = do
      next ← advance (now + 1 - p.next_timeout + 1) p.callback_time now p.next_timeout
      ok (record p { next_timeout = next; timeout = some next })
    in if p.running then set else ok p

-- `start` asks for the time twice.
unfoldable pub start : ℕ → ℕ → Periodic → Result Periodic
unfolding schedule_next
start now later p = schedule_next later (record p { running = true; next_timeout = now })

unfoldable pub stop : Periodic → Periodic
stop p = record p { running = false; timeout = none }

-- `run`, with what the user's callback does to the object
unfoldable pub run : (Periodic → Periodic) → ℕ → Periodic → Result Periodic
unfolding schedule_next
run callback now p = if p.running then schedule_next now (callback p) else ok p

-- A deadline behind `now`, by one period at most, and a whole number of periods behind `next`.
pub record NextOf (period now next t : ℕ) : Type 0 where
  pub behind : now < t
  pub no_later : t ≤ max next (now + period)
  pub periods : (k : ℕ) × (t ≡ next + k * period)

advance_lem :
    (fuel period now next : ℕ)
    → 0 < period
    → now + 2 ≤ fuel + next
    → 0 < fuel
    → (t : ℕ) × (advance fuel period now next ≡ ok t) × NextOf period now next t
unfolding advance
advance_lem zero period now next h e f = absurd (omega arith)
advance_lem (suc fuel) period now next h e f = elim (Bool-cases (leb next now)) [
  | inr late ↦ (
    next,
    rw (late),
    record { behind = later late; no_later = omega arith; periods = (0, omega arith) },
  )
  | inl early ↦
      let (t, run, n) =
        advance_lem fuel period now (next + period) h (omega arith)
          (omega (arith, leb→le next now early)) in
      (
        t,
        rw (early, run),
        record {
          behind = n.behind;
          no_later = omega (arith, n.no_later, leb→le next now early);
          periods = (suc n.periods.0, one_more n.periods.0 t n.periods.1);
        },
      )
]
  where
    later : leb next now ≡ false → now < next
    later e = ground arith

    one_more : (k t : ℕ) → t ≡ (next + period) + k * period → t ≡ next + suc k * period
    one_more k t e = grind arith

running_at :
    (now : ℕ) (p : Periodic) (t : ℕ)
    → p.running ≡ true
    → advance (now + 1 - p.next_timeout + 1) p.callback_time now p.next_timeout ≡ ok t
    → schedule_next now p ≡ ok (record p { next_timeout = t; timeout = some t })
unfolding schedule_next
running_at now p t r e = picked p.running _ _ r ∙ set
  where
    picked : (b : Bool) (x y : Result Periodic) → b ≡ true → (if b then x else y) ≡ x
    picked b x y e = rw (e)

    set :
        (advance (now + 1 - p.next_timeout + 1) p.callback_time now p.next_timeout >>= λ next.
        ok (record p { next_timeout = next; timeout = some next }))
        ≡ ok (record p { next_timeout = t; timeout = some t })
    set = rw (e)

-- `schedule_next` of a callback that runs, with a period that is not 0, returns: the next deadline is
-- behind the current time, by one period at most unless it was later before, a whole number of periods
-- is between it and the deadline before, and the loop is given a timeout at that deadline.
pub schedule_next_lem :
    (now : ℕ) (p : Periodic)
    → p.running ≡ true
    → 0 < p.callback_time
    → (t : ℕ) × (schedule_next now p ≡ ok (record p { next_timeout = t; timeout = some t }))
      × NextOf p.callback_time now p.next_timeout t
schedule_next_lem now p r h =
    let (t, set, n) =
      advance_lem (now + 1 - p.next_timeout + 1) p.callback_time now p.next_timeout h (omega arith)
        (omega arith) in
    (t, running_at now p t r set, n)
