-- ===== src/Examples/Turns.antt =====
-- The loop's timeouts at a concrete state.
use ctornado.Base.{List, [], arith, false, if◌then◌else◌, ok, refl, some, true, ℕ, ◌==◌, ◌∷◌, ◌≡◌}
use ctornado.Loop.{Loop, before_poll}
use ctornado.Loop.Order.{before_poll-schedules, schedules}

-- A timeout has been due since 3, and another is due at 10.
abbrev two_timeouts : Loop
two_timeouts = record {
  callbacks = [];
  timeouts =
      record { deadline = 10; callback = some 1 } ∷ record { deadline = 3; callback = some 2 } ∷ [];
  running = true;
  stopped = false;
}

-- callback 1 schedules callbacks 3 and 4
abbrev two_more : ℕ → List ℕ
two_more cb = if cb == 1 then 3 ∷ 4 ∷ [] else []

abbrev two_callbacks : Loop
two_callbacks = record { callbacks = 1 ∷ 2 ∷ []; timeouts = []; running = true; stopped = false }

before_poll-schedules_example :
    before_poll (schedules two_more) 1 5 two_callbacks
    ≡ ok (record two_callbacks { callbacks = 3 ∷ 4 ∷ [] }, some 0)
before_poll-schedules_example =
    before_poll-schedules two_more 1 5 two_callbacks refl refl (omega arith)
