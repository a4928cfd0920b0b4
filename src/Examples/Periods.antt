-- ===== src/Examples/Periods.antt =====
-- A periodic callback at concrete times.
use ctornado.Periodic.{NextOf, Periodic, schedule_next, schedule_next_lem}
use ctornado.Base.{arith, none, ok, refl, some, true, ℕ, ◌≡◌}

abbrev every_ten : Periodic
every_ten = record { callback_time = 10; running = true; next_timeout = 100; timeout = none }

schedule_next_example :
    (t : ℕ) × (schedule_next 125 every_ten
      ≡ ok (record every_ten { next_timeout = t; timeout = some t }))
    × NextOf 10 125 100 t
schedule_next_example = schedule_next_lem 125 every_ten refl (omega arith)

at_130 :
    schedule_next 125 every_ten ≡ ok (record every_ten { next_timeout = 130; timeout = some 130 })
unfolding schedule_next
at_130 = refl
