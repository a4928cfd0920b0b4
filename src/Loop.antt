-- ===== src/Loop.antt =====
-- The callbacks and timeouts of the class IOLoop of src/core/ioloop.cc. A callback is a number, and what
-- the callback of a number does to the loop is the parameter `user`; an exception that it throws is
-- logged only. Times are milliseconds.
pub mod Hidden
pub mod Map
pub mod Handlers
pub mod Sound
pub mod Polled
pub mod Order
use ctornado.Base.{
  Bool, List, Option, Result, [], err, false, if◌then◌else◌, is_nil, leb, ltb, min, no_fuel, none,
  not, ok, some, suc, true, zero, ℕ, ◌++◌, ◌-◌, ◌∷◌, ◌>>=◌,
}

-- `callback` is null for a timeout that was cancelled.
pub record Timeout : Type 0 where
  pub deadline : ℕ
  pub callback : Option ℕ

-- `timeouts` is the priority queue, in the order in which it gives out its entries.
pub record Loop : Type 0 where
  pub callbacks : List ℕ
  pub timeouts : List Timeout
  pub running : Bool
  pub stopped : Bool

-- `poll_timeout` at the start of a turn
abbrev pub longest_poll : ℕ
longest_poll = 3600000

unfoldable pub stop : Loop → Loop
stop l = record l { running = false; stopped = true }

unfoldable pub add_callback : ℕ → Loop → Loop
add_callback callback l = record l { callbacks = l.callbacks ++ callback ∷ [] }

-- `timeouts_.push`: `TimeoutLess` makes a queue that gives out the latest deadline first. Of two alike
-- this model gives out the older first.
unfoldable pub push_timeout : Timeout → List Timeout → List Timeout
push_timeout t [] = t ∷ []
push_timeout t (u ∷ ts) =
    let rest = push_timeout t ts in if ltb u.deadline t.deadline then t ∷ u ∷ ts else u ∷ rest

unfoldable pub add_timeout : ℕ → ℕ → Loop → Loop
unfolding push_timeout
add_timeout deadline callback l = record l {
  timeouts = push_timeout (record { deadline = deadline; callback = some callback }) l.timeouts;
}

-- `remove_timeout`, for the timeout at a place in the queue: it stays there without a callback.
unfoldable pub cancel : ℕ → List Timeout → List Timeout
cancel i [] = []
cancel zero (t ∷ ts) = record t { callback = none } ∷ ts
cancel (suc i) (t ∷ ts) = t ∷ cancel i ts

unfoldable pub remove_timeout : ℕ → Loop → Loop
unfolding cancel
remove_timeout i l = record l { timeouts = cancel i l.timeouts }

module _ (user : ℕ → Loop → Loop) where
  -- `run_callback`, in turn for a list of callbacks
  unfoldable pub run_callbacks : List ℕ → Loop → Loop
  run_callbacks [] l = l
  run_callbacks (cb ∷ cbs) l = run_callbacks cbs (user cb l)

  -- the start of a turn: the callbacks are copied and cleared, and then run
  unfoldable pub callbacks_turn : Loop → Loop
  unfolding run_callbacks
  callbacks_turn l = run_callbacks l.callbacks (record l { callbacks = [] })

  -- `while (!timeouts_.empty())`, with the poll's timeout: a timeout that is due stays in the queue.
  unfoldable pub timeouts_loop : ℕ → ℕ → Loop → Result (Loop × ℕ)
  timeouts_loop zero now l = err no_fuel
  timeouts_loop (suc fuel) now l = elim l.timeouts [
    | [] ↦ ok (l, longest_poll)
    | t ∷ ts ↦ elim t.callback as (λ x. Result (Loop × ℕ)) [
      | none ↦ timeouts_loop fuel now (record l { timeouts = ts })
      | some cb ↦
          let run : Result (Loop × ℕ) = timeouts_loop fuel now (user cb l) in
          if leb t.deadline now then run else ok (l, min (t.deadline - now) longest_poll)
    ]
  ]

  -- a turn up to the call of poll: its timeout, or `none` where the loop ends
  unfoldable pub before_poll : ℕ → ℕ → Loop → Result (Loop × Option ℕ)
  unfolding callbacks_turn timeouts_loop
  before_poll fuel now l = do
    (l', wait) ← timeouts_loop fuel now (callbacks_turn l)
    ok (l', if not l'.running then none else if is_nil l'.callbacks then some wait else some 0)
