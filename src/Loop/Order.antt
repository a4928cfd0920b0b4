-- ===== src/Loop/Order.antt =====
-- The order of the callbacks in the turns of the loop.
use ctornado.Loop.{
  Loop, add_callback, before_poll, callbacks_turn, longest_poll, run_callbacks, timeouts_loop,
}
use ctornado.Base.{
  Bool, List, Option, Result, [], ap, append-nil, append_assoc, arith, false, if◌then◌else◌, is_nil,
  ok, some, suc, sym, true, zero, ℕ, ◌++◌, ◌<◌, ◌∙◌, ◌∷◌, ◌≡◌,
}

-- what callbacks schedule that do nothing else, in turn
abbrev pub scheduled : (ℕ → List ℕ) → List ℕ → List ℕ
scheduled next [] = []
scheduled next (cb ∷ cbs) = next cb ++ scheduled next cbs

-- `add_callback` for one after the other
abbrev add_all : List ℕ → Loop → Loop
add_all [] l = l
add_all (c ∷ cs) l = add_all cs (add_callback c l)

-- callbacks that schedule others, and do nothing else
abbrev pub schedules : (ℕ → List ℕ) → ℕ → Loop → Loop
schedules next cb = add_all (next cb)

add_all_lem : (cs : List ℕ) (l : Loop) → add_all cs l ≡ record l { callbacks = l.callbacks ++ cs }
unfolding add_callback
add_all_lem [] l = ap (λ k. record l { callbacks = k }) (sym (append-nil l.callbacks))
add_all_lem (c ∷ cs) l =
    add_all_lem cs (add_callback c l)
    ∙ ap (λ k. record l { callbacks = k }) (append_assoc l.callbacks (c ∷ []) cs)

run_callbacks_lem :
    (next : ℕ → List ℕ) (cbs : List ℕ) (l : Loop)
    → run_callbacks (schedules next) cbs l
      ≡ record l { callbacks = l.callbacks ++ scheduled next cbs }
unfolding run_callbacks
run_callbacks_lem next [] l = ap (λ k. record l { callbacks = k }) (sym (append-nil l.callbacks))
run_callbacks_lem next (cb ∷ cbs) l =
    ap (run_callbacks (schedules next) cbs) (add_all_lem (next cb) l)
    ∙ (run_callbacks_lem next cbs (record l { callbacks = l.callbacks ++ next cb })
        ∙ ap (λ k. record l { callbacks = k })
            (append_assoc l.callbacks (next cb) (scheduled next cbs)))

-- how a turn ends
abbrev turned : Loop → Option ℕ → Result (Loop × Option ℕ)
turned l wait = ok (l, wait)

-- A turn of a running loop without timeouts, up to the call of poll, with callbacks that schedule others:
-- each callback that waited is run once, in turn, and those that it schedules wait for the next turn, in
-- the order in which they were scheduled. Poll is to wait only if none were.
pub before_poll-schedules :
    (next : ℕ → List ℕ) (fuel now : ℕ) (l : Loop)
    → l.timeouts ≡ []
    → l.running ≡ true
    → 0 < fuel
    → before_poll (schedules next) fuel now l
      ≡ ok (
        record l { callbacks = scheduled next l.callbacks },
        some (if is_nil (scheduled next l.callbacks) then longest_poll else 0),
      )
unfolding before_poll callbacks_turn timeouts_loop
before_poll-schedules next zero now l e r h = absurd (omega arith)
before_poll-schedules next (suc fuel) now l e r h =
    rw (run_callbacks_lem next l.callbacks (record l { callbacks = [] }), e, r)
      (last (is_nil (scheduled next l.callbacks)) (
        ap
          (λ ts. record l { callbacks = scheduled next l.callbacks; timeouts = ts; running = true })
          e))
  where
    last :
        (b : Bool) {k k' : Loop}
        → k ≡ k'
        → turned k (if b then some longest_poll else some 0)
          ≡ turned k' (some (if b then longest_poll else 0))
    last true same = ap (λ k. turned k (some longest_poll)) same
    last false same = ap (λ k. turned k (some 0)) same
