-- ===== src/Loop/Polled.antt =====
-- The call of poll in a turn of the loop, and the calls that handlers make behind it.
use ctornado.Loop.Handlers.{
  Act, Called, Epoll, IsEpoll, Poller, poll_events, returns, run_acts, throws_io,
}
use ctornado.Loop.Sound.{All-insert_all, IsHandled, Sound, run_acts_lem}
use ctornado.Stream.Monad.{Events}
use ctornado.Base.{All, Bool, List, Option-cases, [], inl, inr, sym, true, ℕ, ◌∙◌, ◌∷◌, ◌≡◌}

-- the loop behind a call that returns or throws
abbrev pub ended {ℓ} : {K : Type ℓ} → Called K → Poller K
ended (returns p) = p
ended (throws_io p) = p

module _ {ℓ} {K : Type ℓ} (epoll : Epoll K) (watches : ℕ → K → Bool)
    (laws : IsEpoll epoll watches) where
  all_watched :
      (p : Poller K) (es : List (ℕ × Events))
      → Sound watches p
      → All (λ e. watches e.0 p.poll ≡ true) es
      → All (IsHandled p.handlers) es
  all_watched p [] s a = tt
  all_watched p (e ∷ es) s (x, a) = (s.watched e.0 x, all_watched p es s a)

  poll_events-Sound : (p : Poller K) → Sound watches p → Sound watches (ended (poll_events epoll p))
  unfolding poll_events
  poll_events-Sound p s = elim (Option-cases (epoll.reported p.poll)) [
    | inl fails ↦ rw (fails, ended) s
    | inr (es, reports) ↦
        rw (reports, ended)
          (record {
            watched = λ x w. s.watched x (sym (laws.waits x p.poll) ∙ w);
            pending =
                All-insert_all (IsHandled p.handlers) es p.events
                  (all_watched p es s (laws.only_watched p.poll es reports)) s.pending;
          })
  ]

  -- A call of poll, whether it returns or throws, and behind it any calls of add_handler, update_handler
  -- and remove_handler, up to one that throws: if every descriptor that epoll watches, and every one with
  -- an event that is still to be handled, had a handler before, then so it is after them.
  pub run_acts-Sound :
      (acts : List Act) (p : Poller K)
      → Sound watches p
      → Sound watches (run_acts epoll acts (ended (poll_events epoll p)))
  run_acts-Sound acts p s =
      (run_acts_lem epoll watches laws acts (ended (poll_events epoll p)) (poll_events-Sound p s)).0
