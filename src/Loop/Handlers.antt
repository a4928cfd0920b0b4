-- ===== src/Loop/Handlers.antt =====
-- The handlers of the class IOLoop of src/core/ioloop.cc, and what it asks of EPoll (src/lib/epoll.cc).
-- A handler is a number, and what it does to the loop is a list of calls. The system's epoll is a
-- parameter. The loop over the events that `start` runs behind the call of poll is not here.
use ctornado.Base.{
  All, Bool, List, Option, [], false, none, not, some, true, ℕ, ◌&&◌, ◌==◌, ◌||◌, ◌∷◌, ◌≡◌,
}
use ctornado.Stream.Monad.{Events}
use ctornado.Loop.Map.{erase, insert}

-- a mask for epoll, with the bit ET
pub record Interest : Type 0 where
  pub events : Events
  pub edge_triggered : Bool

-- epoll_ctl with its three operations, and what epoll_wait reports; `none` for -1
pub record Epoll {ℓ} (K : Type ℓ) : Type ℓ where
  pub ctl_add : ℕ → Interest → K → Option K
  pub ctl_mod : ℕ → Interest → K → Option K
  pub ctl_del : ℕ → K → Option K
  pub reported : K → Option (List (ℕ × Events))
  pub waited : K → K

-- What is documented of them: which descriptors are watched, and that only these are reported.
pub record IsEpoll {ℓ} {K : Type ℓ} (epoll : Epoll K) (watches : ℕ → K → Bool) : Type ℓ where
  pub add_watches :
      (x fd : ℕ) (i : Interest) (k k' : K)
      → epoll.ctl_add fd i k ≡ some k'
      → watches x k' ≡ (fd == x || watches x k)
  pub mod_watches :
      (x fd : ℕ) (i : Interest) (k k' : K)
      → epoll.ctl_mod fd i k ≡ some k'
      → watches x k' ≡ watches x k
  pub del_watches :
      (x fd : ℕ) (k k' : K)
      → epoll.ctl_del fd k ≡ some k'
      → watches x k' ≡ (not (fd == x) && watches x k)
  pub del_fails : (fd : ℕ) (k : K) → epoll.ctl_del fd k ≡ none → watches fd k ≡ false
  pub only_watched :
      (k : K) (es : List (ℕ × Events))
      → epoll.reported k ≡ some es
      → All (λ e. watches e.0 k ≡ true) es
  pub waits : (x : ℕ) (k : K) → watches x (epoll.waited k) ≡ watches x k

-- `handlers_`, `events_` and `poll_`
pub record Poller {ℓ} (K : Type ℓ) : Type ℓ where
  pub handlers : List (ℕ × ℕ)
  pub events : List (ℕ × Events)
  pub edge_triggered : Bool
  pub poll : K

-- How a call ends: an IOError keeps the changes made before it.
pub data Called {ℓ} (K : Type ℓ) : Type ℓ where
  returns : Poller K → Called K
  throws_io : Poller K → Called K

-- `events | ERROR`, with ET
abbrev pub interest : Bool → Events → Interest
interest edge_triggered e = record {
  events = record e { on_error = true };
  edge_triggered = edge_triggered;
}

-- `EPoll::poll(events, timeout)` inserts what epoll_wait reports.
unfoldable pub insert_all : List (ℕ × Events) → List (ℕ × Events) → List (ℕ × Events)
unfolding insert
insert_all [] m = m
insert_all ((fd, e) ∷ es) m = insert_all es (insert fd e m)

-- a call that a handler makes
pub data Act : Type 0 where
  adds : ℕ → ℕ → Events → Act
  updates : ℕ → Events → Act
  removes : ℕ → Act

module _ {ℓ} {K : Type ℓ} (epoll : Epoll K) where
  -- the answer of epoll_ctl
  abbrev polled : Poller K → Option K → Called K
  polled p none = throws_io p
  polled p (some k) = returns (record p { poll = k })

  unfoldable pub add_handler : ℕ → ℕ → Events → Poller K → Called K
  unfolding insert
  add_handler fd handler e p =
      polled (record p { handlers = insert fd handler p.handlers })
        (epoll.ctl_add fd (interest p.edge_triggered e) p.poll)

  unfoldable pub update_handler : ℕ → Events → Poller K → Called K
  update_handler fd e p = polled p (epoll.ctl_mod fd (interest p.edge_triggered e) p.poll)

  -- The IOError of a descriptor that is not watched is logged.
  unfoldable pub remove_handler : ℕ → Poller K → Poller K
  unfolding erase
  remove_handler fd p = elim (epoll.ctl_del fd p.poll) [
    | none ↦ record p { handlers = erase fd p.handlers; events = erase fd p.events }
    | some k ↦ record p { handlers = erase fd p.handlers; events = erase fd p.events; poll = k }
  ]

  -- `poll_.poll(&events_, poll_timeout)`
  unfoldable pub poll_events : Poller K → Called K
  unfolding insert_all
  poll_events p = elim (epoll.reported p.poll) [
    | none ↦ throws_io p
    | some es ↦ returns (record p { events = insert_all es p.events; poll = epoll.waited p.poll })
  ]

  unfoldable pub act : Act → Poller K → Called K
  unfolding add_handler update_handler remove_handler
  act (adds fd handler e) = add_handler fd handler e
  act (updates fd e) = update_handler fd e
  act (removes fd) = λ p. returns (remove_handler fd p)

  -- the calls of a handler, up to one that throws
  unfoldable pub run_acts : List Act → Poller K → Poller K
  unfolding act
  run_acts [] p = p
  run_acts (a ∷ more) p = elim (act a p) [ returns p' ↦ run_acts more p' | throws_io p' ↦ p' ]
