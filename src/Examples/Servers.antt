-- ===== src/Examples/Servers.antt =====
-- The handlers of the loop and the listening sockets of a server at concrete states.
use mathlib.Core.Path.{subst}
use ctornado.Loop.Map.{erase, find, has, has-erase, has-insert, insert}
use ctornado.Loop.Handlers.{Act, Epoll, IsEpoll, Poller, adds, poll_events, removes, run_acts}
use ctornado.Loop.Sound.{Sound}
use ctornado.Loop.Polled.{ended, run_acts-Sound}
use ctornado.TcpServer.{Server, add_socket, gives, stop}
use ctornado.TcpServer.Stopped.{stop-again, stop_lem}
use ctornado.Stream.Monad.{Events}
use ctornado.Base.{
  All, Bool, List, Option, [], ap, arith, err, false, fault, if◌then◌else◌, none, ok, refl, some,
  sym, true, ℕ, ◌∙◌, ◌∷◌, ◌≡◌,
}

-- descriptors that are watched, as keys
abbrev Watched : Type 0
Watched = List (ℕ × ℕ)

abbrev readable : Events
readable = record { on_read = true; on_write = false; on_error = false }

first_only : Watched → Option (List (ℕ × Events))
first_only [] = some []
first_only (e ∷ k) = some ((e.0, readable) ∷ [])

-- an epoll that reports its first descriptor
abbrev epoll : Epoll Watched
epoll = record {
  ctl_add = λ fd i k. if has fd k then none else some (insert fd 0 k);
  ctl_mod = λ fd i k. if has fd k then some k else none;
  ctl_del = λ fd k. if has fd k then some (erase fd k) else none;
  reported = first_only;
  waited = λ k. k;
}

some_injective : {A : Type 0} {a b : A} → some a ≡ some b → a ≡ b
some_injective h = cc

guarded : (b : Bool) {k k' : Watched} → (if b then none else some k) ≡ some k' → k ≡ k'
guarded true h = cc
guarded false h = some_injective h

kept : (b : Bool) {k k' : Watched} → (if b then some k else none) ≡ some k' → k ≡ k'
kept true h = some_injective h
kept false h = cc

missing : (b : Bool) (k : Watched) → (if b then some k else none) ≡ none → b ≡ false
missing true k h = cc
missing false k h = refl

epoll-IsEpoll : IsEpoll epoll has
unfolding has first_only
epoll-IsEpoll = record {
  add_watches = λ x fd i k k' h. ap (has x) (sym (guarded (has fd k) h)) ∙ has-insert x fd 0 k;
  mod_watches = λ x fd i k k' h. ap (has x) (sym (kept (has fd k) h));
  del_watches = λ x fd k k' h. ap (has x) (sym (kept (has fd k) h)) ∙ has-erase x fd k;
  del_fails = λ fd k h. missing (has fd k) (erase fd k) h;
  only_watched = first_watched;
  waits = λ x k. refl;
}
  where
    itself : (fd n : ℕ) (k : Watched) → has fd ((fd, n) ∷ k) ≡ true
    itself fd n k = ground arith

    first_watched :
        (k : Watched) (es : List (ℕ × Events))
        → first_only k ≡ some es
        → All (λ e. has e.0 k ≡ true) es
    first_watched [] es h = subst (All (λ e. has {A = ℕ} e.0 [] ≡ true)) (some_injective h) tt
    first_watched (e ∷ k) es h =
        subst (All (λ f. has f.0 (e ∷ k) ≡ true)) (some_injective h) (itself e.0 e.1 k, tt)

abbrev one_handler : Poller Watched
one_handler = record {
  handlers = (3, 7) ∷ [];
  events = [];
  edge_triggered = true;
  poll = (3, 0) ∷ [];
}

one_handler-Sound : Sound has one_handler
unfolding has
one_handler-Sound = record { watched = λ x w. w; pending = tt }

-- the handler of 3 makes another and takes itself out
abbrev calls : List Act
calls = adds 5 5 (record { on_read = true; on_write = false; on_error = false }) ∷ removes 3 ∷ []

run_acts-Sound_example : Sound has (run_acts epoll calls (ended (poll_events epoll one_handler)))
run_acts-Sound_example = run_acts-Sound epoll has epoll-IsEpoll calls one_handler one_handler-Sound

-- The descriptor 5 is left with its handler.
calls_run : (run_acts epoll calls (ended (poll_events epoll one_handler))).handlers ≡ (5, 5) ∷ []
unfolding run_acts poll_events first_only has erase find insert
calls_run = refl

-- sockets 3 and 4 are listened on
abbrev server : Server Watched
server = record {
  sockets = (3, true) ∷ (4, true) ∷ [];
  pending = [];
  started = false;
  poller = record {
    handlers = (3, 3) ∷ (4, 4) ∷ [];
    events = [];
    edge_triggered = true;
    poll = (3, 0) ∷ (4, 0) ∷ [];
  };
  closed = [];
}

stop_example :
    (s' : Server Watched) × (stop epoll server ≡ ok s')
    × (s'.closed ≡ 3 ∷ 4 ∷ [])
    × ((x : ℕ) → has x server.sockets ≡ true → has x s'.poller.handlers ≡ false)
stop_example = stop_lem epoll server (refl, (refl, tt))

abbrev halted : Server Watched
halted = record server {
  sockets = (3, false) ∷ (4, false) ∷ [];
  poller = record { handlers = []; events = []; edge_triggered = true; poll = [] };
  closed = 3 ∷ 4 ∷ [];
}

halts : stop epoll server ≡ ok halted
unfolding stop has erase
halts = refl

has_three : has 3 server.sockets ≡ true
unfolding has
has_three = refl

stop-again_example :
    (stop epoll halted ≡ err fault)
    × ((s'' : Server Watched) → add_socket epoll 3 halted ≡ gives s'' → stop epoll s'' ≡ err fault)
stop-again_example = stop-again epoll server halted 3 (refl, (refl, tt)) has_three halts
