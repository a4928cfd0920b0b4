-- ===== src/TcpServer.antt =====
-- The class TCPServer of src/core/tcpserver.cc. A listening socket is its descriptor, which is also the
-- number of its handler in the loop. The system's epoll is a parameter, and so are what `bind_sockets`
-- returns, what `accept` answers, and what `handle_stream` of a derived class does.
pub mod Stopped
pub mod Accepted
use ctornado.Base.{
  Bool, Error, List, Result, [], err, false, fault, if◌then◌else◌, map, ok, true, ℕ, ◌++◌, ◌∷◌,
  ◌>>=◌,
}
use ctornado.Loop.Map.{insert}
use ctornado.Loop.Handlers.{Epoll, Poller, add_handler, remove_handler, returns, throws_io}
use ctornado.Stream.Monad.{Events, ◌>>◌}

-- a `SocketList *`: null, or a list on the heap or of the caller's frame
pub data Sockets : Type 0 where
  no_list : Sockets
  on_heap : List ℕ → Sockets
  on_stack : List ℕ → Sockets

-- `sockets` says of each descriptor whether its pointer is not null, `closed` are the descriptors that
-- were closed, in turn.
pub record Server {ℓ} (K : Type ℓ) : Type ℓ where
  pub sockets : List (ℕ × Bool)
  pub pending : List ℕ
  pub started : Bool
  pub poller : Poller K
  pub closed : List ℕ

-- How a call ends: an IOError keeps the changes made before it.
pub data Reply {ℓ} (K : Type ℓ) : Type ℓ where
  gives : Server K → Reply K
  raises : Server K → Reply K
  fails : Error → Reply K

-- `IOLoop::READ`
abbrev pub reads : Events
reads = record { on_read = true; on_write = false; on_error = false }

-- what `accept` answers: a client's descriptor, EWOULDBLOCK or EAGAIN, or another errno
pub data Accept : Type 0 where
  client : ℕ → Accept
  accept_blocks : Accept
  accept_fails : ℕ → Accept

-- How `accept_handler` ends, with the answers that are left.
pub data Handled {ℓ} (S : Type ℓ) : Type ℓ where
  all_handled : S → List Accept → Handled S
  throws_errno : ℕ → S → List Accept → Handled S

-- How `handle_stream` of a derived class ends.
pub data Tried {ℓ} (S : Type ℓ) : Type ℓ where
  finishes : S → Tried S
  throws_error : S → Tried S

module _ {ℓ} {S : Type ℓ} (handle_stream : ℕ → S → Tried S) where
  -- `handle_connection`: an error of `handle_stream` is logged.
  unfoldable pub handle_connection : ℕ → S → S
  handle_connection fd s = elim (handle_stream fd s) [ finishes s' ↦ s' | throws_error s' ↦ s' ]

  -- `accept_handler`. Behind the last answer the socket blocks.
  unfoldable pub accept_handler : List Accept → S → Handled S
  unfolding handle_connection
  accept_handler [] s = all_handled s []
  accept_handler (client fd ∷ answers) s = accept_handler answers (handle_connection fd s)
  accept_handler (accept_blocks ∷ answers) s = all_handled s answers
  accept_handler (accept_fails e ∷ answers) s = throws_errno e s answers

module _ {ℓ} {K : Type ℓ} (epoll : Epoll K) where
  unfoldable pub add_socket : ℕ → Server K → Reply K
  unfolding add_handler insert
  add_socket fd s = elim (add_handler epoll fd fd reads s.poller) [
    | returns p ↦ gives (record s { sockets = insert fd true s.sockets; poller = p })
    | throws_io p ↦ raises (record s { sockets = insert fd true s.sockets; poller = p })
  ]

  -- the loop of `add_sockets`
  unfoldable pub add_each : List ℕ → Server K → Reply K
  unfolding add_socket
  add_each [] s = gives s
  add_each (fd ∷ fds) s = elim (add_socket fd s) [
    | gives s' ↦ add_each fds s'
    | raises s' ↦ raises s'
    | fails e ↦ fails e
  ]

  -- `add_sockets` deletes the list, which must be on the heap.
  unfoldable pub add_sockets : Sockets → Server K → Reply K
  unfolding add_each
  add_sockets no_list s = fails fault
  add_sockets (on_heap fds) s = add_each fds s
  add_sockets (on_stack fds) s = elim (add_each fds s) [
    | gives s' ↦ fails fault
    | raises s' ↦ raises s'
    | fails e ↦ fails e
  ]

  -- `listen`, for what `bind_sockets` returns
  unfoldable pub listen : Sockets → Server K → Reply K
  unfolding add_sockets
  listen bound s = add_sockets bound s

  -- `bind`, which uses the list behind the pointer
  unfoldable pub bind : Sockets → Server K → Reply K
  unfolding add_sockets
  bind no_list s = fails fault
  bind (on_heap fds) s =
      if s.started
      then add_sockets (on_heap fds) s
      else gives (record s { pending = s.pending ++ fds })
  bind (on_stack fds) s = fails fault

  -- `start`, with its ASSERT: the list is a variable of this function
  unfoldable pub start : Server K → Reply K
  unfolding add_sockets
  start s =
      if s.started
      then fails fault
      else add_sockets (on_stack s.pending) (record s { started = true; pending = [] })

  -- the loop of `stop`
  unfoldable pub stop_each : List (ℕ × Bool) → Poller K → List ℕ → Result (Poller K × List ℕ)
  unfolding remove_handler
  stop_each [] p closed = ok (p, closed)
  stop_each ((fd, alive) ∷ m) p closed =
      let rest = stop_each m (remove_handler epoll fd p) (closed ++ fd ∷ []) in
      if alive then rest else err fault

  -- `stop` closes each socket and keeps its entry, with a null pointer.
  unfoldable pub stop : Server K → Result (Server K)
  unfolding stop_each
  stop s = do
    (p, closed) ← stop_each s.sockets s.poller s.closed
    ok (record s { sockets = map (λ e. (e.0, false)) s.sockets; poller = p; closed = closed })
