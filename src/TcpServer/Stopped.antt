-- ===== src/TcpServer/Stopped.antt =====
-- `stop`: what it leaves of the sockets and of the handlers.
use mathlib.Core.Path.{subst}
use ctornado.TcpServer.{Reply, Server, add_socket, fails, gives, raises, reads, stop, stop_each}
use ctornado.Loop.Map.{find, find-insert, has, has-erase, insert}
use ctornado.Loop.Handlers.{Called, Epoll, Poller, add_handler, remove_handler, returns, throws_io}
use ctornado.Loop.Sound.{}
use ctornado.Stream.Monad.{}
use ctornado.Base.{
  All, Bool, Bool-cases, List, Option-cases, Result, [], ap, append-nil, append_assoc, arith, err,
  false, fault, inl, inr, map, not, ok, refl, some, sym, true, ℕ, ◌&&◌, ◌++◌, ◌==◌, ◌||◌, ◌∙◌, ◌∷◌,
  ◌≡◌, ◌⊎◌,
}

-- the entries whose sockets are there
abbrev pub Alive : List (ℕ × Bool) → Type 0
Alive = All (λ e. e.1 ≡ true)

-- the keys of a map, in turn
abbrev pub keys : List (ℕ × Bool) → List ℕ
keys = map (λ e. e.0)

abbrev nulled : List (ℕ × Bool) → List (ℕ × Bool)
nulled = map (λ e. (e.0, false))

-- a server that was stopped
abbrev stopped {ℓ} : {K : Type ℓ} → Server K → Poller K → List ℕ → Server K
stopped s p closed = record s { sockets = nulled s.sockets; poller = p; closed = closed }

find-nulled : (k : ℕ) (m : List (ℕ × Bool)) → has k m ≡ true → find k (nulled m) ≡ some false
unfolding find has
find-nulled k [] h = cc
find-nulled k ((k2, b) ∷ m) h = elim (Bool-cases (k2 == k)) [
  | inl here ↦ rw (here) refl
  | inr past ↦ rw (past) (find-nulled k m (rw past at h))
]

module _ {ℓ} {K : Type ℓ} (epoll : Epoll K) where
  null_entry :
      (fd : ℕ) (m : List (ℕ × Bool)) (p : Poller K) (closed : List ℕ)
      → find fd m ≡ some false
      → stop_each epoll m p closed ≡ err fault
  unfolding stop_each find
  null_entry fd [] p closed h = cc
  null_entry fd ((k, false) ∷ m) p closed h = refl
  null_entry fd ((k, true) ∷ m) p closed h = elim (Bool-cases (k == fd)) [
    | inl here ↦ absurd (all_null (rw here at h))
    | inr past ↦ null_entry fd m (remove_handler epoll k p) (closed ++ k ∷ []) (rw past at h)
  ]
    where
      all_null : some true ≡ some false → ⊥
      all_null e = cc

  removed :
      (fd x : ℕ) (p : Poller K)
      → has x (remove_handler epoll fd p).handlers ≡ (not (fd == x) && has x p.handlers)
  unfolding remove_handler
  removed fd x p = elim (Option-cases (epoll.ctl_del fd p.poll)) [
    | inl absent ↦ rw (absent, remove_handler) (has-erase x fd p.handlers)
    | inr (k, ends) ↦ rw (ends, remove_handler) (has-erase x fd p.handlers)
  ]

  goes_on :
      (k x : ℕ) (m : List (ℕ × Bool)) (p : Poller K)
      → (has x p.handlers ≡ false) ⊎ ((k == x || has x m) ≡ true)
      → (has x (remove_handler epoll k p).handlers ≡ false) ⊎ (has x m ≡ true)
  goes_on k x m p (inl e) = inl (removed k x p ∙ ground (arith, e))
  goes_on k x m p (inr e) = elim (Bool-cases (k == x)) [
    | inl here ↦ inl (removed k x p ∙ ground (arith, here))
    | inr past ↦ inr (rw past at e)
  ]

  stop_each_lem :
      (m : List (ℕ × Bool)) (p : Poller K) (closed : List ℕ)
      → Alive m
      → (p' : Poller K) × (stop_each epoll m p closed ≡ ok (p', closed ++ keys m))
        × ((x : ℕ) → (has x p.handlers ≡ false) ⊎ (has x m ≡ true) → has x p'.handlers ≡ false)
  unfolding stop_each has
  stop_each_lem [] p closed a =
      (p, ap (λ c. ok (p, c)) (sym (append-nil closed)), λ x o. elim o [ inl e ↦ e | inr e ↦ cc ])
  stop_each_lem ((k, false) ∷ m) p closed (x, a) = cc
  stop_each_lem ((k, true) ∷ m) p closed (x, a) =
      let (p', run, gone) = stop_each_lem m (remove_handler epoll k p) (closed ++ k ∷ []) a in
      (
        p',
        run ∙ ap (λ c. ok (p', c)) (append_assoc closed (k ∷ []) (keys m)),
        λ x o. gone x (goes_on k x m p o),
      )

  -- `stop` while every listening socket is there: it returns, has closed each of them once, in the order
  -- of the descriptors, and the loop has no handler for any of them.
  pub stop_lem :
      (s : Server K)
      → Alive s.sockets
      → (s' : Server K) × (stop epoll s ≡ ok s')
        × (s'.closed ≡ s.closed ++ keys s.sockets)
        × ((x : ℕ) → has x s.sockets ≡ true → has x s'.poller.handlers ≡ false)
  unfolding stop
  stop_lem s a =
      let (p, run, gone) = stop_each_lem s.sockets s.poller s.closed a in
      (stopped s p (s.closed ++ keys s.sockets), rw (run) refl, refl, λ x h. gone x (inr h))

  stop_null : (s : Server K) (fd : ℕ) → find fd s.sockets ≡ some false → stop epoll s ≡ err fault
  unfolding stop
  stop_null s fd h = rw (null_entry fd s.sockets s.poller s.closed h) refl

  abbrev sockets_of : Result (Server K) → List (ℕ × Bool)
  sockets_of (ok s) = s.sockets
  sockets_of (err e) = []

  abbrev reply_sockets : Reply K → List (ℕ × Bool)
  reply_sockets (gives s) = s.sockets
  reply_sockets (raises s) = s.sockets
  reply_sockets (fails e) = []

  add_socket-sockets :
      (fd : ℕ) (s : Server K) → reply_sockets (add_socket epoll fd s) ≡ insert fd true s.sockets
  unfolding add_socket
  add_socket-sockets fd s = added (add_handler epoll fd fd reads s.poller)
    where
      added :
          (c : Called K)
          → reply_sockets (elim c as (λ x. Reply K) [
            | returns p ↦ gives (record s { sockets = insert fd true s.sockets; poller = p })
            | throws_io p ↦ raises (record s { sockets = insert fd true s.sockets; poller = p })
          ])
            ≡ insert fd true s.sockets
      added (returns p) = refl
      added (throws_io p) = refl

  -- A descriptor that stood for a listening socket before `stop` cannot be stopped again: neither if the
  -- server is stopped twice, nor if the system gives the same number to a socket added since then.
  pub stop-again :
      (s s' : Server K) (fd : ℕ)
      → Alive s.sockets
      → has fd s.sockets ≡ true
      → stop epoll s ≡ ok s'
      → (stop epoll s' ≡ err fault)
        × ((s'' : Server K) → add_socket epoll fd s' ≡ gives s'' → stop epoll s'' ≡ err fault)
  unfolding stop add_socket
  stop-again s s' fd a h run =
      let (p, ran, gone) = stop_each_lem s.sockets s.poller s.closed a in
      let halted : ok (stopped s p (s.closed ++ keys s.sockets)) ≡ ok s' =
        sym (rw (ran) refl) ∙ run in
      let same : nulled s.sockets ≡ s'.sockets = ap sockets_of halted in
      let null = subst (λ m. find fd m ≡ some false) same (find-nulled fd s.sockets h) in
      (
        stop_null s' fd null,
        λ s'' added. stop_null s'' fd (
            subst (λ m. find fd m ≡ some false)
              (sym (add_socket-sockets fd s') ∙ ap reply_sockets added)
              (find-insert fd true false s'.sockets null)),
      )
