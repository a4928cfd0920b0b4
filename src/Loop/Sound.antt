-- ===== src/Loop/Sound.antt =====
-- The calls of the loop that change its handlers: a descriptor that epoll watches has one.
use ctornado.Loop.Map.{All-insert, erase, has, has-erase, has-insert, insert, length-erase}
use ctornado.Loop.Handlers.{
  Act, Called, Epoll, IsEpoll, Poller, act, add_handler, adds, insert_all, interest, remove_handler,
  removes, returns, run_acts, throws_io, update_handler, updates,
}
use ctornado.Stream.Monad.{Events}
use ctornado.Base.{
  ==_iff, All, Bool, Bool-cases, List, Option-cases, [], arith, false, inl, inr, length, not, refl,
  sym, true, ℕ, ◌&&◌, ◌==◌, ◌||◌, ◌∙◌, ◌∷◌, ◌≡◌, ◌≤◌,
}

-- the descriptors with a handler
abbrev pub IsHandled : {A : Type 0} → List (ℕ × ℕ) → ℕ × A → Type 0
IsHandled handlers e = has e.0 handlers ≡ true

-- Every descriptor that epoll watches or has reported has a handler.
pub record Sound {ℓ} {K : Type ℓ} (watches : ℕ → K → Bool) (p : Poller K) : Type ℓ where
  pub watched : (x : ℕ) → watches x p.poll ≡ true → has x p.handlers ≡ true
  pub pending : All (IsHandled p.handlers) p.events

pub All-insert_all :
    (P : ℕ × Events → Type 0) (es m : List (ℕ × Events))
    → All P es
    → All P m
    → All P (insert_all es m)
unfolding insert_all
All-insert_all P [] m h hs = hs
All-insert_all P ((k, a) ∷ es) m (x, h) hs =
    All-insert_all P es (insert k a m) h (All-insert P k a m x hs)

still_handled : (fd h x : ℕ) (m : List (ℕ × ℕ)) → has x m ≡ true → has x (insert fd h m) ≡ true
still_handled fd h x m e = has-insert x fd h m ∙ ground (arith, e)

IsHandled-insert :
    (fd h : ℕ) (m : List (ℕ × ℕ)) (es : List (ℕ × Events))
    → All (IsHandled m) es
    → All (IsHandled (insert fd h m)) es
IsHandled-insert fd h m [] a = tt
IsHandled-insert fd h m (e ∷ es) (x, a) = (still_handled fd h e.0 m x, IsHandled-insert fd h m es a)

IsHandled-erase :
    (fd : ℕ) (m : List (ℕ × ℕ)) (es : List (ℕ × Events))
    → All (IsHandled m) es
    → All (IsHandled (erase fd m)) (erase fd es)
unfolding erase
IsHandled-erase fd m [] a = tt
IsHandled-erase fd m ((k, e) ∷ es) (x, a) = elim (Bool-cases (k == fd)) [
  | inl here ↦ rw (here) (IsHandled-erase fd m es a)
  | inr past ↦ rw (past) (has-erase k fd m ∙ ground (arith, x, past), IsHandled-erase fd m es a)
]

or_mono : (b v w : Bool) → (v ≡ true → w ≡ true) → (b || v) ≡ true → (b || w) ≡ true
or_mono true v w f h = refl
or_mono false v w f h = f h

and_mono : (b v w : Bool) → (v ≡ true → w ≡ true) → (b && v) ≡ true → (b && w) ≡ true
and_mono true v w f h = f h
and_mono false v w f h = h

not_same : (fd x : ℕ) (f : ℕ → Bool) → f fd ≡ false → f x ≡ true → not (fd == x) ≡ true
not_same fd x f h k = elim (Bool-cases (fd == x)) [
  | inl same ↦ cc ((==_iff fd x).0 same)
  | inr differ ↦ rw (differ) refl
]

both : (a b : Bool) → a ≡ true → b ≡ true → (a && b) ≡ true
both a b h k = rw (h, k) refl

module _ {ℓ} {K : Type ℓ} (epoll : Epoll K) (watches : ℕ → K → Bool)
    (laws : IsEpoll epoll watches) where
  -- how a call may end: it makes no event
  abbrev pub SoundCall : ℕ → Called K → Type ℓ
  SoundCall n (returns p) = Sound watches p × (length p.events ≤ n)
  SoundCall n (throws_io p) = Sound watches p × (length p.events ≤ n)

  add_handler-Sound :
      (fd handler : ℕ) (e : Events) (p : Poller K)
      → Sound watches p
      → SoundCall (length p.events) (add_handler epoll fd handler e p)
  unfolding add_handler
  add_handler-Sound fd handler e p s =
      elim (Option-cases (epoll.ctl_add fd (interest p.edge_triggered e) p.poll)) [
        | inl fails ↦ rw (fails) (
          record {
            watched = λ x w. still_handled fd handler x p.handlers (s.watched x w);
            pending = IsHandled-insert fd handler p.handlers p.events s.pending;
          },
          omega arith,
        )
        | inr (k, ends) ↦ rw (ends) (
          record {
            watched = λ x w.
                has-insert x fd handler p.handlers
                ∙ or_mono (fd == x) (watches x p.poll) (has x p.handlers) (s.watched x)
                    (sym (laws.add_watches x fd _ p.poll k ends) ∙ w);
            pending = IsHandled-insert fd handler p.handlers p.events s.pending;
          },
          omega arith,
        )
      ]

  update_handler-Sound :
      (fd : ℕ) (e : Events) (p : Poller K)
      → Sound watches p
      → SoundCall (length p.events) (update_handler epoll fd e p)
  unfolding update_handler
  update_handler-Sound fd e p s =
      elim (Option-cases (epoll.ctl_mod fd (interest p.edge_triggered e) p.poll)) [
        | inl fails ↦ rw (fails) (s, omega arith)
        | inr (k, ends) ↦ rw (ends) (
          record {
            watched = λ x w. s.watched x (sym (laws.mod_watches x fd _ p.poll k ends) ∙ w);
            pending = s.pending;
          },
          omega arith,
        )
      ]

  remove_handler-Sound :
      (fd : ℕ) (p : Poller K) → Sound watches p → Sound watches (remove_handler epoll fd p)
  unfolding remove_handler
  remove_handler-Sound fd p s = elim (Option-cases (epoll.ctl_del fd p.poll)) [
    | inl fails ↦
        rw (fails, remove_handler)
          (record {
            watched = λ x w.
                has-erase x fd p.handlers
                ∙ both (not (fd == x)) (has x p.handlers)
                    (not_same fd x (λ y. watches y p.poll) (laws.del_fails fd p.poll fails) w)
                    (s.watched x w);
            pending = IsHandled-erase fd p.handlers p.events s.pending;
          })
    | inr (k, ends) ↦
        rw (ends, remove_handler)
          (record {
            watched = λ x w.
                has-erase x fd p.handlers
                ∙ and_mono (not (fd == x)) (watches x p.poll) (has x p.handlers) (s.watched x)
                    (sym (laws.del_watches x fd p.poll k ends) ∙ w);
            pending = IsHandled-erase fd p.handlers p.events s.pending;
          })
  ]

  -- Every call keeps the loop sound, also where it throws, and makes no event.
  pub act-Sound :
      (a : Act) (p : Poller K) → Sound watches p → SoundCall (length p.events) (act epoll a p)
  unfolding act remove_handler
  act-Sound (adds fd handler e) p s = add_handler-Sound fd handler e p s
  act-Sound (updates fd e) p s = update_handler-Sound fd e p s
  act-Sound (removes fd) p s = (remove_handler-Sound fd p s, removed)
    where
      removed : length (remove_handler epoll fd p).events ≤ length p.events
      removed = elim (Option-cases (epoll.ctl_del fd p.poll)) [
        | inl fails ↦ rw (fails, remove_handler) (length-erase fd p.events)
        | inr (k, ends) ↦ rw (ends, remove_handler) (length-erase fd p.events)
      ]

  -- What a handler does keeps the loop sound, and makes no event.
  pub run_acts_lem :
      (acts : List Act) (p : Poller K)
      → Sound watches p
      → Sound watches (run_acts epoll acts p)
        × (length (run_acts epoll acts p).events ≤ length p.events)
  unfolding run_acts
  run_acts_lem [] p s = (s, omega arith)
  run_acts_lem (a ∷ more) p s = after (act epoll a p) (act-Sound a p s) (run_acts_lem more)
    where
      after :
          (c : Called K)
          → SoundCall (length p.events) c
          → ((p' : Poller K)
              → Sound watches p'
              → Sound watches (run_acts epoll more p')
                × (length (run_acts epoll more p').events ≤ length p'.events))
          → Sound watches (elim c as (λ x. Poller K) [
            | returns p' ↦ run_acts epoll more p'
            | throws_io p' ↦ p'
          ])
            × (length
                  (elim c as (λ x. Poller K) [
                    | returns p' ↦ run_acts epoll more p'
                    | throws_io p' ↦ p'
                  ]).events
                ≤ length p.events)
      after (returns p') (s, h) again = let (s', k) = again p' s in (s', omega arith)
      after (throws_io p') c again = c
