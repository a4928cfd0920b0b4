-- ===== src/Loop/Hidden.antt =====
-- The order of the timeouts in a turn of the loop.
use ctornado.Loop.{Loop, Timeout, push_timeout}
use ctornado.Base.{
  All, Bool-cases, List, [], arith, false, inl, inr, ltb, ltb→lt, none, some, ℕ, ◌<◌, ◌∷◌, ◌≡◌, ◌≢◌,
  ◌≤◌, ◌⊎◌,
}

-- the order in which the queue gives out its entries
abbrev pub Descending : List Timeout → Type 0
Descending [] = Unit {0}
Descending (t ∷ ts) = All (λ u. u.deadline ≤ t.deadline) ts × Descending ts

All-push_timeout :
    (d : ℕ) (t : Timeout) (ts : List Timeout)
    → t.deadline ≤ d
    → All (λ u. u.deadline ≤ d) ts
    → All (λ u. u.deadline ≤ d) (push_timeout t ts)
unfolding push_timeout
All-push_timeout d t [] h hs = (h, tt)
All-push_timeout d t (u ∷ ts) h (k, ks) = elim (Bool-cases (ltb u.deadline t.deadline)) [
  | inl first ↦ rw (first) (h, (k, ks))
  | inr later ↦ rw (later) (k, All-push_timeout d t ts h ks)
]

at_most : (a b : ℕ) → ltb a b ≡ false → b ≤ a
at_most a b h = ground arith

-- `add_timeout` keeps the order.
pub push_timeout-Descending :
    (t : Timeout) (ts : List Timeout) → Descending ts → Descending (push_timeout t ts)
unfolding push_timeout
push_timeout-Descending t [] h = (tt, tt)
push_timeout-Descending t (u ∷ ts) (k, h) = elim (Bool-cases (ltb u.deadline t.deadline)) [
  | inl first ↦ rw (first) (
    (
      omega (arith, ltb→lt u.deadline t.deadline first),
      below u.deadline ts (omega (arith, ltb→lt u.deadline t.deadline first)) k,
    ),
    (k, h),
  )
  | inr later ↦ rw (later) (
    All-push_timeout u.deadline t ts (at_most u.deadline t.deadline later) k,
    push_timeout-Descending t ts h,
  )
]
  where
    below :
        (d : ℕ) (ts : List Timeout)
        → d ≤ t.deadline
        → All (λ u. u.deadline ≤ d) ts
        → All (λ u. u.deadline ≤ t.deadline) ts
    below d [] e a = tt
    below d (v ∷ ts) e (x, a) = (omega arith, below d ts e a)

-- A timeout that was not cancelled and is not due is in the queue.
abbrev pub Waiting : ℕ → List Timeout → Type 0
Waiting now [] = ⊥
Waiting now (t ∷ ts) = ((t.callback ≢ none) × (now < t.deadline)) ⊎ Waiting now ts

-- the timeouts that were not cancelled
abbrev pub live : List Timeout → List Timeout
live [] = []
live (t ∷ ts) = elim t.callback [ none ↦ live ts | some cb ↦ t ∷ live ts ]
