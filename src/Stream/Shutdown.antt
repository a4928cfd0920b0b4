-- ===== src/Stream/Shutdown.antt =====
-- `close`: what is left of a stream that it has closed.
use mathlib.Core.Path.{subst}
use ctornado.Stream.Monad.{
  Stream, bind_done, call, done, has_events, is_some, modify, no_events, ◌>>◌,
}
use ctornado.Stream.Close.{
  close, close_socket, drop_handler, flush_until_close, maybe_run_close_callback, run_callback,
}
use ctornado.Stream.Flushed.{Quiet, ReadKept, ReadSide, flush_lem, joined, quiet, read_later}
use ctornado.Base.{
  Bool, Bool-cases, Option, [], ap, append-nil, arith, false, if◌then◌else◌, inl, inr, none, not,
  refl, some, sym, true, ℕ, ◌&&◌, ◌++◌, ◌+◌, ◌<◌, ◌==◌, ◌∙◌, ◌∷◌, ◌≡◌, ◌≢◌,
}
use ctornado.Buffer.{}
use ctornado.Buffer.Content.{IsValid}
use ctornado.Str.{}

-- `error_ = new Error(errno)`
noted : Stream → Stream
noted s = record s { error = if s.sys_errno == 0 then s.error else some s.sys_errno }

noted_lem :
    (s : Stream) → (if s.sys_errno == 0 then s else record s { error = some s.sys_errno }) ≡ noted s
unfolding noted
noted_lem s = by_test (s.sys_errno == 0)
  where
    by_test :
        (b : Bool)
        → (if b then s else record s { error = some s.sys_errno })
          ≡ record s { error = if b then s.error else some s.sys_errno }
    by_test true = refl
    by_test false = refl

-- the stream without handler and socket
dropped : Stream → Stream
dropped s = record (drop_handler s) { socket = false }

dropped_lem : (s : Stream) → IsValid s.read_buffer → Quiet s (dropped s) × ReadKept s (dropped s)
unfolding dropped drop_handler
dropped_lem s v =
    elim (has_events s.state)
      as (λ b. KeepsAll (record (if b then record s { state = no_events; handler = none } else s) {
        socket = false;
      })) [
        | true ↦ (
          record {
            same_wire = refl;
            same_unsent = refl;
            valid = v;
            more = [];
            more_tasks = sym (append-nil s.tasks);
          },
          (refl, refl),
        )
        | false ↦ (
          record {
            same_wire = refl;
            same_unsent = refl;
            valid = v;
            more = [];
            more_tasks = sym (append-nil s.tasks);
          },
          (refl, refl),
        )
      ]
  where
    KeepsAll : Stream → Type 0
    KeepsAll t = Quiet s t × ReadKept s t

close_open :
    (s s' : Stream)
    → s.socket ≡ true
    → flush_until_close (noted s) ≡ done tt s'
    → close_socket s ≡ done tt (dropped s')
unfolding close_socket noted dropped
close_open s s' open_socket run =
    taken s.socket _ _ open_socket
    ∙ ap (λ t. (flush_until_close >> modify (λ s. record (drop_handler s) { socket = false })) t)
        (noted_lem s)
    ∙ bind_done flush_until_close (λ _. modify (λ s. record (drop_handler s) { socket = false }))
        (noted s) run
  where
    taken : {A : Type 0} (b : Bool) (x y : A) → b ≡ true → (if b then x else y) ≡ x
    taken b x y e = rw (e)

noted_flush :
    (s : Stream)
    → IsValid s.read_buffer
    → (s' : Stream) × (flush_until_close (noted s) ≡ done tt s')
      × Quiet s s'
      × ReadSide s.read_until_close s s'
unfolding noted
noted_flush s v =
    let (s', run, q, g) = flush_lem (noted s) v in
    (
      s',
      run,
      record {
        same_wire = q.same_wire;
        same_unsent = q.same_unsent;
        valid = q.valid;
        more = q.more;
        more_tasks = q.more_tasks;
      },
      g,
    )

open_and : (b c : Bool) → b ≡ true → c ≡ (b && c)
open_and b c e = rw (e) refl

close_socket_lem :
    (s : Stream)
    → IsValid s.read_buffer
    → (s' : Stream) × (close_socket s ≡ done tt s')
      × (s'.socket ≡ false)
      × Quiet s s'
      × ReadSide (s.socket && s.read_until_close) s s'
close_socket_lem s v = elim (Bool-cases s.socket) [
  | inr shut ↦
      (s, (unfold close_socket in rw (shut)), shut, quiet s v, inl ((rw (shut) refl), (refl, refl)))
  | inl open_socket ↦
      let (s', run, q, g) = noted_flush s v in
      let (q', k) = dropped_lem s' q.valid in
      (
        dropped s',
        close_open s s' open_socket run,
        (unfold dropped in refl),
        joined s s' (dropped s') q q',
        read_later (s.socket && s.read_until_close) s s' (dropped s') q'.more
            (subst (λ b. ReadSide b s s') (open_and s.socket s.read_until_close open_socket) g) k
            q'.more_tasks,
      )
]

closed_callback : (s : Stream) → Stream
closed_callback s = record s {
  close_callback = none;
  pending_callbacks = s.pending_callbacks + 1;
  tasks = s.tasks ++ call s.close_callback ∷ [];
}

-- A stream after `close`: it has no socket, nothing was sent, no buffered byte to send is lost, and a
-- close callback that is still there waits for callbacks that are pending. The bytes that were read are
-- still buffered, or, where an open stream was read to its end, given to the callback of the read.
pub record Closed (s s' : Stream) : Type 0 where
  pub gone : s'.socket ≡ false
  pub quiet_step : Quiet s s'
  pub read_side : ReadSide (s.socket && s.read_until_close) s s'
  pub late : s'.close_callback ≢ none → 0 < s'.pending_callbacks

waits_late : (o : Option ℕ) (p : ℕ) → (is_some o && p == 0) ≡ false → o ≢ none → 0 < p
waits_late none p e h = absurd (h refl)
waits_late (some cb) p e h = ground arith

maybe_lem :
    (s : Stream)
    → s.socket ≡ false
    → IsValid s.read_buffer
    → (s' : Stream) × (maybe_run_close_callback s ≡ done tt s') × Closed s s' × ReadKept s s'
unfolding maybe_run_close_callback run_callback closed_callback
maybe_lem s shut v = elim (Bool-cases (is_some s.close_callback && s.pending_callbacks == 0)) [
  | inl runs ↦ (
    closed_callback s,
    picked s.socket _ _ _ shut runs,
    record {
      gone = shut;
      quiet_step = record {
        same_wire = refl;
        same_unsent = refl;
        valid = v;
        more = call s.close_callback ∷ [];
        more_tasks = refl;
      };
      read_side = inl (first_false s.socket _ shut, (refl, refl));
      late = λ h. absurd (h refl);
    },
    (refl, refl),
  )
  | inr waits ↦ (
    s,
    passed s.socket _ _ _ shut waits,
    record {
      gone = shut;
      quiet_step = quiet s v;
      read_side = inl (first_false s.socket _ shut, (refl, refl));
      late = waits_late s.close_callback s.pending_callbacks waits;
    },
    (refl, refl),
  )
]
  where
    first_false : (b c : Bool) → b ≡ false → (b && c) ≡ false
    first_false b c e = rw (e) refl

    picked :
        {A : Type 0} (b c : Bool) (x y : A)
        → b ≡ false
        → c ≡ true
        → (if not b && c then x else y) ≡ x
    picked b c x y e f = rw (e, f)

    passed :
        {A : Type 0} (b c : Bool) (x y : A)
        → b ≡ false
        → c ≡ false
        → (if not b && c then x else y) ≡ y
    passed b c x y e f = rw (e, f)

-- `close` on a stream with a valid read buffer always returns. The stream then has no socket; nothing
-- was sent, the bytes to send are still there, what was scheduled still is, the read buffer is valid,
-- and a close callback that was not scheduled waits for pending callbacks. If the socket was open and
-- `read_until_close` under way, its callback is scheduled with all bytes that were in the read buffer,
-- which is empty then; otherwise the read buffer and the callback of the read are as they were.
pub close_lem :
    (s : Stream) → IsValid s.read_buffer → (s' : Stream) × (close s ≡ done tt s') × Closed s s'
unfolding close
close_lem s v =
    let (t, run, shut, q, g) = close_socket_lem s v in
    let (u, last, c, k) = maybe_lem (record t { read_regex = none }) shut q.valid in
    (
      u,
      bind_done close_socket
            (λ _. modify (λ s. record s { read_regex = none }) >> maybe_run_close_callback) s run
          ∙ last,
      record {
        gone = c.gone;
        quiet_step = joined s (record t { read_regex = none }) u (regex_gone t q) c.quiet_step;
        read_side =
            read_later (s.socket && s.read_until_close) s t u c.quiet_step.more g k
              c.quiet_step.more_tasks;
        late = c.late;
      },
    )
  where
    regex_gone : (t : Stream) → Quiet s t → Quiet s (record t { read_regex = none })
    regex_gone t q = record {
      same_wire = q.same_wire;
      same_unsent = q.same_unsent;
      valid = q.valid;
      more = q.more;
      more_tasks = q.more_tasks;
    }
