-- ===== src/Stream/Sending.antt =====
-- `handle_write`: no byte is lost, doubled or moved on its way to the socket.
use mathlib.Core.Path.{subst}
use ctornado.Stream.Monad.{Out, Stream, bind_done, call, done, is_some, return, stuck, ◌>>◌}
use ctornado.Stream.Close.{close, run_callback}
use ctornado.Stream.Write.{
  Round, again, failed, finish_write, give_up, handle_write, leave_loop, write_loop, write_round,
}
use ctornado.Stream.Shutdown.{close_lem}
use ctornado.Stream.Round.{Conserved, RoundOf, gives_up, goes_on, leaves, round_lem}
use ctornado.Base.{
  Bool, Bool-cases, [], ap, arith, false, if◌then◌else◌, inl, inr, length, ltb, ltb→lt, none, refl,
  suc, sym, true, zero, ℕ, ◌&&◌, ◌++◌, ◌+◌, ◌<◌, ◌==◌, ◌∙◌, ◌∷◌, ◌≡◌,
}
use ctornado.Buffer.{}
use ctornado.Buffer.Content.{IsValid, contents}
use ctornado.Buffer.Prefix.{}
use ctornado.Str.{}

-- how the loop may end: behind it, with the socket open, or in the branch that closes
abbrev Looped : Stream → Out Bool → Type 0
Looped s r = (on : Bool) × (s' : Stream) × (r ≡ done on s') × Conserved s s' × (s'.socket ≡ on)

then_on : (s t : Stream) (r : Out Bool) → Conserved s t → Looped t r → Looped s r
then_on s t r k (on, s', run, k', o) = (
  on,
  s',
  run,
  record { kept = k'.kept ∙ k.kept; valid_write = k'.valid_write; valid_read = k'.valid_read },
  o,
)

pub loop_round :
    (fuel : ℕ) (s : Stream)
    → ltb 0 s.write_buffer.size ≡ true
    → write_loop (suc fuel) s ≡ elim (write_round s) as (λ x. Out Bool) [
      | again s' ↦ write_loop fuel s'
      | leave_loop s' ↦ done true s'
      | give_up s' ↦ (close >> return false) s'
      | failed e ↦ stuck e
    ]
unfolding write_loop
loop_round fuel s e = rw (e, write_loop)

closes : (s s' : Stream) → Conserved s s' → Looped s ((close >> return false) s')
closes s s' k =
    let (u, run, c) = close_lem s' k.valid_read in
    (
      false,
      u,
      bind_done close (λ _. return false) s' run,
      record {
        kept =
            ap (λ w. w ++ contents u.write_buffer) c.quiet_step.same_wire
            ∙ ap (λ b. s'.wire ++ contents b) c.quiet_step.same_unsent
            ∙ k.kept;
        valid_write = subst IsValid (sym c.quiet_step.same_unsent) k.valid_write;
        valid_read = c.quiet_step.valid;
      },
      c.gone,
    )

write_loop_lem :
    (fuel : ℕ) (s : Stream)
    → s.socket ≡ true
    → IsValid s.write_buffer
    → IsValid s.read_buffer
    → length s.accepting < fuel
    → Looped s (write_loop fuel s)
write_loop_lem zero s o v r h = absurd (omega arith)
write_loop_lem (suc fuel) s o v r h = elim (Bool-cases (ltb 0 s.write_buffer.size)) [
  | inr none_left ↦ (
    true,
    s,
    (unfold write_loop in rw (none_left, write_loop)),
    record { kept = refl; valid_write = v; valid_read = r },
    o,
  )
  | inl some_left ↦ subst (Looped s) (sym (loop_round fuel s some_left)) (
      ended (write_loop_lem fuel) (write_round s)
        (round_lem s o v r (ltb→lt 0 s.write_buffer.size some_left)))
]
  where
    ended :
        ((t : Stream)
          → t.socket ≡ true
          → IsValid t.write_buffer
          → IsValid t.read_buffer
          → length t.accepting < fuel
          → Looped t (write_loop fuel t))
        → (x : Round) → RoundOf s x
        → Looped s (elim x as (λ x. Out Bool) [
          | again s' ↦ write_loop fuel s'
          | leave_loop s' ↦ done true s'
          | give_up s' ↦ (close >> return false) s'
          | failed e ↦ stuck e
        ])
    ended later _ (goes_on s' o' l k) =
        then_on s s' _ k (later s' o' k.valid_write k.valid_read (omega arith))
    ended later _ (leaves s' o' k) = (true, s', refl, k, o')
    ended later _ (gives_up s' k) = closes s s' k

finish_lem :
    (s : Stream)
    → IsValid s.write_buffer
    → IsValid s.read_buffer
    → (s' : Stream) × (finish_write s ≡ done tt s') × Conserved s s'
unfolding finish_write run_callback
finish_lem s v r = elim (Bool-cases (s.write_buffer.size == 0 && is_some s.write_callback)) [
  | inl all ↦ (called, rw (all), record { kept = refl; valid_write = v; valid_read = r })
  | inr others ↦ (s, rw (others), record { kept = refl; valid_write = v; valid_read = r })
]
  where
    called : Stream
    called = record s {
      write_callback = none;
      pending_callbacks = s.pending_callbacks + 1;
      tasks = s.tasks ++ call s.write_callback ∷ [];
    }

write_at :
    (s : Stream) (on : Bool) (t : Stream)
    → write_loop (length s.accepting + 1) s ≡ done on t
    → handle_write s ≡ (if on then finish_write else return tt) t
write_at s on t run =
    unfold handle_write in
    bind_done (write_loop (length s.accepting + 1)) (λ all. if all then finish_write else return tt)
      s run

-- `handle_write` on a stream with a socket and valid buffers returns, whatever the socket answers. The
-- bytes that the socket has taken, followed by those that still wait, are the same as before, in order:
-- none is lost, sent twice or moved, also where `send` takes only a part or fails and the stream closes.
pub handle_write_lem :
    (s : Stream)
    → s.socket ≡ true
    → IsValid s.write_buffer
    → IsValid s.read_buffer
    → (s' : Stream) × (handle_write s ≡ done tt s') × Conserved s s'
handle_write_lem s o v r = behind (write_loop_lem (length s.accepting + 1) s o v r (omega arith))
  where
    behind :
        Looped s (write_loop (length s.accepting + 1) s)
        → (s' : Stream) × (handle_write s ≡ done tt s') × Conserved s s'
    behind (true, t, run, k, o') =
        let (u, last, q) = finish_lem t k.valid_write k.valid_read in
        (
          u,
          write_at s true t run ∙ last,
          record { kept = q.kept ∙ k.kept; valid_write = q.valid_write; valid_read = q.valid_read },
        )
    behind (false, t, run, k, o') = (t, write_at s false t run, k)
