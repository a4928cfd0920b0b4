-- ===== src/Stream/Idle.antt =====
-- `read_until` and `try_inline_read` on a stream that no other read is under way on.
use ctornado.Stream.Close.{check_closed, maybe_add_error_listener}
use ctornado.Stream.Monad.{
  M, Out, Recv, Stream, bind_done, catching, done, eagain, is_some, modify, recv_blocks, stuck,
  ◌>>=◌, ◌>>◌,
}
use ctornado.Stream.Read.{
  less_pending, more_pending, read_all, read_from_buffer, read_loop, read_until, set_read_callback,
  try_inline_read,
}
use ctornado.Base.{
  Bytes, List, Option, ap, arith, false, fault, if◌then◌else◌, length, none, refl, some, suc, true,
  ℕ, ◌+◌, ◌-◌, ◌∙◌, ◌∷◌, ◌≡◌,
}

pub read_until_idle :
    (fuel : ℕ) (d : Bytes) (callback : Option ℕ) (s : Stream)
    → s.read_callback ≡ none
    → read_until fuel d callback s
      ≡ try_inline_read fuel (record s { read_callback = callback; read_delimiter = some d })
unfolding read_until set_read_callback
read_until_idle fuel d callback s idle =
    bind_done (set_read_callback callback)
      (λ _. modify (λ s. record s { read_delimiter = some d }) >> try_inline_read fuel) s
      (free s.read_callback (stuck fault) (done tt (record s { read_callback = callback })) idle)
  where
    free : (o : Option ℕ) (x y : Out (Unit {0})) → o ≡ none → (if is_some o then x else y) ≡ y
    free o x y e = rw (e)

pub inline_found :
    (fuel : ℕ) (s : Stream) {s' : Stream}
    → read_from_buffer fuel s ≡ done true s'
    → try_inline_read fuel s ≡ done tt s'
unfolding try_inline_read
inline_found fuel s run = rw (run, try_inline_read, ◌>>=◌) refl

-- The socket has nothing for now.
pub read_all_blocked :
    (between : M (Unit {0})) (s : Stream) (answers : List Recv)
    → read_all between (record s { incoming = recv_blocks ∷ answers })
      ≡ done tt (record s { incoming = answers; sys_errno = eagain })
unfolding read_all
read_all_blocked between s answers =
    ap (λ n. read_loop n between (record s { incoming = recv_blocks ∷ answers }))
      (more (length answers))
    ∙ blocks
  where
    more : (n : ℕ) → suc n + 1 ≡ suc (suc n)
    more n = omega arith

    blocks :
        read_loop
          (suc (suc (length answers)))
          between
          (record s { incoming = recv_blocks ∷ answers })
        ≡ done tt (record s { incoming = answers; sys_errno = eagain })
    blocks = refl

pub inline_blocked :
    (fuel : ℕ) (s after : Stream)
    → read_from_buffer fuel s ≡ done false s
    → check_closed s ≡ done tt s
    → read_all check_closed (record s { pending_callbacks = s.pending_callbacks + 1 })
      ≡ done tt after
    → read_from_buffer fuel (record after { pending_callbacks = after.pending_callbacks - 1 })
      ≡ done false (record after { pending_callbacks = after.pending_callbacks - 1 })
    → try_inline_read fuel s
      ≡ maybe_add_error_listener (record after { pending_callbacks = after.pending_callbacks - 1 })
unfolding try_inline_read more_pending less_pending
inline_blocked fuel s after before checked run behind =
    rw (before, checked, run, behind, catching, ◌>>=◌) refl
