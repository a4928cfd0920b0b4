-- ===== src/TcpServer/Accepted.antt =====
-- `accept_handler`: which clients it takes.
use ctornado.TcpServer.{
  Accept, Tried, accept_blocks, accept_fails, accept_handler, all_handled, client,
  handle_connection, throws_errno,
}
use ctornado.Base.{List, [], map, refl, ℕ, ◌++◌, ◌∷◌, ◌≡◌}

module _ {S : Type 0} (handle_stream : ℕ → S → Tried S) where
  -- a client after the other
  abbrev pub each : List ℕ → S → S
  each [] s = s
  each (fd ∷ fds) s = each fds (handle_connection handle_stream fd s)

  -- `accept_handler` hands the clients that wait to `handle_stream`, each of them once and in turn, also
  -- where it throws, and returns when the socket would block; where `accept` fails in another way it
  -- throws, and the clients behind are not taken.
  pub accept_handler_lem :
      (fds : List ℕ) (answers : List Accept) (s : S)
      → (accept_handler handle_stream (map client fds ++ accept_blocks ∷ answers) s
          ≡ all_handled (each fds s) answers)
        × ((e : ℕ)
            → accept_handler handle_stream (map client fds ++ accept_fails e ∷ answers) s
              ≡ throws_errno e (each fds s) answers)
  unfolding accept_handler
  accept_handler_lem [] answers s = (refl, λ e. refl)
  accept_handler_lem (fd ∷ fds) answers s =
      accept_handler_lem fds answers (handle_connection handle_stream fd s)
