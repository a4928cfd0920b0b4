-- ===== src/Http/Shut.antt =====
-- `HTTPConnection::close`.
use ctornado.Http.State.{Connection, bind_gives, gives, modify, on_stream, on_stream_done}
use ctornado.Http.Connection.{close}
use ctornado.Base.{none, refl, ◌+◌, ◌≡◌}
use ctornado.Buffer.Content.{IsValid}
use ctornado.Stream.Shutdown.{Closed, close_lem}
use ctornado.Stream.Close

-- what closing a connection does
pub record Shut (c c' : Connection) : Type 0 where
  pub stream_closed : Closed c.stream c'.stream
  pub no_header_callback : c'.header_callback ≡ none
  pub freed : c'.frees ≡ c.frees + 1
  pub same_served : c'.served ≡ c.served
  pub same_request : c'.request ≡ c.request

pub close-Shut :
    (c : Connection)
    → IsValid c.stream.read_buffer
    → (c' : Connection) × (close c ≡ gives tt c') × Shut c c'
unfolding close
close-Shut c v =
    let (s, run, shut) = close_lem c.stream v in
    (
      record c { stream = s; header_callback = none; frees = c.frees + 1 },
      bind_gives (on_stream Close.close)
          (λ _. modify (λ c. record c { header_callback = none; frees = c.frees + 1 })) c
          (on_stream_done Close.close c run),
      record {
        stream_closed = shut;
        no_header_callback = refl;
        freed = refl;
        same_served = refl;
        same_request = refl;
      },
    )
