-- ===== src/Examples/Writing.antt =====
-- Writing, connecting and closing at concrete states.
use ctornado.Examples.Streams.{buffered, counting_buffer, waiting}
use ctornado.Stream.Monad.{Stream, done, sent, stuck}
use ctornado.Stream.Close.{close}
use ctornado.Stream.Write.{handle_events, handle_write, write}
use ctornado.Stream.Round.{Conserved, written}
use ctornado.Stream.Sending.{handle_write_lem}
use ctornado.Stream.Written.{write_lem}
use ctornado.Stream.Shutdown.{Closed, close_lem}
use ctornado.Stream.Refused.{connect_refused, writable}
use ctornado.Buffer.Content.{IsValid}
use ctornado.Str.{text}
use ctornado.Base.{[], arith, codes, fault, refl, some, true, ◌∷◌, ◌≡◌}

-- five bytes wait; the socket takes two, then all, and then blocks
abbrev sending : Stream
sending = record waiting { write_buffer = buffered; accepting = sent 2 ∷ sent 100 ∷ [] }

write_example :
    (s' : Stream) × (write (text (codes "!")) (some 9) sending ≡ done tt s')
    × (written s' ≡ codes "ab;cd!")
    × IsValid s'.write_buffer
    × IsValid s'.read_buffer
write_example = write_lem (text (codes "!")) (some 9) sending refl counting_buffer counting_buffer

handle_write_example : (s' : Stream) × (handle_write sending ≡ done tt s') × Conserved sending s'
handle_write_example = handle_write_lem sending refl counting_buffer counting_buffer

close_example : (s' : Stream) × (close waiting ≡ done tt s') × Closed waiting s'
close_example = close_lem waiting counting_buffer

abbrev connecting_stream : Stream
connecting_stream = record sending { connecting = true }

-- 111 is ECONNREFUSED.
connect_refused_example : handle_events 10 111 writable connecting_stream ≡ stuck fault
connect_refused_example =
    connect_refused 10 111 connecting_stream refl refl counting_buffer counting_buffer (omega arith)
      (omega arith)
