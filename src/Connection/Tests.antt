-- ===== src/Connection/Tests.antt =====
-- A run of a connection.
use tensorpipe.Prelude.{some, false, List, [], ◌∷◌}
use tensorpipe.Connection.{
  new_connection, init_from_loop, ConnectionEvent, user_reads_any, user_closes_connection,
  user_writes_object, user_writes_buffer, implementation_fails, serve_all,
}
use tensorpipe.Connection.Requests.{IsServing, serve_all-IsServing}

abbrev a_connection_life : List ConnectionEvent
a_connection_life =
    user_reads_any
    ∷ user_writes_buffer 64 8
    ∷ implementation_fails (some 3)
    ∷ user_reads_any
    ∷ user_closes_connection
    ∷ user_writes_object 1
    ∷ []

serve_all-IsServing_example :
    IsServing (serve_all (init_from_loop false new_connection) a_connection_life)
serve_all-IsServing_example = serve_all-IsServing false a_connection_life
