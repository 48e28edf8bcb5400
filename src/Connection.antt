-- ===== src/Connection.antt =====
-- transport/connection_impl_boilerplate.h: what every connection does with the requests of its
-- users and with errors, before its implementation has them. The implementation is the subclass:
-- what is asked of it is in the history, and when it sets an error is any event. A callback is known
-- by the number of its request, an object by a number.
pub mod Requests
mod Tests
use tensorpipe.Prelude.{
  ℕ, ◌+◌, Bool, true, false, not, ◌||◌, none, some, List, [], ◌∷◌, if◌then◌else◌,
}
use tensorpipe.Pipe.Types.{Error, is_error}

-- What is asked of the implementation, and the callbacks that are called at once. The first number
-- is the request's.
pub data ConnectionCall : Type 0 where
  init_impl handle_error_impl : ConnectionCall
  read_impl : ℕ → ConnectionCall
  read_object_impl : ℕ → ℕ → ConnectionCall
  read_buffer_impl : ℕ → ℕ → ℕ → ConnectionCall
  write_buffer_impl : ℕ → ℕ → ℕ → ConnectionCall
  write_object_impl : ℕ → ℕ → ConnectionCall
  read_refused : ℕ → Error → ℕ → ℕ → ConnectionCall
  read_object_refused write_refused : ℕ → Error → ConnectionCall

-- `calls` is the history, latest first.
pub record Connection : Type 0 where
  pub error : Error
  pub next_buffer_being_read : ℕ
  pub next_buffer_being_written : ℕ
  pub calls : List ConnectionCall

abbrev pub connection_closed_error : ℕ
connection_closed_error = 0

abbrev pub new_connection : Connection
new_connection = record {
  error = none;
  next_buffer_being_read = 0;
  next_buffer_being_written = 0;
  calls = [];
}

-- `initFromLoop`, told whether the context is closed
unfoldable pub init_from_loop : Bool → Connection → Connection
init_from_loop context_closed c =
    if context_closed
    then record c { error = some connection_closed_error }
    else record c { calls = init_impl ∷ c.calls }

-- `readFromLoop`, of any length, of an object, and into a buffer
unfoldable pub read_any_from_loop : Connection → Connection
read_any_from_loop c =
    let n = c.next_buffer_being_read in
    let c' : Connection = record c { next_buffer_being_read = n + 1 } in
    if is_error c.error
    then record c' { calls = read_refused n c.error 0 0 ∷ c.calls }
    else record c' { calls = read_impl n ∷ c.calls }

unfoldable pub read_object_from_loop : ℕ → Connection → Connection
read_object_from_loop object c =
    let n = c.next_buffer_being_read in
    let c' : Connection = record c { next_buffer_being_read = n + 1 } in
    if is_error c.error
    then record c' { calls = read_object_refused n c.error ∷ c.calls }
    else record c' { calls = read_object_impl n object ∷ c.calls }

unfoldable pub read_buffer_from_loop : ℕ → ℕ → Connection → Connection
read_buffer_from_loop ptr length c =
    let n = c.next_buffer_being_read in
    let c' : Connection = record c { next_buffer_being_read = n + 1 } in
    if is_error c.error
    then record c' { calls = read_refused n c.error ptr length ∷ c.calls }
    else record c' { calls = read_buffer_impl n ptr length ∷ c.calls }

-- `writeFromLoop`, of a buffer and of an object
unfoldable pub write_buffer_from_loop : ℕ → ℕ → Connection → Connection
write_buffer_from_loop ptr length c =
    let n = c.next_buffer_being_written in
    let c' : Connection = record c { next_buffer_being_written = n + 1 } in
    if is_error c.error
    then record c' { calls = write_refused n c.error ∷ c.calls }
    else record c' { calls = write_buffer_impl n ptr length ∷ c.calls }

unfoldable pub write_object_from_loop : ℕ → Connection → Connection
write_object_from_loop object c =
    let n = c.next_buffer_being_written in
    let c' : Connection = record c { next_buffer_being_written = n + 1 } in
    if is_error c.error
    then record c' { calls = write_refused n c.error ∷ c.calls }
    else record c' { calls = write_object_impl n object ∷ c.calls }

-- `handleError`
unfoldable pub handle_error : Connection → Connection
handle_error c = record c { calls = handle_error_impl ∷ c.calls }

-- `setError`
unfoldable pub set_error : Error → Connection → Connection
set_error error c =
    if is_error c.error || not (is_error error)
    then c
    else handle_error (record c { error = error })

-- `closeFromLoop`
unfoldable pub close_from_loop : Connection → Connection
close_from_loop c = set_error (some connection_closed_error) c

-- What the loop runs for a connection, after `initFromLoop`
pub data ConnectionEvent : Type 0 where
  user_reads_any user_closes_connection : ConnectionEvent
  user_reads_object user_writes_object : ℕ → ConnectionEvent
  user_reads_buffer user_writes_buffer : ℕ → ℕ → ConnectionEvent
  implementation_fails : Error → ConnectionEvent

unfoldable pub serve : Connection → ConnectionEvent → Connection
serve c user_reads_any = read_any_from_loop c
serve c user_closes_connection = close_from_loop c
serve c (user_reads_object object) = read_object_from_loop object c
serve c (user_writes_object object) = write_object_from_loop object c
serve c (user_reads_buffer ptr length) = read_buffer_from_loop ptr length c
serve c (user_writes_buffer ptr length) = write_buffer_from_loop ptr length c
serve c (implementation_fails error) = set_error error c

unfoldable pub serve_all : Connection → List ConnectionEvent → Connection
serve_all c [] = c
serve_all c (event ∷ events) = serve_all (serve c event) events
