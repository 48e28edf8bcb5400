-- ===== src/Connection/Requests.antt =====
-- transport/connection_impl_boilerplate.h: each request is refused or handed on, once.
use tensorpipe.Prelude.{
  ℕ, ◌+◌, ◌≤◌, ◌≡◌, Bool, true, false, List, [], ◌∷◌, arith, ltb, ◌==◌, if◌then◌else◌,
}
use tensorpipe.Pipe.Types.{is_error}
use tensorpipe.Connection.{
  ConnectionCall, handle_error_impl, read_impl, read_object_impl, read_buffer_impl,
  write_buffer_impl, write_object_impl, read_refused, read_object_refused, write_refused,
  Connection, new_connection, init_from_loop, read_any_from_loop, read_object_from_loop,
  read_buffer_from_loop, write_buffer_from_loop, write_object_from_loop, handle_error, set_error,
  close_from_loop, ConnectionEvent, serve, serve_all,
}

abbrev is_read : ℕ → ConnectionCall → Bool
is_read k (read_impl n) = n == k
is_read k (read_object_impl n object) = n == k
is_read k (read_buffer_impl n ptr length) = n == k
is_read k (read_refused n error ptr length) = n == k
is_read k (read_object_refused n error) = n == k
is_read k call = false

abbrev is_write : ℕ → ConnectionCall → Bool
is_write k (write_buffer_impl n ptr length) = n == k
is_write k (write_object_impl n object) = n == k
is_write k (write_refused n error) = n == k
is_write k call = false

abbrev is_handle_error : ConnectionCall → Bool
is_handle_error handle_error_impl = true
is_handle_error call = false

abbrev is_refusal : ConnectionCall → Bool
is_refusal (read_refused n error ptr length) = true
is_refusal (read_object_refused n error) = true
is_refusal (write_refused n error) = true
is_refusal call = false

-- How many calls of a kind there are
abbrev count : (ConnectionCall → Bool) → List ConnectionCall → ℕ
count p [] = 0
count p (call ∷ calls) = let k = count p calls in if p call then k + 1 else k

-- Whether only refusals came after the implementation was told of the error
abbrev only_refusals : List ConnectionCall → Bool
only_refusals [] = true
only_refusals (call ∷ calls) =
    let rest = only_refusals calls in
    if is_handle_error call then true else if is_refusal call then rest else false

abbrev one_if : Bool → ℕ
one_if true = 1
one_if false = 0

pub record IsServing (c : Connection) : Type 0 where
  pub reads : (k : ℕ) → count (is_read k) c.calls ≡ one_if (ltb k c.next_buffer_being_read)
  pub writes : (k : ℕ) → count (is_write k) c.calls ≡ one_if (ltb k c.next_buffer_being_written)
  pub told_once : count is_handle_error c.calls ≤ one_if (is_error c.error)
  pub refusing : is_error c.error ≡ true → only_refusals c.calls ≡ true

serve-IsServing :
    (c : Connection) (event : ConnectionEvent) → IsServing c → IsServing (serve c event)
unfolding serve read_any_from_loop close_from_loop read_object_from_loop write_object_from_loop
    read_buffer_from_loop write_buffer_from_loop set_error handle_error
serve-IsServing c event i = record {
  reads = λ k. ground (arith, i.reads k);
  writes = λ k. ground (arith, i.writes k);
  told_once = ground (arith, i.told_once);
  refusing = λ h. ground (arith, i.refusing);
}

serve_all-keeps :
    (events : List ConnectionEvent) (c : Connection) → IsServing c → IsServing (serve_all c events)
unfolding serve_all
serve_all-keeps [] c i = i
serve_all-keeps (event ∷ events) c i =
    serve_all-keeps events (serve c event) (serve-IsServing c event i)

init_from_loop-IsServing : (closed : Bool) → IsServing (init_from_loop closed new_connection)
unfolding init_from_loop
init_from_loop-IsServing closed = record {
  reads = λ k. ground arith;
  writes = λ k. ground arith;
  told_once = ground arith;
  refusing = λ h. ground arith;
}

-- Whatever happens to a connection after it is initialized: each read and each write that was asked
-- for, and no other, is either handed to the implementation or refused, once; the implementation is
-- told of an error once at most; and after that, and also where the connection was initialized with
-- its context closed, requests are only refused.
pub serve_all-IsServing :
    (closed : Bool) (events : List ConnectionEvent)
    → IsServing (serve_all (init_from_loop closed new_connection) events)
serve_all-IsServing closed events =
    serve_all-keeps events (init_from_loop closed new_connection) (init_from_loop-IsServing closed)
