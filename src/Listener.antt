-- ===== src/Listener.antt =====
-- core/listener_impl.h and listener_impl.cc, after the construction of the listener. A transport's
-- listener is known by its transport's name, a connection and a registration by a number, a pipe by
-- its number among the listener's, and an accept callback by its call's. User code's callbacks, and
-- those of the pipes, which pass through a `CallbackWrapper`, do not call the listener back at once.
pub mod Line
pub mod Accepts
pub mod Requests
pub mod Answers
mod Tests
use Prim.Native.String.{String}
use text.Mathlib.Text.{◌==◌ as str_eq}
use tensorpipe.Prelude.{
  ℕ, ◌+◌, Bool, true, false, not, ◌&&◌, ◌||◌, Option, none, some, List, [], ◌∷◌, ◌==◌,
  if◌then◌else◌,
}
use tensorpipe.Pipe.Types.{Error, is_error}
use tensorpipe.RearmableCallback.{Rearmable, arm, trigger, trigger_all}

-- `Packet`
pub data Packet : Type 0 where
  spontaneous_connection : String → Packet
  requested_connection : ℕ → Packet

pub data ListenerCall : Type 0 where
  accept_callback : ℕ → Error → Option ℕ → ListenerCall
  request_callback : ℕ → Error → Option (String × ℕ) → ListenerCall
  accept_from_transport : String → ListenerCall
  read_hello : ℕ → ListenerCall
  init_pipe : ℕ → String → String → ℕ → ListenerCall
  close_transport_listener : String → ListenerCall
  close_connection : ℕ → ListenerCall
  enroll unenroll : ListenerCall

-- `accept_callbacks_checked` tells whether every TP_DCHECK on the order of the accept callbacks has
-- held so far. `calls` is the history, latest first.
pub record Listener : Type 0 where
  pub error : Error
  pub listeners : List String
  pub pipe_counter : ℕ
  pub next_pipe_being_accepted : ℕ
  pub next_accept_callback_to_call : ℕ
  pub accept_callback : Rearmable ℕ (Error × Option ℕ)
  pub connections_waiting_for_hello : List ℕ
  pub next_connection_request_registration_id : ℕ
  pub connection_request_registrations : List ℕ
  pub accept_callbacks_checked : Bool
  pub calls : List ListenerCall

abbrev pub listener_closed_error : ℕ
listener_closed_error = 0

-- A listener that is constructed, with a transport listener for each of some transports
unfoldable pub new_listener : List String → Listener
new_listener transports = record {
  error = none;
  listeners = transports;
  pipe_counter = 0;
  next_pipe_being_accepted = 0;
  next_accept_callback_to_call = 0;
  accept_callback = record { callbacks = []; args = []; fired = [] };
  connections_waiting_for_hello = [];
  next_connection_request_registration_id = 0;
  connection_request_registrations = [];
  accept_callbacks_checked = true;
  calls = [];
}

-- The function that `acceptFromLoop` wraps the user's in
unfoldable pub call_accept_callback : ℕ → Error → Option ℕ → Listener → Listener
call_accept_callback n error pipe s = record s {
  next_accept_callback_to_call = s.next_accept_callback_to_call + 1;
  accept_callbacks_checked = s.accept_callbacks_checked && n == s.next_accept_callback_to_call;
  calls = accept_callback n error pipe ∷ s.calls;
}

-- What a call of `acceptCallback_` invokes
unfoldable pub call_accept_callbacks : List (ℕ × (Error × Option ℕ)) → Listener → Listener
call_accept_callbacks [] s = s
call_accept_callbacks ((n, (error, pipe)) ∷ rest) s =
    call_accept_callbacks rest (call_accept_callback n error pipe s)

abbrev pub with_accept_callback : Rearmable ℕ (Error × Option ℕ) → Listener → Listener
with_accept_callback r s =
    call_accept_callbacks r.fired (record s { accept_callback = record r { fired = [] } })

-- `acceptFromLoop`
unfoldable pub accept_from_loop : Listener → Listener
accept_from_loop s =
    let n : ℕ = s.next_pipe_being_accepted in
    let s' : Listener = record s { next_pipe_being_accepted = n + 1 } in
    if is_error s.error
    then call_accept_callback n s.error none s'
    else with_accept_callback (arm n s.accept_callback) s'

-- `registerConnectionRequest`, with the registration's number
unfoldable pub register_connection_request : Listener → ℕ × Listener
register_connection_request s =
    let id : ℕ = s.next_connection_request_registration_id in
    let s' : Listener = record s { next_connection_request_registration_id = id + 1 } in
    (
      id,
      if is_error s.error
          then record s' { calls = request_callback id s.error none ∷ s.calls }
          else record s' {
            connection_request_registrations = id ∷ s.connection_request_registrations;
          },
    )

-- `erase` on a set of numbers
unfoldable pub erase : ℕ → List ℕ → List ℕ
erase n [] = []
erase n (m ∷ ms) = let rest = erase n ms in if m == n then rest else m ∷ rest

-- `find` on a set of numbers
unfoldable pub contains : ℕ → List ℕ → Bool
contains n [] = false
contains n (m ∷ ms) = m == n || contains n ms

-- `unregisterConnectionRequest`
unfoldable pub unregister_connection_request : ℕ → Listener → Listener
unregister_connection_request id s = record s {
  connection_request_registrations = erase id s.connection_request_registrations;
}

-- The loops of `handleError`
unfoldable pub refuse_requests : Error → List ℕ → List ListenerCall → List ListenerCall
refuse_requests error [] calls = calls
refuse_requests error (id ∷ ids) calls =
    refuse_requests error ids (request_callback id error none ∷ calls)

unfoldable pub close_listeners : List String → List ListenerCall → List ListenerCall
close_listeners [] calls = calls
close_listeners (t ∷ ts) calls = close_listeners ts (close_transport_listener t ∷ calls)

unfoldable pub close_connections_from : List ℕ → List ListenerCall → List ListenerCall
close_connections_from [] calls = calls
close_connections_from (c ∷ cs) calls = close_connections_from cs (close_connection c ∷ calls)

-- `handleError`
unfoldable pub handle_error : Listener → Listener
handle_error s =
    let s' : Listener = with_accept_callback (trigger_all (s.error, none) s.accept_callback) s in
    record s' {
      connection_request_registrations = [];
      connections_waiting_for_hello = [];
      calls =
          unenroll
          ∷ close_connections_from s.connections_waiting_for_hello (
              close_listeners s.listeners
                (refuse_requests s.error s.connection_request_registrations s'.calls));
    }

-- `setError`
unfoldable pub set_error : Error → Listener → Listener
set_error error s =
    if is_error s.error || not (is_error error)
    then s
    else handle_error (record s { error = error })

-- `closeFromLoop`
unfoldable pub close_from_loop : Listener → Listener
close_from_loop s = set_error (some listener_closed_error) s

-- `armListener`, for a transport that the listener has
unfoldable pub arm_listener : String → Listener → Listener
arm_listener transport s = record s { calls = accept_from_transport transport ∷ s.calls }

unfoldable pub arm_listeners : List String → Listener → Listener
arm_listeners [] s = s
arm_listeners (t ∷ ts) s = arm_listeners ts (arm_listener t s)

-- `initFromLoop`, told whether the context is closed
unfoldable pub init_from_loop : Bool → Listener → Listener
init_from_loop context_closed s =
    if context_closed
    then record s { error = some listener_closed_error }
    else arm_listeners s.listeners (record s { calls = enroll ∷ s.calls })

-- `onAccept`, up to its call of `read`
unfoldable pub on_accept : ℕ → Listener → Listener
on_accept connection s = record s {
  connections_waiting_for_hello = connection ∷ erase connection s.connections_waiting_for_hello;
  calls = read_hello connection ∷ s.calls;
}

-- The callback that `armListener` gives to the transport's listener
unfoldable pub on_transport_accept : String → ℕ → Error → Listener → Listener
on_transport_accept transport connection error s =
    let s' : Listener = set_error error s in
    if is_error s'.error then s' else arm_listener transport (on_accept connection s')

-- `onConnectionHelloRead`
unfoldable pub on_connection_hello_read : String → ℕ → Packet → Listener → Listener
on_connection_hello_read transport connection (spontaneous_connection remote_name) s =
    let n : ℕ = s.pipe_counter in
    with_accept_callback (trigger (none, some n) s.accept_callback) (record s {
      pipe_counter = n + 1;
      calls = init_pipe n remote_name transport connection ∷ s.calls;
    })
on_connection_hello_read transport connection (requested_connection id) s =
    if contains id s.connection_request_registrations
    then record s {
      connection_request_registrations = erase id s.connection_request_registrations;
      calls = request_callback id none (some (transport, connection)) ∷ s.calls;
    }
    else s

-- The callback that `onAccept` gives to the connection
unfoldable pub on_hello : String → ℕ → Packet → Error → Listener → Listener
on_hello transport connection packet error s =
    let s' : Listener = set_error error s in
    if is_error s'.error
    then s'
    else on_connection_hello_read transport connection packet (record s' {
      connections_waiting_for_hello = erase connection s'.connections_waiting_for_hello;
    })

-- What the loop runs for a listener, after `initFromLoop`
pub data ListenerEvent : Type 0 where
  accepts : ListenerEvent
  closes : ListenerEvent
  registers : ListenerEvent
  unregisters : ℕ → ListenerEvent
  connection_accepted : String → ℕ → Error → ListenerEvent
  hello_received : String → ℕ → Packet → Error → ListenerEvent

unfoldable pub respond : Listener → ListenerEvent → Listener
respond s accepts = accept_from_loop s
respond s closes = close_from_loop s
respond s registers = (register_connection_request s).1
respond s (unregisters id) = unregister_connection_request id s
respond s (connection_accepted transport connection error) =
    on_transport_accept transport connection error s
respond s (hello_received transport connection packet error) =
    on_hello transport connection packet error s

unfoldable pub respond_all : Listener → List ListenerEvent → Listener
respond_all s [] = s
respond_all s (event ∷ events) = respond_all (respond s event) events
