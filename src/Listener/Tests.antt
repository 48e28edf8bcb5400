-- ===== src/Listener/Tests.antt =====
-- Runs of a listener.
use tensorpipe.Prelude.{◌+◌, ◌≤◌, ◌<◌, ◌≡◌, refl, true, false, none, List, [], ◌∷◌, arith, length}
use tensorpipe.Pipe.Types.{is_error}
use tensorpipe.Listener.{
  Listener, ListenerEvent, accepts, closes, registers, hello_received, connection_accepted,
  spontaneous_connection, requested_connection, respond_all, init_from_loop, new_listener, respond,
  accept_from_loop, close_from_loop, set_error, handle_error, register_connection_request,
  on_transport_accept, on_accept, on_hello, on_connection_hello_read, arm_listener, arm_listeners,
  call_accept_callbacks, call_accept_callback, refuse_requests, close_listeners,
  close_connections_from, erase, contains,
}
use tensorpipe.RearmableCallback.{arm, trigger, trigger_all, trigger_all_from}
use tensorpipe.Listener.Accepts.{respond_all-accepts_in_order, respond_all-nothing_left}
use tensorpipe.Listener.Requests.{answered}
use tensorpipe.Listener.Answers.{respond_all-answers_once, respond_all-answers_all}

-- Two calls of accept, a pipe that is opened, two registrations, one of which is answered, and the
-- end.
abbrev a_life : List ListenerEvent
a_life =
    accepts
    ∷ accepts
    ∷ connection_accepted "shm" 1 none
    ∷ hello_received "shm" 1 (spontaneous_connection "") none
    ∷ registers
    ∷ registers
    ∷ connection_accepted "uv" 2 none
    ∷ hello_received "uv" 2 (requested_connection 1) none
    ∷ closes
    ∷ accepts
    ∷ []

abbrev at_the_end : Listener
at_the_end = respond_all (init_from_loop false (new_listener ("shm" ∷ "uv" ∷ []))) a_life

respond_all-accepts_in_order_example :
    (at_the_end.accept_callbacks_checked ≡ true)
    × (at_the_end.next_accept_callback_to_call + length at_the_end.accept_callback.callbacks
        ≡ at_the_end.next_pipe_being_accepted)
respond_all-accepts_in_order_example = respond_all-accepts_in_order false ("shm" ∷ "uv" ∷ []) a_life

at_the_end_error : is_error at_the_end.error ≡ true
unfolding respond_all init_from_loop new_listener respond accept_from_loop close_from_loop set_error
    handle_error register_connection_request on_transport_accept on_accept on_hello
    on_connection_hello_read arm_listener arm_listeners call_accept_callbacks call_accept_callback
    refuse_requests close_listeners close_connections_from erase contains arm trigger trigger_all
    trigger_all_from
at_the_end_error = refl

at_the_end_accepts : at_the_end.next_accept_callback_to_call ≡ 3
unfolding respond_all init_from_loop new_listener respond accept_from_loop close_from_loop set_error
    handle_error register_connection_request on_transport_accept on_accept on_hello
    on_connection_hello_read arm_listener arm_listeners call_accept_callbacks call_accept_callback
    refuse_requests close_listeners close_connections_from erase contains arm trigger trigger_all
    trigger_all_from
at_the_end_accepts = refl

at_the_end_registered : 0 < at_the_end.next_connection_request_registration_id
unfolding respond_all init_from_loop new_listener respond accept_from_loop close_from_loop set_error
    handle_error register_connection_request on_transport_accept on_accept on_hello
    on_connection_hello_read arm_listener arm_listeners call_accept_callbacks call_accept_callback
    refuse_requests close_listeners close_connections_from erase contains arm trigger trigger_all
    trigger_all_from
at_the_end_registered = omega arith

respond_all-nothing_left_example :
    (at_the_end.next_accept_callback_to_call ≡ at_the_end.next_pipe_being_accepted)
    × (at_the_end.connection_request_registrations ≡ [])
    × (at_the_end.connections_waiting_for_hello ≡ [])
respond_all-nothing_left_example =
    respond_all-nothing_left false ("shm" ∷ "uv" ∷ []) a_life at_the_end refl at_the_end_error

respond_all-answers_once_example : answered 1 at_the_end.calls ≤ 1
respond_all-answers_once_example = respond_all-answers_once 1 false ("shm" ∷ "uv" ∷ []) a_life

respond_all-answers_all_example : answered 0 at_the_end.calls ≡ 1
respond_all-answers_all_example =
    respond_all-answers_all 0 false ("shm" ∷ "uv" ∷ []) a_life at_the_end refl refl
      at_the_end_registered at_the_end_error
