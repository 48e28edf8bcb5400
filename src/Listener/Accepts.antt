-- ===== src/Listener/Accepts.antt =====
-- core/listener_impl.cc: the accept callbacks, and what an error leaves.
use Prim.Native.String.{String}
use tensorpipe.Prelude.{
  ℕ, ◌+◌, ◌≡◌, refl, inl, inr, Bool, true, false, not, ◌||◌, none, some, List, [], ◌∷◌, arith,
  length, Bool-cases, ap,
}
use tensorpipe.Pipe.Types.{Error, is_error}
use tensorpipe.RearmableCallback.{trigger}
use tensorpipe.Listener.Line.{
  IsInLine, IsEmptied, IsAnswering, call_accept_callbacks-frame, accept_from_loop-IsAnswering,
  open_pipe-IsInLine, handle_error-IsAnswering,
}
use tensorpipe.Listener.{
  Listener, new_listener, register_connection_request, erase, unregister_connection_request,
  set_error, close_from_loop, arm_listener, arm_listeners, init_from_loop, on_accept,
  on_transport_accept, on_connection_hello_read, on_hello, Packet, spontaneous_connection,
  requested_connection, ListenerEvent, accepts, closes, registers, unregisters, connection_accepted,
  hello_received, respond, respond_all, contains, init_pipe,
}

set_error-IsAnswering :
    (error : Error) (s : Listener) → IsAnswering s → IsAnswering (set_error error s)
unfolding set_error
set_error-IsAnswering error s i = elim (Bool-cases (is_error s.error || not (is_error error))) [
  | inl e ↦ rw e i
  | inr e ↦
      let l : IsInLine (record s { error = error }) = record {
        in_line = i.line.in_line;
        counted = i.line.counted;
        quiet = i.line.quiet;
        one_waits = i.line.one_waits;
        checked = i.line.checked;
      } in
      rw e (handle_error-IsAnswering (record s { error = error }) l)
]

-- Nothing but the registrations and the connections changes, and there is no error.
other-IsAnswering :
    (s t : Listener)
    → IsAnswering s
    → t.accept_callback ≡ s.accept_callback
    → t.next_accept_callback_to_call ≡ s.next_accept_callback_to_call
    → t.next_pipe_being_accepted ≡ s.next_pipe_being_accepted
    → t.accept_callbacks_checked ≡ s.accept_callbacks_checked
    → (is_error t.error ≡ true → IsEmptied t)
    → IsAnswering t
other-IsAnswering s t i a n p c x = record {
  line = record {
    in_line = rw a (rw n i.line.in_line);
    counted = rw a (rw n (rw p i.line.counted));
    quiet = rw a i.line.quiet;
    one_waits = rw a i.line.one_waits;
    checked = rw c i.line.checked;
  };
  emptied = x;
}

register-IsAnswering :
    (s : Listener) → IsAnswering s → IsAnswering (register_connection_request s).1
unfolding register_connection_request
register-IsAnswering s i = elim (Bool-cases (is_error s.error)) [
  | inl e ↦ rw e (
      other-IsAnswering s _ i refl refl refl refl (λ h. record {
        no_callback = (i.emptied e).no_callback;
        no_registration = (i.emptied e).no_registration;
        no_connection = (i.emptied e).no_connection;
      }))
  | inr e ↦ rw e (other-IsAnswering s _ i refl refl refl refl (λ h. absurd (ground arith)))
]

unregister-IsAnswering :
    (id : ℕ) (s : Listener) → IsAnswering s → IsAnswering (unregister_connection_request id s)
unfolding unregister_connection_request erase
unregister-IsAnswering id s i = other-IsAnswering s _ i refl refl refl refl (λ h. record {
  no_callback = (i.emptied h).no_callback;
  no_registration = rw (i.emptied h).no_registration refl;
  no_connection = (i.emptied h).no_connection;
})

on_transport_accept-IsAnswering :
    (transport : String) (connection : ℕ) (error : Error) (s : Listener)
    → IsAnswering s
    → IsAnswering (on_transport_accept transport connection error s)
unfolding on_transport_accept arm_listener on_accept
on_transport_accept-IsAnswering transport connection error s h =
    let i : IsAnswering (set_error error s) = set_error-IsAnswering error s h in
    elim (Bool-cases (is_error (set_error error s).error)) [
      | inl e ↦ rw e i
      | inr e ↦ rw e (
          other-IsAnswering (set_error error s) _ i refl refl refl refl
            (λ x. absurd (ground arith)))
    ]

hello-IsAnswering :
    (transport : String) (connection : ℕ) (packet : Packet) (s : Listener)
    → IsAnswering s
    → is_error s.error ≡ false
    → IsAnswering (on_connection_hello_read transport connection packet s)
unfolding on_connection_hello_read
hello-IsAnswering transport connection (spontaneous_connection name) s i e = record {
  line = open_pipe-IsInLine transport connection name s i.line;
  emptied = λ x. absurd (
      ground (
        arith,
        ap (λ y. y.1)
            (call_accept_callbacks-frame
              (trigger (none, some s.pipe_counter) s.accept_callback).fired
              (record s {
                pipe_counter = s.pipe_counter + 1;
                accept_callback = record (trigger (none, some s.pipe_counter) s.accept_callback) {
                  fired = [];
                };
                calls = init_pipe s.pipe_counter name transport connection ∷ s.calls;
              })),
      ));
}
hello-IsAnswering transport connection (requested_connection id) s i e =
    elim (Bool-cases (contains id s.connection_request_registrations)) [
      | inl c ↦ rw c (other-IsAnswering s _ i refl refl refl refl (λ x. absurd (ground arith)))
      | inr c ↦ rw c i
    ]

on_hello-IsAnswering :
    (transport : String) (connection : ℕ) (packet : Packet) (error : Error) (s : Listener)
    → IsAnswering s
    → IsAnswering (on_hello transport connection packet error s)
unfolding on_hello
on_hello-IsAnswering transport connection packet error s h =
    let i : IsAnswering (set_error error s) = set_error-IsAnswering error s h in
    elim (Bool-cases (is_error (set_error error s).error)) [
      | inl e ↦ rw e i
      | inr e ↦ rw e (
          hello-IsAnswering transport connection packet _
            (other-IsAnswering (set_error error s) _ i refl refl refl refl
              (λ x. absurd (ground arith)))
            e)
    ]

respond-IsAnswering :
    (s : Listener) (event : ListenerEvent) → IsAnswering s → IsAnswering (respond s event)
unfolding respond close_from_loop
respond-IsAnswering s accepts i = accept_from_loop-IsAnswering s i
respond-IsAnswering s closes i = set_error-IsAnswering _ s i
respond-IsAnswering s registers i = register-IsAnswering s i
respond-IsAnswering s (unregisters id) i = unregister-IsAnswering id s i
respond-IsAnswering s (connection_accepted t c e) i = on_transport_accept-IsAnswering t c e s i
respond-IsAnswering s (hello_received t c p e) i = on_hello-IsAnswering t c p e s i

respond_all-IsAnswering :
    (events : List ListenerEvent) (s : Listener)
    → IsAnswering s
    → IsAnswering (respond_all s events)
unfolding respond_all
respond_all-IsAnswering [] s i = i
respond_all-IsAnswering (event ∷ events) s i =
    respond_all-IsAnswering events (respond s event) (respond-IsAnswering s event i)

arm_listeners-IsAnswering :
    (ts : List String) (s : Listener) → IsAnswering s → IsAnswering (arm_listeners ts s)
unfolding arm_listeners arm_listener
arm_listeners-IsAnswering [] s i = i
arm_listeners-IsAnswering (t ∷ ts) s i = arm_listeners-IsAnswering ts (arm_listener t s) (
    other-IsAnswering s _ i refl refl refl refl (λ h. record {
      no_callback = (i.emptied h).no_callback;
      no_registration = (i.emptied h).no_registration;
      no_connection = (i.emptied h).no_connection;
    }))

init_from_loop-IsAnswering :
    (closed : Bool) (transports : List String)
    → IsAnswering (init_from_loop closed (new_listener transports))
unfolding init_from_loop new_listener
init_from_loop-IsAnswering true transports = record {
  line = record { in_line = tt; counted = refl; quiet = refl; one_waits = refl; checked = refl };
  emptied = λ h. record { no_callback = refl; no_registration = refl; no_connection = refl };
}
init_from_loop-IsAnswering false transports = arm_listeners-IsAnswering transports _ (record {
  line = record { in_line = tt; counted = refl; quiet = refl; one_waits = refl; checked = refl };
  emptied = λ h. record { no_callback = refl; no_registration = refl; no_connection = refl };
})

-- Whatever happens to a listener after it is initialized, the accept callbacks that it invokes are
-- those of its calls of `accept`, each once and in the order of the calls; the others wait.
pub respond_all-accepts_in_order :
    (closed : Bool) (transports : List String) (events : List ListenerEvent)
    → ((respond_all
          (init_from_loop closed (new_listener transports))
          events).accept_callbacks_checked
        ≡ true)
      × ((respond_all
              (init_from_loop closed (new_listener transports))
              events).next_accept_callback_to_call
            + length
                (respond_all
                  (init_from_loop closed (new_listener transports))
                  events).accept_callback.callbacks
          ≡ (respond_all
              (init_from_loop closed (new_listener transports))
              events).next_pipe_being_accepted)
respond_all-accepts_in_order closed transports events =
    let i = respond_all-IsAnswering events _ (init_from_loop-IsAnswering closed transports) in
    (i.line.checked, i.line.counted)

-- Once the listener has an error, its calls of `accept` have all been answered, no registration of
-- a connection request is left, and no connection waits for its first message.
pub respond_all-nothing_left :
    (closed : Bool) (transports : List String) (events : List ListenerEvent) (s : Listener)
    → respond_all (init_from_loop closed (new_listener transports)) events ≡ s
    → is_error s.error ≡ true
    → (s.next_accept_callback_to_call ≡ s.next_pipe_being_accepted)
      × (s.connection_request_registrations ≡ [])
      × (s.connections_waiting_for_hello ≡ [])
respond_all-nothing_left closed transports events s e h =
    let i : IsAnswering s =
      rw e at (respond_all-IsAnswering events _ (init_from_loop-IsAnswering closed transports)) in
    let x : IsEmptied s = i.emptied h in
    (ground (arith, i.line.counted, x.no_callback), x.no_registration, x.no_connection)
