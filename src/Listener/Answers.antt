-- ===== src/Listener/Answers.antt =====
-- core/listener_impl.cc: the registrations over a whole run of a listener.
use Prim.Native.String.{String}
use tensorpipe.Prelude.{
  ℕ, ◌≤◌, ◌<◌, ◌≡◌, ◌≢◌, refl, Bool, true, false, ◌||◌, List, [], ◌∷◌, arith, ap, ◌==◌,
}
use tensorpipe.Pipe.Types.{is_error}
use tensorpipe.Listener.Accepts.{respond_all-nothing_left}
use tensorpipe.Listener.Requests.{
  answered, held, total, Kept, IsOnce, accept_from_loop-Kept, set_error-Kept,
  on_transport_accept-Kept, Kept-IsOnce, on_hello-Kept, IsDue, Kept-IsDue, register-IsOnce,
  register-IsDue, unregister-IsOnce, held-erase,
}
use tensorpipe.Listener.{
  Listener, new_listener, unregister_connection_request, close_from_loop, arm_listener,
  arm_listeners, init_from_loop, ListenerEvent, accepts, closes, registers, unregisters,
  connection_accepted, hello_received, respond, respond_all,
}

-- Whether the pipe takes the registration off
abbrev pub takes_off : ℕ → ListenerEvent → Bool
takes_off id (unregisters n) = n == id
takes_off id event = false

abbrev pub any_takes_off : ℕ → List ListenerEvent → Bool
any_takes_off id [] = false
any_takes_off id (event ∷ events) = takes_off id event || any_takes_off id events

unregister-Kept :
    (id n : ℕ) (s : Listener) → (n == id) ≡ false → Kept id s (unregister_connection_request n s)
unfolding unregister_connection_request
unregister-Kept id n s h =
    let e : n ≢ id = λ x. ground arith in
    (ground (arith, held-erase id n s.connection_request_registrations e), refl)

respond-IsOnce :
    (id : ℕ) (s : Listener) (event : ListenerEvent) → IsOnce id s → IsOnce id (respond s event)
unfolding respond close_from_loop
respond-IsOnce id s accepts i = Kept-IsOnce id s (respond s accepts) (accept_from_loop-Kept id s) i
respond-IsOnce id s closes i = Kept-IsOnce id s (respond s closes) (set_error-Kept id _ s) i
respond-IsOnce id s registers i = register-IsOnce id s i
respond-IsOnce id s (unregisters n) i = unregister-IsOnce id n s i
respond-IsOnce id s (connection_accepted t c e) i =
    Kept-IsOnce id s (respond s (connection_accepted t c e)) (on_transport_accept-Kept id t c e s) i
respond-IsOnce id s (hello_received t c p e) i =
    Kept-IsOnce id s (respond s (hello_received t c p e)) (on_hello-Kept id t c p e s i) i

respond-IsDue :
    (id : ℕ) (s : Listener) (event : ListenerEvent)
    → takes_off id event ≡ false
    → IsOnce id s
    → IsDue id s
    → IsDue id (respond s event)
unfolding respond close_from_loop
respond-IsDue id s accepts h i d =
    Kept-IsDue id s (respond s accepts) (accept_from_loop-Kept id s) d
respond-IsDue id s closes h i d = Kept-IsDue id s (respond s closes) (set_error-Kept id _ s) d
respond-IsDue id s registers h i d = register-IsDue id s i d
respond-IsDue id s (unregisters n) h i d =
    Kept-IsDue id s (respond s (unregisters n)) (unregister-Kept id n s h) d
respond-IsDue id s (connection_accepted t c e) h i d =
    Kept-IsDue id s (respond s (connection_accepted t c e)) (on_transport_accept-Kept id t c e s) d
respond-IsDue id s (hello_received t c p e) h i d =
    Kept-IsDue id s (respond s (hello_received t c p e)) (on_hello-Kept id t c p e s i) d

respond_all-IsOnce :
    (id : ℕ) (events : List ListenerEvent) (s : Listener)
    → IsOnce id s
    → IsOnce id (respond_all s events)
unfolding respond_all
respond_all-IsOnce id [] s i = i
respond_all-IsOnce id (event ∷ events) s i =
    respond_all-IsOnce id events (respond s event) (respond-IsOnce id s event i)

respond_all-IsDue :
    (id : ℕ) (events : List ListenerEvent) (s : Listener)
    → any_takes_off id events ≡ false
    → IsOnce id s
    → IsDue id s
    → IsDue id (respond_all s events)
unfolding respond_all
respond_all-IsDue id [] s h i d = d
respond_all-IsDue id (event ∷ events) s h i d =
    respond_all-IsDue id events (respond s event) (ground arith) (respond-IsOnce id s event i)
      (respond-IsDue id s event (ground arith) i d)

arm_listeners-Kept : (id : ℕ) (ts : List String) (s : Listener) → Kept id s (arm_listeners ts s)
unfolding arm_listeners arm_listener
arm_listeners-Kept id [] s = (refl, refl)
arm_listeners-Kept id (t ∷ ts) s = arm_listeners-Kept id ts _

init_from_loop-total :
    (id : ℕ) (closed : Bool) (transports : List String)
    → (total id (init_from_loop closed (new_listener transports)) ≡ 0)
      × ((init_from_loop closed (new_listener transports)).next_connection_request_registration_id
          ≡ 0)
unfolding init_from_loop new_listener
init_from_loop-total id true transports = (refl, refl)
init_from_loop-total id false transports = arm_listeners-Kept id transports _

init_from_loop-IsOnce :
    (id : ℕ) (closed : Bool) (transports : List String)
    → IsOnce id (init_from_loop closed (new_listener transports))
init_from_loop-IsOnce id closed transports =
    let z = init_from_loop-total id closed transports in
    record { once = omega (arith, z.0); fresh = λ h. z.0 }

-- Whatever happens to a listener after it is initialized, the callback of each registration of a
-- connection request is called at most once.
pub respond_all-answers_once :
    (id : ℕ) (closed : Bool) (transports : List String) (events : List ListenerEvent)
    → answered id (respond_all (init_from_loop closed (new_listener transports)) events).calls ≤ 1
respond_all-answers_once id closed transports events =
    let i = respond_all-IsOnce id events _ (init_from_loop-IsOnce id closed transports) in
    omega (arith, i.once)

-- When a listener has an error, the callback of each registration that was made and that nobody
-- took off has been called exactly once.
pub respond_all-answers_all :
    (id : ℕ) (closed : Bool) (transports : List String) (events : List ListenerEvent) (s : Listener)
    → respond_all (init_from_loop closed (new_listener transports)) events ≡ s
    → any_takes_off id events ≡ false
    → id < s.next_connection_request_registration_id
    → is_error s.error ≡ true
    → answered id s.calls ≡ 1
respond_all-answers_all id closed transports events s e h lt x =
    let z = init_from_loop-total id closed transports in
    let d : IsDue id s = rw e at (
      respond_all-IsDue id events _ h (init_from_loop-IsOnce id closed transports)
        (λ l. absurd (omega (arith, z.1)))) in
    let none_left : s.connection_request_registrations ≡ [] =
      (respond_all-nothing_left closed transports events s e x).1 in
    omega (arith, d lt, ap (held id) none_left)
