-- ===== src/Listener/Requests.antt =====
-- core/listener_impl.cc: each registration of a connection request is answered once.
use Prim.Native.String.{String}
use tensorpipe.Prelude.{
  ℕ, ◌+◌, ◌≤◌, ◌<◌, ◌≡◌, ◌≢◌, refl, ==_iff, inl, inr, true, Option, none, some, List, [], ◌∷◌,
  arith, Bool-cases, ◌∙◌, ap, ◌==◌, if◌then◌else◌,
}
use tensorpipe.Pipe.Types.{Error, is_error}
use tensorpipe.RearmableCallback.{Rearmable, arm, trigger, trigger_all}
use tensorpipe.Listener.{
  Listener, ListenerCall, request_callback, call_accept_callback, call_accept_callbacks,
  with_accept_callback, accept_from_loop, register_connection_request, erase,
  unregister_connection_request, refuse_requests, close_listeners, close_connections_from,
  handle_error, set_error, arm_listener, on_accept, on_transport_accept, on_connection_hello_read,
  on_hello, Packet, spontaneous_connection, requested_connection, contains, init_pipe,
}

-- How often a registration has been answered, and how often it is held
abbrev pub answered : ℕ → List ListenerCall → ℕ
answered id [] = 0
answered id (request_callback n error c ∷ calls) =
    let k = answered id calls in if n == id then k + 1 else k
answered id (call ∷ calls) = answered id calls

abbrev pub held : ℕ → List ℕ → ℕ
held id [] = 0
held id (n ∷ ns) = let k = held id ns in if n == id then k + 1 else k

abbrev pub total : ℕ → Listener → ℕ
total id s = answered id s.calls + held id s.connection_request_registrations

-- The numbers that decide about a registration
abbrev pub Kept : ℕ → Listener → Listener → Type 0
Kept id s t =
    (total id t ≡ total id s)
    × (t.next_connection_request_registration_id ≡ s.next_connection_request_registration_id)

-- A registration is answered or held once at most, and no number to come has been.
pub record IsOnce (id : ℕ) (s : Listener) : Type 0 where
  pub once : total id s ≤ 1
  pub fresh : s.next_connection_request_registration_id ≤ id → total id s ≡ 0

pub held-erase : (id n : ℕ) (ns : List ℕ) → n ≢ id → held id (erase n ns) ≡ held id ns
unfolding erase
held-erase id n [] h = refl
held-erase id n (m ∷ ms) h = grind (arith, held-erase id n ms h)

held-erased : (id n : ℕ) (ns : List ℕ) → n ≡ id → held id (erase n ns) ≡ 0
unfolding erase
held-erased id n [] e = refl
held-erased id n (m ∷ ms) e = ground (arith, held-erased id n ms)

contains-held : (id n : ℕ) (ns : List ℕ) → n ≡ id → contains n ns ≡ true → 1 ≤ held id ns
unfolding contains
contains-held id n [] e h = ground arith
contains-held id n (m ∷ ms) e h = ground (arith, contains-held id n ms)

call_accept_callbacks-calls :
    (id : ℕ) (xs : List (ℕ × (Error × Option ℕ))) (s : Listener)
    → (answered id (call_accept_callbacks xs s).calls ≡ answered id s.calls)
      × ((call_accept_callbacks xs s).connection_request_registrations
          ≡ s.connection_request_registrations)
      × ((call_accept_callbacks xs s).next_connection_request_registration_id
          ≡ s.next_connection_request_registration_id)
unfolding call_accept_callbacks call_accept_callback
call_accept_callbacks-calls id [] s = (refl, refl, refl)
call_accept_callbacks-calls id ((n, (error, pipe)) ∷ xs) s = call_accept_callbacks-calls id xs _

answered-refuse_requests :
    (id : ℕ) (error : Error) (ids : List ℕ) (calls : List ListenerCall)
    → answered id (refuse_requests error ids calls) ≡ answered id calls + held id ids
unfolding refuse_requests
answered-refuse_requests id error [] calls = omega arith
answered-refuse_requests id error (n ∷ ns) calls =
    ground (arith, answered-refuse_requests id error ns (request_callback n error none ∷ calls))

answered-close_listeners :
    (id : ℕ) (ts : List String) (calls : List ListenerCall)
    → answered id (close_listeners ts calls) ≡ answered id calls
unfolding close_listeners
answered-close_listeners id [] calls = refl
answered-close_listeners id (t ∷ ts) calls = answered-close_listeners id ts _

answered-close_connections_from :
    (id : ℕ) (cs : List ℕ) (calls : List ListenerCall)
    → answered id (close_connections_from cs calls) ≡ answered id calls
unfolding close_connections_from
answered-close_connections_from id [] calls = refl
answered-close_connections_from id (c ∷ cs) calls = answered-close_connections_from id cs _

with_accept_callback-Kept :
    (id : ℕ) (r : Rearmable ℕ (Error × Option ℕ)) (s : Listener)
    → Kept id s (with_accept_callback r s)
with_accept_callback-Kept id r s =
    let (a, h, n) =
      call_accept_callbacks-calls id r.fired
        (record s { accept_callback = record r { fired = [] } }) in
    (omega (arith, a, ap (held id) h), n)

pub accept_from_loop-Kept : (id : ℕ) (s : Listener) → Kept id s (accept_from_loop s)
unfolding accept_from_loop call_accept_callback
accept_from_loop-Kept id s = ground (
  arith,
  with_accept_callback-Kept id (arm s.next_pipe_being_accepted s.accept_callback)
      (record s { next_pipe_being_accepted = s.next_pipe_being_accepted + 1 }),
)

handle_error-Kept : (id : ℕ) (s : Listener) → Kept id s (handle_error s)
unfolding handle_error
handle_error-Kept id s =
    let s' : Listener = with_accept_callback (trigger_all (s.error, none) s.accept_callback) s in
    let k : Kept id s s' = with_accept_callback-Kept id _ s in
    let (a, h, n) =
      call_accept_callbacks-calls id (trigger_all (s.error, none) s.accept_callback).fired
        (record s {
          accept_callback = record (trigger_all (s.error, none) s.accept_callback) { fired = [] };
        }) in
    (
      omega (
        arith,
        a,
        answered-close_connections_from id s.connections_waiting_for_hello (
            close_listeners s.listeners
              (refuse_requests s.error s.connection_request_registrations s'.calls)),
        answered-close_listeners id s.listeners
            (refuse_requests s.error s.connection_request_registrations s'.calls),
        answered-refuse_requests id s.error s.connection_request_registrations s'.calls,
      ),
      n,
    )

pub set_error-Kept : (id : ℕ) (error : Error) (s : Listener) → Kept id s (set_error error s)
unfolding set_error
set_error-Kept id error s = ground (arith, handle_error-Kept id (record s { error = error }))

pub on_transport_accept-Kept :
    (id : ℕ) (transport : String) (connection : ℕ) (error : Error) (s : Listener)
    → Kept id s (on_transport_accept transport connection error s)
unfolding on_transport_accept arm_listener on_accept
on_transport_accept-Kept id transport connection error s = ground (arith, set_error-Kept id error s)

requested-Kept :
    (id : ℕ) (transport : String) (connection n : ℕ) (s : Listener)
    → IsOnce id s
    → Kept id s (on_connection_hello_read transport connection (requested_connection n) s)
unfolding on_connection_hello_read
requested-Kept id transport connection n s i =
    elim (Bool-cases (contains n s.connection_request_registrations)) [
      | inr c ↦ rw c (refl, refl)
      | inl c ↦ elim (Bool-cases (n == id)) [
        | inl q ↦
            let e : n ≡ id = (==_iff n id).0 q in
            rw c (
              ground (
                arith,
                held-erased id n s.connection_request_registrations e,
                contains-held id n s.connection_request_registrations e c,
                i.once,
              ),
              refl,
            )
        | inr q ↦
            let e : n ≢ id = λ x. ground arith in
            rw c (ground (arith, held-erase id n s.connection_request_registrations e), refl)
      ]
    ]

hello-Kept :
    (id : ℕ) (transport : String) (connection : ℕ) (packet : Packet) (s : Listener)
    → IsOnce id s
    → Kept id s (on_connection_hello_read transport connection packet s)
unfolding on_connection_hello_read
hello-Kept id transport connection (spontaneous_connection name) s i =
    with_accept_callback-Kept id (trigger (none, some s.pipe_counter) s.accept_callback) (record s {
      pipe_counter = s.pipe_counter + 1;
      calls = init_pipe s.pipe_counter name transport connection ∷ s.calls;
    })
hello-Kept id transport connection (requested_connection n) s i =
    requested-Kept id transport connection n s i

pub Kept-IsOnce : (id : ℕ) (s t : Listener) → Kept id s t → IsOnce id s → IsOnce id t
Kept-IsOnce id s t k i = record {
  once = omega (arith, k.0, i.once);
  fresh = λ h. k.0 ∙ i.fresh (omega (arith, k.1));
}

pub on_hello-Kept :
    (id : ℕ) (transport : String) (connection : ℕ) (packet : Packet) (error : Error) (s : Listener)
    → IsOnce id s
    → Kept id s (on_hello transport connection packet error s)
unfolding on_hello
on_hello-Kept id transport connection packet error s i =
    let k : Kept id s (set_error error s) = set_error-Kept id error s in
    let s' : Listener = record (set_error error s) {
      connections_waiting_for_hello =
          erase connection (set_error error s).connections_waiting_for_hello;
    } in
    elim (Bool-cases (is_error (set_error error s).error)) [
      | inl e ↦ rw e k
      | inr e ↦
          let k' : Kept id s' (on_connection_hello_read transport connection packet s') =
            hello-Kept id transport connection packet s' (Kept-IsOnce id s s' k i) in
          rw e (k'.0 ∙ k.0, k'.1 ∙ k.1)
    ]

-- Every number that was given out and not taken off is answered or held.
abbrev pub IsDue : ℕ → Listener → Type 0
IsDue id s = id < s.next_connection_request_registration_id → total id s ≡ 1

pub Kept-IsDue : (id : ℕ) (s t : Listener) → Kept id s t → IsDue id s → IsDue id t
Kept-IsDue id s t k d h = k.0 ∙ d (omega (arith, k.1))

pub register-IsOnce :
    (id : ℕ) (s : Listener) → IsOnce id s → IsOnce id (register_connection_request s).1
unfolding register_connection_request
register-IsOnce id s i = record {
  once = ground (arith, i.once, i.fresh);
  fresh = λ h. ground (arith, i.once, i.fresh);
}

pub register-IsDue :
    (id : ℕ) (s : Listener) → IsOnce id s → IsDue id s → IsDue id (register_connection_request s).1
unfolding register_connection_request
register-IsDue id s i d h = ground (arith, i.fresh, d)

held-erase_le : (id n : ℕ) (ns : List ℕ) → held id (erase n ns) ≤ held id ns
unfolding erase
held-erase_le id n [] = omega arith
held-erase_le id n (m ∷ ms) = ground (arith, held-erase_le id n ms)

pub unregister-IsOnce :
    (id n : ℕ) (s : Listener) → IsOnce id s → IsOnce id (unregister_connection_request n s)
unfolding unregister_connection_request
unregister-IsOnce id n s i = record {
  once = ground (arith, held-erase_le id n s.connection_request_registrations, i.once);
  fresh = λ h. ground (arith, held-erase_le id n s.connection_request_registrations, i.fresh);
}
