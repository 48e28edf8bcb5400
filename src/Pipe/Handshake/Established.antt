-- ===== src/Pipe/Handshake/Established.antt =====
-- core/pipe_impl.cc: a server's pipe is established when the last connection that it waits for has
-- come.
use Prim.Native.String.{String}
use text.Mathlib.Text.{◌==◌ as str_eq}
use tensorpipe.Prelude.{
  ℕ, ◌+◌, ◌≤◌, ◌≡◌, ◌↔◌, refl, sym, ◌∙◌, ap, true, false, not, ◌&&◌, Option, none, some, List, [],
  ◌∷◌, arith, inl, inr, Bool-cases, Option-cases, set, get_elem?, get_or, length,
}
use tensorpipe.StateMachine.Keeps.{advance_all_operations-keeps}
use tensorpipe.Pipe.Types.{
  Error, is_error, PipeState, is_established, Core, Pipe, ReadOperation, WriteOperation, ReadState,
  WriteState,
}
use tensorpipe.Pipe.Actions.{has_value}
use tensorpipe.Pipe.Advance.{read_machine, write_machine}
use tensorpipe.Pipe.Advance.WriteLaws.{advance_write_operation_step}
use tensorpipe.Pipe.Advance.ReadLaws.{advance_read_operation_step}
use tensorpipe.Pipe.Handlers.{advance_all_reads, advance_all_writes, become_established}
use tensorpipe.Pipe.Selection.{find_key}
use tensorpipe.Listener.{unregister_connection_request}
use tensorpipe.Pipe.Handshake.{
  in_core, is_waiting, Server, ConnectionId, connection_number, find_registration_id,
  erase_registration_id, erase_key, put_key, is_empty, pending_registrations, establish_if_complete,
  take_connection, on_connection, all_present, received_for, on_channel_connection, server_error,
  Arrival, connection_arrives, channel_connection_arrives, arrive, arrive_all,
}
use tensorpipe.Pipe.Handshake.Waiting.{
  missing_all, Aligned, missing-set, missing-all_present, missing-not_present,
  length-erase_registration_id, find_key-Aligned, put_key-Aligned, erase_key-Aligned,
  missing_all-put_key, erase_key-put_key, missing_all-erase_key,
}

-- What the messages have no hand in
abbrev pub handshake_side : Core → PipeState × Error × List (ℕ × ℕ) × List (String × List ℕ)
handshake_side s = (s.state, s.error, s.registration_ids, s.channel_registration_ids)

read-keeps :
    (op : ReadOperation) (p : ReadState) (s : Core)
    → handshake_side (read_machine.transit op p s).1 ≡ handshake_side s
read-keeps op p s =
    let st = advance_read_operation_step op p s in
    ground (arith, st.same_error, st.same_state, st.same_registrations)

write-keeps :
    (op : WriteOperation) (p : WriteState) (s : Core)
    → handshake_side (write_machine.transit op p s).1 ≡ handshake_side s
write-keeps op p s =
    let st = advance_write_operation_step op p s in
    ground (arith, st.same_error, st.same_state, st.same_registrations)

pub become_established-side :
    (p : Pipe)
    → handshake_side (become_established p).core ≡ (
      PipeState.established, p.core.error, p.core.registration_ids, p.core.channel_registration_ids,
    )
unfolding become_established advance_all_reads advance_all_writes
become_established-side p =
    advance_all_operations-keeps write_machine handshake_side write-keeps _ _
    ∙ advance_all_operations-keeps read_machine handshake_side read-keeps _ _

-- How many connections a server waits for
abbrev pub pending : Server → ℕ
pending h = length h.pipe.core.registration_ids + missing_all h.channel_received_connections

pub record IsWaiting (h : Server) : Type 0 where
  pub aligned : Aligned h.pipe.core.channel_registration_ids h.channel_received_connections
  pub phase : is_established h.pipe.core.state ≡ not (pending_registrations h.pipe.core)
  pub no_error : is_error h.pipe.core.error ≡ false

none_missing :
    (as' : List (String × List ℕ)) (bs : List (String × List (Option ℕ)))
    → Aligned as' bs
    → missing_all bs ≡ 0
    → is_empty as' ≡ true
none_missing [] bs a h = refl
none_missing (x ∷ xs) [] a h = ground arith
none_missing ((n, tokens) ∷ xs) ((m, cs) ∷ bs) a h = absurd (omega (arith, a.1))

some_missing :
    (as' : List (String × List ℕ)) (bs : List (String × List (Option ℕ)))
    → Aligned as' bs
    → 1 ≤ missing_all bs
    → is_empty as' ≡ false
some_missing [] [] a h = ground arith
some_missing [] (b ∷ bs) a h = sym a
some_missing (x ∷ xs) bs a h = refl

pub pending-none :
    (s : Core) (bs : List (String × List (Option ℕ)))
    → Aligned s.channel_registration_ids bs
    → length s.registration_ids + missing_all bs ≡ 0
    → pending_registrations s ≡ false
unfolding pending_registrations
pending-none s bs a h =
    let e = none_missing s.channel_registration_ids bs a (omega arith) in ground arith

pub pending-some :
    (s : Core) (bs : List (String × List (Option ℕ)))
    → Aligned s.channel_registration_ids bs
    → 1 ≤ length s.registration_ids + missing_all bs
    → pending_registrations s ≡ true
unfolding pending_registrations
pending-some s bs a h = ground (arith, some_missing s.channel_registration_ids bs a)

pub pending-same :
    (s t : Core)
    → t.registration_ids ≡ s.registration_ids
    → t.channel_registration_ids ≡ s.channel_registration_ids
    → pending_registrations t ≡ pending_registrations s
unfolding pending_registrations
pending-same s t e f = rw e (rw f refl)

pub establish_if_complete-IsWaiting :
    (h : Server)
    → Aligned h.pipe.core.channel_registration_ids h.channel_received_connections
    → is_established h.pipe.core.state ≡ false
    → is_error h.pipe.core.error ≡ false
    → IsWaiting (establish_if_complete h) × (pending (establish_if_complete h) ≡ pending h)
unfolding establish_if_complete
establish_if_complete-IsWaiting h a st e = elim (Bool-cases (pending_registrations h.pipe.core)) [
  | inl p ↦ rw p (record { aligned = a; phase = rw p st; no_error = e }, refl)
  | inr p ↦
      let side = become_established-side h.pipe in
      let kept : (become_established h.pipe).core.channel_registration_ids
          ≡ h.pipe.core.channel_registration_ids =
        ap (λ x. x.3) side in
      let left : (become_established h.pipe).core.registration_ids ≡ h.pipe.core.registration_ids =
        ap (λ x. x.2) side in
      rw p (
        record {
          aligned = rw kept a;
          phase = ap (λ x. is_established x.0) side ∙ sym (ap not (pending-same _ _ left kept ∙ p));
          no_error = ap (λ x. is_error x.1) side ∙ e;
        },
        rw left refl,
      )
]

find_key-has :
    (name : String) (h : Server)
    → Aligned h.pipe.core.channel_registration_ids h.channel_received_connections
    → has_value (find_key name h.channel_received_connections) ≡ true
    → has_value (find_key name h.pipe.core.channel_registration_ids) ≡ true
find_key-has name h a e = sym (find_key-Aligned name _ _ a) ∙ e

-- The connection is one that the server waits for.
abbrev pub IsExpected : Arrival → Server → Type 0
IsExpected (connection_arrives c transport connection) h =
    has_value (find_registration_id (connection_number c) h.pipe.core.registration_ids) ≡ true
IsExpected (channel_connection_arrives name i transport connection) h =
    get_elem? (received_for h name) i ≡ some none

taken-IsWaiting :
    (c : ConnectionId) (x : ℕ) (h : Server)
    → Aligned h.pipe.core.channel_registration_ids h.channel_received_connections
    → is_established h.pipe.core.state ≡ false
    → is_error h.pipe.core.error ≡ false
    → IsWaiting (establish_if_complete (take_connection c x h))
      × (pending (establish_if_complete (take_connection c x h)) ≡ pending h)
taken-IsWaiting ConnectionId.descriptor x h a st e =
    establish_if_complete-IsWaiting (record h { descriptor_connection = some x }) a st e
taken-IsWaiting ConnectionId.descriptor_reply x h a st e =
    establish_if_complete-IsWaiting (record h { descriptor_reply_connection = some x }) a st e

on_connection-IsWaiting :
    (c : ConnectionId) (transport : String) (connection : ℕ) (h : Server)
    → IsWaiting h
    → has_value (find_registration_id (connection_number c) h.pipe.core.registration_ids) ≡ true
    → IsWaiting (on_connection c transport connection h)
      × (pending (on_connection c transport connection h) + 1 ≡ pending h)
unfolding on_connection
on_connection-IsWaiting c transport connection h w e =
    let k = connection_number c in
    let shorter = length-erase_registration_id k h.pipe.core.registration_ids e in
    let st : is_established h.pipe.core.state ≡ false =
      w.phase ∙ ap not (pending-some _ _ w.aligned (omega arith)) in
    elim (Option-cases (find_registration_id k h.pipe.core.registration_ids)) [
      | inl f ↦ absurd (ground arith)
      | inr (token, f) ↦
          let h' : Server =
            in_core
              (λ (s : Core). record s {
                registration_ids = erase_registration_id k s.registration_ids;
              })
              (record h {
                listener = unregister_connection_request token h.listener;
                handshake_checked =
                    h.handshake_checked
                    && is_waiting h.pipe.core.state
                    && str_eq h.transport transport;
              }) in
          let x = taken-IsWaiting c connection h' w.aligned st w.no_error in
          rw (on_connection, f) (x.0, omega (arith, x.1, shorter))
    ]

received-some :
    (name : String) (i : ℕ) (h : Server)
    → get_elem? (received_for h name) i ≡ some none
    → find_key name h.channel_received_connections ≡ some (received_for h name)
received-some name i h e = elim (Option-cases (find_key name h.channel_received_connections)) [
  | inl f ↦ absurd (ground arith)
  | inr (cs, f) ↦ rw (received_for, f) refl
]

on_channel_connection-IsWaiting :
    (name : String) (i : ℕ) (transport : String) (connection : ℕ) (h : Server)
    → IsWaiting h
    → get_elem? (received_for h name) i ≡ some none
    → IsWaiting (on_channel_connection name i transport connection h)
      × (pending (on_channel_connection name i transport connection h) + 1 ≡ pending h)
unfolding on_channel_connection
on_channel_connection-IsWaiting name i transport connection h w e =
    let old : List (Option ℕ) = received_for h name in
    let cs : List (Option ℕ) = set old i (some connection) in
    let bs : List (String × List (Option ℕ)) = h.channel_received_connections in
    let fewer = missing-set old i connection e in
    let found = received-some name i h e in
    let put = missing_all-put_key name cs old bs found in
    let erased = missing_all-erase_key name old bs found in
    let same = erase_key-put_key name cs bs in
    let st : is_established h.pipe.core.state ≡ false =
      w.phase ∙ ap not (pending-some _ _ w.aligned (omega arith)) in
    elim (Option-cases (find_key name h.pipe.core.channel_registration_ids)) [
      | inl f ↦ absurd (ground (arith, find_key-has name h w.aligned (ap has_value found)))
      | inr (tokens, f) ↦ elim (Bool-cases (all_present cs)) [
        | inl p ↦
            let x =
              establish_if_complete-IsWaiting
                (in_core
                  (λ (s : Core). record s {
                    channel_registration_ids = erase_key name s.channel_registration_ids;
                  })
                  (record h {
                    listener = unregister_connection_request (get_or tokens i 0) h.listener;
                    channel_received_connections = erase_key name (put_key name cs bs);
                    channels = (name, cs) ∷ h.channels;
                    handshake_checked =
                        (h.handshake_checked
                          && is_waiting h.pipe.core.state
                          && str_eq h.transport transport)
                        && not (has_value (find_key name h.channels));
                  }))
                (rw same (erase_key-Aligned name _ bs w.aligned)) st w.no_error in
            rw (on_channel_connection, f, p)
              (x.0, omega (arith, x.1, ap missing_all same, missing-all_present cs p))
        | inr p ↦
            rw (on_channel_connection, f, p)
              (
                record {
                  aligned = put_key-Aligned name cs _ bs (missing-not_present cs p) w.aligned;
                  phase = w.phase;
                  no_error = w.no_error;
                },
                omega arith,
              )
      ]
    ]

server_error-none : (h : Server) → is_error h.pipe.core.error ≡ false → server_error none h ≡ h
unfolding server_error
server_error-none h e = rw e refl

arrive-IsWaiting :
    (a : Arrival) (h : Server)
    → IsWaiting h
    → IsExpected a h
    → IsWaiting (arrive none a h) × (pending (arrive none a h) + 1 ≡ pending h)
unfolding arrive
arrive-IsWaiting (connection_arrives c transport connection) h w e =
    let q = server_error-none h w.no_error in
    let f = w.no_error in rw q (rw f (on_connection-IsWaiting c transport connection h w e))
arrive-IsWaiting (channel_connection_arrives name i transport connection) h w e =
    let q = server_error-none h w.no_error in
    let f = w.no_error in
    rw q (rw f (on_channel_connection-IsWaiting name i transport connection h w e))

-- The connections that come are all ones that the server waits for at their turn.
abbrev pub AllExpected : List Arrival → Server → Type 0
AllExpected [] h = Unit
AllExpected (a ∷ as') h = IsExpected a h × AllExpected as' (arrive none a h)

established-state : (st : PipeState) → is_established st ≡ true → st ≡ PipeState.established
established-state st h = ground arith

pub arrive_all-IsWaiting :
    (as' : List Arrival) (h : Server)
    → IsWaiting h
    → AllExpected as' h
    → IsWaiting (arrive_all as' h) × (pending (arrive_all as' h) + length as' ≡ pending h)
unfolding arrive_all
arrive_all-IsWaiting [] h w x = (w, omega arith)
arrive_all-IsWaiting (a ∷ as') h w x =
    let (w', p) = arrive-IsWaiting a h w x.0 in
    let (w'', q) = arrive_all-IsWaiting as' (arrive none a h) w' x.1 in (w'', omega (arith, p, q))

pub IsWaiting-established :
    (h : Server) → IsWaiting h → (pending h ≡ 0) ↔ (h.pipe.core.state ≡ PipeState.established)
IsWaiting-established h w = (
  λ z. established-state _ (w.phase ∙ ap not (pending-none _ _ w.aligned z)),
  λ z. ground (
    arith,
    ap is_established z,
    w.phase,
    pending-some h.pipe.core h.channel_received_connections w.aligned,
  ),
)
