-- ===== src/Pipe/Handshake.antt =====
-- core/pipe_impl.cc and core/nop_types.h: the handshake of a pipe that a listener has opened. The
-- pipe and the listener live in the same loop; the completions of the pipe pass through a
-- `CallbackWrapper`. Connections and channels are known by numbers and names; the brochure's maps
-- are association lists.
pub mod Waiting
pub mod Established
pub mod Answer
pub mod Client
pub mod Announced
mod Tests
use Prim.Native.String.{String}
use text.Mathlib.Text.{◌==◌ as str_eq}
use tensorpipe.Prelude.{
  ℕ, zero, suc, ◌+◌, Bool, true, false, not, ◌&&◌, ◌||◌, Option, none, some, List, [], ◌∷◌, ◌==◌,
  if◌then◌else◌, set, get_or, replicate, map, ◌++◌,
}
use tensorpipe.Pipe.Types.{Device, Error, is_error, PipeState, Core, Pipe}
use tensorpipe.Pipe.Actions.{has_value}
use tensorpipe.Pipe.Handlers.{set_error, become_established}
use tensorpipe.Pipe.Selection.{
  find_key, TransportContext, SelectedTransport, ChannelContext, select_transport, select_channels,
}
use tensorpipe.Listener.{Listener, register_connection_request, unregister_connection_request}

pub record Brochure : Type 0 where
  pub transport_domain_descriptors : List (String × String)
  pub channel_device_descriptors : List (String × List (Device × String))

pub record BrochureAnswer : Type 0 where
  pub transport : String
  pub address : String
  pub transport_registration_ids : List (ℕ × ℕ)
  pub transport_domain_descriptor : String
  pub channel_registration_ids : List (String × List ℕ)
  pub channel_device_descriptors : List (String × List (Device × String))
  pub channel_for_device_pair : List ((Device × Device) × String)

-- What the pipe asks of its context: the transports and channels by priority, and how many
-- connections a channel needs; and the addresses of the listener.
pub record Contexts : Type 0 where
  pub ordered_transports : List TransportContext
  pub ordered_channels : List ChannelContext
  pub num_connections_needed : String → ℕ
  pub addresses : List (String × String)

-- `handshake_checked` tells whether the TP_DCHECKs of the handlers of the handshake have held, but for
-- those of the loop.
pub record Server : Type 0 where
  pub pipe : Pipe
  pub listener : Listener
  pub transport : String
  pub descriptor_connection : Option ℕ
  pub descriptor_reply_connection : Option ℕ
  pub channel_received_connections : List (String × List (Option ℕ))
  pub channels : List (String × List (Option ℕ))
  pub answer : Option BrochureAnswer
  pub handshake_checked : Bool

abbrev pub is_waiting_for_brochure : PipeState → Bool
is_waiting_for_brochure PipeState.server_waiting_for_brochure = true
is_waiting_for_brochure _ = false

abbrev pub is_waiting : PipeState → Bool
is_waiting PipeState.server_waiting_for_connections = true
is_waiting _ = false

-- `ConnectionId`
pub data ConnectionId : Type 0 where
  descriptor descriptor_reply : ConnectionId

abbrev pub connection_number : ConnectionId → ℕ
connection_number ConnectionId.descriptor = 0
connection_number ConnectionId.descriptor_reply = 1

-- `find` and `erase` on the map of the registrations
unfoldable pub find_registration_id : ℕ → List (ℕ × ℕ) → Option ℕ
find_registration_id k [] = none
find_registration_id k ((n, token) ∷ rest) =
    if n == k then some token else find_registration_id k rest

unfoldable pub erase_registration_id : ℕ → List (ℕ × ℕ) → List (ℕ × ℕ)
erase_registration_id k [] = []
erase_registration_id k ((n, token) ∷ rest) =
    let ns = erase_registration_id k rest in if n == k then rest else (n, token) ∷ ns

-- `erase`, and a write to the value, on a map whose keys are strings
unfoldable pub erase_key {ℓ} : {A : Type ℓ} → String → List (String × A) → List (String × A)
erase_key k [] = []
erase_key k ((name, a) ∷ rest) =
    let kept = erase_key k rest in if str_eq name k then rest else (name, a) ∷ kept

unfoldable pub put_key {ℓ} : {A : Type ℓ} → String → A → List (String × A) → List (String × A)
put_key k x [] = []
put_key k x ((name, a) ∷ rest) =
    let put = put_key k x rest in if str_eq name k then (name, x) ∷ rest else (name, a) ∷ put

abbrev pub is_empty {ℓ} : {A : Type ℓ} → List A → Bool
is_empty [] = true
is_empty (x ∷ xs) = false

-- `pendingRegistrations`
unfoldable pub pending_registrations : Core → Bool
pending_registrations s =
    if not (is_empty s.registration_ids) then true else not (is_empty s.channel_registration_ids)

abbrev pub in_core : (Core → Core) → Server → Server
in_core f h = record h { pipe = record (h.pipe) { core = f h.pipe.core } }

-- `registerTransport`
unfoldable pub register_transport : ConnectionId → Server → ℕ × Server
register_transport c h =
    let k = connection_number c in
    let (token, listener) = register_connection_request h.listener in
    (
      token,
      in_core (λ (s : Core). record s { registration_ids = (k, token) ∷ s.registration_ids })
          (record h {
            listener = listener;
            handshake_checked =
                h.handshake_checked
                && not (has_value (find_registration_id k h.pipe.core.registration_ids));
          }),
    )

-- The loop of `registerChannel`
unfoldable pub register_connections : ℕ → Listener → List ℕ × Listener
register_connections zero l = ([], l)
register_connections (suc n) l =
    let (token, l') = register_connection_request l in
    let (tokens, l'') = register_connections n l' in (token ∷ tokens, l'')

-- `registerChannel`
unfoldable pub register_channel : Contexts → String → Server → List ℕ × Server
register_channel ctx name h =
    let n = ctx.num_connections_needed name in
    let (tokens, listener) = register_connections n h.listener in
    (
      tokens,
      in_core
          (λ (s : Core). record s {
            channel_registration_ids = (name, tokens) ∷ s.channel_registration_ids;
          })
          (record h {
            listener = listener;
            channel_received_connections =
                (name, replicate n none) ∷ h.channel_received_connections;
          }),
    )

-- The loop over the channels selected, with the registrations for the answer
unfoldable pub register_channels :
    Contexts → List (String × List (Device × String)) → Server → List (String × List ℕ) × Server
register_channels ctx [] h = ([], h)
register_channels ctx ((name, descriptors) ∷ rest) h =
    let (tokens, h') = register_channel ctx name h in
    let (ids, h'') = register_channels ctx rest h' in ((name, tokens) ∷ ids, h'')

-- The end of the handlers of a connection that has come
unfoldable pub establish_if_complete : Server → Server
establish_if_complete h =
    if pending_registrations h.pipe.core then h else record h { pipe = become_established h.pipe }

-- The registrations of the connections of the pipe itself, for the answer
unfoldable pub register_transports : Bool → Server → List (ℕ × ℕ) × Server
register_transports replaced h =
    if replaced
    then (let (token, h') = register_transport ConnectionId.descriptor h in
        let (token', h'') = register_transport ConnectionId.descriptor_reply h' in
        ((0, token) ∷ (1, token') ∷ [], h''))
    else (let (token, h') = register_transport ConnectionId.descriptor_reply h in
        ((1, token) ∷ [], h'))

-- The end of `onReadWhileServerWaitingForBrochure`
unfoldable pub conclude_brochure : Server → Server
conclude_brochure h =
    if pending_registrations h.pipe.core
    then in_core (λ (s : Core). record s { state = PipeState.server_waiting_for_connections }) h
    else record h { pipe = become_established h.pipe }

-- `onReadWhileServerWaitingForBrochure`, with the transport selected
unfoldable pub answer_brochure : Contexts → Brochure → SelectedTransport → Server → Server
answer_brochure ctx brochure t h =
    let replaced = not (str_eq t.name h.transport) in
    let (ids, h1) = register_transports replaced (record h { transport = t.name }) in
    let selected = select_channels ctx.ordered_channels brochure.channel_device_descriptors in
    let h2 =
      in_core
        (λ (s : Core). record s { channel_for_device_pair = selected.channel_for_device_pair })
        h1 in
    let (channel_ids, h3) = register_channels ctx selected.descriptors_map h2 in
    conclude_brochure (record h3 {
      answer = some (record {
        transport = t.name;
        address = t.address;
        transport_registration_ids = ids;
        transport_domain_descriptor = t.domain_descriptor;
        channel_registration_ids = channel_ids;
        channel_device_descriptors = selected.descriptors_map;
        channel_for_device_pair = selected.channel_for_device_pair;
      });
    })

-- The whole of it; `none` where no transport is found, and it throws
unfoldable pub on_brochure : Contexts → Brochure → Server → Option Server
on_brochure ctx brochure h =
    elim (select_transport ctx.ordered_transports brochure.transport_domain_descriptors
      ctx.addresses) [
        | none ↦ none
        | some t ↦ some (
            answer_brochure ctx brochure t (record h {
              handshake_checked = h.handshake_checked && is_waiting_for_brochure h.pipe.core.state;
            }))
      ]

abbrev pub take_connection : ConnectionId → ℕ → Server → Server
take_connection ConnectionId.descriptor c h = record h { descriptor_connection = some c }
take_connection ConnectionId.descriptor_reply c h = record h {
  descriptor_reply_connection = some c;
}

-- `onAcceptWhileServerWaitingForConnection`
unfoldable pub on_connection : ConnectionId → String → ℕ → Server → Server
on_connection c transport connection h =
    let k = connection_number c in
    elim (find_registration_id k h.pipe.core.registration_ids) [
      | none ↦ record h { handshake_checked = false }
      | some token ↦ establish_if_complete (
          take_connection c connection (
            in_core
              (λ (s : Core). record s {
                registration_ids = erase_registration_id k s.registration_ids;
              })
              (record h {
                listener = unregister_connection_request token h.listener;
                handshake_checked =
                    h.handshake_checked
                    && is_waiting h.pipe.core.state
                    && str_eq h.transport transport;
              })))
    ]

abbrev pub all_present : List (Option ℕ) → Bool
all_present [] = true
all_present (c ∷ cs) = has_value c && all_present cs

abbrev pub received_for : Server → String → List (Option ℕ)
received_for h name = elim (find_key name h.channel_received_connections) [
  | none ↦ []
  | some cs ↦ cs
]

-- `onAcceptWhileServerWaitingForChannel`, with the channel's `i`-th connection
unfoldable pub on_channel_connection : String → ℕ → String → ℕ → Server → Server
on_channel_connection name i transport connection h =
    elim (find_key name h.pipe.core.channel_registration_ids) [
      | none ↦ record h { handshake_checked = false }
      | some tokens ↦
          let cs = set (received_for h name) i (some connection) in
          let taken = record h {
            listener = unregister_connection_request (get_or tokens i 0) h.listener;
            channel_received_connections = put_key name cs h.channel_received_connections;
            handshake_checked =
                h.handshake_checked && is_waiting h.pipe.core.state && str_eq h.transport transport;
          } in
          if all_present cs
          then establish_if_complete (
              in_core
                (λ (s : Core). record s {
                  channel_registration_ids = erase_key name s.channel_registration_ids;
                })
                (record taken {
                  channel_received_connections = erase_key name taken.channel_received_connections;
                  channels = (name, cs) ∷ taken.channels;
                  handshake_checked =
                      taken.handshake_checked && not (has_value (find_key name taken.channels));
                }))
          else taken
    ]

-- What unregisters the registrations of a pipe that fails, in `handleError`
unfoldable pub unregister_all_requests : List ℕ → Listener → Listener
unregister_all_requests [] l = l
unregister_all_requests (t ∷ ts) l = unregister_all_requests ts (unregister_connection_request t l)

abbrev pub tokens_of : List (String × List ℕ) → List ℕ → List ℕ
tokens_of [] ts = ts
tokens_of ((name, us) ∷ rest) ts = us ++ tokens_of rest ts

-- A completion sets its error first
unfoldable pub server_error : Error → Server → Server
server_error e h = if is_error h.pipe.core.error || not (is_error e) then h else record h {
  pipe = set_error e h.pipe;
  listener =
      unregister_all_requests
        (map (λ (r : ℕ × ℕ). r.1) h.pipe.core.registration_ids
          ++ tokens_of h.pipe.core.channel_registration_ids [])
        h.listener;
}

-- The completions of the reading of the brochure and of the requests of connections
pub data Arrival : Type 0 where
  connection_arrives : ConnectionId → String → ℕ → Arrival
  channel_connection_arrives : String → ℕ → String → ℕ → Arrival

unfoldable pub arrive : Error → Arrival → Server → Server
arrive e (connection_arrives c transport connection) h =
    let h' = server_error e h in
    if is_error h'.pipe.core.error then h' else on_connection c transport connection h'
arrive e (channel_connection_arrives name i transport connection) h =
    let h' = server_error e h in
    if is_error h'.pipe.core.error then h' else on_channel_connection name i transport connection h'

unfoldable pub arrive_all : List Arrival → Server → Server
arrive_all [] h = h
arrive_all (a ∷ as') h = arrive_all as' (arrive none a h)
