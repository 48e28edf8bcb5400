-- ===== src/Pipe/Handshake/Client.antt =====
-- core/pipe_impl.cc: the handshake of a pipe that the user has connected.
use Prim.Native.String.{String}
use text.Mathlib.Text.{◌==◌ as str_eq}
use tensorpipe.Prelude.{
  ℕ, zero, suc, ◌+◌, Bool, true, false, ◌&&◌, Option, none, some, List, [], ◌∷◌, ◌++◌, ◌==◌,
  if◌then◌else◌, length,
}
use tensorpipe.Pipe.Types.{Device, PipeState, Pipe}
use tensorpipe.Pipe.Actions.{find_channel}
use tensorpipe.Pipe.Handlers.{become_established, pipe_closed_error}
use tensorpipe.Pipe.Selection.{find_key, TransportContext, select_channels}
use tensorpipe.Pipe.Selection.Peers.{describe_channels}
use tensorpipe.Pipe.Handshake.{Brochure, BrochureAnswer, Contexts, find_registration_id}

-- What the client writes in the handshake; a requested connection with the number of the connection
-- that it is written on.
pub data ClientMessage : Type 0 where
  spontaneous : String → ClientMessage
  sends_brochure : Brochure → ClientMessage
  requested : ℕ → ℕ → ClientMessage

-- `connections` counts those that the pipe has opened, and numbers them. `written` is the history,
-- oldest first. `client_checked` tells whether the TP_DCHECKs of the handler have held, but for those
-- of the loop and of the registrations for the pipe, without which it has no result.
pub record Client : Type 0 where
  pub pipe : Pipe
  pub transport : String
  pub descriptor_connection : ℕ
  pub descriptor_reply_connection : Option ℕ
  pub channels : List (String × List ℕ)
  pub connections : ℕ
  pub written : List ClientMessage
  pub client_checked : Bool

-- The brochure that `initFromLoop` writes
unfoldable pub describe_transports : List TransportContext → List (String × String)
describe_transports [] = []
describe_transports (t ∷ ts) = (t.name, t.domain_descriptor) ∷ describe_transports ts

-- `initFromLoop` of a pipe that is about to send its brochure, told whether the context is closed,
-- and its name
unfoldable pub start_client : Bool → String → Contexts → Client → Client
start_client context_closed name ctx c =
    if context_closed
    then record c {
      pipe = record (c.pipe) { core = record (c.pipe.core) { error = some pipe_closed_error } };
    }
    else record c {
      pipe = record (c.pipe) {
        core = record (c.pipe.core) { state = PipeState.client_waiting_for_brochure_answer };
      };
      written =
          c.written
          ++ spontaneous name
            ∷ sends_brochure (record {
              transport_domain_descriptors = describe_transports ctx.ordered_transports;
              channel_device_descriptors = describe_channels ctx.ordered_channels;
            })
            ∷ [];
    }

-- `connect`, and `initConnection` with a token
unfoldable pub open_connection : ℕ → Client → ℕ × Client
open_connection token c = (
  c.connections,
  record c {
    connections = c.connections + 1;
    written = c.written ++ requested c.connections token ∷ [];
  },
)

-- The loop over the connections that a channel needs, with the registrations from the loop's index
-- on; `none` where they end before, and the code reads past the end of the vector
unfoldable pub open_connections : ℕ → List ℕ → Client → Option (List ℕ × Client)
open_connections zero tokens c = some ([], c)
open_connections (suc n) [] c = none
open_connections (suc n) (token ∷ tokens) c =
    let (k, c') = open_connection token c in
    elim (open_connections n tokens c') [ none ↦ none | some (ks, c'') ↦ some (k ∷ ks, c'') ]

-- The loop over the channels selected; `none` where a channel has no registrations, and `at` throws,
-- or too few
unfoldable pub open_channels :
    Contexts
    → List (String × List ℕ)
    → List (String × List (Device × String))
    → Client
    → Option Client
open_channels ctx ids [] c = some c
open_channels ctx ids ((name, descriptors) ∷ rest) c = elim (find_key name ids) [
  | none ↦ none
  | some tokens ↦ elim (open_connections (ctx.num_connections_needed name) tokens c) [
    | none ↦ none
    | some (ns, c') ↦ open_channels ctx ids rest (record c' {
      channels = (name, ns) ∷ c'.channels;
      client_checked = c'.client_checked && ctx.num_connections_needed name == length tokens;
    })
  ]
]

-- The loop that verifies the channels of the answer: whether no assertion throws
unfoldable pub is_consistent :
    List ((Device × Device) × String) → List ((Device × Device) × String) → Bool
is_consistent answered [] = true
is_consistent answered (((local, remote), name) ∷ rest) =
    let others = is_consistent answered rest in
    elim (find_channel remote local answered) [ none ↦ false | some n ↦ str_eq n name && others ]

unfoldable pub find_transport : String → List TransportContext → Option TransportContext
find_transport name [] = none
find_transport name (t ∷ ts) = if str_eq t.name name then some t else find_transport name ts

-- The replacement of the connection for the descriptors; `none` where the answer has no registration
-- for it: a TP_DCHECK fails then, and without it the code reads at the end of the map
unfoldable pub replace_connection : BrochureAnswer → Client → Option Client
replace_connection answer c =
    if str_eq answer.transport c.transport
    then some c
    else elim (find_registration_id 0 answer.transport_registration_ids) [
      | none ↦ none
      | some token ↦
          let (n, c') = open_connection token c in
          some (record c' { transport = answer.transport; descriptor_connection = n })
    ]

-- The connection for the replies; `none` as above
unfoldable pub open_reply_connection : BrochureAnswer → Client → Option Client
open_reply_connection answer c = elim (find_registration_id 1 answer.transport_registration_ids) [
  | none ↦ none
  | some token ↦
      let (n, c') = open_connection token c in
      some (record c' { descriptor_reply_connection = some n })
]

-- The verification of the channels selected, and the opening of their connections
unfoldable pub take_channels : Contexts → BrochureAnswer → Client → Option Client
take_channels ctx answer c =
    let selected = select_channels ctx.ordered_channels answer.channel_device_descriptors in
    let pairs = selected.channel_for_device_pair in
    if length answer.channel_for_device_pair == length pairs
      && is_consistent answer.channel_for_device_pair pairs
    then open_channels ctx answer.channel_registration_ids selected.descriptors_map (record c {
      pipe = record (c.pipe) { core = record (c.pipe.core) { channel_for_device_pair = pairs } };
    })
    else none

-- `onReadWhileClientWaitingForBrochureAnswer` with the channels selected, up to its end
unfoldable pub take_answer : Contexts → BrochureAnswer → Client → Option Client
take_answer ctx answer c = elim (replace_connection answer c) [
  | none ↦ none
  | some c' ↦ elim (open_reply_connection answer c') [
    | none ↦ none
    | some c'' ↦ take_channels ctx answer c''
  ]
]

abbrev pub is_waiting_for_answer : PipeState → Bool
is_waiting_for_answer PipeState.client_waiting_for_brochure_answer = true
is_waiting_for_answer _ = false

-- The whole of it; `none` where it throws, or reads what is not there
unfoldable pub on_brochure_answer : Contexts → BrochureAnswer → Client → Option Client
on_brochure_answer ctx answer c = elim (find_transport answer.transport ctx.ordered_transports) [
  | none ↦ none
  | some t ↦ elim (take_answer ctx answer c) [
    | none ↦ none
    | some c' ↦ some (record c' {
      pipe = become_established c'.pipe;
      client_checked =
          c'.client_checked
          && is_waiting_for_answer c.pipe.core.state
          && t.can_communicate_with_remote answer.transport_domain_descriptor;
    })
  ]
]
