-- ===== src/Pipe/Handshake/Answer.antt =====
-- core/pipe_impl.cc: what a server waits for after it has read the brochure.
use Prim.Native.String.{String}
use text.Mathlib.Text.{◌==◌ as str_eq}
use tensorpipe.Prelude.{
  ◌≤◌, ◌≡◌, ◌↔◌, refl, sym, ◌∙◌, ap, subst, Bool, true, false, not, ◌&&◌, Option, none, some, List,
  [], ◌∷◌, arith, inl, inr, Bool-cases, Option-cases, length,
}
use tensorpipe.Pipe.Types.{Device, is_error, PipeState, is_established, Core}
use tensorpipe.Pipe.Selection.{SelectedTransport, select_transport, select_channels}
use tensorpipe.Pipe.Handshake.{
  Brochure, Contexts, Server, in_core, establish_if_complete, ConnectionId, pending_registrations,
  register_transport, register_channel, register_channels, register_transports, on_brochure,
  is_waiting_for_brochure, answer_brochure, conclude_brochure, Arrival, arrive_all,
}
use tensorpipe.Pipe.Handshake.Waiting.{Aligned, missing-replicate}
use tensorpipe.Pipe.Handshake.Established.{
  establish_if_complete-IsWaiting, pending, IsWaiting, pending-same, AllExpected,
  arrive_all-IsWaiting, IsWaiting-established,
}

-- A server's pipe as its constructor and `initFromLoop` leave it
pub record IsFresh (h : Server) : Type 0 where
  pub waits_for_brochure : h.pipe.core.state ≡ PipeState.server_waiting_for_brochure
  pub no_error : is_error h.pipe.core.error ≡ false
  pub no_channels : h.pipe.core.channel_registration_ids ≡ []
  pub none_received : h.channel_received_connections ≡ []

-- What the registrations keep
record IsRegistering (h : Server) : Type 0 where
  aligned : Aligned h.pipe.core.channel_registration_ids h.channel_received_connections
  state : h.pipe.core.state ≡ PipeState.server_waiting_for_brochure
  no_error : is_error h.pipe.core.error ≡ false

register_transport-IsRegistering :
    (c : ConnectionId) (h : Server) → IsRegistering h → IsRegistering (register_transport c h).1
unfolding register_transport
register_transport-IsRegistering c h r = record {
  aligned = r.aligned;
  state = r.state;
  no_error = r.no_error;
}

register_transports-IsRegistering :
    (b : Bool) (h : Server) → IsRegistering h → IsRegistering (register_transports b h).1
unfolding register_transports
register_transports-IsRegistering true h r =
    register_transport-IsRegistering ConnectionId.descriptor_reply _
      (register_transport-IsRegistering ConnectionId.descriptor h r)
register_transports-IsRegistering false h r =
    register_transport-IsRegistering ConnectionId.descriptor_reply h r

register_channels-IsRegistering :
    (ctx : Contexts) (ds : List (String × List (Device × String))) (h : Server)
    → ((name : String) → 1 ≤ ctx.num_connections_needed name)
    → IsRegistering h
    → IsRegistering (register_channels ctx ds h).1
unfolding register_channels register_channel
register_channels-IsRegistering ctx [] h n r = r
register_channels-IsRegistering ctx ((name, descriptors) ∷ rest) h n r =
    register_channels-IsRegistering ctx rest (register_channel ctx name h).1 n (record {
      aligned = (
        refl,
        omega (arith, n name, missing-replicate (ctx.num_connections_needed name)),
        r.aligned,
      );
      state = r.state;
      no_error = r.no_error;
    })

conclude_brochure-IsWaiting : (h : Server) → IsRegistering h → IsWaiting (conclude_brochure h)
unfolding conclude_brochure establish_if_complete
conclude_brochure-IsWaiting h r = elim (Bool-cases (pending_registrations h.pipe.core)) [
  | inl p ↦ rw p (record {
    aligned = r.aligned;
    phase = ap not (sym p ∙ pending-same _ _ refl refl);
    no_error = r.no_error;
  })
  | inr p ↦
      let done =
        (establish_if_complete-IsWaiting h r.aligned (ap is_established r.state) r.no_error).0 in
      rw p (rw (establish_if_complete, p) at done)
]

answer_brochure-IsWaiting :
    (ctx : Contexts) (brochure : Brochure) (t : SelectedTransport) (h : Server)
    → IsFresh h
    → ((name : String) → 1 ≤ ctx.num_connections_needed name)
    → IsWaiting (answer_brochure ctx brochure t h)
unfolding answer_brochure
answer_brochure-IsWaiting ctx brochure t h f n =
    let replaced : Bool = not (str_eq t.name h.transport) in
    let fresh : Server = record h { transport = t.name } in
    let r0 : IsRegistering fresh = record {
      aligned = rw f.no_channels (rw f.none_received tt);
      state = f.waits_for_brochure;
      no_error = f.no_error;
    } in
    let r1 = register_transports-IsRegistering replaced fresh r0 in
    let h1 : Server = (register_transports replaced fresh).1 in
    let selected = select_channels ctx.ordered_channels brochure.channel_device_descriptors in
    let h2 : Server =
      in_core
        (λ (s : Core). record s { channel_for_device_pair = selected.channel_for_device_pair })
        h1 in
    let r2 : IsRegistering h2 = record {
      aligned = r1.aligned;
      state = r1.state;
      no_error = r1.no_error;
    } in
    let r3 = register_channels-IsRegistering ctx selected.descriptors_map h2 n r2 in
    conclude_brochure-IsWaiting _
      (record { aligned = r3.aligned; state = r3.state; no_error = r3.no_error })

abbrev or_server : Server → Option Server → Server
or_server h none = h
or_server h (some h') = h'

on_brochure-IsWaiting :
    (ctx : Contexts) (brochure : Brochure) (h h' : Server)
    → IsFresh h
    → ((name : String) → 1 ≤ ctx.num_connections_needed name)
    → on_brochure ctx brochure h ≡ some h'
    → IsWaiting h'
unfolding on_brochure
on_brochure-IsWaiting ctx brochure h h' f n e =
    elim (Option-cases (
      select_transport ctx.ordered_transports brochure.transport_domain_descriptors
        ctx.addresses)) [
          | inl q ↦ absurd (ground arith)
          | inr (t, q) ↦
              let g : Server = record h {
                handshake_checked =
                    h.handshake_checked && is_waiting_for_brochure h.pipe.core.state;
              } in
              let fresh : IsFresh g = record {
                waits_for_brochure = f.waits_for_brochure;
                no_error = f.no_error;
                no_channels = f.no_channels;
                none_received = f.none_received;
              } in
              let same : answer_brochure ctx brochure t g ≡ h' =
                ap (or_server h') (rw (on_brochure, q) at e) in
              subst IsWaiting same (answer_brochure-IsWaiting ctx brochure t g fresh n)
        ]

-- Where every channel needs a connection at least: after the brochure has been read, and however
-- many of the connections that the server then waits for have come, in any order and without an
-- error, its pipe is established just when as many have come as it waited for at first.
pub on_brochure-established :
    (ctx : Contexts) (brochure : Brochure) (h h' : Server) (arrivals : List Arrival)
    → IsFresh h
    → ((name : String) → 1 ≤ ctx.num_connections_needed name)
    → on_brochure ctx brochure h ≡ some h'
    → AllExpected arrivals h'
    → (length arrivals ≡ pending h')
      ↔ ((arrive_all arrivals h').pipe.core.state ≡ PipeState.established)
on_brochure-established ctx brochure h h' arrivals f n e x =
    let (w, p) =
      arrive_all-IsWaiting arrivals h' (on_brochure-IsWaiting ctx brochure h h' f n e) x in
    let done = IsWaiting-established (arrive_all arrivals h') w in
    (λ l. done.0 (omega arith), λ z. let q = done.1 z in omega arith)
