-- ===== src/Mpt/Handlers.antt =====
-- channel/mpt/channel_impl.cc: the handshake of the lanes, and the completions of their reads and
-- writes.
use tensorpipe.Prelude.{
  ℕ, ◌+◌, Bool, true, false, not, ◌&&◌, Option, none, some, List, [], ◌∷◌, length, ltb, ◌==◌,
  if◌then◌else◌, get_or, set, replicate,
}
use tensorpipe.Prelude.Word.{sub64}
use tensorpipe.StateMachine.{find_operation, store}
use tensorpipe.Mpt.{
  Error, is_error, SendOperation, RecvOperation, ChannelState, read_server_hello,
  write_server_hello, register_connection_request, unregister_connection_request, connect_lane,
  write_client_hello, enroll, Core, Channel, call, send_machine, recv_machine, advance_send,
  advance_recv, advance_all, set_error,
}

-- A channel as its constructor leaves it
unfoldable pub new_channel : ℕ → Channel
new_channel num_lanes = record {
  core = record {
    state = ChannelState.uninitialized;
    error = none;
    num_lanes = num_lanes;
    num_lanes_being_accepted = 0;
    lanes = replicate num_lanes false;
    lane_registration_ids = [];
    next_tensor_being_sent = 0;
    next_tensor_being_received = 0;
    calls = [];
    checked = true;
  };
  send_ops = [];
  recv_ops = [];
}

-- The loop of `initImplFromLoop` on the listening side: the tokens are those that the context's
-- `registerConnectionRequest` returns.
unfoldable pub register_lanes : ℕ → List ℕ → Core → Core
register_lanes lane_idx [] s = s
register_lanes lane_idx (token ∷ tokens) s = register_lanes (lane_idx + 1) tokens (record s {
  lane_registration_ids = (lane_idx, token) ∷ s.lane_registration_ids;
  num_lanes_being_accepted = s.num_lanes_being_accepted + 1;
  calls = register_connection_request lane_idx ∷ s.calls;
})

abbrev pub is_uninitialized : ChannelState → Bool
is_uninitialized ChannelState.uninitialized = true
is_uninitialized _ = false

abbrev pub is_reading_hello : ChannelState → Bool
is_reading_hello ChannelState.client_reading_hello = true
is_reading_hello _ = false

abbrev pub is_accepting_lanes : ChannelState → Bool
is_accepting_lanes ChannelState.server_accepting_lanes = true
is_accepting_lanes _ = false

-- `initImplFromLoop` on the connecting side
unfoldable pub init_client : Channel → Channel
init_client c = record c {
  core = record (c.core) {
    checked = c.core.checked && is_uninitialized c.core.state;
    state = ChannelState.client_reading_hello;
    calls = read_server_hello ∷ enroll ∷ c.core.calls;
  };
}

-- `initImplFromLoop` on the listening side
unfoldable pub init_server : List ℕ → Channel → Channel
init_server tokens c =
    let s = register_lanes 0 tokens (record (c.core) {
      checked =
          c.core.checked && (is_uninitialized c.core.state && length tokens == c.core.num_lanes);
      state = ChannelState.server_accepting_lanes;
      calls = enroll ∷ c.core.calls;
    }) in
    record c { core = call (write_server_hello tokens) s }

-- The loop of `onClientReadHelloOnConnection`, by the registration ids of the advertisements
unfoldable pub connect_lanes : ℕ → List ℕ → Core → Core
connect_lanes lane_idx [] s = s
connect_lanes lane_idx (registration ∷ rest) s = connect_lanes (lane_idx + 1) rest (record s {
  lanes = set s.lanes lane_idx true;
  calls = write_client_hello lane_idx registration ∷ connect_lane lane_idx ∷ s.calls;
})

-- `onClientReadHelloOnConnection`
unfoldable pub on_client_read_hello : List ℕ → Channel → Channel
on_client_read_hello registrations c =
    let s = connect_lanes 0 registrations (record (c.core) {
      checked =
          c.core.checked
          && (is_reading_hello c.core.state && length registrations == c.core.num_lanes);
    }) in
    advance_all (record c { core = record s { state = ChannelState.established } })

-- `laneRegistrationIds_.find`
unfoldable pub find_registration : ℕ → List (ℕ × ℕ) → Option ℕ
find_registration lane [] = none
find_registration lane ((l, token) ∷ rest) =
    let later = find_registration lane rest in if l == lane then some token else later

-- `laneRegistrationIds_.erase`
unfoldable pub erase_registration : ℕ → List (ℕ × ℕ) → List (ℕ × ℕ)
erase_registration lane [] = []
erase_registration lane ((l, token) ∷ rest) =
    let later = erase_registration lane rest in if l == lane then later else (l, token) ∷ later

abbrev pub unregister_lane : Option ℕ → Core → Core
unregister_lane none s = record s { checked = false }
unregister_lane (some token) s = call (unregister_connection_request token) s

-- `onServerAcceptOfLane`
unfoldable pub on_server_accept_of_lane : ℕ → Channel → Channel
on_server_accept_of_lane lane_idx c =
    let s = c.core in
    let accepted = record s {
      checked =
          s.checked
          && (is_accepting_lanes s.state
              && (not (get_or s.lanes lane_idx true) && ltb lane_idx (length s.lanes)));
      lanes = set s.lanes lane_idx true;
    } in
    let unregistered =
      unregister_lane (find_registration lane_idx s.lane_registration_ids) accepted in
    let left = sub64 s.num_lanes_being_accepted 1 in
    let done = record unregistered {
      lane_registration_ids = erase_registration lane_idx s.lane_registration_ids;
      num_lanes_being_accepted = left;
    } in
    if left == 0
    then advance_all (record c { core = record done { state = ChannelState.established } })
    else record c { core = done }

-- The completion of a read or a write of the handshake: `callbackWrapper_` sets the error, and the
-- handler runs where there is none.
unfoldable pub on_handshake : Error → (Channel → Channel) → Channel → Channel
on_handshake e handler c =
    let failed = set_error e c in if is_error failed.core.error then failed else handler failed

unfoldable pub update_send :
    (SendOperation → SendOperation) → ℕ → List SendOperation → List SendOperation
update_send change n ops = elim (find_operation send_machine ops n) [
  | none ↦ ops
  | some op ↦ store send_machine ops (change op)
]

unfoldable pub update_recv :
    (RecvOperation → RecvOperation) → ℕ → List RecvOperation → List RecvOperation
update_recv change n ops = elim (find_operation recv_machine ops n) [
  | none ↦ ops
  | some op ↦ store recv_machine ops (change op)
]

-- The completion of one write of `writeChunks`
unfoldable pub on_chunk_written : ℕ → Error → Channel → Channel
on_chunk_written n e c =
    let q = set_error e c in
    advance_send n (record q {
      send_ops =
          update_send
            (λ op. record op { num_chunks_being_written = sub64 op.num_chunks_being_written 1 }) n
            q.send_ops;
    })

-- The completion of one read of `readChunks`
unfoldable pub on_chunk_read : ℕ → Error → Channel → Channel
on_chunk_read n e c =
    let q = set_error e c in
    advance_recv n (record q {
      recv_ops =
          update_recv (λ op. record op { num_chunks_being_read = sub64 op.num_chunks_being_read 1 })
            n q.recv_ops;
    })
