-- ===== src/Mpt.antt =====
-- The multiplexed-transport channel: channel/mpt/channel_impl.h, channel/mpt/channel_impl.cc, and
-- the entry points of channel/channel_impl_boilerplate.h. Each buffer is cut in chunks, one for each
-- lane. Pointers are numbers; a callback is known by the number of its operation.
pub mod Chunks
pub mod Handlers
pub mod Laws
pub mod Tests
use tensorpipe.Prelude.{
  ℕ, zero, suc, ◌+◌, ◌-◌, ◌*◌, ◌/◌, ◌%◌, Bool, true, false, not, ◌&&◌, ◌||◌, Option, none, some,
  List, [], ◌∷◌, map, length, leb, ◌==◌, if◌then◌else◌, get_or, set, replicate,
}
use tensorpipe.Prelude.Word.{u64_mod, add64, sub64}
use tensorpipe.StateMachine.{
  OpType, Machine, attempt_transition, find_operation, store, emplace_back, advance_operation,
  advance_all_operations,
}

-- `Error`: `none` is `Error::kSuccess`, and a number stands for a `BaseError`.
abbrev pub Error : Type 0
Error = Option ℕ

abbrev pub is_error : Error → Bool
is_error none = false
is_error (some e) = true

-- `SendOperation::State` and `RecvOperation::State`, which have the same values
pub data OperationState : Type 0 where
  uninitialized moving_chunks finished : OperationState

abbrev pub operation_number : OperationState → ℕ
operation_number OperationState.uninitialized = 0
operation_number OperationState.moving_chunks = 1
operation_number OperationState.finished = 2

-- `SendOperation`; the callback is known by the sequence number.
pub record SendOperation : Type 0 where
  pub sequence_number : ℕ
  pub state : OperationState
  pub num_chunks_being_written : ℕ
  pub ptr : ℕ
  pub length : ℕ

-- `RecvOperation`
pub record RecvOperation : Type 0 where
  pub sequence_number : ℕ
  pub state : OperationState
  pub num_chunks_being_read : ℕ
  pub ptr : ℕ
  pub length : ℕ

-- `ChannelImpl::State`
pub data ChannelState : Type 0 where
  uninitialized client_reading_hello server_accepting_lanes established : ChannelState

abbrev pub is_established : ChannelState → Bool
is_established ChannelState.established = true
is_established _ = false

-- What the channel asks of its connections and its context, and the callbacks that it invokes.
pub data Call : Type 0 where
  write_chunk : ℕ → ℕ → ℕ → ℕ → Call
  read_chunk : ℕ → ℕ → ℕ → ℕ → Call
  send_callback : ℕ → Error → Call
  recv_callback : ℕ → Error → Call
  read_server_hello : Call
  write_server_hello : List ℕ → Call
  register_connection_request : ℕ → Call
  unregister_connection_request : ℕ → Call
  connect_lane : ℕ → Call
  write_client_hello : ℕ → ℕ → Call
  close_connection : Call
  close_lane : ℕ → Call
  enroll unenroll : Call

-- The fields of `ChannelImpl` but its two deques. `lanes` tells which lanes are connected; `calls`
-- is the history, latest first; `checked` tells whether the TP_DCHECKs of the handshake have held,
-- but for those of the loop and of the kind of a packet.
pub record Core : Type 0 where
  pub state : ChannelState
  pub error : Error
  pub num_lanes : ℕ
  pub num_lanes_being_accepted : ℕ
  pub lanes : List Bool
  pub lane_registration_ids : List (ℕ × ℕ)
  pub next_tensor_being_sent : ℕ
  pub next_tensor_being_received : ℕ
  pub calls : List Call
  pub checked : Bool

pub record Channel : Type 0 where
  pub core : Core
  pub send_ops : List SendOperation
  pub recv_ops : List RecvOperation

abbrev pub call : Call → Core → Core
call c s = record s { calls = c ∷ s.calls }

-- `offsetStart` of a lane; `offsetEnd` is that of the next one.
unfoldable pub cutpoint : ℕ → ℕ → ℕ → ℕ
cutpoint length num_lanes lane_idx = (length * lane_idx) % u64_mod / num_lanes

-- The loop of `writeChunks` from a lane on, for so many lanes
unfoldable pub write_chunks_from : ℕ → ℕ → SendOperation × Core → SendOperation × Core
write_chunks_from zero lane_idx (op, s) = (op, s)
write_chunks_from (suc n) lane_idx (op, s) =
    let start = cutpoint op.length (length s.lanes) lane_idx in
    let end = cutpoint op.length (length s.lanes) (lane_idx + 1) in
    write_chunks_from n (lane_idx + 1) (
      record op { num_chunks_being_written = op.num_chunks_being_written + 1 },
      call (write_chunk op.sequence_number lane_idx (op.ptr + start) (end - start)) s,
    )

-- `writeChunks`
unfoldable pub write_chunks : SendOperation × Core → SendOperation × Core
write_chunks (op, s) = write_chunks_from (length s.lanes) 0 (op, s)

-- The loop of `readChunks` from a lane on, for so many lanes
unfoldable pub read_chunks_from : ℕ → ℕ → RecvOperation × Core → RecvOperation × Core
read_chunks_from zero lane_idx (op, s) = (op, s)
read_chunks_from (suc n) lane_idx (op, s) =
    let start = cutpoint op.length (length s.lanes) lane_idx in
    let end = cutpoint op.length (length s.lanes) (lane_idx + 1) in
    read_chunks_from n (lane_idx + 1) (
      record op { num_chunks_being_read = op.num_chunks_being_read + 1 },
      call (read_chunk op.sequence_number lane_idx (op.ptr + start) (end - start)) s,
    )

-- `readChunks`
unfoldable pub read_chunks : RecvOperation × Core → RecvOperation × Core
read_chunks (op, s) = read_chunks_from (length s.lanes) 0 (op, s)

-- `callSendCallback`
unfoldable pub call_send_callback : SendOperation × Core → SendOperation × Core
call_send_callback (op, s) = (op, call (send_callback op.sequence_number s.error) s)

-- `callRecvCallback`
unfoldable pub call_recv_callback : RecvOperation × Core → RecvOperation × Core
call_recv_callback (op, s) = (op, call (recv_callback op.sequence_number s.error) s)

abbrev pub send_type : OpType SendOperation OperationState
send_type = record {
  seq = λ op. op.sequence_number;
  state = λ op. op.state;
  set_state = λ op st. record op { state = st };
  number = operation_number;
  finished = OperationState.finished;
}

abbrev pub recv_type : OpType RecvOperation OperationState
recv_type = record {
  seq = λ op. op.sequence_number;
  state = λ op. op.state;
  set_state = λ op st. record op { state = st };
  number = operation_number;
  finished = OperationState.finished;
}

abbrev pub may_move : OperationState → Core → Bool
may_move prev s =
    not (is_error s.error)
    && (is_established s.state
        && leb (operation_number OperationState.moving_chunks) (operation_number prev))

-- `advanceSendOperation`
unfoldable pub advance_send_operation : SendOperation → OperationState → Core → SendOperation × Core
advance_send_operation op prev s =
    let skip =
      attempt_transition send_type OperationState.uninitialized OperationState.finished
        (λ op s. is_error s.error || op.length == 0) (call_send_callback ∷ []) in
    let start =
      attempt_transition send_type OperationState.uninitialized OperationState.moving_chunks
        (λ op s. may_move prev s) (write_chunks ∷ []) in
    let finish =
      attempt_transition send_type OperationState.moving_chunks OperationState.finished
        (λ op s. op.num_chunks_being_written == 0) (call_send_callback ∷ []) in
    finish (start (skip (op, s)))

-- `advanceRecvOperation`
unfoldable pub advance_recv_operation : RecvOperation → OperationState → Core → RecvOperation × Core
advance_recv_operation op prev s =
    let skip =
      attempt_transition recv_type OperationState.uninitialized OperationState.finished
        (λ op s. is_error s.error || op.length == 0) (call_recv_callback ∷ []) in
    let start =
      attempt_transition recv_type OperationState.uninitialized OperationState.moving_chunks
        (λ op s. may_move prev s) (read_chunks ∷ []) in
    let finish =
      attempt_transition recv_type OperationState.moving_chunks OperationState.finished
        (λ op s. op.num_chunks_being_read == 0) (call_recv_callback ∷ []) in
    finish (start (skip (op, s)))

-- `sendOps_`
abbrev pub send_machine : Machine Core SendOperation OperationState
send_machine = record { op_type = send_type; transit = advance_send_operation }

-- `recvOps_`
abbrev pub recv_machine : Machine Core RecvOperation OperationState
recv_machine = record { op_type = recv_type; transit = advance_recv_operation }

unfoldable pub advance_send : ℕ → Channel → Channel
advance_send n c =
    let (ops, s) = advance_operation send_machine c.send_ops n c.core in
    record c { core = s; send_ops = ops }

unfoldable pub advance_recv : ℕ → Channel → Channel
advance_recv n c =
    let (ops, s) = advance_operation recv_machine c.recv_ops n c.core in
    record c { core = s; recv_ops = ops }

-- `sendOps_.advanceAllOperations()` and `recvOps_.advanceAllOperations()`
unfoldable pub advance_all : Channel → Channel
advance_all c =
    let (sends, s) = advance_all_operations send_machine c.send_ops c.core in
    let (recvs, s') = advance_all_operations recv_machine c.recv_ops s in
    record { core = s'; send_ops = sends; recv_ops = recvs }

abbrev pub close_lanes : ℕ → List Bool → List Call → List Call
close_lanes i [] cs = cs
close_lanes i (true ∷ ls) cs = close_lanes (i + 1) ls (close_lane i ∷ cs)
close_lanes i (false ∷ ls) cs = close_lanes (i + 1) ls cs

abbrev pub unregister_all : List (ℕ × ℕ) → List Call → List Call
unregister_all [] cs = cs
unregister_all (r ∷ rs) cs = unregister_all rs (unregister_connection_request r.1 ∷ cs)

-- `handleErrorImpl`
unfoldable pub handle_error_impl : Channel → Channel
handle_error_impl c =
    let flushed = advance_all c in
    let s = flushed.core in
    record flushed {
      core = record s {
        calls =
            unenroll
            ∷ unregister_all s.lane_registration_ids
                (close_lanes 0 s.lanes (close_connection ∷ s.calls));
      };
    }

-- `setError`
unfoldable pub set_error : Error → Channel → Channel
set_error e c =
    if is_error c.core.error || not (is_error e)
    then c
    else handle_error_impl (record c { core = record (c.core) { error = e } })

-- `ChannelClosedError`, as a number
abbrev pub channel_closed_error : ℕ
channel_closed_error = 0

-- `closeFromLoop`
unfoldable pub close_from_loop : Channel → Channel
close_from_loop c = set_error (some channel_closed_error) c

-- `sendFromLoop`, then `sendImplFromLoop`
unfoldable pub send_from_loop : ℕ → ℕ → Channel → Channel
send_from_loop ptr len c =
    let n = c.core.next_tensor_being_sent in
    let counted = record (c.core) { next_tensor_being_sent = n + 1 } in
    if is_error c.core.error
    then record c { core = call (send_callback n c.core.error) counted }
    else advance_send n (record c {
      core = counted;
      send_ops = emplace_back c.send_ops (record {
        sequence_number = n;
        state = OperationState.uninitialized;
        num_chunks_being_written = 0;
        ptr = ptr;
        length = len;
      });
    })

-- `recvFromLoop`, then `recvImplFromLoop`
unfoldable pub recv_from_loop : ℕ → ℕ → Channel → Channel
recv_from_loop ptr len c =
    let n = c.core.next_tensor_being_received in
    let counted = record (c.core) { next_tensor_being_received = n + 1 } in
    if is_error c.core.error
    then record c { core = call (recv_callback n c.core.error) counted }
    else advance_recv n (record c {
      core = counted;
      recv_ops = emplace_back c.recv_ops (record {
        sequence_number = n;
        state = OperationState.uninitialized;
        num_chunks_being_read = 0;
        ptr = ptr;
        length = len;
      });
    })
