-- ===== src/Pipe/Handlers.antt =====
-- core/pipe_impl.cc: the entry points of user code, the completions of the calls that the actions
-- made, and the handling of errors. All of these run one at a time, in the context's loop. A
-- completion first passes through `CallbackWrapper`, which sets the error that it came with.
pub mod Sound
pub mod Callbacks
use Prim.Native.String.{String}
use tensorpipe.Prelude.{
  ℕ, ◌+◌, Bool, true, false, not, ◌&&◌, ◌||◌, Option, none, some, List, [], ◌∷◌, ◌++◌, map, length,
  ◌==◌, if◌then◌else◌,
}
use tensorpipe.Prelude.Word.{sub64}
use tensorpipe.StateMachine.{
  Machine, find_operation, store, emplace_back, advance_operation, advance_all_operations,
}
use tensorpipe.Pipe.Types.{
  Device, device_eq, Buffer, TensorMessage, Message, TensorDescriptor, Descriptor, Allocation,
  Error, is_error, ReadState, ReadOperation, WriteState, WriteOperation, TensorBeingSent, PipeState,
  Call, close_connections, unregister_connection_request, unenroll, awaiting_descriptor, Core, Pipe,
}
use tensorpipe.Pipe.Actions.{has_value, parse_descriptor_reply_of_message}
use tensorpipe.Pipe.Advance.{read_machine, write_machine}

-- `readOps_.advanceOperation(opIter)`
unfoldable pub advance_read : ℕ → Pipe → Pipe
advance_read n p =
    let (ops, s) = advance_operation read_machine p.read_ops n p.core in
    record p { core = s; read_ops = ops }

unfoldable pub advance_write : ℕ → Pipe → Pipe
advance_write n p =
    let (ops, s) = advance_operation write_machine p.write_ops n p.core in
    record p { core = s; write_ops = ops }

unfoldable pub advance_all_reads : Pipe → Pipe
advance_all_reads p =
    let (ops, s) = advance_all_operations read_machine p.read_ops p.core in
    record p { core = s; read_ops = ops }

unfoldable pub advance_all_writes : Pipe → Pipe
advance_all_writes p =
    let (ops, s) = advance_all_operations write_machine p.write_ops p.core in
    record p { core = s; write_ops = ops }

-- A write through an iterator to operation `n`. An iterator to an operation that is gone dangles.
unfoldable pub update_operation {κ μ} :
    {Op : Type κ} {State : Type μ} (m : Machine Core Op State) → (Op → Op) → ℕ → List Op → List Op
update_operation m change n ops = elim (find_operation m ops n) [
  | none ↦ ops
  | some op ↦ store m ops (change op)
]

abbrev pub unregister_all : List ℕ → List Call → List Call
unregister_all [] cs = cs
unregister_all (t ∷ ts) cs = unregister_all ts (unregister_connection_request t ∷ cs)

abbrev pub unregister_channels {ℓ} : {A : Type ℓ} → List (A × List ℕ) → List Call → List Call
unregister_channels [] cs = cs
unregister_channels ((name, ts) ∷ rest) cs = unregister_channels rest (unregister_all ts cs)

-- What `handleError` does before it flushes the operations.
unfoldable pub close_and_unregister : Core → Core
close_and_unregister s = record s {
  registration_ids = [];
  channel_registration_ids = [];
  calls =
      unregister_channels s.channel_registration_ids (
        unregister_all (map (λ (r : ℕ × ℕ). r.1) s.registration_ids) (close_connections ∷ s.calls));
}

-- `handleError`
unfoldable pub handle_error : Pipe → Pipe
handle_error p =
    let closed = record p { core = close_and_unregister p.core } in
    let flushed = advance_all_writes (advance_all_reads closed) in
    record flushed { core = record (flushed.core) { calls = unenroll ∷ flushed.core.calls } }

-- `setError`
unfoldable pub set_error : Error → Pipe → Pipe
set_error e p =
    if is_error p.core.error || not (is_error e)
    then p
    else handle_error (record p { core = record (p.core) { error = e } })

-- What the four handlers of the handshake do at their end, once nothing is pending.
unfoldable pub become_established : Pipe → Pipe
become_established p =
    advance_all_writes
      (advance_all_reads (record p { core = record (p.core) { state = PipeState.established } }))

abbrev pub new_read_operation : ℕ → ReadOperation
new_read_operation n = record {
  sequence_number = n;
  state = ReadState.uninitialized;
  done_reading_descriptor = false;
  done_getting_allocation = false;
  num_payloads_being_read = 0;
  num_tensors_being_received = 0;
  has_missing_target_devices = false;
  descriptor = record { metadata = ""; payloads = []; tensors = [] };
  allocation = record { payloads = []; tensors = [] };
}

-- `readDescriptorFromLoop`
unfoldable pub read_descriptor_from_loop : Pipe → Pipe
read_descriptor_from_loop p =
    let n = p.core.next_message_being_read in
    advance_read n (record p {
      core = record (p.core) { next_message_being_read = n + 1 };
      read_ops = emplace_back p.read_ops (new_read_operation n);
    })

abbrev pub device_matches : Option Device → Device → Bool
device_matches none d = true
device_matches (some t) d = device_eq d t

unfoldable pub devices_match : List TensorDescriptor → List Buffer → Bool
devices_match [] bs = true
devices_match (t ∷ ts) [] = true
devices_match (t ∷ ts) (b ∷ bs) =
    let rest = devices_match ts bs in device_matches t.target_device b.device && rest

-- `checkAllocationCompatibility`: whether none of its assertions fails
unfoldable pub check_allocation_compatibility : Descriptor → Allocation → Bool
check_allocation_compatibility d a =
    length a.payloads == length d.payloads
    && (length a.tensors == length d.tensors && devices_match d.tensors a.tensors)

abbrev pub give_allocation : Allocation → ReadOperation → ReadOperation
give_allocation a op = record op { allocation = a; done_getting_allocation = true }

-- `readFromLoop`, and whether an assertion throws. The second assertion is made when the expected
-- message has been taken already. (An iterator that dangles cannot be read; the pipe stays.)
unfoldable pub read_from_loop : Allocation → Pipe → Pipe × Bool
read_from_loop a p = elim p.core.next_message_getting_allocation [
  | none ↦ (p, true)
  | some n ↦
      let q = record p { core = record (p.core) { next_message_getting_allocation = none } } in
      elim (find_operation read_machine p.read_ops n) [
        | none ↦ (q, true)
        | some op ↦
            if check_allocation_compatibility op.descriptor a
            then (
              advance_read n (record q {
                read_ops = update_operation read_machine (give_allocation a) n q.read_ops;
              }),
              false,
            )
            else (q, true)
      ]
]

abbrev pub tensor_being_sent : TensorMessage → TensorBeingSent
tensor_being_sent t = record { source_device = t.buffer.device; target_device = t.target_device }

abbrev pub any_missing : List (Option Device) → Bool
any_missing [] = false
any_missing (d ∷ ds) = not (has_value d) || any_missing ds

abbrev pub new_write_operation : ℕ → Message → WriteOperation
new_write_operation n m = record {
  sequence_number = n;
  state = WriteState.uninitialized;
  done_reading_descriptor_reply = false;
  num_payloads_being_written = 0;
  num_tensors_being_sent = 0;
  has_missing_target_devices = any_missing (map (λ (t : TensorMessage). t.target_device) m.tensors);
  message = m;
  tensors = map tensor_being_sent m.tensors;
}

-- `writeFromLoop`
unfoldable pub write_from_loop : Message → Pipe → Pipe
write_from_loop m p =
    let n = p.core.next_message_being_written in
    advance_write n (record p {
      core = record (p.core) { next_message_being_written = n + 1 };
      write_ops = emplace_back p.write_ops (new_write_operation n m);
    })

-- `PipeClosedError`, as a number
abbrev pub pipe_closed_error : ℕ
pipe_closed_error = 0

-- `closeFromLoop`
unfoldable pub close_from_loop : Pipe → Pipe
close_from_loop p = set_error (some pipe_closed_error) p

abbrev pub take_descriptor : Bool → Descriptor → ReadOperation → ReadOperation
take_descriptor failed d op =
    if failed then record op { done_reading_descriptor = true } else record op {
      done_reading_descriptor = true;
      descriptor = d;
      has_missing_target_devices =
          op.has_missing_target_devices
          || any_missing (map (λ (t : TensorDescriptor). t.target_device) d.tensors);
    }

-- The completion of `readDescriptorOfMessage`
unfoldable pub on_descriptor_read : ℕ → Error → Descriptor → Pipe → Pipe
on_descriptor_read n e d p =
    let q = set_error e p in
    advance_read n (record q {
      read_ops =
          update_operation read_machine (take_descriptor (is_error q.core.error) d) n q.read_ops;
    })

-- The completion of one read of `readPayloadsOfMessage`
unfoldable pub on_payload_read : ℕ → Error → Pipe → Pipe
on_payload_read n e p =
    let q = set_error e p in
    advance_read n (record q {
      read_ops =
          update_operation read_machine
            (λ op. record op { num_payloads_being_read = sub64 op.num_payloads_being_read 1 }) n
            q.read_ops;
    })

-- The completion of one `recv` of `receiveTensorsOfMessage`
unfoldable pub on_tensor_received : ℕ → Error → Pipe → Pipe
on_tensor_received n e p =
    let q = set_error e p in
    advance_read n (record q {
      read_ops =
          update_operation read_machine
            (λ op. record op { num_tensors_being_received = sub64 op.num_tensors_being_received 1 })
            n q.read_ops;
    })

-- The completion of one write of `writePayloadsOfMessage`
unfoldable pub on_payload_written : ℕ → Error → Pipe → Pipe
on_payload_written n e p =
    let q = set_error e p in
    advance_write n (record q {
      write_ops =
          update_operation write_machine
            (λ op. record op { num_payloads_being_written = sub64 op.num_payloads_being_written 1 })
            n q.write_ops;
    })

-- The completion of one `send` of `sendTensorsOfMessage`
unfoldable pub on_tensor_sent : ℕ → Error → Pipe → Pipe
on_tensor_sent n e p =
    let q = set_error e p in
    advance_write n (record q {
      write_ops =
          update_operation write_machine
            (λ op. record op { num_tensors_being_sent = sub64 op.num_tensors_being_sent 1 }) n
            q.write_ops;
    })

abbrev pub take_reply : Bool → List Device → WriteOperation → WriteOperation
take_reply failed ds op =
    let done = record op { done_reading_descriptor_reply = true } in
    if failed then done else (parse_descriptor_reply_of_message done ds).0

-- Whether the TP_DCHECK of `parseDescriptorReplyOfMessage` holds, where it is called
abbrev pub reply_fits : Bool → List Device → Option WriteOperation → Bool
reply_fits true ds op = true
reply_fits false ds none = true
reply_fits false ds (some op) = (parse_descriptor_reply_of_message op ds).1

-- The completion of `readDescriptorReplyOfMessage`
unfoldable pub on_descriptor_reply_read : ℕ → Error → List Device → Pipe → Pipe
on_descriptor_reply_read n e ds p =
    let q = set_error e p in
    let op = find_operation write_machine q.write_ops n in
    advance_write n (record q {
      core = record (q.core) {
        reply_checked = q.core.reply_checked && reply_fits (is_error q.core.error) ds op;
      };
      write_ops =
          update_operation write_machine (take_reply (is_error q.core.error) ds) n q.write_ops;
    })

-- The completion of any other write of the pipe, and of a read or a request that failed
unfoldable pub on_done : Error → Pipe → Pipe
on_done e p = set_error e p

-- The assignment of `channelForDevicePair_` in the handlers of the handshake, on either side
unfoldable pub assign_channels : List ((Device × Device) × String) → Pipe → Pipe
assign_channels pairs p = record p { core = record (p.core) { channel_for_device_pair = pairs } }

-- What can happen to a pipe. The handshake assigns the channels that it has selected, whichever
-- they are, and ends.
pub data Event : Type 0 where
  user_reads_descriptor : Event
  user_reads : Allocation → Event
  user_writes : Message → Event
  user_closes : Event
  channels_selected : List ((Device × Device) × String) → Event
  handshake_done : Event
  descriptor_read : ℕ → Error → Descriptor → Event
  payload_read tensor_received payload_written tensor_sent : ℕ → Error → Event
  descriptor_reply_read : ℕ → Error → List Device → Event
  other_done : Error → Event

unfoldable pub step : Pipe → Event → Pipe
step p user_reads_descriptor = read_descriptor_from_loop p
step p (user_reads a) = (read_from_loop a p).0
step p (user_writes m) = write_from_loop m p
step p user_closes = close_from_loop p
step p (channels_selected pairs) = assign_channels pairs p
step p handshake_done = become_established p
step p (descriptor_read n e d) = on_descriptor_read n e d p
step p (payload_read n e) = on_payload_read n e p
step p (tensor_received n e) = on_tensor_received n e p
step p (payload_written n e) = on_payload_written n e p
step p (tensor_sent n e) = on_tensor_sent n e p
step p (descriptor_reply_read n e ds) = on_descriptor_reply_read n e ds p
step p (other_done e) = on_done e p

unfoldable pub run : Pipe → List Event → Pipe
run p [] = p
run p (e ∷ es) = run (step p e) es

-- A pipe as its constructor leaves it, in the given state of the handshake.
unfoldable pub new_pipe : PipeState → Pipe
new_pipe st = record {
  core = record {
    state = st;
    error = none;
    channel_for_device_pair = [];
    registration_ids = [];
    channel_registration_ids = [];
    next_message_being_read = 0;
    next_message_being_written = 0;
    next_read_descriptor_callback_to_call = 0;
    next_read_callback_to_call = 0;
    next_write_callback_to_call = 0;
    connection_state = awaiting_descriptor;
    message_being_read_from_connection = 0;
    next_message_getting_allocation = none;
    calls = [];
    read_descriptor_callbacks_checked = true;
    read_callbacks_checked = true;
    write_callbacks_checked = true;
    connection_checked = true;
    allocation_checked = true;
    channels_checked = true;
    reply_checked = true;
  };
  read_ops = [];
  write_ops = [];
}
