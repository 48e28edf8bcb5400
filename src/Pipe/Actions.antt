-- ===== src/Pipe/Actions.antt =====
-- core/pipe_impl.cc: the actions that begin a transition of an operation, and the helpers that
-- build and read the messages of the protocol.
pub mod Quiet
use Prim.Native.String.{String}
use tensorpipe.Prelude.{
  ℕ, zero, suc, ◌+◌, Bool, true, false, not, ◌&&◌, Option, none, some, List, [], ◌∷◌, ◌++◌, map,
  ◌==◌, if◌then◌else◌, get_elem?, length,
}
use tensorpipe.Pipe.Types.{
  Device, device_eq, Buffer, PayloadMessage, TensorMessage, Message, PayloadDescriptor,
  TensorDescriptor, Descriptor, Allocation, ReadOperation, TensorBeingSent, WriteOperation,
  ConnectionState, awaiting_descriptor, awaiting_payloads, Call, write_descriptor, write_payload,
  send_tensor, read_descriptor_reply, read_descriptor, read_payload, recv_tensor,
  write_descriptor_reply, read_descriptor_callback, read_callback, write_callback, Core,
}

abbrev pub has_value {ℓ} : {A : Type ℓ} → Option A → Bool
has_value none = false
has_value (some a) = true

-- One more call in the history.
abbrev pub call : Call → Core → Core
call c s = record s { calls = c ∷ s.calls }

-- `channelForDevicePair_.find({localDevice, remoteDevice})`
unfoldable pub find_channel : Device → Device → List ((Device × Device) × String) → Option String
find_channel l r [] = none
find_channel l r (((a, b), name) ∷ rest) =
    if device_eq a l && device_eq b r then some name else find_channel l r rest

unfoldable pub describe_payload : PayloadMessage → PayloadDescriptor
describe_payload p = record { length = p.length; metadata = p.metadata }

unfoldable pub describe_tensor : TensorMessage → TensorDescriptor
describe_tensor t = record {
  length = t.length;
  source_device = t.buffer.device;
  target_device = t.target_device;
  metadata = t.metadata;
}

-- `makeDescriptorForMessage`
unfoldable pub make_descriptor_for_message : WriteOperation → Descriptor
unfolding describe_payload describe_tensor
make_descriptor_for_message op = record {
  metadata = op.message.metadata;
  payloads = map describe_payload op.message.payloads;
  tensors = map describe_tensor op.message.tensors;
}

-- The loop of `makeDescriptorReplyForMessage`. A missing buffer cannot be: the sizes were checked.
unfoldable pub missing_devices : List TensorDescriptor → List Buffer → List Device
missing_devices [] bs = []
missing_devices (t ∷ ts) [] = []
missing_devices (t ∷ ts) (b ∷ bs) =
    let rest = missing_devices ts bs in if has_value t.target_device then rest else b.device ∷ rest

-- `makeDescriptorReplyForMessage`
unfoldable pub make_descriptor_reply_for_message : ReadOperation → List Device
unfolding missing_devices
make_descriptor_reply_for_message op = missing_devices op.descriptor.tensors op.allocation.tensors

-- The loop of `parseDescriptorReplyOfMessage`: each tensor with no target device takes the next
-- device of the reply. The flag is the check that the reply is used up; a device that is missing
-- fails it too.
unfoldable pub parse_reply :
    List TensorMessage → List TensorBeingSent → List Device → List TensorBeingSent × Bool
parse_reply [] sent [] = (sent, true)
parse_reply [] sent (d ∷ ds) = (sent, false)
parse_reply (t ∷ ts) [] ds = ([], false)
parse_reply (t ∷ ts) (x ∷ xs) [] =
    let (xs', used) = parse_reply ts xs [] in (x ∷ xs', has_value t.target_device && used)
parse_reply (t ∷ ts) (x ∷ xs) (d ∷ ds) =
    let known = parse_reply ts xs (d ∷ ds) in
    let taken = parse_reply ts xs ds in
    if has_value t.target_device
    then (x ∷ known.0, known.1)
    else (record x { target_device = some d } ∷ taken.0, taken.1)

-- `parseDescriptorReplyOfMessage`
unfoldable pub parse_descriptor_reply_of_message :
    WriteOperation → List Device → WriteOperation × Bool
unfolding parse_reply
parse_descriptor_reply_of_message op devices =
    let (sent, used) = parse_reply op.message.tensors op.tensors devices in
    (record op { tensors = sent }, used)

module _ where
  -- `callReadDescriptorCallback`, with the check of the wrapper that `readDescriptorFromLoop` makes
  unfoldable pub call_read_descriptor_callback : ReadOperation × Core → ReadOperation × Core
  call_read_descriptor_callback (op, s) = (
    op,
    record s {
      read_descriptor_callbacks_checked =
          s.read_descriptor_callbacks_checked
          && op.sequence_number == s.next_read_descriptor_callback_to_call;
      next_read_descriptor_callback_to_call = s.next_read_descriptor_callback_to_call + 1;
      calls = read_descriptor_callback op.sequence_number s.error op.descriptor ∷ s.calls;
    },
  )

  -- `callReadCallback`, with the check of the wrapper that `readFromLoop` makes
  unfoldable pub call_read_callback : ReadOperation × Core → ReadOperation × Core
  call_read_callback (op, s) = (
    op,
    record s {
      read_callbacks_checked =
          s.read_callbacks_checked && op.sequence_number == s.next_read_callback_to_call;
      next_read_callback_to_call = s.next_read_callback_to_call + 1;
      calls = read_callback op.sequence_number s.error ∷ s.calls;
    },
  )

  -- `callWriteCallback`, with the check of the wrapper that `writeFromLoop` makes
  unfoldable pub call_write_callback : WriteOperation × Core → WriteOperation × Core
  call_write_callback (op, s) = (
    op,
    record s {
      write_callbacks_checked =
          s.write_callbacks_checked && op.sequence_number == s.next_write_callback_to_call;
      next_write_callback_to_call = s.next_write_callback_to_call + 1;
      calls = write_callback op.sequence_number s.error ∷ s.calls;
    },
  )

abbrev pub is_awaiting_descriptor : ConnectionState → Bool
is_awaiting_descriptor awaiting_descriptor = true
is_awaiting_descriptor awaiting_payloads = false

-- `readDescriptorOfMessage`, up to its completion
unfoldable pub read_descriptor_of_message : ReadOperation × Core → ReadOperation × Core
read_descriptor_of_message (op, s) = (
  op,
  record s {
    connection_checked =
        s.connection_checked
        && (is_awaiting_descriptor s.connection_state
            && op.sequence_number == s.message_being_read_from_connection);
    connection_state = awaiting_payloads;
    calls = read_descriptor op.sequence_number ∷ s.calls;
  },
)

-- `expectReadCall`
unfoldable pub expect_read_call : ReadOperation × Core → ReadOperation × Core
expect_read_call (op, s) = (
  op,
  record s {
    allocation_checked = s.allocation_checked && not (has_value s.next_message_getting_allocation);
    next_message_getting_allocation = some op.sequence_number;
  },
)

-- The loop of `readPayloadsOfMessage` from payload `i` on. A missing descriptor cannot be: the
-- sizes were checked.
unfoldable pub read_payloads_from :
    ℕ → List ℕ → List PayloadDescriptor → ReadOperation × Core → ReadOperation × Core
read_payloads_from i [] ds x = x
read_payloads_from i (a ∷ as') [] x = x
read_payloads_from i (a ∷ as') (d ∷ ds) (op, s) = read_payloads_from (i + 1) as' ds (
  record op { num_payloads_being_read = op.num_payloads_being_read + 1 },
  call (read_payload op.sequence_number i a d.length) s,
)

-- `readPayloadsOfMessage`, up to its completions
unfoldable pub read_payloads_of_message : ReadOperation × Core → ReadOperation × Core
read_payloads_of_message (op, s) =
    let (op', s') = read_payloads_from 0 op.allocation.payloads op.descriptor.payloads (op, s) in
    (
      op',
      record s' {
        connection_checked =
            s.connection_checked
            && (not (is_awaiting_descriptor s.connection_state)
                && op.sequence_number == s.message_being_read_from_connection);
        connection_state = awaiting_descriptor;
        message_being_read_from_connection = s.message_being_read_from_connection + 1;
      },
    )

-- The loop of `receiveTensorsOfMessage` from tensor `i` on; with no channel for the two devices it
-- throws.
unfoldable pub receive_tensors_from :
    ℕ → List TensorDescriptor → List Buffer → ReadOperation × Core → ReadOperation × Core
receive_tensors_from i [] bs x = x
receive_tensors_from i (t ∷ ts) [] (op, s) = (op, record s { channels_checked = false })
receive_tensors_from i (t ∷ ts) (b ∷ bs) (op, s) =
    elim (find_channel b.device t.source_device s.channel_for_device_pair) [
      | none ↦ (op, record s { channels_checked = false })
      | some name ↦ receive_tensors_from (i + 1) ts bs (
        record op { num_tensors_being_received = op.num_tensors_being_received + 1 },
        call (recv_tensor op.sequence_number i name b t.length) s,
      )
    ]

-- `receiveTensorsOfMessage`, up to its completions
unfoldable pub receive_tensors_of_message : ReadOperation × Core → ReadOperation × Core
receive_tensors_of_message (op, s) =
    receive_tensors_from 0 op.descriptor.tensors op.allocation.tensors (op, s)

-- `writeDescriptorReplyOfMessage`
unfoldable pub write_descriptor_reply_of_message : ReadOperation × Core → ReadOperation × Core
write_descriptor_reply_of_message (op, s) =
    (op, call (write_descriptor_reply op.sequence_number (make_descriptor_reply_for_message op)) s)

-- `writeDescriptorOfMessage`
unfoldable pub write_descriptor_of_message : WriteOperation × Core → WriteOperation × Core
write_descriptor_of_message (op, s) =
    (op, call (write_descriptor op.sequence_number (make_descriptor_for_message op)) s)

-- The loop of `writePayloadsOfMessage` from payload `i` on.
unfoldable pub write_payloads_from :
    ℕ → List PayloadMessage → WriteOperation × Core → WriteOperation × Core
write_payloads_from i [] x = x
write_payloads_from i (p ∷ ps) (op, s) = write_payloads_from (i + 1) ps (
  record op { num_payloads_being_written = op.num_payloads_being_written + 1 },
  call (write_payload op.sequence_number i p.address p.length) s,
)

-- `writePayloadsOfMessage`, up to its completions
unfoldable pub write_payloads_of_message : WriteOperation × Core → WriteOperation × Core
write_payloads_of_message (op, s) = write_payloads_from 0 op.message.payloads (op, s)

-- `readDescriptorReplyOfMessage`, up to its completion
unfoldable pub read_descriptor_reply_of_message : WriteOperation × Core → WriteOperation × Core
read_descriptor_reply_of_message (op, s) = (op, call (read_descriptor_reply op.sequence_number) s)

abbrev pub channel_for_tensor : TensorBeingSent → List ((Device × Device) × String) → Option String
channel_for_tensor t table = elim t.target_device [
  | none ↦ none
  | some d ↦ find_channel t.source_device d table
]

-- The loop of `sendTensorsOfMessage` from tensor `i` on; with no target device or no channel for
-- the two devices it throws.
unfoldable pub send_tensors_from :
    ℕ → List TensorMessage → List TensorBeingSent → WriteOperation × Core → WriteOperation × Core
send_tensors_from i [] xs x = x
send_tensors_from i (t ∷ ts) [] (op, s) = (op, record s { channels_checked = false })
send_tensors_from i (t ∷ ts) (x ∷ xs) (op, s) =
    elim (channel_for_tensor x s.channel_for_device_pair) [
      | none ↦ (op, record s { channels_checked = false })
      | some name ↦ send_tensors_from (i + 1) ts xs (
        record op { num_tensors_being_sent = op.num_tensors_being_sent + 1 },
        call (send_tensor op.sequence_number i name t.buffer t.length) s,
      )
    ]

-- `sendTensorsOfMessage`, up to its completions
unfoldable pub send_tensors_of_message : WriteOperation × Core → WriteOperation × Core
send_tensors_of_message (op, s) = send_tensors_from 0 op.message.tensors op.tensors (op, s)
