-- ===== src/Pipe/Actions/Quiet.antt =====
-- The loops of the pipe's actions change only the calls made, the channel check and the counts of
-- calls under way.
use tensorpipe.Prelude.{
  ℕ, ◌+◌, ◌≡◌, refl, inl, inr, Bool, false, not, ◌&&◌, ◌==◌, List, [], ◌∷◌, Option-cases,
}
use tensorpipe.Pipe.Types.{
  Buffer, PayloadMessage, TensorMessage, PayloadDescriptor, TensorDescriptor, ReadOperation,
  TensorBeingSent, WriteOperation, Call, Core, write_descriptor, read_descriptor_reply,
  write_descriptor_reply, awaiting_descriptor, write_payload, read_payload, send_tensor,
  recv_tensor,
}
use tensorpipe.Pipe.Actions.{
  call, find_channel, channel_for_tensor, read_payloads_from, receive_tensors_from,
  write_payloads_from, send_tensors_from, write_descriptor_of_message, write_payloads_of_message,
  send_tensors_of_message, read_descriptor_reply_of_message, make_descriptor_for_message,
  read_payloads_of_message, receive_tensors_of_message, write_descriptor_reply_of_message,
  make_descriptor_reply_for_message, is_awaiting_descriptor,
}

pub read_payloads_from-quiet :
    (i : ℕ) (addresses : List ℕ) (ds : List PayloadDescriptor) (op : ReadOperation) (s : Core)
    → (n : ℕ) × (cs : List Call) × (read_payloads_from i addresses ds (op, s)
        ≡ (record op { num_payloads_being_read = n }, record s { calls = cs }))
unfolding read_payloads_from
read_payloads_from-quiet i [] ds op s = (op.num_payloads_being_read, s.calls, refl)
read_payloads_from-quiet i (a ∷ rest) [] op s = (op.num_payloads_being_read, s.calls, refl)
read_payloads_from-quiet i (a ∷ rest) (d ∷ ds) op s =
    read_payloads_from-quiet (i + 1) rest ds
      (record op { num_payloads_being_read = op.num_payloads_being_read + 1 })
      (call (read_payload op.sequence_number i a d.length) s)

pub write_payloads_from-quiet :
    (i : ℕ) (ps : List PayloadMessage) (op : WriteOperation) (s : Core)
    → (n : ℕ) × (cs : List Call) × (write_payloads_from i ps (op, s)
        ≡ (record op { num_payloads_being_written = n }, record s { calls = cs }))
unfolding write_payloads_from
write_payloads_from-quiet i [] op s = (op.num_payloads_being_written, s.calls, refl)
write_payloads_from-quiet i (p ∷ ps) op s =
    write_payloads_from-quiet (i + 1) ps
      (record op { num_payloads_being_written = op.num_payloads_being_written + 1 })
      (call (write_payload op.sequence_number i p.address p.length) s)

pub receive_tensors_from-quiet :
    (i : ℕ) (ts : List TensorDescriptor) (bs : List Buffer) (op : ReadOperation) (s : Core)
    → (n : ℕ) × (cs : List Call) × (b : Bool) × (receive_tensors_from i ts bs (op, s) ≡ (
      record op { num_tensors_being_received = n },
      record s { calls = cs; channels_checked = b },
    ))
unfolding receive_tensors_from
receive_tensors_from-quiet i [] bs op s =
    (op.num_tensors_being_received, s.calls, s.channels_checked, refl)
receive_tensors_from-quiet i (t ∷ ts) [] op s =
    (op.num_tensors_being_received, s.calls, false, refl)
receive_tensors_from-quiet i (t ∷ ts) (b ∷ bs) op s =
    elim (Option-cases (find_channel b.device t.source_device s.channel_for_device_pair)) [
      | inl e ↦ (op.num_tensors_being_received, s.calls, false, rw (e, receive_tensors_from) refl)
      | inr (name, e) ↦
          rw (e, receive_tensors_from)
            (receive_tensors_from-quiet (i + 1) ts bs
              (record op { num_tensors_being_received = op.num_tensors_being_received + 1 })
              (call (recv_tensor op.sequence_number i name b t.length) s))
    ]

pub send_tensors_from-quiet :
    (i : ℕ) (ts : List TensorMessage) (xs : List TensorBeingSent) (op : WriteOperation) (s : Core)
    → (n : ℕ) × (cs : List Call) × (b : Bool) × (send_tensors_from i ts xs (op, s)
        ≡ (record op { num_tensors_being_sent = n }, record s { calls = cs; channels_checked = b }))
unfolding send_tensors_from
send_tensors_from-quiet i [] xs op s =
    (op.num_tensors_being_sent, s.calls, s.channels_checked, refl)
send_tensors_from-quiet i (t ∷ ts) [] op s = (op.num_tensors_being_sent, s.calls, false, refl)
send_tensors_from-quiet i (t ∷ ts) (x ∷ xs) op s =
    elim (Option-cases (channel_for_tensor x s.channel_for_device_pair)) [
      | inl e ↦ (op.num_tensors_being_sent, s.calls, false, rw (e, send_tensors_from) refl)
      | inr (name, e) ↦
          rw (e, send_tensors_from)
            (send_tensors_from-quiet (i + 1) ts xs
              (record op { num_tensors_being_sent = op.num_tensors_being_sent + 1 })
              (call (send_tensor op.sequence_number i name t.buffer t.length) s))
    ]

-- The actions of `start_writing` together.
pub writing-quiet :
    (op : WriteOperation) (s : Core)
    → (n k : ℕ) × (cs : List Call) × (b : Bool) × (send_tensors_of_message
          (write_payloads_of_message (write_descriptor_of_message (op, s)))
        ≡ (
          record op { num_payloads_being_written = n; num_tensors_being_sent = k },
          record s { calls = cs; channels_checked = b },
        ))
unfolding write_descriptor_of_message write_payloads_of_message send_tensors_of_message
writing-quiet op s =
    let s' : Core = call (write_descriptor op.sequence_number (make_descriptor_for_message op)) s in
    let (n, cs, e) = write_payloads_from-quiet 0 op.message.payloads op s' in
    let op' : WriteOperation = record op { num_payloads_being_written = n } in
    let (k, ds, b, e') =
      send_tensors_from-quiet 0 op'.message.tensors op'.tensors op' (record s { calls = cs }) in
    (n, k, ds, b, rw e e')

pub sending-quiet :
    (op : WriteOperation) (s : Core)
    → (k : ℕ) × (cs : List Call) × (b : Bool) × (send_tensors_of_message (op, s)
        ≡ (record op { num_tensors_being_sent = k }, record s { calls = cs; channels_checked = b }))
unfolding send_tensors_of_message
sending-quiet op s = send_tensors_from-quiet 0 op.message.tensors op.tensors op s

-- The actions of `start_writing_and_ask` together.
pub asking-quiet :
    (op : WriteOperation) (s : Core)
    → (n : ℕ) × (cs : List Call) × (read_descriptor_reply_of_message
          (write_payloads_of_message (write_descriptor_of_message (op, s)))
        ≡ (record op { num_payloads_being_written = n }, record s { calls = cs }))
unfolding write_descriptor_of_message write_payloads_of_message read_descriptor_reply_of_message
asking-quiet op s =
    let s' : Core = call (write_descriptor op.sequence_number (make_descriptor_for_message op)) s in
    let (n, cs, e) = write_payloads_from-quiet 0 op.message.payloads op s' in
    (n, read_descriptor_reply op.sequence_number ∷ cs, rw e refl)

-- What `readPayloadsOfMessage` does besides its loop.
abbrev pub after_payloads : ReadOperation → Core → List Call → Bool → Core
after_payloads op s cs b = record s {
  calls = cs;
  channels_checked = b;
  connection_checked =
      s.connection_checked
      && (not (is_awaiting_descriptor s.connection_state)
          && op.sequence_number == s.message_being_read_from_connection);
  connection_state = awaiting_descriptor;
  message_being_read_from_connection = s.message_being_read_from_connection + 1;
}

-- The actions of `start_reading` together.
pub reading-quiet :
    (op : ReadOperation) (s : Core)
    → (n k : ℕ) × (cs : List Call) × (b : Bool) × (receive_tensors_of_message
          (read_payloads_of_message (op, s))
        ≡ (
          record op { num_payloads_being_read = n; num_tensors_being_received = k },
          after_payloads op s cs b,
        ))
unfolding read_payloads_of_message receive_tensors_of_message
reading-quiet op s =
    let (n, cs, e) =
      read_payloads_from-quiet 0 op.allocation.payloads op.descriptor.payloads op s in
    let op' : ReadOperation = record op { num_payloads_being_read = n } in
    let (k, ds, b, e') =
      receive_tensors_from-quiet 0 op.descriptor.tensors op.allocation.tensors op'
        (after_payloads op s cs s.channels_checked) in
    (n, k, ds, b, rw e e')

-- The actions of `start_reading_and_reply` together.
pub replying-quiet :
    (op : ReadOperation) (s : Core)
    → (n k : ℕ) × (cs : List Call) × (b : Bool) × (receive_tensors_of_message
          (write_descriptor_reply_of_message (read_payloads_of_message (op, s)))
        ≡ (
          record op { num_payloads_being_read = n; num_tensors_being_received = k },
          after_payloads op s cs b,
        ))
unfolding read_payloads_of_message receive_tensors_of_message write_descriptor_reply_of_message
replying-quiet op s =
    let (n, cs, e) =
      read_payloads_from-quiet 0 op.allocation.payloads op.descriptor.payloads op s in
    let op' : ReadOperation = record op { num_payloads_being_read = n } in
    let reply = write_descriptor_reply op.sequence_number (make_descriptor_reply_for_message op') in
    let (k, ds, b, e') =
      receive_tensors_from-quiet 0 op.descriptor.tensors op.allocation.tensors op'
        (after_payloads op s (reply ∷ cs) s.channels_checked) in
    (n, k, ds, b, rw e e')
