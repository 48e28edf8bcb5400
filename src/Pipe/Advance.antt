-- ===== src/Pipe/Advance.antt =====
-- core/pipe_impl.cc: the transitioners of the pipe's read and write operations.
pub mod WriteLaws
pub mod ReadLaws
use tensorpipe.Prelude.{ℕ, Bool, true, false, not, ◌&&◌, List, [], ◌∷◌, ◌==◌, leb, if◌then◌else◌}
use tensorpipe.StateMachine.{OpType, Machine, attempt_transition}
use tensorpipe.Pipe.Types.{
  is_error, ReadState, read_number, ReadOperation, WriteState, write_number, WriteOperation,
  is_established, Core,
}
use tensorpipe.Pipe.Actions.{
  call_read_descriptor_callback, call_read_callback, call_write_callback,
  read_descriptor_of_message, expect_read_call, read_payloads_of_message,
  receive_tensors_of_message, write_descriptor_reply_of_message, write_descriptor_of_message,
  write_payloads_of_message, read_descriptor_reply_of_message, send_tensors_of_message,
}

abbrev pub read_type : OpType ReadOperation ReadState
read_type = record {
  seq = λ op. op.sequence_number;
  state = λ op. op.state;
  set_state = λ op st. record op { state = st };
  number = read_number;
  finished = ReadState.finished;
}

abbrev pub write_type : OpType WriteOperation WriteState
write_type = record {
  seq = λ op. op.sequence_number;
  state = λ op. op.state;
  set_state = λ op st. record op { state = st };
  number = write_number;
  finished = WriteState.finished;
}

abbrev pub read_at_least : ReadState → ReadState → Bool
read_at_least prev st = leb (read_number st) (read_number prev)

abbrev pub write_at_least : WriteState → WriteState → Bool
write_at_least prev st = leb (write_number st) (write_number prev)

-- The eight calls of `attemptTransition` in `advanceReadOperation`, in order.
module _ (prev : ReadState) where
  unfoldable pub flush_before_descriptor : ReadOperation × Core → ReadOperation × Core
  flush_before_descriptor =
      attempt_transition read_type ReadState.uninitialized ReadState.asking_for_allocation
        (λ op s. is_error s.error && read_at_least prev ReadState.asking_for_allocation)
        (call_read_descriptor_callback ∷ [])

  unfoldable pub start_reading_descriptor : ReadOperation × Core → ReadOperation × Core
  start_reading_descriptor =
      attempt_transition read_type ReadState.uninitialized ReadState.reading_descriptor
        (λ op s.
          not (is_error s.error)
          && (is_established s.state
              && read_at_least prev ReadState.reading_payloads_and_receiving_tensors))
        (read_descriptor_of_message ∷ [])

  unfoldable pub hand_over_descriptor : ReadOperation × Core → ReadOperation × Core
  hand_over_descriptor =
      attempt_transition read_type ReadState.reading_descriptor ReadState.asking_for_allocation
        (λ op s. op.done_reading_descriptor && read_at_least prev ReadState.asking_for_allocation)
        (call_read_descriptor_callback ∷ [])

  unfoldable pub become_first_in_line : ReadOperation × Core → ReadOperation × Core
  become_first_in_line =
      attempt_transition read_type ReadState.asking_for_allocation
        ReadState.asking_for_allocation_first_in_line
        (λ op s.
          op.done_reading_descriptor
          && read_at_least prev ReadState.reading_payloads_and_receiving_tensors)
        (expect_read_call ∷ [])

  unfoldable pub flush_after_allocation : ReadOperation × Core → ReadOperation × Core
  flush_after_allocation =
      attempt_transition read_type ReadState.asking_for_allocation_first_in_line ReadState.finished
        (λ op s.
          is_error s.error && (op.done_getting_allocation && read_at_least prev ReadState.finished))
        (call_read_callback ∷ [])

  unfoldable pub start_reading : ReadOperation × Core → ReadOperation × Core
  start_reading =
      attempt_transition read_type ReadState.asking_for_allocation_first_in_line
        ReadState.reading_payloads_and_receiving_tensors
        (λ op s.
          not (is_error s.error)
          && (op.done_getting_allocation && not op.has_missing_target_devices))
        (read_payloads_of_message ∷ receive_tensors_of_message ∷ [])

  unfoldable pub start_reading_and_reply : ReadOperation × Core → ReadOperation × Core
  start_reading_and_reply =
      attempt_transition read_type ReadState.asking_for_allocation_first_in_line
        ReadState.reading_payloads_and_receiving_tensors
        (λ op s.
          not (is_error s.error) && (op.done_getting_allocation && op.has_missing_target_devices))
        (read_payloads_of_message ∷ write_descriptor_reply_of_message ∷ receive_tensors_of_message
          ∷ [])

  unfoldable pub finish_reading : ReadOperation × Core → ReadOperation × Core
  finish_reading =
      attempt_transition read_type ReadState.reading_payloads_and_receiving_tensors
        ReadState.finished
        (λ op s.
          op.num_payloads_being_read == 0
          && (op.num_tensors_being_received == 0 && read_at_least prev ReadState.finished))
        (call_read_callback ∷ [])

-- `advanceReadOperation`
unfoldable pub advance_read_operation : ReadOperation → ReadState → Core → ReadOperation × Core
advance_read_operation op prev s = finish_reading prev (
    start_reading_and_reply prev (
      start_reading prev (
        flush_after_allocation prev (
          become_first_in_line prev (
            hand_over_descriptor prev
              (start_reading_descriptor prev (flush_before_descriptor prev (op, s))))))))

-- The six calls of `attemptTransition` in `advanceWriteOperation`, in order.
module _ (prev : WriteState) where
  unfoldable pub flush_before_writing : WriteOperation × Core → WriteOperation × Core
  flush_before_writing =
      attempt_transition write_type WriteState.uninitialized WriteState.finished
        (λ op s. is_error s.error && write_at_least prev WriteState.finished)
        (call_write_callback ∷ [])

  unfoldable pub start_writing : WriteOperation × Core → WriteOperation × Core
  start_writing =
      attempt_transition write_type WriteState.uninitialized
        WriteState.writing_payloads_and_sending_tensors
        (λ op s.
          not (is_error s.error)
          && (is_established s.state
              && (not op.has_missing_target_devices
                  && write_at_least prev WriteState.writing_payloads_and_sending_tensors)))
        (write_descriptor_of_message ∷ write_payloads_of_message ∷ send_tensors_of_message ∷ [])

  unfoldable pub start_writing_and_ask : WriteOperation × Core → WriteOperation × Core
  start_writing_and_ask =
      attempt_transition write_type WriteState.uninitialized
        WriteState.writing_payloads_and_reading_target_devices
        (λ op s.
          not (is_error s.error)
          && (is_established s.state
              && (op.has_missing_target_devices
                  && write_at_least prev WriteState.writing_payloads_and_reading_target_devices)))
        (write_descriptor_of_message ∷ write_payloads_of_message ∷ read_descriptor_reply_of_message
          ∷ [])

  unfoldable pub flush_after_reply : WriteOperation × Core → WriteOperation × Core
  flush_after_reply =
      attempt_transition write_type WriteState.writing_payloads_and_reading_target_devices
        WriteState.finished
        (λ op s.
          is_error s.error
          && (op.num_payloads_being_written == 0
              && (op.done_reading_descriptor_reply && write_at_least prev WriteState.finished)))
        (call_write_callback ∷ [])

  unfoldable pub start_sending : WriteOperation × Core → WriteOperation × Core
  start_sending =
      attempt_transition write_type WriteState.writing_payloads_and_reading_target_devices
        WriteState.writing_payloads_and_sending_tensors
        (λ op s.
          not (is_error s.error)
          && (op.done_reading_descriptor_reply
              && write_at_least prev WriteState.writing_payloads_and_sending_tensors))
        (send_tensors_of_message ∷ [])

  unfoldable pub finish_writing : WriteOperation × Core → WriteOperation × Core
  finish_writing =
      attempt_transition write_type WriteState.writing_payloads_and_sending_tensors
        WriteState.finished
        (λ op s.
          op.num_payloads_being_written == 0
          && (op.num_tensors_being_sent == 0 && write_at_least prev WriteState.finished))
        (call_write_callback ∷ [])

-- `advanceWriteOperation`
unfoldable pub advance_write_operation : WriteOperation → WriteState → Core → WriteOperation × Core
advance_write_operation op prev s = finish_writing prev (
    start_sending prev (
      flush_after_reply prev
        (start_writing_and_ask prev (start_writing prev (flush_before_writing prev (op, s))))))

-- `readOps_`
abbrev pub read_machine : Machine Core ReadOperation ReadState
read_machine = record { op_type = read_type; transit = advance_read_operation }

-- `writeOps_`
abbrev pub write_machine : Machine Core WriteOperation WriteState
write_machine = record { op_type = write_type; transit = advance_write_operation }
