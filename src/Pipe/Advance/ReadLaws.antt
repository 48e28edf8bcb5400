-- ===== src/Pipe/Advance/ReadLaws.antt =====
-- What each transition of a read operation keeps to.
use tensorpipe.Prelude.{ℕ, ◌≤◌, ◌≡◌, ◌∙◌, Bool, arith, ◌==◌, ◌||◌, if◌then◌else◌}
use tensorpipe.StateMachine.Counter.{Counter, Counts, Counts-trans, HasCounter}
use tensorpipe.StateMachine.Order.{Spacing, IsOrderly}
use tensorpipe.Pipe.Types.{ReadOperation, registrations, ReadState, read_number, Core}
use tensorpipe.Pipe.Actions.{
  call_read_descriptor_callback, call_read_callback, read_descriptor_of_message, expect_read_call,
}
use tensorpipe.Pipe.Actions.Quiet.{reading-quiet, replying-quiet}
use tensorpipe.Pipe.Advance.{
  flush_before_descriptor, start_reading_descriptor, hand_over_descriptor, become_first_in_line,
  flush_after_allocation, start_reading, start_reading_and_reply, finish_reading,
  advance_read_operation, read_machine,
}

-- `nextReadCallbackToCall_`, which counts the operations that are FINISHED.
abbrev pub read_callbacks : Counter Core
read_callbacks = record {
  threshold = 5;
  value = λ s. s.next_read_callback_to_call;
  checked = λ s. s.read_callbacks_checked;
}

-- `nextReadDescriptorCallbackToCall_`, which counts the operations that ask for an allocation, or
-- have asked.
abbrev pub read_descriptor_callbacks : Counter Core
read_descriptor_callbacks = record {
  threshold = 2;
  value = λ s. s.next_read_descriptor_callback_to_call;
  checked = λ s. s.read_descriptor_callbacks_checked;
}

-- An operation that reads from the connection, or waits for a read call first in line, comes
-- behind operations that have scheduled all their reads; otherwise the order is that of the states.
abbrev pub read_need : ℕ → ℕ
read_need n = if n == 1 || n == 3 then 4 else n

pub read_need_at_least : (r : ℕ) → r ≤ read_need r
read_need_at_least r = ground arith

abbrev pub read_spacing : Spacing
read_spacing = record { need = read_need; at_least = read_need_at_least }

-- The counters of the write operations, which a step of a read operation leaves alone.
abbrev pub write_side : Core → ℕ × ℕ × ℕ × Bool
write_side s = (
  s.next_message_being_read, s.next_message_being_written, s.next_write_callback_to_call,
  s.write_callbacks_checked,
)

-- A step of one read operation behind an operation in state `prev`.
pub record ReadStep (prev : ReadState) (x y : ReadOperation × Core) : Type 0 where
  pub same_number : y.0.sequence_number ≡ x.0.sequence_number
  pub forward : read_number x.0.state ≤ read_number y.0.state
  pub behind :
      read_need (read_number x.0.state) ≤ read_number prev
      → read_need (read_number y.0.state) ≤ read_number prev
  pub counts :
      Counts read_callbacks x.0.sequence_number
        (read_number x.0.state)
        (read_number y.0.state)
        x.1
        y.1
  pub counts_descriptors :
      Counts read_descriptor_callbacks x.0.sequence_number
        (read_number x.0.state)
        (read_number y.0.state)
        x.1
        y.1
  pub same_error : y.1.error ≡ x.1.error
  pub same_state : y.1.state ≡ x.1.state
  pub same_write_side : write_side y.1 ≡ write_side x.1
  pub same_registrations : registrations y.1 ≡ registrations x.1

ReadStep-trans :
    (prev : ReadState) (x y z : ReadOperation × Core)
    → ReadStep prev x y
    → ReadStep prev y z
    → ReadStep prev x z
ReadStep-trans prev x y z a b = record {
  same_number = b.same_number ∙ a.same_number;
  forward = omega arith;
  behind = λ h. b.behind (a.behind h);
  counts =
      Counts-trans read_callbacks x.0.sequence_number (read_number x.0.state)
        (read_number y.0.state) (read_number z.0.state) x.1 y.1 z.1 a.forward b.forward a.counts
        (rw (← a.same_number) b.counts);
  counts_descriptors =
      Counts-trans read_descriptor_callbacks x.0.sequence_number (read_number x.0.state)
        (read_number y.0.state) (read_number z.0.state) x.1 y.1 z.1 a.forward b.forward
        a.counts_descriptors (rw (← a.same_number) b.counts_descriptors);
  same_error = b.same_error ∙ a.same_error;
  same_state = b.same_state ∙ a.same_state;
  same_write_side = b.same_write_side ∙ a.same_write_side;
  same_registrations = b.same_registrations ∙ a.same_registrations;
}

flush_before_descriptor_step :
    (prev : ReadState) (x : ReadOperation × Core) → ReadStep prev x (flush_before_descriptor prev x)
unfolding flush_before_descriptor call_read_descriptor_callback
flush_before_descriptor_step prev x = ground arith

start_reading_descriptor_step :
    (prev : ReadState) (x : ReadOperation × Core)
    → ReadStep prev x (start_reading_descriptor prev x)
unfolding start_reading_descriptor read_descriptor_of_message
start_reading_descriptor_step prev x = ground arith

hand_over_descriptor_step :
    (prev : ReadState) (x : ReadOperation × Core) → ReadStep prev x (hand_over_descriptor prev x)
unfolding hand_over_descriptor call_read_descriptor_callback
hand_over_descriptor_step prev x = ground arith

become_first_in_line_step :
    (prev : ReadState) (x : ReadOperation × Core) → ReadStep prev x (become_first_in_line prev x)
unfolding become_first_in_line expect_read_call
become_first_in_line_step prev x = ground arith

flush_after_allocation_step :
    (prev : ReadState) (x : ReadOperation × Core) → ReadStep prev x (flush_after_allocation prev x)
unfolding flush_after_allocation call_read_callback
flush_after_allocation_step prev x = ground arith

start_reading_step :
    (prev : ReadState) (x : ReadOperation × Core) → ReadStep prev x (start_reading prev x)
unfolding start_reading
start_reading_step prev (op, s) = ground (arith, reading-quiet op s)

start_reading_and_reply_step :
    (prev : ReadState) (x : ReadOperation × Core) → ReadStep prev x (start_reading_and_reply prev x)
unfolding start_reading_and_reply
start_reading_and_reply_step prev (op, s) = ground (arith, replying-quiet op s)

finish_reading_step :
    (prev : ReadState) (x : ReadOperation × Core) → ReadStep prev x (finish_reading prev x)
unfolding finish_reading call_read_callback
finish_reading_step prev x = ground arith

-- `advanceReadOperation` as a whole.
pub advance_read_operation_step :
    (op : ReadOperation) (prev : ReadState) (s : Core)
    → ReadStep prev (op, s) (advance_read_operation op prev s)
unfolding advance_read_operation
advance_read_operation_step op prev s =
    let a = flush_before_descriptor prev (op, s) in
    let b = start_reading_descriptor prev a in
    let c = hand_over_descriptor prev b in
    let d = become_first_in_line prev c in
    let e = flush_after_allocation prev d in
    let f = start_reading prev e in
    let g = start_reading_and_reply prev f in
    let h = finish_reading prev g in
    ReadStep-trans prev (op, s) a h (flush_before_descriptor_step prev (op, s))
      (ReadStep-trans prev a b h (start_reading_descriptor_step prev a) (
        ReadStep-trans prev b c h (hand_over_descriptor_step prev b) (
          ReadStep-trans prev c d h (become_first_in_line_step prev c) (
            ReadStep-trans prev d e h (flush_after_allocation_step prev d) (
              ReadStep-trans prev e f h (start_reading_step prev e) (
                ReadStep-trans prev f g h (start_reading_and_reply_step prev f)
                  (finish_reading_step prev g)))))))

read_one_finished : (st : ReadState) → read_number st ≡ 5 → st ≡ ReadState.finished
read_one_finished st h = ground arith

-- `advanceReadOperation` keeps an operation's number, has one FINISHED state, never moves an
-- operation back, never takes it past the operation before it, and takes it to READING_DESCRIPTOR
-- or to ASKING_FOR_ALLOCATION_FIRST_IN_LINE only behind an operation that has scheduled its reads.
pub read_machine-IsOrderly : IsOrderly read_machine read_spacing
read_machine-IsOrderly = record {
  lawful = record {
    keeps_seq = λ op p s. (advance_read_operation_step op p s).same_number;
    one_finished = read_one_finished;
  };
  forward = λ op p s. (advance_read_operation_step op p s).forward;
  behind = λ op p s h. (advance_read_operation_step op p s).behind h;
}

pub read_callbacks-HasCounter : HasCounter read_machine read_spacing read_callbacks
read_callbacks-HasCounter op p s h = (advance_read_operation_step op p s).counts

pub read_descriptor_callbacks-HasCounter :
    HasCounter read_machine read_spacing read_descriptor_callbacks
read_descriptor_callbacks-HasCounter op p s h =
    (advance_read_operation_step op p s).counts_descriptors
