-- ===== src/Pipe/Advance/WriteLaws.antt =====
-- What each transition of a write operation keeps to.
use tensorpipe.Prelude.{ℕ, ◌≤◌, ◌≡◌, ◌∙◌, Bool, arith}
use tensorpipe.StateMachine.Counter.{Counter, Counts, Counts-trans, HasCounter}
use tensorpipe.StateMachine.Order.{Spacing, IsOrderly}
use tensorpipe.Pipe.Types.{WriteOperation, registrations, WriteState, write_number, Core}
use tensorpipe.Pipe.Actions.{call_write_callback}
use tensorpipe.Pipe.Actions.Quiet.{writing-quiet, sending-quiet, asking-quiet}
use tensorpipe.Pipe.Advance.{
  flush_before_writing, start_writing, start_writing_and_ask, flush_after_reply, start_sending,
  finish_writing, advance_write_operation, write_machine,
}

-- `nextWriteCallbackToCall_`, which counts the operations that are FINISHED.
abbrev pub write_callbacks : Counter Core
write_callbacks = record {
  threshold = 3;
  value = λ s. s.next_write_callback_to_call;
  checked = λ s. s.write_callbacks_checked;
}

-- An operation is never in a later state than the one before it.
abbrev pub write_spacing : Spacing
write_spacing = record { need = λ r. r; at_least = λ r. omega arith }

-- The counters of the read operations, which a step of a write operation leaves alone.
abbrev pub read_side : Core → ℕ × ℕ × ℕ × ℕ × Bool × Bool
read_side s = (
  s.next_message_being_read, s.next_message_being_written, s.next_read_descriptor_callback_to_call,
  s.next_read_callback_to_call, s.read_descriptor_callbacks_checked, s.read_callbacks_checked,
)

-- A step of one write operation behind an operation in state `prev`.
pub record WriteStep (prev : WriteState) (x y : WriteOperation × Core) : Type 0 where
  pub same_number : y.0.sequence_number ≡ x.0.sequence_number
  pub forward : write_number x.0.state ≤ write_number y.0.state
  pub behind :
      write_number x.0.state ≤ write_number prev → write_number y.0.state ≤ write_number prev
  pub counts :
      Counts write_callbacks x.0.sequence_number
        (write_number x.0.state)
        (write_number y.0.state)
        x.1
        y.1
  pub same_error : y.1.error ≡ x.1.error
  pub same_state : y.1.state ≡ x.1.state
  pub same_read_side : read_side y.1 ≡ read_side x.1
  pub same_registrations : registrations y.1 ≡ registrations x.1

WriteStep-trans :
    (prev : WriteState) (x y z : WriteOperation × Core)
    → WriteStep prev x y
    → WriteStep prev y z
    → WriteStep prev x z
WriteStep-trans prev x y z a b = record {
  same_number = b.same_number ∙ a.same_number;
  forward = omega arith;
  behind = λ h. b.behind (a.behind h);
  counts =
      Counts-trans write_callbacks x.0.sequence_number (write_number x.0.state)
        (write_number y.0.state) (write_number z.0.state) x.1 y.1 z.1 a.forward b.forward a.counts
        (rw (← a.same_number) b.counts);
  same_error = b.same_error ∙ a.same_error;
  same_state = b.same_state ∙ a.same_state;
  same_read_side = b.same_read_side ∙ a.same_read_side;
  same_registrations = b.same_registrations ∙ a.same_registrations;
}

flush_before_writing_step :
    (prev : WriteState) (x : WriteOperation × Core) → WriteStep prev x (flush_before_writing prev x)
unfolding flush_before_writing call_write_callback
flush_before_writing_step prev x = ground arith

start_writing_step :
    (prev : WriteState) (x : WriteOperation × Core) → WriteStep prev x (start_writing prev x)
unfolding start_writing
start_writing_step prev (op, s) = ground (arith, writing-quiet op s)

start_writing_and_ask_step :
    (prev : WriteState) (x : WriteOperation × Core)
    → WriteStep prev x (start_writing_and_ask prev x)
unfolding start_writing_and_ask
start_writing_and_ask_step prev (op, s) = ground (arith, asking-quiet op s)

flush_after_reply_step :
    (prev : WriteState) (x : WriteOperation × Core) → WriteStep prev x (flush_after_reply prev x)
unfolding flush_after_reply call_write_callback
flush_after_reply_step prev x = ground arith

start_sending_step :
    (prev : WriteState) (x : WriteOperation × Core) → WriteStep prev x (start_sending prev x)
unfolding start_sending
start_sending_step prev (op, s) = ground (arith, sending-quiet op s)

finish_writing_step :
    (prev : WriteState) (x : WriteOperation × Core) → WriteStep prev x (finish_writing prev x)
unfolding finish_writing call_write_callback
finish_writing_step prev x = ground arith

-- `advanceWriteOperation` as a whole.
pub advance_write_operation_step :
    (op : WriteOperation) (prev : WriteState) (s : Core)
    → WriteStep prev (op, s) (advance_write_operation op prev s)
unfolding advance_write_operation
advance_write_operation_step op prev s =
    let a = flush_before_writing prev (op, s) in
    let b = start_writing prev a in
    let c = start_writing_and_ask prev b in
    let d = flush_after_reply prev c in
    let e = start_sending prev d in
    let f = finish_writing prev e in
    WriteStep-trans prev (op, s) a f (flush_before_writing_step prev (op, s))
      (WriteStep-trans prev a b f (start_writing_step prev a) (
        WriteStep-trans prev b c f (start_writing_and_ask_step prev b) (
          WriteStep-trans prev c d f (flush_after_reply_step prev c)
            (WriteStep-trans prev d e f (start_sending_step prev d) (finish_writing_step prev e)))))

write_one_finished : (st : WriteState) → write_number st ≡ 3 → st ≡ WriteState.finished
write_one_finished st h = ground arith

-- `advanceWriteOperation` keeps an operation's number, has one FINISHED state, never moves an
-- operation back, and never takes it past the operation before it.
pub write_machine-IsOrderly : IsOrderly write_machine write_spacing
write_machine-IsOrderly = record {
  lawful = record {
    keeps_seq = λ op p s. (advance_write_operation_step op p s).same_number;
    one_finished = write_one_finished;
  };
  forward = λ op p s. (advance_write_operation_step op p s).forward;
  behind = λ op p s h. (advance_write_operation_step op p s).behind h;
}

pub write_callbacks-HasCounter : HasCounter write_machine write_spacing write_callbacks
write_callbacks-HasCounter op p s h = (advance_write_operation_step op p s).counts
