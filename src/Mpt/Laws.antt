-- ===== src/Mpt/Laws.antt =====
-- channel/mpt/channel_impl.cc: the transitioners of the send and recv operations keep the numbers.
use tensorpipe.Prelude.{ℕ, zero, suc, ◌+◌, ◌≡◌, refl, arith}
use tensorpipe.StateMachine.Sweep.{IsLawful}
use tensorpipe.Mpt.{
  SendOperation, RecvOperation, OperationState, operation_number, Core, write_chunks_from,
  write_chunks, read_chunks_from, read_chunks, call_send_callback, call_recv_callback,
  advance_send_operation, advance_recv_operation, send_machine, recv_machine,
}

write_chunks_from-number :
    (n i : ℕ) (op : SendOperation) (s : Core)
    → (write_chunks_from n i (op, s)).0.sequence_number ≡ op.sequence_number
unfolding write_chunks_from
write_chunks_from-number zero i op s = refl
write_chunks_from-number (suc n) i op s = write_chunks_from-number n (i + 1) _ _

read_chunks_from-number :
    (n i : ℕ) (op : RecvOperation) (s : Core)
    → (read_chunks_from n i (op, s)).0.sequence_number ≡ op.sequence_number
unfolding read_chunks_from
read_chunks_from-number zero i op s = refl
read_chunks_from-number (suc n) i op s = read_chunks_from-number n (i + 1) _ _

write_chunks-number :
    (op : SendOperation) (s : Core) → (write_chunks (op, s)).0.sequence_number ≡ op.sequence_number
unfolding write_chunks
write_chunks-number op s = write_chunks_from-number _ 0 op s

read_chunks-number :
    (op : RecvOperation) (s : Core) → (read_chunks (op, s)).0.sequence_number ≡ op.sequence_number
unfolding read_chunks
read_chunks-number op s = read_chunks_from-number _ 0 op s

operation_one_finished :
    (st : OperationState) → operation_number st ≡ 2 → st ≡ OperationState.finished
operation_one_finished st h = ground arith

advance_send_operation-number :
    (op : SendOperation) (prev : OperationState) (s : Core)
    → (advance_send_operation op prev s).0.sequence_number ≡ op.sequence_number
unfolding advance_send_operation call_send_callback
advance_send_operation-number op prev s = ground (arith, write_chunks-number op s)

advance_recv_operation-number :
    (op : RecvOperation) (prev : OperationState) (s : Core)
    → (advance_recv_operation op prev s).0.sequence_number ≡ op.sequence_number
unfolding advance_recv_operation call_recv_callback
advance_recv_operation-number op prev s = ground (arith, read_chunks-number op s)

pub send_machine-IsLawful : IsLawful send_machine
send_machine-IsLawful = record {
  keeps_seq = advance_send_operation-number;
  one_finished = operation_one_finished;
}

pub recv_machine-IsLawful : IsLawful recv_machine
recv_machine-IsLawful = record {
  keeps_seq = advance_recv_operation-number;
  one_finished = operation_one_finished;
}
