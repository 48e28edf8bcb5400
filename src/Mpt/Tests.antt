-- ===== src/Mpt/Tests.antt =====
-- Runs of the channel at concrete inputs.
use tensorpipe.Prelude.{ℕ, ◌+◌, ◌≡◌, refl, true, none, some, [], ◌∷◌, ◌++◌, arith, tabulate}
use tensorpipe.StateMachine.{
  find_operation, prev_state, store, pop_finished, advance_one, advance_from, advance_operation,
  advance_all_from, advance_all_operations, emplace_back,
}
use tensorpipe.StateMachine.AdvanceAll.{advance_all_operations_stops}
use tensorpipe.Mpt.{
  SendOperation, OperationState, Core, Channel, send_callback, read_server_hello, enroll,
  close_connection, unenroll, write_chunks, send_machine, advance_send_operation,
  call_send_callback, advance_send, advance_all, handle_error_impl, set_error, close_from_loop,
  send_from_loop,
}
use tensorpipe.Mpt.Handlers.{new_channel, init_client}
use tensorpipe.Mpt.Chunks.{written_addresses, written_lanes, write_chunks-addresses}
use tensorpipe.Mpt.Laws.{send_machine-IsLawful}

abbrev send_of : ℕ → ℕ → OperationState → SendOperation
send_of n len st = record {
  sequence_number = n;
  state = st;
  num_chunks_being_written = 0;
  ptr = 100;
  length = len;
}

-- A channel with two lanes.
abbrev two_lanes : Core
two_lanes = record ((new_channel 2).core) { lanes = true ∷ true ∷ [] }

write_chunks-addresses_example :
    (written_addresses 3
        (write_chunks (send_of 3 5 OperationState.uninitialized, two_lanes)).1.calls
      ≡ written_addresses 3 two_lanes.calls ++ tabulate 5 (λ i. 100 + i))
    × (written_lanes 3 (write_chunks (send_of 3 5 OperationState.uninitialized, two_lanes)).1.calls
        ≡ written_lanes 3 two_lanes.calls ++ tabulate 2 (λ i. i))
    × ((write_chunks
          (send_of 3 5 OperationState.uninitialized, two_lanes)).0.num_chunks_being_written
        ≡ 0 + 2)
unfolding new_channel
write_chunks-addresses_example =
    write_chunks-addresses (send_of 3 5 OperationState.uninitialized) two_lanes (omega arith)
      (omega arith)

-- A channel that got an error before its lanes were connected. An empty send had FINISHED already,
-- between two that are waiting.
abbrev failed_core : Core
failed_core = record ((new_channel 2).core) { error = some 0 }

advance_all_operations_stops_example :
    advance_all_operations send_machine
      (send_of 0 1 OperationState.uninitialized
        ∷ send_of 1 0 OperationState.finished
        ∷ send_of 2 1 OperationState.uninitialized
        ∷ [])
      failed_core
    ≡ (
      pop_finished send_machine (send_of 2 1 OperationState.uninitialized ∷ []),
      (advance_send_operation
          (send_of 0 1 OperationState.uninitialized)
          OperationState.finished
          failed_core).1,
    )
unfolding advance_send_operation new_channel call_send_callback
advance_all_operations_stops_example =
    advance_all_operations_stops send_machine send_machine-IsLawful
      (send_of 0 1 OperationState.uninitialized) (send_of 1 0 OperationState.finished)
      (send_of 2 1 OperationState.uninitialized ∷ []) 0 failed_core (refl, (refl, (refl, tt))) refl
      refl

-- Three sends on a channel that is not established, then `close`: the callback of the third one is
-- not called.
abbrev closed_early : Channel
closed_early = close_from_loop (
    send_from_loop 300 1
      (send_from_loop 200 0 (send_from_loop 100 1 (init_client (new_channel 1)))))

closed_early-calls :
    closed_early.core.calls
    ≡ unenroll
      ∷ close_connection
      ∷ send_callback 0 (some 0)
      ∷ send_callback 1 none
      ∷ read_server_hello
      ∷ enroll
      ∷ []
unfolding close_from_loop set_error handle_error_impl advance_all send_from_loop advance_send
    init_client new_channel emplace_back advance_operation advance_from advance_all_operations
    advance_all_from advance_one find_operation prev_state store pop_finished advance_send_operation
    call_send_callback
closed_early-calls = refl
