-- ===== src/Tests.antt =====
-- Runs of the models at concrete inputs.
use tensorpipe.Prelude.{
  Bool, inl, ℕ, ◌+◌, ◌≡◌, ◌^◌, refl, true, false, Option, none, some, List, [], ◌∷◌, ◌++◌, arith,
  take, drop, not, ◌&&◌, ltb, leb, min, tabulate, ◌%◌, ◌<◌, ◌⊎◌,
}
use tensorpipe.Prelude.Word.{add64}
use tensorpipe.StateMachine.{
  advance_operation, advance_from, advance_all_operations, pop_finished, advance_all_from,
  advance_one, emplace_back, find_operation, prev_state, store,
}
use tensorpipe.StateMachine.Sweep.{sweep, advance_operation-sweep, advance_from_enough}
use tensorpipe.StateMachine.AdvanceAll.{sweep_all, advance_all_operations-sweep}
use tensorpipe.Pipe.Types.{
  pos, Device, TensorMessage, Message, Core, PipeState, WriteState, WriteOperation, ReadOperation,
  read_descriptor, send_tensor, write_descriptor,
}
use tensorpipe.Pipe.Actions.{
  make_descriptor_for_message, make_descriptor_reply_for_message, parse_descriptor_reply_of_message,
  describe_tensor, find_channel, read_descriptor_of_message, send_tensors_from,
  send_tensors_of_message, write_descriptor_of_message, write_payloads_from,
  write_payloads_of_message,
}
use tensorpipe.Pipe.Advance.{
  write_machine, advance_read_operation, advance_write_operation, become_first_in_line,
  finish_reading, finish_writing, flush_after_allocation, flush_after_reply,
  flush_before_descriptor, flush_before_writing, hand_over_descriptor, start_reading,
  start_reading_and_reply, start_reading_descriptor, start_sending, start_writing,
  start_writing_and_ask,
}
use tensorpipe.Pipe.Advance.WriteLaws.{write_machine-IsOrderly}
use tensorpipe.Pipe.Handlers.{
  Event, user_reads_descriptor, user_writes, user_closes, payload_written, channels_selected,
  handshake_done, tensor_sent, step, run, new_pipe, new_read_operation, new_write_operation,
  advance_all_reads, advance_all_writes, advance_read, advance_write, assign_channels,
  become_established, read_descriptor_from_loop, write_from_loop,
}
use tensorpipe.Pipe.Handlers.Sound.{IsSound}
use tensorpipe.Pipe.Handlers.Callbacks.{step-IsSound, run-new_pipe-IsSound}
use tensorpipe.Pipe.Reply.{resolve, parse_descriptor_reply-make}
use tensorpipe.RingBuffer.{
  Header, Role, new_role, returned, failed, enodata, no_access, areas, Area,
  access_contiguous_in_tx, read, write, head_of, read_marker,
}
use tensorpipe.RingBuffer.Areas.{IsHeader, IsTx, left_over, next_offset}
use tensorpipe.RingBuffer.Grants.{positions, access_contiguous_in_tx-grants}
use tensorpipe.RingBuffer.Fifo.{queue_header, queue_ring, IsQueue, contents, write-full, read-short}
use tensorpipe.RingBuffer.Refines.{write-append, read-take}
use tensorpipe.RingBuffer.Queue.{put, get, ring_replies, queue_replies, ring_replies-queue}
use tensorpipe.Allocator.{close, refused, Allocator, given, alloc, release_chunk}
use tensorpipe.Allocator.Chunks.{
  close-refuses, IsSettled, count_available, alloc-IsSettled, release_chunk-IsSettled,
}
use tensorpipe.RearmableCallback.{
  Step, arms, triggers, run_steps, armed, triggered, zip, run_steps-zip,
}

-- A message with two tensors, one of which has no target device.
abbrev cpu : Device
cpu = record { device_type = "cpu"; index = pos 0 }

abbrev gpu : Device
gpu = record { device_type = "cuda"; index = pos 1 }

abbrev tensor_to : Option Device → TensorMessage
tensor_to d = record {
  buffer = record { device = cpu; address = 8 };
  length = 16;
  target_device = d;
  metadata = "";
}

-- A pipe: the handshake, a write of a tensor, two writes of bytes, a read, and an error in between.
abbrev text_message : Message
text_message = record {
  metadata = "text";
  payloads = record { address = 64; length = 3; metadata = "" } ∷ [];
  tensors = [];
}

abbrev tensor_message : Message
tensor_message = record { metadata = ""; payloads = []; tensors = tensor_to (some cpu) ∷ [] }

abbrev first_events : List Event
first_events =
    user_writes tensor_message
    ∷ channels_selected (((cpu, cpu), "basic") ∷ [])
    ∷ handshake_done
    ∷ user_reads_descriptor
    ∷ []

abbrev busy_events : List Event
busy_events =
    first_events
    ++ user_writes text_message
      ∷ user_writes text_message
      ∷ tensor_sent 0 none
      ∷ payload_written 2 none
      ∷ payload_written 1 (some 7)
      ∷ user_closes
      ∷ []

-- The tensor is sent over the channel that the handshake has selected.
first_events_calls :
    (run (new_pipe PipeState.server_waiting_for_brochure) first_events).core.calls
    ≡ read_descriptor 0
      ∷ send_tensor 0 0 "basic" (record { device = cpu; address = 8 }) 16
      ∷ write_descriptor 0 (make_descriptor_for_message (new_write_operation 0 tensor_message))
      ∷ []
unfolding new_pipe run step assign_channels become_established write_from_loop
    read_descriptor_from_loop advance_all_reads advance_all_writes advance_read advance_write
    emplace_back find_operation prev_state store pop_finished advance_one advance_from
    advance_operation advance_all_from advance_all_operations advance_read_operation
    advance_write_operation flush_before_descriptor start_reading_descriptor hand_over_descriptor
    become_first_in_line flush_after_allocation start_reading start_reading_and_reply finish_reading
    flush_before_writing start_writing start_writing_and_ask flush_after_reply start_sending
    finish_writing send_tensors_of_message send_tensors_from write_payloads_of_message
    write_payloads_from write_descriptor_of_message make_descriptor_for_message
    read_descriptor_of_message find_channel describe_tensor
first_events_calls = refl

run-new_pipe-IsSound_example :
    IsSound (run (new_pipe PipeState.server_waiting_for_brochure) busy_events)
run-new_pipe-IsSound_example =
    run-new_pipe-IsSound PipeState.server_waiting_for_brochure busy_events

step-IsSound_example : IsSound (
    step
      (run (new_pipe PipeState.server_waiting_for_brochure) busy_events)
      (payload_written 1 none))
step-IsSound_example =
    step-IsSound (run (new_pipe PipeState.server_waiting_for_brochure) busy_events)
      (payload_written 1 none)
      (run-new_pipe-IsSound PipeState.server_waiting_for_brochure busy_events)

-- Two write operations, the first under way.
abbrev first_write : WriteOperation
first_write = record (new_write_operation 4 text_message) {
  state = WriteState.writing_payloads_and_sending_tensors;
}

abbrev second_write : WriteOperation
second_write = new_write_operation 5 text_message

abbrev established_core : Core
established_core = (new_pipe PipeState.established).core

advance_operation-sweep_example :
    advance_operation write_machine (first_write ∷ second_write ∷ []) (4 + 0) established_core ≡ (
      let (after, s) =
        sweep write_machine WriteState.finished
          (first_write ∷ second_write ∷ [])
          established_core in
      (pop_finished write_machine after, s))
advance_operation-sweep_example =
    advance_operation-sweep write_machine write_machine-IsOrderly.lawful []
      (first_write ∷ second_write ∷ []) 4 established_core (refl, (refl, tt)) refl

advance_from_enough_example :
    advance_from write_machine 9 (4 + 1) (first_write ∷ second_write ∷ []) established_core
    ≡ advance_operation write_machine (first_write ∷ second_write ∷ []) (4 + 1) established_core
advance_from_enough_example =
    advance_from_enough write_machine write_machine-IsOrderly.lawful (first_write ∷ [])
      (second_write ∷ []) 4 9 established_core (refl, (refl, tt)) refl (omega arith)

advance_all_operations-sweep_example :
    advance_all_operations write_machine (first_write ∷ second_write ∷ []) established_core ≡ (
      let (ops, s) =
        sweep_all write_machine WriteState.finished
          (first_write ∷ second_write ∷ [])
          established_core in
      (pop_finished write_machine ops, s))
advance_all_operations-sweep_example =
    advance_all_operations-sweep write_machine write_machine-IsOrderly.lawful
      (first_write ∷ second_write ∷ []) 4 established_core (refl, (refl, tt)) (refl, (refl, tt))

abbrev tensor_write : WriteOperation
tensor_write =
    new_write_operation 0 (record {
      metadata = "";
      payloads = [];
      tensors = tensor_to (some cpu) ∷ tensor_to none ∷ [];
    })

abbrev tensor_read : ReadOperation
tensor_read = record (new_read_operation 0) {
  descriptor = make_descriptor_for_message tensor_write;
  allocation = record {
    payloads = [];
    tensors = record { device = cpu; address = 1 } ∷ record { device = gpu; address = 2 } ∷ [];
  };
}

parse_descriptor_reply-make_example :
    parse_descriptor_reply_of_message tensor_write (make_descriptor_reply_for_message tensor_read)
    ≡ (
      record tensor_write {
        tensors = resolve tensor_write.message.tensors tensor_read.allocation.tensors;
      },
      true,
    )
parse_descriptor_reply-make_example =
    parse_descriptor_reply-make tensor_write tensor_read refl refl refl

-- A ring of four bytes, whose producer has wrapped around at 2 ^ 64.
abbrev four_bytes : List ℕ
four_bytes = 10 ∷ 20 ∷ 30 ∷ 40 ∷ []

abbrev last_word : ℕ
last_word = 18446744073709551615

wrapped-IsQueue : IsQueue 2 last_word 1 four_bytes
wrapped-IsQueue = record {
  bits_bound = omega arith;
  consumed_bound = omega arith;
  produced_bound = omega arith;
  lap = omega arith;
  full_length = refl;
}

ring_replies-queue_example :
    ring_replies
      (queue_ring 2 last_word 1 four_bytes)
      (get 1 ∷ put (7 ∷ 8 ∷ 9 ∷ []) ∷ get 4 ∷ get 1 ∷ [])
    ≡ queue_replies
        (2 ^ 2)
        (contents 2 last_word 1 four_bytes)
        (get 1 ∷ put (7 ∷ 8 ∷ 9 ∷ []) ∷ get 4 ∷ get 1 ∷ [])
ring_replies-queue_example =
    ring_replies-queue 2 last_word 1 four_bytes (get 1 ∷ put (7 ∷ 8 ∷ 9 ∷ []) ∷ get 4 ∷ get 1 ∷ [])
      wrapped-IsQueue

write-append_example :
    (bytes' : List ℕ) × (write (7 ∷ 8 ∷ []) 2 (queue_ring 2 last_word 1 four_bytes, new_role 1)
      ≡ (returned 2, queue_ring 2 last_word (add64 1 2) bytes', new_role 1))
    × IsQueue 2 last_word (add64 1 2) bytes'
    × (contents 2 last_word (add64 1 2) bytes' ≡ contents 2 last_word 1 four_bytes ++ 7 ∷ 8 ∷ [])
unfolding contents
write-append_example =
    write-append 2 last_word 1 four_bytes wrapped-IsQueue (7 ∷ 8 ∷ []) (omega arith)

read-take_example :
    (read 2 (queue_ring 2 last_word 1 four_bytes, new_role 0) ≡ (
      (returned 2, take 2 (contents 2 last_word 1 four_bytes)),
      queue_ring 2 (add64 last_word 2) 1 four_bytes,
      new_role 0,
    ))
    × IsQueue 2 (add64 last_word 2) 1 four_bytes
    × (contents 2 (add64 last_word 2) 1 four_bytes ≡ drop 2 (contents 2 last_word 1 four_bytes))
unfolding contents
read-take_example = read-take 2 last_word 1 four_bytes wrapped-IsQueue 2 (omega arith)

write-full_example :
    write (7 ∷ 8 ∷ 9 ∷ []) 3 (queue_ring 2 last_word 1 four_bytes, new_role 1)
    ≡ (failed enodata, queue_ring 2 last_word 1 four_bytes, new_role 1)
unfolding contents
write-full_example =
    write-full 2 last_word 1 four_bytes wrapped-IsQueue (7 ∷ 8 ∷ 9 ∷ []) (omega arith)

read-short_example :
    read 3 (queue_ring 2 last_word 1 four_bytes, new_role 0)
    ≡ ((failed enodata, []), queue_ring 2 last_word 1 four_bytes, new_role 0)
unfolding contents
read-short_example = read-short 2 last_word 1 four_bytes wrapped-IsQueue 3 (omega arith)

-- A producer in a transaction that has granted one byte already.
abbrev open_producer : Role
open_producer = record { role_idx = 1; tx_size = 1; in_tx = true; tx_checked = true }

abbrev open_header : Header
open_header = queue_header 2 last_word 1 (false ∷ true ∷ [])

open_header-IsHeader : IsHeader open_header
open_header-IsHeader = record { bits = 2; bits_bound = omega arith; size = refl; mask = refl }

open_producer-IsTx : IsTx open_header open_producer
unfolding head_of read_marker
open_producer-IsTx = record {
  started = refl;
  share = omega arith;
  checked = refl;
  taken = omega arith;
}

access_contiguous_in_tx-grants_example :
    ((true ≡ false)
      × (left_over open_header open_producer < 5)
      × (access_contiguous_in_tx true 5 open_header open_producer
          ≡ (no_access enodata, open_producer)))
    ⊎ ((parts : List Area) × ((not true && ltb (left_over open_header open_producer) 5) ≡ false)
        × (access_contiguous_in_tx true 5 open_header open_producer ≡ (
          areas parts,
          record open_producer { tx_size = 1 + min 5 (left_over open_header open_producer) },
        ))
        × (positions parts
            ≡ tabulate
                (min 5 (left_over open_header open_producer))
                (λ i. (next_offset open_header open_producer + i) % 4)))
access_contiguous_in_tx-grants_example =
    access_contiguous_in_tx-grants true 5 open_header open_producer open_header-IsHeader
      open_producer-IsTx

-- An allocator with one chunk of two in use.
abbrev one_in_use : Allocator
one_in_use = record {
  chunk_size = 8;
  chunk_available = false ∷ true ∷ [];
  allocated_chunks = 1;
  pending_allocations = [];
  closed = false;
  calls = given 0 0 ∷ [];
  alloc_checked = true;
}

one_in_use-IsSettled : IsSettled one_in_use
unfolding count_available
one_in_use-IsSettled = record {
  counted = record { counts = refl; word = omega arith };
  busy = inl refl;
}

alloc-IsSettled_example : IsSettled (alloc 5 1 one_in_use)
alloc-IsSettled_example = alloc-IsSettled 5 1 one_in_use one_in_use-IsSettled

release_chunk-IsSettled_example : IsSettled (release_chunk 0 one_in_use)
release_chunk-IsSettled_example = release_chunk-IsSettled 0 one_in_use refl one_in_use-IsSettled

-- An allocator whose only chunk is in use, with two requests pending.
abbrev two_pending : Allocator
two_pending = record {
  chunk_size = 8;
  chunk_available = false ∷ [];
  allocated_chunks = 1;
  pending_allocations = 1 ∷ 2 ∷ [];
  closed = false;
  calls = given 0 0 ∷ [];
  alloc_checked = true;
}

close-refuses_example :
    (close two_pending ≡ record two_pending {
      closed = true;
      pending_allocations = [];
      calls = refused 2 ∷ refused 1 ∷ given 0 0 ∷ [];
    })
    × (alloc 5 3 (close two_pending) ≡ record (close two_pending) {
      calls = refused 3 ∷ (close two_pending).calls;
      alloc_checked = (close two_pending).alloc_checked && leb 5 (close two_pending).chunk_size;
    })
close-refuses_example = close-refuses two_pending 5 3 refl

abbrev mixed_steps : List (Step Bool ℕ)
mixed_steps = arms true ∷ triggers 4 ∷ triggers 5 ∷ arms false ∷ arms true ∷ []

run_steps-zip_example :
    (run_steps (record { callbacks = []; args = []; fired = [] }) mixed_steps).fired
    ≡ zip (armed mixed_steps) (triggered mixed_steps)
run_steps-zip_example = run_steps-zip mixed_steps
