-- ===== src/Pipe/Handlers/Callbacks.antt =====
-- Every handler of a pipe keeps its operations in order, so the user's callbacks are called in turn.
use tensorpipe.Prelude.{
  ℕ, ◌≡◌, refl, sym, subst, inl, inr, not, ◌&&◌, ◌||◌, length-append, Bool, true, false, none, some,
  List, [], ◌∷◌, arith, Option-cases, Bool-cases,
}
use tensorpipe.StateMachine.{find_operation, emplace_back}
use tensorpipe.StateMachine.Replace.{append-IsDeque, append-count_from}
use tensorpipe.Pipe.Types.{
  Device, Message, Descriptor, Allocation, Error, is_error, Pipe, PipeState, ReadOperation,
  WriteOperation,
}
use tensorpipe.Pipe.Actions.{parse_descriptor_reply_of_message}
use tensorpipe.Pipe.Advance.{read_machine, write_machine}
use tensorpipe.Pipe.Advance.WriteLaws.{write_spacing}
use tensorpipe.Pipe.Advance.ReadLaws.{read_spacing}
use tensorpipe.Pipe.Handlers.Sound.{
  IsSound, view-IsSound, advance_all_reads-IsSound, advance_all_writes-IsSound,
  advance_read-IsSound, advance_write-IsSound, update-WritesSound, update-ReadsSound,
}
use tensorpipe.Pipe.Handlers.{
  advance_read, close_and_unregister, handle_error, set_error, become_established,
  new_read_operation, new_write_operation, read_descriptor_from_loop, read_from_loop,
  check_allocation_compatibility, give_allocation, write_from_loop, close_from_loop,
  take_descriptor, take_reply, reply_fits, on_descriptor_read, on_payload_read, on_tensor_received,
  on_payload_written, on_tensor_sent, on_descriptor_reply_read, on_done, Event,
  user_reads_descriptor, user_reads, user_writes, user_closes, channels_selected, handshake_done,
  assign_channels, descriptor_read, payload_read, tensor_received, payload_written, tensor_sent,
  descriptor_reply_read, other_done, step, run, new_pipe, update_operation,
}

read_gone :
    (a : Allocation) (p : Pipe) (n : ℕ)
    → p.core.next_message_getting_allocation ≡ some n
    → find_operation read_machine p.read_ops n ≡ none
    → read_from_loop a p
      ≡ (record p { core = record (p.core) { next_message_getting_allocation = none } }, true)
unfolding read_from_loop
read_gone a p n e e' = ground arith

read_refused :
    (a : Allocation) (p : Pipe) (n : ℕ) (op : ReadOperation)
    → p.core.next_message_getting_allocation ≡ some n
    → find_operation read_machine p.read_ops n ≡ some op
    → check_allocation_compatibility op.descriptor a ≡ false
    → read_from_loop a p
      ≡ (record p { core = record (p.core) { next_message_getting_allocation = none } }, true)
unfolding read_from_loop
read_refused a p n op e e' t = ground arith

read_taken :
    (a : Allocation) (p : Pipe) (n : ℕ) (op : ReadOperation)
    → p.core.next_message_getting_allocation ≡ some n
    → find_operation read_machine p.read_ops n ≡ some op
    → check_allocation_compatibility op.descriptor a ≡ true
    → read_from_loop a p ≡ (
      advance_read n (record p {
        core = record (p.core) { next_message_getting_allocation = none };
        read_ops = update_operation read_machine (give_allocation a) n p.read_ops;
      }),
      false,
    )
unfolding read_from_loop
read_taken a p n op e e' t = ground arith

take_descriptor_same :
    (b : Bool) (d : Descriptor) (op : ReadOperation)
    → ((take_descriptor b d op).sequence_number ≡ op.sequence_number)
      × ((take_descriptor b d op).state ≡ op.state)
take_descriptor_same true d op = (refl, refl)
take_descriptor_same false d op = (refl, refl)

take_reply_same :
    (b : Bool) (ds : List Device) (op : WriteOperation)
    → ((take_reply b ds op).sequence_number ≡ op.sequence_number)
      × ((take_reply b ds op).state ≡ op.state)
unfolding parse_descriptor_reply_of_message
take_reply_same true ds op = (refl, refl)
take_reply_same false ds op = (refl, refl)

handle_error-IsSound : (p : Pipe) → IsSound p → IsSound (handle_error p)
unfolding handle_error close_and_unregister
handle_error-IsSound p h =
    let closed = view-IsSound p (close_and_unregister p.core) refl refl h in
    view-IsSound _ _ refl refl (advance_all_writes-IsSound _ (advance_all_reads-IsSound _ closed))

set_error-IsSound : (e : Error) (p : Pipe) → IsSound p → IsSound (set_error e p)
unfolding set_error
set_error-IsSound e p h = elim (Bool-cases (is_error p.core.error || not (is_error e))) [
  | inl t ↦ rw t h
  | inr f ↦ rw f (handle_error-IsSound _ (view-IsSound p _ refl refl h))
]

become_established-IsSound : (p : Pipe) → IsSound p → IsSound (become_established p)
unfolding become_established
become_established-IsSound p h =
    advance_all_writes-IsSound _ (advance_all_reads-IsSound _ (view-IsSound p _ refl refl h))

read_descriptor_from_loop-IsSound : (p : Pipe) → IsSound p → IsSound (read_descriptor_from_loop p)
unfolding read_descriptor_from_loop emplace_back
read_descriptor_from_loop-IsSound p h =
    let n = p.core.next_message_being_read in
    let op = new_read_operation n in
    let r = h.reads in
    advance_read-IsSound n _ (record {
      writes = record {
        deque = h.writes.deque;
        numbers = h.writes.numbers;
        checked = h.writes.checked;
      };
      reads = record {
        deque =
            append-IsDeque read_machine read_spacing op refl refl _ p.read_ops r.numbers r.deque;
        numbers = omega (arith, r.numbers, length-append p.read_ops (op ∷ []));
        descriptors = omega (
          arith,
          r.descriptors,
          append-count_from read_machine read_spacing op refl refl 2 p.read_ops (omega arith),
        );
        checked = r.checked;
        descriptors_checked = r.descriptors_checked;
      };
    })

write_from_loop-IsSound : (m : Message) (p : Pipe) → IsSound p → IsSound (write_from_loop m p)
unfolding write_from_loop emplace_back
write_from_loop-IsSound m p h =
    let n = p.core.next_message_being_written in
    let op = new_write_operation n m in
    let w = h.writes in
    advance_write-IsSound n _ (record {
      writes = record {
        deque =
            append-IsDeque write_machine write_spacing op refl refl _ p.write_ops w.numbers w.deque;
        numbers = omega (arith, w.numbers, length-append p.write_ops (op ∷ []));
        checked = w.checked;
      };
      reads = record {
        deque = h.reads.deque;
        numbers = h.reads.numbers;
        descriptors = h.reads.descriptors;
        checked = h.reads.checked;
        descriptors_checked = h.reads.descriptors_checked;
      };
    })

module _ (n : ℕ) (p : Pipe) (h : IsSound p) where
  updated_read :
      (change : ReadOperation → ReadOperation)
      → ((op : ReadOperation)
          → ((change op).sequence_number ≡ op.sequence_number) × ((change op).state ≡ op.state))
      → IsSound (record p { read_ops = update_operation read_machine change n p.read_ops })
  updated_read change same = record {
    writes = h.writes;
    reads = update-ReadsSound p.core p.read_ops n change same h.reads;
  }

  updated_write :
      (change : WriteOperation → WriteOperation)
      → ((op : WriteOperation)
          → ((change op).sequence_number ≡ op.sequence_number) × ((change op).state ≡ op.state))
      → IsSound (record p { write_ops = update_operation write_machine change n p.write_ops })
  updated_write change same = record {
    writes = update-WritesSound p.core p.write_ops n change same h.writes;
    reads = h.reads;
  }

read_from_loop-IsSound : (a : Allocation) (p : Pipe) → IsSound p → IsSound (read_from_loop a p).0
unfolding read_from_loop
read_from_loop-IsSound a p h = elim (Option-cases p.core.next_message_getting_allocation) [
  | inl e ↦ rw (e, read_from_loop) h
  | inr (n, e) ↦
      let q : Pipe = record p {
        core = record (p.core) { next_message_getting_allocation = none };
      } in
      let k : IsSound q = view-IsSound p (q.core) refl refl h in
      elim (Option-cases (find_operation read_machine p.read_ops n)) [
        | inl e' ↦ subst (λ (r : Pipe × Bool). IsSound r.0) (sym (read_gone a p n e e')) k
        | inr (op, e') ↦ elim (Bool-cases (check_allocation_compatibility op.descriptor a)) [
          | inl t ↦
              subst (λ (r : Pipe × Bool). IsSound r.0) (sym (read_taken a p n op e e' t))
                (advance_read-IsSound n _
                  (updated_read n q k (give_allocation a) (λ op. (refl, refl))))
          | inr t ↦ subst (λ (r : Pipe × Bool). IsSound r.0) (sym (read_refused a p n op e e' t)) k
        ]
      ]
]

on_descriptor_read-IsSound :
    (n : ℕ) (e : Error) (d : Descriptor) (p : Pipe)
    → IsSound p
    → IsSound (on_descriptor_read n e d p)
unfolding on_descriptor_read
on_descriptor_read-IsSound n e d p h =
    let q = set_error e p in
    advance_read-IsSound n _ (
      updated_read n q (set_error-IsSound e p h) (take_descriptor (is_error q.core.error) d)
        (take_descriptor_same (is_error q.core.error) d))

on_payload_read-IsSound :
    (n : ℕ) (e : Error) (p : Pipe) → IsSound p → IsSound (on_payload_read n e p)
unfolding on_payload_read
on_payload_read-IsSound n e p h =
    advance_read-IsSound n _
      (updated_read n (set_error e p) (set_error-IsSound e p h) _ (λ op. (refl, refl)))

on_tensor_received-IsSound :
    (n : ℕ) (e : Error) (p : Pipe) → IsSound p → IsSound (on_tensor_received n e p)
unfolding on_tensor_received
on_tensor_received-IsSound n e p h =
    advance_read-IsSound n _
      (updated_read n (set_error e p) (set_error-IsSound e p h) _ (λ op. (refl, refl)))

on_payload_written-IsSound :
    (n : ℕ) (e : Error) (p : Pipe) → IsSound p → IsSound (on_payload_written n e p)
unfolding on_payload_written
on_payload_written-IsSound n e p h =
    advance_write-IsSound n _
      (updated_write n (set_error e p) (set_error-IsSound e p h) _ (λ op. (refl, refl)))

on_tensor_sent-IsSound : (n : ℕ) (e : Error) (p : Pipe) → IsSound p → IsSound (on_tensor_sent n e p)
unfolding on_tensor_sent
on_tensor_sent-IsSound n e p h =
    advance_write-IsSound n _
      (updated_write n (set_error e p) (set_error-IsSound e p h) _ (λ op. (refl, refl)))

on_descriptor_reply_read-IsSound :
    (n : ℕ) (e : Error) (ds : List Device) (p : Pipe)
    → IsSound p
    → IsSound (on_descriptor_reply_read n e ds p)
unfolding on_descriptor_reply_read
on_descriptor_reply_read-IsSound n e ds p h =
    let q = set_error e p in
    let op = find_operation write_machine q.write_ops n in
    let q' : Pipe = record q {
      core = record (q.core) {
        reply_checked = q.core.reply_checked && reply_fits (is_error q.core.error) ds op;
      };
    } in
    advance_write-IsSound n _ (
      updated_write n q' (view-IsSound q (q'.core) refl refl (set_error-IsSound e p h))
        (take_reply (is_error q.core.error) ds) (take_reply_same (is_error q.core.error) ds))

-- Whatever happens to a pipe whose operations are numbered, ordered and called back in turn, they
-- stay so.
pub step-IsSound : (p : Pipe) (e : Event) → IsSound p → IsSound (step p e)
unfolding step close_from_loop on_done assign_channels
step-IsSound p user_reads_descriptor h = read_descriptor_from_loop-IsSound p h
step-IsSound p (user_reads a) h = read_from_loop-IsSound a p h
step-IsSound p (user_writes m) h = write_from_loop-IsSound m p h
step-IsSound p user_closes h = set_error-IsSound _ p h
step-IsSound p (channels_selected pairs) h = view-IsSound p _ refl refl h
step-IsSound p handshake_done h = become_established-IsSound p h
step-IsSound p (descriptor_read n e d) h = on_descriptor_read-IsSound n e d p h
step-IsSound p (payload_read n e) h = on_payload_read-IsSound n e p h
step-IsSound p (tensor_received n e) h = on_tensor_received-IsSound n e p h
step-IsSound p (payload_written n e) h = on_payload_written-IsSound n e p h
step-IsSound p (tensor_sent n e) h = on_tensor_sent-IsSound n e p h
step-IsSound p (descriptor_reply_read n e ds) h = on_descriptor_reply_read-IsSound n e ds p h
step-IsSound p (other_done e) h = set_error-IsSound e p h

new_pipe-IsSound : (st : PipeState) → IsSound (new_pipe st)
unfolding new_pipe
new_pipe-IsSound st = record {
  writes = record {
    deque = record { consecutive = tt; ordered = tt; live = tt };
    numbers = omega arith;
    checked = refl;
  };
  reads = record {
    deque = record { consecutive = tt; ordered = tt; live = tt };
    numbers = omega arith;
    descriptors = omega arith;
    checked = refl;
    descriptors_checked = refl;
  };
}

run-IsSound : (p : Pipe) (es : List Event) → IsSound p → IsSound (run p es)
unfolding run
run-IsSound p [] h = h
run-IsSound p (e ∷ es) h = run-IsSound (step p e) es (step-IsSound p e h)

-- After any events on a new pipe, in any order, with any errors and any channels that the handshake
-- selects: the write operations that are
-- left are numbered from the next write callback to call up to the next message, none of them is
-- FINISHED, and none has got ahead of the one before it; the same holds of the read operations,
-- where moreover an operation that reads from the connection, or expects the user's allocation,
-- stands behind operations that have scheduled all their reads; and every callback so far was
-- called in its turn.
pub run-new_pipe-IsSound : (st : PipeState) (es : List Event) → IsSound (run (new_pipe st) es)
run-new_pipe-IsSound st es = run-IsSound (new_pipe st) es (new_pipe-IsSound st)
