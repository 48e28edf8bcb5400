-- ===== src/Pipe/Handlers/Sound.antt =====
-- The invariant of a pipe's operations, and that the parts of the handlers keep it.
use tensorpipe.Prelude.{
  ℕ, ◌+◌, ◌≡◌, sym, ap, subst, ◌∙◌, inl, inr, true, List, ◌∷◌, ◌++◌, arith, length, Option-cases,
}
use tensorpipe.StateMachine.{find_operation, store, advance_operation, advance_all_operations}
use tensorpipe.StateMachine.Find.{find-split, store-middle, seq-middle}
use tensorpipe.StateMachine.Order.{IsDeque}
use tensorpipe.StateMachine.Replace.{
  replace-IsDeque, replace-length, replace-count_from, advance_operation-none,
}
use tensorpipe.StateMachine.Counter.{count_from}
use tensorpipe.StateMachine.Counted.{
  IsRight, advance_all-IsDeque, advance_all-IsRight, advance-IsDeque, advance-IsRight,
  count_from-live, front_after, front_after_all,
}
use tensorpipe.StateMachine.Keeps.{
  advance_operation-keeps, advance_all_operations-keeps, length-advance, length-advance_all,
}
use tensorpipe.Pipe.Types.{ReadOperation, ReadState, WriteOperation, WriteState, Core, Pipe}
use tensorpipe.Pipe.Advance.{read_machine, write_machine}
use tensorpipe.Pipe.Advance.WriteLaws.{
  write_spacing, write_callbacks, read_side, advance_write_operation_step, write_machine-IsOrderly,
  write_callbacks-HasCounter,
}
use tensorpipe.Pipe.Advance.ReadLaws.{
  read_spacing, read_callbacks, read_descriptor_callbacks, write_side, advance_read_operation_step,
  read_machine-IsOrderly, read_callbacks-HasCounter, read_descriptor_callbacks-HasCounter,
}
use tensorpipe.Pipe.Handlers.{
  advance_read, advance_write, advance_all_reads, advance_all_writes, update_operation,
}

-- The write operations are numbered from the next callback to call on, none is FINISHED, none has
-- overtaken another, and all the callbacks so far were called in their turn.
pub record WritesSound (s : Core) (ops : List WriteOperation) : Type 0 where
  pub deque : IsDeque write_machine write_spacing s.next_write_callback_to_call ops
  pub numbers : s.next_message_being_written ≡ s.next_write_callback_to_call + length ops
  pub checked : s.write_callbacks_checked ≡ true

-- The same of the read operations; their first callbacks are those of the operations that have got
-- past reading the descriptor.
pub record ReadsSound (s : Core) (ops : List ReadOperation) : Type 0 where
  pub deque : IsDeque read_machine read_spacing s.next_read_callback_to_call ops
  pub numbers : s.next_message_being_read ≡ s.next_read_callback_to_call + length ops
  pub descriptors :
      s.next_read_descriptor_callback_to_call
      ≡ s.next_read_callback_to_call + count_from read_machine 2 ops
  pub checked : s.read_callbacks_checked ≡ true
  pub descriptors_checked : s.read_descriptor_callbacks_checked ≡ true

pub record IsSound (p : Pipe) : Type 0 where
  pub writes : WritesSound p.core p.write_ops
  pub reads : ReadsSound p.core p.read_ops

-- Only the counters matter.
pub WritesSound-view :
    (s t : Core) (ops : List WriteOperation)
    → write_side t ≡ write_side s
    → WritesSound s ops
    → WritesSound t ops
WritesSound-view s t ops e w =
    let n : s.next_write_callback_to_call ≡ t.next_write_callback_to_call = cc in
    record { deque = rw n at (w.deque); numbers = ground arith; checked = ground arith }

pub ReadsSound-view :
    (s t : Core) (ops : List ReadOperation)
    → read_side t ≡ read_side s
    → ReadsSound s ops
    → ReadsSound t ops
ReadsSound-view s t ops e r =
    let n : s.next_read_callback_to_call ≡ t.next_read_callback_to_call = cc in
    record {
      deque = rw n at (r.deque);
      numbers = ground arith;
      descriptors = ground arith;
      checked = ground arith;
      descriptors_checked = ground arith;
    }

-- What the walks over the deque give makes it sound again.
writes_settle :
    (s t : Core) (ops rest : List WriteOperation) (n : ℕ)
    → WritesSound s ops
    → IsDeque write_machine write_spacing n rest
    → IsRight write_machine write_machine-IsOrderly write_callbacks write_callbacks-HasCounter
        (omega arith)
        n
        rest
        t
      × (s.write_callbacks_checked ≡ true → t.write_callbacks_checked ≡ true)
    → n + length rest ≡ s.next_write_callback_to_call + length ops
    → read_side t ≡ read_side s
    → WritesSound t rest
writes_settle s t ops rest n w d v l e =
    let none_left =
      count_from-live write_machine write_machine-IsOrderly 3 rest (omega arith) d.ordered d.live in
    let front : t.next_write_callback_to_call ≡ n = omega (arith, v.0, none_left) in
    record {
      deque = rw front d;
      numbers = ground (arith, w.numbers, front, l);
      checked = v.1 w.checked;
    }

reads_settle :
    (s t : Core) (ops rest : List ReadOperation) (n : ℕ)
    → ReadsSound s ops
    → IsDeque read_machine read_spacing n rest
    → IsRight read_machine read_machine-IsOrderly read_callbacks read_callbacks-HasCounter
        (omega arith)
        n
        rest
        t
      × (s.read_callbacks_checked ≡ true → t.read_callbacks_checked ≡ true)
    → IsRight read_machine read_machine-IsOrderly read_descriptor_callbacks
        read_descriptor_callbacks-HasCounter
        (omega arith)
        n
        rest
        t
      × (s.read_descriptor_callbacks_checked ≡ true → t.read_descriptor_callbacks_checked ≡ true)
    → n + length rest ≡ s.next_read_callback_to_call + length ops
    → write_side t ≡ write_side s
    → ReadsSound t rest
reads_settle s t ops rest n w d v u l e =
    let none_left =
      count_from-live read_machine read_machine-IsOrderly 5 rest (omega arith) d.ordered d.live in
    let front : t.next_read_callback_to_call ≡ n = omega (arith, v.0, none_left) in
    record {
      deque = rw front d;
      numbers = ground (arith, w.numbers, front, l);
      descriptors = u.0 ∙ ap (λ (k : ℕ). k + count_from read_machine 2 rest) (sym front);
      checked = v.1 w.checked;
      descriptors_checked = u.1 w.descriptors_checked;
    }

write_keeps :
    (op : WriteOperation) (prev : WriteState) (s : Core)
    → read_side (write_machine.transit op prev s).1 ≡ read_side s
write_keeps op prev s = (advance_write_operation_step op prev s).same_read_side

read_keeps :
    (op : ReadOperation) (prev : ReadState) (s : Core)
    → write_side (read_machine.transit op prev s).1 ≡ write_side s
read_keeps op prev s = (advance_read_operation_step op prev s).same_write_side

writes_right :
    (s : Core) (ops : List WriteOperation)
    → WritesSound s ops
    → s.next_write_callback_to_call ≡ s.next_write_callback_to_call + count_from write_machine 3 ops
writes_right s ops w = omega (
  arith,
  count_from-live write_machine write_machine-IsOrderly 3 ops (omega arith) w.deque.ordered
      w.deque.live,
)

advance_all-WritesSound :
    (s : Core) (ops : List WriteOperation)
    → WritesSound s ops
    → let (rest, t) = advance_all_operations write_machine ops s in WritesSound t rest
advance_all-WritesSound s ops w =
    let (rest, t) = advance_all_operations write_machine ops s in
    writes_settle s t ops rest
      (front_after_all write_machine write_machine-IsOrderly s.next_write_callback_to_call ops s) w
      (advance_all-IsDeque write_machine write_machine-IsOrderly s.next_write_callback_to_call ops s
        w.deque)
      (advance_all-IsRight write_machine write_machine-IsOrderly write_callbacks
        write_callbacks-HasCounter (omega arith) s.next_write_callback_to_call ops s w.deque
        (writes_right s ops w))
      (length-advance_all write_machine write_machine-IsOrderly s.next_write_callback_to_call ops s
        w.deque)
      (advance_all_operations-keeps write_machine read_side write_keeps ops s)

advance_at-WritesSound :
    (s : Core) (before after : List WriteOperation) (n : ℕ)
    → WritesSound s (before ++ after)
    → n ≡ s.next_write_callback_to_call + length before
    → let (rest, t) = advance_operation write_machine (before ++ after) n s in WritesSound t rest
advance_at-WritesSound s before after n w e =
    let (rest, t) =
      advance_operation write_machine (before ++ after)
        (s.next_write_callback_to_call + length before) s in
    rw e (
      writes_settle s t (before ++ after) rest
        (front_after write_machine write_machine-IsOrderly s.next_write_callback_to_call before
          after s)
        w
        (advance-IsDeque write_machine write_machine-IsOrderly s.next_write_callback_to_call before
          after s w.deque)
        (advance-IsRight write_machine write_machine-IsOrderly write_callbacks
          write_callbacks-HasCounter (omega arith) s.next_write_callback_to_call before after s
          w.deque (writes_right s (before ++ after) w))
        (length-advance write_machine write_machine-IsOrderly s.next_write_callback_to_call before
          after s w.deque)
        (advance_operation-keeps write_machine read_side write_keeps
          (s.next_write_callback_to_call + length before) (before ++ after) s))

advance-WritesSound :
    (s : Core) (ops : List WriteOperation) (n : ℕ)
    → WritesSound s ops
    → let (rest, t) = advance_operation write_machine ops n s in WritesSound t rest
advance-WritesSound s ops n w = elim (Option-cases (find_operation write_machine ops n)) [
  | inl e ↦ rw (advance_operation-none write_machine write_spacing ops n s e) w
  | inr (op, e) ↦
      let (before, after, e', k) =
        find-split write_machine ops s.next_write_callback_to_call n op w.deque.consecutive e in
      subst
        (λ l.
          WritesSound (advance_operation write_machine l n s).1
            (advance_operation write_machine l n s).0)
        (sym e') (advance_at-WritesSound s before (op ∷ after) n (subst (WritesSound s) e' w) k)
]

-- A change to one operation that leaves its number and its state.
pub update-WritesSound :
    (s : Core) (ops : List WriteOperation) (n : ℕ) (change : WriteOperation → WriteOperation)
    → ((op : WriteOperation)
        → ((change op).sequence_number ≡ op.sequence_number) × ((change op).state ≡ op.state))
    → WritesSound s ops
    → WritesSound s (update_operation write_machine change n ops)
unfolding update_operation
update-WritesSound s ops n change same w =
    elim (Option-cases (find_operation write_machine ops n)) [
      | inl e ↦ rw (e, update_operation) w
      | inr (op, e) ↦
          let (before, after, e', k) =
            find-split write_machine ops s.next_write_callback_to_call n op w.deque.consecutive e in
          let w' : WritesSound s (before ++ op ∷ after) = subst (WritesSound s) e' w in
          let stored =
            store-middle write_machine before after op (change op) s.next_write_callback_to_call
              w'.deque.consecutive
              ((same op).0
                ∙ seq-middle write_machine before after op s.next_write_callback_to_call
                    w'.deque.consecutive) in
          let whole : store write_machine ops (change op) ≡ before ++ change op ∷ after =
            ap (λ l. store write_machine l (change op)) e' ∙ stored in
          rw (e, update_operation)
            (rw whole (record {
              deque =
                  replace-IsDeque write_machine write_spacing op (change op) (same op).1
                    s.next_write_callback_to_call before after (same op).0 w'.deque;
              numbers =
                  w'.numbers
                  ∙ ap (λ (k : ℕ). s.next_write_callback_to_call + k)
                      (sym (
                        replace-length write_machine write_spacing op (change op) (same op).1 before
                          after));
              checked = w.checked;
            }))
    ]

pub advance_all_writes-IsSound : (p : Pipe) → IsSound p → IsSound (advance_all_writes p)
unfolding advance_all_writes
advance_all_writes-IsSound p h = record {
  writes = advance_all-WritesSound p.core p.write_ops h.writes;
  reads =
      ReadsSound-view p.core (advance_all_operations write_machine p.write_ops p.core).1 p.read_ops
        (advance_all_operations-keeps write_machine read_side write_keeps p.write_ops p.core)
        h.reads;
}

pub advance_write-IsSound : (n : ℕ) (p : Pipe) → IsSound p → IsSound (advance_write n p)
unfolding advance_write
advance_write-IsSound n p h = record {
  writes = advance-WritesSound p.core p.write_ops n h.writes;
  reads =
      ReadsSound-view p.core (advance_operation write_machine p.write_ops n p.core).1 p.read_ops
        (advance_operation-keeps write_machine read_side write_keeps n p.write_ops p.core) h.reads;
}

reads_right :
    (s : Core) (ops : List ReadOperation)
    → ReadsSound s ops
    → s.next_read_callback_to_call ≡ s.next_read_callback_to_call + count_from read_machine 5 ops
reads_right s ops w = omega (
  arith,
  count_from-live read_machine read_machine-IsOrderly 5 ops (omega arith) w.deque.ordered
      w.deque.live,
)

advance_all-ReadsSound :
    (s : Core) (ops : List ReadOperation)
    → ReadsSound s ops
    → let (rest, t) = advance_all_operations read_machine ops s in ReadsSound t rest
advance_all-ReadsSound s ops w =
    let (rest, t) = advance_all_operations read_machine ops s in
    reads_settle s t ops rest
      (front_after_all read_machine read_machine-IsOrderly s.next_read_callback_to_call ops s) w
      (advance_all-IsDeque read_machine read_machine-IsOrderly s.next_read_callback_to_call ops s
        w.deque)
      (advance_all-IsRight read_machine read_machine-IsOrderly read_callbacks
        read_callbacks-HasCounter (omega arith) s.next_read_callback_to_call ops s w.deque
        (reads_right s ops w))
      (advance_all-IsRight read_machine read_machine-IsOrderly read_descriptor_callbacks
        read_descriptor_callbacks-HasCounter (omega arith) s.next_read_callback_to_call ops s
        w.deque w.descriptors)
      (length-advance_all read_machine read_machine-IsOrderly s.next_read_callback_to_call ops s
        w.deque)
      (advance_all_operations-keeps read_machine write_side read_keeps ops s)

advance_at-ReadsSound :
    (s : Core) (before after : List ReadOperation) (n : ℕ)
    → ReadsSound s (before ++ after)
    → n ≡ s.next_read_callback_to_call + length before
    → let (rest, t) = advance_operation read_machine (before ++ after) n s in ReadsSound t rest
advance_at-ReadsSound s before after n w e =
    let (rest, t) =
      advance_operation read_machine (before ++ after)
        (s.next_read_callback_to_call + length before) s in
    rw e (
      reads_settle s t (before ++ after) rest
        (front_after read_machine read_machine-IsOrderly s.next_read_callback_to_call before after
          s)
        w
        (advance-IsDeque read_machine read_machine-IsOrderly s.next_read_callback_to_call before
          after s w.deque)
        (advance-IsRight read_machine read_machine-IsOrderly read_callbacks
          read_callbacks-HasCounter (omega arith) s.next_read_callback_to_call before after s
          w.deque (reads_right s (before ++ after) w))
        (advance-IsRight read_machine read_machine-IsOrderly read_descriptor_callbacks
          read_descriptor_callbacks-HasCounter (omega arith) s.next_read_callback_to_call before
          after s w.deque w.descriptors)
        (length-advance read_machine read_machine-IsOrderly s.next_read_callback_to_call before
          after s w.deque)
        (advance_operation-keeps read_machine write_side read_keeps
          (s.next_read_callback_to_call + length before) (before ++ after) s))

advance-ReadsSound :
    (s : Core) (ops : List ReadOperation) (n : ℕ)
    → ReadsSound s ops
    → let (rest, t) = advance_operation read_machine ops n s in ReadsSound t rest
advance-ReadsSound s ops n w = elim (Option-cases (find_operation read_machine ops n)) [
  | inl e ↦ rw (advance_operation-none read_machine read_spacing ops n s e) w
  | inr (op, e) ↦
      let (before, after, e', k) =
        find-split read_machine ops s.next_read_callback_to_call n op w.deque.consecutive e in
      subst
        (λ l.
          ReadsSound (advance_operation read_machine l n s).1
            (advance_operation read_machine l n s).0)
        (sym e') (advance_at-ReadsSound s before (op ∷ after) n (subst (ReadsSound s) e' w) k)
]

-- A change to one operation that leaves its number and its state.
pub update-ReadsSound :
    (s : Core) (ops : List ReadOperation) (n : ℕ) (change : ReadOperation → ReadOperation)
    → ((op : ReadOperation)
        → ((change op).sequence_number ≡ op.sequence_number) × ((change op).state ≡ op.state))
    → ReadsSound s ops
    → ReadsSound s (update_operation read_machine change n ops)
unfolding update_operation
update-ReadsSound s ops n change same w = elim (Option-cases (find_operation read_machine ops n)) [
  | inl e ↦ rw (e, update_operation) w
  | inr (op, e) ↦
      let (before, after, e', k) =
        find-split read_machine ops s.next_read_callback_to_call n op w.deque.consecutive e in
      let w' : ReadsSound s (before ++ op ∷ after) = subst (ReadsSound s) e' w in
      let stored =
        store-middle read_machine before after op (change op) s.next_read_callback_to_call
          w'.deque.consecutive
          ((same op).0
            ∙ seq-middle read_machine before after op s.next_read_callback_to_call
                w'.deque.consecutive) in
      let whole : store read_machine ops (change op) ≡ before ++ change op ∷ after =
        ap (λ l. store read_machine l (change op)) e' ∙ stored in
      rw (e, update_operation)
        (rw whole (record {
          deque =
              replace-IsDeque read_machine read_spacing op (change op) (same op).1
                s.next_read_callback_to_call before after (same op).0 w'.deque;
          numbers =
              w'.numbers
              ∙ ap (λ (k : ℕ). s.next_read_callback_to_call + k)
                  (sym (
                    replace-length read_machine read_spacing op (change op) (same op).1 before
                      after));
          checked = w.checked;
          descriptors =
              w'.descriptors
              ∙ ap (λ (k : ℕ). s.next_read_callback_to_call + k)
                  (sym (
                    replace-count_from read_machine read_spacing op (change op) (same op).1 2 before
                      after));
          descriptors_checked = w.descriptors_checked;
        }))
]

pub advance_all_reads-IsSound : (p : Pipe) → IsSound p → IsSound (advance_all_reads p)
unfolding advance_all_reads
advance_all_reads-IsSound p h = record {
  reads = advance_all-ReadsSound p.core p.read_ops h.reads;
  writes =
      WritesSound-view p.core (advance_all_operations read_machine p.read_ops p.core).1 p.write_ops
        (advance_all_operations-keeps read_machine write_side read_keeps p.read_ops p.core)
        h.writes;
}

pub advance_read-IsSound : (n : ℕ) (p : Pipe) → IsSound p → IsSound (advance_read n p)
unfolding advance_read
advance_read-IsSound n p h = record {
  reads = advance-ReadsSound p.core p.read_ops n h.reads;
  writes =
      WritesSound-view p.core (advance_operation read_machine p.read_ops n p.core).1 p.write_ops
        (advance_operation-keeps read_machine write_side read_keeps n p.read_ops p.core) h.writes;
}

-- A change of the core that leaves the counters alone.
pub view-IsSound :
    (p : Pipe) (t : Core)
    → write_side t ≡ write_side p.core
    → read_side t ≡ read_side p.core
    → IsSound p
    → IsSound (record p { core = t })
view-IsSound p t e e' h = record {
  writes = WritesSound-view p.core t p.write_ops e h.writes;
  reads = ReadsSound-view p.core t p.read_ops e' h.reads;
}
