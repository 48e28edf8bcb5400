-- ===== src/Executor/HandOver.antt =====
-- common/deferred_executor.h: the thread of an `EventLoopDeferredExecutor` runs all the functions
-- in order, and hands over to the on-demand executor with none left.
use tensorpipe.Prelude.{
  ℕ, zero, suc, ◌+◌, ◌*◌, ◌≡◌, ◌≢◌, ◌≤◌, refl, inl, inr, Bool, true, false, List, [], ◌∷◌, ◌++◌,
  arith, length, Bool-cases, List-cases, sym, ◌∙◌, ap,
}
use tensorpipe.Executor
use tensorpipe.Executor.{OnDemand, new_on_demand, outside, at_head}
use tensorpipe.Executor.EventLoop.{
  Stage, polling, running, winding_down, running_last, handed_over, EventLoop, start_thread,
  defer_to_loop, run_batch, run_deferred_functions, look_for_last, proceed_from, proceed,
  proceed_for, Step, defers, polls, proceeds, on_demand, Reaches, here, next,
}
use mathlib.Core.List.{append_assoc, append-nil}

module _ {ℓ} {T : Type ℓ} where
  -- The functions of a batch that are still to begin
  abbrev rest_of : Stage T → List T
  rest_of polling = []
  rest_of (running rest) = rest
  rest_of winding_down = []
  rest_of (running_last rest) = rest
  rest_of handed_over = []

  abbrev is_consuming : Stage T → Bool
  is_consuming polling = true
  is_consuming (running rest) = true
  is_consuming winding_down = true
  is_consuming (running_last rest) = true
  is_consuming handed_over = false

  pub record IsSettled (s : EventLoop T) : Type ℓ where
    pub flag : s.is_thread_consuming_deferred_functions ≡ is_consuming s.stage
    pub in_order : s.executed ++ (rest_of s.stage ++ s.fns) ≡ s.deferred
    pub emptied : s.stage ≡ handed_over → s.fns ≡ []
    pub untouched : is_consuming s.stage ≡ true → s.on_demand_loop ≡ new_on_demand
    pub reached : Executor.Reaches new_on_demand s.on_demand_loop

  defer_to_loop-IsSettled :
      (u : ℕ) (fn : T) (s : EventLoop T)
      → s.on_demand_loop.place u ≢ at_head
      → IsSettled s
      → IsSettled (defer_to_loop u fn s)
  unfolding defer_to_loop
  defer_to_loop-IsSettled u fn s h i = elim (Bool-cases s.is_thread_consuming_deferred_functions) [
    | inl e ↦ rw e (record {
      flag = sym e ∙ i.flag;
      in_order =
          sym
            (ap (λ (l : List T). s.executed ++ l) (append_assoc (rest_of s.stage) s.fns (fn ∷ [])))
          ∙ sym (append_assoc s.executed (rest_of s.stage ++ s.fns) (fn ∷ []))
          ∙ ap (λ (l : List T). l ++ fn ∷ []) i.in_order;
      emptied = λ x. ground (arith, i.flag);
      untouched = i.untouched;
      reached = i.reached;
    })
    | inr e ↦ rw e (record {
      flag = sym e ∙ i.flag;
      in_order = i.in_order;
      emptied = i.emptied;
      untouched = λ x. ground (arith, i.flag);
      reached = Executor.next i.reached (Executor.defers u fn h);
    })
  ]

  -- What a settled state with a batch to run comes to.
  record IsBatch (batch : List T) (s : EventLoop T) : Type ℓ where
    flag : s.is_thread_consuming_deferred_functions ≡ true
    in_order : s.executed ++ (batch ++ s.fns) ≡ s.deferred
    untouched : s.on_demand_loop ≡ new_on_demand
    reached : Executor.Reaches new_on_demand s.on_demand_loop

  batch-running :
      (batch : List T) (s : EventLoop T)
      → IsBatch batch s
      → IsSettled (run_batch running polling batch s)
  unfolding run_batch
  batch-running [] s b = record {
    flag = b.flag;
    in_order = b.in_order;
    emptied = λ x. absurd (ground arith);
    untouched = λ x. b.untouched;
    reached = b.reached;
  }
  batch-running (fn ∷ rest) s b = record {
    flag = b.flag;
    in_order = append_assoc s.executed (fn ∷ []) (rest ++ s.fns) ∙ b.in_order;
    emptied = λ x. absurd (ground arith);
    untouched = λ x. b.untouched;
    reached = b.reached;
  }

  batch-running_last :
      (batch : List T) (s : EventLoop T)
      → IsBatch batch s
      → IsSettled (run_batch running_last winding_down batch s)
  unfolding run_batch
  batch-running_last [] s b = record {
    flag = b.flag;
    in_order = b.in_order;
    emptied = λ x. absurd (ground arith);
    untouched = λ x. b.untouched;
    reached = b.reached;
  }
  batch-running_last (fn ∷ rest) s b = record {
    flag = b.flag;
    in_order = append_assoc s.executed (fn ∷ []) (rest ++ s.fns) ∙ b.in_order;
    emptied = λ x. absurd (ground arith);
    untouched = λ x. b.untouched;
    reached = b.reached;
  }

  IsSettled-IsBatch :
      (batch : List T) (s : EventLoop T)
      → rest_of s.stage ≡ batch
      → is_consuming s.stage ≡ true
      → IsSettled s
      → IsBatch batch s
  IsSettled-IsBatch batch s r h i = record {
    flag = i.flag ∙ h;
    in_order = rw r at i.in_order;
    untouched = i.untouched h;
    reached = i.reached;
  }

  swapped-IsBatch :
      (s : EventLoop T)
      → rest_of s.stage ≡ []
      → is_consuming s.stage ≡ true
      → IsSettled s
      → IsBatch s.fns (record s { fns = [] })
  swapped-IsBatch s r h i = record {
    flag = i.flag ∙ h;
    in_order = ap (λ (l : List T). s.executed ++ l) (append-nil s.fns) ∙ (rw r at i.in_order);
    untouched = i.untouched h;
    reached = i.reached;
  }

  run_deferred_functions-IsSettled :
      (s : EventLoop T) → s.stage ≡ polling → IsSettled s → IsSettled (run_deferred_functions s)
  unfolding run_deferred_functions
  run_deferred_functions-IsSettled s h i =
      batch-running s.fns (record s { fns = [] }) (swapped-IsBatch s (rw h refl) (rw h refl) i)

  look_for_last-IsSettled :
      (s : EventLoop T) → s.stage ≡ winding_down → IsSettled s → IsSettled (look_for_last s)
  unfolding look_for_last
  look_for_last-IsSettled s h i =
      let b : IsBatch s.fns (record s { fns = [] }) = swapped-IsBatch s (rw h refl) (rw h refl) i in
      elim (List-cases s.fns) [
        | inl e ↦ rw e (record {
          flag = refl;
          in_order = rw e at b.in_order;
          emptied = λ x. refl;
          untouched = λ x. absurd (ground arith);
          reached = i.reached;
        })
        | inr (fn, rest, e) ↦
            rw e (batch-running_last (fn ∷ rest) (record s { fns = [] }) (rw e at b))
      ]

  proceed_from-IsSettled :
      (st : Stage T) (s : EventLoop T) → s.stage ≡ st → IsSettled s → IsSettled (proceed_from st s)
  unfolding proceed_from
  proceed_from-IsSettled polling s h i = record {
    flag = i.flag ∙ rw h refl;
    in_order = rw h at i.in_order;
    emptied = λ x. absurd (ground arith);
    untouched = λ x. i.untouched (rw h refl);
    reached = i.reached;
  }
  proceed_from-IsSettled (running rest) s h i =
      batch-running rest s (IsSettled-IsBatch rest s (rw h refl) (rw h refl) i)
  proceed_from-IsSettled winding_down s h i = look_for_last-IsSettled s h i
  proceed_from-IsSettled (running_last rest) s h i =
      batch-running_last rest s (IsSettled-IsBatch rest s (rw h refl) (rw h refl) i)
  proceed_from-IsSettled handed_over s h i = i

  Step-IsSettled : {s t : EventLoop T} → Step s t → IsSettled s → IsSettled t
  unfolding proceed
  Step-IsSettled (defers u fn h) i = defer_to_loop-IsSettled u fn _ h i
  Step-IsSettled (polls h) i = run_deferred_functions-IsSettled _ h i
  Step-IsSettled {s = s} proceeds i = proceed_from-IsSettled s.stage s refl i
  Step-IsSettled (on_demand t h st) i = record {
    flag = i.flag;
    in_order = i.in_order;
    emptied = i.emptied;
    untouched = λ x. absurd (ground (arith, i.flag));
    reached = Executor.next i.reached st;
  }

  start_thread-IsSettled : (thread : ℕ) → IsSettled (start_thread thread)
  unfolding start_thread
  start_thread-IsSettled thread = record {
    flag = refl;
    in_order = refl;
    emptied = λ x. refl;
    untouched = λ x. refl;
    reached = Executor.here;
  }

  Reaches-IsSettled : {s t : EventLoop T} → Reaches s t → IsSettled s → IsSettled t
  Reaches-IsSettled here i = i
  Reaches-IsSettled (next r st) i = Step-IsSettled st (Reaches-IsSettled r i)

  handed_over-done :
      (s : EventLoop T) → IsSettled s → s.stage ≡ handed_over → s.executed ≡ s.deferred
  handed_over-done s i h =
      let e : s.fns ≡ [] = i.emptied h in
      sym (append-nil s.executed) ∙ (rw e at (rw h at i.in_order))

  consuming-outside :
      (s : EventLoop T) (u : ℕ)
      → IsSettled s
      → is_consuming s.stage ≡ true
      → s.on_demand_loop.place u ≡ outside
  unfolding new_on_demand
  consuming-outside s u i h = ap (λ (o : OnDemand T). o.place u) (i.untouched h)

  not_consuming-handed_over : (st : Stage T) → is_consuming st ≡ false → st ≡ handed_over
  not_consuming-handed_over st h = ground arith

  -- In every interleaving, when some thread is in the loop of the on-demand executor, the thread of
  -- the event loop has handed over, and it has run all the functions deferred to it, in order.
  pub Reaches-hand_over :
      (thread : ℕ) (s : EventLoop T) (u : ℕ)
      → Reaches (start_thread thread) s
      → s.on_demand_loop.place u ≢ outside
      → (s.stage ≡ handed_over) × (s.executed ≡ s.deferred)
  Reaches-hand_over thread s u r h =
      let i : IsSettled s = Reaches-IsSettled r (start_thread-IsSettled thread) in
      elim (Bool-cases (is_consuming s.stage)) [
        | inl e ↦ absurd (h (consuming-outside s u i e))
        | inr e ↦
            let o : s.stage ≡ handed_over = not_consuming-handed_over s.stage e in
            (o, handed_over-done s i o)
      ]

  -- How much is left for the thread to do
  abbrev pub left_at : Stage T → ℕ → ℕ
  left_at polling n = 2 * n + 2
  left_at (running rest) n = length rest + 2 * n + 3
  left_at winding_down n = 2 * n + 1
  left_at (running_last rest) n = length rest + 2 * n + 2
  left_at handed_over n = 0

  abbrev pub left : EventLoop T → ℕ
  left s = left_at s.stage (length s.fns)

  proceed_from-left :
      (st : Stage T) (s : EventLoop T) (n : ℕ)
      → s.stage ≡ st
      → left s ≤ suc n
      → left (proceed_from st s) ≤ n
  unfolding proceed_from look_for_last run_batch
  proceed_from-left polling s n h l = ground arith
  proceed_from-left (running []) s n h l = ground arith
  proceed_from-left (running (fn ∷ rest)) s n h l = ground arith
  proceed_from-left winding_down s n h l = ground arith
  proceed_from-left (running_last []) s n h l = ground arith
  proceed_from-left (running_last (fn ∷ rest)) s n h l = ground arith
  proceed_from-left handed_over s n h l = ground arith

  proceed-deferred : (s : EventLoop T) → (proceed s).deferred ≡ s.deferred
  unfolding proceed proceed_from look_for_last run_batch
  proceed-deferred s = ground arith

  left-handed_over : (s : EventLoop T) → left s ≤ 0 → s.stage ≡ handed_over
  left-handed_over s h = ground arith

  proceed_for-finishes :
      (n : ℕ) (s : EventLoop T)
      → IsSettled s
      → left s ≤ n
      → ((proceed_for n s).stage ≡ handed_over) × ((proceed_for n s).executed ≡ s.deferred)
  unfolding proceed_for proceed
  proceed_for-finishes zero s i h =
      let o : s.stage ≡ handed_over = left-handed_over s h in (o, handed_over-done s i o)
  proceed_for-finishes (suc n) s i h =
      let p : ((proceed_for n (proceed s)).stage ≡ handed_over)
          × ((proceed_for n (proceed s)).executed ≡ (proceed s).deferred) =
        proceed_for-finishes n (proceed s) (Step-IsSettled proceeds i)
          (proceed_from-left s.stage s n refl h) in
      (p.0, p.1 ∙ proceed-deferred s)

  -- From every state that an interleaving reaches, when nobody defers any more and the event loop
  -- of the subclass returns the next time it has control, the thread hands over after finitely many
  -- steps of its own, and has then run all the functions deferred to it, in order.
  pub proceed_for-hands_over :
      (thread : ℕ) (s : EventLoop T)
      → Reaches (start_thread thread) s
      → ((proceed_for (left s) s).stage ≡ handed_over)
        × ((proceed_for (left s) s).executed ≡ s.deferred)
  proceed_for-hands_over thread s r =
      proceed_for-finishes _ s (Reaches-IsSettled r (start_thread-IsSettled thread)) (omega arith)
