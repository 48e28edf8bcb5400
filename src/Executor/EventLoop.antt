-- ===== src/Executor/EventLoop.antt =====
-- common/deferred_executor.h: `EventLoopDeferredExecutor`, from the return of `startThread` on. Its
-- thread runs the deferred functions in batches; when the event loop of the subclass has returned
-- and no function is left, it hands over to an on-demand executor. When the event loop calls
-- `runDeferredFunctionsFromEventLoop`, and when it returns, is the subclass's choice: any is a step.
use tensorpipe.Prelude.{
  ℕ, zero, suc, ◌+◌, ◌≡◌, ◌≢◌, Bool, true, false, List, [], ◌∷◌, ◌++◌, if◌then◌else◌, ◌==◌,
}
use tensorpipe.Executor
use tensorpipe.Executor.{OnDemand, new_on_demand, at_head}

module _ {ℓ} (T : Type ℓ) where
  -- Where the thread stands: in the event loop but for the deferred functions, in a function that
  -- it runs from there with the rest of the batch, about to look whether it may hand over, in a
  -- function of the last batches, or past the hand-over.
  pub data Stage : Type ℓ where
    polling : Stage
    running : List T → Stage
    winding_down : Stage
    running_last : List T → Stage
    handed_over : Stage

  -- `deferred` and `executed` are the histories of the functions that the thread has to run.
  pub record EventLoop : Type ℓ where
    pub thread : ℕ
    pub is_thread_consuming_deferred_functions : Bool
    pub fns : List T
    pub wakeups : ℕ
    pub stage : Stage
    pub on_demand_loop : OnDemand T
    pub deferred : List T
    pub executed : List T

module _ {ℓ} {T : Type ℓ} where
  -- `startThread`, on a new object
  unfoldable pub start_thread : ℕ → EventLoop T
  start_thread thread = record {
    thread = thread;
    is_thread_consuming_deferred_functions = true;
    fns = [];
    wakeups = 0;
    stage = polling;
    on_demand_loop = new_on_demand;
    deferred = [];
    executed = [];
  }

  -- `deferToLoop` up to the end of its locked section, with the call of the on-demand executor
  -- that follows: the flag stays off.
  unfoldable pub defer_to_loop : ℕ → T → EventLoop T → EventLoop T
  defer_to_loop u fn s =
      if s.is_thread_consuming_deferred_functions
      then record s {
        fns = s.fns ++ fn ∷ [];
        wakeups = s.wakeups + 1;
        deferred = s.deferred ++ fn ∷ [];
      }
      else record s { on_demand_loop = Executor.defer_to_loop u fn s.on_demand_loop }

  -- `inLoop`, asked by a thread
  unfoldable pub in_loop : ℕ → EventLoop T → Bool
  in_loop u s =
      if s.is_thread_consuming_deferred_functions
      then u == s.thread
      else Executor.in_loop u s.on_demand_loop

  -- The loop over a batch: begin its first function, or go on where it is over.
  unfoldable pub run_batch : (List T → Stage T) → Stage T → List T → EventLoop T → EventLoop T
  run_batch go_on over [] s = record s { stage = over }
  run_batch go_on over (fn ∷ rest) s = record s {
    stage = go_on rest;
    executed = s.executed ++ fn ∷ [];
  }

  -- `runDeferredFunctionsFromEventLoop`, up to its first call
  unfoldable pub run_deferred_functions : EventLoop T → EventLoop T
  run_deferred_functions s = run_batch running polling s.fns (record s { fns = [] })

  -- `loop`, from its lock to the first call, or to the hand-over
  unfoldable pub look_for_last : EventLoop T → EventLoop T
  look_for_last s = elim s.fns [
    | [] ↦ record s { is_thread_consuming_deferred_functions = false; stage = handed_over }
    | fn ∷ rest ↦ run_batch running_last winding_down (fn ∷ rest) (record s { fns = [] })
  ]

  -- What the thread does next at its stage; at `polling` the event loop of the subclass returns.
  unfoldable pub proceed_from : Stage T → EventLoop T → EventLoop T
  proceed_from polling s = record s { stage = winding_down }
  proceed_from (running rest) s = run_batch running polling rest s
  proceed_from winding_down s = look_for_last s
  proceed_from (running_last rest) s = run_batch running_last winding_down rest s
  proceed_from handed_over s = s

  unfoldable pub proceed : EventLoop T → EventLoop T
  proceed s = proceed_from s.stage s

  unfoldable pub proceed_for : ℕ → EventLoop T → EventLoop T
  proceed_for zero s = s
  proceed_for (suc n) s = proceed_for n (proceed s)

  -- Any thread may defer, the executor's own from a function and another's from a task.
  pub data Step (s : EventLoop T) : EventLoop T → Type ℓ where
    defers : (u : ℕ) (fn : T) → s.on_demand_loop.place u ≢ at_head → Step s (defer_to_loop u fn s)
    polls : s.stage ≡ polling → Step s (run_deferred_functions s)
    proceeds : Step s (proceed s)
    on_demand :
        (t : OnDemand T)
        → s.is_thread_consuming_deferred_functions ≡ false
        → Executor.Step s.on_demand_loop t
        → Step s (record s { on_demand_loop = t })

  pub data Reaches (s : EventLoop T) : EventLoop T → Type ℓ where
    here : Reaches s s
    next : {t u : EventLoop T} → Reaches s t → Step t u → Reaches s u
