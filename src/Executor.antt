-- ===== src/Executor.antt =====
-- common/deferred_executor.h: `OnDemandDeferredExecutor`, which lets the thread of a caller run the
-- tasks. A step is a section under the lock, or the return of a task; the steps of all the threads
-- interleave in any order. `Laws` is about its runs, `EventLoop` and `HandOver` about the executor
-- with a thread of its own.
pub mod Laws
pub mod EventLoop
pub mod HandOver
mod Tests
use tensorpipe.Prelude.{
  ℕ, zero, suc, ◌≡◌, ◌≢◌, Bool, true, false, Option, none, some, List, [], ◌∷◌, ◌++◌, if◌then◌else◌,
  ◌==◌,
}

module _ {ℓ} (T : Type ℓ) where
  -- Where a thread stands: out of the loop, at the head of the loop of `deferToLoop`, or in a task.
  pub data Place : Type ℓ where
    outside : Place
    at_head : Place
    in_task : T → Place

  -- `deferred` and `executed` are the histories of the tasks: as pushed, and as begun.
  pub record OnDemand : Type ℓ where
    pub current_loop : Option ℕ
    pub pending_tasks : List T
    pub place : ℕ → Place
    pub deferred : List T
    pub executed : List T

module _ {ℓ} {T : Type ℓ} where
  unfoldable pub new_on_demand : OnDemand T
  new_on_demand = record {
    current_loop = none;
    pending_tasks = [];
    place = (λ u. outside);
    deferred = [];
    executed = [];
  }

  -- `inLoop`, asked by a thread
  unfoldable pub in_loop : ℕ → OnDemand T → Bool
  in_loop u s = elim s.current_loop [ none ↦ false | some v ↦ u == v ]

  abbrev pub moved : ℕ → Place T → (ℕ → Place T) → ℕ → Place T
  moved u p place v = if v == u then p else place v

  -- The first locked section of `deferToLoop`
  unfoldable pub defer_to_loop : ℕ → T → OnDemand T → OnDemand T
  defer_to_loop u fn s =
      let pushed : OnDemand T = record s {
        pending_tasks = s.pending_tasks ++ fn ∷ [];
        deferred = s.deferred ++ fn ∷ [];
      } in
      elim s.current_loop [
        | some v ↦ pushed
        | none ↦ record pushed { current_loop = some u; place = moved u at_head s.place }
      ]

  -- The second locked section, at the head of the loop: leave, or take the next task.
  unfoldable pub take_task : ℕ → OnDemand T → OnDemand T
  take_task u s = elim s.pending_tasks [
    | [] ↦ record s { current_loop = none; place = moved u outside s.place }
    | task ∷ rest ↦ record s {
      pending_tasks = rest;
      place = moved u (in_task task) s.place;
      executed = s.executed ++ task ∷ [];
    }
  ]

  -- The call of the task has returned.
  unfoldable pub return_task : ℕ → OnDemand T → OnDemand T
  return_task u s = record s { place = moved u at_head s.place }

  -- A thread that is in a task may defer more of them; one at the head of the loop does not.
  pub data Step (s : OnDemand T) : OnDemand T → Type ℓ where
    defers : (u : ℕ) (fn : T) → s.place u ≢ at_head → Step s (defer_to_loop u fn s)
    takes : (u : ℕ) → s.place u ≡ at_head → Step s (take_task u s)
    returns : (u : ℕ) (task : T) → s.place u ≡ in_task task → Step s (return_task u s)

  pub data Reaches (s : OnDemand T) : OnDemand T → Type ℓ where
    here : Reaches s s
    next : {t u : OnDemand T} → Reaches s t → Step t u → Reaches s u

  -- What the thread that is the loop does next, when nobody defers.
  unfoldable pub proceed_at : ℕ → Place T → OnDemand T → OnDemand T
  proceed_at u outside s = s
  proceed_at u at_head s = take_task u s
  proceed_at u (in_task task) s = return_task u s

  unfoldable pub proceed : OnDemand T → OnDemand T
  proceed s = elim s.current_loop [ none ↦ s | some u ↦ proceed_at u (s.place u) s ]

  unfoldable pub proceed_for : ℕ → OnDemand T → OnDemand T
  proceed_for zero s = s
  proceed_for (suc n) s = proceed_for n (proceed s)
