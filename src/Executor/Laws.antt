-- ===== src/Executor/Laws.antt =====
-- common/deferred_executor.h: one thread at a time runs the tasks of an `OnDemandDeferredExecutor`,
-- in order, and all of them.
use tensorpipe.Prelude.{
  ℕ, zero, suc, ◌+◌, ◌*◌, ◌≡◌, ◌≢◌, ◌<◌, ◌≤◌, refl, ◌⊎◌, inl, inr, Bool, true, false, none, some,
  List, [], ◌∷◌, ◌++◌, arith, length, Option-cases, List-cases, sym, ◌∙◌, ap,
}
use tensorpipe.Executor.{
  Place, outside, at_head, in_task, OnDemand, new_on_demand, in_loop, defer_to_loop, take_task,
  return_task, Step, defers, takes, returns, Reaches, here, next, proceed_at, proceed, proceed_for,
}
use mathlib.Core.List.{append_assoc, append-nil}

module _ {ℓ} {T : Type ℓ} where
  -- `busy` says whether a thread is in the loop or in a task of it.
  abbrev busy : Place T → Bool
  busy outside = false
  busy at_head = true
  busy (in_task task) = true

  pub record IsExclusive (s : OnDemand T) : Type ℓ where
    pub owned : (u : ℕ) → busy (s.place u) ≡ in_loop u s
    pub in_order : s.executed ++ s.pending_tasks ≡ s.deferred
    pub awake : s.current_loop ≡ none → s.pending_tasks ≡ []

  new_on_demand-IsExclusive : IsExclusive new_on_demand
  unfolding new_on_demand in_loop
  new_on_demand-IsExclusive = record { owned = λ u. refl; in_order = refl; awake = λ h. refl }

  in_loop-some : (u : ℕ) (s : OnDemand T) → in_loop u s ≡ true → s.current_loop ≡ some u
  unfolding in_loop
  in_loop-some u s h = elim (Option-cases s.current_loop) [
    | inl e ↦ ground arith
    | inr (v, e) ↦ ground arith
  ]

  defer_to_loop-IsExclusive :
      (u : ℕ) (fn : T) (s : OnDemand T) → IsExclusive s → IsExclusive (defer_to_loop u fn s)
  unfolding defer_to_loop in_loop
  defer_to_loop-IsExclusive u fn s i = elim (Option-cases s.current_loop) [
    | inl e ↦ record {
      owned = λ v. ground (arith, i.owned v);
      in_order = rw e (
          sym (append_assoc s.executed s.pending_tasks (fn ∷ []))
          ∙ ap (λ (l : List T). l ++ fn ∷ []) i.in_order);
      awake = rw e (λ x. ground arith);
    }
    | inr (v, e) ↦ record {
      owned = λ v. ground (arith, i.owned v);
      in_order = rw e (
          sym (append_assoc s.executed s.pending_tasks (fn ∷ []))
          ∙ ap (λ (l : List T). l ++ fn ∷ []) i.in_order);
      awake = rw e (λ x. ground arith);
    }
  ]

  take_task-IsExclusive :
      (u : ℕ) (s : OnDemand T) → s.place u ≡ at_head → IsExclusive s → IsExclusive (take_task u s)
  unfolding take_task in_loop
  take_task-IsExclusive u s h i =
      let e : s.current_loop ≡ some u = in_loop-some u s (sym (i.owned u) ∙ ap busy h) in
      elim (List-cases s.pending_tasks) [
        | inl p ↦ record {
          owned = λ v. ground (arith, i.owned v);
          in_order = ground (arith, i.in_order);
          awake = λ x. rw p refl;
        }
        | inr (task, rest, p) ↦ record {
          owned = λ v. ground (arith, i.owned v);
          in_order = rw p (append_assoc s.executed (task ∷ []) rest ∙ (rw p at i.in_order));
          awake = ground arith;
        }
      ]

  return_task-IsExclusive :
      (u : ℕ) (task : T) (s : OnDemand T)
      → s.place u ≡ in_task task
      → IsExclusive s
      → IsExclusive (return_task u s)
  unfolding return_task in_loop
  return_task-IsExclusive u task s h i = record {
    owned = λ v. ground (arith, i.owned v, i.owned u);
    in_order = i.in_order;
    awake = i.awake;
  }

  Step-IsExclusive : {s t : OnDemand T} → Step s t → IsExclusive s → IsExclusive t
  unfolding defer_to_loop take_task return_task in_loop
  Step-IsExclusive (defers u fn h) i = defer_to_loop-IsExclusive u fn _ i
  Step-IsExclusive (takes u h) i = take_task-IsExclusive u _ h i
  Step-IsExclusive (returns u task h) i = return_task-IsExclusive u task _ h i

  pub Reaches-IsExclusive : {s : OnDemand T} → Reaches new_on_demand s → IsExclusive s
  Reaches-IsExclusive here = new_on_demand-IsExclusive
  Reaches-IsExclusive (next r st) = Step-IsExclusive st (Reaches-IsExclusive r)

  -- In every interleaving of the calls of `deferToLoop`, two threads that are not out of the loop
  -- are the same one.
  pub Reaches-one_loop :
      (s : OnDemand T) (u v : ℕ)
      → Reaches new_on_demand s
      → s.place u ≢ outside
      → s.place v ≢ outside
      → u ≡ v
  unfolding in_loop
  Reaches-one_loop s u v r hu hv =
      let i : IsExclusive s = Reaches-IsExclusive r in ground (arith, i.owned u, i.owned v)

  -- In every interleaving, the tasks begun and then the ones that wait are the ones that were
  -- deferred, in the order of the calls of `deferToLoop`.
  pub Reaches-in_order :
      (s : OnDemand T) → Reaches new_on_demand s → s.executed ++ s.pending_tasks ≡ s.deferred
  Reaches-in_order s r = (Reaches-IsExclusive r).in_order

  -- How much is left for the loop to do
  abbrev left_at : Place T → ℕ
  left_at outside = 0
  left_at at_head = 1
  left_at (in_task task) = 2

  abbrev left : OnDemand T → ℕ
  left s = elim s.current_loop [
    | none ↦ 0
    | some u ↦ 2 * length s.pending_tasks + left_at (s.place u)
  ]

  Place-cases : (p : Place T) → (p ≡ outside) ⊎ ((p ≡ at_head) ⊎ ((task : T) × (p ≡ in_task task)))
  Place-cases outside = inl refl
  Place-cases at_head = inr (inl refl)
  Place-cases (in_task task) = inr (inr (task, refl))

  take_task-left :
      (u : ℕ) (s : OnDemand T)
      → s.current_loop ≡ some u
      → s.place u ≡ at_head
      → left (take_task u s) < left s
  unfolding take_task
  take_task-left u s e h = ground arith

  return_task-left :
      (u : ℕ) (task : T) (s : OnDemand T)
      → s.current_loop ≡ some u
      → s.place u ≡ in_task task
      → left (return_task u s) < left s
  unfolding return_task
  return_task-left u task s e h = ground arith

  -- While there is a loop, it can go on, and gets closer to its end.
  proceed-Step :
      (s : OnDemand T)
      → IsExclusive s
      → (s.current_loop ≡ none) ⊎ (Step s (proceed s) × (left (proceed s) < left s))
  unfolding proceed proceed_at in_loop
  proceed-Step s i = elim (Option-cases s.current_loop) [
    | inl e ↦ inl e
    | inr (u, e) ↦ elim (Place-cases (s.place u)) [
      | inl h ↦ absurd (ground (arith, i.owned u))
      | inr (inl h) ↦
          let q : proceed s ≡ take_task u s = rw e (rw h refl) in
          inr (rw q (takes u h, take_task-left u s e h))
      | inr (inr (task, h)) ↦
          let q : proceed s ≡ return_task u s = rw e (rw h refl) in
          inr (rw q (returns u task h, return_task-left u task s e h))
    ]
  ]

  proceed-idle : (s : OnDemand T) → s.current_loop ≡ none → proceed s ≡ s
  unfolding proceed
  proceed-idle s e = rw e refl

  proceed-deferred : (s : OnDemand T) → (proceed s).deferred ≡ s.deferred
  unfolding proceed proceed_at take_task return_task
  proceed-deferred s = ground arith

  proceed-IsExclusive : (s : OnDemand T) → IsExclusive s → IsExclusive (proceed s)
  proceed-IsExclusive s i = elim (proceed-Step s i) [
    | inl e ↦ rw (proceed-idle s e) i
    | inr (st, h) ↦ Step-IsExclusive st i
  ]

  Reaches-first : {s t u : OnDemand T} → Step s t → Reaches t u → Reaches s u
  Reaches-first st here = next here st
  Reaches-first st (next r st') = next (Reaches-first st r) st'

  pub record IsDrained (s t : OnDemand T) : Type ℓ where
    pub reached : Reaches s t
    pub idle : t.current_loop ≡ none
    pub all_out : (u : ℕ) → t.place u ≡ outside
    pub all_run : t.executed ≡ s.deferred

  idle-IsDrained : (s : OnDemand T) → IsExclusive s → s.current_loop ≡ none → IsDrained s s
  unfolding in_loop
  idle-IsDrained s i e = record {
    reached = here;
    idle = e;
    all_out = λ u. ground (arith, i.owned u);
    all_run = sym (append-nil s.executed) ∙ (rw (i.awake e) at i.in_order);
  }

  proceed_for-IsDrained :
      (n : ℕ) (s : OnDemand T) → IsExclusive s → left s ≤ n → IsDrained s (proceed_for n s)
  unfolding proceed_for
  proceed_for-IsDrained zero s i h = elim (proceed-Step s i) [
    | inl e ↦ idle-IsDrained s i e
    | inr (st, h') ↦ absurd (omega arith)
  ]
  proceed_for-IsDrained (suc n) s i h = elim (proceed-Step s i) [
    | inl e ↦
        let q : proceed s ≡ s = proceed-idle s e in
        rw q (proceed_for-IsDrained n s i (ground arith))
    | inr (st, h') ↦
        let d : IsDrained (proceed s) (proceed_for n (proceed s)) =
          proceed_for-IsDrained n (proceed s) (Step-IsExclusive st i) (omega arith) in
        record {
          reached = Reaches-first st d.reached;
          idle = d.idle;
          all_out = d.all_out;
          all_run = d.all_run ∙ proceed-deferred s;
        }
  ]

  -- From every state that an interleaving reaches, when nobody defers any more, the thread that is
  -- the loop goes through steps of its own to a state where no thread is in the loop and all the
  -- tasks deferred have been run, in order, after at most two steps for each task that waits and
  -- two more.
  pub proceed_for-drains :
      (s : OnDemand T)
      → Reaches new_on_demand s
      → IsDrained s (proceed_for (2 * length s.pending_tasks + 2) s)
  proceed_for-drains s r = proceed_for-IsDrained _ s (Reaches-IsExclusive r) (ground arith)
