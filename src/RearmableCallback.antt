-- ===== src/RearmableCallback.antt =====
-- `RearmableCallback` of common/callback.h: functions and arguments that wait for one another.
use tensorpipe.Prelude.{◌≡◌, refl, ap, sym, ◌∙◌, ◌⊎◌, inl, inr, List, [], ◌∷◌, ◌++◌}
use mathlib.Core.List.{append_assoc, append-nil}

module _ {ℓ κ} (F : Type ℓ) (A : Type κ) where
  -- `fired` is the history of the invocations, oldest first.
  pub record Rearmable : Type (ℓ ⊔ κ) where
    pub callbacks : List F
    pub args : List A
    pub fired : List (F × A)

  pub data Step : Type (ℓ ⊔ κ) where
    arms : F → Step
    triggers : A → Step

module _ {ℓ κ} {F : Type ℓ} {A : Type κ} where
  -- `arm`
  unfoldable pub arm : F → Rearmable F A → Rearmable F A
  arm f r = elim r.args [
    | [] ↦ record r { callbacks = r.callbacks ++ f ∷ [] }
    | a ∷ rest ↦ record r { args = rest; fired = r.fired ++ (f, a) ∷ [] }
  ]

  -- `trigger`
  unfoldable pub trigger : A → Rearmable F A → Rearmable F A
  trigger a r = elim r.callbacks [
    | [] ↦ record r { args = r.args ++ a ∷ [] }
    | f ∷ rest ↦ record r { callbacks = rest; fired = r.fired ++ (f, a) ∷ [] }
  ]

  -- `triggerAll`, where the generator is called anew each time
  unfoldable pub trigger_all_from : List F → A → List (F × A) → List (F × A)
  trigger_all_from [] a fired = fired
  trigger_all_from (f ∷ fs) a fired = trigger_all_from fs a (fired ++ (f, a) ∷ [])

  unfoldable pub trigger_all : A → Rearmable F A → Rearmable F A
  trigger_all a r = record r { callbacks = []; fired = trigger_all_from r.callbacks a r.fired }

  unfoldable pub run_steps : Rearmable F A → List (Step F A) → Rearmable F A
  run_steps r [] = r
  run_steps r (arms f ∷ steps) = run_steps (arm f r) steps
  run_steps r (triggers a ∷ steps) = run_steps (trigger a r) steps

  -- The functions and the arguments that some steps bring.
  unfoldable pub armed : List (Step F A) → List F
  armed [] = []
  armed (arms f ∷ steps) = f ∷ armed steps
  armed (triggers a ∷ steps) = armed steps

  unfoldable pub triggered : List (Step F A) → List A
  triggered [] = []
  triggered (arms f ∷ steps) = triggered steps
  triggered (triggers a ∷ steps) = a ∷ triggered steps

  -- The pairs of two lists, as long as both last.
  unfoldable pub zip : List F → List A → List (F × A)
  zip [] as' = []
  zip (f ∷ fs) [] = []
  zip (f ∷ fs) (a ∷ as') = (f, a) ∷ zip fs as'

  zip-nil : (fs : List F) → zip fs [] ≡ []
  unfolding zip
  zip-nil [] = refl
  zip-nil (f ∷ fs) = refl

  -- At most one of the two queues waits: functions or arguments.
  abbrev waiting : List F ⊎ List A → List (F × A) → Rearmable F A
  waiting (inl fs) hist = record { callbacks = fs; args = []; fired = hist }
  waiting (inr xs) hist = record { callbacks = []; args = xs; fired = hist }

  abbrev functions_of : List F ⊎ List A → List F
  functions_of (inl fs) = fs
  functions_of (inr xs) = []

  abbrev args_of : List F ⊎ List A → List A
  args_of (inl fs) = []
  args_of (inr xs) = xs

  run_steps-waiting :
      (w : List F ⊎ List A) (hist : List (F × A)) (steps : List (Step F A))
      → (run_steps (waiting w hist) steps).fired
        ≡ hist ++ zip (functions_of w ++ armed steps) (args_of w ++ triggered steps)
  unfolding run_steps arm trigger armed triggered zip
  run_steps-waiting (inl fs) hist [] =
      sym (append-nil hist) ∙ ap (λ (t : List (F × A)). hist ++ t) (sym (zip-nil (fs ++ [])))
  run_steps-waiting (inr xs) hist [] = sym (append-nil hist)
  run_steps-waiting (inl fs) hist (arms f ∷ steps) =
      run_steps-waiting (inl (fs ++ f ∷ [])) hist steps
      ∙ ap (λ (gs : List F). hist ++ zip gs (triggered steps))
          (append_assoc fs (f ∷ []) (armed steps))
  run_steps-waiting (inl []) hist (triggers a ∷ steps) = run_steps-waiting (inr (a ∷ [])) hist steps
  run_steps-waiting (inl (f ∷ fs)) hist (triggers a ∷ steps) =
      run_steps-waiting (inl fs) (hist ++ (f, a) ∷ []) steps
      ∙ append_assoc hist ((f, a) ∷ []) (zip (fs ++ armed steps) (triggered steps))
  run_steps-waiting (inr []) hist (arms f ∷ steps) = run_steps-waiting (inl (f ∷ [])) hist steps
  run_steps-waiting (inr (a ∷ xs)) hist (arms f ∷ steps) =
      run_steps-waiting (inr xs) (hist ++ (f, a) ∷ []) steps
      ∙ append_assoc hist ((f, a) ∷ []) (zip (armed steps) (xs ++ triggered steps))
  run_steps-waiting (inr xs) hist (triggers a ∷ steps) =
      run_steps-waiting (inr (xs ++ a ∷ [])) hist steps
      ∙ ap (λ (ys : List A). hist ++ zip (armed steps) ys)
          (append_assoc xs (a ∷ []) (triggered steps))

  -- Whatever the order of the calls of `arm` and `trigger`, the functions are invoked in the order
  -- in which they were armed, the n-th one with the n-th arguments, as soon as both are there.
  pub run_steps-zip :
      (steps : List (Step F A))
      → (run_steps (record { callbacks = []; args = []; fired = [] }) steps).fired
        ≡ zip (armed steps) (triggered steps)
  run_steps-zip steps = run_steps-waiting (inl []) [] steps
