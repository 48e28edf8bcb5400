-- ===== src/StateMachine/AdvanceAll.antt =====
-- The loop of `OpsStateMachine::advanceAllOperations` against a walk over the whole deque.
use mathlib.Core.List.{append_assoc}
use tensorpipe.Prelude.{
  ℕ, zero, suc, ◌+◌, ◌≤◌, ◌≡◌, refl, inl, inr, true, false, none, List, [], ◌∷◌, ◌++◌, arith,
  length, length-append, Bool-cases,
}
use tensorpipe.StateMachine.{
  Machine, is_finished, find_operation, pop_finished, advance_all_from, advance_all_operations,
}
use tensorpipe.StateMachine.Find.{
  IsConsecutive, last_state, find-middle, find-past, find-popped, middle-IsConsecutive,
  last_state-snoc,
}
use tensorpipe.StateMachine.Sweep.{
  IsLawful, IsTrim, pop_finished-IsTrim, pop_finished-gone, pop_finished-IsConsecutive,
  advance_one-middle,
}

module _ {ℓ κ μ} {S : Type ℓ} {Op : Type κ} {State : Type μ} (m : Machine S Op State) where
  -- Every operation in order, each seeing the state of the one before it.
  unfoldable pub sweep_all : State → List Op → S → List Op × S
  sweep_all p [] s = ([], s)
  sweep_all p (op ∷ rest) s =
      let (op', s') = m.transit op p s in
      let (rest', s'') = sweep_all (m.state op') rest s' in (op' ∷ rest', s'')

  -- No operation is FINISHED.
  abbrev pub AllLive : List Op → Type 0
  AllLive [] = Unit {0}
  AllLive (op ∷ rest) = (is_finished m op ≡ false) × AllLive rest

  pub AllLive-IsTrim : (ops : List Op) → AllLive ops → IsTrim m ops
  AllLive-IsTrim [] a = tt
  AllLive-IsTrim (op ∷ rest) a = a.0

  pub advance_all_from-stop :
      (ops : List Op) (n fuel : ℕ) (s : S)
      → find_operation m ops n ≡ none
      → advance_all_from m fuel n ops s ≡ (ops, s)
  unfolding advance_all_from
  advance_all_from-stop ops n zero s e = refl
  advance_all_from-stop ops n (suc fuel) s e = ground (arith, e)

module _ {ℓ κ μ} {S : Type ℓ} {Op : Type κ} {State : Type μ} (m : Machine S Op State)
    (law : IsLawful m) where
  all_inner :
      (b : Op) (bs after : List Op) (f n fuel : ℕ) (s : S)
      → IsConsecutive m f (b ∷ bs ++ after)
      → is_finished m b ≡ false
      → n ≡ f + length (b ∷ bs)
      → length after ≤ fuel
      → advance_all_from m fuel n (b ∷ bs ++ after) s ≡ (
          let (after', s') = sweep_all m (last_state m (m.state b) bs) after s in
          (b ∷ bs ++ after', s'))
  unfolding advance_all_from sweep_all
  all_inner b bs [] f n zero s c t e h = refl
  all_inner b bs [] f n (suc fuel) s c t e h =
      ground (arith, find-past m (b ∷ bs ++ []) f n c, length-append bs [])
  all_inner b bs (op ∷ rest) f n zero s c t e h = absurd (omega arith)
  all_inner b bs (op ∷ rest) f n (suc fuel) s c t e h =
      let op' : Op = (m.transit op (last_state m (m.state b) bs) s).0 in
      let s' : S = (m.transit op (last_state m (m.state b) bs) s).1 in
      let later =
        all_inner b (bs ++ op' ∷ []) rest f (n + 1) fuel s'
          (rw append_assoc (middle-IsConsecutive m (b ∷ bs) rest op op' f c (law.keeps_seq op _ s)))
          t (omega (arith, length-append bs (op' ∷ []))) (omega arith) in
      ground (
        arith,
        find-middle m (b ∷ bs) rest op f n c e,
        advance_one-middle m law (b ∷ bs) rest op s f c,
        pop_finished-IsTrim m (b ∷ bs ++ op' ∷ rest) t,
        later,
        last_state-snoc m (m.state b) bs op',
        append_assoc bs (op' ∷ []) rest,
        append_assoc bs (op' ∷ []) (sweep_all m (m.state op') rest s').0,
      )

  all_front :
      (after : List Op) (f fuel : ℕ) (s : S)
      → IsConsecutive m f after
      → AllLive m after
      → length after ≤ fuel
      → advance_all_from m fuel f after s
        ≡ (let (after', s') = sweep_all m m.finished after s in (pop_finished m after', s'))
  unfolding advance_all_from sweep_all
  all_front [] f zero s c t h = ground (arith, pop_finished-IsTrim m [] tt)
  all_front [] f (suc fuel) s c t h =
      ground (arith, find-past m [] f f c, pop_finished-IsTrim m [] tt)
  all_front (op ∷ rest) f zero s c t h = absurd (omega arith)
  all_front (op ∷ rest) f (suc fuel) s c t h =
      let op' : Op = (m.transit op m.finished s).0 in
      let s' : S = (m.transit op m.finished s).1 in
      let c' : IsConsecutive m f (op' ∷ rest) =
        middle-IsConsecutive m [] rest op op' f c (law.keeps_seq op _ s) in
      let next : f + 1 ≡ suc f = omega arith in
      let found = find-middle m [] rest op f f c (omega arith) in
      elim (Bool-cases (is_finished m op')) [
        | inr live ↦ ground (
          arith,
          found,
          next,
          advance_one-middle m law [] rest op s f c,
          all_inner op' [] rest f (suc f) fuel s' c' live (omega arith) (omega arith),
          pop_finished-IsTrim m (op' ∷ (sweep_all m (m.state op') rest s').0) live,
        )
        | inl gone ↦ ground (
          arith,
          found,
          next,
          advance_one-middle m law [] rest op s f c,
          pop_finished-gone m op' rest gone,
          pop_finished-IsTrim m rest (AllLive-IsTrim m rest t.1),
          pop_finished-gone m op' (sweep_all m m.finished rest s').0 gone,
          law.one_finished (m.state op'),
          all_front rest (suc f) fuel s' c.1 t.1 (omega arith),
        )
      ]

  -- With a transitioner that keeps the operations' numbers: `advanceAllOperations` on a deque that is numbered consecutively and in which no operation is
  -- FINISHED: every operation is advanced once, in order, each seeing the state of the one before
  -- it, and at the end the FINISHED operations are taken off the front.
  pub advance_all_operations-sweep :
      (ops : List Op) (f : ℕ) (s : S)
      → IsConsecutive m f ops
      → AllLive m ops
      → advance_all_operations m ops s
        ≡ (let (ops', s') = sweep_all m m.finished ops s in (pop_finished m ops', s'))
  unfolding advance_all_operations sweep_all pop_finished
  advance_all_operations-sweep [] f s c t = refl
  advance_all_operations-sweep (op ∷ rest) f s c t =
      rw c.0 (all_front (op ∷ rest) f (length (op ∷ rest)) s c t (omega arith))

  -- With a transitioner that keeps the operations' numbers, on a deque that is numbered consecutively:
  -- where the second operation is FINISHED already and the first one gets FINISHED now,
  -- `advanceAllOperations` stops there: no later operation is advanced, whatever it waits for.
  pub advance_all_operations_stops :
      (op done : Op) (rest : List Op) (f : ℕ) (s : S)
      → IsConsecutive m f (op ∷ done ∷ rest)
      → is_finished m done ≡ true
      → let (op', s') = m.transit op m.finished s in
        is_finished m op' ≡ true
        → advance_all_operations m (op ∷ done ∷ rest) s ≡ (pop_finished m rest, s')
  unfolding advance_all_operations advance_all_from
  advance_all_operations_stops op done rest f s c d e =
      let op' : Op = (m.transit op m.finished s).0 in
      let s' : S = (m.transit op m.finished s).1 in
      let (g, h, k) = pop_finished-IsConsecutive m rest (suc (suc f)) c.1.1 in
      let next : f + 1 ≡ suc f = omega arith in
      let stop = find-popped m (pop_finished m rest) g (suc f) k h in
      ground (
        arith,
        next,
        stop,
        find-middle m [] (done ∷ rest) op f f c (omega arith),
        advance_one-middle m law [] (done ∷ rest) op s f c,
        pop_finished-gone m op' (done ∷ rest) e,
        pop_finished-gone m done rest d,
        advance_all_from-stop m (pop_finished m rest) (suc f) (suc (length rest)) s' stop,
      )
