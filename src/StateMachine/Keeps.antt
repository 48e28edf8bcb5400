-- ===== src/StateMachine/Keeps.antt =====
-- What the transitioner leaves alone, `advanceOperation` and `advanceAllOperations` leave alone;
-- and they take operations off the front only.
use tensorpipe.Prelude.{
  ℕ, zero, suc, ◌+◌, ◌≡◌, refl, inl, inr, List, [], ◌∷◌, ◌++◌, arith, length, length-append,
  Option-cases,
}
use tensorpipe.StateMachine.{
  Machine, find_operation, prev_state, pop_finished, advance_one, advance_from, advance_operation,
  advance_all_from, advance_all_operations,
}
use tensorpipe.StateMachine.Find.{last_state}
use tensorpipe.StateMachine.Sweep.{sweep, advance_operation-sweep}
use tensorpipe.StateMachine.AdvanceAll.{sweep_all, AllLive-IsTrim, advance_all_operations-sweep}
use tensorpipe.StateMachine.Order.{Spacing, IsOrderly, IsDeque}
use tensorpipe.StateMachine.Counted.{finished_ahead, front_after, front_after_all}

module _ {ℓ κ μ ν} {S : Type ℓ} {Op : Type κ} {State : Type μ} {X : Type ν} (m : Machine S Op State)
    (view : S → X)
    (keeps : (op : Op) (p : State) (s : S) → view (m.transit op p s).1 ≡ view s) where
  advance_from-keeps :
      (fuel n : ℕ) (ops : List Op) (s : S) → view (advance_from m fuel n ops s).1 ≡ view s
  unfolding advance_from advance_one
  advance_from-keeps zero n ops s = refl
  advance_from-keeps (suc fuel) n ops s = elim (Option-cases (find_operation m ops n)) [
    | inl e ↦ ground (arith, e)
    | inr (op, e) ↦
        let (ops', s', _) = advance_one m ops s op in
        ground (
          arith,
          e,
          keeps op (prev_state m ops (m.seq op)) s,
          advance_from-keeps fuel (n + 1) ops' s',
        )
  ]

  pub advance_operation-keeps :
      (n : ℕ) (ops : List Op) (s : S) → view (advance_operation m ops n s).1 ≡ view s
  unfolding advance_operation
  advance_operation-keeps n ops s = advance_from-keeps (length ops) n ops s

  advance_all_from-keeps :
      (fuel n : ℕ) (ops : List Op) (s : S) → view (advance_all_from m fuel n ops s).1 ≡ view s
  unfolding advance_all_from advance_one
  advance_all_from-keeps zero n ops s = refl
  advance_all_from-keeps (suc fuel) n ops s = elim (Option-cases (find_operation m ops n)) [
    | inl e ↦ ground (arith, e)
    | inr (op, e) ↦
        let (ops', s', _) = advance_one m ops s op in
        ground (
          arith,
          e,
          keeps op (prev_state m ops (m.seq op)) s,
          advance_all_from-keeps fuel (n + 1) ops' s',
        )
  ]

  pub advance_all_operations-keeps :
      (ops : List Op) (s : S) → view (advance_all_operations m ops s).1 ≡ view s
  unfolding advance_all_operations
  advance_all_operations-keeps [] s = refl
  advance_all_operations-keeps (op ∷ rest) s =
      advance_all_from-keeps (length (op ∷ rest)) (m.seq op) (op ∷ rest) s

module _ {ℓ κ μ} {S : Type ℓ} {Op : Type κ} {State : Type μ} (m : Machine S Op State) where
  length-sweep : (p : State) (ops : List Op) (s : S) → length (sweep m p ops s).0 ≡ length ops
  unfolding sweep
  length-sweep p [] s = refl
  length-sweep p (op ∷ rest) s =
      let (op', s') = m.transit op p s in ground (arith, length-sweep (m.state op') rest s')

  length-sweep_all :
      (p : State) (ops : List Op) (s : S) → length (sweep_all m p ops s).0 ≡ length ops
  unfolding sweep_all
  length-sweep_all p [] s = refl
  length-sweep_all p (op ∷ rest) s =
      let (op', s') = m.transit op p s in ground (arith, length-sweep_all (m.state op') rest s')

  length-popped : (ops : List Op) → finished_ahead m ops + length (pop_finished m ops) ≡ length ops
  unfolding pop_finished finished_ahead
  length-popped [] = refl
  length-popped (op ∷ rest) = ground (arith, length-popped rest)

module _ {ℓ κ μ} {S : Type ℓ} {Op : Type κ} {State : Type μ} (m : Machine S Op State) {g : Spacing}
    (law : IsOrderly m g) where
  pub length-advance :
      (f : ℕ) (before after : List Op) (s : S)
      → IsDeque m g f (before ++ after)
      → front_after m law f before after s
          + length (advance_operation m (before ++ after) (f + length before) s).0
        ≡ f + length (before ++ after)
  length-advance f before after s d =
      let p = last_state m m.finished before in
      rw
        (advance_operation-sweep m law.lawful before after f s d.consecutive
          (AllLive-IsTrim m (before ++ after) d.live))
        (omega (
          arith,
          length-popped m (before ++ (sweep m p after s).0),
          length-append before (sweep m p after s).0,
          length-append before after,
          length-sweep m p after s,
        ))

  pub length-advance_all :
      (f : ℕ) (ops : List Op) (s : S)
      → IsDeque m g f ops
      → front_after_all m law f ops s + length (advance_all_operations m ops s).0 ≡ f + length ops
  length-advance_all f ops s d =
      rw (advance_all_operations-sweep m law.lawful ops f s d.consecutive d.live) (
        omega (
          arith,
          length-popped m (sweep_all m m.finished ops s).0,
          length-sweep_all m m.finished ops s,
        ))
