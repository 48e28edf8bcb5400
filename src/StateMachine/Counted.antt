-- ===== src/StateMachine/Counted.antt =====
-- `advanceOperation` and `advanceAllOperations` keep the deque in order and the counters right.
use native.Mathlib.Decide.{dec_lt}
use tensorpipe.Prelude.{
  ℕ, suc, ◌+◌, ◌≤◌, ◌≡◌, refl, inl, inr, true, List, [], ◌∷◌, ◌++◌, arith, if◌then◌else◌, length,
  Bool-cases,
}
use tensorpipe.StateMachine.{
  Machine, rank, is_finished, pop_finished, advance_operation, advance_all_operations,
}
use tensorpipe.StateMachine.Find.{IsConsecutive, last_state}
use tensorpipe.StateMachine.Sweep.{sweep, advance_operation-sweep}
use tensorpipe.StateMachine.AdvanceAll.{
  sweep_all, AllLive, AllLive-IsTrim, advance_all_operations-sweep,
}
use tensorpipe.StateMachine.Order.{
  Spacing, IsOrdered, IsOrdered-mono, IsOrderly, IsDeque, sweep-IsOrdered, sweep_all-IsOrdered,
  sweep-IsConsecutive, sweep_all-IsConsecutive, below-AllLive,
}
use tensorpipe.StateMachine.Counter.{
  Counter, HasCounter, count_from, count_from-below, sweep-value, sweep-value-below,
  sweep_all-value,
}

module _ {ℓ κ μ} {S : Type ℓ} {Op : Type κ} {State : Type μ} (m : Machine S Op State) where
  -- How many operations `pop_finished` takes off.
  unfoldable pub finished_ahead : List Op → ℕ
  finished_ahead [] = 0
  finished_ahead (op ∷ rest) = let n = finished_ahead rest in if is_finished m op then suc n else 0

  count_from-append :
      (t : ℕ) (xs ys : List Op) → count_from m t (xs ++ ys) ≡ count_from m t xs + count_from m t ys
  count_from-append t [] ys = omega arith
  count_from-append t (x ∷ xs) ys = ground (arith, count_from-append t xs ys)

  -- A deque is all counted up to an operation that is.
  count_from-before :
      (g : Spacing) (t : ℕ) (p : State) (before after : List Op)
      → IsOrdered m g (m.number p) (before ++ after)
      → t ≤ m.number (last_state m p before)
      → (count_from m t before ≡ length before) × (t ≤ m.number p)
  count_from-before g t p [] after o h = (refl, h)
  count_from-before g t p (b ∷ bs) after o h =
      ground (arith, g.at_least (rank m b), count_from-before g t (m.state b) bs after o.1 h)

  IsOrdered-after :
      (g : Spacing) (p : State) (before after : List Op)
      → IsOrdered m g (m.number p) (before ++ after)
      → IsOrdered m g (m.number (last_state m p before)) after
  IsOrdered-after g p [] after o = o
  IsOrdered-after g p (b ∷ bs) after o = IsOrdered-after g (m.state b) bs after o.1

  IsOrdered-replace :
      (g : Spacing) (p : State) (before after after' : List Op)
      → IsOrdered m g (m.number p) (before ++ after)
      → IsOrdered m g (m.number (last_state m p before)) after'
      → IsOrdered m g (m.number p) (before ++ after')
  IsOrdered-replace g p [] after after' o h = h
  IsOrdered-replace g p (b ∷ bs) after after' o h =
      (o.0, IsOrdered-replace g (m.state b) bs after after' o.1 h)

  IsConsecutive-after :
      (f n : ℕ) (before after : List Op)
      → n ≡ f + length before
      → IsConsecutive m f (before ++ after)
      → IsConsecutive m n after
  IsConsecutive-after f n [] after e c = let e' : n ≡ f = omega arith in rw e' c
  IsConsecutive-after f n (b ∷ bs) after e c =
      IsConsecutive-after (suc f) n bs after (omega arith) c.1

  IsConsecutive-replace :
      (f : ℕ) (before after after' : List Op)
      → IsConsecutive m f (before ++ after)
      → IsConsecutive m (f + length before) after'
      → IsConsecutive m f (before ++ after')
  IsConsecutive-replace f [] after after' c h = let e : f + 0 ≡ f = omega arith in rw e at h
  IsConsecutive-replace f (b ∷ bs) after after' c h =
      let e : f + suc (length bs) ≡ suc f + length bs = omega arith in
      (c.0, IsConsecutive-replace (suc f) bs after after' c.1 (rw e at h))

module _ {ℓ κ μ} {S : Type ℓ} {Op : Type κ} {State : Type μ} (m : Machine S Op State) {g : Spacing}
    (law : IsOrderly m g) where
  pub popped-IsDeque :
      (f : ℕ) (ops : List Op)
      → IsConsecutive m f ops
      → IsOrdered m g (m.number m.finished) ops
      → IsDeque m g (f + finished_ahead m ops) (pop_finished m ops)
  unfolding pop_finished finished_ahead
  popped-IsDeque f [] c o = record { consecutive = tt; ordered = tt; live = tt }
  popped-IsDeque f (op ∷ rest) c o = elim (Bool-cases (is_finished m op)) [
    | inl e ↦
        let n : f + suc (finished_ahead m rest) ≡ suc f + finished_ahead m rest = omega arith in
        rw e (
          rw n (
            popped-IsDeque (suc f) rest c.1 (
              IsOrdered-mono m law (rank m op) (m.number m.finished) rest
                (omega (arith, g.at_least (rank m op))) o.1)))
    | inr e ↦
        let n : f + 0 ≡ f = omega arith in
        rw e (
          rw n (record {
            consecutive = c;
            ordered = o;
            live = (
              e,
              below-AllLive m law (rank m op) rest (ground (arith, g.at_least (rank m op))) o.1,
            );
          }))
  ]

  popped-count :
      (t : ℕ) (ops : List Op)
      → t ≤ m.number m.finished
      → count_from m t ops ≡ finished_ahead m ops + count_from m t (pop_finished m ops)
  unfolding pop_finished finished_ahead
  popped-count t [] h = refl
  popped-count t (op ∷ rest) h = ground (arith, popped-count t rest h)

  -- In a deque in order, no operation counts as FINISHED.
  pub count_from-live :
      (p : ℕ) (ops : List Op)
      → p ≤ m.number m.finished
      → IsOrdered m g p ops
      → AllLive m ops
      → count_from m (m.number m.finished) ops ≡ 0
  count_from-live p [] h o a = refl
  count_from-live p (op ∷ rest) h o a = ground (
    arith,
    g.at_least (rank m op),
    count_from-live (rank m op) rest (omega (arith, g.at_least (rank m op))) o.1 a.1,
  )

  -- The number of the first operation that is left after the calls.
  abbrev pub front_after_all : ℕ → List Op → S → ℕ
  front_after_all f ops s = f + finished_ahead m (sweep_all m m.finished ops s).0

  abbrev pub front_after : ℕ → List Op → List Op → S → ℕ
  front_after f before after s =
      f + finished_ahead m (before ++ (sweep m (last_state m m.finished before) after s).0)

  -- `advanceAllOperations` keeps the deque consecutive, ordered and free of FINISHED operations.
  pub advance_all-IsDeque :
      (f : ℕ) (ops : List Op) (s : S)
      → IsDeque m g f ops
      → IsDeque m g (front_after_all f ops s) (advance_all_operations m ops s).0
  advance_all-IsDeque f ops s d =
      rw (advance_all_operations-sweep m law.lawful ops f s d.consecutive d.live) (
        popped-IsDeque f (sweep_all m m.finished ops s).0
          (sweep_all-IsConsecutive m law m.finished f ops s d.consecutive)
          (sweep_all-IsOrdered m law m.finished ops s d.ordered))

  -- So does `advanceOperation`.
  pub advance-IsDeque :
      (f : ℕ) (before after : List Op) (s : S)
      → IsDeque m g f (before ++ after)
      → IsDeque m g
          (front_after f before after s)
          (advance_operation m (before ++ after) (f + length before) s).0
  advance-IsDeque f before after s d =
      let p = last_state m m.finished before in
      rw
        (advance_operation-sweep m law.lawful before after f s d.consecutive
          (AllLive-IsTrim m (before ++ after) d.live))
        (popped-IsDeque f (before ++ (sweep m p after s).0)
          (IsConsecutive-replace m f before after (sweep m p after s).0 d.consecutive (
            sweep-IsConsecutive m law p (f + length before) after s
              (IsConsecutive-after m f (f + length before) before after refl d.consecutive)))
          (IsOrdered-replace m g m.finished before after (sweep m p after s).0 d.ordered (
            sweep-IsOrdered m law p after s
              (IsOrdered-after m g m.finished before after d.ordered))))

  module _ (c : Counter S) (has : HasCounter m g c) (low : c.threshold ≤ m.number m.finished) where
    -- The counter is the number of the first operation that is not in the counted states.
    abbrev pub IsRight : ℕ → List Op → S → Type 0
    IsRight f ops s = c.value s ≡ f + count_from m c.threshold ops

    pub advance_all-IsRight :
        (f : ℕ) (ops : List Op) (s : S)
        → IsDeque m g f ops
        → IsRight f ops s
        → let (ops', s') = advance_all_operations m ops s in
          IsRight (front_after_all f ops s) ops' s' × (c.checked s ≡ true → c.checked s' ≡ true)
    advance_all-IsRight f ops s d v =
        rw (advance_all_operations-sweep m law.lawful ops f s d.consecutive d.live) (
          ground (
            arith,
            sweep_all-value m law c has m.finished f ops s d.consecutive d.ordered v,
            popped-count c.threshold (sweep_all m m.finished ops s).0 low,
          ))

    after-value :
        (f : ℕ) (before after : List Op) (s : S)
        → IsDeque m g f (before ++ after)
        → IsRight f (before ++ after) s
        → let (after', s') = sweep m (last_state m m.finished before) after s in
          (c.value s' ≡ f + (count_from m c.threshold before + count_from m c.threshold after'))
          × (c.checked s ≡ true → c.checked s' ≡ true)
    after-value f before after s d v =
        let p = last_state m m.finished before in
        let o = IsOrdered-after m g m.finished before after d.ordered in
        let k = IsConsecutive-after m f (f + length before) before after refl d.consecutive in
        elim (dec_lt (m.number p) c.threshold) [
          | yes below ↦ ground (
            arith,
            sweep-value-below m law c has p after s below o,
            count_from-below m g c.threshold (m.number p) after o below,
            count_from-append m c.threshold before after,
          )
          | no counted ↦ ground (
            arith,
            count_from-before m g c.threshold m.finished before after d.ordered,
            count_from-append m c.threshold before after,
            sweep-value m law c has p (f + length before) after s k o,
          )
        ]

    pub advance-IsRight :
        (f : ℕ) (before after : List Op) (s : S)
        → IsDeque m g f (before ++ after)
        → IsRight f (before ++ after) s
        → let (ops', s') = advance_operation m (before ++ after) (f + length before) s in
          IsRight (front_after f before after s) ops' s'
          × (c.checked s ≡ true → c.checked s' ≡ true)
    advance-IsRight f before after s d v =
        let p = last_state m m.finished before in
        rw
          (advance_operation-sweep m law.lawful before after f s d.consecutive
            (AllLive-IsTrim m (before ++ after) d.live))
          (ground (
            arith,
            after-value f before after s d v,
            popped-count c.threshold (before ++ (sweep m p after s).0) low,
            count_from-append m c.threshold before (sweep m p after s).0,
          ))
