-- ===== src/StateMachine.antt =====
-- `OpsStateMachine` of tensorpipe/common/state_machine.h: a deque of operations that advance in
-- order. The subject (the object whose methods are the transitioner and the actions) is the type
-- `S`; an `Iter` is the operation's sequence number. Sequence numbers are far from 2 ^ 63, so the
-- casts to `int64_t` change nothing.
pub mod Find
pub mod Sweep
pub mod AdvanceAll
pub mod Order
pub mod Counter
pub mod Counted
pub mod Keeps
pub mod Replace
use tensorpipe.Prelude.{
  ℕ, zero, suc, ◌+◌, ◌-◌, Bool, true, false, not, ◌&&◌, Option, none, some, List, [], ◌∷◌, ◌++◌,
  ltb, ◌==◌, if◌then◌else◌, get_elem?, set, length,
}

-- What the class template asks of `TOp`: its fields `sequenceNumber` and `state`, and the numeric
-- values of the enumerators of `TOp::State`.
pub record OpType {κ μ} (Op : Type κ) (State : Type μ) : Type (κ ⊔ μ) where
  pub seq : Op → ℕ
  pub state : Op → State
  pub set_state : Op → State → Op
  pub number : State → ℕ
  pub finished : State

-- With the transitioner, which is given the operation and the state of the one before it.
pub record Machine {ℓ κ μ} (S : Type ℓ) (Op : Type κ) (State : Type μ) : Type (ℓ ⊔ κ ⊔ μ) where
  pub op_type : OpType Op State
  pub open op_type use *
  pub transit : Op → State → S → Op × S

-- `emplaceBack`
unfoldable pub emplace_back {κ} : {Op : Type κ} → List Op → Op → List Op
emplace_back ops op = ops ++ op ∷ []

-- The actions of a transition, in order.
abbrev pub run_actions {ℓ κ} : {S : Type ℓ} {Op : Type κ} → List (Op × S → Op × S) → Op × S → Op × S
run_actions [] x = x
run_actions (action ∷ rest) x = run_actions rest (action x)

module _ {ℓ κ μ} {S : Type ℓ} {Op : Type κ} {State : Type μ} (m : Machine S Op State) where
  abbrev pub rank : Op → ℕ
  rank op = m.number (m.state op)

  abbrev pub is_finished : Op → Bool
  is_finished op = rank op == m.number m.finished

  -- `findOperation`
  unfoldable pub find_operation : List Op → ℕ → Option Op
  find_operation [] n = none
  find_operation (front ∷ rest) n =
      if ltb n (m.seq front) then none else get_elem? (front ∷ rest) (n - m.seq front)

  -- The state of the operation numbered `n - 1`, or FINISHED where there is none. For `n` zero
  -- the code's argument is -1, which no operation has.
  unfoldable pub prev_state : List Op → ℕ → State
  prev_state ops zero = m.finished
  prev_state ops (suc n) = elim (find_operation ops n) [ none ↦ m.finished | some p ↦ m.state p ]

  -- What the transitioner wrote to the operation that stands in the deque.
  unfoldable pub store : List Op → Op → List Op
  store [] op = []
  store (front ∷ rest) op = set (front ∷ rest) (m.seq op - m.seq front) op

  -- The `while` loop at the end of `advanceOneOperation`.
  unfoldable pub pop_finished : List Op → List Op
  pop_finished [] = []
  pop_finished (op ∷ rest) =
      let popped = pop_finished rest in if is_finished op then popped else op ∷ rest

  -- `advanceOneOperation`: the deque, the subject, and whether the operation's state changed.
  unfoldable pub advance_one : List Op → S → Op → List Op × S × Bool
  advance_one ops s op =
      let (op', s') = m.transit op (prev_state ops (m.seq op)) s in
      let ops' = store ops op' in
      (if is_finished op' then pop_finished ops' else ops', s', not (rank op' == rank op))

  -- The loop of `advanceOperation` from sequence number `n`, for at most the given rounds.
  unfoldable pub advance_from : ℕ → ℕ → List Op → S → List Op × S
  advance_from zero n ops s = (ops, s)
  advance_from (suc fuel) n ops s = elim (find_operation ops n) [
    | none ↦ (ops, s)
    | some op ↦ elim (is_finished op) [
      | true ↦ (ops, s)
      | false ↦
          let (ops', s', advanced) = advance_one ops s op in
          elim advanced [ true ↦ advance_from fuel (n + 1) ops' s' | false ↦ (ops', s') ]
    ]
  ]

  -- `advanceOperation`: no run of the loop has more rounds than there are operations.
  unfoldable pub advance_operation : List Op → ℕ → S → List Op × S
  advance_operation ops n s = advance_from (length ops) n ops s

  -- The loop of `advanceAllOperations` from sequence number `n`.
  unfoldable pub advance_all_from : ℕ → ℕ → List Op → S → List Op × S
  advance_all_from zero n ops s = (ops, s)
  advance_all_from (suc fuel) n ops s = elim (find_operation ops n) [
    | none ↦ (ops, s)
    | some op ↦ let (ops', s', _) = advance_one ops s op in advance_all_from fuel (n + 1) ops' s'
  ]

  -- `advanceAllOperations`
  unfoldable pub advance_all_operations : List Op → S → List Op × S
  advance_all_operations [] s = ([], s)
  advance_all_operations (front ∷ rest) s =
      advance_all_from (length (front ∷ rest)) (m.seq front) (front ∷ rest) s

-- `attemptTransition`
abbrev pub attempt_transition {ℓ κ μ} :
    {S : Type ℓ} {Op : Type κ} {State : Type μ} (t : OpType Op State)
    → State
    → State
    → (Op → S → Bool)
    → List (Op × S → Op × S)
    → Op × S
    → Op × S
attempt_transition t from to test actions (op, s) =
    let (op', s') = run_actions actions (op, s) in
    if t.number (t.state op) == t.number from && test op s
    then (t.set_state op' to, s')
    else (op, s)
