-- ===== src/StateMachine/Order.antt =====
-- Operations that cannot overtake: the deque of `OpsStateMachine` stays numbered, ordered and free
-- of FINISHED operations.
use tensorpipe.Prelude.{ℕ, suc, ◌≤◌, ◌<◌, ◌∙◌, List, [], ◌∷◌, arith}
use tensorpipe.StateMachine.{Machine, rank}
use tensorpipe.StateMachine.Find.{IsConsecutive}
use tensorpipe.StateMachine.Sweep.{IsLawful, sweep}
use tensorpipe.StateMachine.AdvanceAll.{sweep_all, AllLive}

-- How far the operation before must have got, at least, for an operation to be in a state: both
-- by the states' numbers.
pub record Spacing : Type 0 where
  pub need : ℕ → ℕ
  pub at_least : (r : ℕ) → r ≤ need r

module _ {ℓ κ μ} {S : Type ℓ} {Op : Type κ} {State : Type μ} (m : Machine S Op State)
    (g : Spacing) where
  -- Every operation is in a state that the one before it allows; for the first, `p` is that one's.
  abbrev pub IsOrdered : ℕ → List Op → Type 0
  IsOrdered p [] = Unit {0}
  IsOrdered p (op ∷ rest) = (g.need (rank m op) ≤ p) × IsOrdered (rank m op) rest

  -- What the transitioner keeps to: an operation never goes back, and never gets ahead of the one
  -- before it.
  pub record IsOrderly : Type (ℓ ⊔ κ ⊔ μ) where
    pub lawful : IsLawful m
    pub forward : (op : Op) (p : State) (s : S) → rank m op ≤ rank m (m.transit op p s).0
    pub behind :
        (op : Op) (p : State) (s : S)
        → g.need (rank m op) ≤ m.number p
        → g.need (rank m (m.transit op p s).0) ≤ m.number p

  pub record IsDeque (f : ℕ) (ops : List Op) : Type 0 where
    pub consecutive : IsConsecutive m f ops
    pub ordered : IsOrdered (m.number m.finished) ops
    pub live : AllLive m ops

module _ {ℓ κ μ} {S : Type ℓ} {Op : Type κ} {State : Type μ} (m : Machine S Op State) {g : Spacing}
    (law : IsOrderly m g) where
  pub IsOrdered-mono : (p q : ℕ) (ops : List Op) → p ≤ q → IsOrdered m g p ops → IsOrdered m g q ops
  IsOrdered-mono p q [] h o = tt
  IsOrdered-mono p q (op ∷ rest) h o = (omega arith, o.1)

  pub sweep-IsOrdered :
      (p : State) (ops : List Op) (s : S)
      → IsOrdered m g (m.number p) ops
      → IsOrdered m g (m.number p) (sweep m p ops s).0
  unfolding sweep
  sweep-IsOrdered p [] s o = tt
  sweep-IsOrdered p (op ∷ rest) s o =
      let (op', s') = m.transit op p s in
      ground (
        arith,
        law.behind op p s,
        law.forward op p s,
        IsOrdered-mono (rank m op) (rank m op') rest,
        sweep-IsOrdered (m.state op') rest s'
            (IsOrdered-mono (rank m op) (rank m op') rest (law.forward op p s) o.1),
      )

  pub sweep_all-IsOrdered :
      (p : State) (ops : List Op) (s : S)
      → IsOrdered m g (m.number p) ops
      → IsOrdered m g (m.number p) (sweep_all m p ops s).0
  unfolding sweep_all
  sweep_all-IsOrdered p [] s o = tt
  sweep_all-IsOrdered p (op ∷ rest) s o =
      let (op', s') = m.transit op p s in
      (
        law.behind op p s o.0,
        sweep_all-IsOrdered (m.state op') rest s'
            (IsOrdered-mono (rank m op) (rank m op') rest (law.forward op p s) o.1),
      )

  pub sweep-IsConsecutive :
      (p : State) (f : ℕ) (ops : List Op) (s : S)
      → IsConsecutive m f ops
      → IsConsecutive m f (sweep m p ops s).0
  unfolding sweep
  sweep-IsConsecutive p f [] s c = tt
  sweep-IsConsecutive p f (op ∷ rest) s c =
      let (op', s') = m.transit op p s in
      ground
        (arith, law.lawful.keeps_seq op p s, sweep-IsConsecutive (m.state op') (suc f) rest s' c.1)

  pub sweep_all-IsConsecutive :
      (p : State) (f : ℕ) (ops : List Op) (s : S)
      → IsConsecutive m f ops
      → IsConsecutive m f (sweep_all m p ops s).0
  unfolding sweep_all
  sweep_all-IsConsecutive p f [] s c = tt
  sweep_all-IsConsecutive p f (op ∷ rest) s c =
      let (op', s') = m.transit op p s in
      (law.lawful.keeps_seq op p s ∙ c.0, sweep_all-IsConsecutive (m.state op') (suc f) rest s' c.1)

  pub below-AllLive :
      (p : ℕ) (ops : List Op) → p < m.number m.finished → IsOrdered m g p ops → AllLive m ops
  below-AllLive p [] h o = tt
  below-AllLive p (op ∷ rest) h o = (
    ground (arith, g.at_least (rank m op)),
    below-AllLive (rank m op) rest (omega (arith, g.at_least (rank m op))) o.1,
  )
