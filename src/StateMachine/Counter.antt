-- ===== src/StateMachine/Counter.antt =====
-- Counters of an `OpsStateMachine`: a number that is increased, and compared with the operation's
-- sequence number, exactly when an operation reaches a state.
use native.Mathlib.Decide.{dec_lt}
use tensorpipe.Prelude.{
  ℕ, suc, ◌+◌, ◌≤◌, ◌<◌, ◌≡◌, refl, inl, inr, ◌⊎◌, Bool, true, ◌&&◌, List, [], ◌∷◌, arith, leb,
  ◌==◌, if◌then◌else◌,
}
use tensorpipe.StateMachine.{Machine, rank}
use tensorpipe.StateMachine.Find.{IsConsecutive}
use tensorpipe.StateMachine.Sweep.{sweep}
use tensorpipe.StateMachine.AdvanceAll.{sweep_all}
use tensorpipe.StateMachine.Order.{Spacing, IsOrdered, IsOrdered-mono, IsOrderly}

-- The number of the state that counts, the counter, and whether all comparisons have held.
pub record Counter {ℓ} (S : Type ℓ) : Type ℓ where
  pub threshold : ℕ
  pub value : S → ℕ
  pub checked : S → Bool

-- A step of operation `seq` from a state numbered `r` to one numbered `r'`.
pub record Counts {ℓ} {S : Type ℓ} (c : Counter S) (seq r r' : ℕ) (s s' : S) : Type 0 where
  pub reached :
      r < c.threshold
      → c.threshold ≤ r'
      → (c.value s' ≡ suc (c.value s)) × (c.checked s' ≡ (c.checked s && seq == c.value s))
  pub stays :
      (c.threshold ≤ r) ⊎ (r' < c.threshold)
      → (c.value s' ≡ c.value s) × (c.checked s' ≡ c.checked s)

pub Counts-trans {ℓ} :
    {S : Type ℓ} (c : Counter S) (seq p q r : ℕ) (s t u : S)
    → p ≤ q
    → q ≤ r
    → Counts c seq p q s t
    → Counts c seq q r t u
    → Counts c seq p r s u
Counts-trans c seq p q r s t u h k a b = record {
  reached = λ x y. ground arith;
  stays = λ x. ground arith;
}

module _ {ℓ κ μ} {S : Type ℓ} {Op : Type κ} {State : Type μ} (m : Machine S Op State) where
  -- The number of operations whose state is numbered `t` or more.
  abbrev pub count_from : ℕ → List Op → ℕ
  count_from t [] = 0
  count_from t (op ∷ rest) = let n = count_from t rest in if leb t (rank m op) then suc n else n

  pub count_from-below :
      (g : Spacing) (t p : ℕ) (ops : List Op) → IsOrdered m g p ops → p < t → count_from t ops ≡ 0
  count_from-below g t p [] o h = refl
  count_from-below g t p (op ∷ rest) o h =
      ground (arith, g.at_least (rank m op), count_from-below g t (rank m op) rest o.1)

  -- What the transitioner does to the counter, for an operation that has not overtaken.
  abbrev pub HasCounter : Spacing → Counter S → Type (ℓ ⊔ κ ⊔ μ)
  HasCounter g c =
      (op : Op) (p : State) (s : S)
      → g.need (rank m op) ≤ m.number p
      → let (op', s') = m.transit op p s in Counts c (m.seq op) (rank m op) (rank m op') s s'

module _ {ℓ κ μ} {S : Type ℓ} {Op : Type κ} {State : Type μ} (m : Machine S Op State) {g : Spacing}
    (law : IsOrderly m g) (c : Counter S) (has : HasCounter m g c) where
  -- Nobody gets to the counted states behind an operation that is not there.
  pub sweep_all-value-below :
      (p : State) (ops : List Op) (s : S)
      → m.number p < c.threshold
      → IsOrdered m g (m.number p) ops
      → let (ops', s') = sweep_all m p ops s in
        (c.value s' ≡ c.value s)
        × (c.checked s' ≡ c.checked s)
        × (count_from m c.threshold ops' ≡ 0)
  unfolding sweep_all
  sweep_all-value-below p [] s h o = (refl, refl, refl)
  sweep_all-value-below p (op ∷ rest) s h o =
      let (op', s') = m.transit op p s in
      ground (
        arith,
        law.behind op p s o.0,
        g.at_least (rank m op'),
        g.at_least (rank m op),
        (has op p s o.0).stays,
        sweep_all-value-below (m.state op') rest s',
        IsOrdered-mono m law (rank m op) (rank m op') rest (law.forward op p s) o.1,
      )

  -- The counter stays at the number of the first operation that is not in the counted states, and
  -- no comparison fails.
  pub sweep_all-value :
      (p : State) (n : ℕ) (ops : List Op) (s : S)
      → IsConsecutive m n ops
      → IsOrdered m g (m.number p) ops
      → c.value s ≡ n + count_from m c.threshold ops
      → let (ops', s') = sweep_all m p ops s in
        (c.value s' ≡ n + count_from m c.threshold ops')
        × (c.checked s ≡ true → c.checked s' ≡ true)
  unfolding sweep_all
  sweep_all-value p n [] s k o v = (v, λ x. x)
  sweep_all-value p n (op ∷ rest) s k o v =
      let (op', s') = m.transit op p s in
      let step : Counts c (m.seq op) (rank m op) (rank m op') s s' = has op p s o.0 in
      let o' : IsOrdered m g (rank m op') rest =
        IsOrdered-mono m law (rank m op) (rank m op') rest (law.forward op p s) o.1 in
      let none_behind = count_from-below m g c.threshold (rank m op) rest o.1 in
      let later = sweep_all-value (m.state op') (suc n) rest s' k.1 o' in
      let below = sweep_all-value-below (m.state op') rest s' in
      elim (dec_lt (rank m op) c.threshold) [
        | no past ↦ ground (arith, step.stays (inl (omega arith)), law.forward op p s, later)
        | yes before ↦ elim (dec_lt (rank m op') c.threshold) [
          | no reached ↦
              ground (arith, step.reached before (omega arith), none_behind before, k.0, later)
          | yes still ↦ ground (arith, step.stays (inr still), none_behind before, below still o')
        ]
      ]

  pub sweep-value-below :
      (p : State) (ops : List Op) (s : S)
      → m.number p < c.threshold
      → IsOrdered m g (m.number p) ops
      → let (ops', s') = sweep m p ops s in
        (c.value s' ≡ c.value s)
        × (c.checked s' ≡ c.checked s)
        × (count_from m c.threshold ops' ≡ 0)
  unfolding sweep
  sweep-value-below p [] s h o = (refl, refl, refl)
  sweep-value-below p (op ∷ rest) s h o =
      let (op', s') = m.transit op p s in
      ground (
        arith,
        law.behind op p s o.0,
        g.at_least (rank m op'),
        g.at_least (rank m op),
        (has op p s o.0).stays,
        sweep-value-below (m.state op') rest s',
        IsOrdered-mono m law (rank m op) (rank m op') rest (law.forward op p s) o.1,
        count_from-below m g c.threshold (rank m op) rest o.1,
      )

  -- The same of the walk that `advanceOperation` makes.
  pub sweep-value :
      (p : State) (n : ℕ) (ops : List Op) (s : S)
      → IsConsecutive m n ops
      → IsOrdered m g (m.number p) ops
      → c.value s ≡ n + count_from m c.threshold ops
      → let (ops', s') = sweep m p ops s in
        (c.value s' ≡ n + count_from m c.threshold ops')
        × (c.checked s ≡ true → c.checked s' ≡ true)
  unfolding sweep
  sweep-value p n [] s k o v = (v, λ x. x)
  sweep-value p n (op ∷ rest) s k o v =
      let (op', s') = m.transit op p s in
      let step : Counts c (m.seq op) (rank m op) (rank m op') s s' = has op p s o.0 in
      let o' : IsOrdered m g (rank m op') rest =
        IsOrdered-mono m law (rank m op) (rank m op') rest (law.forward op p s) o.1 in
      let none_behind = count_from-below m g c.threshold (rank m op) rest o.1 in
      let none_after = count_from-below m g c.threshold (rank m op') rest o' in
      let later = sweep-value (m.state op') (suc n) rest s' k.1 o' in
      let below = sweep-value-below (m.state op') rest s' in
      elim (dec_lt (rank m op) c.threshold) [
        | no past ↦
            ground (arith, step.stays (inl (omega arith)), law.forward op p s, later, none_after)
        | yes before ↦ elim (dec_lt (rank m op') c.threshold) [
          | no reached ↦
              ground (
                arith,
                step.reached before (omega arith),
                none_behind before,
                k.0,
                later,
                none_after,
              )
          | yes still ↦
              ground (arith, step.stays (inr still), none_behind before, below still o', none_after)
        ]
      ]
