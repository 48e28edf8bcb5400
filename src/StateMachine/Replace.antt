-- ===== src/StateMachine/Replace.antt =====
-- A deque in order stays so when an operation's other fields change, and when a new operation
-- comes to its end.
use tensorpipe.Prelude.{
  ℕ, suc, ◌+◌, ◌≤◌, ◌<◌, ◌≡◌, refl, sym, subst, ap, false, none, List, [], ◌∷◌, ◌++◌, arith, leb,
  ◌==◌, if◌then◌else◌, length,
}
use tensorpipe.StateMachine.{Machine, rank, is_finished, find_operation, advance_operation}
use tensorpipe.StateMachine.Find.{IsConsecutive, middle-IsConsecutive}
use tensorpipe.StateMachine.Sweep.{advance_from-stop}
use tensorpipe.StateMachine.AdvanceAll.{AllLive}
use tensorpipe.StateMachine.Order.{Spacing, IsOrdered, IsDeque}
use tensorpipe.StateMachine.Counter.{count_from}

module _ {ℓ κ μ} {S : Type ℓ} {Op : Type κ} {State : Type μ} (m : Machine S Op State)
    (g : Spacing) where
  module _ (op op' : Op) (same : m.state op' ≡ m.state op) where
    replace-IsOrdered :
        (p : ℕ) (before rest : List Op)
        → IsOrdered m g p (before ++ op ∷ rest)
        → IsOrdered m g p (before ++ op' ∷ rest)
    replace-IsOrdered p [] rest o =
        subst (λ st. (g.need (m.number st) ≤ p) × IsOrdered m g (m.number st) rest) (sym same) o
    replace-IsOrdered p (b ∷ bs) rest o = (o.0, replace-IsOrdered (rank m b) bs rest o.1)

    replace-AllLive :
        (before rest : List Op) → AllLive m (before ++ op ∷ rest) → AllLive m (before ++ op' ∷ rest)
    replace-AllLive [] rest a =
        subst (λ st. ((m.number st == m.number m.finished) ≡ false) × AllLive m rest) (sym same) a
    replace-AllLive (b ∷ bs) rest a = (a.0, replace-AllLive bs rest a.1)

    pub replace-count_from :
        (t : ℕ) (before rest : List Op)
        → count_from m t (before ++ op' ∷ rest) ≡ count_from m t (before ++ op ∷ rest)
    replace-count_from t [] rest =
        ap (λ st. if leb t (m.number st) then suc (count_from m t rest) else count_from m t rest)
          same
    replace-count_from t (b ∷ bs) rest = ground (arith, replace-count_from t bs rest)

    pub replace-length :
        (before rest : List Op) → length (before ++ op' ∷ rest) ≡ length (before ++ op ∷ rest)
    replace-length [] rest = refl
    replace-length (b ∷ bs) rest = ap suc (replace-length bs rest)

    pub replace-IsDeque :
        (f : ℕ) (before rest : List Op)
        → m.seq op' ≡ m.seq op
        → IsDeque m g f (before ++ op ∷ rest)
        → IsDeque m g f (before ++ op' ∷ rest)
    replace-IsDeque f before rest e d = record {
      consecutive = middle-IsConsecutive m before rest op op' f d.consecutive e;
      ordered = replace-IsOrdered (m.number m.finished) before rest d.ordered;
      live = replace-AllLive before rest d.live;
    }

  module _ (op : Op) (fresh : g.need (rank m op) ≡ 0) (live : is_finished m op ≡ false) where
    append-IsConsecutive :
        (f : ℕ) (ops : List Op)
        → IsConsecutive m f ops
        → m.seq op ≡ f + length ops
        → IsConsecutive m f (ops ++ op ∷ [])
    append-IsConsecutive f [] c e = (omega arith, tt)
    append-IsConsecutive f (x ∷ xs) c e = (c.0, append-IsConsecutive (suc f) xs c.1 (omega arith))

    append-IsOrdered :
        (p : ℕ) (ops : List Op) → IsOrdered m g p ops → IsOrdered m g p (ops ++ op ∷ [])
    append-IsOrdered p [] o = (omega arith, tt)
    append-IsOrdered p (x ∷ xs) o = (o.0, append-IsOrdered (rank m x) xs o.1)

    append-AllLive : (ops : List Op) → AllLive m ops → AllLive m (ops ++ op ∷ [])
    append-AllLive [] a = (live, tt)
    append-AllLive (x ∷ xs) a = (a.0, append-AllLive xs a.1)

    pub append-IsDeque :
        (f : ℕ) (ops : List Op)
        → m.seq op ≡ f + length ops
        → IsDeque m g f ops
        → IsDeque m g f (ops ++ op ∷ [])
    append-IsDeque f ops e d = record {
      consecutive = append-IsConsecutive f ops d.consecutive e;
      ordered = append-IsOrdered (m.number m.finished) ops d.ordered;
      live = append-AllLive ops d.live;
    }

    pub append-count_from :
        (t : ℕ) (ops : List Op) → 0 < t → count_from m t (ops ++ op ∷ []) ≡ count_from m t ops
    append-count_from t [] h = ground (arith, g.at_least (rank m op))
    append-count_from t (x ∷ xs) h = ground (arith, append-count_from t xs)

  pub advance_operation-none :
      (ops : List Op) (n : ℕ) (s : S)
      → find_operation m ops n ≡ none
      → advance_operation m ops n s ≡ (ops, s)
  unfolding advance_operation
  advance_operation-none ops n s e = advance_from-stop m ops n (length ops) s e
