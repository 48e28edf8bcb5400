-- ===== src/StateMachine/Sweep.antt =====
-- The loop of `OpsStateMachine::advanceOperation` against a walk over the deque that pops only at
-- its end.
use mathlib.Core.List.{append_assoc}
use tensorpipe.Prelude.{
  ℕ, zero, suc, ◌+◌, ◌≤◌, ◌≡◌, refl, ap, sym, ◌∙◌, inl, inr, true, false, not, none, List, [], ◌∷◌,
  ◌++◌, arith, length, length-append, ◌==◌, if◌then◌else◌, Bool-cases,
}
use tensorpipe.StateMachine.{
  Machine, rank, is_finished, find_operation, pop_finished, advance_one, advance_from,
  advance_operation,
}
use tensorpipe.StateMachine.Find.{
  IsConsecutive, last_state, find-middle, find-past, find-popped, prev_state-middle, store-middle,
  seq-middle, middle-IsConsecutive, last_state-snoc,
}

module _ {ℓ κ μ} {S : Type ℓ} {Op : Type κ} {State : Type μ} (m : Machine S Op State) where
  -- Each operation sees the state of the one before it, and the walk goes on while it advances.
  unfoldable pub sweep : State → List Op → S → List Op × S
  sweep p [] s = ([], s)
  sweep p (op ∷ rest) s = elim (is_finished m op) [
    | true ↦ (op ∷ rest, s)
    | false ↦
        let (op', s') = m.transit op p s in
        elim (rank m op' == rank m op) [
          | true ↦ (op' ∷ rest, s')
          | false ↦ let (rest', s'') = sweep (m.state op') rest s' in (op' ∷ rest', s'')
        ]
  ]

  -- Between two calls the front of the deque is not FINISHED.
  abbrev pub IsTrim : List Op → Type 0
  IsTrim [] = Unit {0}
  IsTrim (op ∷ rest) = is_finished m op ≡ false

  -- What is assumed of the transitioner and of the enumeration.
  pub record IsLawful : Type (ℓ ⊔ κ ⊔ μ) where
    pub keeps_seq : (op : Op) (p : State) (s : S) → m.seq (m.transit op p s).0 ≡ m.seq op
    pub one_finished : (st : State) → m.number st ≡ m.number m.finished → st ≡ m.finished

  pub pop_finished-IsTrim : (ops : List Op) → IsTrim ops → pop_finished m ops ≡ ops
  unfolding pop_finished
  pop_finished-IsTrim [] t = refl
  pop_finished-IsTrim (op ∷ rest) t = rw t

  pub pop_finished-gone :
      (op : Op) (rest : List Op)
      → is_finished m op ≡ true
      → pop_finished m (op ∷ rest) ≡ pop_finished m rest
  unfolding pop_finished
  pop_finished-gone op rest e = rw e

  pub advance_from-stop :
      (ops : List Op) (n fuel : ℕ) (s : S)
      → find_operation m ops n ≡ none
      → advance_from m fuel n ops s ≡ (ops, s)
  unfolding advance_from
  advance_from-stop ops n zero s e = refl
  advance_from-stop ops n (suc fuel) s e = ground (arith, e)

  pub pop_finished-IsConsecutive :
      (ops : List Op) (f : ℕ)
      → IsConsecutive m f ops
      → (g : ℕ) × (f ≤ g) × IsConsecutive m g (pop_finished m ops)
  unfolding pop_finished
  pop_finished-IsConsecutive [] f c = (f, omega arith, tt)
  pop_finished-IsConsecutive (op ∷ rest) f c = elim (Bool-cases (is_finished m op)) [
    | inl e ↦
        let (g, h, k) = pop_finished-IsConsecutive rest (suc f) c.1 in (g, omega arith, rw e k)
    | inr e ↦ (f, omega arith, rw e c)
  ]

module _ {ℓ κ μ} {S : Type ℓ} {Op : Type κ} {State : Type μ} (m : Machine S Op State)
    (law : IsLawful m) where
  pub advance_one-middle :
      (before after : List Op) (op : Op) (s : S) (f : ℕ)
      → IsConsecutive m f (before ++ op ∷ after)
      → advance_one m (before ++ op ∷ after) s op ≡ (
          let (op', s') = m.transit op (last_state m m.finished before) s in
          (
            if is_finished m op'
                then pop_finished m (before ++ op' ∷ after)
                else (before ++ op' ∷ after),
            s',
            not (rank m op' == rank m op),
          ))
  unfolding advance_one
  advance_one-middle before after op s f c =
      rw (prev_state-middle m before (op ∷ after) f (m.seq op) c (seq-middle m before after op f c))
        (rw
          (store-middle m before after op (m.transit op (last_state m m.finished before) s).0 f c
            (law.keeps_seq op _ s ∙ seq-middle m before after op f c))
          refl)

  -- An operation that is not FINISHED at the front keeps the loop from popping.
  advance_inner :
      (b : Op) (bs after : List Op) (f n fuel : ℕ) (s : S)
      → IsConsecutive m f (b ∷ bs ++ after)
      → is_finished m b ≡ false
      → n ≡ f + length (b ∷ bs)
      → length after ≤ fuel
      → advance_from m fuel n (b ∷ bs ++ after) s ≡ (
          let (after', s') = sweep m (last_state m (m.state b) bs) after s in
          (b ∷ bs ++ after', s'))
  unfolding advance_from sweep
  advance_inner b bs [] f n zero s c t e h = refl
  advance_inner b bs [] f n (suc fuel) s c t e h =
      ground (arith, find-past m (b ∷ bs ++ []) f n c, length-append bs [])
  advance_inner b bs (op ∷ rest) f n zero s c t e h = absurd (omega arith)
  advance_inner b bs (op ∷ rest) f n (suc fuel) s c t e h =
      let op' : Op = (m.transit op (last_state m (m.state b) bs) s).0 in
      let s' : S = (m.transit op (last_state m (m.state b) bs) s).1 in
      let later =
        advance_inner b (bs ++ op' ∷ []) rest f (n + 1) fuel s'
          (rw append_assoc (middle-IsConsecutive m (b ∷ bs) rest op op' f c (law.keeps_seq op _ s)))
          t (omega (arith, length-append bs (op' ∷ []))) (omega arith) in
      ground (
        arith,
        find-middle m (b ∷ bs) rest op f n c e,
        advance_one-middle (b ∷ bs) rest op s f c,
        pop_finished-IsTrim m (b ∷ bs ++ op' ∷ rest) t,
        later,
        last_state-snoc m (m.state b) bs op',
        append_assoc bs (op' ∷ []) rest,
        append_assoc bs (op' ∷ []) (sweep m (m.state op') rest s').0,
      )

  -- After a pop the loop goes on with what is left, or finds that the next number is gone.
  advance_popped :
      (rest : List Op) (f fuel : ℕ) (s : S)
      → IsConsecutive m (suc f) rest
      → (IsTrim m rest
          → advance_from m fuel (suc f) rest s
            ≡ (let (rest', s') = sweep m m.finished rest s in (pop_finished m rest', s')))
      → advance_from m fuel (suc f) (pop_finished m rest) s
        ≡ (let (rest', s') = sweep m m.finished rest s in (pop_finished m rest', s'))
  unfolding sweep pop_finished
  advance_popped [] f fuel s c ih = rw (pop_finished-IsTrim m [] tt) (ih tt)
  advance_popped (r ∷ rs) f fuel s c ih = elim (Bool-cases (is_finished m r)) [
    | inr live ↦ rw (pop_finished-IsTrim m (r ∷ rs) live) (ih live)
    | inl gone ↦
        let (g, h, k) = pop_finished-IsConsecutive m rs (suc (suc f)) c.1 in
        let stop = find-popped m (pop_finished m rs) g (suc f) k h in
        ground (
          arith,
          stop,
          advance_from-stop m (pop_finished m rs) (suc f) fuel s stop,
          pop_finished-gone m r rs gone,
        )
  ]

  advance_front :
      (after : List Op) (f fuel : ℕ) (s : S)
      → IsConsecutive m f after
      → IsTrim m after
      → length after ≤ fuel
      → advance_from m fuel f after s
        ≡ (let (after', s') = sweep m m.finished after s in (pop_finished m after', s'))
  unfolding advance_from sweep
  advance_front [] f zero s c t h = ground (arith, pop_finished-IsTrim m [] tt)
  advance_front [] f (suc fuel) s c t h =
      ground (arith, find-past m [] f f c, pop_finished-IsTrim m [] tt)
  advance_front (op ∷ rest) f zero s c t h = absurd (omega arith)
  advance_front (op ∷ rest) f (suc fuel) s c t h =
      let op' : Op = (m.transit op m.finished s).0 in
      let s' : S = (m.transit op m.finished s).1 in
      let c' : IsConsecutive m f (op' ∷ rest) =
        middle-IsConsecutive m [] rest op op' f c (law.keeps_seq op _ s) in
      let next : f + 1 ≡ suc f = omega arith in
      let found = find-middle m [] rest op f f c (omega arith) in
      elim (Bool-cases (is_finished m op')) [
        | inr live ↦ ground (
          arith,
          found,
          next,
          advance_one-middle [] rest op s f c,
          advance_inner op' [] rest f (suc f) fuel s' c' live (omega arith) (omega arith),
          pop_finished-IsTrim m (op' ∷ rest) live,
          pop_finished-IsTrim m (op' ∷ (sweep m (m.state op') rest s').0) live,
        )
        | inl gone ↦ ground (
          arith,
          found,
          next,
          advance_one-middle [] rest op s f c,
          pop_finished-gone m op' rest gone,
          pop_finished-gone m op' (sweep m m.finished rest s').0 gone,
          law.one_finished (m.state op'),
          advance_popped rest f fuel s' c.1
              (λ u. advance_front rest (suc f) fuel s' c.1 u (omega arith)),
        )
      ]

  -- With a transitioner that keeps the operations' numbers: `advanceOperation` on operation `n` of a deque that is numbered consecutively and whose front
  -- is not FINISHED: the operations before it stay, it and the later ones are walked through in
  -- order while they advance, each seeing the state of the one before it, and at the end the
  -- FINISHED operations are taken off the front. The rounds given are enough.
  pub advance_operation-sweep :
      (before after : List Op) (f : ℕ) (s : S)
      → IsConsecutive m f (before ++ after)
      → IsTrim m (before ++ after)
      → advance_operation m (before ++ after) (f + length before) s ≡ (
          let (after', s') = sweep m (last_state m m.finished before) after s in
          (pop_finished m (before ++ after'), s'))
  unfolding advance_operation
  advance_operation-sweep [] after f s c t =
      let e : f + 0 ≡ f = omega arith in
      rw e (advance_front after f (length after) s c t (omega arith))
  advance_operation-sweep (b ∷ bs) after f s c t =
      advance_inner b bs after f (f + length (b ∷ bs)) (length (b ∷ bs ++ after)) s c t refl
        (omega (arith, length-append bs after))
      ∙ ap (λ (l : List Op). (l, (sweep m (last_state m (m.state b) bs) after s).1))
          (sym
            (pop_finished-IsTrim m (b ∷ bs ++ (sweep m (last_state m (m.state b) bs) after s).0) t))

  -- On a deque that is numbered consecutively and whose front is not FINISHED, with a transitioner
  -- that keeps the operations' numbers: more rounds of the loop of `advanceOperation` than there are
  -- operations from the first one on change nothing, so the loop ends by its own test.
  pub advance_from_enough :
      (before after : List Op) (f fuel : ℕ) (s : S)
      → IsConsecutive m f (before ++ after)
      → IsTrim m (before ++ after)
      → length after ≤ fuel
      → advance_from m fuel (f + length before) (before ++ after) s
        ≡ advance_operation m (before ++ after) (f + length before) s
  unfolding advance_operation
  advance_from_enough [] after f fuel s c t h =
      let e : f + 0 ≡ f = omega arith in
      rw (
        e,
        advance_front after f fuel s c t h,
        advance_front after f (length after) s c t (omega arith),
      )
  advance_from_enough (b ∷ bs) after f fuel s c t h = rw (
    advance_inner b bs after f (f + length (b ∷ bs)) fuel s c t refl h,
    advance_inner b bs after f (f + length (b ∷ bs)) (length (b ∷ bs ++ after)) s c t refl
        (omega (arith, length-append bs after)),
  )
