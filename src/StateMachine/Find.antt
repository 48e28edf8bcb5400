-- ===== src/StateMachine/Find.antt =====
-- Finding operations of `OpsStateMachine` by sequence number, in terms of positions in the deque.
use tensorpipe.Prelude.{
  ℕ, zero, suc, ◌+◌, ◌-◌, ◌≤◌, ◌<◌, ◌≡◌, refl, ap, ◌∙◌, none, some, List, [], ◌∷◌, ◌++◌, arith,
  get_elem?, set, length,
}
use tensorpipe.StateMachine.{Machine, find_operation, prev_state, store}

module _ {ℓ κ μ} {S : Type ℓ} {Op : Type κ} {State : Type μ} (m : Machine S Op State) where
  -- The sequence numbers count up from `n`.
  abbrev pub IsConsecutive : ℕ → List Op → Type 0
  IsConsecutive n [] = Unit {0}
  IsConsecutive n (op ∷ rest) = (m.seq op ≡ n) × IsConsecutive (suc n) rest

  -- The state of the last operation of a list, or another state where the list is empty.
  abbrev pub last_state : State → List Op → State
  last_state p [] = p
  last_state p (op ∷ rest) = last_state (m.state op) rest

module _ {κ} {Op : Type κ} where
  get-middle :
      (before after : List Op) (op : Op)
      → get_elem? (before ++ op ∷ after) (length before) ≡ some op
  get-middle [] after op = refl
  get-middle (b ∷ bs) after op = get-middle bs after op

  set-middle :
      (before after : List Op) (op op' : Op)
      → set (before ++ op ∷ after) (length before) op' ≡ before ++ op' ∷ after
  set-middle [] after op op' = refl
  set-middle (b ∷ bs) after op op' = ap (◌∷◌ b) (set-middle bs after op op')

  get-past : (ops : List Op) (i : ℕ) → length ops ≤ i → get_elem? ops i ≡ none
  get-past [] i h = refl
  get-past (op ∷ ops) zero h = absurd (omega arith)
  get-past (op ∷ ops) (suc i) h = get-past ops i (omega arith)

module _ {ℓ κ μ} {S : Type ℓ} {Op : Type κ} {State : Type μ} (m : Machine S Op State) where
  get-last :
      (b : Op) (bs rest : List Op) (q : State)
      → (p : Op) × (get_elem? (b ∷ bs ++ rest) (length bs) ≡ some p)
        × (last_state m q (b ∷ bs) ≡ m.state p)
  get-last b [] rest q = (b, refl, refl)
  get-last b (c ∷ cs) rest q = get-last c cs rest (m.state b)

  pub find-middle :
      (before after : List Op) (op : Op) (f n : ℕ)
      → IsConsecutive m f (before ++ op ∷ after)
      → n ≡ f + length before
      → find_operation m (before ++ op ∷ after) n ≡ some op
  unfolding find_operation
  find-middle [] after op f n c e = ground arith
  find-middle (b ∷ bs) after op f n c e =
      let i : n - m.seq b ≡ suc (length bs) = omega arith in
      rw i (ground (arith, get-middle (b ∷ bs) after op))

  pub find-past :
      (ops : List Op) (f n : ℕ)
      → IsConsecutive m f ops
      → f + length ops ≤ n
      → find_operation m ops n ≡ none
  unfolding find_operation
  find-past [] f n c e = refl
  find-past (b ∷ bs) f n c e = ground (arith, get-past (b ∷ bs) (n - m.seq b))

  -- What was popped from the front is not found again.
  pub find-popped :
      (ops : List Op) (f n : ℕ) → IsConsecutive m f ops → n < f → find_operation m ops n ≡ none
  unfolding find_operation
  find-popped [] f n c e = refl
  find-popped (b ∷ bs) f n c e = ground arith

  pub prev_state-middle :
      (before after : List Op) (f n : ℕ)
      → IsConsecutive m f (before ++ after)
      → n ≡ f + length before
      → prev_state m (before ++ after) n ≡ last_state m m.finished before
  unfolding prev_state find_operation
  prev_state-middle [] after f zero c e = refl
  prev_state-middle [] after f (suc n) c e = rw (find-popped after f n c (omega arith), prev_state)
  prev_state-middle (b ∷ bs) after f zero c e = absurd (omega arith)
  prev_state-middle (b ∷ bs) after f (suc n) c e =
      ground (arith, get-last b bs after m.finished, found)
    where
      found : find_operation m (b ∷ bs ++ after) n ≡ get_elem? (b ∷ bs ++ after) (length bs)
      found = ground arith

  pub store-middle :
      (before after : List Op) (op op' : Op) (f : ℕ)
      → IsConsecutive m f (before ++ op ∷ after)
      → m.seq op' ≡ f + length before
      → store m (before ++ op ∷ after) op' ≡ before ++ op' ∷ after
  unfolding store
  store-middle [] after op op' f c e = let i : m.seq op' - m.seq op ≡ 0 = omega arith in rw i refl
  store-middle (b ∷ bs) after op op' f c e =
      let i : m.seq op' - m.seq b ≡ suc (length bs) = omega arith in
      rw i (set-middle (b ∷ bs) after op op')

  pub seq-middle :
      (before after : List Op) (op : Op) (f : ℕ)
      → IsConsecutive m f (before ++ op ∷ after)
      → m.seq op ≡ f + length before
  seq-middle [] after op f c = omega arith
  seq-middle (b ∷ bs) after op f c = omega (arith, seq-middle bs after op (suc f) c.1)

  -- Replacing an operation by one of the same number keeps the numbers consecutive.
  pub middle-IsConsecutive :
      (before after : List Op) (op op' : Op) (f : ℕ)
      → IsConsecutive m f (before ++ op ∷ after)
      → m.seq op' ≡ m.seq op
      → IsConsecutive m f (before ++ op' ∷ after)
  middle-IsConsecutive [] after op op' f c e = (e ∙ c.0, c.1)
  middle-IsConsecutive (b ∷ bs) after op op' f c e =
      (c.0, middle-IsConsecutive bs after op op' (suc f) c.1 e)

  pub last_state-snoc :
      (p : State) (bs : List Op) (op : Op) → last_state m p (bs ++ op ∷ []) ≡ m.state op
  last_state-snoc p [] op = refl
  last_state-snoc p (b ∷ bs) op = last_state-snoc (m.state b) bs op

  get-split :
      (ops : List Op) (i : ℕ) (op : Op)
      → get_elem? ops i ≡ some op
      → (before rest : List Op) × (ops ≡ before ++ op ∷ rest) × (i ≡ length before)
  get-split [] i op e = absurd (cc)
  get-split (x ∷ xs) zero op e = ([], xs, cc, refl)
  get-split (x ∷ xs) (suc i) op e =
      let (before, rest, e', n) = get-split xs i op e in (x ∷ before, rest, ap (◌∷◌ x) e', ap suc n)

  -- What is found stands where its number says.
  pub find-split :
      (ops : List Op) (f n : ℕ) (op : Op)
      → IsConsecutive m f ops
      → find_operation m ops n ≡ some op
      → (before rest : List Op) × (ops ≡ before ++ op ∷ rest) × (n ≡ f + length before)
  unfolding find_operation
  find-split [] f n op c e = absurd (cc)
  find-split (x ∷ xs) f n op c e =
      let found : (f ≤ n) × (get_elem? (x ∷ xs) (n - m.seq x) ≡ some op) =
        (ground arith, ground arith) in
      let (before, rest, e', k) = get-split (x ∷ xs) (n - m.seq x) op (found.1) in
      (before, rest, e', omega arith)
