-- ===== src/Mpt/Chunks.antt =====
-- The chunks of a buffer, chained in the order of the lanes, are the buffer.
use native.Mathlib.Nat.{
  mul-div_cancel, mul-le-mul_left, mod-eq_of_lt, zero-div, div-mul-le_self, le-div_iff_mul-le,
}
use mathlib.Core.List.{append_assoc, append-nil}
use tensorpipe.Prelude.{
  ℕ, zero, suc, ◌+◌, ◌-◌, ◌*◌, ◌/◌, ◌≤◌, ◌<◌, ◌≡◌, refl, ap, ◌∙◌, sym, List, [], ◌∷◌, ◌++◌, arith,
  length, ◌==◌, if◌then◌else◌, tabulate, tabulate-ext, tabulate-add,
}
use tensorpipe.Prelude.Word.{u64_mod}
use tensorpipe.Mpt.{
  SendOperation, Core, Call, write_chunk, cutpoint, write_chunks_from, write_chunks, call,
}

-- The addresses of the bytes that the lanes were asked to write for an operation, in order.
unfoldable pub written_addresses : ℕ → List Call → List ℕ
written_addresses n [] = []
written_addresses n (write_chunk m lane ptr len ∷ cs) =
    let before = written_addresses n cs in
    if m == n then before ++ tabulate len (λ i. ptr + i) else before
written_addresses n (c ∷ cs) = written_addresses n cs

-- The lanes that were asked to write for an operation, in order.
unfoldable pub written_lanes : ℕ → List Call → List ℕ
written_lanes n [] = []
written_lanes n (write_chunk m lane ptr len ∷ cs) =
    let before = written_lanes n cs in if m == n then before ++ lane ∷ [] else before
written_lanes n (c ∷ cs) = written_lanes n cs

written_lanes-chunk :
    (n i p l : ℕ) (cs : List Call)
    → written_lanes n (write_chunk n i p l ∷ cs) ≡ written_lanes n cs ++ i ∷ []
unfolding written_lanes
written_lanes-chunk n i p l cs = ground arith

write_chunks_from-lanes :
    (n i : ℕ) (op : SendOperation) (s : Core)
    → written_lanes op.sequence_number (write_chunks_from n i (op, s)).1.calls
      ≡ written_lanes op.sequence_number s.calls ++ tabulate n (λ j. i + j)
unfolding write_chunks_from
write_chunks_from-lanes zero i op s = sym (append-nil (written_lanes op.sequence_number s.calls))
write_chunks_from-lanes (suc n) i op s =
    let before : List ℕ = written_lanes op.sequence_number s.calls in
    let start : ℕ = cutpoint op.length (length s.lanes) i in
    let end : ℕ = cutpoint op.length (length s.lanes) (i + 1) in
    write_chunks_from-lanes n (i + 1) _ _
    ∙ ap (λ (xs : List ℕ). xs ++ tabulate n (λ j. i + 1 + j))
        (written_lanes-chunk op.sequence_number i (op.ptr + start) (end - start) s.calls)
    ∙ append_assoc before (i ∷ []) (tabulate n (λ j. i + 1 + j))
    ∙ ap (λ (xs : List ℕ). before ++ i ∷ xs)
        (tabulate-ext n (λ j. i + 1 + j) (λ j. i + suc j) (λ j l. omega arith))
    ∙ ap (λ (k : ℕ). before ++ k ∷ tabulate n (λ j. i + suc j)) {x = i} {y = i + 0} (omega arith)

written_addresses-chunk :
    (n i p l : ℕ) (cs : List Call)
    → written_addresses n (write_chunk n i p l ∷ cs)
      ≡ written_addresses n cs ++ tabulate l (λ j. p + j)
unfolding written_addresses
written_addresses-chunk n i p l cs = ground arith

write_chunks_from-count :
    (n i : ℕ) (op : SendOperation) (s : Core)
    → (write_chunks_from n i (op, s)).0.num_chunks_being_written ≡ op.num_chunks_being_written + n
unfolding write_chunks_from
write_chunks_from-count zero i op s = omega arith
write_chunks_from-count (suc n) i op s = omega (arith, write_chunks_from-count n (i + 1) _ _)

module _ (len lanes : ℕ) (pos : 0 < lanes) (fits : len * lanes < u64_mod) where
  cutpoint_exact : (i : ℕ) → i ≤ lanes → cutpoint len lanes i ≡ len * i / lanes
  unfolding cutpoint
  cutpoint_exact i h =
      ap (λ (t : ℕ). t / lanes)
        (let g = mul-le-mul_left len h in mod-eq_of_lt {n = len * i} {m = u64_mod} (omega arith))

  pub cutpoint_last : cutpoint len lanes lanes ≡ len
  cutpoint_last = cutpoint_exact lanes (omega arith) ∙ mul-div_cancel len pos

  pub cutpoint_first : cutpoint len lanes 0 ≡ 0
  cutpoint_first =
      cutpoint_exact 0 (omega arith)
      ∙ ap (λ (t : ℕ). t / lanes) {x = len * 0} {y = 0} (omega arith)
      ∙ zero-div lanes

  div_mono : (m n : ℕ) → m ≤ n → m / lanes ≤ n / lanes
  div_mono m n h =
      (le-div_iff_mul-le {k = lanes} {x = m / lanes} {y = n} pos).1
        (omega (arith, div-mul-le_self m lanes))

  pub cutpoint_mono : (i j : ℕ) → i ≤ j → j ≤ lanes → cutpoint len lanes i ≤ cutpoint len lanes j
  cutpoint_mono i j h l =
      let a = cutpoint_exact i (omega arith) in
      let b = cutpoint_exact j l in
      let c = div_mono (len * i) (len * j) (mul-le-mul_left len h) in omega arith

  -- The bytes from a lane's cutpoint to the end of the buffer.
  abbrev bytes_from : ℕ → ℕ → List ℕ
  bytes_from ptr i = tabulate (len - cutpoint len lanes i) (λ j. ptr + cutpoint len lanes i + j)

  bytes_from-split :
      (ptr i : ℕ)
      → i < lanes
      → tabulate
            (cutpoint len lanes (i + 1) - cutpoint len lanes i)
            (λ j. ptr + cutpoint len lanes i + j)
          ++ bytes_from ptr (i + 1)
        ≡ bytes_from ptr i
  bytes_from-split ptr i h =
      let a : ℕ = cutpoint len lanes i in
      let b : ℕ = cutpoint len lanes (i + 1) in
      let up : a ≤ b = cutpoint_mono i (i + 1) (omega arith) (omega arith) in
      let top : b ≤ len =
        omega (arith, cutpoint_mono (i + 1) lanes (omega arith) (omega arith), cutpoint_last) in
      ap (λ (xs : List ℕ). tabulate (b - a) (λ j. ptr + a + j) ++ xs)
        (tabulate-ext (len - b) (λ j. ptr + b + j) (λ j. ptr + a + (b - a + j))
          (λ j l. omega arith))
      ∙ sym (tabulate-add (b - a) (len - b) (λ j. ptr + a + j))
      ∙ ap (λ (t : ℕ). tabulate t (λ j. ptr + a + j)) {x = b - a + (len - b)} {y = len - a}
          (omega arith)

  same_cutpoint :
      (op : SendOperation) (s : Core) (i : ℕ)
      → op.length ≡ len
      → length s.lanes ≡ lanes
      → cutpoint op.length (length s.lanes) i ≡ cutpoint len lanes i
  same_cutpoint op s i e f =
      ap (λ (t : ℕ). cutpoint t (length s.lanes) i) e ∙ ap (λ (t : ℕ). cutpoint len t i) f

  write_chunks_from-addresses :
      (n i : ℕ) (op : SendOperation) (s : Core)
      → op.length ≡ len
      → length s.lanes ≡ lanes
      → i + n ≡ lanes
      → written_addresses op.sequence_number (write_chunks_from n i (op, s)).1.calls
        ≡ written_addresses op.sequence_number s.calls ++ bytes_from op.ptr i
  unfolding write_chunks_from written_addresses
  write_chunks_from-addresses zero i op s e f g =
      let here : cutpoint len lanes i ≡ len =
        ap (cutpoint len lanes) {x = i} {y = lanes} (omega arith) ∙ cutpoint_last in
      sym (append-nil (written_addresses op.sequence_number s.calls))
      ∙ ap
          (λ (t : ℕ).
            written_addresses op.sequence_number s.calls
            ++ tabulate t (λ j. op.ptr + cutpoint len lanes i + j))
          {x = 0} {y = len - cutpoint len lanes i} (omega arith)
  write_chunks_from-addresses (suc n) i op s e f g =
      let calls : List ℕ = written_addresses op.sequence_number s.calls in
      let start : ℕ = cutpoint op.length (length s.lanes) i in
      let end : ℕ = cutpoint op.length (length s.lanes) (i + 1) in
      let op' : SendOperation = record op {
        num_chunks_being_written = op.num_chunks_being_written + 1;
      } in
      let s' : Core = call (write_chunk op.sequence_number i (op.ptr + start) (end - start)) s in
      write_chunks_from-addresses n (i + 1) op' s' e f (omega arith)
      ∙ ap (λ (xs : List ℕ). xs ++ bytes_from op.ptr (i + 1))
          (written_addresses-chunk op.sequence_number i (op.ptr + start) (end - start) s.calls
            ∙ ap (λ (t : ℕ). calls ++ tabulate (end - t) (λ j. op.ptr + t + j))
                (same_cutpoint op s i e f)
            ∙ ap
                (λ (t : ℕ).
                  calls
                  ++ tabulate (t - cutpoint len lanes i) (λ j. op.ptr + cutpoint len lanes i + j))
                (same_cutpoint op s (i + 1) e f))
      ∙ append_assoc calls _ (bytes_from op.ptr (i + 1))
      ∙ ap (λ (xs : List ℕ). calls ++ xs) (bytes_from-split op.ptr i (omega arith))

-- `writeChunks` on a channel with lanes, where the length times the number of lanes is below 2 ^ 64:
-- each lane is asked to write once, in the order of the lanes, and what they are asked to write is,
-- in that order, exactly the bytes of the buffer, each once and in order; both after what was asked
-- for the operation before; and one more write is counted for each lane.
pub write_chunks-addresses :
    (op : SendOperation) (s : Core)
    → 0 < length s.lanes
    → op.length * length s.lanes < u64_mod
    → (written_addresses op.sequence_number (write_chunks (op, s)).1.calls
        ≡ written_addresses op.sequence_number s.calls ++ tabulate op.length (λ i. op.ptr + i))
      × (written_lanes op.sequence_number (write_chunks (op, s)).1.calls
          ≡ written_lanes op.sequence_number s.calls ++ tabulate (length s.lanes) (λ i. i))
      × ((write_chunks (op, s)).0.num_chunks_being_written
          ≡ op.num_chunks_being_written + length s.lanes)
unfolding write_chunks
write_chunks-addresses op s pos fits = (
  write_chunks_from-addresses op.length (length s.lanes) pos fits (length s.lanes) 0 op s refl refl
        (omega arith)
      ∙ ap
          (λ (t : ℕ).
            written_addresses op.sequence_number s.calls
            ++ tabulate (op.length - t) (λ j. op.ptr + t + j))
          (cutpoint_first op.length (length s.lanes) pos fits)
      ∙ ap (λ (xs : List ℕ). written_addresses op.sequence_number s.calls ++ xs)
          (ap (λ (t : ℕ). tabulate t (λ j. op.ptr + 0 + j)) {x = op.length - 0} {y = op.length}
              (omega arith)
            ∙ tabulate-ext op.length (λ j. op.ptr + 0 + j) (λ j. op.ptr + j) (λ j l. omega arith)),
  write_chunks_from-lanes (length s.lanes) 0 op s
      ∙ ap (λ (xs : List ℕ). written_lanes op.sequence_number s.calls ++ xs)
          (tabulate-ext (length s.lanes) (λ i. 0 + i) (λ i. i) (λ i l. omega arith)),
  write_chunks_from-count (length s.lanes) 0 op s,
)
