-- ===== src/RingBuffer/Refines.antt =====
-- What a read takes and a write appends, and any sequence of them against a bounded queue.
use native.Mathlib.Nat.{mod-lt, mod-add-mod, add-mod_right}
use mathlib.Core.List.{append-nil}
use tensorpipe.Prelude.{
  ℕ, zero, suc, ◌+◌, ◌-◌, ◌%◌, ◌^◌, ◌≤◌, ◌<◌, ◌≡◌, ◌⊎◌, refl, ap, ◌∙◌, sym, inl, inr, List, [], ◌∷◌,
  ◌++◌, arith, ltb, if◌then◌else◌, get_or, take, drop, length, tabulate, tabulate-ext, tabulate-add,
  tabulate-get_or, take-tabulate, drop-tabulate,
}
use tensorpipe.Prelude.Word.{u64_mod, add64, sub64}
use tensorpipe.RingBuffer.{new_role, returned, read, write, read_areas, cut_areas}
use tensorpipe.RingBuffer.Areas.{size_bound, word_offset}
use tensorpipe.RingBuffer.Copies.{read_areas-cut_areas, write_areas-cut_areas, length-write_areas}
use tensorpipe.RingBuffer.Fifo.{
  queue_header, queue_ring, IsQueue, queue-IsHeader, contents, length-contents, written, write-fits,
  read-fits, read-nothing, producing, consuming,
}

-- An offset from a marker that has wrapped around.
wrapped_offset :
    (bits : ℕ) → bits < 31 → (n i : ℕ) → (n % u64_mod + i) % 2 ^ bits ≡ (n + i) % 2 ^ bits
wrapped_offset bits b n i =
    sym (mod-add-mod (n % u64_mod) (2 ^ bits) i)
    ∙ ap (λ (t : ℕ). (t + i) % 2 ^ bits) (word_offset bits b n)
    ∙ mod-add-mod n (2 ^ bits) i

module _ (bits c p : ℕ) (bytes : List ℕ) (q : IsQueue bits c p bytes) where
  ring_bound : (0 < 2 ^ bits) × (2 ^ bits ≤ 2 ^ 30)
  ring_bound = size_bound (queue_header bits c p []) (queue-IsHeader bits c p bytes q [])

  byte_at : ℕ → ℕ
  byte_at i = get_or bytes ((c + i) % 2 ^ bits) 0

  contents-drop :
      (size : ℕ)
      → size ≤ length (contents bits c p bytes)
      → contents bits (add64 c size) p bytes ≡ drop size (contents bits c p bytes)
  unfolding contents byte_at
  contents-drop size h =
      let l = length-contents bits c p bytes q in
      let lap = q.lap in
      let cb = q.consumed_bound in
      let pb = q.produced_bound in
      let rest : ℕ = sub64 p c - size in
      let left : sub64 p (add64 c size) ≡ rest = omega (arith, ring_bound) in
      ap (λ (t : ℕ). tabulate t (λ i. get_or bytes ((add64 c size + i) % 2 ^ bits) 0)) left
      ∙ tabulate-ext rest (λ i. get_or bytes ((add64 c size + i) % 2 ^ bits) 0)
          (λ i. byte_at (size + i))
          (λ i b.
            ap (λ (t : ℕ). get_or bytes t 0)
              (wrapped_offset bits q.bits_bound (c + size) i
                ∙ ap (λ (t : ℕ). t % 2 ^ bits) {x = c + size + i} {y = c + (size + i)}
                    (omega arith)))
      ∙ sym (drop-tabulate size rest byte_at)
      ∙ ap (λ (t : ℕ). drop size (tabulate t byte_at)) {x = size + rest} {y = sub64 p c}
          (omega arith)

  read-contents :
      (n : ℕ)
      → suc n ≤ length (contents bits c p bytes)
      → read_areas (cut_areas (consuming bits c p bytes q) (c % 2 ^ bits) (suc n)) bytes
        ≡ take (suc n) (contents bits c p bytes)
  unfolding contents byte_at
  read-contents n h =
      let l = length-contents bits c p bytes q in
      let lap = q.lap in
      let rest : ℕ = sub64 p c - suc n in
      read_areas-cut_areas (consuming bits c p bytes q) (queue-IsHeader bits c p bytes q _)
        (c % 2 ^ bits) (suc n) (mod-lt c (ring_bound.0)) (omega arith) bytes q.full_length
        (omega arith)
      ∙ tabulate-ext (suc n) (λ i. get_or bytes ((c % 2 ^ bits + i) % 2 ^ bits) 0) byte_at
          (λ i b. ap (λ (t : ℕ). get_or bytes t 0) (mod-add-mod c (2 ^ bits) i))
      ∙ sym (take-tabulate (suc n) rest byte_at)
      ∙ ap (λ (t : ℕ). take (suc n) (tabulate t byte_at)) {x = suc n + rest} {y = sub64 p c}
          (omega arith)

  -- Where the producer's marker stands.
  produced_at : p ≡ (c + sub64 p c) % u64_mod
  produced_at = let cb = q.consumed_bound in let pb = q.produced_bound in omega arith

  offset_after :
      (i d : ℕ)
      → sub64 p c + d ≡ i ⊎ sub64 p c + d ≡ i + 2 ^ bits
      → (p % 2 ^ bits + d) % 2 ^ bits ≡ (c + i) % 2 ^ bits
  offset_after i d h =
      let n = sub64 p c in
      mod-add-mod p (2 ^ bits) d
      ∙ ap (λ (t : ℕ). (t + d) % 2 ^ bits) produced_at
      ∙ wrapped_offset bits q.bits_bound (c + n) d
      ∙ elim h [
        | inl e ↦ ap (λ (t : ℕ). t % 2 ^ bits) {x = c + n + d} {y = c + i} (omega arith)
        | inr e ↦
            ap (λ (t : ℕ). t % 2 ^ bits) {x = c + n + d} {y = c + i + 2 ^ bits} (omega arith)
            ∙ add-mod_right (c + i) (2 ^ bits)
      ]

  abbrev after_write : List ℕ → ℕ → ℕ
  after_write buffer i = get_or (written bits c p bytes q buffer) ((c + i) % 2 ^ bits) 0

  module _ (b : ℕ) (bs : List ℕ)
      (room : length (contents bits c p bytes) + length (b ∷ bs) ≤ 2 ^ bits) where
    written_at :
        (d : ℕ)
        → d < 2 ^ bits
        → get_or (written bits c p bytes q (b ∷ bs)) ((p % 2 ^ bits + d) % 2 ^ bits) 0 ≡ (
            if ltb d (length (b ∷ bs))
            then get_or (b ∷ bs) d 0
            else get_or bytes ((p % 2 ^ bits + d) % 2 ^ bits) 0)
    unfolding written
    written_at d h =
        write_areas-cut_areas (producing bits c p bytes q) (queue-IsHeader bits c p bytes q _)
          (p % 2 ^ bits) (length (b ∷ bs)) (mod-lt p (ring_bound.0)) (omega arith) bytes
          q.full_length (b ∷ bs) d (omega arith) refl h

    kept : (i : ℕ) → i < sub64 p c → after_write (b ∷ bs) i ≡ byte_at i
    unfolding byte_at
    kept i h =
        let l = length-contents bits c p bytes q in
        let d : ℕ = i + 2 ^ bits - sub64 p c in
        let o = offset_after i d (inr (omega arith)) in
        ap (λ (t : ℕ). get_or (written bits c p bytes q (b ∷ bs)) t 0) (sym o)
        ∙ written_at d (omega arith)
        ∙ ground arith
        ∙ ap (λ (t : ℕ). get_or bytes t 0) o

    added :
        (j : ℕ) → j < length (b ∷ bs) → after_write (b ∷ bs) (sub64 p c + j) ≡ get_or (b ∷ bs) j 0
    added j h =
        ap (λ (t : ℕ). get_or (written bits c p bytes q (b ∷ bs)) t 0)
          (sym (offset_after (sub64 p c + j) j (inl refl)))
        ∙ written_at j (omega arith)
        ∙ ground arith

    contents-append_some :
        contents bits c (add64 p (length (b ∷ bs))) (written bits c p bytes q (b ∷ bs))
        ≡ contents bits c p bytes ++ b ∷ bs
    unfolding contents byte_at
    contents-append_some =
        let l = length-contents bits c p bytes q in
        let cb = q.consumed_bound in
        let pb = q.produced_bound in
        let n : ℕ = sub64 p c in
        let size : ℕ = length (b ∷ bs) in
        let more : sub64 (add64 p size) c ≡ n + size = omega (arith, ring_bound) in
        ap (λ (t : ℕ). tabulate t (after_write (b ∷ bs))) more
        ∙ tabulate-add n size (after_write (b ∷ bs))
        ∙ ap (λ (xs : List ℕ). xs ++ tabulate size (λ i. after_write (b ∷ bs) (n + i)))
            (tabulate-ext n (after_write (b ∷ bs)) byte_at kept)
        ∙ ap (λ (xs : List ℕ). tabulate n byte_at ++ xs)
            (tabulate-ext size (λ i. after_write (b ∷ bs) (n + i)) (λ i. get_or (b ∷ bs) i 0) added
              ∙ tabulate-get_or (b ∷ bs) 0)

  contents-append :
      (buffer : List ℕ)
      → length (contents bits c p bytes) + length buffer ≤ 2 ^ bits
      → contents bits c (add64 p (length buffer)) (written bits c p bytes q buffer)
        ≡ contents bits c p bytes ++ buffer
  unfolding contents written byte_at
  contents-append [] h =
      let pb = q.produced_bound in
      ap (λ (t : ℕ). tabulate (sub64 t c) byte_at) {x = add64 p 0} {y = p} (omega arith)
      ∙ sym (append-nil (tabulate (sub64 p c) byte_at))
  contents-append (b ∷ bs) h = contents-append_some b bs h

  length-written : (buffer : List ℕ) → length (written bits c p bytes q buffer) ≡ length bytes
  unfolding written
  length-written [] = refl
  length-written (b ∷ bs) =
      length-write_areas (cut_areas (producing bits c p bytes q) (p % 2 ^ bits) (length (b ∷ bs)))
        (b ∷ bs) bytes

  written-IsQueue :
      (buffer : List ℕ)
      → length (contents bits c p bytes) + length buffer ≤ 2 ^ bits
      → IsQueue bits c (add64 p (length buffer)) (written bits c p bytes q buffer)
  written-IsQueue buffer h =
      let l = length-contents bits c p bytes q in
      let cb = q.consumed_bound in
      let pb = q.produced_bound in
      record {
        bits_bound = q.bits_bound;
        consumed_bound = q.consumed_bound;
        produced_bound = omega arith;
        lap = omega (arith, ring_bound);
        full_length = length-written buffer ∙ q.full_length;
      }

  read-IsQueue :
      (size : ℕ) → size ≤ length (contents bits c p bytes) → IsQueue bits (add64 c size) p bytes
  read-IsQueue size h =
      let l = length-contents bits c p bytes q in
      let cb = q.consumed_bound in
      let pb = q.produced_bound in
      let lap = q.lap in
      record {
        bits_bound = q.bits_bound;
        consumed_bound = omega arith;
        produced_bound = q.produced_bound;
        lap = omega (arith, ring_bound);
        full_length = q.full_length;
      }

  -- On a ring of 2 ^ bits bytes whose markers are at most a lap apart: `write` of a buffer that fits in the room that is left succeeds, keeps the ring as it should be,
  -- and appends the buffer to the bytes that are waiting.
  pub write-append :
      (buffer : List ℕ)
      → length (contents bits c p bytes) + length buffer ≤ 2 ^ bits
      → (bytes' : List ℕ) × (write buffer (length buffer) (queue_ring bits c p bytes, new_role 1)
          ≡ (
            returned (length buffer),
            queue_ring bits c (add64 p (length buffer)) bytes',
            new_role 1,
          ))
        × IsQueue bits c (add64 p (length buffer)) bytes'
        × (contents bits c (add64 p (length buffer)) bytes' ≡ contents bits c p bytes ++ buffer)
  write-append buffer h = (
    written bits c p bytes q buffer,
    write-fits bits c p bytes q buffer h,
    written-IsQueue buffer h,
    contents-append buffer h,
  )

  -- On a ring of 2 ^ bits bytes whose markers are at most a lap apart: `read` of no more bytes than are waiting succeeds, keeps the ring as it should be, gives the
  -- oldest bytes in order, and leaves the others.
  pub read-take :
      (size : ℕ)
      → size ≤ length (contents bits c p bytes)
      → (read size (queue_ring bits c p bytes, new_role 0) ≡ (
        (returned size, take size (contents bits c p bytes)),
        queue_ring bits (add64 c size) p bytes,
        new_role 0,
      ))
        × IsQueue bits (add64 c size) p bytes
        × (contents bits (add64 c size) p bytes ≡ drop size (contents bits c p bytes))
  read-take zero h = (read-nothing bits c p bytes q, read-IsQueue 0 h, contents-drop 0 h)
  read-take (suc n) h = (
    read-fits bits c p bytes q n h
        ∙ ap
            (λ (ys : List ℕ).
              ((returned (suc n), ys), queue_ring bits (add64 c (suc n)) p bytes, new_role 0))
            (read-contents n h),
    read-IsQueue (suc n) h,
    contents-drop (suc n) h,
  )
