-- ===== src/RingBuffer/Fifo.antt =====
-- A ring buffer with two roles, as the shared-memory transport has it, is a queue of bytes: the
-- second role appends, the first one takes. The markers wrap around at 2 ^ 64.
use tensorpipe.Prelude.{
  ℕ, suc, ◌+◌, ◌-◌, ◌%◌, ◌^◌, ◌≤◌, ◌<◌, ◌≡◌, refl, ap, ◌∙◌, min, Bool, true, false, List, [], ◌∷◌,
  arith, get_or, length, tabulate, length-tabulate,
}
use tensorpipe.Prelude.Word.{u64_mod, add64, sub64}
use tensorpipe.RingBuffer.{
  Header, RingBuffer, Role, new_role, returned, failed, enodata, start_tx, commit_tx, cancel_tx,
  begin_transaction, end_transaction, read_marker, inc_marker, head_of, cut_areas, write_areas,
  read_areas, read_in_tx, write_in_tx, read, write, read_started, write_started, finish_read,
  finish_write, read_granted, write_granted, access_contiguous_in_tx, areas,
}
use tensorpipe.RingBuffer.Areas.{
  IsHeader, size_bound, IsTx, left_over, next_offset, access_contiguous_in_tx-short,
  access_contiguous_in_tx-granted, access_contiguous_in_tx-nothing,
}

-- A ring of 2 ^ bits bytes with no transaction, by the markers of the two roles.
abbrev pub queue_header : ℕ → ℕ → ℕ → List Bool → Header
queue_header bits c p flags = record {
  data_pool_byte_size = 2 ^ bits;
  data_mod_mask = 2 ^ bits - 1;
  in_tx = flags;
  markers = c ∷ p ∷ [];
}

abbrev pub queue_ring : ℕ → ℕ → ℕ → List ℕ → RingBuffer
queue_ring bits c p bytes = record {
  header = queue_header bits c p (false ∷ false ∷ []);
  bytes = bytes;
}

pub record IsQueue (bits c p : ℕ) (bytes : List ℕ) : Type 0 where
  pub bits_bound : bits < 31
  pub consumed_bound : c < u64_mod
  pub produced_bound : p < u64_mod
  pub lap : sub64 p c ≤ 2 ^ bits
  pub full_length : length bytes ≡ 2 ^ bits

-- The bytes that are produced and not consumed, oldest first.
unfoldable pub contents : ℕ → ℕ → ℕ → List ℕ → List ℕ
contents bits c p bytes = tabulate (sub64 p c) (λ i. get_or bytes ((c + i) % 2 ^ bits) 0)

module _ (bits c p : ℕ) (bytes : List ℕ) (q : IsQueue bits c p bytes) (flags : List Bool) where
  pub queue-IsHeader : IsHeader (queue_header bits c p flags)
  queue-IsHeader = record { bits = bits; bits_bound = q.bits_bound; size = refl; mask = refl }

  producer_share :
      sub64 (head_of 1 (queue_header bits c p flags)) (read_marker 1 (queue_header bits c p flags))
      ≡ 2 ^ bits - sub64 p c
  unfolding head_of read_marker
  producer_share =
      let b = (size_bound (queue_header bits c p flags) queue-IsHeader) in
      let l = q.lap in let cb = q.consumed_bound in let pb = q.produced_bound in omega arith

  consumer_share :
      sub64 (head_of 0 (queue_header bits c p flags)) (read_marker 0 (queue_header bits c p flags))
      ≡ sub64 p c
  unfolding head_of read_marker
  consumer_share = let cb = q.consumed_bound in let pb = q.produced_bound in omega arith

-- A role that has started a transaction.
abbrev in_transaction : ℕ → Role
in_transaction idx = record { role_idx = idx; tx_size = 0; in_tx = true; tx_checked = true }

module _ (bits c p : ℕ) (bytes : List ℕ) (q : IsQueue bits c p bytes) where
  abbrev pub producing : Header
  producing = queue_header bits c p (false ∷ true ∷ [])

  abbrev pub consuming : Header
  consuming = queue_header bits c p (true ∷ false ∷ [])

  producer-IsTx : IsTx producing (in_transaction 1)
  producer-IsTx =
      let e = producer_share bits c p bytes q (false ∷ true ∷ []) in
      record { started = refl; share = omega (arith, e); checked = refl; taken = omega arith }

  consumer-IsTx : IsTx consuming (in_transaction 0)
  consumer-IsTx =
      let e = consumer_share bits c p bytes q (true ∷ false ∷ []) in
      let l = q.lap in
      record { started = refl; share = omega (arith, e); checked = refl; taken = omega arith }

  producer_left_over : left_over producing (in_transaction 1) ≡ 2 ^ bits - sub64 p c
  producer_left_over = omega (arith, producer_share bits c p bytes q (false ∷ true ∷ []))

  consumer_left_over : left_over consuming (in_transaction 0) ≡ sub64 p c
  consumer_left_over = omega (arith, consumer_share bits c p bytes q (true ∷ false ∷ []))

  pub length-contents : length (contents bits c p bytes) ≡ sub64 p c
  unfolding contents
  length-contents = length-tabulate (sub64 p c) _

  -- On a ring of 2 ^ bits bytes whose markers are at most a lap apart: `write` of a buffer that does
  -- not fit beside the bytes that are waiting fails with ENODATA, and leaves the ring and the role
  -- as they were.
  pub write-full :
      (buffer : List ℕ)
      → 2 ^ bits < length (contents bits c p bytes) + length buffer
      → write buffer (length buffer) (queue_ring bits c p bytes, new_role 1)
        ≡ (failed enodata, queue_ring bits c p bytes, new_role 1)
  unfolding write write_started finish_write start_tx write_in_tx cancel_tx begin_transaction
      end_transaction
  write-full buffer h =
      let short =
        access_contiguous_in_tx-short false (length buffer) producing (in_transaction 1)
          (queue-IsHeader bits c p bytes q (false ∷ true ∷ [])) producer-IsTx refl
          (omega (arith, producer_left_over, length-contents, q.lap)) in
      ap
        (λ a.
          finish_write (length buffer)
            (write_granted buffer (record { header = producing; bytes = bytes }) a))
        short

  -- On a ring of 2 ^ bits bytes whose markers are at most a lap apart: `read` of more bytes than are
  -- waiting fails with ENODATA, and leaves the ring and the role as they were.
  pub read-short :
      (size : ℕ)
      → length (contents bits c p bytes) < size
      → read size (queue_ring bits c p bytes, new_role 0)
        ≡ ((failed enodata, []), queue_ring bits c p bytes, new_role 0)
  unfolding read read_started finish_read start_tx read_in_tx cancel_tx begin_transaction
      end_transaction
  read-short size h =
      let short =
        access_contiguous_in_tx-short false size consuming (in_transaction 0)
          (queue-IsHeader bits c p bytes q (true ∷ false ∷ [])) consumer-IsTx refl
          (omega (arith, consumer_left_over, length-contents)) in
      ap
        (λ a.
          finish_read size (record { header = consuming; bytes = bytes })
            (read_granted (record { header = consuming; bytes = bytes }) a))
        short

  producer_offset : next_offset producing (in_transaction 1) ≡ p % 2 ^ bits
  unfolding read_marker
  producer_offset = ap (λ (t : ℕ). t % 2 ^ bits) {x = p + 0} {y = p} (omega arith)

  consumer_offset : next_offset consuming (in_transaction 0) ≡ c % 2 ^ bits
  unfolding read_marker
  consumer_offset = ap (λ (t : ℕ). t % 2 ^ bits) {x = c + 0} {y = c} (omega arith)

  -- The state after a write that fits.
  unfoldable pub written : List ℕ → List ℕ
  written [] = bytes
  written (b ∷ bs) =
      write_areas (cut_areas producing (p % 2 ^ bits) (length (b ∷ bs))) (b ∷ bs) bytes

  granted_exactly :
      (idx size : ℕ) (h : Header) (off : ℕ)
      → access_contiguous_in_tx false size h (in_transaction idx) ≡ (
        areas (
            cut_areas h
              (next_offset h (in_transaction idx))
              (min size (left_over h (in_transaction idx)))),
        record {
          role_idx = idx;
          tx_size = 0 + min size (left_over h (in_transaction idx));
          in_tx = true;
          tx_checked = true;
        },
      )
      → size ≤ left_over h (in_transaction idx)
      → next_offset h (in_transaction idx) ≡ off
      → access_contiguous_in_tx false size h (in_transaction idx) ≡ (
        areas (cut_areas h off size),
        record { role_idx = idx; tx_size = size; in_tx = true; tx_checked = true },
      )
  granted_exactly idx size h off e room o =
      let all : min size (left_over h (in_transaction idx)) ≡ size = omega arith in
      let sum : 0 + min size (left_over h (in_transaction idx)) ≡ size = omega arith in
      e
      ∙ ap
          (λ (t : ℕ). (
            areas (cut_areas h t (min size (left_over h (in_transaction idx)))),
            record {
              role_idx = idx;
              tx_size = 0 + min size (left_over h (in_transaction idx));
              in_tx = true;
              tx_checked = true;
            },
          ))
          o
      ∙ ap
          (λ (t : ℕ). (
            areas (cut_areas h off t),
            record {
              role_idx = idx;
              tx_size = 0 + min size (left_over h (in_transaction idx));
              in_tx = true;
              tx_checked = true;
            },
          ))
          all
      ∙ ap
          (λ (t : ℕ). (
            areas (cut_areas h off size),
            record { role_idx = idx; tx_size = t; in_tx = true; tx_checked = true },
          ))
          sum

  pub write-fits :
      (buffer : List ℕ)
      → length (contents bits c p bytes) + length buffer ≤ 2 ^ bits
      → write buffer (length buffer) (queue_ring bits c p bytes, new_role 1) ≡ (
        returned (length buffer),
        queue_ring bits c (add64 p (length buffer)) (written buffer),
        new_role 1,
      )
  unfolding write write_started finish_write start_tx write_in_tx commit_tx begin_transaction
      end_transaction inc_marker written
  write-fits [] h =
      let nothing =
        access_contiguous_in_tx-nothing false 0 producing (in_transaction 1)
          (queue-IsHeader bits c p bytes q (false ∷ true ∷ [])) producer-IsTx (ground arith)
          (omega arith) in
      ap (λ a. finish_write 0 (write_granted [] (record { header = producing; bytes = bytes }) a))
        nothing
  write-fits (b ∷ bs) h =
      let size : ℕ = length (b ∷ bs) in
      let k = queue-IsHeader bits c p bytes q (false ∷ true ∷ []) in
      let room : size ≤ left_over producing (in_transaction 1) =
        omega (arith, producer_left_over, length-contents, q.lap) in
      let granted =
        access_contiguous_in_tx-granted false size producing (in_transaction 1) k producer-IsTx
          (ground arith) (omega arith) in
      ap
        (λ a.
          finish_write size
            (write_granted (b ∷ bs) (record { header = producing; bytes = bytes }) a))
        (granted_exactly 1 size producing (p % 2 ^ bits) granted room producer_offset)

  pub read-fits :
      (n : ℕ)
      → suc n ≤ length (contents bits c p bytes)
      → read (suc n) (queue_ring bits c p bytes, new_role 0) ≡ (
        (returned (suc n), read_areas (cut_areas consuming (c % 2 ^ bits) (suc n)) bytes),
        queue_ring bits (add64 c (suc n)) p bytes,
        new_role 0,
      )
  unfolding read read_started finish_read start_tx read_in_tx commit_tx begin_transaction
      end_transaction inc_marker
  read-fits n h =
      let k = queue-IsHeader bits c p bytes q (true ∷ false ∷ []) in
      let room : suc n ≤ left_over consuming (in_transaction 0) =
        omega (arith, consumer_left_over, length-contents) in
      let granted =
        access_contiguous_in_tx-granted false (suc n) consuming (in_transaction 0) k consumer-IsTx
          (ground arith) (omega arith) in
      ap
        (λ a.
          finish_read (suc n) (record { header = consuming; bytes = bytes })
            (read_granted (record { header = consuming; bytes = bytes }) a))
        (granted_exactly 0 (suc n) consuming (c % 2 ^ bits) granted room consumer_offset)

  pub read-nothing :
      read 0 (queue_ring bits c p bytes, new_role 0)
      ≡ ((returned 0, []), queue_ring bits (add64 c 0) p bytes, new_role 0)
  unfolding read read_started finish_read start_tx read_in_tx commit_tx begin_transaction
      end_transaction inc_marker
  read-nothing =
      let nothing =
        access_contiguous_in_tx-nothing false 0 consuming (in_transaction 0)
          (queue-IsHeader bits c p bytes q (true ∷ false ∷ [])) consumer-IsTx (ground arith)
          (omega arith) in
      ap
        (λ a.
          finish_read 0 (record { header = consuming; bytes = bytes })
            (read_granted (record { header = consuming; bytes = bytes }) a))
        nothing
