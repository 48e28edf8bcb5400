-- ===== src/RingBuffer/Grants.antt =====
-- What `accessContiguousInTx` grants, byte by byte.
use native.Mathlib.Nat.{mod-lt, mod-eq_of_lt, mod-eq-sub-mod}
use mathlib.Core.List.{append-nil}
use tensorpipe.Prelude.{
  ℕ, ◌+◌, ◌-◌, ◌%◌, ◌≤◌, ◌<◌, ◌≡◌, ◌⊎◌, ap, ◌∙◌, sym, inl, inr, min, Bool, false, not, ◌&&◌, List,
  [], ◌∷◌, ◌++◌, arith, ltb, tabulate, tabulate-ext, tabulate-add, Bool-cases, ltb→lt,
}
use tensorpipe.RingBuffer.{
  Header, Role, Area, no_access, areas, enodata, cut_areas, access_contiguous_in_tx, read_marker,
}
use tensorpipe.RingBuffer.Areas.{
  IsHeader, size_bound, cut_areas-one, cut_areas-two, IsTx, left_over, next_offset,
  access_contiguous_in_tx-short, access_contiguous_in_tx-granted, access_contiguous_in_tx-nothing,
}

-- The offsets of the bytes of some areas, in order.
unfoldable pub positions : List Area → List ℕ
positions [] = []
positions (a ∷ parts) = tabulate a.len (λ i. a.ptr + i) ++ positions parts

module _ (h : Header) (k : IsHeader h) (start size : ℕ) (l : start < h.data_pool_byte_size)
    (m : size ≤ h.data_pool_byte_size) where
  positions-cut_areas :
      0 < size
      → positions (cut_areas h start size)
        ≡ tabulate size (λ i. (start + i) % h.data_pool_byte_size)
  unfolding positions
  positions-cut_areas g =
      let n : ℕ = h.data_pool_byte_size in
      elim (Bool-cases (ltb n (start + size))) [
        | inr t ↦
            let fits : start + size ≤ n = ground (arith, t) in
            rw (cut_areas-one h k start size l m fits g) (
              append-nil (tabulate size (λ i. start + i))
              ∙ tabulate-ext size (λ i. start + i) (λ i. (start + i) % n)
                  (λ i b. sym (mod-eq_of_lt (omega arith))))
        | inl t ↦
            let wraps : n < start + size = ltb→lt n (start + size) t in
            rw (cut_areas-two h k start size l m wraps) (
              ap (λ (ys : List ℕ). tabulate (n - start) (λ i. start + i) ++ ys)
                (append-nil (tabulate (start + size - n) (λ i. 0 + i))
                  ∙ tabulate-ext (start + size - n) (λ i. 0 + i)
                      (λ i. (start + (n - start + i)) % n) (λ i b. sym (next_lap wraps i b)))
              ∙ ap
                  (λ (ys : List ℕ).
                    ys ++ tabulate (start + size - n) (λ i. (start + (n - start + i)) % n))
                  (tabulate-ext (n - start) (λ i. start + i) (λ i. (start + i) % n)
                    (λ i b. sym (mod-eq_of_lt (omega arith))))
              ∙ sym (tabulate-add (n - start) (start + size - n) (λ i. (start + i) % n))
              ∙ ap (λ (t : ℕ). tabulate t (λ i. (start + i) % n)) (omega arith))
      ]
    where
      next_lap :
          h.data_pool_byte_size < start + size
          → (i : ℕ) → i < start + size - h.data_pool_byte_size
          → (start + (h.data_pool_byte_size - start + i)) % h.data_pool_byte_size ≡ 0 + i
      next_lap wraps i b =
          let n : ℕ = h.data_pool_byte_size in
          ap (λ (t : ℕ). t % n) {x = start + (n - start + i)} {y = n + i} (omega arith)
          ∙ mod-eq-sub-mod {n = n + i} {m = n} (omega arith)
          ∙ ap (λ (t : ℕ). t % n) {x = n + i - n} {y = 0 + i} (omega arith)
          ∙ mod-eq_of_lt (omega arith)

module _ (allow_partial : Bool) (size : ℕ) (h : Header) (r : Role) (k : IsHeader h)
    (x : IsTx h r) where
  -- `accessContiguousInTx` in a transaction, on a ring whose size is a power of two below 2 ^ 31 and
  -- whose markers differ by at most a lap. Where part of the size is not allowed and less than the
  -- size is left, it fails with ENODATA and grants nothing. Everywhere else its areas, chained
  -- together, are the offsets of as many bytes as are asked for and left, one after the other around
  -- the ring, from the offset of the marker and the bytes granted before; and it counts them.
  pub access_contiguous_in_tx-grants :
      ((allow_partial ≡ false)
        × (left_over h r < size)
        × (access_contiguous_in_tx allow_partial size h r ≡ (no_access enodata, r)))
      ⊎ ((parts : List Area) × ((not allow_partial && ltb (left_over h r) size) ≡ false)
          × (access_contiguous_in_tx allow_partial size h r
              ≡ (areas parts, record r { tx_size = r.tx_size + min size (left_over h r) }))
          × (positions parts
              ≡ tabulate
                  (min size (left_over h r))
                  (λ i. (next_offset h r + i) % h.data_pool_byte_size)))
  unfolding positions
  access_contiguous_in_tx-grants =
      elim (Bool-cases (not allow_partial && ltb (left_over h r) size)) [
        | inl t ↦
            let all : allow_partial ≡ false = ground arith in
            let less : left_over h r < size = ground arith in
            inl (all, less, access_contiguous_in_tx-short allow_partial size h r k x all less)
        | inr t ↦ inr (elim (Bool-cases (ltb 0 (min size (left_over h r)))) [
          | inl g ↦
              let some_left : 0 < min size (left_over h r) = ltb→lt 0 _ g in
              let share = x.share in
              (
                cut_areas h (next_offset h r) (min size (left_over h r)),
                t,
                access_contiguous_in_tx-granted allow_partial size h r k x t some_left,
                positions-cut_areas h k (next_offset h r) (min size (left_over h r))
                    (mod-lt (read_marker r.role_idx h + r.tx_size) (size_bound h k).0) (omega arith)
                    some_left,
              )
          | inr g ↦
              let none_left : min size (left_over h r) ≡ 0 = ground (arith, g) in
              (
                [],
                t,
                access_contiguous_in_tx-nothing allow_partial size h r k x t none_left
                    ∙ ap (λ (n : ℕ). (areas [], record r { tx_size = n })) {x = r.tx_size}
                        {y = r.tx_size + min size (left_over h r)} (omega arith),
                ap (λ (n : ℕ). tabulate n (λ i. (next_offset h r + i) % h.data_pool_byte_size))
                    (sym none_left),
              )
        ])
      ]
