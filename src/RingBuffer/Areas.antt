-- ===== src/RingBuffer/Areas.antt =====
-- The areas that `accessContiguousInTx` grants.
use native.Mathlib.Nat.{
  mod-eq_of_lt, mod-eq-sub-mod, one-le-pow, pow-le-pow_right, mod-mod_of_dvd, pow-suc, dvd_refl,
  dvd-mul_right_of_dvd,
}
use tensorpipe.Prelude.{
  ℕ, zero, suc, ◌+◌, ◌-◌, ◌%◌, ◌^◌, ◌≤◌, ◌<◌, ◌≡◌, ap, ◌∙◌, sym, inl, inr, min, Bool, true, false,
  not, ◌&&◌, [], ◌∷◌, arith, ltb, leb, if◌then◌else◌, Bool-cases, ltb→lt, subst,
}
use Prim.Native.Nat.{bit_and, ◌∣◌}
use tensorpipe.Prelude.Word.{u64_mod, u32_mod, add64, sub64}
use tensorpipe.Prelude.Bits.{bit_and-pow}
use tensorpipe.RingBuffer.{
  Header, Role, no_access, areas, enodata, cut_areas, access_contiguous_in_tx, check_markers,
  available, read_marker, total_len, head_of,
}

-- What the constructor of the header checks: the size is a power of two that an `int` can hold.
pub record IsHeader (h : Header) : Type 0 where
  pub bits : ℕ
  pub bits_bound : bits < 31
  pub size : h.data_pool_byte_size ≡ 2 ^ bits
  pub mask : h.data_mod_mask ≡ 2 ^ bits - 1

pow_bound : (k : ℕ) → k < 31 → (0 < 2 ^ k) × (2 ^ k ≤ 2 ^ 30)
pow_bound k h = (
  one-le-pow k 2 (omega arith),
  pow-le-pow_right {n = 2} (omega arith) {i = k} {j = 30} (omega arith),
)

pub size_bound :
    (h : Header) → IsHeader h → (0 < h.data_pool_byte_size) × (h.data_pool_byte_size ≤ 2 ^ 30)
size_bound h k = rw k.size (pow_bound k.bits k.bits_bound)

pub masked :
    (h : Header) (k : IsHeader h) (n : ℕ) → bit_and n h.data_mod_mask ≡ n % h.data_pool_byte_size
masked h k n = rw (k.mask, k.size) (bit_and-pow k.bits n)

pub mod_lap :
    (a b n : ℕ) → a < n → b ≤ n → (a + b) % n ≡ (if ltb (a + b) n then a + b else a + b - n)
mod_lap a b n h l = elim (Bool-cases (ltb (a + b) n)) [
  | inl t ↦ rw t (mod-eq_of_lt (ltb→lt (a + b) n t))
  | inr t ↦ rw t (mod-eq-sub-mod (ground (arith, t)) ∙ mod-eq_of_lt (ground (arith, t)))
]

module _ (h : Header) (k : IsHeader h) (start size : ℕ) (l : start < h.data_pool_byte_size)
    (m : size ≤ h.data_pool_byte_size) where
  end_of : bit_and (add64 start size) h.data_mod_mask ≡ (
      if ltb (start + size) h.data_pool_byte_size
      then start + size
      else start + size - h.data_pool_byte_size)
  end_of =
      let (_, big) = size_bound h k in
      masked h k (add64 start size)
      ∙ ap (λ (t : ℕ). t % h.data_pool_byte_size)
          (mod-eq_of_lt {n = start + size} {m = u64_mod} (omega arith))
      ∙ mod_lap start size h.data_pool_byte_size l m

  pub cut_areas-one :
      start + size ≤ h.data_pool_byte_size
      → 0 < size
      → cut_areas h start size ≡ record { ptr = start; len = size } ∷ []
  unfolding cut_areas
  cut_areas-one e f = let w = end_of in ground (arith, w)

  pub cut_areas-two :
      h.data_pool_byte_size < start + size
      → cut_areas h start size
        ≡ record { ptr = start; len = h.data_pool_byte_size - start }
          ∷ record { ptr = 0; len = start + size - h.data_pool_byte_size }
          ∷ []
  unfolding cut_areas
  cut_areas-two e = let w = end_of in ground (arith, w)

pow_divides : (k j : ℕ) → 2 ^ k ∣ 2 ^ (k + j)
pow_divides k zero = subst (λ (t : ℕ). 2 ^ k ∣ 2 ^ t) (omega arith) (dvd_refl (2 ^ k))
pow_divides k (suc j) =
    subst (λ (t : ℕ). 2 ^ k ∣ t)
      (sym (pow-suc 2 (k + j))
        ∙ ap (λ (t : ℕ). 2 ^ t) {x = suc (k + j)} {y = k + suc j} (omega arith))
      (dvd-mul_right_of_dvd (2 ^ k) (pow_divides k j) 2)

-- The wrap-around of the markers does not move an offset.
pub word_offset : (k : ℕ) → k < 31 → (n : ℕ) → n % u64_mod % 2 ^ k ≡ n % 2 ^ k
word_offset k h n = mod-mod_of_dvd (2 ^ k) n (
    subst (λ (t : ℕ). 2 ^ k ∣ 2 ^ t) {x = k + (64 - k)} {y = 64} (omega arith)
      (pow_divides k (64 - k)))

word_masked :
    (h : Header) (k : IsHeader h) (n : ℕ)
    → bit_and (n % u64_mod) h.data_mod_mask ≡ n % h.data_pool_byte_size
word_masked h k n = masked h k (n % u64_mod) ∙ rw k.size (word_offset k.bits k.bits_bound n)

module _ (h : Header) (k : IsHeader h) (start size : ℕ) (l : start < h.data_pool_byte_size)
    (m : size ≤ h.data_pool_byte_size) where
  pub total_len-cut_areas : 0 < size → total_len (cut_areas h start size) ≡ size
  total_len-cut_areas g = elim (Bool-cases (ltb h.data_pool_byte_size (start + size))) [
    | inl t ↦
        rw (cut_areas-two h k start size l m (ltb→lt h.data_pool_byte_size (start + size) t)) (
          let wraps : h.data_pool_byte_size < start + size =
            ltb→lt h.data_pool_byte_size (start + size) t in
          omega arith)
    | inr t ↦ rw (cut_areas-one h k start size l m (ground (arith, t)) g) (omega arith)
  ]

-- What is left of a role's share in a transaction, where the differences of the markers are as the
-- code checks them.
pub record IsTx (h : Header) (r : Role) : Type 0 where
  pub started : r.in_tx ≡ true
  pub share : sub64 (head_of r.role_idx h) (read_marker r.role_idx h) ≤ h.data_pool_byte_size
  pub checked : r.tx_checked ≡ true
  pub taken : r.tx_size ≤ sub64 (head_of r.role_idx h) (read_marker r.role_idx h)

abbrev pub left_over : Header → Role → ℕ
left_over h r = sub64 (head_of r.role_idx h) (read_marker r.role_idx h) - r.tx_size

-- The offset at which the next access of a role starts.
abbrev pub next_offset : Header → Role → ℕ
next_offset h r = (read_marker r.role_idx h + r.tx_size) % h.data_pool_byte_size

module _ (allow_partial : Bool) (size : ℕ) (h : Header) (r : Role) (k : IsHeader h)
    (x : IsTx h r) where
  pub available-left_over : available h r ≡ left_over h r
  unfolding available
  available-left_over = let b = size_bound h k in let s = x.share in let t = x.taken in omega arith

  checked_same : check_markers h r ≡ r
  unfolding check_markers
  checked_same =
      let share = x.share in
      let checked = x.checked in
      let holds : (r.tx_checked
            && leb (sub64 (head_of r.role_idx h) (read_marker r.role_idx h)) h.data_pool_byte_size)
          ≡ r.tx_checked =
        ground arith in
      ap (λ (b : Bool). record r { tx_checked = b }) holds

  pub access_contiguous_in_tx-short :
      allow_partial ≡ false
      → left_over h r < size
      → access_contiguous_in_tx allow_partial size h r ≡ (no_access enodata, r)
  unfolding access_contiguous_in_tx
  access_contiguous_in_tx-short a s =
      rw checked_same (ground (arith, available-left_over, x.started))

  pub access_contiguous_in_tx-granted :
      (not allow_partial && ltb (left_over h r) size) ≡ false
      → 0 < min size (left_over h r)
      → access_contiguous_in_tx allow_partial size h r ≡ (
        areas (cut_areas h (next_offset h r) (min size (left_over h r))),
        record r { tx_size = r.tx_size + min size (left_over h r) },
      )
  unfolding access_contiguous_in_tx
  access_contiguous_in_tx-granted a s =
      let b = size_bound h k in
      let share = x.share in
      let taken = x.taken in
      let start : bit_and (add64 (read_marker r.role_idx h) r.tx_size) h.data_mod_mask
          ≡ next_offset h r =
        word_masked h k (read_marker r.role_idx h + r.tx_size) in
      let small : (r.tx_size + min size (left_over h r)) % u32_mod
          ≡ r.tx_size + min size (left_over h r) =
        mod-eq_of_lt (omega arith) in
      rw (checked_same, available-left_over, start, small) (ground (arith, x.started, a))

  pub access_contiguous_in_tx-nothing :
      (not allow_partial && ltb (left_over h r) size) ≡ false
      → min size (left_over h r) ≡ 0
      → access_contiguous_in_tx allow_partial size h r ≡ (areas [], r)
  unfolding access_contiguous_in_tx
  access_contiguous_in_tx-nothing a s =
      rw checked_same (ground (arith, available-left_over, x.started, a))
