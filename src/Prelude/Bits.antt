-- ===== src/Prelude/Bits.antt =====
-- The mask of a size that is a power of two, as the ring buffer has it.
use Prim.Native.Nat.{
  ℕ, zero, suc, ◌+◌, ◌*◌, ◌-◌, ◌/◌, ◌%◌, ◌^◌, ◌≤◌, ◌<◌, min, bit_and, digits, bit_and-bitwise,
}
use mathlib.Core.Path.{◌≡◌, ap, sym, ◌∙◌}
use native.Mathlib.Nat.{
  two-pow-succ, one-le-pow, add-mul, mod-lt, mod-one, zero-mod, mod-eq_of_lt, div-add-mod,
  add-mul-mod_self_left,
}
use native.Mathlib.Omega.{arith}

-- A number by its lowest digit and the others, modulo an even number.
last_digit : (x p : ℕ) → 0 < p → (x / 2 % p) * 2 + x % 2 ≡ x % (p + p)
last_digit x p h =
    let r : ℕ = (x / 2 % p) * 2 + x % 2 in
    let q : ℕ = x / 2 / p in
    let low : x / 2 % p < p = mod-lt (x / 2) h in
    let whole : p * q + x / 2 % p ≡ x / 2 = div-add-mod (x / 2) p in
    let parts : r + (p + p) * q ≡ x = omega (arith, add-mul p p q) in
    sym (mod-eq_of_lt {n = r} {m = p + p} (omega arith))
    ∙ sym (add-mul-mod_self_left r (p + p) q)
    ∙ ap (λ (t : ℕ). t % (p + p)) parts

-- The mask without its lowest digit.
half_mask : (k : ℕ) → (2 ^ suc k - 1) / 2 ≡ 2 ^ k - 1
half_mask k = omega (arith, two-pow-succ k, one-le-pow k 2 (omega arith))

odd_mask : (k : ℕ) → (2 ^ suc k - 1) % 2 ≡ 1
odd_mask k = omega (arith, two-pow-succ k, one-le-pow k 2 (omega arith))

masked_digits : (count k x : ℕ) → x ≤ count → digits (λ b. zero) min count x (2 ^ k - 1) ≡ x % 2 ^ k
masked_digits zero k zero h = sym (zero-mod (2 ^ k))
masked_digits zero k (suc x) h = absurd (omega arith)
masked_digits (suc count) k zero h = sym (zero-mod (2 ^ k))
masked_digits (suc count) zero (suc x) h =
    let others = masked_digits count 0 (suc x / 2) (omega arith) in
    let none_left = mod-one (suc x / 2) in omega (arith, mod-one (suc x))
masked_digits (suc count) (suc k) (suc x) h =
    let others = masked_digits count k (suc x / 2) (omega arith) in
    let shorter = ap (λ (m : ℕ). digits (λ b. zero) min count (suc x / 2) m) (half_mask k) in
    let odd = odd_mask k in
    let join = last_digit (suc x) (2 ^ k) (one-le-pow k 2 (omega arith)) in
    let size = ap (λ (p : ℕ). suc x % p) (two-pow-succ k) in omega arith

-- `&` with the mask of 2 ^ k is the remainder by 2 ^ k.
pub bit_and-pow : (k a : ℕ) → bit_and a (2 ^ k - 1) ≡ a % 2 ^ k
bit_and-pow k a = bit_and-bitwise a (2 ^ k - 1) ∙ masked_digits a k a (omega arith)
