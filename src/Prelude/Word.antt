-- ===== src/Prelude/Word.antt =====
-- Arithmetic of `uint64_t` and of `unsigned`: the wrap-around is written out.
use Prim.Native.Nat.{ℕ, ◌+◌, ◌-◌, ◌%◌, ◌^◌}

abbrev pub u64_mod : ℕ
u64_mod = 2 ^ 64

abbrev pub add64 : ℕ → ℕ → ℕ
add64 a b = (a + b) % u64_mod

-- For words `a` and `b`.
abbrev pub sub64 : ℕ → ℕ → ℕ
sub64 a b = (a + u64_mod - b) % u64_mod

abbrev pub u32_mod : ℕ
u32_mod = 2 ^ 32
