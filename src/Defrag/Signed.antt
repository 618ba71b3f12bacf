-- ===== src/Defrag/Signed.antt =====
-- `int64_t` as the counters of a base use it: comparison, and the conversion to `uint64_t`.
use eblob.Base.{ℕ, suc, ◌-◌, ◌^◌, ◌%◌, Bool, true, false, ltb, ◌==◌}

pub data ℤ : Type 0 where
  pos : ℕ → ℤ
  negsuc : ℕ → ℤ

abbrev pub ltℤ : ℤ → ℤ → Bool
ltℤ (pos a) (pos b) = ltb a b
ltℤ (pos a) (negsuc b) = false
ltℤ (negsuc a) (pos b) = true
ltℤ (negsuc a) (negsuc b) = ltb b a

abbrev pub eqℤ : ℤ → ℤ → Bool
eqℤ (pos a) (pos b) = a == b
eqℤ (pos a) (negsuc b) = false
eqℤ (negsuc a) (pos b) = false
eqℤ (negsuc a) (negsuc b) = a == b

abbrev pub u64 : ℤ → ℕ
u64 (pos a) = a % 2 ^ 64
u64 (negsuc a) = 2 ^ 64 - suc (a % 2 ^ 64)
