-- ===== src/Ints.antt =====
-- Go's `int` and `int64`.
use gb_516_hydropower_gate_d.Prelude.{ℕ, ◌-◌, ◌^◌, ◌%◌, Bool, true, false, ltb, if◌then◌else◌}

-- `int`: a natural number, or `negsuc n` for `-(n + 1)`.
pub data ℤ : Type 0 where
  pos : ℕ → ℤ
  negsuc : ℕ → ℤ

-- `n < bound` and `bound < n`, for a bound that is not negative.
abbrev pub below : ℤ → ℕ → Bool
below (pos n) bound = ltb n bound
below (negsuc n) bound = true

abbrev pub above : ℤ → ℕ → Bool
above (pos n) bound = ltb bound n
above (negsuc n) bound = false

-- The value of 64 bits in two's complement.
unfoldable pub wrap64 : ℕ → ℤ
wrap64 n = let r = n % 2 ^ 64 in if ltb r (2 ^ 63) then pos r else negsuc (2 ^ 64 - 1 - r)
