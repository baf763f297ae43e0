-- ===== src/Base/Signed.antt =====
-- The checked addition and subtraction of int64_t, as SafeInt3.hpp documents them.
use Prim.Native.Nat.{◌-◌, ◌^◌}
use mathlib.Core.Path.{◌≡◌}
use mathlib.Core.Option.{Option, some}
use dacrs.Base.Int.{ℤ, pos, negsuc, ◌+ℤ◌, ◌-ℤ◌, ◌≤ℤ◌}

-- The number is one of an int64_t.
abbrev pub IsInt64 : ℤ → Type 0
IsInt64 x = (negsuc (2 ^ 63 - 1) ≤ℤ x) × (x ≤ℤ pos (2 ^ 63 - 1))

pub record CheckedInt64 : Type 0 where
  pub safe_add : ℤ → ℤ → Option ℤ
  pub safe_subtract : ℤ → ℤ → Option ℤ
  pub add_exact : (a b r : ℤ) → safe_add a b ≡ some r → r ≡ a +ℤ b
  pub add_fits : (a b : ℤ) → IsInt64 (a +ℤ b) → safe_add a b ≡ some (a +ℤ b)
  pub subtract_exact : (a b r : ℤ) → safe_subtract a b ≡ some r → r ≡ a -ℤ b
  pub subtract_fits : (a b : ℤ) → IsInt64 (a -ℤ b) → safe_subtract a b ≡ some (a -ℤ b)
