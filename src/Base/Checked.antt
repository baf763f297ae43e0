-- ===== src/Base/Checked.antt =====
-- The checked addition of uint64_t that the program takes from SafeInt3.hpp, a library of another
-- project, by what it documents: the sum where it fits, a refusal where it does not.
use Prim.Native.Nat.{ℕ, ◌+◌, ◌^◌, ◌≤◌, ◌<◌}
use mathlib.Core.Path.{◌≡◌}
use mathlib.Core.Option.{Option, none, some}

pub record CheckedAdd : Type 0 where
  pub safe_add : ℕ → ℕ → Option ℕ
  pub fits : (a b : ℕ) → a + b < 2 ^ 64 → safe_add a b ≡ some (a + b)
  pub overflows : (a b : ℕ) → 2 ^ 64 ≤ a + b → safe_add a b ≡ none
