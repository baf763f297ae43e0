-- ===== src/Base/Plain.antt =====
-- A checked addition that does what the library documents, for instances of theorems.
use Prim.Native.Nat.{ℕ, ◌+◌, ◌^◌, ◌≤◌, ◌<◌}
use mathlib.Core.Path.{◌≡◌}
use mathlib.Core.Option.{Option, none, some}
use native.Mathlib.Omega.{arith}
use dacrs.Base.Tests.{ltb, if◌then◌else◌}
use dacrs.Base.Checked.{CheckedAdd}

abbrev pub plain_add : ℕ → ℕ → Option ℕ
plain_add a b = if ltb (a + b) (2 ^ 64) then some (a + b) else none

pub plain_add-fits : (a b : ℕ) → a + b < 2 ^ 64 → plain_add a b ≡ some (a + b)
plain_add-fits a b h = ground arith

pub plain_add-overflows : (a b : ℕ) → 2 ^ 64 ≤ a + b → plain_add a b ≡ none
plain_add-overflows a b h = ground arith

abbrev pub plain : CheckedAdd
plain = record { safe_add = plain_add; fits = plain_add-fits; overflows = plain_add-overflows }
