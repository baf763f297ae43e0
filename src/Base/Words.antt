-- ===== src/Base/Words.antt =====
-- Machine words as native numbers: an INT8U is below 256, an INT16U below 65536.
use Prim.Native.Nat.{ℕ, zero, suc, ◌+◌, ◌-◌, ◌*◌, ◌/◌, ◌%◌, ◌^◌, ◌<◌}
use mathlib.Core.Path.{◌≡◌}
use mathlib.Core.Bool.{Bool, true, false}
use native.Mathlib.Omega.{arith}
use dacrs.Base.Tests.{◌==◌, if◌then◌else◌}

-- A memory is a function from addresses to its cells.
abbrev pub Mem : Type 0
Mem = ℕ → ℕ

abbrev pub write : Mem → ℕ → ℕ → Mem
write m i v j = if i == j then v else m j

-- Every cell is a byte.
abbrev pub IsByteMem : Mem → Type 0
IsByteMem m = (i : ℕ) → m i < 256

pub write-IsByteMem : (m : Mem) (i v : ℕ) → IsByteMem m → v < 256 → IsByteMem (write m i v)
write-IsByteMem m i v h lt j = ground (arith, h j)

-- (INT8U) x and (INT16U) x.
abbrev pub int8u : ℕ → ℕ
int8u x = x % 256

abbrev pub int16u : ℕ → ℕ
int16u x = x % 65536

-- x & (2^k - 1), and x >> k.
abbrev pub low_bits : ℕ → ℕ → ℕ
low_bits x k = x % 2 ^ k

abbrev pub shr : ℕ → ℕ → ℕ
shr x k = x / 2 ^ k

-- One bit of a word, and the word with that bit replaced.
abbrev pub bit_of : ℕ → ℕ → ℕ
bit_of x k = x / 2 ^ k % 2

abbrev pub with_bit : ℕ → ℕ → ℕ → ℕ
with_bit x k b = x - (x / 2 ^ k % 2) * 2 ^ k + (b % 2) * 2 ^ k

-- A test of every value of a small range, by evaluation.
unfoldable pub passes_below : (ℕ → Bool) → ℕ → Bool
passes_below test zero = true
passes_below test (suc top) = if test top then passes_below test top else false

pub passes_below-all :
    (test : ℕ → Bool) (size : ℕ) (value : ℕ)
    → value < size
    → passes_below test size ≡ true
    → test value ≡ true
unfolding passes_below
passes_below-all test zero value low passed = absurd (omega arith)
passes_below-all test (suc top) value low passed = ground (arith, passes_below-all test top value)

-- A test kept in a bit field: `x ? 1 : 0`.
abbrev pub to_flag : Bool → ℕ
to_flag b = if b then 1 else 0
