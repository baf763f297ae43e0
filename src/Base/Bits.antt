-- ===== src/Base/Bits.antt =====
-- Laws of `bit_or` at variables, from the recursion on binary digits.
use Prim.Native.Nat.{
  ℕ, zero, suc, ◌+◌, ◌*◌, ◌/◌, ◌%◌, ◌^◌, ◌≤◌, ◌<◌, max, bit_or, digits, bit_or-bitwise,
}
use mathlib.Core.Path.{◌≡◌, refl, ap, ap₂, ◌∙◌}
use native.Mathlib.Nat.{pow-suc}
use native.Mathlib.Omega.{arith}

-- `bit_or` with an explicit bound on the digits of its first argument.
abbrev or_digits : ℕ → ℕ → ℕ → ℕ
or_digits n a b = digits (λ b. b) max n a b

or_digits-bound : (k l x y : ℕ) → x ≤ k → x ≤ l → or_digits k x y ≡ or_digits l x y
or_digits-bound zero zero x y below under = refl
or_digits-bound zero (suc l) zero y below under = refl
or_digits-bound zero (suc l) (suc x) y below under = absurd (omega arith)
or_digits-bound (suc k) zero zero y below under = refl
or_digits-bound (suc k) zero (suc x) y below under = absurd (omega arith)
or_digits-bound (suc k) (suc l) zero y below under = refl
or_digits-bound (suc k) (suc l) (suc x) y below under =
    omega (arith, or_digits-bound k l (suc x / 2) (y / 2) (omega arith) (omega arith))

pub zero-bit_or : (b : ℕ) → bit_or 0 b ≡ b
zero-bit_or b = bit_or-bitwise 0 b

-- The lowest digit and the rest.
pub bit_or_step : (x y : ℕ) → bit_or x y ≡ max (x % 2) (y % 2) + 2 * bit_or (x / 2) (y / 2)
bit_or_step zero y = omega (arith, zero-bit_or (y / 2), zero-bit_or y)
bit_or_step (suc n) y = omega (
  arith,
  or_digits-bound n (suc n / 2) (suc n / 2) (y / 2) (omega arith) (omega arith),
  bit_or-bitwise (suc n / 2) (y / 2),
  bit_or-bitwise (suc n) y,
)

bit_or-zero_bound : (n a : ℕ) → a ≤ n → bit_or a 0 ≡ a
bit_or-zero_bound n zero h = refl
bit_or-zero_bound zero (suc a) h = absurd (omega arith)
bit_or-zero_bound (suc n) (suc a) h =
    omega (arith, bit_or_step (suc a) 0, bit_or-zero_bound n (suc a / 2) (omega arith))

pub bit_or-zero : (a : ℕ) → bit_or a 0 ≡ a
bit_or-zero a = bit_or-zero_bound a a (omega arith)

bit_or-double : (a b : ℕ) → bit_or (a * 2) b ≡ bit_or a (b / 2) * 2 + b % 2
bit_or-double a b = omega (arith, bit_or_step (a * 2) b, ap (λ x. bit_or x (b / 2)) (halved a))
  where
    halved : (n : ℕ) → n * 2 / 2 ≡ n
    halved n = omega arith

-- Digits that do not overlap are put side by side.
pub bit_or-high_low : (k x y : ℕ) → y < 2 ^ k → bit_or (x * 2 ^ k) y ≡ x * 2 ^ k + y
bit_or-high_low zero x y h = ap₂ bit_or (omega arith) (omega arith) ∙ bit_or-zero x ∙ omega arith
bit_or-high_low (suc k) x y h =
    ap (λ p. bit_or p y) (double x)
    ∙ bit_or-double (x * 2 ^ k) y
    ∙ omega (arith, pow-suc 2 k, double x, bit_or-high_low k x (y / 2) (omega (arith, pow-suc 2 k)))
  where
    double : (z : ℕ) → z * 2 ^ suc k ≡ z * 2 ^ k * 2
    double z = rw (pow-suc 2 k) (omega arith)

bit_or-comm_bound : (n a b : ℕ) → a ≤ n → bit_or a b ≡ bit_or b a
bit_or-comm_bound zero zero b h = omega (arith, zero-bit_or b, bit_or-zero b)
bit_or-comm_bound zero (suc a) b h = absurd (omega arith)
bit_or-comm_bound (suc n) a b h =
    omega
      (arith, bit_or_step a b, bit_or_step b a, bit_or-comm_bound n (a / 2) (b / 2) (omega arith))

pub bit_or_comm : (a b : ℕ) → bit_or a b ≡ bit_or b a
bit_or_comm a b = bit_or-comm_bound a a b (omega arith)

-- An INT16U from its two bytes, however they are written.
pub bit_or-bytes : (hi lo : ℕ) → lo < 256 → bit_or (hi * 256) lo ≡ hi * 256 + lo
bit_or-bytes hi lo h = bit_or-high_low 8 hi lo h

pub bit_or-bytes_swapped : (hi lo : ℕ) → lo < 256 → bit_or lo (hi * 256) ≡ hi * 256 + lo
bit_or-bytes_swapped hi lo h = bit_or_comm lo (hi * 256) ∙ bit_or-high_low 8 hi lo h
