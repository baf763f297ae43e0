-- ===== src/Vm/Parity.antt =====
-- The parity flag behind a store to the accumulator (src/vm/vm8051.cpp: `Updata_A_P_Flag`).
use dacrs.Base.{ℕ, zero, suc, ◌+◌, ◌/◌, ◌%◌, ◌<◌, ◌≡◌, refl, arith, Bool, true, ◌==◌, ==_iff}
use dacrs.Base.Words.{bit_of, with_bit, passes_below, passes_below-all, int8u}
use dacrs.Vm.State.{Vm, sys_a, sys_psw, fold_parity, set_a}

-- The number of ones among the last `n` binary digits.
pub count_ones : ℕ → ℕ → ℕ
count_ones zero x = 0
count_ones (suc n) x = x % 2 + count_ones n (x / 2)

abbrev parity_agrees : ℕ → Bool
parity_agrees x = fold_parity x == count_ones 8 x % 2

all_parities : passes_below parity_agrees 256 ≡ true
unfolding fold_parity count_ones passes_below
all_parities = refl

fold_parity-count_ones : (x : ℕ) → x < 256 → fold_parity x ≡ count_ones 8 x % 2
fold_parity-count_ones x small =
    (==_iff (fold_parity x) (count_ones 8 x % 2)).0
      (passes_below-all parity_agrees 256 x small all_parities)

stored_bit : (psw c : ℕ) → psw < 256 → c < 2 → bit_of (int8u (with_bit psw 0 c)) 0 ≡ c
stored_bit psw c small bit = ground arith

-- Behind a store to the accumulator, bit 0 of PSW is the parity of the ones in it.
pub set_a-count_ones :
    (x : ℕ) (vm : Vm)
    → sys_psw vm < 256
    → bit_of (sys_psw (set_a x vm)) 0 ≡ count_ones 8 (sys_a (set_a x vm)) % 2
unfolding set_a
set_a-count_ones x vm small =
    rw (fold_parity-count_ones (int8u x) (omega arith))
      (stored_bit (sys_psw vm) (count_ones 8 (int8u x) % 2) small (omega arith))
