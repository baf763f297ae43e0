-- ===== src/Vm/Amounts.antt =====
-- The amount functions as arithmetic of signed numbers (src/vm/vm8051.cpp: `ExInt64AddFunc`,
-- `ExInt64SubFunc`, `ExInt64CompFunc`, `ExInt64DivFunc`).
use dacrs.Base.{ℕ, ◌^◌, ◌<◌, ◌≡◌, arith, if◌then◌else◌}
use dacrs.Base.Int.{◌+ℤ◌, ◌-ℤ◌, ltb_ℤ}
use dacrs.Base.Signed.{IsInt64}
use dacrs.Vm.Api.{int64_add, int64_sub, int64_comp}
use dacrs.Vm.Run.{to_int64}

-- The sum of two amounts, if it is an int64_t.
pub int64_add-to_int64 :
    (a b : ℕ)
    → a < 2 ^ 64
    → b < 2 ^ 64
    → IsInt64 (to_int64 a +ℤ to_int64 b)
    → to_int64 (int64_add a b) ≡ to_int64 a +ℤ to_int64 b
unfolding int64_add ◌+ℤ◌
int64_add-to_int64 a b ha hb fits = ground arith

-- The difference of two amounts, if it is an int64_t.
pub int64_sub-to_int64 :
    (a b : ℕ)
    → a < 2 ^ 64
    → b < 2 ^ 64
    → IsInt64 (to_int64 a -ℤ to_int64 b)
    → to_int64 (int64_sub a b) ≡ to_int64 a -ℤ to_int64 b
unfolding int64_sub ◌-ℤ◌
int64_sub-to_int64 a b ha hb fits = ground arith

-- The comparison of two amounts: 2 for a greater first one, 1 for a smaller one, 0 for equal ones.
pub int64_comp-to_int64 :
    (a b : ℕ)
    → a < 2 ^ 64
    → b < 2 ^ 64
    → int64_comp a b ≡ (
        if ltb_ℤ (to_int64 b) (to_int64 a)
        then 2
        else (if ltb_ℤ (to_int64 a) (to_int64 b) then 1 else 0))
unfolding int64_comp
int64_comp-to_int64 a b ha hb = ground arith
