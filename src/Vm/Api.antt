-- ===== src/Vm/Api.antt =====
-- The calls of the host by which a contract computes with 64-bit amounts, and the reading of their
-- parameters (src/vm/vm8051.cpp, from `GetParaLen` to `ExInt64DivFunc`, and `CallExternalFunc`).
use dacrs.Base.{
  ℕ, zero, suc, ◌+◌, ◌-◌, ◌*◌, ◌/◌, ◌%◌, ◌^◌, Bool, ◌&&◌, ◌||◌, Option, none, some, List, [], ◌∷◌,
  length, get_or, ltb, leb, ◌==◌, if◌then◌else◌,
}
use dacrs.Base.Int.{ℤ, pos}
use dacrs.Base.Words.{Mem}

-- The int of a RET_DEFINE: 0, 1 or -1.
pub data Status : Type 0 where
  failed done aborted : Status

pub record RetDefine : Type 0 where
  pub status : Status
  pub step : ℤ
  pub results : List (List ℕ)

-- `RetFalse`
unfoldable pub ret_false : RetDefine
ret_false = record { status = failed; step = pos 0; results = [] }

-- `std::make_tuple(true, 0, tem)` for one result.
unfoldable pub ret_one : List ℕ → RetDefine
ret_one bytes = record { status = done; step = pos 0; results = bytes ∷ [] }

-- Two bytes at an address, low byte first.
unfoldable pub get_para_len : Mem → ℕ → ℕ
get_para_len m at = m at + 256 * m (at + 1)

-- `vector(ipara, ipara + length)`
unfoldable pub read_bytes : ℕ → Mem → ℕ → List ℕ
read_bytes zero m at = []
read_bytes (suc n) m at = m at ∷ read_bytes n m (at + 1)

abbrev prepend : List ℕ → Option (List (List ℕ)) → Option (List (List ℕ))
prepend x none = none
prepend x (some xs) = some (x ∷ xs)

-- The loop of `GetData`; every round takes three bytes at least, so `totallen` rounds are enough.
unfoldable pub get_items : ℕ → Mem → ℕ → ℕ → Option (List (List ℕ))
unfolding get_para_len read_bytes
get_items fuel m at zero = some []
get_items zero m at (suc t) = none
get_items (suc fuel) m at (suc t) =
    let size = get_para_len m at in
    let rest = get_items fuel m (at + 2 + size) (suc t - (size + 2)) in
    if size == 0 || ltb (suc t) (size + 2) then none else prepend (read_bytes size m (at + 2)) rest

-- 4096 is MAX_SHARE_RAM.
unfoldable pub get_data : Mem → ℕ → Option (List (List ℕ))
unfolding get_items
get_data m at =
    let totallen = get_para_len m at in
    if totallen == 0 || leb 4096 totallen then none else get_items totallen m (at + 2) totallen

-- An int64_t is its bit pattern, below 2 ^ 64. Eight bytes, low byte first.
unfoldable pub word_of : List ℕ → ℕ
word_of [] = 0
word_of (b ∷ bs) = b + 256 * word_of bs

unfoldable pub bytes_of : ℕ → ℕ → List ℕ
bytes_of zero w = []
bytes_of (suc n) w = w % 256 ∷ bytes_of n (w / 256)

abbrev pub int64_mod : ℕ
int64_mod = 2 ^ 64

abbrev pub is_negative : ℕ → Bool
is_negative w = leb (2 ^ 63) w

-- The two operands of the arithmetic calls, or the parameter error.
unfoldable pub int64_operands : Option (List (List ℕ)) → Option (ℕ × ℕ)
unfolding word_of
int64_operands none = none
int64_operands (some []) = none
int64_operands (some (x ∷ [])) = none
int64_operands (some (x ∷ y ∷ z ∷ rest)) = none
int64_operands (some (x ∷ y ∷ [])) =
    if length x == 8 && length y == 8 then some (word_of x, word_of y) else none

-- Signed order: the sign bits are exchanged.
abbrev pub signed_ltb : ℕ → ℕ → Bool
signed_ltb a b = ltb ((a + 2 ^ 63) % 2 ^ 64) ((b + 2 ^ 63) % 2 ^ 64)

unfoldable pub int64_comp : ℕ → ℕ → ℕ
int64_comp m1 m2 = if signed_ltb m2 m1 then 2 else (if m1 == m2 then 0 else 1)

-- The wrap-around that two's complement gives.
unfoldable pub int64_mull : ℕ → ℕ → ℕ
int64_mull m1 m2 = m1 * m2 % int64_mod

unfoldable pub int64_add : ℕ → ℕ → ℕ
int64_add m1 m2 = (m1 + m2) % int64_mod

unfoldable pub int64_sub : ℕ → ℕ → ℕ
int64_sub m1 m2 = (m1 + int64_mod - m2) % int64_mod

abbrev pub magnitude : ℕ → ℕ
magnitude w = if is_negative w then int64_mod - w else w

abbrev pub negate : ℕ → ℕ
negate w = (int64_mod - w) % int64_mod

-- Truncated towards zero.
unfoldable pub int64_div : ℕ → ℕ → ℕ
int64_div m1 m2 =
    let q = magnitude m1 / magnitude m2 in
    if is_negative m1
    then (if is_negative m2 then q else negate q)
    else (if is_negative m2 then negate q else q)

abbrev with_operands : (ℕ → ℕ → Option RetDefine) → Option (ℕ × ℕ) → Option RetDefine
with_operands f none = some ret_false
with_operands f (some (m1, m2)) = f m1 m2

unfoldable pub ex_int64_comp_func : Mem → ℕ → Option RetDefine
unfolding get_data int64_operands int64_comp ret_false ret_one
ex_int64_comp_func m at =
    with_operands (λ m1 m2. some (ret_one (int64_comp m1 m2 ∷ []))) (int64_operands (get_data m at))

unfoldable pub ex_int64_mull_func : Mem → ℕ → Option RetDefine
unfolding get_data int64_operands int64_mull bytes_of ret_false ret_one
ex_int64_mull_func m at =
    with_operands (λ m1 m2. some (ret_one (bytes_of 8 (int64_mull m1 m2))))
      (int64_operands (get_data m at))

unfoldable pub ex_int64_add_func : Mem → ℕ → Option RetDefine
unfolding get_data int64_operands int64_add bytes_of ret_false ret_one
ex_int64_add_func m at =
    with_operands (λ m1 m2. some (ret_one (bytes_of 8 (int64_add m1 m2))))
      (int64_operands (get_data m at))

unfoldable pub ex_int64_sub_func : Mem → ℕ → Option RetDefine
unfolding get_data int64_operands int64_sub bytes_of ret_false ret_one
ex_int64_sub_func m at =
    with_operands (λ m1 m2. some (ret_one (bytes_of 8 (int64_sub m1 m2))))
      (int64_operands (get_data m at))

-- A divisor of 0 is refused; the quotient of -2 ^ 63 by -1 does not exist, and the division traps.
unfoldable pub ex_int64_div_func : Mem → ℕ → Option RetDefine
unfolding get_data int64_operands int64_div bytes_of ret_false ret_one
ex_int64_div_func m at =
    with_operands
      (λ m1 m2.
        if m2 == 0
        then some ret_false
        else (if m1 == 2 ^ 63 && m2 == int64_mod - 1
            then none
            else some (ret_one (bytes_of 8 (int64_div m1 m2)))))
      (int64_operands (get_data m at))

-- The five functions at the head of `FunMap`.
unfoldable pub amount_funcs : List (Mem → ℕ → Option RetDefine)
amount_funcs =
    ex_int64_comp_func ∷ ex_int64_mull_func ∷ ex_int64_add_func ∷ ex_int64_sub_func
    ∷ ex_int64_div_func ∷ []

abbrev with_env : {E : Type 0} → E → Option RetDefine → Option (RetDefine × E)
with_env env none = none
with_env env (some r) = some (r, env)

-- `FunMap[method].fun(ipara, pVmEvn)`; `other` stands for the functions from SHA256_FUNC on, and
-- for what an index past the table does.
unfoldable pub call_external_func :
    {E : Type 0} → (ℕ → Mem → E → Option (RetDefine × E)) → ℕ → Mem → E → Option (RetDefine × E)
unfolding amount_funcs
call_external_func other method m env =
    if ltb method 5
    then with_env env (get_or amount_funcs method (λ _ _. none) m 0xEFFF)
    else other method m env
