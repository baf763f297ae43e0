-- ===== src/AppAccount/Fund.antt =====
-- Frozen funds and the operations on accounts as data (src/vm/appaccount.h: CAppCFund and
-- CAppFundOperate), with the search for a fund.
use dacrs.Base.{
  ℕ, zero, suc, ◌+◌, ◌-◌, ◌^◌, Bool, true, false, ◌&&◌, Option, none, some, List, [], ◌∷◌, ◌++◌,
  ltb, leb, ◌==◌, if◌then◌else◌,
}
use dacrs.Base.Int.{ℤ, pos, negsuc, pos_part, neg_part}
use dacrs.Base.Checked.{CheckedAdd}

-- The height is an int, the value an uint64_t.
pub record AppCFund : Type 0 where
  pub value : ℕ
  pub height : ℤ
  pub tag : List ℕ

-- `uchFundTaglen` bytes of the array are the tag. The amount is an int64_t, the height an
-- unsigned int.
pub record AppFundOperate : Type 0 where
  pub opeator_type : ℕ
  pub out_height : ℕ
  pub money : ℤ
  pub fund_taglen : ℕ
  pub fund_tag : List ℕ

abbrev pub max_tag_size : ℕ
max_tag_size = 40

abbrev pub em_add_free_op : ℕ
em_add_free_op = 1

abbrev pub em_sub_free_op : ℕ
em_sub_free_op = 2

abbrev pub em_add_tag_op : ℕ
em_add_tag_op = 3

abbrev pub em_sub_tag_op : ℕ
em_sub_tag_op = 4

-- `(uint64_t) x` of an int64_t
abbrev pub to_uint64 : ℤ → ℕ
to_uint64 (pos n) = n
to_uint64 (negsuc n) = 2 ^ 64 - 1 - n

-- `(int) x` of an unsigned int
abbrev pub to_int : ℕ → ℤ
to_int x = if ltb x (2 ^ 31) then pos x else negsuc (2 ^ 32 - 1 - x)

unfoldable pub get_uint64_value : AppFundOperate → ℕ
get_uint64_value op = to_uint64 op.money

abbrev pub take : ℕ → List ℕ → List ℕ
take zero xs = []
take (suc n) [] = []
take (suc n) (x ∷ xs) = x ∷ take n xs

-- `none` stands for a failed assertion, which ends the program.
unfoldable pub get_fund_tag_v : AppFundOperate → Option (List ℕ)
get_fund_tag_v op =
    if leb op.fund_taglen max_tag_size then some (take op.fund_taglen op.fund_tag) else none

abbrev with_tag : AppFundOperate → Option (List ℕ) → Option AppCFund
with_tag op none = none
with_tag op (some tag) =
    some (record { value = get_uint64_value op; height = to_int op.out_height; tag = tag })

-- `CAppCFund(const CAppFundOperate &)`
unfoldable pub fund_of : AppFundOperate → Option AppCFund
unfolding get_fund_tag_v
fund_of op = if ltb 0 op.out_height then with_tag op (get_fund_tag_v op) else none

-- `==` on vectors of bytes
unfoldable pub bytes_eq : List ℕ → List ℕ → Bool
bytes_eq [] [] = true
bytes_eq [] (y ∷ ys) = false
bytes_eq (x ∷ xs) [] = false
bytes_eq (x ∷ xs) (y ∷ ys) = x == y && bytes_eq xs ys

abbrev pub eq_ℤ : ℤ → ℤ → Bool
eq_ℤ a b = pos_part a + neg_part b == pos_part b + neg_part a

-- The condition of each `find_if`: the same tag and the same height.
unfoldable pub same_key : List ℕ → ℤ → AppCFund → Bool
unfolding bytes_eq
same_key tag height fund = bytes_eq fund.tag tag && eq_ℤ fund.height height

-- The fund that `find_if` stops at.
unfoldable pub find_if : (AppCFund → Bool) → List AppCFund → Option AppCFund
find_if p [] = none
find_if p (f ∷ fs) = if p f then some f else find_if p fs

-- The fund that `find_if` stops at gives way to `news`: one fund where the code writes through the
-- iterator, none where it erases.
unfoldable pub replace_first : (AppCFund → Bool) → List AppCFund → List AppCFund → List AppCFund
replace_first p news [] = []
replace_first p news (f ∷ fs) = if p f then news ++ fs else f ∷ replace_first p news fs

module _ (checked : CheckedAdd) where
  abbrev merged : AppCFund → Option ℕ → Bool × AppCFund
  merged fund none = (false, fund)
  merged fund (some value) = (true, record fund { value = value })

  -- `it->MergeCFund(fund)`: the assertions, the result, and the fund at `it` afterwards.
  unfoldable pub merge_cfund : AppCFund → AppCFund → Option (Bool × AppCFund)
  unfolding same_key
  merge_cfund it fund =
      if same_key it.tag it.height fund && ltb 0 fund.value
      then some (merged it (checked.safe_add fund.value it.value))
      else none
