-- ===== src/RunEnv/Check.antt =====
-- The outputs of a contract and the check that they pass before they are applied
-- (src/vm/vmrunevn.cpp: `GetAccountID`, `CheckOperate`).
use dacrs.Base.{
  zero, suc, ℕ, Bool, false, not, ◌&&◌, ◌||◌, Option, none, some, List, [], ◌∷◌, ltb, ◌==◌,
  if◌then◌else◌, length,
}
use dacrs.Base.Checked.{CheckedAdd}
use dacrs.AppAccount.Fund.{take}
use dacrs.Vm.Api.{word_of}

-- CVmOperate: 34 bytes of an id, and 8 of an amount.
pub record VmOperate : Type 0 where
  pub nacc_type : ℕ
  pub account_id : List ℕ
  pub opeator_type : ℕ
  pub out_height : ℕ
  pub money : List ℕ

abbrev pub em_regid : ℕ
em_regid = 1

abbrev pub em_base_58_addr : ℕ
em_base_58_addr = 2

abbrev pub em_add_free : ℕ
em_add_free = 1

abbrev pub em_minus_free : ℕ
em_minus_free = 2

abbrev pub max_output_count : ℕ
max_output_count = 100

-- What the environment asks the views on accounts and contracts: the registered id of an address,
-- whether there is a contract under an id, and whether the key of an id is known.
pub record Views : Type 0 where
  pub get_reg_id : List ℕ → Option (List ℕ)
  pub have_script : List ℕ → Bool
  pub have_key : List ℕ → Bool

abbrev pub skip : ℕ → List ℕ → List ℕ
skip zero xs = xs
skip (suc n) [] = []
skip (suc n) (x ∷ xs) = skip n xs

-- `CRegID(vuchId)`: the height in four bytes and the index in two, low byte first.
abbrev pub reg_height : List ℕ → ℕ
reg_height vec = word_of (take 4 vec)

abbrev pub reg_index : List ℕ → ℕ
reg_index vec = word_of (skip 4 vec)

-- `CRegID::operator==`
unfoldable pub reg_eq : List ℕ → List ℕ → Bool
reg_eq a b = reg_height a == reg_height b && reg_index a == reg_index b

-- `CRegID::IsEmpty`
unfoldable pub reg_is_empty : List ℕ → Bool
reg_is_empty a = reg_height a == 0 && reg_index a == 0

module _ (views : Views) where
  unfoldable pub get_account_id : VmOperate → List ℕ
  get_account_id op =
      if op.nacc_type == em_regid
      then take 6 op.account_id
      else (if op.nacc_type == em_base_58_addr
          then elim (views.get_reg_id op.account_id) [
            | none ↦ take 34 op.account_id
            | some vec ↦ vec
          ]
          else [])

  module _ (checked : CheckedAdd) (des_user_id : List ℕ) where
    -- The two sums so far, of what is added and of what is taken.
    abbrev pub Sums : Type 0
    Sums = ℕ × ℕ

    abbrev add_to : ℕ → Option ℕ → Option Sums
    add_to minus none = none
    add_to minus (some sum) = some (sum, minus)

    abbrev minus_from : ℕ → Option ℕ → Option Sums
    minus_from add none = none
    minus_from add (some sum) = some (add, sum)

    -- The branches on the type of the operation.
    unfoldable pub count_money : VmOperate → Sums → Option Sums
    unfolding get_account_id reg_eq
    count_money op (add, minus) =
        let id = get_account_id op in
        let value = word_of op.money in
        if op.opeator_type == em_add_free
        then add_to minus (checked.safe_add add value)
        else (if op.opeator_type == em_minus_free
            then (if not (length id == 6) || (views.have_script id && not (reg_eq id des_user_id))
                then none
                else minus_from add (checked.safe_add minus value))
            else none)

    -- The test behind them: `false` is an early return.
    unfoldable pub id_passes : VmOperate → Bool
    unfolding get_account_id reg_is_empty
    id_passes op =
        let id = get_account_id op in
        not (length id == 6)
        || (not (reg_is_empty id || not (views.have_key id))
            && not (not (views.have_script id) && op.opeator_type == em_minus_free))

    -- One round of the loop.
    unfoldable pub check_one : VmOperate → Sums → Option Sums
    unfolding count_money id_passes
    check_one op sums =
        if op.nacc_type == em_regid || op.nacc_type == em_base_58_addr
        then (elim (count_money op sums) [
          | none ↦ none
          | some sums' ↦ if id_passes op then some sums' else none
        ])
        else none

    unfoldable pub check_loop : List VmOperate → Sums → Option Sums
    check_loop [] sums = some sums
    check_loop (op ∷ ops) sums = elim (check_one op sums) [
      | none ↦ none
      | some sums' ↦ check_loop ops sums'
    ]

    abbrev balanced : Option Sums → Bool
    balanced none = false
    balanced (some (add, minus)) = add == minus

    unfoldable pub check_operate : List VmOperate → Bool
    unfolding check_loop
    check_operate ops =
        if ltb max_output_count (length ops) then false else balanced (check_loop ops (0, 0))
