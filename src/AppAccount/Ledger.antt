-- ===== src/AppAccount/Ledger.antt =====
-- What an account promises, without its list of funds: the free money, and the frozen money under
-- each tag and height (for the operations of src/vm/appaccount.cpp).
use dacrs.Base.{
  ℕ, ◌+◌, ◌-◌, ◌^◌, ◌≤◌, ◌<◌, Bool, true, false, Option, none, some, List, ◌≡◌, sym, ap, ap₂, ◌∙◌,
  arith, if◌then◌else◌, Bool-cases, inl, inr, ◌⊎◌, fun_ext,
}
use dacrs.Base.Int.{ℤ}
use dacrs.AppAccount.Fund.{
  AppCFund, AppFundOperate, same_key, fund_of, get_uint64_value, em_add_free_op, em_sub_free_op,
  em_add_tag_op, em_sub_tag_op,
}
use dacrs.AppAccount.Keys.{same_key-tag, same_key-height}
use dacrs.AppAccount.Account.{AppUserAccout, get_app_cfund}

pub record Ledger : Type 0 where
  pub free : ℕ
  pub frozen : List ℕ → ℤ → ℕ

abbrev pub value_or_zero : Option AppCFund → ℕ
value_or_zero none = 0
value_or_zero (some it) = it.value

abbrev pub frozen_at : AppUserAccout → List ℕ → ℤ → ℕ
frozen_at acc tag height = value_or_zero (get_app_cfund tag height acc)

-- The account with the order of its funds, and the empty ones among them, forgotten.
abbrev pub ledger_of : AppUserAccout → Ledger
ledger_of acc = record { free = acc.values; frozen = frozen_at acc }

-- The frozen money with a fund on top.
abbrev pub credit : AppCFund → (List ℕ → ℤ → ℕ) → List ℕ → ℤ → ℕ
credit fund frozen tag height =
    frozen tag height + (if same_key tag height fund then fund.value else 0)

-- What an operation may do to a ledger, and when it is refused.
pub data Posted (op : AppFundOperate) (l : Ledger) : Bool → Ledger → Type 0 where
  free_in :
      op.opeator_type ≡ em_add_free_op
      → l.free + get_uint64_value op < 2 ^ 64
      → Posted op l true (record { free = l.free + get_uint64_value op; frozen = l.frozen })
  free_full :
      op.opeator_type ≡ em_add_free_op → 2 ^ 64 ≤ l.free + get_uint64_value op → Posted op l false l
  free_out :
      op.opeator_type ≡ em_sub_free_op
      → get_uint64_value op ≤ l.free
      → Posted op l true (record { free = l.free - get_uint64_value op; frozen = l.frozen })
  free_short : op.opeator_type ≡ em_sub_free_op → l.free < get_uint64_value op → Posted op l false l
  frozen_in :
      op.opeator_type ≡ em_add_tag_op
      → (fund : AppCFund) → fund_of op ≡ some fund
      → Posted op l true (record { free = l.free; frozen = credit fund l.frozen })
  frozen_full :
      op.opeator_type ≡ em_add_tag_op
      → (fund : AppCFund) → fund_of op ≡ some fund
      → 2 ^ 64 ≤ fund.value + l.frozen fund.tag fund.height
      → Posted op l true l
  frozen_out :
      op.opeator_type ≡ em_sub_tag_op
      → (fund : AppCFund) → fund_of op ≡ some fund
      → (rest : List ℕ → ℤ → ℕ) → l.frozen ≡ credit fund rest
      → Posted op l true (record { free = l.free; frozen = rest })
  frozen_short :
      op.opeator_type ≡ em_sub_tag_op
      → (fund : AppCFund) → fund_of op ≡ some fund
      → (l.frozen fund.tag fund.height < fund.value) ⊎ (l.frozen fund.tag fund.height ≡ 0)
      → Posted op l false l
  unknown : (op.opeator_type ≡ 0) ⊎ (em_sub_tag_op < op.opeator_type) → Posted op l false l

-- An entry under the key of a fund is the entry under the fund's own tag and height.
frozen_at-key :
    (acc : AppUserAccout) (fund : AppCFund) (t : List ℕ) (h : ℤ)
    → same_key t h fund ≡ true
    → frozen_at acc t h ≡ frozen_at acc fund.tag fund.height
frozen_at-key acc fund t h hit =
    sym (ap₂ (frozen_at acc) (same_key-tag t h fund hit) (same_key-height t h fund hit))

-- Two accounts that differ under one key differ by a credit.
pub credited :
    (fund : AppCFund) (less more : AppUserAccout)
    → frozen_at more fund.tag fund.height ≡ frozen_at less fund.tag fund.height + fund.value
    → ((t : List ℕ) (h : ℤ)
        → same_key t h fund ≡ false
        → get_app_cfund t h more ≡ get_app_cfund t h less)
    → frozen_at more ≡ credit fund (frozen_at less)
credited fund less more own other = fun_ext (λ t. fun_ext (λ h. entry t h))
  where
    entry : (t : List ℕ) (h : ℤ) → frozen_at more t h ≡ credit fund (frozen_at less) t h
    entry t h = elim (Bool-cases (same_key t h fund)) [
      | inl e ↦ rw e (
          frozen_at-key more fund t h e
          ∙ own
          ∙ ap (λ n. n + fund.value) (sym (frozen_at-key less fund t h e)))
      | inr e ↦ rw e (ap value_or_zero (other t h e) ∙ omega arith)
    ]
