-- ===== src/AppAccount/Totality.antt =====
-- When no assertion of an operation fails (src/vm/appaccount.cpp: `Operate`).
use dacrs.Base.{
  ◌^◌, ◌≤◌, ◌<◌, Bool, true, none, some, ◌≡◌, refl, sym, ◌∙◌, arith, ltb, leb, Bool-cases, inl, inr,
  ◌⊎◌,
}
use mathlib.Core.Option.{none-ne-some}
use dacrs.Base.Int.{pos, ltb_ℤ}
use dacrs.Base.Checked.{CheckedAdd}
use dacrs.AppAccount.Fund.{
  same_key, merge_cfund, AppCFund, AppFundOperate, fund_of, get_fund_tag_v, get_uint64_value,
  max_tag_size, em_add_tag_op, em_sub_tag_op,
}
use dacrs.AppAccount.Account.{AppUserAccout, Outcome, get_app_cfund, add_app_cfund, operate}
use dacrs.AppAccount.Branches.{
  Added, fresh, joined, dropped, refused_zero, Deducted, missing, too_little, used_up, left,
  refused_height, add_app_cfund-Added, minus_app_cfund-Deducted, Dispatched, to_free, from_free,
  to_fund, from_fund, bad_fund, unknown_type, operate-Dispatched,
}
use dacrs.AppAccount.Money.{fund_of-value}

-- The tag is inside its array, the height is a positive int, and there is an amount.
pub record IsFormed (op : AppFundOperate) : Type 0 where
  pub tag : op.fund_taglen ≤ max_tag_size
  pub positive : 0 < op.out_height
  pub small : op.out_height < 2 ^ 31
  pub amount : 0 < get_uint64_value op

abbrev pub Returns : Outcome → Type 0
Returns o = (r : Bool × AppUserAccout) × (o ≡ some r)

fund_of-IsFormed :
    (op : AppFundOperate) → IsFormed op → (fund : AppCFund) × (fund_of op ≡ some fund)
unfolding fund_of get_fund_tag_v
fund_of-IsFormed op formed = rw (fund_of, positive, get_fund_tag_v, tagged) (_, refl)
  where
    positive : ltb 0 op.out_height ≡ true
    positive = ground arith

    tagged : leb op.fund_taglen max_tag_size ≡ true
    tagged = ground arith

fund_of-height :
    (op : AppFundOperate) (fund : AppCFund)
    → IsFormed op
    → fund_of op ≡ some fund
    → ltb_ℤ (pos 0) fund.height ≡ true
unfolding fund_of get_fund_tag_v
fund_of-height op fund formed e = ground arith

module _ (checked : CheckedAdd) where
  -- An operation on a tag that fits its array, at a height from 1 to 2 ^ 31 - 1 and with an amount
  -- that is not 0, fails no assertion, on any account.
  pub operate-Returns :
      (op : AppFundOperate) (acc : AppUserAccout) → IsFormed op → Returns (operate checked op acc)
  operate-Returns op acc formed = dispatched _ (operate-Dispatched checked op acc)
    where
      added :
          (fund : AppCFund) (o : Outcome) → fund_of op ≡ some fund → Added fund acc o → Returns o
      added fund _ e (fresh f) = (_, refl)
      added fund _ e (joined it f fits) = (_, refl)
      added fund _ e (dropped it f over) = (_, refl)
      added fund _ e (refused_zero it f z) =
          absurd (omega (arith, formed.amount, fund_of-value op fund e))

      deducted :
          (fund : AppCFund) (o : Outcome) → fund_of op ≡ some fund → Deducted fund acc o → Returns o
      deducted fund _ e (missing f) = (_, refl)
      deducted fund _ e (too_little it f less) = (_, refl)
      deducted fund _ e (used_up it f same) = (_, refl)
      deducted fund _ e (left it f less) = (_, refl)
      deducted fund _ e (refused_height h) =
          let positive = fund_of-height op fund formed e in absurd (ground arith)

      dispatched : (o : Outcome) → Dispatched checked op acc o → Returns o
      dispatched _ (to_free kind) = (_, refl)
      dispatched _ (from_free kind) = (_, refl)
      dispatched _ (to_fund kind fund e) = added fund _ e (add_app_cfund-Added checked fund acc)
      dispatched _ (from_fund kind fund e) = deducted fund _ e (minus_app_cfund-Deducted fund acc)
      dispatched _ (bad_fund e) =
          let (fund, f) = fund_of-IsFormed op formed in absurd (none-ne-some fund (sym e ∙ f))
      dispatched _ (unknown_type kind) = (_, refl)

-- Operations that a contract can ask for and that fail an assertion.
pub data Aborts (op : AppFundOperate) (acc : AppUserAccout) : Type 0 where
  no_height :
      (op.opeator_type ≡ em_add_tag_op) ⊎ (op.opeator_type ≡ em_sub_tag_op)
      → op.out_height ≡ 0
      → Aborts op acc
  nothing_to_join :
      op.opeator_type ≡ em_add_tag_op
      → (fund it : AppCFund) → fund_of op ≡ some fund
      → get_app_cfund fund.tag fund.height acc ≡ some it
      → fund.value ≡ 0
      → Aborts op acc

no_height-none : (op : AppFundOperate) → op.out_height ≡ 0 → fund_of op ≡ none
unfolding fund_of
no_height-none op zero_height = ground arith

module _ (checked : CheckedAdd) where
  merge_cfund-none : (fund it : AppCFund) → fund.value ≡ 0 → merge_cfund checked it fund ≡ none
  unfolding merge_cfund
  merge_cfund-none fund it z = elim (Bool-cases (same_key it.tag it.height fund)) [
    | inl hit ↦ rw (merge_cfund, hit) (ground arith)
    | inr miss ↦ rw (merge_cfund, miss) refl
  ]

  -- An operation on a fund without a height, and one that adds nothing to a fund that is there,
  -- fails an assertion, which ends the program.
  pub operate-Aborts :
      (op : AppFundOperate) (acc : AppUserAccout) → Aborts op acc → operate checked op acc ≡ none
  unfolding operate add_app_cfund
  operate-Aborts op acc (no_height (inl kind) zero_height) =
      rw (operate, kind, no_height-none op zero_height) refl
  operate-Aborts op acc (no_height (inr kind) zero_height) =
      rw (operate, kind, no_height-none op zero_height) refl
  operate-Aborts op acc (nothing_to_join kind fund it e f z) =
      rw (operate, kind, e, add_app_cfund, f, merge_cfund-none fund it z) refl
