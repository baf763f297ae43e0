-- ===== src/AppAccount/Refinement.antt =====
-- The operations of src/vm/appaccount.cpp against the description of an account as a ledger.
use dacrs.Base.{
  ◌+◌, ◌-◌, ◌^◌, Bool, true, none, some, [], ◌∷◌, ◌≡◌, refl, sym, ap, ◌∙◌, arith, ltb, leb,
  Bool-cases, inl, inr,
}
use dacrs.Base.Checked.{CheckedAdd}
use dacrs.AppAccount.Fund.{
  AppCFund, AppFundOperate, find_if, same_key, fund_of, get_uint64_value, em_add_free_op,
  em_sub_free_op, em_add_tag_op, em_sub_tag_op,
}
use dacrs.AppAccount.Keys.{Unique}
use dacrs.AppAccount.Account.{
  AppUserAccout, Outcome, get_app_cfund, put_funds, add_free, sub_free, operate,
}
use dacrs.AppAccount.Branches.{
  Holds, Added, fresh, joined, dropped, refused_zero, Deducted, missing, too_little, used_up, left,
  refused_height, found-same_key, add_app_cfund-Added, minus_app_cfund-Deducted, Dispatched,
  to_free, from_free, to_fund, from_fund, bad_fund, unknown_type, operate-Dispatched,
}
use dacrs.AppAccount.Lookup.{
  get_app_cfund-replaced, get_app_cfund-erased, get_app_cfund-appended,
  get_app_cfund-replaced_other, get_app_cfund-put_other, get_app_cfund-appended_other,
}
use dacrs.AppAccount.Validity.{IsValid}
use dacrs.AppAccount.Ledger.{
  Posted, free_in, free_full, free_out, free_short, frozen_in, frozen_full, frozen_out,
  frozen_short, unknown, ledger_of, frozen_at, credit, credited, value_or_zero,
}

-- The account afterwards, seen as a ledger, is what the operation may leave.
abbrev pub Posts : AppFundOperate → AppUserAccout → Bool → AppUserAccout → Type 0
Posts op acc ok acc' = Posted op (ledger_of acc) ok (ledger_of acc')

module _ (op : AppFundOperate) (fund : AppCFund) (acc : AppUserAccout)
    (of_op : fund_of op ≡ some fund) where
  frozen_at-found :
      (it : AppCFund)
      → get_app_cfund fund.tag fund.height acc ≡ some it
      → frozen_at acc fund.tag fund.height ≡ it.value
  frozen_at-found it e = ap value_or_zero e

  frozen_at-missing :
      get_app_cfund fund.tag fund.height acc ≡ none → frozen_at acc fund.tag fund.height ≡ 0
  frozen_at-missing e = ap value_or_zero e

  credit-Posted :
      (acc' : AppUserAccout)
      → op.opeator_type ≡ em_add_tag_op
      → acc'.values ≡ acc.values
      → frozen_at acc' ≡ credit fund (frozen_at acc)
      → Posts op acc true acc'
  unfolding get_app_cfund
  credit-Posted acc' kind free frozen = rw (free, frozen) (frozen_in kind fund of_op)

  Added-Posted :
      (o : Outcome) → op.opeator_type ≡ em_add_tag_op → Added fund acc o → Holds (Posts op acc) o
  unfolding put_funds same_key
  Added-Posted _ kind (fresh e) = credit-Posted _ kind refl (
      credited fund acc _
        (ap value_or_zero (get_app_cfund-appended fund acc e) ∙ omega (arith, frozen_at-missing e))
        (λ t h miss. get_app_cfund-appended_other fund acc t h miss))
  Added-Posted _ kind (joined it e fits) = credit-Posted _ kind refl (
      credited fund acc _
        (ap value_or_zero (get_app_cfund-replaced fund acc _ it e (found-same_key fund it acc e))
          ∙ omega (arith, frozen_at-found it e))
        (λ t h miss.
          get_app_cfund-replaced_other fund acc t h miss _ (found-same_key fund it acc e)))
  Added-Posted _ kind (dropped it e over) =
      frozen_full kind fund of_op (omega (arith, ap value_or_zero e))
  Added-Posted _ kind (refused_zero it e z) = tt

  Deducted-Posted :
      (o : Outcome)
      → op.opeator_type ≡ em_sub_tag_op
      → Unique acc.freezed_fund
      → Deducted fund acc o
      → Holds (Posts op acc) o
  unfolding put_funds find_if same_key
  Deducted-Posted _ kind u (missing e) = frozen_short kind fund of_op (inr (ap value_or_zero e))
  Deducted-Posted _ kind u (too_little it e less) =
      frozen_short kind fund of_op (inl (omega (arith, ap value_or_zero e)))
  Deducted-Posted _ kind u (used_up it e same) = frozen_out kind fund of_op _ (
      credited fund (put_funds fund [] acc) acc
        (ap value_or_zero e
          ∙ same
          ∙ omega (arith, ap value_or_zero (get_app_cfund-erased fund acc u)))
        (λ t h miss. sym (get_app_cfund-put_other fund acc t h miss [] refl)))
  Deducted-Posted _ kind u (left it e less) = frozen_out kind fund of_op _ (
      credited fund (put_funds fund (record it { value = it.value - fund.value } ∷ []) acc) acc
        (omega (
          arith,
          ap value_or_zero e,
          ap value_or_zero (
              get_app_cfund-replaced fund acc (record it { value = it.value - fund.value }) it e
                (found-same_key fund it acc e)),
        ))
        (λ t h miss.
          sym (get_app_cfund-replaced_other fund acc t h miss _ (found-same_key fund it acc e))))
  Deducted-Posted _ kind u (refused_height e) = tt

module _ (checked : CheckedAdd) where
  add_free-Posted :
      (op : AppFundOperate) (acc : AppUserAccout)
      → op.opeator_type ≡ em_add_free_op
      → Holds (Posts op acc) (some (add_free checked (get_uint64_value op) acc))
  unfolding add_free get_app_cfund
  add_free-Posted op acc kind =
      elim (Bool-cases (ltb (acc.values + get_uint64_value op) (2 ^ 64))) [
        | inl b ↦
            rw (add_free, checked.fits acc.values (get_uint64_value op) (ground arith))
              (free_in kind (ground arith))
        | inr b ↦
            rw (add_free, checked.overflows acc.values (get_uint64_value op) (ground arith))
              (free_full kind (ground arith))
      ]

  sub_free-Posted :
      (op : AppFundOperate) (acc : AppUserAccout)
      → op.opeator_type ≡ em_sub_free_op
      → Holds (Posts op acc) (some (sub_free checked (get_uint64_value op) acc))
  unfolding sub_free get_app_cfund
  sub_free-Posted op acc kind = elim (Bool-cases (leb (get_uint64_value op) acc.values)) [
    | inl b ↦ rw (sub_free, b) (free_out kind (ground arith))
    | inr b ↦ rw (sub_free, b) (free_short kind (ground arith))
  ]

  -- On an account without two funds of one tag and height, `Operate` does to the free money and to
  -- the frozen money under every tag and height what the ledger allows for its operation.
  pub operate-Posted :
      (op : AppFundOperate) (acc : AppUserAccout)
      → IsValid acc
      → Holds (Posts op acc) (operate checked op acc)
  operate-Posted op acc valid = dispatched-Posts op acc _ valid (operate-Dispatched checked op acc)
    where
      dispatched-Posts :
          (op' : AppFundOperate) (acc' : AppUserAccout) (o : Outcome)
          → IsValid acc'
          → Dispatched checked op' acc' o
          → Holds (Posts op' acc') o
      dispatched-Posts op' acc' _ valid' (to_free kind) = add_free-Posted op' acc' kind
      dispatched-Posts op' acc' _ valid' (from_free kind) = sub_free-Posted op' acc' kind
      dispatched-Posts op' acc' _ valid' (to_fund kind fund e) =
          Added-Posted op' fund acc' e _ kind (add_app_cfund-Added checked fund acc')
      dispatched-Posts op' acc' _ valid' (from_fund kind fund e) =
          Deducted-Posted op' fund acc' e _ kind valid'.unique (minus_app_cfund-Deducted fund acc')
      dispatched-Posts op' acc' _ valid' (bad_fund e) = tt
      dispatched-Posts op' acc' _ valid' (unknown_type kind) = unknown kind
