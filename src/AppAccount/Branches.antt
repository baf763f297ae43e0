-- ===== src/AppAccount/Branches.antt =====
-- The branches of `AddAppCFund`, `MinusAppCFund` and the operations on free money, as relations
-- between the arguments and the outcome (src/vm/appaccount.cpp).
use dacrs.Base.{
  ◌+◌, ◌-◌, ◌^◌, ◌≤◌, ◌<◌, Bool, true, false, Option, none, some, [], ◌∷◌, ◌++◌, ◌≡◌, sym, ap, ap₂,
  ◌∙◌, arith, ltb, leb, ◌==◌, Bool-cases, Option-cases, inl, inr, ◌⊎◌,
}
use dacrs.Base.Int.{pos, ltb_ℤ}
use dacrs.Base.Checked.{CheckedAdd}
use dacrs.AppAccount.Fund.{
  AppFundOperate, em_add_free_op, em_sub_free_op, em_add_tag_op, em_sub_tag_op, get_uint64_value,
  fund_of, AppCFund, same_key, merge_cfund,
}
use dacrs.AppAccount.Keys.{
  find_if-passes, replace_first-same, same_key-tag, same_key-height, same_key_of,
}
use dacrs.AppAccount.Account.{
  AppUserAccout, Outcome, get_app_cfund, put_funds, add_app_cfund, minus_app_cfund, add_free,
  sub_free, operate,
}

-- What holds of the result and the account, if the program goes on.
abbrev pub Holds : (Bool → AppUserAccout → Type 0) → Outcome → Type 0
Holds P none = Unit
Holds P (some (ok, acc)) = P ok acc

pub Holds-map :
    {P Q : Bool → AppUserAccout → Type 0} (o : Outcome)
    → ((ok : Bool) (acc : AppUserAccout) → P ok acc → Q ok acc)
    → Holds P o
    → Holds Q o
Holds-map none step h = tt
Holds-map (some (ok, acc)) step h = step ok acc h

module _ (fund : AppCFund) (acc : AppUserAccout) where
  abbrev found : Option AppCFund
  found = get_app_cfund fund.tag fund.height acc

  pub data Added : Outcome → Type 0 where
    fresh :
        found ≡ none
        → Added (some (true, record acc { freezed_fund = acc.freezed_fund ++ fund ∷ [] }))
    joined :
        (it : AppCFund)
        → found ≡ some it
        → fund.value + it.value < 2 ^ 64
        → Added (some (true, put_funds fund (record it { value = fund.value + it.value } ∷ []) acc))
    dropped :
        (it : AppCFund)
        → found ≡ some it
        → 2 ^ 64 ≤ fund.value + it.value
        → Added (some (true, acc))
    refused_zero : (it : AppCFund) → found ≡ some it → fund.value ≡ 0 → Added none

  pub data Deducted : Outcome → Type 0 where
    missing : found ≡ none → Deducted (some (false, acc))
    too_little :
        (it : AppCFund) → found ≡ some it → it.value < fund.value → Deducted (some (false, acc))
    used_up :
        (it : AppCFund)
        → found ≡ some it
        → it.value ≡ fund.value
        → Deducted (some (true, put_funds fund [] acc))
    left :
        (it : AppCFund)
        → found ≡ some it
        → fund.value < it.value
        → Deducted
            (some (true, put_funds fund (record it { value = it.value - fund.value } ∷ []) acc))
    refused_height : ltb_ℤ (pos 0) fund.height ≡ false → Deducted none

-- The fund that is found has the tag and the height that are searched for.
pub found-same_key :
    (fund it : AppCFund) (acc : AppUserAccout)
    → get_app_cfund fund.tag fund.height acc ≡ some it
    → same_key fund.tag fund.height it ≡ true
unfolding get_app_cfund
found-same_key fund it acc h = find_if-passes (same_key fund.tag fund.height) acc.freezed_fund it h

put_funds-same :
    (fund it : AppCFund) (acc : AppUserAccout)
    → get_app_cfund fund.tag fund.height acc ≡ some it
    → put_funds fund (it ∷ []) acc ≡ acc
unfolding get_app_cfund put_funds
put_funds-same fund it acc h =
    ap (λ fs. record acc { freezed_fund = fs })
      (replace_first-same (same_key fund.tag fund.height) acc.freezed_fund it h)

merge_test :
    (fund it : AppCFund)
    → same_key fund.tag fund.height it ≡ true
    → same_key it.tag it.height fund ≡ true
merge_test fund it h =
    same_key_of it.tag it.height fund (sym (same_key-tag fund.tag fund.height it h))
      (sym (same_key-height fund.tag fund.height it h))

module _ (checked : CheckedAdd) where
  -- `AddAppCFund`, branch by branch.
  pub add_app_cfund-Added :
      (fund : AppCFund) (acc : AppUserAccout) → Added fund acc (add_app_cfund checked fund acc)
  unfolding add_app_cfund merge_cfund
  add_app_cfund-Added fund acc = elim (Option-cases (get_app_cfund fund.tag fund.height acc)) [
    | inl e ↦ rw (add_app_cfund, e) (fresh e)
    | inr (it, e) ↦ elim (Bool-cases (ltb 0 fund.value)) [
      | inr z ↦
          rw (add_app_cfund, e, merge_cfund, merge_test fund it (found-same_key fund it acc e), z)
            (refused_zero it e (ground arith))
      | inl z ↦ elim (Bool-cases (ltb (fund.value + it.value) (2 ^ 64))) [
        | inl b ↦
            rw
              (
                add_app_cfund,
                e,
                merge_cfund,
                merge_test fund it (found-same_key fund it acc e),
                z,
                checked.fits fund.value it.value (ground arith),
              )
              (joined it e (ground arith))
        | inr b ↦
            rw
              (
                add_app_cfund,
                e,
                merge_cfund,
                merge_test fund it (found-same_key fund it acc e),
                z,
                checked.overflows fund.value it.value (ground arith),
                put_funds-same fund it acc e,
              )
              (dropped it e (ground arith))
      ]
    ]
  ]

-- `MinusAppCFund`, branch by branch.
pub minus_app_cfund-Deducted :
    (fund : AppCFund) (acc : AppUserAccout) → Deducted fund acc (minus_app_cfund fund acc)
unfolding minus_app_cfund
minus_app_cfund-Deducted fund acc = elim (Bool-cases (ltb_ℤ (pos 0) fund.height)) [
  | inr z ↦ rw (minus_app_cfund, z) (refused_height z)
  | inl z ↦ elim (Option-cases (get_app_cfund fund.tag fund.height acc)) [
    | inl e ↦ rw (minus_app_cfund, z, e) (missing e)
    | inr (it, e) ↦ elim (Bool-cases (leb fund.value it.value)) [
      | inr b ↦ rw (minus_app_cfund, z, e, b) (too_little it e (ground arith))
      | inl b ↦ elim (Bool-cases (it.value == fund.value)) [
        | inl c ↦ rw (minus_app_cfund, z, e, b, c) (used_up it e (ground arith))
        | inr c ↦ rw (minus_app_cfund, z, e, b, c) (left it e (ground arith))
      ]
    ]
  ]
]

-- The fund that is found is found under its own key.
pub found-own_key :
    (fund it : AppCFund) (acc : AppUserAccout)
    → get_app_cfund fund.tag fund.height acc ≡ some it
    → get_app_cfund it.tag it.height acc ≡ some it
found-own_key fund it acc h =
    let hit = found-same_key fund it acc h in
    ap₂ (λ t k. get_app_cfund t k acc) (same_key-tag fund.tag fund.height it hit)
      (same_key-height fund.tag fund.height it hit)
    ∙ h

-- `Operate(const CAppFundOperate &)`: what each type of operation calls.
module _ (checked : CheckedAdd) where
  pub data Dispatched (op : AppFundOperate) (acc : AppUserAccout) : Outcome → Type 0 where
    to_free :
        op.opeator_type ≡ em_add_free_op
        → Dispatched op acc (some (add_free checked (get_uint64_value op) acc))
    from_free :
        op.opeator_type ≡ em_sub_free_op
        → Dispatched op acc (some (sub_free checked (get_uint64_value op) acc))
    to_fund :
        op.opeator_type ≡ em_add_tag_op
        → (fund : AppCFund) → fund_of op ≡ some fund
        → Dispatched op acc (add_app_cfund checked fund acc)
    from_fund :
        op.opeator_type ≡ em_sub_tag_op
        → (fund : AppCFund) → fund_of op ≡ some fund
        → Dispatched op acc (minus_app_cfund fund acc)
    bad_fund : fund_of op ≡ none → Dispatched op acc none
    unknown_type :
        (op.opeator_type ≡ 0) ⊎ (em_sub_tag_op < op.opeator_type)
        → Dispatched op acc (some (false, acc))

  pub operate-Dispatched :
      (op : AppFundOperate) (acc : AppUserAccout) → Dispatched op acc (operate checked op acc)
  unfolding operate
  operate-Dispatched op acc = elim (Bool-cases (op.opeator_type == em_add_free_op)) [
    | inl a ↦ rw (operate, a) (to_free (ground arith))
    | inr a ↦ elim (Bool-cases (op.opeator_type == em_sub_free_op)) [
      | inl b ↦ rw (operate, a, b) (from_free (ground arith))
      | inr b ↦ elim (Bool-cases (op.opeator_type == em_add_tag_op)) [
        | inl c ↦ elim (Option-cases (fund_of op)) [
          | inl e ↦ rw (operate, a, b, c, e) (bad_fund e)
          | inr (fund, e) ↦ rw (operate, a, b, c, e) (to_fund (ground arith) fund e)
        ]
        | inr c ↦ elim (Bool-cases (op.opeator_type == em_sub_tag_op)) [
          | inl d ↦ elim (Option-cases (fund_of op)) [
            | inl e ↦ rw (operate, a, b, c, d, e) (bad_fund e)
            | inr (fund, e) ↦ rw (operate, a, b, c, d, e) (from_fund (ground arith) fund e)
          ]
          | inr d ↦ rw (operate, a, b, c, d) (unknown_type (ground arith))
        ]
      ]
    ]
  ]
