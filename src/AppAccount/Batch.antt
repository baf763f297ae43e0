-- ===== src/AppAccount/Batch.antt =====
-- The operations of one account in a row (src/vm/appaccount.cpp: `Operate` on a vector).
use dacrs.Base.{
  ℕ, ◌+◌, ◌^◌, ◌≤◌, ◌<◌, Bool, true, false, none, some, List, [], ◌∷◌, ◌++◌, ◌≡◌, refl, sym, ap,
  subst, ◌∙◌, arith, if◌then◌else◌, ◌==◌, Bool-cases, inl, inr, ◌⊎◌, All,
}
use mathlib.Core.Option.{some-injective, none-ne-some}
use dacrs.Base.Checked.{CheckedAdd}
use dacrs.AppAccount.Fund.{
  AppCFund, AppFundOperate, find_if, get_uint64_value, em_add_free_op, em_sub_free_op,
  em_add_tag_op, em_sub_tag_op,
}
use dacrs.AppAccount.Account.{
  AppUserAccout, Outcome, get_app_cfund, operate, operate_loop, operate_all, sum_values,
}
use dacrs.AppAccount.Branches.{Holds, Holds-map}
use dacrs.AppAccount.Money.{
  total_money, Settled, unchanged, deposited, withdrawn, overflowed, operate-Settled,
}
use dacrs.AppAccount.Validity.{IsValid, Keeps, operate-IsValid}

-- The amount of an operation that adds, and of one that takes away.
abbrev pub paid_in : AppFundOperate → ℕ
paid_in op =
    if op.opeator_type == em_add_free_op
    then get_uint64_value op
    else (if op.opeator_type == em_add_tag_op then get_uint64_value op else 0)

abbrev pub paid_out : AppFundOperate → ℕ
paid_out op =
    if op.opeator_type == em_sub_free_op
    then get_uint64_value op
    else (if op.opeator_type == em_sub_tag_op then get_uint64_value op else 0)

unfoldable pub sum_of : (AppFundOperate → ℕ) → List AppFundOperate → ℕ
sum_of amount [] = 0
sum_of amount (op ∷ ops) = amount op + sum_of amount ops

find_if-sum_values :
    (p : AppCFund → Bool) (fs : List AppCFund) (it : AppCFund)
    → find_if p fs ≡ some it
    → it.value ≤ sum_values fs
unfolding find_if sum_values
find_if-sum_values p [] it h = ground arith
find_if-sum_values p (f ∷ fs) it h = elim (Bool-cases (p f)) [
  | inl e ↦ omega (arith, ap AppCFund.value (some-injective f it (rw e at h)))
  | inr e ↦ omega (arith, find_if-sum_values p fs it (rw e at h))
]

-- One operation, where no sum of money exceeds an uint64_t.
balanced :
    (op : AppFundOperate) (acc acc' : AppUserAccout)
    → total_money acc + paid_in op < 2 ^ 64
    → Settled op acc true acc'
    → total_money acc' + paid_out op ≡ total_money acc + paid_in op
unfolding total_money get_app_cfund
balanced op acc _ small (deposited acc' kind eq) = ground arith
balanced op acc _ small (withdrawn acc' kind eq) = ground arith
balanced op acc _ small (overflowed it kind e over) =
    let share = find_if-sum_values _ acc.freezed_fund it e in absurd (ground arith)

abbrev Balances : List AppFundOperate → AppUserAccout → Bool → AppUserAccout → Type 0
Balances ops acc false acc' = Unit
Balances ops acc true acc' =
    total_money acc' + sum_of paid_out ops ≡ total_money acc + sum_of paid_in ops

Outcome-cases :
    (o : Outcome)
    → (o ≡ none)
      ⊎ ((acc : AppUserAccout) × (o ≡ some (false, acc)))
      ⊎ ((acc : AppUserAccout) × (o ≡ some (true, acc)))
Outcome-cases none = inl refl
Outcome-cases (some (false, acc)) = inr (inl (acc, refl))
Outcome-cases (some (true, acc)) = inr (inr (acc, refl))

refused_same :
    (op : AppFundOperate) (acc acc' : AppUserAccout) → Settled op acc false acc' → acc' ≡ acc
refused_same op acc _ unchanged = refl

carried :
    (op : AppFundOperate) (ops : List AppFundOperate) (acc acc1 acc2 : AppUserAccout) (ok : Bool)
    → total_money acc1 + paid_out op ≡ total_money acc + paid_in op
    → Balances ops acc1 ok acc2
    → Balances (op ∷ ops) acc ok acc2
unfolding sum_of
carried op ops acc acc1 acc2 false one rest = tt
carried op ops acc acc1 acc2 true one rest = omega arith

module _ (checked : CheckedAdd) where
  operate_loop-Balances :
      (ops : List AppFundOperate) (acc : AppUserAccout)
      → total_money acc + sum_of paid_in ops < 2 ^ 64
      → Holds (Balances ops acc) (operate_loop checked ops acc)
  unfolding operate_loop sum_of
  operate_loop-Balances [] acc small = refl
  operate_loop-Balances (op ∷ ops) acc small =
      after op ops acc (operate checked op acc) small (operate-Settled checked op acc)
        (λ acc' s. operate_loop-Balances ops acc' s)
    where
      after :
          (op' : AppFundOperate) (ops' : List AppFundOperate) (acc' : AppUserAccout) (o : Outcome)
          → total_money acc' + sum_of paid_in (op' ∷ ops') < 2 ^ 64
          → Holds (Settled op' acc') o
          → ((acc1 : AppUserAccout)
              → total_money acc1 + sum_of paid_in ops' < 2 ^ 64
              → Holds (Balances ops' acc1) (operate_loop checked ops' acc1))
          → Holds (Balances (op' ∷ ops') acc') (elim o [
            | none ↦ none
            | some (false, acc1) ↦ some (false, acc1)
            | some (true, acc1) ↦ operate_loop checked ops' acc1
          ])
      after op' ops' acc' none small' s rest = tt
      after op' ops' acc' (some (false, acc1)) small' s rest = tt
      after op' ops' acc' (some (true, acc1)) small' s rest =
          let one = balanced op' acc' acc1 (omega arith) s in
          Holds-map {P = Balances ops' acc1} (operate_loop checked ops' acc1)
            (λ ok acc2 b. carried op' ops' acc' acc1 acc2 ok one b) (rest acc1 (omega arith))

  operate_all-Balances :
      (ops : List AppFundOperate) (acc : AppUserAccout)
      → total_money acc + sum_of paid_in ops < 2 ^ 64
      → Holds (Balances ops acc) (operate_all checked ops acc)
  unfolding operate_all
  operate_all-Balances [] acc small = tt
  operate_all-Balances (op ∷ ops) acc small = operate_loop-Balances (op ∷ ops) acc small

  -- Where the money of the account and all that is paid in fit an uint64_t, the operations of a
  -- batch that succeeds change the money of the account by what is paid in less what is paid out.
  pub total_money-operate_all :
      (ops : List AppFundOperate) (acc acc' : AppUserAccout)
      → total_money acc + sum_of paid_in ops < 2 ^ 64
      → operate_all checked ops acc ≡ some (true, acc')
      → total_money acc' + sum_of paid_out ops ≡ total_money acc + sum_of paid_in ops
  total_money-operate_all ops acc acc' small e =
      subst (Holds (Balances ops acc)) e (operate_all-Balances ops acc small)

  operate_loop-IsValid :
      (ops : List AppFundOperate) (acc : AppUserAccout)
      → All (λ op. get_uint64_value op < 2 ^ 64) ops
      → IsValid acc
      → Holds Keeps (operate_loop checked ops acc)
  unfolding operate_loop
  operate_loop-IsValid [] acc small valid = valid
  operate_loop-IsValid (op ∷ ops) acc small valid =
      after (operate checked op acc) (operate-IsValid checked op acc small.0 valid)
        (λ acc' v. operate_loop-IsValid ops acc' small.1 v)
    where
      after :
          (o : Outcome)
          → Holds Keeps o
          → ((acc1 : AppUserAccout) → IsValid acc1 → Holds Keeps (operate_loop checked ops acc1))
          → Holds Keeps (elim o [
            | none ↦ none
            | some (false, acc1) ↦ some (false, acc1)
            | some (true, acc1) ↦ operate_loop checked ops acc1
          ])
      after none h rest = tt
      after (some (false, acc1)) h rest = h
      after (some (true, acc1)) h rest = rest acc1 h

  -- A batch keeps a well-formed account well-formed, whether it succeeds or stops half way, if the
  -- amounts fit an uint64_t.
  pub operate_all-IsValid :
      (ops : List AppFundOperate) (acc : AppUserAccout)
      → All (λ op. get_uint64_value op < 2 ^ 64) ops
      → IsValid acc
      → Holds Keeps (operate_all checked ops acc)
  unfolding operate_all
  operate_all-IsValid [] acc small valid = tt
  operate_all-IsValid (op ∷ ops) acc small valid = operate_loop-IsValid (op ∷ ops) acc small valid

  -- A batch that fails stops at one operation, and the ones before it stay applied.
  pub operate_loop-stopped :
      (ops : List AppFundOperate) (acc acc' : AppUserAccout)
      → operate_loop checked ops acc ≡ some (false, acc')
      → (before rest : List AppFundOperate) × (op : AppFundOperate) × (ops ≡ before ++ op ∷ rest)
        × (operate_loop checked before acc ≡ some (true, acc'))
        × (operate checked op acc' ≡ some (false, acc'))
  unfolding operate_loop
  operate_loop-stopped [] acc acc' h = ground arith
  operate_loop-stopped (op ∷ ops) acc acc' h = elim (Outcome-cases (operate checked op acc)) [
    | inl e ↦ absurd (none-ne-some _ (rw (operate_loop, e) at h))
    | inr (inl (acc1, e)) ↦
        let same = ap (λ r. r.1) (some-injective _ _ (rw (operate_loop, e) at h)) in
        let kept =
          refused_same op acc acc1
            (subst (Holds (Settled op acc)) e (operate-Settled checked op acc)) in
        (
          [],
          ops,
          op,
          refl,
          ap (λ a. some (true, a)) (sym kept ∙ same),
          ap (operate checked op) (sym same ∙ kept) ∙ e ∙ ap (λ a. some (false, a)) same,
        )
    | inr (inr (acc1, e)) ↦
        let (before, rest, last, split, ran, refused) =
          operate_loop-stopped ops acc1 acc' (rw (operate_loop, e) at h) in
        (op ∷ before, rest, last, ap (λ os. op ∷ os) split, rw (operate_loop, e) ran, refused)
  ]
