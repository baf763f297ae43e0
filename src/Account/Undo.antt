-- ===== src/Account/Undo.antt =====
-- `CAccount::UndoOperateAccount` of src/tx.cpp against `OperateAccount`.
use dacrs.Base.{ℕ, Bool, true, false, ◌≡◌, refl, ltb, if◌then◌else◌, if-closed}
use dacrs.Base.Int.{ℤ}
use dacrs.Account.{
  ChainParams, Account, account_log, undo_operate_account, up_date_coin_day, clear_acc_pos,
  add_money, minus_money, operate_account,
}

-- The log of the account brings it back from the account that an operation leaves.
Undoes : Account → Bool × Account → Type 0
unfolding account_log undo_operate_account
Undoes acc (ok, acc') = undo_operate_account (account_log acc) acc' ≡ acc

-- What an operation may change is what the log holds.
set-Undoes :
    (acc a : Account) (ok ok' : Bool) (v d : ℕ) (h : ℤ)
    → Undoes acc (ok, a)
    → Undoes acc (ok', record a { values = v; height = h; coin_day = d })
unfolding account_log undo_operate_account Undoes
set-Undoes acc a ok ok' v d h e = e

self-Undoes : (acc : Account) (ok : Bool) → Undoes acc (ok, acc)
unfolding account_log undo_operate_account Undoes
self-Undoes acc ok = refl

if-Undoes :
    (acc : Account) (b : Bool) (x y : Bool × Account)
    → Undoes acc x
    → Undoes acc y
    → Undoes acc (if b then x else y)
if-Undoes acc = if-closed (Undoes acc)

module _ (params : ChainParams) where
  up_date_coin_day-Undoes : (cur : ℤ) (acc : Account) → Undoes acc (up_date_coin_day params cur acc)
  unfolding up_date_coin_day
  up_date_coin_day-Undoes cur acc = if-Undoes acc _ _ _ (self-Undoes acc false) (
      if-Undoes acc _ _ _ (self-Undoes acc true)
        (set-Undoes acc acc true true _ _ cur (self-Undoes acc true)))

  aged-Undoes :
      (cur : ℤ) (acc : Account) (ok : Bool) → Undoes acc (ok, (up_date_coin_day params cur acc).1)
  unfolding Undoes
  aged-Undoes cur acc ok = up_date_coin_day-Undoes cur acc

  add_money-Undoes :
      (value : ℕ) (acc a : Account) → Undoes acc (true, a) → Undoes acc (add_money params value a)
  unfolding add_money
  add_money-Undoes value acc a h = set-Undoes acc a true _ _ _ _ h

  minus_money-Undoes :
      (value : ℕ) (cur : ℤ) (acc a : Account)
      → ((ok : Bool) → Undoes acc (ok, a))
      → Undoes acc (minus_money params cur value a)
  unfolding minus_money
  minus_money-Undoes value cur acc a h =
      if-Undoes acc (ltb a.values value) _ _ (h false) (set-Undoes acc a true true _ _ _ (h true))

  operate_account-Undoes :
      (type value : ℕ) (cur : ℤ) (acc : Account)
      → Undoes acc (operate_account params type value cur acc)
  unfolding operate_account
  operate_account-Undoes type value cur acc =
      search (if-Undoes, self-Undoes, aged-Undoes, add_money-Undoes, minus_money-Undoes) depth 12

  -- The log of an account from before an operation brings the account back, whatever the
  -- operation, its amount, the height and the result.
  pub undo-operate_account :
      (type value : ℕ) (cur : ℤ) (acc : Account)
      → undo_operate_account (account_log acc) (operate_account params type value cur acc).1 ≡ acc
  unfolding Undoes
  undo-operate_account type value cur acc = operate_account-Undoes type value cur acc

  -- The same for the coin days that a reward clears.
  pub undo-clear_acc_pos :
      (cur : ℤ) (acc : Account)
      → undo_operate_account (account_log acc) (clear_acc_pos params cur acc) ≡ acc
  unfolding clear_acc_pos Undoes
  undo-clear_acc_pos cur acc = up_date_coin_day-Undoes cur acc
