-- ===== src/Account/Money.antt =====
-- What `CAccount::OperateAccount` of src/tx.cpp does to the balance.
use dacrs.Base.{
  ℕ, ◌+◌, ◌%◌, ◌^◌, ◌≤◌, ◌<◌, Bool, true, false, ◌≡◌, inl, inr, refl, sym, ap, ◌∙◌, arith, ltb, leb,
  ◌==◌, ==_iff, Bool-cases,
}
use mathlib.Core.Bool.{false≢true}
use dacrs.Base.Int.{ℤ, ltb_ℤ, leb_ℤ}
use dacrs.RunEnv.Check.{em_add_free, em_minus_free}
use dacrs.Account.{
  ChainParams, Account, get_max_money, money_range, is_money_overflow, up_date_coin_day, add_money,
  minus_money, operate_account,
}

module _ (params : ChainParams) where
  pub get_max_money-small : get_max_money params < 2 ^ 62
  unfolding get_max_money
  get_max_money-small = ground arith

  -- An uint64_t beyond the int64_t is negative and out of range too.
  pub is_money_overflow-leb :
      (v : ℕ) → v < 2 ^ 64 → is_money_overflow params v ≡ leb v (get_max_money params)
  unfolding is_money_overflow money_range
  is_money_overflow-leb v h = ground (arith, get_max_money-small)

  -- Ageing the coins leaves all but the coin days and the height.
  pub record Aged (acc acc' : Account) : Type 0 where
    pub reg_id : acc'.reg_id ≡ acc.reg_id
    pub key_id : acc'.key_id ≡ acc.key_id
    pub public_key : acc'.public_key ≡ acc.public_key
    pub miner_pkey : acc'.miner_pkey ≡ acc.miner_pkey
    pub values : acc'.values ≡ acc.values

  same-Aged :
      (acc : Account) (h : ℤ) (days : ℕ) → Aged acc (record acc { height = h; coin_day = days })
  same-Aged acc h days = record {
    reg_id = refl;
    key_id = refl;
    public_key = refl;
    miner_pkey = refl;
    values = refl;
  }

  pub up_date_coin_day-Aged :
      (cur : ℤ) (acc : Account) → Aged acc (up_date_coin_day params cur acc).1
  unfolding up_date_coin_day
  up_date_coin_day-Aged cur acc = elim (Bool-cases (ltb_ℤ cur acc.height)) [
    | inl e ↦ rw e (same-Aged acc acc.height acc.coin_day)
    | inr e ↦ rw e (elim (Bool-cases (leb_ℤ cur acc.height)) [
      | inl f ↦ rw f (same-Aged acc acc.height acc.coin_day)
      | inr f ↦ rw f (same-Aged acc cur _)
    ])
  ]

  -- The balance after a result of `OperateAccount`: what each operation promises.
  pub data Moved (type value : ℕ) (acc : Account) : Bool × Account → Type 0 where
    added :
        (acc' : Account)
        → type ≡ em_add_free
        → acc'.values ≡ acc.values + value
        → acc'.values ≤ get_max_money params
        → Moved type value acc (true, acc')
    taken :
        (acc' : Account)
        → type ≡ em_minus_free
        → acc'.values + value ≡ acc.values
        → Moved type value acc (true, acc')
    nothing :
        (acc' : Account) → value ≡ 0 → acc'.values ≡ acc.values → Moved type value acc (true, acc')
    beyond :
        (acc' : Account)
        → type ≡ em_add_free
        → acc'.values ≡ acc.values + value
        → get_max_money params < acc'.values
        → Moved type value acc (false, acc')
    refused : (acc' : Account) → acc'.values ≡ acc.values → Moved type value acc (false, acc')

  add_money-Moved :
      (type value : ℕ) (acc aged : Account)
      → type ≡ em_add_free
      → aged.values ≡ acc.values
      → acc.values < 2 ^ 63
      → value < 2 ^ 63
      → Moved type value acc (add_money params value aged)
  unfolding add_money
  add_money-Moved type value acc aged add same small amount =
      elim (Bool-cases (is_money_overflow params ((aged.values + value) % 2 ^ 64))) [
        | inl e ↦ rw e (added _ add sum (in_range e))
        | inr e ↦ rw e (beyond _ add sum (out_of_range e))
      ]
    where
      sum : (aged.values + value) % 2 ^ 64 ≡ acc.values + value
      sum = omega arith

      in_range :
          is_money_overflow params ((aged.values + value) % 2 ^ 64) ≡ true
          → (aged.values + value) % 2 ^ 64 ≤ get_max_money params
      in_range e = ground (arith, is_money_overflow-leb ((aged.values + value) % 2 ^ 64))

      out_of_range :
          is_money_overflow params ((aged.values + value) % 2 ^ 64) ≡ false
          → get_max_money params < (aged.values + value) % 2 ^ 64
      out_of_range e = ground (arith, is_money_overflow-leb ((aged.values + value) % 2 ^ 64))

  minus_money-Moved :
      (type value : ℕ) (cur : ℤ) (acc aged : Account)
      → type ≡ em_minus_free
      → aged.values ≡ acc.values
      → Moved type value acc (minus_money params cur value aged)
  unfolding minus_money
  minus_money-Moved type value cur acc aged minus same = elim (Bool-cases (ltb aged.values value)) [
    | inl e ↦ rw e (refused _ same)
    | inr e ↦ rw e (taken _ minus (ground arith))
  ]

  -- On a balance below 2 ^ 63, an operation on an amount of an uint64_t that succeeds adds the
  -- amount and stays within the supply, takes the amount from a balance that has it, or does
  -- nothing, the amount being 0; one that fails leaves the balance, but for an addition that
  -- exceeds the supply, which leaves the sum in the account.
  pub operate_account-Moved :
      (type value : ℕ) (cur : ℤ) (acc : Account)
      → acc.values < 2 ^ 63
      → value < 2 ^ 64
      → Moved type value acc (operate_account params type value cur acc)
  unfolding operate_account
  operate_account-Moved type value cur acc small fits =
      elim (Bool-cases (is_money_overflow params value)) [
        | inr e ↦ rw e (refused acc refl)
        | inl e ↦ rw e (elim (Bool-cases (acc'.key_id == 0)) [
          | inl f ↦ rw f (refused acc' same)
          | inr f ↦ rw f (elim (Bool-cases (value == 0)) [
            | inl g ↦ rw g (nothing acc' (ground arith) same)
            | inr g ↦ rw g (elim (Bool-cases (type == em_add_free)) [
              | inl i ↦
                  rw i (add_money-Moved type value acc acc' (ground arith) same small (amount e))
              | inr i ↦ rw i (elim (Bool-cases (type == em_minus_free)) [
                | inl j ↦ rw j (minus_money-Moved type value cur acc acc' (ground arith) same)
                | inr j ↦ rw j (refused acc' same)
              ])
            ])
          ])
        ])
      ]
    where
      acc' : Account
      acc' = (up_date_coin_day params cur acc).1

      same : acc'.values ≡ acc.values
      same = (up_date_coin_day-Aged cur acc).values

      amount : is_money_overflow params value ≡ true → value < 2 ^ 63
      amount e = ground (arith, is_money_overflow-leb value, get_max_money-small)

  minus_money-less :
      (value : ℕ) (cur : ℤ) (acc acc' : Account)
      → minus_money params cur value acc ≡ (true, acc')
      → acc'.values + value ≡ acc.values
  unfolding minus_money
  minus_money-less value cur acc acc' e = elim (Bool-cases (ltb acc.values value)) [
    | inl f ↦ absurd (false≢true (ap (λ r. r.0) (rw f at e)))
    | inr f ↦ ap (λ r. r.1.values + value) (sym (rw f at e)) ∙ ground arith
  ]

  -- A payment that succeeds takes exactly its amount from the balance.
  pub operate_account-less :
      (value : ℕ) (cur : ℤ) (acc acc' : Account)
      → operate_account params em_minus_free value cur acc ≡ (true, acc')
      → acc'.values + value ≡ acc.values
  unfolding operate_account
  operate_account-less value cur acc acc' e = elim (Bool-cases (is_money_overflow params value)) [
    | inr f ↦ absurd (false≢true (ap (λ r. r.0) (rw f at e)))
    | inl f ↦ elim (Bool-cases (now.key_id == 0)) [
      | inl g ↦ absurd (false≢true (ap (λ r. r.0) (rw (f, g) at e)))
      | inr g ↦ elim (Bool-cases (value == 0)) [
        | inl z ↦
            ap (λ r. r.1.values + value) (sym (rw (f, g, z) at e)) ∙ kept ((==_iff value 0).0 z)
        | inr z ↦ minus_money-less value cur now acc' (rw (f, g, z) at e) ∙ same
      ]
    ]
  ]
    where
      now : Account
      now = (up_date_coin_day params cur acc).1

      same : now.values ≡ acc.values
      same = (up_date_coin_day-Aged cur acc).values

      kept : value ≡ 0 → now.values + value ≡ acc.values
      kept none = omega (arith, same)
