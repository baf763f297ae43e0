-- ===== src/Account/CoinDays.antt =====
-- The coin days of an account (src/tx.cpp: `CAccount::UpDateCoinDay`, `OperateAccount`).
use dacrs.Base.{
  ℕ, zero, suc, ◌+◌, ◌-◌, ◌*◌, ◌/◌, ◌%◌, ◌^◌, ◌≤◌, ◌<◌, true, false, ◌≡◌, inl, inr, refl, ap, subst,
  arith, ltb, ◌==◌, if◌then◌else◌, Bool-cases,
}
use native.Mathlib.Nat.{
  le_trans, mod-le, div-le_of_le-mul, mul-le-mul_left, mul-le-mul_right, mul-add, mul_comm, sub-le,
}
use mathlib.Core.Bool.{false≢true}
use dacrs.Base.Int.{ℤ, ltb_ℤ, leb_ℤ, pos_part, ◌-ℤ◌}
use dacrs.RunEnv.Check.{em_minus_free}
use dacrs.Account.{
  ChainParams, Account, get_max_coin_day, grown_coin_day, up_date_coin_day, remain_coin_day,
  keep_miner, minus_money, operate_account, is_miner, is_money_overflow,
  block_remain_coin_day_height,
}

share-le : (days values value : ℕ) → days * (values - value) % 2 ^ 256 / values % 2 ^ 64 ≤ days
share-le days values value =
    le_trans (mod-le _ _) (div-le_of_le-mul values (le_trans (mod-le _ _) less))
  where
    less : days * (values - value) ≤ values * days
    less = rw (mul_comm values days) (mul-le-mul_left days (sub-le values value))

-- The old rule takes no days or all of them.
whole-le :
    (days times : ℕ)
    → days < 2 ^ 64
    → times ≤ 1
    → (days + 2 ^ 64 - times * days % 2 ^ 64) % 2 ^ 64 ≤ days
whole-le days zero small one = ground arith
whole-le days (suc zero) small one = ground arith
whole-le days (suc (suc n)) small one = ground arith

remain_coin_day-le :
    (cur : ℤ) (value : ℕ) (acc : Account)
    → acc.coin_day < 2 ^ 64
    → value ≤ acc.values
    → remain_coin_day cur value acc ≤ acc.coin_day
unfolding remain_coin_day
remain_coin_day-le cur value acc small enough =
    elim (Bool-cases (ltb_ℤ cur block_remain_coin_day_height)) [
      | inl e ↦ rw e (
          whole-le acc.coin_day (value / acc.values) small
            (div-le_of_le-mul acc.values (omega arith)))
      | inr e ↦ rw e (share-le acc.coin_day acc.values value)
    ]

blocks-apart :
    (g h k : ℤ)
    → ltb_ℤ g h ≡ true
    → ltb_ℤ h k ≡ true
    → pos_part (k -ℤ g) ≡ pos_part (h -ℤ g) + pos_part (k -ℤ h)
unfolding ◌-ℤ◌
blocks-apart g h k first second = ground arith

abbrev capped : ℕ → ℕ → ℕ
capped limit days = if ltb limit days then limit else days

module _ (params : ChainParams) where
  abbrev aged : ℤ → ℕ → Account → Account
  aged k days acc = record acc {
    coin_day = capped (acc.values * (params.interval_pos * 30)) days;
    height = k;
  }

  -- What is left of the coin days of a miner is what a miner needs, or more.
  keep_miner-need :
      (acc : Account) (remain : ℕ)
      → acc.values * params.interval_pos < 2 ^ 64
      → acc.values * params.interval_pos < acc.coin_day
      → acc.values * params.interval_pos ≤ keep_miner params acc remain
  unfolding keep_miner
  keep_miner-need acc remain small more = ground (arith)

  keep_miner-le :
      (acc : Account) (remain : ℕ)
      → remain ≤ acc.coin_day
      → keep_miner params acc remain ≤ acc.coin_day
  unfolding keep_miner
  keep_miner-le acc remain le = ground (arith)

  -- What a payment does to the coin days.
  pub record Spent (cur : ℤ) (acc acc' : Account) : Type 0 where
    pub coin_day : acc'.coin_day ≤ acc.coin_day
    pub miner :
        acc.values * params.interval_pos < 2 ^ 64
        → acc.values * params.interval_pos < acc.coin_day
        → is_miner params cur acc' ≡ true

  minus_money-Spent :
      (cur : ℤ) (value : ℕ) (acc acc' : Account)
      → acc.coin_day < 2 ^ 64
      → minus_money params cur value acc ≡ (true, acc')
      → Spent cur acc acc'
  unfolding minus_money is_miner
  minus_money-Spent cur value acc acc' small e = elim (Bool-cases (ltb acc.values value)) [
    | inl f ↦ absurd (false≢true (ap (λ r. r.0) (rw f at e)))
    | inr f ↦ subst (Spent cur acc) (ap (λ r. r.1) (rw f at e)) (record {
      coin_day = keep_miner-le acc _ (remain_coin_day-le cur value acc small (ground arith));
      miner = λ fits more. stays fits (keep_miner-need acc _ fits more);
    })
  ]
    where
      stays :
          acc.values * params.interval_pos < 2 ^ 64
          → acc.values * params.interval_pos ≤ keep_miner params acc (remain_coin_day cur value acc)
          → is_miner params cur (record acc {
            coin_day = keep_miner params acc (remain_coin_day cur value acc);
            values = acc.values - value;
          })
            ≡ true
      stays fits more =
          ground (arith, mul-le-mul_right params.interval_pos (sub-le acc.values value))

  up_date_coin_day-fits :
      (cur : ℤ) (acc : Account)
      → acc.coin_day < 2 ^ 64
      → (up_date_coin_day params cur acc).1.coin_day < 2 ^ 64
  unfolding up_date_coin_day grown_coin_day get_max_coin_day
  up_date_coin_day-fits cur acc small = ground arith

  same-Spent : (cur : ℤ) (acc : Account) → Spent cur acc acc
  unfolding is_miner
  same-Spent cur acc = record { coin_day = omega arith; miner = λ fits more. ground arith }

  -- A payment that succeeds leaves no more coin days than the account has at that height, and
  -- whoever has then more coin days than a miner needs, on a balance whose need fits an uint64_t,
  -- is a miner after it.
  pub operate_account-Spent :
      (value : ℕ) (cur : ℤ) (acc acc' : Account)
      → acc.coin_day < 2 ^ 64
      → operate_account params em_minus_free value cur acc ≡ (true, acc')
      → Spent cur (up_date_coin_day params cur acc).1 acc'
  unfolding operate_account
  operate_account-Spent value cur acc acc' small e =
      elim (Bool-cases (is_money_overflow params value)) [
        | inr f ↦ absurd (false≢true (ap (λ r. r.0) (rw f at e)))
        | inl f ↦ elim (Bool-cases (now.key_id == 0)) [
          | inl g ↦ absurd (false≢true (ap (λ r. r.0) (rw (f, g) at e)))
          | inr g ↦ elim (Bool-cases (value == 0)) [
            | inl z ↦ subst (Spent cur now) (ap (λ r. r.1) (rw (f, g, z) at e)) (same-Spent cur now)
            | inr z ↦
                minus_money-Spent cur value now acc' (up_date_coin_day-fits cur acc small)
                  (rw (f, g, z) at e)
          ]
        ]
      ]
    where
      now : Account
      now = (up_date_coin_day params cur acc).1

  up_date_coin_day-grown :
      (k : ℤ) (acc : Account)
      → ltb_ℤ acc.height k ≡ true
      → acc.coin_day + acc.values * pos_part (k -ℤ acc.height) < 2 ^ 64
      → acc.values * (params.interval_pos * 30) < 2 ^ 64
      → up_date_coin_day params k acc
        ≡ (true, aged k (acc.coin_day + acc.values * pos_part (k -ℤ acc.height)) acc)
  unfolding up_date_coin_day grown_coin_day get_max_coin_day
  up_date_coin_day-grown k acc first fits small = rw (below, above, max, product, sum) refl
    where
      below : ltb_ℤ k acc.height ≡ false
      below = ground arith

      above : leb_ℤ k acc.height ≡ false
      above = ground arith

      max :
          acc.values * (params.interval_pos * 30) % 2 ^ 64 ≡ acc.values * (params.interval_pos * 30)
      max = omega arith

      product :
          acc.values * pos_part (k -ℤ acc.height) % 2 ^ 64 ≡ acc.values * pos_part (k -ℤ acc.height)
      product = omega arith

      sum :
          (acc.coin_day + acc.values * pos_part (k -ℤ acc.height)) % 2 ^ 64
          ≡ acc.coin_day + acc.values * pos_part (k -ℤ acc.height)
      sum = omega arith

  -- Where neither the coin days that the balance has earned by the later height nor the limit of the
  -- coin days exceeds an uint64_t, bringing the coin days up to one height and then to a later one is
  -- the same as bringing them up to the later one at once.
  pub up_date_coin_day-twice :
      (h k : ℤ) (acc : Account)
      → ltb_ℤ acc.height h ≡ true
      → ltb_ℤ h k ≡ true
      → acc.coin_day + acc.values * pos_part (k -ℤ acc.height) < 2 ^ 64
      → acc.values * (params.interval_pos * 30) < 2 ^ 64
      → up_date_coin_day params k (up_date_coin_day params h acc).1 ≡ up_date_coin_day params k acc
  up_date_coin_day-twice h k acc first second fits small =
      rw
        (
          up_date_coin_day-grown h acc first early small,
          up_date_coin_day-grown k acc later fits small,
          up_date_coin_day-grown k
              (aged h (acc.coin_day + acc.values * pos_part (h -ℤ acc.height)) acc) second late
              small,
        )
        (ap (λ days. (true, record acc { height = k; coin_day = days })) same)
    where
      apart : pos_part (k -ℤ acc.height) ≡ pos_part (h -ℤ acc.height) + pos_part (k -ℤ h)
      apart = blocks-apart acc.height h k first second

      split :
          acc.values * pos_part (k -ℤ acc.height)
          ≡ acc.values * pos_part (h -ℤ acc.height) + acc.values * pos_part (k -ℤ h)
      split = rw apart (mul-add acc.values _ _)

      early : acc.coin_day + acc.values * pos_part (h -ℤ acc.height) < 2 ^ 64
      early = ground (arith, split)

      later : ltb_ℤ acc.height k ≡ true
      later = ground arith

      late :
          capped
              (acc.values * (params.interval_pos * 30))
              (acc.coin_day + acc.values * pos_part (h -ℤ acc.height))
            + acc.values * pos_part (k -ℤ h)
          < 2 ^ 64
      late = ground (arith, split)

      same :
          capped (acc.values * (params.interval_pos * 30)) (
            capped
              (acc.values * (params.interval_pos * 30))
              (acc.coin_day + acc.values * pos_part (h -ℤ acc.height))
            + acc.values * pos_part (k -ℤ h))
          ≡ capped
              (acc.values * (params.interval_pos * 30))
              (acc.coin_day + acc.values * pos_part (k -ℤ acc.height))
      same = ground (arith, split)
