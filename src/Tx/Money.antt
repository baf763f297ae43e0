-- ===== src/Tx/Money.antt =====
-- The money that a transfer moves (src/tx.cpp: `CTransaction::ExecuteTx`).
use dacrs.Base.{
  ℕ, ◌+◌, ◌%◌, ◌^◌, ◌<◌, Bool, true, Option, none, some, ◌≡◌, ◌≢◌, refl, sym, ◌∙◌, ap, arith, ==_ne,
  ==_refl, subst, Option-cases, inl, inr,
}
use dacrs.Base.Int.{ℤ}
use dacrs.Base.Dict.{nat_key}
use dacrs.RunEnv.Check.{em_add_free, em_minus_free}
use dacrs.Account.{ChainParams, Account, KeyId, PubKeys}
use dacrs.Account.Money.{
  Moved, added, taken, nothing, beyond, refused, operate_account-Moved, is_money_overflow-leb,
  get_max_money-small,
}
use dacrs.Views.{AccountView}
use dacrs.Views.Observe.{account_of}
use dacrs.Views.Identity.{key_by}
use dacrs.Views.Layer.{IsCache}
use dacrs.Tx.{Transaction, TxState, accepted, minus_value, transfer}
use dacrs.Tx.Transfer.{Receives, known, fresh, transfer-Steps}
use dacrs.Tx.Facts.{Keyed, Facts, steps-Facts, operate_account-in_range}

abbrev pub money_of : Option Account → ℕ
money_of none = 0
money_of (some acc) = acc.values

-- What a view says that a key has.
unfoldable pub balance : KeyId → AccountView → ℕ
balance key v = money_of (account_of key v)

-- No balance is near the limit of its type.
abbrev pub Low : AccountView → Type 0
Low v = (key : KeyId) (acc : Account) → account_of key v ≡ some acc → acc.values < 2 ^ 63

minus-taken :
    (params : ChainParams) (value : ℕ) (acc : Account) (r : Bool × Account)
    → Moved params em_minus_free value acc r
    → r.0 ≡ true
    → r.1.values + value ≡ acc.values
minus-taken params value acc r (added acc' e sum within) ok = ground arith
minus-taken params value acc r (taken acc' e sum) ok = sum
minus-taken params value acc r (nothing acc' e same) ok = omega arith
minus-taken params value acc r (beyond acc' e sum over) ok = ground arith
minus-taken params value acc r (refused acc' same) ok = ground arith

add-given :
    (params : ChainParams) (value : ℕ) (acc : Account) (r : Bool × Account)
    → Moved params em_add_free value acc r
    → r.0 ≡ true
    → r.1.values ≡ acc.values + value
add-given params value acc r (added acc' e sum within) ok = sum
add-given params value acc r (taken acc' e sum) ok = ground arith
add-given params value acc r (nothing acc' e same) ok = omega arith
add-given params value acc r (beyond acc' e sum over) ok = ground arith
add-given params value acc r (refused acc' same) ok = ground arith

module _ (keys : PubKeys) (params : ChainParams) (height : ℤ) (tx : Transaction) (s t : TxState)
    (sk dk : KeyId) where
  -- The money has moved, and nothing else.
  pub record Paid : Type 0 where
    pub src : balance sk t.view + (tx.fees + tx.values) ≡ balance sk s.view
    pub des : balance dk t.view ≡ balance dk s.view + tx.values
    pub rest : (j : KeyId) → j ≢ sk → j ≢ dk → account_of j t.view ≡ account_of j s.view

  old_money :
      (old : Option Account) (des : Account)
      → Receives keys params height tx old des
      → des.values ≡ money_of old
  old_money old des (known e) = rw e refl
  old_money old des (fresh k e is new common) = rw (e, new) refl

  module _ (apart : sk ≢ dk) (low : Low s.view) (fees : tx.fees < 2 ^ 63)
      (values : tx.values < 2 ^ 64) (facts : Facts keys params height tx s t sk dk) where
    in_range : tx.values < 2 ^ 62
    in_range = ground (
      arith,
      is_money_overflow-leb params tx.values,
      operate_account-in_range params _ _ height facts.des facts.des' facts.add,
      get_max_money-small params,
    )

    sent : facts.src'.values + (tx.fees + tx.values) ≡ facts.src.values
    sent = rw whole at (
        minus-taken params (minus_value keys params height tx) facts.src (true, facts.src')
          (subst (Moved params em_minus_free (minus_value keys params height tx) facts.src)
            facts.minus
            (operate_account-Moved params em_minus_free _ height facts.src
              (low sk facts.src facts.src_there) fits))
          refl)
      where
        whole : (tx.fees + tx.values) % 2 ^ 64 ≡ tx.fees + tx.values
        whole = omega (arith, in_range)

        fits : (tx.fees + tx.values) % 2 ^ 64 < 2 ^ 64
        fits = omega arith

    low_money : (key : KeyId) → money_of (account_of key s.view) < 2 ^ 63
    low_money key = elim (Option-cases (account_of key s.view)) [
      | inl e ↦ rw e (omega arith)
      | inr (acc, e) ↦ rw e (low key acc e)
    ]

    old_there : facts.old ≡ account_of dk s.view
    old_there = facts.old_is ∙ rw (==_ne dk sk (λ e. apart (sym e))) refl

    received : facts.des'.values ≡ money_of (account_of dk s.view) + tx.values
    received =
        add-given params tx.values facts.des (true, facts.des')
          (subst (Moved params em_add_free tx.values facts.des) facts.add (
            operate_account-Moved params em_add_free tx.values height facts.des
              (rw before (low_money dk)) values))
          refl
        ∙ rw before refl
      where
        before : facts.des.values ≡ money_of (account_of dk s.view)
        before = old_money facts.old facts.des facts.receives ∙ ap money_of old_there

    facts-Paid : Paid
    unfolding balance
    facts-Paid = record {
      src = rw (facts.after sk, ==_ne sk dk apart, ==_refl sk, facts.src_there) sent;
      des = rw (facts.after dk, ==_refl dk) received;
      rest = λ j not_src not_des. facts.after j ∙ rw (==_ne j dk not_des, ==_ne j sk not_src) refl;
    }

  -- On a sound cache in which every account stands under its own key and all balances are below
  -- 2 ^ 63: a transfer that is accepted, with fees below 2 ^ 63 and an amount of an uint64_t, from
  -- one account to another, takes the amount and the fees from the one and gives the amount to the
  -- other, and leaves all other accounts as they are.
  pub transfer-Paid :
      sk ≢ dk
      → IsCache s.view
      → Keyed s.view
      → Low s.view
      → tx.fees < 2 ^ 63
      → tx.values < 2 ^ 64
      → key_by keys tx.src_reg_id s.view ≡ some sk
      → key_by keys tx.des_user_id s.view ≡ some dk
      → transfer keys params height tx s ≡ accepted t
      → Paid
  transfer-Paid apart cached keyed low fees values from to e = facts-Paid apart low fees values (
      steps-Facts keys params height tx s t sk dk cached keyed from to
        (transfer-Steps keys params height tx s t e))
