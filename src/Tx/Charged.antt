-- ===== src/Tx/Charged.antt =====
-- What the steps of an accepted registering have done to the view (src/tx.cpp:
-- `CRegisterAccountTx::ExecuteTx`).
use dacrs.Base.{
  ℕ, true, false, some, [], ◌∷◌, ◌++◌, ◌&&◌, ◌≡◌, refl, sym, ◌∙◌, ap, subst, ◌==◌, Bool-cases, inl,
  inr,
}
use mathlib.Core.Option.{some-injective, none-ne-some}
use dacrs.Vm.Api.{bytes_of}
use dacrs.Account.{ChainParams, Account, KeyId, RegId, PubKeys, account_log}
use dacrs.Views.{present, present_key}
use dacrs.Views.Observe.{account_of, key_of}
use dacrs.Views.Reads.{account-is_live}
use dacrs.Views.Batch.{save_account_info}
use dacrs.Views.ByUser.{by_pub_key}
use dacrs.Views.Identity.{account_at, key_by}
use dacrs.Views.Layer.{IsCache, Got, get_account_by-Got}
use dacrs.Tx.{TxState, accepted}
use dacrs.Tx.Register.{RegisterAccountTx, reg_id_at, charge_fees, bad_miner, registered, register}
use dacrs.Tx.Entries.{Entered, save_account_info-Entered}
use dacrs.Tx.Registering.{reg-key_id, charge_fees-key_id, Entry, register-Entry}

module _ (keys : PubKeys) (params : ChainParams) (tx : RegisterAccountTx) (height index : ℕ)
    (s t : TxState) where
  abbrev key : KeyId
  key = keys.get_key_id tx.user_key

  abbrev id : RegId
  id = reg_id_at height index

  -- What an accepted registering of the account has done, by the steps of the code.
  pub record Charged (acc : Account) : Type 0 where
    pub acc' : Account
    pub entered :
        Entered key (some (registered keys params tx height index acc')) id (some key) s.view t.view
    pub paid :
        charge_fees keys params tx height index (record acc { public_key = tx.user_key })
        ≡ (true, acc')
    pub unregistered :
        (keys.is_fully_valid acc.public_key && keys.get_key_id acc.public_key == key) ≡ false
    pub good_miner : bad_miner keys params tx height index tx.miner_id ≡ false
    pub logs : t.undo.account_log ≡ s.undo.account_log ++ account_log acc ∷ []

  module _ (acc : Account) (cached : IsCache s.view) (there : account_of key s.view ≡ some acc)
      (keyed : acc.key_id ≡ key) where
    some_key : (key == 0) ≡ false
    some_key = elim (Bool-cases (key == 0)) [
      | inr f ↦ f
      | inl f ↦ absurd (
          none-ne-some acc (
            rw (ap (λ k. k == 0) keyed ∙ f) at (account-is_live key s.view cached.sound acc there)))
    ]

    Entry-Charged : Entry keys params tx height index s t → Charged acc
    unfolding account_at key_by bytes_of
    Entry-Charged entry = record {
      acc' = entry.acc';
      entered = record {
        accounts = λ j.
            ap (λ u. account_of j u.view) entry.result
            ∙ saved.accounts j
            ∙ rw (live, got.same.accounts j) refl;
        key_ids = λ i.
            ap (λ u. key_of i u.view) entry.result
            ∙ saved.key_ids i
            ∙ rw (some_key, got.same.key_ids i) refl;
        cache = subst (λ u. IsCache u.view) (sym entry.result) saved.cache;
      };
      paid =
          subst
            (λ a.
              charge_fees keys params tx height index (record a { public_key = tx.user_key })
              ≡ (true, entry.acc'))
            found entry.paid;
      unregistered =
          subst
            (λ a. (keys.is_fully_valid a.public_key && keys.get_key_id a.public_key == key) ≡ false)
            found entry.unregistered;
      good_miner = entry.good_miner;
      logs =
          ap (λ u. u.undo.account_log) entry.result
          ∙ ap (λ a. s.undo.account_log ++ account_log a ∷ []) found;
    }
      where
        got : Got (account_of key s.view) s.view (some entry.acc, entry.v)
        got =
            subst (Got (account_of key s.view) s.view) entry.read
              (get_account_by-Got keys (by_pub_key tx.user_key) s.view cached)

        found : entry.acc ≡ acc
        found = some-injective _ _ (got.result ∙ there)

        same : entry.acc'.key_id ≡ key
        same =
            ap (λ r. r.1.key_id) (sym entry.paid)
            ∙ charge_fees-key_id keys params tx height index
                (record entry.acc { public_key = tx.user_key })
            ∙ ap (λ a. a.key_id) found
            ∙ keyed

        saved :
            Entered key
              (present (registered keys params tx height index entry.acc'))
              id
              (present_key key)
              entry.v
              (save_account_info id key (registered keys params tx height index entry.acc') entry.v)
        saved = save_account_info-Entered id key _ entry.v got.cache refl

        live :
            present (registered keys params tx height index entry.acc')
            ≡ some (registered keys params tx height index entry.acc')
        live =
            rw (reg-key_id keys params tx height index tx.miner_id entry.acc', same, some_key) refl

    pub register-Charged : register keys params tx height index s ≡ accepted t → Charged acc
    register-Charged e = Entry-Charged (register-Entry keys params tx height index s t e)
