-- ===== src/Tx/Registered.antt =====
-- What an accepted registering comes to, in its own terms (src/tx.cpp:
-- `CRegisterAccountTx::ExecuteTx`).
use dacrs.Base.{
  ℕ, ◌+◌, true, false, not, ◌&&◌, some, [], ◌∷◌, ◌++◌, ◌≡◌, refl, sym, ◌∙◌, ap, ◌==◌, Bool-cases,
  inl, inr, arith, length,
}
use dacrs.Base.Int.{pos, pos_part, ltb_ℤ}
use dacrs.Account.{ChainParams, Account, RegId, PubKey, PubKeys, account_log}
use dacrs.Account.Money.{operate_account-less}
use dacrs.Views.Observe.{account_of}
use dacrs.Views.ByUser.{UserId, null_id, by_reg, by_key, by_pub_key}
use dacrs.Views.Layer.{IsCache}
use dacrs.Tx.{TxState, accepted}
use dacrs.Tx.Register.{RegisterAccountTx, reg_id_at, charge_fees, bad_miner, register}
use dacrs.Tx.Entries.{Entered}
use dacrs.Tx.Registering.{
  reg, unfees, unfees-charge_fees, unfees-key_id, unfees-public_key, unfees-miner_pkey,
}
use dacrs.Tx.Charged.{Charged, register-Charged}

-- The key of the miner, from the transaction if it names one.
abbrev pub miner_of : UserId → PubKey → PubKey
miner_of (by_pub_key p) old = p
miner_of null_id old = old
miner_of (by_reg id) old = old
miner_of (by_key k) old = old

-- A key that the transaction names for the miner is a point of the curve if it has the right size.
abbrev pub MinerFits : PubKeys → UserId → Type 0
MinerFits keys (by_pub_key p) = (length p == 33 && not (keys.is_fully_valid p)) ≡ false
MinerFits keys null_id = Unit
MinerFits keys (by_reg id) = Unit
MinerFits keys (by_key k) = Unit

-- The account before and after a registering.
pub record Became (tx : RegisterAccountTx) (miner : UserId) (id : RegId) (acc acc' : Account)
    : Type 0 where
  pub reg_id : acc'.reg_id ≡ id
  pub key_id : acc'.key_id ≡ acc.key_id
  pub public_key : acc'.public_key ≡ tx.user_key
  pub miner_pkey : acc'.miner_pkey ≡ miner_of miner acc.miner_pkey
  pub values : acc'.values + pos_part tx.fees ≡ acc.values

module _ (keys : PubKeys) (params : ChainParams) (tx : RegisterAccountTx) (height index : ℕ) where
  reg-Became :
      (miner : UserId) (acc charged : Account)
      → charged.key_id ≡ acc.key_id
      → charged.public_key ≡ tx.user_key
      → charged.miner_pkey ≡ acc.miner_pkey
      → charged.values + pos_part tx.fees ≡ acc.values
      → Became tx miner (reg_id_at height index) acc (reg keys params tx height index miner charged)
  reg-Became null_id acc charged k p m v = record {
    reg_id = refl;
    key_id = k;
    public_key = p;
    miner_pkey = m;
    values = v;
  }
  reg-Became (by_reg id) acc charged k p m v = record {
    reg_id = refl;
    key_id = k;
    public_key = p;
    miner_pkey = m;
    values = v;
  }
  reg-Became (by_key j) acc charged k p m v = record {
    reg_id = refl;
    key_id = k;
    public_key = p;
    miner_pkey = m;
    values = v;
  }
  reg-Became (by_pub_key q) acc charged k p m v = record {
    reg_id = refl;
    key_id = k;
    public_key = p;
    miner_pkey = refl;
    values = v;
  }

  bad_miner-MinerFits :
      (miner : UserId) → bad_miner keys params tx height index miner ≡ false → MinerFits keys miner
  bad_miner-MinerFits null_id e = tt
  bad_miner-MinerFits (by_reg id) e = tt
  bad_miner-MinerFits (by_key k) e = tt
  bad_miner-MinerFits (by_pub_key p) e = e

  -- The fees are taken exactly, if there are any.
  charge_fees-values :
      (acc acc' : Account)
      → charge_fees keys params tx height index acc ≡ (true, acc')
      → acc'.values + pos_part tx.fees ≡ acc.values
  charge_fees-values acc acc' e = elim (Bool-cases (ltb_ℤ (pos 0) tx.fees)) [
    | inl f ↦ operate_account-less params (pos_part tx.fees) (pos height) acc acc' (rw f at e)
    | inr f ↦ ap (λ r. r.1.values + pos_part tx.fees) (sym (rw f at e)) ∙ ground arith
  ]

  module _ (s t : TxState) (acc : Account) where
    -- What an accepted registering of the account comes to.
    pub record Registered : Type 0 where
      pub acc' : Account
      pub became : Became tx tx.miner_id (reg_id_at height index) acc acc'
      pub entered :
          Entered
            (keys.get_key_id tx.user_key)
            (some acc')
            (reg_id_at height index)
            (some (keys.get_key_id tx.user_key))
            s.view
            t.view
      pub unregistered :
          (keys.is_fully_valid acc.public_key
            && keys.get_key_id acc.public_key == keys.get_key_id tx.user_key)
          ≡ false
      pub miner_fits : MinerFits keys tx.miner_id
      pub logs : t.undo.account_log ≡ s.undo.account_log ++ account_log acc ∷ []

    Charged-Registered : Charged keys params tx height index s t acc → Registered
    unfolding account_log
    Charged-Registered facts = record {
      acc' = reg keys params tx height index tx.miner_id facts.acc';
      became =
          reg-Became tx.miner_id acc facts.acc'
            (sym (unfees-key_id keys params tx height index (account_log acc) facts.acc')
              ∙ ap (λ a. a.key_id) undone)
            (sym (unfees-public_key keys params tx height index (account_log acc) facts.acc')
              ∙ ap (λ a. a.public_key) undone)
            (sym (unfees-miner_pkey keys params tx height index (account_log acc) facts.acc')
              ∙ ap (λ a. a.miner_pkey) undone)
            (charge_fees-values (record acc { public_key = tx.user_key }) facts.acc' facts.paid);
      entered = facts.entered;
      unregistered = facts.unregistered;
      miner_fits = bad_miner-MinerFits tx.miner_id facts.good_miner;
      logs = facts.logs;
    }
      where
        undone :
            unfees keys params tx height index (account_log acc) facts.acc'
            ≡ record acc { public_key = tx.user_key }
        undone =
            ap (λ r. unfees keys params tx height index (account_log acc) r.1) (sym facts.paid)
            ∙ unfees-charge_fees keys params tx height index
                (record acc { public_key = tx.user_key })

    -- On a sound cache in which the account of a user's public key stands under that key: a
    -- registering that is accepted finds an account whose own public key does not belong to it, and a
    -- miner's key, if the transaction names one of 33 bytes, that is a point of the curve. After it,
    -- the account has the user's public key, the id of the height and the index, the miner's key that
    -- is named, or else its old one, and its balance less exactly the fees, if these are positive.
    -- The id leads to the key, no other account or id differs, and the log of the account from before
    -- is added to the undo.
    pub register-Registered :
        IsCache s.view
        → account_of (keys.get_key_id tx.user_key) s.view ≡ some acc
        → acc.key_id ≡ keys.get_key_id tx.user_key
        → register keys params tx height index s ≡ accepted t
        → Registered
    register-Registered cached there keyed e =
        Charged-Registered
          (register-Charged keys params tx height index s t acc cached there keyed e)
