-- ===== src/Tx/Registering.antt =====
-- The steps of an accepted registering (src/tx.cpp: `CRegisterAccountTx::ExecuteTx`).
use dacrs.Base.{
  ℕ, Bool, true, false, ◌&&◌, Option, none, some, [], ◌≡◌, refl, sym, ◌∙◌, ap, ◌==◌, if◌then◌else◌,
  Bool-cases, inl, inr,
}
use dacrs.Base.Int.{pos, pos_part, ltb_ℤ}
use dacrs.RunEnv.Check.{em_minus_free}
use dacrs.Account.{
  ChainParams, Account, AccountLog, KeyId, RegId, PubKeys, account_log, undo_operate_account,
  is_empty_value,
}
use dacrs.Account.Undo.{undo-operate_account}
use dacrs.Views.{AccountView}
use dacrs.Views.Batch.{save_account_info}
use dacrs.Views.ByUser.{UserId, null_id, by_reg, by_key, by_pub_key, get_account_by}
use dacrs.Tx.{TxState, accepted, with_view, push_log}
use dacrs.Tx.Register.{
  RegisterAccountTx, reg_id_at, charge_fees, with_miner, bad_miner, save_registered, register_found,
  register,
}
use dacrs.Tx.Transfer.{accepted-ne-rejected, accepted-injective}

-- What the undo leaves of an account with money: the id of its registration, but no keys.
abbrev pub left : RegId → Account → Account
left id acc = record acc { reg_id = id; public_key = []; miner_pkey = [] }

module _ (keys : PubKeys) (params : ChainParams) (tx : RegisterAccountTx) (height index : ℕ) where
  abbrev pub key : KeyId
  key = keys.get_key_id tx.user_key

  abbrev pub id : RegId
  id = reg_id_at height index

  abbrev pub reg : UserId → Account → Account
  reg m acc = with_miner keys params tx height index m (record acc { reg_id = id })

  pub reg-key_id : (m : UserId) (acc : Account) → (reg m acc).key_id ≡ acc.key_id
  reg-key_id null_id acc = refl
  reg-key_id (by_reg i) acc = refl
  reg-key_id (by_key k) acc = refl
  reg-key_id (by_pub_key p) acc = refl

  pub reg-is_empty_value :
      (m : UserId) (acc : Account) → is_empty_value (reg m acc) ≡ is_empty_value acc
  unfolding is_empty_value
  reg-is_empty_value null_id acc = refl
  reg-is_empty_value (by_reg i) acc = refl
  reg-is_empty_value (by_key k) acc = refl
  reg-is_empty_value (by_pub_key p) acc = refl

  undo-reg :
      (m : UserId) (log : AccountLog) (acc : Account)
      → undo_operate_account log (reg m acc) ≡ reg m (undo_operate_account log acc)
  unfolding undo_operate_account
  undo-reg null_id log acc = refl
  undo-reg (by_reg i) log acc = refl
  undo-reg (by_key k) log acc = refl
  undo-reg (by_pub_key p) log acc = refl

  pub left-reg :
      (m : UserId) (acc : Account)
      → record (reg m acc) { public_key = []; miner_pkey = [] } ≡ left id acc
  left-reg null_id acc = refl
  left-reg (by_reg i) acc = refl
  left-reg (by_key k) acc = refl
  left-reg (by_pub_key p) acc = refl

  -- The account as the undo of the fees leaves it.
  abbrev pub unfees : AccountLog → Account → Account
  unfees log acc = if ltb_ℤ (pos 0) tx.fees then undo_operate_account log acc else acc

  pub unfees-charge_fees :
      (acc : Account)
      → unfees (account_log acc) (charge_fees keys params tx height index acc).1 ≡ acc
  unfees-charge_fees acc = elim (Bool-cases (ltb_ℤ (pos 0) tx.fees)) [
    | inl f ↦ rw f (undo-operate_account params em_minus_free (pos_part tx.fees) (pos height) acc)
    | inr f ↦ rw f refl
  ]

  pub unfees-reg :
      (m : UserId) (log : AccountLog) (acc : Account)
      → unfees log (reg m acc) ≡ reg m (unfees log acc)
  unfees-reg m log acc = elim (Bool-cases (ltb_ℤ (pos 0) tx.fees)) [
    | inl f ↦ rw f (undo-reg m log acc)
    | inr f ↦ rw f refl
  ]

  pub unfees-key_id : (log : AccountLog) (acc : Account) → (unfees log acc).key_id ≡ acc.key_id
  unfolding undo_operate_account
  unfees-key_id log acc = elim (Bool-cases (ltb_ℤ (pos 0) tx.fees)) [
    | inl f ↦ rw f refl
    | inr f ↦ rw f refl
  ]

  pub unfees-public_key :
      (log : AccountLog) (acc : Account) → (unfees log acc).public_key ≡ acc.public_key
  unfolding undo_operate_account
  unfees-public_key log acc = elim (Bool-cases (ltb_ℤ (pos 0) tx.fees)) [
    | inl f ↦ rw f refl
    | inr f ↦ rw f refl
  ]

  pub unfees-miner_pkey :
      (log : AccountLog) (acc : Account) → (unfees log acc).miner_pkey ≡ acc.miner_pkey
  unfolding undo_operate_account
  unfees-miner_pkey log acc = elim (Bool-cases (ltb_ℤ (pos 0) tx.fees)) [
    | inl f ↦ rw f refl
    | inr f ↦ rw f refl
  ]

  pub charge_fees-key_id :
      (acc : Account) → (charge_fees keys params tx height index acc).1.key_id ≡ acc.key_id
  charge_fees-key_id acc =
      sym (unfees-key_id (account_log acc) (charge_fees keys params tx height index acc).1)
      ∙ ap (λ a. a.key_id) (unfees-charge_fees acc)

  -- What an accepted registering has written.
  pub record Entry (s t : TxState) : Type 0 where
    pub acc : Account
    pub acc' : Account
    pub v : AccountView
    pub read : get_account_by keys (by_pub_key tx.user_key) s.view ≡ (some acc, v)
    pub paid :
        charge_fees keys params tx height index (record acc { public_key = tx.user_key })
        ≡ (true, acc')
    pub unregistered :
        (keys.is_fully_valid acc.public_key && keys.get_key_id acc.public_key == key) ≡ false
    pub good_miner : bad_miner keys params tx height index tx.miner_id ≡ false
    pub result :
        t
        ≡ push_log
            (account_log acc)
            (with_view (save_account_info id key (reg tx.miner_id acc') v) s)

  save_registered-Entry :
      (acc : Account) (v : AccountView) (s t : TxState) (r : Bool × Account)
      → get_account_by keys (by_pub_key tx.user_key) s.view ≡ (some acc, v)
      → charge_fees keys params tx height index (record acc { public_key = tx.user_key }) ≡ r
      → (keys.is_fully_valid acc.public_key && keys.get_key_id acc.public_key == key) ≡ false
      → save_registered keys params tx height index (account_log acc) r (with_view v s) ≡ accepted t
      → Entry s t
  save_registered-Entry acc v s t (false, acc') read paid new e = absurd (accepted-ne-rejected e)
  save_registered-Entry acc v s t (true, acc') read paid new e =
      elim (Bool-cases (bad_miner keys params tx height index tx.miner_id)) [
        | inl f ↦ absurd (accepted-ne-rejected (rw f at e))
        | inr f ↦ record {
          acc = acc;
          acc' = acc';
          v = v;
          read = read;
          paid = paid;
          unregistered = new;
          good_miner = f;
          result = sym (accepted-injective (rw f at e));
        }
      ]

  register_found-Entry :
      (s t : TxState) (r : Option Account × AccountView)
      → get_account_by keys (by_pub_key tx.user_key) s.view ≡ r
      → register_found keys params tx height index r s ≡ accepted t
      → Entry s t
  register_found-Entry s t (none, v) read e = absurd (accepted-ne-rejected e)
  register_found-Entry s t (some acc, v) read e =
      elim (Bool-cases
        (keys.is_fully_valid acc.public_key && keys.get_key_id acc.public_key == key)) [
          | inl f ↦ absurd (accepted-ne-rejected (rw f at e))
          | inr f ↦ save_registered-Entry acc v s t _ read refl f (rw f at e)
        ]

  pub register-Entry :
      (s t : TxState) → register keys params tx height index s ≡ accepted t → Entry s t
  unfolding register
  register-Entry s t e = register_found-Entry s t _ refl e
