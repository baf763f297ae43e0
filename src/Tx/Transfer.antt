-- ===== src/Tx/Transfer.antt =====
-- The steps of a transfer that is accepted (src/tx.cpp: `CTransaction::ExecuteTx`).
use dacrs.Base.{
  Bool, true, false, Option, none, some, ◌≡◌, inl, inr, refl, sym, ◌==◌, if◌then◌else◌, Bool-cases,
}
use dacrs.Base.Int.{ℤ}
use dacrs.RunEnv.Check.{em_add_free, em_minus_free}
use dacrs.Account.{ChainParams, Account, AccountLog, KeyId, PubKeys, account_log, operate_account}
use dacrs.Views.{AccountView, set_account}
use dacrs.Views.ByUser.{UserId, null_id, by_reg, by_key, by_pub_key, get_account_by, set_account_by}
use dacrs.Tx.{
  Transaction, TxState, Outcome, accepted, rejected, with_view, push_log, account_for, em_common_tx,
  minus_value, save_destination, receive, receive_new, save_source, send, transfer,
}

pub accepted-ne-rejected :
    {reason : dacrs.Tx.Reason} {s t : TxState} → rejected reason s ≡ accepted t → ⊥
accepted-ne-rejected e = cc

pub accepted-injective : {s t : TxState} → accepted s ≡ accepted t → s ≡ t
accepted-injective e = cc

module _ (keys : PubKeys) (params : ChainParams) (height : ℤ) (tx : Transaction) where
  -- The account that receives: one that is known, or a new one of an address.
  pub data Receives (old : Option Account) (des : Account) : Type 0 where
    known : old ≡ some des → Receives old des
    fresh :
        (k : KeyId)
        → old ≡ none
        → tx.des_user_id ≡ by_key k
        → des ≡ account_for k
        → (tx.tx_type == em_common_tx) ≡ true
        → Receives old des

  -- What the saving of the account that receives has done.
  pub record Saved (src_log : AccountLog) (old : Option Account) (v : AccountView) (s t : TxState)
      : Type 0 where
    pub des : Account
    pub des' : Account
    pub v' : AccountView
    pub receives : Receives old des
    pub add : operate_account params em_add_free tx.values height des ≡ (true, des')
    pub set : set_account_by keys tx.des_user_id des' v ≡ (true, v')
    pub result : t ≡ push_log (account_log des) (push_log src_log (with_view v' s))

  saved-Saved :
      (src_log : AccountLog) (old : Option Account) (des des' : Account) (v : AccountView)
      (s t : TxState) (r : Bool × AccountView)
      → Receives old des
      → operate_account params em_add_free tx.values height des ≡ (true, des')
      → set_account_by keys tx.des_user_id des' v ≡ r
      → (if r.0
          then accepted (push_log (account_log des) (push_log src_log (with_view r.1 s)))
          else rejected dacrs.Tx.bad_save_account (with_view r.1 s))
        ≡ accepted t
      → Saved src_log old v s t
  saved-Saved src_log old des des' v s t (false, v') how add set e = absurd (accepted-ne-rejected e)
  saved-Saved src_log old des des' v s t (true, v') how add set e = record {
    des = des;
    des' = des';
    v' = v';
    receives = how;
    add = add;
    set = set;
    result = sym (accepted-injective e);
  }

  save_destination-Saved :
      (src_log : AccountLog) (old : Option Account) (des : Account) (v : AccountView)
      (s t : TxState) (r : Bool × Account)
      → Receives old des
      → operate_account params em_add_free tx.values height des ≡ r
      → save_destination keys params height tx src_log (account_log des) r (with_view v s)
        ≡ accepted t
      → Saved src_log old v s t
  save_destination-Saved src_log old des v s t (false, des') how add e =
      absurd (accepted-ne-rejected e)
  save_destination-Saved src_log old des v s t (true, des') how add e =
      saved-Saved src_log old des des' v s t (set_account_by keys tx.des_user_id des' v) how add
        refl e

  fresh-Saved :
      (src_log : AccountLog) (k : KeyId) (v : AccountView) (s t : TxState)
      → tx.des_user_id ≡ by_key k
      → (if tx.tx_type == em_common_tx
          then save_destination keys params height tx src_log
              (account_log (account_for k))
              (operate_account params em_add_free tx.values height (account_for k))
              (with_view v s)
          else rejected dacrs.Tx.bad_read_accountdb (with_view v s))
        ≡ accepted t
      → Saved src_log none v s t
  fresh-Saved src_log k v s t to_key e = elim (Bool-cases (tx.tx_type == em_common_tx)) [
    | inl f ↦
        save_destination-Saved src_log none (account_for k) v s t _ (fresh k refl to_key refl f)
          refl (rw f at e)
    | inr f ↦ absurd (accepted-ne-rejected (rw f at e))
  ]

  receive_new-Saved :
      (src_log : AccountLog) (v : AccountView) (s t : TxState) (user : UserId)
      → tx.des_user_id ≡ user
      → receive_new keys params height tx src_log user (with_view v s) ≡ accepted t
      → Saved src_log none v s t
  receive_new-Saved src_log v s t null_id is e = absurd (accepted-ne-rejected e)
  receive_new-Saved src_log v s t (by_reg id) is e = absurd (accepted-ne-rejected e)
  receive_new-Saved src_log v s t (by_pub_key p) is e = absurd (accepted-ne-rejected e)
  receive_new-Saved src_log v s t (by_key k) is e = fresh-Saved src_log k v s t is e

  receive-Saved :
      (src_log : AccountLog) (r : Option Account × AccountView) (s t : TxState)
      → receive keys params height tx src_log r s ≡ accepted t
      → Saved src_log r.0 r.1 s t
  receive-Saved src_log (none, v) s t e = receive_new-Saved src_log v s t tx.des_user_id refl e
  receive-Saved src_log (some des, v) s t e =
      save_destination-Saved src_log (some des) des v s t _ (known refl) refl e

  -- The whole of an accepted transfer.
  pub record Steps (s t : TxState) : Type 0 where
    pub src : Account
    pub src' : Account
    pub old : Option Account
    pub v1 : AccountView
    pub v3 : AccountView
    pub read_src : get_account_by keys tx.src_reg_id s.view ≡ (some src, v1)
    pub minus :
        operate_account params em_minus_free (minus_value keys params height tx) height src
        ≡ (true, src')
    pub read_des : get_account_by keys tx.des_user_id (set_account src'.key_id src' v1) ≡ (old, v3)
    pub saved : Saved (account_log src) old v3 s t

  -- The view that a step starts from is replaced.
  any_view-Saved :
      (src_log : AccountLog) (old : Option Account) (v w : AccountView) (s t : TxState)
      → Saved src_log old v (with_view w s) t
      → Saved src_log old v s t
  any_view-Saved src_log old v w s t saved = record {
    des = saved.des;
    des' = saved.des';
    v' = saved.v';
    receives = saved.receives;
    add = saved.add;
    set = saved.set;
    result = saved.result;
  }

  save_source-Steps :
      (src : Account) (v1 : AccountView) (s t : TxState) (r : Bool × Account)
      → get_account_by keys tx.src_reg_id s.view ≡ (some src, v1)
      → operate_account params em_minus_free (minus_value keys params height tx) height src ≡ r
      → save_source keys params height tx (account_log src) r (with_view v1 s) ≡ accepted t
      → Steps s t
  save_source-Steps src v1 s t (false, src') read minus e = absurd (accepted-ne-rejected e)
  save_source-Steps src v1 s t (true, src') read minus e = record {
    src = src;
    src' = src';
    old = (get_account_by keys tx.des_user_id (set_account src'.key_id src' v1)).0;
    v1 = v1;
    v3 = (get_account_by keys tx.des_user_id (set_account src'.key_id src' v1)).1;
    read_src = read;
    minus = minus;
    read_des = refl;
    saved =
        any_view-Saved (account_log src) _ _ (set_account src'.key_id src' v1) s t
          (receive-Saved (account_log src) _ _ t e);
  }

  send-Steps :
      (r : Option Account × AccountView) (s t : TxState)
      → get_account_by keys tx.src_reg_id s.view ≡ r
      → send keys params height tx r s ≡ accepted t
      → Steps s t
  send-Steps (none, v) s t read e = absurd (accepted-ne-rejected e)
  send-Steps (some src, v) s t read e = save_source-Steps src v s t _ read refl e

  pub transfer-Steps : (s t : TxState) → transfer keys params height tx s ≡ accepted t → Steps s t
  unfolding transfer
  transfer-Steps s t e = send-Steps _ s t refl e
