-- ===== src/Tx/Unregistered.antt =====
-- What the undo of a registering leaves (src/tx.cpp: `CRegisterAccountTx::ExecuteTx` and
-- `UndoExecuteTx`).
use dacrs.Base.{
  ℕ, Option, none, some, [], ◌∷◌, ◌++◌, ◌≡◌, refl, sym, ◌∙◌, ap, subst, arith, ◌==◌, ==_refl,
  if◌then◌else◌, Bool-cases, inl, inr,
}
use mathlib.Core.Option.{some-injective, none-ne-some}
use dacrs.Base.Int.{pos, ltb_ℤ}
use dacrs.Base.Dict.{same_bytes, bytes_key}
use dacrs.Account.{
  ChainParams, Account, AccountLog, KeyId, RegId, PubKeys, account_log, undo_operate_account,
  is_empty_value,
}
use dacrs.Views.{AccountView, present}
use dacrs.Views.Observe.{account_of, key_of, SameView}
use dacrs.Views.Reads.{account-is_live}
use dacrs.Views.ByUser.{by_reg, get_account_by, get_key_id_by, erase_id_by}
use dacrs.Views.Identity.{account_at, key_by}
use dacrs.Views.Layer.{IsCache, Got, get_account_by-Got, Put, set_account-Put, erase_account-Put}
use dacrs.Tx.{TxState, Outcome, accepted, with_view}
use dacrs.Tx.Revert.{get_account_oper_log}
use dacrs.Tx.Register.{
  RegisterAccountTx, reg_id_at, registered, register, leave_unregistered, unregister_with,
  unregister_found, undo_execute_register,
}
use dacrs.Tx.Entries.{Entered, GotKey, get_key_id_of-GotKey, erase_key_id-PutKey}
use dacrs.Tx.Registering.{
  left, reg-is_empty_value, left-reg, unfees, unfees-reg, unfees-charge_fees,
}
use dacrs.Tx.Charged.{Charged, register-Charged}

-- Acceptance, with exactly one account changed and one registered id gone.
pub data Dropped (key : KeyId) (found : Option Account) (id : RegId) (v : AccountView)
    : Outcome → Type 0 where
  dropped : (u : TxState) → Entered key found id none v u.view → Dropped key found id v (accepted u)

module _ (keys : PubKeys) (params : ChainParams) (tx : RegisterAccountTx) (height index : ℕ) where
  abbrev key : KeyId
  key = keys.get_key_id tx.user_key

  abbrev id : RegId
  id = reg_id_at height index

  abbrev kept : Account → Option Account
  kept acc =
      if is_empty_value acc then none else present (record acc { public_key = []; miner_pkey = [] })

  erased-Entered :
      (found : Option Account) (v w : AccountView)
      → Put key found v w
      → Entered key found id none v (erase_id_by (by_reg id) w).1
  unfolding erase_id_by
  erased-Entered found v w put =
      let erased = erase_key_id-PutKey id w put.cache in
      record {
        accounts = λ j. erased.is.accounts j ∙ put.is.accounts j;
        key_ids = λ i.
            erased.is.key_ids i ∙ ap (λ k. if same_bytes i id then none else k) (put.is.key_ids i);
        cache = erased.cache;
      }

  leave_unregistered-Dropped :
      (acc : Account) (w : TxState)
      → IsCache w.view
      → Dropped key (kept acc) id w.view (leave_unregistered keys params tx height index key acc w)
  leave_unregistered-Dropped acc w cached = elim (Bool-cases (is_empty_value acc)) [
    | inl f ↦ rw f (dropped _ (erased-Entered none w.view _ (erase_account-Put key w.view cached)))
    | inr f ↦ rw f (dropped _ (erased-Entered _ w.view _ (set_account-Put key _ w.view cached)))
  ]

  through-Dropped :
      (found : Option Account) (v w : AccountView) (o : Outcome)
      → SameView v w
      → Dropped key found id v o
      → Dropped key found id w o
  through-Dropped found v w o same (dropped u is) = dropped u (record {
    accounts = λ j. is.accounts j ∙ ap (λ d. if j == key then found else d) (same.accounts j);
    key_ids = λ i. is.key_ids i ∙ ap (λ k. if same_bytes i id then none else k) (same.key_ids i);
    cache = is.cache;
  })

  unregister_with-Dropped :
      (log : AccountLog) (acc : Account) (w : TxState) (r : Option KeyId × AccountView)
      → GotKey (some key) w.view r
      → get_account_oper_log key w.undo.account_log ≡ some log
      → Dropped key
          (kept (unfees keys params tx height index log acc))
          id
          w.view
          (unregister_with keys params tx height index acc r w)
  unregister_with-Dropped log acc w (none, v) got logged = absurd (none-ne-some key got.result)
  unregister_with-Dropped log acc w (some k, v) got logged =
      rw (some-injective _ _ got.result) (elim (Bool-cases (ltb_ℤ (pos 0) tx.fees)) [
        | inl f ↦
            rw (f, logged)
              (through-Dropped _ v w.view _ got.same (
                leave_unregistered-Dropped (undo_operate_account log acc) (with_view v w)
                  got.cache))
        | inr f ↦ rw f (
            through-Dropped _ v w.view _ got.same
              (leave_unregistered-Dropped acc (with_view v w) got.cache))
      ])

  unregister_found-Dropped :
      (log : AccountLog) (acc : Account) (w : TxState) (r : Option Account × AccountView)
      → Got (some acc) w.view r
      → key_of id w.view ≡ some key
      → get_account_oper_log key w.undo.account_log ≡ some log
      → Dropped key
          (kept (unfees keys params tx height index log acc))
          id
          w.view
          (unregister_found keys params tx height index r w)
  unfolding get_key_id_by
  unregister_found-Dropped log acc w (none, v) got leads logged =
      absurd (none-ne-some acc got.result)
  unregister_found-Dropped log acc w (some acc', v) got leads logged =
      rw (some-injective _ _ (sym got.result)) (
        through-Dropped _ v w.view _ got.same (
          unregister_with-Dropped log acc' (with_view v w) _
            (subst (λ k. GotKey k v (get_key_id_by keys (by_reg id) v))
              (got.same.key_ids id ∙ leads) (get_key_id_of-GotKey id v got.cache))
            logged))

  -- The two changes, one over the other.
  over-Dropped :
      (acc found : Option Account) (leads : Option KeyId) (v w : AccountView) (o : Outcome)
      → Entered key acc id leads v w
      → Dropped key found id w o
      → Dropped key found id v o
  over-Dropped acc found leads v w o entered (dropped u is) = dropped u (record {
    accounts = λ j. is.accounts j ∙ ground (arith, entered.accounts j);
    key_ids = λ i. is.key_ids i ∙ ground (arith, entered.key_ids i);
    cache = is.cache;
  })

  module _ (s t : TxState) (acc : Account) (cached : IsCache s.view)
      (there : account_of key s.view ≡ some acc) (keyed : acc.key_id ≡ key)
      (empty : s.undo.account_log ≡ []) (facts : Charged keys params tx height index s t acc) where
    abbrev undone : Account
    undone =
        unfees keys params tx height index (account_log acc)
          (registered keys params tx height index facts.acc')

    before :
        unfees keys params tx height index (account_log acc) facts.acc'
        ≡ record acc { public_key = tx.user_key }
    unfolding account_log
    before =
        ap (λ r. unfees keys params tx height index (account_log acc) r.1) (sym facts.paid)
        ∙ unfees-charge_fees keys params tx height index (record acc { public_key = tx.user_key })

    undone-is :
        undone ≡ registered keys params tx height index (record acc { public_key = tx.user_key })
    undone-is =
        unfees-reg keys params tx height index tx.miner_id (account_log acc) facts.acc'
        ∙ ap (registered keys params tx height index) before

    kept-undone : kept undone ≡ (if is_empty_value acc then none else some (left id acc))
    unfolding is_empty_value
    kept-undone =
        ap kept undone-is
        ∙ rw
            (
              reg-is_empty_value keys params tx height index tx.miner_id
                  (record acc { public_key = tx.user_key }),
              left-reg keys params tx height index tx.miner_id
                  (record acc { public_key = tx.user_key }),
            )
            (ground (arith, keyed, account-is_live key s.view cached.sound acc there))

    logged : get_account_oper_log key t.undo.account_log ≡ some (account_log acc)
    unfolding get_account_oper_log account_log
    logged =
        ap (get_account_oper_log key) (facts.logs ∙ ap (λ l. l ++ account_log acc ∷ []) empty)
        ∙ rw (ap (λ k. k == key) keyed ∙ ==_refl key) refl

    leads : key_of id t.view ≡ some key
    leads = facts.entered.key_ids id ∙ rw ((bytes_key.same_iff id id).1 refl) refl

    entered_there : account_of key t.view ≡ some (registered keys params tx height index facts.acc')
    entered_there = facts.entered.accounts key ∙ rw (==_refl key) refl

    facts-Dropped :
        Dropped key
          (if is_empty_value acc then none else some (left id acc))
          id
          s.view
          (undo_execute_register keys params tx height index t)
    unfolding undo_execute_register account_at key_by
    facts-Dropped =
        subst (λ f. Dropped key f id s.view (undo_execute_register keys params tx height index t))
          kept-undone
          (over-Dropped _ _ _ s.view t.view _ facts.entered (
            unregister_found-Dropped (account_log acc)
              (registered keys params tx height index facts.acc') t _
              (subst (λ a. Got a t.view (get_account_by keys (by_reg id) t.view))
                (ap (λ k. account_at k t.view) leads ∙ entered_there)
                (get_account_by-Got keys (by_reg id) t.view facts.entered.cache))
              leads logged))

-- On a sound cache in which the account of a user's public key stands under that key: after a
-- registering that is accepted, and logged in an empty log, its undo is accepted. The id leads to no
-- key. The account is gone if it had no money before; otherwise it is as before, but it has the id
-- of the registration, no public key and no miner's key. No other account or id differs from before.
pub register-Dropped :
    (keys : PubKeys) (params : ChainParams) (tx : RegisterAccountTx) (height index : ℕ)
    (s t : TxState) (acc : Account)
    → IsCache s.view
    → account_of (keys.get_key_id tx.user_key) s.view ≡ some acc
    → acc.key_id ≡ keys.get_key_id tx.user_key
    → s.undo.account_log ≡ []
    → register keys params tx height index s ≡ accepted t
    → Dropped
        (keys.get_key_id tx.user_key)
        (if is_empty_value acc then none else some (left (reg_id_at height index) acc))
        (reg_id_at height index)
        s.view
        (undo_execute_register keys params tx height index t)
register-Dropped keys params tx height index s t acc cached there keyed empty e =
    facts-Dropped keys params tx height index s t acc cached there keyed empty
      (register-Charged keys params tx height index s t acc cached there keyed e)
