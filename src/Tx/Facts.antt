-- ===== src/Tx/Facts.antt =====
-- What an accepted transfer has done to the view (src/tx.cpp: `CTransaction::ExecuteTx`).
use dacrs.Base.{
  ℕ, true, false, Option, some, [], ◌∷◌, ◌++◌, ◌≡◌, refl, sym, ◌∙◌, ap, subst, ◌==◌, if◌then◌else◌,
  Bool-cases, inl, inr,
}
use mathlib.Core.Option.{some-injective}
use mathlib.Core.Bool.{false≢true}
use dacrs.Base.Int.{ℤ}
use dacrs.Base.Dict.{nat_key}
use dacrs.RunEnv.Check.{em_add_free, em_minus_free}
use dacrs.Account.{
  ChainParams, Account, AccountLog, KeyId, PubKeys, account_log, undo_operate_account,
  is_money_overflow, operate_account, up_date_coin_day, add_money, minus_money,
}
use dacrs.Account.Money.{up_date_coin_day-Aged}
use dacrs.Account.Undo.{undo-operate_account}
use dacrs.Views.{AccountView, present, set_account}
use dacrs.Views.Observe.{account_of, key_of}
use dacrs.Views.ByUser.{UserId, null_id, by_reg, by_key, by_pub_key}
use dacrs.Views.Identity.{account_at, key_by}
use dacrs.Views.Layer.{IsCache, Got, get_account_by-Got, Put, set_account-Put, set_account_by-Put}
use dacrs.Tx.{Transaction, TxState, minus_value}
use dacrs.Tx.Transfer.{Receives, known, fresh, Saved, Steps}

-- The key that a user stands for depends on the ids of the view alone.
pub key_by-same :
    (keys : PubKeys) (user : UserId) (v w : AccountView)
    → ((id : dacrs.Account.RegId) → key_of id w ≡ key_of id v)
    → key_by keys user w ≡ key_by keys user v
unfolding key_by
key_by-same keys null_id v w same = refl
key_by-same keys (by_reg id) v w same = same id
key_by-same keys (by_key k) v w same = refl
key_by-same keys (by_pub_key p) v w same = refl

module _ (params : ChainParams) (type value : ℕ) (height : ℤ) (acc acc' : Account)
    (e : operate_account params type value height acc ≡ (true, acc')) where
  pub operate_account-key_id : acc'.key_id ≡ acc.key_id
  unfolding undo_operate_account
  operate_account-key_id =
      sym (ap (λ r. r.1.key_id) e)
      ∙ ap (λ a. a.key_id) (undo-operate_account params type value height acc)

  -- An operation that succeeds has an amount in range.
  pub operate_account-in_range : is_money_overflow params value ≡ true
  unfolding operate_account
  operate_account-in_range = elim (Bool-cases (is_money_overflow params value)) [
    | inl f ↦ f
    | inr f ↦ absurd (false≢true (ap (λ r. r.0) (rw f at e)))
  ]

  -- And an account with a key.
  pub operate_account-has_key : (acc'.key_id == 0) ≡ false
  unfolding operate_account
  operate_account-has_key = elim (Bool-cases (aged.key_id == 0)) [
    | inr g ↦ ap (λ k. k == 0) (operate_account-key_id ∙ sym same) ∙ g
    | inl g ↦ absurd (false≢true (ap (λ r. r.0) (rw (operate_account-in_range, g) at e)))
  ]
    where
      aged : Account
      aged = (up_date_coin_day params height acc).1

      same : aged.key_id ≡ acc.key_id
      same = (up_date_coin_day-Aged params height acc).key_id

  -- What is written is then found.
  pub operate_account-present : present acc' ≡ some acc'
  operate_account-present = rw operate_account-has_key refl

-- Every account stands under its own key.
abbrev pub Keyed : AccountView → Type 0
Keyed v = (key : KeyId) (acc : Account) → account_of key v ≡ some acc → acc.key_id ≡ key

module _ (keys : PubKeys) (params : ChainParams) (height : ℤ) (tx : Transaction) (s t : TxState)
    (sk dk : KeyId) where
  -- An accepted transfer from the account of `sk` to that of `dk`.
  pub record Facts : Type 0 where
    pub src : Account
    pub src' : Account
    pub old : Option Account
    pub des : Account
    pub des' : Account
    pub src_there : account_of sk s.view ≡ some src
    pub minus :
        operate_account params em_minus_free (minus_value keys params height tx) height src
        ≡ (true, src')
    pub old_is : old ≡ (if nat_key.same dk sk then some src' else account_of dk s.view)
    pub receives : Receives keys params height tx old des
    pub add : operate_account params em_add_free tx.values height des ≡ (true, des')
    pub src_key : src.key_id ≡ sk
    pub des_key : des.key_id ≡ dk
    pub after :
        (j : KeyId)
        → account_of j t.view ≡ (
            if nat_key.same j dk
            then some des'
            else (if nat_key.same j sk then some src' else account_of j s.view))
    pub ids : (id : dacrs.Account.RegId) → key_of id t.view ≡ key_of id s.view
    pub cache : IsCache t.view
    pub logs :
        t.undo.account_log ≡ (s.undo.account_log ++ account_log src ∷ []) ++ account_log des ∷ []

module _ (keys : PubKeys) (params : ChainParams) (height : ℤ) (tx : Transaction) (s t : TxState)
    (sk dk : KeyId) (cached : IsCache s.view) (keyed : Keyed s.view)
    (from : key_by keys tx.src_reg_id s.view ≡ some sk)
    (to : key_by keys tx.des_user_id s.view ≡ some dk)
    (steps : Steps keys params height tx s t) where
  read_src :
      Got (account_at (key_by keys tx.src_reg_id s.view) s.view) s.view (some steps.src, steps.v1)
  read_src =
      subst (Got (account_at (key_by keys tx.src_reg_id s.view) s.view) s.view) steps.read_src
        (get_account_by-Got keys tx.src_reg_id s.view cached)

  src_there : account_of sk s.view ≡ some steps.src
  unfolding account_at
  src_there = sym (read_src.result ∙ ap (λ k. account_at k s.view) from)

  src_key : steps.src.key_id ≡ sk
  src_key = keyed sk steps.src src_there

  src'_key : steps.src'.key_id ≡ sk
  src'_key = operate_account-key_id params _ _ height steps.src steps.src' steps.minus ∙ src_key

  abbrev v2 : AccountView
  v2 = set_account steps.src'.key_id steps.src' steps.v1

  v2-Put : Put steps.src'.key_id (present steps.src') steps.v1 v2
  v2-Put = set_account-Put steps.src'.key_id steps.src' steps.v1 read_src.cache

  in_v2 :
      (j : KeyId)
      → account_of j v2 ≡ (if nat_key.same j sk then some steps.src' else account_of j s.view)
  in_v2 j =
      v2-Put.is.accounts j
      ∙ rw
          (
            operate_account-present params _ _ height steps.src steps.src' steps.minus,
            read_src.same.accounts j,
            src'_key,
          )
          refl

  ids_v2 : (id : dacrs.Account.RegId) → key_of id v2 ≡ key_of id s.view
  ids_v2 id = v2-Put.is.key_ids id ∙ read_src.same.key_ids id

  read_des : Got (account_at (key_by keys tx.des_user_id v2) v2) v2 (steps.old, steps.v3)
  read_des =
      subst (Got (account_at (key_by keys tx.des_user_id v2) v2) v2) steps.read_des
        (get_account_by-Got keys tx.des_user_id v2 v2-Put.cache)

  to_v2 : key_by keys tx.des_user_id v2 ≡ some dk
  to_v2 = key_by-same keys tx.des_user_id s.view v2 ids_v2 ∙ to

  old_is : steps.old ≡ (if nat_key.same dk sk then some steps.src' else account_of dk s.view)
  unfolding account_at
  old_is = read_des.result ∙ ap (λ k. account_at k v2) to_v2 ∙ in_v2 dk

  known_key : (des : Account) → steps.old ≡ some des → des.key_id ≡ dk
  known_key des e = elim (Bool-cases (nat_key.same dk sk)) [
    | inl f ↦
        ap (λ a. a.key_id) (sym (some-injective _ _ (rw f at (sym old_is ∙ e))))
        ∙ src'_key
        ∙ sym ((nat_key.same_iff dk sk).0 f)
    | inr f ↦ keyed dk des (rw f at (sym old_is ∙ e))
  ]

  received_key : (des : Account) → Receives keys params height tx steps.old des → des.key_id ≡ dk
  unfolding key_by
  received_key des (known e) = known_key des e
  received_key des (fresh k e is new common) =
      ap (λ a. a.key_id) new ∙ some-injective _ _ (sym (ap (λ u. key_by keys u s.view) is) ∙ to)

  abbrev saved : Saved keys params height tx (account_log steps.src) steps.old steps.v3 s t
  saved = steps.saved

  saved-Put : Put dk (present saved.des') steps.v3 saved.v'
  saved-Put =
      subst (λ r. Put dk (present saved.des') steps.v3 r.1) saved.set
        (set_account_by-Put keys tx.des_user_id saved.des' dk steps.v3 read_des.cache
          (key_by-same keys tx.des_user_id v2 steps.v3 read_des.same.key_ids ∙ to_v2)
          (ap (λ r. r.0) saved.set))

  after :
      (j : KeyId)
      → account_of j saved.v' ≡ (
          if nat_key.same j dk
          then some saved.des'
          else (if nat_key.same j sk then some steps.src' else account_of j s.view))
  after j =
      saved-Put.is.accounts j
      ∙ rw
          (
            operate_account-present params _ _ height saved.des saved.des' saved.add,
            read_des.same.accounts j,
            in_v2 j,
          )
          refl

  pub steps-Facts : Facts keys params height tx s t sk dk
  steps-Facts = record {
    src = steps.src;
    src' = steps.src';
    old = steps.old;
    des = saved.des;
    des' = saved.des';
    src_there = src_there;
    minus = steps.minus;
    old_is = old_is;
    receives = saved.receives;
    add = saved.add;
    src_key = src_key;
    des_key = received_key saved.des saved.receives;
    after = λ j. ap (λ u. account_of j u.view) saved.result ∙ after j;
    ids = λ id.
        ap (λ u. key_of id u.view) saved.result
        ∙ saved-Put.is.key_ids id
        ∙ read_des.same.key_ids id
        ∙ ids_v2 id;
    cache = subst (λ u. IsCache u.view) (sym saved.result) saved-Put.cache;
    logs = ap (λ u. u.undo.account_log) saved.result;
  }
