-- ===== src/Tx/Undo.antt =====
-- Undoing an accepted transfer (src/tx.cpp: `CTransaction::ExecuteTx`,
-- `CBaseTransaction::UndoExecuteTx`).
use dacrs.Base.{
  ℕ, Bool, true, false, not, ◌&&◌, Option, none, some, [], ◌∷◌, ◌++◌, ◌≡◌, ◌≢◌, refl, sym, ◌∙◌, ap,
  subst, arith, ◌==◌, ==_ne, ==_refl, if◌then◌else◌, Bool-cases, inl, inr,
}
use mathlib.Core.Option.{some-injective, none-ne-some}
use dacrs.Base.Int.{ℤ}
use dacrs.Base.Dict.{nat_key}
use dacrs.RunEnv.Check.{em_add_free, em_minus_free}
use dacrs.Account.{
  ChainParams, Account, AccountLog, KeyId, PubKeys, account_log, undo_operate_account,
  is_empty_value, is_register, operate_account,
}
use dacrs.Account.Undo.{undo-operate_account}
use dacrs.Views.{AccountView, present, set_account, erase_account}
use dacrs.Views.Observe.{account_of}
use dacrs.Views.Reads.{account-is_live}
use dacrs.Views.ByUser.{by_key, get_account_by}
use dacrs.Views.Identity.{account_at, key_by}
use dacrs.Views.Layer.{IsCache, Got, get_account_by-Got, Put, set_account-Put, erase_account-Put}
use dacrs.Tx.{Transaction, TxState, Outcome, accepted, and_then, with_view, em_common_tx, transfer}
use dacrs.Tx.Revert.{put_back, undo_log, undo_logs}
use dacrs.Tx.Transfer.{Receives, known, fresh, transfer-Steps}
use dacrs.Tx.Facts.{Keyed, Facts, steps-Facts}

-- Acceptance, with exactly one account changed.
data One (key : KeyId) (found : Option Account) (w : TxState) : Outcome → Type 0 where
  one :
      (u : TxState)
      → ((j : KeyId)
          → account_of j u.view ≡ (if nat_key.same j key then found else account_of j w.view))
      → IsCache u.view
      → One key found w (accepted u)

module _ (keys : PubKeys) (tx_type : ℕ) where
  -- Whether the undo takes an account for one that the transfer has made.
  abbrev pub is_made : Account → Bool
  is_made acc = tx_type == em_common_tx && is_empty_value acc && not (is_register keys acc)

  put_back-One :
      (key : KeyId) (acc : Account) (w : TxState)
      → IsCache w.view
      → One key (if is_made acc then none else present acc) w (put_back keys tx_type key acc w)
  put_back-One key acc w cached = elim (Bool-cases (is_made acc)) [
    | inl e ↦ rw e (one _ erased.is.accounts erased.cache)
    | inr e ↦ rw e (one _ set.is.accounts set.cache)
  ]
    where
      erased : Put key none w.view (erase_account key w.view)
      erased = erase_account-Put key w.view cached

      set : Put key (present acc) w.view (set_account key acc w.view)
      set = set_account-Put key acc w.view cached

  through-One :
      (key : KeyId) (found : Option Account) (v : AccountView) (w : TxState) (o : Outcome)
      → ((j : KeyId) → account_of j v ≡ account_of j w.view)
      → One key found (with_view v w) o
      → One key found w o
  through-One key found v w o same (one u at cached) =
      one u (λ j. at j ∙ ap (λ d. if nat_key.same j key then found else d) (same j)) cached

  undo_log-One :
      (log : AccountLog) (acc : Account) (w : TxState) (r : Option Account × AccountView)
      → Got (some acc) w.view r
      → One log.key_id
          (if is_made (undo_operate_account log acc)
            then none
            else present (undo_operate_account log acc))
          w
          (undo_log keys tx_type log r w)
  undo_log-One log acc w (none, v) got = absurd (none-ne-some acc got.result)
  undo_log-One log acc w (some acc', v) got = rw (some-injective _ _ (sym got.result)) (
      through-One log.key_id _ v w _ got.same.accounts
        (put_back-One log.key_id (undo_operate_account log acc') (with_view v w) got.cache))

  -- The log of an account from before an operation, on the account after it.
  undo_operated-One :
      (params : ChainParams) (type value : ℕ) (height : ℤ) (acc acc' : Account) (w : TxState)
      → operate_account params type value height acc ≡ (true, acc')
      → IsCache w.view
      → account_of acc.key_id w.view ≡ some acc'
      → One acc.key_id (if is_made acc then none else present acc) w (
          undo_log keys tx_type
            (account_log acc)
            (get_account_by keys (by_key acc.key_id) w.view)
            w)
  unfolding account_log account_at key_by
  undo_operated-One params type value height acc acc' w e cached there =
      subst
        (λ a. One acc.key_id (if is_made a then none else present a) w (
          undo_log keys tx_type (account_log acc) (get_account_by keys (by_key acc.key_id) w.view)
            w))
        restored
        (undo_log-One (account_log acc) acc' w _ (
          subst (λ f. Got f w.view (get_account_by keys (by_key acc.key_id) w.view)) there
            (get_account_by-Got keys (by_key acc.key_id) w.view cached)))
    where
      restored : undo_operate_account (account_log acc) acc' ≡ acc
      restored =
          ap (λ r. undo_operate_account (account_log acc) r.1) (sym e)
          ∙ undo-operate_account params type value height acc

-- The view holds no account that a transfer could have made.
abbrev pub NoneMade : PubKeys → ℕ → AccountView → Type 0
NoneMade keys tx_type v =
    (key : KeyId) (acc : Account) → account_of key v ≡ some acc → is_made keys tx_type acc ≡ false

-- Acceptance, with the accounts of the view as they were.
pub data Undone (v : AccountView) : Outcome → Type 0 where
  undone :
      (u : TxState) → ((j : KeyId) → account_of j u.view ≡ account_of j v) → Undone v (accepted u)

module _ (keys : PubKeys) (params : ChainParams) (height : ℤ) (tx : Transaction) (s t : TxState)
    (sk dk : KeyId) (apart : sk ≢ dk) (cached : IsCache s.view)
    (stays : NoneMade keys tx.tx_type s.view) (no_key : keys.is_fully_valid [] ≡ false)
    (facts : Facts keys params height tx s t sk dk) where
  old_there : facts.old ≡ account_of dk s.view
  old_there = facts.old_is ∙ rw (==_ne dk sk (λ e. apart (sym e))) refl

  -- The account that received is as before, a new one is gone.
  des_back :
      (des : Account)
      → Receives keys params height tx facts.old des
      → (if is_made keys tx.tx_type des then none else present des) ≡ account_of dk s.view
  unfolding is_empty_value is_register
  des_back des (known e) =
      rw (stays dk des (sym old_there ∙ e))
        (account-is_live dk s.view cached.sound des (sym old_there ∙ e) ∙ sym e ∙ old_there)
  des_back des (fresh k e is new common) = rw (new, common, no_key) (sym e ∙ old_there)

  src_back :
      (if is_made keys tx.tx_type facts.src then none else present facts.src) ≡ account_of sk s.view
  src_back =
      rw (stays sk facts.src facts.src_there)
        (account-is_live sk s.view cached.sound facts.src facts.src_there ∙ sym facts.src_there)

  both_back :
      (u : TxState) (o : Outcome)
      → ((j : KeyId)
          → account_of j u.view ≡ (
              if nat_key.same j facts.des.key_id
              then account_of dk s.view
              else account_of j t.view))
      → One facts.src.key_id (account_of sk s.view) u o
      → Undone s.view o
  both_back u o at (one w at_w cache_w) = undone w (λ j.
      at_w j
      ∙ ground (
        arith,
        at j,
        facts.after j,
        nat_key.same_iff j sk,
        nat_key.same_iff j dk,
        facts.src_key,
        facts.des_key,
      ))

  src-Undone :
      (o : Outcome)
      → One facts.des.key_id (account_of dk s.view) t o
      → Undone s.view (
          and_then
            (λ u.
              undo_log keys tx.tx_type
                (account_log facts.src)
                (get_account_by keys (by_key facts.src.key_id) u.view)
                u)
            o)
  src-Undone o (one u at cache_u) = both_back u _ at (
      subst
        (λ f. One facts.src.key_id f u (
          undo_log keys tx.tx_type (account_log facts.src)
            (get_account_by keys (by_key facts.src.key_id) u.view) u))
        src_back
        (undo_operated-One keys tx.tx_type params em_minus_free _ height facts.src facts.src' u
          facts.minus cache_u there))
    where
      there : account_of facts.src.key_id u.view ≡ some facts.src'
      there =
          at facts.src.key_id
          ∙ rw (facts.src_key, facts.des_key, ==_ne sk dk apart)
              (facts.after sk ∙ rw (==_ne sk dk apart, ==_refl sk) refl)

  logs-Undone :
      Undone s.view
        (undo_logs keys tx.tx_type (account_log facts.src ∷ account_log facts.des ∷ []) t)
  unfolding undo_logs account_log
  logs-Undone = src-Undone _ (
      subst
        (λ f. One facts.des.key_id f t (
          undo_log keys tx.tx_type (account_log facts.des)
            (get_account_by keys (by_key facts.des.key_id) t.view) t))
        (des_back facts.des facts.receives)
        (undo_operated-One keys tx.tx_type params em_add_free tx.values height facts.des facts.des'
          t facts.add facts.cache there))
    where
      there : account_of facts.des.key_id t.view ≡ some facts.des'
      there = rw facts.des_key (facts.after dk ∙ rw (==_refl dk) refl)

-- On a sound cache in which every account stands under its own key, and which holds no account that
-- an undo takes for one that a transfer has made: after a transfer from one account to another that
-- is accepted, and logged in an empty log, undoing the log succeeds, and every key has the account
-- that it had before, or none if it had none. The empty bytes are no public key.
pub transfer-Undone :
    (keys : PubKeys) (params : ChainParams) (height : ℤ) (tx : Transaction) (s t : TxState)
    (sk dk : KeyId)
    → sk ≢ dk
    → IsCache s.view
    → Keyed s.view
    → NoneMade keys tx.tx_type s.view
    → keys.is_fully_valid [] ≡ false
    → s.undo.account_log ≡ []
    → key_by keys tx.src_reg_id s.view ≡ some sk
    → key_by keys tx.des_user_id s.view ≡ some dk
    → transfer keys params height tx s ≡ accepted t
    → Undone s.view (undo_logs keys tx.tx_type t.undo.account_log t)
transfer-Undone keys params height tx s t sk dk apart cached keyed stays no_key empty from to e =
    subst (λ logs. Undone s.view (undo_logs keys tx.tx_type logs t)) (sym two)
      (logs-Undone keys params height tx s t sk dk apart cached stays no_key facts)
  where
    facts : Facts keys params height tx s t sk dk
    facts =
        steps-Facts keys params height tx s t sk dk cached keyed from to
          (transfer-Steps keys params height tx s t e)

    two : t.undo.account_log ≡ account_log facts.src ∷ account_log facts.des ∷ []
    two =
        facts.logs
        ∙ ap (λ logs. (logs ++ account_log facts.src ∷ []) ++ account_log facts.des ∷ []) empty
