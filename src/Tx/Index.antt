-- ===== src/Tx/Index.antt =====
-- The lists of transactions of an address (src/tx.cpp, where `GetAddressToTxFlag` is set).
use dacrs.Base.{ℕ, ◌+◌, Option, none, some}
use dacrs.Account.{KeyId, PubKeys}
use dacrs.Views.{AccountView}
use dacrs.Views.ByUser.{UserId, get_key_id_by}
use dacrs.ScriptDb.{Bytes}
use dacrs.ScriptDb.Data.{set_tx_hash_by_address}
use dacrs.Tx.{TxState, no_reason, Outcome, accepted, rejected, with_view, push_script_log}

-- The place of the transaction in the lists of its addresses.
module _ (keys : PubKeys) (hash : Bytes) (height index : ℕ) where
  abbrev pub index_key : KeyId → TxState → TxState
  index_key key s =
      let (log, d) = set_tx_hash_by_address key height (index + 1) hash s.script_db in
      push_script_log log (record s { script_db = d })

  -- One user: the key is read from the view.
  abbrev pub index_user : Option KeyId × AccountView → TxState → Outcome
  index_user (none, v) s = rejected no_reason (with_view v s)
  index_user (some key, v) s = accepted (index_key key (with_view v s))

  abbrev pub index_second : KeyId → Option KeyId × AccountView → TxState → Outcome
  index_second src_key (none, v) s = rejected no_reason (with_view v s)
  index_second src_key (some des_key, v) s =
      accepted (index_key des_key (index_key src_key (with_view v s)))

  abbrev pub index_both : UserId → Option KeyId × AccountView → TxState → Outcome
  index_both des (none, v) s = rejected no_reason (with_view v s)
  index_both des (some src_key, v) s =
      index_second src_key (get_key_id_by keys des v) (with_view v s)

abbrev pub set_tx_hash : Bytes → TxState → TxState
set_tx_hash hash s = record s { undo = record s.undo { tx_hash = hash } }
