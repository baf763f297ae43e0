-- ===== src/Views/ByUser.antt =====
-- Access to a view by registered id, key or public key (src/database.cpp: the operations of
-- `CAccountViewCache` on a `CUserID`, and `GetAccount` by registered id).
use dacrs.Base.{ℕ, Bool, true, false, Option, none, some, ◌==◌, if◌then◌else◌}
use dacrs.Base.Dict.{lookup, nat_key, bytes_key}
use dacrs.Account.{Account, KeyId, RegId, PubKey, PubKeys}
use dacrs.RunEnv.Check.{reg_is_empty}
use dacrs.Views.{
  AccountViewCache, AccountView, database, cached, is_empty, present, set_cached_key_id,
  get_account, get_key_id_of, set_account, set_account_of, set_key_id, erase_account, erase_key_id,
}
use dacrs.Views.Batch.{have_account}

-- `CUserID`
pub data UserId : Type 0 where
  null_id : UserId
  by_reg : RegId → UserId
  by_key : KeyId → UserId
  by_pub_key : PubKey → UserId

abbrev pub over : {A : Type 0} → AccountViewCache → Option A × AccountView → Option A × AccountView
over c (found, base) = (found, cached c base)

-- An id that the base has led to a key: the cache keeps the key, and goes on as for the key.
abbrev pub behind :
    RegId → AccountViewCache → Option KeyId × AccountView → Option Account × AccountView
behind id c (none, base) = (none, cached c base)
behind id c (some key, base) = get_account key (cached (set_cached_key_id id key c) base)

-- `GetAccount(vchAccountId, cAccount)`
unfoldable pub get_account_of : RegId → AccountView → Option Account × AccountView
get_account_of id (database db) = elim (lookup id db.key_ids) [
  | none ↦ (none, database db)
  | some key ↦ (lookup key db.accounts, database db)
]
get_account_of id (cached c base) =
    if is_empty id then (none, cached c base) else elim (lookup id c.cache_key_ids) [
      | none ↦ behind id c (get_key_id_of id base)
      | some key ↦ if key == 0 then (none, cached c base) else elim (lookup key c.cache_accounts) [
        | some acc ↦ (present acc, cached c base)
        | none ↦ over c (get_account key base)
      ]
    ]

module _ (keys : PubKeys) where
  unfoldable pub get_account_by : UserId → AccountView → Option Account × AccountView
  get_account_by null_id v = (none, v)
  get_account_by (by_reg id) v = get_account_of id v
  get_account_by (by_key k) v = get_account k v
  get_account_by (by_pub_key p) v = get_account (keys.get_key_id p) v

  unfoldable pub get_key_id_by : UserId → AccountView → Option KeyId × AccountView
  get_key_id_by null_id v = (none, v)
  get_key_id_by (by_reg id) v = get_key_id_of id v
  get_key_id_by (by_key k) v = (some k, v)
  get_key_id_by (by_pub_key p) v = (some (keys.get_key_id p), v)

  unfoldable pub set_account_by : UserId → Account → AccountView → Bool × AccountView
  set_account_by null_id acc v = (false, v)
  set_account_by (by_reg id) acc v = set_account_of id acc v
  set_account_by (by_key k) acc v = (true, set_account k acc v)
  set_account_by (by_pub_key p) acc v = (true, set_account (keys.get_key_id p) acc v)

  unfoldable pub erase_account_by : UserId → AccountView → Bool × AccountView
  erase_account_by null_id v = (false, v)
  erase_account_by (by_reg id) v = (false, v)
  erase_account_by (by_key k) v = (true, erase_account k v)
  erase_account_by (by_pub_key p) v = (true, erase_account (keys.get_key_id p) v)

  -- The copy that is read is dropped; what the base has kept stays.
  abbrev pub restored : AccountView → AccountView → AccountView
  restored (cached c base) (cached c' base') = cached c base'
  restored (cached c base) (database db) = cached c base
  restored (database db) v' = v'

  -- `GetRegId(cUserId, cRegId)`: the id that is filled in, and whether it is one.
  abbrev pub reg_id_of : AccountView → Option Account × AccountView → Option RegId × AccountView
  reg_id_of v (none, v') = (none, restored v v')
  reg_id_of v (some acc, v') =
      (if reg_is_empty acc.reg_id then none else some acc.reg_id, restored v v')

  unfoldable pub get_reg_id : UserId → AccountView → Option RegId × AccountView
  get_reg_id (by_reg id) v = (some id, v)
  get_reg_id null_id v = reg_id_of v (get_account_by null_id v)
  get_reg_id (by_key k) v = reg_id_of v (get_account_by (by_key k) v)
  get_reg_id (by_pub_key p) v = reg_id_of v (get_account_by (by_pub_key p) v)

  abbrev pub balance_of : AccountView → Option Account × AccountView → ℕ × AccountView
  balance_of v (none, v') = (0, restored v v')
  balance_of v (some acc, v') = (acc.values, restored v v')

  unfoldable pub get_raw_balance : UserId → AccountView → ℕ × AccountView
  get_raw_balance user v = balance_of v (get_account_by user v)

unfoldable pub set_key_id_by : UserId → KeyId → AccountView → Bool × AccountView
set_key_id_by null_id k v = (false, v)
set_key_id_by (by_reg id) k v = set_key_id id k v
set_key_id_by (by_key k') k v = (false, v)
set_key_id_by (by_pub_key p) k v = (false, v)

unfoldable pub have_account_by : UserId → AccountView → Bool
have_account_by null_id v = false
have_account_by (by_reg id) v = false
have_account_by (by_key k) v = have_account k v
have_account_by (by_pub_key p) v = false

unfoldable pub erase_id_by : UserId → AccountView → Bool × AccountView
erase_id_by null_id v = (false, v)
erase_id_by (by_reg id) v = erase_key_id id v
erase_id_by (by_key k) v = (false, v)
erase_id_by (by_pub_key p) v = (false, v)
