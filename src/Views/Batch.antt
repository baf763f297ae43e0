-- ===== src/Views/Batch.antt =====
-- What writes more than one entry of a view (src/database.cpp and src/txdb.cpp: `BatchWrite`,
-- `Flush`, `SaveAccountInfo`), the best block, and `HaveAccount`.
use dacrs.Base.{ℕ, Bool, true, false, not, ◌&&◌, none, some, List, [], ◌∷◌, ◌==◌, if◌then◌else◌}
use dacrs.Base.Dict.{Dict, lookup, put, erase, nat_key, bytes_key}
use dacrs.Account.{Account, KeyId, RegId, PubKeys, is_empty_value, is_register}
use dacrs.Views.{
  AccountViewCache, AccountView, database, cached, set_cached_account, set_cached_key_id,
  erase_account, without_key,
}

-- One account of a batch. What is erased is erased from the base at once, and forgotten.
unfoldable pub write_account : KeyId → Account → AccountView → AccountView
write_account key acc (database db) =
    if acc.key_id == 0
    then database (record db { accounts = erase key db.accounts })
    else database (record db { accounts = put key acc db.accounts })
write_account key acc (cached c base) =
    if acc.key_id == 0
    then cached (record c { cache_accounts = erase key c.cache_accounts }) (erase_account key base)
    else cached (set_cached_account key acc c) base

unfoldable pub write_accounts : Dict KeyId Account → AccountView → AccountView
write_accounts [] v = v
write_accounts ((key, acc) ∷ rest) v = write_accounts rest (write_account key acc v)

-- One id of a batch; only the database forgets what is erased.
unfoldable pub write_key_id : RegId → KeyId → AccountView → AccountView
write_key_id id key (database db) =
    if key == 0
    then database (record db { key_ids = erase id db.key_ids })
    else database (record db { key_ids = put id key db.key_ids })
write_key_id id key (cached c base) = cached (set_cached_key_id id key c) base

unfoldable pub write_key_ids : Dict RegId KeyId → AccountView → AccountView
write_key_ids [] v = v
write_key_ids ((id, key) ∷ rest) v = write_key_ids rest (write_key_id id key v)

-- The database keeps its best block if the batch has none; a cache takes what it is given.
unfoldable pub write_best_block : ℕ → AccountView → AccountView
write_best_block hash (database db) =
    if hash == 0 then database db else database (record db { best_block = hash })
write_best_block hash (cached c base) = cached (record c { hash_block = hash }) base

-- `BatchWrite(mapAccounts, mapKeyIds, cHashBlock)`
unfoldable pub batch_write : Dict KeyId Account → Dict RegId KeyId → ℕ → AccountView → AccountView
batch_write accounts key_ids hash v =
    write_best_block hash (write_key_ids key_ids (write_accounts accounts v))

-- `Flush()` of a cache over a view: the maps move to the base, the hash stays.
unfoldable pub flush : AccountViewCache → AccountView → AccountView
flush c base =
    cached (record c { cache_accounts = []; cache_key_ids = [] })
      (batch_write c.cache_accounts c.cache_key_ids c.hash_block base)

-- `SetBestBlock`
unfoldable pub set_best_block : ℕ → AccountView → AccountView
set_best_block hash (database db) = database (record db { best_block = hash })
set_best_block hash (cached c base) = cached (record c { hash_block = hash }) base

-- `GetBestBlock`
unfoldable pub get_best_block : AccountView → ℕ
get_best_block (database db) = db.best_block
get_best_block (cached c base) = if c.hash_block == 0 then get_best_block base else c.hash_block

-- `SaveAccountInfo(cRegId, cKeyId, cAccount)`
unfoldable pub save_account_info : RegId → KeyId → Account → AccountView → AccountView
save_account_info id key acc (database db) =
    database (record db { key_ids = put id key db.key_ids; accounts = put key acc db.accounts })
save_account_info id key acc (cached c base) =
    cached (set_cached_account key acc (set_cached_key_id id key c)) base

-- `HaveAccount(cKeyId)`. The database is asked for the bare key, under which nothing is stored.
unfoldable pub have_account : KeyId → AccountView → Bool
have_account key (database db) = false
have_account key (cached c base) = elim (lookup key c.cache_accounts) [
  | some acc ↦ true
  | none ↦ have_account key base
]

module _ (keys : PubKeys) where
  -- One account of `BatchWrite(vcAccounts)`: one without money that is not registered is erased
  -- from a cache.
  unfoldable pub write_listed : Account → AccountView → AccountView
  write_listed acc (database db) =
      database (record db { accounts = put acc.key_id acc db.accounts })
  write_listed acc (cached c base) =
      if is_empty_value acc && not (is_register keys acc)
      then cached (set_cached_account acc.key_id (without_key acc) c) base
      else cached (set_cached_account acc.key_id acc c) base

  unfoldable pub batch_write_listed : List Account → AccountView → AccountView
  batch_write_listed [] v = v
  batch_write_listed (acc ∷ accs) v = batch_write_listed accs (write_listed acc v)
