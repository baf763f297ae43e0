-- ===== src/Views.antt =====
-- The views on the accounts: a database and the caches above it (src/database.cpp:
-- `CAccountViewCache`; src/txdb.cpp: `CAccountViewDB`).
pub mod Observe
pub mod Reads
pub mod Writes
pub mod Batch
pub mod Flush
pub mod BestBlock
pub mod ByUser
pub mod Identity
pub mod Layer
mod Tests
use dacrs.Base.{
  ℕ, Bool, true, false, not, Option, none, some, List, [], ◌∷◌, ◌==◌, if◌then◌else◌, ◌&&◌,
}
use dacrs.Base.Dict.{Dict, lookup, put, erase, nat_key, bytes_key}
use dacrs.Account.{Account, KeyId, RegId, PubKeys, is_empty_value, is_register}

-- The content of the database under the prefixes 'k', 'a' and 'B'. A hash is a number, 0 the null
-- hash.
pub record AccountViewDb : Type 0 where
  pub accounts : Dict KeyId Account
  pub key_ids : Dict RegId KeyId
  pub best_block : ℕ

-- What a cache holds; an account without key and a key 0 stand for what is erased.
pub record AccountViewCache : Type 0 where
  pub cache_accounts : Dict KeyId Account
  pub cache_key_ids : Dict RegId KeyId
  pub hash_block : ℕ

-- `CAccountView`: the database, or a cache over a view.
pub data AccountView : Type 0 where
  database : AccountViewDb → AccountView
  cached : AccountViewCache → AccountView → AccountView

-- `vchAccountId.empty()`
abbrev pub is_empty : RegId → Bool
is_empty [] = true
is_empty (b ∷ bs) = false

-- An account of a cache, none for one that is erased.
abbrev pub present : Account → Option Account
present acc = if acc.key_id == 0 then none else some acc

abbrev pub present_key : KeyId → Option KeyId
present_key key = if key == 0 then none else some key

abbrev pub set_cached_account : KeyId → Account → AccountViewCache → AccountViewCache
set_cached_account key acc c = record c { cache_accounts = put key acc c.cache_accounts }

abbrev pub set_cached_key_id : RegId → KeyId → AccountViewCache → AccountViewCache
set_cached_key_id id key c = record c { cache_key_ids = put id key c.cache_key_ids }

-- What a cache keeps of an account that its base has found.
abbrev pub keep_account :
    KeyId → AccountViewCache → Option Account × AccountView → Option Account × AccountView
keep_account key c (none, base) = (none, cached c base)
keep_account key c (some acc, base) = (some acc, cached (set_cached_account key acc c) base)

-- `GetAccount(cKeyId, cAccount)`: what is found, and the view with what its caches keep.
unfoldable pub get_account : KeyId → AccountView → Option Account × AccountView
get_account key (database db) = (lookup key db.accounts, database db)
get_account key (cached c base) = elim (lookup key c.cache_accounts) [
  | some acc ↦ (present acc, cached c base)
  | none ↦ keep_account key c (get_account key base)
]

abbrev pub keep_key_id :
    RegId → AccountViewCache → Option KeyId × AccountView → Option KeyId × AccountView
keep_key_id id c (none, base) = (none, cached c base)
keep_key_id id c (some key, base) = (some key, cached (set_cached_key_id id key c) base)

-- `GetKeyId(vchAccountId, cKeyId)`
unfoldable pub get_key_id_of : RegId → AccountView → Option KeyId × AccountView
get_key_id_of id (database db) = (lookup id db.key_ids, database db)
get_key_id_of id (cached c base) =
    let below = get_key_id_of id base in
    if is_empty id then (none, cached c base) else elim (lookup id c.cache_key_ids) [
      | some key ↦ (present_key key, cached c base)
      | none ↦ keep_key_id id c below
    ]

-- `SetAccount(cKeyId, cAccount)`
unfoldable pub set_account : KeyId → Account → AccountView → AccountView
set_account key acc (database db) = database (record db { accounts = put key acc db.accounts })
set_account key acc (cached c base) = cached (set_cached_account key acc c) base

-- `SetAccount(vchAccountId, cAccount)`: a cache writes only under an id that it holds itself.
unfoldable pub set_account_of : RegId → Account → AccountView → Bool × AccountView
set_account_of id acc (database db) = elim (lookup id db.key_ids) [
  | none ↦ (false, database db)
  | some key ↦ (true, database (record db { accounts = put key acc db.accounts }))
]
set_account_of id acc (cached c base) =
    if is_empty id then (false, cached c base) else elim (lookup id c.cache_key_ids) [
      | none ↦ (false, cached c base)
      | some key ↦ (true, cached (set_cached_account key acc c) base)
    ]

-- The account marked as erased.
abbrev pub without_key : Account → Account
without_key acc = record acc { key_id = 0 }

abbrev pub keep_erased : KeyId → AccountViewCache → Option Account × AccountView → AccountView
keep_erased key c (none, base) = cached c base
keep_erased key c (some acc, base) = cached (set_cached_account key (without_key acc) c) base

-- `EraseAccount(cKeyId)`
unfoldable pub erase_account : KeyId → AccountView → AccountView
erase_account key (database db) = database (record db { accounts = erase key db.accounts })
erase_account key (cached c base) = elim (lookup key c.cache_accounts) [
  | some acc ↦ cached (set_cached_account key (without_key acc) c) base
  | none ↦ keep_erased key c (get_account key base)
]

-- `SetKeyId(vchAccountId, cKeyId)`
unfoldable pub set_key_id : RegId → KeyId → AccountView → Bool × AccountView
set_key_id id key (database db) = (true, database (record db { key_ids = put id key db.key_ids }))
set_key_id id key (cached c base) =
    if is_empty id then (false, cached c base) else (true, cached (set_cached_key_id id key c) base)

abbrev pub keep_key_erased : RegId → AccountViewCache → Option KeyId × AccountView → AccountView
keep_key_erased id c (none, base) = cached c base
keep_key_erased id c (some key, base) = cached (set_cached_key_id id 0 c) base

-- `EraseKeyId(vchAccountId)`
unfoldable pub erase_key_id : RegId → AccountView → Bool × AccountView
erase_key_id id (database db) = (true, database (record db { key_ids = erase id db.key_ids }))
erase_key_id id (cached c base) = if is_empty id then (false, cached c base) else (
  true,
  elim (lookup id c.cache_key_ids) [
    | some key ↦ cached (set_cached_key_id id 0 c) base
    | none ↦ keep_key_erased id c (get_key_id_of id base)
  ],
)
