-- ===== src/TxCache.antt =====
-- Which blocks hold which transactions (src/database.cpp: `CTransactionDBCache`; src/txdb.cpp:
-- `CTransactionDB`). A hash is a number.
pub mod Contain
pub mod Flush
mod Tests
use dacrs.Base.{
  ℕ, Bool, true, false, not, ◌||◌, ◌&&◌, Option, none, some, List, [], ◌∷◌, ltb, ◌==◌,
  if◌then◌else◌, Option-cases,
}
use dacrs.Base.Dict.{Dict, lookup, erase, nat_key}

-- The map of block hashes to the hashes of the transactions, in the order of the keys.
abbrev pub TxMap : Type 0
TxMap = Dict ℕ (List ℕ)

pub record Block : Type 0 where
  pub hash : ℕ
  pub vptx : List ℕ

-- `CTransactionDBCache` over what it is based on, at the bottom `CTransactionDB`.
pub data TxView : Type 0 where
  tx_db : TxMap → TxView
  tx_cache : TxMap → TxView → TxView

-- `m[hash] = hashes`
unfoldable pub assign : ℕ → List ℕ → TxMap → TxMap
assign hash txs [] = (hash, txs) ∷ []
assign hash txs ((h, old) ∷ m) =
    let rest = assign hash txs m in
    if ltb hash h
    then (hash, txs) ∷ (h, old) ∷ m
    else if hash == h
    then (h, txs) ∷ m
    else (h, old) ∷ rest

abbrev pub is_empty_list : List ℕ → Bool
is_empty_list [] = true
is_empty_list (x ∷ xs) = false

abbrev pub is_filled : Option (List ℕ) → Bool
is_filled none = false
is_filled (some txs) = not (is_empty_list txs)

-- `IsInMap`
unfoldable pub is_in_map : TxMap → ℕ → Bool
is_in_map m hash = not (hash == 0) && is_filled (lookup hash m)

-- `IsContainBlock`; the database has the method of `CTransactionDBView`.
unfoldable pub is_contain_block : ℕ → TxView → Bool
is_contain_block hash (tx_db db) = false
is_contain_block hash (tx_cache m base) = is_in_map m hash || is_contain_block hash base

-- `AddBlockToCache`
unfoldable pub add_block_to_cache : Block → TxView → Bool × TxView
add_block_to_cache block (tx_db db) = (false, tx_db db)
add_block_to_cache block (tx_cache m base) = (true, tx_cache (assign block.hash block.vptx m) base)

-- `DeleteBlockFromCache`: the block stays, without transactions.
unfoldable pub delete_block_from_cache : Block → TxView → Bool × TxView
delete_block_from_cache block (tx_db db) = (false, tx_db db)
delete_block_from_cache block (tx_cache m base) =
    if is_contain_block block.hash (tx_cache m base)
    then (true, tx_cache (assign block.hash [] m) base)
    else (false, tx_cache m base)

unfoldable pub holds : ℕ → List ℕ → Bool
holds tx [] = false
holds tx (t ∷ txs) = t == tx || holds tx txs

-- The first block that holds the transaction.
unfoldable pub find_tx : ℕ → TxMap → Option ℕ
find_tx tx [] = none
find_tx tx ((hash, txs) ∷ m) = let rest = find_tx tx m in if holds tx txs then some hash else rest

-- `IsContainTx`, 0 for none.
unfoldable pub is_contain_tx : ℕ → TxView → ℕ
is_contain_tx tx (tx_db db) = 0
is_contain_tx tx (tx_cache m base) =
    let below = is_contain_tx tx base in
    elim (find_tx tx m) [ some hash ↦ hash | none ↦ if is_in_map m below then below else 0 ]

abbrev pub is_some : Option (List ℕ) → Bool
is_some none = false
is_some (some txs) = true

-- `BatchWrite` of the database: what it has already stays; `Exists` is asked before the batch.
abbrev pub write_block : TxMap → ℕ → List ℕ → TxMap → TxMap
write_block before hash txs db =
    if is_empty_list txs
    then erase hash db
    else if is_some (lookup hash before)
    then db
    else assign hash txs db

unfoldable pub write_blocks : TxMap → TxMap → TxMap → TxMap
write_blocks before [] db = db
write_blocks before ((hash, txs) ∷ m) db = write_blocks before m (write_block before hash txs db)

-- `BatchWrite` of a cache.
unfoldable pub assign_all : TxMap → TxMap → TxMap
assign_all [] to = to
assign_all ((hash, txs) ∷ m) to = assign_all m (assign hash txs to)

unfoldable pub batch_write_txs : TxMap → TxView → TxView
batch_write_txs m (tx_db db) = tx_db (write_blocks db m db)
batch_write_txs m (tx_cache to base) = tx_cache (assign_all m to) base

-- The entries that are not empty.
unfoldable pub drop_empty : TxMap → TxMap
drop_empty [] = []
drop_empty ((hash, txs) ∷ m) =
    let rest = drop_empty m in if is_empty_list txs then rest else (hash, txs) ∷ rest

-- `Flush()` of a cache over a base.
unfoldable pub flush_txs : TxMap → TxView → TxView
flush_txs m base = tx_cache (drop_empty m) (batch_write_txs m base)
