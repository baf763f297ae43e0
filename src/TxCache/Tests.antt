-- ===== src/TxCache/Tests.antt =====
-- Two blocks in a cache of transactions, a third below it.
use dacrs.Base.{none, [], ◌∷◌, ◌≡◌, refl, arith}
use dacrs.Base.Dict.{lookup, erase, nat_key}
use dacrs.TxCache.{
  TxMap, TxView, tx_db, tx_cache, assign, is_in_map, holds, find_tx, is_contain_tx, write_blocks,
  flush_txs, batch_write_txs, drop_empty,
}
use dacrs.TxCache.Contain.{
  SortedAbove, Answered, is_contain_tx-Answered, Added, add_block_to_cache-Added,
}
use dacrs.TxCache.Flush.{lookup-write_blocks}

abbrev tip : TxMap
tip = (3, 31 ∷ 32 ∷ []) ∷ (5, []) ∷ []

abbrev below : TxView
below = tx_cache ((4, 41 ∷ []) ∷ []) (tx_db [])

tip-SortedAbove : SortedAbove 0 tip
tip-SortedAbove = (omega arith, (omega arith, tt))

is_contain_tx-Answered_example : Answered 32 tip below
is_contain_tx-Answered_example = is_contain_tx-Answered 32 tip below tip-SortedAbove

-- The block of the transaction is in the base, and the transaction is not found.
confirmed_below : is_contain_tx 41 below ≡ 4
unfolding is_contain_tx find_tx holds
confirmed_below = refl

not_found : is_contain_tx 41 (tx_cache tip below) ≡ 0
unfolding is_contain_tx find_tx holds is_in_map lookup
not_found = refl

add_block_to_cache-Added_example : Added (record { hash = 7; vptx = 71 ∷ [] }) tip below
add_block_to_cache-Added_example =
    add_block_to_cache-Added (record { hash = 7; vptx = 71 ∷ [] }) tip below tip-SortedAbove
      (omega arith)

lookup-write_blocks_example :
    lookup 5 (write_blocks ((5, 51 ∷ []) ∷ []) tip ((5, 51 ∷ []) ∷ [])) ≡ none
unfolding lookup
lookup-write_blocks_example =
    lookup-write_blocks ((5, 51 ∷ []) ∷ []) tip ((5, 51 ∷ []) ∷ []) (refl, (refl, tt)) 5

flushed :
    flush_txs tip (tx_db ((5, 51 ∷ []) ∷ []))
    ≡ tx_cache ((3, 31 ∷ 32 ∷ []) ∷ []) (tx_db ((3, 31 ∷ 32 ∷ []) ∷ []))
unfolding flush_txs drop_empty batch_write_txs write_blocks lookup erase assign
flushed = refl
