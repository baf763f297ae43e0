-- ===== src/TxCache/Contain.antt =====
-- What a cache of transactions finds (src/database.cpp: `AddBlockToCache`, `DeleteBlockFromCache`,
-- `IsContainTx`, `IsContainBlock`).
use dacrs.Base.{
  ℕ, ◌<◌, true, none, some, List, [], ◌∷◌, ◌≡◌, ◌≢◌, refl, ◌∙◌, arith, ◌==◌, if◌then◌else◌,
  Bool-cases, Option-cases, inl, inr,
}
use dacrs.Base.Dict.{lookup, nat_key}
use dacrs.TxCache.{
  TxMap, Block, TxView, tx_cache, assign, is_filled, is_in_map, is_contain_block,
  add_block_to_cache, delete_block_from_cache, holds, find_tx, is_contain_tx,
}

pub lookup-assign :
    (j hash : ℕ) (txs : List ℕ) (m : TxMap)
    → lookup j (assign hash txs m) ≡ (if j == hash then some txs else lookup j m)
unfolding lookup assign
lookup-assign j hash txs [] = refl
lookup-assign j hash txs ((h, old) ∷ m) = ground (arith, lookup-assign j hash txs m)

-- Each entry of a map in the order of its keys, all above a key.
abbrev pub SortedAbove : ℕ → TxMap → Type 0
SortedAbove least [] = Unit
SortedAbove least ((h, txs) ∷ m) = (least < h) × SortedAbove h m

-- A block that the map holds has the transaction.
pub find_tx-holds :
    (tx hash : ℕ) (txs : List ℕ) (m : TxMap)
    → lookup hash m ≡ some txs
    → holds tx txs ≡ true
    → find_tx tx m ≢ none
unfolding lookup find_tx
find_tx-holds tx hash txs [] at has = ground arith
find_tx-holds tx hash txs ((h, old) ∷ m) at has = ground (arith, find_tx-holds tx hash txs m)

holds-filled : (tx : ℕ) (txs : List ℕ) → holds tx txs ≡ true → is_filled (some txs) ≡ true
unfolding holds
holds-filled tx [] e = ground arith
holds-filled tx (t ∷ txs) e = refl

-- The block that is found is one of the map, and not empty.
find_tx-filled :
    (least tx hash : ℕ) (m : TxMap)
    → SortedAbove least m
    → find_tx tx m ≡ some hash
    → (least < hash) × (is_filled (lookup hash m) ≡ true)
unfolding lookup find_tx
find_tx-filled least tx hash [] sorted e = ground arith
find_tx-filled least tx hash ((h, txs) ∷ m) sorted e = elim (Bool-cases (holds tx txs)) [
  | inl f ↦ ground (arith, sorted.0, holds-filled tx txs f)
  | inr f ↦ ground (arith, sorted.0, find_tx-filled h tx hash m sorted.1)
]

-- What `IsContainTx` answers.
pub record Answered (tx : ℕ) (m : TxMap) (base : TxView) : Type 0 where
  pub own :
      (hash : ℕ) (txs : List ℕ)
      → lookup hash m ≡ some txs
      → holds tx txs ≡ true
      → is_contain_tx tx (tx_cache m base) ≢ 0
  pub in_map :
      is_contain_tx tx (tx_cache m base) ≢ 0
      → is_in_map m (is_contain_tx tx (tx_cache m base)) ≡ true

-- On a cache whose blocks stand in the order of their hashes, none of them 0: a transaction of a
-- block of the cache is found; and what is found is always a block of the cache itself that has
-- transactions, never one that only the base has.
pub is_contain_tx-Answered :
    (tx : ℕ) (m : TxMap) (base : TxView) → SortedAbove 0 m → Answered tx m base
unfolding is_contain_tx is_in_map
is_contain_tx-Answered tx m base sorted = elim (Option-cases (find_tx tx m)) [
  | inl e ↦ record {
    own = λ hash txs at has. absurd (find_tx-holds tx hash txs m at has e);
    in_map = λ some_block. ground (arith, e, some_block);
  }
  | inr (hash, e) ↦
      let found = find_tx-filled 0 tx hash m sorted e in
      record {
        own = λ h txs at has. ground (arith, e, found.0);
        in_map = λ some_block. ground (arith, e, found.0, found.1);
      }
]

assign-SortedAbove :
    (least hash : ℕ) (txs : List ℕ) (m : TxMap)
    → least < hash
    → SortedAbove least m
    → SortedAbove least (assign hash txs m)
unfolding assign
assign-SortedAbove least hash txs [] low sorted = (low, tt)
assign-SortedAbove least hash txs ((h, old) ∷ m) low sorted =
    ground (arith, sorted, assign-SortedAbove h hash txs m)

-- What follows the adding of a block to a cache.
pub record Added (block : Block) (m : TxMap) (base : TxView) : Type 0 where
  pub after : TxMap
  pub is : add_block_to_cache block (tx_cache m base) ≡ (true, tx_cache after base)
  pub sorted : SortedAbove 0 after
  pub found : (tx : ℕ) → holds tx block.vptx ≡ true → is_contain_tx tx (tx_cache after base) ≢ 0
  pub undone :
      (hash : ℕ)
      → is_contain_block hash (delete_block_from_cache block (tx_cache after base)).1 ≡ (
          if hash == block.hash
          then is_contain_block hash base
          else is_contain_block hash (tx_cache m base))

-- On a cache whose blocks stand in the order of their hashes, none of them 0, for a block with a hash
-- that is not 0: after `AddBlockToCache` the order is kept and every transaction of the block is
-- found. After `DeleteBlockFromCache` on top, the cache answers for the block as its base does, and
-- for all other blocks as before.
pub add_block_to_cache-Added :
    (block : Block) (m : TxMap) (base : TxView)
    → SortedAbove 0 m
    → 0 < block.hash
    → Added block m base
unfolding add_block_to_cache delete_block_from_cache is_contain_block is_in_map
add_block_to_cache-Added block m base sorted some_hash = record {
  after = assign block.hash block.vptx m;
  is = refl;
  sorted = kept;
  found = λ tx has.
      (is_contain_tx-Answered tx (assign block.hash block.vptx m) base kept).own block.hash
        block.vptx (lookup-assign block.hash block.hash block.vptx m ∙ ground arith) has;
  undone = λ hash. taken_back hash;
}
  where
    kept : SortedAbove 0 (assign block.hash block.vptx m)
    kept = assign-SortedAbove 0 block.hash block.vptx m some_hash sorted

    taken_back :
        (hash : ℕ)
        → is_contain_block hash
            (delete_block_from_cache block (tx_cache (assign block.hash block.vptx m) base)).1
          ≡ (if hash == block.hash
              then is_contain_block hash base
              else is_contain_block hash (tx_cache m base))
    taken_back hash =
        elim (Bool-cases
          (is_contain_block block.hash (tx_cache (assign block.hash block.vptx m) base))) [
            | inl e ↦ rw (e, lookup-assign, lookup-assign) (ground arith)
            | inr e ↦
                rw (e, lookup-assign)
                  (ground (arith, e, lookup-assign block.hash block.hash block.vptx m))
          ]
