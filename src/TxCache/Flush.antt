-- ===== src/TxCache/Flush.antt =====
-- What a flush of a cache of transactions leaves in the database (src/database.cpp:
-- `CTransactionDBCache::Flush`; src/txdb.cpp: `CTransactionDB::BatchWrite`).
use dacrs.Base.{
  ℕ, Option, none, some, List, [], ◌∷◌, ◌≡◌, refl, sym, ◌∙◌, subst, arith, ◌==◌, ==_refl,
  if◌then◌else◌, Bool-cases, Option-cases, inl, inr,
}
use dacrs.Base.Dict.{lookup, lookup-erase, IsMap, nat_key}
use dacrs.TxCache.{TxMap, write_block, write_blocks}
use dacrs.TxCache.Contain.{lookup-assign}

-- What the database then holds of a block: nothing of one that is marked as deleted, of another what
-- it had, or else what the cache has.
abbrev pub merged : Option (List ℕ) → Option (List ℕ) → Option (List ℕ) → Option (List ℕ)
merged none before now = now
merged (some []) before now = none
merged (some (t ∷ ts)) none now = some (t ∷ ts)
merged (some (t ∷ ts)) (some old) now = now

lookup-write_block :
    (before : TxMap) (j hash : ℕ) (txs : List ℕ) (db : TxMap)
    → lookup j (write_block before hash txs db)
      ≡ (if j == hash then merged (some txs) (lookup hash before) (lookup j db) else lookup j db)
lookup-write_block before j hash [] db = rw lookup-erase (ground arith)
lookup-write_block before j hash (t ∷ ts) db = elim (Option-cases (lookup hash before)) [
  | inl e ↦ rw e (lookup-assign j hash (t ∷ ts) db)
  | inr (old, e) ↦ rw e (ground arith)
]

-- For a cache with one entry for each block at most, `BatchWrite` of the database removes the blocks
-- that the cache has marked as deleted, adds those that the database did not have, and leaves all
-- others as they were.
pub lookup-write_blocks :
    (before m db : TxMap)
    → IsMap m
    → (j : ℕ)
    → lookup j (write_blocks before m db) ≡ merged (lookup j m) (lookup j before) (lookup j db)
unfolding lookup write_blocks
lookup-write_blocks before [] db ok j = refl
lookup-write_blocks before ((hash, txs) ∷ m) db ok j = elim (Bool-cases (j == hash)) [
  | inl e ↦
      lookup-write_blocks before m (write_block before hash txs db) ok.1 j
      ∙ same_block j ((nat_key.same_iff j hash).0 e)
  | inr e ↦
      lookup-write_blocks before m (write_block before hash txs db) ok.1 j
      ∙ rw (lookup-write_block before j hash txs db, e) refl
]
  where
    same_block :
        (k : ℕ)
        → k ≡ hash
        → merged (lookup k m) (lookup k before) (lookup k (write_block before hash txs db))
          ≡ merged (if k == hash then some txs else lookup k m) (lookup k before) (lookup k db)
    same_block k is =
        subst
          (λ i.
            merged (lookup i m) (lookup i before) (lookup i (write_block before hash txs db))
            ≡ merged (if i == hash then some txs else lookup i m) (lookup i before) (lookup i db))
          (sym is) (rw (ok.0, lookup-write_block before hash hash txs db, ==_refl hash) refl)
