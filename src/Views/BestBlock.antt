-- ===== src/Views/BestBlock.antt =====
-- The best block of a view that a cache is flushed into (src/database.cpp and src/txdb.cpp: `Flush`,
-- `BatchWrite`, `GetBestBlock`).
use dacrs.Base.{
  ℕ, true, Option, none, some, [], ◌∷◌, ◌≡◌, refl, ◌∙◌, ap, ◌==◌, if◌then◌else◌, Bool-cases,
  Option-cases, inl, inr,
}
use dacrs.Base.Dict.{Dict, lookup, nat_key}
use dacrs.Account.{Account, KeyId, RegId}
use dacrs.Views.{
  AccountViewCache, AccountView, database, cached, get_account, keep_account, erase_account,
  keep_erased,
}
use dacrs.Views.Observe.{SameView, IsSound}
use dacrs.Views.Batch.{
  write_account, write_accounts, write_key_id, write_key_ids, write_best_block, batch_write, flush,
  get_best_block,
}
use dacrs.Views.Flush.{flush-SameView}

-- The best block of the database, or of what a cache is based on.
abbrev pub best_below : AccountView → ℕ
best_below (database db) = db.best_block
best_below (cached c base) = get_best_block base

keep_account-best :
    (key : KeyId) (c : AccountViewCache) (base : AccountView) (r : Option Account × AccountView)
    → get_best_block r.1 ≡ get_best_block base
    → get_best_block (keep_account key c r).1 ≡ get_best_block (cached c base)
unfolding get_best_block
keep_account-best key c base (none, b) same =
    ap (λ n. if c.hash_block == 0 then n else c.hash_block) same
keep_account-best key c base (some acc, b) same =
    ap (λ n. if c.hash_block == 0 then n else c.hash_block) same

get_account-best :
    (key : KeyId) (v : AccountView) → get_best_block (get_account key v).1 ≡ get_best_block v
unfolding get_account
get_account-best key (database db) = refl
get_account-best key (cached c base) = elim (Option-cases (lookup key c.cache_accounts)) [
  | inl e ↦
      rw (get_account, e)
        (keep_account-best key c base (get_account key base) (get_account-best key base))
  | inr (acc, e) ↦ rw (get_account, e) refl
]

keep_erased-best :
    (key : KeyId) (c : AccountViewCache) (base : AccountView) (r : Option Account × AccountView)
    → get_best_block r.1 ≡ get_best_block base
    → get_best_block (keep_erased key c r) ≡ get_best_block (cached c base)
unfolding get_best_block
keep_erased-best key c base (none, b) same =
    ap (λ n. if c.hash_block == 0 then n else c.hash_block) same
keep_erased-best key c base (some acc, b) same =
    ap (λ n. if c.hash_block == 0 then n else c.hash_block) same

erase_account-best :
    (key : KeyId) (v : AccountView) → get_best_block (erase_account key v) ≡ get_best_block v
unfolding erase_account get_best_block
erase_account-best key (database db) = refl
erase_account-best key (cached c base) = elim (Option-cases (lookup key c.cache_accounts)) [
  | inl e ↦
      rw (erase_account, e)
        (keep_erased-best key c base (get_account key base) (get_account-best key base))
  | inr (acc, e) ↦ rw (erase_account, e) refl
]

write_account-best :
    (key : KeyId) (acc : Account) (v : AccountView)
    → best_below (write_account key acc v) ≡ best_below v
unfolding write_account
write_account-best key acc (database db) = elim (Bool-cases (acc.key_id == 0)) [
  | inl e ↦ rw e refl
  | inr e ↦ rw e refl
]
write_account-best key acc (cached c base) = elim (Bool-cases (acc.key_id == 0)) [
  | inl e ↦ rw e (erase_account-best key base)
  | inr e ↦ rw e refl
]

write_accounts-best :
    (ms : Dict KeyId Account) (v : AccountView) → best_below (write_accounts ms v) ≡ best_below v
unfolding write_accounts
write_accounts-best [] v = refl
write_accounts-best ((key, acc) ∷ rest) v =
    write_accounts-best rest (write_account key acc v) ∙ write_account-best key acc v

write_key_id-best :
    (id : RegId) (key : KeyId) (v : AccountView) → best_below (write_key_id id key v) ≡ best_below v
unfolding write_key_id
write_key_id-best id key (database db) = elim (Bool-cases (key == 0)) [
  | inl e ↦ rw e refl
  | inr e ↦ rw e refl
]
write_key_id-best id key (cached c base) = refl

write_key_ids-best :
    (ms : Dict RegId KeyId) (v : AccountView) → best_below (write_key_ids ms v) ≡ best_below v
unfolding write_key_ids
write_key_ids-best [] v = refl
write_key_ids-best ((id, key) ∷ rest) v =
    write_key_ids-best rest (write_key_id id key v) ∙ write_key_id-best id key v

-- Writing the null hash leaves what stands below.
write_best_block-null :
    (hash : ℕ) (v : AccountView)
    → (hash == 0) ≡ true
    → get_best_block (write_best_block hash v) ≡ best_below v
unfolding write_best_block get_best_block
write_best_block-null hash (database db) e = rw e refl
write_best_block-null hash (cached c base) e = rw e refl

-- What a flush leaves.
pub record Flushed (c : AccountViewCache) (base : AccountView) : Type 0 where
  pub same : SameView (flush c base) (cached c base)
  pub best_block :
      get_best_block (flush c base) ≡ (if c.hash_block == 0 then best_below base else c.hash_block)

-- Flushing a sound cache into its base, a database or a cache: the same account is found under each
-- key, and the same key under each registered id. The best block is that of the flushed cache if it
-- has one; otherwise it is that of the database, or of what lies below the cache that is flushed
-- into, whose own best block is lost.
pub flush-Flushed :
    (c : AccountViewCache) (base : AccountView) → IsSound (cached c base) → Flushed c base
unfolding flush batch_write get_best_block
flush-Flushed c base sound = record {
  same = flush-SameView c base sound;
  best_block = elim (Bool-cases (c.hash_block == 0)) [
    | inr e ↦ rw e refl
    | inl e ↦ rw e (
        write_best_block-null c.hash_block _ e
        ∙ write_key_ids-best c.cache_key_ids _
        ∙ write_accounts-best c.cache_accounts base)
  ];
}
