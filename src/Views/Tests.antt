-- ===== src/Views/Tests.antt =====
-- The theorems on the views at concrete views, and what the operations do that may surprise.
use dacrs.Base.{ℕ, true, false, none, some, [], ◌∷◌, ◌≡◌, refl, arith}
use dacrs.Base.Dict.{lookup, put, nat_key, bytes_key}
use dacrs.Account.{Account, KeyId, PubKeys, new_account}
use dacrs.Views.{
  AccountViewCache, AccountView, database, cached, get_account, get_key_id_of, set_account_of,
  erase_account, erase_key_id,
}
use dacrs.Views.Observe.{IsSound}
use dacrs.Views.Reads.{Read}
use dacrs.Views.Writes.{AccountIs, KeyIdIs, erase_account-AccountIs, erase_key_id-KeyIdIs}
use dacrs.Views.Batch.{
  write_accounts, write_key_ids, write_best_block, batch_write, flush, save_account_info,
  have_account, get_best_block,
}
use dacrs.Views.BestBlock.{Flushed, flush-Flushed}
use dacrs.Views.ByUser.{by_reg, by_key, get_account_of, get_account_by, set_account_by}
use dacrs.Views.Identity.{
  account_at, key_by, get_account_by-Read, set_account_by-AccountIs,
  get_account_of-save_account_info,
}

abbrev holder : KeyId → ℕ → Account
holder key amount = record new_account { key_id = key; values = amount }

abbrev stored : AccountView
stored = database (record {
  accounts = (5, holder 5 100) ∷ (6, holder 6 200) ∷ [];
  key_ids = (1 ∷ 2 ∷ [], 5) ∷ [];
  best_block = 40;
})

-- Account 5 is erased, account 7 is new.
abbrev tip_cache : AccountViewCache
tip_cache = record {
  cache_accounts = (5, holder 0 100) ∷ (7, holder 7 300) ∷ [];
  cache_key_ids = (3 ∷ 4 ∷ [], 7) ∷ [];
  hash_block = 41;
}

abbrev tip : AccountView
tip = cached tip_cache stored

abbrev fresh_cache : AccountViewCache
fresh_cache = record { cache_accounts = []; cache_key_ids = []; hash_block = 0 }

abbrev working : AccountView
working = cached fresh_cache tip

stored-IsSound : IsSound stored
unfolding lookup
stored-IsSound = (λ key. ground arith, λ id. ground arith)

working-IsSound : IsSound working
unfolding lookup
working-IsSound = (tt, tt, ((refl, (refl, tt)), (refl, tt), stored-IsSound))

abbrev hashes : PubKeys
hashes = record { is_fully_valid = λ p. true; get_key_id = λ p. 7 }

get_account_by-Read_example :
    Read
      (account_at (key_by hashes (by_reg (3 ∷ 4 ∷ [])) working) working)
      working
      (get_account_by hashes (by_reg (3 ∷ 4 ∷ [])) working)
get_account_by-Read_example =
    get_account_by-Read hashes (by_reg (3 ∷ 4 ∷ [])) working working-IsSound

found_seven : (get_account_by hashes (by_reg (3 ∷ 4 ∷ [])) working).0 ≡ some (holder 7 300)
unfolding get_account_by get_account_of get_key_id_of get_account lookup put
found_seven = refl

-- What is erased in a layer is not found through the layers above it.
erased_five : (get_account 5 working).0 ≡ none
unfolding get_account lookup
erased_five = refl

erase_account-AccountIs_instance : AccountIs 6 none working (erase_account 6 working)
erase_account-AccountIs_instance = erase_account-AccountIs fresh_cache tip working-IsSound 6

erase_key_id-KeyIdIs_instance :
    KeyIdIs (3 ∷ 4 ∷ []) none working (erase_key_id (3 ∷ 4 ∷ []) working).1
erase_key_id-KeyIdIs_instance = erase_key_id-KeyIdIs fresh_cache tip working-IsSound (3 ∷ 4 ∷ [])

set_account_by-AccountIs_example :
    AccountIs 6
      (some (holder 6 1))
      working
      (set_account_by hashes (by_key 6) (holder 6 1) working).1
unfolding key_by set_account_by
set_account_by-AccountIs_example =
    set_account_by-AccountIs hashes (holder 6 1) fresh_cache tip working-IsSound (by_key 6) 6 refl
      refl

get_account_of-save_account_info_instance :
    (get_account_of (9 ∷ []) (save_account_info (9 ∷ []) 8 (holder 8 1) (cached fresh_cache tip))).0
    ≡ some (holder 8 1)
get_account_of-save_account_info_instance =
    get_account_of-save_account_info (holder 8 1) fresh_cache tip working-IsSound (9 ∷ []) 8 refl
      (omega arith) (omega arith)

-- A cache without a best block, into a cache that has one.
flush-Flushed_example : Flushed fresh_cache tip
flush-Flushed_example = flush-Flushed fresh_cache tip working-IsSound

-- `HaveAccount` finds what a cache has erased, and nothing that only the database has.
has_erased : have_account 5 tip ≡ true
unfolding have_account lookup
has_erased = refl

has_stored : have_account 6 tip ≡ false
unfolding have_account lookup
has_stored = refl

-- `SetAccount` by an id that only the base knows is refused.
unknown_id : (set_account_of (3 ∷ 4 ∷ []) (holder 7 1) working).0 ≡ false
unfolding set_account_of lookup
unknown_id = refl

-- Flushing a cache without a best block into a cache takes the best block from it.
lost_best_block : get_best_block (flush fresh_cache tip) ≡ 40
unfolding flush batch_write write_accounts write_key_ids write_best_block get_best_block
lost_best_block = refl

had_best_block : get_best_block working ≡ 41
unfolding get_best_block
had_best_block = refl
