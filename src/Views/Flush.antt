-- ===== src/Views/Flush.antt =====
-- What can be read after flushing a cache of src/database.cpp into its base.
use dacrs.Base.{
  ℕ, false, Option, none, [], ◌∷◌, ◌≡◌, refl, ◌∙◌, ap, ◌==◌, if◌then◌else◌, Bool-cases, inl, inr,
  arith,
}
use dacrs.Base.Dict.{
  Dict, lookup, IsMap, lookup-put, lookup-erase, put-IsMap, erase-IsMap, nat_key, bytes_key,
}
use dacrs.Account.{Account, KeyId, RegId}
use dacrs.Views.{
  AccountViewCache, AccountView, database, cached, is_empty, present, present_key, erase_account,
}
use dacrs.Views.Observe.{account_of, key_of, layered, layered_key, SameView, SameView-refl, IsSound}
use dacrs.Views.Writes.{AccountIs, erase_account-AccountIs}
use dacrs.Views.Batch.{
  write_account, write_accounts, write_key_id, write_key_ids, write_best_block, batch_write, flush,
}

erase_any-AccountIs :
    (key : KeyId) (v : AccountView) → IsSound v → AccountIs key none v (erase_account key v)
unfolding erase_account account_of key_of
erase_any-AccountIs key (database db) h = record {
  accounts = λ j. lookup-erase j key db.accounts;
  key_ids = λ id. refl;
  sound = (λ j. rw lookup-erase (ground (arith, h.0 j)), h.1);
}
erase_any-AccountIs key (cached c base) h = erase_account-AccountIs c base h key

write_account-AccountIs :
    (key : KeyId) (acc : Account) (v : AccountView)
    → IsSound v
    → AccountIs key (present acc) v (write_account key acc v)
unfolding write_account account_of key_of layered
write_account-AccountIs key acc (database db) h = elim (Bool-cases (acc.key_id == 0)) [
  | inl e ↦ rw e (record {
    accounts = λ j. lookup-erase j key db.accounts;
    key_ids = λ id. refl;
    sound = (λ j. rw lookup-erase (ground (arith, h.0 j)), h.1);
  })
  | inr e ↦ rw e (record {
    accounts = λ j. lookup-put j key acc db.accounts;
    key_ids = λ id. refl;
    sound = (λ j. rw lookup-put (ground (arith, h.0 j)), h.1);
  })
]
write_account-AccountIs key acc (cached c base) h = elim (Bool-cases (acc.key_id == 0)) [
  | inl e ↦ rw e (record {
    accounts = λ j. rw lookup-erase (ground (arith, erased.accounts j));
    key_ids = λ id. rw (erased.key_ids id) refl;
    sound = (erase-IsMap key c.cache_accounts h.0, h.1, erased.sound);
  })
  | inr e ↦ rw e (record {
    accounts = λ j. rw lookup-put (ground (arith));
    key_ids = λ id. refl;
    sound = (put-IsMap key acc c.cache_accounts h.0, h.1, h.2);
  })
]
  where
    erased : AccountIs key none base (erase_account key base)
    erased = erase_any-AccountIs key base h.2

-- All accounts of a batch over a view.
record AccountsAre (ms : Dict KeyId Account) (v w : AccountView) : Type 0 where
  accounts : (j : KeyId) → account_of j w ≡ layered (lookup j ms) (account_of j v)
  key_ids : (id : RegId) → key_of id w ≡ key_of id v
  sound : IsSound w

one_more-AccountsAre :
    (key : KeyId) (acc : Account) (rest : Dict KeyId Account) (v u w : AccountView)
    → lookup key rest ≡ none
    → AccountIs key (present acc) v u
    → AccountsAre rest u w
    → AccountsAre ((key, acc) ∷ rest) v w
unfolding layered lookup
one_more-AccountsAre key acc rest v u w fresh one more = record {
  accounts = λ j. rw (more.accounts j) (ground (arith, nat_key.same_iff j key, one.accounts j));
  key_ids = λ id. more.key_ids id ∙ one.key_ids id;
  sound = more.sound;
}

write_accounts-AccountsAre :
    (ms : Dict KeyId Account) (v : AccountView)
    → IsSound v
    → IsMap ms
    → AccountsAre ms v (write_accounts ms v)
unfolding write_accounts layered lookup
write_accounts-AccountsAre [] v h m = record {
  accounts = λ j. refl;
  key_ids = λ id. refl;
  sound = h;
}
write_accounts-AccountsAre ((key, acc) ∷ rest) v h m =
    let one = write_account-AccountIs key acc v h in
    one_more-AccountsAre key acc rest v _ _ m.0 one
      (write_accounts-AccountsAre rest (write_account key acc v) one.sound m.1)

-- Only under ids that are not empty, since no cache keeps the empty one.
record KeyIdWritten (id : RegId) (found : Option KeyId) (v w : AccountView) : Type 0 where
  accounts : (j : KeyId) → account_of j w ≡ account_of j v
  key_ids :
      (i : RegId)
      → is_empty i ≡ false
      → key_of i w ≡ (if bytes_key.same i id then found else key_of i v)
  sound : IsSound w

write_key_id-KeyIdWritten :
    (id : RegId) (key : KeyId) (v : AccountView)
    → IsSound v
    → KeyIdWritten id (present_key key) v (write_key_id id key v)
unfolding write_key_id account_of key_of layered_key
write_key_id-KeyIdWritten id key (database db) h = elim (Bool-cases (key == 0)) [
  | inl e ↦ rw e (record {
    accounts = λ j. refl;
    key_ids = λ i _. lookup-erase i id db.key_ids;
    sound = (h.0, λ i. rw lookup-erase (ground (arith, h.1 i)));
  })
  | inr e ↦ rw e (record {
    accounts = λ j. refl;
    key_ids = λ i _. lookup-put i id key db.key_ids;
    sound = (h.0, λ i. rw lookup-put (ground (arith, h.1 i)));
  })
]
write_key_id-KeyIdWritten id key (cached c base) h = record {
  accounts = λ j. refl;
  key_ids = λ i some_id. rw (some_id, lookup-put) (ground (arith, bytes_key.same_iff i id));
  sound = (h.0, put-IsMap id key c.cache_key_ids h.1, h.2);
}

-- All ids of a batch over a view.
record KeyIdsAre (ms : Dict RegId KeyId) (v w : AccountView) : Type 0 where
  accounts : (j : KeyId) → account_of j w ≡ account_of j v
  key_ids : (i : RegId) → is_empty i ≡ false → key_of i w ≡ layered_key (lookup i ms) (key_of i v)
  sound : IsSound w

one_more-KeyIdsAre :
    (id : RegId) (key : KeyId) (rest : Dict RegId KeyId) (v u w : AccountView)
    → lookup id rest ≡ none
    → KeyIdWritten id (present_key key) v u
    → KeyIdsAre rest u w
    → KeyIdsAre ((id, key) ∷ rest) v w
unfolding layered_key lookup
one_more-KeyIdsAre id key rest v u w fresh one more = record {
  accounts = λ j. more.accounts j ∙ one.accounts j;
  key_ids = λ i f. rw (more.key_ids i f) (ground (arith, bytes_key.same_iff i id, one.key_ids i f));
  sound = more.sound;
}

write_key_ids-KeyIdsAre :
    (ms : Dict RegId KeyId) (v : AccountView)
    → IsSound v
    → IsMap ms
    → KeyIdsAre ms v (write_key_ids ms v)
unfolding write_key_ids layered_key lookup
write_key_ids-KeyIdsAre [] v h m = record { accounts = λ j. refl; key_ids = λ i f. refl; sound = h }
write_key_ids-KeyIdsAre ((id, key) ∷ rest) v h m =
    let one = write_key_id-KeyIdWritten id key v h in
    one_more-KeyIdsAre id key rest v _ _ m.0 one
      (write_key_ids-KeyIdsAre rest (write_key_id id key v) one.sound m.1)

write_best_block-SameView : (hash : ℕ) (v : AccountView) → SameView (write_best_block hash v) v
unfolding write_best_block account_of key_of
write_best_block-SameView hash (database db) = elim (Bool-cases (hash == 0)) [
  | inl e ↦ rw e (SameView-refl (database db))
  | inr e ↦ rw e (record { accounts = λ j. refl; key_ids = λ i. refl })
]
write_best_block-SameView hash (cached c base) = record {
  accounts = λ j. refl;
  key_ids = λ i. refl;
}

write_best_block-IsSound :
    (hash : ℕ) (v : AccountView) → IsSound v → IsSound (write_best_block hash v)
unfolding write_best_block
write_best_block-IsSound hash (database db) h = elim (Bool-cases (hash == 0)) [
  | inl e ↦ rw e h
  | inr e ↦ rw e h
]
write_best_block-IsSound hash (cached c base) h = h

module _ (c : AccountViewCache) (base : AccountView) (h : IsSound (cached c base)) where
  accounts : AccountsAre c.cache_accounts base (write_accounts c.cache_accounts base)
  accounts = write_accounts-AccountsAre c.cache_accounts base h.2 h.0

  key_ids :
      KeyIdsAre c.cache_key_ids
        (write_accounts c.cache_accounts base)
        (write_key_ids c.cache_key_ids (write_accounts c.cache_accounts base))
  key_ids = write_key_ids-KeyIdsAre c.cache_key_ids _ accounts.sound h.1

  pub flush-SameView : SameView (flush c base) (cached c base)
  unfolding flush batch_write account_of key_of layered layered_key lookup
  flush-SameView = record {
    accounts = λ j.
        (write_best_block-SameView c.hash_block _).accounts j
        ∙ key_ids.accounts j
        ∙ accounts.accounts j;
    key_ids = λ i. elim (Bool-cases (is_empty i)) [
      | inl e ↦ rw e refl
      | inr e ↦ rw e (
          (write_best_block-SameView c.hash_block _).key_ids i
          ∙ key_ids.key_ids i e
          ∙ ap (layered_key (lookup i c.cache_key_ids)) (accounts.key_ids i))
    ];
  }

  pub flush-IsSound : IsSound (flush c base)
  unfolding flush batch_write lookup
  flush-IsSound = (tt, tt, write_best_block-IsSound c.hash_block _ key_ids.sound)
