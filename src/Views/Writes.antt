-- ===== src/Views/Writes.antt =====
-- What each write of src/database.cpp does to what can be read from a view.
use dacrs.Base.{
  false, Option, none, some, ◌≡◌, refl, ◌==◌, if◌then◌else◌, Option-cases, Bool-cases, inl, inr,
  arith,
}
use dacrs.Base.Dict.{lookup, lookup-put, put-IsMap, same_bytes, nat_key, bytes_key}
use dacrs.Account.{Account, KeyId, RegId}
use dacrs.Views.{
  AccountViewCache, AccountView, cached, is_empty, present, present_key, set_account, erase_account,
  set_key_id, erase_key_id, keep_erased, keep_key_erased, without_key,
}
use dacrs.Views.Observe.{account_of, key_of, layered, layered_key, IsSound}
use dacrs.Views.Reads.{Read, get_account-Read, get_key_id_of-Read}

-- A view in which exactly one account differs.
pub record AccountIs (key : KeyId) (found : Option Account) (v w : AccountView) : Type 0 where
  pub accounts : (j : KeyId) → account_of j w ≡ (if j == key then found else account_of j v)
  pub key_ids : (id : RegId) → key_of id w ≡ key_of id v
  pub sound : IsSound w

-- A view in which exactly one registered id differs.
pub record KeyIdIs (id : RegId) (found : Option KeyId) (v w : AccountView) : Type 0 where
  pub accounts : (j : KeyId) → account_of j w ≡ account_of j v
  pub key_ids : (i : RegId) → key_of i w ≡ (if same_bytes i id then found else key_of i v)
  pub sound : IsSound w

-- After `SetAccount` by key on a sound cache, the account is what was set, none if it has no key;
-- nothing else differs.
pub set_account-AccountIs :
    (key : KeyId) (acc : Account) (c : AccountViewCache) (base : AccountView)
    → IsSound (cached c base)
    → AccountIs key (present acc) (cached c base) (set_account key acc (cached c base))
unfolding set_account account_of key_of layered
set_account-AccountIs key acc c base h = record {
  accounts = λ j. rw lookup-put (ground (arith));
  key_ids = λ id. refl;
  sound = (put-IsMap key acc c.cache_accounts h.0, h.1, h.2);
}

-- After `SetKeyId` of an id that is not empty on a sound cache, the id leads to the key, to none for
-- the null key; nothing else differs.
pub set_key_id-KeyIdIs :
    (id : RegId) (key : KeyId) (c : AccountViewCache) (base : AccountView)
    → IsSound (cached c base)
    → is_empty id ≡ false
    → KeyIdIs id (present_key key) (cached c base) (set_key_id id key (cached c base)).1
unfolding set_key_id account_of key_of layered_key
set_key_id-KeyIdIs id key c base h some_id = rw some_id (record {
  accounts = λ j. refl;
  key_ids = λ i. rw lookup-put (ground (arith, bytes_key.same_iff i id));
  sound = (h.0, put-IsMap id key c.cache_key_ids h.1, h.2);
})

module _ (c : AccountViewCache) (base : AccountView) (h : IsSound (cached c base)) where
  keep_erased-AccountIs :
      (key : KeyId) (r : Option Account × AccountView)
      → lookup key c.cache_accounts ≡ none
      → Read (account_of key base) base r
      → AccountIs key none (cached c base) (keep_erased key c r)
  unfolding account_of key_of layered
  keep_erased-AccountIs key (none, b) fresh read = record {
    accounts = λ j.
        ground (
          arith,
          nat_key.same_iff j key,
          read.same.accounts j,
          read.same.accounts key,
          read.result,
        );
    key_ids = λ id. rw (read.same.key_ids id) refl;
    sound = (h.0, h.1, read.sound);
  }
  keep_erased-AccountIs key (some acc, b) fresh read = record {
    accounts = λ j. rw lookup-put (ground (arith, read.same.accounts j));
    key_ids = λ id. rw (read.same.key_ids id) refl;
    sound = (put-IsMap key (without_key acc) c.cache_accounts h.0, h.1, read.sound);
  }

  -- After `EraseAccount` on a sound cache there is no account under the key, whether there was one
  -- before or not; nothing else differs.
  pub erase_account-AccountIs :
      (key : KeyId) → AccountIs key none (cached c base) (erase_account key (cached c base))
  unfolding erase_account account_of key_of layered
  erase_account-AccountIs key = elim (Option-cases (lookup key c.cache_accounts)) [
    | inl e ↦ rw (erase_account, e) (keep_erased-AccountIs key _ e (get_account-Read key base h.2))
    | inr (acc, e) ↦
        rw (erase_account, e)
          (record {
            accounts = λ j. rw lookup-put (ground (arith));
            key_ids = λ id. refl;
            sound = (put-IsMap key (without_key acc) c.cache_accounts h.0, h.1, h.2);
          })
  ]

  keep_key_erased-KeyIdIs :
      (id : RegId) (r : Option KeyId × AccountView)
      → lookup id c.cache_key_ids ≡ none
      → Read (key_of id base) base r
      → KeyIdIs id none (cached c base) (keep_key_erased id c r)
  unfolding account_of key_of layered_key
  keep_key_erased-KeyIdIs id (none, b) fresh read = record {
    accounts = λ j. rw (read.same.accounts j) refl;
    key_ids = λ i.
        ground
          (arith, bytes_key.same_iff i id, read.same.key_ids i, read.same.key_ids id, read.result);
    sound = (h.0, h.1, read.sound);
  }
  keep_key_erased-KeyIdIs id (some key, b) fresh read = record {
    accounts = λ j. rw (read.same.accounts j) refl;
    key_ids = λ i. rw lookup-put (ground (arith, bytes_key.same_iff i id, read.same.key_ids i));
    sound = (h.0, put-IsMap id 0 c.cache_key_ids h.1, read.sound);
  }

  -- After `EraseKeyId` of an id on a sound cache the id leads to no key; nothing else differs. For
  -- the empty id it fails, and nothing changes.
  pub erase_key_id-KeyIdIs :
      (id : RegId) → KeyIdIs id none (cached c base) (erase_key_id id (cached c base)).1
  unfolding erase_key_id account_of key_of layered_key
  erase_key_id-KeyIdIs id = elim (Bool-cases (is_empty id)) [
    | inl f ↦ rw f (record {
      accounts = λ j. refl;
      key_ids = λ i. ground (arith, bytes_key.same_iff i id);
      sound = h;
    })
    | inr f ↦ rw f (elim (Option-cases (lookup id c.cache_key_ids)) [
      | inl e ↦ rw e (keep_key_erased-KeyIdIs id _ e (get_key_id_of-Read id base h.2))
      | inr (key, e) ↦ rw e (record {
        accounts = λ j. refl;
        key_ids = λ i. rw lookup-put (ground (arith, bytes_key.same_iff i id));
        sound = (h.0, put-IsMap id 0 c.cache_key_ids h.1, h.2);
      })
    ])
  ]
