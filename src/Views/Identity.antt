-- ===== src/Views/Identity.antt =====
-- What is found and written by registered id, key or public key (src/database.cpp).
use dacrs.Base.{
  true, false, Option, none, some, ◌≡◌, ◌≢◌, refl, subst, sym, ◌∙◌, ◌==◌, ==_ne, ==_refl,
  Option-cases, Bool-cases, inl, inr, arith,
}
use mathlib.Core.Option.{some-injective, none-ne-some}
use mathlib.Core.Bool.{false≢true}
use dacrs.Base.Dict.{lookup, lookup-put, put-IsMap, same_refl, nat_key, bytes_key}
use dacrs.Account.{Account, KeyId, RegId, PubKeys}
use dacrs.Views.{
  AccountViewCache, AccountView, database, cached, is_empty, present, present_key,
  set_cached_key_id, get_account, set_account, set_account_of,
}
use dacrs.Views.Observe.{
  account_of, key_of, layered, layered_key, SameView, SameView-refl, SameView-trans, IsSound,
}
use dacrs.Views.Reads.{
  Read, get_account-Read, get_key_id_of-Read, cached-SameView, found_key-SameView, key-is_live,
}
use dacrs.Views.Writes.{AccountIs, set_account-AccountIs}
use dacrs.Views.Batch.{save_account_info}
use dacrs.Views.ByUser.{
  UserId, null_id, by_reg, by_key, by_pub_key, over, behind, get_account_of, get_account_by,
  set_account_by,
}

-- The account that a key leads to, if there is one.
unfoldable pub account_at : Option KeyId → AccountView → Option Account
account_at none v = none
account_at (some key) v = account_of key v

module _ (c : AccountViewCache) (base : AccountView) (h : IsSound (cached c base)) where
  over-Read :
      {A : Type 0} (found : Option A) (r : Option A × AccountView)
      → Read found base r
      → Read found (cached c base) (over c r)
  over-Read found (a, b) read = record {
    result = read.result;
    same = cached-SameView c b base read.same;
    sound = (h.0, h.1, read.sound);
  }

  behind-Read :
      (id : RegId) (r : Option KeyId × AccountView)
      → lookup id c.cache_key_ids ≡ none
      → Read (key_of id base) base r
      → Read (account_at (key_of id base) (cached c base)) (cached c base) (behind id c r)
  unfolding account_at
  behind-Read id (none, b) fresh read = rw (sym read.result) (record {
    result = refl;
    same = cached-SameView c b base read.same;
    sound = (h.0, h.1, read.sound);
  })
  behind-Read id (some key, b) fresh read = rw (sym read.result) (record {
    result = rest.result ∙ kept.accounts key;
    same = SameView-trans rest.same kept;
    sound = rest.sound;
  })
    where
      kept : SameView (cached (set_cached_key_id id key c) b) (cached c base)
      kept =
          found_key-SameView c b base read.same id key fresh (sym read.result)
            (key-is_live id base h.2 key (sym read.result))

      rest :
          Read
            (account_of key (cached (set_cached_key_id id key c) b))
            (cached (set_cached_key_id id key c) b)
            (get_account key (cached (set_cached_key_id id key c) b))
      rest = get_account-Read key _ (h.0, put-IsMap id key c.cache_key_ids h.1, read.sound)

-- The key that an id of any kind stands for.
unfoldable pub key_by : PubKeys → UserId → AccountView → Option KeyId
key_by keys null_id v = none
key_by keys (by_reg id) v = key_of id v
key_by keys (by_key k) v = some k
key_by keys (by_pub_key p) v = some (keys.get_key_id p)

get_account_of-Read :
    (id : RegId) (v : AccountView)
    → IsSound v
    → Read (account_at (key_of id v) v) v (get_account_of id v)
unfolding get_account_of account_at key_of account_of layered layered_key
get_account_of-Read id (database db) h = elim (Option-cases (lookup id db.key_ids)) [
  | inl e ↦
      rw (get_account_of, e)
        (record { result = refl; same = SameView-refl (database db); sound = h })
  | inr (key, e) ↦
      rw (get_account_of, e)
        (record { result = refl; same = SameView-refl (database db); sound = h })
]
get_account_of-Read id (cached c base) h = elim (Bool-cases (is_empty id)) [
  | inl f ↦ rw f (record { result = refl; same = SameView-refl (cached c base); sound = h })
  | inr f ↦ elim (Option-cases (lookup id c.cache_key_ids)) [
    | inl e ↦ rw (f, e) (behind-Read c base h id _ e (get_key_id_of-Read id base h.2))
    | inr (key, e) ↦ elim (Bool-cases (key == 0)) [
      | inl z ↦
          rw (f, e, z) (record { result = refl; same = SameView-refl (cached c base); sound = h })
      | inr z ↦ elim (Option-cases (lookup key c.cache_accounts)) [
        | inl g ↦ rw (f, e, z, g) (over-Read c base h _ _ (get_account-Read key base h.2))
        | inr (acc, g) ↦
            rw (f, e, z, g)
              (record { result = refl; same = SameView-refl (cached c base); sound = h })
      ]
    ]
  ]
]

module _ (keys : PubKeys) where
  -- On a sound view, `GetAccount` by an id of any kind finds the account of the key that the id
  -- stands for, and nothing if it stands for none; it leaves a sound view in which the same is
  -- found under all keys and ids.
  pub get_account_by-Read :
      (user : UserId) (v : AccountView)
      → IsSound v
      → Read (account_at (key_by keys user v) v) v (get_account_by keys user v)
  unfolding get_account_by account_at key_by
  get_account_by-Read null_id v h = record { result = refl; same = SameView-refl v; sound = h }
  get_account_by-Read (by_reg id) v h = get_account_of-Read id v h
  get_account_by-Read (by_key k) v h = get_account-Read k v h
  get_account_by-Read (by_pub_key p) v h = get_account-Read (keys.get_key_id p) v h

same_key : (k key : KeyId) → present_key k ≡ some key → k ≡ key
same_key k key e = ground (arith)

module _ (acc : Account) (c : AccountViewCache) (base : AccountView)
    (h : IsSound (cached c base)) where
  set_account_of-AccountIs :
      (id : RegId) (key : KeyId)
      → key_of id (cached c base) ≡ some key
      → (set_account_of id acc (cached c base)).0 ≡ true
      → AccountIs key (present acc) (cached c base) (set_account_of id acc (cached c base)).1
  unfolding set_account set_account_of key_of layered_key
  set_account_of-AccountIs id key leads ok = elim (Bool-cases (is_empty id)) [
    | inl f ↦ absurd (none-ne-some key (rw f at leads))
    | inr f ↦ elim (Option-cases (lookup id c.cache_key_ids)) [
      | inl e ↦ absurd (false≢true (rw (f, e) at ok))
      | inr (k, e) ↦
          rw (f, e)
            (subst
              (λ j. AccountIs j (present acc) (cached c base) (set_account k acc (cached c base)))
              (same_key k key (rw (f, e) at leads)) (set_account-AccountIs k acc c base h))
    ]
  ]

module _ (keys : PubKeys) (acc : Account) (c : AccountViewCache) (base : AccountView)
    (h : IsSound (cached c base)) where
  -- On a sound cache, `SetAccount` by an id that stands for a key, if it succeeds, sets the account
  -- of that key, to none if the account that is set has no key; nothing else differs.
  pub set_account_by-AccountIs :
      (user : UserId) (key : KeyId)
      → key_by keys user (cached c base) ≡ some key
      → (set_account_by keys user acc (cached c base)).0 ≡ true
      → AccountIs key (present acc) (cached c base) (set_account_by keys user acc (cached c base)).1
  unfolding set_account_by key_by
  set_account_by-AccountIs null_id key leads ok = absurd (false≢true ok)
  set_account_by-AccountIs (by_reg id) key leads ok =
      set_account_of-AccountIs acc c base h id key leads ok
  set_account_by-AccountIs (by_key k) key leads ok =
      subst (λ j. AccountIs j (present acc) (cached c base) (set_account k acc (cached c base)))
        (some-injective _ _ leads) (set_account-AccountIs k acc c base h)
  set_account_by-AccountIs (by_pub_key p) key leads ok =
      subst
        (λ j.
          AccountIs j (present acc) (cached c base)
            (set_account (keys.get_key_id p) acc (cached c base)))
        (some-injective _ _ leads) (set_account-AccountIs (keys.get_key_id p) acc c base h)

module _ (acc : Account) (c : AccountViewCache) (base : AccountView)
    (h : IsSound (cached c base)) where
  -- What `SaveAccountInfo` saves on a sound cache, under an id that is not empty, with a key and an
  -- account that are not the null key's, is what `GetAccount` then finds under the id.
  pub get_account_of-save_account_info :
      (id : RegId) (key : KeyId)
      → is_empty id ≡ false
      → key ≢ 0
      → acc.key_id ≢ 0
      → (get_account_of id (save_account_info id key acc (cached c base))).0 ≡ some acc
  unfolding save_account_info key_of account_at account_of layered layered_key
  get_account_of-save_account_info id key some_id some_key live = found.result ∙ known
    where
      saved : AccountView
      saved = save_account_info id key acc (cached c base)

      found : Read (account_at (key_of id saved) saved) saved (get_account_of id saved)
      found =
          get_account_of-Read id saved
            (put-IsMap key acc c.cache_accounts h.0, put-IsMap id key c.cache_key_ids h.1, h.2)

      known : account_at (key_of id saved) saved ≡ some acc
      known =
          rw
            (
              some_id,
              lookup-put,
              same_refl id,
              ==_ne key 0 some_key,
              lookup-put,
              ==_refl key,
              ==_ne acc.key_id 0 live,
            )
            refl
