-- ===== src/Views/Reads.antt =====
-- Reading from a view finds what is in it, and no cache that fills up on the way can be noticed
-- (src/database.cpp: `GetAccount`, `GetKeyId`).
use dacrs.Base.{
  Option, none, some, ◌≡◌, refl, sym, ◌∙◌, ap, if◌then◌else◌, Option-cases, Bool-cases, inl, inr,
  arith,
}
use dacrs.Base.Dict.{lookup, lookup-put, put-IsMap, nat_key, bytes_key}
use dacrs.Account.{Account, KeyId, RegId}
use dacrs.Views.{
  AccountViewCache, AccountView, database, cached, is_empty, present, present_key, keep_account,
  keep_key_id, get_account, get_key_id_of, set_cached_account, set_cached_key_id,
}
use dacrs.Views.Observe.{
  account_of, key_of, layered, layered_key, SameView, SameView-refl, IsSound, seen, seen_key,
  seen-account_of, seen_key-key_of,
}

-- A read: what it finds, and a view that nobody can tell from the one before it.
pub record Read {ℓ} {A : Type ℓ} (found : Option A) (v : AccountView) (r : Option A × AccountView)
    : Type ℓ where
  pub result : r.0 ≡ found
  pub same : SameView r.1 v
  pub sound : IsSound r.1

abbrev if_present : RegId → AccountViewCache → Option KeyId → Option KeyId
if_present id c below = if is_empty id then none else layered_key (lookup id c.cache_key_ids) below

module _ (c : AccountViewCache) (b b' : AccountView) (h : SameView b b') where
  -- What a cache is over does not matter beyond what can be read from it.
  pub cached-SameView : SameView (cached c b) (cached c b')
  unfolding account_of key_of
  cached-SameView = record {
    accounts = λ key. ap (layered _) (h.accounts key);
    key_ids = λ id. ap (if_present id c) (h.key_ids id);
  }

  -- A cache may keep what its base has.
  found-SameView :
      (key : KeyId) (acc : Account)
      → lookup key c.cache_accounts ≡ none
      → account_of key b' ≡ some acc
      → present acc ≡ some acc
      → SameView (cached (set_cached_account key acc c) b) (cached c b')
  unfolding account_of key_of layered
  found-SameView key acc fresh found live = record {
    accounts =
        λ j. rw lookup-put (ground (arith, nat_key.same_iff j key, h.accounts j, h.accounts key));
    key_ids = λ id. ap (if_present id c) (h.key_ids id);
  }

  pub found_key-SameView :
      (id : RegId) (key : KeyId)
      → lookup id c.cache_key_ids ≡ none
      → key_of id b' ≡ some key
      → present_key key ≡ some key
      → SameView (cached (set_cached_key_id id key c) b) (cached c b')
  unfolding account_of key_of layered_key
  found_key-SameView id key fresh found live = record {
    accounts = λ j. ap (layered _) (h.accounts j);
    key_ids =
        λ i. rw lookup-put (ground (arith, bytes_key.same_iff i id, h.key_ids i, h.key_ids id));
  }

pub account-is_live :
    (key : KeyId) (v : AccountView)
    → IsSound v
    → (acc : Account) → account_of key v ≡ some acc
    → present acc ≡ some acc
account-is_live key v h acc e = ap seen (sym e) ∙ seen-account_of key v h ∙ e

pub key-is_live :
    (id : RegId) (v : AccountView)
    → IsSound v
    → (key : KeyId) → key_of id v ≡ some key
    → present_key key ≡ some key
key-is_live id v h key e = ap seen_key (sym e) ∙ seen_key-key_of id v h ∙ e

module _ (c : AccountViewCache) (base : AccountView) (h : IsSound (cached c base)) where
  keep_account-Read :
      (key : KeyId) (r : Option Account × AccountView)
      → lookup key c.cache_accounts ≡ none
      → Read (account_of key base) base r
      → Read (account_of key base) (cached c base) (keep_account key c r)
  keep_account-Read key (none, b) fresh read = record {
    result = read.result;
    same = cached-SameView c b base read.same;
    sound = (h.0, h.1, read.sound);
  }
  keep_account-Read key (some acc, b) fresh read = record {
    result = read.result;
    same =
        found-SameView c b base read.same key acc fresh (sym read.result)
          (account-is_live key base h.2 acc (sym read.result));
    sound = (put-IsMap key acc c.cache_accounts h.0, h.1, read.sound);
  }

  keep_key_id-Read :
      (id : RegId) (r : Option KeyId × AccountView)
      → lookup id c.cache_key_ids ≡ none
      → Read (key_of id base) base r
      → Read (key_of id base) (cached c base) (keep_key_id id c r)
  keep_key_id-Read id (none, b) fresh read = record {
    result = read.result;
    same = cached-SameView c b base read.same;
    sound = (h.0, h.1, read.sound);
  }
  keep_key_id-Read id (some key, b) fresh read = record {
    result = read.result;
    same =
        found_key-SameView c b base read.same id key fresh (sym read.result)
          (key-is_live id base h.2 key (sym read.result));
    sound = (h.0, put-IsMap id key c.cache_key_ids h.1, read.sound);
  }

-- On a sound view, `GetAccount` by key finds what is in the view, and leaves a sound view in which
-- the same is found under all keys and ids, whatever its caches have kept.
pub get_account-Read :
    (key : KeyId) (v : AccountView) → IsSound v → Read (account_of key v) v (get_account key v)
unfolding get_account account_of layered
get_account-Read key (database db) h = record {
  result = refl;
  same = SameView-refl (database db);
  sound = h;
}
get_account-Read key (cached c base) h = elim (Option-cases (lookup key c.cache_accounts)) [
  | inl e ↦ rw (get_account, e) (keep_account-Read c base h key _ e (get_account-Read key base h.2))
  | inr (acc, e) ↦
      rw (get_account, e)
        (record { result = refl; same = SameView-refl (cached c base); sound = h })
]

-- The same for `GetKeyId` of a registered id.
pub get_key_id_of-Read :
    (id : RegId) (v : AccountView) → IsSound v → Read (key_of id v) v (get_key_id_of id v)
unfolding get_key_id_of key_of layered_key
get_key_id_of-Read id (database db) h = record {
  result = refl;
  same = SameView-refl (database db);
  sound = h;
}
get_key_id_of-Read id (cached c base) h = elim (Bool-cases (is_empty id)) [
  | inl f ↦ rw f (record { result = refl; same = SameView-refl (cached c base); sound = h })
  | inr f ↦ elim (Option-cases (lookup id c.cache_key_ids)) [
    | inl e ↦ rw (f, e) (keep_key_id-Read c base h id _ e (get_key_id_of-Read id base h.2))
    | inr (key, e) ↦
        rw (f, e) (record { result = refl; same = SameView-refl (cached c base); sound = h })
  ]
]
