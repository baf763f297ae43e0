-- ===== src/Views/Layer.antt =====
-- The accesses of a transaction to a cache of accounts (src/database.cpp), which stays a cache.
use dacrs.Base.{true, Option, none, some, ◌≡◌, ◌==◌, Option-cases, Bool-cases, inl, inr}
use dacrs.Base.Dict.{lookup, nat_key, bytes_key}
use dacrs.Account.{Account, KeyId, RegId, PubKeys}
use dacrs.Views.{
  AccountViewCache, AccountView, database, cached, is_empty, present, keep_account,
  set_cached_key_id, get_account, get_key_id_of, set_account, set_account_of, erase_account,
  keep_erased,
}
use dacrs.Views.Observe.{SameView, IsSound}
use dacrs.Views.Writes.{AccountIs, set_account-AccountIs, erase_account-AccountIs}
use dacrs.Views.ByUser.{
  UserId, null_id, by_reg, by_key, by_pub_key, behind, get_account_of, get_account_by,
  set_account_by,
}
use dacrs.Views.Identity.{account_at, key_by, get_account_by-Read, set_account_by-AccountIs}

-- A sound view that is a cache.
abbrev pub IsLayer : AccountView → Type 0
IsLayer (database db) = ⊥
IsLayer (cached c base) = Unit

pub record IsCache (v : AccountView) : Type 0 where
  pub sound : IsSound v
  pub layer : IsLayer v

keep_account-IsLayer :
    (key : KeyId) (c : AccountViewCache) (r : Option Account × AccountView)
    → IsLayer (keep_account key c r).1
keep_account-IsLayer key c (none, b) = tt
keep_account-IsLayer key c (some acc, b) = tt

get_account-IsLayer : (key : KeyId) (v : AccountView) → IsLayer v → IsLayer (get_account key v).1
unfolding get_account
get_account-IsLayer key (database db) h = absurd h
get_account-IsLayer key (cached c base) h = elim (Option-cases (lookup key c.cache_accounts)) [
  | inl e ↦ rw (get_account, e) (keep_account-IsLayer key c (get_account key base))
  | inr (acc, e) ↦ rw (get_account, e) tt
]

behind-IsLayer :
    (id : RegId) (c : AccountViewCache) (r : Option KeyId × AccountView) → IsLayer (behind id c r).1
behind-IsLayer id c (none, b) = tt
behind-IsLayer id c (some key, b) =
    get_account-IsLayer key (cached (set_cached_key_id id key c) b) tt

get_account_of-IsLayer :
    (id : RegId) (v : AccountView) → IsLayer v → IsLayer (get_account_of id v).1
unfolding get_account_of
get_account_of-IsLayer id (database db) h = absurd h
get_account_of-IsLayer id (cached c base) h = elim (Bool-cases (is_empty id)) [
  | inl f ↦ rw f tt
  | inr f ↦ elim (Option-cases (lookup id c.cache_key_ids)) [
    | inl e ↦ rw (f, e) (behind-IsLayer id c (get_key_id_of id base))
    | inr (key, e) ↦ elim (Bool-cases (key == 0)) [
      | inl z ↦ rw (f, e, z) tt
      | inr z ↦ elim (Option-cases (lookup key c.cache_accounts)) [
        | inl g ↦ rw (f, e, z, g) tt
        | inr (acc, g) ↦ rw (f, e, z, g) tt
      ]
    ]
  ]
]

get_account_by-IsLayer :
    (keys : PubKeys) (user : UserId) (v : AccountView)
    → IsLayer v
    → IsLayer (get_account_by keys user v).1
unfolding get_account_by
get_account_by-IsLayer keys null_id v h = h
get_account_by-IsLayer keys (by_reg id) v h = get_account_of-IsLayer id v h
get_account_by-IsLayer keys (by_key k) v h = get_account-IsLayer k v h
get_account_by-IsLayer keys (by_pub_key p) v h = get_account-IsLayer (keys.get_key_id p) v h

-- What a read of a cache leaves.
pub record Got (found : Option Account) (v : AccountView) (r : Option Account × AccountView)
    : Type 0 where
  pub result : r.0 ≡ found
  pub same : SameView r.1 v
  pub cache : IsCache r.1

pub get_account_by-Got :
    (keys : PubKeys) (user : UserId) (v : AccountView)
    → IsCache v
    → Got (account_at (key_by keys user v) v) v (get_account_by keys user v)
get_account_by-Got keys user v h =
    let read = get_account_by-Read keys user v h.sound in
    record {
      result = read.result;
      same = read.same;
      cache = record { sound = read.sound; layer = get_account_by-IsLayer keys user v h.layer };
    }

-- A cache in which exactly one account differs.
pub record Put (key : KeyId) (found : Option Account) (v w : AccountView) : Type 0 where
  pub is : AccountIs key found v w
  pub cache : IsCache w

pub set_account-Put :
    (key : KeyId) (acc : Account) (v : AccountView)
    → IsCache v
    → Put key (present acc) v (set_account key acc v)
unfolding set_account
set_account-Put key acc (database db) h = absurd h.layer
set_account-Put key acc (cached c base) h =
    let set = set_account-AccountIs key acc c base h.sound in
    record { is = set; cache = record { sound = set.sound; layer = tt } }

keep_erased-IsLayer :
    (key : KeyId) (c : AccountViewCache) (r : Option Account × AccountView)
    → IsLayer (keep_erased key c r)
keep_erased-IsLayer key c (none, b) = tt
keep_erased-IsLayer key c (some acc, b) = tt

erase_account-IsLayer :
    (key : KeyId) (c : AccountViewCache) (base : AccountView)
    → IsLayer (erase_account key (cached c base))
unfolding erase_account
erase_account-IsLayer key c base = elim (Option-cases (lookup key c.cache_accounts)) [
  | inl e ↦ rw (erase_account, e) (keep_erased-IsLayer key c (get_account key base))
  | inr (acc, e) ↦ rw (erase_account, e) tt
]

pub erase_account-Put :
    (key : KeyId) (v : AccountView) → IsCache v → Put key none v (erase_account key v)
erase_account-Put key (database db) h = absurd h.layer
erase_account-Put key (cached c base) h =
    let erased = erase_account-AccountIs c base h.sound key in
    record {
      is = erased;
      cache = record { sound = erased.sound; layer = erase_account-IsLayer key c base };
    }

set_account_of-IsLayer :
    (id : RegId) (acc : Account) (c : AccountViewCache) (base : AccountView)
    → IsLayer (set_account_of id acc (cached c base)).1
unfolding set_account_of
set_account_of-IsLayer id acc c base = elim (Bool-cases (is_empty id)) [
  | inl f ↦ rw f tt
  | inr f ↦ elim (Option-cases (lookup id c.cache_key_ids)) [
    | inl e ↦ rw (f, e) tt
    | inr (key, e) ↦ rw (f, e) tt
  ]
]

set_account_by-IsLayer :
    (keys : PubKeys) (user : UserId) (acc : Account) (c : AccountViewCache) (base : AccountView)
    → IsLayer (set_account_by keys user acc (cached c base)).1
unfolding set_account_by set_account
set_account_by-IsLayer keys null_id acc c base = tt
set_account_by-IsLayer keys (by_reg id) acc c base = set_account_of-IsLayer id acc c base
set_account_by-IsLayer keys (by_key k) acc c base = tt
set_account_by-IsLayer keys (by_pub_key p) acc c base = tt

pub set_account_by-Put :
    (keys : PubKeys) (user : UserId) (acc : Account) (key : KeyId) (v : AccountView)
    → IsCache v
    → key_by keys user v ≡ some key
    → (set_account_by keys user acc v).0 ≡ true
    → Put key (present acc) v (set_account_by keys user acc v).1
set_account_by-Put keys user acc key (database db) h leads ok = absurd h.layer
set_account_by-Put keys user acc key (cached c base) h leads ok =
    let set = set_account_by-AccountIs keys acc c base h.sound user key leads ok in
    record {
      is = set;
      cache = record { sound = set.sound; layer = set_account_by-IsLayer keys user acc c base };
    }
