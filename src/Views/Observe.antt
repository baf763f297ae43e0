-- ===== src/Views/Observe.antt =====
-- What can be read from a view of src/database.cpp, without its caches.
use dacrs.Base.{Option, none, some, ◌≡◌, refl, ◌∙◌, ◌==◌, if◌then◌else◌, Bool-cases, inl, inr}
use dacrs.Base.Dict.{lookup, IsMap, nat_key, bytes_key}
use dacrs.Account.{Account, KeyId, RegId}
use dacrs.Views.{AccountView, database, cached, is_empty, present, present_key}

-- What a cache says of an account, over what its base says.
unfoldable pub layered : Option Account → Option Account → Option Account
layered none below = below
layered (some acc) below = present acc

unfoldable pub layered_key : Option KeyId → Option KeyId → Option KeyId
layered_key none below = below
layered_key (some key) below = present_key key

unfoldable pub account_of : KeyId → AccountView → Option Account
account_of key (database db) = lookup key db.accounts
account_of key (cached c base) = layered (lookup key c.cache_accounts) (account_of key base)

-- A cache has nothing under the empty id.
unfoldable pub key_of : RegId → AccountView → Option KeyId
key_of id (database db) = lookup id db.key_ids
key_of id (cached c base) =
    let below = key_of id base in
    if is_empty id then none else layered_key (lookup id c.cache_key_ids) below

-- Two views in which the same account is found under each key, and the same key under each id.
pub record SameView (v w : AccountView) : Type 0 where
  pub accounts : (key : KeyId) → account_of key v ≡ account_of key w
  pub key_ids : (id : RegId) → key_of id v ≡ key_of id w

pub SameView-refl : (v : AccountView) → SameView v v
SameView-refl v = record { accounts = λ key. refl; key_ids = λ id. refl }

pub SameView-trans : {u v w : AccountView} → SameView u v → SameView v w → SameView u w
SameView-trans a b = record {
  accounts = λ key. a.accounts key ∙ b.accounts key;
  key_ids = λ id. a.key_ids id ∙ b.key_ids id;
}

-- What is found is not marked as erased.
abbrev pub seen : Option Account → Option Account
seen none = none
seen (some acc) = present acc

abbrev pub seen_key : Option KeyId → Option KeyId
seen_key none = none
seen_key (some key) = present_key key

-- The database holds nothing that is marked as erased, and the maps of the caches are maps.
abbrev pub IsSound : AccountView → Type 0
IsSound (database db) =
    ((key : KeyId) → seen (lookup key db.accounts) ≡ lookup key db.accounts)
    × ((id : RegId) → seen_key (lookup id db.key_ids) ≡ lookup id db.key_ids)
IsSound (cached c base) = IsMap c.cache_accounts × IsMap c.cache_key_ids × IsSound base

seen-layered :
    (o below : Option Account) → seen below ≡ below → seen (layered o below) ≡ layered o below
unfolding layered
seen-layered none below h = h
seen-layered (some acc) below h = elim (Bool-cases (acc.key_id == 0)) [
  | inl e ↦ rw e refl
  | inr e ↦ rw (e, e) refl
]

seen_key-layered :
    (o below : Option KeyId)
    → seen_key below ≡ below
    → seen_key (layered_key o below) ≡ layered_key o below
unfolding layered_key
seen_key-layered none below h = h
seen_key-layered (some key) below h = elim (Bool-cases (key == 0)) [
  | inl e ↦ rw e refl
  | inr e ↦ rw (e, e) refl
]

pub seen-account_of :
    (key : KeyId) (v : AccountView) → IsSound v → seen (account_of key v) ≡ account_of key v
unfolding account_of
seen-account_of key (database db) h = h.0 key
seen-account_of key (cached c base) h = seen-layered _ _ (seen-account_of key base h.2)

pub seen_key-key_of :
    (id : RegId) (v : AccountView) → IsSound v → seen_key (key_of id v) ≡ key_of id v
unfolding key_of
seen_key-key_of id (database db) h = h.1 id
seen_key-key_of id (cached c base) h = elim (Bool-cases (is_empty id)) [
  | inl e ↦ rw e refl
  | inr e ↦ rw e (seen_key-layered _ _ (seen_key-key_of id base h.2))
]
