-- ===== src/Tx/Entries.antt =====
-- What the registering of an account does to the entries of a cache (src/database.cpp:
-- `SaveAccountInfo`, `GetKeyId` and `EraseId`).
use dacrs.Base.{
  Option, none, some, ◌≡◌, Bool-cases, Option-cases, inl, inr, arith, ◌==◌, if◌then◌else◌, false,
}
use dacrs.Base.Dict.{lookup, lookup-put, put-IsMap, same_bytes, nat_key, bytes_key}
use dacrs.Account.{Account, KeyId, RegId}
use dacrs.Views.{
  AccountViewCache, AccountView, database, cached, is_empty, present, present_key, get_key_id_of,
  erase_key_id, keep_key_id, keep_key_erased,
}
use dacrs.Views.Observe.{account_of, key_of, layered, layered_key, SameView}
use dacrs.Views.Reads.{get_key_id_of-Read}
use dacrs.Views.Writes.{KeyIdIs, erase_key_id-KeyIdIs}
use dacrs.Views.Batch.{save_account_info}
use dacrs.Views.Layer.{IsLayer, IsCache}

-- A cache in which exactly one account and one registered id differ.
pub record Entered (key : KeyId) (acc : Option Account) (id : RegId) (leads : Option KeyId)
    (v w : AccountView) : Type 0 where
  pub accounts : (j : KeyId) → account_of j w ≡ (if j == key then acc else account_of j v)
  pub key_ids : (i : RegId) → key_of i w ≡ (if same_bytes i id then leads else key_of i v)
  pub cache : IsCache w

pub save_account_info-Entered :
    (id : RegId) (key : KeyId) (acc : Account) (v : AccountView)
    → IsCache v
    → is_empty id ≡ false
    → Entered key (present acc) id (present_key key) v (save_account_info id key acc v)
unfolding save_account_info account_of key_of layered layered_key
save_account_info-Entered id key acc (database db) h some_id = absurd h.layer
save_account_info-Entered id key acc (cached c base) h some_id = record {
  accounts = λ j. rw lookup-put (ground (arith));
  key_ids = λ i. rw lookup-put (ground (arith, bytes_key.same_iff i id));
  cache = record {
    sound = (
      put-IsMap key acc c.cache_accounts h.sound.0,
      put-IsMap id key c.cache_key_ids h.sound.1,
      h.sound.2,
    );
    layer = tt;
  };
}

keep_key_id-IsLayer :
    (id : RegId) (c : AccountViewCache) (r : Option KeyId × AccountView)
    → IsLayer (keep_key_id id c r).1
keep_key_id-IsLayer id c (none, b) = tt
keep_key_id-IsLayer id c (some key, b) = tt

get_key_id_of-IsLayer : (id : RegId) (v : AccountView) → IsLayer v → IsLayer (get_key_id_of id v).1
unfolding get_key_id_of
get_key_id_of-IsLayer id (database db) h = absurd h
get_key_id_of-IsLayer id (cached c base) h = elim (Bool-cases (is_empty id)) [
  | inl f ↦ rw f tt
  | inr f ↦ elim (Option-cases (lookup id c.cache_key_ids)) [
    | inl e ↦ rw (f, e) (keep_key_id-IsLayer id c (get_key_id_of id base))
    | inr (key, e) ↦ rw (f, e) tt
  ]
]

-- What `GetKeyId` of a registered id finds in a cache, and leaves.
pub record GotKey (found : Option KeyId) (v : AccountView) (r : Option KeyId × AccountView)
    : Type 0 where
  pub result : r.0 ≡ found
  pub same : SameView r.1 v
  pub cache : IsCache r.1

pub get_key_id_of-GotKey :
    (id : RegId) (v : AccountView) → IsCache v → GotKey (key_of id v) v (get_key_id_of id v)
get_key_id_of-GotKey id v h =
    let read = get_key_id_of-Read id v h.sound in
    record {
      result = read.result;
      same = read.same;
      cache = record { sound = read.sound; layer = get_key_id_of-IsLayer id v h.layer };
    }

keep_key_erased-IsLayer :
    (id : RegId) (c : AccountViewCache) (r : Option KeyId × AccountView)
    → IsLayer (keep_key_erased id c r)
keep_key_erased-IsLayer id c (none, b) = tt
keep_key_erased-IsLayer id c (some key, b) = tt

erase_key_id-IsLayer :
    (id : RegId) (c : AccountViewCache) (base : AccountView)
    → IsLayer (erase_key_id id (cached c base)).1
unfolding erase_key_id
erase_key_id-IsLayer id c base = elim (Bool-cases (is_empty id)) [
  | inl f ↦ rw f tt
  | inr f ↦ rw f (elim (Option-cases (lookup id c.cache_key_ids)) [
    | inl e ↦ rw e (keep_key_erased-IsLayer id c (get_key_id_of id base))
    | inr (key, e) ↦ rw e tt
  ])
]

-- A cache in which exactly one registered id differs.
pub record PutKey (id : RegId) (found : Option KeyId) (v w : AccountView) : Type 0 where
  pub is : KeyIdIs id found v w
  pub cache : IsCache w

pub erase_key_id-PutKey :
    (id : RegId) (v : AccountView) → IsCache v → PutKey id none v (erase_key_id id v).1
erase_key_id-PutKey id (database db) h = absurd h.layer
erase_key_id-PutKey id (cached c base) h =
    let erased = erase_key_id-KeyIdIs c base h.sound id in
    record {
      is = erased;
      cache = record { sound = erased.sound; layer = erase_key_id-IsLayer id c base };
    }
