-- ===== src/ScriptDb/Observe.antt =====
-- What can be read from a view on the contracts' data, and what the operations of src/database.cpp
-- do to it.
use dacrs.Base.{
  false, Option, none, some, ◌≡◌, refl, sym, ◌∙◌, ap, arith, if◌then◌else◌, Option-cases,
  Bool-cases, inl, inr,
}
use mathlib.Core.Option.{none-ne-some}
use dacrs.Base.Dict.{Dict, lookup, IsMap, lookup-put, put-IsMap, bytes_key}
use dacrs.ScriptDb.{
  Bytes, ScriptDbView, script_db, script_cache, no_bytes, not_empty, is_some, keep_data,
  db_get_data, db_set_data, db_have_data,
}

unfoldable pub over_base : Option Bytes → Option Bytes → Option Bytes
over_base none below = below
over_base (some value) below = not_empty value

unfoldable pub data_of : Bytes → ScriptDbView → Option Bytes
data_of key (script_db d) = lookup key d
data_of key (script_cache datas base) = over_base (lookup key datas) (data_of key base)

abbrev pub filled : Option Bytes → Option Bytes
filled none = none
filled (some value) = not_empty value

-- The database holds no empty value, and the maps of the caches are maps.
abbrev pub IsSound : ScriptDbView → Type 0
IsSound (script_db d) = (key : Bytes) → filled (lookup key d) ≡ lookup key d
IsSound (script_cache datas base) = IsMap datas × IsSound base

-- A cache over a sound view.
abbrev pub IsCache : ScriptDbView → Type 0
IsCache (script_db d) = ⊥
IsCache (script_cache datas base) = IsMap datas × IsSound base

abbrev pub SameData : ScriptDbView → ScriptDbView → Type 0
SameData v w = (key : Bytes) → data_of key v ≡ data_of key w

filled-over_base :
    (o below : Option Bytes) → filled below ≡ below → filled (over_base o below) ≡ over_base o below
unfolding over_base
filled-over_base none below h = h
filled-over_base (some value) below h = elim (Bool-cases (no_bytes value)) [
  | inl e ↦ rw e refl
  | inr e ↦ rw (e, e) refl
]

filled-data_of :
    (key : Bytes) (v : ScriptDbView) → IsSound v → filled (data_of key v) ≡ data_of key v
unfolding data_of
filled-data_of key (script_db d) h = h key
filled-data_of key (script_cache datas base) h = filled-over_base _ _ (filled-data_of key base h.1)

pub data-full :
    (key value : Bytes) (v : ScriptDbView)
    → IsSound v
    → data_of key v ≡ some value
    → no_bytes value ≡ false
data-full key value v h e = elim (Bool-cases (no_bytes value)) [
  | inr full ↦ full
  | inl empty ↦ absurd (none-ne-some value (sym (rw empty refl) ∙ kept))
]
  where
    kept : not_empty value ≡ some value
    kept = ap filled (sym e) ∙ filled-data_of key v h ∙ e

-- Reading: what is found, and a view that nobody can tell from the one before it.
pub record Found (key : Bytes) (v : ScriptDbView) (r : Option Bytes × ScriptDbView) : Type 0 where
  pub result : r.0 ≡ data_of key v
  pub same : SameData r.1 v
  pub sound : IsSound r.1
  pub cache : IsCache v → IsCache r.1

keep_data-Found :
    (key : Bytes) (datas : Dict Bytes Bytes) (base : ScriptDbView) (r : Option Bytes × ScriptDbView)
    → IsSound (script_cache datas base)
    → lookup key datas ≡ none
    → Found key base r
    → Found key (script_cache datas base) (keep_data key datas r)
unfolding data_of over_base
keep_data-Found key datas base (none, b) h fresh read = record {
  result = rw fresh read.result;
  same = λ j. ap (over_base (lookup j datas)) (read.same j);
  sound = (h.0, read.sound);
  cache = λ _. (h.0, read.sound);
}
keep_data-Found key datas base (some value, b) h fresh read = record {
  result = rw fresh read.result;
  same = λ j. rw lookup-put (ground (arith, bytes_key.same_iff j key, read.same j, live));
  sound = (put-IsMap key value datas h.0, read.sound);
  cache = λ _. (put-IsMap key value datas h.0, read.sound);
}
  where
    live : not_empty value ≡ data_of key base
    live = ap filled read.result ∙ filled-data_of key base h.1

pub db_get_data-Found :
    (key : Bytes) (v : ScriptDbView) → IsSound v → Found key v (db_get_data key v)
unfolding db_get_data data_of over_base
db_get_data-Found key (script_db d) h = record {
  result = refl;
  same = λ j. refl;
  sound = h;
  cache = λ e. e;
}
db_get_data-Found key (script_cache datas base) h = elim (Option-cases (lookup key datas)) [
  | inl e ↦
      rw (db_get_data, e) (keep_data-Found key datas base _ h e (db_get_data-Found key base h.1))
  | inr (value, e) ↦
      rw (db_get_data, e)
        (record { result = rw e refl; same = λ j. refl; sound = h; cache = λ c. c })
]

pub cache-IsSound : (v : ScriptDbView) → IsCache v → IsSound v
cache-IsSound (script_db d) c = absurd c
cache-IsSound (script_cache datas base) c = c

-- A cache in which exactly one key differs.
pub record DataIs (key : Bytes) (found : Option Bytes) (v w : ScriptDbView) : Type 0 where
  pub data_at : (j : Bytes) → data_of j w ≡ (if bytes_key.same j key then found else data_of j v)
  pub cache : IsCache w

pub db_set_data-DataIs :
    (key value : Bytes) (v : ScriptDbView)
    → IsCache v
    → DataIs key (not_empty value) v (db_set_data key value v)
unfolding db_set_data data_of over_base
db_set_data-DataIs key value (script_db d) c = absurd c
db_set_data-DataIs key value (script_cache datas base) c = record {
  data_at = λ j. rw lookup-put (ground arith);
  cache = (put-IsMap key value datas c.0, c.1);
}

-- `HaveData` and `GetData` agree.
pub db_have_data-data_of :
    (key : Bytes) (v : ScriptDbView) → db_have_data key v ≡ is_some (data_of key v)
unfolding db_have_data data_of over_base
db_have_data-data_of key (script_db d) = refl
db_have_data-data_of key (script_cache datas base) = elim (Option-cases (lookup key datas)) [
  | inl e ↦ rw (db_have_data, e) (db_have_data-data_of key base)
  | inr (value, e) ↦ rw (db_have_data, e) (ground arith)
]
