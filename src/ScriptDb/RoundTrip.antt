-- ===== src/ScriptDb/RoundTrip.antt =====
-- Setting and undoing the data of a contract (src/database.cpp: `SetScriptData`,
-- `UndoScriptData`).
use dacrs.Base.{
  ℕ, suc, ◌^◌, ◌<◌, Bool, true, false, Option, none, some, [], ◌≡◌, refl, ◌∙◌, arith, length,
  Option-cases, inl, inr,
}
use mathlib.Core.Bool.{false≢true}
use dacrs.Base.Dict.{bytes_key, same_refl}
use dacrs.Vm.Api.{bytes_of}
use dacrs.ScriptDb.{
  Bytes, ScriptDbView, ScriptDbOperLog, no_bytes, not_empty, db_get_data, db_set_data,
}
use dacrs.ScriptDb.Observe.{
  data_of, IsCache, SameData, Found, db_get_data-Found, cache-IsSound, DataIs, db_set_data-DataIs,
  db_have_data-data_of, data-full,
}
use dacrs.ScriptDb.Data.{
  count_bytes, have_script_data, set_script_data, undo_script_data, logged_set, then_logged_set,
  then_set, undo_count,
}
use dacrs.ScriptDb.Counts.{Sets, one_more-Sets}
use dacrs.ScriptDb.Undo.{undo_script_data-opened, Ends, undo_added-Ends, undo_changed-Sets, d, c}

-- What a change of a contract's data comes to once its log is undone.
unfoldable pub undo_after : Option ScriptDbOperLog × ScriptDbView → Option (Bool × ScriptDbView)
undo_after (none, w) = some (false, w)
undo_after (some log, w) = undo_script_data log.key log.value w

-- Success, with the same data under every key.
pub data Restores (v : ScriptDbView) : Option (Bool × ScriptDbView) → Type 0 where
  restored : (u : ScriptDbView) → SameData u v → IsCache u → Restores v (some (true, u))

finished-Restores :
    (v : ScriptDbView) (r : Bool × ScriptDbView)
    → r.0 ≡ true
    → SameData r.1 v
    → IsCache r.1
    → Restores v (some r)
finished-Restores v (false, u) ok same cached = absurd (false≢true ok)
finished-Restores v (true, u) ok same cached = restored u same cached

module _ (script_id script_key : Bytes) (six : length script_id ≡ 6) (value : Bytes)
    (full : no_bytes value ≡ false) (n : ℕ) (small : suc n < 2 ^ 31) (v : ScriptDbView)
    (counts : data_of (c script_id script_key six) v ≡ not_empty (count_bytes n)) where
  abbrev dk : Bytes
  dk = d script_id script_key six

  abbrev ck : Bytes
  ck = c script_id script_key six

  -- The key is new: the log is empty, the count has grown.
  logged_new-Restores :
      (u : ScriptDbView) (r : Option Bytes × ScriptDbView)
      → DataIs ck (not_empty (count_bytes (suc n))) v u
      → Found dk u r
      → data_of dk v ≡ none
      → Restores v (undo_after (logged_set dk value r))
  unfolding undo_after count_bytes bytes_of
  logged_new-Restores u (old, w) counted read fresh =
      rw
        (read.result ∙ counted.data_at dk ∙ fresh, undo_script_data-opened script_id script_key six)
        (finished-Restores v _ ends.ok
          (λ j.
            ends.data_at j
            ∙ ground (
              arith,
              set.data_at j,
              read.same j,
              counted.data_at j,
              bytes_key.same_iff j dk,
              bytes_key.same_iff j ck,
              fresh,
              counts,
            ))
          ends.cache)
    where
      x : ScriptDbView
      x = db_set_data dk value w

      set : DataIs dk (not_empty value) w x
      set = db_set_data-DataIs dk value w (read.cache counted.cache)

      there : data_of dk x ≡ some value
      there = set.data_at dk ∙ rw (same_refl dk, full) refl

      counts_there : data_of ck x ≡ some (count_bytes (suc n))
      counts_there = set.data_at ck ∙ read.same ck ∙ counted.data_at ck ∙ rw (same_refl ck) refl

      ends :
          Ends script_id script_key six none
            (not_empty (count_bytes n))
            x
            (then_set dk [] (undo_count script_id [] (db_get_data dk x)))
      ends =
          undo_added-Ends script_id script_key six n small x set.cache value _
            (db_get_data-Found dk x (cache-IsSound x set.cache)) there full counts_there

  -- The key has a value, which is the log.
  logged_old-Restores :
      (before : Bytes) (r : Option Bytes × ScriptDbView)
      → IsCache v
      → Found dk v r
      → data_of dk v ≡ some before
      → Restores v (undo_after (logged_set dk value r))
  unfolding undo_after
  logged_old-Restores before (old, w) cached read present =
      rw (read.result ∙ present, undo_script_data-opened script_id script_key six)
        (finished-Restores v _ undone.ok
          (λ j.
            undone.data_at.data_at j
            ∙ ground (arith, set.data_at j, read.same j, bytes_key.same_iff j dk, present))
          undone.data_at.cache)
    where
      x : ScriptDbView
      x = db_set_data dk value w

      set : DataIs dk (not_empty value) w x
      set = db_set_data-DataIs dk value w (read.cache cached)

      undone :
          Sets dk
            (some before)
            x
            (then_set dk before (undo_count script_id before (db_get_data dk x)))
      undone =
          undo_changed-Sets script_id script_key six before x _ value set.cache
            (db_get_data-Found dk x (cache-IsSound x set.cache))
            (set.data_at dk ∙ rw (same_refl dk, full) refl) full
            (data-full dk before v (cache-IsSound v cached) present)

  counted-Restores :
      (r : Bool × ScriptDbView)
      → Sets ck (not_empty (count_bytes (suc n))) v r
      → data_of dk v ≡ none
      → Restores v (undo_after (then_logged_set dk value r))
  counted-Restores (false, u) h fresh = absurd (false≢true h.ok)
  counted-Restores (true, u) h fresh =
      logged_new-Restores u _ h.data_at (db_get_data-Found dk u (cache-IsSound u h.data_at.cache))
        fresh

  -- On a cache over a sound view, with the id of a contract in six bytes, whose count is stored as
  -- n and n + 1 is below 2 ^ 31: setting a key of its data to a value that is not empty, and then
  -- undoing it by the log, succeeds and leaves under every key what was there, the count included.
  pub set_script_data-Restores :
      IsCache v → Restores v (undo_after (set_script_data script_id script_key value v))
  unfolding set_script_data have_script_data
  set_script_data-Restores cached = elim (Option-cases (data_of dk v)) [
    | inl e ↦
        rw (db_have_data-data_of dk v, e)
          (counted-Restores _ (one_more-Sets script_id n small v cached counts) e)
    | inr (before, e) ↦
        rw (db_have_data-data_of dk v, e)
          (logged_old-Restores before _ cached (db_get_data-Found dk v (cache-IsSound v cached)) e)
  ]
