-- ===== src/ScriptDb/Undo.antt =====
-- Undoing a change of a contract's data by its log (src/database.cpp: `UndoScriptData`).
use dacrs.Base.{
  ℕ, suc, ◌^◌, ◌<◌, Bool, true, false, Option, none, some, [], ◌∷◌, ◌++◌, ◌≡◌, refl, sym, subst,
  ◌∙◌, ap, arith, length, length-append, leb, if◌then◌else◌,
}
use mathlib.Core.Option.{some-injective, none-ne-some}
use mathlib.Core.Bool.{false≢true}
use dacrs.Base.Dict.{bytes_key}
use dacrs.AppAccount.Fund.{take}
use dacrs.RunEnv.Check.{skip}
use dacrs.ScriptDb.{
  Bytes, ScriptDbView, no_bytes, not_empty, db_get_data, db_set_data, sdnum_key, data_key,
}
use dacrs.ScriptDb.Observe.{data_of, IsCache, SameData, Found, DataIs, db_set_data-DataIs}
use dacrs.ScriptDb.Data.{
  count_bytes, one_more, get_script_data_count, undo_count, undo_script_data, then_set,
}
use dacrs.ScriptDb.Counts.{Sets, through, one_more-Sets, one_less-Sets}

pub not_empty-full : (value : Bytes) → no_bytes value ≡ false → not_empty value ≡ some value
not_empty-full value full = rw full refl

take-append : (xs ys : Bytes) → take (length xs) (xs ++ ys) ≡ xs
take-append [] ys = refl
take-append (x ∷ xs) ys = ap (λ zs. x ∷ zs) (take-append xs ys)

module _ (script_id script_key : Bytes) (six : length script_id ≡ 6) where
  abbrev pub d : Bytes
  d = data_key script_id script_key

  abbrev pub c : Bytes
  c = sdnum_key script_id

  pub undo_script_data-opened :
      (value : Bytes) (w : ScriptDbView)
      → undo_script_data d value w
        ≡ some (then_set d value (undo_count script_id value (db_get_data d w)))
  unfolding undo_script_data
  undo_script_data-opened value w = rw (long, id_taken) refl
    where
      long : leb (length d) 10 ≡ false
      long = ground (arith, length-append script_id (95 ∷ script_key))

      id_taken : take 6 (skip 4 d) ≡ script_id
      id_taken = rw (sym six) (take-append script_id (95 ∷ script_key))

  -- A step that succeeds, and after which only the key and the count may differ.
  pub record Ends (at_d at_c : Option Bytes) (v : ScriptDbView) (r : Bool × ScriptDbView)
      : Type 0 where
    pub ok : r.0 ≡ true
    pub data_at :
        (j : Bytes)
        → data_of j r.1 ≡ (
            if bytes_key.same j d then at_d else (if bytes_key.same j c then at_c else data_of j v))
    pub cache : IsCache r.1

  -- The count, then the key.
  then_set-Ends :
      (value : Bytes) (at_c : Option Bytes) (v v' : ScriptDbView) (r : Bool × ScriptDbView)
      → SameData v' v
      → Sets c at_c v' r
      → Ends (not_empty value) at_c v (then_set d value r)
  then_set-Ends value at_c v v' (false, w) same h = absurd (false≢true h.ok)
  then_set-Ends value at_c v v' (true, w) same h = record {
    ok = refl;
    data_at = λ j. ground (arith, set.data_at j, h.data_at.data_at j, same j);
    cache = set.cache;
  }
    where
      set : DataIs d (not_empty value) w (db_set_data d value w)
      set = db_set_data-DataIs d value w h.data_at.cache

  module _ (n : ℕ) (small : suc n < 2 ^ 31) (w : ScriptDbView) (cached : IsCache w) where
    -- A key that is there is erased again.
    pub undo_added-Ends :
        (value : Bytes) (r : Option Bytes × ScriptDbView)
        → Found d w r
        → data_of d w ≡ some value
        → no_bytes value ≡ false
        → data_of c w ≡ some (count_bytes (suc n))
        → Ends none (not_empty (count_bytes n)) w (then_set d [] (undo_count script_id [] r))
    undo_added-Ends value (none, u) read e full counts =
        absurd (none-ne-some value (read.result ∙ e))
    undo_added-Ends value (some old, u) read e full counts =
        rw (some-injective _ _ (read.result ∙ e), full)
          (then_set-Ends [] _ w u _ read.same
            (one_less-Sets script_id n small u (read.cache cached) (read.same c ∙ counts)))

    -- A key that is not there gets its value again.
    pub undo_erased-Ends :
        (value : Bytes) (r : Option Bytes × ScriptDbView)
        → Found d w r
        → data_of d w ≡ none
        → no_bytes value ≡ false
        → data_of c w ≡ not_empty (count_bytes n)
        → Ends
            (some value)
            (not_empty (count_bytes (suc n)))
            w
            (then_set d value (undo_count script_id value r))
    undo_erased-Ends value (some old, u) read e full counts =
        absurd (none-ne-some old (sym e ∙ sym read.result))
    undo_erased-Ends value (none, u) read e full counts = rw full (
        subst
          (λ at_d.
            Ends at_d (not_empty (count_bytes (suc n))) w
              (then_set d value (one_more c (get_script_data_count script_id u))))
          (not_empty-full value full)
          (then_set-Ends value _ w u _ read.same
            (one_more-Sets script_id n small u (read.cache cached) (read.same c ∙ counts))))

  -- A value over a value leaves the count.
  pub undo_changed-Sets :
      (value : Bytes) (w : ScriptDbView) (r : Option Bytes × ScriptDbView) (now : Bytes)
      → IsCache w
      → Found d w r
      → data_of d w ≡ some now
      → no_bytes now ≡ false
      → no_bytes value ≡ false
      → Sets d (some value) w (then_set d value (undo_count script_id value r))
  undo_changed-Sets value w (none, u) now cached read e full new_full =
      absurd (none-ne-some now (read.result ∙ e))
  undo_changed-Sets value w (some old, u) now cached read e full new_full =
      rw (some-injective _ _ (read.result ∙ e), full, new_full)
        (record {
          ok = refl;
          data_at = through d (some value) u w _ read.same (
              subst (λ found. DataIs d found u (db_set_data d value u))
                (not_empty-full value new_full) (db_set_data-DataIs d value u (read.cache cached)));
        })
