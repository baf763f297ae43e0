-- ===== src/ScriptDb/Counts.antt =====
-- The count of a contract's data, one up and one down (src/database.cpp: `GetScriptDataCount`,
-- `SetScriptDataCount`).
use dacrs.Base.{
  ℕ, zero, suc, ◌^◌, ◌<◌, Bool, true, Option, none, some, ◌≡◌, refl, ◌∙◌, ap, arith, if◌then◌else◌,
}
use mathlib.Core.Option.{some-injective, none-ne-some}
use dacrs.Base.Int.{pos, ◌+ℤ◌, ◌-ℤ◌}
use dacrs.Base.Dict.{bytes_key}
use dacrs.Vm.Api.{word_of, bytes_of}
use dacrs.ScriptDb.{Bytes, ScriptDbView, not_empty, sdnum_key}
use dacrs.ScriptDb.Observe.{
  data_of, IsCache, SameData, Found, db_get_data-Found, cache-IsSound, DataIs, db_set_data-DataIs,
}
use dacrs.ScriptDb.Data.{
  int_of, count_read, count_bytes, set_count, count_or_zero, one_more, one_less,
  get_script_data_count,
}

-- A count below 2 ^ 31 is read as it was stored.
int_of-count_bytes : (n : ℕ) → suc n < 2 ^ 31 → int_of (count_bytes (suc n)) ≡ pos (suc n)
unfolding count_bytes word_of bytes_of
int_of-count_bytes n small = ground arith

counted :
    (n : ℕ) (old : Option Bytes) (v : ScriptDbView)
    → n < 2 ^ 31
    → old ≡ not_empty (count_bytes n)
    → count_or_zero (count_read (old, v)).0 ≡ pos n
unfolding count_bytes bytes_of
counted zero old v small e = rw e refl
counted (suc n) old v small e = rw e (int_of-count_bytes n small)

-- A step on a cache that succeeds, and after which exactly one key differs.
pub record Sets (key : Bytes) (found : Option Bytes) (v : ScriptDbView) (r : Bool × ScriptDbView)
    : Type 0 where
  pub ok : r.0 ≡ true
  pub data_at : DataIs key found v r.1

pub through :
    (key : Bytes) (found : Option Bytes) (u v w : ScriptDbView)
    → SameData u v
    → DataIs key found u w
    → DataIs key found v w
through key found u v w same h = record {
  data_at = λ j. h.data_at j ∙ ap (λ d. if bytes_key.same j key then found else d) (same j);
  cache = h.cache;
}

count_view : (r : Option Bytes × ScriptDbView) → (count_read r).1 ≡ r.1
count_view (none, v) = refl
count_view (some value, v) = refl

up_one : (n : ℕ) → pos n +ℤ pos 1 ≡ pos (suc n)
unfolding ◌+ℤ◌
up_one n = ground arith

down_one : (n : ℕ) → pos (suc n) -ℤ pos 1 ≡ pos n
unfolding ◌-ℤ◌
down_one n = ground arith

set_count-Sets :
    (key : Bytes) (n : ℕ) (v v' : ScriptDbView)
    → SameData v' v
    → IsCache v'
    → Sets key (not_empty (count_bytes n)) v (set_count key (pos n) v')
set_count-Sets key n v v' same c = record {
  ok = refl;
  data_at = through key _ v' v _ same (db_set_data-DataIs key (count_bytes n) v' c);
}

module _ (script_id : Bytes) (n : ℕ) (small : suc n < 2 ^ 31) (v : ScriptDbView)
    (c : IsCache v) where
  abbrev pub key : Bytes
  key = sdnum_key script_id

  one_more_of-Sets :
      (r : Option Bytes × ScriptDbView)
      → Found key v r
      → data_of key v ≡ not_empty (count_bytes n)
      → Sets key (not_empty (count_bytes (suc n))) v (one_more key (count_read r))
  one_more_of-Sets (old, v') read e =
      rw (counted n old v' (omega arith) (read.result ∙ e), up_one n, count_view (old, v'))
        (set_count-Sets key (suc n) v v' read.same (read.cache c))

  -- From n, the count grows to n + 1.
  pub one_more-Sets :
      data_of key v ≡ not_empty (count_bytes n)
      → Sets key
          (not_empty (count_bytes (suc n)))
          v
          (one_more key (get_script_data_count script_id v))
  unfolding get_script_data_count
  one_more-Sets e = one_more_of-Sets _ (db_get_data-Found key v (cache-IsSound v c)) e

  one_less_of-Sets :
      (r : Option Bytes × ScriptDbView)
      → Found key v r
      → data_of key v ≡ some (count_bytes (suc n))
      → Sets key (not_empty (count_bytes n)) v (one_less key (count_read r))
  one_less_of-Sets (none, v') read e = absurd (none-ne-some _ (read.result ∙ e))
  one_less_of-Sets (some value, v') read e =
      rw (some-injective _ _ (read.result ∙ e), int_of-count_bytes n small, down_one n)
        (set_count-Sets key n v v' read.same (read.cache c))

  -- From n + 1, it falls to n.
  pub one_less-Sets :
      data_of key v ≡ some (count_bytes (suc n))
      → Sets key (not_empty (count_bytes n)) v (one_less key (get_script_data_count script_id v))
  unfolding get_script_data_count
  one_less-Sets e = one_less_of-Sets _ (db_get_data-Found key v (cache-IsSound v c)) e
