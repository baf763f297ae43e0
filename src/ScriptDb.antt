-- ===== src/ScriptDb.antt =====
-- The database of the contracts and the caches above it (src/database.cpp: `CScriptDBViewCache`;
-- src/txdb.cpp: `CScriptDB`).
pub mod Observe
pub mod Data
pub mod Counts
pub mod Undo
pub mod RoundTrip
pub mod Flush
mod Tests
use dacrs.Base.{
  ℕ, zero, suc, ◌-◌, ◌^◌, Bool, true, false, not, Option, none, some, List, [], ◌∷◌, ◌++◌, ltb,
  ◌==◌, if◌then◌else◌, length,
}
use dacrs.Base.Int.{ℤ, pos, negsuc, ◌+ℤ◌, ◌-ℤ◌, pos_part, ltb_ℤ}
use dacrs.Base.Dict.{Dict, lookup, put, erase, same_bytes, bytes_key}
use dacrs.AppAccount.Fund.{take}
use dacrs.Vm.Api.{word_of, bytes_of}
use dacrs.RunEnv.Check.{skip}

abbrev pub Bytes : Type 0
Bytes = List ℕ

-- `CScriptDBView`: the database, or a cache over a view, in which an empty value stands for what is
-- erased.
pub data ScriptDbView : Type 0 where
  script_db : Dict Bytes Bytes → ScriptDbView
  script_cache : Dict Bytes Bytes → ScriptDbView → ScriptDbView

-- `CScriptDBOperLog`: a key, and the value that it had.
pub record ScriptDbOperLog : Type 0 where
  pub key : Bytes
  pub value : Bytes

abbrev pub no_bytes : Bytes → Bool
no_bytes [] = true
no_bytes (b ∷ bs) = false

abbrev pub not_empty : Bytes → Option Bytes
not_empty value = if no_bytes value then none else some value

abbrev pub keep_data :
    Bytes → Dict Bytes Bytes → Option Bytes × ScriptDbView → Option Bytes × ScriptDbView
keep_data key datas (none, base) = (none, script_cache datas base)
keep_data key datas (some value, base) = (some value, script_cache (put key value datas) base)

-- `GetData`
unfoldable pub db_get_data : Bytes → ScriptDbView → Option Bytes × ScriptDbView
db_get_data key (script_db d) = (lookup key d, script_db d)
db_get_data key (script_cache datas base) = elim (lookup key datas) [
  | some value ↦ (not_empty value, script_cache datas base)
  | none ↦ keep_data key datas (db_get_data key base)
]

-- `SetData`
unfoldable pub db_set_data : Bytes → Bytes → ScriptDbView → ScriptDbView
db_set_data key value (script_db d) = script_db (put key value d)
db_set_data key value (script_cache datas base) = script_cache (put key value datas) base

abbrev pub is_some {ℓ} : {A : Type ℓ} → Option A → Bool
is_some none = false
is_some (some a) = true

-- `HaveData`
unfoldable pub db_have_data : Bytes → ScriptDbView → Bool
db_have_data key (script_db d) = is_some (lookup key d)
db_have_data key (script_cache datas base) = elim (lookup key datas) [
  | some value ↦ not (no_bytes value)
  | none ↦ db_have_data key base
]

abbrev pub erase_below :
    Bytes → Dict Bytes Bytes → Option Bytes × ScriptDbView → Bool × ScriptDbView
erase_below key datas (none, base) = (false, script_cache datas base)
erase_below key datas (some value, base) = (true, script_cache (put key [] datas) base)

-- `EraseKey`
unfoldable pub db_erase_key : Bytes → ScriptDbView → Bool × ScriptDbView
db_erase_key key (script_db d) = (true, script_db (erase key d))
db_erase_key key (script_cache datas base) = elim (lookup key datas) [
  | some value ↦ (true, script_cache (put key [] datas) base)
  | none ↦ erase_below key datas (db_get_data key base)
]

-- One entry of `BatchWrite`.
unfoldable pub db_write : Bytes → Bytes → ScriptDbView → ScriptDbView
db_write key value (script_db d) =
    if no_bytes value then script_db (erase key d) else script_db (put key value d)
db_write key value (script_cache datas base) = script_cache (put key value datas) base

-- `BatchWrite`
unfoldable pub db_batch_write : Dict Bytes Bytes → ScriptDbView → ScriptDbView
db_batch_write [] v = v
db_batch_write ((key, value) ∷ rest) v = db_batch_write rest (db_write key value v)

-- `Flush` of a cache over a view.
unfoldable pub db_flush : Dict Bytes Bytes → ScriptDbView → ScriptDbView
db_flush datas base = script_cache [] (db_batch_write datas base)

-- 'd' 'e' 'f', 's' 'n' 'u' 'm', 's' 'd' 'n' 'u' 'm', 'd' 'a' 't' 'a', 'A' 'D' 'D' 'R', 't' 'x'
abbrev pub def_prefix : Bytes
def_prefix = 100 ∷ 101 ∷ 102 ∷ []

abbrev pub snum_key : Bytes
snum_key = 115 ∷ 110 ∷ 117 ∷ 109 ∷ []

abbrev pub sdnum_key : Bytes → Bytes
sdnum_key script_id = 115 ∷ 100 ∷ 110 ∷ 117 ∷ 109 ∷ script_id

abbrev pub data_prefix : Bytes
data_prefix = 100 ∷ 97 ∷ 116 ∷ 97 ∷ []

abbrev pub data_key : Bytes → Bytes → Bytes
data_key script_id script_key = data_prefix ++ script_id ++ 95 ∷ script_key

abbrev pub addr_prefix : Bytes
addr_prefix = 65 ∷ 68 ∷ 68 ∷ 82 ∷ []

abbrev pub tx_prefix : Bytes
tx_prefix = 116 ∷ 120 ∷ []
