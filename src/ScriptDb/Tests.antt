-- ===== src/ScriptDb/Tests.antt =====
-- The theorems on the data of contracts at concrete views, and an undo that fails its purpose.
use dacrs.Base.{some, [], ◌∷◌, ◌≡◌, refl, arith}
use dacrs.Base.Dict.{lookup, put}
use dacrs.Vm.Api.{bytes_of}
use dacrs.ScriptDb.{
  Bytes, ScriptDbView, script_db, script_cache, data_key, sdnum_key, db_get_data, db_set_data,
}
use dacrs.ScriptDb.Observe.{data_of, over_base, IsSound}
use dacrs.ScriptDb.Data.{set_script_data, count_bytes, address_key, set_tx_hash_by_address}
use dacrs.ScriptDb.RoundTrip.{undo_after, Restores, set_script_data-Restores}

abbrev contract : Bytes
contract = 1 ∷ 0 ∷ 0 ∷ 0 ∷ 2 ∷ 0 ∷ []

-- A contract with one key, 7.
abbrev stored : ScriptDbView
stored =
    script_db
      ((data_key contract (7 ∷ []), 42 ∷ []) ∷ (sdnum_key contract, 1 ∷ 0 ∷ 0 ∷ 0 ∷ []) ∷ [])

abbrev view : ScriptDbView
view = script_cache [] stored

stored-IsSound : IsSound stored
unfolding lookup
stored-IsSound = λ key. ground arith

-- The key 8 is set to 43, and that is undone.
set_script_data-Restores_example :
    Restores view (undo_after (set_script_data contract (8 ∷ []) (43 ∷ []) view))
unfolding data_of over_base lookup count_bytes bytes_of
set_script_data-Restores_example =
    set_script_data-Restores contract (8 ∷ []) refl (43 ∷ []) refl 1 (omega arith) view refl
      (tt, stored-IsSound)

abbrev listed : ScriptDbView
listed = (set_tx_hash_by_address 5 100 1 (9 ∷ []) view).1

-- The log of a transaction of an address restores another key: the entry stays.
stays_listed :
    data_of (address_key 5 100 1) (
      db_set_data
        (set_tx_hash_by_address 5 100 1 (9 ∷ []) view).0.key
        (set_tx_hash_by_address 5 100 1 (9 ∷ []) view).0.value
        listed)
    ≡ some (9 ∷ [])
unfolding set_tx_hash_by_address db_get_data db_set_data data_of over_base lookup put bytes_of
stays_listed = refl
