-- ===== src/ScriptDb/Data.antt =====
-- Contracts, their data and the counts of both (src/database.cpp: the operations of
-- `CScriptDBViewCache` on scripts, script data and addresses, and `UndoScriptData`).
use dacrs.Base.{
  ℕ, zero, suc, ◌-◌, ◌^◌, Bool, true, false, Option, none, some, [], ◌++◌, ltb, leb, if◌then◌else◌,
  length,
}
use dacrs.Base.Int.{ℤ, pos, negsuc, ◌+ℤ◌, ◌-ℤ◌}
use dacrs.Base.Dict.{same_bytes}
use dacrs.AppAccount.Fund.{take}
use dacrs.Vm.Api.{word_of, bytes_of}
use dacrs.RunEnv.Check.{skip}
use dacrs.Account.{KeyId}
use dacrs.ScriptDb.{
  Bytes, ScriptDbView, ScriptDbOperLog, no_bytes, db_get_data, db_set_data, db_have_data,
  db_erase_key, def_prefix, snum_key, sdnum_key, data_prefix, data_key, addr_prefix, tx_prefix,
}

-- An int in four bytes, low byte first.
abbrev pub int_of : Bytes → ℤ
int_of value =
    let w = word_of (take 4 value) in if ltb w (2 ^ 31) then pos w else negsuc (2 ^ 32 - 1 - w)

abbrev pub count_read : Option Bytes × ScriptDbView → Option ℤ × ScriptDbView
count_read (none, v) = (none, v)
count_read (some value, v) = (some (int_of value), v)

-- What a count is stored as: nothing at all for 0.
unfoldable pub count_bytes : ℕ → Bytes
count_bytes zero = []
count_bytes (suc n) = bytes_of 4 (suc n)

abbrev pub set_count : Bytes → ℤ → ScriptDbView → Bool × ScriptDbView
set_count key (pos n) v = (true, db_set_data key (count_bytes n) v)
set_count key (negsuc n) v = (false, v)

-- The count, 0 if there is none, and one more.
abbrev pub count_or_zero : Option ℤ → ℤ
count_or_zero none = pos 0
count_or_zero (some n) = n

abbrev pub one_more : Bytes → Option ℤ × ScriptDbView → Bool × ScriptDbView
one_more key (n, v) = set_count key (count_or_zero n +ℤ pos 1) v

-- One less; without a count there is nothing to take from.
abbrev pub one_less : Bytes → Option ℤ × ScriptDbView → Bool × ScriptDbView
one_less key (none, v) = (false, v)
one_less key (some n, v) = set_count key (n -ℤ pos 1) v

unfoldable pub get_script_count : ScriptDbView → Option ℤ × ScriptDbView
get_script_count v = count_read (db_get_data snum_key v)

unfoldable pub set_script_count : ℤ → ScriptDbView → Bool × ScriptDbView
set_script_count n v = set_count snum_key n v

unfoldable pub get_script_data_count : Bytes → ScriptDbView → Option ℤ × ScriptDbView
get_script_data_count script_id v = count_read (db_get_data (sdnum_key script_id) v)

unfoldable pub set_script_data_count : Bytes → ℤ → ScriptDbView → Bool × ScriptDbView
set_script_data_count script_id n v = set_count (sdnum_key script_id) n v

unfoldable pub have_script : Bytes → ScriptDbView → Bool
have_script script_id v = db_have_data (def_prefix ++ script_id) v

unfoldable pub get_script : Bytes → ScriptDbView → Option Bytes × ScriptDbView
get_script script_id v = db_get_data (def_prefix ++ script_id) v

-- To go on with the view if the step before has succeeded.
abbrev pub then_set : Bytes → Bytes → Bool × ScriptDbView → Bool × ScriptDbView
then_set key value (true, v) = (true, db_set_data key value v)
then_set key value (false, v) = (false, v)

unfoldable pub set_script : Bytes → Bytes → ScriptDbView → Bool × ScriptDbView
set_script script_id value v =
    then_set (def_prefix ++ script_id) value
      (if have_script script_id v then (true, v) else one_more snum_key (get_script_count v))

abbrev pub then_erase : Bytes → Bool × ScriptDbView → Bool × ScriptDbView
then_erase key (true, v) = db_erase_key key v
then_erase key (false, v) = (false, v)

unfoldable pub erase_script : Bytes → ScriptDbView → Bool × ScriptDbView
erase_script script_id v =
    then_erase (def_prefix ++ script_id)
      (if have_script script_id v then one_less snum_key (get_script_count v) else (true, v))

unfoldable pub have_script_data : Bytes → Bytes → ScriptDbView → Bool
have_script_data script_id script_key v = db_have_data (data_key script_id script_key) v

abbrev pub old_bytes : Option Bytes → Bytes
old_bytes none = []
old_bytes (some value) = value

-- The log of the value before, and the view with the new one.
abbrev pub logged_set :
    Bytes → Bytes → Option Bytes × ScriptDbView → Option ScriptDbOperLog × ScriptDbView
logged_set key value (old, v) =
    (some (record { key = key; value = old_bytes old }), db_set_data key value v)

abbrev pub then_logged_set :
    Bytes → Bytes → Bool × ScriptDbView → Option ScriptDbOperLog × ScriptDbView
then_logged_set key value (true, v) = logged_set key value (db_get_data key v)
then_logged_set key value (false, v) = (none, v)

unfoldable pub set_script_data :
    Bytes → Bytes → Bytes → ScriptDbView → Option ScriptDbOperLog × ScriptDbView
set_script_data script_id script_key script_data v =
    then_logged_set (data_key script_id script_key) script_data (
      if have_script_data script_id script_key v
      then (true, v)
      else one_more (sdnum_key script_id) (get_script_data_count script_id v))

abbrev pub logged_erase_of :
    Bytes → Bytes → Bool × ScriptDbView → Option ScriptDbOperLog × ScriptDbView
logged_erase_of key value (true, v) = (some (record { key = key; value = value }), v)
logged_erase_of key value (false, v) = (none, v)

abbrev pub logged_erase :
    Bytes → Option Bytes × ScriptDbView → Option ScriptDbOperLog × ScriptDbView
logged_erase key (none, v) = (none, v)
logged_erase key (some value, v) = logged_erase_of key value (db_erase_key key v)

abbrev pub then_logged_erase : Bytes → Bool × ScriptDbView → Option ScriptDbOperLog × ScriptDbView
then_logged_erase key (true, v) = logged_erase key (db_get_data key v)
then_logged_erase key (false, v) = (none, v)

-- `EraseScriptData(vchScriptId, vchScriptKey, cScriptDBOperLog)`
unfoldable pub erase_script_data :
    Bytes → Bytes → ScriptDbView → Option ScriptDbOperLog × ScriptDbView
erase_script_data script_id script_key v = then_logged_erase (data_key script_id script_key) (
    if have_script_data script_id script_key v
    then one_less (sdnum_key script_id) (get_script_data_count script_id v)
    else (true, v))

-- What is undone to the count of a contract's data, given the value that the key has now.
abbrev pub undo_count : Bytes → Bytes → Option Bytes × ScriptDbView → Bool × ScriptDbView
undo_count script_id value (old, v) =
    if no_bytes value
    then (if no_bytes (old_bytes old)
        then (true, v)
        else one_less (sdnum_key script_id) (get_script_data_count script_id v))
    else (if no_bytes (old_bytes old)
        then one_more (sdnum_key script_id) (get_script_data_count script_id v)
        else (true, v))

-- `UndoScriptData`; none where its assertion stops the program.
unfoldable pub undo_script_data : Bytes → Bytes → ScriptDbView → Option (Bool × ScriptDbView)
undo_script_data key value v =
    if same_bytes (take 4 key) data_prefix
    then (if leb (length key) 10
        then none
        else some (then_set key value (undo_count (take 6 (skip 4 key)) value (db_get_data key v))))
    else some (true, db_set_data key value v)

-- The key of a transaction of an address at a place of the chain.
abbrev pub address_key : KeyId → ℕ → ℕ → Bytes
address_key key_id height index =
    addr_prefix ++ bytes_of 20 key_id ++ bytes_of 4 height ++ bytes_of 4 index

-- `SetTxHashByAddress`: the log is made of the prefix, before the key is complete.
unfoldable pub set_tx_hash_by_address :
    KeyId → ℕ → ℕ → Bytes → ScriptDbView → ScriptDbOperLog × ScriptDbView
set_tx_hash_by_address key_id height index tx_hash v =
    let (old, v') = db_get_data addr_prefix v in
    (
      record { key = addr_prefix; value = old_bytes old },
      db_set_data (address_key key_id height index) tx_hash v',
    )

-- `SetTxRelAccout`, `EraseTxRelAccout`, with the bytes of the hash and of the set.
unfoldable pub set_tx_rel_accout : Bytes → Bytes → ScriptDbView → ScriptDbView
set_tx_rel_accout tx_hash rel_account v = db_set_data (tx_prefix ++ tx_hash) rel_account v

unfoldable pub erase_tx_rel_accout : Bytes → ScriptDbView → ScriptDbView
erase_tx_rel_accout tx_hash v = db_set_data (tx_prefix ++ tx_hash) [] v
