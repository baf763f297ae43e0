-- ===== src/ScriptDb/Flush.antt =====
-- Flushing a cache of contract data into its base (src/database.cpp: `Flush`, `BatchWrite`).
use dacrs.Base.{◌≡◌, if◌then◌else◌}
use dacrs.Base.Dict.{Dict, lookup, bytes_key}
use dacrs.ScriptDb.{Bytes, ScriptDbView, not_empty}
use dacrs.ScriptDb.Observe.{data_of, over_base, IsSound}

-- One written entry, and a sound view.
record Wrote (key value : Bytes) (v w : ScriptDbView) : Type 0 where
  data_at :
      (j : Bytes) → data_of j w ≡ (if bytes_key.same j key then not_empty value else data_of j v)
  sound : IsSound w

-- All entries of a batch, over what was there.
record WroteAll (ms : Dict Bytes Bytes) (v w : ScriptDbView) : Type 0 where
  data_at : (j : Bytes) → data_of j w ≡ over_base (lookup j ms) (data_of j v)
  sound : IsSound w
