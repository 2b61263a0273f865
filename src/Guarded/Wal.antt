-- ===== src/Guarded/Wal.antt =====
-- UpdateWal of guarded_update.py: an append-only file of records, one to a line, each written with
-- fsync. A line that json.loads refuses is `torn`. Timestamps are not modelled.
pub mod Laws
use grpo_guard.Prelude.{
  Bool, List, Option, String, [], false, if◌then◌else◌, is_empty, none, some, true, ◌++◌, ◌is◌, ◌∷◌,
}
use grpo_guard.Prelude.Dict.{Dict, insert}
use grpo_guard.Prelude.Int.{ℤ}

pub data WalStatus : Type 0 where
  prepared applied checkpointed committed aborted : WalStatus

-- The fields that PREPARED writes beside the status.
pub record PreparedFields : Type 0 where
  pub nonces : List String
  pub layouts : List String
  pub parent_policy_manifest : String
  pub group_size : ℤ

pub record WalRecord : Type 0 where
  pub status : WalStatus
  pub update_id : String
  pub fields : Option PreparedFields

pub data WalLine : Type 0 where
  torn : WalLine
  entry : WalRecord → WalLine

-- None: the log has no path, and `write` does nothing.
abbrev pub Wal : Type 0
Wal = Option (List WalLine)

unfoldable pub write : WalStatus → String → Option PreparedFields → Wal → Wal
write st uid fields none = none
write st uid fields (some lines) =
    some (lines ++ entry (record { status = st; update_id = uid; fields = fields }) ∷ [])

-- The loop of `status`: the last record of the update wins.
unfoldable pub last_status : String → List WalLine → Option WalStatus → Option WalStatus
last_status uid [] last = last
last_status uid (torn ∷ lines) last = last_status uid lines last
last_status uid (entry r ∷ lines) last =
    last_status uid lines (if r.update_id is uid then some r.status else last)

unfoldable pub status : Wal → String → Option WalStatus
unfolding last_status
status none uid = none
status (some lines) uid = last_status uid lines none

abbrev pub is_committed : WalStatus → Bool
is_committed committed = true
is_committed _ = false

-- The dict that `dangling` fills.
unfoldable pub statuses : List WalLine → Dict WalStatus → Dict WalStatus
statuses [] d = d
statuses (torn ∷ lines) d = statuses lines d
statuses (entry r ∷ lines) d =
    statuses lines (if is_empty r.update_id then d else insert r.update_id r.status d)

unfoldable pub not_committed : Dict WalStatus → List String
not_committed [] = []
not_committed ((uid, st) ∷ d) =
    let rest = not_committed d in if is_committed st then rest else uid ∷ rest

unfoldable pub dangling : Wal → List String
unfolding statuses not_committed
dangling none = []
dangling (some lines) = not_committed (statuses lines [])
