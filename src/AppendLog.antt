-- ===== src/AppendLog.antt =====
-- src/grpo_guard/store/append_log.py: the event files, the edge files and the lease marker of a run.
-- A file is named by an event's id; `append` of two writers are separate steps on the shared files.
pub mod Writes
pub mod Fencing
use grpo_guard.Prelude.{
  Bool, List, Option, String, [], false, if◌then◌else◌, none, not, some, ℕ, ◌&&◌, ◌++◌, ◌+◌, ◌is◌,
  ◌||◌, ◌∷◌,
}
use grpo_guard.Prelude.Dict.{Dict, insert, lookup}
use grpo_guard.Prelude.Int.{leb_ℤ, pos, ℤ}
use grpo_guard.Prelude.Result.{
  Result, err, event_already_appended, event_seal_error, key_error, lease_error, ok, value_error,
}
use grpo_guard.Schema.Events.{Event, base_of}
use grpo_guard.Schema.Seal.{is_sealed}
use grpo_guard.Prelude.Action.{Action, raise_when, ◌>>◌}

pub record Lease : Type 0 where
  pub lease_id : String
  pub epoch : ℕ

pub record Edge : Type 0 where
  pub artifact_sha256 : String
  pub role : String

-- The files under `root`.
pub record LogFiles : Type 0 where
  pub event_files : Dict Event
  pub edge_files : Dict (List Edge)
  pub lease_file : Option Lease

-- An AppendLog object: one writer.
pub record AppendLog : Type 0 where
  pub run_id : String
  pub lease_id : String

unfoldable pub acquire_lease : AppendLog → Action LogFiles ℕ
acquire_lease log d = elim d.lease_file [
  | none ↦ (ok 1, record d { lease_file = some (record { lease_id = log.lease_id; epoch = 1 }) })
  | some m ↦
      if m.lease_id is log.lease_id
      then (
        ok (m.epoch + 1),
        record d { lease_file = some (record { lease_id = log.lease_id; epoch = m.epoch + 1 }) },
      )
      else (err lease_error, d)
]

unfoldable pub current_epoch : LogFiles → Option ℕ
current_epoch d = elim d.lease_file [ none ↦ none | some m ↦ some m.epoch ]

-- required_epoch is not None and marker["epoch"] != required_epoch
abbrev pub epoch_differs : Option ℤ → ℕ → Bool
epoch_differs none n = false
epoch_differs (some k) n = not (leb_ℤ k (pos n) && leb_ℤ (pos n) k)

abbrev pub check_lease : AppendLog → Option ℤ → Option Lease → Result (Unit {0})
check_lease log required none = err lease_error
check_lease log required (some m) =
    if not (m.lease_id is log.lease_id) || epoch_differs required m.epoch
    then err lease_error
    else ok tt

-- The part of `append` after the guards: never a second write to one file.
abbrev pub write_event : Event → Action LogFiles Event
write_event ev d = elim (lookup (base_of ev).event_id d.event_files) [
  | some existing ↦
      if (base_of existing).event_sha256 is (base_of ev).event_sha256
      then (ok ev, d)
      else (err event_already_appended, d)
  | none ↦ (ok ev, record d { event_files = insert (base_of ev).event_id ev d.event_files })
]

unfoldable pub append : AppendLog → Event → Option ℤ → Action LogFiles Event
append log ev required = do
  raise_when (not (is_sealed ev)) event_seal_error
  raise_when (not ((base_of ev).run_id is log.run_id)) value_error
  (λ d. (check_lease log required d.lease_file, d))
  write_event ev

-- The loop over the edges of the file: the first edge of the artifact decides.
unfoldable pub find_edge : String → List Edge → Option Edge
find_edge artifact [] = none
find_edge artifact (e ∷ es) =
    if e.artifact_sha256 is artifact then some e else find_edge artifact es

abbrev pub edges_of : String → LogFiles → List Edge
edges_of id d = elim (lookup id d.edge_files) [ none ↦ [] | some es ↦ es ]

unfoldable pub append_provenance_edge : String → String → String → Action LogFiles (Unit {0})
append_provenance_edge event_id artifact role d = elim (find_edge artifact (edges_of event_id d)) [
  | some e ↦ if not (e.role is role) then (err value_error, d) else (ok tt, d)
  | none ↦ (
    ok tt,
    record d {
      edge_files =
          insert event_id
            (edges_of event_id d ++ (record { artifact_sha256 = artifact; role = role }) ∷ [])
            d.edge_files;
    },
  )
]

-- `get` without a model.
unfoldable pub get_event : LogFiles → String → Result Event
get_event d id = elim (lookup id d.event_files) [ none ↦ err key_error | some ev ↦ ok ev ]
