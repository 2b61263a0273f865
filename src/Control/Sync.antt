-- ===== src/Control/Sync.antt =====
-- `do_sync` of src/examples/countdown/rl_training_loop.py: the runtime is reported as loaded only
-- after every parameter was pushed. What the server answers to each push comes in as an argument.
use grpo_guard.Control.{
  Control, SyncCall, record_canary_mismatch, record_canary_passed, record_sync_failed, sync_begin,
  sync_complete,
}
use grpo_guard.Prelude.{Bool, List, Option, String, [], false, length, true, ◌∷◌}
use grpo_guard.Prelude.Result.{Error, Result, err, ok}
use grpo_guard.Schema.Events.{Event, SyncEvent}
use grpo_guard.Schema.Seal.{Bytes}
use grpo_guard.Prelude.Action.{Action, pure, raise, ◌>>=◌}

-- A parameter's name, and how `client.update_named_param` ended.
abbrev pub Push : Type 0
Push = String × Result (Unit {0})

-- The loop over the parameters: the first exception ends it.
unfoldable pub push_all : List Push → Result (Unit {0})
push_all [] = ok tt
push_all ((name, answer) ∷ rest) = elim answer [ ok _ ↦ push_all rest | err e ↦ err e ]

abbrev pub names_of : List Push → List String
names_of [] = []
names_of ((name, answer) ∷ rest) = name ∷ names_of rest

-- `describe` is the text of an exception, `digest_of` the digest of the names' JSON.
module _ (sha256 : Bytes → String) (dumps : Event → Bytes) (now : String)
    (describe : Error → String) (digest_of : List String → String) where
  -- After `sync_begin`: the events so far come back with the last one.
  unfoldable pub push_and_report :
      SyncCall → List Push → SyncEvent × SyncEvent → Action Control (List SyncEvent)
  push_and_report call pushes begun = elim (push_all pushes) [
    | err e ↦ do failed ← record_sync_failed sha256 dumps now call (describe e); raise e
    | ok _ ↦ do
      loaded ← sync_complete sha256 dumps now call (length pushes) (digest_of (names_of pushes))
      pure (begun.0 ∷ begun.1 ∷ loaded ∷ [])
  ]

  -- The later events take the id of the first event of `sync_begin`.
  unfoldable pub do_sync : Option String → SyncCall → List Push → Action Control (List SyncEvent)
  do_sync given call pushes = do
    begun ← sync_begin sha256 dumps now given call
    push_and_report (record call { sync_id = begun.0.sync_id }) pushes begun

  -- After a sync in training: the canary only watches the drift. A verdict that is not `pass` is
  -- recorded, the baseline is taken again, and the new baseline is recorded as passed.
  unfoldable pub record_verdict :
      SyncCall → Bool → String → String → Action Control (List SyncEvent)
  record_verdict call passes drift recalibrated = elim passes [
    | true ↦ do passed ← record_canary_passed sha256 dumps now call drift; pure (passed ∷ [])
    | false ↦ do
      mismatch ← record_canary_mismatch sha256 dumps now call drift
      passed ← record_canary_passed sha256 dumps now call recalibrated
      pure (mismatch ∷ passed ∷ [])
  ]
