-- ===== src/Control/Reduced.antt =====
-- What the reducer makes of a whole attempt of a sync.
use grpo_guard.Control.{SyncCall}
use grpo_guard.Control.Trail.{
  IsPhase, Rising, ended, fold_begun, fold_end, fold_step, fold_stops, last_phase, next_phase,
  reduce_from, reduce_stops, state_after,
}
use grpo_guard.Prelude.{
  Bool-cases, List, String, [], arith, eq_refl, false, is_empty, none, refl, some, true, ℕ, ◌++◌,
  ◌∙◌, ◌∷◌, ◌≡◌,
}
use grpo_guard.Prelude.Int.{ℤ}
use grpo_guard.Prelude.Result.{conflicting_commit, err, ok}
use grpo_guard.Reducer.{
  fold_sync, is_superseded, is_sync_terminal, next_sync_state, reduce_sync, same_sync_type,
  start_sync, state_failed, state_loaded, state_started, sync_round, with_sync_id,
}
use grpo_guard.Schema.Events.{
  SyncEvent, SyncEventType, canary_mismatch, canary_passed, runtime_loaded, sync_failed,
  sync_requested, sync_started, sync_terminal_failure, sync_terminal_success,
}

module _ (call : SyncCall) where
  -- A failed sync: requested, started, failed.
  pub reduce_failed :
      (a b c : SyncEvent)
      → Rising (a ∷ b ∷ c ∷ [])
      → IsPhase call sync_requested none none a.lifecycle_seq a
      → IsPhase call sync_started none none b.lifecycle_seq b
      → IsPhase call sync_failed none none c.lifecycle_seq c
      → reduce_sync (a ∷ b ∷ c ∷ [])
        ≡ ok (
            state_after call.sync_id state_failed call.attempt none none true
              (a.event_id ∷ b.event_id ∷ c.event_id ∷ []))
  unfolding is_superseded is_sync_terminal next_sync_state sync_terminal_success
      sync_terminal_failure
  reduce_failed a b c rising pa pb pc =
      let ids = a.event_id ∷ b.event_id ∷ [] in
      reduce_from call (a ∷ b ∷ c ∷ [])
        (ended call state_failed none none (ids ++ c.event_id ∷ []) c) rising
        (fold_begun call a b (c ∷ []) pa pb
          ∙ fold_step call c [] _ _ (
              last_phase call sync_failed none none c.lifecycle_seq c state_started none none ids pc
                refl refl)
          ∙ fold_end call _)

  module _ (load : ℕ) (version : ℤ) (a b c d : SyncEvent)
      (pa : IsPhase call sync_requested none none a.lifecycle_seq a)
      (pb : IsPhase call sync_started none none b.lifecycle_seq b)
      (pc : IsPhase call runtime_loaded (some load) (some version) c.lifecycle_seq c) where
    abbrev ids : List String
    ids = a.event_id ∷ b.event_id ∷ c.event_id ∷ []

    -- The fold up to the verdict t of the canary.
    fold_verdict :
        (t : SyncEventType) (rest : List SyncEvent)
        → is_superseded t ≡ false
        → is_sync_terminal t ≡ true
        → IsPhase call t (some load) (some version) d.lifecycle_seq d
        → fold_sync (a ∷ b ∷ c ∷ d ∷ rest) start_sync
          ≡ fold_sync rest (
              ended call
                (next_sync_state t state_loaded)
                (some load)
                (some version)
                (ids ++ d.event_id ∷ [])
                d)
    unfolding is_superseded is_sync_terminal next_sync_state sync_terminal_success
        sync_terminal_failure
    fold_verdict t rest plain ends pd =
        fold_begun call a b (c ∷ d ∷ rest) pa pb
        ∙ fold_step call c (d ∷ rest) _ _ (
            next_phase call runtime_loaded (some load) (some version) c.lifecycle_seq c
              state_started none none (a.event_id ∷ b.event_id ∷ []) pc refl refl)
        ∙ fold_step call d rest _ _ (
            last_phase call t (some load) (some version) d.lifecycle_seq d state_loaded (some load)
              (some version) ids pd plain ends)

    -- A sync that reached the runtime, with the verdict t of its canary.
    pub reduce_canary :
        (t : SyncEventType)
        → is_superseded t ≡ false
        → is_sync_terminal t ≡ true
        → Rising (a ∷ b ∷ c ∷ d ∷ [])
        → IsPhase call t (some load) (some version) d.lifecycle_seq d
        → reduce_sync (a ∷ b ∷ c ∷ d ∷ [])
          ≡ ok (
              state_after call.sync_id
                (next_sync_state t state_loaded)
                call.attempt
                (some load)
                (some version)
                true
                (ids ++ d.event_id ∷ []))
    reduce_canary t plain ends rising pd =
        reduce_from call (a ∷ b ∷ c ∷ d ∷ [])
          (ended call (next_sync_state t state_loaded) (some load) (some version)
            (ids ++ d.event_id ∷ []) d)
          rising (fold_verdict t [] plain ends pd ∙ fold_end call _)

    -- A canary that passes after one that did not, under the same attempt.
    pub reduce_conflict :
        (e : SyncEvent)
        → Rising (a ∷ b ∷ c ∷ d ∷ e ∷ [])
        → IsPhase call canary_mismatch (some load) (some version) d.lifecycle_seq d
        → IsPhase call canary_passed (some load) (some version) e.lifecycle_seq e
        → reduce_sync (a ∷ b ∷ c ∷ d ∷ e ∷ []) ≡ err conflicting_commit
    unfolding sync_round same_sync_type is_sync_terminal sync_terminal_success sync_terminal_failure
        is_superseded
    reduce_conflict e rising pd pe =
        let held =
          ended call (next_sync_state canary_mismatch state_loaded) (some load) (some version)
            (ids ++ d.event_id ∷ []) d in
        let refused : sync_round e (with_sync_id e held) ≡ err conflicting_commit = ground (
          arith,
          pd.type,
          pe.id,
          pe.type,
          pe.attempt,
          eq_refl call.sync_id,
          Bool-cases (is_empty call.sync_id),
        ) in
        reduce_stops call (a ∷ b ∷ c ∷ d ∷ e ∷ []) conflicting_commit rising (
          fold_verdict canary_mismatch (e ∷ []) refl refl pd
          ∙ fold_stops call e [] held conflicting_commit refused)
