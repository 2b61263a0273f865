-- ===== src/Control/Verdict.antt =====
-- The reducer's answer on the events of one training step: a sync and the verdict of its canary.
use grpo_guard.Control.{Control, SyncCall, choose_id, record_canary_mismatch, record_canary_passed}
use grpo_guard.Control.Reduced.{reduce_canary, reduce_conflict}
use grpo_guard.Control.Reported.{Loaded, do_sync-Loaded}
use grpo_guard.Control.Sync.{Push, do_sync, push_all, record_verdict}
use grpo_guard.Control.Trail.{IsPhase, Rising, state_after}
use grpo_guard.Control.Written.{phase-Written}
use grpo_guard.Prelude.{
  All, Bool, List, Option, String, [], ap, arith, false, refl, some, subst, sym, true, ◌++◌, ◌+◌,
  ◌∙◌, ◌∷◌, ◌≡◌,
}
use grpo_guard.Prelude.Int.{pos}
use grpo_guard.Prelude.Result.{Error, conflicting_commit, err, ok}
use grpo_guard.Reducer.{
  is_superseded, is_sync_terminal, next_sync_state, reduce_sync, state_canary_passed,
}
use grpo_guard.Schema.Events.{
  Event, SyncEvent, canary_mismatch, canary_passed, sync_terminal_failure, sync_terminal_success,
}
use grpo_guard.Schema.Seal.{Bytes}
use grpo_guard.Prelude.Action.{bind-runs, pure, returned, ◌>>=◌}

abbrev pub event_ids : List SyncEvent → List String
event_ids [] = []
event_ids (e ∷ es) = e.event_id ∷ event_ids es

-- A loop that came through had every push succeed.
push_all-All : (ps : List Push) → push_all ps ≡ ok tt → All (λ p. p.1 ≡ ok tt) ps
unfolding push_all
push_all-All [] h = tt
push_all-All ((name, ok x) ∷ ps) h = (refl, push_all-All ps h)
push_all-All ((name, err e) ∷ ps) h = absurd (cc)

module _ (sha256 : Bytes → String) (dumps : Event → Bytes) (now : String) (given : Option String)
    (base : SyncCall) (drift recalibrated : String) (describe : Error → String)
    (digest_of : List String → String) where
  -- The call under the id that `sync_begin` chooses.
  abbrev pub named_call : SyncCall
  named_call = choose_id given base

  -- What the recorded verdict looks like.
  record Passed (s : Control) (checks : List SyncEvent) (after : Control) : Type 0 where
    verdict : SyncEvent
    all : checks ≡ verdict ∷ []
    phase :
        IsPhase named_call canary_passed
          (some (named_call.policy_version + 1))
          (some (pos named_call.policy_version))
          verdict.lifecycle_seq
          verdict
    own : s.from_log ≡ false → verdict.lifecycle_seq ≡ s.seq + 1

  record Mismatched (s : Control) (checks : List SyncEvent) (after : Control) : Type 0 where
    mismatch : SyncEvent
    verdict : SyncEvent
    all : checks ≡ mismatch ∷ verdict ∷ []
    first :
        IsPhase named_call canary_mismatch
          (some (named_call.policy_version + 1))
          (some (pos named_call.policy_version))
          mismatch.lifecycle_seq
          mismatch
    second :
        IsPhase named_call canary_passed
          (some (named_call.policy_version + 1))
          (some (pos named_call.policy_version))
          verdict.lifecycle_seq
          verdict
    own :
        s.from_log ≡ false
        → (mismatch.lifecycle_seq ≡ s.seq + 1) × (verdict.lifecycle_seq ≡ s.seq + 2)

  record_verdict-Passed :
      (s after : Control) (checks : List SyncEvent)
      → record_verdict sha256 dumps now describe digest_of named_call true drift recalibrated s
        ≡ (ok checks, after)
      → Passed s checks after
  unfolding record_verdict record_canary_passed
  record_verdict-Passed s after checks h =
      let (d, v, e, end) =
        bind-runs (record_canary_passed sha256 dumps now named_call drift) (λ d. pure (d ∷ [])) s
          after checks h in
      let one = phase-Written sha256 dumps now canary_passed named_call _ _ _ s v d e in
      record {
        verdict = d;
        all = sym (returned end).0;
        phase = one.phase;
        own = λ o. (one.own o).0;
      }

  record_verdict-Mismatched :
      (s after : Control) (checks : List SyncEvent)
      → record_verdict sha256 dumps now describe digest_of named_call false drift recalibrated s
        ≡ (ok checks, after)
      → Mismatched s checks after
  unfolding record_verdict record_canary_passed record_canary_mismatch
  record_verdict-Mismatched s after checks h =
      let (d, u, e, rest) =
        bind-runs (record_canary_mismatch sha256 dumps now named_call drift)
          (λ d. record_canary_passed sha256 dumps now named_call recalibrated >>= λ c.
            pure (d ∷ c ∷ []))
          s after checks h in
      let (c, v, e', end) =
        bind-runs (record_canary_passed sha256 dumps now named_call recalibrated)
          (λ c. pure (d ∷ c ∷ [])) u after checks rest in
      let one = phase-Written sha256 dumps now canary_mismatch named_call _ _ _ s u d e in
      let two = phase-Written sha256 dumps now canary_passed named_call _ _ _ u v c e' in
      record {
        mismatch = d;
        verdict = c;
        all = sym (returned end).0;
        first = one.phase;
        second = two.phase;
        own = λ o. let (p, q) = one.own o in (p, omega (arith, q, (two.own (one.kept ∙ o)).0));
      }

  module _ (pushes : List Push) (s : Control) (events : List SyncEvent) (u : Control)
      (checks : List SyncEvent) (after : Control)
      (synced : do_sync sha256 dumps now describe digest_of given base pushes s
        ≡ (ok events, u)) where
    abbrev came : Loaded sha256 dumps now named_call pushes s events u
    came = do_sync-Loaded sha256 dumps now describe digest_of given base pushes s u events synced

    joined :
        (l : List SyncEvent)
        → checks ≡ l
        → came.requested ∷ came.started ∷ came.loaded ∷ l ≡ events ++ checks
    joined l h = sym (
        ap (λ x. x ++ checks) came.all
        ∙ ap (λ x. came.requested ∷ came.started ∷ came.loaded ∷ x) h)

    -- The numbers of an adapter that counts for itself rise, whatever the verdict.
    pub counter-Rising :
        (passes : Bool)
        → s.from_log ≡ false
        → record_verdict sha256 dumps now describe digest_of named_call passes drift recalibrated u
          ≡ (ok checks, after)
        → Rising (events ++ checks)
    counter-Rising true own h =
        let r = record_verdict-Passed u after checks h in
        let (n, m, k, q) = came.own own in
        let p = r.own (came.kept ∙ own) in
        subst Rising (joined (r.verdict ∷ []) r.all) (ground (arith, n, m, k, q, p))
    counter-Rising false own h =
        let r = record_verdict-Mismatched u after checks h in
        let (n, m, k, q) = came.own own in
        let (p, p') = r.own (came.kept ∙ own) in
        subst Rising (joined (r.mismatch ∷ r.verdict ∷ []) r.all)
          (ground (arith, n, m, k, q, p, p'))

    -- If a sync returned and a passing verdict of its canary was recorded, with lifecycle numbers
    -- that rise, then every parameter was pushed, and the reducer reads the events as a sync that
    -- ended in canary_passed, at the attempt, the load epoch and the policy version of the call.
    pub passed_settles :
        Rising (events ++ checks)
        → record_verdict sha256 dumps now describe digest_of named_call true drift recalibrated u
          ≡ (ok checks, after)
        → All (λ p. p.1 ≡ ok tt) pushes
          × (reduce_sync (events ++ checks)
              ≡ ok (
                  state_after named_call.sync_id state_canary_passed named_call.attempt
                    (some (named_call.policy_version + 1))
                    (some (pos named_call.policy_version))
                    true
                    (event_ids (events ++ checks))))
    unfolding is_superseded is_sync_terminal sync_terminal_success sync_terminal_failure
        next_sync_state
    passed_settles rising h =
        let r = record_verdict-Passed u after checks h in
        let same = joined (r.verdict ∷ []) r.all in
        (
          push_all-All pushes came.pushed,
          subst
              (λ l.
                reduce_sync l
                ≡ ok (
                    state_after named_call.sync_id state_canary_passed named_call.attempt
                      (some (named_call.policy_version + 1)) (some (pos named_call.policy_version))
                      true (event_ids l)))
              same
              (reduce_canary named_call _ _ came.requested came.started came.loaded r.verdict
                came.first came.second came.third canary_passed refl refl
                (subst Rising (sym same) rising) r.phase),
        )

    -- If a sync returned and a verdict that is not pass was recorded, with lifecycle numbers that
    -- rise, then the reducer raises ConflictingCommit on the events of the sync.
    pub mismatch_conflicts :
        Rising (events ++ checks)
        → record_verdict sha256 dumps now describe digest_of named_call false drift recalibrated u
          ≡ (ok checks, after)
        → reduce_sync (events ++ checks) ≡ err conflicting_commit
    mismatch_conflicts rising h =
        let r = record_verdict-Mismatched u after checks h in
        let same = joined (r.mismatch ∷ r.verdict ∷ []) r.all in
        subst (λ l. reduce_sync l ≡ err conflicting_commit) same
          (reduce_conflict named_call _ _ came.requested came.started came.loaded r.mismatch
            came.first came.second came.third r.verdict (subst Rising (sym same) rising) r.first
            r.second)
