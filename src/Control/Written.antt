-- ===== src/Control/Written.antt =====
-- What one call of `_sync` writes, whichever way its events are numbered.
use grpo_guard.AppendLog.{append}
use grpo_guard.Control.{
  Control, SyncCall, _sync, log_event, next_lifecycle, sealed_sync, sync_draft, take_seq,
}
use grpo_guard.Control.Trail.{IsPhase}
use grpo_guard.Prelude.{
  Bool-cases, Option, String, ap, arith, false, inl, inr, refl, subst, true, ℕ, ◌+◌, ◌≡◌,
}
use grpo_guard.Prelude.Int.{ℤ}
use grpo_guard.Prelude.Result.{Result, Result-cases, ok}
use grpo_guard.Schema.Events.{Event, SyncEvent, SyncEventType, sync}
use grpo_guard.Schema.Seal.{Bytes}

module _ (sha256 : Bytes → String) (dumps : Event → Bytes) (now : String) where
  -- A phase that was written; an adapter with a counter of its own numbers it by the counter.
  pub record Written (call : SyncCall) (t : SyncEventType) (load : Option ℕ) (seen : Option ℤ)
      (s : Control) (ev : SyncEvent) (after : Control) : Type 0 where
    pub phase : IsPhase call t load seen ev.lifecycle_seq ev
    pub kept : after.from_log ≡ s.from_log
    pub own : s.from_log ≡ false → (ev.lifecycle_seq ≡ s.seq + 1) × (after.seq ≡ s.seq + 1)

  abbrev number_of : Control → ℕ
  number_of s = elim s.from_log [ true ↦ next_lifecycle s.files | false ↦ s.seq + 1 ]

  _sync-Written :
      (t : SyncEventType) (call : SyncCall) (load : Option ℕ) (seen : Option ℤ)
      (detail : Option String) (s : Control) (ev : SyncEvent)
      → (_sync sha256 dumps now t call load seen detail s).0 ≡ ok ev
      → Written call t load seen s ev (_sync sha256 dumps now t call load seen detail s).1
  unfolding _sync take_seq log_event
  _sync-Written t call load seen detail s ev h =
      let draft =
        sealed_sync sha256 dumps now
          (sync_draft sha256 dumps now s t call load seen detail (number_of s)) in
      let sent = append s.log (sync draft) call.required_epoch s.files in
      elim (Result-cases sent.0) [
        | inl (u, e) ↦
            let same : ev ≡ draft = ground (arith, e, h, Bool-cases s.from_log) in
            record {
              phase = record {
                type = ap (λ (x : SyncEvent). x.event_type) same;
                id = ap (λ (x : SyncEvent). x.sync_id) same;
                attempt = ap (λ (x : SyncEvent). x.attempt) same;
                load = ap (λ (x : SyncEvent). x.observed_runtime_load_epoch) same;
                seen = ap (λ (x : SyncEvent). x.observed_policy_version) same;
                number = refl;
              };
              kept = ground (arith, e, Bool-cases s.from_log);
              own = λ o. (ground (arith, e, same, o), ground (arith, e, o));
            }
        | inr (why, e) ↦ absurd (ground (arith, e, h, Bool-cases s.from_log))
      ]

  pub phase-Written :
      (t : SyncEventType) (call : SyncCall) (load : Option ℕ) (seen : Option ℤ)
      (detail : Option String) (s after : Control) (ev : SyncEvent)
      → _sync sha256 dumps now t call load seen detail s ≡ (ok ev, after)
      → Written call t load seen s ev after
  phase-Written t call load seen detail s after ev h =
      subst (λ u. Written call t load seen s ev u) (ap (λ (r : Result SyncEvent × Control). r.1) h)
        (_sync-Written t call load seen detail s ev
          (ap (λ (r : Result SyncEvent × Control). r.0) h))
