-- ===== src/Control/Reported.antt =====
-- What a sync leaves for the reducer, whatever its pushes.
use grpo_guard.Control.{
  Control, SyncCall, _sync, choose_id, record_sync_failed, sync_begin, sync_complete, sync_phases,
}
use grpo_guard.Control.Sync.{Push, do_sync, names_of, push_all, push_and_report}
use grpo_guard.Control.Trail.{IsPhase}
use grpo_guard.Control.Written.{phase-Written}
use grpo_guard.Prelude.{
  List, Option, String, [], ap, arith, false, inl, inr, length, none, refl, some, subst, sym, ◌+◌,
  ◌∙◌, ◌∷◌, ◌≡◌,
}
use grpo_guard.Prelude.Int.{pos}
use grpo_guard.Prelude.Result.{Error, Result, Result-cases, err, ok}
use grpo_guard.Schema.Events.{Event, SyncEvent, runtime_loaded, sync_requested, sync_started}
use grpo_guard.Schema.Seal.{Bytes}
use grpo_guard.Prelude.Action.{Action, bind-runs, pure, raise, returned, ◌>>=◌}

module _ (sha256 : Bytes → String) (dumps : Event → Bytes) (now : String) where
  -- What a sync that came through leaves behind.
  pub record Loaded (call : SyncCall) (pushes : List Push) (s : Control) (events : List SyncEvent)
      (after : Control) : Type 0 where
    pub pushed : push_all pushes ≡ ok tt
    pub requested : SyncEvent
    pub started : SyncEvent
    pub loaded : SyncEvent
    pub all : events ≡ requested ∷ started ∷ loaded ∷ []
    pub first : IsPhase call sync_requested none none requested.lifecycle_seq requested
    pub second : IsPhase call sync_started none none started.lifecycle_seq started
    pub third :
        IsPhase call runtime_loaded
          (some (call.policy_version + 1))
          (some (pos call.policy_version))
          loaded.lifecycle_seq
          loaded
    pub kept : after.from_log ≡ s.from_log
    pub own :
        s.from_log ≡ false
        → (requested.lifecycle_seq ≡ s.seq + 1)
          × (started.lifecycle_seq ≡ s.seq + 2)
          × (loaded.lifecycle_seq ≡ s.seq + 3)
          × (after.seq ≡ s.seq + 3)

  -- The first two phases.
  record Begun (call : SyncCall) (s : Control) (begun : SyncEvent × SyncEvent) (after : Control)
      : Type 0 where
    first : IsPhase call sync_requested none none begun.0.lifecycle_seq (begun.0)
    second : IsPhase call sync_started none none begun.1.lifecycle_seq (begun.1)
    kept : after.from_log ≡ s.from_log
    own :
        s.from_log ≡ false
        → (begun.0.lifecycle_seq ≡ s.seq + 1)
          × (begun.1.lifecycle_seq ≡ s.seq + 2)
          × (after.seq ≡ s.seq + 2)

  sync_phases-Begun :
      (call : SyncCall) (s after : Control) (begun : SyncEvent × SyncEvent)
      → sync_phases sha256 dumps now call s ≡ (ok begun, after)
      → Begun call s begun after
  unfolding sync_phases
  sync_phases-Begun call s after begun h =
      let (a, u, e, rest) =
        bind-runs (_sync sha256 dumps now sync_requested call none none none)
          (λ x. _sync sha256 dumps now sync_started call none none none >>= λ y. pure (x, y)) s
          after begun h in
      let (b, v, e', end) =
        bind-runs (_sync sha256 dumps now sync_started call none none none) (λ y. pure (a, y)) u
          after begun rest in
      let one = phase-Written sha256 dumps now sync_requested call none none none s u a e in
      let two = phase-Written sha256 dumps now sync_started call none none none u v b e' in
      let (same, there) = returned end in
      subst (λ w. Begun call s begun w) there
        (subst (λ w. Begun call s w v) same
          (record {
            first = one.phase;
            second = two.phase;
            kept = two.kept ∙ one.kept;
            own = λ o.
                let (p, q) = one.own o in
                let (p', q') = two.own (one.kept ∙ o) in
                (p, omega (arith, q, p'), omega (arith, q, q'));
          }))

  module _ (describe : Error → String) (digest_of : List String → String) (call : SyncCall)
      (pushes : List Push) where
    abbrev report : Action Control SyncEvent
    report = sync_complete sha256 dumps now call (length pushes) (digest_of (names_of pushes))

    abbrev complete : SyncEvent × SyncEvent → Action Control (List SyncEvent)
    complete begun = report >>= λ c. pure (begun.0 ∷ begun.1 ∷ c ∷ [])

    abbrev fail : Error → Action Control (List SyncEvent)
    fail why = record_sync_failed sha256 dumps now call (describe why) >>= λ _. raise why

    push_and_report-ok :
        (begun : SyncEvent × SyncEvent)
        → push_all pushes ≡ ok tt
        → push_and_report sha256 dumps now describe digest_of call pushes begun ≡ complete begun
    unfolding push_and_report
    push_and_report-ok begun h = rw (h, push_and_report) refl

    push_and_report-err :
        (begun : SyncEvent × SyncEvent) (why : Error)
        → push_all pushes ≡ err why
        → push_and_report sha256 dumps now describe digest_of call pushes begun ≡ fail why
    unfolding push_and_report
    push_and_report-err begun why h = rw (h, push_and_report) refl

    fail-raises :
        (why : Error) (u after : Control) (events : List SyncEvent)
        → ¬ (fail why u ≡ (ok events, after))
    fail-raises why u after events h =
        let (c, v, e, end) =
          bind-runs (record_sync_failed sha256 dumps now call (describe why)) (λ _. raise why) u
            after events h in
        let never : err why ≡ ok events = ap (λ (r : Result (List SyncEvent) × Control). r.0) end in
        cc

    complete-Loaded :
        (s u after : Control) (begun : SyncEvent × SyncEvent) (events : List SyncEvent)
        → push_all pushes ≡ ok tt
        → Begun call s begun u
        → complete begun u ≡ (ok events, after)
        → Loaded call pushes s events after
    unfolding sync_complete
    complete-Loaded s u after begun events pushed begins h =
        let (c, v, e, end) =
          bind-runs report (λ c. pure (begun.0 ∷ begun.1 ∷ c ∷ [])) u after events h in
        let three = phase-Written sha256 dumps now runtime_loaded call _ _ _ u v c e in
        let (same, there) = returned end in
        subst (λ w. Loaded call pushes s events w) there
          (record {
            pushed = pushed;
            requested = begun.0;
            started = begun.1;
            loaded = c;
            all = sym same;
            first = begins.first;
            second = begins.second;
            third = three.phase;
            kept = three.kept ∙ begins.kept;
            own = λ o.
                let (p, q, r) = begins.own o in
                let (n, m) = three.own (begins.kept ∙ o) in
                (p, q, omega (arith, r, n), omega (arith, r, m));
          })

    -- A report that returned had every push succeed.
    push_and_report-Loaded :
        (s u after : Control) (begun : SyncEvent × SyncEvent) (events : List SyncEvent)
        → Begun call s begun u
        → push_and_report sha256 dumps now describe digest_of call pushes begun u
          ≡ (ok events, after)
        → Loaded call pushes s events after
    push_and_report-Loaded s u after begun events begins h = elim (Result-cases (push_all pushes)) [
      | inl (x, pushed) ↦
          complete-Loaded s u after begun events pushed begins
            (sym (ap (λ f. f u) (push_and_report-ok begun pushed)) ∙ h)
      | inr (why, failed) ↦ absurd (
          fail-raises why u after events
            (sym (ap (λ f. f u) (push_and_report-err begun why failed)) ∙ h))
    ]

  -- A sync that returned pushed every parameter, under the id that was chosen.
  pub do_sync-Loaded :
      (describe : Error → String) (digest_of : List String → String) (given : Option String)
      (base : SyncCall) (pushes : List Push) (s after : Control) (events : List SyncEvent)
      → do_sync sha256 dumps now describe digest_of given base pushes s ≡ (ok events, after)
      → Loaded (choose_id given base) pushes s events after
  unfolding do_sync sync_begin
  do_sync-Loaded describe digest_of given base pushes s after events h =
      let (begun, u, e, rest) =
        bind-runs (sync_begin sha256 dumps now given base)
          (λ b.
            push_and_report sha256 dumps now describe digest_of
              (record base { sync_id = b.0.sync_id }) pushes b)
          s after events h in
      let begins = sync_phases-Begun (choose_id given base) s u begun e in
      push_and_report-Loaded describe digest_of (choose_id given base) pushes s u after begun events
        begins
        (subst
          (λ id.
            push_and_report sha256 dumps now describe digest_of (record base { sync_id = id })
              pushes begun u
            ≡ (ok events, after))
          begins.first.id rest)
