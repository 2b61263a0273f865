-- ===== src/Validator/Decide.antt =====
-- What a decision of `validate_envelope` says of the rules of its stage.
use grpo_guard.Context.{ValidationContext}
use grpo_guard.Prelude.{
  All, Bool-cases, List, String, [], arith, false, inl, inr, none, refl, some, sym, ◌∷◌, ◌≡◌, ◌≢◌,
}
use grpo_guard.Prelude.Int.{ltb_ℤ, pos}
use grpo_guard.Prelude.Result.{Result-cases, ok}
use grpo_guard.Rules.Base.{as_decision}
use grpo_guard.Rules.Codes.{run_rule-code}
use grpo_guard.Rules.Table.{rules_by_stage, run_rule, select}
use grpo_guard.Schema.Decision.{
  Code, Decision, ValidationDecision, ValidationStage, allow, quarantine, reject,
}
use grpo_guard.Schema.Events.{Event}
use grpo_guard.Schema.Seal.{Bytes, seal}
use grpo_guard.Validator.{
  Fired, conclude, decision_payload_of, note_result, nothing_fired, run_rules, validate_envelope,
}
use grpo_guard.Validator.Aggregate.{
  Returns, quarantines_by, rejects_by, run_rules-Collected, same_decision,
}
use mathlib.Core.Path.{subst}

module _ (sha256 : Bytes → String) (ctx : ValidationContext) where
  -- The rule ran and found nothing.
  abbrev pub Silent : Code → Type 0
  Silent c = run_rule sha256 c ctx ≡ ok none

  Silent-of :
      (c : Code)
      → Returns sha256 ctx c
      → rejects_by sha256 ctx c ≡ false
      → quarantines_by sha256 ctx c ≡ false
      → Silent c
  Silent-of c (none, ran) nr nq = ran
  Silent-of c (some r, ran) nr nq =
      absurd (
        active_decision r.decision (run_rule-code sha256 ctx c ran).1 (rw ran at nr) (rw ran at nq))
    where
      active_decision :
          (d : Decision)
          → d ≢ allow
          → same_decision reject d ≡ false
          → same_decision quarantine d ≡ false
          → ⊥
      active_decision allow h p q = h refl
      active_decision quarantine h p q = cc
      active_decision reject h p q = cc

  Silent-All :
      (cs : List Code)
      → All (Returns sha256 ctx) cs
      → select (rejects_by sha256 ctx) cs ≡ []
      → select (quarantines_by sha256 ctx) cs ≡ []
      → All Silent cs
  unfolding select
  Silent-All [] h nr nq = tt
  Silent-All (c ∷ cs) (r, h) nr nq = elim (Bool-cases (rejects_by sha256 ctx c)) [
    | inl yes_r ↦ absurd (ground arith)
    | inr no_r ↦ elim (Bool-cases (quarantines_by sha256 ctx c)) [
      | inl yes_q ↦ absurd (ground arith)
      | inr no_q ↦ (Silent-of c r no_r no_q, Silent-All cs h (ground arith) (ground arith))
    ]
  ]

  -- The decision and its reason codes, from what the rules of the stage said one by one.
  pub record IsJustified (cs : List Code) (d : Decision) (reasons : List Code) : Type 0 where
    pub on_reject : d ≡ reject → (reasons ≡ select (rejects_by sha256 ctx) cs) × (reasons ≢ [])
    pub on_quarantine :
        d ≡ quarantine
        → (reasons ≡ select (quarantines_by sha256 ctx) cs)
          × (reasons ≢ [])
          × (select (rejects_by sha256 ctx) cs ≡ [])
    pub on_allow : d ≡ allow → (reasons ≡ cs) × All Silent cs

  conclude-IsJustified :
      (cs rs qs : List Code)
      → rs ≡ select (rejects_by sha256 ctx) cs
      → qs ≡ select (quarantines_by sha256 ctx) cs
      → All (Returns sha256 ctx) cs
      → let (d, reasons) = conclude (record { rejects = rs; quarantines = qs; checked = cs }) in
        IsJustified cs d reasons
  conclude-IsJustified cs (r ∷ rs) qs er eq ran = record {
    on_reject = λ e. (er, λ n. cc);
    on_quarantine = λ e. absurd (ground arith);
    on_allow = λ e. absurd (ground arith);
  }
  conclude-IsJustified cs [] (q ∷ qs) er eq ran = record {
    on_reject = λ e. absurd (ground arith);
    on_quarantine = λ e. (eq, (λ n. cc), sym er);
    on_allow = λ e. absurd (ground arith);
  }
  conclude-IsJustified cs [] [] er eq ran = record {
    on_reject = λ e. absurd (ground arith);
    on_quarantine = λ e. absurd (ground arith);
    on_allow = λ e. (refl, Silent-All cs ran (sym er) (sym eq));
  }

  collected-IsJustified :
      (cs : List Code) (f : Fired)
      → f.rejects ≡ select (rejects_by sha256 ctx) cs
      → f.quarantines ≡ select (quarantines_by sha256 ctx) cs
      → f.checked ≡ cs
      → All (Returns sha256 ctx) cs
      → IsJustified cs (conclude f).0 (conclude f).1
  collected-IsJustified cs f er eq ec ran =
      subst (λ xs. let c = conclude (record f { checked = xs }) in IsJustified cs c.0 c.1) (sym ec)
        (conclude-IsJustified cs f.rejects f.quarantines er eq ran)

  run_rules-total :
      (cs : List Code) (f : Fired)
      → All (Returns sha256 ctx) cs
      → (f' : Fired) × (run_rules sha256 ctx cs f ≡ ok f')
  unfolding run_rules
  run_rules-total [] f h = (f, refl)
  run_rules-total (c ∷ cs) f ((r, ran), h) = rw ran (run_rules-total cs (note_result c r f) h)

module _ (sha256 : Bytes → String) (dumps : Event → Bytes) (rules_sha256 now : String)
    (ctx : ValidationContext) (stage : ValidationStage) (version : String) where
  -- An answer of the validator is justified rule by rule: it rejects exactly on the rules that
  -- rejected, quarantines exactly on those that quarantined where none rejected, and allows only
  -- where every rule of the stage ran and found nothing.
  pub validate_envelope-IsJustified :
      (ev : Event)
      → validate_envelope sha256 dumps rules_sha256 now ctx stage version ≡ ok ev
      → (p : ValidationDecision) × (as_decision ev ≡ some p)
        × IsJustified sha256 ctx (rules_by_stage stage) p.decision p.reason_codes
  unfolding validate_envelope seal
  validate_envelope-IsJustified ev h =
      elim (Result-cases (run_rules sha256 ctx (rules_by_stage stage) nothing_fired)) [
        | inr (e, raised) ↦ absurd (ground arith)
        | inl (f, ran) ↦
            let (c, returned) =
              run_rules-Collected sha256 ctx (rules_by_stage stage) nothing_fired f ran in
            (
              decision_payload_of sha256 dumps rules_sha256 now ctx stage version f,
              ground arith,
              collected-IsJustified sha256 ctx (rules_by_stage stage) f c.rejects_eq
                  c.quarantines_eq c.checked_eq returned,
            )
      ]

  -- If no rule of the stage raises, and the bound is not negative, the validator answers.
  pub validate_envelope-total :
      All (Returns sha256 ctx) (rules_by_stage stage)
      → ltb_ℤ ctx.protocol.max_policy_lag_versions (pos 0) ≡ false
      → (ev : Event) × (validate_envelope sha256 dumps rules_sha256 now ctx stage version ≡ ok ev)
  unfolding validate_envelope seal
  validate_envelope-total h bound =
      let (f, ran) = run_rules-total sha256 ctx (rules_by_stage stage) nothing_fired h in
      rw (ran, bound) (_, refl)
