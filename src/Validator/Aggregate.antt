-- ===== src/Validator/Aggregate.antt =====
-- What the loop over the rules has collected, against the verdicts of the rules one by one.
use grpo_guard.Context.{ValidationContext}
use grpo_guard.Prelude.{
  All, Bool, List, Option, String, [], arith, false, inl, inr, none, refl, some, sym, true, ◌++◌,
  ◌∙◌, ◌∷◌, ◌≡◌, ◌≢◌,
}
use grpo_guard.Prelude.Result.{Result-cases, err, ok}
use grpo_guard.Rules.Base.{RuleResult, Verdict}
use grpo_guard.Rules.Codes.{run_rule-code}
use grpo_guard.Rules.Table.{run_rule, select}
use grpo_guard.Schema.Decision.{Code, Decision, allow, quarantine, reject}
use grpo_guard.Schema.Seal.{Bytes}
use grpo_guard.Validator.{Fired, note_result, run_rules}
use mathlib.Core.Path.{subst}
use mathlib.Core.List.{append_assoc, append-nil}

abbrev pub same_decision : Decision → Decision → Bool
same_decision allow allow = true
same_decision quarantine quarantine = true
same_decision reject reject = true
same_decision _ _ = false

-- The rule returned, and returned this decision.
abbrev pub decides : Decision → Verdict → Bool
decides d (err e) = false
decides d (ok none) = false
decides d (ok (some r)) = same_decision d r.decision

module _ (sha256 : Bytes → String) (ctx : ValidationContext) where
  abbrev pub rejects_by : Code → Bool
  rejects_by c = decides reject (run_rule sha256 c ctx)

  abbrev pub quarantines_by : Code → Bool
  quarantines_by c = decides quarantine (run_rule sha256 c ctx)

  -- The rule raised nothing.
  abbrev pub Returns : Code → Type 0
  Returns c = (r : Option RuleResult) × (run_rule sha256 c ctx ≡ ok r)

  -- What the loop over `cs` adds to the lists.
  pub record Collected (cs : List Code) (f f' : Fired) : Type 0 where
    pub rejects_eq : f'.rejects ≡ f.rejects ++ select rejects_by cs
    pub quarantines_eq : f'.quarantines ≡ f.quarantines ++ select quarantines_by cs
    pub checked_eq : f'.checked ≡ f.checked ++ cs

  note_fired-Collected :
      (c : Code) (d : Decision) (f : Fired)
      → run_rule sha256 c ctx ≡ ok (some (record { code = c; decision = d }))
      → d ≢ allow
      → Collected (c ∷ []) f (note_result c (some (record { code = c; decision = d })) f)
  unfolding select
  note_fired-Collected c allow f ran active = absurd (active refl)
  note_fired-Collected c quarantine f ran active = record {
    rejects_eq = rw ran (sym (append-nil f.rejects));
    quarantines_eq = rw ran refl;
    checked_eq = refl;
  }
  note_fired-Collected c reject f ran active = record {
    rejects_eq = rw ran refl;
    quarantines_eq = rw ran (sym (append-nil f.quarantines));
    checked_eq = refl;
  }

  note_result-Collected :
      (c : Code) (r : Option RuleResult) (f : Fired)
      → run_rule sha256 c ctx ≡ ok r
      → Collected (c ∷ []) f (note_result c r f)
  unfolding select
  note_result-Collected c none f ran = record {
    rejects_eq = rw ran (sym (append-nil f.rejects));
    quarantines_eq = rw ran (sym (append-nil f.quarantines));
    checked_eq = refl;
  }
  note_result-Collected c (some r) f ran =
      let (same, active) = run_rule-code sha256 ctx c ran in
      let e : r ≡ record { code = c; decision = r.decision } = ground (arith, same) in
      subst (λ x. Collected (c ∷ []) f (note_result c (some x) f)) (sym e)
        (note_fired-Collected c r.decision f (rw e at ran) active)

  select-append :
      (p : Code → Bool) (xs ys : List Code) → select p (xs ++ ys) ≡ select p xs ++ select p ys
  unfolding select
  select-append p [] ys = refl
  select-append p (x ∷ xs) ys = ground (arith, select-append p xs ys)

  join_lists :
      (p : Code → Bool) (c : Code) (cs a : List Code) {b d : List Code}
      → b ≡ a ++ select p (c ∷ [])
      → d ≡ b ++ select p cs
      → d ≡ a ++ select p (c ∷ cs)
  join_lists p c cs a e f =
      rw (f, e, select-append p (c ∷ []) cs) (append_assoc a (select p (c ∷ [])) (select p cs))

  -- A loop that ends has asked every rule, and has collected what each one said.
  pub run_rules-Collected :
      (cs : List Code) (f f' : Fired)
      → run_rules sha256 ctx cs f ≡ ok f'
      → Collected cs f f' × All Returns cs
  unfolding run_rules select
  run_rules-Collected [] f f' h = (
    record {
      rejects_eq = rw (← h') (sym (append-nil f.rejects));
      quarantines_eq = rw (← h') (sym (append-nil f.quarantines));
      checked_eq = rw (← h') (sym (append-nil f.checked));
    },
    tt,
  )
    where
      h' : f ≡ f'
      h' = ground (arith, h)
  run_rules-Collected (c ∷ cs) f f' h = elim (Result-cases (run_rule sha256 c ctx)) [
    | inr (e, raised) ↦ absurd (ground arith)
    | inl (r, ran) ↦
        let first = note_result-Collected c r f ran in
        let (rest, returned) =
          run_rules-Collected cs (note_result c r f) f' (let h' = rw ran at h in h') in
        (
          record {
            rejects_eq = join_lists rejects_by c cs f.rejects first.rejects_eq rest.rejects_eq;
            quarantines_eq =
                join_lists quarantines_by c cs f.quarantines first.quarantines_eq
                  rest.quarantines_eq;
            checked_eq = rest.checked_eq ∙ rw first.checked_eq (append_assoc f.checked (c ∷ []) cs);
          },
          ((r, ran), returned),
        )
  ]
