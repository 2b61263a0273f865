-- ===== src/Resume/Latest.antt =====
-- The step that a recovery plan resumes after is the latest one of the log.
use grpo_guard.Prelude.{
  Bool, Bool-cases, List, Option, String, [], any, ap, arith, false, inl, inr, insert_by, lt_key,
  none, refl, some, sort_by, subst, sym, true, ℕ, ◌||◌, ◌∙◌, ◌∷◌, ◌≡◌,
}
use grpo_guard.Prelude.Int.{leb_ℤ, ltb_ℤ, ℤ}
use grpo_guard.Resume.{
  EventFile, FileContent, RecoveryPlan, Scan, holds, plan_of, scan_event, unreadable, untyped,
  analyze_training, empty_scan, eq_version, insert_step, last_version, scan_file, scan_files,
  set_step, sort_steps, suc_ℤ,
}
use grpo_guard.Prelude.Result.{bind-ok, ok}
use grpo_guard.Schema.Events.{
  Event, TrainingStepEvent, generation, reward, scoring, sync, training_step, update, update_input,
  validation_decision,
}

unfoldable pub has_step : ℤ → List (ℤ × TrainingStepEvent) → Bool
has_step v [] = false
has_step v (x ∷ xs) = eq_version (x.0) v || has_step v xs

has_step-set_step :
    (v w : ℤ) (ev : TrainingStepEvent) (l : List (ℤ × TrainingStepEvent))
    → has_step w (set_step v ev l) ≡ (has_step w l || eq_version v w)
unfolding has_step set_step
has_step-set_step v w ev [] = ground arith
has_step-set_step v w ev ((u, old) ∷ l) = ground (arith, has_step-set_step v w ev l)

has_step-insert_step :
    (w : ℤ) (x : ℤ × TrainingStepEvent) (l : List (ℤ × TrainingStepEvent))
    → has_step w (insert_step x l) ≡ (eq_version (x.0) w || has_step w l)
unfolding has_step insert_step
has_step-insert_step w x [] = refl
has_step-insert_step w x (y ∷ l) = ground (arith, has_step-insert_step w x l)

has_step-sort_steps :
    (w : ℤ) (l : List (ℤ × TrainingStepEvent)) → has_step w (sort_steps l) ≡ has_step w l
unfolding has_step sort_steps
has_step-sort_steps w [] = refl
has_step-sort_steps w (x ∷ l) =
    has_step-insert_step w x (sort_steps l)
    ∙ ap (λ b. eq_version (x.0) w || b) (has_step-sort_steps w l)

-- The file holds a training step with this version.
abbrev pub step_at : ℤ → EventFile → Bool
step_at v f = elim f.content [
  | holds (training_step ev) ↦ eq_version ev.output_policy_version v
  | _ ↦ false
]

has_step-scan_event :
    (w : ℤ) (ev : Event) (s : Scan) (name : String)
    → has_step w (scan_event ev s).by_step
      ≡ (has_step w s.by_step || step_at w (record { file_name = name; content = holds ev }))
has_step-scan_event w (training_step ev) s name =
    has_step-set_step ev.output_policy_version w ev s.by_step
has_step-scan_event w (update ev) s name = ground arith
has_step-scan_event w (sync ev) s name = ground arith
has_step-scan_event w (update_input ev) s name = ground arith
has_step-scan_event w (generation ev) s name = ground arith
has_step-scan_event w (scoring ev) s name = ground arith
has_step-scan_event w (reward ev) s name = ground arith
has_step-scan_event w (validation_decision ev) s name = ground arith

has_step-scan_file :
    (w : ℤ) (name : String) (content : FileContent) (s s' : Scan)
    → scan_file (record { file_name = name; content = content }) s ≡ ok s'
    → has_step w s'.by_step
      ≡ (has_step w s.by_step || step_at w (record { file_name = name; content = content }))
unfolding scan_file
has_step-scan_file w name (holds ev) s s' h =
    let same : scan_event ev s ≡ s' = ground (arith, h) in
    ap (λ (t : Scan). has_step w t.by_step) (sym same) ∙ has_step-scan_event w ev s name
has_step-scan_file w name unreadable s s' h = ground (arith, h)
has_step-scan_file w name untyped s s' h = absurd (ground (arith, h))

has_step-scan_files :
    (w : ℤ) (files : List EventFile) (s s' : Scan)
    → scan_files files s ≡ ok s'
    → has_step w s'.by_step ≡ (has_step w s.by_step || any (step_at w) files)
unfolding scan_files
has_step-scan_files w [] s s' h = ground (arith, h)
has_step-scan_files w (f ∷ files) s s' h =
    let (t, te, rest) = bind-ok (scan_file f s) (λ t. scan_files files t) h in
    ground (
      arith,
      has_step-scan_files w files t s' rest,
      has_step-scan_file w f.file_name f.content s t te,
    )

abbrev name_key : EventFile → ℕ × String
name_key f = (0, f.file_name)

any-insert_by :
    (p : EventFile → Bool) (f : EventFile) (l : List EventFile)
    → any p (insert_by name_key f l) ≡ (p f || any p l)
unfolding insert_by
any-insert_by p f [] = refl
any-insert_by p f (g ∷ l) = elim (Bool-cases (lt_key (name_key g) (name_key f))) [
  | inl below ↦ rw (insert_by, below) (ground (arith, any-insert_by p f l))
  | inr above ↦ rw (insert_by, above) refl
]

any-sort_by : (p : EventFile → Bool) (l : List EventFile) → any p (sort_by name_key l) ≡ any p l
unfolding sort_by
any-sort_by p [] = refl
any-sort_by p (f ∷ l) =
    any-insert_by p f (sort_by name_key l) ∙ ap (λ b. p f || b) (any-sort_by p l)

abbrev at_most : ℤ → Option ℤ → Bool
at_most v none = false
at_most v (some w) = leb_ℤ v w

last_version-insert_step :
    (x y : ℤ × TrainingStepEvent) (l : List (ℤ × TrainingStepEvent))
    → last_version (y ∷ insert_step x l) ≡ last_version (insert_step x l)
unfolding insert_step last_version
last_version-insert_step x y [] = refl
last_version-insert_step x y (z ∷ l) = elim (Bool-cases (ltb_ℤ (z.0) (x.0))) [
  | inl below ↦ rw (insert_step, below) refl
  | inr above ↦ rw (insert_step, above) refl
]

-- The last version is at least every other.
abbrev Tops : List (ℤ × TrainingStepEvent) → Type 0
Tops l = (w : ℤ) → has_step w l ≡ true → at_most w (last_version l) ≡ true

tail-Tops : (y : ℤ × TrainingStepEvent) (l : List (ℤ × TrainingStepEvent)) → Tops (y ∷ l) → Tops l
unfolding has_step last_version
tail-Tops y [] h w e = ground (arith, e)
tail-Tops y (z ∷ l) h w e = h w (ground (arith, e))

at_most_trans :
    (a b : ℤ) (o : Option ℤ) → leb_ℤ a b ≡ true → at_most b o ≡ true → at_most a o ≡ true
at_most_trans a b none h k = k
at_most_trans a b (some c) h k = ground (arith, h, k)

insert_step-Tops :
    (x : ℤ × TrainingStepEvent) (l : List (ℤ × TrainingStepEvent)) → Tops l → Tops (insert_step x l)
unfolding has_step last_version insert_step
insert_step-Tops x [] h w e = ground (arith, e)
insert_step-Tops x (y ∷ l) h w e = elim (Bool-cases (ltb_ℤ (y.0) (x.0))) [
  | inl below ↦
      let rest = insert_step-Tops x l (tail-Tops y l h) in
      let e' : (eq_version (y.0) w || has_step w (insert_step x l)) ≡ true =
        rw (insert_step, below) at e in
      let top_x : at_most (x.0) (last_version (insert_step x l)) ≡ true =
        rest (x.0) (ground (arith, has_step-insert_step (x.0) x l)) in
      let goal : at_most w (last_version (insert_step x l)) ≡ true =
        elim (Bool-cases (has_step w (insert_step x l))) [
          | inl later ↦ rest w later
          | inr gone ↦
              at_most_trans w (x.0) (last_version (insert_step x l))
                (ground (arith, e', gone, below)) top_x
        ] in
      rw (insert_step, below, last_version-insert_step x y l) goal
  | inr above ↦
      let e' : (eq_version (x.0) w || has_step w (y ∷ l)) ≡ true = rw (insert_step, above) at e in
      let top_y : at_most (y.0) (last_version (y ∷ l)) ≡ true = h (y.0) (ground arith) in
      let goal : at_most w (last_version (y ∷ l)) ≡ true = elim (Bool-cases (has_step w (y ∷ l))) [
        | inl later ↦ h w later
        | inr gone ↦
            at_most_trans w (y.0) (last_version (y ∷ l)) (ground (arith, e', gone, above)) top_y
      ] in
      rw (insert_step, above) goal
]

sort_steps-Tops : (l : List (ℤ × TrainingStepEvent)) → Tops (sort_steps l)
unfolding sort_steps has_step
sort_steps-Tops [] w e = ground (arith, e)
sort_steps-Tops (x ∷ l) w e = insert_step-Tops x (sort_steps l) (sort_steps-Tops l) w e

last_version-has_step :
    (v : ℤ) (l : List (ℤ × TrainingStepEvent)) → last_version l ≡ some v → has_step v l ≡ true
unfolding last_version has_step
last_version-has_step v [] e = ground (arith, e)
last_version-has_step v (x ∷ []) e = ground (arith, e)
last_version-has_step v (x ∷ y ∷ l) e = ground (arith, last_version-has_step v (y ∷ l) e)

has_step-scanned :
    (w : ℤ) (files : List EventFile) (s : Scan)
    → scan_files (sort_by name_key files) empty_scan ≡ ok s
    → has_step w (sort_steps s.by_step) ≡ any (step_at w) files
unfolding has_step
has_step-scanned w files s h =
    has_step-sort_steps w s.by_step
    ∙ has_step-scan_files w (sort_by name_key files) empty_scan s h
    ∙ any-sort_by (step_at w) files

-- A plan that was built and resumes after step v resumes after a step of the log, no readable
-- training step of the log is later, and the next step is v + 1.
pub analyze_training-Latest :
    (files : List EventFile) (plan : RecoveryPlan) (v : ℤ)
    → analyze_training files ≡ ok plan
    → plan.last_step ≡ some v
    → (any (step_at v) files ≡ true)
      × ((w : ℤ) → any (step_at w) files ≡ true → leb_ℤ w v ≡ true)
      × (plan.next_step ≡ some (suc_ℤ v))
unfolding analyze_training
analyze_training-Latest files plan v ran e =
    let (s, h, end) = bind-ok (scan_files (sort_by name_key files) empty_scan) _ ran in
    let same : plan_of s ≡ plan = ground (arith, end) in
    let last : last_version (sort_steps s.by_step) ≡ some v = ground (arith, same, e) in
    (
      sym (has_step-scanned v files s h) ∙ last_version-has_step v _ last,
      (λ w there.
          let top = sort_steps-Tops s.by_step w (has_step-scanned w files s h ∙ there) in
          subst (λ o. at_most w o ≡ true) last top),
      ground (arith, same, last),
    )
