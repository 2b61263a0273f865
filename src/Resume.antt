-- ===== src/Resume.antt =====
-- src/grpo_guard/resume.py: the recovery plan that is read off the event files. A file is its name
-- and what it holds. The directory `ckpt_v…` of a plan is
-- given by the number in its name.
pub mod Latest
use grpo_guard.Prelude.{
  Bool, List, Option, String, [], false, if◌then◌else◌, is_empty, map, none, some, sort_by, suc,
  true, zero, ◌&&◌, ◌++◌, ◌+◌, ◌∷◌,
}
use grpo_guard.Prelude.Int.{leb_ℤ, ltb_ℤ, negsuc, pos, ℤ}
use grpo_guard.Prelude.Result.{Result, err, key_error, ok, ◌>>=◌}
use grpo_guard.Schema.Events.{
  Event, TrainingStepEvent, UpdateEventType, training_step, update, update_committed,
}

-- An event; or what raises OSError or ValueError; or a JSON object without event_type, on which
-- `event_from_payload` raises KeyError.
pub data FileContent : Type 0 where
  holds : Event → FileContent
  unreadable untyped : FileContent

pub record EventFile : Type 0 where
  pub file_name : String
  pub content : FileContent

pub record RecoveryPlan : Type 0 where
  pub plan_ok : Bool
  pub failures : List String
  pub last_step : Option ℤ
  pub next_step : Option ℤ
  pub checkpoint_manifest : Option String
  pub checkpoint_dir : Option ℤ
  pub steps : List TrainingStepEvent
  pub plan_run_id : Option String

-- The variables of the loop.
pub record Scan : Type 0 where
  pub scan_failures : List String
  pub by_step : List (ℤ × TrainingStepEvent)
  pub committed_sha : List (Option ℤ × Option String)
  pub scan_run_id : Option String

abbrev pub eq_version : ℤ → ℤ → Bool
eq_version a b = leb_ℤ a b && leb_ℤ b a

-- by_step[version] = …
unfoldable pub set_step :
    ℤ → TrainingStepEvent → List (ℤ × TrainingStepEvent) → List (ℤ × TrainingStepEvent)
set_step v ev [] = (v, ev) ∷ []
set_step v ev ((w, old) ∷ steps) =
    if eq_version w v then (w, ev) ∷ steps else (w, old) ∷ set_step v ev steps

abbrev pub is_update_commit : UpdateEventType → Bool
is_update_commit update_committed = true
is_update_commit _ = false

abbrev pub is_unset : Option String → Bool
is_unset none = true
is_unset (some s) = is_empty s

-- plan.run_id or ev.run_id
abbrev pub or_run_id : Option String → String → Option String
or_run_id r id = if is_unset r then some id else r

abbrev pub scan_event : Event → Scan → Scan
scan_event (training_step ev) s = record s {
  by_step = set_step ev.output_policy_version ev s.by_step;
  scan_run_id = or_run_id s.scan_run_id ev.run_id;
}
scan_event (update ev) s =
    if is_update_commit ev.event_type
    then record s {
      committed_sha = (ev.output_policy_version, ev.checkpoint_manifest_sha256) ∷ s.committed_sha;
    }
    else s
scan_event _ s = s

-- KeyError is not caught.
unfoldable pub scan_file : EventFile → Scan → Result Scan
scan_file f s = elim f.content [
  | holds ev ↦ ok (scan_event ev s)
  | unreadable ↦ ok (record s { scan_failures = s.scan_failures ++ f.file_name ∷ [] })
  | untyped ↦ err key_error
]

unfoldable pub scan_files : List EventFile → Scan → Result Scan
scan_files [] s = ok s
scan_files (f ∷ files) s = scan_file f s >>= λ s'. scan_files files s'

abbrev pub empty_scan : Scan
empty_scan = record { scan_failures = []; by_step = []; committed_sha = []; scan_run_id = none }

-- committed_sha.get(version): of two writes under one key the later one, which stands first, counts.
unfoldable pub committed_of : ℤ → List (Option ℤ × Option String) → Option String
committed_of v [] = none
committed_of v ((none, sha) ∷ rest) = committed_of v rest
committed_of v ((some w, sha) ∷ rest) = if eq_version w v then sha else committed_of v rest

-- for k in sorted(by_step), the keys of a dict being different
unfoldable pub insert_step :
    ℤ × TrainingStepEvent → List (ℤ × TrainingStepEvent) → List (ℤ × TrainingStepEvent)
insert_step x [] = x ∷ []
insert_step x (y ∷ ys) =
    let rest = insert_step x ys in if ltb_ℤ (y.0) (x.0) then y ∷ rest else x ∷ y ∷ ys

unfoldable pub sort_steps : List (ℤ × TrainingStepEvent) → List (ℤ × TrainingStepEvent)
unfolding insert_step
sort_steps [] = []
sort_steps (x ∷ xs) = insert_step x (sort_steps xs)

-- steps[-1]["step"]
unfoldable pub last_version : List (ℤ × TrainingStepEvent) → Option ℤ
last_version [] = none
last_version (x ∷ []) = some (x.0)
last_version (x ∷ y ∷ ys) = last_version (y ∷ ys)

abbrev pub suc_ℤ : ℤ → ℤ
suc_ℤ (pos n) = pos (n + 1)
suc_ℤ (negsuc zero) = pos 0
suc_ℤ (negsuc (suc n)) = negsuc n

abbrev pub plan_of : Scan → RecoveryPlan
plan_of s = elim (last_version (sort_steps s.by_step)) [
  | none ↦ record {
    plan_ok = false;
    failures = s.scan_failures ++ "no training_step_finished events found (nothing to resume)" ∷ [];
    last_step = none;
    next_step = none;
    checkpoint_manifest = none;
    checkpoint_dir = none;
    steps = [];
    plan_run_id = s.scan_run_id;
  }
  | some v ↦ record {
    plan_ok = true;
    failures = s.scan_failures;
    last_step = some v;
    next_step = some (suc_ℤ v);
    checkpoint_manifest = committed_of v s.committed_sha;
    checkpoint_dir = some v;
    steps = map (λ x. x.1) (sort_steps s.by_step);
    plan_run_id = s.scan_run_id;
  }
]

unfoldable pub analyze_training : List EventFile → Result RecoveryPlan
analyze_training files = do
  s ← scan_files (sort_by (λ f. (0, f.file_name)) files) empty_scan
  ok (plan_of s)

-- The plan that write_recovery_plan writes.
unfoldable pub write_recovery_plan : List EventFile → Option String → Result RecoveryPlan
write_recovery_plan files manifest = do
  plan ← analyze_training files
  ok (record plan { checkpoint_manifest = manifest })
