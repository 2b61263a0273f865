-- ===== src/Runtime.antt =====
-- src/grpo_guard/adapters/vllm_runtime.py: the producer of generation events and of token artifacts.
-- Float logprobs are the numbers of their float32 words. The parameters are hashlib's digest, the
-- serialization of an event, and the time.
pub mod Stored
pub mod Emitted
pub mod Canonical
use grpo_guard.AppendLog.{AppendLog, LogFiles, append, append_provenance_edge}
use grpo_guard.ArtifactStore.{ArtifactStore, put}
use grpo_guard.Control.{next_lifecycle}
use grpo_guard.Prelude.{
  Bool, List, Option, String, [], all, drop, false, length, ltb, none, not, replicate, some, true,
  ℕ, ◌++◌, ◌+◌, ◌-◌, ◌==◌, ◌∷◌,
}
use grpo_guard.Prelude.Decimal.{decimal, decimal_4}
use grpo_guard.Prelude.Int.{pos, ℤ}
use grpo_guard.Prelude.Result.{err, ok, overflow_error, value_error}
use grpo_guard.Prelude.Words.{bytes_32, bytes_8}
use grpo_guard.Schema.Events.{Event, GenerationEvent, GenerationStatus, generation}
use grpo_guard.Schema.Refs.{ArtifactRef, EventRef}
use grpo_guard.Schema.Seal.{Bytes}
use Prim.Native.String.{◌++◌ as text_append}
use grpo_guard.Prelude.Action.{Action, pure, raise_when, ◌>>=◌, ◌>>◌}

-- A VLLMRuntimeAdapter, with the files of its log. `from_log` says that it has a seq_provider.
pub record Runtime : Type 0 where
  pub store : ArtifactStore
  pub log : AppendLog
  pub files : LogFiles
  pub run_id : String
  pub runtime_id : String
  pub component_id : String
  pub seq : ℕ
  pub load_epoch : ℕ
  pub from_log : Bool

-- The arguments of emit_generation.
pub record Sampled : Type 0 where
  pub prompt_ids : List ℕ
  pub completion_ids : List ℕ
  pub service_logprobs : Option (List ℕ)
  pub behavior_policy_version : ℕ
  pub checkpoint_manifest_sha256 : String
  pub sync_event : EventRef
  pub tokenizer_sha256 : String
  pub chat_template_sha256 : String
  pub sampling_config_sha256 : String
  pub prompt_id : String
  pub request_id : String
  pub truncation_applied : Bool
  pub terminal_status : GenerationStatus
  pub required_epoch : Option ℤ

abbrev pub tokens_of : Sampled → List ℕ
tokens_of a = a.prompt_ids ++ a.completion_ids

-- np.asarray(…, dtype=np.int32) refuses a number that is too large.
abbrev pub fits_int32 : ℕ → Bool
fits_int32 n = ltb n 2147483648

-- target[P:T] = 1 on zeros
abbrev pub target_mask : Sampled → List ℕ
target_mask a = replicate (length a.prompt_ids) 0 ++ replicate (length a.completion_ids) 1

abbrev pub loss_mask_of : Sampled → List ℕ
loss_mask_of a = drop 1 (target_mask a)

unfoldable pub next_number : Action Runtime ℕ
next_number s = elim s.from_log [
  | true ↦ (ok (next_lifecycle s.files), s)
  | false ↦ (ok (s.seq + 1), record s { seq = s.seq + 1 })
]

unfoldable pub set_load_epoch : ℕ → Action Runtime (Unit {0})
set_load_epoch epoch s = (ok tt, record s { load_epoch = epoch })

-- f"gen-{behavior_policy_version}-{self.run_id}-{seq_no:04d}"
abbrev pub gen_id : Sampled → String → ℕ → String
gen_id a run_id n = text_append "gen-" (
    text_append (decimal a.behavior_policy_version)
      (text_append "-" (text_append run_id (text_append "-" (decimal_4 n)))))

-- The references of one generation.
pub record TokenRefs : Type 0 where
  pub seq_ref : ArtifactRef
  pub target_ref : ArtifactRef
  pub loss_ref : ArtifactRef
  pub lp_ref : Option ArtifactRef

abbrev pub refs_of : TokenRefs → List ArtifactRef
refs_of r = r.seq_ref ∷ r.target_ref ∷ r.loss_ref ∷ elim r.lp_ref [ none ↦ [] | some lp ↦ lp ∷ [] ]

module _ (sha256 : Bytes → String) where
  unfoldable pub put_array : Bytes → String → String → ℕ → Action Runtime ArtifactRef
  put_array bytes ev_id dtype size s =
      let (r, store') =
        put sha256 s.store bytes "application/octet-stream" ev_id (some dtype) (some (size ∷ [])) in
      (r, record s { store = store' })

  -- The logprobs must cover the completion.
  unfoldable pub put_logprobs : Sampled → String → Action Runtime (Option ArtifactRef)
  put_logprobs a ev_id = elim a.service_logprobs [
    | none ↦ pure none
    | some lp ↦ do
      raise_when (not (length lp == length a.completion_ids)) value_error
      r ← put_array (bytes_32 lp) ev_id "float32" (length a.completion_ids)
      pure (some r)
  ]

  -- The four `put`s, which come before the event. The loss mask of an empty sequence has the shape
  -- [-1] in the source, and [0] here.
  unfoldable pub put_tokens : Sampled → String → Action Runtime TokenRefs
  put_tokens a ev_id = do
    seq_ref ← put_array (bytes_32 (tokens_of a)) ev_id "int32" (length (tokens_of a))
    target_ref ← put_array (bytes_8 (target_mask a)) ev_id "int8" (length (tokens_of a))
    loss_ref ← put_array (bytes_8 (loss_mask_of a)) ev_id "int8" (length (tokens_of a) - 1)
    lp_ref ← put_logprobs a ev_id
    pure (record {
      seq_ref = seq_ref;
      target_ref = target_ref;
      loss_ref = loss_ref;
      lp_ref = lp_ref;
    })

-- The event before `seal`.
abbrev pub generation_draft : String → Runtime → Sampled → ℕ → TokenRefs → GenerationEvent
generation_draft now s a n refs = record {
  base = record {
    schema_version = "1.0";
    event_id = gen_id a s.run_id n;
    run_id = s.run_id;
    component_id = s.component_id;
    lifecycle_seq = n;
    created_at_utc = now;
    input_events = [];
    input_artifacts = [];
    output_artifacts = refs_of refs;
    event_sha256 = "";
  };
  request_id = a.request_id;
  attempt_id = text_append "att-" a.request_id;
  prompt_id = a.prompt_id;
  sample_index = 0;
  runtime_id = s.runtime_id;
  runtime_load_epoch = s.load_epoch;
  behavior_policy_version = a.behavior_policy_version;
  checkpoint_manifest_sha256 = a.checkpoint_manifest_sha256;
  sync_event = a.sync_event;
  sampling_config_sha256 = a.sampling_config_sha256;
  tokenizer_sha256 = a.tokenizer_sha256;
  chat_template_sha256 = a.chat_template_sha256;
  prompt_span = (pos 0, pos (length a.prompt_ids));
  completion_span = (pos (length a.prompt_ids), pos (length (tokens_of a)));
  padding_spans = [];
  truncation_applied = a.truncation_applied;
  terminal_status = a.terminal_status;
  sequence_token_ids = refs.seq_ref;
  completion_target_mask = refs.target_ref;
  loss_mask = refs.loss_ref;
  service_behavior_logprobs = refs.lp_ref;
}

unfoldable pub log_generation : GenerationEvent → Option ℤ → Action Runtime (Unit {0})
log_generation ev required s =
    let (answer, files') = append s.log (generation ev) required s.files in
    (elim answer [ ok _ ↦ ok tt | err e ↦ err e ], record s { files = files' })

unfoldable pub log_edge : String → ArtifactRef → Action Runtime (Unit {0})
log_edge id r s =
    let (answer, files') = append_provenance_edge id r.sha256 "producer" s.files in
    (answer, record s { files = files' })

-- The loop over event.output_artifacts.
unfoldable pub log_edges : String → List ArtifactRef → Action Runtime (Unit {0})
log_edges id [] = pure tt
log_edges id (r ∷ rs) = do log_edge id r; log_edges id rs

module _ (sha256 : Bytes → String) (dumps : Event → Bytes) (now : String) where
  abbrev pub sealed_generation : GenerationEvent → GenerationEvent
  sealed_generation e = record e {
    base = record e.base { event_sha256 = sha256 (dumps (generation e)) };
  }

  -- After the references are there: the event is built, sealed, appended, and its edges written.
  unfoldable pub log_sampled : Sampled → ℕ → TokenRefs → Action Runtime GenerationEvent
  log_sampled a n refs s =
      let ev = sealed_generation (generation_draft now s a n refs) in
      (do log_generation ev a.required_epoch; log_edges ev.base.event_id (refs_of refs); pure ev) s

  unfoldable pub emit_numbered : Sampled → ℕ → Action Runtime GenerationEvent
  emit_numbered a n s =
      (do refs ← put_tokens sha256 a (gen_id a s.run_id n); log_sampled a n refs) s

  unfoldable pub emit_generation : Sampled → Action Runtime GenerationEvent
  emit_generation a = do
    raise_when (not (all fits_int32 (tokens_of a))) overflow_error
    n ← next_number
    emit_numbered a n
