-- ===== src/Official/Rollout.antt =====
-- GuardedGRPOTrainer of guarded_grpo_trainer.py: its fields, `_guard_validate_rollouts` and
-- `_guard_emit_generation`. The batch of the official trainer comes in as an argument. The parameters
-- are hashlib's digest, the serialization of an event, and the time.
use grpo_guard.AppendLog.{AppendLog, LogFiles, append}
use grpo_guard.ArtifactStore.{ArtifactStore, put}
use grpo_guard.Official.Rows.{Row, _align_checks, _masked_real, _span, attention}
use grpo_guard.Prelude.{
  Bool, List, Option, String, [], false, get_elem?, is_nil, length, none, not, replicate, some, ℕ,
  ◌*◌, ◌++◌, ◌+◌, ◌==◌, ◌||◌, ◌∷◌,
}
use grpo_guard.Prelude.Decimal.{decimal, decimal_4}
use grpo_guard.Prelude.Int.{pos, ℤ}
use grpo_guard.Prelude.Result.{attribute_error, err, guard_violation, ok}
use grpo_guard.Prelude.Words.{bytes_32, bytes_8}
use grpo_guard.Schema.Events.{Event, GenerationEvent, generation, generation_success}
use grpo_guard.Schema.Refs.{ArtifactRef}
use grpo_guard.Schema.Seal.{Bytes, seal}
use grpo_guard.Prelude.Action.{Action, pure, modify, raise_when, ◌>>=◌, ◌>>◌}
use Prim.Native.String.{◌++◌ as text_append}

-- An entry of `_guard_rollouts`.
pub record RolloutRecord : Type 0 where
  pub step : ℕ
  pub index : ℕ
  pub prompt_len : ℕ
  pub completion_len : ℕ
  pub sequence_ref : ArtifactRef
  pub mask_ref : ArtifactRef
  pub old_logprob_ref : Option ArtifactRef
  pub sampling_logprob_ref : Option ArtifactRef
  pub advantage_ref : Option ArtifactRef

pub record GuardVerified : Type 0 where
  pub global_step : ℕ
  pub n_rollouts : ℕ

-- The guard's fields, with the files of its log and store. `global_step` is the trainer's.
pub record Guard : Type 0 where
  pub enabled : Bool
  pub run_id : String
  pub log : Option AppendLog
  pub files : LogFiles
  pub epoch : Option ℤ
  pub store : Option ArtifactStore
  pub rollouts : List RolloutRecord
  pub gen_seq : ℕ
  pub last_verified : Option GuardVerified
  pub step_capability : Bool
  pub opt_wrapped : Bool
  pub global_step : ℕ

-- The dict that the official trainer returns; a key that is missing is an empty list.
pub record RolloutBatch : Type 0 where
  pub prompt_ids : List Row
  pub prompt_mask : List Row
  pub completion_ids : List Row
  pub completion_mask : List Row
  pub sampling_per_token_logps : List (Option Row)
  pub old_per_token_logps : List (Option Row)
  pub advantages : List (Option Row)

-- `lps[i] if i < len(lps)`, where an entry may be None
abbrev pub row_entry : List (Option Row) → ℕ → Option Row
row_entry rows i = elim (get_elem? rows i) [ none ↦ none | some o ↦ o ]

-- "0" * 64
abbrev pub zero_hash : String
zero_hash = "0000000000000000000000000000000000000000000000000000000000000000"

abbrev pub octets : String
octets = "application/octet-stream"

-- f"{kind}-trl-{gen_seq}-{i}"
abbrev pub trl_id : String → ℕ → ℕ → String
trl_id kind g i =
    text_append kind (text_append "-" (text_append (decimal g) (text_append "-" (decimal i))))

module _ (sha256 : Bytes → String) where
  -- self._guard_store.put(…); without a store directory the store is None.
  unfoldable pub store_put : Bytes → String → String → List ℕ → Action Guard ArtifactRef
  store_put bytes producer dtype shape g = elim g.store [
    | none ↦ (err attribute_error, g)
    | some s ↦
        let (r, s') = put sha256 s bytes octets producer (some dtype) (some shape) in
        (r, record g { store = some s' })
  ]

  -- A float32 span that may be None.
  unfoldable pub store_span : Option Row → String → Action Guard (Option ArtifactRef)
  unfolding store_put
  store_span none producer = pure none
  store_span (some row) producer = do
    r ← store_put (bytes_32 row) producer "float32" (length row ∷ [])
    pure (some r)

-- The server's logprobs must cover the completion, one more entry allowed.
abbrev pub uncovered : ℕ → Option Row → Bool
uncovered c none = false
uncovered c (some row) = not (length row == c || length row == c + 1)

-- The masks of a row, which a shorter list of masks leaves out.
abbrev pub row_attention : RolloutBatch → ℕ → Option Row
row_attention b i = attention (get_elem? b.prompt_mask i) (get_elem? b.completion_mask i)

abbrev pub mask_of_row : RolloutBatch → ℕ → ℕ → Row
mask_of_row b i n = elim (get_elem? b.completion_mask i) [ some cm ↦ cm | none ↦ replicate n 1 ]

abbrev pub row_span : RolloutBatch → ℕ → Row → Row → Option Row → Option Row
row_span b i p c floats =
    _span floats (length p) (length c) (get_elem? b.completion_mask i) (row_attention b i)

abbrev pub rollout_record :
    ℕ
    → ℕ
    → Row
    → Row
    → ArtifactRef
    → ArtifactRef
    → Option ArtifactRef
    → Option ArtifactRef
    → Option ArtifactRef
    → RolloutRecord
rollout_record now_at i p c seq_ref mask_ref old_ref sampling_ref adv_ref = record {
  step = now_at;
  index = i;
  prompt_len = length p;
  completion_len = length c;
  sequence_ref = seq_ref;
  mask_ref = mask_ref;
  old_logprob_ref = old_ref;
  sampling_logprob_ref = sampling_ref;
  advantage_ref = adv_ref;
}

abbrev pub placeholder_logprobs : ℕ → String → ArtifactRef
placeholder_logprobs c id = record {
  uri = "";
  media_type = octets;
  dtype = some "float32";
  shape = some (c ∷ []);
  num_bytes = c * 4;
  sha256 = zero_hash;
  producer_event_id = id;
}

-- The event before `seal`; `now` is the time.
abbrev pub generation_of : String → String → ℕ → RolloutRecord → GenerationEvent
generation_of now run_id g r = record {
  base = record {
    schema_version = "1.0";
    event_id = trl_id "gen-gtrl" g r.index;
    run_id = run_id;
    component_id = "trl-grpo-trainer";
    lifecycle_seq = g * 1000 + r.index + 1;
    created_at_utc = now;
    input_events = [];
    input_artifacts = [];
    output_artifacts = [];
    event_sha256 = "";
  };
  request_id = text_append "gtrl-gen" (text_append (decimal g) (text_append "-" (decimal r.index)));
  attempt_id = "1";
  prompt_id = text_append "countdown-" (decimal_4 r.index);
  sample_index = r.index;
  runtime_id = "trl-vllm-server";
  runtime_load_epoch = 1;
  behavior_policy_version = 0;
  checkpoint_manifest_sha256 = "";
  sync_event = record { uri = ""; event_id = "sync-gtrl"; event_sha256 = zero_hash };
  sampling_config_sha256 = "";
  tokenizer_sha256 = "";
  chat_template_sha256 = "";
  prompt_span = (pos 0, pos r.prompt_len);
  completion_span = (pos r.prompt_len, pos (r.prompt_len + r.completion_len));
  padding_spans = [];
  truncation_applied = false;
  terminal_status = generation_success;
  sequence_token_ids = r.sequence_ref;
  completion_target_mask = r.mask_ref;
  loss_mask = r.mask_ref;
  service_behavior_logprobs = elim r.sampling_logprob_ref [
    | some lp ↦ some lp
    | none ↦ some (placeholder_logprobs r.completion_len (trl_id "gen-gtrl" g r.index))
  ];
}

module _ (sha256 : Bytes → String) (dumps : Event → Bytes) (now : String) where
  -- `if self._guard_log: self._guard_emit_generation(…)`
  unfoldable pub _guard_emit_generation : ℕ → RolloutRecord → Action Guard (Unit {0})
  _guard_emit_generation n r g = elim g.log [
    | none ↦ (ok tt, g)
    | some log ↦ elim (seal sha256 dumps (generation (generation_of now g.run_id n r))) [
      | err e ↦ (err e, g)
      | ok ev ↦
          let (answer, files') = append log ev g.epoch g.files in
          (elim answer [ ok _ ↦ ok tt | err e ↦ err e ], record g { files = files' })
    ]
  ]

  -- The body of the loop after the sequence is stored, from its end: the record is built and, if
  -- there is a log, its event is emitted.
  unfoldable pub finish_row : ℕ → RolloutRecord → Action Guard RolloutRecord
  finish_row g r = do _guard_emit_generation g r; pure r

  unfoldable pub store_spans :
      RolloutBatch → ℕ → ℕ → ℕ → Row → Row → ArtifactRef → ArtifactRef → Action Guard RolloutRecord
  store_spans b now_at g i p c seq_ref mask_ref = do
    old_ref ←
        store_span sha256 (row_span b i p c (row_entry b.old_per_token_logps i))
          (trl_id "oldlogprob-trl" g i)
    sampling_ref ←
        store_span sha256 (row_span b i p c (row_entry b.sampling_per_token_logps i))
          (trl_id "samplinglogprob-trl" g i)
    adv_ref ← store_span sha256 (row_entry b.advantages i) (trl_id "advantage-trl" g i)
    finish_row g (rollout_record now_at i p c seq_ref mask_ref old_ref sampling_ref adv_ref)

  unfoldable pub store_rest :
      RolloutBatch → ℕ → ℕ → ℕ → Row → Row → ArtifactRef → Action Guard RolloutRecord
  store_rest b now_at g i p c seq_ref = do
    mask_ref ←
        store_put sha256 (bytes_8 (mask_of_row b i (length p + length c))) (trl_id "mask-trl" g i)
          "int8" (length (mask_of_row b i (length p + length c)) ∷ [])
    store_spans b now_at g i p c seq_ref mask_ref

  -- The body of the loop, for the real tokens p and c of row i.
  unfoldable pub record_row : RolloutBatch → ℕ → ℕ → ℕ → Row → Row → Action Guard RolloutRecord
  record_row b now_at g i p c = do
    raise_when (not (is_nil (_align_checks p c))) guard_violation
    raise_when (uncovered (length c) (row_span b i p c (row_entry b.sampling_per_token_logps i)))
        guard_violation
    seq_ref ←
        store_put sha256 (bytes_32 (p ++ c)) (trl_id "gen-trl" g i) "int32" (length (p ++ c) ∷ [])
    store_rest b now_at g i p c seq_ref

  -- The loop over zip(prompt_ids, completion_ids), from row i.
  unfoldable pub record_rows :
      RolloutBatch → ℕ → ℕ → ℕ → List Row → List Row → Action Guard (List RolloutRecord)
  record_rows b now_at g i [] cs = pure []
  record_rows b now_at g i (p ∷ ps) [] = pure []
  record_rows b now_at g i (p ∷ ps) (c ∷ cs) = do
    r ←
        record_row b now_at g i (_masked_real p (get_elem? b.prompt_mask i))
          (_masked_real c (get_elem? b.completion_mask i))
    rs ← record_rows b now_at g (i + 1) ps cs
    pure (r ∷ rs)

  unfoldable pub _guard_validate_rollouts : RolloutBatch → Action Guard (Unit {0})
  _guard_validate_rollouts b g =
      (do
        modify (λ s. record s { gen_seq = s.gen_seq + 1 })
        records ← record_rows b g.global_step g.gen_seq 0 b.prompt_ids b.completion_ids
        modify (λ s. record s { rollouts = records }))
        g
