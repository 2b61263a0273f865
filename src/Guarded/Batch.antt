-- ===== src/Guarded/Batch.antt =====
-- MaterializedBatch, ValidatedBatchHandle and `materialize` of guarded_update.py. An array is its
-- dtype and its bytes. The parameters are hashlib's digest, the UTF-8 encoding, canonical_dumps of
-- the layout, and of the event without its hash.
use grpo_guard.ArtifactStore.{ArtifactStore, get}
use grpo_guard.Prelude.{
  Bool, List, Option, String, [], false, if◌then◌else◌, is_empty, length, ltb, none, not, some, ℕ,
  ◌%◌, ◌==◌, ◌is◌, ◌||◌, ◌∷◌,
}
use grpo_guard.Prelude.Int.{ℤ}
use grpo_guard.Prelude.Result.{Result, err, ok, raise_if, value_error, ◌>>=◌, ◌>>◌}
use grpo_guard.Rules.Tokens.{or_empty}
use grpo_guard.Schema.Events.{Event, UpdateInputEvent, update_input}
use grpo_guard.Schema.Refs.{ArtifactRef, EnvelopeRef, EventRef}
use grpo_guard.Schema.Seal.{Bytes}
use Prim.Native.String.{◌++◌ as text_append, slice as text_slice}

pub record Array : Type 0 where
  pub dtype : String
  pub bytes : Bytes

-- The `rewards` argument: its shape, and the bytes of its conversion to float32, as numpy gives
-- them (`astype` and `ascontiguousarray`).
pub record Rewards : Type 0 where
  pub shape : List ℕ
  pub float32_bytes : Bytes

pub record MaterializedBatch : Type 0 where
  pub sequence_token_ids : Array
  pub loss_mask : Array
  pub behavior_logprobs : Array
  pub rewards : Rewards
  pub layout_sha256 : String

-- `id` is the identity of the object: two names of one handle share its `consumed` flag.
pub record ValidatedBatchHandle : Type 0 where
  pub handle_id : ℕ
  pub input_event : UpdateInputEvent
  pub batch : MaterializedBatch

-- _dtype(ref)
unfoldable pub _dtype : ArtifactRef → String
_dtype r =
    let d = or_empty r.dtype in
    if d is "bf16" || d is "float16"
    then "<f2"
    else if d is "float32"
    then "<f4"
    else if d is "int8"
    then "<i1"
    else "<i4"

-- The width of the four dtypes that `_dtype` returns.
unfoldable pub itemsize : String → ℕ
itemsize d = if d is "<f2" then 2 else if d is "<i1" then 1 else 4

-- np.frombuffer(bytes, dtype=…).copy(), which refuses a partial element
unfoldable pub frombuffer : Bytes → String → Result Array
unfolding itemsize
frombuffer bytes d =
    if not (length bytes % itemsize d == 0)
    then err value_error
    else ok (record { dtype = d; bytes = bytes })

-- The dict whose canonical JSON is hashed into `layout_sha256`.
pub record Layout : Type 0 where
  pub sequence_token_ids : String × ℕ
  pub loss_mask : String × ℕ
  pub behavior_logprobs : String × ℕ
  pub reward_event : String
  pub reward_values : String × List ℕ × String
  pub group_size : Option ℤ
  pub group_members : List String
  pub parent_policy_manifest : String

-- The arguments of `materialize` after the store; `group_members or []` is a list here.
pub record Request : Type 0 where
  pub run_id : String
  pub update_id : String
  pub preupdate_envelope : EnvelopeRef
  pub validation_decision : EventRef
  pub sequence_ref : ArtifactRef
  pub loss_mask_ref : ArtifactRef
  pub logprob_event_ref : EventRef
  pub logprob_ref : ArtifactRef
  pub reward_event_ref : EventRef
  pub nonce : String
  pub rewards : Option Rewards
  pub lifecycle_seq : ℕ
  pub group_size : Option ℤ
  pub group_members : List String
  pub parent_policy_manifest : String

-- rewards.ndim != 1 or rewards.shape[0] == 0
abbrev pub is_reward_vector : List ℕ → Bool
is_reward_vector (n ∷ []) = ltb 0 n
is_reward_vector _ = false

module _ (sha256 : Bytes → String) where
  -- _rewards_sha256: digest, shape and dtype of the float32 tensor
  abbrev pub _rewards_sha256 : Rewards → String × List ℕ × String
  _rewards_sha256 r = (sha256 r.float32_bytes, r.shape, "float32")

module _ (sha256 : Bytes → String) (encode : String → Bytes) (dumps_layout : Layout → Bytes)
    (dumps : Event → Bytes) (now : String) where
  abbrev pub layout_of : Request → Rewards → Layout
  layout_of q r = record {
    sequence_token_ids = (q.sequence_ref.sha256, q.sequence_ref.num_bytes);
    loss_mask = (q.loss_mask_ref.sha256, q.loss_mask_ref.num_bytes);
    behavior_logprobs = (q.logprob_ref.sha256, q.logprob_ref.num_bytes);
    reward_event = q.reward_event_ref.event_id;
    reward_values = _rewards_sha256 sha256 r;
    group_size = q.group_size;
    group_members = q.group_members;
    parent_policy_manifest = q.parent_policy_manifest;
  }

  abbrev pub nonce_hash : Request → String
  nonce_hash q = sha256 (encode q.nonce)

  -- The UpdateInputEvent before `seal`.
  abbrev pub draft_event : Request → Rewards → UpdateInputEvent
  draft_event q r = record {
    base = record {
      schema_version = "1.0";
      event_id =
          text_append "uinput-"
            (text_append q.update_id (text_append "-" (text_slice (nonce_hash q) 0 12)));
      run_id = q.run_id;
      component_id = "guarded_materializer";
      lifecycle_seq = q.lifecycle_seq;
      created_at_utc = now;
      input_events = q.validation_decision ∷ [];
      input_artifacts = q.sequence_ref ∷ q.loss_mask_ref ∷ q.logprob_ref ∷ [];
      output_artifacts = [];
      event_sha256 = "";
    };
    update_id = q.update_id;
    preupdate_envelope = q.preupdate_envelope;
    preupdate_validation_decision = q.validation_decision;
    sequence_token_ids = q.sequence_ref;
    loss_mask = q.loss_mask_ref;
    authoritative_behavior_logprob_event = q.logprob_event_ref;
    authoritative_behavior_logprobs = q.logprob_ref;
    reward_event = q.reward_event_ref;
    materialized_layout_sha256 = sha256 (dumps_layout (layout_of q r));
    single_use_nonce_sha256 = nonce_hash q;
    tokenizer_called = false;
    reward_value_sha256 = (_rewards_sha256 sha256 r).0;
    reward_shape = (_rewards_sha256 sha256 r).1;
    reward_dtype = (_rewards_sha256 sha256 r).2;
    group_size = q.group_size;
    group_members = q.group_members;
    parent_policy_manifest = q.parent_policy_manifest;
  }

  abbrev pub sealed_event : Request → Rewards → UpdateInputEvent
  sealed_event q r =
      let e = draft_event q r in
      record e { base = record e.base { event_sha256 = sha256 (dumps (update_input e)) } }

  -- The checks on `rewards`, which come after the three reads.
  abbrev pub require_rewards : Option Rewards → Result Rewards
  require_rewards none = err value_error
  require_rewards (some r) = if not (is_reward_vector r.shape) then err value_error else ok r

  -- The handle's constructor refuses an event without a hash; `fresh` is the new object's identity.
  unfoldable pub materialize : ArtifactStore → ℕ → Request → Result ValidatedBatchHandle
  materialize store fresh q = do
    seq ← get sha256 store q.sequence_ref
    loss ← get sha256 store q.loss_mask_ref
    logprobs ← get sha256 store q.logprob_ref
    seq_arr ← frombuffer seq (_dtype q.sequence_ref)
    loss_arr ← frombuffer loss (_dtype q.loss_mask_ref)
    lp_arr ← frombuffer logprobs (_dtype q.logprob_ref)
    r ← require_rewards q.rewards
    raise_if (is_empty (sealed_event q r).event_sha256) value_error
    ok (record {
      handle_id = fresh;
      input_event = sealed_event q r;
      batch = record {
        sequence_token_ids = seq_arr;
        loss_mask = loss_arr;
        behavior_logprobs = lp_arr;
        rewards = r;
        layout_sha256 = sha256 (dumps_layout (layout_of q r));
      };
    })
