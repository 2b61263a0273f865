-- ===== src/Tests/Adapter.antt =====
-- The update adapter on the sample handle, and a promotion over a checkpoint of two files.
use grpo_guard.Tests.Handles.{sample_handle, trusting}
use grpo_guard.ArtifactStore.{get, verify}
use grpo_guard.Guarded.Adapter.{AdapterState, update, update_twice, verify_artifacts}
use grpo_guard.Guarded.Promotion.{Directories, replaced}
use grpo_guard.Guarded.Step.{eq_shape, handle, mem_id, reward_mismatch}
use grpo_guard.Prelude.{List, [], none, refl, some, ◌∷◌, ◌≡◌}
use grpo_guard.Prelude.Dict.{lookup}
use grpo_guard.Prelude.Result.{Error, err, ok}
use grpo_guard.Tests.Sample.{sample_store, toy_sha256}

abbrev no_nonces : AdapterState
no_nonces = record { consumed_nonces = []; used_handles = [] }

sample_updates :
    (update toy_sha256 sample_store (some trusting) (handle sample_handle) no_nonces).0 ≡ ok tt
unfolding update verify_artifacts verify get lookup toy_sha256 reward_mismatch eq_shape mem_id
sample_updates = refl

update_twice_example :
    let s' = (update toy_sha256 sample_store (some trusting) (handle sample_handle) no_nonces).1 in
    (e : Error) × (update toy_sha256 sample_store (some trusting) (handle sample_handle) s'
      ≡ (err e, s'))
update_twice_example =
    update_twice toy_sha256 sample_store (some trusting) sample_handle sample_handle no_nonces
      sample_updates refl

abbrev two_checkpoints : Directories
two_checkpoints = record {
  tmp_dir = some ("new-a" ∷ "new-b" ∷ []);
  final_dir = some ("old-a" ∷ "old-b" ∷ []);
}

abbrev promotion_run : List Directories
promotion_run =
    (record { tmp_dir = two_checkpoints.tmp_dir; final_dir = some ("old-b" ∷ []) })
    ∷ (record { tmp_dir = two_checkpoints.tmp_dir; final_dir = some [] })
    ∷ (record { tmp_dir = two_checkpoints.tmp_dir; final_dir = none })
    ∷ replaced ("new-a" ∷ "new-b" ∷ [])
    ∷ []
