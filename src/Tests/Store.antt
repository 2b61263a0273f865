-- ===== src/Tests/Store.antt =====
-- The artifact store and the alignment on concrete inputs.
use grpo_guard.Align.{Alignment, apply_padding, fill, positions_from, reconstruct_alignment}
use grpo_guard.Align.Canonical.{IsCanonical, reconstruct_alignment-IsCanonical}
use grpo_guard.ArtifactStore.{ArtifactStore, artifact_ref, eq_bytes, get, put}
use grpo_guard.ArtifactStore.Content.{IsContentAddressed, get-put}
use grpo_guard.Prelude.{String, [], arith, eq_iff, false, none, refl, some, ◌∷◌, ◌≡◌}
use grpo_guard.Prelude.Dict.{lookup}
use grpo_guard.Prelude.Int.{pos}
use grpo_guard.Prelude.Result.{err, hash_mismatch_error, ok}
use grpo_guard.Schema.Refs.{ArtifactRef}
use grpo_guard.Schema.Seal.{Bytes}
use grpo_guard.Tests.Sample.{sample_artifact, sample_store, token_bytes, toy_sha256}

abbrev token_ref : ArtifactRef
token_ref = sample_artifact token_bytes "int32"

token_read : get toy_sha256 sample_store token_ref ≡ ok token_bytes
unfolding get lookup toy_sha256
token_read = refl

abbrev new_bytes : Bytes
new_bytes = 9 ∷ 9 ∷ []

abbrev new_ref : ArtifactRef
new_ref = artifact_ref toy_sha256 new_bytes "text/plain" "gen-1" none none

new_put : (put toy_sha256 sample_store new_bytes "text/plain" "gen-1" none none).0 ≡ ok new_ref
unfolding put lookup toy_sha256
new_put = refl

get-put_example :
    get toy_sha256 (put toy_sha256 sample_store new_bytes "text/plain" "gen-1" none none).1 new_ref
    ≡ ok new_bytes
get-put_example =
    get-put toy_sha256 sample_store new_bytes "text/plain" "gen-1" none none new_ref new_put

-- A digest under which any two byte strings collide, and a store that holds one of them.
abbrev constant_digest : Bytes → String
constant_digest bytes = "same"

abbrev full_store : ArtifactStore
full_store = record { blobs = ("same", 1 ∷ []) ∷ [] }

full_store-key : (k : String) (bytes : Bytes) → lookup k full_store.blobs ≡ some bytes → "same" ≡ k
unfolding lookup
full_store-key k bytes found = ground (arith, found, eq_iff "same" k)

full_store-IsContentAddressed : IsContentAddressed constant_digest full_store
full_store-IsContentAddressed = record { at_key = full_store-key }

full_put :
    (put constant_digest full_store (2 ∷ []) "text/plain" "gen-1" none none).0
    ≡ err hash_mismatch_error
unfolding put lookup eq_bytes
full_put = refl

-- Five tokens, of which two to four are the completion; the last is padding.
abbrev padded_alignment : Alignment
padded_alignment = record {
  total = 5;
  prompt_len = 2;
  completion_len = 2;
  completion_target_mask = 0 ∷ 0 ∷ 1 ∷ 1 ∷ 0 ∷ [];
  loss_mask = 0 ∷ 1 ∷ 1 ∷ 0 ∷ [];
  prediction_positions = pos 1 ∷ pos 2 ∷ [];
  padding_within_completion = false;
}

padded_run :
    reconstruct_alignment 5 (pos 2) (pos 4) ((pos 4 ∷ pos 5 ∷ []) ∷ []) (pos 0)
    ≡ ok padded_alignment
unfolding reconstruct_alignment apply_padding fill positions_from
padded_run = refl

reconstruct_alignment-IsCanonical_example :
    IsCanonical 5 (pos 2) (pos 4) ((pos 4 ∷ pos 5 ∷ []) ∷ []) padded_alignment
reconstruct_alignment-IsCanonical_example =
    reconstruct_alignment-IsCanonical 5 (pos 2) (pos 4) ((pos 4 ∷ pos 5 ∷ []) ∷ []) (pos 0)
      padded_alignment padded_run
