-- ===== src/ArtifactStore.antt =====
-- src/grpo_guard/store/artifact_store.py: blobs addressed by the digest of their bytes. The
-- `blobs` directory is a dict from file name to bytes; `put` writes by an atomic rename, so a
-- file is seen whole or not at all. `sha256` (canonical_json.sha256_bytes) is a parameter.
pub mod Content
use grpo_guard.Prelude.{
  Bool, List, Option, String, [], false, if◌then◌else◌, length, none, not, some, true, ℕ, ◌&&◌,
  ◌++◌, ◌==◌, ◌is◌, ◌∷◌,
}
use grpo_guard.Prelude.Dict.{Dict, insert, lookup}
use grpo_guard.Prelude.Result.{Result, err, file_not_found_error, hash_mismatch_error, ok}
use grpo_guard.Schema.Refs.{ArtifactRef}
use grpo_guard.Schema.Seal.{Bytes}
use Prim.Native.String.{◌++◌ as text_append}

pub record ArtifactStore : Type 0 where
  pub blobs : Dict Bytes

unfoldable pub eq_bytes : Bytes → Bytes → Bool
eq_bytes [] [] = true
eq_bytes [] (y ∷ ys) = false
eq_bytes (x ∷ xs) [] = false
eq_bytes (x ∷ xs) (y ∷ ys) = x == y && eq_bytes xs ys

module _ (sha256 : Bytes → String) where
  abbrev pub artifact_ref : Bytes → String → String → Option String → Option (List ℕ) → ArtifactRef
  artifact_ref bytes media_type producer dtype shape = record {
    uri = text_append "artifact://" (sha256 bytes);
    media_type = media_type;
    dtype = dtype;
    shape = shape;
    num_bytes = length bytes;
    sha256 = sha256 bytes;
    producer_event_id = producer;
  }

  -- A call of `put`, with the store that it leaves.
  unfoldable pub put :
      ArtifactStore
      → Bytes
      → String
      → String
      → Option String
      → Option (List ℕ)
      → Result ArtifactRef × ArtifactStore
  put s bytes media_type producer dtype shape = elim (lookup (sha256 bytes) s.blobs) [
    | some existing ↦
        if not (eq_bytes existing bytes)
        then (err hash_mismatch_error, s)
        else (ok (artifact_ref bytes media_type producer dtype shape), s)
    | none ↦ (
      ok (artifact_ref bytes media_type producer dtype shape),
      record s { blobs = insert (sha256 bytes) bytes s.blobs },
    )
  ]

  abbrev pub check_blob : ArtifactRef → Bytes → Result Bytes
  check_blob r bytes =
      if not (sha256 bytes is r.sha256)
      then err hash_mismatch_error
      else if not (length bytes == r.num_bytes)
      then err hash_mismatch_error
      else ok bytes

  unfoldable pub get : ArtifactStore → ArtifactRef → Result Bytes
  get s r = elim (lookup r.sha256 s.blobs) [
    | none ↦ err file_not_found_error
    | some bytes ↦ check_blob r bytes
  ]

  -- `get` raises only the two errors that `verify` catches.
  unfoldable pub verify : ArtifactStore → ArtifactRef → Bool
  verify s r = elim (get s r) [ ok _ ↦ true | err _ ↦ false ]
