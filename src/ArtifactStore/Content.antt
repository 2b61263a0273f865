-- ===== src/ArtifactStore/Content.antt =====
-- Content addressing: what a successful `get` says of the bytes, and what `put` preserves.
use grpo_guard.ArtifactStore.{ArtifactStore, eq_bytes, get, put, verify}
use grpo_guard.Prelude.{
  List, Option, Option-cases, String, [], arith, eq_iff, inl, inr, length, refl, some, true, ℕ, ◌∷◌,
  ◌≡◌, ◌≢◌,
}
use grpo_guard.Prelude.Dict.{lookup, lookup-insert}
use grpo_guard.Prelude.Result.{Error, err, ok}
use grpo_guard.Schema.Refs.{ArtifactRef}
use grpo_guard.Schema.Seal.{Bytes}

pub eq_bytes_sound : (xs ys : Bytes) → eq_bytes xs ys ≡ true → xs ≡ ys
unfolding eq_bytes
eq_bytes_sound [] [] h = refl
eq_bytes_sound [] (y ∷ ys) h = cc
eq_bytes_sound (x ∷ xs) [] h = cc
eq_bytes_sound (x ∷ xs) (y ∷ ys) h = ground (arith, eq_bytes_sound xs ys)

pub eq_bytes_refl : (xs : Bytes) → eq_bytes xs xs ≡ true
unfolding eq_bytes
eq_bytes_refl [] = refl
eq_bytes_refl (x ∷ xs) = ground (arith, eq_bytes_refl xs)

module _ (sha256 : Bytes → String) where
  -- Bytes that `get` returns have the digest and the size that the reference names.
  pub get_sound :
      (s : ArtifactStore) (r : ArtifactRef) (bytes : Bytes)
      → get sha256 s r ≡ ok bytes
      → (sha256 bytes ≡ r.sha256) × (length bytes ≡ r.num_bytes)
  unfolding get
  get_sound s r bytes h = elim (Option-cases (lookup r.sha256 s.blobs)) [
    | inl missing ↦ ground arith
    | inr (found, e) ↦ ground (arith, eq_iff (sha256 found) r.sha256)
  ]

  -- An artifact that verifies can be read.
  pub verify_iff :
      (s : ArtifactStore) (r : ArtifactRef)
      → verify sha256 s r ≡ true
      → (bytes : Bytes) × (get sha256 s r ≡ ok bytes)
  unfolding verify
  verify_iff s r h = ground arith

  -- What `put` has stored, `get` returns through the reference that `put` returned.
  pub get-put :
      (s : ArtifactStore) (bytes : Bytes) (media_type producer : String) (dtype : Option String)
      (shape : Option (List ℕ)) (r : ArtifactRef)
      → (put sha256 s bytes media_type producer dtype shape).0 ≡ ok r
      → get sha256 (put sha256 s bytes media_type producer dtype shape).1 r ≡ ok bytes
  unfolding put get
  get-put s bytes media_type producer dtype shape r h =
      elim (Option-cases (lookup (sha256 bytes) s.blobs)) [
        | inl missing ↦ ground (
          arith,
          lookup-insert (sha256 bytes) (sha256 bytes) bytes s.blobs,
          eq_iff (sha256 bytes) (sha256 bytes),
        )
        | inr (found, e) ↦
            ground (arith, eq_bytes_sound found bytes, eq_iff (sha256 bytes) (sha256 bytes))
      ]

  -- No call of `put`, failing or not, changes what an earlier reference reads.
  pub get-put_other :
      (s : ArtifactStore) (bytes old : Bytes) (media_type producer : String) (dtype : Option String)
      (shape : Option (List ℕ)) (r : ArtifactRef)
      → get sha256 s r ≡ ok old
      → get sha256 (put sha256 s bytes media_type producer dtype shape).1 r ≡ ok old
  unfolding put get
  get-put_other s bytes old media_type producer dtype shape r h =
      elim (Option-cases (lookup (sha256 bytes) s.blobs)) [
        | inl missing ↦ ground (
          arith,
          lookup-insert (sha256 bytes) r.sha256 bytes s.blobs,
          eq_iff (sha256 bytes) r.sha256,
        )
        | inr (found, e) ↦ ground arith
      ]

-- Every blob lies under the digest of its bytes.
pub record IsContentAddressed (sha256 : Bytes → String) (s : ArtifactStore) : Type 0 where
  pub at_key : (k : String) (bytes : Bytes) → lookup k s.blobs ≡ some bytes → sha256 bytes ≡ k

module _ (sha256 : Bytes → String) where
  -- `put` keeps every blob under the digest of its bytes.
  pub put-IsContentAddressed :
      (s : ArtifactStore) (bytes : Bytes) (media_type producer : String) (dtype : Option String)
      (shape : Option (List ℕ))
      → IsContentAddressed sha256 s
      → IsContentAddressed sha256 (put sha256 s bytes media_type producer dtype shape).1
  unfolding put
  put-IsContentAddressed s bytes media_type producer dtype shape h = record {
    at_key = λ k found. ground (
      arith,
      lookup-insert (sha256 bytes) k bytes s.blobs,
      eq_iff (sha256 bytes) k,
      h.at_key k found,
    );
  }

  -- In such a store `put` fails only on two different byte strings with one digest.
  pub put_collision :
      (s : ArtifactStore) (bytes : Bytes) (media_type producer : String) (dtype : Option String)
      (shape : Option (List ℕ)) (e : Error)
      → IsContentAddressed sha256 s
      → (put sha256 s bytes media_type producer dtype shape).0 ≡ err e
      → (other : Bytes) × (other ≢ bytes) × (sha256 other ≡ sha256 bytes)
  unfolding put
  put_collision s bytes media_type producer dtype shape e h failed =
      elim (Option-cases (lookup (sha256 bytes) s.blobs)) [
        | inl missing ↦ absurd (ground arith)
        | inr (found, eq) ↦
            (found, (λ same. ground (arith, eq_bytes_refl bytes)), h.at_key (sha256 bytes) found eq)
      ]
