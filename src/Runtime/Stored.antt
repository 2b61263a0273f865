-- ===== src/Runtime/Stored.antt =====
-- What the store of the runtime adapter has after the puts.
use grpo_guard.ArtifactStore.{get, put}
use grpo_guard.ArtifactStore.Content.{get-put, get-put_other}
use grpo_guard.Prelude.{
  Bool-cases, List, Option, Option-cases, String, [], ap, arith, inl, inr, length, none, refl, some,
  subst, sym, ℕ, ◌-◌, ◌==◌, ◌∙◌, ◌∷◌, ◌≡◌, ◌⊎◌,
}
use grpo_guard.Prelude.Result.{Result, err, ok, value_error}
use grpo_guard.Prelude.Words.{bytes_32, bytes_8}
use grpo_guard.Runtime.{
  Runtime, Sampled, TokenRefs, loss_mask_of, put_array, put_logprobs, put_tokens, target_mask,
  tokens_of,
}
use grpo_guard.Schema.Refs.{ArtifactRef}
use grpo_guard.Schema.Seal.{Bytes}
use grpo_guard.Prelude.Action.{Action, Preserves, bind-runs, pure, returned, ◌>>=◌}

module _ (sha256 : Bytes → String) where
  abbrev pub Reads : Runtime → ArtifactRef → Bytes → Type 0
  Reads s r bytes = get sha256 s.store r ≡ ok bytes

  -- What could be read before can be read after.
  abbrev pub Keeps : Runtime → Runtime → Type 0
  Keeps s t = (r : ArtifactRef) (bytes : Bytes) → Reads s r bytes → Reads t r bytes

  pub Keeps-trans : (u v w : Runtime) → Keeps u v → Keeps v w → Keeps u w
  Keeps-trans u v w k l = λ r bytes e. l r bytes (k r bytes e)

  put_array-Keeps :
      (bytes : Bytes) (id dtype : String) (n : ℕ)
      → Preserves Keeps (put_array sha256 bytes id dtype n)
  unfolding put_array
  put_array-Keeps bytes id dtype n s r old e =
      get-put_other sha256 s.store bytes old "application/octet-stream" id (some dtype)
        (some (n ∷ [])) r e

  put_array-Reads :
      (bytes : Bytes) (id dtype : String) (n : ℕ) (s t : Runtime) (r : ArtifactRef)
      → put_array sha256 bytes id dtype n s ≡ (ok r, t)
      → Reads t r bytes × Keeps s t
  unfolding put_array
  put_array-Reads bytes id dtype n s t r h =
      let there = ap (λ (x : Result ArtifactRef × Runtime). x.1) h in
      (
        subst (λ u. Reads u r bytes) there
            (get-put sha256 s.store bytes "application/octet-stream" id (some dtype) (some (n ∷ []))
              r (ap (λ (x : Result ArtifactRef × Runtime). x.0) h)),
        subst (λ u. Keeps s u) there (put_array-Keeps bytes id dtype n s),
      )

  -- The logprobs, if the server gave any.
  pub data LogprobsRead (a : Sampled) (s : Runtime) : Option ArtifactRef → Type 0 where
    no_logprobs : a.service_logprobs ≡ none → LogprobsRead a s none
    logprobs_read :
        (lp : List ℕ) (r : ArtifactRef)
        → a.service_logprobs ≡ some lp
        → length lp ≡ length a.completion_ids
        → Reads s r (bytes_32 lp)
        → LogprobsRead a s (some r)

  -- The four arrays of a generation.
  pub record TokensRead (a : Sampled) (s : Runtime) (refs : TokenRefs) : Type 0 where
    pub sequence : Reads s refs.seq_ref (bytes_32 (tokens_of a))
    pub target : Reads s refs.target_ref (bytes_8 (target_mask a))
    pub loss : Reads s refs.loss_ref (bytes_8 (loss_mask_of a))
    pub logprobs : LogprobsRead a s refs.lp_ref

  LogprobsRead-Keeps :
      (a : Sampled) (s t : Runtime) (o : Option ArtifactRef)
      → Keeps s t
      → LogprobsRead a s o
      → LogprobsRead a t o
  LogprobsRead-Keeps a s t o k (no_logprobs e) = no_logprobs e
  LogprobsRead-Keeps a s t o k (logprobs_read lp r e n read) =
      logprobs_read lp r e n (k r (bytes_32 lp) read)

  pub TokensRead-Keeps :
      (a : Sampled) (s t : Runtime) (refs : TokenRefs)
      → Keeps s t
      → TokensRead a s refs
      → TokensRead a t refs
  TokensRead-Keeps a s t refs k d = record {
    sequence = k refs.seq_ref (bytes_32 (tokens_of a)) d.sequence;
    target = k refs.target_ref (bytes_8 (target_mask a)) d.target;
    loss = k refs.loss_ref (bytes_8 (loss_mask_of a)) d.loss;
    logprobs = LogprobsRead-Keeps a s t refs.lp_ref k d.logprobs;
  }

  no_logprobs-run :
      (a : Sampled) (id : String) (s : Runtime)
      → a.service_logprobs ≡ none
      → put_logprobs sha256 a id s ≡ (ok none, s)
  unfolding put_logprobs
  no_logprobs-run a id s e = rw (e, put_logprobs) refl

  abbrev put_row : Sampled → String → List ℕ → Action Runtime (Option ArtifactRef)
  put_row a id lp =
      put_array sha256 (bytes_32 lp) id "float32" (length a.completion_ids) >>= λ r. pure (some r)

  -- A row of logprobs is refused, or it has the completion's length and is put.
  logprobs-run :
      (a : Sampled) (id : String) (s : Runtime) (lp : List ℕ)
      → a.service_logprobs ≡ some lp
      → ((length lp ≡ length a.completion_ids) × (put_logprobs sha256 a id s ≡ put_row a id lp s))
        ⊎ (put_logprobs sha256 a id s ≡ (err value_error, s))
  unfolding put_logprobs
  logprobs-run a id s lp e = elim (Bool-cases (length lp == length a.completion_ids)) [
    | inl same ↦ inl (ground (arith, same), rw (e, put_logprobs, same) refl)
    | inr differ ↦ inr (rw (e, put_logprobs, differ) refl)
  ]

  put_logprobs-Read :
      (a : Sampled) (id : String) (s t : Runtime) (o : Option ArtifactRef)
      → put_logprobs sha256 a id s ≡ (ok o, t)
      → LogprobsRead a t o × Keeps s t
  put_logprobs-Read a id s t o h = elim (Option-cases a.service_logprobs) [
    | inl e ↦
        let (given, there) = returned (sym (no_logprobs-run a id s e) ∙ h) in
        (
          subst (LogprobsRead a t) given (no_logprobs e),
          subst (Keeps s) there (λ r bytes read. read),
        )
    | inr (lp, e) ↦ elim (logprobs-run a id s lp e) [
      | inl (same, run) ↦
          let (r, u, put, end) =
            bind-runs (put_array sha256 (bytes_32 lp) id "float32" (length a.completion_ids))
              (λ r. pure (some r)) s t o (sym run ∙ h) in
          let (given, there) = returned end in
          let (read, kept) =
            put_array-Reads (bytes_32 lp) id "float32" (length a.completion_ids) s u r put in
          (
            subst (LogprobsRead a t) given
                (logprobs_read lp r e same (subst (λ v. Reads v r (bytes_32 lp)) there read)),
            subst (Keeps s) there kept,
          )
      | inr run ↦
          let raised : err value_error ≡ ok o =
            ap (λ (x : Result (Option ArtifactRef) × Runtime). x.0) (sym run ∙ h) in
          absurd (cc)
    ]
  ]

  abbrev all_refs : ArtifactRef → ArtifactRef → ArtifactRef → Option ArtifactRef → TokenRefs
  all_refs q m l o = record { seq_ref = q; target_ref = m; loss_ref = l; lp_ref = o }

  pub put_tokens-Read :
      (a : Sampled) (id : String) (s t : Runtime) (refs : TokenRefs)
      → put_tokens sha256 a id s ≡ (ok refs, t)
      → TokensRead a t refs
  unfolding put_tokens
  put_tokens-Read a id s t refs h =
      let one = put_array sha256 (bytes_32 (tokens_of a)) id "int32" (length (tokens_of a)) in
      let two = put_array sha256 (bytes_8 (target_mask a)) id "int8" (length (tokens_of a)) in
      let three =
        put_array sha256 (bytes_8 (loss_mask_of a)) id "int8" (length (tokens_of a) - 1) in
      let four = put_logprobs sha256 a id in
      let last = λ (q m l : ArtifactRef). four >>= λ o. pure (all_refs q m l o) in
      let (q, u, e1, h1) = bind-runs one (λ q. two >>= λ m. three >>= λ l. last q m l) s t refs h in
      let (m, v, e2, h2) = bind-runs two (λ m. three >>= λ l. last q m l) u t refs h1 in
      let (l, w, e3, h3) = bind-runs three (λ l. last q m l) v t refs h2 in
      let (o, x, e4, h4) = bind-runs four (λ o. pure (all_refs q m l o)) w t refs h3 in
      let (given, there) = returned h4 in
      let (r1, k1) = put_array-Reads _ _ _ _ s u q e1 in
      let (r2, k2) = put_array-Reads _ _ _ _ u v m e2 in
      let (r3, k3) = put_array-Reads _ _ _ _ v w l e3 in
      let (r4, k4) = put_logprobs-Read a id w x o e4 in
      subst (λ y. TokensRead a y refs) there
        (subst (TokensRead a x) given (record {
          sequence = k4 q _ (k3 q _ (k2 q _ r1));
          target = k4 m _ (k3 m _ r2);
          loss = k4 l _ r3;
          logprobs = r4;
        }))
