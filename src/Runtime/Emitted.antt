-- ===== src/Runtime/Emitted.antt =====
-- A generation that was emitted: what the store and the log have of it.
use grpo_guard.AppendLog.Writes.{append-get_event}
use grpo_guard.AppendLog.{LogFiles, append, append_provenance_edge, edges_of, find_edge, get_event}
use grpo_guard.ArtifactStore.{get}
use grpo_guard.Prelude.{
  List, Option, Option-cases, String, [], all, ap, arith, inl, inr, length, none, not, refl, some,
  subst, sym, ℕ, ◌∙◌, ◌∷◌, ◌≡◌,
}
use grpo_guard.Prelude.Dict.{lookup}
use grpo_guard.Prelude.Int.{pos, ℤ}
use grpo_guard.Prelude.Result.{Result, Result-cases, err, key_error, ok, overflow_error}
use grpo_guard.Runtime.{
  Runtime, Sampled, TokenRefs, emit_generation, emit_numbered, fits_int32, gen_id, generation_draft,
  log_edge, log_edges, log_generation, log_sampled, next_number, put_tokens, refs_of,
  sealed_generation, tokens_of,
}
use grpo_guard.Runtime.Stored.{TokensRead, TokensRead-Keeps, put_tokens-Read}
use grpo_guard.Schema.Events.{Event, GenerationEvent, base_of, generation}
use grpo_guard.Schema.Refs.{ArtifactRef}
use grpo_guard.Schema.Seal.{Bytes}
use grpo_guard.Prelude.Action.{
  Preserves, bind-Preserves, bind-runs, pure, raise_when, returned, ◌>>=◌,
}

module _ (sha256 : Bytes → String) (dumps : Event → Bytes) (now : String) where
  pub record Emitted (a : Sampled) (ev : GenerationEvent) (after : Runtime) : Type 0 where
    pub refs : TokenRefs
    pub arrays : TokensRead sha256 a after refs
    pub sequence : ev.sequence_token_ids ≡ refs.seq_ref
    pub target : ev.completion_target_mask ≡ refs.target_ref
    pub loss : ev.loss_mask ≡ refs.loss_ref
    pub logprobs : ev.service_behavior_logprobs ≡ refs.lp_ref
    pub span : ev.completion_span ≡ (pos (length a.prompt_ids), pos (length (tokens_of a)))
    pub prompt : ev.prompt_span ≡ (pos 0, pos (length a.prompt_ids))
    pub padding : ev.padding_spans ≡ []
    pub found : Event
    pub logged : get_event after.files ev.base.event_id ≡ ok found
    pub digest : (base_of found).event_sha256 ≡ ev.base.event_sha256

  edge-leaves :
      (id artifact : String) (d : LogFiles)
      → (append_provenance_edge id artifact "producer" d).1.event_files ≡ d.event_files
  unfolding append_provenance_edge
  edge-leaves id artifact d = ground (arith, Option-cases (find_edge artifact (edges_of id d)))

  -- The edges leave the store and the event files.
  record Leaves (s t : Runtime) : Type 0 where
    store : t.store ≡ s.store
    events : t.files.event_files ≡ s.files.event_files

  log_edges-Leaves : (id : String) (rs : List ArtifactRef) → Preserves Leaves (log_edges id rs)
  unfolding log_edges log_edge
  log_edges-Leaves id [] = λ s. record { store = refl; events = refl }
  log_edges-Leaves id (r ∷ rs) =
      bind-Preserves Leaves (log_edge id r) (λ _. log_edges id rs)
        (λ u v w k l. record { store = l.store ∙ k.store; events = l.events ∙ k.events })
        (λ s. record { store = refl; events = edge-leaves id r.sha256 s.files })
        (λ _. log_edges-Leaves id rs)

  log_generation-found :
      (ev : GenerationEvent) (required : Option ℤ) (s t : Runtime)
      → log_generation ev required s ≡ (ok tt, t)
      → (t.store ≡ s.store)
        × ((found : Event) × (get_event t.files ev.base.event_id ≡ ok found)
            × ((base_of found).event_sha256 ≡ ev.base.event_sha256))
  unfolding log_generation
  log_generation-found ev required s t h =
      let there = ap (λ (x : Result (Unit {0}) × Runtime). x.1) h in
      elim (Result-cases (append s.log (generation ev) required s.files).0) [
        | inl (w, e) ↦
            let (found, at, same, rest) =
              append-get_event s.log (generation ev) w required s.files e in
            (
              sym (ap (λ (x : Runtime). x.store) there),
              (
                found,
                subst (λ (x : Runtime). get_event x.files ev.base.event_id ≡ ok found) there at,
                same,
              ),
            )
        | inr (why, e) ↦ absurd (ground (arith, e, h))
      ]

  get_event-files :
      (d e : LogFiles) (id : String) (found : Event)
      → e.event_files ≡ d.event_files
      → get_event d id ≡ ok found
      → get_event e id ≡ ok found
  unfolding get_event
  get_event-files d e id found same h =
      subst
        (λ files.
          Path (Result Event) (elim (lookup id files) [ none ↦ err key_error | some ev ↦ ok ev ])
            (ok found))
        (sym same) h

  log_sampled-Emitted :
      (a : Sampled) (n : ℕ) (refs : TokenRefs) (s after : Runtime) (ev : GenerationEvent)
      → TokensRead sha256 a s refs
      → log_sampled sha256 dumps now a n refs s ≡ (ok ev, after)
      → Emitted a ev after
  unfolding log_sampled
  log_sampled-Emitted a n refs s after ev arrays h =
      let draft = sealed_generation sha256 dumps now (generation_draft now s a n refs) in
      let edges = log_edges draft.base.event_id (refs_of refs) in
      let (x, u, e1, h1) =
        bind-runs (log_generation draft a.required_epoch) (λ _. edges >>= λ _. pure draft) s after
          ev h in
      let (y, v, e2, h2) = bind-runs edges (λ _. pure draft) u after ev h1 in
      let (same, there) = returned h2 in
      let (kept, (found, at, digest)) = log_generation-found draft a.required_epoch s u e1 in
      let left =
        subst (Leaves u) (ap (λ (r : Result (Unit {0}) × Runtime). r.1) e2)
          (log_edges-Leaves draft.base.event_id (refs_of refs) u) in
      let store : v.store ≡ s.store = left.store ∙ kept in
      subst (λ w. Emitted a ev w) there
        (subst (λ d. Emitted a d v) same
          (record {
            refs = refs;
            arrays =
                TokensRead-Keeps sha256 a s v refs
                  (λ r bytes read. subst (λ st. get sha256 st r ≡ ok bytes) (sym store) read)
                  arrays;
            sequence = refl;
            target = refl;
            loss = refl;
            logprobs = refl;
            span = refl;
            prompt = refl;
            padding = refl;
            found = found;
            logged = get_event-files u.files v.files draft.base.event_id found left.events at;
            digest = digest;
          }))

  -- If the runtime adapter returns a generation event, its token ids, masks and logprobs can be
  -- read from the store under the event's references, there is a logprob for every completion
  -- token where there are any, and the log has an event under its id with its digest.
  pub emit_generation-Emitted :
      (a : Sampled) (s after : Runtime) (ev : GenerationEvent)
      → emit_generation sha256 dumps now a s ≡ (ok ev, after)
      → Emitted a ev after
  unfolding emit_generation emit_numbered
  emit_generation-Emitted a s after ev h =
      let (x, u, e1, h1) =
        bind-runs (raise_when (not (all fits_int32 (tokens_of a))) overflow_error)
          (λ _. next_number >>= λ n. emit_numbered sha256 dumps now a n) s after ev h in
      let (n, v, e2, h2) =
        bind-runs next_number (λ n. emit_numbered sha256 dumps now a n) u after ev h1 in
      let (refs, w, e3, h3) =
        bind-runs (put_tokens sha256 a (gen_id a v.run_id n))
          (λ refs. log_sampled sha256 dumps now a n refs) v after ev h2 in
      log_sampled-Emitted a n refs w after ev
        (put_tokens-Read sha256 a (gen_id a v.run_id n) v w refs e3) h3
