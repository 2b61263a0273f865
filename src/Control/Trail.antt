-- ===== src/Control/Trail.antt =====
-- The events of one sync, as the reducer reads them back.
use grpo_guard.Control.{SyncCall}
use grpo_guard.Prelude.{
  All, Bool, Bool-cases, List, Option, String, [], arith, eq_refl, false, insert_by, is_empty,
  lt_key, none, refl, some, sort_by, true, ℕ, ◌++◌, ◌<◌, ◌∙◌, ◌∷◌, ◌≡◌,
}
use grpo_guard.Prelude.Int.{ℤ}
use grpo_guard.Prelude.Result.{Error, err, ok}
use grpo_guard.Reducer.{
  SyncFold, SyncState, SyncStateName, fold_sync, is_superseded, is_sync_terminal, next_sync_state,
  or_else, reduce_sync, start_sync, state_requested, state_started, sync_key, sync_new, sync_round,
  with_sync_id,
}
use grpo_guard.Schema.Events.{
  SyncEvent, SyncEventType, sync_requested, sync_started, sync_terminal_failure,
  sync_terminal_success,
}

-- An event of one attempt of a sync, as `_sync` writes it.
pub record IsPhase (call : SyncCall) (t : SyncEventType) (load_epoch : Option ℕ)
    (version : Option ℤ) (n : ℕ) (ev : SyncEvent) : Type 0 where
  pub type : ev.event_type ≡ t
  pub id : ev.sync_id ≡ call.sync_id
  pub attempt : ev.attempt ≡ call.attempt
  pub load : ev.observed_runtime_load_epoch ≡ load_epoch
  pub seen : ev.observed_policy_version ≡ version
  pub number : ev.lifecycle_seq ≡ n

-- Events with rising numbers are in the reducer's order.
insert_by-rising :
    (a : SyncEvent) (l : List SyncEvent)
    → All (λ e. a.lifecycle_seq < e.lifecycle_seq) l
    → insert_by sync_key a l ≡ a ∷ l
unfolding insert_by lt_key
insert_by-rising a [] h = refl
insert_by-rising a (e ∷ l) h = ground (arith, h.0)

abbrev pub Rising : List SyncEvent → Type 0
Rising [] = Unit
Rising (a ∷ l) = All (λ e. a.lifecycle_seq < e.lifecycle_seq) l × Rising l

sort_by-Rising : (l : List SyncEvent) → Rising l → sort_by sync_key l ≡ l
unfolding sort_by
sort_by-Rising [] h = refl
sort_by-Rising (a ∷ l) h = rw (sort_by-Rising l (h.1)) (insert_by-rising a l (h.0))

-- The state after the phases of an attempt that have been recorded so far.
abbrev pub state_after :
    String → SyncStateName → ℕ → Option ℕ → Option ℤ → Bool → List String → SyncState
state_after id name n load seen terminal events = record {
  sync_id = id;
  state = name;
  attempt = n;
  load_epoch = load;
  observed_policy_version = seen;
  terminal = terminal;
  events = events;
}

module _ (call : SyncCall) where
  -- The fold's variables in the middle of the attempt.
  abbrev pub fold_at : SyncStateName → Option ℕ → Option ℤ → List String → SyncFold
  fold_at name load seen events = record {
    folded = state_after call.sync_id name call.attempt load seen false events;
    terminal_reached = none;
    latest_attempt = call.attempt;
  }

  pub first_phase :
      (t : SyncEventType) (load : Option ℕ) (seen : Option ℤ) (n : ℕ) (ev : SyncEvent)
      → IsPhase call t load seen n ev
      → is_superseded t ≡ false
      → is_sync_terminal t ≡ false
      → sync_round ev (with_sync_id ev start_sync)
        ≡ ok (fold_at (next_sync_state t sync_new) load seen (ev.event_id ∷ []))
  unfolding sync_round
  first_phase t load seen n ev p plain going = ground (
    arith,
    p.id,
    p.type,
    p.attempt,
    p.load,
    p.seen,
    plain,
    going,
    eq_refl call.sync_id,
    Bool-cases (is_empty call.sync_id),
  )

  pub next_phase :
      (t : SyncEventType) (load : Option ℕ) (seen : Option ℤ) (n : ℕ) (ev : SyncEvent)
      (name : SyncStateName) (old_load : Option ℕ) (old_seen : Option ℤ) (events : List String)
      → IsPhase call t load seen n ev
      → is_superseded t ≡ false
      → is_sync_terminal t ≡ false
      → sync_round ev (with_sync_id ev (fold_at name old_load old_seen events))
        ≡ ok (
            fold_at
              (next_sync_state t name)
              (or_else load old_load)
              (or_else seen old_seen)
              (events ++ ev.event_id ∷ []))
  unfolding sync_round
  next_phase t load seen n ev name old_load old_seen events p plain going = ground (
    arith,
    p.id,
    p.type,
    p.attempt,
    p.load,
    p.seen,
    plain,
    going,
    eq_refl call.sync_id,
    Bool-cases (is_empty call.sync_id),
  )

  pub last_phase :
      (t : SyncEventType) (load : Option ℕ) (seen : Option ℤ) (n : ℕ) (ev : SyncEvent)
      (name : SyncStateName) (old_load : Option ℕ) (old_seen : Option ℤ) (events : List String)
      → IsPhase call t load seen n ev
      → is_superseded t ≡ false
      → is_sync_terminal t ≡ true
      → sync_round ev (with_sync_id ev (fold_at name old_load old_seen events))
        ≡ ok (record {
          folded =
              state_after call.sync_id
                (next_sync_state t name)
                call.attempt
                (or_else load old_load)
                (or_else seen old_seen)
                true
                (events ++ ev.event_id ∷ []);
          terminal_reached = some ev;
          latest_attempt = call.attempt;
        })
  unfolding sync_round
  last_phase t load seen n ev name old_load old_seen events p plain ends = ground (
    arith,
    p.id,
    p.type,
    p.attempt,
    p.load,
    p.seen,
    plain,
    ends,
    eq_refl call.sync_id,
    Bool-cases (is_empty call.sync_id),
  )

  -- One step of the fold.
  pub fold_step :
      (ev : SyncEvent) (evs : List SyncEvent) (f g : SyncFold)
      → sync_round ev (with_sync_id ev f) ≡ ok g
      → fold_sync (ev ∷ evs) f ≡ fold_sync evs g
  unfolding fold_sync
  fold_step ev evs f g h = rw (h, fold_sync) refl

  pub fold_end : (f : SyncFold) → fold_sync [] f ≡ ok f
  unfolding fold_sync
  fold_end f = refl

  pub reduce_from :
      (evs : List SyncEvent) (f : SyncFold)
      → Rising evs
      → fold_sync evs start_sync ≡ ok f
      → reduce_sync evs ≡ ok f.folded
  unfolding reduce_sync
  reduce_from evs f r h = rw (sort_by-Rising evs r, h, reduce_sync) refl

  pub fold_stops :
      (ev : SyncEvent) (evs : List SyncEvent) (f : SyncFold) (why : Error)
      → sync_round ev (with_sync_id ev f) ≡ err why
      → fold_sync (ev ∷ evs) f ≡ err why
  unfolding fold_sync
  fold_stops ev evs f why h = rw (h, fold_sync) refl

  pub reduce_stops :
      (evs : List SyncEvent) (why : Error)
      → Rising evs
      → fold_sync evs start_sync ≡ err why
      → reduce_sync evs ≡ err why
  unfolding reduce_sync
  reduce_stops evs why r h = rw (sort_by-Rising evs r, h, reduce_sync) refl

  pub fold_begun :
      (a b : SyncEvent) (rest : List SyncEvent)
      → IsPhase call sync_requested none none a.lifecycle_seq a
      → IsPhase call sync_started none none b.lifecycle_seq b
      → fold_sync (a ∷ b ∷ rest) start_sync
        ≡ fold_sync rest (fold_at state_started none none (a.event_id ∷ b.event_id ∷ []))
  unfolding is_superseded is_sync_terminal next_sync_state sync_terminal_success
      sync_terminal_failure
  fold_begun a b rest pa pb =
      fold_step a (b ∷ rest) _ _
        (first_phase sync_requested none none a.lifecycle_seq a pa refl refl)
      ∙ fold_step b rest _ _ (
          next_phase sync_started none none b.lifecycle_seq b state_requested none none
            (a.event_id ∷ []) pb refl refl)

  -- The fold's variables after a phase that ends the attempt.
  abbrev pub ended : SyncStateName → Option ℕ → Option ℤ → List String → SyncEvent → SyncFold
  ended name load seen events ev = record {
    folded = state_after call.sync_id name call.attempt load seen true events;
    terminal_reached = some ev;
    latest_attempt = call.attempt;
  }
