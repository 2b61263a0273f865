-- ===== src/Reducer/Conflict.antt =====
-- What a reduction that returned has seen: the last attempt, and one terminal type in it.
use grpo_guard.Prelude.{
  All, Bool, Bool-cases, List, Option, [], arith, inl, inr, insert_by, is_empty, leb, lt_key, ltb,
  none, not, refl, some, sort_by, subst, true, ℕ, ◌&&◌, ◌==◌, ◌||◌, ◌∷◌, ◌≡◌,
}
use grpo_guard.Prelude.Result.{Result-cases, ok}
use grpo_guard.Reducer.{
  SyncFold, SyncState, fold_sync, is_superseded, is_sync_terminal, reduce_sync, same_sync_type,
  start_sync, sync_key, sync_round, with_sync_id,
}
use grpo_guard.Schema.Events.{SyncEvent, SyncEventType, canary_passed}

-- The event is superseded, or of an earlier attempt, or not terminal, or of the terminal's type.
abbrev pub covered : Option SyncEvent → ℕ → SyncEvent → Bool
covered none latest ev =
    is_superseded ev.event_type
    || (ltb ev.attempt latest || (not (is_sync_terminal ev.event_type) && ev.attempt == latest))
covered (some t) latest ev =
    is_superseded ev.event_type
    || (ltb ev.attempt latest
        || ((not (is_sync_terminal ev.event_type) && ev.attempt == latest)
            || (ev.attempt == latest
                && (t.attempt == latest && same_sync_type ev.event_type t.event_type))))

same_sync_type_refl : (t : SyncEventType) → same_sync_type t t ≡ true
unfolding same_sync_type
same_sync_type_refl canary_passed = refl
same_sync_type_refl _ = refl

round_covers :
    (ev : SyncEvent) (f g : SyncFold)
    → sync_round ev f ≡ ok g
    → covered g.terminal_reached g.latest_attempt ev ≡ true
unfolding sync_round
round_covers ev f g h = ground (arith, h, same_sync_type_refl ev.event_type)

round_keeps :
    (ev seen : SyncEvent) (f g : SyncFold)
    → sync_round ev f ≡ ok g
    → covered f.terminal_reached f.latest_attempt seen ≡ true
    → covered g.terminal_reached g.latest_attempt seen ≡ true
unfolding sync_round
round_keeps ev seen f g h c = ground (arith, h, c)

abbrev terminal_attempt : Option SyncEvent → ℕ
terminal_attempt none = 0
terminal_attempt (some t) = t.attempt

-- The variables of the loop agree.
abbrev agree : SyncFold → Bool
agree f =
    f.folded.attempt == f.latest_attempt
    && leb (terminal_attempt f.terminal_reached) f.latest_attempt

round_agrees :
    (ev : SyncEvent) (f g : SyncFold) → sync_round ev f ≡ ok g → agree f ≡ true → agree g ≡ true
unfolding sync_round
round_agrees ev f g h c = ground (arith, h, c)

id_keeps :
    (ev seen : SyncEvent) (f : SyncFold)
    → covered f.terminal_reached f.latest_attempt seen ≡ true
    → covered (with_sync_id ev f).terminal_reached (with_sync_id ev f).latest_attempt seen ≡ true
id_keeps ev seen f c = elim (Bool-cases (is_empty f.folded.sync_id)) [
  | inl unset ↦ rw unset c
  | inr set ↦ rw set c
]

id_agrees : (ev : SyncEvent) (f : SyncFold) → agree f ≡ true → agree (with_sync_id ev f) ≡ true
id_agrees ev f a = elim (Bool-cases (is_empty f.folded.sync_id)) [
  | inl unset ↦ rw unset a
  | inr set ↦ rw set a
]

fold_keeps :
    (evs : List SyncEvent) (seen : SyncEvent) (f g : SyncFold)
    → fold_sync evs f ≡ ok g
    → covered f.terminal_reached f.latest_attempt seen ≡ true
    → covered g.terminal_reached g.latest_attempt seen ≡ true
unfolding fold_sync
fold_keeps [] seen f g h c =
    let same : f ≡ g = ground (arith, h) in
    subst (λ x. covered x.terminal_reached x.latest_attempt seen ≡ true) same c
fold_keeps (ev ∷ evs) seen f g h c = elim (Result-cases (sync_round ev (with_sync_id ev f))) [
  | inr (e, raised) ↦ ground (arith, h, raised)
  | inl (next, o) ↦
      fold_keeps evs seen next g (ground (arith, h, o))
        (round_keeps ev seen (with_sync_id ev f) next o (id_keeps ev seen f c))
]

fold_agrees :
    (evs : List SyncEvent) (f g : SyncFold)
    → fold_sync evs f ≡ ok g
    → agree f ≡ true
    → agree g ≡ true
unfolding fold_sync
fold_agrees [] f g h a = let same : f ≡ g = ground (arith, h) in subst (λ x. agree x ≡ true) same a
fold_agrees (ev ∷ evs) f g h a = elim (Result-cases (sync_round ev (with_sync_id ev f))) [
  | inr (e, raised) ↦ ground (arith, h, raised)
  | inl (next, o) ↦
      fold_agrees evs next g (ground (arith, h, o))
        (round_agrees ev (with_sync_id ev f) next o (id_agrees ev f a))
]

fold_covers :
    (evs : List SyncEvent) (f g : SyncFold)
    → fold_sync evs f ≡ ok g
    → All (λ ev. covered g.terminal_reached g.latest_attempt ev ≡ true) evs
unfolding fold_sync
fold_covers [] f g h = tt
fold_covers (ev ∷ evs) f g h = elim (Result-cases (sync_round ev (with_sync_id ev f))) [
  | inr (e, raised) ↦ ground (arith, h, raised)
  | inl (next, o) ↦
      let rest : fold_sync evs next ≡ ok g = ground (arith, h, o) in
      (
        fold_keeps evs ev next g rest (round_covers ev (with_sync_id ev f) next o),
        fold_covers evs next g rest,
      )
]

from_inserted :
    (P : SyncEvent → Type 0) (x : SyncEvent) (l : List SyncEvent)
    → All P (insert_by sync_key x l)
    → P x × All P l
unfolding insert_by
from_inserted P x [] h = h
from_inserted P x (y ∷ l) h = elim (Bool-cases (lt_key (sync_key y) (sync_key x))) [
  | inl below ↦
      let h' = rw (insert_by, below) at h in
      let (p, ps) = from_inserted P x l (h'.1) in (p, (h'.0, ps))
  | inr above ↦ rw (insert_by, above) at h
]

from_sorted : (P : SyncEvent → Type 0) (l : List SyncEvent) → All P (sort_by sync_key l) → All P l
unfolding sort_by
from_sorted P [] h = tt
from_sorted P (x ∷ l) h =
    let (p, ps) = from_inserted P x (sort_by sync_key l) h in (p, from_sorted P l ps)

-- If a sync reduces, then every one of its events is superseded, or belongs to an attempt before
-- the state's, or belongs to the state's attempt; and of the last, all that are terminal have one
-- and the same type: a contradiction between two terminal events of the last attempt is an error.
pub reduce_sync-settles :
    (evs : List SyncEvent) (s : SyncState)
    → reduce_sync evs ≡ ok s
    → (t : Option SyncEvent) × All (λ ev. covered t s.attempt ev ≡ true) evs
unfolding reduce_sync
reduce_sync-settles evs s h = elim (Result-cases (fold_sync (sort_by sync_key evs) start_sync)) [
  | inr (e, raised) ↦ ground (arith, h, raised)
  | inl (f, o) ↦
      let same : f.folded ≡ s = ground (arith, h, o) in
      let a = fold_agrees (sort_by sync_key evs) start_sync f o refl in
      let n : f.latest_attempt ≡ s.attempt = ground (arith, same, a) in
      (
        f.terminal_reached,
        subst (λ k. All (λ ev. covered f.terminal_reached k ev ≡ true) evs) n
            (from_sorted (λ ev. covered f.terminal_reached f.latest_attempt ev ≡ true) evs
              (fold_covers (sort_by sync_key evs) start_sync f o)),
      )
]
