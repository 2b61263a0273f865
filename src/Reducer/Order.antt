-- ===== src/Reducer/Order.antt =====
-- The reducers on events that come from one log, where an event's id determines the event.
use grpo_guard.Prelude.{All, List, Option, String, ap, arith, refl, some, sort_by-Perm, ◌≡◌}
use grpo_guard.Reducer.{reduce_sync, sync_key}
use grpo_guard.Reducer.Update.{reduce_update, update_key}
use grpo_guard.Schema.Events.{SyncEvent, UpdateEvent}
use mathlib.Core.List.{Permᴰ}

-- The event is the one that the log has under its id.
abbrev pub LoggedSync : (String → Option SyncEvent) → SyncEvent → Type 0
LoggedSync log ev = log ev.event_id ≡ some ev

abbrev pub LoggedUpdate : (String → Option UpdateEvent) → UpdateEvent → Type 0
LoggedUpdate log ev = log ev.event_id ≡ some ev

-- The state of a sync does not depend on the order in which the events of one log are given.
pub reduce_sync-Perm :
    (log : String → Option SyncEvent) (evs shuffled : List SyncEvent)
    → All (LoggedSync log) evs
    → Permᴰ evs shuffled
    → reduce_sync evs ≡ reduce_sync shuffled
unfolding reduce_sync
reduce_sync-Perm log evs shuffled h p =
    rw
      (
        reduce_sync,
        (sort_by-Perm sync_key (LoggedSync log)
            (λ x y a b e. ground (arith, a, b, ap (λ k. log (k.1)) e)) p h).0,
      )
      refl

-- The state of an update does not depend on the order in which the events of one log are given.
pub reduce_update-Perm :
    (log : String → Option UpdateEvent) (evs shuffled : List UpdateEvent)
    → All (LoggedUpdate log) evs
    → Permᴰ evs shuffled
    → reduce_update evs ≡ reduce_update shuffled
unfolding reduce_update
reduce_update-Perm log evs shuffled h p =
    rw
      (
        reduce_update,
        (sort_by-Perm update_key (LoggedUpdate log)
            (λ x y a b e. ground (arith, a, b, ap (λ k. log (k.1)) e)) p h).0,
      )
      refl
