-- ===== src/AppendLog/Writes.antt =====
-- What `append` and `append_provenance_edge` do to what was written before.
use grpo_guard.AppendLog.{AppendLog, LogFiles, append, check_lease, get_event}
use grpo_guard.Prelude.{
  Option, Option-cases, String, arith, eq_iff, eq_refl, inl, inr, refl, true, ◌≡◌,
}
use grpo_guard.Prelude.Dict.{lookup, lookup-insert}
use grpo_guard.Prelude.Int.{ℤ}
use grpo_guard.Prelude.Result.{ok}
use grpo_guard.Schema.Events.{Event, base_of}
use grpo_guard.Schema.Seal.{is_sealed}

-- What `append` has returned, `get` finds under its id, with the digest of the event that was given;
-- and the event was sealed, of the run, and the writer held the lease.
pub append-get_event :
    (log : AppendLog) (ev written : Event) (required : Option ℤ) (d : LogFiles)
    → (append log ev required d).0 ≡ ok written
    → (found : Event) × (get_event (append log ev required d).1 (base_of ev).event_id ≡ ok found)
      × ((base_of found).event_sha256 ≡ (base_of ev).event_sha256)
      × ((is_sealed ev ≡ true)
          × ((base_of ev).run_id ≡ log.run_id)
          × (check_lease log required d.lease_file ≡ ok tt))
unfolding append get_event
append-get_event log ev written required d h =
    elim (Option-cases (lookup (base_of ev).event_id d.event_files)) [
      | inl missing ↦ (
        ev,
        ground (
          arith,
          h,
          missing,
          eq_refl (base_of ev).event_id,
          lookup-insert (base_of ev).event_id (base_of ev).event_id ev d.event_files,
        ),
        refl,
        (
          ground (arith, h),
          ground (arith, h, eq_iff (base_of ev).run_id log.run_id),
          ground (arith, h),
        ),
      )
      | inr (found, e) ↦ (
        found,
        ground (arith, h, e),
        ground (arith, h, e, eq_iff (base_of found).event_sha256 (base_of ev).event_sha256),
        (
          ground (arith, h),
          ground (arith, h, eq_iff (base_of ev).run_id log.run_id),
          ground (arith, h),
        ),
      )
    ]

-- No call of `append`, whoever writes and whether it raises or not, changes an event that is there.
pub append-keeps :
    (log : AppendLog) (ev old : Event) (required : Option ℤ) (id : String) (d : LogFiles)
    → get_event d id ≡ ok old
    → get_event (append log ev required d).1 id ≡ ok old
unfolding append get_event
append-keeps log ev old required id d h = ground (
  arith,
  h,
  lookup-insert (base_of ev).event_id id ev d.event_files,
  eq_iff (base_of ev).event_id id,
)

-- A second `append` of an event that was written returns, and changes nothing.
pub append_idempotent :
    (log : AppendLog) (ev written : Event) (required : Option ℤ) (d : LogFiles)
    → (append log ev required d).0 ≡ ok written
    → let d' = (append log ev required d).1 in append log ev required d' ≡ (ok ev, d')
unfolding append
append_idempotent log ev written required d h = ground (
  arith,
  h,
  lookup-insert (base_of ev).event_id (base_of ev).event_id ev d.event_files,
  eq_refl (base_of ev).event_id,
  eq_refl (base_of ev).event_sha256,
)
