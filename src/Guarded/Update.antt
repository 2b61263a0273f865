-- ===== src/Guarded/Update.antt =====
-- Phases 4 to 6 of guarded_optimizer_step: the record that the update leaves in the log.
use grpo_guard.Align.Canonical.{before}
use grpo_guard.Guarded.Batch.{MaterializedBatch, ValidatedBatchHandle}
use grpo_guard.Guarded.Run.{
  commit_phase, loss_and_step, nonces_of, prepared_fields, update_id_of, update_phase, write_wal,
}
use grpo_guard.Guarded.Step.{StepConfig, Trainer, World}
use grpo_guard.Guarded.Wal.{
  PreparedFields, Wal, WalStatus, aborted, applied, checkpointed, committed, prepared, status,
  write,
}
use grpo_guard.Guarded.Wal.Laws.{status-write}
use grpo_guard.Prelude.{
  Bool-cases, List, Option, String, arith, false, if◌then◌else◌, inl, inr, is_some, none, refl,
  some, ◌&&◌, ◌is◌, ◌∙◌, ◌≡◌, ◌⊎◌,
}
use grpo_guard.Prelude.Result.{Error, Result, Result-cases, err, ok}

module _ (t : Trainer) (cfg : StepConfig) where
  -- Loss, backward and step touch neither the log nor the registry.
  loss_and_step-logs :
      (batches : List MaterializedBatch) (w : World t)
      → let w' = (loss_and_step t cfg batches w).1 in (w'.wal ≡ w.wal) × (w'.registry ≡ w.registry)
  unfolding loss_and_step
  loss_and_step-logs batches w = ground arith

  commit_phase-registry :
      (uid : String) (w : World t) → (commit_phase t cfg uid w).1.registry ≡ w.registry
  unfolding commit_phase write_wal
  commit_phase-registry uid w = ground arith

  -- A commit that returned wrote APPLIED, CHECKPOINTED and COMMITTED, in this order.
  commit_phase-logs :
      (uid : String) (w : World t) (ckpt : Option t.Checkpoint)
      → (commit_phase t cfg uid w).0 ≡ ok ckpt
      → (commit_phase t cfg uid w).1.wal
        ≡ write committed uid none (write checkpointed uid none (write applied uid none w.wal))
  unfolding commit_phase write_wal
  commit_phase-logs uid w ckpt e = ground (arith, e)

-- After the update the log says `st` of it, where there is a log, and of the others what it said.
abbrev pub Logged : String → WalStatus → Wal → Wal → Type 0
Logged uid st before after =
    (v : String)
    → status after v ≡ (if (uid is v) && is_some before then some st else status before v)

-- Only the update's own status may differ.
Touched : String → Wal → Wal → Type 0
Touched uid before after =
    (is_some after ≡ is_some before)
    × ((v : String) → (uid is v) ≡ false → status after v ≡ status before v)

write-Touched :
    (st : WalStatus) (uid : String) (fields : Option PreparedFields) (before w : Wal)
    → Touched uid before w
    → Touched uid before (write st uid fields w)
unfolding write Touched
write-Touched st uid fields old none h = h
write-Touched st uid fields old (some lines) h =
    (h.0, λ v apart. ground (arith, status-write st uid v fields lines, h.1 v apart, apart))

write-Logged :
    (st : WalStatus) (uid : String) (fields : Option PreparedFields) (before w : Wal)
    → Touched uid before w
    → Logged uid st before (write st uid fields w)
unfolding write Touched
write-Logged st uid fields old none h v = elim (Bool-cases (uid is v)) [
  | inl same ↦ ground (arith, h.0, same)
  | inr apart ↦ ground (arith, h.1 v apart, apart)
]
write-Logged st uid fields old (some lines) h v = elim (Bool-cases (uid is v)) [
  | inl same ↦ ground (arith, status-write st uid v fields lines, h.0, same)
  | inr apart ↦ ground (arith, status-write st uid v fields lines, h.1 v apart, apart)
]

-- The status that a call of the step leaves: COMMITTED if it returns, ABORTED if it raises.
abbrev pub ending {ℓ} : {A : Type ℓ} → Result A → WalStatus
ending (ok a) = committed
ending (err e) = aborted

module _ (t : Trainer) (cfg : StepConfig) where
  -- The log after a commit phase that may have stopped.
  commit_phase-cases :
      (uid : String) (w : World t)
      → let one = write applied uid none w.wal in
        let two = write checkpointed uid none one in
        let end = (commit_phase t cfg uid w).1.wal in
        (end ≡ one) ⊎ ((end ≡ two) ⊎ (end ≡ write committed uid none two))
  unfolding commit_phase write_wal
  commit_phase-cases uid w = ground arith

  commit_phase-Touched :
      (uid : String) (old : Wal) (w : World t)
      → Touched uid old w.wal
      → Touched uid old (commit_phase t cfg uid w).1.wal
  commit_phase-Touched uid old w h =
      let one = write-Touched applied uid none old w.wal h in
      let two = write-Touched checkpointed uid none old _ one in
      elim (commit_phase-cases uid w) [
        | inl e ↦ rw e one
        | inr (inl e) ↦ rw e two
        | inr (inr e) ↦ rw e (write-Touched committed uid none old _ two)
      ]

  -- How the update phase ends, by what its two halves return.
  pub update_phase-cases :
      (hs : List ValidatedBatchHandle) (batches : List MaterializedBatch) (w : World t)
      → let uid = update_id_of hs in
        let w1 : World t = record w {
          wal = write prepared uid (some (prepared_fields t cfg hs)) w.wal;
        } in
        let a = loss_and_step t cfg batches w1 in
        let b = commit_phase t cfg uid a.1 in
        let end = update_phase t cfg hs batches w in
        ((e : Error) × (end ≡ (err e, record a.1 { wal = write aborted uid none a.1.wal })))
        ⊎ (((e : Error) × (end ≡ (err e, record b.1 { wal = write aborted uid none b.1.wal })))
            ⊎ ((ckpt : Option t.Checkpoint) × (b.0 ≡ ok ckpt)
                × ((l : t.Loss) × (end ≡ (
                  ok (record {
                    loss = l;
                    consumed_nonces = nonces_of hs;
                    checkpoint = ckpt;
                    wal_status = committed;
                  }),
                  b.1,
                )))))
  unfolding update_phase write_wal
  update_phase-cases hs batches w =
      let uid = update_id_of hs in
      let w1 : World t = record w {
        wal = write prepared uid (some (prepared_fields t cfg hs)) w.wal;
      } in
      let a = loss_and_step t cfg batches w1 in
      let b = commit_phase t cfg uid a.1 in
      elim (Result-cases a.0) [
        | inr (e, f) ↦ inl (e, ground (arith, f))
        | inl (l, o) ↦ elim (Result-cases b.0) [
          | inr (e, f) ↦ inr (inl (e, ground (arith, o, f)))
          | inl (ckpt, p) ↦ inr (inr (ckpt, p, (l, ground (arith, o, p))))
        ]
      ]

  pub update_phase-Logged :
      (hs : List ValidatedBatchHandle) (batches : List MaterializedBatch) (w : World t)
      → let (r, w') = update_phase t cfg hs batches w in
        Logged (update_id_of hs) (ending r) w.wal w'.wal
  unfolding Touched
  update_phase-Logged hs batches w =
      let uid = update_id_of hs in
      let fields = some (prepared_fields t cfg hs) in
      let w1 : World t = record w { wal = write prepared uid fields w.wal } in
      let a = loss_and_step t cfg batches w1 in
      let b = commit_phase t cfg uid a.1 in
      let start : Touched uid w.wal w1.wal =
        write-Touched prepared uid fields w.wal w.wal (refl, λ v apart. refl) in
      let trained : Touched uid w.wal a.1.wal =
        rw ((loss_and_step-logs t cfg batches w1).0) start in
      elim (update_phase-cases hs batches w) [
        | inl (e, q) ↦ rw q (write-Logged aborted uid none w.wal a.1.wal trained)
        | inr (inl (e, q)) ↦ rw q (
            write-Logged aborted uid none w.wal b.1.wal
              (commit_phase-Touched uid w.wal a.1 trained))
        | inr (inr (ckpt, p, (l, q))) ↦
            rw (q, commit_phase-logs t cfg uid a.1 ckpt p)
              (write-Logged committed uid none w.wal _ (
                write-Touched checkpointed uid none w.wal _
                  (write-Touched applied uid none w.wal a.1.wal trained)))
      ]

  pub update_phase-registry :
      (hs : List ValidatedBatchHandle) (batches : List MaterializedBatch) (w : World t)
      → (update_phase t cfg hs batches w).1.registry ≡ w.registry
  update_phase-registry hs batches w =
      let uid = update_id_of hs in
      let w1 : World t = record w {
        wal = write prepared uid (some (prepared_fields t cfg hs)) w.wal;
      } in
      let a = loss_and_step t cfg batches w1 in
      let trained : a.1.registry ≡ w.registry = (loss_and_step-logs t cfg batches w1).1 in
      let closed : (commit_phase t cfg uid a.1).1.registry ≡ w.registry =
        commit_phase-registry t cfg uid a.1 ∙ trained in
      elim (update_phase-cases hs batches w) [
        | inl (e, q) ↦ rw q trained
        | inr (inl (e, q)) ↦ rw q closed
        | inr (inr (ckpt, p, (l, q))) ↦ rw q closed
      ]
