-- ===== src/AppendLog/Fencing.antt =====
-- The lease marker over sequences of calls: epochs only grow, and a fenced writer writes nothing.
use grpo_guard.AppendLog.{AppendLog, Lease, LogFiles, acquire_lease, append, append_provenance_edge}
use grpo_guard.Prelude.{
  Bool-cases, Option, String, arith, inl, inr, none, some, subst, ℕ, ◌<◌, ◌is◌, ◌≡◌, ◌≤◌,
}
use grpo_guard.Prelude.Int.{pos, ℤ}
use grpo_guard.Prelude.Result.{Error, err, event_seal_error, lease_error, ok, value_error}
use grpo_guard.Schema.Events.{Event, base_of}
use grpo_guard.Schema.Seal.{is_sealed}

-- Any calls of any writers.
pub data Steps : LogFiles → LogFiles → Type 0 where
  still : (d : LogFiles) → Steps d d
  acquired : (log : AppendLog) (d d' : LogFiles) → Steps (acquire_lease log d).1 d' → Steps d d'
  appended :
      (log : AppendLog) (ev : Event) (required : Option ℤ) (d d' : LogFiles)
      → Steps (append log ev required d).1 d'
      → Steps d d'
  linked :
      (id artifact role : String) (d d' : LogFiles)
      → Steps (append_provenance_edge id artifact role d).1 d'
      → Steps d d'

abbrev pub marker_epoch : Option Lease → ℕ
marker_epoch none = 0
marker_epoch (some m) = m.epoch

abbrev pub epoch_of : LogFiles → ℕ
epoch_of d = marker_epoch d.lease_file

append-lease :
    (log : AppendLog) (ev : Event) (required : Option ℤ) (d : LogFiles)
    → (append log ev required d).1.lease_file ≡ d.lease_file
unfolding append
append-lease log ev required d = ground arith

edge-lease :
    (id artifact role : String) (d : LogFiles)
    → (append_provenance_edge id artifact role d).1.lease_file ≡ d.lease_file
unfolding append_provenance_edge
edge-lease id artifact role d = ground arith

acquire-grows : (log : AppendLog) (d : LogFiles) → epoch_of d ≤ epoch_of (acquire_lease log d).1
unfolding acquire_lease
acquire-grows log d = ground arith

pub Steps-grow : (d d' : LogFiles) → Steps d d' → epoch_of d ≤ epoch_of d'
Steps-grow _ _ (still d) = omega arith
Steps-grow _ _ (acquired log d d' s) =
    omega (arith, acquire-grows log d, Steps-grow (acquire_lease log d).1 d' s)
Steps-grow _ _ (appended log ev required d d' s) =
    subst (λ l. marker_epoch l ≤ epoch_of d') (append-lease log ev required d)
      (Steps-grow (append log ev required d).1 d' s)
Steps-grow _ _ (linked id artifact role d d' s) =
    subst (λ l. marker_epoch l ≤ epoch_of d') (edge-lease id artifact role d)
      (Steps-grow (append_provenance_edge id artifact role d).1 d' s)

acquire-epoch :
    (log : AppendLog) (n : ℕ) (d : LogFiles)
    → (acquire_lease log d).0 ≡ ok n
    → (epoch_of (acquire_lease log d).1 ≡ n) × (epoch_of d < n)
unfolding acquire_lease
acquire-epoch log n d h = ground (arith, h)

-- With a required epoch below the marker's, whatever the event and the writer.
append-behind :
    (log : AppendLog) (ev : Event) (n : ℕ) (d : LogFiles)
    → n < epoch_of d
    → (e : Error) × (append log ev (some (pos n)) d ≡ (err e, d))
unfolding append
append-behind log ev n d h = elim (Bool-cases (is_sealed ev)) [
  | inr unsealed ↦ (event_seal_error, ground (arith, unsealed))
  | inl sealed ↦ elim (Bool-cases ((base_of ev).run_id is log.run_id)) [
    | inr foreign ↦ (value_error, ground (arith, sealed, foreign))
    | inl own ↦ (lease_error, ground (arith, sealed, own, h))
  ]
]

-- A writer that acquired the lease with epoch n, while after it another call acquired the lease
-- again, cannot append with n as the required epoch: the call raises and changes no file.
pub stale_writer_fenced :
    (log newer late : AppendLog) (ev : Event) (n m : ℕ) (d d₁ d₂ : LogFiles)
    → (acquire_lease log d).0 ≡ ok n
    → Steps (acquire_lease log d).1 d₁
    → (acquire_lease newer d₁).0 ≡ ok m
    → Steps (acquire_lease newer d₁).1 d₂
    → (e : Error) × (append late ev (some (pos n)) d₂ ≡ (err e, d₂))
stale_writer_fenced log newer late ev n m d d₁ d₂ a s b t =
    let behind : n < epoch_of d₂ = omega (
      arith,
      acquire-epoch log n d a,
      Steps-grow (acquire_lease log d).1 d₁ s,
      acquire-epoch newer m d₁ b,
      Steps-grow (acquire_lease newer d₁).1 d₂ t,
    ) in
    append-behind late ev n d₂ behind
