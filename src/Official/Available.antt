-- ===== src/Official/Available.antt =====
-- The dict of the records that a step may consume: what it holds, and that it is keyed by the
-- records' sequence hashes.
use grpo_guard.Official.Match.{available_from}
use grpo_guard.Official.Rollout.{RolloutRecord}
use grpo_guard.Prelude.{
  Bool-cases, List, String, [], arith, contains, eq_iff, inl, inr, refl, some, ◌is◌, ◌||◌, ◌∷◌, ◌≡◌,
  ◌⊎◌,
}
use grpo_guard.Prelude.Dict.{Dict, Distinct, insert, keys, lookup, lookup-insert, remove, values}

abbrev pub sequence_hash : RolloutRecord → String
sequence_hash r = r.sequence_ref.sha256

abbrev pub hashes_of : List RolloutRecord → List String
hashes_of [] = []
hashes_of (r ∷ rs) = sequence_hash r ∷ hashes_of rs

-- Every entry stands under its record's hash.
abbrev pub IsKeyed : Dict RolloutRecord → Type 0
IsKeyed [] = Unit
IsKeyed ((k, r) ∷ d) = (k ≡ sequence_hash r) × IsKeyed d

pub keys-insert :
    (k j : String) (r : RolloutRecord) (d : Dict RolloutRecord)
    → contains j (keys (insert k r d)) ≡ ((j is k) || contains j (keys d))
unfolding insert
keys-insert k j r [] = refl
keys-insert k j r ((i, v) ∷ d) =
    ground (arith, eq_iff i k, eq_iff j i, eq_iff j k, keys-insert k j r d)

insert-Distinct :
    (k : String) (r : RolloutRecord) (d : Dict RolloutRecord)
    → Distinct (keys d)
    → Distinct (keys (insert k r d))
unfolding insert
insert-Distinct k r [] h = (refl, tt)
insert-Distinct k r ((i, v) ∷ d) h =
    ground (arith, eq_iff i k, keys-insert k i r d, insert-Distinct k r d (h.1), h.0, h.1)

insert-IsKeyed :
    (r : RolloutRecord) (d : Dict RolloutRecord)
    → IsKeyed d
    → IsKeyed (insert (sequence_hash r) r d)
unfolding insert
insert-IsKeyed r [] h = (refl, tt)
insert-IsKeyed r ((i, v) ∷ d) h =
    ground (arith, eq_iff i (sequence_hash r), insert-IsKeyed r d (h.1), h.0, h.1)

pub remove-IsKeyed : (k : String) (d : Dict RolloutRecord) → IsKeyed d → IsKeyed (remove k d)
unfolding remove
remove-IsKeyed k [] h = tt
remove-IsKeyed k ((i, v) ∷ d) h = ground (arith, remove-IsKeyed k d (h.1), h.0, h.1)

pub available_from-Distinct :
    (d : Dict RolloutRecord) (rs : List RolloutRecord)
    → Distinct (keys d)
    → Distinct (keys (available_from d rs))
unfolding available_from
available_from-Distinct d [] h = h
available_from-Distinct d (r ∷ rs) h =
    available_from-Distinct (insert (sequence_hash r) r d) rs
      (insert-Distinct (sequence_hash r) r d h)

pub available_from-IsKeyed :
    (d : Dict RolloutRecord) (rs : List RolloutRecord) → IsKeyed d → IsKeyed (available_from d rs)
unfolding available_from
available_from-IsKeyed d [] h = h
available_from-IsKeyed d (r ∷ rs) h =
    available_from-IsKeyed (insert (sequence_hash r) r d) rs (insert-IsKeyed r d h)

pub keys-available_from :
    (j : String) (d : Dict RolloutRecord) (rs : List RolloutRecord)
    → contains j (keys (available_from d rs)) ≡ (contains j (hashes_of rs) || contains j (keys d))
unfolding available_from
keys-available_from j d [] = refl
keys-available_from j d (r ∷ rs) = ground (
  arith,
  keys-available_from j (insert (sequence_hash r) r d) rs,
  keys-insert (sequence_hash r) j r d,
)

-- A value of the dict is one of the records.
abbrev pub IsMember : RolloutRecord → List RolloutRecord → Type 0
IsMember r [] = ⊥
IsMember r (s ∷ ss) = (r ≡ s) ⊎ IsMember r ss

lookup-available_from :
    (j : String) (d : Dict RolloutRecord) (rs : List RolloutRecord) (r : RolloutRecord)
    → lookup j (available_from d rs) ≡ some r
    → IsMember r rs ⊎ (lookup j d ≡ some r)
unfolding available_from
lookup-available_from j d [] r h = inr h
lookup-available_from j d (s ∷ ss) r h =
    elim (lookup-available_from j (insert (sequence_hash s) s d) ss r h) [
      | inl later ↦ inl (inr later)
      | inr now ↦ elim (Bool-cases (sequence_hash s is j)) [
        | inl same ↦ inl (inl (ground (arith, lookup-insert (sequence_hash s) j s d, now, same)))
        | inr apart ↦ inr (ground (arith, lookup-insert (sequence_hash s) j s d, now, apart))
      ]
    ]

pub available-IsMember :
    (j : String) (rs : List RolloutRecord) (r : RolloutRecord)
    → lookup j (available_from [] rs) ≡ some r
    → IsMember r rs
unfolding lookup
available-IsMember j rs r h = elim (lookup-available_from j [] rs r h) [
  | inl m ↦ m
  | inr impossible ↦ absurd (ground (arith, impossible))
]

pub lookup-IsKeyed :
    (j : String) (d : Dict RolloutRecord) (r : RolloutRecord)
    → IsKeyed d
    → lookup j d ≡ some r
    → j ≡ sequence_hash r
unfolding lookup
lookup-IsKeyed j [] r h e = absurd (ground (arith, e))
lookup-IsKeyed j ((i, v) ∷ d) r h e = ground (arith, eq_iff i j, lookup-IsKeyed j d r (h.1), h.0, e)

pub hashes_of-values :
    (j : String) (d : Dict RolloutRecord)
    → IsKeyed d
    → contains j (hashes_of (values d)) ≡ contains j (keys d)
hashes_of-values j [] h = refl
hashes_of-values j ((i, v) ∷ d) h = ground (arith, hashes_of-values j d (h.1), h.0)
