-- ===== src/Guarded/Wal/Laws.antt =====
-- The update log read back: `status` after `write`, and which updates are dangling.
use grpo_guard.Guarded.Wal.{
  PreparedFields, Wal, WalLine, WalStatus, dangling, entry, is_committed, last_status,
  not_committed, status, statuses, torn, write,
}
use grpo_guard.Prelude.{
  Bool, Bool-cases, List, Option, String, [], ap, arith, contains, eq_iff, false, if◌then◌else◌,
  inl, inr, is_empty, none, not, refl, some, ◌++◌, ◌is◌, ◌∙◌, ◌∷◌, ◌≡◌,
}
use grpo_guard.Prelude.Dict.{Dict, insert, lookup, lookup-insert}

last_status-append :
    (uid : String) (lines more : List WalLine) (last : Option WalStatus)
    → last_status uid (lines ++ more) last ≡ last_status uid more (last_status uid lines last)
unfolding last_status
last_status-append uid [] more last = refl
last_status-append uid (torn ∷ lines) more last = last_status-append uid lines more last
last_status-append uid (entry r ∷ lines) more last =
    last_status-append uid lines more (if r.update_id is uid then some r.status else last)

-- The last record written for an update is its status; another update's is unchanged.
pub status-write :
    (st : WalStatus) (uid v : String) (fields : Option PreparedFields) (lines : List WalLine)
    → status (write st uid fields (some lines)) v
      ≡ (if uid is v then some st else status (some lines) v)
unfolding status write last_status
status-write st uid v fields lines = rw (
    last_status-append v lines
      (entry (record { status = st; update_id = uid; fields = fields }) ∷ []) none)

-- No key stands twice.
abbrev Unique : Dict WalStatus → Type 0
Unique [] = Unit
Unique ((k, st) ∷ d) = (lookup k d ≡ none) × Unique d

insert-Unique :
    (k : String) (st : WalStatus) (d : Dict WalStatus) → Unique d → Unique (insert k st d)
unfolding insert lookup
insert-Unique k st [] h = (refl, tt)
insert-Unique k st ((j, s) ∷ d) h =
    ground (arith, insert-Unique k st d h.1, lookup-insert k j st d, eq_iff j k, eq_iff k j)

statuses-Unique : (lines : List WalLine) (d : Dict WalStatus) → Unique d → Unique (statuses lines d)
unfolding statuses
statuses-Unique [] d h = h
statuses-Unique (torn ∷ lines) d h = statuses-Unique lines d h
statuses-Unique (entry r ∷ lines) d h = elim (Bool-cases (is_empty r.update_id)) [
  | inl e ↦ rw e (statuses-Unique lines d h)
  | inr e ↦ rw e (
      statuses-Unique lines (insert r.update_id r.status d)
        (insert-Unique r.update_id r.status d h))
]

lookup-statuses :
    (uid : String) (lines : List WalLine) (d : Dict WalStatus)
    → is_empty uid ≡ false
    → lookup uid (statuses lines d) ≡ last_status uid lines (lookup uid d)
unfolding statuses last_status
lookup-statuses uid [] d h = refl
lookup-statuses uid (torn ∷ lines) d h = lookup-statuses uid lines d h
lookup-statuses uid (entry r ∷ lines) d h = elim (Bool-cases (is_empty r.update_id)) [
  | inl e ↦
      let ne : (r.update_id is uid) ≡ false = ground (arith, eq_iff r.update_id uid) in
      rw (e, ne) (lookup-statuses uid lines d h)
  | inr e ↦ rw (
    e,
    lookup-statuses uid lines (insert r.update_id r.status d) h,
    lookup-insert r.update_id uid r.status d,
  )
]

abbrev pub is_open : Option WalStatus → Bool
is_open none = false
is_open (some st) = not (is_committed st)

contains-not_committed :
    (uid : String) (d : Dict WalStatus)
    → Unique d
    → contains uid (not_committed d) ≡ is_open (lookup uid d)
unfolding not_committed lookup
contains-not_committed uid [] h = refl
contains-not_committed uid ((k, st) ∷ d) h =
    ground (arith, contains-not_committed uid d h.1, eq_iff k uid, eq_iff uid k)

-- An update is dangling exactly if it has a record and the last one is not COMMITTED.
pub dangling_iff :
    (uid : String) (w : Wal)
    → is_empty uid ≡ false
    → contains uid (dangling w) ≡ is_open (status w uid)
unfolding dangling status lookup
dangling_iff uid none h = refl
dangling_iff uid (some lines) h =
    contains-not_committed uid (statuses lines []) (statuses-Unique lines [] tt)
    ∙ ap is_open (lookup-statuses uid lines [] h)
