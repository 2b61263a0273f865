-- ===== src/Guarded/Promotion.antt =====
-- atomic_checkpoint_promotion of guarded_update.py, as the states of the two directories that a
-- reader, or a recovery after a crash, can see. A directory is the list of all entries below it, in
-- the order in which shutil.rmtree would come to them; it removes them one by one. fsync and the creation of the parent change nothing that a reader sees.
use grpo_guard.Prelude.{List, Option, String, [], none, some, ◌++◌, ◌∷◌, ◌≡◌}
use grpo_guard.Prelude.Result.{Result, err, file_not_found_error, ok}

pub record Directories : Type 0 where
  pub tmp_dir : Option (List String)
  pub final_dir : Option (List String)

-- shutil.rmtree(final_dir): every state on the way, the last without the directory.
unfoldable pub rmtree_states : Option (List String) → List String → List Directories
rmtree_states tmp [] = (record { tmp_dir = tmp; final_dir = none }) ∷ []
rmtree_states tmp (f ∷ files) =
    (record { tmp_dir = tmp; final_dir = some files }) ∷ rmtree_states tmp files

-- os.replace(tmp_dir, final_dir)
abbrev pub replaced : List String → Directories
replaced new = record { tmp_dir = none; final_dir = some new }

abbrev pub removal_states : Option (List String) → Option (List String) → List Directories
removal_states tmp none = []
removal_states tmp (some files) = rmtree_states tmp files

-- The states that a call passes through after the one that it starts in, or its exception.
unfoldable pub promotion_states : Directories → Result (List Directories)
promotion_states d = elim d.tmp_dir [
  | none ↦ err file_not_found_error
  | some new ↦ ok (removal_states (some new) d.final_dir ++ replaced new ∷ [])
]

-- What a promotion passes through while it removes the old checkpoint: a final directory is there,
-- with some of the old entries, and the new checkpoint is complete in the temporary one.
abbrev pub Removing : List String → List String → Directories → Type 0
Removing new old d =
    (d.tmp_dir ≡ some new)
    × ((gone kept : List String) × (d.final_dir ≡ some kept) × (gone ++ kept ≡ old))
