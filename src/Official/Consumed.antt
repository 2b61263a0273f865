-- ===== src/Official/Consumed.antt =====
-- What a verified batch consumes: the records that its rows match, each once, over all steps.
use grpo_guard.Official.Available.{IsKeyed, remove-IsKeyed}
use grpo_guard.Official.Match.{Columns, check_old, match_row, match_rows, optional_row_at, row_hash}
use grpo_guard.Official.Rollout.{RolloutRecord}
use grpo_guard.Official.Rows.{Row, attention}
use grpo_guard.Prelude.{
  All, Bool-cases, List, Option, Option-cases, String, [], arith, contains, eq_iff, false,
  get_elem?, inl, inr, none, refl, some, subst, true, ℕ, ◌+◌, ◌∷◌, ◌≡◌,
}
use grpo_guard.Prelude.Dict.{
  Dict, Distinct, absent-remove, contains-remove, keys, lookup, lookup-absent, remove,
  remove-Distinct,
}
use grpo_guard.Prelude.Result.{bind-ok, ok, ◌>>◌}
use grpo_guard.Schema.Seal.{Bytes}

-- What the loop has checked of a row that it matched to record m, found under m's digest.
pub record IsBound (sha256 : Bytes → String) (c : Columns) (i : ℕ) (p q : Row)
    (available : Dict RolloutRecord) (m : String × RolloutRecord) : Type 0 where
  pub pm : Option Row
  pub cm : Option Row
  pub prompt_mask : optional_row_at c.prompt_mask i ≡ ok pm
  pub completion_mask : optional_row_at c.completion_mask i ≡ ok cm
  pub tokens : m.0 ≡ row_hash sha256 p q pm cm
  pub found : lookup m.0 available ≡ some m.1
  pub old_logprobs : check_old sha256 c i m.1 cm (attention pm cm) ≡ ok tt

abbrev pub digests : List (String × RolloutRecord) → List String
digests [] = []
digests (m ∷ ms) = m.0 ∷ digests ms

module _ (sha256 : Bytes → String) where
  pub match_row-IsBound :
      (c : Columns) (i : ℕ) (p q : Row) (available : Dict RolloutRecord)
      (m : String × RolloutRecord)
      → match_row sha256 c i p q available ≡ ok m
      → IsBound sha256 c i p q available m
  unfolding match_row
  match_row-IsBound c i p q available m h =
      let (pm, pe, h1) = bind-ok (optional_row_at c.prompt_mask i) _ h in
      let (cm, ce, h2) = bind-ok (optional_row_at c.completion_mask i) _ h1 in
      elim (Option-cases (lookup (row_hash sha256 p q pm cm) available)) [
        | inl absent ↦ absurd (ground (arith, h2, absent))
        | inr (rec, e) ↦
            let h3 : (check_old sha256 c i rec cm (attention pm cm)
                  >> ok (row_hash sha256 p q pm cm, rec))
                ≡ ok m =
              ground (arith, h2, e) in
            let (u, ue, h4) = bind-ok (check_old sha256 c i rec cm (attention pm cm)) _ h3 in
            record {
              pm = pm;
              cm = cm;
              prompt_mask = pe;
              completion_mask = ce;
              tokens = ground (arith, h4);
              found = ground (arith, h4, e);
              old_logprobs = ground (arith, h4, ue);
            }
      ]

  -- Each row of the batch, matched in turn to what the rows before it have left.
  pub data Matches (c : Columns)
      : ℕ
        → List Row
        → List Row
        → Dict RolloutRecord
        → List (String × RolloutRecord)
        → Dict RolloutRecord
        → Type 0 where
    no_rows : (i : ℕ) (qs : List Row) (d : Dict RolloutRecord) → Matches c i [] qs d [] d
    next_row :
        (i : ℕ) (p q : Row) (ps qs : List Row) (d left : Dict RolloutRecord)
        (m : String × RolloutRecord) (ms : List (String × RolloutRecord))
        → IsBound sha256 c i p q d m
        → Matches c (i + 1) ps qs (remove m.0 d) ms left
        → Matches c i (p ∷ ps) (q ∷ qs) d (m ∷ ms) left

  pub match_rows-Matches :
      (c : Columns) (i : ℕ) (ps qs : List Row) (d : Dict RolloutRecord)
      (r : List (String × RolloutRecord) × Dict RolloutRecord)
      → match_rows sha256 c i ps qs d ≡ ok r
      → Matches c i ps qs d r.0 r.1
  unfolding match_rows
  match_rows-Matches c i [] qs d r h =
      let e : ◌≡◌ {A = List (String × RolloutRecord) × Dict RolloutRecord} ([], d) r = cc in
      subst (λ t. Matches c i [] qs d (t.0) (t.1)) e (no_rows i qs d)
  match_rows-Matches c i (p ∷ ps) [] d r h = absurd (ground (arith, h))
  match_rows-Matches c i (p ∷ ps) (q ∷ qs) d r h =
      let (m, me, h1) = bind-ok (match_row sha256 c i p q d) _ h in
      let (rest, re, h2) = bind-ok (match_rows sha256 c (i + 1) ps qs (remove m.0 d)) _ h1 in
      let e : (m ∷ rest.0, rest.1) ≡ r = cc in
      subst (λ t. Matches c i (p ∷ ps) (q ∷ qs) d (t.0) (t.1)) e
        (next_row i p q ps qs d rest.1 m rest.0 (match_row-IsBound c i p q d m me)
          (match_rows-Matches c (i + 1) ps qs (remove m.0 d) rest re))

  -- A row that is bound is matched.
  IsBound-match_row :
      (c : Columns) (i : ℕ) (p q : Row) (available : Dict RolloutRecord)
      (m : String × RolloutRecord)
      → IsBound sha256 c i p q available m
      → match_row sha256 c i p q available ≡ ok m
  unfolding match_row
  IsBound-match_row c i p q available (h, rec) b =
      let found : lookup (row_hash sha256 p q b.pm b.cm) available ≡ some rec =
        subst (λ k. lookup k available ≡ some rec) b.tokens b.found in
      ground (arith, b.prompt_mask, b.completion_mask, b.tokens, found, b.old_logprobs)

  pub Matches-match_rows :
      {c : Columns} {i : ℕ} {ps qs : List Row} {d : Dict RolloutRecord}
      {ms : List (String × RolloutRecord)} {left : Dict RolloutRecord}
      → Matches c i ps qs d ms left
      → match_rows sha256 c i ps qs d ≡ ok (ms, left)
  unfolding match_rows
  Matches-match_rows (no_rows i qs d) = refl
  Matches-match_rows (next_row i p q ps qs d left m ms b rest) =
      ground (arith, IsBound-match_row _ i p q d m b, Matches-match_rows rest)

  -- The mask of row i, where there is one.
  abbrev pub mask_at : Option (List Row) → ℕ → Option Row
  mask_at none i = none
  mask_at (some rows) i = get_elem? rows i

  -- The digests of the real tokens of a batch's rows, from row i on.
  unfoldable pub row_digests : Columns → ℕ → List Row → List Row → List String
  row_digests c i [] qs = []
  row_digests c i (p ∷ ps) [] = []
  row_digests c i (p ∷ ps) (q ∷ qs) =
      row_hash sha256 p q (mask_at c.prompt_mask i) (mask_at c.completion_mask i)
      ∷ row_digests c (i + 1) ps qs

  mask_at-ok :
      (o : Option (List Row)) (i : ℕ) (m : Option Row)
      → optional_row_at o i ≡ ok m
      → mask_at o i ≡ m
  mask_at-ok none i m h = ground (arith, h)
  mask_at-ok (some rows) i m h = elim (Option-cases (get_elem? rows i)) [
    | inl e ↦ absurd (ground (arith, h, e))
    | inr (r, e) ↦ ground (arith, h, e)
  ]

  -- Rows that are matched have the digests of the records that they are matched to.
  pub Matches-row_digests :
      (c : Columns) {i : ℕ} {ps qs : List Row} {d : Dict RolloutRecord}
      {ms : List (String × RolloutRecord)} {left : Dict RolloutRecord}
      → Matches c i ps qs d ms left
      → row_digests c i ps qs ≡ digests ms
  unfolding row_digests
  Matches-row_digests c (no_rows i qs d) = refl
  Matches-row_digests c (next_row i p q ps qs d left m ms b rest) =
      rw
        (
          mask_at-ok c.prompt_mask i b.pm b.prompt_mask,
          mask_at-ok c.completion_mask i b.cm b.completion_mask,
          Matches-row_digests c rest,
          b.tokens,
        )
        refl

  contains-lookup :
      (k : String) (d : Dict RolloutRecord) (r : RolloutRecord)
      → lookup k d ≡ some r
      → contains k (keys d) ≡ true
  contains-lookup k d r h = elim (Bool-cases (contains k (keys d))) [
    | inl e ↦ e
    | inr e ↦ absurd (ground (arith, h, lookup-absent k d e))
  ]

  -- What a batch spends of the records d, and what it leaves.
  pub record Spends (d : Dict RolloutRecord) (spent : List String) (left : Dict RolloutRecord)
      : Type 0 where
    pub distinct : Distinct spent
    pub available : All (λ h. contains h (keys d) ≡ true) spent
    pub left_distinct : Distinct (keys left)
    pub left_keyed : IsKeyed left
    pub left_of :
        (h : String)
        → contains h (keys left) ≡ true
        → (contains h (keys d) ≡ true) × (contains h spent ≡ false)

  was_available :
      (k : String) (d : Dict RolloutRecord) (hs : List String)
      → All (λ h. contains h (keys (remove k d)) ≡ true) hs
      → All (λ h. contains h (keys d) ≡ true) hs
  was_available k d [] a = tt
  was_available k d (h ∷ hs) a = (contains-remove k h d (a.0), was_available k d hs (a.1))

  not_spent :
      (k : String) (d : Dict RolloutRecord) (hs : List String)
      → Distinct (keys d)
      → All (λ h. contains h (keys (remove k d)) ≡ true) hs
      → contains k hs ≡ false
  not_spent k d [] u a = refl
  not_spent k d (h ∷ hs) u a =
      ground (arith, absent-remove k d u, not_spent k d hs u (a.1), eq_iff k h, a.0)

  pub Matches-Spends :
      {c : Columns} {i : ℕ} {ps qs : List Row} {d : Dict RolloutRecord}
      {ms : List (String × RolloutRecord)} {left : Dict RolloutRecord}
      → Matches c i ps qs d ms left
      → Distinct (keys d)
      → IsKeyed d
      → Spends d (digests ms) left
  Matches-Spends (no_rows i qs d) u k = record {
    distinct = tt;
    available = tt;
    left_distinct = u;
    left_keyed = k;
    left_of = λ h e. (e, refl);
  }
  Matches-Spends (next_row i p q ps qs d left m ms b rest) u k =
      let s = Matches-Spends rest (remove-Distinct m.0 d u) (remove-IsKeyed m.0 d k) in
      record {
        distinct = (not_spent m.0 d (digests ms) u s.available, s.distinct);
        available =
            (contains-lookup m.0 d m.1 b.found, was_available m.0 d (digests ms) s.available);
        left_distinct = s.left_distinct;
        left_keyed = s.left_keyed;
        left_of = λ h e.
            let (old, fresh) = s.left_of h e in
            (
              contains-remove m.0 h d old,
              ground (arith, fresh, old, absent-remove m.0 d u, eq_iff h m.0),
            );
      }
