-- ===== src/Official/Verified.antt =====
-- What the checks of `_guard_pre_update` on a batch of columns have found, and that this is all.
use grpo_guard.Official.Consumed.{Matches, Matches-match_rows, match_rows-Matches}
use grpo_guard.Official.Match.{
  Columns, _as_np, available_from, check_advantages, match_rows, verify_columns,
}
use grpo_guard.Official.Rollout.{RolloutRecord}
use grpo_guard.Official.Rows.{Row}
use grpo_guard.Prelude.{
  ap, List, Option, String, [], arith, false, length, ltb, map, none, some, subst, sym, ◌≡◌, ◌≤◌,
  ◌∙◌,
}
use grpo_guard.Prelude.Dict.{Dict}
use grpo_guard.Prelude.Result.{Result, bind-ok, err, guard_violation, ok, raise_if, ◌>>=◌, ◌>>◌}
use grpo_guard.Schema.Seal.{Bytes}

-- Every column that is there has rows of one length.
abbrev pub IsRegular : Columns → Type 0
IsRegular c =
    (_as_np c.prompt_ids ≡ ok c.prompt_ids)
    × (_as_np c.completion_ids ≡ ok c.completion_ids)
    × (_as_np c.prompt_mask ≡ ok c.prompt_mask)
    × (_as_np c.completion_mask ≡ ok c.completion_mask)
    × (_as_np c.old_per_token_logps ≡ ok c.old_per_token_logps)
    × (_as_np c.advantages ≡ ok c.advantages)

-- What the checks on a batch of columns have found.
pub record Verified (sha256 : Bytes → String) (records : List RolloutRecord) (c : Columns)
    (r : List (String × RolloutRecord) × Dict RolloutRecord) : Type 0 where
  pub regular : IsRegular c
  pub prompts : List Row
  pub completions : List Row
  pub prompt_ids : c.prompt_ids ≡ some prompts
  pub completion_ids : c.completion_ids ≡ some completions
  pub rows : length prompts ≤ length records
  pub matches : Matches sha256 c 0 prompts completions (available_from [] records) r.0 r.1
  pub advantages : check_advantages sha256 c.advantages (map (λ m. m.1) r.0) ≡ ok tt

_as_np-ok : (o p : Option (List Row)) → _as_np o ≡ ok p → o ≡ p
unfolding _as_np
_as_np-ok none p h = ground (arith, h)
_as_np-ok (some rows) p h = ground (arith, h)

_as_np-regular : (o p : Option (List Row)) → _as_np o ≡ ok p → _as_np o ≡ ok o
_as_np-regular o p h = h ∙ ap (λ x. ok x) (sym (_as_np-ok o p h))

module _ (sha256 : Bytes → String) where
  -- The chain after the six conversions.
  abbrev pub verify_rows :
      List RolloutRecord
      → Columns
      → Option (List Row)
      → Option (List Row)
      → Option (List Row)
      → Result (List (String × RolloutRecord) × Dict RolloutRecord)
  verify_rows records c prompt_ids completion_ids advantages = elim prompt_ids [
    | none ↦ err guard_violation
    | some ps ↦ elim completion_ids [
      | none ↦ err guard_violation
      | some qs ↦ do
        raise_if (ltb (length records) (length ps)) guard_violation
        matched ← match_rows sha256 c 0 ps qs (available_from [] records)
        check_advantages sha256 advantages (map (λ m. m.1) matched.0)
        ok matched
    ]
  ]

  verify_rows-Verified :
      (records : List RolloutRecord) (c : Columns) (p q a : Option (List Row))
      (r : List (String × RolloutRecord) × Dict RolloutRecord)
      → c.prompt_ids ≡ p
      → c.completion_ids ≡ q
      → c.advantages ≡ a
      → IsRegular c
      → verify_rows records c p q a ≡ ok r
      → Verified sha256 records c r
  verify_rows-Verified records c none q a r pe qe ae reg h = absurd (ground (arith, h))
  verify_rows-Verified records c (some ps) none a r pe qe ae reg h = absurd (ground (arith, h))
  verify_rows-Verified records c (some ps) (some qs) a r pe qe ae reg h =
      let (u, ue, h1) = bind-ok (raise_if (ltb (length records) (length ps)) guard_violation) _ h in
      let (m, me, h2) = bind-ok (match_rows sha256 c 0 ps qs (available_from [] records)) _ h1 in
      let (v, ve, h3) = bind-ok (check_advantages sha256 a (map (λ m. m.1) m.0)) _ h2 in
      let e : m ≡ r = cc in
      record {
        regular = reg;
        prompts = ps;
        completions = qs;
        prompt_ids = pe;
        completion_ids = qe;
        rows = ground (arith, ue);
        matches =
            subst (λ t. Matches sha256 c 0 ps qs (available_from [] records) (t.0) (t.1)) e
              (match_rows-Matches sha256 c 0 ps qs (available_from [] records) m me);
        advantages =
            rw ae (subst (λ t. check_advantages sha256 a (map (λ m. m.1) (t.0)) ≡ ok tt) e ve);
      }

  pub verify_columns-Verified :
      (records : List RolloutRecord) (c : Columns)
      (r : List (String × RolloutRecord) × Dict RolloutRecord)
      → verify_columns sha256 records c ≡ ok r
      → Verified sha256 records c r
  unfolding verify_columns
  verify_columns-Verified records c r h =
      let (p, pe, h1) = bind-ok (_as_np c.prompt_ids) _ h in
      let (q, qe, h2) = bind-ok (_as_np c.completion_ids) _ h1 in
      let (pm, pme, h3) = bind-ok (_as_np c.prompt_mask) _ h2 in
      let (cm, cme, h4) = bind-ok (_as_np c.completion_mask) _ h3 in
      let (o, oe, h5) = bind-ok (_as_np c.old_per_token_logps) _ h4 in
      let (a, ae, h6) = bind-ok (_as_np c.advantages) _ h5 in
      verify_rows-Verified records c p q a r (_as_np-ok c.prompt_ids p pe)
        (_as_np-ok c.completion_ids q qe) (_as_np-ok c.advantages a ae)
        (
          _as_np-regular c.prompt_ids p pe,
          _as_np-regular c.completion_ids q qe,
          _as_np-regular c.prompt_mask pm pme,
          _as_np-regular c.completion_mask cm cme,
          _as_np-regular c.old_per_token_logps o oe,
          _as_np-regular c.advantages a ae,
        )
        h6

  -- The checks find no more than that.
  pub Verified-verify_columns :
      (records : List RolloutRecord) (c : Columns)
      (r : List (String × RolloutRecord) × Dict RolloutRecord)
      → Verified sha256 records c r
      → verify_columns sha256 records c ≡ ok r
  unfolding verify_columns
  Verified-verify_columns records c r v =
      let (a1, a2, a3, a4, a5, a6) = v.regular in
      let rows : ltb (length records) (length v.prompts) ≡ false = ground (arith, v.rows) in
      ground (
        arith,
        a1,
        a2,
        a3,
        a4,
        a5,
        a6,
        v.prompt_ids,
        v.completion_ids,
        rows,
        Matches-match_rows sha256 v.matches,
        v.advantages,
      )
