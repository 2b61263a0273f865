-- ===== src/Official/Advantages.antt =====
-- The advantages of a batch against those that were recorded: a comparison of multisets, which does
-- not see to which row an advantage belongs.
use grpo_guard.Official.Verified.{verify_rows}
use grpo_guard.Official.Match.{
  Columns, _as_np, advantage_hashes, available_from, check_advantages, check_old, column_dict,
  counted, is_rectangular, match_row, match_rows, take_advantages, take_out, verify_columns,
}
use grpo_guard.Official.Rollout.{Guard, RolloutRecord}
use grpo_guard.Official.Rows.{Row}
use grpo_guard.Official.Step.{_guard_pre_update, verify_batch}
use grpo_guard.Prelude.{
  List, Option, String, [], ap, arith, eq_iff, if◌then◌else◌, inl, inr, length, map, none, refl,
  some, suc, true, ℕ, ◌+◌, ◌-◌, ◌is◌, ◌↔◌, ◌∙◌, ◌∷◌, ◌≡◌, ◌≤◌, ◌⊎◌,
}
use grpo_guard.Prelude.Dict.{Dict, remove}
use grpo_guard.Prelude.Result.{Result-cases, bind-ap, err, guard_violation, ok, ◌>>=◌}
use grpo_guard.Prelude.Words.{bytes_32}
use grpo_guard.Schema.Seal.{Bytes}
use mathlib.Core.List.{Permᴰ}

counted-take_out :
    (h j : String) (ks : List String)
    → counted j (take_out h ks) ≡ (if h is j then counted j ks - 1 else counted j ks)
unfolding counted take_out
counted-take_out h j [] = ground arith
counted-take_out h j (k ∷ ks) =
    ground (arith, counted-take_out h j ks, eq_iff h j, eq_iff k h, eq_iff k j)

rectangular : (zs : List Row) → is_rectangular zs ≡ true → _as_np (some zs) ≡ ok (some zs)
unfolding _as_np
rectangular zs h = rw h refl

module _ (sha256 : Bytes → String) where
  abbrev pub row_hashes : List Row → List String
  row_hashes [] = []
  row_hashes (r ∷ rs) = sha256 (bytes_32 r) ∷ row_hashes rs

  take-sufficient :
      (rows : List Row) (avail : List String)
      → ((h : String) → counted h (row_hashes rows) ≤ counted h avail)
      → take_advantages sha256 rows avail ≡ ok tt
  unfolding take_advantages counted
  take-sufficient [] avail f = refl
  take-sufficient (row ∷ rows) avail f =
      let k = sha256 (bytes_32 row) in
      ground (
        arith,
        f k,
        eq_iff k k,
        take-sufficient rows (take_out k avail)
            (λ h. ground (arith, f h, counted-take_out k h avail, eq_iff k h)),
      )

  take-necessary :
      (rows : List Row) (avail : List String) (h : String)
      → take_advantages sha256 rows avail ≡ ok tt
      → counted h (row_hashes rows) ≤ counted h avail
  unfolding take_advantages counted
  take-necessary [] avail h e = omega arith
  take-necessary (row ∷ rows) avail h e =
      let k = sha256 (bytes_32 row) in
      ground (
        arith,
        e,
        eq_iff k h,
        eq_iff k k,
        counted-take_out k h avail,
        take-necessary rows (take_out k avail) h,
      )

  take-cases :
      (rows : List Row) (avail : List String)
      → (take_advantages sha256 rows avail ≡ ok tt)
        ⊎ (take_advantages sha256 rows avail ≡ err guard_violation)
  unfolding take_advantages
  take-cases [] avail = inl refl
  take-cases (row ∷ rows) avail =
      ground (arith, take-cases rows (take_out (sha256 (bytes_32 row)) avail))

  -- The recorded advantages cover the batch's exactly if none occurs oftener in the batch.
  pub take_advantages_iff :
      (rows : List Row) (avail : List String)
      → (take_advantages sha256 rows avail ≡ ok tt)
        ↔ ((h : String) → counted h (row_hashes rows) ≤ counted h avail)
  take_advantages_iff rows avail =
      ((λ e h. take-necessary rows avail h e), take-sufficient rows avail)

  -- What a row adds to the count of h.
  abbrev weight : String → Row → ℕ
  weight h row = if sha256 (bytes_32 row) is h then 1 else 0

  counted-Perm :
      (h : String) {xs ys : List Row}
      → Permᴰ xs ys
      → (counted h (row_hashes xs) ≡ counted h (row_hashes ys)) × (length xs ≡ length ys)
  unfolding counted
  counted-Perm h Permᴰ.nil = (refl, refl)
  counted-Perm h (Permᴰ.cons {a = a} {b = b} e d) =
      let (p, n) = counted-Perm h d in (omega (arith, p, ap (weight h) e), ap suc n)
  counted-Perm h (Permᴰ.swap e f) = (omega (arith, ap (weight h) e, ap (weight h) f), refl)
  counted-Perm h (Permᴰ.trans d e) =
      let (p, m) = counted-Perm h d in let (q, n) = counted-Perm h e in (p ∙ q, m ∙ n)

  check_advantages-Perm :
      (xs ys : List Row) (recs : List RolloutRecord)
      → Permᴰ xs ys
      → check_advantages sha256 (some xs) recs ≡ check_advantages sha256 (some ys) recs
  unfolding check_advantages
  check_advantages-Perm xs ys recs d =
      let avail = advantage_hashes recs in
      let n : length xs ≡ length ys = (counted-Perm "" d).1 in
      rw n (elim (take-cases xs avail) [
        | inl e ↦
            let f : take_advantages sha256 ys avail ≡ ok tt =
              take-sufficient ys avail
                (λ h. omega (arith, take-necessary xs avail h e, (counted-Perm h d).0)) in
            ground (arith, e, f)
        | inr e ↦ elim (take-cases ys avail) [
          | inr f ↦ ground (arith, e, f)
          | inl f ↦
              let good : take_advantages sha256 xs avail ≡ ok tt =
                take-sufficient xs avail
                  (λ h. omega (arith, take-necessary ys avail h f, (counted-Perm h d).0)) in
              ground (arith, e, good)
        ]
      ])

  -- The rows are matched without a look at the advantages.
  match_rows-advantages :
      (c : Columns) (a : Option (List Row)) (i : ℕ) (ps qs : List Row) (d : Dict RolloutRecord)
      → match_rows sha256 (record c { advantages = a }) i ps qs d ≡ match_rows sha256 c i ps qs d
  unfolding match_rows match_row check_old
  match_rows-advantages c a i [] qs d = refl
  match_rows-advantages c a i (p ∷ ps) [] d = refl
  match_rows-advantages c a i (p ∷ ps) (q ∷ qs) d = bind-ap (match_row sha256 c i p q d) _ _ (λ m j.
      match_rows-advantages c a (i + 1) ps qs (remove m.0 d) j >>= λ rest. ok (m ∷ rest.0, rest.1))

  verify_rows-Perm :
      (records : List RolloutRecord) (c : Columns) (p q : Option (List Row)) (xs ys : List Row)
      → Permᴰ xs ys
      → verify_rows sha256 records (record c { advantages = some xs }) p q (some xs)
        ≡ verify_rows sha256 records (record c { advantages = some ys }) p q (some ys)
  verify_rows-Perm records c none q xs ys d = refl
  verify_rows-Perm records c (some ps) none xs ys d = refl
  verify_rows-Perm records c (some ps) (some qs) xs ys d =
      let avail = available_from [] records in
      rw (match_rows-advantages c (some xs) 0 ps qs avail) (
        rw (match_rows-advantages c (some ys) 0 ps qs avail)
          (elim (Result-cases (match_rows sha256 c 0 ps qs avail)) [
            | inl (r, e) ↦ rw e (rw (check_advantages-Perm xs ys (map (λ m. m.1) r.0) d) refl)
            | inr (why, e) ↦ rw e refl
          ]))

  verify_columns-Perm :
      (records : List RolloutRecord) (c : Columns) (xs ys : List Row)
      → is_rectangular xs ≡ true
      → is_rectangular ys ≡ true
      → Permᴰ xs ys
      → verify_columns sha256 records (record c { advantages = some xs })
        ≡ verify_columns sha256 records (record c { advantages = some ys })
  unfolding verify_columns
  verify_columns-Perm records c xs ys rx ry d =
      let np : (zs : List Row) → is_rectangular zs ≡ true → _as_np (some zs) ≡ ok (some zs) =
        rectangular in
      rw (np xs rx) (
        rw (np ys ry) (
          bind-ap (_as_np c.prompt_ids) _ _ λ p. bind-ap (_as_np c.completion_ids) _ _ λ q.
            bind-ap (_as_np c.prompt_mask) _ _ λ pm. bind-ap (_as_np c.completion_mask) _ _ λ cm.
              bind-ap (_as_np c.old_per_token_logps) _ _
                λ o. verify_rows-Perm records c p q xs ys d))

  -- The check of a batch has the same result for two arrays of advantages with rows of one length
  -- each that are permutations of each other.
  pub advantage_rows_unbound :
      (g : Guard) (c : Columns) (xs ys : List Row)
      → is_rectangular xs ≡ true
      → is_rectangular ys ≡ true
      → Permᴰ xs ys
      → _guard_pre_update sha256 (column_dict (record c { advantages = some xs })) g
        ≡ _guard_pre_update sha256 (column_dict (record c { advantages = some ys })) g
  unfolding _guard_pre_update verify_batch
  advantage_rows_unbound g c xs ys rx ry d =
      ground (arith, verify_columns-Perm g.rollouts c xs ys rx ry d)
