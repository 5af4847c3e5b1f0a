-- ===== src/Rollup/Laws.antt =====
-- Running a roll-up again changes nothing that can be looked up.
use aegis_gateway.Prelude.{
  ℕ, ◌≡◌, refl, sym, String, Bool, true, false, ◌⊎◌, inl, inr, Option, none, some, List, [], ◌∷◌,
  if◌then◌else◌, arith, ap, ◌∙◌, eq_iff, Bool-cases,
}
use aegis_gateway.Scan.{Stored}
use aegis_gateway.Rollup.{
  UsageRollup, in_period, grouped, has_key, upsert, upsert_all, rollup_period,
}

module _ (tenant_id period_type : String) (period_start : ℕ) where
  abbrev is_it : UsageRollup → Bool
  is_it = has_key tenant_id period_type period_start

  -- The row of a tenant and a period.
  unfoldable pub find_rollup : List UsageRollup → Option UsageRollup
  find_rollup [] = none
  find_rollup (r ∷ table) = let rest = find_rollup table in if is_it r then some r else rest

  -- Rows with one key are both looked for, or neither is.
  is_it-same :
      (r q : UsageRollup)
      → has_key r.tenant_id r.period_type r.period_start q ≡ true
      → is_it q ≡ is_it r
  is_it-same r q same =
      ground (arith, eq_iff q.tenant_id r.tenant_id, eq_iff q.period_type r.period_type)

  is_it-both :
      (r q : UsageRollup)
      → has_key r.tenant_id r.period_type r.period_start q ≡ false
      → is_it r ≡ true
      → is_it q ≡ false
  is_it-both r q other this = ground (
    arith,
    eq_iff q.tenant_id r.tenant_id,
    eq_iff q.period_type r.period_type,
    eq_iff r.tenant_id tenant_id,
    eq_iff r.period_type period_type,
    eq_iff q.tenant_id tenant_id,
    eq_iff q.period_type period_type,
  )

  find_rollup-upsert :
      (r : UsageRollup) (table : List UsageRollup)
      → find_rollup (upsert r table) ≡ (if is_it r then some r else find_rollup table)
  unfolding find_rollup upsert
  find_rollup-upsert r [] = refl
  find_rollup-upsert r (q ∷ table) =
      elim (Bool-cases (has_key r.tenant_id r.period_type r.period_start q)) [
        | inl same ↦ simp same (
            simp (is_it-same r q same) (elim (Bool-cases (is_it r)) [
              | inl this ↦ simp this (refl)
              | inr that ↦ simp that (refl)
            ]))
        | inr other ↦
            let rest = find_rollup-upsert r table in
            simp other (
              simp rest (elim (Bool-cases (is_it r)) [
                | inl this ↦ simp this (simp (is_it-both r q other this) (refl))
                | inr that ↦ simp that (refl)
              ]))
      ]

  -- What a list of rows, upserted in order, leaves of a row that was found before.
  unfoldable pub pick : List UsageRollup → Option UsageRollup → Option UsageRollup
  pick [] o = o
  pick (r ∷ rows) o = pick rows (if is_it r then some r else o)

  pub find_rollup-upsert_all :
      (rows table : List UsageRollup)
      → find_rollup (upsert_all rows table) ≡ pick rows (find_rollup table)
  unfolding upsert_all pick
  find_rollup-upsert_all [] table = refl
  find_rollup-upsert_all (r ∷ rows) table =
      find_rollup-upsert_all rows (upsert r table) ∙ ap (pick rows) (find_rollup-upsert r table)

  -- Either the rows decide, or they leave everything as it is.
  pick-decides :
      (rows : List UsageRollup)
      → ((o : Option UsageRollup) → pick rows o ≡ o)
        ⊎ ((r : UsageRollup) × ((o : Option UsageRollup) → pick rows o ≡ some r))
  unfolding pick
  pick-decides [] = inl (λ o. refl)
  pick-decides (r ∷ rows) = elim (pick-decides rows) [
    | inr (q, decides) ↦ inr (q, λ o. decides _)
    | inl leaves ↦ elim (Bool-cases (is_it r)) [
      | inl this ↦ inr (r, λ o. leaves _ ∙ simp this (refl))
      | inr that ↦ inl (λ o. leaves _ ∙ simp that (refl))
    ]
  ]

  pick-pick :
      (rows : List UsageRollup) (o : Option UsageRollup) → pick rows (pick rows o) ≡ pick rows o
  pick-pick rows o = elim (pick-decides rows) [
    | inl leaves ↦ leaves (pick rows o)
    | inr (r, decides) ↦ decides (pick rows o) ∙ sym (decides o)
  ]

  -- Running the roll-up of a period twice leaves, for every tenant and period, the row that running
  -- it once leaves.
  pub rollup_period-idempotent :
      (kind : String) (start end_ : ℕ) (records : List Stored) (table : List UsageRollup)
      → let once = (rollup_period kind start end_ records table).0 in
        find_rollup (rollup_period kind start end_ records once).0 ≡ find_rollup once
  unfolding rollup_period
  rollup_period-idempotent kind start end_ records table =
      let rows = grouped kind start end_ (in_period kind start end_ records) in
      find_rollup-upsert_all rows (upsert_all rows table)
      ∙ ap (pick rows) (find_rollup-upsert_all rows table)
      ∙ pick-pick rows (find_rollup table)
      ∙ sym (find_rollup-upsert_all rows table)
