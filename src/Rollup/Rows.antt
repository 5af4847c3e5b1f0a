-- ===== src/Rollup/Rows.antt =====
-- The row that a roll-up writes for a tenant, as sums over the tenant's records.
use aegis_gateway.Prelude.{
  ℕ, ◌+◌, ◌≡◌, refl, sym, String, false, ◌&&◌, Option, none, some, List, [], ◌∷◌, if◌then◌else◌,
  arith, ap, ◌∙◌, eq_iff, ◌≟◌, ◌==◌, Bool-cases, inl, inr,
}
use aegis_gateway.Database.{UsageRecord}
use aegis_gateway.Scan.{Stored}
use aegis_gateway.Rollup.{
  UsageRollup, single, extended, add_record, in_period, grouped, has_key, rollup_period,
}
use aegis_gateway.Rollup.Totals.{
  aggregate, contribution, Column, request_count, cache_hit_count, prompt_tokens, completion_tokens,
  total_tokens, cost_usd, total, value,
}
use aegis_gateway.Rollup.Laws.{find_rollup, pick, find_rollup-upsert_all}

abbrev pub or_else : Option UsageRollup → Option UsageRollup → Option UsageRollup
or_else (some r) o = some r
or_else none o = o

or_else-none : (o : Option UsageRollup) → or_else o none ≡ o
or_else-none none = refl
or_else-none (some r) = refl

module _ (tenant_id kind : String) (start end_ : ℕ) where
  abbrev find : List UsageRollup → Option UsageRollup
  find = find_rollup tenant_id kind start

  -- Rows of one period, each tenant's once.
  abbrev AreGroups : List UsageRollup → Type 0
  AreGroups [] = Unit
  AreGroups (g ∷ groups) =
      (g.period_type ≡ kind)
      × (g.period_start ≡ start)
      × (find_rollup g.tenant_id kind start groups ≡ none)
      × AreGroups groups

  aggregate-single :
      (c : Column) (u : UsageRecord) → aggregate c (single kind start end_ u) ≡ contribution c u
  unfolding single
  aggregate-single request_count u = refl
  aggregate-single cache_hit_count u = refl
  aggregate-single prompt_tokens u = refl
  aggregate-single completion_tokens u = refl
  aggregate-single total_tokens u = refl
  aggregate-single cost_usd u = refl

  aggregate-extended :
      (c : Column) (u : UsageRecord) (g : UsageRollup)
      → aggregate c (extended kind start end_ u g) ≡ contribution c u + aggregate c g
  unfolding extended
  aggregate-extended request_count u g = refl
  aggregate-extended cache_hit_count u g = refl
  aggregate-extended prompt_tokens u g = refl
  aggregate-extended completion_tokens u g = refl
  aggregate-extended total_tokens u g = refl
  aggregate-extended cost_usd u g = refl

  find-add_record-other :
      (u : UsageRecord) (groups : List UsageRollup)
      → (u.tenant_id ≟ tenant_id) ≡ false
      → find (add_record kind start end_ u groups) ≡ find groups
  unfolding find_rollup add_record single extended
  find-add_record-other u [] other = ground arith
  find-add_record-other u (g ∷ groups) other = ground (
    arith,
    find-add_record-other u groups other,
    eq_iff g.tenant_id u.tenant_id,
    eq_iff g.tenant_id tenant_id,
    eq_iff u.tenant_id tenant_id,
  )

  value-find-add_record :
      (c : Column) (u : UsageRecord) (groups : List UsageRollup)
      → AreGroups groups
      → value c (find (add_record kind start end_ u groups))
        ≡ (if u.tenant_id ≟ tenant_id then contribution c u else 0) + value c (find groups)
  unfolding find_rollup add_record single extended value
  value-find-add_record c u [] ok =
      ground (arith, eq_iff u.tenant_id tenant_id, eq_iff kind kind, aggregate-single c u)
  value-find-add_record c u (g ∷ groups) ok = elim (Bool-cases (g.tenant_id ≟ u.tenant_id)) [
    | inl same ↦ rw same (
        ground (
          arith,
          aggregate-extended c u g,
          eq_iff g.tenant_id u.tenant_id,
          eq_iff g.tenant_id tenant_id,
          eq_iff u.tenant_id tenant_id,
          eq_iff kind kind,
        ))
    | inr other ↦ rw other (
        ground (
          arith,
          value-find-add_record c u groups ok.3,
          eq_iff g.tenant_id u.tenant_id,
          eq_iff g.tenant_id tenant_id,
          eq_iff u.tenant_id tenant_id,
          eq_iff kind kind,
        ))
  ]

module _ (kind : String) (start end_ : ℕ) where
  add_record-AreGroups :
      (tenant_id : String) (u : UsageRecord) (groups : List UsageRollup)
      → AreGroups tenant_id kind start end_ groups
      → AreGroups tenant_id kind start end_ (add_record kind start end_ u groups)
  unfolding add_record single extended find_rollup
  add_record-AreGroups tenant_id u [] ok = (refl, refl, refl, tt)
  add_record-AreGroups tenant_id u (g ∷ groups) (a, b, fresh, rest) =
      elim (Bool-cases (g.tenant_id ≟ u.tenant_id)) [
        | inl same ↦ rw same (a, b, fresh, rest)
        | inr other ↦ rw other (
          a,
          b,
          ground (
            arith,
            find-add_record-other g.tenant_id kind start end_ u groups,
            eq_iff g.tenant_id u.tenant_id,
            eq_iff u.tenant_id g.tenant_id,
          ),
          add_record-AreGroups tenant_id u groups rest,
        )
      ]

  grouped-AreGroups :
      (tenant_id : String) (records : List UsageRecord)
      → AreGroups tenant_id kind start end_ (grouped kind start end_ records)
  unfolding grouped
  grouped-AreGroups tenant_id [] = tt
  grouped-AreGroups tenant_id (u ∷ records) =
      add_record-AreGroups tenant_id u (grouped kind start end_ records)
        (grouped-AreGroups tenant_id records)

  -- The row of a tenant among the groups adds up the tenant's records of the period.
  value-find-grouped :
      (tenant_id : String) (c : Column) (records : List Stored)
      → value c (
          find_rollup tenant_id kind start
            (grouped kind start end_ (in_period kind start end_ records)))
        ≡ total tenant_id start end_ c records
  unfolding grouped in_period total find_rollup value
  value-find-grouped tenant_id c [] = refl
  value-find-grouped tenant_id c (row ∷ records) =
      let rest = in_period kind start end_ records in
      ground (
        arith,
        value-find-grouped tenant_id c records,
        value-find-add_record tenant_id kind start end_ c row.usage (grouped kind start end_ rest)
            (grouped-AreGroups tenant_id rest),
      )

  -- Upserting groups: the group of the tenant, or what was there.
  pick-groups :
      (tenant_id : String) (groups : List UsageRollup) (o : Option UsageRollup)
      → AreGroups tenant_id kind start end_ groups
      → pick tenant_id kind start groups o ≡ or_else (find_rollup tenant_id kind start groups) o
  unfolding pick find_rollup
  pick-groups tenant_id [] o ok = refl
  pick-groups tenant_id (g ∷ groups) o (a, b, fresh, rest) =
      elim (Bool-cases (has_key tenant_id kind start g)) [
        | inl this ↦
            let same : g.tenant_id ≡ tenant_id = ground (arith, eq_iff g.tenant_id tenant_id) in
            let gone : find_rollup tenant_id kind start groups ≡ none =
              ap (λ t. find_rollup t kind start groups) (sym same) ∙ fresh in
            simp this (pick-groups tenant_id groups (some g) rest ∙ simp gone (refl))
        | inr that ↦ simp that (pick-groups tenant_id groups o rest)
      ]

  pick-other :
      (tenant_id other : String) (at_ : ℕ) (groups : List UsageRollup) (o : Option UsageRollup)
      → (kind ≟ other && start == at_) ≡ false
      → AreGroups tenant_id kind start end_ groups
      → pick tenant_id other at_ groups o ≡ o
  unfolding pick
  pick-other tenant_id other at_ [] o differs ok = refl
  pick-other tenant_id other at_ (g ∷ groups) o differs (a, b, fresh, rest) =
      let not_it : has_key tenant_id other at_ g ≡ false =
        ground (arith, eq_iff g.period_type other, eq_iff kind other) in
      simp not_it (pick-other tenant_id other at_ groups o differs rest)

  -- What a roll-up leaves for a tenant and its own period: the total over the tenant's records, if
  -- no row was there before.
  pub value-rollup_period :
      (tenant_id : String) (c : Column) (records : List Stored) (table : List UsageRollup)
      → find_rollup tenant_id kind start table ≡ none
      → value c (find_rollup tenant_id kind start (rollup_period kind start end_ records table).0)
        ≡ total tenant_id start end_ c records
  unfolding rollup_period
  value-rollup_period tenant_id c records table absent =
      let rows = grouped kind start end_ (in_period kind start end_ records) in
      ap (value c) (
        find_rollup-upsert_all tenant_id kind start rows table
        ∙ ap (pick tenant_id kind start rows) absent
        ∙ pick-groups tenant_id rows none
            (grouped-AreGroups tenant_id (in_period kind start end_ records))
        ∙ or_else-none (find_rollup tenant_id kind start rows))
      ∙ value-find-grouped tenant_id c records

  -- Other rows stay as they are.
  pub find_rollup-rollup_period-other :
      (tenant_id other : String) (at_ : ℕ) (records : List Stored) (table : List UsageRollup)
      → (kind ≟ other && start == at_) ≡ false
      → find_rollup tenant_id other at_ (rollup_period kind start end_ records table).0
        ≡ find_rollup tenant_id other at_ table
  unfolding rollup_period
  find_rollup-rollup_period-other tenant_id other at_ records table differs =
      let rows = grouped kind start end_ (in_period kind start end_ records) in
      find_rollup-upsert_all tenant_id other at_ rows table
      ∙ pick-other tenant_id other at_ rows (find_rollup tenant_id other at_ table) differs
          (grouped-AreGroups tenant_id (in_period kind start end_ records))
