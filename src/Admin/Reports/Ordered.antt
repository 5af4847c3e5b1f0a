-- ===== src/Admin/Reports/Ordered.antt =====
-- Pages of an ordered selection.
use aegis_gateway.Prelude.{
  ℕ, zero, suc, not, ◌+◌, ◌-◌, ◌≤◌, min, Bool, true, false, ◌&&◌, List, [], ◌∷◌, ◌≡◌, refl, ◌∙◌,
  leb, All, arith, if◌then◌else◌, ap,
}
use aegis_gateway.Admin.Reports.{OrderBy, select, take, drop}

module _ {A : Type 0} where
  -- The rows that pass a test.
  abbrev pub count : (A → Bool) → List A → ℕ
  count test [] = 0
  count test (a ∷ rows) = (if test a then 1 else 0) + count test rows

module _ {A : Type 0} (key : A → ℕ) where
  -- Newest first.
  abbrev pub IsDescending : List A → Type 0
  IsDescending [] = Unit
  IsDescending (a ∷ rows) = All (λ b. leb (key b) (key a) ≡ true) rows × IsDescending rows

  abbrev pub since : ℕ → A → Bool
  since s a = leb s (key a)

  count-old :
      (s : ℕ) (a : A) (rows : List A)
      → leb s (key a) ≡ false
      → All (λ b. leb (key b) (key a) ≡ true) rows
      → count (since s) rows ≡ 0
  count-old s a [] h g = refl
  count-old s a (b ∷ rows) h g = ground (arith, count-old s a rows)

  count-drop :
      (s offset : ℕ) (rows : List A)
      → IsDescending rows
      → count (since s) (drop offset rows) ≡ count (since s) rows - offset
  count-drop s zero rows d = ground arith
  count-drop s (suc n) [] d = ground arith
  count-drop s (suc n) (a ∷ rows) d = grind (arith, count-drop s n rows, count-old s a rows)

  count-take :
      (s limit : ℕ) (rows : List A)
      → IsDescending rows
      → count (since s) (take limit rows) ≡ min limit (count (since s) rows)
  count-take s zero rows d = ground arith
  count-take s (suc n) [] d = ground arith
  count-take s (suc n) (a ∷ rows) d = grind (arith, count-take s n rows, count-old s a rows)

  All-take : (P : A → Type 0) (n : ℕ) (rows : List A) → All P rows → All P (take n rows)
  All-take P zero rows h = tt
  All-take P (suc n) [] h = tt
  All-take P (suc n) (a ∷ rows) h = (h.0, All-take P n rows h.1)

  IsDescending-take : (n : ℕ) (rows : List A) → IsDescending rows → IsDescending (take n rows)
  IsDescending-take zero rows h = tt
  IsDescending-take (suc n) [] h = tt
  IsDescending-take (suc n) (a ∷ rows) h = (All-take _ n rows h.0, IsDescending-take n rows h.1)

  IsDescending-drop : (n : ℕ) (rows : List A) → IsDescending rows → IsDescending (drop n rows)
  IsDescending-drop zero rows h = h
  IsDescending-drop (suc n) [] h = tt
  IsDescending-drop (suc n) (a ∷ rows) h = IsDescending-drop n rows h.1

module _ {A : Type 0} (test : A → Bool) where
  count-take_le : (n : ℕ) (rows : List A) → count test (take n rows) ≤ count test rows
  count-take_le zero rows = ground arith
  count-take_le (suc n) [] = ground arith
  count-take_le (suc n) (a ∷ rows) = ground (arith, count-take_le n rows)

  count-drop_le : (n : ℕ) (rows : List A) → count test (drop n rows) ≤ count test rows
  count-drop_le zero rows = ground arith
  count-drop_le (suc n) [] = ground arith
  count-drop_le (suc n) (a ∷ rows) = ground (arith, count-drop_le n rows)

  count-select :
      (wanted : A → Bool) (rows : List A)
      → count test (select wanted rows) ≡ count (λ a. wanted a && test a) rows
  count-select wanted [] = refl
  count-select wanted (a ∷ rows) = ground (arith, count-select wanted rows)

module _ {A : Type 0} (wanted : A → Bool) where
  none_left :
      (rows : List A) → count (λ a. not (wanted a)) rows ≡ 0 → All (λ a. wanted a ≡ true) rows
  none_left [] h = tt
  none_left (a ∷ rows) h = (ground arith, none_left rows (ground arith))

  count-contradiction : (rows : List A) → count (λ a. wanted a && not (wanted a)) rows ≡ 0
  count-contradiction [] = refl
  count-contradiction (a ∷ rows) = ground (arith, count-contradiction rows)

  count-and_le :
      (test : A → Bool) (rows : List A) → count (λ a. wanted a && test a) rows ≤ count test rows
  count-and_le test [] = ground arith
  count-and_le test (a ∷ rows) = ground (arith, count-and_le test rows)

pub select_all : {A : Type 0} (rows : List A) → select (λ a. true) rows ≡ rows
select_all [] = refl
select_all (a ∷ rows) = ap (λ r. a ∷ r) (select_all rows)

-- What SQL promises of ORDER BY: the same rows, each as often, in a descending order; ties stand in any order.
pub record IsOrdering (database : OrderBy) : Type 1 where
  pub descending :
      {A : Type 0} (key : A → ℕ) (rows : List A)
      → IsDescending key (database.order_by_desc key rows)
  pub same_rows :
      {A : Type 0} (key : A → ℕ) (rows : List A) (test : A → Bool)
      → count test (database.order_by_desc key rows) ≡ count test rows

-- A page has only wanted rows of the table, newest first, and of the wanted rows since any time it has as many as the
-- limit allows behind the offset.
pub record IsPage {A : Type 0} (key : A → ℕ) (wanted : A → Bool) (limit offset : ℕ)
    (table page : List A) : Type 0 where
  pub wanted_only : All (λ a. wanted a ≡ true) page
  pub of_table : (test : A → Bool) → count test page ≤ count test table
  pub newest_first : IsDescending key page
  pub newest :
      (s : ℕ)
      → count (since key s) page ≡ min limit (count (λ a. wanted a && since key s a) table - offset)

-- All wanted rows of the table, newest first.
pub record IsWhole {A : Type 0} (key : A → ℕ) (wanted : A → Bool) (table result : List A)
    : Type 0 where
  pub wanted_only : All (λ a. wanted a ≡ true) result
  pub newest_first : IsDescending key result
  pub same_rows : (test : A → Bool) → count test result ≡ count (λ a. wanted a && test a) table

module _ (database : OrderBy) (o : IsOrdering database) {A : Type 0} (key : A → ℕ)
    (wanted : A → Bool) (table : List A) where
  abbrev ordered : List A
  ordered = database.order_by_desc key (select wanted table)

  count-page_le :
      (limit offset : ℕ) (test : A → Bool)
      → count test (take limit (drop offset ordered)) ≤ count (λ a. wanted a && test a) table
  count-page_le limit offset test = omega (
    arith,
    count-take_le test limit (drop offset ordered),
    count-drop_le test offset ordered,
    o.same_rows key (select wanted table) test,
    count-select test wanted table,
  )

  pub page-IsPage :
      (limit offset : ℕ) → IsPage key wanted limit offset table (take limit (drop offset ordered))
  page-IsPage limit offset =
      let sorted = o.descending key (select wanted table) in
      record {
        wanted_only = none_left wanted _ (
            omega (
              arith,
              count-page_le limit offset (λ a. not (wanted a)),
              count-contradiction wanted table,
            ));
        of_table =
            λ test. omega (arith, count-page_le limit offset test, count-and_le wanted test table);
        newest_first = IsDescending-take key limit _ (IsDescending-drop key offset ordered sorted);
        newest = λ s.
            count-take key s limit (drop offset ordered)
              (IsDescending-drop key offset ordered sorted)
            ∙ rw (count-drop key s offset ordered sorted) (
                rw (o.same_rows key (select wanted table) (since key s))
                  (ap (λ n. min limit (n - offset)) (count-select (since key s) wanted table)));
      }

  -- Without a limit the selection is whole.
  pub ordered-IsWhole : IsWhole key wanted table ordered
  ordered-IsWhole = record {
    wanted_only = none_left wanted ordered (
        omega (
          arith,
          o.same_rows key (select wanted table) (λ a. not (wanted a)),
          count-select (λ a. not (wanted a)) wanted table,
          count-contradiction wanted table,
        ));
    newest_first = o.descending key (select wanted table);
    same_rows = λ test. o.same_rows key (select wanted table) test ∙ count-select test wanted table;
  }
