-- ===== src/Control/Census/Rules.antt =====
-- What the census of backend/control_plane/recovery.py decides.
use snack_portal.Common.{
  ℕ, ◌≡◌, ◌≢◌, ◌↔◌, ◌⊎◌, inl, inr, refl, sym, subst, true, false, not, List, [], ◌∷◌, all,
  all_sound, all_complete, All, arith,
}
use snack_portal.Common.Text.{Text, text_eq, text_eq_iff}
use snack_portal.Common.Dict.{Dict}
use snack_portal.Control.Ports.{RowCount, unknown, rows, DatabaseInspection}
use snack_portal.Control.Census.{
  Content, seed_table, sentinel_table, version_table, bootstrap_tables, mem_text, count_is,
  count_negative, table_passes, classify_tables, classify_content,
}

-- What the bootstrap itself may have left in one table.
pub record IsBootstrapTable (supported : List Text) (inspection : DatabaseInspection) (name : Text)
    (count : RowCount) : Type 0 where
  -- the table is one of the bootstrap
  pub known : mem_text name bootstrap_tables ≡ true
  -- a seeded table has the seed row and no other
  pub seeded :
      name ≡ seed_table
      → (count ≡ rows 1)
        × (inspection.agents_total ≡ rows 1)
        × (inspection.agents_system_primary ≡ rows 1)
  -- the version table can be counted, and has supported versions only, one at least
  pub versioned :
      name ≡ version_table
      → (count ≢ unknown)
        × (inspection.schema_versions ≢ [])
        × All (λ v. mem_text v supported ≡ true) inspection.schema_versions
  -- any other table but the sentinel's has no row
  pub bare : name ≢ sentinel_table → name ≢ seed_table → name ≢ version_table → count ≡ rows 0

count_is_iff : (k : ℕ) (c : RowCount) → (count_is k c ≡ true) ↔ (c ≡ rows k)
unfolding count_is
count_is_iff k unknown = (λ h. cc, λ h. cc)
count_is_iff k (rows n) = ground arith

special_distinct :
    (text_eq sentinel_table seed_table ≡ false)
    × (text_eq sentinel_table version_table ≡ false)
    × (text_eq seed_table version_table ≡ false)
unfolding text_eq sentinel_table seed_table version_table
special_distinct = (refl, refl, refl)

name_cases :
    (name : Text)
    → (name ≡ sentinel_table)
      ⊎ ((name ≡ seed_table)
          ⊎ ((name ≡ version_table)
              ⊎ ((name ≢ sentinel_table) × (name ≢ seed_table) × (name ≢ version_table))))
name_cases name = ground (
  arith,
  text_eq_iff name sentinel_table,
  text_eq_iff name seed_table,
  text_eq_iff name version_table,
)

nonempty_iff :
    {A : Type 0} (xs : List A) → (not (elim xs [ [] ↦ true | _ ∷ _ ↦ false ]) ≡ true) ↔ (xs ≢ [])
nonempty_iff [] = (λ h. cc, λ h. absurd (h refl))
nonempty_iff (x ∷ xs) = (λ h e. cc, λ h. refl)

count_known_iff : (c : RowCount) → (not (count_negative c) ≡ true) ↔ (c ≢ unknown)
unfolding count_negative
count_known_iff unknown = (λ h. cc, λ h. absurd (h refl))
count_known_iff (rows n) = (λ h e. cc, λ h. refl)

module _ (supported : List Text) (inspection : DatabaseInspection) where
  -- The rules as tests on the name and the count.
  passes_sentinel : (c : RowCount) → table_passes supported inspection (sentinel_table, c) ≡ true
  unfolding table_passes
  passes_sentinel c = ground (arith, text_eq_iff sentinel_table sentinel_table)

  passes_seed :
      (c : RowCount)
      → (table_passes supported inspection (seed_table, c) ≡ true) ↔ (
          (c ≡ rows 1)
          × (inspection.agents_total ≡ rows 1)
          × (inspection.agents_system_primary ≡ rows 1))
  unfolding table_passes
  passes_seed c = ground (
    arith,
    special_distinct,
    text_eq_iff seed_table sentinel_table,
    text_eq_iff seed_table seed_table,
    text_eq_iff sentinel_table seed_table,
    count_is_iff 1 c,
    count_is_iff 1 inspection.agents_total,
    count_is_iff 1 inspection.agents_system_primary,
  )

  passes_version :
      (c : RowCount)
      → (table_passes supported inspection (version_table, c) ≡ true) ↔ (
          (c ≢ unknown)
          × (inspection.schema_versions ≢ [])
          × (all (λ v. mem_text v supported) inspection.schema_versions ≡ true))
  unfolding table_passes
  passes_version c = ground (
    arith,
    special_distinct,
    text_eq_iff version_table sentinel_table,
    text_eq_iff version_table seed_table,
    text_eq_iff version_table version_table,
    text_eq_iff sentinel_table version_table,
    text_eq_iff seed_table version_table,
    count_known_iff c,
    nonempty_iff inspection.schema_versions,
  )

  passes_other :
      (name : Text) (c : RowCount)
      → name ≢ sentinel_table
      → name ≢ seed_table
      → name ≢ version_table
      → (table_passes supported inspection (name, c) ≡ true) ↔ (c ≡ rows 0)
  unfolding table_passes
  passes_other name c a b d = ground (
    arith,
    text_eq_iff name sentinel_table,
    text_eq_iff name seed_table,
    text_eq_iff name version_table,
    count_is_iff 0 c,
  )

  table_sound :
      (name : Text) (c : RowCount)
      → mem_text name bootstrap_tables ≡ true
      → table_passes supported inspection (name, c) ≡ true
      → IsBootstrapTable supported inspection name c
  table_sound name c known h = record {
    known = known;
    seeded =
        λ e. (passes_seed c).0 (subst (λ n. table_passes supported inspection (n, c) ≡ true) e h);
    versioned = λ e.
        let (a, b, d) =
          (passes_version c).0 (subst (λ n. table_passes supported inspection (n, c) ≡ true) e h) in
        (a, b, all_sound (λ v. mem_text v supported) inspection.schema_versions d);
    bare = λ a b d. (passes_other name c a b d).0 h;
  }

  table_complete :
      (name : Text) (c : RowCount)
      → IsBootstrapTable supported inspection name c
      → table_passes supported inspection (name, c) ≡ true
  table_complete name c t = elim (name_cases name) [
    | inl e ↦
        subst (λ n. table_passes supported inspection (n, c) ≡ true) (sym e) (passes_sentinel c)
    | inr (inl e) ↦
        subst (λ n. table_passes supported inspection (n, c) ≡ true) (sym e)
          ((passes_seed c).1 (t.seeded e))
    | inr (inr (inl e)) ↦
        let (a, b, d) = t.versioned e in
        subst (λ n. table_passes supported inspection (n, c) ≡ true) (sym e)
          ((passes_version c).1
            (a, b, all_complete (λ v. mem_text v supported) inspection.schema_versions d))
    | inr (inr (inr (a, b, d))) ↦ (passes_other name c a b d).1 (t.bare a b d)
  ]

  tables_sound :
      (ts : Dict RowCount)
      → all (λ e. mem_text e.0 bootstrap_tables) ts ≡ true
      → all (table_passes supported inspection) ts ≡ true
      → All (λ e. IsBootstrapTable supported inspection e.0 e.1) ts
  tables_sound [] known h = tt
  tables_sound ((name, c) ∷ ts) known h = (
    table_sound name c (ground arith) (ground arith),
    tables_sound ts (ground arith) (ground arith),
  )

  tables_complete :
      (ts : Dict RowCount)
      → All (λ e. IsBootstrapTable supported inspection e.0 e.1) ts
      → (all (λ e. mem_text e.0 bootstrap_tables) ts ≡ true)
        × (all (table_passes supported inspection) ts ≡ true)
  tables_complete [] h = (refl, refl)
  tables_complete ((name, c) ∷ ts) (t, h) =
      let (known, pass) = tables_complete ts h in
      (ground (arith, t.known), ground (arith, table_complete name c t))

  tables_classified :
      (ts : Dict RowCount)
      → ((classify_tables supported inspection ts ≡ Content.empty) ↔ (ts ≡ []))
        × ((classify_tables supported inspection ts ≡ Content.bootstrap_only)
            ↔ ((ts ≢ []) × All (λ e. IsBootstrapTable supported inspection e.0 e.1) ts))
  unfolding classify_tables
  tables_classified [] = ((λ h. refl, λ h. refl), (λ h. cc, λ (n, h). absurd (n refl)))
  tables_classified (t ∷ ts) = (
    (λ h. ground arith, λ h. cc),
    (
      λ h. (λ e. cc, tables_sound (t ∷ ts) (ground arith) (ground arith)),
      λ (n, h). ground (arith, tables_complete (t ∷ ts) h),
    ),
  )

-- The census says EMPTY exactly for a database without user tables, and BOOTSTRAP_ONLY exactly for
-- one that has tables, every one of which is a bootstrap table with the content that the bootstrap
-- alone leaves in it; every other database is NON_EMPTY.
pub classify_content-IsBootstrapTable :
    (supported : List Text) (inspection : DatabaseInspection)
    → ((classify_content supported inspection ≡ Content.empty) ↔ (inspection.user_tables ≡ []))
      × ((classify_content supported inspection ≡ Content.bootstrap_only) ↔ (
          (inspection.user_tables ≢ [])
          × All (λ e. IsBootstrapTable supported inspection e.0 e.1) inspection.user_tables))
unfolding classify_content
classify_content-IsBootstrapTable supported inspection =
    tables_classified supported inspection inspection.user_tables
