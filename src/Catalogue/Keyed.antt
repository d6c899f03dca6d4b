-- ===== src/Catalogue/Keyed.antt =====
-- What the catalogue holds after an upsert.
use totalrecall.Common.{
  Bool, false, ◌||◌, Option, none, some, List, [], ◌∷◌, ◌≡◌, refl, arith, any, Bool-cases, inl, inr,
  if◌then◌else◌,
}
use totalrecall.Common.Text.{String, ◌==◌, eq_iff}
use totalrecall.Catalogue.{CatalogueEntry}
use totalrecall.Catalogue.Table.{row_to_entry, upsert_row}

abbrev pub has_id : String → List CatalogueEntry → Bool
has_id id rows = any (λ r. r.entity_id == id) rows

-- No identifier has two rows.
abbrev pub IsKeyed : List CatalogueEntry → Type 0
IsKeyed [] = Unit
IsKeyed (row ∷ rows) = (has_id row.entity_id rows ≡ false) × IsKeyed rows

-- The row of an identifier, whoever owns it.
abbrev pub row_of : String → List CatalogueEntry → Option CatalogueEntry
row_of id [] = none
row_of id (row ∷ rows) = let rest = row_of id rows in if row.entity_id == id then some row else rest

-- What a tenant reads of a row.
abbrev pub owned : String → String → CatalogueEntry → Option CatalogueEntry
owned now tenant_id row = if row.tenant_id == tenant_id then some (row_to_entry now row) else none

-- The row that an upsert should leave under its identifier, field by field.
abbrev pub upserted : String → CatalogueEntry → Option CatalogueEntry → CatalogueEntry
upserted now entry none = record {
  entity_id = entry.entity_id;
  tenant_id = entry.tenant_id;
  application_id = entry.application_id;
  category = entry.category;
  status = entry.status;
  summary = entry.summary;
  tags = entry.tags;
  source = entry.source;
  owner = entry.owner;
  approved_by = entry.approved_by;
  approved_at = entry.approved_at;
  deleted_by = entry.deleted_by;
  deleted_at = entry.deleted_at;
  created_at = now;
  updated_at = now;
}
upserted now entry (some row) = record {
  entity_id = row.entity_id;
  tenant_id = row.tenant_id;
  application_id = row.application_id;
  category = row.category;
  status = entry.status;
  summary = entry.summary;
  tags = entry.tags;
  source = entry.source;
  owner = entry.owner;
  approved_by = entry.approved_by;
  approved_at = entry.approved_at;
  deleted_by = entry.deleted_by;
  deleted_at = entry.deleted_at;
  created_at = row.created_at;
  updated_at = now;
}

has_id-upsert_row :
    (now id : String) (entry : CatalogueEntry) (rows : List CatalogueEntry)
    → has_id id (upsert_row now entry rows) ≡ (entry.entity_id == id || has_id id rows)
unfolding upsert_row
has_id-upsert_row now id entry [] = ground arith
has_id-upsert_row now id entry (row ∷ rows) = ground (
  arith,
  eq_iff row.entity_id entry.entity_id,
  eq_iff row.entity_id id,
  eq_iff entry.entity_id id,
  has_id-upsert_row now id entry rows,
)

-- An upsert keeps the identifiers of a table distinct.
pub upsert_row-IsKeyed :
    (now : String) (entry : CatalogueEntry) (rows : List CatalogueEntry)
    → IsKeyed rows
    → IsKeyed (upsert_row now entry rows)
unfolding upsert_row
upsert_row-IsKeyed now entry [] keyed = (refl, tt)
upsert_row-IsKeyed now entry (row ∷ rows) keyed =
    elim (Bool-cases (row.entity_id == entry.entity_id)) [
      | inl same ↦ rw same keyed
      | inr other ↦ rw other (
        ground (
          arith,
          has_id-upsert_row now row.entity_id entry rows,
          eq_iff row.entity_id entry.entity_id,
          eq_iff entry.entity_id row.entity_id,
        ),
        upsert_row-IsKeyed now entry rows keyed.1,
      )
    ]
