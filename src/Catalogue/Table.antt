-- ===== src/Catalogue/Table.antt =====
-- totalrecall/storage/catalogue_repo.py: the table of entries, whose key is the identifier alone. A
-- statement is a function on the rows; the database's time, the time of a reading and a fresh
-- identifier are arguments.
use totalrecall.Common.{Bool, ◌&&◌, Option, none, some, List, [], ◌∷◌, map, any, if◌then◌else◌}
use totalrecall.Common.Text.{String, ◌==◌, truthy}
use totalrecall.Catalogue.{CatalogueStatus, CatalogueSource, CatalogueEntry}

-- A source without a type or a reference is read as none.
abbrev pub read_source : Option CatalogueSource → Option CatalogueSource
read_source none = none
read_source (some source) =
    if truthy source.type && truthy source.reference then some source else none

-- The times of the row are not read: the model fills in the time of the reading.
unfoldable pub row_to_entry : String → CatalogueEntry → CatalogueEntry
row_to_entry now row = record row {
  source = read_source row.source;
  created_at = now;
  updated_at = now;
}

unfoldable pub get : String → String → String → List CatalogueEntry → Option CatalogueEntry
get now tenant_id entity_id [] = none
get now tenant_id entity_id (row ∷ rows) =
    let rest = get now tenant_id entity_id rows in
    if row.entity_id == entity_id && row.tenant_id == tenant_id
    then some (row_to_entry now row)
    else rest

-- What `on conflict (id) do update` leaves of a row.
abbrev pub merge : String → CatalogueEntry → CatalogueEntry → CatalogueEntry
merge now entry row = record row {
  status = entry.status;
  summary = entry.summary;
  source = entry.source;
  tags = entry.tags;
  owner = entry.owner;
  approved_by = entry.approved_by;
  approved_at = entry.approved_at;
  deleted_by = entry.deleted_by;
  deleted_at = entry.deleted_at;
  updated_at = now;
}

unfoldable pub upsert_row : String → CatalogueEntry → List CatalogueEntry → List CatalogueEntry
upsert_row now entry [] = record entry { created_at = now; updated_at = now } ∷ []
upsert_row now entry (row ∷ rows) =
    let rest = upsert_row now entry rows in
    if row.entity_id == entry.entity_id then merge now entry row ∷ rows else row ∷ rest

abbrev pub identified : String → CatalogueEntry → CatalogueEntry
identified fresh entry =
    if truthy entry.entity_id then entry else record entry { entity_id = fresh }

unfoldable pub upsert :
    String → String → CatalogueEntry → List CatalogueEntry → CatalogueEntry × List CatalogueEntry
upsert now fresh entry rows = (identified fresh entry, upsert_row now (identified fresh entry) rows)

abbrev pub row_is : String → String → CatalogueEntry → Bool
row_is tenant_id entity_id row = row.entity_id == entity_id && row.tenant_id == tenant_id

unfoldable pub update_status :
    String → String → String → CatalogueStatus → List CatalogueEntry → Bool × List CatalogueEntry
update_status now tenant_id entity_id status rows = (
  any (row_is tenant_id entity_id) rows,
  map
      (λ r.
        if row_is tenant_id entity_id r then record r { status = status; updated_at = now } else r)
      rows,
)
