-- ===== src/Catalogue/Examples.antt =====
-- An entry of one tenant, upserted by another under the same identifier.
use totalrecall.Common.{none, List, [], ◌∷◌}
use totalrecall.Common.Text.{String}
use totalrecall.Catalogue.{CatalogueCategory, CatalogueStatus, CatalogueEntry}

abbrev entry : String → String → CatalogueEntry
entry tenant summary = record {
  entity_id = "e1";
  tenant_id = tenant;
  application_id = "shop";
  category = CatalogueCategory.static_skill;
  status = CatalogueStatus.active;
  summary = summary;
  tags = [];
  source = none;
  owner = none;
  approved_by = none;
  approved_at = none;
  deleted_by = none;
  deleted_at = none;
  created_at = "t0";
  updated_at = "t0";
}

abbrev table : List CatalogueEntry
table = entry "acme" "login" ∷ []
