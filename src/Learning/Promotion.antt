-- ===== src/Learning/Promotion.antt =====
-- totalrecall/learning/promotion.py: which discoveries become entries of the catalogue.
use totalrecall.Common.{Bool, true, false, none, some}
use totalrecall.Common.Text.{String}
use totalrecall.Catalogue.{CatalogueCategory, CatalogueStatus, CatalogueEntry}
use totalrecall.Learning.Models.{
  LearningDiscoveryType, static_skill_candidate, dynamic_memory, catalogue_reference,
  LearningDiscovery,
}

unfoldable pub type_to_category : LearningDiscoveryType → CatalogueCategory
type_to_category static_skill_candidate = CatalogueCategory.static_skill
type_to_category dynamic_memory = CatalogueCategory.dynamic_memory
type_to_category catalogue_reference = CatalogueCategory.learning_reference

abbrev pub is_promotable : LearningDiscoveryType → Bool
is_promotable static_skill_candidate = true
is_promotable dynamic_memory = true
is_promotable catalogue_reference = false

unfoldable pub should_promote : LearningDiscovery → Bool
should_promote discovery = is_promotable discovery.discovery_type

-- The time is an argument.
unfoldable pub discovery_to_entry :
    String → LearningDiscovery → String → String → String → CatalogueEntry
unfolding type_to_category
discovery_to_entry now discovery tenant_id application_id approved_by = record {
  entity_id = discovery.discovery_id;
  tenant_id = tenant_id;
  application_id = application_id;
  category = type_to_category discovery.discovery_type;
  status = CatalogueStatus.active;
  summary = discovery.summary;
  tags = discovery.proposed_tags;
  source = some discovery.source;
  owner = none;
  approved_by = some approved_by;
  approved_at = some now;
  deleted_by = none;
  deleted_at = none;
  created_at = now;
  updated_at = now;
}
