-- ===== src/Catalogue.antt =====
-- totalrecall/catalogue/models.py: the entries of the catalogue, and what a search of it says. Times
-- are texts.
pub mod Table
pub mod Keyed
mod Examples
use totalrecall.Common.{ℕ, Option, List}
use totalrecall.Common.Text.{String}
use totalrecall.Common.Dict.{Dict}
use totalrecall.Common.Json.{Json}
use totalrecall.Generation.Models.{Framework}

pub data CatalogueCategory : Type 0 where
  static_skill dynamic_memory learning_reference : CatalogueCategory

pub data CatalogueStatus : Type 0 where
  discovered active rejected tombstoned deprecated : CatalogueStatus

pub record CatalogueSource : Type 0 where
  pub type : String
  pub reference : String
  pub file_path : Option String
  pub symbol_name : Option String
  pub commit_id : Option String
  pub scan_id : Option String

pub record CatalogueEntry : Type 0 where
  pub entity_id : String
  pub tenant_id : String
  pub application_id : String
  pub category : CatalogueCategory
  pub status : CatalogueStatus
  pub summary : String
  pub tags : Dict Json
  pub source : Option CatalogueSource
  pub owner : Option String
  pub approved_by : Option String
  pub approved_at : Option String
  pub deleted_by : Option String
  pub deleted_at : Option String
  pub created_at : String
  pub updated_at : String

pub record CatalogueSearchFilters : Type 0 where
  pub tenant_id : String
  pub application_id : Option String
  pub category : Option CatalogueCategory
  pub status : Option CatalogueStatus
  pub domain : Option String
  pub framework : Option Framework
  pub route : Option String
  pub limit : ℕ
  pub offset : ℕ

pub record CatalogueSearchResult : Type 0 where
  pub items : List CatalogueEntry
  pub total : ℕ
