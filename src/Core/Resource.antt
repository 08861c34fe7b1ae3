-- ===== src/Core/Resource.antt =====
-- shaperail-core/src/resource.rs and relation.rs: a resource as its YAML file declares it.
use shaperail.Prelude.{ℕ, String, List, Option, Bool}
use shaperail.Core.Schema.{FieldSchema}
use shaperail.Core.Endpoint.{EndpointSpec}

pub data RelationType : Type 0 where
  belongs_to has_many has_one : RelationType

pub record RelationSpec : Type 0 where
  pub resource : String
  pub relation_type : RelationType
  pub key : Option String
  pub foreign_key : Option String

pub record IndexSpec : Type 0 where
  pub fields : List String
  pub unique : Bool
  pub order : Option String

pub record ResourceDefinition : Type 0 where
  pub resource : String
  pub version : ℕ
  pub db : Option String
  pub tenant_key : Option String
  pub schema : List (String × FieldSchema)
  pub endpoints : Option (List (String × EndpointSpec))
  pub relations : Option (List (String × RelationSpec))
  pub indexes : Option (List IndexSpec)
