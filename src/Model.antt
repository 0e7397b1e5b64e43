-- ===== src/Model.antt =====
-- The data model of rest/model (include/schemaregistry/rest/model/*.h): schemas, rules and the
-- schemas that the registry has registered. An `int32_t` id or version is its bit pattern, a
-- number below 2 ^ 32; versions and ids that the code hands out are never negative.
use libschemaregistry.Prelude.{ℕ, Bool, List, Option, Text}
use libschemaregistry.Prelude.Dict.{Dict}

pub data Kind : Type 0 where
  transform condition : Kind

pub data Phase : Type 0 where
  migration domain encoding : Phase

pub data Mode : Type 0 where
  upgrade downgrade up_down write read write_read : Mode

unfoldable pub mode_dec : Discrete Mode
mode_dec = hlevel

pub record Rule : Type 0 where
  pub name : Option Text
  pub doc : Option Text
  pub kind : Option Kind
  pub mode : Option Mode
  pub rule_type : Option Text
  pub tags : Option (List Text)
  pub params : Option (Dict Text Text)
  pub expr : Option Text
  pub on_success : Option Text
  pub on_failure : Option Text
  pub disabled : Option Bool

pub record RuleSet : Type 0 where
  pub migration_rules : Option (List Rule)
  pub domain_rules : Option (List Rule)
  pub encoding_rules : Option (List Rule)
  pub enable_at : Option Text

pub record Metadata : Type 0 where
  pub tags : Option (Dict Text (List Text))
  pub properties : Option (Dict Text Text)
  pub sensitive : Option (List Text)

pub record SchemaReference : Type 0 where
  pub name : Option Text
  pub subject : Option Text
  pub version : Option ℕ

pub record Schema : Type 0 where
  pub schema_type : Option Text
  pub references : Option (List SchemaReference)
  pub metadata : Option Metadata
  pub rule_set : Option RuleSet
  pub schema : Option Text

pub record RegisteredSchema : Type 0 where
  pub id : Option ℕ
  pub guid : Option Text
  pub subject : Option Text
  pub version : Option ℕ
  pub schema_type : Option Text
  pub references : Option (List SchemaReference)
  pub metadata : Option Metadata
  pub rule_set : Option RuleSet
  pub schema : Option Text

-- The constructor of `RegisteredSchema` from a `Schema`.
unfoldable pub registered :
    Option ℕ → Option Text → Option Text → Option ℕ → Schema → RegisteredSchema
registered id guid subject version s = record {
  id = id;
  guid = guid;
  subject = subject;
  version = version;
  schema_type = s.schema_type;
  references = s.references;
  metadata = s.metadata;
  rule_set = s.rule_set;
  schema = s.schema;
}

-- `RegisteredSchema::toSchema`.
unfoldable pub to_schema : RegisteredSchema → Schema
to_schema rs = record {
  schema_type = rs.schema_type;
  references = rs.references;
  metadata = rs.metadata;
  rule_set = rs.rule_set;
  schema = rs.schema;
}
