-- ===== src/Tests/Registry.antt =====
-- The mock registry (src/rest/MockSchemaRegistryClient.cpp) at concrete inputs.
use libschemaregistry.Mock.{
  register_schema, unless_existing, register_new, next_version, get_by_schema, get_version,
  get_latest_version, get_by_subject_and_id, get_by_guid, delete_subject, delete_subject_version,
  or_not_found,
}
use libschemaregistry.Mock.Deletion.{delete_subject-reads, delete_subject_version-reads}
use libschemaregistry.Mock.Lifecycle.{register_schema-registers, register_schema-latest}
use libschemaregistry.Mock.Store.{
  MockSchemaStore, empty, generation, next_int, schemas_of, set_registered_schema, insert_if,
  get_registered_by_schema, get_registered_by_version, find_text, find_version, latest_version,
  latest_of, get_schema_by_id, get_versions, remove_by_schema, remove_from, remove_text, same_text,
}
use libschemaregistry.Mock.Valid.{IsValid, empty-IsValid, register_schema-IsValid, made}
use libschemaregistry.Model.{Schema, RegisteredSchema, registered, to_schema}
use libschemaregistry.Outcome.{ok}
use libschemaregistry.Prelude.Dict.{lookup, insert}
use libschemaregistry.Prelude.{ℕ, [], ◌∷◌, none, some, Text, text_dec, ite, ◌≡◌, refl, arith}

abbrev subject : Text
subject = 115 ∷ []

abbrev other_subject : Text
other_subject = 115 ∷ 116 ∷ []

abbrev guid : Text
guid = 103 ∷ []

abbrev schema : Schema
schema = record {
  schema_type = none;
  references = none;
  metadata = none;
  rule_set = none;
  schema = some (123 ∷ 125 ∷ []);
}

abbrev first_schema : RegisteredSchema
first_schema = made guid subject schema 1 1

-- The store after the first registration.
abbrev one_schema : MockSchemaStore
one_schema = record {
  schemas = (subject, first_schema ∷ []) ∷ [];
  schema_id_index = (1, first_schema) ∷ [];
  schema_guid_index = (guid, first_schema) ∷ [];
  schema_index = (123 ∷ 125 ∷ [], first_schema) ∷ [];
  next_schema_id = 2;
}

registers_first : register_schema guid subject schema empty ≡ ok (first_schema, one_schema)
unfolding empty register_schema unless_existing register_new next_version latest_version latest_of
    get_registered_by_schema find_text schemas_of lookup insert insert_if set_registered_schema
    next_int registered
registers_first = refl

one_schema-IsValid : IsValid one_schema
one_schema-IsValid =
    register_schema-IsValid guid subject schema first_schema empty one_schema empty-IsValid
      registers_first

register_schema-IsValid_example : IsValid one_schema
register_schema-IsValid_example =
    register_schema-IsValid guid subject schema first_schema empty one_schema empty-IsValid
      registers_first

register_schema-registers_example :
    (get_by_schema subject schema one_schema ≡ ok first_schema)
    × (get_version subject (generation first_schema) one_schema ≡ ok first_schema)
    × (register_schema (104 ∷ []) subject schema one_schema ≡ ok (first_schema, one_schema))
register_schema-registers_example =
    register_schema-registers guid (104 ∷ []) subject schema first_schema empty one_schema
      empty-IsValid registers_first

register_schema-latest_example :
    (get_latest_version subject one_schema ≡ ok first_schema)
    × (first_schema.id ≡ some 1)
    × (get_schema_by_id 1 empty ≡ none)
    × (get_by_subject_and_id (some subject) 1 one_schema ≡ ok (to_schema first_schema))
    × (get_by_guid guid one_schema ≡ ok (to_schema first_schema))
unfolding empty get_registered_by_schema find_text schemas_of lookup
register_schema-latest_example =
    register_schema-latest guid subject schema first_schema empty one_schema empty-IsValid refl
      registers_first

delete_subject-reads_example :
    ((delete_subject subject one_schema).0 ≡ get_versions subject one_schema)
    × (get_version subject 1 (delete_subject subject one_schema).1
        ≡ ite (text_dec subject subject) (or_not_found none) (get_version subject 1 one_schema))
    × (get_by_schema subject schema (delete_subject subject one_schema).1
        ≡ ite
            (text_dec subject subject)
            (or_not_found none)
            (get_by_schema subject schema one_schema))
    × (get_by_guid guid (delete_subject subject one_schema).1 ≡ get_by_guid guid one_schema)
delete_subject-reads_example = delete_subject-reads subject subject guid 1 schema one_schema

-- The store after the deletion of its one version.
abbrev no_version : MockSchemaStore
no_version = record one_schema { schemas = (subject, []) ∷ [] }

deletes_first : delete_subject_version subject 1 one_schema ≡ ok (1, no_version)
unfolding delete_subject_version get_registered_by_version find_version schemas_of lookup insert
    remove_by_schema remove_from remove_text same_text generation registered
deletes_first = ground arith

delete_subject_version-reads_example :
    ◌≡◌ {A = ℕ} 1 1
    × (get_version subject 1 no_version ≡ or_not_found none)
    × (get_version other_subject 1 no_version ≡ get_version other_subject 1 one_schema)
    × (get_by_subject_and_id (some subject) 1 no_version
        ≡ get_by_subject_and_id (some subject) 1 one_schema)
    × (get_by_guid guid no_version ≡ get_by_guid guid one_schema)
delete_subject_version-reads_example =
    delete_subject_version-reads subject other_subject guid 1 1 1 1 one_schema no_version
      one_schema-IsValid (λ e. cc e) deletes_first
