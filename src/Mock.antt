-- ===== src/Mock.antt =====
-- `MockSchemaStore` and `MockSchemaRegistryClient` (src/rest/MockSchemaRegistryClient.cpp): the
-- registry in memory that tests use in place of the server. The mutex is taken for the whole of
-- each call, so that calls are steps. `generateGuid` is random: the GUID is an argument.
pub mod Store
pub mod Rows
pub mod Valid
pub mod Removal
pub mod Search
pub mod Deletion
pub mod Lifecycle
pub mod AsClient
use libschemaregistry.Mock.Store.{
  MockSchemaStore, generation, set_registered_schema, get_schema_by_id, get_schema_by_guid,
  get_registered_by_schema, get_registered_by_version, latest_version, get_latest_with_metadata,
  get_subjects, get_versions, remove_by_schema, remove_by_subject, clear, next_int,
}
use libschemaregistry.Model.{RegisteredSchema, Schema, registered}
use libschemaregistry.Outcome.{Exception, Outcome, ok, throw, ◌>>=◌}
use libschemaregistry.Prelude.Dict.{Dict}
use libschemaregistry.Prelude.{ℕ, List, Option, none, some, Text, codes}

-- `throw RestException("Schema not found")`, with the default status 0, unless there is one.
abbrev pub or_not_found : {A : Type 0} → Option A → Outcome A
or_not_found none = throw (Exception.rest_exception (codes "Schema not found") 0)
or_not_found (some a) = ok a

-- `latest.has_value() ? latest.value().getVersion().value_or(0) + 1 : 1`
unfoldable pub next_version : Option RegisteredSchema → Outcome ℕ
next_version none = ok 1
next_version (some rs) = next_int (generation rs)

-- `registerSchema`, past the check for a schema that is there already.
unfoldable pub register_new :
    Text → Text → Schema → MockSchemaStore → Outcome (RegisteredSchema × MockSchemaStore)
register_new guid subject schema st = do
  version ← next_version (latest_version subject st)
  id ← next_int st.next_schema_id
  let rs = registered (some st.next_schema_id) (some guid) (some subject) (some version) schema
  ok (rs, set_registered_schema rs (record st { next_schema_id = id }))

-- `registerSchema`: what is there already is returned, whatever its id, version and GUID.
unfoldable pub unless_existing :
    Text
    → Text
    → Schema
    → MockSchemaStore
    → Option RegisteredSchema
    → Outcome (RegisteredSchema × MockSchemaStore)
unless_existing guid subject schema st none = register_new guid subject schema st
unless_existing guid subject schema st (some rs) = ok (rs, st)

unfoldable pub register_schema :
    Text → Text → Schema → MockSchemaStore → Outcome (RegisteredSchema × MockSchemaStore)
register_schema guid subject schema st =
    unless_existing guid subject schema st (get_registered_by_schema subject schema st)

unfoldable pub get_by_subject_and_id : Option Text → ℕ → MockSchemaStore → Outcome Schema
get_by_subject_and_id subject id st = or_not_found (get_schema_by_id id st)

unfoldable pub get_by_guid : Text → MockSchemaStore → Outcome Schema
get_by_guid guid st = or_not_found (get_schema_by_guid guid st)

unfoldable pub get_by_schema : Text → Schema → MockSchemaStore → Outcome RegisteredSchema
get_by_schema subject schema st = or_not_found (get_registered_by_schema subject schema st)

unfoldable pub get_version : Text → ℕ → MockSchemaStore → Outcome RegisteredSchema
get_version subject version st = or_not_found (get_registered_by_version subject version st)

unfoldable pub get_latest_version : Text → MockSchemaStore → Outcome RegisteredSchema
get_latest_version subject st = or_not_found (latest_version subject st)

unfoldable pub latest_with_metadata :
    Text → Dict Text Text → MockSchemaStore → Outcome RegisteredSchema
latest_with_metadata subject metadata st =
    or_not_found (get_latest_with_metadata subject metadata st)

unfoldable pub get_all_versions : Text → MockSchemaStore → List ℕ
get_all_versions subject st = get_versions subject st

unfoldable pub get_all_subjects : MockSchemaStore → List Text
get_all_subjects st = get_subjects st

unfoldable pub delete_subject : Text → MockSchemaStore → List ℕ × MockSchemaStore
delete_subject subject st = remove_by_subject subject st

unfoldable pub delete_subject_version : Text → ℕ → MockSchemaStore → Outcome (ℕ × MockSchemaStore)
delete_subject_version subject version st = do
  rs ← or_not_found (get_registered_by_version subject version st)
  ok (generation rs, remove_by_schema subject rs st)

unfoldable pub clear_caches : MockSchemaStore → MockSchemaStore
clear_caches st = clear st
