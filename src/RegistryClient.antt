-- ===== src/RegistryClient.antt =====
-- `SchemaRegistryClient` (src/rest/SchemaRegistryClient.cpp): the calls on schemas, through the
-- client's caches. Each section under a mutex is one step on the state; the requests are made
-- outside of it.
pub mod State
pub mod Requests
pub mod Answers
pub mod Coherence
pub mod Latest
pub mod Runs
pub mod Repeats
pub mod Refinement
pub mod AsClient
pub mod Freshness
pub mod Settings
use libschemaregistry.Cache.{Cache}
use libschemaregistry.Cache
use libschemaregistry.Exec.{Exec, pure, ◌>>=◌, bind_outcome}
use libschemaregistry.Http.{Request, Session, Parsed, send, or_rest_exception}
use libschemaregistry.Model.{Schema, RegisteredSchema, registered, to_schema}
use libschemaregistry.Outcome.{Outcome, ok, undefined}
use libschemaregistry.Prelude.Dict.{Dict}
use libschemaregistry.Prelude.{
  ℕ, Bool, List, [], ◌∷◌, ◌++◌, Option, none, some, String, Text, codes, text_dec,
}
use libschemaregistry.RegistryClient.Requests.{
  register_request, by_schema_request, by_id_request, by_guid_request, version_request,
  latest_request, metadata_request, versions_request, subjects_request, delete_subject_request,
  delete_version_request, compatibility_request, create_metadata_key,
}
use libschemaregistry.SchemaStore.{
  SchemaStore, or_empty, get_registered_by_schema, get_registered_by_version, get_schema_by_id,
  get_schema_by_guid, set_schema, set_registered_schema,
}
use libschemaregistry.SchemaStore
use libschemaregistry.Url.{int32_to_string}
use libschemaregistry.RegistryClient.State.{
  ClientState, Platform, cannot_parse, outcome, or_else, schema_of_entry, key_of, exchange,
  fetch_registered, update_store, read_latest, write_latest, read_with_metadata,
  write_with_metadata, parse_int_array_from_json, parse_string_array_from_json,
}

module _ {W : Type 0} (platform : Platform W) where
  open platform use {schema_to_json, schema_hash}

  unfoldable pub register_schema : Text → Schema → Bool → Exec (ClientState W) RegisteredSchema
  register_schema subject schema normalize s =
      or_else (get_registered_by_schema schema_hash subject schema s.store)
        (do
          response ←
              fetch_registered platform (register_request schema_to_json subject schema normalize)
          _ ← update_store platform (
              set_schema schema_hash (some subject) response.id response.guid
                (key_of schema response response.schema))
          pure response)
        s

  unfoldable pub get_by_subject_and_id : Option Text → ℕ → Option Text → Exec (ClientState W) Schema
  get_by_subject_and_id subject id format s =
      or_else (schema_of_entry (get_schema_by_id (or_empty subject) id s.store))
        (do
          response ← fetch_registered platform (by_id_request subject id format)
          _ ←
              update_store platform
                (set_schema schema_hash subject (some id) response.guid (to_schema response))
          pure (to_schema response))
        s

  unfoldable pub get_by_guid : Text → Option Text → Exec (ClientState W) Schema
  get_by_guid guid format s =
      or_else (get_schema_by_guid guid s.store)
        (do
          response ← fetch_registered platform (by_guid_request guid format)
          _ ←
              update_store platform
                (set_schema schema_hash none response.id (some guid) (to_schema response))
          pure (to_schema response))
        s

  -- What is entered for `getBySchema` has the schema of the call; what is returned is the response.
  unfoldable pub get_by_schema : Text → Schema → Bool → Bool → Exec (ClientState W) RegisteredSchema
  get_by_schema subject schema normalize deleted s =
      or_else (get_registered_by_schema schema_hash subject schema s.store)
        (do
          response ←
              fetch_registered platform
                (by_schema_request schema_to_json subject schema normalize deleted)
          _ ← update_store platform (
              set_registered_schema schema_hash schema
                (registered response.id response.guid response.subject response.version schema))
          pure response)
        s

  unfoldable pub get_version : Text → ℕ → Bool → Option Text → Exec (ClientState W) RegisteredSchema
  get_version subject version deleted format s =
      or_else (get_registered_by_version subject version s.store)
        (do
          response ← fetch_registered platform (version_request subject version deleted format)
          _ ←
              update_store platform
                (set_registered_schema schema_hash (to_schema response) response)
          pure response)
        s

  unfoldable pub get_latest_version : Text → Option Text → Exec (ClientState W) RegisteredSchema
  get_latest_version subject format = do
    cached ← read_latest platform subject
    or_else cached (do
      response ← fetch_registered platform (latest_request subject format)
      _ ← write_latest platform subject response
      pure response)

  unfoldable pub get_latest_with_metadata :
      Text → Dict Text Text → Bool → Option Text → Exec (ClientState W) RegisteredSchema
  get_latest_with_metadata subject metadata deleted format = do
    cached ← read_with_metadata platform (create_metadata_key subject metadata)
    or_else cached (do
      response ← fetch_registered platform (metadata_request subject metadata deleted format)
      _ ← write_with_metadata platform (create_metadata_key subject metadata) response
      pure response)

  -- The calls that no cache answers.
  unfoldable pub get_all_versions : Text → Exec (ClientState W) (List ℕ)
  get_all_versions subject = do
    text ← exchange platform (versions_request subject)
    outcome (parse_int_array_from_json platform text)

  unfoldable pub get_all_subjects : Bool → Exec (ClientState W) (List Text)
  get_all_subjects deleted = do
    text ← exchange platform (subjects_request deleted)
    outcome (parse_string_array_from_json platform text)

  unfoldable pub delete_subject : Text → Bool → Exec (ClientState W) (List ℕ)
  delete_subject subject permanent = do
    text ← exchange platform (delete_subject_request subject permanent)
    outcome (parse_int_array_from_json platform text)

  unfoldable pub delete_subject_version : Text → ℕ → Bool → Exec (ClientState W) ℕ
  delete_subject_version subject version permanent = do
    text ← exchange platform (delete_version_request subject version permanent)
    outcome (or_rest_exception (cannot_parse "version") (platform.parse_int text))

  unfoldable pub test_subject_compatibility : Text → Schema → Exec (ClientState W) Bool
  test_subject_compatibility subject schema = do
    text ← exchange platform (compatibility_request schema_to_json subject (codes "latest") schema)
    outcome (or_rest_exception (cannot_parse "compatibility response") (platform.parse_bool text))

  unfoldable pub test_compatibility : Text → ℕ → Schema → Exec (ClientState W) Bool
  test_compatibility subject version schema = do
    text ←
        exchange platform
          (compatibility_request schema_to_json subject (int32_to_string version) schema)
    outcome (or_rest_exception (cannot_parse "compatibility response") (platform.parse_bool text))

unfoldable pub clear_latest_caches : {W : Type 0} → ClientState W → ClientState W
clear_latest_caches s = record s {
  latest_version_cache = Cache.clear text_dec s.latest_version_cache;
  latest_with_metadata_cache = Cache.clear text_dec s.latest_with_metadata_cache;
}

unfoldable pub clear_caches : {W : Type 0} → ClientState W → ClientState W
clear_caches s = let s1 = clear_latest_caches s in record s1 { store = SchemaStore.clear s1.store }
