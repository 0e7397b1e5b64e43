-- ===== src/RegistryClient/Runs.antt =====
-- Sequences of calls of `SchemaRegistryClient` (src/rest/SchemaRegistryClient.cpp), in any order,
-- whether they return or throw.
use libschemaregistry.Cache.Invariant.{clear-IsValid}
use libschemaregistry.Cache.Values.{clear-Values}
use libschemaregistry.Http.{Request}
use libschemaregistry.Model.{Schema, RegisteredSchema, registered, to_schema}
use libschemaregistry.SchemaStore.Keyed.{
  clear-IsKeyed, set_schema-IsKeyed, set_registered_schema-IsKeyed,
}
use libschemaregistry.Outcome.{Outcome}
use libschemaregistry.Prelude.Dict.{Dict}
use libschemaregistry.Prelude.{
  ℕ, Bool, List, [], ◌∷◌, Option, none, some, Text, text_dec, ◌≡◌, refl,
}
use libschemaregistry.RegistryClient.Answers.{Answers}
use libschemaregistry.RegistryClient.Coherence.{
  IsCoherent, stored_call-IsCoherent, plain_call-IsCoherent,
}
use libschemaregistry.RegistryClient.Latest.{
  get_latest_version-IsCoherent, get_latest_with_metadata-IsCoherent,
}
use libschemaregistry.RegistryClient.State.{ClientState, Platform, key_of}
use libschemaregistry.RegistryClient.{
  register_schema, get_by_subject_and_id, get_by_guid, get_by_schema, get_version,
  get_latest_version, get_latest_with_metadata, get_all_versions, get_all_subjects, delete_subject,
  delete_subject_version, test_subject_compatibility, test_compatibility, clear_latest_caches,
  clear_caches,
}

-- The calls of the client on schemas.
pub data Call : Type 0 where
  registration : Text → Schema → Bool → Call
  lookup_by_id : Option Text → ℕ → Option Text → Call
  lookup_by_guid : Text → Option Text → Call
  lookup_by_schema : Text → Schema → Bool → Bool → Call
  lookup_version : Text → ℕ → Bool → Option Text → Call
  lookup_latest : Text → Option Text → Call
  lookup_with_metadata : Text → Dict Text Text → Bool → Option Text → Call
  list_versions : Text → Call
  list_subjects : Bool → Call
  remove_subject : Text → Bool → Call
  remove_version : Text → ℕ → Bool → Call
  check_latest : Text → Schema → Call
  check_version : Text → ℕ → Schema → Call
  drop_latest : Call
  drop_all : Call

module _ {W : Type 0} (platform : Platform W) where
  -- The client after a call.
  unfoldable pub run_call : Call → ClientState W → ClientState W
  run_call (registration subject schema normalize) s =
      (register_schema platform subject schema normalize s).1
  run_call (lookup_by_id subject id format) s =
      (get_by_subject_and_id platform subject id format s).1
  run_call (lookup_by_guid guid format) s = (get_by_guid platform guid format s).1
  run_call (lookup_by_schema subject schema normalize deleted) s =
      (get_by_schema platform subject schema normalize deleted s).1
  run_call (lookup_version subject version deleted format) s =
      (get_version platform subject version deleted format s).1
  run_call (lookup_latest subject format) s = (get_latest_version platform subject format s).1
  run_call (lookup_with_metadata subject metadata deleted format) s =
      (get_latest_with_metadata platform subject metadata deleted format s).1
  run_call (list_versions subject) s = (get_all_versions platform subject s).1
  run_call (list_subjects deleted) s = (get_all_subjects platform deleted s).1
  run_call (remove_subject subject permanent) s = (delete_subject platform subject permanent s).1
  run_call (remove_version subject version permanent) s =
      (delete_subject_version platform subject version permanent s).1
  run_call (check_latest subject schema) s =
      (test_subject_compatibility platform subject schema s).1
  run_call (check_version subject version schema) s =
      (test_compatibility platform subject version schema s).1
  run_call drop_latest s = clear_latest_caches s
  run_call drop_all s = clear_caches s

  unfoldable pub run_calls : List Call → ClientState W → ClientState W
  run_calls [] s = s
  run_calls (call ∷ calls) s = run_calls calls (run_call call s)

module _ {W : Type 0} (platform : Platform W) (answer : Request → Outcome Text) where
  abbrev Coherent : ClientState W → Type 0
  Coherent = IsCoherent platform answer

  clear_latest_caches-IsCoherent :
      (s : ClientState W) → Coherent s → Coherent (clear_latest_caches s)
  unfolding clear_latest_caches
  clear_latest_caches-IsCoherent s c = record {
    keyed = c.keyed;
    latest = clear-Values text_dec _ s.latest_version_cache;
    latest_valid = clear-IsValid text_dec s.latest_version_cache c.latest_valid;
    with_metadata = clear-Values text_dec _ s.latest_with_metadata_cache;
    with_metadata_valid = clear-IsValid text_dec s.latest_with_metadata_cache c.with_metadata_valid;
  }

  clear_caches-IsCoherent : (s : ClientState W) → Coherent s → Coherent (clear_caches s)
  unfolding clear_caches
  clear_caches-IsCoherent s c =
      let c1 = clear_latest_caches-IsCoherent s c in
      record {
        keyed = clear-IsKeyed platform.schema_hash (clear_latest_caches s).store;
        latest = c1.latest;
        latest_valid = c1.latest_valid;
        with_metadata = c1.with_metadata;
        with_metadata_valid = c1.with_metadata_valid;
      }

  own_text :
      (response : RegisteredSchema) (schema : Schema)
      → platform.schema_hash (
          to_schema (registered response.id response.guid response.subject response.version schema))
        ≡ platform.schema_hash schema
  unfolding to_schema registered
  own_text response schema = refl

  pub run_call-IsCoherent :
      Answers platform answer
      → (call : Call) (s : ClientState W) → Coherent s
      → Coherent (run_call platform call s)
  unfolding run_call register_schema get_by_subject_and_id get_by_guid get_by_schema get_version
      get_all_versions get_all_subjects delete_subject delete_subject_version
      test_subject_compatibility test_compatibility
  run_call-IsCoherent answers (registration subject schema normalize) s =
      stored_call-IsCoherent platform answer _ _ _ _ s (λ response.
        set_schema-IsKeyed platform.schema_hash (some subject) response.id response.guid
          (key_of schema response response.schema))
  run_call-IsCoherent answers (lookup_by_id subject id format) s =
      stored_call-IsCoherent platform answer _ _ _ _ s (λ response.
        set_schema-IsKeyed platform.schema_hash subject (some id) response.guid
          (to_schema response))
  run_call-IsCoherent answers (lookup_by_guid guid format) s =
      stored_call-IsCoherent platform answer _ _ _ _ s (λ response.
        set_schema-IsKeyed platform.schema_hash none response.id (some guid) (to_schema response))
  run_call-IsCoherent answers (lookup_by_schema subject schema normalize deleted) s =
      stored_call-IsCoherent platform answer _ _ _ _ s (λ response st.
        set_registered_schema-IsKeyed platform.schema_hash schema
          (registered response.id response.guid response.subject response.version schema) st
          (own_text response schema))
  run_call-IsCoherent answers (lookup_version subject version deleted format) s =
      stored_call-IsCoherent platform answer _ _ _ _ s (λ response st.
        set_registered_schema-IsKeyed platform.schema_hash (to_schema response) response st refl)
  run_call-IsCoherent answers (lookup_latest subject format) s =
      get_latest_version-IsCoherent platform answer answers subject format s
  run_call-IsCoherent answers (lookup_with_metadata subject metadata deleted format) s =
      get_latest_with_metadata-IsCoherent platform answer answers subject metadata deleted format s
  run_call-IsCoherent answers (list_versions subject) s =
      plain_call-IsCoherent platform answer _ _ s
  run_call-IsCoherent answers (list_subjects deleted) s =
      plain_call-IsCoherent platform answer _ _ s
  run_call-IsCoherent answers (remove_subject subject permanent) s =
      plain_call-IsCoherent platform answer _ _ s
  run_call-IsCoherent answers (remove_version subject version permanent) s =
      plain_call-IsCoherent platform answer _ _ s
  run_call-IsCoherent answers (check_latest subject schema) s =
      plain_call-IsCoherent platform answer _ _ s
  run_call-IsCoherent answers (check_version subject version schema) s =
      plain_call-IsCoherent platform answer _ _ s
  run_call-IsCoherent answers drop_latest s = clear_latest_caches-IsCoherent s
  run_call-IsCoherent answers drop_all s = clear_caches-IsCoherent s

  -- Against a server that answers a request the same way each time, every sequence of calls, in any
  -- order and whether they return or throw, keeps the client coherent: each registered schema in
  -- the store stands under its own subject, version, identifier and text; each schema in the two
  -- caches of latest versions is an answer of the server to a request that has its key; and both
  -- caches stay well formed and within their capacity.
  pub run_calls-IsCoherent :
      Answers platform answer
      → (calls : List Call) (s : ClientState W) → IsCoherent platform answer s
      → IsCoherent platform answer (run_calls platform calls s)
  unfolding run_calls
  run_calls-IsCoherent answers [] s c = c
  run_calls-IsCoherent answers (call ∷ calls) s c =
      run_calls-IsCoherent answers calls (run_call platform call s)
        (run_call-IsCoherent answers call s c)
