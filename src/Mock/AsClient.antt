-- ===== src/Mock/AsClient.antt =====
-- The mock registry (src/rest/MockSchemaRegistryClient.cpp) as the client that the serdes use. None
-- of these calls changes the store.
use libschemaregistry.Client.{Client, IsLawful}
use libschemaregistry.Mock.{
  get_by_subject_and_id, get_by_guid, get_by_schema, get_version, get_latest_version,
  latest_with_metadata, or_not_found,
}
use libschemaregistry.Mock.Store.{
  MockSchemaStore, generation, find_version, get_registered_by_version, schemas_of,
}
use libschemaregistry.Model.{RegisteredSchema}
use libschemaregistry.Outcome.{ok}
use libschemaregistry.Prelude.{ℕ, List, [], ◌∷◌, ◌≡◌, arith, ap}

unfoldable pub mock_client : Client MockSchemaStore
mock_client = record {
  get_by_subject_and_id = λ subject id format st. (get_by_subject_and_id subject id st, st);
  get_by_guid = λ guid format st. (get_by_guid guid st, st);
  get_by_schema = λ subject schema normalize deleted st. (get_by_schema subject schema st, st);
  get_version = λ subject version deleted format st. (get_version subject version st, st);
  get_latest_version = λ subject format st. (get_latest_version subject st, st);
  get_latest_with_metadata =
      λ subject metadata deleted format st. (latest_with_metadata subject metadata st, st);
}

found-version :
    (v : ℕ) (l : List RegisteredSchema) (rs : RegisteredSchema)
    → or_not_found (find_version v l) ≡ ok rs
    → generation rs ≡ v
unfolding find_version
found-version v [] rs h = absurd (cc h)
found-version v (r ∷ l) rs h = ground (arith, found-version v l rs)

-- The mock registry keeps what `getVersion` promises: whatever it holds, a call that returns gives
-- the version asked for.
pub mock_client-IsLawful : IsLawful mock_client
unfolding mock_client get_version get_registered_by_version
mock_client-IsLawful = record {
  version_asked = λ subject version deleted format rs st st' h.
      found-version version (schemas_of subject st) rs (ap (λ r. r.0) h);
}
