-- ===== src/RegistryClient/State.antt =====
-- The state of `SchemaRegistryClient` (src/rest/SchemaRegistryClient.cpp), what the client stands on,
-- and the helpers of its calls: requests, the parsing of answers, and the reading and writing of the
-- caches.
use libschemaregistry.SchemaStore
use libschemaregistry.Cache.{Cache}
use libschemaregistry.Cache
use libschemaregistry.Exec.{Exec, pure, ◌>>=◌, bind_outcome}
use libschemaregistry.Http.{Request, Session, Parsed, send, or_rest_exception}
use libschemaregistry.Model.{Schema, RegisteredSchema, to_schema}
use libschemaregistry.Retry.{Configuration}
use libschemaregistry.Outcome.{throw, rest_exception, std_exception, Outcome, ok, undefined}
use libschemaregistry.Prelude.{
  [], ◌∷◌, take, ite, ℕ, Bool, List, ◌++◌, Option, none, some, String, Text, codes, text_dec,
}
use libschemaregistry.SchemaStore.{SchemaStore}

-- The client: its caches, and the world that its requests act on.
pub record ClientState (W : Type 0) : Type 0 where
  pub store : SchemaStore
  pub latest_version_cache : Cache Text RegisteredSchema
  pub latest_with_metadata_cache : Cache Text RegisteredSchema
  pub world : W

-- What the client stands on. `schema_to_json` and the parsers are nlohmann::json on the model's
-- `to_json` and `from_json`; `schema_hash` is the text that the store compares schemas by.
pub record Platform (W : Type 0) : Type 0 where
  pub session : Session W
  pub clock : W → ℕ × W
  pub schema_to_json : Schema → Outcome Text
  pub parse_registered_schema : Text → Parsed RegisteredSchema
  pub parse_bool : Text → Parsed Bool
  pub parse_int : Text → Parsed ℕ
  pub parse_int_array : Text → Parsed (List ℕ)
  pub parse_string_array : Text → Parsed (List Text)
  pub schema_hash : Schema → Text

abbrev pub cannot_parse : String → Text
cannot_parse what = codes "Failed to parse " ++ (codes what ++ codes " from JSON: ")

-- The value of an entry of the caches: `std::make_optional` of what a caller hands on.
abbrev pub outcome : {W A : Type 0} → Outcome A → Exec (ClientState W) A
outcome r s = (r, s)

-- `if (cached.has_value()) return cached.value();`
unfoldable pub or_else : {W A : Type 0} → Option A → Exec W A → Exec W A
or_else (some a) m w = (ok a, w)
or_else none m w = m w

-- `result.value().second`
unfoldable pub schema_of_entry : Option (Option Text × Schema) → Option Schema
schema_of_entry none = none
schema_of_entry (some (guid, schema)) = some schema

-- The schema under which a registration is entered: that of the response if it has a text.
unfoldable pub key_of : Schema → RegisteredSchema → Option Text → Schema
key_of schema response none = schema
key_of schema response (some _) = to_schema response

module _ {W : Type 0} where
  -- The cache that a `put` leaves; there is none if its eviction loop does not end, which the
  -- theorems on the cache exclude.
  unfoldable pub enter_latest : W → Option (Cache Text RegisteredSchema) → Exec (ClientState W) Unit
  enter_latest w none s = (undefined, s)
  enter_latest w (some c) s = (ok tt, record s { latest_version_cache = c; world = w })

  unfoldable pub enter_with_metadata :
      W → Option (Cache Text RegisteredSchema) → Exec (ClientState W) Unit
  enter_with_metadata w none s = (undefined, s)
  enter_with_metadata w (some c) s = (ok tt, record s { latest_with_metadata_cache = c; world = w })

module _ {W : Type 0} (platform : Platform W) where
  open platform use {session, clock, schema_to_json, schema_hash}

  -- A request and its answer as text.
  unfoldable pub exchange : Outcome Request → Exec (ClientState W) Text
  exchange request =
      bind_outcome request (λ r s.
        let (answer, world) = send session r s.world in (answer, record s { world = world }))

  unfoldable pub parse_registered_schema_from_json : Text → Outcome RegisteredSchema
  parse_registered_schema_from_json text =
      or_rest_exception (cannot_parse "registered schema") (platform.parse_registered_schema text)

  unfoldable pub parse_int_array_from_json : Text → Outcome (List ℕ)
  parse_int_array_from_json text =
      or_rest_exception (cannot_parse "int array") (platform.parse_int_array text)

  unfoldable pub parse_string_array_from_json : Text → Outcome (List Text)
  parse_string_array_from_json text =
      or_rest_exception (cannot_parse "string array") (platform.parse_string_array text)

  -- A request and its answer as a registered schema.
  unfoldable pub fetch_registered : Outcome Request → Exec (ClientState W) RegisteredSchema
  fetch_registered request = do
    text ← exchange request
    outcome (parse_registered_schema_from_json text)

  unfoldable pub update_store : (SchemaStore → SchemaStore) → Exec (ClientState W) Unit
  update_store f s = (ok tt, record s { store = f s.store })

  -- A `get` of one of the caches, with the readings of the clock.
  unfoldable pub read_cache :
      Text
      → Cache Text RegisteredSchema
      → W
      → (Cache Text RegisteredSchema × Option RegisteredSchema) × W
  read_cache key c w =
      let (now1, w1) = clock w in
      let (now2, w2) = clock w1 in (Cache.get text_dec key now1 now2 c, w2)

  unfoldable pub write_cache :
      Text
      → RegisteredSchema
      → Cache Text RegisteredSchema
      → W
      → Option (Cache Text RegisteredSchema) × W
  write_cache key rs c w =
      let (now1, w1) = clock w in
      let (now2, w2) = clock w1 in (Cache.put text_dec key rs now1 now2 c, w2)

  -- `latestVersionCache.get` and `put`. A reading of the clock that a branch leaves out has no
  -- effect.
  unfoldable pub read_latest : Text → Exec (ClientState W) (Option RegisteredSchema)
  read_latest key s =
      let ((c, found), w) = read_cache key s.latest_version_cache s.world in
      (ok found, record s { latest_version_cache = c; world = w })

  unfoldable pub write_latest : Text → RegisteredSchema → Exec (ClientState W) Unit
  write_latest key rs s =
      let (c, w) = write_cache key rs s.latest_version_cache s.world in enter_latest w c s

  unfoldable pub read_with_metadata : Text → Exec (ClientState W) (Option RegisteredSchema)
  read_with_metadata key s =
      let ((c, found), w) = read_cache key s.latest_with_metadata_cache s.world in
      (ok found, record s { latest_with_metadata_cache = c; world = w })

  unfoldable pub write_with_metadata : Text → RegisteredSchema → Exec (ClientState W) Unit
  write_with_metadata key rs s =
      let (c, w) = write_cache key rs s.latest_with_metadata_cache s.world in
      enter_with_metadata w c s

  -- A call that enters what it fetches into the store.
  abbrev pub stored_call :
      {A : Type 0}
      → Option A
      → Outcome Request
      → (RegisteredSchema → SchemaStore → SchemaStore)
      → (RegisteredSchema → A)
      → Exec (ClientState W) A
  stored_call found request enter result s =
      or_else found
        (do
          response ← fetch_registered request
          _ ← update_store (enter response)
          pure (result response))
        s

-- `if (config->getBaseUrls().empty()) throw RestException("Base URL is required")`
unfoldable pub require_url : {A : Type 0} → List Text → A → Outcome A
require_url [] a = throw (rest_exception (codes "Base URL is required") 0)
require_url (url ∷ urls) a = ok a

-- The constructor, after that of its caches.
unfoldable pub connect_with :
    {W : Type 0}
    → Configuration
    → W
    → Option (Cache Text RegisteredSchema)
    → Outcome (ClientState W)
connect_with config w none = throw (std_exception (codes "Cache capacity must be greater than 0"))
connect_with config w (some c) = require_url config.base_urls (record {
  store = SchemaStore.empty;
  latest_version_cache = c;
  latest_with_metadata_cache = c;
  world = w;
})

unfoldable pub connect : {W : Type 0} → Configuration → ℕ → Option ℕ → W → Outcome (ClientState W)
connect config capacity ttl w = connect_with config w (Cache.init capacity ttl)

pub data ClientKind : Type 0 where
  mock_registry remote_registry : ClientKind

-- The choice of `newClient`: a mock for a first URL that begins with "mock://".
unfoldable pub new_client : List Text → Outcome ClientKind
new_client [] = throw (rest_exception (codes "Base URL is required") 0)
new_client (url ∷ urls) =
    ok (ite (text_dec (take 7 url) (codes "mock://")) mock_registry remote_registry)
