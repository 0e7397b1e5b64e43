-- ===== src/Lib.antt =====
-- A verification library for the Schema Registry client library for C++ (libschemaregistry). It
-- models the parts of the client that carry its own logic; the files named below are given by their
-- paths from the repository's root.
--
-- A serializer asks the registry client for the schema of a message (SchemaStore and the cache keep
-- the answers, the REST client fetches them with retries over several URLs), runs the rules of that
-- schema on the message, and puts a frame with the schema's identifier in front of the bytes. A
-- deserializer reads the frame, runs the migrations between the writer's and the reader's version,
-- and runs the rules backwards.
--
-- * Wire (src/serdes/Serde.cpp): `SchemaId`. read_from_bytes is `readFromBytes`, id_to_bytes and
--   guid_to_bytes are `idToBytes` and `guidToBytes`, encode_indexes is `toEncodedIndexArray`,
--   read_index_array_and_data is `readIndexArrayAndData`. Bytes are numbers below 256 in lists, an
--   `int32_t` is its 32-bit pattern. The loop over a varint is structural in the buffer, and a shift
--   that C++ leaves undefined gives `undefined`.
-- * Cache (include/schemaregistry/rest/TtlLruCache.h): `TtlLruCache`, each method a function on the
--   map, the list of keys and the clock's reading. The loop of `put` that evicts runs on fuel, one
--   more than the number of entries, since each round takes an entry away.
-- * Retry (src/rest/BackoffUtils.cpp, src/rest/RestClient.cpp, src/rest/SchemaRegistryClient.cpp):
--   the backoff, `tryRequest`, `sendRequestUrls` and `sendHttpRequest` over a network that is a
--   parameter. `tryRequest` runs on fuel, one round more than there are retries, since each round
--   but the last is followed by a retry.
-- * SchemaStore (src/rest/SchemaStore.cpp): the six indexes, with the schema's hash as a parameter.
-- * Rules (src/serdes/RuleRegistry.cpp, src/serdes/Serde.cpp): the registry of executors, actions and
--   overrides, and which rules run in which mode.
-- * Engine (src/serdes/Serde.cpp): `executeRulesWithPhase` and what it calls. Executors and actions
--   are functions on the message and a world. What a function does besides returning is in Outcome
--   (exceptions, undefined behaviour) and Exec (the same with a world).
-- * Client, Migration (src/serdes/Serde.cpp): the client interface that the serdes use, and the
--   migrations between the versions of a schema over it.
-- * Mock (src/rest/MockSchemaRegistryClient.cpp): the registry in memory. Mock.AsClient makes it a
--   client of that interface.
-- * Dek (src/rest/MockDekRegistryClient.cpp, src/rest/model/Dek.cpp): data encryption keys and the
--   mock registry of them. Base64 is a parameter.
-- * Headers (src/serdes/Serde.cpp): `SerdeHeaders`.
-- * Url, Http (src/rest/SchemaRegistryClient.cpp): `urlEncode`, and what the two clients know of a
--   request: its path, verb, query and body, the status and the text of the answer.
-- * RegistryClient (src/rest/SchemaRegistryClient.cpp): the client proper. RegistryClient.Requests
--   has the request of each call and the key of the cache by metadata, RegistryClient.State the
--   store, the two caches of latest versions and their reading and writing, RegistryClient.Settings
--   the calls that no cache answers: configurations and associations. The session of `sendHttpRequest`
--   (which Retry models), the clock, the hash and the JSON conversions are the record Platform. For
--   the theorems on a server that answers a request the same way each time, Answers says so, and
--   Coherence what the client then knows; AsClient makes the client one of the interface in Client.
-- * Association (src/rest/MockSchemaRegistryClient.cpp): `MockAssociationStore`, with the filters, the
--   offset and the limit of `getAssociationsByResourceName`.
-- * DekClient (src/rest/DekRegistryClient.cpp): the client of the DEK registry with its store and the
--   older API that it falls back to on status 405.
-- * Transport (src/serdes/SerdeConfig.cpp): schema identifiers before the payload or in the headers.
-- * SubjectName (src/serdes/SerdeConfig.cpp, src/serdes/SerdeTypes.cpp, src/serdes/Serde.cpp): the
--   subject name strategies; SubjectName.Associated has `AssociatedNameStrategy` over the cache.
-- * FieldRules (src/serdes/RuleRegistry.cpp, src/serdes/Serde.cpp): `FieldRuleExecutor::transform`,
--   and the fields that `RuleContext` keeps with their tags. `wildcardMatch` is a parameter.
-- * Encryption (src/rules/encryption/EncryptionExecutor.cpp): `EncryptionExecutorTransform`.
--   Encryption.Keys has the key encryption key of a rule and the data encryption key of a subject,
--   with the registry's client, the clock, Tink and Base64 as the record Executor; Encryption itself
--   has `transform`, on values that are a parameter with the conversions of `SerdeValue`.
-- * Model (include/schemaregistry/rest/model): the records that they share. Prelude has the library
--   names, maps as association lists and lists measured by native numbers. Tests has the results at
--   concrete inputs.
--
-- Not modelled: JSON (nlohmann::json), HTTP sessions (cpr), the OAuth providers, wildcardToRegexp
-- (std::regex), the plain fields of the configurations, the serializers for Avro, JSON and
-- Protobuf, the rules for CEL and JSONata, and the KMS drivers, whose work is mostly done by
-- libraries outside the repository. The cache and the mock registries hold a mutex for the whole
-- of a modelled call, so that their calls are steps. The two clients let go of theirs while a
-- request is under way: a call of RegistryClient or DekClient is modelled as it runs with no
-- other call of the same client in between. The reference counts of shared pointers play no part.
pub mod Prelude
pub mod Model
pub mod Outcome
pub mod Wire
pub mod Url
pub mod Http
pub mod RegistryClient
pub mod Association
pub mod Exec
pub mod Retry
pub mod Cache
pub mod SchemaStore
pub mod Rules
pub mod Engine
pub mod Mock
pub mod Client
pub mod Migration
pub mod Dek
pub mod DekClient
pub mod Headers
pub mod Transport
pub mod SubjectName
pub mod Encryption
pub mod FieldRules
pub mod Tests
