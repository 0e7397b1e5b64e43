-- ===== src/SubjectName/Associated.antt =====
-- `AssociatedNameStrategy` (src/serdes/Serde.cpp): the subject that the registry associates with a
-- topic, through a cache, and `configureSubjectNameStrategy` (src/serdes/SerdeConfig.cpp).
use libschemaregistry.Association.Types.{Association}
use libschemaregistry.Cache.{Cache, init}
use libschemaregistry.Cache
use libschemaregistry.Exec.{Exec}
use libschemaregistry.Model.{Schema}
use libschemaregistry.Outcome.{Outcome, ok, throw, undefined, serialization_error, rest_exception}
use libschemaregistry.Prelude.Dict.{Dict, lookup}
use libschemaregistry.Prelude.{
  ℕ, ◌-◌, ◌^◌, Bool, true, false, List, [], ◌∷◌, ◌++◌, Option, none, some, Text, codes, text_dec,
  ◌==◌, if◌then◌else◌,
}
use libschemaregistry.Transport.{SerdeType, serde_key, serde_value}
use libschemaregistry.SubjectName.{
  SubjectNameStrategyType, no_name, topic_name, record_name, topic_record_name, associated_name,
  Strategy, RecordNameFunc, strategy_func, parse_subject_name_strategy_type,
}

pub record SubjectCacheKey : Type 0 where
  pub topic : Text
  pub is_key : Bool
  pub schema : Text

unfoldable pub subject_cache_key_dec : Discrete SubjectCacheKey
subject_cache_key_dec = hlevel text_dec

-- The strategy's fixed part.
pub record AssociatedNameStrategy : Type 0 where
  pub kafka_cluster_id : Text
  pub fallback_strategy : Option Strategy

unfoldable pub cluster_id : Option Text → Text
cluster_id none = codes "-"
cluster_id (some []) = codes "-"
cluster_id (some (c ∷ cs)) = c ∷ cs

abbrev fallback_type : Option Text → Outcome SubjectNameStrategyType
fallback_type none = ok topic_name
fallback_type (some t) = parse_subject_name_strategy_type t

abbrev with_fallback :
    Text → RecordNameFunc → Outcome SubjectNameStrategyType → Outcome AssociatedNameStrategy
with_fallback cluster get_record_name (throw e) = throw e
with_fallback cluster get_record_name undefined = undefined
with_fallback cluster get_record_name (ok type) = elim (strategy_func type get_record_name) [
  | ok strategy ↦ ok (record { kafka_cluster_id = cluster; fallback_strategy = strategy })
  | throw e ↦ throw e
  | undefined ↦ undefined
]

-- The constructor.
unfoldable pub new_associated : Dict Text Text → RecordNameFunc → Outcome AssociatedNameStrategy
new_associated config get_record_name =
    with_fallback
      (cluster_id (lookup text_dec (codes "subject.name.strategy.kafka.cluster.id") config))
      get_record_name
      (fallback_type (lookup text_dec (codes "subject.name.strategy.fallback.type") config))

pub data Configured : Type 0 where
  plain : Strategy → Configured
  associated : AssociatedNameStrategy → Configured

abbrev as_plain : Outcome (Option Strategy) → Outcome Configured
as_plain (ok (some strategy)) = ok (plain strategy)
as_plain (ok none) =
    throw (serialization_error (codes "Unsupported or unconfigured subject name strategy type"))
as_plain (throw e) = throw e
as_plain undefined = undefined

abbrev as_associated : Outcome AssociatedNameStrategy → Outcome Configured
as_associated (ok strategy) = ok (associated strategy)
as_associated (throw e) = throw e
as_associated undefined = undefined

unfoldable pub configure_subject_name_strategy :
    SubjectNameStrategyType → Bool → Dict Text Text → RecordNameFunc → Outcome Configured
configure_subject_name_strategy associated_name false config get_record_name =
    throw (serialization_error (codes "Associated strategy requires a schema registry client"))
configure_subject_name_strategy associated_name true config get_record_name =
    as_associated (new_associated config get_record_name)
configure_subject_name_strategy no_name has_client config get_record_name =
    as_plain (strategy_func no_name get_record_name)
configure_subject_name_strategy topic_name has_client config get_record_name =
    as_plain (strategy_func topic_name get_record_name)
configure_subject_name_strategy record_name has_client config get_record_name =
    as_plain (strategy_func record_name get_record_name)
configure_subject_name_strategy topic_record_name has_client config get_record_name =
    as_plain (strategy_func topic_record_name get_record_name)

-- The cache of the strategy, which has no time to live, and the client's world.
pub record AssociatedState (W : Type 0) : Type 0 where
  pub subject_name_cache : Cache SubjectCacheKey (Option Text)
  pub world : W

-- What the strategy asks of the client: `getAssociationsByResourceName`.
abbrev pub FindAssociations : Type 0 → Type 0
FindAssociations W = Text → Text → Text → List Text → Text → ℕ → ℕ → Exec W (List Association)

unfoldable pub association_type : SerdeType → Text
association_type serde_key = codes "key"
association_type serde_value = codes "value"

abbrev pub is_key_type : SerdeType → Bool
is_key_type serde_key = true
is_key_type serde_value = false

-- `schema.has_value() ? schema->getSchema().value_or("") : ""`
abbrev pub schema_text : Option Schema → Text
schema_text none = []
schema_text (some s) = elim s.schema [ none ↦ [] | some t ↦ t ]

unfoldable pub fall_back : Option Strategy → Strategy
fall_back none topic type schema = ok none
fall_back (some strategy) topic type schema = strategy topic type schema

-- The decision on the associations that are found.
unfoldable pub choose :
    Option Strategy → Text → SerdeType → Option Schema → List Association → Outcome (Option Text)
choose fallback topic type schema [] = fall_back fallback topic type schema
choose fallback topic type schema (a ∷ []) = elim a.subject [
  | some subject ↦ ok (some subject)
  | none ↦ throw (serialization_error (codes "association has no subject"))
]
choose fallback topic type schema (a ∷ b ∷ more) =
    throw (serialization_error (codes "multiple associated subjects found for topic " ++ topic))

-- A `RestException` with the status 404 counts as no associations.
unfoldable pub or_none_found : Outcome (List Association) → Outcome (List Association)
or_none_found (ok found) = ok found
or_none_found undefined = undefined
or_none_found (throw (rest_exception message status)) =
    if status == 404 then ok [] else throw (rest_exception message status)
or_none_found (throw e) = throw e

abbrev pub then_choose :
    Option Strategy
    → Text
    → SerdeType
    → Option Schema
    → Outcome (List Association)
    → Outcome (Option Text)
then_choose fallback topic type schema (ok found) = choose fallback topic type schema found
then_choose fallback topic type schema (throw e) = throw e
then_choose fallback topic type schema undefined = undefined

-- The bit pattern of -1: no limit.
abbrev pub no_limit : ℕ
no_limit = 2 ^ 32 - 1

module _ {W : Type 0} (strategy : AssociatedNameStrategy) (find : FindAssociations W)
    (clock : W → ℕ × W) where
  unfoldable pub load_associated_subject_name :
      Text → SerdeType → Option Schema → Exec W (Option Text)
  load_associated_subject_name topic type schema w =
      let (found, w') =
        find topic strategy.kafka_cluster_id (codes "topic") (association_type type ∷ []) [] 0
          no_limit w in
      (then_choose strategy.fallback_strategy topic type schema (or_none_found found), w')

  abbrev pub cache_key_of : Text → SerdeType → Option Schema → SubjectCacheKey
  cache_key_of topic type schema = record {
    topic = topic;
    is_key = is_key_type type;
    schema = schema_text schema;
  }

  -- The cache that a `put` leaves; there is none if its eviction loop does not end, which the
  -- theorems on the cache exclude.
  unfoldable pub store_subject :
      Option Text
      → W
      → Option (Cache SubjectCacheKey (Option Text))
      → Exec (AssociatedState W) (Option Text)
  store_subject subject w none s = (undefined, s)
  store_subject subject w (some c) s = (ok subject, record { subject_name_cache = c; world = w })

  -- What is loaded is stored, unless an exception ends the call.
  unfoldable pub keep_loaded :
      Text
      → SerdeType
      → Option Schema
      → Outcome (Option Text)
      → W
      → Exec (AssociatedState W) (Option Text)
  keep_loaded topic type schema (ok subject) w s =
      let (now1, w1) = clock w in
      let (now2, w2) = clock w1 in
      store_subject subject w2
        (Cache.put subject_cache_key_dec (cache_key_of topic type schema) subject now1 now2
          s.subject_name_cache)
        s
  keep_loaded topic type schema (throw e) w s = (throw e, record s { world = w })
  keep_loaded topic type schema undefined w s = (undefined, record s { world = w })

  -- `getSubject`, on what the cache gives.
  unfoldable pub found_or_loaded :
      Text
      → SerdeType
      → Option Schema
      → Option (Option Text)
      → Exec (AssociatedState W) (Option Text)
  found_or_loaded topic type schema (some subject) s = (ok subject, s)
  found_or_loaded topic type schema none s =
      let (r, w) = load_associated_subject_name topic type schema s.world in
      keep_loaded topic type schema r w s

  unfoldable pub get_subject :
      Text → SerdeType → Option Schema → Exec (AssociatedState W) (Option Text)
  get_subject [] type schema s = (ok none, s)
  get_subject (c ∷ cs) type schema s =
      let (now1, w1) = clock s.world in
      let (now2, w2) = clock w1 in
      let (cache, cached) =
        Cache.get subject_cache_key_dec (cache_key_of (c ∷ cs) type schema) now1 now2
          s.subject_name_cache in
      found_or_loaded (c ∷ cs) type schema cached
        (record { subject_name_cache = cache; world = w2 })
