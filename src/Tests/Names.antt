-- ===== src/Tests/Names.antt =====
-- Associations, subjects, transport of identifiers and field rules (src/rest, src/serdes) at concrete
-- inputs.
use libschemaregistry.Association.Paging.{page-append}
use libschemaregistry.Association.Creation.{all_asked_for, entry_after, create_association-adds}
use libschemaregistry.Association.Deletion.{left_of, delete_associations-removes}
use libschemaregistry.Association.Types.{
  Association, AssociationCreateOrUpdateInfo, AssociationCreateOrUpdateRequest, AssociationResponse,
  MockAssociationStore,
}
use libschemaregistry.Association.{
  create_association, create_under, generate_resource_id, updated_entry,
  get_associations_by_resource_name, collect, entry_matches, filter_associations, passes,
  delete_associations,
}
use libschemaregistry.Cache.{Cache, init}
use libschemaregistry.Headers.{SerdeHeader}
use libschemaregistry.Model.{Rule, Schema, write, transform}
use libschemaregistry.Outcome.{Outcome, ok}
use libschemaregistry.Prelude.Dict.{lookup, insert}
use libschemaregistry.Prelude.{
  ℕ, ◌+◌, ◌<◌, false, List, [], ◌∷◌, ◌++◌, Option, none, some, Text, codes, text_dec, ite, ◌≡◌,
  refl, arith, length, map,
}
use libschemaregistry.SubjectName.Associated.{
  SubjectCacheKey, AssociatedNameStrategy, FindAssociations, or_none_found, choose, fall_back,
}
use libschemaregistry.SubjectName.Caching.{
  ReadsText, subject_of, get_subjects, get_subjects-eq-subject_of,
}
use libschemaregistry.SubjectName.{topic_name_strategy}
use libschemaregistry.Transport.Laws.{dual-header_schema_id_serializer}
use libschemaregistry.Transport.{
  SerdeType, serde_key, serde_value, SerializationContext, header_schema_id_serializer,
  dual_schema_id_deserializer, header_key,
}
use libschemaregistry.Wire.{SchemaId, json, format_guid}

abbrev info : Text → AssociationCreateOrUpdateInfo
info subject = record {
  subject = some subject;
  association_type = some (codes "value");
  lifecycle = some (codes "STRONG");
  frozen = none;
}

abbrev request : AssociationCreateOrUpdateRequest
request = record {
  resource_name = some (codes "t");
  resource_namespace = some (codes "-");
  resource_id = some (codes "r");
  resource_type = some (codes "topic");
  associations = some (info (codes "a") ∷ info (codes "b") ∷ []);
}

abbrev no_associations : MockAssociationStore
no_associations = record { associations = []; next_resource_id = 1 }

abbrev created : AssociationResponse × MockAssociationStore
created = create_under (codes "r") request (record { associations = []; next_resource_id = 2 })

creates : create_association request no_associations ≡ ok (created.0, created.1)
unfolding create_association generate_resource_id
creates = refl

abbrev asked_of_r : List Association
asked_of_r = all_asked_for (codes "r") request

create_association-adds_example :
    (created.0.resource_id ≡ some (codes "r"))
    × (created.0.associations ≡ some asked_of_r)
    × (lookup text_dec (codes "r") created.1.associations
        ≡ ite
            (text_dec (codes "r") (codes "r"))
            (some (entry_after (codes "r") request asked_of_r))
            (lookup text_dec (codes "r") []))
    × (created.1.next_resource_id ≡ 1 + 1)
unfolding lookup
create_association-adds_example =
    create_association-adds request created.0 no_associations created.1 (codes "r") creates

delete_associations-removes_example :
    lookup text_dec
      (codes "r")
      (delete_associations
        (codes "r")
        none
        (some (codes "value" ∷ []))
        false
        created.1).associations
    ≡ ite
        (text_dec (codes "r") (codes "r"))
        (left_of (some (codes "value" ∷ [])) (lookup text_dec (codes "r") created.1.associations))
        (lookup text_dec (codes "r") created.1.associations)
delete_associations-removes_example =
    delete_associations-removes (codes "r") none (some (codes "value" ∷ [])) false created.1
      (codes "r")

abbrev page : ℕ → ℕ → List Association
page offset limit = get_associations_by_resource_name (codes "t") [] [] [] [] offset limit created.1

few_found : length (collect (codes "t") [] [] [] [] created.1.associations) < 2147483648
unfolding collect create_under insert entry_matches filter_associations passes updated_entry lookup
few_found = ground arith

page-append_example : page 0 (1 + 1) ≡ page 0 1 ++ page (0 + 1) 1
page-append_example = page-append (codes "t") [] [] [] [] 0 1 1 created.1 (omega arith) few_found

abbrev field_rule : Rule
field_rule = record {
  name = some (codes "f");
  doc = none;
  kind = some transform;
  mode = some write;
  rule_type = some (codes "ENCRYPT");
  tags = some (codes "PII" ∷ []);
  params = none;
  expr = none;
  on_success = none;
  on_failure = none;
  disabled = none;
}

abbrev guid_bytes : List ℕ
guid_bytes = 1 ∷ 2 ∷ 3 ∷ 4 ∷ 5 ∷ 6 ∷ 7 ∷ 8 ∷ 9 ∷ 10 ∷ 11 ∷ 12 ∷ 13 ∷ 14 ∷ 15 ∷ 255 ∷ []

abbrev sent_id : SchemaId
sent_id = record {
  serde_format = json;
  id = none;
  guid = some (format_guid 1 guid_bytes);
  message_indexes = none;
}

abbrev no_id : SchemaId
no_id = record { serde_format = json; id = none; guid = none; message_indexes = none }

abbrev old_header : SerdeHeader
old_header = record { key = codes "trace"; value = none }

abbrev value_context : SerializationContext
value_context = record {
  topic = codes "t";
  serde_type = serde_value;
  headers = some (old_header ∷ []);
}

abbrev guid_header : SerdeHeader
guid_header = record { key = header_key serde_value; value = some (1 ∷ guid_bytes) }

dual-header_schema_id_serializer_example :
    (header_schema_id_serializer (7 ∷ []) value_context sent_id
      ≡ ok (7 ∷ [], record value_context { headers = some (old_header ∷ guid_header ∷ []) }))
    × (dual_schema_id_deserializer
          (7 ∷ [])
          (record value_context { headers = some (old_header ∷ guid_header ∷ []) })
          no_id
        ≡ ok (record no_id { guid = sent_id.guid }, 0))
dual-header_schema_id_serializer_example =
    dual-header_schema_id_serializer sent_id no_id value_context (old_header ∷ []) guid_bytes
      (7 ∷ []) (7 ∷ []) refl refl (ground arith) refl (ground arith) refl

abbrev strategy : AssociatedNameStrategy
strategy = record { kafka_cluster_id = codes "-"; fallback_strategy = some topic_name_strategy }

abbrev orders : Association
orders = record {
  subject = some (codes "orders");
  guid = none;
  resource_name = none;
  resource_namespace = none;
  resource_id = none;
  resource_type = none;
  association_type = none;
  lifecycle = none;
  frozen = none;
}

-- A topic "o" has an association, every other topic has none; the world counts the requests.
abbrev answer : Text → Text → Text → List Text → Outcome (List Association)
answer name namespace type types = ok (ite (text_dec name (codes "o")) (orders ∷ []) [])

abbrev find : FindAssociations ℕ
find name namespace type types lifecycle offset limit w = (answer name namespace type types, w + 1)

abbrev still : ℕ → ℕ × ℕ
still w = (0, w)

reads_text : ReadsText strategy find still answer
unfolding fall_back topic_name_strategy choose or_none_found
reads_text [] type s t h = refl
reads_text (c ∷ cs) serde_key s t h = elim (text_dec (c ∷ cs) (codes "o")) [
  | yes p ↦ ground arith
  | no p ↦ ground arith
]
reads_text (c ∷ cs) serde_value s t h = elim (text_dec (c ∷ cs) (codes "o")) [
  | yes p ↦ ground arith
  | no p ↦ ground arith
]

abbrev asked : List (Text × SerdeType × Option Schema)
asked =
    (codes "o", serde_key, none)
    ∷ (codes "p", serde_value, none)
    ∷ (codes "o", serde_key, none)
    ∷ []

abbrev empty_cache : Cache SubjectCacheKey (Option Text)
empty_cache = record { entries = []; lru_list = []; capacity = 1000; ttl = none }

starts_empty : init 1000 none ≡ some empty_cache
unfolding init
starts_empty = refl

get_subjects-eq-subject_of_example :
    get_subjects strategy find still asked (record { subject_name_cache = empty_cache; world = 0 })
    ≡ map (λ q. subject_of strategy find still answer q.0 q.1 q.2) asked
get_subjects-eq-subject_of_example =
    get_subjects-eq-subject_of strategy find still answer asked 0 empty_cache
      (λ name namespace type types w. refl) reads_text starts_empty
