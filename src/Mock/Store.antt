-- ===== src/Mock/Store.antt =====
-- `MockSchemaStore` (src/rest/MockSchemaRegistryClient.cpp): the schemas of each subject, in the
-- order in which they came, and the indexes by id, by GUID and by text.
use libschemaregistry.Model.{RegisteredSchema, Schema, Metadata, to_schema}
use libschemaregistry.Outcome.{Outcome, ok, undefined}
use libschemaregistry.Prelude.Dict.{Dict, lookup, insert, erase}
use libschemaregistry.Prelude.{
  ℕ, suc, Bool, true, false, ◌&&◌, List, [], ◌∷◌, ◌++◌, map, Option, none, some, Text, text_dec,
  ℕ_discrete, ite, ltb, if◌then◌else◌,
}

pub record MockSchemaStore : Type 0 where
  pub schemas : Dict Text (List RegisteredSchema)
  pub schema_id_index : Dict ℕ RegisteredSchema
  pub schema_guid_index : Dict Text RegisteredSchema
  pub schema_index : Dict Text RegisteredSchema
  pub next_schema_id : ℕ

unfoldable pub empty : MockSchemaStore
empty = record {
  schemas = [];
  schema_id_index = [];
  schema_guid_index = [];
  schema_index = [];
  next_schema_id = 1;
}

-- The sum with 1 in an `int32_t`: past 2 ^ 31 - 1 it is undefined.
unfoldable pub next_int : ℕ → Outcome ℕ
next_int n = if ltb n 2147483647 then ok (suc n) else undefined

-- `getVersion().value_or(0)`
unfoldable pub generation : RegisteredSchema → ℕ
generation rs = elim rs.version [ none ↦ 0 | some v ↦ v ]

-- `getSchema().value_or("")`
abbrev pub text_or_empty : Option Text → Text
text_or_empty none = []
text_or_empty (some t) = t

-- The vector of a subject; no loop tells a subject that is not there from an empty vector.
abbrev pub or_no_schemas : Option (List RegisteredSchema) → List RegisteredSchema
or_no_schemas none = []
or_no_schemas (some l) = l

unfoldable pub schemas_of : Text → MockSchemaStore → List RegisteredSchema
schemas_of subject st = or_no_schemas (lookup text_dec subject st.schemas)

unfoldable pub insert_if :
    {K : Type 0}
    → Discrete K
    → Option K
    → RegisteredSchema
    → Dict K RegisteredSchema
    → Dict K RegisteredSchema
insert_if dec none rs m = m
insert_if dec (some k) rs m = insert dec k rs m

unfoldable pub set_registered_schema : RegisteredSchema → MockSchemaStore → MockSchemaStore
set_registered_schema rs st =
    let subject = text_or_empty rs.subject in
    record st {
      schema_id_index = insert_if ℕ_discrete rs.id rs st.schema_id_index;
      schema_guid_index = insert_if text_dec rs.guid rs st.schema_guid_index;
      schema_index = insert_if text_dec rs.schema rs st.schema_index;
      schemas = insert text_dec subject (schemas_of subject st ++ (rs ∷ [])) st.schemas;
    }

abbrev pub to_schema? : Option RegisteredSchema → Option Schema
to_schema? none = none
to_schema? (some rs) = some (to_schema rs)

unfoldable pub get_schema_by_id : ℕ → MockSchemaStore → Option Schema
get_schema_by_id id st = to_schema? (lookup ℕ_discrete id st.schema_id_index)

unfoldable pub get_schema_by_guid : Text → MockSchemaStore → Option Schema
get_schema_by_guid guid st = to_schema? (lookup text_dec guid st.schema_guid_index)

-- The loops that return the first schema of the vector with what is asked for.
unfoldable pub find_text : Text → List RegisteredSchema → Option RegisteredSchema
find_text t [] = none
find_text t (rs ∷ l) = ite (text_dec (text_or_empty rs.schema) t) (some rs) (find_text t l)

unfoldable pub find_version : ℕ → List RegisteredSchema → Option RegisteredSchema
find_version v [] = none
find_version v (rs ∷ l) = ite (ℕ_discrete (generation rs) v) (some rs) (find_version v l)

unfoldable pub get_registered_by_schema : Text → Schema → MockSchemaStore → Option RegisteredSchema
get_registered_by_schema subject schema st =
    find_text (text_or_empty schema.schema) (schemas_of subject st)

unfoldable pub get_registered_by_version : Text → ℕ → MockSchemaStore → Option RegisteredSchema
get_registered_by_version subject version st = find_version version (schemas_of subject st)

-- `std::max_element`: the first of the largest.
unfoldable pub max_element : RegisteredSchema → List RegisteredSchema → RegisteredSchema
max_element best [] = best
max_element best (rs ∷ l) =
    max_element (if ltb (generation best) (generation rs) then rs else best) l

unfoldable pub latest_of : List RegisteredSchema → Option RegisteredSchema
latest_of [] = none
latest_of (rs ∷ l) = some (max_element rs l)

unfoldable pub latest_version : Text → MockSchemaStore → Option RegisteredSchema
latest_version subject st = latest_of (schemas_of subject st)

-- `hasMetadata`: every pair asked for is among the properties.
unfoldable pub properties_of : Option Metadata → Dict Text Text
properties_of none = []
properties_of (some m) = elim m.properties [ none ↦ [] | some p ↦ p ]

abbrev pub is_value : Text → Option Text → Bool
is_value t none = false
is_value t (some u) = ite (text_dec u t) true false

unfoldable pub all_of : Dict Text Text → Dict Text Text → Bool
all_of [] props = true
all_of ((k, v) ∷ metadata) props = is_value v (lookup text_dec k props) && all_of metadata props

unfoldable pub has_metadata : Dict Text Text → RegisteredSchema → Bool
has_metadata metadata rs = all_of metadata (properties_of rs.metadata)

unfoldable pub find_metadata : Dict Text Text → List RegisteredSchema → Option RegisteredSchema
find_metadata metadata [] = none
find_metadata metadata (rs ∷ l) =
    if has_metadata metadata rs then some rs else find_metadata metadata l

unfoldable pub get_latest_with_metadata :
    Text → Dict Text Text → MockSchemaStore → Option RegisteredSchema
get_latest_with_metadata subject metadata st = find_metadata metadata (schemas_of subject st)

abbrev pub key_of : Text × List RegisteredSchema → Text
key_of (subject, l) = subject

unfoldable pub get_subjects : MockSchemaStore → List Text
get_subjects st = map key_of st.schemas

unfoldable pub get_versions : Text → MockSchemaStore → List ℕ
get_versions subject st = map generation (schemas_of subject st)

-- `rs.getSchema() == registeredSchema.getSchema()`, on `std::optional`.
unfoldable pub same_text : Option Text → Option Text → Bool
same_text none none = true
same_text none (some u) = false
same_text (some t) none = false
same_text (some t) (some u) = ite (text_dec t u) true false

unfoldable pub remove_text : Option Text → List RegisteredSchema → List RegisteredSchema
remove_text t [] = []
remove_text t (rs ∷ l) =
    let rest = remove_text t l in if same_text rs.schema t then rest else rs ∷ rest

-- `removeBySchema`, on what `schemas.find(subject)` gives.
unfoldable pub remove_from :
    Text → RegisteredSchema → MockSchemaStore → Option (List RegisteredSchema) → MockSchemaStore
remove_from subject rs st none = st
remove_from subject rs st (some l) = record st {
  schemas = insert text_dec subject (remove_text rs.schema l) st.schemas;
}

unfoldable pub remove_by_schema : Text → RegisteredSchema → MockSchemaStore → MockSchemaStore
remove_by_schema subject rs st = remove_from subject rs st (lookup text_dec subject st.schemas)

unfoldable pub erase_if :
    {K : Type 0} → Discrete K → Option K → Dict K RegisteredSchema → Dict K RegisteredSchema
erase_if dec none m = m
erase_if dec (some k) m = erase dec k m

-- The loop of `removeBySubject` over the schemas of the subject.
unfoldable pub unindex : List RegisteredSchema → MockSchemaStore → MockSchemaStore
unindex [] st = st
unindex (rs ∷ l) st = unindex l (record st {
  schema_id_index = erase_if ℕ_discrete rs.id st.schema_id_index;
  schema_index = erase_if text_dec rs.schema st.schema_index;
})

-- `removeBySubject`, on what `schemas.find(subject)` gives. The index by GUID is left alone.
unfoldable pub remove_row :
    Text → MockSchemaStore → Option (List RegisteredSchema) → List ℕ × MockSchemaStore
remove_row subject st none = ([], st)
remove_row subject st (some l) =
    let st' = unindex l st in
    (map generation l, record st' { schemas = erase text_dec subject st'.schemas })

unfoldable pub remove_by_subject : Text → MockSchemaStore → List ℕ × MockSchemaStore
remove_by_subject subject st = remove_row subject st (lookup text_dec subject st.schemas)

unfoldable pub clear : MockSchemaStore → MockSchemaStore
clear st = record st {
  schemas = [];
  schema_id_index = [];
  schema_guid_index = [];
  schema_index = [];
}
