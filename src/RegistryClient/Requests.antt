-- ===== src/RegistryClient/Requests.antt =====
-- The requests that `SchemaRegistryClient` (src/rest/SchemaRegistryClient.cpp) sends, and the key of
-- the cache by metadata. A `std::unordered_map` is the list of its pairs in the order of iteration.
use libschemaregistry.Http.{Request, flag}
use libschemaregistry.Model.{Schema}
use libschemaregistry.Outcome.{Outcome, ok, ◌>>=◌}
use libschemaregistry.Prelude.Dict.{Dict}
use libschemaregistry.Prelude.{
  String, ℕ, Bool, true, false, [], ◌∷◌, ◌++◌, Option, none, some, Text, codes, ltb, if◌then◌else◌,
}
use libschemaregistry.Url.{url_encode, int32_to_string}

-- `operator<` of `std::string`, by unsigned bytes.
unfoldable pub text_ltb : Text → Text → Bool
text_ltb s [] = false
text_ltb [] (c ∷ t) = true
text_ltb (b ∷ s) (c ∷ t) =
    let rest = text_ltb s t in if ltb b c then true else if ltb c b then false else rest

-- Insertion of one pair into a `std::map`, which keeps the pair of a key that it holds.
unfoldable pub insert_sorted : Text → Text → Dict Text Text → Dict Text Text
insert_sorted k v [] = (k, v) ∷ []
insert_sorted k v ((j, w) ∷ m) =
    let rest = insert_sorted k v m in
    if text_ltb k j then (k, v) ∷ (j, w) ∷ m else if text_ltb j k then (j, w) ∷ rest else (j, w) ∷ m

unfoldable pub sort_metadata : Dict Text Text → Dict Text Text
sort_metadata [] = []
sort_metadata ((k, v) ∷ m) = insert_sorted k v (sort_metadata m)

unfoldable pub metadata_text : Dict Text Text → Text
metadata_text [] = []
metadata_text ((k, v) ∷ m) = k ++ (codes "=" ++ (v ++ (codes "&" ++ metadata_text m)))

unfoldable pub create_metadata_key : Text → Dict Text Text → Text
create_metadata_key subject metadata =
    subject ++ (codes "|" ++ metadata_text (sort_metadata metadata))

-- "key" and "value" for each pair of the metadata.
unfoldable pub metadata_query : Dict Text Text → Dict Text Text
metadata_query [] = []
metadata_query ((k, v) ∷ m) = (codes "key", k) ∷ (codes "value", v) ∷ metadata_query m

-- A pair of the query that is sent if the argument has a value.
abbrev pub optional : Text → Option Text → Dict Text Text
optional k none = []
optional k (some v) = (k, v) ∷ []

abbrev pub get_path : Text → Dict Text Text → Request
get_path path query = record { path = path; verb = codes "GET"; query = query; body = [] }

abbrev pub post : Text → Dict Text Text → Text → Request
post path query body = record { path = path; verb = codes "POST"; query = query; body = body }

abbrev pub delete : Text → Dict Text Text → Request
delete path query = record { path = path; verb = codes "DELETE"; query = query; body = [] }

-- "/subjects/" + urlEncode(subject) + `tail`
unfoldable pub subject_path : Text → Text → Outcome Text
subject_path subject tail = url_encode subject >>= λ name. ok (codes "/subjects/" ++ (name ++ tail))

module _ (schema_to_json : Schema → Outcome Text) where
  unfoldable pub register_request : Text → Schema → Bool → Outcome Request
  register_request subject schema normalize = do
    path ← subject_path subject (codes "/versions")
    body ← schema_to_json schema
    ok (post path ((codes "normalize", flag normalize) ∷ []) body)

  unfoldable pub by_schema_request : Text → Schema → Bool → Bool → Outcome Request
  by_schema_request subject schema normalize deleted = do
    path ← subject_path subject []
    body ← schema_to_json schema
    ok (post path ((codes "normalize", flag normalize) ∷ (codes "deleted", flag deleted) ∷ []) body)

  unfoldable pub compatibility_request : Text → Text → Schema → Outcome Request
  compatibility_request subject version schema = do
    name ← url_encode subject
    body ← schema_to_json schema
    ok (
        post (codes "/compatibility/subjects/" ++ (name ++ (codes "/versions/" ++ version))) []
          body)

-- The subject of a request by id goes into the query, and the id is not escaped.
unfoldable pub by_id_request : Option Text → ℕ → Option Text → Outcome Request
by_id_request subject id format = ok (
    get_path (codes "/schemas/ids/" ++ int32_to_string id)
      (optional (codes "subject") subject ++ optional (codes "format") format))

unfoldable pub by_guid_request : Text → Option Text → Outcome Request
by_guid_request guid format = do
  name ← url_encode guid
  ok (get_path (codes "/schemas/guids/" ++ name) (optional (codes "format") format))

unfoldable pub version_request : Text → ℕ → Bool → Option Text → Outcome Request
version_request subject version deleted format = do
  path ← subject_path subject (codes "/versions/" ++ int32_to_string version)
  ok (get_path path ((codes "deleted", flag deleted) ∷ optional (codes "format") format))

unfoldable pub latest_request : Text → Option Text → Outcome Request
latest_request subject format = do
  path ← subject_path subject (codes "/versions/latest")
  ok (get_path path (optional (codes "format") format))

unfoldable pub metadata_request : Text → Dict Text Text → Bool → Option Text → Outcome Request
metadata_request subject metadata deleted format = do
  path ← subject_path subject (codes "/metadata")
  ok (
      get_path path (
        (codes "deleted", flag deleted)
        ∷ (optional (codes "format") format ++ metadata_query metadata)))

unfoldable pub versions_request : Text → Outcome Request
versions_request subject = do path ← subject_path subject (codes "/versions"); ok (get_path path [])

unfoldable pub subjects_request : Bool → Outcome Request
subjects_request deleted = ok (get_path (codes "/subjects") ((codes "deleted", flag deleted) ∷ []))

unfoldable pub delete_subject_request : Text → Bool → Outcome Request
delete_subject_request subject permanent = do
  path ← subject_path subject []
  ok (delete path ((codes "permanent", flag permanent) ∷ []))

unfoldable pub delete_version_request : Text → ℕ → Bool → Outcome Request
delete_version_request subject version permanent = do
  path ← subject_path subject (codes "/versions/" ++ int32_to_string version)
  ok (delete path ((codes "permanent", flag permanent) ∷ []))

-- A literal and an escaped text.
unfoldable pub escaped_path : String → Text → Outcome Text
escaped_path prefix text = url_encode text >>= λ name. ok (codes prefix ++ name)
