-- ===== src/RegistryClient/Settings.antt =====
-- The calls of `SchemaRegistryClient` (src/rest/SchemaRegistryClient.cpp) on configurations and
-- associations. The caches have no part in them: they act on the world alone.
use libschemaregistry.Association.Types.{
  Association, AssociationCreateOrUpdateRequest, AssociationResponse,
}
use libschemaregistry.Exec.{Exec, pure, ◌>>=◌}
use libschemaregistry.Http.{
  Request, Session, Parsed, send, or_rest_exception, or_std_exception, flag,
}
use libschemaregistry.Model.{Metadata, RuleSet}
use libschemaregistry.Outcome.{Outcome}
use libschemaregistry.Prelude.Dict.{Dict}
use libschemaregistry.Prelude.{
  ℕ, ◌^◌, Bool, ◌&&◌, List, [], ◌∷◌, ◌++◌, Option, none, some, Text, codes, ltb, if◌then◌else◌,
}
use libschemaregistry.RegistryClient.Requests.{get_path, optional, escaped_path}
use libschemaregistry.RegistryClient.State.{cannot_parse}
use libschemaregistry.Url.{int32_to_string}

pub data CompatibilityLevel : Type 0 where
  backward backward_transitive forward forward_transitive full full_transitive unchecked :
      CompatibilityLevel

pub record ServerConfig : Type 0 where
  pub compatibility : Option CompatibilityLevel
  pub compatibility_level : Option CompatibilityLevel
  pub alias : Option Text
  pub normalize : Option Bool
  pub validate_fields : Option Bool
  pub validate_rules : Option Bool
  pub compatibility_group : Option Text
  pub default_metadata : Option Metadata
  pub override_metadata : Option Metadata
  pub default_rule_set : Option RuleSet
  pub override_rule_set : Option RuleSet

-- nlohmann::json on the model's `to_json` and `from_json`.
pub record SettingsJson : Type 0 where
  pub config_to_json : ServerConfig → Outcome Text
  pub parse_config : Text → Parsed ServerConfig
  pub request_to_json : AssociationCreateOrUpdateRequest → Outcome Text
  pub parse_associations : Text → Parsed (List Association)
  pub parse_response : Text → Parsed AssociationResponse

-- A pair of the query that is sent if the text is not empty.
unfoldable pub unless_empty : Text → Text → Dict Text Text
unless_empty key [] = []
unless_empty key (c ∷ cs) = (key, c ∷ cs) ∷ []

-- One pair for each of the types.
unfoldable pub type_query : List Text → Dict Text Text
type_query [] = []
type_query (t ∷ ts) = (codes "associationType", t) ∷ type_query ts

-- `offset > 0`, and `limit >= 0`, on bit patterns.
unfoldable pub offset_query : ℕ → Dict Text Text
offset_query offset =
    if ltb 0 offset && ltb offset (2 ^ 31)
    then (codes "offset", int32_to_string offset) ∷ []
    else []

unfoldable pub limit_query : ℕ → Dict Text Text
limit_query limit = if ltb limit (2 ^ 31) then (codes "limit", int32_to_string limit) ∷ [] else []

unfoldable pub associations_query : Text → Text → Text → List Text → Text → ℕ → ℕ → Dict Text Text
associations_query name namespace type types lifecycle offset limit =
    (codes "resourceName", name)
    ∷ (unless_empty (codes "resourceNamespace") namespace
        ++ (unless_empty (codes "resourceType") type
            ++ (type_query types
                ++ (unless_empty (codes "lifecycle") lifecycle
                    ++ (offset_query offset ++ limit_query limit)))))

abbrev list_or_empty : Option (List Text) → List Text
list_or_empty none = []
list_or_empty (some ts) = ts

unfoldable pub delete_query : Option Text → Option (List Text) → Bool → Dict Text Text
delete_query type types cascade_lifecycle =
    optional (codes "resourceType") type
    ++ (type_query (list_or_empty types)
        ++ ((codes "cascadeLifecycle", flag cascade_lifecycle) ∷ []))

abbrev lift : {W A : Type 0} → Outcome A → Exec W A
lift r w = (r, w)

abbrev with_body : Text → Text → Text → Request
with_body path verb body = record { path = path; verb = verb; query = []; body = body }

module _ {W : Type 0} (session : Session W) (json : SettingsJson) where
  unfoldable pub parse_config_from_json : Text → Outcome ServerConfig
  parse_config_from_json text = or_rest_exception (cannot_parse "config") (json.parse_config text)

  unfoldable pub get_config : Text → Exec W ServerConfig
  get_config subject = do
    path ← lift (escaped_path "/config/" subject)
    text ← send session (get_path path [])
    lift (parse_config_from_json text)

  unfoldable pub update_config : Text → ServerConfig → Exec W ServerConfig
  update_config subject config = do
    path ← lift (escaped_path "/config/" subject)
    body ← lift (json.config_to_json config)
    text ← send session (with_body path (codes "PUT") body)
    lift (parse_config_from_json text)

  unfoldable pub get_default_config : Exec W ServerConfig
  get_default_config = do
    text ← send session (get_path (codes "/config") [])
    lift (parse_config_from_json text)

  unfoldable pub update_default_config : ServerConfig → Exec W ServerConfig
  update_default_config config = do
    body ← lift (json.config_to_json config)
    text ← send session (with_body (codes "/config") (codes "PUT") body)
    lift (parse_config_from_json text)

  -- The answers on associations are parsed outside of any `try` block.
  unfoldable pub find_associations :
      Text → Text → Text → List Text → Text → ℕ → ℕ → Exec W (List Association)
  find_associations name namespace type types lifecycle offset limit = do
    text ← send session (
        get_path (codes "/associations")
          (associations_query name namespace type types lifecycle offset limit))
    lift (or_std_exception (json.parse_associations text))

  unfoldable pub post_association : AssociationCreateOrUpdateRequest → Exec W AssociationResponse
  post_association request = do
    body ← lift (json.request_to_json request)
    text ← send session (with_body (codes "/associations") (codes "POST") body)
    lift (or_std_exception (json.parse_response text))

  unfoldable pub remove_associations : Text → Option Text → Option (List Text) → Bool → Exec W Unit
  remove_associations id type types cascade_lifecycle = do
    path ← lift (escaped_path "/associations/resources/" id)
    _ ← send session (record {
      path = path;
      verb = codes "DELETE";
      query = delete_query type types cascade_lifecycle;
      body = [];
    })
    pure tt
