-- ===== src/Association.antt =====
-- `MockAssociationStore` (src/rest/MockSchemaRegistryClient.cpp), the store of associations in memory. An
-- `int32_t` is its bit pattern. The order of the entries is that in which the hash map is iterated.
pub mod Types
pub mod Paging
pub mod Creation
pub mod Deletion
pub mod Filed
use libschemaregistry.Association.Types.{
  LifecyclePolicy, strong, weak, Association, AssociationCreateOrUpdateInfo,
  AssociationCreateOrUpdateRequest, AssociationResponse, AssociationCacheEntry,
  MockAssociationStore,
}
use libschemaregistry.Outcome.{Outcome, ok, undefined, ◌>>=◌}
use libschemaregistry.Prelude.Dict.{Dict, lookup, insert, erase}
use libschemaregistry.Prelude.{
  ℕ, ◌+◌, ◌-◌, ◌%◌, ◌^◌, Bool, true, false, not, ◌&&◌, ◌||◌, List, [], ◌∷◌, ◌++◌, Option, none,
  some, Text, codes, text_dec, to_string, ltb, if◌then◌else◌, ite, length, take, drop, map,
}

-- `value_or("")`
abbrev pub or_empty : Option Text → Text
or_empty none = []
or_empty (some t) = t

abbrev pub same_text : Text → Text → Bool
same_text s t = ite (text_dec s t) true false

abbrev pub is_empty : Text → Bool
is_empty [] = true
is_empty (c ∷ cs) = false

-- `next_resource_id++`, on a signed counter.
unfoldable pub generate_resource_id : MockAssociationStore → Outcome (Text × MockAssociationStore)
generate_resource_id st =
    if ltb st.next_resource_id (2 ^ 63 - 1)
    then ok
        (to_string st.next_resource_id, record st { next_resource_id = st.next_resource_id + 1 })
    else undefined

-- The two texts of a lifecycle; another text sets none.
unfoldable pub parse_lifecycle : Option Text → Option LifecyclePolicy
parse_lifecycle none = none
parse_lifecycle (some t) =
    if same_text t (codes "STRONG")
    then some strong
    else if same_text t (codes "WEAK")
    then some weak
    else none

unfoldable pub lifecycle_text : Option LifecyclePolicy → Text
lifecycle_text none = []
lifecycle_text (some strong) = codes "STRONG"
lifecycle_text (some weak) = codes "WEAK"

-- The association that an entry of the request makes.
unfoldable pub new_association : AssociationCacheEntry → AssociationCreateOrUpdateInfo → Association
new_association entry info = record {
  subject = info.subject;
  guid = none;
  resource_name = some entry.resource_name;
  resource_namespace = some entry.resource_namespace;
  resource_id = some entry.resource_id;
  resource_type = some entry.resource_type;
  association_type = info.association_type;
  lifecycle = parse_lifecycle info.lifecycle;
  frozen = info.frozen;
}

abbrev pub given : Option (List AssociationCreateOrUpdateInfo) → List AssociationCreateOrUpdateInfo
given none = []
given (some infos) = infos

-- What the entry held before: nothing if it is new.
abbrev pub held : Option AssociationCacheEntry → List Association
held none = []
held (some entry) = entry.associations

-- The entry, overwritten with the request's fields, with the associations it held and the new ones.
unfoldable pub updated_entry :
    Text → AssociationCreateOrUpdateRequest → Option AssociationCacheEntry → AssociationCacheEntry
updated_entry resource_id request old =
    let entry : AssociationCacheEntry = record {
      resource_id = resource_id;
      resource_name = or_empty request.resource_name;
      resource_namespace = or_empty request.resource_namespace;
      resource_type = or_empty request.resource_type;
      associations = held old;
    } in
    record entry {
      associations = held old ++ map (new_association entry) (given request.associations);
    }

unfoldable pub response_of : AssociationCacheEntry → AssociationResponse
response_of entry = record {
  resource_id = some entry.resource_id;
  associations = some entry.associations;
}

abbrev pub text_or : Text → Option Text → Text
text_or d none = d
text_or d (some t) = t

-- `createAssociation`, under an identifier.
unfoldable pub create_under :
    Text
    → AssociationCreateOrUpdateRequest
    → MockAssociationStore
    → AssociationResponse × MockAssociationStore
create_under id request st =
    let entry = updated_entry id request (lookup text_dec id st.associations) in
    (response_of entry, record st { associations = insert text_dec id entry st.associations })

-- The argument of `value_or` is evaluated first: the counter moves also where the request has an
-- identifier.
unfoldable pub create_association :
    AssociationCreateOrUpdateRequest
    → MockAssociationStore
    → Outcome (AssociationResponse × MockAssociationStore)
create_association request st =
    generate_resource_id st >>= λ p. ok (create_under (text_or p.0 request.resource_id) request p.1)

-- The loop over `association_types`.
unfoldable pub has_type : List Text → Association → Bool
has_type [] a = false
has_type (t ∷ ts) a =
    let rest = has_type ts a in if same_text (or_empty a.association_type) t then true else rest

-- The two filters; each is off when its argument is empty.
unfoldable pub passes : List Text → Text → Association → Bool
passes [] lifecycle a = is_empty lifecycle || same_text (lifecycle_text a.lifecycle) lifecycle
passes (t ∷ ts) lifecycle a =
    has_type (t ∷ ts) a && (is_empty lifecycle || same_text (lifecycle_text a.lifecycle) lifecycle)

unfoldable pub filter_associations : List Text → Text → List Association → List Association
filter_associations types lifecycle [] = []
filter_associations types lifecycle (a ∷ rest_of) =
    let rest = filter_associations types lifecycle rest_of in
    if passes types lifecycle a then a ∷ rest else rest

unfoldable pub entry_matches : Text → Text → Text → AssociationCacheEntry → Bool
entry_matches name namespace type entry =
    same_text entry.resource_name name
    && (is_empty namespace || same_text entry.resource_namespace namespace)
    && (is_empty type || same_text entry.resource_type type)

-- The loop over the entries.
unfoldable pub collect :
    Text → Text → Text → List Text → Text → Dict Text AssociationCacheEntry → List Association
collect name namespace type types lifecycle [] = []
collect name namespace type types lifecycle ((id, entry) ∷ m) =
    let rest = collect name namespace type types lifecycle m in
    if entry_matches name namespace type entry
    then filter_associations types lifecycle entry.associations ++ rest
    else rest

-- `<` on `int32_t`, and the cast of a size.
unfoldable pub int32_lt : ℕ → ℕ → Bool
int32_lt a b = ltb ((a + 2 ^ 31) % 2 ^ 32) ((b + 2 ^ 31) % 2 ^ 32)

abbrev pub int32_size : List Association → ℕ
int32_size l = length l % 2 ^ 32

unfoldable pub skip : ℕ → List Association → List Association
skip offset l =
    if int32_lt 0 offset && int32_lt offset (int32_size l)
    then drop offset l
    else if not (int32_lt offset (int32_size l))
    then []
    else l

unfoldable pub limit_to : ℕ → List Association → List Association
limit_to limit l =
    if not (int32_lt limit 0) && int32_lt limit (int32_size l) then take limit l else l

unfoldable pub get_associations_by_resource_name :
    Text → Text → Text → List Text → Text → ℕ → ℕ → MockAssociationStore → List Association
get_associations_by_resource_name name namespace type types lifecycle offset limit st =
    limit_to limit (skip offset (collect name namespace type types lifecycle st.associations))

-- What `remove_if` leaves.
unfoldable pub without_types : List Text → List Association → List Association
without_types types [] = []
without_types types (a ∷ rest_of) =
    let rest = without_types types rest_of in if has_type types a then rest else a ∷ rest

unfoldable pub store_rest :
    Text → AssociationCacheEntry → List Association → MockAssociationStore → MockAssociationStore
store_rest id entry [] st = record st { associations = erase text_dec id st.associations }
store_rest id entry (a ∷ rest_of) st = record st {
  associations = insert text_dec id (record entry { associations = a ∷ rest_of }) st.associations;
}

-- `deleteAssociations` on an entry that is there.
unfoldable pub delete_from :
    Text
    → Option (List Text)
    → MockAssociationStore
    → Option AssociationCacheEntry
    → MockAssociationStore
delete_from id types st none = st
delete_from id none st (some entry) = record st { associations = erase text_dec id st.associations }
delete_from id (some []) st (some entry) = record st {
  associations = erase text_dec id st.associations;
}
delete_from id (some (t ∷ ts)) st (some entry) =
    store_rest id entry (without_types (t ∷ ts) entry.associations) st

-- The type of the resource and `cascade_lifecycle` are not read.
unfoldable pub delete_associations :
    Text → Option Text → Option (List Text) → Bool → MockAssociationStore → MockAssociationStore
delete_associations id resource_type types cascade_lifecycle st =
    delete_from id types st (lookup text_dec id st.associations)

-- The counter keeps its value.
unfoldable pub clear : MockAssociationStore → MockAssociationStore
clear st = record st { associations = [] }
