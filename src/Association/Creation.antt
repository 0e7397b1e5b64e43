-- ===== src/Association/Creation.antt =====
-- Creation in `MockAssociationStore` (src/rest/MockSchemaRegistryClient.cpp).
use libschemaregistry.Association.Types.{
  LifecyclePolicy, strong, weak, Association, AssociationCreateOrUpdateRequest,
  AssociationCreateOrUpdateInfo, AssociationCacheEntry, AssociationResponse, MockAssociationStore,
}
use libschemaregistry.Association.{
  generate_resource_id, new_association, updated_entry, response_of, create_under,
  create_association, text_or, given, held, or_empty, parse_lifecycle,
}
use libschemaregistry.Outcome.{ok, >>=-eq-ok}
use libschemaregistry.Prelude.Dict.{lookup, lookup-insert}
use libschemaregistry.Prelude.{
  ◌+◌, List, [], ◌∷◌, ◌++◌, Option, none, some, Text, text_dec, ite, map, ◌≡◌, refl, ap, arith, sym,
  subst, ◌∙◌, to_string, codes,
}

generate_resource_id-ok :
    (st st1 : MockAssociationStore) (id : Text)
    → generate_resource_id st ≡ ok (id, st1)
    → (id ≡ to_string st.next_resource_id)
      × (st1 ≡ record st { next_resource_id = st.next_resource_id + 1 })
unfolding generate_resource_id
generate_resource_id-ok st st1 id h = ground arith

create_association-ok :
    (request : AssociationCreateOrUpdateRequest) (response : AssociationResponse)
    (st st' : MockAssociationStore)
    → create_association request st ≡ ok (response, st')
    → create_under
        (text_or (to_string st.next_resource_id) request.resource_id)
        request
        (record st { next_resource_id = st.next_resource_id + 1 })
      ≡ (response, st')
unfolding create_association
create_association-ok request response st st' h =
    let ((id, st1), made, under) = >>=-eq-ok (generate_resource_id st) _ h in
    let (same, next) = generate_resource_id-ok st st1 id made in cc (under, same, next)

-- `value_or`, and the policy that a text names.
abbrev pub or_default : Text → Option Text → Text
or_default d o = elim o [ none ↦ d | some t ↦ t ]

abbrev pub policy_named : Option Text → Option LifecyclePolicy
policy_named o = elim o [
  | none ↦ none
  | some t ↦
      ite (text_dec t (codes "STRONG")) (some strong)
        (ite (text_dec t (codes "WEAK")) (some weak) none)
]

-- The association that a request asks for with one of its items, under an identifier.
abbrev pub asked_for :
    Text → AssociationCreateOrUpdateRequest → AssociationCreateOrUpdateInfo → Association
asked_for id request info = record {
  subject = info.subject;
  guid = none;
  resource_name = some (or_default [] request.resource_name);
  resource_namespace = some (or_default [] request.resource_namespace);
  resource_id = some id;
  resource_type = some (or_default [] request.resource_type);
  association_type = info.association_type;
  lifecycle = policy_named info.lifecycle;
  frozen = info.frozen;
}

-- What a request asks for, in its order, and what a store holds under an identifier.
abbrev pub all_asked_for : Text → AssociationCreateOrUpdateRequest → List Association
all_asked_for id request = elim request.associations [
  | none ↦ []
  | some infos ↦ map (asked_for id request) infos
]

abbrev pub associations_at : Text → MockAssociationStore → List Association
associations_at id st = elim (lookup text_dec id st.associations) [
  | none ↦ []
  | some entry ↦ entry.associations
]

parse_lifecycle-eq : (t : Option Text) → parse_lifecycle t ≡ policy_named t
unfolding parse_lifecycle
parse_lifecycle-eq none = refl
parse_lifecycle-eq (some t) = ground arith

new_associations-eq :
    (id : Text) (request : AssociationCreateOrUpdateRequest) (entry : AssociationCacheEntry)
    (infos : List AssociationCreateOrUpdateInfo)
    → entry.resource_id ≡ id
    → entry.resource_name ≡ or_default [] request.resource_name
    → entry.resource_namespace ≡ or_default [] request.resource_namespace
    → entry.resource_type ≡ or_default [] request.resource_type
    → map (new_association entry) infos ≡ map (asked_for id request) infos
unfolding new_association
new_associations-eq id request entry [] i n s t = refl
new_associations-eq id request entry (info ∷ infos) i n s t =
    ground
      (arith, parse_lifecycle-eq info.lifecycle, new_associations-eq id request entry infos i n s t)

pub or_empty-eq : (o : Option Text) → or_empty o ≡ or_default [] o
or_empty-eq none = refl
or_empty-eq (some t) = refl

given-eq :
    (id : Text) (request : AssociationCreateOrUpdateRequest)
    (infos : Option (List AssociationCreateOrUpdateInfo))
    → map (asked_for id request) (given infos)
      ≡ (elim infos [ none ↦ [] | some l ↦ map (asked_for id request) l ])
given-eq id request none = refl
given-eq id request (some l) = refl

held-eq :
    (o : Option AssociationCacheEntry)
    → held o ≡ (elim o [ none ↦ [] | some entry ↦ entry.associations ])
held-eq none = refl
held-eq (some entry) = refl

-- The entry that a creation leaves.
abbrev pub entry_after :
    Text → AssociationCreateOrUpdateRequest → List Association → AssociationCacheEntry
entry_after id request associations = record {
  resource_id = id;
  resource_name = or_default [] request.resource_name;
  resource_namespace = or_default [] request.resource_namespace;
  resource_type = or_default [] request.resource_type;
  associations = associations;
}

updated_entry-eq :
    (id : Text) (request : AssociationCreateOrUpdateRequest) (st : MockAssociationStore)
    → updated_entry id request (lookup text_dec id st.associations)
      ≡ entry_after id request (associations_at id st ++ all_asked_for id request)
unfolding updated_entry
updated_entry-eq id request st =
    let base : AssociationCacheEntry = record {
      resource_id = id;
      resource_name = or_empty request.resource_name;
      resource_namespace = or_empty request.resource_namespace;
      resource_type = or_empty request.resource_type;
      associations = held (lookup text_dec id st.associations);
    } in
    ground (
      arith,
      or_empty-eq request.resource_name,
      or_empty-eq request.resource_namespace,
      or_empty-eq request.resource_type,
      held-eq (lookup text_dec id st.associations),
      given-eq id request request.associations,
      new_associations-eq id request base (given request.associations) refl
          (or_empty-eq request.resource_name) (or_empty-eq request.resource_namespace)
          (or_empty-eq request.resource_type),
    )

text_or-eq : (d : Text) (o : Option Text) → text_or d o ≡ or_default d o
text_or-eq d none = refl
text_or-eq d (some t) = refl

-- What the response and the store have after a creation that leaves an entry.
abbrev pub Added :
    AssociationResponse
    → MockAssociationStore
    → MockAssociationStore
    → Text
    → Text
    → AssociationCacheEntry
    → Type 0
Added response st st' j id entry =
    (response.resource_id ≡ some id)
    × (response.associations ≡ some entry.associations)
    × (lookup text_dec j st'.associations
        ≡ ite (text_dec id j) (some entry) (lookup text_dec j st.associations))
    × (st'.next_resource_id ≡ st.next_resource_id + 1)

pub create_association-Added :
    (request : AssociationCreateOrUpdateRequest) (response : AssociationResponse)
    (st st' : MockAssociationStore) (j : Text)
    → create_association request st ≡ ok (response, st')
    → let id = text_or (to_string st.next_resource_id) request.resource_id in
      Added response st st' j id (updated_entry id request (lookup text_dec id st.associations))
unfolding create_under response_of updated_entry
create_association-Added request response st st' j h =
    let id = text_or (to_string st.next_resource_id) request.resource_id in
    let entry = updated_entry id request (lookup text_dec id st.associations) in
    let made = create_association-ok request response st st' h in
    (
      sym (ap (λ p. p.0.resource_id) made),
      sym (ap (λ p. p.0.associations) made),
      ap (λ p. lookup text_dec j p.1.associations) (sym made)
          ∙ lookup-insert text_dec j id entry st.associations,
      sym (ap (λ p. p.1.next_resource_id) made),
    )

-- After a creation that returns, the response and the entry of its identifier hold the associations
-- that the entry held before, in their order, followed by one for each item of the request, in its
-- order; the identifier is the request's, or else the counter's; the entry has the names and the
-- type of the request; every other entry is as before; and the counter has moved by one, also where
-- the request has an identifier.
pub create_association-adds :
    (request : AssociationCreateOrUpdateRequest) (response : AssociationResponse)
    (st st' : MockAssociationStore) (j : Text)
    → create_association request st ≡ ok (response, st')
    → let id = or_default (to_string st.next_resource_id) request.resource_id in
      let all = associations_at id st ++ all_asked_for id request in
      (response.resource_id ≡ some id)
      × (response.associations ≡ some all)
      × (lookup text_dec j st'.associations
          ≡ ite
              (text_dec id j)
              (some (entry_after id request all))
              (lookup text_dec j st.associations))
      × (st'.next_resource_id ≡ st.next_resource_id + 1)
create_association-adds request response st st' j h =
    let id = or_default (to_string st.next_resource_id) request.resource_id in
    subst (λ entry. Added response st st' j id entry) (updated_entry-eq id request st)
      (subst
        (λ id.
          Added response st st' j id
            (updated_entry id request (lookup text_dec id st.associations)))
        (text_or-eq (to_string st.next_resource_id) request.resource_id)
        (create_association-Added request response st st' j h))
