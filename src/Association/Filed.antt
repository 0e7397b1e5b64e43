-- ===== src/Association/Filed.antt =====
-- The store of associations keeps every entry, and each of its associations, under its own identifier
-- (src/rest/MockSchemaRegistryClient.cpp).
use libschemaregistry.Association.Types.{
  Association, AssociationCreateOrUpdateRequest, AssociationCreateOrUpdateInfo,
  AssociationCacheEntry, AssociationResponse, MockAssociationStore,
}
use libschemaregistry.Association.{
  new_association, updated_entry, create_association, has_type, without_types, delete_associations,
  text_or, given, held,
}
use libschemaregistry.Outcome.{ok}
use libschemaregistry.Prelude.Dict.{lookup}
use libschemaregistry.Prelude.{
  Bool, List, [], ◌∷◌, ◌++◌, Option, none, some, Text, text_dec, ite, map, ◌≡◌, refl, ap, arith,
  All, sym, subst, ◌∙◌, inl, inr, Bool-cases, to_string,
}
use libschemaregistry.Association.Creation.{create_association-Added}
use libschemaregistry.Association.Deletion.{delete_associations-reads, left_in, keep_rest}

-- An entry of an identifier, whose associations all have it.
abbrev pub FiledUnder : Text → AssociationCacheEntry → Type 0
FiledUnder id entry =
    (entry.resource_id ≡ id) × All (λ a. a.resource_id ≡ some id) entry.associations

-- Every entry stands under its own identifier, and so does each of its associations.
abbrev pub IsFiled : MockAssociationStore → Type 0
IsFiled st =
    (id : Text) (entry : AssociationCacheEntry)
    → lookup text_dec id st.associations ≡ some entry
    → FiledUnder id entry

append-All :
    (P : Association → Type 0) (l k : List Association) → All P l → All P k → All P (l ++ k)
append-All P [] k h h' = h'
append-All P (a ∷ l) k (p, h) h' = (p, append-All P l k h h')

new-All :
    (entry : AssociationCacheEntry) (infos : List AssociationCreateOrUpdateInfo)
    → All (λ a. a.resource_id ≡ some entry.resource_id) (map (new_association entry) infos)
unfolding new_association
new-All entry [] = tt
new-All entry (i ∷ infos) = (refl, new-All entry infos)

without-All :
    (P : Association → Type 0) (types : List Text) (l : List Association)
    → All P l
    → All P (without_types types l)
unfolding without_types
without-All P types [] h = tt
without-All P types (a ∷ l) (p, h) = elim (Bool-cases (has_type types a)) [
  | inl gone ↦ rw gone (without-All P types l h)
  | inr kept ↦ rw kept (p, without-All P types l h)
]

old-All :
    (P : Association → Type 0) (o : Option AssociationCacheEntry)
    → ((entry : AssociationCacheEntry) → o ≡ some entry → All P entry.associations)
    → All P (held o)
old-All P none h = tt
old-All P (some entry) h = h entry refl

abbrev id_of : Option AssociationCacheEntry → Text
id_of none = []
id_of (some entry) = entry.resource_id

left_in-some :
    (P : Association → Type 0) (types : Option (List Text)) (old entry : AssociationCacheEntry)
    → All P old.associations
    → left_in types (some old) ≡ some entry
    → (entry.resource_id ≡ old.resource_id) × All P entry.associations
left_in-some P none old entry h e = absurd (cc e)
left_in-some P (some []) old entry h e = absurd (cc e)
left_in-some P (some (t ∷ ts)) old entry h e =
    kept (without_types (t ∷ ts) old.associations) (without-All P (t ∷ ts) old.associations h) e
  where
    kept :
        (l : List Association)
        → All P l
        → keep_rest old l ≡ some entry
        → (entry.resource_id ≡ old.resource_id) × All P entry.associations
    kept [] h e = absurd (cc e)
    kept (a ∷ l) h e =
        let same : (a ∷ l) ≡ entry.associations = ap (λ o. held o) e in
        (sym (ap (λ o. id_of o) e), subst (All P) same h)

left_in-FiledUnder :
    (id : Text) (types : Option (List Text)) (found : Option AssociationCacheEntry)
    (entry : AssociationCacheEntry)
    → ((old : AssociationCacheEntry) → found ≡ some old → FiledUnder id old)
    → left_in types found ≡ some entry
    → FiledUnder id entry
left_in-FiledUnder id types none entry filed h = absurd (cc h)
left_in-FiledUnder id types (some old) entry filed h =
    let (own, all) = filed old refl in
    let (same, rest) = left_in-some _ types old entry all h in (same ∙ own, rest)

-- A change of one entry keeps the store filed if the entry that it leaves, if any, is filed.
changed-IsFiled :
    (id : Text) (new : Option AssociationCacheEntry) (st st' : MockAssociationStore)
    → ((j : Text)
        → lookup text_dec j st'.associations
          ≡ ite (text_dec id j) new (lookup text_dec j st.associations))
    → ((entry : AssociationCacheEntry) → new ≡ some entry → FiledUnder id entry)
    → IsFiled st
    → IsFiled st'
changed-IsFiled id new st st' reads left filed j e found = elim (text_dec id j) [
  | yes same ↦ subst (λ k. FiledUnder k e) same (left e (ground (arith, reads j)))
  | no other ↦ filed j e (ground (arith, reads j))
]

-- A creation that returns keeps every entry, and each of its associations, under its own
-- identifier.
pub create_association-IsFiled :
    (request : AssociationCreateOrUpdateRequest) (response : AssociationResponse)
    (st st' : MockAssociationStore)
    → IsFiled st
    → create_association request st ≡ ok (response, st')
    → IsFiled st'
unfolding updated_entry
create_association-IsFiled request response st st' filed h =
    let id = text_or (to_string st.next_resource_id) request.resource_id in
    let old = lookup text_dec id st.associations in
    changed-IsFiled id (some (updated_entry id request old)) st st'
      (λ j. (create_association-Added request response st st' j h).2)
      (λ entry same.
        let made : updated_entry id request old ≡ entry = cc same in
        subst (FiledUnder id) made (
          refl,
          append-All _ (held old) _ (old-All _ old (λ e found. (filed id e found).1))
              (new-All _ (given request.associations)),
        ))
      filed

-- A deletion keeps every entry, and each of its associations, under its own identifier.
pub delete_associations-IsFiled :
    (id : Text) (resource_type : Option Text) (types : Option (List Text)) (cascade : Bool)
    (st : MockAssociationStore)
    → IsFiled st
    → IsFiled (delete_associations id resource_type types cascade st)
delete_associations-IsFiled id resource_type types cascade st filed =
    let found = lookup text_dec id st.associations in
    changed-IsFiled id (left_in types found) st
      (delete_associations id resource_type types cascade st)
      (delete_associations-reads id resource_type types cascade st)
      (λ entry same. left_in-FiledUnder id types found entry (filed id) same) filed
