-- ===== src/Association/Deletion.antt =====
-- Deletion in `MockAssociationStore` (src/rest/MockSchemaRegistryClient.cpp).
use libschemaregistry.Association.Creation.{or_default, or_empty-eq}
use libschemaregistry.Association.Types.{Association, AssociationCacheEntry, MockAssociationStore}
use libschemaregistry.Association.{
  has_type, without_types, store_rest, delete_from, delete_associations,
}
use mathlib.Core.List.{Mem, dec_mem, filter}
use mathlib.Core.Logic.Dec
use libschemaregistry.Prelude.Dict.{lookup, lookup-insert, lookup-erase}
use libschemaregistry.Prelude.{
  Bool, true, false, List, [], ◌∷◌, Option, none, some, Text, text_dec, ite, ◌≡◌, refl, ap, arith,
  subst,
}

-- The associations whose type, or the empty text where there is none, is not in a list, in their
-- order.
abbrev pub of_other_types : List Text → List Association → List Association
of_other_types types =
    filter {p = λ a. ¬ Mem (or_default [] a.association_type) types}
      (λ a. Dec.not (dec_mem text_dec (or_default [] a.association_type) types))

has_type-Mem :
    (types : List Text) (a : Association)
    → has_type types a ≡ ite (dec_mem text_dec (or_default [] a.association_type) types) true false
unfolding has_type
has_type-Mem [] a = refl
has_type-Mem (t ∷ ts) a = ground (arith, or_empty-eq a.association_type, has_type-Mem ts a)

without_types-eq :
    (types : List Text) (l : List Association) → without_types types l ≡ of_other_types types l
unfolding without_types Dec.not
without_types-eq types [] = refl
without_types-eq types (a ∷ l) = ground (arith, has_type-Mem types a, without_types-eq types l)

-- What a deletion leaves of an entry: nothing without types, and otherwise the associations of
-- other types, if there are any.
abbrev pub keep_rest : AssociationCacheEntry → List Association → Option AssociationCacheEntry
keep_rest entry [] = none
keep_rest entry (a ∷ l) = some (record entry { associations = a ∷ l })

abbrev pub left_of :
    Option (List Text) → Option AssociationCacheEntry → Option AssociationCacheEntry
left_of types none = none
left_of none (some entry) = none
left_of (some []) (some entry) = none
left_of (some (t ∷ ts)) (some entry) = keep_rest entry (of_other_types (t ∷ ts) entry.associations)

abbrev pub left_in :
    Option (List Text) → Option AssociationCacheEntry → Option AssociationCacheEntry
left_in types none = none
left_in none (some entry) = none
left_in (some []) (some entry) = none
left_in (some (t ∷ ts)) (some entry) = keep_rest entry (without_types (t ∷ ts) entry.associations)

left_in-eq :
    (types : Option (List Text)) (found : Option AssociationCacheEntry)
    → left_in types found ≡ left_of types found
left_in-eq types none = refl
left_in-eq none (some entry) = refl
left_in-eq (some []) (some entry) = refl
left_in-eq (some (t ∷ ts)) (some entry) =
    ap (keep_rest entry) (without_types-eq (t ∷ ts) entry.associations)

store_rest-reads :
    (id j : Text) (entry : AssociationCacheEntry) (l : List Association) (st : MockAssociationStore)
    → lookup text_dec j (store_rest id entry l st).associations
      ≡ ite (text_dec id j) (keep_rest entry l) (lookup text_dec j st.associations)
unfolding store_rest
store_rest-reads id j entry [] st = lookup-erase text_dec j id st.associations
store_rest-reads id j entry (a ∷ l) st =
    lookup-insert text_dec j id (record entry { associations = a ∷ l }) st.associations

delete_from-reads :
    (id j : Text) (types : Option (List Text)) (st : MockAssociationStore)
    (found : Option AssociationCacheEntry)
    → lookup text_dec id st.associations ≡ found
    → lookup text_dec j (delete_from id types st found).associations
      ≡ ite (text_dec id j) (left_in types found) (lookup text_dec j st.associations)
unfolding delete_from
delete_from-reads id j types st none h = ground arith
delete_from-reads id j none st (some entry) h = lookup-erase text_dec j id st.associations
delete_from-reads id j (some []) st (some entry) h = lookup-erase text_dec j id st.associations
delete_from-reads id j (some (t ∷ ts)) st (some entry) h =
    store_rest-reads id j entry (without_types (t ∷ ts) entry.associations) st

pub delete_associations-reads :
    (id : Text) (resource_type : Option Text) (types : Option (List Text)) (cascade : Bool)
    (st : MockAssociationStore) (j : Text)
    → lookup text_dec j (delete_associations id resource_type types cascade st).associations
      ≡ ite
          (text_dec id j)
          (left_in types (lookup text_dec id st.associations))
          (lookup text_dec j st.associations)
unfolding delete_associations
delete_associations-reads id resource_type types cascade st j =
    delete_from-reads id j types st (lookup text_dec id st.associations) refl

-- After a deletion the entry of the identifier has exactly its associations of other types left, in
-- their order (an association without a type counts as of the empty one); there is no entry if none is left, or if no types are given, or an empty list of
-- them. Every other entry is as before, whatever the resource type and the cascade.
pub delete_associations-removes :
    (id : Text) (resource_type : Option Text) (types : Option (List Text)) (cascade : Bool)
    (st : MockAssociationStore) (j : Text)
    → lookup text_dec j (delete_associations id resource_type types cascade st).associations
      ≡ ite
          (text_dec id j)
          (left_of types (lookup text_dec id st.associations))
          (lookup text_dec j st.associations)
delete_associations-removes id resource_type types cascade st j =
    subst
      (λ left.
        lookup text_dec j (delete_associations id resource_type types cascade st).associations
        ≡ ite (text_dec id j) left (lookup text_dec j st.associations))
      (left_in-eq types (lookup text_dec id st.associations))
      (delete_associations-reads id resource_type types cascade st j)
