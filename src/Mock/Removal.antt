-- ===== src/Mock/Removal.antt =====
-- What the deletions of the mock registry (src/rest/MockSchemaRegistryClient.cpp) leave.
use libschemaregistry.Mock.{delete_subject, delete_subject_version, or_not_found}
use libschemaregistry.Mock.Store.{
  MockSchemaStore, generation, or_no_schemas, schemas_of, get_registered_by_version, remove_text,
  remove_from, remove_by_schema, erase_if, unindex, remove_row, remove_by_subject,
}
use libschemaregistry.Mock.Rows.{Ascending, Ascending-remove_text}
use libschemaregistry.Model.{RegisteredSchema}
use libschemaregistry.Outcome.{ok, ok-pair, >>=-eq-ok}
use libschemaregistry.Prelude.Dict.{Dict, lookup, lookup-insert, lookup-erase}
use libschemaregistry.Prelude.{
  ℕ, List, [], ◌∷◌, Option, none, some, Text, text_dec, ℕ_discrete, ite, ◌≡◌, refl, sym, subst,
  arith,
}
use libschemaregistry.Mock.Valid.{IsValid}

schemas_of-remove_from :
    (j subject : Text) (rs : RegisteredSchema) (st : MockSchemaStore)
    (row : Option (List RegisteredSchema))
    → lookup text_dec subject st.schemas ≡ row
    → schemas_of j (remove_from subject rs st row)
      ≡ ite (text_dec subject j) (remove_text rs.schema (or_no_schemas row)) (schemas_of j st)
unfolding remove_from remove_text schemas_of
schemas_of-remove_from j subject rs st none e = ground (arith, e)
schemas_of-remove_from j subject rs st (some l) e =
    ground (arith, e, lookup-insert text_dec j subject (remove_text rs.schema l) st.schemas)

pub schemas_of-remove_by_schema :
    (j subject : Text) (rs : RegisteredSchema) (st : MockSchemaStore)
    → schemas_of j (remove_by_schema subject rs st)
      ≡ ite (text_dec subject j) (remove_text rs.schema (schemas_of subject st)) (schemas_of j st)
unfolding remove_by_schema schemas_of
schemas_of-remove_by_schema j subject rs st =
    schemas_of-remove_from j subject rs st (lookup text_dec subject st.schemas) refl

-- Removing a schema leaves the indexes and the next id as they are.
remove_from-frame :
    (subject : Text) (rs : RegisteredSchema) (st : MockSchemaStore)
    (row : Option (List RegisteredSchema))
    → ((remove_from subject rs st row).schema_id_index ≡ st.schema_id_index)
      × ((remove_from subject rs st row).schema_guid_index ≡ st.schema_guid_index)
      × ((remove_from subject rs st row).next_schema_id ≡ st.next_schema_id)
unfolding remove_from
remove_from-frame subject rs st none = (refl, refl, refl)
remove_from-frame subject rs st (some l) = (refl, refl, refl)

pub remove_by_schema-frame :
    (subject : Text) (rs : RegisteredSchema) (st : MockSchemaStore)
    → ((remove_by_schema subject rs st).schema_id_index ≡ st.schema_id_index)
      × ((remove_by_schema subject rs st).schema_guid_index ≡ st.schema_guid_index)
      × ((remove_by_schema subject rs st).next_schema_id ≡ st.next_schema_id)
unfolding remove_by_schema
remove_by_schema-frame subject rs st =
    remove_from-frame subject rs st (lookup text_dec subject st.schemas)

remove_by_schema-IsValid :
    (subject : Text) (rs : RegisteredSchema) (st : MockSchemaStore)
    → IsValid st
    → IsValid (remove_by_schema subject rs st)
remove_by_schema-IsValid subject rs st valid =
    let (ids, guids, next) = remove_by_schema-frame subject rs st in
    record {
      ascends = λ j.
          subst (λ n. Ascending 0 n (schemas_of j (remove_by_schema subject rs st))) (sym next)
            (rw (schemas_of-remove_by_schema j subject rs st)
              (elim (text_dec subject j)
                as (λ d.
                  Ascending 0 st.next_schema_id
                    (ite d (remove_text rs.schema (schemas_of subject st)) (schemas_of j st))) [
                      | yes p ↦
                          Ascending-remove_text 0 st.next_schema_id rs.schema
                            (schemas_of subject st) (valid.ascends subject)
                      | no p ↦ valid.ascends j
                    ]));
      fresh = λ id above. rw ids (valid.fresh id (rw (← next) above));
      positive = rw next valid.positive;
    }

-- A deletion of a version that returns found the version and removed its schema from the subject.
pub delete_subject_version-ok :
    (subject : Text) (version n : ℕ) (st st' : MockSchemaStore)
    → delete_subject_version subject version st ≡ ok (n, st')
    → (rs : RegisteredSchema) × (get_registered_by_version subject version st ≡ some rs)
      × (n ≡ generation rs)
      × (st' ≡ remove_by_schema subject rs st)
unfolding delete_subject_version
delete_subject_version-ok subject version n st st' h =
    let (rs, found, rest) =
      >>=-eq-ok (or_not_found (get_registered_by_version subject version st)) _ h in
    let (is, after) = ok-pair rest in
    (rs, or_not_found-ok (get_registered_by_version subject version st) rs found, is, after)
  where
    or_not_found-ok :
        (o : Option RegisteredSchema) (rs : RegisteredSchema) → or_not_found o ≡ ok rs → o ≡ some rs
    or_not_found-ok none rs p = absurd (cc p)
    or_not_found-ok (some r) rs p = cc p

-- On a well-formed store a `deleteSubjectVersion` that returns leaves a well-formed store.
pub delete_subject_version-IsValid :
    (subject : Text) (version n : ℕ) (st st' : MockSchemaStore)
    → IsValid st
    → delete_subject_version subject version st ≡ ok (n, st')
    → IsValid st'
delete_subject_version-IsValid subject version n st st' valid h =
    let (rs, found, is, after) = delete_subject_version-ok subject version n st st' h in
    rw after (remove_by_schema-IsValid subject rs st valid)

-- `unindex` leaves the rows, the index by GUID and the next id, and frees ids only.
pub unindex-frame :
    (l : List RegisteredSchema) (st : MockSchemaStore)
    → ((unindex l st).schemas ≡ st.schemas)
      × ((unindex l st).schema_guid_index ≡ st.schema_guid_index)
      × ((unindex l st).next_schema_id ≡ st.next_schema_id)
unfolding unindex
unindex-frame [] st = (refl, refl, refl)
unindex-frame (rs ∷ l) st = unindex-frame l _

erase_if-none :
    (id : ℕ) (k : Option ℕ) (m : Dict ℕ RegisteredSchema)
    → lookup ℕ_discrete id m ≡ none
    → lookup ℕ_discrete id (erase_if ℕ_discrete k m) ≡ none
unfolding erase_if
erase_if-none id none m h = h
erase_if-none id (some k) m h = ground (arith, h, lookup-erase ℕ_discrete id k m)

unindex-none :
    (l : List RegisteredSchema) (id : ℕ) (st : MockSchemaStore)
    → lookup ℕ_discrete id st.schema_id_index ≡ none
    → lookup ℕ_discrete id (unindex l st).schema_id_index ≡ none
unfolding unindex
unindex-none [] id st h = h
unindex-none (rs ∷ l) id st h = unindex-none l id _ (erase_if-none id rs.id st.schema_id_index h)

remove_row-IsValid :
    (subject : Text) (st : MockSchemaStore) (row : Option (List RegisteredSchema))
    → IsValid st
    → IsValid (remove_row subject st row).1
unfolding remove_row schemas_of
remove_row-IsValid subject st none valid = valid
remove_row-IsValid subject st (some l) valid =
    let (rows, guids, next) = unindex-frame l st in
    record {
      ascends = λ j.
          rw (next, rows, lookup-erase text_dec j subject st.schemas)
            (elim (text_dec subject j)
              as (λ d.
                Ascending 0 st.next_schema_id
                  (or_no_schemas (ite d none (lookup text_dec j st.schemas)))) [
                    | yes p ↦ tt
                    | no p ↦ valid.ascends j
                  ]);
      fresh = λ id above. unindex-none l id st (valid.fresh id (rw (← next) above));
      positive = rw next valid.positive;
    }

-- On a well-formed store `deleteSubject` leaves a well-formed store.
pub delete_subject-IsValid :
    (subject : Text) (st : MockSchemaStore) → IsValid st → IsValid (delete_subject subject st).1
unfolding delete_subject remove_by_subject
delete_subject-IsValid subject st valid =
    remove_row-IsValid subject st (lookup text_dec subject st.schemas) valid
