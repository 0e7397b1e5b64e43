-- ===== src/Mock/Deletion.antt =====
-- What the mock registry's deletions mean for the calls after them
-- (src/rest/MockSchemaRegistryClient.cpp).
use libschemaregistry.Mock.Removal.{
  schemas_of-remove_by_schema, remove_by_schema-frame, delete_subject_version-ok, unindex-frame,
}
use libschemaregistry.Mock.Search.{find_version-remove_text}
use libschemaregistry.Mock.Valid.{IsValid}
use libschemaregistry.Mock.{
  delete_subject, delete_subject_version, or_not_found, get_by_schema, get_version,
  get_by_subject_and_id, get_by_guid,
}
use libschemaregistry.Mock.Store.{
  MockSchemaStore, generation, or_no_schemas, schemas_of, find_version, find_text, get_schema_by_id,
  get_schema_by_guid, get_registered_by_schema, get_registered_by_version, remove_by_subject,
  remove_row, get_versions,
}
use libschemaregistry.Model.{RegisteredSchema, Schema}
use libschemaregistry.Outcome.{ok}
use libschemaregistry.Prelude.Dict.{lookup, lookup-erase}
use libschemaregistry.Prelude.{
  ℕ, List, [], map, Option, none, some, Text, text_dec, ite, ◌≡◌, ◌≢◌, refl, ◌∙◌, arith,
}

remove_row-reads :
    (subject : Text) (st : MockSchemaStore) (row : Option (List RegisteredSchema)) (j : Text)
    → lookup text_dec subject st.schemas ≡ row
    → (schemas_of j (remove_row subject st row).1 ≡ ite (text_dec subject j) [] (schemas_of j st))
      × ((remove_row subject st row).1.schema_guid_index ≡ st.schema_guid_index)
      × ((remove_row subject st row).0 ≡ map generation (or_no_schemas row))
unfolding remove_row schemas_of
remove_row-reads subject st none j e = (ground (arith, e), refl, refl)
remove_row-reads subject st (some l) j e =
    let (rows, guids, next) = unindex-frame l st in
    (ground (arith, e, rows, lookup-erase text_dec j subject st.schemas), guids, refl)

-- `deleteSubject` returns the versions that the subject had, and after it no version of the subject
-- is found, nor any schema in it; the versions of another subject are as before, and so is every
-- reading by GUID, the GUIDs of the deleted schemas among them.
pub delete_subject-reads :
    (subject j g : Text) (v : ℕ) (schema : Schema) (st : MockSchemaStore)
    → ((delete_subject subject st).0 ≡ get_versions subject st)
      × (get_version j v (delete_subject subject st).1
          ≡ ite (text_dec subject j) (or_not_found none) (get_version j v st))
      × (get_by_schema j schema (delete_subject subject st).1
          ≡ ite (text_dec subject j) (or_not_found none) (get_by_schema j schema st))
      × (get_by_guid g (delete_subject subject st).1 ≡ get_by_guid g st)
unfolding delete_subject remove_by_subject get_version get_by_schema get_registered_by_version
    get_registered_by_schema find_version find_text get_by_guid get_schema_by_guid get_versions
    schemas_of
delete_subject-reads subject j g v schema st =
    let (row, guids, versions) =
      remove_row-reads subject st (lookup text_dec subject st.schemas) j refl in
    (versions, ground (arith, row), ground (arith, row), rw guids refl)

-- On a well-formed store `deleteSubjectVersion`, where it returns, returns the version asked for;
-- after it that version of the subject is not found, and any other subject's versions are as
-- before. The indexes by id and by GUID are left alone: every reading by id or by GUID is as
-- before.
pub delete_subject_version-reads :
    (subject j g : Text) (version n v i : ℕ) (st st' : MockSchemaStore)
    → IsValid st
    → subject ≢ j
    → delete_subject_version subject version st ≡ ok (n, st')
    → (n ≡ version)
      × (get_version subject version st' ≡ or_not_found none)
      × (get_version j v st' ≡ get_version j v st)
      × (get_by_subject_and_id (some subject) i st' ≡ get_by_subject_and_id (some subject) i st)
      × (get_by_guid g st' ≡ get_by_guid g st)
unfolding get_version get_registered_by_version get_by_subject_and_id get_schema_by_id get_by_guid
    get_schema_by_guid
delete_subject_version-reads subject j g version n v i st st' valid other h =
    let (rs, found, is, after) = delete_subject_version-ok subject version n st st' h in
    let l = schemas_of subject st in
    let (gen, gone) =
      find_version-remove_text 0 st.next_schema_id version l rs (valid.ascends subject) found in
    let (ids, guids, next) = remove_by_schema-frame subject rs st in
    let here = schemas_of-remove_by_schema subject subject rs st in
    let there = schemas_of-remove_by_schema j subject rs st in
    rw after (
      (
        is ∙ gen,
        ground (arith, here, gone),
        ground (arith, there),
        ground (arith, ids),
        ground (arith, guids),
      ))
