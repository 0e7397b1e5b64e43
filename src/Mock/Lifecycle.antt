-- ===== src/Mock/Lifecycle.antt =====
-- The mock registry's calls in sequence (src/rest/MockSchemaRegistryClient.cpp): what a
-- registration and a deletion mean for the calls after them.
use libschemaregistry.Mock.Search.{
  find_text-append, find_text-version, find_version-append, latest_of-append,
}
use libschemaregistry.Mock.Valid.{IsValid, made, register_new-ok, schemas_of-set_registered_schema}
use libschemaregistry.Mock.{
  register_schema, unless_existing, register_new, next_version, or_not_found, get_by_schema,
  get_version, get_latest_version, get_by_subject_and_id, get_by_guid,
}
use libschemaregistry.Mock.Store.{
  MockSchemaStore, next_int, generation, text_or_empty, schemas_of, insert_if,
  set_registered_schema, get_schema_by_id, get_schema_by_guid, to_schema?, get_registered_by_schema,
  get_registered_by_version, max_element, latest_of, latest_version,
}
use libschemaregistry.Mock.Rows.{Ascending, latest-bounds, next_version-above}
use libschemaregistry.Model.{RegisteredSchema, Schema, registered, to_schema}
use libschemaregistry.Outcome.{ok, ok-pair}
use libschemaregistry.Prelude.Dict.{lookup-insert_self}
use libschemaregistry.Prelude.{
  ℕ, suc, ◌<◌, ◌≤◌, List, [], ◌∷◌, ◌++◌, Option, none, some, Text, text_dec, ℕ_discrete, ◌≡◌, refl,
  ap, ◌∙◌, subst, arith,
}

entered-row :
    (guid subject : Text) (schema : Schema) (id v : ℕ) (st : MockSchemaStore)
    → schemas_of subject (set_registered_schema (made guid subject schema id v) st)
      ≡ schemas_of subject st ++ (made guid subject schema id v ∷ [])
unfolding registered
entered-row guid subject schema id v st =
    schemas_of-set_registered_schema subject (made guid subject schema id v) st ∙ ground arith

-- The row of the subject after a registration past the check, and what its versions were before.
register_new-row :
    (guid subject : Text) (schema : Schema) (rs : RegisteredSchema) (st st' : MockSchemaStore)
    → IsValid st
    → register_new guid subject schema st ≡ ok (rs, st')
    → (schemas_of subject st' ≡ schemas_of subject st ++ (rs ∷ []))
      × Ascending 0 (generation rs) (schemas_of subject st)
      × (rs.schema ≡ schema.schema)
unfolding schemas_of registered generation latest_version
register_new-row guid subject schema rs st st' valid h =
    let (v, eq, is, below, after) = register_new-ok guid subject schema rs st st' h in
    let st1 = record st { next_schema_id = suc st.next_schema_id } in
    let (above, le, asc) =
      next_version-above st.next_schema_id v (schemas_of subject st) valid.positive
        (valid.ascends subject) eq in
    rw (after, is) ((entered-row guid subject schema st.next_schema_id v st1, asc, refl))

unless_existing-registers :
    (guid subject : Text) (schema : Schema) (rs : RegisteredSchema) (st st' : MockSchemaStore)
    (existing : Option RegisteredSchema)
    → IsValid st
    → get_registered_by_schema subject schema st ≡ existing
    → unless_existing guid subject schema st existing ≡ ok (rs, st')
    → (get_registered_by_schema subject schema st' ≡ some rs)
      × (get_registered_by_version subject (generation rs) st' ≡ some rs)
unfolding unless_existing get_registered_by_schema get_registered_by_version
unless_existing-registers guid subject schema rs st st' none valid e h =
    let (row, asc, text) = register_new-row guid subject schema rs st st' valid h in
    let t = text_or_empty schema.schema in
    rw row (
      (
        find_text-append t (schemas_of subject st) rs e (ap text_or_empty text),
        find_version-append 0 (generation rs) (schemas_of subject st) rs asc refl,
      ))
unless_existing-registers guid subject schema rs st st' (some old) valid e h =
    let (is, same) = ok-pair h in
    let t = text_or_empty schema.schema in
    let (above, found) =
      find_text-version 0 st.next_schema_id t (schemas_of subject st) old (valid.ascends subject)
        e in
    rw (same, is) ((e, found))

-- On a well-formed store, after a registration that returns, the schema is found in its subject by
-- its text and by its version, and registering it again, with whatever GUID, returns the same
-- registered schema and changes nothing.
pub register_schema-registers :
    (guid guid' subject : Text) (schema : Schema) (rs : RegisteredSchema) (st st' : MockSchemaStore)
    → IsValid st
    → register_schema guid subject schema st ≡ ok (rs, st')
    → (get_by_schema subject schema st' ≡ ok rs)
      × (get_version subject (generation rs) st' ≡ ok rs)
      × (register_schema guid' subject schema st' ≡ ok (rs, st'))
unfolding register_schema get_by_schema get_version unless_existing
register_schema-registers guid guid' subject schema rs st st' valid h =
    let (by_text, by_version) =
      unless_existing-registers guid subject schema rs st st'
        (get_registered_by_schema subject schema st) valid refl h in
    (rw by_text refl, rw by_version refl, rw by_text refl)

next_int-total : (n : ℕ) → n < 2147483647 → next_int n ≡ ok (suc n)
unfolding next_int
next_int-total n h = ground arith

next_version-total :
    (n : ℕ) (l : List RegisteredSchema)
    → Ascending 0 n l
    → n ≤ 2147483647
    → (v : ℕ) × (next_version (latest_of l) ≡ ok v)
unfolding next_version latest_of
next_version-total n [] h le = (1, refl)
next_version-total n (r ∷ l) h le =
    let (above, below, bound) = latest-bounds n (r ∷ l) (max_element r l) h refl in
    (
      suc (generation (max_element r l)),
      next_int-total (generation (max_element r l)) (omega arith),
    )

unless_existing-total :
    (guid subject : Text) (schema : Schema) (st : MockSchemaStore)
    (existing : Option RegisteredSchema)
    → IsValid st
    → st.next_schema_id < 2147483647
    → (rs : RegisteredSchema) × (st' : MockSchemaStore) × (unless_existing guid subject schema st
          existing
        ≡ ok (rs, st'))
unfolding unless_existing register_new latest_version
unless_existing-total guid subject schema st (some rs) valid h = (rs, st, refl)
unless_existing-total guid subject schema st none valid h =
    let (v, eq) =
      next_version-total st.next_schema_id (schemas_of subject st) (valid.ascends subject)
        (omega arith) in
    let rs = made guid subject schema st.next_schema_id v in
    let st' = set_registered_schema rs (record st { next_schema_id = suc st.next_schema_id }) in
    (rs, st', rw (eq, next_int-total st.next_schema_id h) refl)

-- In a well-formed store that has handed out fewer than 2 ^ 31 - 2 ids, `registerSchema` returns.
pub register_schema-total :
    (guid subject : Text) (schema : Schema) (st : MockSchemaStore)
    → IsValid st
    → st.next_schema_id < 2147483647
    → (rs : RegisteredSchema) × (st' : MockSchemaStore) × (register_schema guid subject schema st
        ≡ ok (rs, st'))
unfolding register_schema
register_schema-total guid subject schema st valid h =
    unless_existing-total guid subject schema st (get_registered_by_schema subject schema st) valid
      h

entered-indexes :
    (guid subject : Text) (schema : Schema) (id v : ℕ) (st : MockSchemaStore)
    → let rs = made guid subject schema id v in
      (get_schema_by_id id (set_registered_schema rs st) ≡ some (to_schema rs))
      × (get_schema_by_guid guid (set_registered_schema rs st) ≡ some (to_schema rs))
unfolding set_registered_schema insert_if get_schema_by_id get_schema_by_guid registered
entered-indexes guid subject schema id v st =
    let rs = made guid subject schema id v in
    (
      ap to_schema? (lookup-insert_self ℕ_discrete id rs st.schema_id_index),
      ap to_schema? (lookup-insert_self text_dec guid rs st.schema_guid_index),
    )

-- On a well-formed store a schema that its subject does not have, once registered, is the latest
-- version of the subject, has the next id, by which no schema was found before, and is found by
-- that id and by its GUID.
pub register_schema-latest :
    (guid subject : Text) (schema : Schema) (rs : RegisteredSchema) (st st' : MockSchemaStore)
    → IsValid st
    → get_registered_by_schema subject schema st ≡ none
    → register_schema guid subject schema st ≡ ok (rs, st')
    → (get_latest_version subject st' ≡ ok rs)
      × (rs.id ≡ some st.next_schema_id)
      × (get_schema_by_id st.next_schema_id st ≡ none)
      × (get_by_subject_and_id (some subject) st.next_schema_id st' ≡ ok (to_schema rs))
      × (get_by_guid guid st' ≡ ok (to_schema rs))
unfolding register_schema get_latest_version latest_version get_schema_by_id unless_existing
    registered get_by_subject_and_id get_by_guid
register_schema-latest guid subject schema rs st st' valid new h =
    let h' = subst (λ o. unless_existing guid subject schema st o ≡ ok (rs, st')) new h in
    let (v, eq, is, below, after) = register_new-ok guid subject schema rs st st' h' in
    let (row, asc, text) = register_new-row guid subject schema rs st st' valid h' in
    let st1 = record st { next_schema_id = suc st.next_schema_id } in
    let (by_id, by_guid) = entered-indexes guid subject schema st.next_schema_id v st1 in
    (
      rw row (
          ap or_not_found (latest_of-append 0 (generation rs) (schemas_of subject st) rs asc refl)),
      ap (λ r. r.id) is,
      ap to_schema? (valid.fresh st.next_schema_id (omega arith)),
      rw (after, is) (ap or_not_found by_id),
      rw (after, is) (ap or_not_found by_guid),
    )
