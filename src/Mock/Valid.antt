-- ===== src/Mock/Valid.antt =====
-- What always holds of the mock registry's store (src/rest/MockSchemaRegistryClient.cpp), and that
-- every call keeps it.
use libschemaregistry.Mock.{register_schema, unless_existing, register_new, next_version}
use libschemaregistry.Mock.Store.{
  MockSchemaStore, empty, next_int, generation, text_or_empty, schemas_of, insert_if,
  set_registered_schema, get_registered_by_schema, latest_version,
}
use libschemaregistry.Mock.Rows.{
  Ascending, Ascending-append, next_int-ok, next_version-above, Ascending-widen,
}
use libschemaregistry.Model.{RegisteredSchema, Schema, registered}
use libschemaregistry.Outcome.{ok, ok-pair, >>=-eq-ok}
use libschemaregistry.Prelude.Dict.{lookup, insert, lookup-insert}
use libschemaregistry.Prelude.{
  ℕ, suc, ◌<◌, ◌≤◌, List, [], ◌∷◌, ◌++◌, Option, none, some, Text, text_dec, ℕ_discrete, ite, ◌≡◌,
  refl, ap, ◌∙◌, arith,
}

pub record IsValid (st : MockSchemaStore) : Type 0 where
  -- The versions of each subject increase from at least 1, and are below the next id.
  pub ascends : (subject : Text) → Ascending 0 st.next_schema_id (schemas_of subject st)
  -- The ids from the next on are free.
  pub fresh : (id : ℕ) → st.next_schema_id ≤ id → lookup ℕ_discrete id st.schema_id_index ≡ none
  pub positive : 0 < st.next_schema_id

pub schemas_of-insert :
    (j subject : Text) (l : List RegisteredSchema) (st : MockSchemaStore)
    → schemas_of j (record st { schemas = insert text_dec subject l st.schemas })
      ≡ ite (text_dec subject j) l (schemas_of j st)
unfolding schemas_of
schemas_of-insert j subject l st = ground (arith, lookup-insert text_dec j subject l st.schemas)

pub schemas_of-set_registered_schema :
    (j : Text) (rs : RegisteredSchema) (st : MockSchemaStore)
    → schemas_of j (set_registered_schema rs st)
      ≡ ite
          (text_dec (text_or_empty rs.subject) j)
          (schemas_of (text_or_empty rs.subject) st ++ (rs ∷ []))
          (schemas_of j st)
unfolding set_registered_schema schemas_of
schemas_of-set_registered_schema j rs st = ground (
  arith,
  lookup-insert text_dec j (text_or_empty rs.subject)
      (schemas_of (text_or_empty rs.subject) st ++ (rs ∷ [])) st.schemas,
)

-- The registered schema that `registerSchema` makes, and the store that it leaves.
abbrev pub made : Text → Text → Schema → ℕ → ℕ → RegisteredSchema
made guid subject schema id v = registered (some id) (some guid) (some subject) (some v) schema

-- A registration that returns past the check: the ids go up by one, and the schema is at the end
-- of its subject's.
pub register_new-ok :
    (guid subject : Text) (schema : Schema) (rs : RegisteredSchema) (st st' : MockSchemaStore)
    → register_new guid subject schema st ≡ ok (rs, st')
    → (v : ℕ) × (next_version (latest_version subject st) ≡ ok v)
      × (rs ≡ made guid subject schema st.next_schema_id v)
      × (st.next_schema_id < 2147483647)
      × (st' ≡ set_registered_schema rs (record st { next_schema_id = suc st.next_schema_id }))
unfolding register_new
register_new-ok guid subject schema rs st st' h =
    let (v, eq, h1) = >>=-eq-ok (next_version (latest_version subject st)) _ h in
    let (id, eq', h2) = >>=-eq-ok (next_int st.next_schema_id) _ h1 in
    let (bump, below) = next_int-ok st.next_schema_id id eq' in
    let (is, after) = ok-pair h2 in
    let step = ap (λ n. record st { next_schema_id = n }) bump in
    (v, eq, is, below, after ∙ cc (is, step))

entered-IsValid :
    (guid subject : Text) (schema : Schema) (v : ℕ) (st : MockSchemaStore)
    → IsValid st
    → 0 < v
    → v ≤ st.next_schema_id
    → Ascending 0 v (schemas_of subject st)
    → IsValid (
        set_registered_schema
          (made guid subject schema st.next_schema_id v)
          (record st { next_schema_id = suc st.next_schema_id }))
unfolding set_registered_schema insert_if registered generation schemas_of
entered-IsValid guid subject schema v st valid above le asc =
    let rs = made guid subject schema st.next_schema_id v in
    let st1 = record st { next_schema_id = suc st.next_schema_id } in
    record {
      ascends = λ j.
          rw (schemas_of-set_registered_schema j rs st1)
            (elim (text_dec subject j)
              as (λ d.
                Ascending 0 (suc st.next_schema_id)
                  (ite d (schemas_of subject st1 ++ (rs ∷ [])) (schemas_of j st1))) [
                    | yes p ↦
                        Ascending-append 0 v (suc st.next_schema_id) (schemas_of subject st) rs asc
                          above (omega arith) (omega arith)
                    | no p ↦
                        Ascending-widen 0 0 st.next_schema_id (suc st.next_schema_id)
                          (schemas_of j st) (omega arith) (omega arith) (valid.ascends j)
                  ]);
      fresh = λ id above'. ground (
        arith,
        lookup-insert ℕ_discrete id st.next_schema_id rs st.schema_id_index,
        valid.fresh id (omega arith),
      );
      positive = omega arith;
    }

register_new-IsValid :
    (guid subject : Text) (schema : Schema) (rs : RegisteredSchema) (st st' : MockSchemaStore)
    → IsValid st
    → register_new guid subject schema st ≡ ok (rs, st')
    → IsValid st'
unfolding latest_version
register_new-IsValid guid subject schema rs st st' valid h =
    let (v, eq, is, below, after) = register_new-ok guid subject schema rs st st' h in
    let (above, le, asc) =
      next_version-above st.next_schema_id v (schemas_of subject st) valid.positive
        (valid.ascends subject) eq in
    rw (after, is) (entered-IsValid guid subject schema v st valid above le asc)

unless_existing-IsValid :
    (guid subject : Text) (schema : Schema) (rs : RegisteredSchema) (st st' : MockSchemaStore)
    (existing : Option RegisteredSchema)
    → IsValid st
    → unless_existing guid subject schema st existing ≡ ok (rs, st')
    → IsValid st'
unfolding unless_existing
unless_existing-IsValid guid subject schema rs st st' none valid h =
    register_new-IsValid guid subject schema rs st st' valid h
unless_existing-IsValid guid subject schema rs st st' (some old) valid h = rw ((ok-pair h).1) valid

-- On a well-formed store a registration that returns leaves a well-formed store, whether it
-- registers the schema or finds it: the versions of every subject increase from at least 1, and
-- the ids from the next one on are free.
pub register_schema-IsValid :
    (guid subject : Text) (schema : Schema) (rs : RegisteredSchema) (st st' : MockSchemaStore)
    → IsValid st
    → register_schema guid subject schema st ≡ ok (rs, st')
    → IsValid st'
unfolding register_schema
register_schema-IsValid guid subject schema rs st st' valid h =
    unless_existing-IsValid guid subject schema rs st st'
      (get_registered_by_schema subject schema st) valid h

pub empty-IsValid : IsValid empty
unfolding empty schemas_of lookup
empty-IsValid = record { ascends = λ subject. tt; fresh = λ id above. refl; positive = omega arith }
