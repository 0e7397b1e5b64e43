-- ===== src/SchemaStore/Keyed.antt =====
-- The invariant of the indexes of registered schemas in `SchemaStore` (src/rest/SchemaStore.cpp).
use libschemaregistry.Model.{Schema, RegisteredSchema, to_schema}
use libschemaregistry.Prelude.Dict.{lookup, lookup₂, row}
use libschemaregistry.Prelude.{ℕ, Option, some, Text, ◌≡◌, arith}
use libschemaregistry.SchemaStore.Laws.{set_schema-frame, set_registered_schema-reads}
use libschemaregistry.SchemaStore.{
  SchemaStore, empty, clear, or_empty, set_schema, set_registered_schema, get_registered_by_schema,
  get_registered_by_version, get_registered_by_id,
}

module _ (hash : Schema → Text) where
  -- Every registered schema stands under its own subject, and there under its own version, its own
  -- identifier and its own text.
  pub record IsKeyed (st : SchemaStore) : Type 0 where
    pub by_version :
        (subject : Text) (version : ℕ) (rs : RegisteredSchema)
        → get_registered_by_version subject version st ≡ some rs
        → (or_empty rs.subject ≡ subject) × (rs.version ≡ some version)
    pub by_id :
        (subject : Text) (id : ℕ) (rs : RegisteredSchema)
        → get_registered_by_id subject id st ≡ some rs
        → (or_empty rs.subject ≡ subject) × (rs.id ≡ some id)
    pub by_schema :
        (subject : Text) (schema : Schema) (rs : RegisteredSchema)
        → get_registered_by_schema hash subject schema st ≡ some rs
        → (or_empty rs.subject ≡ subject) × (hash (to_schema rs) ≡ hash schema)

  pub set_schema-IsKeyed :
      (subject : Option Text) (id : Option ℕ) (guid : Option Text) (s : Schema) (st : SchemaStore)
      → IsKeyed st
      → IsKeyed (set_schema hash subject id guid s st)
  unfolding get_registered_by_version get_registered_by_id get_registered_by_schema
  set_schema-IsKeyed subject id guid s st keyed =
      let (ids, versions, schemas) = set_schema-frame hash subject id guid s st in
      record {
        by_version = λ j v rs h. keyed.by_version j v rs (ground (arith, versions));
        by_id = λ j i rs h. keyed.by_id j i rs (ground (arith, ids));
        by_schema = λ j t rs h. keyed.by_schema j t rs (ground (arith, schemas));
      }

  -- A registered schema that is entered under a schema of its own text keeps the indexes keyed.
  pub set_registered_schema-IsKeyed :
      (s : Schema) (rs : RegisteredSchema) (st : SchemaStore)
      → hash (to_schema rs) ≡ hash s
      → IsKeyed st
      → IsKeyed (set_registered_schema hash s rs st)
  set_registered_schema-IsKeyed s rs st own keyed = record {
    by_version = λ j v r h.
        ground (arith, (set_registered_schema-reads hash s rs st j v s).0, keyed.by_version j v r);
    by_id = λ j i r h.
        ground (arith, (set_registered_schema-reads hash s rs st j i s).1, keyed.by_id j i r);
    by_schema = λ j t r h.
        ground (arith, (set_registered_schema-reads hash s rs st j 0 t).2, keyed.by_schema j t r);
  }

  pub empty-IsKeyed : IsKeyed empty
  unfolding empty get_registered_by_version get_registered_by_id get_registered_by_schema lookup
      lookup₂ row
  empty-IsKeyed = record {
    by_version = λ j v rs h. absurd (cc h);
    by_id = λ j i rs h. absurd (cc h);
    by_schema = λ j t rs h. absurd (cc h);
  }

  pub clear-IsKeyed : (st : SchemaStore) → IsKeyed (clear st)
  unfolding clear get_registered_by_version get_registered_by_id get_registered_by_schema lookup
      lookup₂ row
  clear-IsKeyed st = record {
    by_version = λ j v rs h. absurd (cc h);
    by_id = λ j i rs h. absurd (cc h);
    by_schema = λ j t rs h. absurd (cc h);
  }
