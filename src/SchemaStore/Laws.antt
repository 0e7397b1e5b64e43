-- ===== src/SchemaStore/Laws.antt =====
-- What every reader of `SchemaStore` (src/rest/SchemaStore.cpp) returns after each writer.
use libschemaregistry.Model.{Schema, RegisteredSchema}
use libschemaregistry.Prelude.Dict.{lookup, row, lookup₂, lookup-insert, lookup₂-insert₂}
use libschemaregistry.Prelude.{
  ℕ, [], ◌∷◌, Option, none, some, Text, text_dec, ℕ_discrete, ite, ◌≡◌, ◌∙◌, ap, refl, arith,
}
use libschemaregistry.SchemaStore.{
  SchemaStore, clear, or_empty, unless_empty, set_id, set_guid, set_schema, index_by_id,
  index_by_version, index_by_schema, set_registered_schema, get_id_by_schema,
  get_registered_by_schema, get_schema_by_id, get_schema_by_guid, get_registered_by_version,
  get_registered_by_id,
}

-- `new` under an optional key, over what was there.
abbrev pub over : {K V : Type 0} → Discrete K → Option K → K → V → Option V → Option V
over dec none j new old = old
over dec (some k) j new old = ite (dec k j) (some new) old

-- `new` in a cell of a map of maps, under an optional inner key, over what was there.
abbrev pub over₂ :
    {K V : Type 0} → Discrete K → Text → Option K → Text → K → V → Option V → Option V
over₂ dec k l j i new old = ite (text_dec k j) (over dec l i new old) old

-- The key under which an optional identifier is entered.
abbrev pub key_if : Option ℕ → Text → Option Text
key_if none k = none
key_if (some _) k = some k

abbrev pub or_zero : Option ℕ → ℕ
or_zero none = 0
or_zero (some n) = n

module _ (hash : Schema → Text) where
  abbrev pub stored : Option Text → Option ℕ → Option Text → Schema → SchemaStore → SchemaStore
  stored = set_schema hash

  stored_by_id :
      (subject : Option Text) (id : Option ℕ) (guid : Option Text) (s : Schema) (st : SchemaStore)
      (j : Text) (i : ℕ)
      → get_schema_by_id j i (stored subject id guid s st)
        ≡ over₂ ℕ_discrete (or_empty subject) id j i (guid, s) (get_schema_by_id j i st)
  unfolding set_schema set_id set_guid get_schema_by_id
  stored_by_id subject none none s st j i = ground arith
  stored_by_id subject none (some g) s st j i = ground arith
  stored_by_id subject (some id) none s st j i =
      lookup₂-insert₂ text_dec ℕ_discrete j (or_empty subject) i id _ _
  stored_by_id subject (some id) (some g) s st j i =
      lookup₂-insert₂ text_dec ℕ_discrete j (or_empty subject) i id _ _

  stored_by_guid :
      (subject : Option Text) (id : Option ℕ) (guid : Option Text) (s : Schema) (st : SchemaStore)
      (g : Text)
      → get_schema_by_guid g (stored subject id guid s st)
        ≡ over text_dec guid g s (get_schema_by_guid g st)
  unfolding set_schema set_id set_guid get_schema_by_guid
  stored_by_guid subject none none s st g = refl
  stored_by_guid subject (some id) none s st g = refl
  stored_by_guid subject none (some k) s st g = lookup-insert text_dec g k s _
  stored_by_guid subject (some id) (some k) s st g = lookup-insert text_dec g k s _

  stored_id :
      (subject : Option Text) (id : Option ℕ) (guid : Option Text) (s : Schema) (st : SchemaStore)
      (j : Text) (t : Schema)
      → get_id_by_schema hash j t (stored subject id guid s st)
        ≡ over₂ text_dec
            (or_empty subject)
            (key_if id (hash s))
            j
            (hash t)
            (or_zero id)
            (get_id_by_schema hash j t st)
  unfolding set_schema set_id set_guid get_id_by_schema
  stored_id subject none none s st j t = ground arith
  stored_id subject none (some g) s st j t = ground arith
  stored_id subject (some id) none s st j t =
      lookup₂-insert₂ text_dec text_dec j (or_empty subject) (hash t) (hash s) id _
  stored_id subject (some id) (some g) s st j t =
      lookup₂-insert₂ text_dec text_dec j (or_empty subject) (hash t) (hash s) id _

  -- After `setSchema` the identifier, if there is one, gives the GUID and the schema in its
  -- subject, and the schema's hash gives the identifier; the GUID, if there is one, gives the
  -- schema; every other reading by identifier, GUID or schema is as before.
  pub set_schema-reads :
      (subject : Option Text) (id : Option ℕ) (guid : Option Text) (s : Schema) (st : SchemaStore)
      (j g : Text) (i : ℕ) (t : Schema)
      → (get_schema_by_id j i (set_schema hash subject id guid s st)
          ≡ over₂ ℕ_discrete (or_empty subject) id j i (guid, s) (get_schema_by_id j i st))
        × (get_schema_by_guid g (set_schema hash subject id guid s st)
            ≡ over text_dec guid g s (get_schema_by_guid g st))
        × (get_id_by_schema hash j t (set_schema hash subject id guid s st)
            ≡ over₂ text_dec
                (or_empty subject)
                (key_if id (hash s))
                j
                (hash t)
                (or_zero id)
                (get_id_by_schema hash j t st))
  set_schema-reads subject id guid s st j g i t = (
    stored_by_id subject id guid s st j i,
    stored_by_guid subject id guid s st g,
    stored_id subject id guid s st j t,
  )

  or_empty-unless_empty : (t : Text) → or_empty (unless_empty hash t) ≡ t
  unfolding unless_empty
  or_empty-unless_empty [] = refl
  or_empty-unless_empty (c ∷ cs) = refl

  -- `setSchema` leaves the indexes of registered schemas alone.
  pub set_schema-frame :
      (subject : Option Text) (id : Option ℕ) (guid : Option Text) (s : Schema) (st : SchemaStore)
      → ((stored subject id guid s st).rs_id_index ≡ st.rs_id_index)
        × ((stored subject id guid s st).rs_version_index ≡ st.rs_version_index)
        × ((stored subject id guid s st).rs_schema_index ≡ st.rs_schema_index)
  unfolding set_schema set_id set_guid
  set_schema-frame subject none none s st = (refl, refl, refl)
  set_schema-frame subject none (some g) s st = (refl, refl, refl)
  set_schema-frame subject (some id) none s st = (refl, refl, refl)
  set_schema-frame subject (some id) (some g) s st = (refl, refl, refl)

  abbrev indexed :
      Text → Option ℕ → Option ℕ → Schema → RegisteredSchema → SchemaStore → SchemaStore
  indexed subject id version s rs st =
      index_by_schema hash subject s rs
        (index_by_version hash subject version rs (index_by_id hash subject id rs st))

  indexed-reads :
      (subject : Text) (id version : Option ℕ) (s : Schema) (rs : RegisteredSchema)
      (st : SchemaStore) (j : Text) (i : ℕ) (t : Schema)
      → (get_registered_by_version j i (indexed subject id version s rs st)
          ≡ over₂ ℕ_discrete subject version j i rs (get_registered_by_version j i st))
        × (get_registered_by_id j i (indexed subject id version s rs st)
            ≡ over₂ ℕ_discrete subject id j i rs (get_registered_by_id j i st))
        × (get_registered_by_schema hash j t (indexed subject id version s rs st)
            ≡ over₂ text_dec subject
                (some (hash s))
                j
                (hash t)
                rs
                (get_registered_by_schema hash j t st))
  unfolding index_by_id index_by_version index_by_schema get_registered_by_version
      get_registered_by_id get_registered_by_schema
  indexed-reads subject none none s rs st j i t = (
    ground arith,
    ground arith,
    lookup₂-insert₂ text_dec text_dec j subject (hash t) (hash s) rs _,
  )
  indexed-reads subject none (some v) s rs st j i t = (
    lookup₂-insert₂ text_dec ℕ_discrete j subject i v rs _,
    ground arith,
    lookup₂-insert₂ text_dec text_dec j subject (hash t) (hash s) rs _,
  )
  indexed-reads subject (some n) none s rs st j i t = (
    ground arith,
    lookup₂-insert₂ text_dec ℕ_discrete j subject i n rs _,
    lookup₂-insert₂ text_dec text_dec j subject (hash t) (hash s) rs _,
  )
  indexed-reads subject (some n) (some v) s rs st j i t = (
    lookup₂-insert₂ text_dec ℕ_discrete j subject i v rs _,
    lookup₂-insert₂ text_dec ℕ_discrete j subject i n rs _,
    lookup₂-insert₂ text_dec text_dec j subject (hash t) (hash s) rs _,
  )

  indexed-guid :
      (subject : Text) (id version : Option ℕ) (s : Schema) (rs : RegisteredSchema)
      (st : SchemaStore) (g : Text)
      → get_schema_by_guid g (indexed subject id version s rs st) ≡ get_schema_by_guid g st
  unfolding get_schema_by_guid index_by_id index_by_version index_by_schema
  indexed-guid subject none none s rs st g = refl
  indexed-guid subject none (some v) s rs st g = refl
  indexed-guid subject (some n) none s rs st g = refl
  indexed-guid subject (some n) (some v) s rs st g = refl

  -- After `setRegisteredSchema` the registered schema is found in its subject by its version, by
  -- its identifier and by the schema, each as far as it has one; every other such reading is as
  -- before.
  pub set_registered_schema-reads :
      (s : Schema) (rs : RegisteredSchema) (st : SchemaStore) (j : Text) (i : ℕ) (t : Schema)
      → (get_registered_by_version j i (set_registered_schema hash s rs st)
          ≡ over₂ ℕ_discrete
              (or_empty rs.subject)
              rs.version
              j
              i
              rs
              (get_registered_by_version j i st))
        × (get_registered_by_id j i (set_registered_schema hash s rs st)
            ≡ over₂ ℕ_discrete (or_empty rs.subject) rs.id j i rs (get_registered_by_id j i st))
        × (get_registered_by_schema hash j t (set_registered_schema hash s rs st)
            ≡ over₂ text_dec
                (or_empty rs.subject)
                (some (hash s))
                j
                (hash t)
                rs
                (get_registered_by_schema hash j t st))
  unfolding set_registered_schema get_registered_by_version get_registered_by_id
      get_registered_by_schema
  set_registered_schema-reads s rs st j i t =
      let subject = or_empty rs.subject in
      let (same_id, same_version, same_schema) =
        set_schema-frame (unless_empty hash subject) rs.id rs.schema s
          (indexed subject rs.id rs.version s rs st) in
      let (version, id, schema) = indexed-reads subject rs.id rs.version s rs st j i t in
      (rw same_version version, rw same_id id, rw same_schema schema)

  -- `setRegisteredSchema` enters the schema into the GUID index under the text of the registered
  -- schema, whatever GUID that has: a reading by any other GUID is as before.
  pub set_registered_schema-guid :
      (s : Schema) (rs : RegisteredSchema) (st : SchemaStore) (g : Text)
      → get_schema_by_guid g (set_registered_schema hash s rs st)
        ≡ over text_dec rs.schema g s (get_schema_by_guid g st)
  unfolding set_registered_schema
  set_registered_schema-guid s rs st g =
      let subject = or_empty rs.subject in
      stored_by_guid (unless_empty hash subject) rs.id rs.schema s
        (indexed subject rs.id rs.version s rs st) g
      ∙ ap (over text_dec rs.schema g s) (indexed-guid subject rs.id rs.version s rs st g)

  -- After `clear` no reader finds anything.
  pub clear-reads :
      (st : SchemaStore) (j g : Text) (i : ℕ) (t : Schema)
      → (get_schema_by_id j i (clear st) ≡ none)
        × (get_schema_by_guid g (clear st) ≡ none)
        × (get_id_by_schema hash j t (clear st) ≡ none)
        × (get_registered_by_version j i (clear st) ≡ none)
        × (get_registered_by_id j i (clear st) ≡ none)
        × (get_registered_by_schema hash j t (clear st) ≡ none)
  unfolding clear get_schema_by_id get_schema_by_guid get_id_by_schema get_registered_by_version
      get_registered_by_id get_registered_by_schema lookup lookup₂ row
  clear-reads st j g i t = (refl, refl, refl, refl, refl, refl)
