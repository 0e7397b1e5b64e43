-- ===== src/SchemaStore.antt =====
-- `SchemaStore` (src/rest/SchemaStore.cpp), the cache of schemas behind the registry client. The
-- indexes are maps of maps, by subject first. `schema_hash` is `createSchemaHash`: the text of the
-- schema's JSON, which nlohmann::json makes.
pub mod Laws
pub mod Keyed
use libschemaregistry.Model.{Schema, RegisteredSchema}
use libschemaregistry.Prelude.Dict.{Dict, lookup, insert, lookup₂, insert₂}
use libschemaregistry.Prelude.{
  ℕ, List, [], ◌∷◌, Option, none, some, Text, text_dec, ℕ_discrete, ite,
}

pub record SchemaStore : Type 0 where
  pub schema_id_index : Dict Text (Dict ℕ (Option Text × Schema))
  pub schema_guid_index : Dict Text Schema
  pub schema_index : Dict Text (Dict Text ℕ)
  pub rs_id_index : Dict Text (Dict ℕ RegisteredSchema)
  pub rs_version_index : Dict Text (Dict ℕ RegisteredSchema)
  pub rs_schema_index : Dict Text (Dict Text RegisteredSchema)

-- The constructor, and what `clear` leaves.
unfoldable pub empty : SchemaStore
empty = record {
  schema_id_index = [];
  schema_guid_index = [];
  schema_index = [];
  rs_id_index = [];
  rs_version_index = [];
  rs_schema_index = [];
}

unfoldable pub clear : SchemaStore → SchemaStore
clear st = record st {
  schema_id_index = [];
  schema_guid_index = [];
  schema_index = [];
  rs_id_index = [];
  rs_version_index = [];
  rs_schema_index = [];
}

-- `value_or("")`
abbrev pub or_empty : Option Text → Text
or_empty none = []
or_empty (some t) = t

module _ (schema_hash : Schema → Text) where
  unfoldable pub set_id : Text → Option ℕ → Option Text → Schema → SchemaStore → SchemaStore
  set_id subject none guid schema st = st
  set_id subject (some id) guid schema st = record st {
    schema_id_index = insert₂ text_dec ℕ_discrete subject id (guid, schema) st.schema_id_index;
    schema_index = insert₂ text_dec text_dec subject (schema_hash schema) id st.schema_index;
  }

  unfoldable pub set_guid : Option Text → Schema → SchemaStore → SchemaStore
  set_guid none schema st = st
  set_guid (some guid) schema st = record st {
    schema_guid_index = insert text_dec guid schema st.schema_guid_index;
  }

  -- `setSchema`: the two `if` blocks, on what the optional arguments hold.
  unfoldable pub set_schema :
      Option Text → Option ℕ → Option Text → Schema → SchemaStore → SchemaStore
  set_schema subject id guid schema st =
      set_guid guid schema (set_id (or_empty subject) id guid schema st)

  unfoldable pub index_by_id : Text → Option ℕ → RegisteredSchema → SchemaStore → SchemaStore
  index_by_id subject none rs st = st
  index_by_id subject (some id) rs st = record st {
    rs_id_index = insert₂ text_dec ℕ_discrete subject id rs st.rs_id_index;
  }

  unfoldable pub index_by_version : Text → Option ℕ → RegisteredSchema → SchemaStore → SchemaStore
  index_by_version subject none rs st = st
  index_by_version subject (some version) rs st = record st {
    rs_version_index = insert₂ text_dec ℕ_discrete subject version rs st.rs_version_index;
  }

  unfoldable pub index_by_schema : Text → Schema → RegisteredSchema → SchemaStore → SchemaStore
  index_by_schema subject schema rs st = record st {
    rs_schema_index = insert₂ text_dec text_dec subject (schema_hash schema) rs st.rs_schema_index;
  }

  -- `if (!subjectStr.empty()) subjectOpt = subjectStr;`
  unfoldable pub unless_empty : Text → Option Text
  unless_empty [] = none
  unless_empty (c ∷ cs) = some (c ∷ cs)

  -- `setRegisteredSchema`. What it hands to `setSchema` as the GUID is `rs.getSchema()`.
  unfoldable pub set_registered_schema : Schema → RegisteredSchema → SchemaStore → SchemaStore
  set_registered_schema schema rs st =
      let subject = or_empty rs.subject in
      let st1 = index_by_id subject rs.id rs st in
      let st2 = index_by_version subject rs.version rs st1 in
      let st3 = index_by_schema subject schema rs st2 in
      set_schema (unless_empty subject) rs.id rs.schema schema st3

  unfoldable pub get_id_by_schema : Text → Schema → SchemaStore → Option ℕ
  get_id_by_schema subject schema st =
      lookup₂ text_dec text_dec subject (schema_hash schema) st.schema_index

  unfoldable pub get_registered_by_schema : Text → Schema → SchemaStore → Option RegisteredSchema
  get_registered_by_schema subject schema st =
      lookup₂ text_dec text_dec subject (schema_hash schema) st.rs_schema_index

unfoldable pub get_schema_by_id : Text → ℕ → SchemaStore → Option (Option Text × Schema)
get_schema_by_id subject id st = lookup₂ text_dec ℕ_discrete subject id st.schema_id_index

unfoldable pub get_schema_by_guid : Text → SchemaStore → Option Schema
get_schema_by_guid guid st = lookup text_dec guid st.schema_guid_index

unfoldable pub get_registered_by_version : Text → ℕ → SchemaStore → Option RegisteredSchema
get_registered_by_version subject version st =
    lookup₂ text_dec ℕ_discrete subject version st.rs_version_index

unfoldable pub get_registered_by_id : Text → ℕ → SchemaStore → Option RegisteredSchema
get_registered_by_id subject id st = lookup₂ text_dec ℕ_discrete subject id st.rs_id_index
