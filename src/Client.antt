-- ===== src/Client.antt =====
-- The part of the interface `ISchemaRegistryClient` (include/schemaregistry/rest) that the serdes
-- use. `W` is the state behind it: the server's, or the mock registry's.
use libschemaregistry.Exec.{Exec}
use libschemaregistry.Mock.Store.{generation}
use libschemaregistry.Model.{RegisteredSchema, Schema}
use libschemaregistry.Outcome.{ok}
use libschemaregistry.Prelude.Dict.{Dict}
use libschemaregistry.Prelude.{ℕ, Bool, Option, Text, ◌≡◌}

pub record Client (W : Type 0) : Type 0 where
  pub get_by_subject_and_id : Option Text → ℕ → Option Text → Exec W Schema
  pub get_by_guid : Text → Option Text → Exec W Schema
  pub get_by_schema : Text → Schema → Bool → Bool → Exec W RegisteredSchema
  pub get_version : Text → ℕ → Bool → Option Text → Exec W RegisteredSchema
  pub get_latest_version : Text → Option Text → Exec W RegisteredSchema
  pub get_latest_with_metadata :
      Text → Dict Text Text → Bool → Option Text → Exec W RegisteredSchema

-- What the registry documents of `getVersion`: a call that returns gives the version asked for.
pub record IsLawful {W : Type 0} (client : Client W) : Type 0 where
  pub version_asked :
      (subject : Text) (version : ℕ) (deleted : Bool) (format : Option Text) (rs : RegisteredSchema)
      (w w' : W)
      → client.get_version subject version deleted format w ≡ (ok rs, w')
      → generation rs ≡ version
