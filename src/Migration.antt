-- ===== src/Migration.antt =====
-- Schema migrations: `getMigrations`, `getSchemasBetween`, `hasRules`, `executeMigrations` and the
-- choice of the reader's and the writer's schema (src/serdes/Serde.cpp).
pub mod Versions
pub mod Links
pub mod Skips
pub mod Runs
use libschemaregistry.Client.{Client}
use libschemaregistry.Engine.{Serde, execute_rules_with_phase}
use libschemaregistry.Exec.{Exec, pure, raise, ◌>>=◌, bind_outcome}
use libschemaregistry.Mock.Store.{generation, text_or_empty}
use libschemaregistry.Model.{
  Phase, Mode, Rule, RuleSet, Schema, RegisteredSchema, migration, domain, encoding, upgrade,
  downgrade, up_down, write, read, write_read, mode_dec, to_schema,
}
use libschemaregistry.Outcome.{Outcome, ok, serde_error}
use libschemaregistry.Prelude.Dict.{Dict}
use libschemaregistry.Prelude.{
  ℕ, zero, suc, ◌-◌, Bool, true, false, List, [], ◌∷◌, ◌++◌, reverse, Option, none, some, Text, ite,
  ltb, if◌then◌else◌,
}

pub record Migration : Type 0 where
  pub rule_mode : Mode
  pub source : Option RegisteredSchema
  pub target : Option RegisteredSchema

unfoldable pub rules_of_phase : Phase → RuleSet → Option (List Rule)
rules_of_phase migration rule_set = rule_set.migration_rules
rules_of_phase domain rule_set = rule_set.domain_rules
rules_of_phase encoding rule_set = rule_set.encoding_rules

-- The second `switch` of `hasRules`: is a rule of this mode one for the mode of the call?
unfoldable pub matches_mode : Mode → Mode → Bool
unfolding mode_dec
matches_mode upgrade rule_mode =
    ite (mode_dec rule_mode upgrade) true (ite (mode_dec rule_mode up_down) true false)
matches_mode downgrade rule_mode =
    ite (mode_dec rule_mode downgrade) true (ite (mode_dec rule_mode up_down) true false)
matches_mode write rule_mode =
    ite (mode_dec rule_mode write) true (ite (mode_dec rule_mode write_read) true false)
matches_mode read rule_mode =
    ite (mode_dec rule_mode read) true (ite (mode_dec rule_mode write_read) true false)
matches_mode mode rule_mode = ite (mode_dec rule_mode mode) true false

unfoldable pub any_rule : Mode → List Rule → Bool
any_rule mode [] = false
any_rule mode (rule ∷ rules) =
    let rest = any_rule mode rules in
    elim rule.mode [
      | none ↦ rest
      | some rule_mode ↦ if matches_mode mode rule_mode then true else rest
    ]

unfoldable pub has_rules : Option RuleSet → Phase → Mode → Bool
has_rules none phase mode = false
has_rules (some rule_set) phase mode = elim (rules_of_phase phase rule_set) [
  | none ↦ false
  | some rules ↦ any_rule mode rules
]

-- One step between a version and the next one: down, it is the next one that is the source.
unfoldable pub step : Mode → RegisteredSchema → RegisteredSchema → Migration
unfolding mode_dec
step mode previous version =
    ite (mode_dec mode upgrade)
      (record { rule_mode = mode; source = some previous; target = some version })
      (record { rule_mode = mode; source = some version; target = some previous })

-- The loop of `getMigrations` behind the first version.
unfoldable pub steps : Mode → RegisteredSchema → List RegisteredSchema → List Migration
steps mode previous [] = []
steps mode previous (version ∷ versions) =
    let rest = steps mode version versions in
    if has_rules version.rule_set migration mode then step mode previous version ∷ rest else rest

unfoldable pub all_steps : Mode → List RegisteredSchema → List Migration
all_steps mode [] = []
all_steps mode (first ∷ versions) = steps mode first versions

-- `SchemaSelector`
pub data SchemaSelectorType : Type 0 where
  schema_id latest_version latest_with_metadata : SchemaSelectorType

pub record SchemaSelector : Type 0 where
  pub selector_type : SchemaSelectorType
  pub schema_id : Option ℕ
  pub metadata : Dict Text Text

module _ {W : Type 0} (client : Client W) where
  -- The loop of `getSchemasBetween`: `count` versions from `version` on.
  unfoldable pub fetch : Text → Option Text → ℕ → ℕ → Exec W (List RegisteredSchema)
  fetch subject format zero version = pure []
  fetch subject format (suc count) version = do
    schema ← client.get_version subject version true format
    rest ← fetch subject format count (suc version)
    pure (schema ∷ rest)

  unfoldable pub get_schemas_between :
      Text → RegisteredSchema → RegisteredSchema → Option Text → Exec W (List RegisteredSchema)
  get_schemas_between subject first last format =
      let first_version = generation first in
      let last_version = generation last in
      if ltb (last_version - first_version) 2
      then pure (first ∷ last ∷ [])
      else (fetch subject format (last_version - suc first_version) (suc first_version)
          >>= λ between. pure (first ∷ between ++ (last ∷ [])))

  unfoldable pub get_migrations :
      Text → Schema → RegisteredSchema → Option Text → Exec W (List Migration)
  get_migrations subject source_info target format = do
    source ← client.get_by_schema subject source_info false true
    if ltb (generation source) (generation target)
        then (get_schemas_between subject source target format >>= λ versions.
            pure (all_steps upgrade versions))
        else if ltb (generation target) (generation source)
        then (get_schemas_between subject target source format >>= λ versions.
            pure (reverse (all_steps downgrade versions)))
        else pure []

  unfoldable pub select_schema :
      Text → Option Text → SchemaSelector → Exec W (Option RegisteredSchema)
  select_schema subject format selector = elim selector.selector_type [
    | schema_id ↦ elim selector.schema_id [
      | none ↦ raise (serde_error "Schema ID not provided for SchemaId selector")
      | some id ↦ client.get_by_subject_and_id (some subject) id format >>= λ schema.
          client.get_by_schema subject schema false true >>= λ rs. pure (some rs)
    ]
    | latest_version ↦ client.get_latest_version subject format >>= λ rs. pure (some rs)
    | latest_with_metadata ↦
        client.get_latest_with_metadata subject selector.metadata true format >>= λ rs.
        pure (some rs)
  ]

  unfoldable pub get_reader_schema :
      Text → Option Text → Option SchemaSelector → Exec W (Option RegisteredSchema)
  get_reader_schema subject format none = pure none
  get_reader_schema subject format (some selector) = select_schema subject format selector

  -- `getWriterSchema`, on the id and the GUID of the `SchemaId`.
  unfoldable pub get_writer_schema :
      Option ℕ → Option Text → Option Text → Option Text → Exec W Schema
  get_writer_schema (some id) guid subject format =
      client.get_by_subject_and_id (some (text_or_empty subject)) id format
  get_writer_schema none (some guid) subject format = client.get_by_guid guid format
  get_writer_schema none none subject format = raise (serde_error "Schema ID or GUID are not set")

abbrev pub schema_of : Option RegisteredSchema → Option Schema
schema_of none = none
schema_of (some rs) = some (to_schema rs)

module _ {W M : Type 0} (serde : Serde W M) where
  unfoldable pub execute_migrations : Text → List Migration → M → Exec W M
  execute_migrations subject [] msg = pure msg
  execute_migrations subject (m ∷ migrations) msg = do
    msg' ←
        execute_rules_with_phase serde subject migration m.rule_mode (schema_of m.source)
          (schema_of m.target) msg
    execute_migrations subject migrations msg'
