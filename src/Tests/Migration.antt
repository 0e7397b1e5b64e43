-- ===== src/Tests/Migration.antt =====
-- Migrations (src/serdes/Serde.cpp) at concrete inputs.
use libschemaregistry.Client.{Client, IsLawful}
use libschemaregistry.Engine.{Serde, execute_rules_with_phase}
use libschemaregistry.Exec.{pure-inj}
use libschemaregistry.Migration.{
  Migration, has_rules, rules_of_phase, any_rule, matches_mode, step, steps, all_steps, fetch,
  get_schemas_between, get_migrations,
}
use libschemaregistry.Migration.Links.{
  Upgrades, Downgrades, get_migrations-Upgrades, get_migrations-Downgrades,
}
use libschemaregistry.Migration.Skips.{execute_rules_with_phase-no_upgrade}
use libschemaregistry.Mock.Store.{generation}
use libschemaregistry.Model.{
  Rule, Schema, RegisteredSchema, transform, migration, upgrade, downgrade, up_down, mode_dec,
  registered, to_schema,
}
use libschemaregistry.Outcome.{ok}
use libschemaregistry.Prelude.{ℕ, true, List, [], ◌∷◌, none, some, ◌≡◌, refl, arith, ap}

abbrev migration_rule : Rule
migration_rule = record {
  name = none;
  doc = none;
  kind = some transform;
  mode = some up_down;
  rule_type = none;
  tags = none;
  params = none;
  expr = none;
  on_success = none;
  on_failure = none;
  disabled = none;
}

abbrev plain_schema : Schema
plain_schema = record {
  schema_type = none;
  references = none;
  metadata = none;
  rule_set = none;
  schema = none;
}

abbrev ruled_schema : Schema
ruled_schema = record plain_schema {
  rule_set = some (record {
    migration_rules = some (migration_rule ∷ []);
    domain_rules = none;
    encoding_rules = none;
    enable_at = none;
  });
}

-- A version with rules to migrate in both directions.
abbrev numbered : ℕ → RegisteredSchema
numbered version = registered (some version) none none (some version) ruled_schema

abbrev plain : RegisteredSchema
plain = registered none none none (some 1) plain_schema

-- A registry that has every version, and in which the schema asked for has the version `found`.
abbrev every_version : ℕ → Client Unit
every_version found = record {
  get_by_subject_and_id = λ subject id format w. (ok ruled_schema, w);
  get_by_guid = λ guid format w. (ok ruled_schema, w);
  get_by_schema = λ subject schema normalize deleted w. (ok (numbered found), w);
  get_version = λ subject version deleted format w. (ok (numbered version), w);
  get_latest_version = λ subject format w. (ok (numbered found), w);
  get_latest_with_metadata = λ subject metadata deleted format w. (ok (numbered found), w);
}

every_version-IsLawful : (found : ℕ) → IsLawful (every_version found)
unfolding registered generation
every_version-IsLawful found = record {
  version_asked = λ subject version deleted format rs w w' h. ap generation (pure-inj h);
}

abbrev upgrades : List Migration
upgrades =
    (record { rule_mode = upgrade; source = some (numbered 1); target = some (numbered 2) })
    ∷ (record { rule_mode = upgrade; source = some (numbered 2); target = some (numbered 3) })
    ∷ []

abbrev downgrades : List Migration
downgrades =
    (record { rule_mode = downgrade; source = some (numbered 3); target = some (numbered 2) })
    ∷ (record { rule_mode = downgrade; source = some (numbered 2); target = some (numbered 1) })
    ∷ []

get_migrations-Upgrades_example :
    Upgrades (generation (numbered 1)) (generation (numbered 3)) upgrades
unfolding get_migrations get_schemas_between fetch generation registered all_steps steps step
    has_rules rules_of_phase any_rule matches_mode mode_dec
get_migrations-Upgrades_example =
    get_migrations-Upgrades (every_version 1) (every_version-IsLawful 1) [] ruled_schema
      (numbered 1) (numbered 3) none tt tt tt upgrades refl (omega arith) refl

get_migrations-Downgrades_example :
    Downgrades (generation (numbered 3)) (generation (numbered 1)) downgrades
unfolding get_migrations get_schemas_between fetch generation registered all_steps steps step
    has_rules rules_of_phase any_rule matches_mode mode_dec
get_migrations-Downgrades_example =
    get_migrations-Downgrades (every_version 3) (every_version-IsLawful 3) [] ruled_schema
      (numbered 3) (numbered 1) none tt tt tt downgrades refl (omega arith) refl

abbrev serde : Serde Unit ℕ
serde = record {
  rule_registry = none;
  global_registry = record { rule_executors = []; rule_actions = []; rule_overrides = [] };
  as_bool = λ m. ok true;
}

execute_rules_with_phase-no_upgrade_example :
    execute_rules_with_phase serde [] migration upgrade none (some (to_schema plain)) 7 tt
    ≡ (ok 7, tt)
unfolding has_rules registered
execute_rules_with_phase-no_upgrade_example =
    execute_rules_with_phase-no_upgrade serde [] none plain 7 tt refl
