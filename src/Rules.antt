-- ===== src/Rules.antt =====
-- The rule engine of `Serde` (src/serdes/Serde.cpp) over the rule registry
-- (src/serdes/RuleRegistry.cpp). Executors and actions are plug-ins: a function on the message and
-- the world. `M` is the type of messages (`SerdeValue`), whose `clone` is the message itself.
use libschemaregistry.Exec.{Exec}
use libschemaregistry.Model.{
  Kind, Phase, Mode, Rule, RuleSet, Schema, transform, encoding, upgrade, downgrade, up_down, write,
  read, write_read, mode_dec,
}
use libschemaregistry.Outcome.{Exception}
use libschemaregistry.Prelude.Dict.{Dict, lookup, insert}
use libschemaregistry.Prelude.{
  ℕ, Bool, true, false, ◌&&◌, List, [], ◌∷◌, Option, none, some, Text, text_dec, ite, reverse,
  if◌then◌else◌, ◌==◌,
}

-- `RuleOverride`
pub record RuleOverride : Type 0 where
  pub override_type : Text
  pub on_success : Option Text
  pub on_failure : Option Text
  pub disabled : Option Bool

-- What a rule's executor and actions are given beside the message (`RuleContext`); the
-- serialization context and the inline tags are part of the executor.
pub record RuleContext : Type 0 where
  pub enabled_env : Option Text
  pub source : Option Schema
  pub target : Option Schema
  pub subject : Text
  pub rule_mode : Mode
  pub rule : Rule
  pub index : ℕ
  pub rules : List Rule

abbrev pub Executor : Type 0 → Type 0 → Type 0
Executor W M = RuleContext → M → Exec W M

abbrev pub Action : Type 0 → Type 0 → Type 0
Action W M = RuleContext → M → Option Exception → Exec W Unit

pub record RuleRegistry (W M : Type 0) : Type 0 where
  pub rule_executors : Dict Text (Executor W M)
  pub rule_actions : Dict Text (Action W M)
  pub rule_overrides : Dict Text RuleOverride

module _ {W M : Type 0} where
  -- An executor and an action are registered under the type that they report.
  unfoldable pub register_executor : Text → Executor W M → RuleRegistry W M → RuleRegistry W M
  register_executor type executor r = record r {
    rule_executors = insert text_dec type executor r.rule_executors;
  }

  unfoldable pub get_executor : Text → RuleRegistry W M → Option (Executor W M)
  get_executor type r = lookup text_dec type r.rule_executors

  unfoldable pub register_action : Text → Action W M → RuleRegistry W M → RuleRegistry W M
  register_action type action r = record r {
    rule_actions = insert text_dec type action r.rule_actions;
  }

  unfoldable pub get_action : Text → RuleRegistry W M → Option (Action W M)
  get_action type r = lookup text_dec type r.rule_actions

  unfoldable pub register_override : RuleOverride → RuleRegistry W M → RuleRegistry W M
  register_override o r = record r {
    rule_overrides = insert text_dec o.override_type o r.rule_overrides;
  }

  unfoldable pub get_override : Text → RuleRegistry W M → Option RuleOverride
  get_override type r = lookup text_dec type r.rule_overrides

  unfoldable pub clear_registry : RuleRegistry W M → RuleRegistry W M
  clear_registry r = record r { rule_executors = []; rule_actions = []; rule_overrides = [] }

abbrev pub or_else {ℓ} : {A : Type ℓ} → A → Option A → A
or_else d none = d
or_else d (some a) = a

-- `schema->getRuleSet()->get...Rules()`, empty where one of them is not set.
unfoldable pub rules_in : (RuleSet → Option (List Rule)) → Option Schema → List Rule
rules_in field none = []
rules_in field (some s) = elim s.rule_set [ none ↦ [] | some rs ↦ or_else [] (field rs) ]

unfoldable pub get_migration_rules : Option Schema → List Rule
get_migration_rules = rules_in (λ rs. rs.migration_rules)

unfoldable pub get_domain_rules : Option Schema → List Rule
get_domain_rules = rules_in (λ rs. rs.domain_rules)

unfoldable pub get_encoding_rules : Option Schema → List Rule
get_encoding_rules = rules_in (λ rs. rs.encoding_rules)

unfoldable pub enable_at : Option Schema → Option Text
enable_at none = none
enable_at (some s) = elim s.rule_set [ none ↦ none | some rs ↦ rs.enable_at ]

-- The first `switch` of `executeRulesWithPhase`: the environment and the rules, in order.
unfoldable pub select_rules : Phase → Mode → Option Schema → Option Schema → Option Text × List Rule
select_rules phase upgrade source target = (enable_at target, get_migration_rules target)
select_rules phase downgrade source target =
    (enable_at source, reverse (get_migration_rules source))
select_rules encoding read source target = (enable_at target, reverse (get_encoding_rules target))
select_rules phase read source target = (enable_at target, reverse (get_domain_rules target))
select_rules encoding mode source target = (enable_at target, get_encoding_rules target)
select_rules phase mode source target = (enable_at target, get_domain_rules target)

-- The second `switch`: does a rule of this mode run in the mode of the call?
unfoldable pub applies : Mode → Mode → Bool
unfolding mode_dec
applies write_read rule_mode =
    ite (mode_dec rule_mode read) true (ite (mode_dec rule_mode write) true false)
applies up_down rule_mode =
    ite (mode_dec rule_mode upgrade) true (ite (mode_dec rule_mode downgrade) true false)
applies mode rule_mode = ite (mode_dec mode rule_mode) true false

-- The part of `areTransformsWithSameTag` over the tags.
unfoldable pub has_tag : Text → List Text → Bool
has_tag t [] = false
has_tag t (u ∷ us) = let rest = has_tag t us in ite (text_dec t u) true rest

unfoldable pub share_tag : List Text → List Text → Bool
share_tag [] us = false
share_tag (t ∷ ts) us = let rest = share_tag ts us in if has_tag t us then true else rest

unfoldable pub is_transform : Option Kind → Bool
is_transform (some transform) = true
is_transform _ = false

unfoldable pub are_transforms_with_same_tag : Rule → Rule → Bool
are_transforms_with_same_tag r s =
    if is_transform r.kind && is_transform s.kind
    then elim r.tags [
      | none ↦ false
      | some ts ↦ elim s.tags [ none ↦ false | some us ↦ share_tag ts us ]
    ]
    else false

-- What stands before and behind the first comma, if there is one.
unfoldable pub split_comma : Text → Option (Text × Text)
split_comma [] = none
split_comma (c ∷ cs) =
    let rest = split_comma cs in
    if c == b',' then some ([], cs) else elim rest [ none ↦ none | some (a, b) ↦ some (c ∷ a, b) ]

-- The action for one direction, of a pair that a comma parts.
unfoldable pub side : Mode → Text → Text
side mode action = elim (split_comma action) [
  | none ↦ action
  | some (first, second) ↦ elim mode [
    | write ↦ first
    | upgrade ↦ first
    | read ↦ second
    | downgrade ↦ second
    | _ ↦ action
  ]
]

-- `Serde::getRuleActionName`
unfoldable pub get_rule_action_name : Rule → Mode → Option Text → Option Text
get_rule_action_name rule mode none = none
get_rule_action_name rule mode (some action) = elim rule.mode [
  | none ↦ some action
  | some rule_mode ↦ elim rule_mode [
    | write_read ↦ some (side mode action)
    | up_down ↦ some (side mode action)
    | _ ↦ some action
  ]
]
