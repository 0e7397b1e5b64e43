-- ===== src/Tests/Engine.antt =====
-- The rule engine (src/serdes/Serde.cpp) at concrete inputs: messages are lists of numbers, and the
-- world counts the runs of executors.
use libschemaregistry.Engine.{
  Serde, Step, stop, none_action, registry, override_of, is_disabled, runs_elsewhere,
  get_on_success, get_on_failure, run_named, run_action, fail, run_rule, run_rules,
}
use libschemaregistry.Engine.Pipeline.{IsPlain, pipeline, run_rules-pipeline}
use libschemaregistry.Engine.Failures.{Runs, message, run_rule-condition}
use libschemaregistry.Model.{Rule, transform, condition, write, read, mode_dec}
use libschemaregistry.Outcome.{Outcome, ok, throw, std_exception}
use libschemaregistry.Prelude.Dict.{lookup, lookup-head}
use libschemaregistry.Prelude.{
  ℕ, ◌+◌, Bool, true, false, List, [], ◌∷◌, ◌++◌, none, some, Text, text_dec, ◌≡◌, refl, codes,
}
use libschemaregistry.Rules.{
  RuleContext, Executor, get_executor, get_override, applies, get_rule_action_name,
}

-- Appends 1 to the message.
abbrev append_one : Executor ℕ (List ℕ)
append_one ctx msg w = (ok (msg ++ (1 ∷ [])), w + 1)

abbrev broken : Executor ℕ (List ℕ)
broken ctx msg w = (throw (std_exception (codes "broken")), w + 1)

abbrev as_bool : List ℕ → Outcome Bool
as_bool [] = ok true
as_bool (x ∷ xs) = ok false

abbrev appender : Text
appender = 65 ∷ []

abbrev breaker : Text
breaker = 66 ∷ []

abbrev serde_with : Text → Executor ℕ (List ℕ) → Serde ℕ (List ℕ)
serde_with name executor = record {
  rule_registry = none;
  global_registry = record {
    rule_executors = (name, executor) ∷ [];
    rule_actions = [];
    rule_overrides = [];
  };
  as_bool = as_bool;
}

abbrev serde : Serde ℕ (List ℕ)
serde = serde_with appender append_one

abbrev broken_serde : Serde ℕ (List ℕ)
broken_serde = serde_with breaker broken

abbrev append_rule : Rule
append_rule = record {
  name = none;
  doc = none;
  kind = some transform;
  mode = some write;
  rule_type = some appender;
  tags = none;
  params = none;
  expr = none;
  on_success = none;
  on_failure = none;
  disabled = none;
}

abbrev break_rule : Rule
break_rule = record append_rule { rule_type = some breaker }

abbrev ignored_rule : Rule
ignored_rule = record break_rule { on_failure = some none_action }

abbrev check_rule : Rule
check_rule = record append_rule { kind = some condition }

abbrev read_rule : Rule
read_rule = record append_rule { mode = some read }

-- The context of a rule in a call that writes.
abbrev in_write : Rule → ℕ → RuleContext
in_write rule index = record {
  enabled_env = none;
  source = none;
  target = none;
  subject = [];
  rule_mode = write;
  rule = rule;
  index = index;
  rules = [];
}

append_rule-IsPlain : (index : ℕ) → IsPlain serde (in_write append_rule index) append_one
unfolding is_disabled override_of registry get_override runs_elsewhere applies mode_dec get_executor
    get_on_success get_on_failure lookup
append_rule-IsPlain index = record {
  type = appender;
  enabled = refl;
  in_mode = refl;
  has_type = refl;
  has_executor = lookup-head text_dec appender append_one [];
  transforms = λ e. cc e;
  no_success = refl;
  no_failure = refl;
}

run_rules-pipeline_example :
    run_rules serde in_write 0 (append_rule ∷ append_rule ∷ []) [] 0
    ≡ pipeline serde
        ((in_write append_rule 0, append_one) ∷ (in_write append_rule 1, append_one) ∷ [])
        []
        0
run_rules-pipeline_example =
    run_rules-pipeline serde in_write 0 (append_rule ∷ append_rule ∷ [])
      ((in_write append_rule 0, append_one) ∷ (in_write append_rule 1, append_one) ∷ []) [] 0
      (refl, append_rule-IsPlain 0, (refl, append_rule-IsPlain 1, tt))

break_rule-Runs : Runs broken_serde (in_write break_rule 0) broken
unfolding is_disabled override_of registry get_override runs_elsewhere applies mode_dec get_executor
    lookup
break_rule-Runs = record {
  type = breaker;
  enabled = refl;
  in_mode = refl;
  has_type = refl;
  has_executor = lookup-head text_dec breaker broken [];
}

ignored_rule-Runs : Runs broken_serde (in_write ignored_rule 0) broken
unfolding is_disabled override_of registry get_override runs_elsewhere applies mode_dec get_executor
    lookup
ignored_rule-Runs = record {
  type = breaker;
  enabled = refl;
  in_mode = refl;
  has_type = refl;
  has_executor = lookup-head text_dec breaker broken [];
}

check_rule-Runs : Runs serde (in_write check_rule 0) append_one
unfolding is_disabled override_of registry get_override runs_elsewhere applies mode_dec get_executor
    lookup
check_rule-Runs = record {
  type = appender;
  enabled = refl;
  in_mode = refl;
  has_type = refl;
  has_executor = lookup-head text_dec appender append_one [];
}

-- A condition without an executor, whose failure action is NONE, leaves the message as it is.
abbrev unknown_rule : Rule
unknown_rule = record check_rule { rule_type = none; on_failure = some none_action }

abbrev unchanged : Step (List ℕ)
unchanged = stop (7 ∷ [])

run_rule-condition_example : message serde unchanged ≡ 7 ∷ []
unfolding run_rule is_disabled applies mode_dec fail run_action lookup get_on_failure override_of
    get_rule_action_name run_named text_dec
run_rule-condition_example =
    run_rule-condition serde (in_write unknown_rule 0) (7 ∷ []) 0 unchanged refl refl
