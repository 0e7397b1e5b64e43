-- ===== src/Engine.antt =====
-- Running rules on a message: `Serde::executeRulesWithPhase`, `runAction` and what they call
-- (src/serdes/Serde.cpp), with the two built-in actions (src/serdes/RuleRegistry.cpp).
pub mod Pipeline
pub mod Failures
use libschemaregistry.Exec.{Exec, raise}
use libschemaregistry.Model.{Kind, Phase, Mode, Rule, Schema, transform, condition, domain, write}
use libschemaregistry.Outcome.{
  serialization_error, while_serializing, message_error, Exception, Outcome, ok, throw, undefined,
  serde_error, no_executor, no_action, rule_condition_error, wrapped, rest_exception, std_exception,
}
use libschemaregistry.Prelude.{
  ℕ, ◌+◌, Bool, true, false, not, ◌&&◌, List, [], ◌∷◌, Option, none, some, Text, text_dec, codes,
  ite, if◌then◌else◌,
}
use libschemaregistry.Rules.{
  RuleContext, RuleOverride, Executor, Action, RuleRegistry, get_executor, get_action, get_override,
  or_else, select_rules, applies, get_rule_action_name,
}

abbrev pub error_action : Text
error_action = codes "ERROR"

abbrev pub none_action : Text
none_action = codes "NONE"

-- What one rule makes of the loop: it goes on with a message, or `executeRulesWithPhase` returns.
pub data Step (M : Type 0) : Type 0 where
  next : M → Step M
  stop : M → Step M

-- The exception that is handed to an action, a `std::optional<SerdeError>`: one of another type is
-- made a `SerdeError(what)`, and one of a subclass is sliced to the `SerdeError` in it, with the same
-- text.
unfoldable pub to_serde_error : Exception → Exception
to_serde_error (rest_exception m s) = wrapped (rest_exception m s)
to_serde_error (std_exception m) = wrapped (std_exception m)
to_serde_error (rule_condition_error rule) = wrapped (rule_condition_error rule)
to_serde_error (serialization_error m) = wrapped (serialization_error m)
to_serde_error (message_error message) = message_error message
to_serde_error (while_serializing p e) = wrapped (while_serializing p e)
to_serde_error e = e

-- The client's own registry where there is one, and otherwise the global one.
pub record Serde (W M : Type 0) : Type 0 where
  pub rule_registry : Option (RuleRegistry W M)
  pub global_registry : RuleRegistry W M
  -- `SerdeValue::asBool`
  pub as_bool : M → Outcome Bool

module _ {W M : Type 0} (serde : Serde W M) where
  unfoldable pub registry : RuleRegistry W M
  registry = or_else serde.global_registry serde.rule_registry

  -- `getOverride(type)` of a rule that has a type.
  unfoldable pub override_of : Rule → Option RuleOverride
  override_of rule = elim rule.rule_type [ none ↦ none | some type ↦ get_override type registry ]

  unfoldable pub get_on_success : Rule → Option Text
  get_on_success rule = elim (override_of rule) [
    | none ↦ rule.on_success
    | some o ↦ elim o.on_success [ none ↦ rule.on_success | some a ↦ some a ]
  ]

  unfoldable pub get_on_failure : Rule → Option Text
  get_on_failure rule = elim (override_of rule) [
    | none ↦ rule.on_failure
    | some o ↦ elim o.on_failure [ none ↦ rule.on_failure | some a ↦ some a ]
  ]

  -- Is the rule set meant to run elsewhere than in the client?
  unfoldable pub runs_elsewhere : Option Text → Bool
  runs_elsewhere none = false
  runs_elsewhere (some env) =
      ite (text_dec env (codes "ALL")) false (ite (text_dec env (codes "CLIENT")) false true)

  unfoldable pub is_disabled : Option Text → Rule → Bool
  is_disabled enabled_env rule = elim rule.rule_type [
    | none ↦ false
    | some _ ↦ elim (override_of rule) [
      | none ↦ runs_elsewhere enabled_env
      | some o ↦ elim o.disabled [ none ↦ runs_elsewhere enabled_env | some d ↦ d ]
    ]
  ]

  -- `ErrorAction::run`
  unfoldable pub run_error : Option Exception → Exec W Unit
  run_error none = raise (serde_error "Rule execution failed")
  run_error (some e) = raise e

  -- `getRuleAction` and the run of the action.
  unfoldable pub run_named : RuleContext → Text → M → Option Exception → Exec W Unit
  run_named ctx name msg ex w = ite (text_dec name error_action) (run_error ex w) (
      ite (text_dec name none_action) (ok tt, w)
        (elim (get_action name registry) [
          | none ↦ (throw (no_action name), w)
          | some action ↦ action ctx msg ex w
        ]))

  unfoldable pub run_action : RuleContext → Option Text → M → Option Exception → Text → Exec W Unit
  run_action ctx action msg ex default_action =
      run_named ctx (or_else default_action (get_rule_action_name ctx.rule ctx.rule_mode action))
        msg ex

  -- A handler: the failure action, and then the function returns the message.
  unfoldable pub fail : RuleContext → M → Exception → Exec W (Step M)
  fail ctx msg e w =
      let (r, w') = run_action ctx (get_on_failure ctx.rule) msg (some e) error_action w in
      elim r [
        | ok _ ↦ (ok (stop msg), w')
        | throw e' ↦ (throw e', w')
        | undefined ↦ (undefined, w')
      ]

  -- What is left of the `try` block once an action in it has run: `msg` is the current message.
  unfoldable pub in_try :
      RuleContext → M → Outcome (Unit {0}) × W → Exec W (Step M) → Outcome (Step M) × W
  in_try ctx msg (ok _, w) continue = continue w
  in_try ctx msg (throw e, w) continue = fail ctx msg (to_serde_error e) w
  in_try ctx msg (undefined, w) continue = (undefined, w)

  -- The last statement of the `try` block.
  unfoldable pub succeed : RuleContext → M → Exec W (Step M)
  succeed ctx msg w =
      in_try ctx msg (run_action ctx (get_on_success ctx.rule) msg none none_action w)
        (λ w'. (ok (next msg), w'))

  -- The result of a condition rule, which leaves the message as it is.
  unfoldable pub check_condition : RuleContext → M → M → Exec W (Step M)
  check_condition ctx msg result w = elim (serde.as_bool result) [
    | ok true ↦ succeed ctx msg w
    | ok false ↦
        in_try ctx msg
          (run_action ctx (get_on_failure ctx.rule) msg
            (some (to_serde_error (rule_condition_error ctx.rule))) error_action w)
          (λ w'. succeed ctx msg w')
    | throw e ↦ fail ctx msg (to_serde_error e) w
    | undefined ↦ (undefined, w)
  ]

  unfoldable pub run_executor : Executor W M → RuleContext → M → Exec W (Step M)
  run_executor executor ctx msg w =
      let (r, w') = executor ctx msg w in
      elim r [
        | ok result ↦ elim ctx.rule.kind [
          | some condition ↦ check_condition ctx msg result w'
          | _ ↦ succeed ctx result w'
        ]
        | throw e ↦ fail ctx msg (to_serde_error e) w'
        | undefined ↦ (undefined, w')
      ]

  -- One round of the loop over the rules.
  unfoldable pub run_rule : RuleContext → M → Exec W (Step M)
  run_rule ctx msg w =
      if is_disabled ctx.enabled_env ctx.rule
      then (ok (next msg), w)
      else if not (applies (or_else write ctx.rule.mode) ctx.rule_mode)
      then (ok (next msg), w)
      else elim ctx.rule.rule_type [
        | none ↦ fail ctx msg (serde_error "Rule type not specified") w
        | some type ↦ elim (get_executor type registry) [
          | none ↦ fail ctx msg (no_executor type) w
          | some executor ↦ run_executor executor ctx msg w
        ]
      ]

  -- The loop, over the rules that are left; `ctx` makes the context of a rule and its index.
  unfoldable pub run_rules : (Rule → ℕ → RuleContext) → ℕ → List Rule → M → Exec W M
  run_rules ctx index [] msg w = (ok msg, w)
  run_rules ctx index (rule ∷ rules) msg w =
      let (r, w') = run_rule (ctx rule index) msg w in
      elim r [
        | ok (next msg') ↦ run_rules ctx (index + 1) rules msg' w'
        | ok (stop msg') ↦ (ok msg', w')
        | throw e ↦ (throw e, w')
        | undefined ↦ (undefined, w')
      ]

  unfoldable pub execute_rules_with_phase :
      Text → Phase → Mode → Option Schema → Option Schema → M → Exec W M
  execute_rules_with_phase subject phase mode source target msg =
      let (enabled_env, rules) = select_rules phase mode source target in
      run_rules
        (λ rule index. record {
          enabled_env = enabled_env;
          source = source;
          target = target;
          subject = subject;
          rule_mode = mode;
          rule = rule;
          index = index;
          rules = rules;
        })
        0 rules msg

  unfoldable pub execute_rules : Text → Mode → Option Schema → Option Schema → M → Exec W M
  execute_rules subject = execute_rules_with_phase subject domain
