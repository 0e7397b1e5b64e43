-- ===== src/Engine/Failures.antt =====
-- What failing rules do (`executeRulesWithPhase` of src/serdes/Serde.cpp).
use libschemaregistry.Engine.Pipeline.{run_named-none, fail-default}
use libschemaregistry.Engine.{
  Serde, Step, next, stop, none_action, error_action, to_serde_error, registry, override_of,
  is_disabled, get_on_failure, run_action, fail, in_try, succeed, check_condition, run_executor,
  run_rule, run_rules,
}
use libschemaregistry.Exec.{Exec}
use libschemaregistry.Model.{Rule, condition, write}
use libschemaregistry.Outcome.{
  Exception, Outcome, ok, throw, undefined, rule_condition_error, serde_error, no_executor,
}
use libschemaregistry.Prelude.{
  ℕ, Bool, true, false, List, ◌∷◌, Option, none, some, Text, Option-cases, ◌≡◌, refl, arith, inl,
  inr,
}
use libschemaregistry.Rules.{
  RuleContext, Executor, get_executor, applies, or_else, get_rule_action_name,
}

module _ {W M : Type 0} (serde : Serde W M) where
  -- A rule that reaches its executor `x`.
  pub record Runs (ctx : RuleContext) (x : Executor W M) : Type 0 where
    pub type : Text
    pub enabled : is_disabled serde ctx.enabled_env ctx.rule ≡ false
    pub in_mode : applies (or_else write ctx.rule.mode) ctx.rule_mode ≡ true
    pub has_type : ctx.rule.rule_type ≡ some type
    pub has_executor : get_executor type (registry serde) ≡ some x

  run_rule-executor :
      (ctx : RuleContext) (x : Executor W M) (msg : M) (w : W)
      → Runs ctx x
      → run_rule serde ctx msg w ≡ run_executor serde x ctx msg w
  unfolding run_rule
  run_rule-executor ctx x msg w p = ground (arith, p.enabled, p.in_mode, p.has_type, p.has_executor)

  -- The name under which the failure action of a rule is looked up.
  abbrev pub failure_name : RuleContext → Text
  failure_name ctx =
      or_else error_action
        (get_rule_action_name ctx.rule ctx.rule_mode (get_on_failure serde ctx.rule))

  -- If the executor of the next rule to run throws and its failure action is NONE, the exception
  -- is dropped and the whole call returns the message as it was before the rule: the rules behind
  -- it do not run.
  pub run_rules-swallowed :
      (ctx : Rule → ℕ → RuleContext) (index : ℕ) (rule : Rule) (rules : List Rule)
      (x : Executor W M) (msg : M) (w w' : W) (e : Exception)
      → Runs (ctx rule index) x
      → x (ctx rule index) msg w ≡ (throw e, w')
      → failure_name (ctx rule index) ≡ none_action
      → run_rules serde ctx index (rule ∷ rules) msg w ≡ (ok msg, w')
  unfolding run_rules run_executor fail run_action
  run_rules-swallowed ctx index rule rules x msg w w' e p t n = ground (
    arith,
    run_rule-executor (ctx rule index) x msg w p,
    run_named-none serde (ctx rule index) msg (some (to_serde_error e)) w',
  )

  -- If the executor of the next rule to run throws and the rule names no failure action, the call
  -- throws the exception as a `SerdeError`, whatever rules are left.
  pub run_rules-throws :
      (ctx : Rule → ℕ → RuleContext) (index : ℕ) (rule : Rule) (rules : List Rule)
      (x : Executor W M) (msg : M) (w w' : W) (e : Exception)
      → Runs (ctx rule index) x
      → x (ctx rule index) msg w ≡ (throw e, w')
      → get_on_failure serde (ctx rule index).rule ≡ none
      → run_rules serde ctx index (rule ∷ rules) msg w ≡ (throw (to_serde_error e), w')
  unfolding run_rules run_executor
  run_rules-throws ctx index rule rules x msg w w' e p t n = ground (
    arith,
    run_rule-executor (ctx rule index) x msg w p,
    fail-default serde (ctx rule index) msg (to_serde_error e) w' n,
  )

  -- A condition that does not hold runs the failure action inside the `try` block. If that action
  -- throws, the handler runs the same failure action again, on the exception of its first run and
  -- in the world that this left.
  pub condition_fails_twice :
      (ctx : RuleContext) (x : Executor W M) (msg result : M) (w w1 w2 : W) (e : Exception)
      → Runs ctx x
      → ctx.rule.kind ≡ some condition
      → x ctx msg w ≡ (ok result, w1)
      → serde.as_bool result ≡ ok false
      → run_action serde ctx
          (get_on_failure serde ctx.rule)
          msg
          (some (to_serde_error (rule_condition_error ctx.rule)))
          error_action
          w1
        ≡ (throw e, w2)
      → run_rule serde ctx msg w ≡ fail serde ctx msg (to_serde_error e) w2
  unfolding run_executor check_condition in_try
  condition_fails_twice ctx x msg result w w1 w2 e p k t b a =
      ground (arith, run_rule-executor ctx x msg w p)

  abbrev pub message : Step M → M
  message (next m) = m
  message (stop m) = m

  in_try-keeps :
      (ctx : RuleContext) (msg : M) (r : Outcome (Unit {0}) × W) (k : Exec W (Step M)) (s : Step M)
      → ((w : W) → (k w).0 ≡ ok s → message s ≡ msg)
      → (in_try serde ctx msg r k).0 ≡ ok s
      → message s ≡ msg
  unfolding in_try fail
  in_try-keeps ctx msg (ok _, w) k s h e = h w e
  in_try-keeps ctx msg (throw y, w) k s h e = ground arith
  in_try-keeps ctx msg (undefined, w) k s h e = ground arith

  succeed-keeps :
      (ctx : RuleContext) (msg : M) (w : W) (s : Step M)
      → (succeed serde ctx msg w).0 ≡ ok s
      → message s ≡ msg
  unfolding succeed
  succeed-keeps ctx msg w s e =
      in_try-keeps ctx msg _ (λ w'. (ok (next msg), w')) s (λ w' h. ground arith) e

  check_condition-keeps :
      (ctx : RuleContext) (msg result : M) (w : W) (s : Step M)
      → (check_condition serde ctx msg result w).0 ≡ ok s
      → message s ≡ msg
  unfolding check_condition
  check_condition-keeps ctx msg result w s e = by_bool (serde.as_bool result) refl
    where
      by_bool : (o : Outcome Bool) → serde.as_bool result ≡ o → message s ≡ msg
      by_bool (ok true) b = succeed-keeps ctx msg w s (rw (b, check_condition) at e)
      by_bool (ok false) b =
          in_try-keeps ctx msg _ (λ w'. succeed serde ctx msg w') s
            (λ w' h. succeed-keeps ctx msg w' s h) (rw (b, check_condition) at e)
      by_bool (throw y) b = unfold fail in ground arith
      by_bool undefined b = ground arith

  fail-keeps :
      (ctx : RuleContext) (msg : M) (y : Exception) (w : W) (s : Step M)
      → (fail serde ctx msg y w).0 ≡ ok s
      → message s ≡ msg
  unfolding fail
  fail-keeps ctx msg y w s e = ground arith

  run_executor-keeps :
      (x : Executor W M) (ctx : RuleContext) (msg : M) (w : W) (s : Step M)
      → ctx.rule.kind ≡ some condition
      → (run_executor serde x ctx msg w).0 ≡ ok s
      → message s ≡ msg
  unfolding run_executor
  run_executor-keeps x ctx msg w s k e = by_result (x ctx msg w).0 refl
    where
      w' : W
      w' = (x ctx msg w).1

      by_result : (o : Outcome M) → (x ctx msg w).0 ≡ o → message s ≡ msg
      by_result (ok result) r = ground (arith, check_condition-keeps ctx msg result w' s)
      by_result (throw y) r = ground (arith, fail-keeps ctx msg (to_serde_error y) w' s)
      by_result undefined r = ground arith

  -- A condition rule never changes the message, however it and its actions end: the loop goes on
  -- with it, or the call returns it.
  pub run_rule-condition :
      (ctx : RuleContext) (msg : M) (w : W) (s : Step M)
      → ctx.rule.kind ≡ some condition
      → (run_rule serde ctx msg w).0 ≡ ok s
      → message s ≡ msg
  unfolding run_rule
  run_rule-condition ctx msg w s k e = elim (Option-cases ctx.rule.rule_type) [
    | inl none_set ↦ ground (arith, fail-keeps ctx msg (serde_error "Rule type not specified") w s)
    | inr (type, typed) ↦ elim (Option-cases (get_executor type (registry serde))) [
      | inl missing ↦ ground (arith, fail-keeps ctx msg (no_executor type) w s)
      | inr (x, found) ↦ ground (arith, run_executor-keeps x ctx msg w s k)
    ]
  ]

  -- The `disabled` flag of a rule has no part in the decision to skip it.
  pub is_disabled-flag :
      (env : Option Text) (rule : Rule) (flag : Option Bool)
      → is_disabled serde env (record rule { disabled = flag }) ≡ is_disabled serde env rule
  unfolding is_disabled override_of
  is_disabled-flag env rule flag = refl
