-- ===== src/Engine/Pipeline.antt =====
-- Rules that run, and rules that are skipped (`executeRulesWithPhase` of src/serdes/Serde.cpp).
use native.Mathlib.Nat.{add-zero}
use libschemaregistry.Engine.{
  Serde, Step, next, none_action, error_action, to_serde_error, registry, is_disabled,
  get_on_success, get_on_failure, run_error, run_named, run_action, fail, in_try, succeed,
  run_executor, run_rule, run_rules,
}
use libschemaregistry.Exec.{Exec}
use libschemaregistry.Model.{Rule, condition, write}
use libschemaregistry.Outcome.{Exception, Outcome, ok, throw, undefined}
use libschemaregistry.Prelude.{
  ℕ, ◌+◌, true, false, List, [], ◌∷◌, ◌++◌, length, Option, none, some, Text, text_dec, ◌≡◌, ◌≢◌,
  refl, arith, ◌⊎◌,
}
use libschemaregistry.Rules.{
  RuleContext, Executor, get_executor, applies, or_else, get_rule_action_name,
}

module _ {W M : Type 0} (serde : Serde W M) where
  -- The built-in actions.
  pub run_named-none :
      (ctx : RuleContext) (msg : M) (ex : Option Exception) (w : W)
      → run_named serde ctx none_action msg ex w ≡ (ok tt, w)
  unfolding run_named text_dec
  run_named-none ctx msg ex w = refl

  pub run_named-error :
      (ctx : RuleContext) (msg : M) (e : Exception) (w : W)
      → run_named serde ctx error_action msg (some e) w ≡ (throw e, w)
  unfolding run_named text_dec run_error
  run_named-error ctx msg e w = refl

  -- A failure without a failure action leaves the engine as the exception.
  pub fail-default :
      (ctx : RuleContext) (msg : M) (e : Exception) (w : W)
      → get_on_failure serde ctx.rule ≡ none
      → fail serde ctx msg e w ≡ (throw e, w)
  unfolding fail run_action get_rule_action_name
  fail-default ctx msg e w h = ground (arith, run_named-error ctx msg e w)

  succeed-default :
      (ctx : RuleContext) (msg : M) (w : W)
      → get_on_success serde ctx.rule ≡ none
      → succeed serde ctx msg w ≡ (ok (next msg), w)
  unfolding succeed run_action get_rule_action_name in_try
  succeed-default ctx msg w h = ground (arith, run_named-none ctx msg none w)

  -- A transform that is enabled, meant for the mode of the call, has the registered executor `x`,
  -- and names no actions.
  pub record IsPlain (ctx : RuleContext) (x : Executor W M) : Type 0 where
    pub type : Text
    pub enabled : is_disabled serde ctx.enabled_env ctx.rule ≡ false
    pub in_mode : applies (or_else write ctx.rule.mode) ctx.rule_mode ≡ true
    pub has_type : ctx.rule.rule_type ≡ some type
    pub has_executor : get_executor type (registry serde) ≡ some x
    pub transforms : ctx.rule.kind ≢ some condition
    pub no_success : get_on_success serde ctx.rule ≡ none
    pub no_failure : get_on_failure serde ctx.rule ≡ none

  -- The executor's result, as one round of the loop has it.
  abbrev pub stage : Outcome M × W → Outcome (Step M) × W
  stage (ok m, w) = (ok (next m), w)
  stage (throw e, w) = (throw (to_serde_error e), w)
  stage (undefined, w) = (undefined, w)

  run_executor-plain :
      (ctx : RuleContext) (x : Executor W M) (msg : M) (w : W)
      → IsPlain ctx x
      → (o : Outcome M) → (x ctx msg w).0 ≡ o
      → run_executor serde x ctx msg w ≡ stage (x ctx msg w)
  unfolding run_executor
  run_executor-plain ctx x msg w p (ok m) e =
      ground (arith, p.transforms, succeed-default ctx m (x ctx msg w).1 p.no_success)
  run_executor-plain ctx x msg w p (throw y) e =
      ground (arith, fail-default ctx msg (to_serde_error y) (x ctx msg w).1 p.no_failure)
  run_executor-plain ctx x msg w p undefined e = ground arith

  run_rule-plain :
      (ctx : RuleContext) (x : Executor W M) (msg : M) (w : W)
      → IsPlain ctx x
      → run_rule serde ctx msg w ≡ stage (x ctx msg w)
  unfolding run_rule
  run_rule-plain ctx x msg w p = ground (
    arith,
    p.enabled,
    p.in_mode,
    p.has_type,
    p.has_executor,
    run_executor-plain ctx x msg w p (x ctx msg w).0 refl,
  )

  -- The transforms one after the other: the first that throws ends it, with its exception as a
  -- `SerdeError`.
  unfoldable pub pipeline : List (RuleContext × Executor W M) → M → Exec W M
  pipeline [] msg w = (ok msg, w)
  pipeline ((ctx, x) ∷ stages) msg w =
      let (r, w') = x ctx msg w in
      elim r [
        | ok msg' ↦ pipeline stages msg' w'
        | throw e ↦ (throw (to_serde_error e), w')
        | undefined ↦ (undefined, w')
      ]

  -- Each stage is the executor of the rule at its place.
  abbrev pub ArePlain :
      (Rule → ℕ → RuleContext) → ℕ → List Rule → List (RuleContext × Executor W M) → Type 0
  ArePlain ctx index [] [] = Unit
  ArePlain ctx index (rule ∷ rules) ((c, x) ∷ stages) =
      (c ≡ ctx rule index) × IsPlain (ctx rule index) x × ArePlain ctx (index + 1) rules stages
  ArePlain ctx index _ _ = ⊥

  -- On plain transforms the loop is the pipeline of their executors: it runs them in the order of
  -- the rules, each on the message that the one before returned, and stops at the first exception.
  pub run_rules-pipeline :
      (ctx : Rule → ℕ → RuleContext) (index : ℕ) (rules : List Rule)
      (stages : List (RuleContext × Executor W M)) (msg : M) (w : W)
      → ArePlain ctx index rules stages
      → run_rules serde ctx index rules msg w ≡ pipeline stages msg w
  unfolding run_rules pipeline
  run_rules-pipeline ctx index [] [] msg w p = refl
  run_rules-pipeline ctx index [] (s ∷ stages) msg w p = absurd p
  run_rules-pipeline ctx index (rule ∷ rules) [] msg w p = absurd p
  run_rules-pipeline ctx index (rule ∷ rules) ((c, x) ∷ stages) msg w (e, plain, p) =
      by_result (x (ctx rule index) msg w).0 refl
        (λ m. run_rules-pipeline ctx (index + 1) rules stages m (x (ctx rule index) msg w).1 p)
    where
      w' : W
      w' = (x (ctx rule index) msg w).1

      by_result :
          (o : Outcome M)
          → (x (ctx rule index) msg w).0 ≡ o
          → ((m : M) → run_rules serde ctx (index + 1) rules m w' ≡ pipeline stages m w')
          → run_rules serde ctx index (rule ∷ rules) msg w ≡ pipeline ((c, x) ∷ stages) msg w
      by_result (ok m) r ih = ground (arith, e, run_rule-plain (ctx rule index) x msg w plain, ih m)
      by_result (throw y) r ih = ground (arith, e, run_rule-plain (ctx rule index) x msg w plain)
      by_result undefined r ih = ground (arith, e, run_rule-plain (ctx rule index) x msg w plain)

  -- A rule that the loop passes over.
  abbrev pub IsSkipped : RuleContext → Type 0
  IsSkipped ctx =
      (is_disabled serde ctx.enabled_env ctx.rule ≡ true)
      ⊎ (applies (or_else write ctx.rule.mode) ctx.rule_mode ≡ false)

  abbrev pub AreSkipped : (Rule → ℕ → RuleContext) → ℕ → List Rule → Type 0
  AreSkipped ctx index [] = Unit
  AreSkipped ctx index (rule ∷ rules) =
      IsSkipped (ctx rule index) × AreSkipped ctx (index + 1) rules

  run_rule-skipped :
      (ctx : RuleContext) (msg : M) (w : W)
      → IsSkipped ctx
      → run_rule serde ctx msg w ≡ (ok (next msg), w)
  unfolding run_rule
  run_rule-skipped ctx msg w h = ground arith

  -- Rules that are disabled, or not meant for the mode of the call, have no effect in front of
  -- others: no executor and no action of theirs runs.
  pub run_rules-skipped :
      (ctx : Rule → ℕ → RuleContext) (index : ℕ) (skipped rules : List Rule) (msg : M) (w : W)
      → AreSkipped ctx index skipped
      → run_rules serde ctx index (skipped ++ rules) msg w
        ≡ run_rules serde ctx (index + length skipped) rules msg w
  unfolding run_rules
  run_rules-skipped ctx index [] rules msg w h = rw add-zero
  run_rules-skipped ctx index (rule ∷ skipped) rules msg w (here, rest) = ground (
    arith,
    run_rule-skipped (ctx rule index) msg w here,
    run_rules-skipped ctx (index + 1) skipped rules msg w rest,
  )
