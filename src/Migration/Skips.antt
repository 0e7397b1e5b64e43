-- ===== src/Migration/Skips.antt =====
-- Why `getMigrations` may leave a version without rules for the mode out (src/serdes/Serde.cpp).
use libschemaregistry.Engine.{Serde, run_rules, execute_rules_with_phase}
use libschemaregistry.Engine.Pipeline.{AreSkipped, run_rules-skipped}
use libschemaregistry.Migration.{rules_of_phase, matches_mode, any_rule, has_rules}
use libschemaregistry.Model.{
  Mode, Rule, RuleSet, Schema, RegisteredSchema, migration, upgrade, downgrade, up_down, write,
  read, write_read, mode_dec, to_schema,
}
use libschemaregistry.Outcome.{ok}
use libschemaregistry.Prelude.{
  ℕ, ◌+◌, Bool, true, false, List, [], ◌∷◌, ◌++◌, All, reverse, Option, none, some, Text,
  if◌then◌else◌, ◌≡◌, refl, sym, ap, ◌∙◌, inr,
}
use libschemaregistry.Rules.{
  RuleContext, applies, or_else, select_rules, rules_in, get_migration_rules,
}
use mathlib.Core.List.{reverse-cons, append-nil}

abbrev pub IsFor : Mode → Rule → Type 0
IsFor mode rule = applies (or_else write rule.mode) mode ≡ false

not_up :
    (mode : Option Mode) (rest : Bool)
    → elim mode [ none ↦ rest | some m ↦ if matches_mode upgrade m then true else rest ] ≡ false
    → (applies (or_else write mode) upgrade ≡ false) × (rest ≡ false)
unfolding matches_mode applies mode_dec
not_up none rest h = (refl, h)
not_up (some upgrade) rest h = absurd (cc h)
not_up (some downgrade) rest h = (refl, h)
not_up (some up_down) rest h = absurd (cc h)
not_up (some write) rest h = (refl, h)
not_up (some read) rest h = (refl, h)
not_up (some write_read) rest h = (refl, h)

any_rule-none_up : (rules : List Rule) → any_rule upgrade rules ≡ false → All (IsFor upgrade) rules
unfolding any_rule
any_rule-none_up [] h = tt
any_rule-none_up (rule ∷ rules) h =
    let (here, rest) = not_up rule.mode (any_rule upgrade rules) h in
    (here, any_rule-none_up rules rest)

not_down :
    (mode : Option Mode) (rest : Bool)
    → elim mode [ none ↦ rest | some m ↦ if matches_mode downgrade m then true else rest ] ≡ false
    → (applies (or_else write mode) downgrade ≡ false) × (rest ≡ false)
unfolding matches_mode applies mode_dec
not_down none rest h = (refl, h)
not_down (some upgrade) rest h = (refl, h)
not_down (some downgrade) rest h = absurd (cc h)
not_down (some up_down) rest h = absurd (cc h)
not_down (some write) rest h = (refl, h)
not_down (some read) rest h = (refl, h)
not_down (some write_read) rest h = (refl, h)

any_rule-none_down :
    (rules : List Rule) → any_rule downgrade rules ≡ false → All (IsFor downgrade) rules
unfolding any_rule
any_rule-none_down [] h = tt
any_rule-none_down (rule ∷ rules) h =
    let (here, rest) = not_down rule.mode (any_rule downgrade rules) h in
    (here, any_rule-none_down rules rest)

All-append : (P : Rule → Type 0) (xs ys : List Rule) → All P xs → All P ys → All P (xs ++ ys)
All-append P [] ys p q = q
All-append P (x ∷ xs) ys (here, p) q = (here, All-append P xs ys p q)

All-reverse : (P : Rule → Type 0) (xs : List Rule) → All P xs → All P (reverse xs)
All-reverse P [] p = tt
All-reverse P (x ∷ xs) (here, p) =
    rw (reverse-cons) (All-append P (reverse xs) (x ∷ []) (All-reverse P xs p) (here, tt))

-- The rules of a rule set, where it has some.
field-none_up :
    (field : Option (List Rule))
    → elim field [ none ↦ false | some rules ↦ any_rule upgrade rules ] ≡ false
    → All (IsFor upgrade) (or_else [] field)
field-none_up none h = tt
field-none_up (some rules) h = any_rule-none_up rules h

rule_set-none_up :
    (rule_set : Option RuleSet)
    → has_rules rule_set migration upgrade ≡ false
    → All (IsFor upgrade) (elim rule_set [ none ↦ [] | some rs ↦ or_else [] rs.migration_rules ])
unfolding has_rules rules_of_phase
rule_set-none_up none h = tt
rule_set-none_up (some rule_set) h = field-none_up rule_set.migration_rules h

field-none_down :
    (field : Option (List Rule))
    → elim field [ none ↦ false | some rules ↦ any_rule downgrade rules ] ≡ false
    → All (IsFor downgrade) (or_else [] field)
field-none_down none h = tt
field-none_down (some rules) h = any_rule-none_down rules h

rule_set-none_down :
    (rule_set : Option RuleSet)
    → has_rules rule_set migration downgrade ≡ false
    → All (IsFor downgrade) (elim rule_set [ none ↦ [] | some rs ↦ or_else [] rs.migration_rules ])
unfolding has_rules rules_of_phase
rule_set-none_down none h = tt
rule_set-none_down (some rule_set) h = field-none_down rule_set.migration_rules h

module _ {W M : Type 0} (serde : Serde W M) where
  All-AreSkipped :
      (mode : Mode) (ctx : Rule → ℕ → RuleContext) (index : ℕ) (rules : List Rule)
      → ((rule : Rule) (i : ℕ) → ((ctx rule i).rule ≡ rule) × ((ctx rule i).rule_mode ≡ mode))
      → All (IsFor mode) rules
      → AreSkipped serde ctx index rules
  All-AreSkipped mode ctx index [] own p = tt
  All-AreSkipped mode ctx index (rule ∷ rules) own (here, p) =
      let (same, in_mode) = own rule index in
      (inr (rw (same, in_mode) here), All-AreSkipped mode ctx (index + 1) rules own p)

  run_rules-none :
      (mode : Mode) (ctx : Rule → ℕ → RuleContext) (rules : List Rule) (msg : M) (w : W)
      → ((rule : Rule) (i : ℕ) → ((ctx rule i).rule ≡ rule) × ((ctx rule i).rule_mode ≡ mode))
      → All (IsFor mode) rules
      → run_rules serde ctx 0 rules msg w ≡ (ok msg, w)
  unfolding run_rules
  run_rules-none mode ctx rules msg w own p =
      let skips = All-AreSkipped mode ctx 0 rules own p in
      ap (λ rs. run_rules serde ctx 0 rs msg w) (sym (append-nil rules))
      ∙ run_rules-skipped serde ctx 0 rules [] msg w skips

  -- An upgrade to a version without rules for upgrades, which `getMigrations` leaves out, would
  -- return the message as it is and run nothing.
  pub execute_rules_with_phase-no_upgrade :
      (subject : Text) (source : Option Schema) (target : RegisteredSchema) (msg : M) (w : W)
      → has_rules target.rule_set migration upgrade ≡ false
      → execute_rules_with_phase serde subject migration upgrade source
          (some (to_schema target))
          msg
          w
        ≡ (ok msg, w)
  unfolding execute_rules_with_phase select_rules get_migration_rules rules_in to_schema
  execute_rules_with_phase-no_upgrade subject source target msg w h =
      run_rules-none upgrade _ (get_migration_rules (some (to_schema target))) msg w
        (λ rule i. (refl, refl)) (rule_set-none_up target.rule_set h)

  -- A downgrade from a version without rules for downgrades, which `getMigrations` leaves out,
  -- would return the message as it is and run nothing.
  pub execute_rules_with_phase-no_downgrade :
      (subject : Text) (source : RegisteredSchema) (target : Option Schema) (msg : M) (w : W)
      → has_rules source.rule_set migration downgrade ≡ false
      → execute_rules_with_phase serde subject migration downgrade
          (some (to_schema source))
          target
          msg
          w
        ≡ (ok msg, w)
  unfolding execute_rules_with_phase select_rules get_migration_rules rules_in to_schema
  execute_rules_with_phase-no_downgrade subject source target msg w h =
      let rules = get_migration_rules (some (to_schema source)) in
      run_rules-none downgrade _ (reverse rules) msg w (λ rule i. (refl, refl))
        (All-reverse (IsFor downgrade) rules (rule_set-none_down source.rule_set h))
