-- ===== src/FieldRules.antt =====
-- Rules on fields: `FieldRuleExecutor::transform` (src/serdes/RuleRegistry.cpp), and the part of
-- `RuleContext` (src/serdes/Serde.cpp) that such rules read and change: parameters, tags and the
-- stack of fields. A set is the list of its members, each once.
pub mod Order
pub mod Stack
use libschemaregistry.Exec.{Exec, pure, raise, bind_outcome}
use libschemaregistry.Model.{
  Mode, Rule, Schema, Metadata, upgrade, downgrade, up_down, write, read, write_read,
}
use libschemaregistry.Outcome.{Outcome, ok, throw, undefined}
use libschemaregistry.Prelude.Dict.{Dict, lookup}
use libschemaregistry.Prelude.{
  ℕ, zero, suc, ◌+◌, Bool, true, false, List, [], ◌∷◌, ◌++◌, Option, none, some, Text, text_dec,
  if◌then◌else◌, drop,
}
use libschemaregistry.Rules.{RuleContext, are_transforms_with_same_tag, has_tag}

-- The loop over the earlier rules. An index beyond the rules is undefined.
unfoldable pub same_tag_before : Rule → ℕ → List Rule → Outcome Bool
same_tag_before rule zero rules = ok false
same_tag_before rule (suc n) [] = undefined
same_tag_before rule (suc n) (other ∷ rules) =
    let rest = same_tag_before rule n rules in
    if are_transforms_with_same_tag rule other then ok true else rest

-- The loop over the later rules.
unfoldable pub same_tag_in : Rule → List Rule → Bool
same_tag_in rule [] = false
same_tag_in rule (other ∷ rules) =
    let rest = same_tag_in rule rules in
    if are_transforms_with_same_tag rule other then true else rest

-- Does another rule with one of the tags take the place of this one?
unfoldable pub is_replaced : Mode → Rule → ℕ → List Rule → Outcome Bool
is_replaced write rule index rules = same_tag_before rule index rules
is_replaced upgrade rule index rules = same_tag_before rule index rules
is_replaced read rule index rules = ok (same_tag_in rule (drop (index + 1) rules))
is_replaced downgrade rule index rules = ok (same_tag_in rule (drop (index + 1) rules))
is_replaced write_read rule index rules = ok false
is_replaced up_down rule index rules = ok false

-- A `FieldTransformer`, which is given the type of the executor.
abbrev pub FieldTransformer : Type 0 → Type 0 → Type 0
FieldTransformer W M = RuleContext → Text → M → Exec W M

module _ {W M : Type 0} where
  abbrev apply_transformer : Option (FieldTransformer W M) → RuleContext → Text → M → Exec W M
  apply_transformer none ctx type msg = pure msg
  apply_transformer (some f) ctx type msg = f ctx type msg

  -- `FieldRuleExecutor::transform`; a message that is not transformed is cloned.
  unfoldable pub transform : Text → Option (FieldTransformer W M) → RuleContext → M → Exec W M
  transform type transformer ctx msg =
      bind_outcome (is_replaced ctx.rule_mode ctx.rule ctx.index ctx.rules)
        (λ replaced. if replaced then pure msg else apply_transformer transformer ctx type msg)

pub data FieldType : Type 0 where
  record_type enum_type array_type map_type combined_type fixed_type string_type bytes_type int_type
        long_type float_type double_type boolean_type null_type :
      FieldType

pub record FieldContext (M : Type 0) : Type 0 where
  pub containing_message : M
  pub full_name : Text
  pub name : Text
  pub field_type : FieldType
  pub tags : List Text

-- What a `RuleContext` holds beside what executors read of it.
pub record FieldState (M : Type 0) : Type 0 where
  pub inline_tags : Dict Text (List Text)
  -- the innermost field first
  pub field_contexts : List (FieldContext M)

abbrev properties_of : Option Metadata → Dict Text Text
properties_of none = []
properties_of (some m) = elim m.properties [ none ↦ [] | some p ↦ p ]

abbrev tags_of : Option Metadata → Dict Text (List Text)
tags_of none = []
tags_of (some m) = elim m.tags [ none ↦ [] | some t ↦ t ]

abbrev metadata_of : Option Schema → Option Metadata
metadata_of none = none
metadata_of (some s) = s.metadata

abbrev params_of : Rule → Dict Text Text
params_of rule = elim rule.params [ none ↦ [] | some p ↦ p ]

abbrev first_some : {A : Type 0} → Option A → Option A → Option A
first_some (some a) o = some a
first_some none o = o

-- `getParameter`: of the rule, or else of the target schema.
unfoldable pub get_parameter : Text → RuleContext → Option Text
get_parameter name ctx =
    first_some (lookup text_dec name (params_of ctx.rule))
      (lookup text_dec name (properties_of (metadata_of ctx.target)))

-- `insert` into a set.
unfoldable pub add_tag : Text → List Text → List Text
add_tag t ts = if has_tag t ts then ts else ts ++ (t ∷ [])

unfoldable pub add_tags : List Text → List Text → List Text
add_tags [] ts = ts
add_tags (u ∷ us) ts = add_tags us (add_tag u ts)

-- The loop of `getTags`: what is inserted is the pattern, not the tags that belong to it.
unfoldable pub matching_tags :
    (Text → Text → Bool) → Text → Dict Text (List Text) → List Text → List Text
matching_tags wildcard_match full_name [] result = result
matching_tags wildcard_match full_name ((pattern, tags) ∷ m) result =
    matching_tags wildcard_match full_name m
      (if wildcard_match full_name pattern then add_tag pattern result else result)

unfoldable pub get_inline_tags : {M : Type 0} → Text → FieldState M → Option (List Text)
get_inline_tags name st = lookup text_dec name st.inline_tags

-- The tags of the field itself, or else the inline ones.
unfoldable pub own_tags : List Text → Option (List Text) → List Text
own_tags (t ∷ ts) inline = t ∷ ts
own_tags [] none = []
own_tags [] (some ts) = ts

module _ (wildcard_match : Text → Text → Bool) where
  unfoldable pub get_tags : Text → RuleContext → List Text
  get_tags full_name ctx =
      matching_tags wildcard_match full_name (tags_of (metadata_of ctx.target)) []

  module _ {M : Type 0} where
    unfoldable pub enter_field :
        M → Text → Text → FieldType → List Text → RuleContext → FieldState M → FieldState M
    enter_field message full_name name type tags ctx st =
        let field : FieldContext M = record {
          containing_message = message;
          full_name = full_name;
          name = name;
          field_type = type;
          tags = add_tags (get_tags full_name ctx) (own_tags tags (get_inline_tags full_name st));
        } in
        record st { field_contexts = field ∷ st.field_contexts }

module _ {M : Type 0} where
  unfoldable pub current_field : FieldState M → Option (FieldContext M)
  current_field st = elim st.field_contexts [ [] ↦ none | f ∷ fs ↦ some f ]

  unfoldable pub tail_of : List (FieldContext M) → List (FieldContext M)
  tail_of [] = []
  tail_of (f ∷ fs) = fs

  unfoldable pub exit_field : FieldState M → FieldState M
  exit_field st = record st { field_contexts = tail_of st.field_contexts }
