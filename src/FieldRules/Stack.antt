-- ===== src/FieldRules/Stack.antt =====
-- The stack of fields and the parameters of `RuleContext` (src/serdes/Serde.cpp).
use libschemaregistry.FieldRules.{
  FieldType, FieldContext, FieldState, enter_field, exit_field, tail_of, current_field, add_tag,
  add_tags, get_tags, get_inline_tags, own_tags, matching_tags,
}
use libschemaregistry.Model.{Metadata, Schema}
use libschemaregistry.Prelude.Dict.{Dict}
use libschemaregistry.Prelude.{
  Bool, false, List, [], ◌∷◌, ◌++◌, some, Text, ◌≡◌, refl, arith, if◌then◌else◌, ◌||◌, ◌&&◌,
}
use libschemaregistry.Rules.{RuleContext, has_tag}

has-append : (t : Text) (l k : List Text) → has_tag t (l ++ k) ≡ (has_tag t l || has_tag t k)
unfolding has_tag
has-append t [] k = refl
has-append t (u ∷ l) k = ground (arith, has-append t l k)

has-add_tag :
    (t u : Text) (l : List Text) → has_tag t (add_tag u l) ≡ (has_tag t (u ∷ []) || has_tag t l)
unfolding add_tag has_tag
has-add_tag t u l = ground (arith, has-append t l (u ∷ []))

has-add_tags :
    (t : Text) (us l : List Text) → has_tag t (add_tags us l) ≡ (has_tag t us || has_tag t l)
unfolding add_tags has_tag
has-add_tags t [] l = refl
has-add_tags t (u ∷ us) l = ground (arith, has-add_tags t us (add_tag u l), has-add_tag t u l)

-- Is the tag a pattern that matches the name?
abbrev pub is_matching : (Text → Text → Bool) → Text → Text → Dict Text (List Text) → Bool
is_matching match full_name t [] = false
is_matching match full_name t ((pattern, tags) ∷ m) =
    match full_name pattern && has_tag t (pattern ∷ []) || is_matching match full_name t m

has-matching_tags :
    (match : Text → Text → Bool) (full_name t : Text) (m : Dict Text (List Text)) (l : List Text)
    → has_tag t (matching_tags match full_name m l)
      ≡ (is_matching match full_name t m || has_tag t l)
unfolding matching_tags
has-matching_tags match full_name t [] l = refl
has-matching_tags match full_name t ((pattern, tags) ∷ m) l = ground (
  arith,
  has-matching_tags match full_name t m (if match full_name pattern then add_tag pattern l else l),
  has-add_tag t pattern l,
)

-- The tags that `getTags` gives for a field are the patterns of the target schema's metadata that
-- match its full name; the tags that belong to the patterns have no part in it.
pub has-get_tags :
    (match : Text → Text → Bool) (full_name t : Text) (ctx : RuleContext) (schema : Schema)
    (metadata : Metadata) (m : Dict Text (List Text))
    → ctx.target ≡ some schema
    → schema.metadata ≡ some metadata
    → metadata.tags ≡ some m
    → has_tag t (get_tags match full_name ctx) ≡ is_matching match full_name t m
unfolding get_tags has_tag
has-get_tags match full_name t ctx schema metadata m target meta tags =
    ground (arith, has-matching_tags match full_name t m [])

-- Entering a field makes it the current one, with its name and its type, and with exactly these
-- tags: those that `getTags` gives for it, and its own, or the inline ones where it has none of its
-- own. Leaving it gives back the fields from before.
pub enter_field-current_field :
    {M : Type 0} (match : Text → Text → Bool) (message : M) (full_name name : Text)
    (type : FieldType) (tags : List Text) (ctx : RuleContext) (st : FieldState M)
    → let st' = enter_field match message full_name name type tags ctx st in
      (exit_field st' ≡ st)
      × (field : FieldContext M) × (current_field st' ≡ some field)
      × (field.full_name ≡ full_name)
      × (field.name ≡ name)
      × (field.field_type ≡ type)
      × ((t : Text)
          → has_tag t field.tags ≡ (
              has_tag t (get_tags match full_name ctx)
              || has_tag t (own_tags tags (get_inline_tags full_name st))))
unfolding enter_field exit_field current_field tail_of
enter_field-current_field match message full_name name type tags ctx st = (
  refl,
  _,
  refl,
  refl,
  refl,
  refl,
  λ t. has-add_tags t (get_tags match full_name ctx) (own_tags tags (get_inline_tags full_name st)),
)
