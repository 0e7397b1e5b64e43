-- ===== src/Mock/Search.antt =====
-- What the searches of the mock registry's store (src/rest/MockSchemaRegistryClient.cpp) find in a
-- row whose versions increase, in a row with a schema added at its end, and in one with schemas
-- removed.
use libschemaregistry.Mock.Store.{
  generation, text_or_empty, find_version, find_text, max_element, latest_of, remove_text,
  same_text,
}
use libschemaregistry.Mock.Rows.{Ascending, Ascending-remove_text}
use libschemaregistry.Model.{RegisteredSchema}
use libschemaregistry.Prelude.{
  ℕ, ◌<◌, ◌≤◌, true, List, [], ◌∷◌, ◌++◌, Option, none, some, Text, lt→ltb, ◌≡◌, refl, ap, arith,
}

pub find_text-append :
    (t : Text) (l : List RegisteredSchema) (rs : RegisteredSchema)
    → find_text t l ≡ none
    → text_or_empty rs.schema ≡ t
    → find_text t (l ++ (rs ∷ [])) ≡ some rs
unfolding find_text
find_text-append t [] rs new is = ground (arith, is)
find_text-append t (r ∷ l) rs new is = ground (arith, find_text-append t l rs)

-- A schema found in an increasing row has a version above the bound, and is found by it.
pub find_text-version :
    (b n : ℕ) (t : Text) (l : List RegisteredSchema) (rs : RegisteredSchema)
    → Ascending b n l
    → find_text t l ≡ some rs
    → (b < generation rs) × (find_version (generation rs) l ≡ some rs)
unfolding find_text find_version
find_text-version b n t [] rs h eq = absurd (cc eq)
find_text-version b n t (r ∷ l) rs (lower, upper, h) eq =
    let rest = find_text-version (generation r) n t l rs h in
    (ground (arith, rest), ground (arith, rest))

pub find_version-append :
    (b v : ℕ) (l : List RegisteredSchema) (rs : RegisteredSchema)
    → Ascending b v l
    → generation rs ≡ v
    → find_version v (l ++ (rs ∷ [])) ≡ some rs
unfolding find_version
find_version-append b v [] rs h is = ground (arith, is)
find_version-append b v (r ∷ l) rs (lower, upper, h) is =
    ground (arith, find_version-append (generation r) v l rs h is)

pub find_version-above :
    (b n v : ℕ) (l : List RegisteredSchema) → Ascending b n l → v ≤ b → find_version v l ≡ none
unfolding find_version
find_version-above b n v [] h le = refl
find_version-above b n v (r ∷ l) (lower, upper, h) le =
    ground (arith, find_version-above (generation r) n v l h (omega arith))

same_text_refl : (t : Option Text) → same_text t t ≡ true
unfolding same_text
same_text_refl none = refl
same_text_refl (some t) = ground arith

-- A version found in an increasing row is gone once its schema is removed from the row.
pub find_version-remove_text :
    (b n v : ℕ) (l : List RegisteredSchema) (rs : RegisteredSchema)
    → Ascending b n l
    → find_version v l ≡ some rs
    → (generation rs ≡ v) × (find_version v (remove_text rs.schema l) ≡ none)
unfolding find_version remove_text
find_version-remove_text b n v [] rs h eq = absurd (cc eq)
find_version-remove_text b n v (r ∷ l) rs (lower, upper, h) eq =
    let rest = find_version-remove_text (generation r) n v l rs h in
    let kept = Ascending-remove_text (generation r) n rs.schema l h in
    let gone = find_version-above (generation r) n v (remove_text rs.schema l) kept in
    (ground (arith, rest), ground (arith, rest, gone, same_text_refl rs.schema))

-- The latest of a row with a schema of a larger version added is that schema.
max_element-append :
    (b v : ℕ) (best : RegisteredSchema) (l : List RegisteredSchema) (rs : RegisteredSchema)
    → Ascending b v (best ∷ l)
    → generation rs ≡ v
    → max_element best (l ++ (rs ∷ [])) ≡ rs
unfolding max_element
max_element-append b v best [] rs (lower, upper, h) is = ground arith
max_element-append b v best (r ∷ l) rs (lower, upper, (lower', upper', h)) is =
    rw (lt→ltb (generation best) (generation r) lower', max_element)
      (max_element-append (generation best) v r l rs (lower', upper', h) is)

pub latest_of-append :
    (b v : ℕ) (l : List RegisteredSchema) (rs : RegisteredSchema)
    → Ascending b v l
    → generation rs ≡ v
    → latest_of (l ++ (rs ∷ [])) ≡ some rs
unfolding latest_of max_element
latest_of-append b v [] rs h is = refl
latest_of-append b v (r ∷ l) rs h is = ap some (max_element-append b v r l rs h is)
