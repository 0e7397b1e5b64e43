-- ===== src/Mock/Rows.antt =====
-- Rows of schemas whose versions increase, as the mock registry keeps them for each subject
-- (src/rest/MockSchemaRegistryClient.cpp).
use libschemaregistry.Mock.{next_version}
use libschemaregistry.Mock.Store.{
  next_int, generation, max_element, latest_of, remove_text, same_text,
}
use libschemaregistry.Model.{RegisteredSchema}
use libschemaregistry.Outcome.{ok}
use libschemaregistry.Prelude.{
  ℕ, suc, ◌<◌, ◌≤◌, List, [], ◌∷◌, ◌++◌, Option, some, Text, ltb, ◌≡◌, refl, arith, Bool-cases, inl,
  inr,
}

-- The versions of a subject increase, and are above the one and below the other bound.
abbrev pub Ascending : ℕ → ℕ → List RegisteredSchema → Type 0
Ascending b n [] = Unit
Ascending b n (rs ∷ l) = (b < generation rs) × (generation rs < n) × Ascending (generation rs) n l

pub Ascending-widen :
    (b b' n n' : ℕ) (l : List RegisteredSchema)
    → b' ≤ b
    → n ≤ n'
    → Ascending b n l
    → Ascending b' n' l
Ascending-widen b b' n n' [] lower upper h = tt
Ascending-widen b b' n n' (rs ∷ l) lower upper (above, below, h) = (
  omega arith,
  omega arith,
  Ascending-widen (generation rs) (generation rs) n n' l (omega arith) upper h,
)

pub Ascending-append :
    (b n n' : ℕ) (l : List RegisteredSchema) (rs : RegisteredSchema)
    → Ascending b n l
    → b < generation rs
    → n ≤ generation rs
    → generation rs < n'
    → Ascending b n' (l ++ (rs ∷ []))
Ascending-append b n n' [] rs h above larger below = (above, below, tt)
Ascending-append b n n' (r ∷ l) rs (lower, upper, h) above larger below =
    (lower, omega arith, Ascending-append (generation r) n n' l rs h (omega arith) larger below)

pub Ascending-remove_text :
    (b n : ℕ) (t : Option Text) (l : List RegisteredSchema)
    → Ascending b n l
    → Ascending b n (remove_text t l)
unfolding remove_text
Ascending-remove_text b n t [] h = tt
Ascending-remove_text b n t (rs ∷ l) (lower, upper, h) =
    let rest = Ascending-remove_text (generation rs) n t l h in
    elim (Bool-cases (same_text rs.schema t)) [
      | inl e ↦
          rw (e, same_text)
            (Ascending-widen (generation rs) b n n (remove_text t l) (omega arith) (omega arith)
              rest)
      | inr e ↦ rw (e, same_text) ((lower, upper, rest))
    ]

-- The largest version of an increasing row is the last, and bounds it.
pub Ascending-max_element :
    (b n : ℕ) (best : RegisteredSchema) (l : List RegisteredSchema)
    → b < generation best
    → generation best < n
    → Ascending (generation best) n l
    → (b < generation (max_element best l))
      × (generation (max_element best l) < n)
      × Ascending b (suc (generation (max_element best l))) (best ∷ l)
unfolding max_element
Ascending-max_element b n best [] above below h = (above, below, (above, omega arith, tt))
Ascending-max_element b n best (rs ∷ l) above below (lower, upper, h) =
    let (least, most, rest) = Ascending-max_element (generation best) n rs l lower upper h in
    elim (Bool-cases (ltb (generation best) (generation rs))) [
      | inl larger ↦ rw larger ((omega arith, most, (above, omega arith, rest)))
      | inr smaller ↦ absurd (ground arith)
    ]

-- What the latest version of a subject says of all its versions.
pub latest-bounds :
    (n : ℕ) (l : List RegisteredSchema) (rs : RegisteredSchema)
    → Ascending 0 n l
    → latest_of l ≡ some rs
    → (0 < generation rs) × (generation rs < n) × Ascending 0 (suc (generation rs)) l
unfolding latest_of
latest-bounds n [] rs h eq = absurd (cc eq)
latest-bounds n (r ∷ l) rs (above, below, h) eq =
    rw (← option_inj eq) (Ascending-max_element 0 n r l above below h)
  where
    option_inj : {a b : RegisteredSchema} → some a ≡ some b → a ≡ b
    option_inj p = cc p

pub next_int-ok : (n m : ℕ) → next_int n ≡ ok m → (m ≡ suc n) × (n < 2147483647)
unfolding next_int
next_int-ok n m h = ground arith

-- The version that `registerSchema` gives next is above all the versions of the subject.
pub next_version-above :
    (n v : ℕ) (l : List RegisteredSchema)
    → 0 < n
    → Ascending 0 n l
    → next_version (latest_of l) ≡ ok v
    → (0 < v) × (v ≤ n) × Ascending 0 v l
unfolding next_version latest_of
next_version-above n v [] pos h eq = ground arith
next_version-above n v (r ∷ l) pos h eq =
    let (above, below, bound) = latest-bounds n (r ∷ l) (max_element r l) h refl in
    let (next, _) = next_int-ok (generation (max_element r l)) v eq in
    rw next ((omega arith, omega arith, bound))
