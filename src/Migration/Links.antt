-- ===== src/Migration/Links.antt =====
-- The migrations that `getMigrations` (src/serdes/Serde.cpp) returns: which versions they link.
use libschemaregistry.Client.{Client, IsLawful}
use libschemaregistry.Exec.{pure, bind-eq-ok, pure-inj}
use libschemaregistry.Migration.{
  Migration, has_rules, step, steps, all_steps, get_schemas_between, get_migrations,
}
use libschemaregistry.Mock.Store.{generation}
use libschemaregistry.Model.{
  Mode, Schema, RegisteredSchema, migration, upgrade, downgrade, mode_dec,
}
use libschemaregistry.Outcome.{ok}
use libschemaregistry.Prelude.{
  ℕ, zero, suc, ◌+◌, ◌-◌, ◌<◌, ◌≤◌, Bool, true, false, List, [], ◌∷◌, ◌++◌, map, reverse, Option,
  none, some, Text, lt→ltb, le→ltb, ◌≡◌, refl, sym, ap, ◌∙◌, subst, arith, Bool-cases, inl, inr,
}
use libschemaregistry.Migration.Versions.{range, get_schemas_between-versions}
use mathlib.Core.List.{reverse-cons}

abbrev pub version_of : Option RegisteredSchema → ℕ
version_of none = 0
version_of (some rs) = generation rs

-- Does the schema have rules to migrate in this mode?
abbrev pub carries : Option RegisteredSchema → Mode → Bool
carries none mode = false
carries (some rs) mode = has_rules rs.rule_set migration mode

-- Migrations up from one version to another: each goes from a version to the next one, which has
-- rules for it, and none begins below where the one before it ends.
abbrev pub Upgrades : ℕ → ℕ → List Migration → Type 0
Upgrades a b [] = a ≤ b
Upgrades a b (m ∷ ms) =
    (m.rule_mode ≡ upgrade)
    × (carries m.target upgrade ≡ true)
    × (a ≤ version_of m.source)
    × (version_of m.target ≡ suc (version_of m.source))
    × Upgrades (version_of m.target) b ms

-- The same downwards: the version that a migration comes from has the rules for it.
abbrev pub Downgrades : ℕ → ℕ → List Migration → Type 0
Downgrades b a [] = a ≤ b
Downgrades b a (m ∷ ms) =
    (m.rule_mode ≡ downgrade)
    × (carries m.source downgrade ≡ true)
    × (version_of m.source ≤ b)
    × (version_of m.source ≡ suc (version_of m.target))
    × Downgrades (version_of m.target) a ms

Upgrades-from : (a a' b : ℕ) (ms : List Migration) → a ≤ a' → Upgrades a' b ms → Upgrades a b ms
Upgrades-from a a' b [] le h = omega arith
Upgrades-from a a' b (m ∷ ms) le (mode, rules, from, link, rest) =
    (mode, rules, omega arith, link, rest)

Downgrades-append :
    (b c a : ℕ) (ms : List Migration) (m : Migration)
    → Downgrades b c ms
    → Downgrades c a (m ∷ [])
    → Downgrades b a (ms ++ (m ∷ []))
Downgrades-append b c a [] m le (mode, rules, from, link, to) = (mode, rules, omega arith, link, to)
Downgrades-append b c a (n ∷ ms) m (mode, rules, from, link, rest) h =
    (mode, rules, from, link, Downgrades-append (version_of n.target) c a ms m rest h)

Downgrades-to : (b c a : ℕ) (ms : List Migration) → a ≤ c → Downgrades b c ms → Downgrades b a ms
Downgrades-to b c a [] le h = omega arith
Downgrades-to b c a (m ∷ ms) le (mode, rules, from, link, rest) =
    (mode, rules, from, link, Downgrades-to (version_of m.target) c a ms le rest)

steps-Upgrades :
    (previous : RegisteredSchema) (versions : List RegisteredSchema) (n : ℕ)
    → map generation versions ≡ range (suc (generation previous)) n
    → Upgrades (generation previous) (generation previous + n) (steps upgrade previous versions)
unfolding steps step mode_dec
steps-Upgrades previous [] zero h = omega arith
steps-Upgrades previous [] (suc n) h = absurd (cc h)
steps-Upgrades previous (v ∷ vs) zero h = absurd (cc h)
steps-Upgrades previous (v ∷ vs) (suc n) h =
    let next : generation v ≡ suc (generation previous) = cc h in
    let tail : map generation vs ≡ range (suc (suc (generation previous))) n = cc h in
    let rest = steps-Upgrades v vs n (tail ∙ ap (λ k. range (suc k) n) (sym next)) in
    let end : generation v + n ≡ generation previous + suc n = omega arith in
    let to_end = subst (λ k. Upgrades (generation v) k (steps upgrade v vs)) end rest in
    elim (Bool-cases (has_rules v.rule_set migration upgrade)) [
      | inl e ↦ rw (e, steps) ((refl, e, omega arith, next, to_end))
      | inr e ↦
          rw (e, steps)
            (Upgrades-from (generation previous) (generation v) (generation previous + suc n)
              (steps upgrade v vs) (omega arith) to_end)
    ]

steps-Downgrades :
    (previous : RegisteredSchema) (versions : List RegisteredSchema) (n : ℕ)
    → map generation versions ≡ range (suc (generation previous)) n
    → Downgrades
        (generation previous + n)
        (generation previous)
        (reverse (steps downgrade previous versions))
unfolding steps step mode_dec
steps-Downgrades previous [] zero h = omega arith
steps-Downgrades previous [] (suc n) h = absurd (cc h)
steps-Downgrades previous (v ∷ vs) zero h = absurd (cc h)
steps-Downgrades previous (v ∷ vs) (suc n) h =
    let next : generation v ≡ suc (generation previous) = cc h in
    let tail : map generation vs ≡ range (suc (suc (generation previous))) n = cc h in
    let rest = steps-Downgrades v vs n (tail ∙ ap (λ k. range (suc k) n) (sym next)) in
    let start : generation v + n ≡ generation previous + suc n = omega arith in
    let before =
      subst (λ k. Downgrades k (generation v) (reverse (steps downgrade v vs))) start rest in
    elim (Bool-cases (has_rules v.rule_set migration downgrade)) [
      | inl e ↦
          rw (e, steps, reverse-cons)
            (Downgrades-append (generation previous + suc n) (generation v) (generation previous)
              (reverse (steps downgrade v vs)) (step downgrade previous v) before
              ((refl, e, omega arith, next, omega arith)))
      | inr e ↦
          rw (e, steps)
            (Downgrades-to (generation previous + suc n) (generation v) (generation previous)
              (reverse (steps downgrade v vs)) (omega arith) before)
    ]

module _ {W : Type 0} (client : Client W) (lawful : IsLawful client) where
  all_steps-Upgrades :
      (versions : List RegisteredSchema) (a n : ℕ)
      → map generation versions ≡ range a (suc n)
      → Upgrades a (a + n) (all_steps upgrade versions)
  unfolding all_steps
  all_steps-Upgrades [] a n h = absurd (cc h)
  all_steps-Upgrades (v ∷ vs) a n h =
      let here : generation v ≡ a = cc h in
      let tail : map generation vs ≡ range (suc a) n = cc h in
      subst (λ k. Upgrades k (k + n) (steps upgrade v vs)) here
        (steps-Upgrades v vs n (tail ∙ ap (λ k. range (suc k) n) (sym here)))

  all_steps-Downgrades :
      (versions : List RegisteredSchema) (a n : ℕ)
      → map generation versions ≡ range a (suc n)
      → Downgrades (a + n) a (reverse (all_steps downgrade versions))
  unfolding all_steps
  all_steps-Downgrades [] a n h = absurd (cc h)
  all_steps-Downgrades (v ∷ vs) a n h =
      let here : generation v ≡ a = cc h in
      let tail : map generation vs ≡ range (suc a) n = cc h in
      subst (λ k. Downgrades (k + n) k (reverse (steps downgrade v vs))) here
        (steps-Downgrades v vs n (tail ∙ ap (λ k. range (suc k) n) (sym here)))

  -- With a registry that returns the versions asked for: from an older version to a newer one
  -- `getMigrations`, where it returns, gives upgrades, each from a version to the next one and by
  -- that one's rules, in increasing order between the two.
  pub get_migrations-Upgrades :
      (subject : Text) (source_info : Schema) (source target : RegisteredSchema)
      (format : Option Text) (w w1 w' : W) (ms : List Migration)
      → client.get_by_schema subject source_info false true w ≡ (ok source, w1)
      → generation source < generation target
      → get_migrations client subject source_info target format w ≡ (ok ms, w')
      → Upgrades (generation source) (generation target) ms
  unfolding get_migrations
  get_migrations-Upgrades subject source_info source target format w w1 w' ms found lt h =
      let h1 = rw (found, lt→ltb (generation source) (generation target) lt) at h in
      let (versions, w2, between, h2) =
        bind-eq-ok (get_schemas_between client subject source target format)
          (λ versions. pure (all_steps upgrade versions)) w1 h1 in
      let n = generation target - generation source in
      let range_of =
        get_schemas_between-versions client lawful subject source target format w1 w2 versions lt
          between in
      let links = all_steps-Upgrades versions (generation source) n range_of in
      let end : generation source + n ≡ generation target = omega arith in
      rw (pure-inj h2)
        (subst (λ k. Upgrades (generation source) k (all_steps upgrade versions)) end links)

  -- With a registry that returns the versions asked for: from a newer version to an older one
  -- `getMigrations`, where it returns, gives downgrades, each from a version to the one before and
  -- by the rules of the version it comes from, in decreasing order between the two.
  pub get_migrations-Downgrades :
      (subject : Text) (source_info : Schema) (source target : RegisteredSchema)
      (format : Option Text) (w w1 w' : W) (ms : List Migration)
      → client.get_by_schema subject source_info false true w ≡ (ok source, w1)
      → generation target < generation source
      → get_migrations client subject source_info target format w ≡ (ok ms, w')
      → Downgrades (generation source) (generation target) ms
  unfolding get_migrations
  get_migrations-Downgrades subject source_info source target format w w1 w' ms found lt h =
      let not_up = le→ltb (generation source) (generation target) (omega arith) in
      let h1 = rw (found, not_up, lt→ltb (generation target) (generation source) lt) at h in
      let (versions, w2, between, h2) =
        bind-eq-ok (get_schemas_between client subject target source format)
          (λ versions. pure (reverse (all_steps downgrade versions))) w1 h1 in
      let n = generation source - generation target in
      let range_of =
        get_schemas_between-versions client lawful subject target source format w1 w2 versions lt
          between in
      let links = all_steps-Downgrades versions (generation target) n range_of in
      let start : generation target + n ≡ generation source = omega arith in
      rw (pure-inj h2) (
        subst (λ k. Downgrades k (generation target) (reverse (all_steps downgrade versions))) start
          links)
