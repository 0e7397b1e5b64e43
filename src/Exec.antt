-- ===== src/Exec.antt =====
-- Code that acts on a world (the network, the clock, what the registered actions write to) and may
-- throw. What was done before an exception stays done, so the world comes back beside it too.
use libschemaregistry.Outcome.{Exception, Outcome, ok, throw, undefined}
use libschemaregistry.Prelude.{◌≡◌, refl, ap, ◌∙◌}

abbrev pub Exec {ℓ} : Type ℓ → Type ℓ → Type ℓ
Exec W A = W → Outcome A × W

module _ {ℓ} {W A : Type ℓ} where
  abbrev pub pure : A → Exec W A
  pure a w = (ok a, w)

  abbrev pub raise : Exception → Exec W A
  raise e w = (throw e, w)

  -- `try { m } catch (...) { handler }`
  abbrev pub catch : Exec W A → (Exception → Exec W A) → Exec W A
  catch m handler w =
      let (r, w') = m w in
      elim r [ ok a ↦ (ok a, w') | throw e ↦ handler e w' | undefined ↦ (undefined, w') ]

module _ {ℓ} {W A B : Type ℓ} where
  infixl 5 ◌>>=◌ ◌>>◌
  abbrev pub bind_outcome : Outcome A → (A → Exec W B) → Exec W B
  bind_outcome (ok a) f w = f a w
  bind_outcome (throw e) f w = (throw e, w)
  bind_outcome undefined f w = (undefined, w)

  abbrev pub ◌>>=◌ : Exec W A → (A → Exec W B) → Exec W B
  ◌>>=◌ m f w = bind_outcome (m w).0 f (m w).1

  abbrev pub ◌>>◌ : Exec W A → Exec W B → Exec W B
  m >> n = m >>= λ _. n

module _ {ℓ} {W A B : Type ℓ} where
  bind_outcome-eq-ok :
      (r : Outcome A) (f : A → Exec W B) (w1 : W) {b : B} {w' : W}
      → ◌≡◌ {A = Outcome B × W} (bind_outcome r f w1) (ok b, w')
      → (a : A) × (r ≡ ok a) × ◌≡◌ {A = Outcome B × W} (f a w1) (ok b, w')
  bind_outcome-eq-ok (ok a) f w1 h = (a, refl, h)
  bind_outcome-eq-ok (throw e) f w1 h = cc h
  bind_outcome-eq-ok undefined f w1 h = cc h

  -- Inversion of a bind that returns.
  pub bind-eq-ok :
      (m : Exec W A) (f : A → Exec W B) (w : W) {b : B} {w' : W}
      → ◌≡◌ {A = Outcome B × W} ((m >>= f) w) (ok b, w')
      → (a : A) × (w1 : W) × ◌≡◌ {A = Outcome A × W} (m w) (ok a, w1)
        × ◌≡◌ {A = Outcome B × W} (f a w1) (ok b, w')
  bind-eq-ok m f w h =
      let (a, e, rest) = bind_outcome-eq-ok (m w).0 f (m w).1 h in
      (a, (m w).1, ap (λ r. (r, (m w).1)) e, rest)

pub pure-inj {ℓ} :
    {W A : Type ℓ} {a b : A} {w w' : W} → ◌≡◌ {A = Outcome A × W} (ok a, w) (ok b, w') → b ≡ a
pure-inj p = cc p

-- A bind depends on what its two sides do.
pub bind-cong {ℓ} :
    {W A B : Type ℓ} (m n : Exec W A) (f g : A → Exec W B) (w : W)
    → ◌≡◌ {A = Outcome A × W} (m w) (n w)
    → ((a : A) (w : W) → ◌≡◌ {A = Outcome B × W} (f a w) (g a w))
    → ◌≡◌ {A = Outcome B × W} ((m >>= f) w) ((n >>= g) w)
bind-cong {W = W} {A = A} {B = B} m n f g w same next =
    ap (λ p. bind_outcome p.0 f p.1) same ∙ each (n w)
  where
    each :
        (p : Outcome A × W)
        → ◌≡◌ {A = Outcome B × W} (bind_outcome p.0 f p.1) (bind_outcome p.0 g p.1)
    each (ok a, w) = next a w
    each (throw e, w) = refl
    each (undefined, w) = refl
