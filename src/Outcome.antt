-- ===== src/Outcome.antt =====
-- What a C++ function does: it returns, throws, or has undefined behaviour. Exceptions are told
-- apart as the code's handlers tell them apart: `SerdeError` and its subclasses, `RestException`
-- with its status, and any other `std::exception`.
use libschemaregistry.Model.{Rule}
use libschemaregistry.Prelude.{ℕ, String, Text, ◌≡◌, refl}

pub data Exception : Type 0 where
  -- `SerdeError` with a fixed message
  serde_error : String → Exception
  -- `SerdeError("Rule executor " + type + " not found")`
  no_executor : Text → Exception
  -- `SerdeError("Rule action " + name + " not found")`
  no_action : Text → Exception
  -- `SerdeError("Unrecognized subject name strategy type: " + name)`
  no_strategy : Text → Exception
  -- `RuleConditionError(rule)`, a `SerdeError`
  rule_condition_error : Rule → Exception
  -- a plain `SerdeError` with the text of an exception of another type or of a subclass
  wrapped : Exception → Exception
  -- `SerializationError(message)`, a `SerdeError`
  serialization_error : Text → Exception
  -- `SerializationError(prefix + e.what())`
  while_serializing : String → Exception → Exception
  -- `SerdeError(message)` with a message that the code puts together
  message_error : Text → Exception
  -- `RestException(message, status)`
  rest_exception : Text → ℕ → Exception
  -- any other `std::exception`
  std_exception : Text → Exception

pub data Outcome {ℓ} (A : Type ℓ) : Type ℓ where
  ok : A → Outcome A
  throw : Exception → Outcome A
  undefined : Outcome A

infixl 5 ◌>>=◌
abbrev pub ◌>>=◌ {ℓ κ} : {A : Type ℓ} {B : Type κ} → Outcome A → (A → Outcome B) → Outcome B
ok a >>= f = f a
throw e >>= f = throw e
undefined >>= f = undefined

-- Inversion of a bind that returns.
pub >>=-eq-ok {ℓ κ} :
    {B : Type κ} {A : Type ℓ} {b : B} (m : Outcome A) (f : A → Outcome B)
    → (m >>= f) ≡ ok b
    → (a : A) × (m ≡ ok a) × (f a ≡ ok b)
>>=-eq-ok undefined f h = cc
>>=-eq-ok (throw e) f h = cc
>>=-eq-ok (ok a) f h = (a, refl, h)

pub ok-pair {ℓ} :
    {A B : Type ℓ} {a c : A} {b d : B}
    → ◌≡◌ {A = Outcome (A × B)} (ok (a, b)) (ok (c, d))
    → (c ≡ a) × (d ≡ b)
ok-pair p = (cc p, cc p)
