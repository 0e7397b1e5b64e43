-- ===== src/FieldRules/Order.antt =====
-- Which of the field rules with a common tag runs (src/serdes/RuleRegistry.cpp).
use libschemaregistry.Prelude.{List}
