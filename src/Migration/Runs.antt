-- ===== src/Migration/Runs.antt =====
-- Migrations in sequence: `executeMigrations` (src/serdes/Serde.cpp).
use libschemaregistry.Engine.{Serde, execute_rules_with_phase}
use libschemaregistry.Exec.{◌>>=◌, bind_outcome}
use libschemaregistry.Migration.{Migration, execute_migrations, schema_of}
use libschemaregistry.Model.{migration}
use libschemaregistry.Outcome.{Outcome, ok, throw, undefined}
use libschemaregistry.Prelude.{List, [], ◌∷◌, ◌++◌, Text, ◌≡◌, refl}

module _ {W M : Type 0} (serde : Serde W M) where
  after :
      (subject : Text) (ms ns : List Migration) (r : Outcome M) (w : W)
      → ((msg : M) (w' : W)
          → execute_migrations serde subject (ms ++ ns) msg w'
            ≡ (execute_migrations serde subject ms msg >>= execute_migrations serde subject ns) w')
      → bind_outcome r (execute_migrations serde subject (ms ++ ns)) w
        ≡ bind_outcome
            (bind_outcome r (execute_migrations serde subject ms) w).0
            (execute_migrations serde subject ns)
            (bind_outcome r (execute_migrations serde subject ms) w).1
  after subject ms ns (ok msg) w rest = rest msg w
  after subject ms ns (throw e) w rest = refl
  after subject ms ns undefined w rest = refl

  -- `executeMigrations` on two lists in a row is `executeMigrations` on the one and then, on the
  -- message that it returned, on the other; an exception of the first keeps the second from running.
  pub execute_migrations-append :
      (subject : Text) (ms ns : List Migration) (msg : M) (w : W)
      → execute_migrations serde subject (ms ++ ns) msg w
        ≡ (execute_migrations serde subject ms msg >>= execute_migrations serde subject ns) w
  unfolding execute_migrations
  execute_migrations-append subject [] ns msg w = refl
  execute_migrations-append subject (m ∷ ms) ns msg w =
      let (r, w1) =
        execute_rules_with_phase serde subject migration m.rule_mode (schema_of m.source)
          (schema_of m.target) msg w in
      after subject ms ns r w1 (λ msg' w'. execute_migrations-append subject ms ns msg' w')
