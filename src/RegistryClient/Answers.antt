-- ===== src/RegistryClient/Answers.antt =====
-- The requests of `SchemaRegistryClient` (src/rest/SchemaRegistryClient.cpp) against a server that
-- answers a request the same way each time.
use libschemaregistry.Exec.{bind_outcome}
use libschemaregistry.Http.{Request, send}
use libschemaregistry.Model.{RegisteredSchema}
use libschemaregistry.Outcome.{Outcome, ok, throw, undefined, ◌>>=◌}
use libschemaregistry.Prelude.{Text, ◌≡◌, refl, ap, subst, sym, ◌∙◌}
use libschemaregistry.RegistryClient.State.{
  ClientState, Platform, parse_registered_schema_from_json, outcome, exchange, fetch_registered,
}

module _ {W : Type 0} (platform : Platform W) where
  -- A request changes the world, and no cache.
  abbrev pub SameCaches : ClientState W → ClientState W → Type 0
  SameCaches s s' =
      (s'.store ≡ s.store)
      × (s'.latest_version_cache ≡ s.latest_version_cache)
      × (s'.latest_with_metadata_cache ≡ s.latest_with_metadata_cache)

  pub exchange-SameCaches :
      (request : Outcome Request) (s : ClientState W) → SameCaches s (exchange platform request s).1
  unfolding exchange
  exchange-SameCaches (ok r) s = (refl, refl, refl)
  exchange-SameCaches (throw e) s = (refl, refl, refl)
  exchange-SameCaches undefined s = (refl, refl, refl)

  bind_outcome-state :
      {A : Type 0} (r : Outcome Text) (f : Text → Outcome A) (s : ClientState W)
      → (bind_outcome {W = ClientState W} r (λ t. outcome (f t)) s).1 ≡ s
  bind_outcome-state (ok t) f s = refl
  bind_outcome-state (throw e) f s = refl
  bind_outcome-state undefined f s = refl

  bind_outcome-result :
      {A : Type 0} (r : Outcome Text) (f : Text → Outcome A) (s : ClientState W)
      → (bind_outcome {W = ClientState W} r (λ t. outcome (f t)) s).0 ≡ (r >>= f)
  bind_outcome-result (ok t) f s = refl
  bind_outcome-result (throw e) f s = refl
  bind_outcome-result undefined f s = refl

  pub fetch_registered-SameCaches :
      (request : Outcome Request) (s : ClientState W)
      → SameCaches s (fetch_registered platform request s).1
  unfolding fetch_registered
  fetch_registered-SameCaches request s =
      let (r, s1) = exchange platform request s in
      subst (SameCaches s)
        (sym (bind_outcome-state r (parse_registered_schema_from_json platform) s1))
        (exchange-SameCaches request s)

  module _ (answer : Request → Outcome Text) where
    -- The answer to a request, read as a registered schema.
    abbrev pub answer_registered : Outcome Request → Outcome RegisteredSchema
    answer_registered request =
        request >>= λ r. answer r >>= parse_registered_schema_from_json platform

    -- The server's answers depend on the request alone.
    abbrev pub Answers : Type 0
    Answers = (r : Request) (w : W) → (send platform.session r w).0 ≡ answer r

    pub fetch_registered-answers :
        Answers
        → (request : Outcome Request) (s : ClientState W)
        → (fetch_registered platform request s).0 ≡ answer_registered request
    unfolding fetch_registered exchange
    fetch_registered-answers answers (ok r) s =
        let (text, world) = send platform.session r s.world in
        let s1 : ClientState W = record s { world = world } in
        bind_outcome-result text (parse_registered_schema_from_json platform) s1
        ∙ ap (λ o. o >>= parse_registered_schema_from_json platform) (answers r s.world)
    fetch_registered-answers answers (throw e) s = refl
    fetch_registered-answers answers undefined s = refl
