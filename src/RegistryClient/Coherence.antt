-- ===== src/RegistryClient/Coherence.antt =====
-- What the caches of `SchemaRegistryClient` (src/rest/SchemaRegistryClient.cpp) hold, over all calls.
use libschemaregistry.Cache.Invariant.{IsValid}
use libschemaregistry.Cache.Values.{Values}
use libschemaregistry.Exec.{bind_outcome, pure, ◌>>=◌}
use libschemaregistry.Http.{Request}
use libschemaregistry.Model.{RegisteredSchema}
use libschemaregistry.Outcome.{Outcome, ok, throw, undefined}
use libschemaregistry.Prelude.Dict.{Dict}
use libschemaregistry.Prelude.{Bool, Option, none, some, Text, text_dec, ◌≡◌, subst, sym}
use libschemaregistry.RegistryClient.Answers.{
  exchange-SameCaches, SameCaches, answer_registered, fetch_registered-SameCaches,
}
use libschemaregistry.RegistryClient.Requests.{
  latest_request, metadata_request, create_metadata_key,
}
use libschemaregistry.RegistryClient.State.{
  stored_call, exchange, outcome, ClientState, Platform, or_else, fetch_registered, update_store,
}
use libschemaregistry.SchemaStore.Keyed.{IsKeyed}
use libschemaregistry.SchemaStore.{SchemaStore}

module _ {W : Type 0} (platform : Platform W) (answer : Request → Outcome Text) where
  abbrev answered : Outcome Request → Outcome RegisteredSchema
  answered request = answer_registered platform answer request

  -- The server answers so to a request for the latest version of the subject.
  abbrev pub IsLatest : Text → RegisteredSchema → Type 0
  IsLatest subject rs = (format : Option Text) × (answered (latest_request subject format) ≡ ok rs)

  -- The server answers so to a request by metadata that has this key.
  abbrev pub IsLatestWithMetadata : Text → RegisteredSchema → Type 0
  IsLatestWithMetadata key rs =
      (subject : Text) × (metadata : Dict Text Text) × (deleted : Bool) × (format : Option Text)
      × (key ≡ create_metadata_key subject metadata)
      × (answered (metadata_request subject metadata deleted format) ≡ ok rs)

  -- The invariant of the client.
  pub record IsCoherent (s : ClientState W) : Type 0 where
    pub keyed : IsKeyed platform.schema_hash s.store
    pub latest : Values text_dec IsLatest s.latest_version_cache
    pub latest_valid : IsValid text_dec s.latest_version_cache
    pub with_metadata : Values text_dec IsLatestWithMetadata s.latest_with_metadata_cache
    pub with_metadata_valid : IsValid text_dec s.latest_with_metadata_cache

  same-IsCoherent : (s s' : ClientState W) → SameCaches platform s s' → IsCoherent s → IsCoherent s'
  same-IsCoherent s s' (store, latest, with_metadata) c = record {
    keyed = subst (IsKeyed platform.schema_hash) (sym store) c.keyed;
    latest = subst (Values text_dec IsLatest) (sym latest) c.latest;
    latest_valid = subst (IsValid text_dec) (sym latest) c.latest_valid;
    with_metadata =
        subst (Values text_dec IsLatestWithMetadata) (sym with_metadata) c.with_metadata;
    with_metadata_valid = subst (IsValid text_dec) (sym with_metadata) c.with_metadata_valid;
  }

  pub fetch_registered-IsCoherent :
      (request : Outcome Request) (s : ClientState W)
      → IsCoherent s
      → IsCoherent (fetch_registered platform request s).1
  fetch_registered-IsCoherent request s =
      same-IsCoherent s _ (fetch_registered-SameCaches platform request s)

  enter-IsCoherent :
      {A : Type 0} (r : Outcome RegisteredSchema)
      (enter : RegisteredSchema → SchemaStore → SchemaStore) (result : RegisteredSchema → A)
      (s : ClientState W)
      → ((response : RegisteredSchema) (st : SchemaStore)
          → IsKeyed platform.schema_hash st
          → IsKeyed platform.schema_hash (enter response st))
      → IsCoherent s
      → IsCoherent
          (bind_outcome {W = ClientState W} r
            (λ response. update_store platform (enter response) >>= λ _. pure (result response))
            s).1
  unfolding update_store
  enter-IsCoherent (ok response) enter result s keeps c = record {
    keyed = keeps response s.store c.keyed;
    latest = c.latest;
    latest_valid = c.latest_valid;
    with_metadata = c.with_metadata;
    with_metadata_valid = c.with_metadata_valid;
  }
  enter-IsCoherent (throw e) enter result s keeps c = c
  enter-IsCoherent undefined enter result s keeps c = c

  pub stored_call-IsCoherent :
      {A : Type 0} (found : Option A) (request : Outcome Request)
      (enter : RegisteredSchema → SchemaStore → SchemaStore) (result : RegisteredSchema → A)
      (s : ClientState W)
      → ((response : RegisteredSchema) (st : SchemaStore)
          → IsKeyed platform.schema_hash st
          → IsKeyed platform.schema_hash (enter response st))
      → IsCoherent s
      → IsCoherent (stored_call platform found request enter result s).1
  unfolding or_else
  stored_call-IsCoherent (some a) request enter result s keeps c = c
  stored_call-IsCoherent none request enter result s keeps c =
      let (r, s1) = fetch_registered platform request s in
      enter-IsCoherent r enter result s1 keeps (fetch_registered-IsCoherent request s c)

  text_outcome-IsCoherent :
      {A : Type 0} (r : Outcome Text) (f : Text → Outcome A) (s : ClientState W)
      → IsCoherent s
      → IsCoherent (bind_outcome {W = ClientState W} r (λ text. outcome (f text)) s).1
  text_outcome-IsCoherent (ok text) f s c = c
  text_outcome-IsCoherent (throw e) f s c = c
  text_outcome-IsCoherent undefined f s c = c

  -- A call that no cache answers, and that enters nothing.
  pub plain_call-IsCoherent :
      {A : Type 0} (request : Outcome Request) (f : Text → Outcome A) (s : ClientState W)
      → IsCoherent s
      → IsCoherent ((exchange platform request >>= λ text. outcome (f text)) s).1
  plain_call-IsCoherent request f s c =
      let (r, s1) = exchange platform request s in
      text_outcome-IsCoherent r f s1
        (same-IsCoherent s s1 (exchange-SameCaches platform request s) c)
