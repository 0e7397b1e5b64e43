-- ===== src/RegistryClient/Refinement.antt =====
-- `SchemaRegistryClient` (src/rest/SchemaRegistryClient.cpp) as a refinement of the server: what a
-- call returns is what the server answers, to that request or to an earlier one of the same key.
use libschemaregistry.Cache.Values.{init-fresh}
use libschemaregistry.Cache.{init}
use libschemaregistry.Exec.{Exec, bind_outcome, pure, ◌>>=◌}
use libschemaregistry.Http.{Request}
use libschemaregistry.Model.{to_schema, RegisteredSchema}
use libschemaregistry.Outcome.{Outcome, ok, throw, undefined}
use libschemaregistry.Prelude.Dict.{Dict}
use libschemaregistry.Prelude.{
  ℕ, Bool, List, Option, none, some, Text, text_dec, ◌≡◌, refl, ap, arith, subst, sym, ◌∙◌, inl,
  inr, ◌⊎◌,
}
use libschemaregistry.RegistryClient.Answers.{Answers, answer_registered, fetch_registered-answers}
use libschemaregistry.RegistryClient.Coherence.{
  IsCoherent, IsLatest, IsLatestWithMetadata, fetch_registered-IsCoherent,
}
use libschemaregistry.RegistryClient.Latest.{
  read_latest-IsLatest, read_latest-IsCoherent, write_latest_returns,
  read_with_metadata-IsLatestWithMetadata, read_with_metadata-IsCoherent,
  write_with_metadata_returns,
}
use libschemaregistry.RegistryClient.Requests.{
  version_request, latest_request, metadata_request, create_metadata_key,
}
use libschemaregistry.RegistryClient.Runs.{Call, run_calls, run_calls-IsCoherent}
use libschemaregistry.RegistryClient.State.{
  update_store, ClientState, Platform, connect, connect_with, require_url, or_else,
  fetch_registered, read_latest, write_latest, read_with_metadata, write_with_metadata,
}
use libschemaregistry.RegistryClient.{get_version, get_latest_version, get_latest_with_metadata}
use libschemaregistry.Retry.{Configuration}
use libschemaregistry.SchemaStore.Keyed.{IsKeyed, empty-IsKeyed}
use libschemaregistry.SchemaStore.{
  or_empty, get_registered_by_version, set_registered_schema, empty,
}

module _ {W : Type 0} (platform : Platform W) (answer : Request → Outcome Text) where
  connect-parts :
      (config : Configuration) (capacity : ℕ) (ttl : Option ℕ) (w : W) (s : ClientState W)
      → connect config capacity ttl w ≡ ok s
      → (s.store ≡ empty)
        × (init capacity ttl ≡ some s.latest_version_cache)
        × (init capacity ttl ≡ some s.latest_with_metadata_cache)
  unfolding connect connect_with require_url
  connect-parts config capacity ttl w s h = ground arith

  -- What the constructor gives is coherent.
  pub connect-IsCoherent :
      (config : Configuration) (capacity : ℕ) (ttl : Option ℕ) (w : W) (s : ClientState W)
      → connect config capacity ttl w ≡ ok s
      → IsCoherent platform answer s
  unfolding connect connect_with
  connect-IsCoherent config capacity ttl w s h =
      let (store, latest, with_metadata) = connect-parts config capacity ttl w s h in
      let (latest_values, latest_valid) =
        init-fresh text_dec (IsLatest platform answer) capacity ttl _ latest in
      let (values, valid) =
        init-fresh text_dec (IsLatestWithMetadata platform answer) capacity ttl _ with_metadata in
      record {
        keyed =
            subst (IsKeyed platform.schema_hash) (sym store) (empty-IsKeyed platform.schema_hash);
        latest = latest_values;
        latest_valid = latest_valid;
        with_metadata = values;
        with_metadata_valid = valid;
      }

  written-same :
      (r : Outcome RegisteredSchema) (write : RegisteredSchema → Exec (ClientState W) Unit)
      (s : ClientState W)
      → ((response : RegisteredSchema) → (write response s).0 ≡ ok tt)
      → (bind_outcome {W = ClientState W} r (λ response. write response >>= λ _. pure response) s).0
        ≡ r
  written-same (ok response) write s returns =
      ap (λ o. (bind_outcome {W = ClientState W} o (λ _. pure response) (write response s).1).0)
        (returns response)
  written-same (throw e) write s returns = refl
  written-same undefined write s returns = refl

  -- How a call through one of the two caches ends: with the answer to its request, or with a value
  -- that was read from the cache.
  pub fetched_or_read :
      (found : Option RegisteredSchema) (request : Outcome Request)
      (write : RegisteredSchema → Exec (ClientState W) Unit) (s : ClientState W)
      → ((response : RegisteredSchema) (s1 : ClientState W)
          → IsCoherent platform answer s1
          → (write response s1).0 ≡ ok tt)
      → Answers platform answer
      → IsCoherent platform answer s
      → ((or_else found
            (do response ← fetch_registered platform request; _ ← write response; pure response)
            s).0
          ≡ answer_registered platform answer request)
        ⊎ ((rs : RegisteredSchema) × (found ≡ some rs)
            × ((or_else found
                  (do
                    response ← fetch_registered platform request
                    _ ← write response
                    pure response)
                  s).0
                ≡ ok rs))
  unfolding or_else
  fetched_or_read (some rs) request write s returns answers c = inr (rs, refl, refl)
  fetched_or_read none request write s returns answers c =
      let (r, s1) = fetch_registered platform request s in
      inl (
        written-same r write s1 (λ response.
          returns response s1 (fetch_registered-IsCoherent platform answer request s c))
        ∙ fetch_registered-answers platform answer answers request s)

  read_latest_returns :
      (key : Text) (s : ClientState W)
      → (o : Option RegisteredSchema) × ((read_latest platform key s).0 ≡ ok o)
  unfolding read_latest
  read_latest_returns key s = (_, refl)

  read_with_metadata_returns :
      (key : Text) (s : ClientState W)
      → (o : Option RegisteredSchema) × ((read_with_metadata platform key s).0 ≡ ok o)
  unfolding read_with_metadata
  read_with_metadata_returns key s = (_, refl)

  pub read_call :
      (found : Outcome (Option RegisteredSchema)) (request : Outcome Request)
      (write : RegisteredSchema → Exec (ClientState W) Unit) (s : ClientState W)
      (P : RegisteredSchema → Type 0)
      → ((rs : RegisteredSchema) → found ≡ ok (some rs) → P rs)
      → ((o : Option RegisteredSchema) × (found ≡ ok o))
      → ((response : RegisteredSchema) (s1 : ClientState W)
          → IsCoherent platform answer s1
          → (write response s1).0 ≡ ok tt)
      → Answers platform answer
      → IsCoherent platform answer s
      → let r =
          (bind_outcome {W = ClientState W} found
            (λ cached.
              or_else cached (do
                response ← fetch_registered platform request
                _ ← write response
                pure response))
            s).0 in
        (r ≡ answer_registered platform answer request)
        ⊎ ((rs : RegisteredSchema) × (r ≡ ok rs) × P rs)
  read_call (ok o) request write s P read total returns answers c =
      elim (fetched_or_read o request write s returns answers c) [
        | inl same ↦ inl same
        | inr (rs, hit, same) ↦ inr (rs, same, read rs (ap ok hit))
      ]
  read_call (throw e) request write s P read (o, total) returns answers c = absurd (cc total)
  read_call undefined request write s P read (o, total) returns answers c = absurd (cc total)

  get_latest_version-refines_from :
      (subject : Text) (format : Option Text) (s : ClientState W)
      → Answers platform answer
      → IsCoherent platform answer s
      → let r = (get_latest_version platform subject format s).0 in
        (r ≡ answer_registered platform answer (latest_request subject format))
        ⊎ ((rs : RegisteredSchema) × (r ≡ ok rs) × IsLatest platform answer subject rs)
  unfolding get_latest_version
  get_latest_version-refines_from subject format s answers c =
      let (found, s1) = read_latest platform subject s in
      read_call found (latest_request subject format) (write_latest platform subject) s1
        (IsLatest platform answer subject)
        (λ rs h. read_latest-IsLatest platform answer subject rs s c h)
        (read_latest_returns subject s)
        (λ response s2 c2. write_latest_returns platform answer subject response s2 c2) answers
        (read_latest-IsCoherent platform answer subject s c)

  -- Take a server that answers a request the same way each time, and a client that has made any
  -- calls since it was constructed. What `getLatestVersion` then does, return or throw, is the
  -- server's answer to its request; or it returns a schema that the server gives as the latest
  -- version of the same subject, in some format.
  pub get_latest_version-refines :
      (config : Configuration) (capacity : ℕ) (ttl : Option ℕ) (w : W) (s : ClientState W)
      (calls : List Call) (subject : Text) (format : Option Text)
      → Answers platform answer
      → connect config capacity ttl w ≡ ok s
      → let r = (get_latest_version platform subject format (run_calls platform calls s)).0 in
        (r ≡ answer_registered platform answer (latest_request subject format))
        ⊎ ((rs : RegisteredSchema) × (r ≡ ok rs) × IsLatest platform answer subject rs)
  get_latest_version-refines config capacity ttl w s calls subject format answers h =
      let s' = run_calls platform calls s in
      let c =
        run_calls-IsCoherent platform answer answers calls s
          (connect-IsCoherent config capacity ttl w s h) in
      get_latest_version-refines_from subject format s' answers c

  with_metadata-refines_from :
      (subject : Text) (metadata : Dict Text Text) (deleted : Bool) (format : Option Text)
      (s : ClientState W)
      → Answers platform answer
      → IsCoherent platform answer s
      → let r = (get_latest_with_metadata platform subject metadata deleted format s).0 in
        (r ≡ answer_registered platform answer (metadata_request subject metadata deleted format))
        ⊎ ((rs : RegisteredSchema) × (r ≡ ok rs)
            × IsLatestWithMetadata platform answer (create_metadata_key subject metadata) rs)
  unfolding get_latest_with_metadata
  with_metadata-refines_from subject metadata deleted format s answers c =
      let key = create_metadata_key subject metadata in
      let (found, s1) = read_with_metadata platform key s in
      read_call found (metadata_request subject metadata deleted format)
        (write_with_metadata platform key) s1 (IsLatestWithMetadata platform answer key)
        (λ rs h. read_with_metadata-IsLatestWithMetadata platform answer key rs s c h)
        (read_with_metadata_returns key s)
        (λ response s2 c2. write_with_metadata_returns platform answer key response s2 c2) answers
        (read_with_metadata-IsCoherent platform answer key s c)

  -- Take a server that answers a request the same way each time, and a client that has made any
  -- calls since it was constructed. What `getLatestWithMetadata` then does, return or throw, is the
  -- server's answer to its request; or it returns the server's answer to a request by metadata that
  -- has the same key in the cache.
  pub get_latest_with_metadata-refines :
      (config : Configuration) (capacity : ℕ) (ttl : Option ℕ) (w : W) (s : ClientState W)
      (calls : List Call) (subject : Text) (metadata : Dict Text Text) (deleted : Bool)
      (format : Option Text)
      → Answers platform answer
      → connect config capacity ttl w ≡ ok s
      → let r =
          (get_latest_with_metadata platform subject metadata deleted format
            (run_calls platform calls s)).0 in
        (r ≡ answer_registered platform answer (metadata_request subject metadata deleted format))
        ⊎ ((rs : RegisteredSchema) × (r ≡ ok rs)
            × IsLatestWithMetadata platform answer (create_metadata_key subject metadata) rs)
  get_latest_with_metadata-refines config capacity ttl w s calls subject metadata deleted format
        answers h =
      let c =
        run_calls-IsCoherent platform answer answers calls s
          (connect-IsCoherent config capacity ttl w s h) in
      with_metadata-refines_from subject metadata deleted format (run_calls platform calls s)
        answers c

  -- Take a server that answers a request the same way each time, and a client that has made any
  -- calls since it was constructed. What `getVersion` then does, return or throw, is the server's
  -- answer to its request; or it returns a schema of the subject and the version asked for.
  pub get_version-refines :
      (config : Configuration) (capacity : ℕ) (ttl : Option ℕ) (w : W) (s : ClientState W)
      (calls : List Call) (subject : Text) (version : ℕ) (deleted : Bool) (format : Option Text)
      → Answers platform answer
      → connect config capacity ttl w ≡ ok s
      → let r =
          (get_version platform subject version deleted format (run_calls platform calls s)).0 in
        (r ≡ answer_registered platform answer (version_request subject version deleted format))
        ⊎ ((rs : RegisteredSchema) × (r ≡ ok rs)
            × (or_empty rs.subject ≡ subject)
            × (rs.version ≡ some version))
  unfolding get_version update_store
  get_version-refines config capacity ttl w s calls subject version deleted format answers h =
      let s' = run_calls platform calls s in
      let c =
        run_calls-IsCoherent platform answer answers calls s
          (connect-IsCoherent config capacity ttl w s h) in
      elim (fetched_or_read (get_registered_by_version subject version s'.store)
        (version_request subject version deleted format)
        (λ response.
          update_store platform
            (set_registered_schema platform.schema_hash (to_schema response) response))
        s' (λ response s1 c1. refl) answers c) [
          | inl fetched ↦ inl fetched
          | inr (rs, hit, same) ↦
              let (subject_asked, version_asked) = c.keyed.by_version subject version rs hit in
              inr (rs, same, subject_asked, version_asked)
        ]
