-- ===== src/RegistryClient/Latest.antt =====
-- The two caches of latest versions of `SchemaRegistryClient` (src/rest/SchemaRegistryClient.cpp).
use libschemaregistry.Cache.Invariant.{get-IsValid, put-IsValid}
use libschemaregistry.Cache.Values.{get-Values, put-Values}
use libschemaregistry.Exec.{Exec, bind_outcome, pure, ◌>>=◌}
use libschemaregistry.Http.{Request}
use libschemaregistry.Model.{RegisteredSchema}
use libschemaregistry.Outcome.{Outcome, ok, throw, undefined}
use libschemaregistry.Prelude.Dict.{Dict}
use libschemaregistry.Prelude.{
  ap, Bool, Option, none, some, Text, text_dec, ◌≡◌, refl, subst, sym, ◌∙◌,
}
use libschemaregistry.RegistryClient.Answers.{Answers, answer_registered, fetch_registered-answers}
use libschemaregistry.RegistryClient.Coherence.{
  IsCoherent, IsLatest, IsLatestWithMetadata, fetch_registered-IsCoherent,
}
use libschemaregistry.RegistryClient.Requests.{
  latest_request, metadata_request, create_metadata_key,
}
use libschemaregistry.RegistryClient.State.{
  ClientState, Platform, or_else, fetch_registered, read_latest, write_latest, read_with_metadata,
  write_with_metadata, read_cache, write_cache, enter_latest, enter_with_metadata,
}
use libschemaregistry.RegistryClient.{get_latest_version, get_latest_with_metadata}

module _ {W : Type 0} (platform : Platform W) (answer : Request → Outcome Text) where
  abbrev Latest : Text → RegisteredSchema → Type 0
  Latest = IsLatest platform answer

  abbrev ByMetadata : Text → RegisteredSchema → Type 0
  ByMetadata = IsLatestWithMetadata platform answer

  abbrev Coherent : ClientState W → Type 0
  Coherent = IsCoherent platform answer

  -- What the cache gives is a latest version.
  pub read_latest-IsCoherent :
      (key : Text) (s : ClientState W) → Coherent s → Coherent (read_latest platform key s).1
  unfolding read_latest read_cache
  read_latest-IsCoherent key s c = record {
    keyed = c.keyed;
    latest = (get-Values text_dec Latest key _ _ s.latest_version_cache c.latest).0;
    latest_valid = get-IsValid text_dec key _ _ s.latest_version_cache c.latest_valid;
    with_metadata = c.with_metadata;
    with_metadata_valid = c.with_metadata_valid;
  }

  pub read_latest-IsLatest :
      (key : Text) (rs : RegisteredSchema) (s : ClientState W)
      → Coherent s
      → (read_latest platform key s).0 ≡ ok (some rs)
      → Latest key rs
  unfolding read_latest read_cache
  read_latest-IsLatest key rs s c h =
      let (now1, w1) = platform.clock s.world in
      let (now2, w2) = platform.clock w1 in
      (get-Values text_dec Latest key now1 now2 s.latest_version_cache c.latest).1 rs (cc h)

  pub write_latest_returns :
      (key : Text) (rs : RegisteredSchema) (s : ClientState W)
      → Coherent s
      → (write_latest platform key rs s).0 ≡ ok tt
  unfolding write_latest write_cache enter_latest
  write_latest_returns key rs s c =
      let (now1, w1) = platform.clock s.world in
      let (now2, w2) = platform.clock w1 in
      let (c', put, valid) =
        put-IsValid text_dec key rs now1 now2 s.latest_version_cache c.latest_valid in
      ap (λ o. (enter_latest w2 o s).0) put

  write_latest-IsCoherent :
      (key : Text) (rs : RegisteredSchema) (s : ClientState W)
      → Latest key rs
      → Coherent s
      → Coherent (write_latest platform key rs s).1
  unfolding write_latest write_cache enter_latest
  write_latest-IsCoherent key rs s p c =
      let (now1, w1) = platform.clock s.world in
      let (now2, w2) = platform.clock w1 in
      let (c', put, valid) =
        put-IsValid text_dec key rs now1 now2 s.latest_version_cache c.latest_valid in
      let values =
        put-Values text_dec Latest key rs now1 now2 s.latest_version_cache c' p c.latest put in
      subst (λ o. Coherent (enter_latest w2 o s).1) (sym put)
        (record {
          keyed = c.keyed;
          latest = values;
          latest_valid = valid;
          with_metadata = c.with_metadata;
          with_metadata_valid = c.with_metadata_valid;
        })

  -- What the cache gives is an answer by metadata.
  pub read_with_metadata-IsCoherent :
      (key : Text) (s : ClientState W) → Coherent s → Coherent (read_with_metadata platform key s).1
  unfolding read_with_metadata read_cache
  read_with_metadata-IsCoherent key s c = record {
    keyed = c.keyed;
    latest = c.latest;
    latest_valid = c.latest_valid;
    with_metadata =
        (get-Values text_dec ByMetadata key _ _ s.latest_with_metadata_cache c.with_metadata).0;
    with_metadata_valid =
        get-IsValid text_dec key _ _ s.latest_with_metadata_cache c.with_metadata_valid;
  }

  pub read_with_metadata-IsLatestWithMetadata :
      (key : Text) (rs : RegisteredSchema) (s : ClientState W)
      → Coherent s
      → (read_with_metadata platform key s).0 ≡ ok (some rs)
      → ByMetadata key rs
  unfolding read_with_metadata read_cache
  read_with_metadata-IsLatestWithMetadata key rs s c h =
      let (now1, w1) = platform.clock s.world in
      let (now2, w2) = platform.clock w1 in
      (get-Values text_dec ByMetadata key now1 now2 s.latest_with_metadata_cache c.with_metadata).1
        rs (cc h)

  pub write_with_metadata_returns :
      (key : Text) (rs : RegisteredSchema) (s : ClientState W)
      → Coherent s
      → (write_with_metadata platform key rs s).0 ≡ ok tt
  unfolding write_with_metadata write_cache enter_with_metadata
  write_with_metadata_returns key rs s c =
      let (now1, w1) = platform.clock s.world in
      let (now2, w2) = platform.clock w1 in
      let (c', put, valid) =
        put-IsValid text_dec key rs now1 now2 s.latest_with_metadata_cache c.with_metadata_valid in
      ap (λ o. (enter_with_metadata w2 o s).0) put

  write_with_metadata-IsCoherent :
      (key : Text) (rs : RegisteredSchema) (s : ClientState W)
      → ByMetadata key rs
      → Coherent s
      → Coherent (write_with_metadata platform key rs s).1
  unfolding write_with_metadata write_cache enter_with_metadata
  write_with_metadata-IsCoherent key rs s p c =
      let (now1, w1) = platform.clock s.world in
      let (now2, w2) = platform.clock w1 in
      let (c', put, valid) =
        put-IsValid text_dec key rs now1 now2 s.latest_with_metadata_cache c.with_metadata_valid in
      let values =
        put-Values text_dec ByMetadata key rs now1 now2 s.latest_with_metadata_cache c' p
          c.with_metadata put in
      subst (λ o. Coherent (enter_with_metadata w2 o s).1) (sym put)
        (record {
          keyed = c.keyed;
          latest = c.latest;
          latest_valid = c.latest_valid;
          with_metadata = values;
          with_metadata_valid = valid;
        })

  then_pure-IsCoherent :
      {A : Type 0} (r : Outcome Unit) (a : A) (s : ClientState W)
      → Coherent s
      → Coherent (bind_outcome {W = ClientState W} r (λ _. pure a) s).1
  then_pure-IsCoherent (ok _) a s c = c
  then_pure-IsCoherent (throw e) a s c = c
  then_pure-IsCoherent undefined a s c = c

  written-IsCoherent :
      (r : Outcome RegisteredSchema) (write : RegisteredSchema → Exec (ClientState W) Unit)
      (s : ClientState W)
      → ((response : RegisteredSchema) → r ≡ ok response → Coherent (write response s).1)
      → Coherent s
      → Coherent
          (bind_outcome {W = ClientState W} r
            (λ response. write response >>= λ _. pure response)
            s).1
  written-IsCoherent (ok response) write s keeps c =
      then_pure-IsCoherent (write response s).0 response _ (keeps response refl)
  written-IsCoherent (throw e) write s keeps c = c
  written-IsCoherent undefined write s keeps c = c

  or_else-IsCoherent :
      (found : Outcome (Option RegisteredSchema)) (request : Outcome Request)
      (write : RegisteredSchema → Exec (ClientState W) Unit) (s : ClientState W)
      → ((response : RegisteredSchema) (s1 : ClientState W)
          → answer_registered platform answer request ≡ ok response
          → Coherent s1
          → Coherent (write response s1).1)
      → Answers platform answer
      → Coherent s
      → Coherent
          (bind_outcome {W = ClientState W} found
            (λ cached.
              or_else cached (do
                response ← fetch_registered platform request
                _ ← write response
                pure response))
            s).1
  unfolding or_else
  or_else-IsCoherent (ok (some rs)) request write s keeps answers c = c
  or_else-IsCoherent (ok none) request write s keeps answers c =
      let (r, s1) = fetch_registered platform request s in
      let c1 = fetch_registered-IsCoherent platform answer request s c in
      written-IsCoherent r write s1
        (λ response h.
          keeps response s1 (sym (fetch_registered-answers platform answer answers request s) ∙ h)
            c1)
        c1
  or_else-IsCoherent (throw e) request write s keeps answers c = c
  or_else-IsCoherent undefined request write s keeps answers c = c

  pub get_latest_version-IsCoherent :
      Answers platform answer
      → (subject : Text) (format : Option Text) (s : ClientState W) → Coherent s
      → Coherent (get_latest_version platform subject format s).1
  unfolding get_latest_version
  get_latest_version-IsCoherent answers subject format s c =
      or_else-IsCoherent _ (latest_request subject format) (write_latest platform subject) _
        (λ response s1 h. write_latest-IsCoherent subject response s1 (format, h)) answers
        (read_latest-IsCoherent subject s c)

  pub get_latest_with_metadata-IsCoherent :
      Answers platform answer
      → (subject : Text) (metadata : Dict Text Text) (deleted : Bool) (format : Option Text)
        (s : ClientState W)
      → Coherent s
      → Coherent (get_latest_with_metadata platform subject metadata deleted format s).1
  unfolding get_latest_with_metadata
  get_latest_with_metadata-IsCoherent answers subject metadata deleted format s c =
      let key = create_metadata_key subject metadata in
      or_else-IsCoherent _ (metadata_request subject metadata deleted format)
        (write_with_metadata platform key) _
        (λ response s1 h.
          write_with_metadata-IsCoherent key response s1
            (subject, metadata, deleted, format, refl, h))
        answers (read_with_metadata-IsCoherent key s c)
