-- ===== src/RegistryClient/AsClient.antt =====
-- `SchemaRegistryClient` (src/rest/SchemaRegistryClient.cpp) as the client that the serdes use. Its
-- states are the coherent ones, which every call keeps.
use libschemaregistry.Client.{Client, IsLawful}
use libschemaregistry.Exec.{Exec}
use libschemaregistry.Http.{Request}
use libschemaregistry.Mock.Store.{generation}
use libschemaregistry.Model.{RegisteredSchema}
use libschemaregistry.Outcome.{Outcome, ok}
use libschemaregistry.Prelude.{
  ℕ, Bool, Option, some, Text, ◌≡◌, refl, ap, arith, sym, ◌∙◌, inl, inr,
}
use libschemaregistry.RegistryClient.Answers.{Answers, answer_registered}
use libschemaregistry.RegistryClient.Coherence.{IsCoherent}
use libschemaregistry.RegistryClient.Refinement.{fetched_or_read}
use libschemaregistry.RegistryClient.Requests.{version_request}
use libschemaregistry.RegistryClient.Runs.{
  run_call, run_call-IsCoherent, lookup_by_id, lookup_by_guid, lookup_by_schema, lookup_version,
  lookup_latest, lookup_with_metadata,
}
use libschemaregistry.RegistryClient.State.{ClientState, Platform, update_store}
use libschemaregistry.RegistryClient.{
  get_by_subject_and_id, get_by_guid, get_by_schema, get_version, get_latest_version,
  get_latest_with_metadata,
}
use libschemaregistry.SchemaStore.{get_registered_by_version, set_registered_schema}
use libschemaregistry.Model.{to_schema}

module _ {W : Type 0} (platform : Platform W) (answer : Request → Outcome Text)
    (answers : Answers platform answer) where
  -- A coherent client.
  abbrev pub CoherentClient : Type 0
  CoherentClient = (s : ClientState W) × IsCoherent platform answer s

  -- A call, with the proof that it keeps the client coherent.
  abbrev keeping :
      {A : Type 0} (m : Exec (ClientState W) A)
      → ((s : ClientState W) → IsCoherent platform answer s → IsCoherent platform answer (m s).1)
      → Exec CoherentClient A
  keeping m keeps (s, c) = ((m s).0, ((m s).1, keeps s c))

  unfoldable pub registry_client : Client CoherentClient
  unfolding run_call
  registry_client = record {
    get_by_subject_and_id = λ subject id format.
        keeping (get_by_subject_and_id platform subject id format)
          (run_call-IsCoherent platform answer answers (lookup_by_id subject id format));
    get_by_guid = λ guid format.
        keeping (get_by_guid platform guid format)
          (run_call-IsCoherent platform answer answers (lookup_by_guid guid format));
    get_by_schema = λ subject schema normalize deleted.
        keeping (get_by_schema platform subject schema normalize deleted) (
          run_call-IsCoherent platform answer answers
            (lookup_by_schema subject schema normalize deleted));
    get_version = λ subject version deleted format.
        keeping (get_version platform subject version deleted format) (
          run_call-IsCoherent platform answer answers
            (lookup_version subject version deleted format));
    get_latest_version = λ subject format.
        keeping (get_latest_version platform subject format)
          (run_call-IsCoherent platform answer answers (lookup_latest subject format));
    get_latest_with_metadata = λ subject metadata deleted format.
        keeping (get_latest_with_metadata platform subject metadata deleted format) (
          run_call-IsCoherent platform answer answers
            (lookup_with_metadata subject metadata deleted format));
  }

  get_version-asked :
      (subject : Text) (version : ℕ) (deleted : Bool) (format : Option Text) (rs : RegisteredSchema)
      (s : ClientState W)
      → ((rs' : RegisteredSchema)
          → answer_registered platform answer (version_request subject version deleted format)
            ≡ ok rs'
          → rs'.version ≡ some version)
      → IsCoherent platform answer s
      → (get_version platform subject version deleted format s).0 ≡ ok rs
      → rs.version ≡ some version
  unfolding get_version update_store
  get_version-asked subject version deleted format rs s server c h =
      elim (fetched_or_read platform answer (get_registered_by_version subject version s.store)
        (version_request subject version deleted format)
        (λ response.
          update_store platform
            (set_registered_schema platform.schema_hash (to_schema response) response))
        s (λ response s1 c1. refl) answers c) [
          | inl fetched ↦ server rs (sym fetched ∙ h)
          | inr (rs', hit, same) ↦
              (c.keyed.by_version subject version rs (hit ∙ ap some (cc (same, h)))).1
        ]

  -- Where the server's answer to a request for a version has that version, the client with its
  -- caches gives the version asked for, from whatever coherent state it is called in.
  pub registry_client-IsLawful :
      ((subject : Text) (version : ℕ) (deleted : Bool) (format : Option Text)
          (rs : RegisteredSchema)
        → answer_registered platform answer (version_request subject version deleted format) ≡ ok rs
        → rs.version ≡ some version)
      → IsLawful registry_client
  unfolding registry_client get_version generation
  registry_client-IsLawful server = record {
    version_asked = λ subject version deleted format rs (s, c) w' h. ground (
      arith,
      get_version-asked subject version deleted format rs s (server subject version deleted format)
          c (ap (λ p. p.0) h),
    );
  }
