-- ===== src/RegistryClient/Freshness.antt =====
-- The time to live of what `getLatestVersion` (src/rest/SchemaRegistryClient.cpp) caches.
use libschemaregistry.Cache.Views.{live_entry, value_of, get-live_entry}
use libschemaregistry.Exec.{bind_outcome, pure, ◌>>=◌}
use libschemaregistry.Http.{Request}
use libschemaregistry.Model.{RegisteredSchema}
use libschemaregistry.Outcome.{Outcome, ok, throw, undefined}
use libschemaregistry.Prelude.{ℕ, ◌≤◌, Option, none, some, Text, text_dec, ◌≡◌, ap, inl, inr}
use libschemaregistry.RegistryClient.Answers.{Answers, answer_registered}
use libschemaregistry.RegistryClient.Coherence.{IsCoherent}
use libschemaregistry.RegistryClient.Latest.{read_latest-IsCoherent, write_latest_returns}
use libschemaregistry.RegistryClient.Refinement.{fetched_or_read}
use libschemaregistry.RegistryClient.Requests.{latest_request}
use libschemaregistry.RegistryClient.State.{
  ClientState, Platform, read_latest, read_cache, write_latest, or_else, fetch_registered,
}
use libschemaregistry.RegistryClient.{get_latest_version}

-- A value that is there, or else what is done without it.
abbrev pub or_answer : {A : Type 0} → Option A → Outcome A → Outcome A
or_answer none r = r
or_answer (some a) r = ok a

module _ {W : Type 0} (platform : Platform W) (answer : Request → Outcome Text) where
  -- The two readings of the clock with which a call on the state begins.
  abbrev pub first_reading : ClientState W → ℕ
  first_reading s = (platform.clock s.world).0

  abbrev pub second_reading : ClientState W → ℕ
  second_reading s = (platform.clock (platform.clock s.world).1).0

  read_latest-live :
      (subject : Text) (s : ClientState W)
      → IsCoherent platform answer s
      → first_reading s ≤ second_reading s
      → (read_latest platform subject s).0
        ≡ ok (
            value_of text_dec
              (live_entry text_dec subject (second_reading s) s.latest_version_cache))
  unfolding read_latest read_cache
  read_latest-live subject s c h =
      ap ok (get-live_entry text_dec subject _ _ s.latest_version_cache c.latest_valid h)

  answered_or_read :
      (found : Option RegisteredSchema) (o : Outcome (Option RegisteredSchema)) (subject : Text)
      (format : Option Text) (s : ClientState W)
      → o ≡ ok found
      → Answers platform answer
      → IsCoherent platform answer s
      → (bind_outcome {W = ClientState W} o
          (λ cached. or_else cached (do
            response ← fetch_registered platform (latest_request subject format)
            _ ← write_latest platform subject response
            pure response))
          s).0
        ≡ or_answer found (answer_registered platform answer (latest_request subject format))
  unfolding or_else
  answered_or_read found (throw e) subject format s h answers c = absurd (cc h)
  answered_or_read found undefined subject format s h answers c = absurd (cc h)
  answered_or_read none (ok (some rs)) subject format s h answers c = absurd (cc h)
  answered_or_read (some rs) (ok none) subject format s h answers c = absurd (cc h)
  answered_or_read (some rs) (ok (some rs')) subject format s h answers c = cc h
  answered_or_read none (ok none) subject format s h answers c =
      elim (fetched_or_read platform answer none (latest_request subject format)
        (write_latest platform subject) s
        (λ response s1 c1. write_latest_returns platform answer subject response s1 c1) answers c) [
          | inl same ↦ same
          | inr (rs, hit, _) ↦ absurd (cc hit)
        ]

  -- Take a server that answers a request the same way each time, a coherent client and a clock that
  -- does not run backwards. `getLatestVersion` returns the value that is cached for the subject if
  -- it has not expired at the second reading of the clock; otherwise it does what the server's
  -- answer to its request makes it do, return or throw.
  pub get_latest_version-live :
      (subject : Text) (format : Option Text) (s : ClientState W)
      → Answers platform answer
      → IsCoherent platform answer s
      → first_reading s ≤ second_reading s
      → (get_latest_version platform subject format s).0
        ≡ or_answer
            (value_of text_dec
              (live_entry text_dec subject (second_reading s) s.latest_version_cache))
            (answer_registered platform answer (latest_request subject format))
  unfolding get_latest_version
  get_latest_version-live subject format s answers c h =
      answered_or_read _ (read_latest platform subject s).0 subject format
        (read_latest platform subject s).1 (read_latest-live subject s c h) answers
        (read_latest-IsCoherent platform answer subject s c)
