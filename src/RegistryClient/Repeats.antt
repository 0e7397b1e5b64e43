-- ===== src/RegistryClient/Repeats.antt =====
-- Calls of `SchemaRegistryClient` (src/rest/SchemaRegistryClient.cpp) that are made twice.
use libschemaregistry.Exec.{Exec, bind_outcome, pure, ◌>>=◌}
use libschemaregistry.Http.{Request}
use libschemaregistry.Model.{Schema, RegisteredSchema, to_schema}
use libschemaregistry.Outcome.{Outcome, ok, throw, undefined}
use libschemaregistry.Prelude.{
  ℕ, Bool, [], Option, none, some, Text, ◌≡◌, refl, ap, arith, inl, inr, ◌⊎◌,
}
use libschemaregistry.RegistryClient.Answers.{fetch_registered-SameCaches}
use libschemaregistry.RegistryClient.Requests.{
  register_request, by_id_request, by_guid_request, version_request,
}
use libschemaregistry.RegistryClient.State.{
  stored_call, ClientState, Platform, or_else, schema_of_entry, fetch_registered, update_store,
  key_of,
}
use libschemaregistry.RegistryClient.{
  register_schema, get_by_subject_and_id, get_by_guid, get_version,
}
use libschemaregistry.SchemaStore.Laws.{
  set_schema-reads, set_registered_schema-reads, set_schema-frame,
}
use libschemaregistry.SchemaStore.{
  get_schema_by_id, get_schema_by_guid, get_registered_by_version, SchemaStore, or_empty,
  get_registered_by_schema,
}

module _ {W : Type 0} (platform : Platform W) where
  -- How a call on the store ends that returns: from the store, or with an answer that is entered.
  abbrev Returned :
      {A : Type 0}
      → Option A
      → Outcome Request
      → (RegisteredSchema → SchemaStore → SchemaStore)
      → (RegisteredSchema → A)
      → ClientState W
      → A
      → ClientState W
      → Type 0
  Returned found request enter result s a s' =
      ((found ≡ some a) × (s' ≡ s))
      ⊎ ((response : RegisteredSchema) × (result response ≡ a)
          × ((fetch_registered platform request s).0 ≡ ok response)
          × (s'.store ≡ enter response s.store))

  entered :
      {A : Type 0} (r : Outcome RegisteredSchema) (s1 s s' : ClientState W)
      (enter : RegisteredSchema → SchemaStore → SchemaStore) (result : RegisteredSchema → A) (a : A)
      → s1.store ≡ s.store
      → ◌≡◌ {A = Outcome A × ClientState W}
          (bind_outcome {W = ClientState W} r
            (λ response. update_store platform (enter response) >>= λ _. pure (result response))
            s1)
          (ok a, s')
      → (response : RegisteredSchema) × (result response ≡ a)
        × (r ≡ ok response)
        × (s'.store ≡ enter response s.store)
  unfolding update_store
  entered (ok response) s1 s s' enter result a same h =
      (response, cc h, refl, cc (ap (λ p. p.1.store) h, same))
  entered (throw e) s1 s s' enter result a same h = absurd (cc h)
  entered undefined s1 s s' enter result a same h = absurd (cc h)

  stored_call-Returned :
      {A : Type 0} (found : Option A) (request : Outcome Request)
      (enter : RegisteredSchema → SchemaStore → SchemaStore) (result : RegisteredSchema → A)
      (s : ClientState W) (a : A) (s' : ClientState W)
      → ◌≡◌ {A = Outcome A × ClientState W}
          (stored_call platform found request enter result s)
          (ok a, s')
      → Returned found request enter result s a s'
  unfolding or_else
  stored_call-Returned (some b) request enter result s a s' h = inl (cc h, cc h)
  stored_call-Returned none request enter result s a s' h =
      let (r, s1) = fetch_registered platform request s in
      inr (entered r s1 s s' enter result a (fetch_registered-SameCaches platform request s).0 h)

  or_else-hit :
      {A : Type 0} (found : Option A) (m : Exec (ClientState W) A) (s : ClientState W) (a : A)
      → found ≡ some a
      → or_else found m s ≡ (ok a, s)
  unfolding or_else
  or_else-hit none m s a h = absurd (cc h)
  or_else-hit (some b) m s a h = cc h

  -- Once `getBySubjectAndId` has returned a schema, the same subject and identifier give that
  -- schema again whatever the format, without a request and without a change of the client.
  pub get_by_subject_and_id-again :
      (subject : Option Text) (id : ℕ) (format format' : Option Text) (schema : Schema)
      (s s' : ClientState W)
      → get_by_subject_and_id platform subject id format s ≡ (ok schema, s')
      → get_by_subject_and_id platform subject id format' s' ≡ (ok schema, s')
  unfolding get_by_subject_and_id or_else schema_of_entry
  get_by_subject_and_id-again subject id format format' schema s s' h =
      or_else-hit (schema_of_entry (get_schema_by_id (or_empty subject) id s'.store)) _ s' schema
        (elim (stored_call-Returned _ (by_id_request subject id format) _ _ s schema s' h) [
          | inl (hit, same) ↦ ground (arith, hit, ap (λ z. z.store) same)
          | inr (response, result, _, stored) ↦ ground (
            arith,
            result,
            stored,
            (set_schema-reads platform.schema_hash subject (some id) response.guid
                (to_schema response) s.store (or_empty subject) [] id (to_schema response)).0,
          )
        ])

  -- Once `getByGuid` has returned a schema, the same GUID gives that schema again whatever the
  -- format, without a request and without a change of the client.
  pub get_by_guid-again :
      (guid : Text) (format format' : Option Text) (schema : Schema) (s s' : ClientState W)
      → get_by_guid platform guid format s ≡ (ok schema, s')
      → get_by_guid platform guid format' s' ≡ (ok schema, s')
  unfolding get_by_guid or_else
  get_by_guid-again guid format format' schema s s' h =
      or_else-hit (get_schema_by_guid guid s'.store) _ s' schema
        (elim (stored_call-Returned _ (by_guid_request guid format) _ _ s schema s' h) [
          | inl (hit, same) ↦ ground (arith, hit, ap (λ z. z.store) same)
          | inr (response, result, _, stored) ↦ ground (
            arith,
            result,
            stored,
            (set_schema-reads platform.schema_hash none response.id (some guid) (to_schema response)
                s.store [] guid 0 (to_schema response)).1,
          )
        ])

  -- Once `getVersion` has returned a schema of the subject and the version asked for, the same
  -- subject and version give that schema again, also where `deleted` or `format` differ, without a
  -- request and without a change of the client.
  pub get_version-again :
      (subject : Text) (version : ℕ) (deleted deleted' : Bool) (format format' : Option Text)
      (rs : RegisteredSchema) (s s' : ClientState W)
      → rs.subject ≡ some subject
      → rs.version ≡ some version
      → get_version platform subject version deleted format s ≡ (ok rs, s')
      → get_version platform subject version deleted' format' s' ≡ (ok rs, s')
  unfolding get_version or_else
  get_version-again subject version deleted deleted' format format' rs s s' own_subject own_version
        h =
      or_else-hit (get_registered_by_version subject version s'.store) _ s' rs
        (elim (stored_call-Returned _ (version_request subject version deleted format) _ _ s rs s'
          h) [
            | inl (hit, same) ↦ ground (arith, hit, ap (λ z. z.store) same)
            | inr (response, result, _, stored) ↦ ground (
              arith,
              result,
              stored,
              own_subject,
              own_version,
              (set_registered_schema-reads platform.schema_hash (to_schema response) response
                  s.store subject version (to_schema response)).0,
            )
          ])

  -- A registration that returns leaves what is looked for before a registration as it was: every
  -- schema that was not found in the store of registered schemas is still not found there, the one
  -- just registered included.
  pub register_schema-not_found :
      (subject : Text) (schema : Schema) (normalize : Bool) (rs : RegisteredSchema)
      (s s' : ClientState W) (j : Text) (t : Schema)
      → register_schema platform subject schema normalize s ≡ (ok rs, s')
      → get_registered_by_schema platform.schema_hash j t s'.store
        ≡ get_registered_by_schema platform.schema_hash j t s.store
  unfolding register_schema get_registered_by_schema
  register_schema-not_found subject schema normalize rs s s' j t h =
      elim (stored_call-Returned _
        (register_request platform.schema_to_json subject schema normalize) _ _ s rs s' h) [
          | inl (_, same) ↦ ap (λ z. get_registered_by_schema platform.schema_hash j t z.store) same
          | inr (response, _, _, stored) ↦ ground (
            arith,
            stored,
            set_schema-frame platform.schema_hash (some subject) response.id response.guid
                (key_of schema response response.schema) s.store,
          )
        ]
