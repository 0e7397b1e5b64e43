-- ===== src/Encryption/Keys.antt =====
-- The keys of `EncryptionExecutorTransform` (src/rules/encryption/EncryptionExecutor.cpp): the key
-- encryption key of a rule and the data encryption key of a subject, found in the DEK registry or
-- made there. A version is the 32-bit pattern of an `int32_t`; the times, `int64_t`s in
-- milliseconds, are not negative.
use libschemaregistry.Dek.{
  Algorithm, aes128_gcm, aes256_gcm, aes256_siv, Kek, Dek, CreateKekRequest, CreateDekRequest,
  DekId, value_or, get_key_material_bytes, get_encrypted_key_material_bytes,
}
use libschemaregistry.Exec.{Exec, pure, raise, catch, ◌>>=◌, bind_outcome}
use libschemaregistry.FieldRules.{get_parameter}
use libschemaregistry.Mock.Store.{next_int}
use libschemaregistry.Model.{Mode, read, write, upgrade, downgrade, up_down, write_read}
use libschemaregistry.Outcome.{
  Exception, ok, throw, serde_error, message_error, rest_exception, no_executor, no_action,
  no_strategy, rule_condition_error, wrapped, std_exception, serialization_error, while_serializing,
}
use libschemaregistry.Prelude.{
  ℕ, ◌-◌, ◌/◌, Bool, true, false, ◌&&◌, List, [], ◌++◌, Option, none, some, Text, text_dec, codes,
  String, ite, ltb, ◌==◌, if◌then◌else◌,
}
use libschemaregistry.Rules.{RuleContext}

-- `IDekRegistryClient`
pub record DekRegistry (W : Type 0) : Type 0 where
  pub register_kek : CreateKekRequest → Exec W Kek
  pub get_kek : Text → Bool → Exec W Kek
  pub register_dek : Text → CreateDekRequest → Exec W Dek
  pub get_dek : Text → Text → Option Algorithm → Option ℕ → Bool → Exec W Dek
  pub set_dek_key_material : Text → Text → Option Algorithm → Option ℕ → Bool → List ℕ → Exec W Dek

-- What an executor stands on: the client, which is null before `configure`; the clock; Tink's
-- primitives and the KMS of a key encryption key; and abseil's Base64. The key is the first
-- argument of `encrypt` and `decrypt`.
pub record Executor (W : Type 0) : Type 0 where
  pub client : Option (DekRegistry W)
  pub now : W → ℕ × W
  pub generate_key : Algorithm → Exec W (List ℕ)
  pub encrypt : Algorithm → List ℕ → List ℕ → Exec W (List ℕ)
  pub decrypt : Algorithm → List ℕ → List ℕ → Exec W (List ℕ)
  pub encrypt_dek : Kek → List ℕ → Exec W (List ℕ)
  pub decrypt_dek : Kek → List ℕ → Exec W (List ℕ)
  pub base64_escape : List ℕ → Text
  pub base64_unescape : Text → Option (List ℕ)

-- `EncryptionExecutorTransform`: the fields that do not change, and its state.
pub record Transform : Type 0 where
  pub algorithm : Algorithm
  pub kek_name : Text
  pub dek_expiry_days : ℕ

pub record TransformState (W : Type 0) : Type 0 where
  pub kek : Option Kek
  pub world : W

abbrev pub with_executor : {W A : Type 0} → Exec W A → Exec (TransformState W) A
with_executor m s = let (r, w) = m s.world in (r, record s { world = w })

-- `Cryptor::isDeterministic`
unfoldable pub is_deterministic : Algorithm → Bool
is_deterministic aes128_gcm = false
is_deterministic aes256_gcm = false
is_deterministic aes256_siv = true

unfoldable pub is_read : Mode → Bool
is_read read = true
is_read write = false
is_read upgrade = false
is_read downgrade = false
is_read up_down = false
is_read write_read = false

-- "no … found for " + name + " during …"
abbrev pub missing : String → Text → String → Exception
missing what name when =
    message_error (codes "no " ++ (codes what ++ (codes " found for " ++ (name ++ codes when))))

-- The handler `catch (const RestException &e)`: no value on the status given, and a rethrow of
-- anything else.
unfoldable pub none_on : {W A : Type 0} → ℕ → Exception → Exec W (Option A)
none_on status (rest_exception message actual) w =
    if actual == status then (ok none, w) else (throw (rest_exception message actual), w)
none_on status (serde_error message) w = (throw (serde_error message), w)
none_on status (message_error message) w = (throw (message_error message), w)
none_on status (no_executor type) w = (throw (no_executor type), w)
none_on status (no_action name) w = (throw (no_action name), w)
none_on status (no_strategy name) w = (throw (no_strategy name), w)
none_on status (rule_condition_error rule) w = (throw (rule_condition_error rule), w)
none_on status (wrapped e) w = (throw (wrapped e), w)
none_on status (std_exception what) w = (throw (std_exception what), w)
none_on status (serialization_error message) w = (throw (serialization_error message), w)
none_on status (while_serializing prefix e) w = (throw (while_serializing prefix e), w)

-- `if (!client) throw SerdeError("Client not configured");`
unfoldable pub with_client :
    {W A : Type 0} → (DekRegistry W → Exec W A) → Option (DekRegistry W) → Exec W A
with_client call none = raise (serde_error "Client not configured")
with_client call (some client) = call client

-- A call of the client that gives a value, or none on the status given.
unfoldable pub attempt :
    {W A : Type 0} → ℕ → (DekRegistry W → Exec W A) → Option (DekRegistry W) → Exec W (Option A)
attempt status call client = catch (do a ← with_client call client; pure (some a)) (none_on status)

-- A text of the rule that is given and another than the one found.
unfoldable pub differs : Option Text → Text → Bool
differs none actual = false
differs (some expected) actual = ite (text_dec actual expected) false true

abbrev other_kms : Text → String → Text → Text → Exception
other_kms name what actual expected = message_error (
    codes "found "
    ++ (name
        ++ (codes " with kms "
            ++ (codes what
                ++ (codes " "
                    ++ (actual
                        ++ (codes " which differs from rule kms "
                            ++ (codes what ++ (codes " " ++ expected)))))))))

module _ {W : Type 0} (executor : Executor W) (t : Transform) (ctx : RuleContext) where
  open executor use {client, base64_escape, base64_unescape}

  -- The `KekId`s of the transform are all of the key that is not deleted.
  unfoldable pub retrieve_kek_from_registry : Exec W (Option Kek)
  retrieve_kek_from_registry = attempt 404 (λ c. c.get_kek t.kek_name false) client

  unfoldable pub store_kek_to_registry : Text → Text → Bool → Exec W (Option Kek)
  store_kek_to_registry kms_type kms_key_id shared =
      let request : CreateKekRequest = record {
        name = t.kek_name;
        kms_type = kms_type;
        kms_key_id = kms_key_id;
        kms_props = none;
        doc = none;
        shared = shared;
      } in
      attempt 409 (λ c. c.register_kek request) client

  -- A conflict, and a key that is still not there.
  unfoldable pub or_retrieve_kek : Option Kek → Exec W (Option Kek)
  or_retrieve_kek (some kek) = pure (some kek)
  or_retrieve_kek none = retrieve_kek_from_registry

  unfoldable pub or_no_kek : Option Kek → Exec W Kek
  or_no_kek (some kek) = pure kek
  or_no_kek none = raise (missing "kek" t.kek_name " during produce")

  unfoldable pub create_kek : Option Text → Option Text → Exec W Kek
  create_kek none kms_key_id = raise (missing "kms type" t.kek_name " during produce")
  create_kek (some kms_type) none = raise (missing "kms key id" t.kek_name " during produce")
  create_kek (some kms_type) (some kms_key_id) = do
    stored ← store_kek_to_registry kms_type kms_key_id false
    kek ← or_retrieve_kek stored
    or_no_kek kek

  -- What is done with the key that the registry has, or has not.
  unfoldable pub kek_found : Option Text → Option Text → Option Kek → Exec W Kek
  kek_found kms_type kms_key_id (some kek) w =
      if differs kms_type kek.kms_type
      then (throw (other_kms t.kek_name "type" kek.kms_type (value_or [] kms_type)), w)
      else if differs kms_key_id kek.kms_key_id
      then (throw (other_kms t.kek_name "key id" kek.kms_key_id (value_or [] kms_key_id)), w)
      else (ok kek, w)
  kek_found kms_type kms_key_id none w =
      let (r, w') = create_kek kms_type kms_key_id w in
      if is_read ctx.rule_mode
      then (throw (missing "kek" t.kek_name " during consume"), w)
      else (r, w')

  unfoldable pub get_or_create_kek : Exec W Kek
  get_or_create_kek = do
    found ← retrieve_kek_from_registry
    kek_found (get_parameter (codes "encrypt.kms.type") ctx)
        (get_parameter (codes "encrypt.kms.key.id") ctx) found

  abbrev pub remember : Kek → Exec (TransformState W) Kek
  remember kek s = (ok kek, record s { kek = some kek })

  -- `getKek`, on what the transform remembers.
  unfoldable pub kek_or_created : Option Kek → Exec (TransformState W) Kek
  kek_or_created (some kek) = pure kek
  kek_or_created none = do kek ← with_executor get_or_create_kek; remember kek

  unfoldable pub get_kek : Exec (TransformState W) Kek
  get_kek s = kek_or_created s.kek s

  unfoldable pub retrieve_dek_from_registry : DekId → Exec W (Option Dek)
  retrieve_dek_from_registry id =
      attempt 404
        (λ c. c.get_dek id.kek_name id.subject (some id.algorithm) (some id.version) id.deleted)
        client

  unfoldable pub escaped : Option (List ℕ) → Option Text
  escaped none = none
  escaped (some bytes) = some (base64_escape bytes)

  unfoldable pub store_dek_to_registry : DekId → Option (List ℕ) → Exec W (Option Dek)
  store_dek_to_registry id encrypted_dek =
      let request : CreateDekRequest = record {
        subject = id.subject;
        version = some id.version;
        algorithm = some id.algorithm;
        encrypted_key_material = escaped encrypted_dek;
      } in
      attempt 409 (λ c. c.register_dek id.kek_name request) client

  unfoldable pub or_retrieve_dek : DekId → Option Dek → Exec W (Option Dek)
  or_retrieve_dek id (some dek) = pure (some dek)
  or_retrieve_dek id none = retrieve_dek_from_registry id

  unfoldable pub or_no_dek : DekId → Option Dek → Exec W Dek
  or_no_dek id (some dek) = pure dek
  or_no_dek id none = raise (missing "dek" id.kek_name " during produce")

  -- After a conflict the key is looked for under the version asked for, not under the new one.
  unfoldable pub create_dek : DekId → ℕ → Option (List ℕ) → Exec W Dek
  create_dek id new_version encrypted_dek = do
    stored ← store_dek_to_registry (record id { version = new_version }) encrypted_dek
    dek ← or_retrieve_dek id stored
    or_no_dek id dek

  -- The milliseconds since the key was made, in whole days, against the limit of the rule. A clock
  -- before the key's own time gives no day.
  unfoldable pub is_expired : Option Dek → Exec W Bool
  is_expired none w = (ok false, (executor.now w).1)
  is_expired (some dek) w =
      let (now, w') = executor.now w in
      if is_read ctx.rule_mode
      then (ok false, w')
      else (ok (ltb 0 t.dek_expiry_days && ltb t.dek_expiry_days ((now - dek.ts) / 86400000)), w')

  -- A new key, encrypted, unless the registry shares the key encryption key.
  unfoldable pub new_encrypted_dek : Kek → Exec W (Option (List ℕ))
  new_encrypted_dek kek w =
      let (r, w') =
        (do
          raw_dek ← executor.generate_key t.algorithm
          encrypted ← executor.encrypt_dek kek raw_dek
          pure (some encrypted))
          w in
      if kek.shared then (ok none, w) else (r, w')

  -- What is done with the key that the registry has, or has not. A rotation that fails leaves the
  -- key that has expired in use.
  unfoldable pub dek_found : Kek → DekId → Option Dek → Bool → Exec W Dek
  dek_found kek id none expired w =
      let (r, w') = (do encrypted ← new_encrypted_dek kek; create_dek id 1 encrypted) w in
      if is_read ctx.rule_mode
      then (throw (missing "dek" id.kek_name " during consume"), w)
      else (r, w')
  dek_found kek id (some dek) false w = (ok dek, w)
  dek_found kek id (some dek) true w =
      let (r, w') =
        (do
          encrypted ← new_encrypted_dek kek
          new_version ← bind_outcome (next_int dek.version) pure
          catch (create_dek id new_version encrypted) (λ e. pure dek))
          w in
      if is_read ctx.rule_mode
      then (throw (missing "dek" id.kek_name " during consume"), w)
      else (r, w')

  unfoldable pub update_cached_dek : DekId → List ℕ → Exec W Dek
  update_cached_dek id bytes =
      with_client
        (λ c.
          c.set_dek_key_material id.kek_name id.subject (some id.algorithm) (some id.version)
            id.deleted bytes)
        client

  unfoldable pub decrypted : Kek → DekId → Option (List ℕ) → Exec W Dek
  decrypted kek id none = raise (serde_error "no encrypted key material found")
  decrypted kek id (some bytes) = do
    raw_dek ← executor.decrypt_dek kek bytes
    update_cached_dek id raw_dek

  -- The key with its bytes; the getters fill the caches in the key.
  unfoldable pub with_key_bytes : Kek → DekId → Option (List ℕ) → Dek → Exec W Dek
  with_key_bytes kek id (some bytes) dek = pure dek
  with_key_bytes kek id none dek =
      decrypted kek id (get_encrypted_key_material_bytes base64_escape base64_unescape dek).0

  abbrev pub checked_dek : Kek → DekId → Dek → Exec W Dek
  checked_dek kek id dek =
      let (bytes, dek') = get_key_material_bytes base64_escape base64_unescape dek in
      with_key_bytes kek id bytes dek'

  -- Version 1 where none, or 0, is asked for.
  unfoldable pub actual_version : Option ℕ → ℕ
  actual_version none = 1
  actual_version (some v) = if v == 0 then 1 else v

  unfoldable pub dek_id : Kek → Option ℕ → DekId
  dek_id kek version = record {
    kek_name = kek.name;
    subject = ctx.subject;
    version = actual_version version;
    algorithm = if is_deterministic t.algorithm then aes256_siv else aes256_gcm;
    deleted = is_read ctx.rule_mode;
  }

  unfoldable pub get_or_create_dek : Option ℕ → Exec (TransformState W) Dek
  get_or_create_dek version = do
    kek ← get_kek
    let id = dek_id kek version
    with_executor (do
      found ← retrieve_dek_from_registry id
      expired ← is_expired found
      dek ← dek_found kek id found expired
      checked_dek kek id dek)
