-- ===== src/DekClient.antt =====
-- `DekRegistryClient` and its `DekStore` (src/rest/DekRegistryClient.cpp): the calls on keys, through
-- the client's caches of keys, which have no bound and no expiry.
pub mod Repeats
pub mod Updates
use libschemaregistry.Dek.{
  Algorithm, aes128_gcm, aes256_gcm, aes256_siv, Kek, Dek, CreateKekRequest, CreateDekRequest,
  KekId, DekId, kek_id_dec, dek_id_dec, value_or, set_key_material, get_key_material_bytes,
  get_encrypted_key_material_bytes,
}
use libschemaregistry.Exec.{Exec, pure, raise, catch, ◌>>=◌, bind_outcome}
use libschemaregistry.Http.{Request, Session, Parsed, send, or_rest_exception, flag}
use libschemaregistry.Outcome.{
  no_strategy, serialization_error, while_serializing, message_error, Exception, Outcome, ok, throw,
  serde_error, no_executor, no_action, rule_condition_error, wrapped, rest_exception, std_exception,
}
use libschemaregistry.Prelude.Dict.{Dict, lookup, insert}
use libschemaregistry.Prelude.{
  ℕ, Bool, true, false, List, [], ◌∷◌, ◌++◌, Option, none, some, Text, codes, String, ◌==◌,
  if◌then◌else◌,
}
use libschemaregistry.Url.{url_encode, int32_to_string}

pub record DekStore : Type 0 where
  pub keks : Dict KekId Kek
  pub deks : Dict DekId Dek

unfoldable pub set_kek : KekId → Kek → DekStore → DekStore
set_kek id kek st = record st { keks = insert kek_id_dec id kek st.keks }

unfoldable pub set_dek : DekId → Dek → DekStore → DekStore
set_dek id dek st = record st { deks = insert dek_id_dec id dek st.deks }

unfoldable pub find_kek : KekId → DekStore → Option Kek
find_kek id st = lookup kek_id_dec id st.keks

unfoldable pub find_dek : DekId → DekStore → Option Dek
find_dek id st = lookup dek_id_dec id st.deks

pub record DekState (W : Type 0) : Type 0 where
  pub store : DekStore
  pub world : W

-- What the client stands on: nlohmann::json on the model's `to_json` and `from_json`, and abseil's
-- Base64.
pub record DekPlatform (W : Type 0) : Type 0 where
  pub session : Session W
  pub kek_to_json : CreateKekRequest → Outcome Text
  pub dek_to_json : CreateDekRequest → Outcome Text
  pub parse_kek : Text → Parsed Kek
  pub parse_dek : Text → Parsed Dek
  pub base64_escape : List ℕ → Text
  pub base64_unescape : Text → Option (List ℕ)

unfoldable pub algorithm_to_string : Algorithm → Text
algorithm_to_string aes128_gcm = codes "AES128_GCM"
algorithm_to_string aes256_gcm = codes "AES256_GCM"
algorithm_to_string aes256_siv = codes "AES256_SIV"

unfoldable pub cache_key : Text → Text → Option ℕ → Option Algorithm → Bool → DekId
cache_key kek_name subject version algorithm deleted = record {
  kek_name = kek_name;
  subject = subject;
  version = value_or 1 version;
  algorithm = value_or aes256_gcm algorithm;
  deleted = deleted;
}

abbrev pub keks_path : Text → Text
keks_path tail = codes "/dek-registry/v1/keks" ++ tail

abbrev pub post : Text → Text → Request
post path body = record { path = path; verb = codes "POST"; query = []; body = body }

abbrev pub lift : {W A : Type 0} → Outcome A → Exec W A
lift r w = (r, w)

-- The queries are `std::map`s, so that "algorithm" comes before "deleted".
abbrev pub get_request : Text → Dict Text Text → Request
get_request path query = record { path = path; verb = codes "GET"; query = query; body = [] }

-- `if (kek.has_value()) return kek.value();`
unfoldable pub or_else : {W A : Type 0} → Option A → Exec W A → Exec W A
or_else (some a) m w = (ok a, w)
or_else none m w = m w

-- `e.getStatus() == 405`, and a rethrow of anything else
unfoldable pub on_405 : {W A : Type 0} → Exec W A → Exception → Exec W A
on_405 m (rest_exception message status) w =
    let (r, w') = m w in
    if status == 405 then (r, w') else (throw (rest_exception message status), w)
on_405 m (serde_error message) w = (throw (serde_error message), w)
on_405 m (no_executor type) w = (throw (no_executor type), w)
on_405 m (no_action name) w = (throw (no_action name), w)
on_405 m (no_strategy name) w = (throw (no_strategy name), w)
on_405 m (rule_condition_error rule) w = (throw (rule_condition_error rule), w)
on_405 m (wrapped e) w = (throw (wrapped e), w)
on_405 m (std_exception what) w = (throw (std_exception what), w)
on_405 m (serialization_error message) w = (throw (serialization_error message), w)
on_405 m (message_error message) w = (throw (message_error message), w)
on_405 m (while_serializing prefix e) w = (throw (while_serializing prefix e), w)

module _ {W : Type 0} (platform : DekPlatform W) where
  open platform use {session, base64_escape, base64_unescape}

  -- "/dek-registry/v1/keks/" + urlEncode(name) + `tail`
  unfoldable pub kek_path : Text → Text → Exec (DekState W) Text
  kek_path name tail = do
    escaped ← lift (url_encode name)
    pure (keks_path (codes "/" ++ (escaped ++ tail)))

  unfoldable pub exchange : Request → Exec (DekState W) Text
  exchange request s =
      let (answer, world) = send session request s.world in (answer, record s { world = world })

  unfoldable pub parse_kek_from_json : Text → Outcome Kek
  parse_kek_from_json text =
      or_rest_exception (codes "Failed to parse KEK from JSON: ") (platform.parse_kek text)

  unfoldable pub parse_dek_from_json : Text → Outcome Dek
  parse_dek_from_json text =
      or_rest_exception (codes "Failed to parse DEK from JSON: ") (platform.parse_dek text)

  unfoldable pub update_store : (DekStore → DekStore) → Exec (DekState W) Unit
  update_store f s = (ok tt, record s { store = f s.store })

  -- The call on an answer for a kek that is then entered under its key.
  unfoldable pub fetch_kek : KekId → Request → Exec (DekState W) Kek
  fetch_kek id request = do
    text ← exchange request
    kek ← lift (parse_kek_from_json text)
    _ ← update_store (set_kek id kek)
    pure kek

  unfoldable pub register_kek : CreateKekRequest → Exec (DekState W) Kek
  register_kek request s =
      let id : KekId = record { name = request.name; deleted = false } in
      or_else (find_kek id s.store)
        (do body ← lift (platform.kek_to_json request); fetch_kek id (post (keks_path []) body)) s

  unfoldable pub get_kek : Text → Bool → Exec (DekState W) Kek
  get_kek name deleted s =
      let id : KekId = record { name = name; deleted = deleted } in
      or_else (find_kek id s.store)
        (do
          path ← kek_path name []
          fetch_kek id (get_request path ((codes "deleted", flag deleted) ∷ [])))
        s

  -- The answer to a registration, entered under its key.
  unfoldable pub fetch_dek : DekId → Request → Exec (DekState W) Dek
  fetch_dek id request = do
    text ← exchange request
    dek ← lift (parse_dek_from_json text)
    _ ← update_store (set_dek id dek)
    pure dek

  -- The `try` block of `registerDek`: the API with the subject in the path.
  unfoldable pub register_with_subject :
      Text → CreateDekRequest → DekId → Text → Exec (DekState W) Dek
  register_with_subject kek_name request id body = do
    escaped ← lift (url_encode kek_name)
    subject ← lift (url_encode request.subject)
    fetch_dek id (post (keks_path (codes "/" ++ (escaped ++ (codes "/deks/" ++ subject)))) body)

  -- The older API, without the subject in the path.
  unfoldable pub register_without_subject : Text → DekId → Text → Exec (DekState W) Dek
  register_without_subject kek_name id body = do
    path ← kek_path kek_name (codes "/deks")
    fetch_dek id (post path body)

  unfoldable pub register_dek : Text → CreateDekRequest → Exec (DekState W) Dek
  register_dek kek_name request s =
      let id = cache_key kek_name request.subject request.version request.algorithm false in
      or_else (find_dek id s.store)
        (do
          body ← lift (platform.dek_to_json request)
          catch (register_with_subject kek_name request id body)
              (on_405 (register_without_subject kek_name id body)))
        s

  -- `populateKeyMaterialBytes`
  unfoldable pub populate_key_material_bytes : Dek → Dek
  populate_key_material_bytes dek =
      (get_key_material_bytes base64_escape base64_unescape
        (get_encrypted_key_material_bytes base64_escape base64_unescape dek).1).1

  unfoldable pub get_dek : Text → Text → Option Algorithm → Option ℕ → Bool → Exec (DekState W) Dek
  get_dek kek_name subject algorithm version deleted s =
      let id = cache_key kek_name subject version algorithm deleted in
      or_else (find_dek id s.store)
        (do
          escaped ← lift (url_encode kek_name)
          name ← lift (url_encode subject)
          text ← exchange (
              get_request
                (keks_path (
                  codes "/"
                  ++ (escaped
                      ++ (codes "/deks/"
                          ++ (name ++ (codes "/versions/" ++ int32_to_string id.version))))))
                ((codes "algorithm", algorithm_to_string id.algorithm)
                  ∷ (codes "deleted", flag deleted)
                  ∷ []))
          dek ← lift (parse_dek_from_json text)
          _ ← update_store (set_dek id (populate_key_material_bytes dek))
          pure (populate_key_material_bytes dek))
        s

  -- `setDekKeyMaterial`, on what `getMutDek` gives: a copy of the key, which is changed and put back.
  unfoldable pub change_dek : DekId → List ℕ → Option Dek → Exec (DekState W) Dek
  change_dek id bytes none = raise (rest_exception (codes "DEK not found") 0)
  change_dek id bytes (some dek) = do
    let changed =
        populate_key_material_bytes (set_key_material base64_escape base64_unescape bytes dek)
    _ ← update_store (set_dek id changed)
    pure changed

  unfoldable pub set_dek_key_material :
      Text → Text → Option Algorithm → Option ℕ → Bool → List ℕ → Exec (DekState W) Dek
  set_dek_key_material kek_name subject algorithm version deleted bytes s =
      let id = cache_key kek_name subject version algorithm deleted in
      change_dek id bytes (find_dek id s.store) s

unfoldable pub clear_caches : {W : Type 0} → DekState W → DekState W
clear_caches s = record s { store = record { keks = []; deks = [] } }
