-- ===== src/Dek.antt =====
-- Data encryption keys: `Kek` and `Dek` (src/rest/model) and the mock registry of them
-- (src/rest/MockDekRegistryClient.cpp). Base64 (abseil's) is a parameter, and the clock an argument.
pub mod Laws
use libschemaregistry.Outcome.{Exception, Outcome, ok, throw}
use libschemaregistry.Prelude.Dict.{Dict, lookup, insert}
use libschemaregistry.Prelude.{
  ℕ, Bool, true, false, List, [], ◌∷◌, ◌++◌, Option, none, some, Text, text_dec, ℕ_discrete, codes,
}

pub data Algorithm : Type 0 where
  aes128_gcm aes256_gcm aes256_siv : Algorithm

pub record Kek : Type 0 where
  pub name : Text
  pub kms_type : Text
  pub kms_key_id : Text
  pub kms_props : Option (Dict Text Text)
  pub doc : Option Text
  pub shared : Bool
  pub ts : ℕ
  pub deleted : Option Bool

-- The two fields of bytes are the caches of the getters of the same names.
pub record Dek : Type 0 where
  pub kek_name : Text
  pub subject : Text
  pub version : ℕ
  pub algorithm : Algorithm
  pub encrypted_key_material : Option Text
  pub key_material : Option Text
  pub encrypted_key_material_bytes : Option (List ℕ)
  pub key_material_bytes : Option (List ℕ)
  pub ts : ℕ
  pub deleted : Option Bool

pub record CreateKekRequest : Type 0 where
  pub name : Text
  pub kms_type : Text
  pub kms_key_id : Text
  pub kms_props : Option (Dict Text Text)
  pub doc : Option Text
  pub shared : Bool

pub record CreateDekRequest : Type 0 where
  pub subject : Text
  pub version : Option ℕ
  pub algorithm : Option Algorithm
  pub encrypted_key_material : Option Text

pub record KekId : Type 0 where
  pub name : Text
  pub deleted : Bool

pub record DekId : Type 0 where
  pub kek_name : Text
  pub subject : Text
  pub version : ℕ
  pub algorithm : Algorithm
  pub deleted : Bool

unfoldable pub kek_id_dec : Discrete KekId
kek_id_dec = hlevel text_dec

unfoldable pub dek_id_dec : Discrete DekId
dek_id_dec = hlevel (text_dec, ℕ_discrete)

pub record MockDekStore : Type 0 where
  pub keks : Dict KekId Kek
  pub deks : Dict DekId Dek

unfoldable pub set_kek : KekId → Kek → MockDekStore → MockDekStore
set_kek kek_id kek st = record st { keks = insert kek_id_dec kek_id kek st.keks }

unfoldable pub set_dek : DekId → Dek → MockDekStore → MockDekStore
set_dek dek_id dek st = record st { deks = insert dek_id_dec dek_id dek st.deks }

unfoldable pub find_kek : KekId → MockDekStore → Option Kek
find_kek kek_id st = lookup kek_id_dec kek_id st.keks

unfoldable pub find_dek : DekId → MockDekStore → Option Dek
find_dek dek_id st = lookup dek_id_dec dek_id st.deks

unfoldable pub clear_caches : MockDekStore → MockDekStore
clear_caches st = record st { keks = []; deks = [] }

abbrev pub value_or : {A : Type 0} → A → Option A → A
value_or d none = d
value_or d (some a) = a

-- The key of a data encryption key: version 1 and AES-256-GCM where none is given.
unfoldable pub dek_id : Text → Text → Option ℕ → Option Algorithm → DekId
dek_id kek_name subject version algorithm = record {
  kek_name = kek_name;
  subject = subject;
  version = value_or 1 version;
  algorithm = value_or aes256_gcm algorithm;
  deleted = false;
}

-- `registerKek`, on what `getKek` of the store gives; `now` is the clock's.
unfoldable pub kek_or_new : ℕ → CreateKekRequest → MockDekStore → Option Kek → Kek × MockDekStore
kek_or_new now request st (some kek) = (kek, st)
kek_or_new now request st none =
    let kek : Kek = record {
      name = request.name;
      kms_type = request.kms_type;
      kms_key_id = request.kms_key_id;
      kms_props = request.kms_props;
      doc = request.doc;
      shared = request.shared;
      ts = now;
      deleted = some false;
    } in
    (kek, set_kek (record { name = request.name; deleted = false }) kek st)

unfoldable pub register_kek : ℕ → CreateKekRequest → MockDekStore → Kek × MockDekStore
register_kek now request st =
    kek_or_new now request st (find_kek (record { name = request.name; deleted = false }) st)

unfoldable pub dek_or_new :
    ℕ → Text → CreateDekRequest → MockDekStore → Option Dek → Dek × MockDekStore
dek_or_new now kek_name request st (some dek) = (dek, st)
dek_or_new now kek_name request st none =
    let dek : Dek = record {
      kek_name = kek_name;
      subject = request.subject;
      version = value_or 1 request.version;
      algorithm = value_or aes256_gcm request.algorithm;
      encrypted_key_material = request.encrypted_key_material;
      key_material = none;
      encrypted_key_material_bytes = none;
      key_material_bytes = none;
      ts = now;
      deleted = some false;
    } in
    (dek, set_dek (dek_id kek_name request.subject request.version request.algorithm) dek st)

unfoldable pub register_dek : ℕ → Text → CreateDekRequest → MockDekStore → Dek × MockDekStore
register_dek now kek_name request st =
    dek_or_new now kek_name request st
      (find_dek (dek_id kek_name request.subject request.version request.algorithm) st)

unfoldable pub get_kek : Text → Bool → MockDekStore → Outcome Kek
get_kek name deleted st = elim (find_kek (record { name = name; deleted = deleted }) st) [
  | some kek ↦ ok kek
  | none ↦ throw (Exception.rest_exception (codes "KEK not found: " ++ name) 404)
]

-- The argument `deleted` is not used.
unfoldable pub get_dek :
    Text → Text → Option Algorithm → Option ℕ → Bool → MockDekStore → Outcome Dek
get_dek kek_name subject algorithm version deleted st =
    elim (find_dek (dek_id kek_name subject version algorithm) st) [
      | some dek ↦ ok dek
      | none ↦ throw (
          Exception.rest_exception (codes "DEK not found: " ++ (kek_name ++ (codes "/" ++ subject)))
            404)
    ]

module _ (base64_escape : List ℕ → Text) (base64_unescape : Text → Option (List ℕ)) where
  -- `base64_decode`: nothing where the text cannot be decoded.
  unfoldable pub base64_decode : Text → List ℕ
  base64_decode t = value_or [] (base64_unescape t)

  -- `setKeyMaterial` of bytes. The cached bytes are left as they are.
  unfoldable pub set_key_material : List ℕ → Dek → Dek
  set_key_material bytes dek = record dek { key_material = some (base64_escape bytes) }

  -- `getKeyMaterialBytes`, on the text and on the cache that it fills.
  unfoldable pub read_material : Option Text → Option (List ℕ) → Option (List ℕ) × Option (List ℕ)
  read_material none cache = (none, cache)
  read_material (some t) (some bytes) = (some bytes, some bytes)
  read_material (some t) none = (some (base64_decode t), some (base64_decode t))

  unfoldable pub get_key_material_bytes : Dek → Option (List ℕ) × Dek
  get_key_material_bytes dek =
      let (r, cache) = read_material dek.key_material dek.key_material_bytes in
      (r, record dek { key_material_bytes = cache })

  unfoldable pub get_encrypted_key_material_bytes : Dek → Option (List ℕ) × Dek
  get_encrypted_key_material_bytes dek =
      let (r, cache) = read_material dek.encrypted_key_material dek.encrypted_key_material_bytes in
      (r, record dek { encrypted_key_material_bytes = cache })

  -- `setDekKeyMaterial`, on the pointer that `getMutDek` gives: the key changes in the store.
  unfoldable pub update_dek :
      DekId → List ℕ → MockDekStore → Option Dek → Outcome (Dek × MockDekStore)
  update_dek id bytes st (some dek) =
      ok (set_key_material bytes dek, set_dek id (set_key_material bytes dek) st)
  update_dek id bytes st none = throw (
      Exception.rest_exception
        (codes "DEK not found for key material update: "
          ++ (id.kek_name ++ (codes "/" ++ id.subject)))
        0)

  unfoldable pub set_dek_key_material :
      Text
      → Text
      → Option Algorithm
      → Option ℕ
      → Bool
      → List ℕ
      → MockDekStore
      → Outcome (Dek × MockDekStore)
  set_dek_key_material kek_name subject algorithm version deleted bytes st =
      let id = dek_id kek_name subject version algorithm in update_dek id bytes st (find_dek id st)
