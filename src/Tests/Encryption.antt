-- ===== src/Tests/Encryption.antt =====
-- The encryption of fields (src/rules/encryption/EncryptionExecutor.cpp) with a registry and a cipher
-- that are easy to follow; the world counts the calls.
use libschemaregistry.Dek.{aes256_gcm, Kek, Dek, get_key_material_bytes, read_material}
use libschemaregistry.Encryption.Keys.{
  DekRegistry, Executor, Transform, TransformState, get_or_create_dek, get_kek, kek_or_created,
  retrieve_dek_from_registry, is_expired, dek_found, dek_id, with_key_bytes, attempt, with_client,
  is_read, create_dek, new_encrypted_dek, checked_dek, store_dek_to_registry, none_on,
}
use libschemaregistry.Encryption.Readers.{get_or_create_dek-read}
use libschemaregistry.Encryption.Rotation.{
  get_or_create_dek-keeps_expired, get_or_create_dek-throws,
}
use libschemaregistry.Encryption.RoundTrip.{IsLawful, transform-transform}
use libschemaregistry.Encryption.{
  SerdeValue, to_object, object_or, transform, to_bytes, version_to_write, is_dek_rotated,
}
use libschemaregistry.Exec.{raise, pure}
use libschemaregistry.FieldRules.{string_type}
use libschemaregistry.Mock.Store.{next_int}
use libschemaregistry.Model.{Mode, Rule, read, write, transform as transform_kind}
use libschemaregistry.Outcome.{ok, throw, rest_exception}
use libschemaregistry.Prelude.{
  ℕ, ◌+◌, false, List, [], ◌∷◌, Option, none, some, Text, codes, ◌≡◌, refl, ap, arith, ◌⊎◌,
}
use libschemaregistry.Rules.{RuleContext}

abbrev shared_kek : Kek
shared_kek = record {
  name = codes "k";
  kms_type = codes "local";
  kms_key_id = codes "id";
  kms_props = none;
  doc = none;
  shared = false;
  ts = 0;
  deleted = none;
}

abbrev key_of : Option Text → Dek
key_of material = record {
  kek_name = codes "k";
  subject = codes "s";
  version = 3;
  algorithm = aes256_gcm;
  encrypted_key_material = some (8 ∷ []);
  key_material = material;
  encrypted_key_material_bytes = none;
  key_material_bytes = material;
  ts = 0;
  deleted = none;
}

-- A registry with one key, which takes no other.
abbrev dek_registry : DekRegistry ℕ
dek_registry = record {
  register_kek = λ request. pure shared_kek;
  get_kek = λ name deleted. pure shared_kek;
  register_dek = λ name request. raise (rest_exception [] 500);
  get_dek = λ name subject algorithm version deleted w. (ok (key_of (some (7 ∷ []))), w + 1);
  set_dek_key_material =
      λ name subject algorithm version deleted bytes w. (ok (key_of (some bytes)), w + 1);
}

abbrev rest_of : List ℕ → List ℕ
rest_of [] = []
rest_of (x ∷ xs) = xs

-- A ciphertext has the number 9 in front; the days go by with the clock that is given.
abbrev executor_at : ℕ → DekRegistry ℕ → Executor ℕ
executor_at now client = record {
  client = some client;
  now = λ w. (now, w);
  generate_key = λ algorithm w. (ok (5 ∷ []), w + 1);
  encrypt = λ algorithm key plaintext w. (ok (9 ∷ plaintext), w + 1);
  decrypt = λ algorithm key ciphertext w. (ok (rest_of ciphertext), w + 1);
  encrypt_dek = λ kek raw w. (ok (6 ∷ raw), w + 1);
  decrypt_dek = λ kek bytes w. (ok (4 ∷ bytes), w + 1);
  base64_escape = λ bytes. bytes;
  base64_unescape = λ text. some text;
}

abbrev texts : SerdeValue (List ℕ)
texts = record {
  as_string = λ v. ok v;
  as_bytes = λ v. ok v;
  new_string = λ v. v;
  new_bytes = λ v. v;
}

abbrev rotating : Transform
rotating = record { algorithm = aes256_gcm; kek_name = codes "k"; dek_expiry_days = 2 }

abbrev rule : Rule
rule = record {
  name = none;
  doc = none;
  kind = some transform_kind;
  mode = none;
  rule_type = none;
  tags = none;
  params = none;
  expr = none;
  on_success = none;
  on_failure = none;
  disabled = none;
}

abbrev in_mode : Mode → RuleContext
in_mode mode = record {
  enabled_env = none;
  source = none;
  target = none;
  subject = codes "s";
  rule_mode = mode;
  rule = rule;
  index = 0;
  rules = [];
}

abbrev at_world : ℕ → TransformState ℕ
at_world w = record { kek = some shared_kek; world = w }

texts-IsLawful : IsLawful (executor_at 0 dek_registry) texts rotating
texts-IsLawful = record { text = λ s. refl; bytes = λ s. refl; base64 = λ s. refl }

finds :
    (mode : Mode) (version : Option ℕ) (w : ℕ)
    → get_or_create_dek (executor_at 0 dek_registry) rotating (in_mode mode) version (at_world w)
      ≡ (ok (key_of (some (7 ∷ []))), at_world (w + 1))
unfolding get_or_create_dek get_kek kek_or_created retrieve_dek_from_registry attempt with_client
    is_expired dek_found with_key_bytes get_key_material_bytes read_material is_read
finds mode version w = ground arith

takes :
    to_bytes (executor_at 0 dek_registry) texts rotating string_type (1 ∷ []) ≡ ok (some (1 ∷ []))
unfolding to_bytes
takes = refl

key_there :
    (get_key_material_bytes (λ bytes. bytes) (λ text. some text) (key_of (some (7 ∷ []))))
    ≡ (some (7 ∷ []), key_of (some (7 ∷ [])))
unfolding get_key_material_bytes read_material
key_there = refl

made :
    new_encrypted_dek (executor_at 259200000 dek_registry) rotating (in_mode write) shared_kek 1
    ≡ (ok (some (6 ∷ 5 ∷ [])), 3)
unfolding new_encrypted_dek
made = refl

refused :
    create_dek
      (executor_at 259200000 dek_registry)
      rotating
      (in_mode write)
      (dek_id
        (executor_at 259200000 dek_registry)
        rotating
        (in_mode write)
        shared_kek
        (some 4294967295))
      4
      (some (6 ∷ 5 ∷ []))
      3
    ≡ (throw (rest_exception [] 500), 3)
unfolding create_dek store_dek_to_registry attempt with_client none_on
refused = refl

-- A text is written with the version of the rotated key, and read again.
transform-transform_example :
    (written : List ℕ) × (transform
        (executor_at 0 dek_registry)
        texts
        rotating
        (in_mode write)
        string_type
        (1 ∷ [])
        (at_world 0)
      ≡ (ok written, at_world 2))
    × (transform
          (executor_at 0 dek_registry)
          texts
          rotating
          (in_mode read)
          string_type
          written
          (at_world 5)
        ≡ (ok (1 ∷ []), at_world 7))
unfolding to_object object_or is_dek_rotated
transform-transform_example =
    transform-transform (executor_at 0 dek_registry) texts rotating (in_mode write) (in_mode read)
      string_type (1 ∷ []) (1 ∷ []) (7 ∷ []) (9 ∷ 1 ∷ []) (key_of (some (7 ∷ [])))
      (key_of (some (7 ∷ []))) (at_world 0) (at_world 1) (at_world 5) (at_world 6) 2 7
      texts-IsLawful refl refl takes (finds write (version_to_write rotating) 0) (omega arith)
      (ap (λ p. p.0) key_there) refl (finds read (some 3) 5) (ap (λ p. p.0) key_there) refl

-- Three days after the key was made, and the registry refuses to make another.
get_or_create_dek-keeps_expired_example :
    get_or_create_dek
      (executor_at 259200000 dek_registry)
      rotating
      (in_mode write)
      (some 4294967295)
      (at_world 0)
    ≡ (ok (key_of (some (7 ∷ []))), at_world 3)
get_or_create_dek-keeps_expired_example =
    get_or_create_dek-keeps_expired (executor_at 259200000 dek_registry) rotating (in_mode write)
      shared_kek dek_registry (key_of (some (7 ∷ []))) (7 ∷ []) (some (6 ∷ 5 ∷ []))
      (rest_exception [] 500) (some 4294967295) (at_world 0) 1 3 3 refl refl refl refl (omega arith)
      (omega arith) key_there (omega arith) made refused

-- The same, where the key encryption key cannot be used.
abbrev without_kms : Executor ℕ
without_kms = record (executor_at 259200000 dek_registry) {
  encrypt_dek = λ kek raw. raise (rest_exception [] 503);
}

throws :
    get_or_create_dek without_kms rotating (in_mode write) (some 4294967295) (at_world 0)
    ≡ (throw (rest_exception [] 503), at_world 2)
unfolding get_or_create_dek get_kek kek_or_created retrieve_dek_from_registry attempt with_client
    is_expired dek_found new_encrypted_dek is_read next_int
throws = ground arith

get_or_create_dek-throws_example :
    (new_encrypted_dek without_kms rotating (in_mode write) shared_kek 1
      ≡ (throw (rest_exception [] 503), 2))
    ⊎ ((sent : Option (List ℕ)) × (new : Dek) × (w2 : ℕ) × (w3 : ℕ) × (new_encrypted_dek without_kms
            rotating
            (in_mode write)
            shared_kek
            1
          ≡ (ok sent, w2))
        × (create_dek without_kms rotating
              (in_mode write)
              (dek_id without_kms rotating (in_mode write) shared_kek (some 4294967295))
              4
              sent
              w2
            ≡ (ok new, w3))
        × (checked_dek without_kms rotating
              (in_mode write)
              shared_kek
              (dek_id without_kms rotating (in_mode write) shared_kek (some 4294967295))
              new
              w3
            ≡ (throw (rest_exception [] 503), 2)))
get_or_create_dek-throws_example =
    get_or_create_dek-throws without_kms rotating (in_mode write) shared_kek dek_registry
      (key_of (some (7 ∷ []))) (7 ∷ []) (rest_exception [] 503) (some 4294967295) (at_world 0)
      (at_world 2) 1 refl refl refl refl (omega arith) (omega arith) key_there (omega arith) throws

-- A reader whose registry takes no new keys reads as one whose registry does.
get_or_create_dek-read_example :
    get_or_create_dek (executor_at 0 dek_registry) rotating (in_mode read) (some 3) (at_world 0)
    ≡ get_or_create_dek
        (record (executor_at 0 dek_registry) {
          client = some (record dek_registry {
            register_kek = λ request. raise (rest_exception [] 403);
            register_dek = λ name request. raise (rest_exception [] 403);
          });
          generate_key = λ algorithm. raise (rest_exception [] 1);
          encrypt_dek = λ kek raw. raise (rest_exception [] 2);
        })
        rotating
        (in_mode read)
        (some 3)
        (at_world 0)
get_or_create_dek-read_example =
    get_or_create_dek-read (executor_at 0 dek_registry) dek_registry
      (λ request. raise (rest_exception [] 403)) (λ name request. raise (rest_exception [] 403))
      (λ algorithm. raise (rest_exception [] 1)) (λ kek raw. raise (rest_exception [] 2)) rotating
      (in_mode read) (some 3) (at_world 0) refl
