-- ===== src/Tests/Keys.antt =====
-- The client of data encryption keys (src/rest/DekRegistryClient.cpp) against a server that always
-- gives the same key; the world counts the requests.
use libschemaregistry.Dek.{
  DekId, dek_id_dec, aes256_gcm, Dek, CreateDekRequest, get_key_material_bytes,
  get_encrypted_key_material_bytes, read_material, set_key_material, base64_decode,
}
use libschemaregistry.DekClient.Repeats.{register_dek-get_dek}
use libschemaregistry.DekClient.Updates.{set_dek_key_material_stale}
use libschemaregistry.DekClient.{
  set_dek, DekState, DekPlatform, register_dek, get_dek, set_dek_key_material,
  register_with_subject, cache_key, find_dek, change_dek, populate_key_material_bytes, or_else,
  exchange, parse_dek_from_json, update_store, fetch_dek,
}
use libschemaregistry.Http.{parsed, malformed, send, or_rest_exception}
use libschemaregistry.Outcome.{ok}
use libschemaregistry.Prelude.Dict.{lookup, insert, lookup-head}
use libschemaregistry.Prelude.{ℕ, ◌+◌, false, [], ◌∷◌, none, some, codes, ◌≡◌, refl, ap}
use libschemaregistry.Retry.{
  Network, Configuration, attempt, should_retry, try_request_loop, try_request,
  send_request_urls_loop, send_request_urls, send_http_request,
}
use libschemaregistry.Url.{url_encode, encode_char, is_unreserved, is_alnum}

abbrev stored_key : Dek
stored_key = record {
  kek_name = codes "k";
  subject = codes "s";
  version = 1;
  algorithm = aes256_gcm;
  encrypted_key_material = none;
  key_material = some (65 ∷ []);
  encrypted_key_material_bytes = none;
  key_material_bytes = none;
  ts = 0;
  deleted = none;
}

abbrev network : ℕ → Network ℕ
network status = record {
  send_request = λ url w. (ok (record { status_code = status; text = [] }), w + 1);
  scale = λ w n. n;
  sleep_for = λ n w. w;
}

abbrev configuration : Configuration
configuration = record {
  base_urls = codes "http://r" ∷ [];
  max_retries = 1;
  retries_wait_ms = 100;
  retries_max_wait_ms = 1000;
}

-- The text of bytes is those bytes.
abbrev platform : ℕ → DekPlatform ℕ
platform status = record {
  session = record { network = λ verb query body. network status; config = configuration };
  kek_to_json = λ r. ok [];
  dek_to_json = λ r. ok r.subject;
  parse_kek = λ text. malformed text;
  parse_dek = λ text. parsed stored_key;
  base64_escape = λ bytes. bytes;
  base64_unescape = λ text. some text;
}

abbrev fresh : DekState ℕ
fresh = record { store = record { keks = []; deks = [] }; world = 0 }

abbrev create : CreateDekRequest
create = record {
  subject = codes "s";
  version = none;
  algorithm = none;
  encrypted_key_material = none;
}

abbrev create_again : CreateDekRequest
create_again = record create { version = some 1; algorithm = some aes256_gcm }

abbrev after_register : DekState ℕ
after_register = (register_dek (platform 200) (codes "k") create fresh).1

registers : register_dek (platform 200) (codes "k") create fresh ≡ (ok stored_key, after_register)
unfolding register_dek or_else find_dek lookup register_with_subject fetch_dek exchange url_encode
    encode_char is_unreserved is_alnum send send_http_request send_request_urls
    send_request_urls_loop try_request try_request_loop attempt should_retry parse_dek_from_json
    or_rest_exception update_store
registers = refl

register_dek-get_dek_example :
    (get_dek (platform 200) (codes "k") (codes "s") none none false after_register
      ≡ (ok stored_key, after_register))
    × (register_dek (platform 200) (codes "k") create_again after_register
        ≡ (ok stored_key, after_register))
unfolding cache_key
register_dek-get_dek_example =
    register_dek-get_dek (platform 200) (codes "k") create create_again none none stored_key fresh
      after_register refl refl registers

abbrev read_key : Dek
read_key = record stored_key { key_material_bytes = some (65 ∷ []) }

abbrev key_id : DekId
key_id = cache_key (codes "k") (codes "s") none none false

abbrev after_get : DekState ℕ
after_get = record { store = record { keks = []; deks = (key_id, read_key) ∷ [] }; world = 1 }

gets :
    get_dek (platform 200) (codes "k") (codes "s") none none false fresh ≡ (ok read_key, after_get)
unfolding set_dek insert get_dek or_else find_dek lookup exchange url_encode encode_char
    is_unreserved is_alnum send send_http_request send_request_urls send_request_urls_loop
    try_request try_request_loop attempt should_retry parse_dek_from_json or_rest_exception
    update_store populate_key_material_bytes get_key_material_bytes get_encrypted_key_material_bytes
    read_material base64_decode
gets = refl

abbrev changed_key : Dek
changed_key = record read_key { key_material = some (66 ∷ []) }

abbrev after_change : DekState ℕ
after_change = (change_dek (platform 200) key_id (66 ∷ []) (some read_key) after_get).1

changes :
    set_dek_key_material (platform 200) (codes "k") (codes "s") none none false (66 ∷ []) after_get
    ≡ (ok changed_key, after_change)
unfolding set_dek_key_material change_dek find_dek update_store populate_key_material_bytes
    set_key_material get_key_material_bytes get_encrypted_key_material_bytes read_material
changes =
    ap (λ o. change_dek (platform 200) key_id (66 ∷ []) o after_get)
      (lookup-head dek_id_dec key_id read_key [])

set_dek_key_material_stale_example :
    (changed_key.key_material ≡ some (66 ∷ []))
    × (changed_key.key_material_bytes ≡ some (65 ∷ []))
    × (get_dek (platform 200) (codes "k") (codes "s") none none false after_change
        ≡ (ok changed_key, after_change))
set_dek_key_material_stale_example =
    set_dek_key_material_stale (platform 200) (codes "k") (codes "s") none none false (66 ∷ [])
      (65 ∷ []) read_key changed_key fresh after_get after_change gets refl changes
