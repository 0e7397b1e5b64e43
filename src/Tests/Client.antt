-- ===== src/Tests/Client.antt =====
-- The registry client (src/rest/SchemaRegistryClient.cpp) against a server that always gives the
-- same schema; the world counts the requests.
use libschemaregistry.Cache
use libschemaregistry.Cache.Views.{live_entry, value_of}
use libschemaregistry.Http.{Request, parsed, malformed, send, or_rest_exception}
use libschemaregistry.Model.{Schema, RegisteredSchema, registered, to_schema}
use libschemaregistry.Outcome.{Outcome, ok}
use libschemaregistry.Prelude.Dict.{lookup, lookup₂, row}
use libschemaregistry.Prelude.{
  ℕ, ◌+◌, true, false, List, [], ◌∷◌, none, some, Text, codes, text_dec, ◌≡◌, ◌⊎◌, refl, arith,
}
use libschemaregistry.RegistryClient.Answers.{Answers, answer_registered}
use libschemaregistry.RegistryClient.Coherence.{IsCoherent, IsLatest}
use libschemaregistry.RegistryClient.Freshness.{or_answer, second_reading, get_latest_version-live}
use libschemaregistry.RegistryClient.Refinement.{
  connect-IsCoherent, get_latest_version-refines, get_version-refines,
}
use libschemaregistry.RegistryClient.Repeats.{get_version-again}
use libschemaregistry.RegistryClient.Requests.{
  subject_path, latest_request, version_request, by_id_request,
}
use libschemaregistry.RegistryClient.Runs.{
  Call, registration, lookup_latest, lookup_version, list_subjects, run_calls, run_calls-IsCoherent,
}
use libschemaregistry.RegistryClient.State.{
  ClientState, Platform, connect, connect_with, require_url, or_else, schema_of_entry,
  fetch_registered, exchange, parse_registered_schema_from_json, update_store,
}
use libschemaregistry.RegistryClient.{get_latest_version, get_version, get_by_subject_and_id}
use libschemaregistry.Retry.{
  Network, Configuration, attempt, should_retry, try_request_loop, try_request,
  send_request_urls_loop, send_request_urls, send_http_request,
}
use libschemaregistry.SchemaStore
use libschemaregistry.SchemaStore.{
  SchemaStore, or_empty, get_schema_by_id, get_registered_by_version,
}
use libschemaregistry.Url.RoundTrip.{percent_decode, decode-url_encode}
use libschemaregistry.Url.{
  int32_to_string, url_encode, encode_char, is_unreserved, is_alnum, hex_upper,
}

-- "a b/c"
decode-url_encode_example : percent_decode (codes "a%20b%2Fc") ≡ some (codes "a b/c")
unfolding url_encode encode_char is_unreserved is_alnum hex_upper
decode-url_encode_example = decode-url_encode (codes "a b/c") (codes "a%20b%2Fc") refl

abbrev plain_schema : Schema
plain_schema = record {
  schema_type = none;
  references = none;
  metadata = none;
  rule_set = none;
  schema = some (codes "{}");
}

abbrev subject : Text
subject = codes "s"

abbrev first_version : RegisteredSchema
first_version = registered (some 1) none (some subject) (some 1) plain_schema

abbrev counted : Network ℕ
counted = record {
  send_request = λ url w. (ok (record { status_code = 200; text = [] }), w + 1);
  scale = λ w n. n;
  sleep_for = λ n w. w;
}

abbrev configuration : Configuration
configuration = record {
  base_urls = codes "http://r" ∷ [];
  max_retries = 1;
  retries_wait_ms = 100;
  retries_max_wait_ms = 1000;
}

-- The clock stands still.
abbrev platform : Platform ℕ
platform = record {
  session = record { network = λ verb query body. counted; config = configuration };
  clock = λ w. (5, w);
  schema_to_json = λ s. ok (or_empty s.schema);
  parse_registered_schema = λ text. parsed first_version;
  parse_bool = λ text. parsed true;
  parse_int = λ text. parsed 1;
  parse_int_array = λ text. parsed (1 ∷ []);
  parse_string_array = λ text. malformed text;
  schema_hash = λ s. or_empty s.schema;
}

abbrev empty_text : Request → Outcome Text
empty_text r = ok []

answers : Answers platform empty_text
unfolding send send_http_request send_request_urls send_request_urls_loop try_request
    try_request_loop attempt should_retry
answers r w = refl

abbrev fresh : ClientState ℕ
fresh = record {
  store = SchemaStore.empty;
  latest_version_cache = record { entries = []; lru_list = []; capacity = 10; ttl = some 60 };
  latest_with_metadata_cache = record { entries = []; lru_list = []; capacity = 10; ttl = some 60 };
  world = 0;
}

connected : connect configuration 10 (some 60) 0 ≡ ok fresh
unfolding connect connect_with require_url Cache.init
connected = refl

abbrev calls : List Call
calls =
    registration subject plain_schema false
    ∷ lookup_latest subject none
    ∷ lookup_version subject 1 false none
    ∷ list_subjects false
    ∷ []

run_calls-IsCoherent_example : IsCoherent platform empty_text (run_calls platform calls fresh)
run_calls-IsCoherent_example =
    run_calls-IsCoherent platform empty_text answers calls fresh
      (connect-IsCoherent platform empty_text configuration 10 (some 60) 0 fresh connected)

abbrev Latest : Outcome RegisteredSchema → Type 0
Latest r =
    (r ≡ answer_registered platform empty_text (latest_request subject none))
    ⊎ ((rs : RegisteredSchema) × (r ≡ ok rs) × IsLatest platform empty_text subject rs)

get_latest_version-refines_example :
    Latest (get_latest_version platform subject none (run_calls platform calls fresh)).0
get_latest_version-refines_example =
    get_latest_version-refines platform empty_text configuration 10 (some 60) 0 fresh calls subject
      none answers connected

get_latest_version-live_example :
    (get_latest_version platform subject none fresh).0
    ≡ or_answer
        (value_of text_dec (
          live_entry text_dec subject
            (second_reading platform empty_text fresh)
            fresh.latest_version_cache))
        (answer_registered platform empty_text (latest_request subject none))
get_latest_version-live_example =
    get_latest_version-live platform empty_text subject none fresh answers
      (connect-IsCoherent platform empty_text configuration 10 (some 60) 0 fresh connected)
      (omega arith)

abbrev Asked : Outcome RegisteredSchema → Type 0
Asked r =
    (r ≡ answer_registered platform empty_text (version_request subject 1 false none))
    ⊎ ((rs : RegisteredSchema) × (r ≡ ok rs)
        × (or_empty rs.subject ≡ subject)
        × (rs.version ≡ some 1))

get_version-refines_example :
    Asked (get_version platform subject 1 false none (run_calls platform calls fresh)).0
get_version-refines_example =
    get_version-refines platform empty_text configuration 10 (some 60) 0 fresh calls subject 1 false
      none answers connected

abbrev after_id : ClientState ℕ
after_id = (get_by_subject_and_id platform (some subject) 1 none fresh).1

found_by_id :
    get_by_subject_and_id platform (some subject) 1 none fresh ≡ (ok plain_schema, after_id)
unfolding get_by_subject_and_id or_else schema_of_entry get_schema_by_id lookup₂ row lookup
    SchemaStore.empty fetch_registered exchange by_id_request int32_to_string send send_http_request
    send_request_urls send_request_urls_loop try_request try_request_loop attempt should_retry
    parse_registered_schema_from_json or_rest_exception update_store to_schema registered
found_by_id = refl

abbrev after_version : ClientState ℕ
after_version = (get_version platform subject 1 false none fresh).1

found_by_version :
    get_version platform subject 1 false none fresh ≡ (ok first_version, after_version)
unfolding get_version or_else get_registered_by_version lookup₂ row lookup SchemaStore.empty
    fetch_registered exchange version_request subject_path url_encode encode_char is_unreserved
    is_alnum int32_to_string send send_http_request send_request_urls send_request_urls_loop
    try_request try_request_loop attempt should_retry parse_registered_schema_from_json
    or_rest_exception update_store registered
found_by_version = refl

get_version-again_example :
    get_version platform subject 1 true none after_version ≡ (ok first_version, after_version)
unfolding registered
get_version-again_example =
    get_version-again platform subject 1 false true none none first_version fresh after_version refl
      refl found_by_version
