-- ===== src/Tests/Rest.antt =====
-- The REST client, the schema cache and the headers (src/rest, src/serdes/Serde.cpp) at concrete
-- inputs.
use libschemaregistry.Dek.{Algorithm, CreateDekRequest, Dek, MockDekStore}
use libschemaregistry.Headers.{SerdeHeader}
use libschemaregistry.Model.{Schema, RegisteredSchema, registered}
use libschemaregistry.Outcome.{ok, throw, std_exception}
use libschemaregistry.Prelude.{
  ◌+◌, ◌*◌, ◌^◌, ◌<◌, ◌≤◌, [], ◌∷◌, none, some, Text, text_dec, ◌≡◌, refl, arith, codes, false,
}
use libschemaregistry.Retry.{
  Response, Network, Configuration, calculate_exponential_backoff, attempt, should_retry,
  is_retriable, backoff, try_request_loop, try_request, send_http_request,
}
use libschemaregistry.Retry.Attempts.{counting, sent, try_request-attempts, try_request-exhausted}
use libschemaregistry.Retry.Backoff.{calculate_exponential_backoff-eq-min}
use libschemaregistry.Retry.Failover.{send_http_request-refused}
use libschemaregistry.SchemaStore.{empty, set_registered_schema, get_schema_by_guid, or_empty}
use libschemaregistry.SchemaStore.Laws.{over, set_registered_schema-guid}
use Prim.Native.Nat.{min}

abbrev plain_schema : Schema
plain_schema = record {
  schema_type = none;
  references = none;
  metadata = none;
  rule_set = none;
  schema = some (123 ∷ 125 ∷ []);
}

abbrev hash : Schema → Text
hash s = or_empty s.schema

abbrev subject : Text
subject = 115 ∷ []

abbrev guid : Text
guid = 103 ∷ []

abbrev first_schema : RegisteredSchema
first_schema = registered (some 1) (some guid) (some subject) (some 1) plain_schema

set_registered_schema-guid_example :
    get_schema_by_guid guid (set_registered_schema hash plain_schema first_schema empty)
    ≡ over text_dec first_schema.schema guid plain_schema (get_schema_by_guid guid empty)
set_registered_schema-guid_example =
    set_registered_schema-guid hash plain_schema first_schema empty guid

-- A server that is always overloaded, and a network without one.
abbrev unavailable : Network Unit
unavailable = record {
  send_request = λ url w. (ok (record { status_code = 503; text = [] }), w);
  scale = λ w ms. ms;
  sleep_for = λ ms w. w;
}

abbrev unreachable : Network Unit
unreachable = record {
  send_request = λ url w. (throw (std_exception (codes "no token")), w);
  scale = λ w ms. ms;
  sleep_for = λ ms w. w;
}

abbrev two_retries : Configuration
two_retries = record {
  base_urls = (97 ∷ []) ∷ (98 ∷ []) ∷ [];
  max_retries = 2;
  retries_wait_ms = 1000;
  retries_max_wait_ms = 20000;
}

abbrev overloaded : Response
overloaded = record { status_code = 503; text = [] }

calculate_exponential_backoff-eq-min_example :
    calculate_exponential_backoff 1000 5 20000 (λ ms. ms) ≡ ok (min 20000 (2 ^ 5 * 1000))
calculate_exponential_backoff-eq-min_example =
    calculate_exponential_backoff-eq-min 1000 5 20000 (λ ms. ms) (omega arith) (omega arith)

try_request-attempts_example :
    (0 < sent unavailable two_retries (97 ∷ []) [] tt)
    × (sent unavailable two_retries (97 ∷ []) [] tt ≤ two_retries.max_retries + 1)
try_request-attempts_example = try_request-attempts unavailable two_retries (97 ∷ []) [] tt

try_request-exhausted_example :
    sent unavailable two_retries (97 ∷ []) [] tt ≡ two_retries.max_retries + 1
unfolding try_request try_request_loop attempt counting should_retry is_retriable backoff
    calculate_exponential_backoff
try_request-exhausted_example =
    try_request-exhausted unavailable two_retries (97 ∷ []) [] tt overloaded refl refl

send_http_request-refused_example :
    (send_http_request unreachable two_retries (47 ∷ []) tt).0 ≡ ok []
send_http_request-refused_example =
    send_http_request-refused unreachable two_retries
      (λ url w. (std_exception (codes "no token"), refl)) (47 ∷ []) tt

abbrev no_keys : MockDekStore
no_keys = record { keks = []; deks = [] }

abbrev request : CreateDekRequest
request = record {
  subject = subject;
  version = none;
  algorithm = none;
  encrypted_key_material = none;
}

abbrev old_key : Dek
old_key = record {
  kek_name = 107 ∷ [];
  subject = subject;
  version = 1;
  algorithm = Algorithm.aes256_gcm;
  encrypted_key_material = none;
  key_material = some (1 ∷ 2 ∷ []);
  encrypted_key_material_bytes = none;
  key_material_bytes = none;
  ts = 5;
  deleted = some false;
}

abbrev header : Text → SerdeHeader
header key = record { key = key; value = none }
