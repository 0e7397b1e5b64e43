-- ===== src/Retry.antt =====
-- Retries and failover: src/rest/BackoffUtils.cpp and the request loops of src/rest/RestClient.cpp.
-- The HTTP session (cpr), the random source and the sleeping are the `Network` below.
pub mod Backoff
pub mod Attempts
pub mod Failover
use libschemaregistry.Exec.{Exec, pure, raise, catch, ◌>>=◌, bind_outcome}
use libschemaregistry.Outcome.{Outcome, ok, throw, undefined, rest_exception}
use libschemaregistry.Prelude.{
  ℕ, zero, suc, ◌+◌, ◌-◌, ◌*◌, ◌/◌, ◌^◌, Bool, true, false, not, ◌&&◌, ◌||◌, List, [], ◌∷◌, ◌++◌,
  Option, none, some, Text, codes, to_string, ltb, leb, ◌==◌, if◌then◌else◌,
}

unfoldable pub is_retriable : ℕ → Bool
is_retriable status_code =
    status_code == 408
    || status_code == 429
    || status_code == 500
    || status_code == 502
    || status_code == 503
    || status_code == 504

-- The wait before attempt `retry_attempt + 1`, in milliseconds. `scale` is the multiplication by
-- the random factor between 0 and 1, cut to a whole number. With no initial wait the code divides
-- by zero.
unfoldable pub calculate_exponential_backoff : ℕ → ℕ → ℕ → (ℕ → ℕ) → Outcome ℕ
calculate_exponential_backoff initial_backoff_ms retry_attempt max_backoff scale =
    if leb 32 retry_attempt
    then ok (scale max_backoff)
    else if initial_backoff_ms == 0
    then undefined
    else if ltb ((2 ^ 32 - 1) / initial_backoff_ms) (2 ^ retry_attempt)
    then ok (scale max_backoff)
    else (let backoff_ms = 2 ^ retry_attempt * initial_backoff_ms in
        ok (scale (if ltb max_backoff backoff_ms then max_backoff else backoff_ms)))

-- `cpr::Response`; the status 0 is a network error, and that of a default-constructed response.
pub record Response : Type 0 where
  pub status_code : ℕ
  pub text : Text

abbrev pub no_response : Response
no_response = record { status_code = 0; text = [] }

-- How a round of the retry loop ends.
pub data Round (W : Type 0) : Type 0 where
  done : Outcome Response → W → Round W
  again : W → Round W

-- What the client runs on: one request to a URL, one draw of the random factor, one sleep.
pub record Network (W : Type 0) : Type 0 where
  pub send_request : Text → Exec W Response
  pub scale : W → ℕ → ℕ
  pub sleep_for : ℕ → W → W

-- The part of `ClientConfiguration` that the loops read.
pub record Configuration : Type 0 where
  pub base_urls : List Text
  pub max_retries : ℕ
  pub retries_wait_ms : ℕ
  pub retries_max_wait_ms : ℕ

unfoldable pub should_retry : Response → Bool
should_retry r =
    if r.status_code == 0
    then true
    else if leb 400 r.status_code
    then is_retriable r.status_code
    else false

-- A response with which `sendRequestUrls` is done, also where other URLs are left.
unfoldable pub is_final : Response → Bool
is_final r = not (r.status_code == 0) && (ltb r.status_code 400 || not (is_retriable r.status_code))

module _ {W : Type 0} (network : Network W) (config : Configuration) where
  unfoldable pub backoff : ℕ → Exec W Unit
  backoff retries w =
      bind_outcome
        (calculate_exponential_backoff config.retries_wait_ms retries config.retries_max_wait_ms
          (network.scale w))
        (λ ms w'. (ok tt, network.sleep_for ms w')) w

  -- One round of the loop of `tryRequest`: the request, the decision, and the wait.
  unfoldable pub attempt : Text → ℕ → W → Round W
  attempt url retries w =
      let (r, w') = network.send_request url w in
      elim r [
        | ok result ↦ elim (not (should_retry result) || leb config.max_retries retries) [
          | true ↦ done (ok result) w'
          | false ↦
              let (waited, w'') = backoff retries w' in
              elim waited [
                | ok _ ↦ again w''
                | throw e ↦ done (throw e) w''
                | undefined ↦ done undefined w''
              ]
        ]
        | throw e ↦ done (throw e) w'
        | undefined ↦ done undefined w'
      ]

  -- The loop of `tryRequest`, on fuel: `none` means that the fuel ran out.
  unfoldable pub try_request_loop : ℕ → Text → ℕ → W → Option (Outcome Response × W)
  try_request_loop zero url retries w = none
  try_request_loop (suc fuel) url retries w = elim (attempt url retries w) [
    | done result w' ↦ some (result, w')
    | again w' ↦ try_request_loop fuel url (retries + 1) w'
  ]

  -- The fuel is one round more than there are retries.
  unfoldable pub try_request : Text → Text → Exec W Response
  try_request base_url path w =
      elim (try_request_loop (suc config.max_retries) (base_url ++ path) 0 w) [
        | none ↦ (undefined, w)
        | some result ↦ result
      ]

  -- The loop of `sendRequestUrls` over the URLs that are left.
  unfoldable pub send_request_urls_loop : Text → List Text → Response → Exec W Response
  send_request_urls_loop path [] last_response w = (ok last_response, w)
  send_request_urls_loop path (url ∷ []) last_response w =
      catch (try_request url path) (λ _. pure last_response) w
  send_request_urls_loop path (url ∷ next ∷ urls) last_response w =
      let (r, w') = try_request url path w in
      elim r [
        | ok result ↦ elim (is_final result) [
          | true ↦ (ok result, w')
          | false ↦ send_request_urls_loop path (next ∷ urls) result w'
        ]
        | throw _ ↦ send_request_urls_loop path (next ∷ urls) last_response w'
        | undefined ↦ (undefined, w')
      ]

  unfoldable pub send_request_urls : Text → Exec W Response
  send_request_urls path = send_request_urls_loop path config.base_urls no_response

  -- `errorMsg`
  unfoldable pub error_message : Response → Text
  error_message result =
      codes "HTTP Error " ++ (to_string result.status_code ++ (codes ": " ++ result.text))

  -- `SchemaRegistryClient::sendHttpRequest`.
  unfoldable pub send_http_request : Text → Exec W Text
  send_http_request path = do
    result ← send_request_urls path
    if leb 400 result.status_code
        then raise (rest_exception (error_message result) result.status_code)
        else pure result.text
