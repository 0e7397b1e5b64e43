-- ===== src/Retry/Attempts.antt =====
-- How often `tryRequest` (src/rest/RestClient.cpp) sends its request.
use libschemaregistry.Outcome.{Outcome, ok}
use libschemaregistry.Prelude.{
  ℕ, zero, suc, ◌+◌, ◌≤◌, ◌<◌, true, some, ◌++◌, ◌≡◌, refl, arith, Text,
}
use libschemaregistry.Retry.{
  Response, Network, Configuration, Round, done, again, attempt, should_retry, backoff,
  try_request_loop, try_request,
}

-- A network that counts the requests beside its own world.
unfoldable pub counting : {W : Type 0} → Network W → Network (W × ℕ)
counting network = record {
  send_request = λ url s. let (r, w) = network.send_request url s.0 in (r, (w, s.1 + 1));
  scale = λ s ms. network.scale s.0 ms;
  sleep_for = λ ms s. (network.sleep_for ms s.0, s.1);
}

module _ {W : Type 0} (network : Network W) (config : Configuration) where
  -- What a round says of the number of requests and of the retries.
  abbrev AfterRound : ℕ → ℕ → Round (W × ℕ) → Type 0
  AfterRound retries n (done result s) =
      (s.1 ≡ n + 1)
      × ((r : Response) → result ≡ ok r → should_retry r ≡ true → config.max_retries ≤ retries)
  AfterRound retries n (again s) = (s.1 ≡ n + 1) × (retries < config.max_retries)

  attempt-AfterRound :
      (url : Text) (retries : ℕ) (w : W) (n : ℕ)
      → AfterRound retries n (attempt (counting network) config url retries (w, n))
  unfolding attempt counting backoff
  attempt-AfterRound url retries w n = ground arith

  -- What the loop gives from `n` requests on, with `left` rounds of fuel.
  abbrev Bounded : ℕ → ℕ → Outcome Response × (W × ℕ) → Type 0
  Bounded left n out =
      (n < out.1.1)
      × (out.1.1 ≤ n + left)
      × ((r : Response) → out.0 ≡ ok r → should_retry r ≡ true → out.1.1 ≡ n + left)

  try_request_loop-Bounded :
      (left : ℕ) (url : Text) (retries : ℕ) (w : W) (n : ℕ)
      → left + retries ≡ config.max_retries + 1
      → 0 < left
      → (out : Outcome Response × (W × ℕ)) × (try_request_loop
            (counting network)
            config
            left
            url
            retries
            (w, n)
          ≡ some out)
        × Bounded left n out
  unfolding try_request_loop
  try_request_loop-Bounded zero url retries w n e h = absurd (omega arith)
  try_request_loop-Bounded (suc left) url retries w n e h =
      by_round (attempt (counting network) config url retries (w, n)) refl
        (attempt-AfterRound url retries w n)
        (λ u m. try_request_loop-Bounded left url (retries + 1) u m)
    where
      by_round :
          (r : Round (W × ℕ))
          → attempt (counting network) config url retries (w, n) ≡ r
          → AfterRound retries n r
          → ((u : W) (m : ℕ)
              → left + (retries + 1) ≡ config.max_retries + 1
              → 0 < left
              → (out : Outcome Response × (W × ℕ)) × (try_request_loop
                    (counting network)
                    config
                    left
                    url
                    (retries + 1)
                    (u, m)
                  ≡ some out)
                × Bounded left m out)
          → (out : Outcome Response × (W × ℕ)) × (try_request_loop
                (counting network)
                config
                (suc left)
                url
                retries
                (w, n)
              ≡ some out)
            × Bounded (suc left) n out
      by_round (done result s) er a ih = (
        (result, s),
        rw (er, try_request_loop),
        (omega arith, omega arith, λ r p t. omega (arith, a.1 r p t)),
      )
      by_round (again (u, m)) er a ih =
          let (out, eq, b) = ih u m (omega arith) (omega arith) in
          (
            out,
            rw (er, try_request_loop) eq,
            (omega arith, omega arith, λ r p t. omega (arith, b.2 r p t)),
          )

  -- The number of requests that one call of `tryRequest` sends.
  abbrev pub sent : Text → Text → W → ℕ
  sent base_url path w = (try_request (counting network) config base_url path (w, 0)).1.1

  -- From any world, `tryRequest` sends its request at least once and at most once more than there
  -- are retries.
  pub try_request-attempts :
      (base_url path : Text) (w : W)
      → (0 < sent base_url path w) × (sent base_url path w ≤ config.max_retries + 1)
  unfolding try_request
  try_request-attempts base_url path w =
      let (out, e, b) =
        try_request_loop-Bounded (suc config.max_retries) (base_url ++ path) 0 w 0 (omega arith)
          (omega arith) in
      rw (e, sent, try_request) (omega arith)

  -- If the response that `tryRequest` returns calls for a retry, it has sent one request more than
  -- there are retries.
  pub try_request-exhausted :
      (base_url path : Text) (w : W) (r : Response)
      → (try_request (counting network) config base_url path (w, 0)).0 ≡ ok r
      → should_retry r ≡ true
      → sent base_url path w ≡ config.max_retries + 1
  unfolding try_request
  try_request-exhausted base_url path w r p t =
      let (out, e, b) =
        try_request_loop-Bounded (suc config.max_retries) (base_url ++ path) 0 w 0 (omega arith)
          (omega arith) in
      rw (e, sent, try_request) (omega (arith, b.2 r (rw (e, try_request) at p) t))
