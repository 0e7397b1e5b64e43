-- ===== src/Retry/Failover.antt =====
-- How `sendRequestUrls` (src/rest/RestClient.cpp) goes through the base URLs, and what
-- `sendHttpRequest` (src/rest/SchemaRegistryClient.cpp) makes of its answer.
use libschemaregistry.Outcome.{Exception, Outcome, ok, throw, undefined}
use libschemaregistry.Prelude.{true, List, [], ◌∷◌, ◌++◌, ◌≡◌, ◌≢◌, refl, arith, Text}
use libschemaregistry.Retry.{
  Response, no_response, Network, Configuration, attempt, is_final, try_request_loop, try_request,
  send_request_urls_loop, send_request_urls, send_http_request,
}

module _ {W : Type 0} (network : Network W) (config : Configuration) where
  send_request_urls_loop-no_throw :
      (path : Text) (urls : List Text) (last : Response) (w : W) (e : Exception)
      → (send_request_urls_loop network config path urls last w).0 ≢ throw e
  unfolding send_request_urls_loop
  send_request_urls_loop-no_throw path [] last w e h = cc
  send_request_urls_loop-no_throw path (url ∷ []) last w e h = ground arith
  send_request_urls_loop-no_throw path (url ∷ next ∷ urls) last w e h =
      by_answer (try_request network config url path w).0 refl
        (λ r u. send_request_urls_loop-no_throw path (next ∷ urls) r u e)
    where
      w' : W
      w' = (try_request network config url path w).1

      by_answer :
          (o : Outcome Response)
          → (try_request network config url path w).0 ≡ o
          → ((r : Response) (u : W)
              → (send_request_urls_loop network config path (next ∷ urls) r u).0 ≢ throw e)
          → ⊥
      by_answer (ok r) eq ih = ground (arith, ih r w')
      by_answer (throw x) eq ih = ground (arith, ih last w')
      by_answer undefined eq ih = ground arith

  -- No exception of a request leaves `sendRequestUrls`: each is swallowed.
  pub send_request_urls-no_throw :
      (path : Text) (w : W) (e : Exception) → (send_request_urls network config path w).0 ≢ throw e
  unfolding send_request_urls
  send_request_urls-no_throw path w e =
      send_request_urls_loop-no_throw path config.base_urls no_response w e

  -- A final response to the first URL is returned, and the other URLs are not tried.
  pub send_request_urls_first :
      (path url : Text) (urls : List Text) (w w' : W) (r : Response)
      → config.base_urls ≡ url ∷ urls
      → try_request network config url path w ≡ (ok r, w')
      → is_final r ≡ true
      → send_request_urls network config path w ≡ (ok r, w')
  unfolding send_request_urls send_request_urls_loop
  send_request_urls_first path url [] w w' r b t f = ground arith
  send_request_urls_first path url (next ∷ urls) w w' r b t f = ground arith

  -- The requests of a network that always throws.
  abbrev pub Refuses : Type 0
  Refuses = (url : Text) (w : W) → (e : Exception) × ((network.send_request url w).0 ≡ throw e)

  try_request-refused :
      (refuses : Refuses) (url path : Text) (w : W)
      → (e : Exception) × ((try_request network config url path w).0 ≡ throw e)
  unfolding try_request try_request_loop attempt
  try_request-refused refuses url path w =
      (let (e, p) = refuses (url ++ path) w in (e, ground arith))

  send_request_urls_loop-refused :
      (refuses : Refuses) (path : Text) (urls : List Text) (last : Response) (w : W)
      → (send_request_urls_loop network config path urls last w).0 ≡ ok last
  unfolding send_request_urls_loop
  send_request_urls_loop-refused refuses path [] last w = refl
  send_request_urls_loop-refused refuses path (url ∷ []) last w =
      ground (arith, try_request-refused refuses url path w)
  send_request_urls_loop-refused refuses path (url ∷ next ∷ urls) last w =
      let (e, p) = try_request-refused refuses url path w in
      ground (
        arith,
        p,
        send_request_urls_loop-refused refuses path (next ∷ urls) last
            (try_request network config url path w).1,
      )

  -- Where every request throws (as one does when the OAuth token cannot be fetched),
  -- `sendHttpRequest` returns normally, with the empty text.
  pub send_http_request-refused :
      (refuses : Refuses) (path : Text) (w : W)
      → (send_http_request network config path w).0 ≡ ok []
  unfolding send_http_request send_request_urls
  send_http_request-refused refuses path w =
      ground (arith, send_request_urls_loop-refused refuses path config.base_urls no_response w)
