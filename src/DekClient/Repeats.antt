-- ===== src/DekClient/Repeats.antt =====
-- Calls of `DekRegistryClient` (src/rest/DekRegistryClient.cpp) that are answered from its caches.
use libschemaregistry.Dek.{
  Algorithm, Kek, Dek, CreateDekRequest, KekId, DekId, kek_id_dec, dek_id_dec,
}
use libschemaregistry.DekClient.{
  DekState, DekPlatform, set_kek, set_dek, find_kek, find_dek, cache_key, or_else, on_405,
  update_store, exchange, fetch_kek, fetch_dek, register_with_subject, register_without_subject,
  register_dek, get_dek, lift, parse_kek_from_json, parse_dek_from_json, kek_path,
  populate_key_material_bytes,
}
use libschemaregistry.Exec.{Exec, pure, catch, ◌>>=◌, bind-eq-ok}
use libschemaregistry.Outcome.{
  serialization_error, while_serializing, message_error, Exception, Outcome, ok, throw, undefined,
  serde_error, no_executor, no_action, no_strategy, rule_condition_error, wrapped, rest_exception,
  std_exception,
}
use libschemaregistry.Url.{url_encode}
use libschemaregistry.Http.{Request}
use libschemaregistry.Prelude.Dict.{lookup-insert_self}
use libschemaregistry.Prelude.{
  ℕ, Bool, false, codes, Option, none, some, Text, ◌≡◌, refl, ap, arith, sym, ◌∙◌, ◌==◌, inl, inr,
  Bool-cases,
}

module _ {W : Type 0} where
  -- A computation that leaves what it returns in the place that `find` reads.
  abbrev pub Leaves : {A : Type 0} → (DekState W → Option A) → Exec (DekState W) A → Type 0
  Leaves {A} find m =
      (s s' : DekState W) (a : A)
      → ◌≡◌ {A = Outcome A × DekState W} (m s) (ok a, s')
      → find s' ≡ some a

  bind-Leaves :
      {A B : Type 0} (find : DekState W → Option A) (m : Exec (DekState W) B)
      (f : B → Exec (DekState W) A)
      → ((b : B) → Leaves find (f b))
      → Leaves find (m >>= f)
  bind-Leaves find m f leaves s s' a h =
      let (b, s1, _, rest) = bind-eq-ok m f s h in leaves b s1 s' a rest

  found-Leaves :
      {A : Type 0} (find : DekState W → Option A) (m : Exec (DekState W) A) (found : Option A)
      (s s' : DekState W) (a : A)
      → Leaves find m
      → find s ≡ found
      → or_else found m s ≡ (ok a, s')
      → find s' ≡ some a
  unfolding or_else
  found-Leaves find m none s s' a leaves same h = leaves s s' a h
  found-Leaves find m (some b) s s' a leaves same h =
      ap (λ p. find p.1) (sym h) ∙ same ∙ cc (ap (λ p. p.0) h)

  or_else-Leaves :
      {A : Type 0} (find : DekState W → Option A) (m : Exec (DekState W) A)
      → Leaves find m
      → Leaves find (λ s. or_else (find s) m s)
  or_else-Leaves find m leaves s s' a h = found-Leaves find m (find s) s s' a leaves refl h

  pub or_else-hit :
      {A : Type 0} (found : Option A) (m : Exec (DekState W) A) (s : DekState W) (a : A)
      → found ≡ some a
      → or_else found m s ≡ (ok a, s)
  unfolding or_else
  or_else-hit none m s a h = absurd (cc h)
  or_else-hit (some b) m s a h = cc h

  catch-Leaves :
      {A : Type 0} (find : DekState W → Option A) (m : Exec (DekState W) A)
      (handler : Exception → Exec (DekState W) A)
      → Leaves find m
      → ((e : Exception) → Leaves find (handler e))
      → Leaves find (catch m handler)
  catch-Leaves {A = A} find m handler leaves handles s s' a h = caught (m s).0 (m s).1 refl h
    where
      caught :
          (r : Outcome A) (s1 : DekState W)
          → ◌≡◌ {A = Outcome A × DekState W} (m s) (r, s1)
          → ◌≡◌ {A = Outcome A × DekState W}
              (elim r [ ok a ↦ (ok a, s1) | throw e ↦ handler e s1 | undefined ↦ (undefined, s1) ])
              (ok a, s')
          → find s' ≡ some a
      caught (ok b) s1 ran h = leaves s s' a (ran ∙ h)
      caught (throw e) s1 ran h = handles e s1 s' a h
      caught undefined s1 ran h = absurd (cc (ap (λ p. p.0) h))

  on_405-Leaves :
      {A : Type 0} (find : DekState W → Option A) (m : Exec (DekState W) A) (e : Exception)
      → Leaves find m
      → Leaves find (on_405 m e)
  unfolding on_405
  on_405-Leaves find m (rest_exception message status) leaves s s' a h =
      elim (Bool-cases (status == 405)) [
        | inl asked ↦ leaves s s' a (ground arith)
        | inr other ↦ absurd (ground arith)
      ]
  on_405-Leaves find m (serde_error message) leaves s s' a h = absurd (cc (ap (λ p. p.0) h))
  on_405-Leaves find m (no_executor type) leaves s s' a h = absurd (cc (ap (λ p. p.0) h))
  on_405-Leaves find m (no_action name) leaves s s' a h = absurd (cc (ap (λ p. p.0) h))
  on_405-Leaves find m (no_strategy name) leaves s s' a h = absurd (cc (ap (λ p. p.0) h))
  on_405-Leaves find m (rule_condition_error rule) leaves s s' a h = absurd (cc (ap (λ p. p.0) h))
  on_405-Leaves find m (wrapped e) leaves s s' a h = absurd (cc (ap (λ p. p.0) h))
  on_405-Leaves find m (std_exception what) leaves s s' a h = absurd (cc (ap (λ p. p.0) h))
  on_405-Leaves find m (serialization_error message) leaves s s' a h = absurd (cc (ap (λ p. p.0) h))
  on_405-Leaves find m (message_error message) leaves s s' a h = absurd (cc (ap (λ p. p.0) h))
  on_405-Leaves find m (while_serializing prefix e) leaves s s' a h = absurd (cc (ap (λ p. p.0) h))

module _ {W : Type 0} (platform : DekPlatform W) where
  abbrev kek_of : KekId → DekState W → Option Kek
  kek_of id s = find_kek id s.store

  abbrev pub dek_of : DekId → DekState W → Option Dek
  dek_of id s = find_dek id s.store

  entered_kek :
      (id : KekId) (kek : Kek)
      → Leaves (kek_of id) (update_store platform (set_kek id kek) >>= λ _. pure kek)
  unfolding update_store set_kek find_kek
  entered_kek id kek s s' a h =
      ap (λ p. kek_of id p.1) (sym h)
      ∙ lookup-insert_self kek_id_dec id kek s.store.keks
      ∙ cc (ap (λ p. p.0) h)

  entered_dek :
      (id : DekId) (dek : Dek)
      → Leaves (dek_of id) (update_store platform (set_dek id dek) >>= λ _. pure dek)
  unfolding update_store set_dek find_dek
  entered_dek id dek s s' a h =
      ap (λ p. dek_of id p.1) (sym h)
      ∙ lookup-insert_self dek_id_dec id dek s.store.deks
      ∙ cc (ap (λ p. p.0) h)

  fetch_kek-Leaves :
      (id : KekId) (request : Request) → Leaves (kek_of id) (fetch_kek platform id request)
  unfolding fetch_kek
  fetch_kek-Leaves id request = bind-Leaves (kek_of id) (exchange platform request) _ (λ text.
      bind-Leaves (kek_of id) (lift (parse_kek_from_json platform text)) _
        (λ kek. entered_kek id kek))

  fetch_dek-Leaves :
      (id : DekId) (request : Request) → Leaves (dek_of id) (fetch_dek platform id request)
  unfolding fetch_dek
  fetch_dek-Leaves id request = bind-Leaves (dek_of id) (exchange platform request) _ (λ text.
      bind-Leaves (dek_of id) (lift (parse_dek_from_json platform text)) _
        (λ dek. entered_dek id dek))

  register_with_subject-Leaves :
      (kek_name : Text) (request : CreateDekRequest) (id : DekId) (body : Text)
      → Leaves (dek_of id) (register_with_subject platform kek_name request id body)
  unfolding register_with_subject
  register_with_subject-Leaves kek_name request id body =
      bind-Leaves (dek_of id) (lift (url_encode kek_name)) _ (λ escaped.
        bind-Leaves (dek_of id) (lift (url_encode request.subject)) _
          (λ subject. fetch_dek-Leaves id _))

  register_without_subject-Leaves :
      (kek_name : Text) (id : DekId) (body : Text)
      → Leaves (dek_of id) (register_without_subject platform kek_name id body)
  unfolding register_without_subject
  register_without_subject-Leaves kek_name id body =
      bind-Leaves (dek_of id) (kek_path platform kek_name (codes "/deks")) _
        (λ path. fetch_dek-Leaves id _)

  register_dek-Leaves :
      (kek_name : Text) (request : CreateDekRequest)
      → Leaves
          (dek_of (cache_key kek_name request.subject request.version request.algorithm false))
          (register_dek platform kek_name request)
  unfolding register_dek
  register_dek-Leaves kek_name request =
      let id = cache_key kek_name request.subject request.version request.algorithm false in
      or_else-Leaves (dek_of id) _ (
        bind-Leaves (dek_of id) (lift (platform.dek_to_json request)) _ (λ body.
          catch-Leaves (dek_of id) _ _ (register_with_subject-Leaves kek_name request id body) (λ e.
            on_405-Leaves (dek_of id) _ e (register_without_subject-Leaves kek_name id body))))

  pub get_dek-Leaves :
      (kek_name subject : Text) (algorithm : Option Algorithm) (version : Option ℕ) (deleted : Bool)
      → Leaves
          (dek_of (cache_key kek_name subject version algorithm deleted))
          (get_dek platform kek_name subject algorithm version deleted)
  unfolding get_dek
  get_dek-Leaves kek_name subject algorithm version deleted =
      let id = cache_key kek_name subject version algorithm deleted in
      or_else-Leaves (dek_of id) _ (
        bind-Leaves (dek_of id) (lift (url_encode kek_name)) _ (λ escaped.
          bind-Leaves (dek_of id) (lift (url_encode subject)) _ (λ name.
            bind-Leaves (dek_of id) (exchange platform _) _ (λ text.
              bind-Leaves (dek_of id) (lift (parse_dek_from_json platform text)) _
                (λ dek. entered_dek id (populate_key_material_bytes platform dek))))))

  -- Once `registerDek` has returned a key, by the newer API or by the older one, `getDek` with the
  -- argument `deleted` false returns that key for the same name, subject, version and algorithm,
  -- where a missing version counts as 1 and a missing algorithm as AES-256-GCM; so does
  -- `registerDek`. Neither sends a request nor changes the client.
  pub register_dek-get_dek :
      (kek_name : Text) (request again : CreateDekRequest) (algorithm : Option Algorithm)
      (version : Option ℕ) (dek : Dek) (s s' : DekState W)
      → cache_key kek_name request.subject version algorithm false
        ≡ cache_key kek_name request.subject request.version request.algorithm false
      → cache_key kek_name again.subject again.version again.algorithm false
        ≡ cache_key kek_name request.subject request.version request.algorithm false
      → register_dek platform kek_name request s ≡ (ok dek, s')
      → (get_dek platform kek_name request.subject algorithm version false s' ≡ (ok dek, s'))
        × (register_dek platform kek_name again s' ≡ (ok dek, s'))
  unfolding register_dek get_dek
  register_dek-get_dek kek_name request again algorithm version dek s s' same same' h =
      let found = register_dek-Leaves kek_name request s s' dek h in
      (
        or_else-hit _ _ s' dek (ap (λ id. dek_of id s') same ∙ found),
        or_else-hit _ _ s' dek (ap (λ id. dek_of id s') same' ∙ found),
      )
