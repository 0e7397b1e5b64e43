-- ===== src/Dek/Laws.antt =====
-- The mock registry of data encryption keys in sequence (src/rest/MockDekRegistryClient.cpp,
-- src/rest/model/Dek.cpp).
use libschemaregistry.Dek.{
  Algorithm, Dek, DekId, KekId, update_dek, CreateDekRequest, CreateKekRequest, Kek, MockDekStore,
  dek_id, dek_id_dec, kek_id_dec, set_dek, set_kek, find_dek, find_kek, dek_or_new, register_dek,
  kek_or_new, register_kek, get_kek, get_dek, base64_decode, set_key_material, read_material,
  get_key_material_bytes, set_dek_key_material,
}
use libschemaregistry.Outcome.{ok, ok-pair}
use libschemaregistry.Prelude.Dict.{lookup-insert_self}
use libschemaregistry.Prelude.{
  ℕ, Bool, false, List, Option, none, some, Text, Option-cases, inl, inr, ◌≡◌, refl,
}

dek_or_new-found :
    (now : ℕ) (kek_name : Text) (request : CreateDekRequest) (st : MockDekStore)
    (existing : Option Dek)
    → let id = dek_id kek_name request.subject request.version request.algorithm in
      let (dek, st') = dek_or_new now kek_name request st existing in
      find_dek id st ≡ existing → find_dek id st' ≡ some dek
unfolding dek_or_new find_dek set_dek
dek_or_new-found now kek_name request st (some dek) e = e
dek_or_new-found now kek_name request st none e =
    lookup-insert_self dek_id_dec
      (dek_id kek_name request.subject request.version request.algorithm) _ st.deks

-- A data encryption key, once registered, is the one that `getDek` returns for its subject, version
-- and algorithm, given or not, and that registering again, at whatever time, returns, with no change.
pub register_dek-registers :
    (now later : ℕ) (kek_name : Text) (request : CreateDekRequest) (st : MockDekStore)
    (deleted : Bool)
    → let (dek, st') = register_dek now kek_name request st in
      (get_dek kek_name request.subject request.algorithm request.version deleted st' ≡ ok dek)
      × (register_dek later kek_name request st' ≡ (dek, st'))
unfolding register_dek get_dek dek_or_new
register_dek-registers now later kek_name request st deleted =
    let id = dek_id kek_name request.subject request.version request.algorithm in
    let found = dek_or_new-found now kek_name request st (find_dek id st) refl in
    (rw (found, get_dek) refl, rw found refl)

kek_or_new-found :
    (now : ℕ) (request : CreateKekRequest) (st : MockDekStore) (existing : Option Kek)
    → find_kek (record { name = request.name; deleted = false }) st ≡ existing
    → find_kek
        (record { name = request.name; deleted = false })
        (kek_or_new now request st existing).1
      ≡ some (kek_or_new now request st existing).0
unfolding kek_or_new find_kek set_kek
kek_or_new-found now request st (some kek) e = e
kek_or_new-found now request st none e =
    lookup-insert_self kek_id_dec (record { name = request.name; deleted = false }) _ st.keks

-- A key encryption key, once registered, is the one that `getKek` returns for its name, and that
-- registering again, with whatever request of that name and at whatever time, returns, with no
-- change.
pub register_kek-registers :
    (now later : ℕ) (request other : CreateKekRequest) (st : MockDekStore)
    → other.name ≡ request.name
    → let (kek, st') = register_kek now request st in
      (get_kek request.name false st' ≡ ok kek) × (register_kek later other st' ≡ (kek, st'))
unfolding register_kek get_kek kek_or_new
register_kek-registers now later request other st same =
    let id : KekId = record { name = request.name; deleted = false } in
    let found = kek_or_new-found now request st (find_kek id st) refl in
    (rw (found, get_kek) refl, rw (same, found) refl)

module _ (base64_escape : List ℕ → Text) (base64_unescape : Text → Option (List ℕ))
    (decodes : (bytes : List ℕ) → base64_unescape (base64_escape bytes) ≡ some bytes) where
  -- The bytes set are the bytes read, for a key whose bytes have not been read yet.
  pub get_key_material_bytes-set_key_material :
      (bytes : List ℕ) (dek : Dek)
      → dek.key_material_bytes ≡ none
      → (get_key_material_bytes base64_escape base64_unescape
          (set_key_material base64_escape base64_unescape bytes dek)).0
        ≡ some bytes
  unfolding get_key_material_bytes set_key_material read_material base64_decode
  get_key_material_bytes-set_key_material bytes dek h = rw (h, decodes bytes) refl

module _ (base64_escape : List ℕ → Text) (base64_unescape : Text → Option (List ℕ)) where
  -- A key whose bytes have been read once goes on giving those bytes when other key material is set.
  pub get_key_material_bytes_stale :
      (bytes : List ℕ) (t : Text) (dek : Dek)
      → dek.key_material ≡ some t
      → let (r, read) = get_key_material_bytes base64_escape base64_unescape dek in
        (get_key_material_bytes base64_escape base64_unescape
          (set_key_material base64_escape base64_unescape bytes read)).0
        ≡ r
  unfolding get_key_material_bytes set_key_material read_material
  get_key_material_bytes_stale bytes t dek h = elim (Option-cases dek.key_material_bytes) [
    | inl e ↦ rw (h, e) refl
    | inr (old, e) ↦ rw (h, e) refl
  ]

  update_dek-ok :
      (id : DekId) (bytes : List ℕ) (st st' : MockDekStore) (dek : Dek) (row : Option Dek)
      → update_dek base64_escape base64_unescape id bytes st row ≡ ok (dek, st')
      → (find_dek id st' ≡ some dek) × (dek.key_material ≡ some (base64_escape bytes))
  unfolding update_dek find_dek set_dek set_key_material
  update_dek-ok id bytes st st' dek none h = absurd (cc h)
  update_dek-ok id bytes st st' dek (some old) h =
      let (is, after) = ok-pair h in
      rw (after, is) ((lookup-insert_self dek_id_dec id _ st.deks, refl))

  -- `setDekKeyMaterial`, where it returns, returns the key that `getDek` returns from then on, and
  -- its key material is the text of the bytes.
  pub set_dek_key_material-reads :
      (kek_name subject : Text) (algorithm : Option Algorithm) (version : Option ℕ) (deleted : Bool)
      (bytes : List ℕ) (st st' : MockDekStore) (dek : Dek)
      → set_dek_key_material base64_escape base64_unescape kek_name subject algorithm version
          deleted bytes st
        ≡ ok (dek, st')
      → (get_dek kek_name subject algorithm version deleted st' ≡ ok dek)
        × (dek.key_material ≡ some (base64_escape bytes))
  unfolding set_dek_key_material get_dek
  set_dek_key_material-reads kek_name subject algorithm version deleted bytes st st' dek h =
      let id = dek_id kek_name subject version algorithm in
      let (found, material) = update_dek-ok id bytes st st' dek (find_dek id st) h in
      (rw (found, get_dek) refl, material)
