-- ===== src/DekClient/Updates.antt =====
-- `setDekKeyMaterial` of `DekRegistryClient` (src/rest/DekRegistryClient.cpp).
use libschemaregistry.Dek.{
  Algorithm, Dek, DekId, dek_id_dec, get_key_material_bytes, get_encrypted_key_material_bytes,
  set_key_material, read_material,
}
use libschemaregistry.DekClient.Repeats.{or_else-hit, get_dek-Leaves}
use libschemaregistry.DekClient.{
  DekState, DekPlatform, set_dek, find_dek, cache_key, update_store, get_dek, set_dek_key_material,
  change_dek, populate_key_material_bytes,
}
use libschemaregistry.Outcome.{ok}
use libschemaregistry.Prelude.Dict.{lookup-insert_self}
use libschemaregistry.Prelude.{ℕ, Bool, List, Option, none, some, Text, ◌≡◌, refl, ap, sym, ◌∙◌}

module _ {W : Type 0} (platform : DekPlatform W) where
  changed : List ℕ → Dek → Dek
  changed bytes dek =
      populate_key_material_bytes platform
        (set_key_material platform.base64_escape platform.base64_unescape bytes dek)

  changed-material :
      (bytes old : List ℕ) (dek : Dek)
      → dek.key_material_bytes ≡ some old
      → ((changed bytes dek).key_material ≡ some (platform.base64_escape bytes))
        × ((changed bytes dek).key_material_bytes ≡ some old)
  unfolding changed populate_key_material_bytes set_key_material get_key_material_bytes
      get_encrypted_key_material_bytes read_material
  changed-material bytes old dek h = (
    refl,
    ap
        (λ o.
          (read_material platform.base64_escape platform.base64_unescape
            (some (platform.base64_escape bytes)) o).1)
        h,
  )

  change_dek-found :
      (id : DekId) (bytes : List ℕ) (found : Option Dek) (dek dek' : Dek) (s s' : DekState W)
      → found ≡ some dek
      → change_dek platform id bytes found s ≡ (ok dek', s')
      → (dek' ≡ changed bytes dek) × (find_dek id s'.store ≡ some dek')
  unfolding change_dek update_store find_dek set_dek changed
  change_dek-found id bytes none dek dek' s s' f h = absurd (cc f)
  change_dek-found id bytes (some d) dek dek' s s' f h =
      let returned : changed bytes d ≡ dek' = cc (ap (λ p. p.0) h) in
      let same : d ≡ dek = cc f in
      (
        sym returned ∙ ap (changed bytes) same,
        ap (λ p. find_dek id p.1.store) (sym h)
            ∙ lookup-insert_self dek_id_dec id (changed bytes d) s.store.deks
            ∙ ap some returned,
      )

  -- After `getDek` has returned a key with the bytes of its key material, setting other key
  -- material returns a key whose text is that of the new bytes and whose bytes are still the old
  -- ones; and this is the key that `getDek` returns from then on, without a request.
  pub set_dek_key_material_stale :
      (kek_name subject : Text) (algorithm : Option Algorithm) (version : Option ℕ) (deleted : Bool)
      (bytes old : List ℕ) (dek dek' : Dek) (s s' s'' : DekState W)
      → get_dek platform kek_name subject algorithm version deleted s ≡ (ok dek, s')
      → dek.key_material_bytes ≡ some old
      → set_dek_key_material platform kek_name subject algorithm version deleted bytes s'
        ≡ (ok dek', s'')
      → (dek'.key_material ≡ some (platform.base64_escape bytes))
        × (dek'.key_material_bytes ≡ some old)
        × (get_dek platform kek_name subject algorithm version deleted s'' ≡ (ok dek', s''))
  unfolding set_dek_key_material get_dek
  set_dek_key_material_stale kek_name subject algorithm version deleted bytes old dek dek' s s' s''
        got read set =
      let id = cache_key kek_name subject version algorithm deleted in
      let found = get_dek-Leaves platform kek_name subject algorithm version deleted s s' dek got in
      let (same, now) = change_dek-found id bytes _ dek dek' s' s'' found set in
      let (text, stale) = changed-material bytes old dek read in
      (
        ap (λ d. d.key_material) same ∙ text,
        ap (λ d. d.key_material_bytes) same ∙ stale,
        or_else-hit _ _ s'' dek' now,
      )
