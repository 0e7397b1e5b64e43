-- ===== src/Encryption/Readers.antt =====
-- A reader of encrypted fields makes no keys (src/rules/encryption/EncryptionExecutor.cpp).
use libschemaregistry.Dek.{
  Algorithm, Kek, Dek, CreateKekRequest, CreateDekRequest, get_encrypted_key_material_bytes,
}
use libschemaregistry.Encryption.Keys.{
  DekRegistry, Executor, Transform, TransformState, with_executor, get_or_create_dek, get_kek,
  kek_or_created, get_or_create_kek, kek_found, retrieve_kek_from_registry,
  retrieve_dek_from_registry, is_expired, dek_found, dek_id, with_key_bytes, decrypted,
  update_cached_dek, attempt, with_client, is_read, checked_dek, actual_version,
}
use libschemaregistry.Exec.{Exec, ◌>>=◌, bind-cong}
use libschemaregistry.Model.{read}
use libschemaregistry.Prelude.{
  ℕ, Bool, true, false, List, Option, some, none, ◌≡◌, arith, Text, refl, ap,
}
use libschemaregistry.Rules.{RuleContext}

module _ {W : Type 0} (executor : Executor W) (client : DekRegistry W)
    (register_kek : CreateKekRequest → Exec W Kek)
    (register_dek : Text → CreateDekRequest → Exec W Dek)
    (generate_key : Algorithm → Exec W (List ℕ)) (encrypt_dek : Kek → List ℕ → Exec W (List ℕ))
    (t : Transform) (ctx : RuleContext) where
  -- The executor with the client, and one whose calls that make keys are others.
  abbrev pub given : Executor W
  given = record executor { client = some client }

  abbrev pub making_otherwise : Executor W
  making_otherwise = record executor {
    client = some (record client { register_kek = register_kek; register_dek = register_dek });
    generate_key = generate_key;
    encrypt_dek = encrypt_dek;
  }

  kek_found-read :
      (kms_type kms_key_id : Option Text) (found : Option Kek) (w : W)
      → ctx.rule_mode ≡ read
      → kek_found given t ctx kms_type kms_key_id found w
        ≡ kek_found making_otherwise t ctx kms_type kms_key_id found w
  unfolding kek_found is_read
  kek_found-read kms_type kms_key_id none w h = ground arith
  kek_found-read kms_type kms_key_id (some kek) w h = refl

  dek_found-read :
      (kek : Kek) (found : Option Dek) (expired : Bool) (version : Option ℕ) (w : W)
      → ctx.rule_mode ≡ read
      → dek_found given t ctx kek (dek_id given t ctx kek version) found expired w
        ≡ dek_found making_otherwise t ctx kek
            (dek_id making_otherwise t ctx kek version)
            found
            expired
            w
  unfolding dek_found is_read dek_id
  dek_found-read kek none expired version w h = ground arith
  dek_found-read kek (some dek) false version w h = refl
  dek_found-read kek (some dek) true version w h = ground arith

  get_or_create_kek-read :
      (w : W)
      → ctx.rule_mode ≡ read
      → get_or_create_kek given t ctx w ≡ get_or_create_kek making_otherwise t ctx w
  unfolding get_or_create_kek retrieve_kek_from_registry attempt with_client
  get_or_create_kek-read w h =
      bind-cong (retrieve_kek_from_registry given t ctx)
        (retrieve_kek_from_registry making_otherwise t ctx) _ _ w refl
        (λ found w. kek_found-read _ _ found w h)

  kek_or_created-read :
      (o : Option Kek) (s : TransformState W)
      → ctx.rule_mode ≡ read
      → kek_or_created given t ctx o s ≡ kek_or_created making_otherwise t ctx o s
  unfolding kek_or_created
  kek_or_created-read none s h =
      bind-cong (with_executor (get_or_create_kek given t ctx))
        (with_executor (get_or_create_kek making_otherwise t ctx)) _ _ s
        (ap (λ p. (p.0, record s { world = p.1 })) (get_or_create_kek-read s.world h))
        (λ kek s. refl)
  kek_or_created-read (some kek) s h = refl

  with_key_bytes-same :
      (kek : Kek) (version : Option ℕ) (bytes : Option (List ℕ)) (dek : Dek) (w : W)
      → with_key_bytes given t ctx kek (dek_id given t ctx kek version) bytes dek w
        ≡ with_key_bytes making_otherwise t ctx kek
            (dek_id making_otherwise t ctx kek version)
            bytes
            dek
            w
  unfolding with_key_bytes actual_version
  with_key_bytes-same kek version (some bytes) dek w = refl
  with_key_bytes-same kek version none dek w =
      decrypted-same
        (get_encrypted_key_material_bytes executor.base64_escape executor.base64_unescape dek).0
    where
      decrypted-same :
          (bytes : Option (List ℕ))
          → decrypted given t ctx kek (dek_id given t ctx kek version) bytes w
            ≡ decrypted making_otherwise t ctx kek
                (dek_id making_otherwise t ctx kek version)
                bytes
                w
      decrypted-same none = unfold decrypted in refl
      decrypted-same (some bytes) = unfold decrypted update_cached_dek with_client dek_id in refl

  is_expired-same :
      (found : Option Dek) (w : W)
      → is_expired given t ctx found w ≡ is_expired making_otherwise t ctx found w
  unfolding is_expired
  is_expired-same none w = refl
  is_expired-same (some dek) w = refl

  key-read :
      (kek : Kek) (version : Option ℕ) (w : W)
      → ctx.rule_mode ≡ read
      → (do
        found ← retrieve_dek_from_registry given t ctx (dek_id given t ctx kek version)
        expired ← is_expired given t ctx found
        dek ← dek_found given t ctx kek (dek_id given t ctx kek version) found expired
        checked_dek given t ctx kek (dek_id given t ctx kek version) dek)
          w
        ≡ (do
          found ←
              retrieve_dek_from_registry making_otherwise t ctx
                (dek_id making_otherwise t ctx kek version)
          expired ← is_expired making_otherwise t ctx found
          dek ←
              dek_found making_otherwise t ctx kek
                (dek_id making_otherwise t ctx kek version)
                found
                expired
          checked_dek making_otherwise t ctx kek (dek_id making_otherwise t ctx kek version) dek)
            w
  unfolding retrieve_dek_from_registry attempt with_client dek_id actual_version
  key-read kek version w h =
      let id = dek_id given t ctx kek version in
      let id' = dek_id making_otherwise t ctx kek version in
      bind-cong (retrieve_dek_from_registry given t ctx id)
        (retrieve_dek_from_registry making_otherwise t ctx id') _ _ w refl
        (λ found w.
          bind-cong (is_expired given t ctx found) (is_expired making_otherwise t ctx found) _ _ w
            (is_expired-same found w)
            (λ expired w.
              bind-cong (dek_found given t ctx kek id found expired)
                (dek_found making_otherwise t ctx kek id' found expired) _ _ w
                (dek_found-read kek found expired version w h)
                (λ dek w. with_key_bytes-same kek version _ _ w)))

  -- A reader makes no key: `getOrCreateDek` in the mode read returns, throws and changes the world in
  -- the same way whatever the calls do that register keys of either kind, generate a key or encrypt
  -- one.
  pub get_or_create_dek-read :
      (version : Option ℕ) (s : TransformState W)
      → ctx.rule_mode ≡ read
      → get_or_create_dek given t ctx version s ≡ get_or_create_dek making_otherwise t ctx version s
  unfolding get_or_create_dek get_kek
  get_or_create_dek-read version s h =
      bind-cong (get_kek given t ctx) (get_kek making_otherwise t ctx) _ _ s
        (kek_or_created-read s.kek s h)
        (λ kek s. ap (λ p. (p.0, record s { world = p.1 })) (key-read kek version s.world h))
