-- ===== src/Encryption/Rotation.antt =====
-- The rotation of a key that has expired (src/rules/encryption/EncryptionExecutor.cpp).
use libschemaregistry.Dek.{Kek, Dek, DekId, get_key_material_bytes}
use libschemaregistry.Encryption.Keys.{
  DekRegistry, Executor, Transform, TransformState, with_executor, get_or_create_dek, get_kek,
  kek_or_created, retrieve_dek_from_registry, is_expired, dek_found, new_encrypted_dek, create_dek,
  checked_dek, dek_id, with_key_bytes, attempt, with_client, is_read,
}
use libschemaregistry.Model.{write}
use libschemaregistry.Mock.Store.{next_int}
use libschemaregistry.Outcome.{Exception, Outcome, ok, throw, undefined}
use libschemaregistry.Exec.{pure, catch, ◌>>=◌}
use libschemaregistry.Prelude.{
  ℕ, ◌⊎◌, inl, inr, refl, ap, sym, ◌∙◌, suc, ◌-◌, ◌/◌, ◌<◌, List, Option, some, false, ◌≡◌, arith,
}
use libschemaregistry.Rules.{RuleContext}

module _ {W : Type 0} (executor : Executor W) (t : Transform) (ctx : RuleContext) where
  open executor use {base64_escape, base64_unescape}

  -- What is left to do where the key found has expired.
  rotating :
      (kek : Kek) (client : DekRegistry W) (dek : Dek) (version : Option ℕ) (s : TransformState W)
      (w1 : W)
      → let id = dek_id executor t ctx kek version in
        ctx.rule_mode ≡ write
        → executor.client ≡ some client
        → s.kek ≡ some kek
        → client.get_dek id.kek_name id.subject (some id.algorithm) (some id.version) false s.world
          ≡ (ok dek, w1)
        → 0 < t.dek_expiry_days
        → t.dek_expiry_days < ((executor.now w1).0 - dek.ts) / 86400000
        → dek.version < 2147483647
        → get_or_create_dek executor t ctx version s
          ≡ with_executor
              (do
                sent ← new_encrypted_dek executor t ctx kek
                new ← catch (create_dek executor t ctx id (suc dek.version) sent) (λ e. pure dek)
                checked_dek executor t ctx kek id new)
              (record s { world = (executor.now w1).1 })
  unfolding get_or_create_dek get_kek kek_or_created retrieve_dek_from_registry attempt with_client
      is_expired dek_found dek_id is_read next_int
  rotating kek client dek version s w1 mode has_client has_kek found rotated old small =
      ground arith

  -- Take a writer whose key encryption key is known, and that finds a data encryption key of a
  -- version below 2 ^ 31 - 1, with its bytes, which has expired. Take a new key that has been
  -- generated and encrypted, or need not be because the registry shares the key encryption key.
  -- If entering it in the registry throws (the registration, or the lookup after a conflict, or
  -- because there is no key after a conflict), whatever it throws, `getOrCreateDek` returns the key
  -- that has expired.
  pub get_or_create_dek-keeps_expired :
      (kek : Kek) (client : DekRegistry W) (dek : Dek) (bytes : List ℕ) (sent : Option (List ℕ))
      (e : Exception) (version : Option ℕ) (s : TransformState W) (w1 w2 w3 : W)
      → let id = dek_id executor t ctx kek version in
        ctx.rule_mode ≡ write
        → executor.client ≡ some client
        → s.kek ≡ some kek
        → client.get_dek id.kek_name id.subject (some id.algorithm) (some id.version) false s.world
          ≡ (ok dek, w1)
        → 0 < t.dek_expiry_days
        → t.dek_expiry_days < ((executor.now w1).0 - dek.ts) / 86400000
        → (get_key_material_bytes base64_escape base64_unescape dek) ≡ (some bytes, dek)
        → dek.version < 2147483647
        → new_encrypted_dek executor t ctx kek (executor.now w1).1 ≡ (ok sent, w2)
        → create_dek executor t ctx id (suc dek.version) sent w2 ≡ (throw e, w3)
        → get_or_create_dek executor t ctx version s ≡ (ok dek, record s { world = w3 })
  unfolding get_or_create_dek get_kek kek_or_created retrieve_dek_from_registry attempt with_client
      is_expired dek_found with_key_bytes dek_id is_read next_int
  get_or_create_dek-keeps_expired kek client dek bytes sent e version s w1 w2 w3 mode has_client
        has_kek found rotated old material small made fails =
      ground arith

  -- Take a writer whose key encryption key is known, and that finds a data encryption key of a
  -- version below 2 ^ 31 - 1, with its bytes, which has expired. If `getOrCreateDek` throws, then
  -- either generating or encrypting a new key threw that exception; or the registry has given a key
  -- in place of the expired one, and getting the bytes of that key threw it.
  pub get_or_create_dek-throws :
      (kek : Kek) (client : DekRegistry W) (dek : Dek) (bytes : List ℕ) (e : Exception)
      (version : Option ℕ) (s s' : TransformState W) (w1 : W)
      → let id = dek_id executor t ctx kek version in
        ctx.rule_mode ≡ write
        → executor.client ≡ some client
        → s.kek ≡ some kek
        → client.get_dek id.kek_name id.subject (some id.algorithm) (some id.version) false s.world
          ≡ (ok dek, w1)
        → 0 < t.dek_expiry_days
        → t.dek_expiry_days < ((executor.now w1).0 - dek.ts) / 86400000
        → (get_key_material_bytes base64_escape base64_unescape dek) ≡ (some bytes, dek)
        → dek.version < 2147483647
        → get_or_create_dek executor t ctx version s ≡ (throw e, s')
        → (new_encrypted_dek executor t ctx kek (executor.now w1).1 ≡ (throw e, s'.world))
          ⊎ ((sent : Option (List ℕ)) × (new : Dek) × (w2 : W) × (w3 : W) × (new_encrypted_dek
                  executor t ctx kek
                  (executor.now w1).1
                ≡ (ok sent, w2))
              × (create_dek executor t ctx id (suc dek.version) sent w2 ≡ (ok new, w3))
              × (checked_dek executor t ctx kek id new w3 ≡ (throw e, s'.world)))
  get_or_create_dek-throws kek client dek bytes e version s s' w1 mode has_client has_kek found
        rotated old material small thrown =
      let (made, w2) = new_encrypted_dek executor t ctx kek (executor.now w1).1 in
      by_made made w2 refl
    where
      h :
          with_executor
            (do
              sent ← new_encrypted_dek executor t ctx kek
              new ←
                  catch
                    (create_dek executor t ctx
                      (dek_id executor t ctx kek version)
                      (suc dek.version)
                      sent)
                    (λ e. pure dek)
              checked_dek executor t ctx kek (dek_id executor t ctx kek version) new)
            (record s { world = (executor.now w1).1 })
          ≡ (throw e, s')
      h =
          sym (rotating kek client dek version s w1 mode has_client has_kek found rotated old small)
          ∙ thrown

      id : DekId
      id = dek_id executor t ctx kek version

      kept : (w : W) → checked_dek executor t ctx kek id dek w ≡ (ok dek, w)
      kept w = unfold with_key_bytes in ground (arith, material)

      by_entered :
          (sent : Option (List ℕ)) (w2 : W) (r : Outcome Dek) (w3 : W)
          → new_encrypted_dek executor t ctx kek (executor.now w1).1 ≡ (ok sent, w2)
          → create_dek executor t ctx id (suc dek.version) sent w2 ≡ (r, w3)
          → (new : Dek) × (r ≡ ok new)
            × (checked_dek executor t ctx kek id new w3 ≡ (throw e, s'.world))
      by_entered sent w2 (ok new) w3 m c = (new, refl, ground (arith, h, m, c))
      by_entered sent w2 (throw x) w3 m c = absurd (ground (arith, h, m, c, kept w3))
      by_entered sent w2 undefined w3 m c = absurd (ground (arith, h, m, c))

      by_made :
          (made : Outcome (Option (List ℕ))) (w2 : W)
          → new_encrypted_dek executor t ctx kek (executor.now w1).1 ≡ (made, w2)
          → (new_encrypted_dek executor t ctx kek (executor.now w1).1 ≡ (throw e, s'.world))
            ⊎ ((sent : Option (List ℕ)) × (new : Dek) × (w2 : W) × (w3 : W) × (new_encrypted_dek
                    executor t ctx kek
                    (executor.now w1).1
                  ≡ (ok sent, w2))
                × (create_dek executor t ctx id (suc dek.version) sent w2 ≡ (ok new, w3))
                × (checked_dek executor t ctx kek id new w3 ≡ (throw e, s'.world)))
      by_made (throw x) w2 m = inl (ground (arith, h, m))
      by_made undefined w2 m = absurd (ground (arith, h, m))
      by_made (ok sent) w2 m =
          let (r, w3) = create_dek executor t ctx id (suc dek.version) sent w2 in
          let (new, entered, checked) = by_entered sent w2 r w3 m refl in
          inr (sent, new, w2, w3, m, ap (λ o. (o, w3)) entered, checked)
