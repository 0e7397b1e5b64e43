-- ===== src/Encryption/RoundTrip.antt =====
-- Fields that `EncryptionExecutorTransform` encrypts are decrypted again.
use libschemaregistry.Dek.{Dek}
use libschemaregistry.Encryption.Keys.{Executor, Transform, TransformState, get_or_create_dek}
use libschemaregistry.Encryption.{
  SerdeValue, prefix_version, extract_version, is_dek_rotated, version_to_write, to_bytes,
  to_object, with_version, key_bytes, split_version, or_no_version, ciphertext_of, or_not_base64,
  sealed, transform, transform_in, write_field, read_field, encrypted, opened, object_or,
}
use libschemaregistry.FieldRules.{FieldType, string_type, bytes_type}
use libschemaregistry.Model.{read, write}
use libschemaregistry.Outcome.{ok}
use libschemaregistry.Prelude.{
  ℕ, ◌^◌, ◌<◌, List, Option, some, none, ◌≡◌, arith, Text, if◌then◌else◌,
}
use libschemaregistry.Rules.{RuleContext}

-- The version and the ciphertext are read back from the frame.
pub extract_version-prefix_version :
    (version : ℕ) (ciphertext : List ℕ)
    → version < 2 ^ 32
    → extract_version (prefix_version version ciphertext) ≡ (some version, ciphertext)
unfolding extract_version prefix_version
extract_version-prefix_version version ciphertext h = ground arith

module _ {W M : Type 0} (executor : Executor W) (values : SerdeValue M) (t : Transform) where
  -- What is read of a value that was made of a text, or of bytes, is that text or those bytes; and
  -- Base64 is decoded as it was encoded.
  pub record IsLawful : Type 0 where
    pub text : (s : Text) → values.as_string (values.new_string s) ≡ ok s
    pub bytes : (s : List ℕ) → values.as_bytes (values.new_bytes s) ≡ ok s
    pub base64 : (s : List ℕ) → executor.base64_unescape (executor.base64_escape s) ≡ some s

  -- The version that a reader asks for.
  abbrev pub version_to_read : Dek → Option ℕ
  version_to_read dek = if is_dek_rotated t then some dek.version else none

  split-with_version :
      (dek : Dek) (ciphertext : List ℕ) (s : TransformState W)
      → dek.version < 2 ^ 32
      → split_version executor values t (with_version executor values t dek ciphertext) s
        ≡ (ok (version_to_read dek, ciphertext), s)
  unfolding split_version or_no_version
  split-with_version dek ciphertext s h =
      ground (arith, extract_version-prefix_version dek.version ciphertext h)

  -- What has been sealed is read as the same ciphertext.
  ciphertext_of-sealed :
      (field : FieldType) (value : M) (plaintext ciphertext : List ℕ) (s : TransformState W)
      → IsLawful
      → to_bytes executor values t field value ≡ ok (some plaintext)
      → ciphertext_of executor values t field (sealed executor values t field ciphertext) s
        ≡ (ok (some ciphertext), s)
  unfolding ciphertext_of or_not_base64 sealed to_bytes
  ciphertext_of-sealed string_type value plaintext ciphertext s law h =
      ground (arith, law.text (executor.base64_escape ciphertext), law.base64 ciphertext)
  ciphertext_of-sealed bytes_type value plaintext ciphertext s law h =
      ground (arith, law.bytes ciphertext)
  ciphertext_of-sealed _ value plaintext ciphertext s law h = cc h

  writes :
      (ctx : RuleContext) (field : FieldType) (value : M) (plaintext key ciphertext : List ℕ)
      (dek : Dek) (s s1 : TransformState W) (w : W)
      → ctx.rule_mode ≡ write
      → to_bytes executor values t field value ≡ ok (some plaintext)
      → get_or_create_dek executor t ctx (version_to_write t) s ≡ (ok dek, s1)
      → key_bytes executor values t dek ≡ some key
      → executor.encrypt t.algorithm key plaintext s1.world ≡ (ok ciphertext, w)
      → transform executor values t ctx field value s ≡ (
        ok (sealed executor values t field (with_version executor values t dek ciphertext)),
        record s1 { world = w },
      )
  unfolding transform transform_in write_field encrypted
  writes ctx field value plaintext key ciphertext dek s s1 w mode plain found bytes enc =
      ground arith

  reads :
      (ctx : RuleContext) (field : FieldType) (sealed_value : M) (plaintext key ciphertext : List ℕ)
      (dek dek' : Dek) (s s1 : TransformState W) (w : W)
      → ctx.rule_mode ≡ read
      → dek.version < 2 ^ 32
      → ciphertext_of executor values t field sealed_value s
        ≡ (ok (some (with_version executor values t dek ciphertext)), s)
      → get_or_create_dek executor t ctx (version_to_read dek) s ≡ (ok dek', s1)
      → key_bytes executor values t dek' ≡ some key
      → executor.decrypt t.algorithm key ciphertext s1.world ≡ (ok plaintext, w)
      → transform executor values t ctx field sealed_value s ≡ (
        ok (object_or executor values t sealed_value (to_object executor values t field plaintext)),
        record s1 { world = w },
      )
  unfolding transform transform_in read_field opened
  reads ctx field sealed_value plaintext key ciphertext dek dek' s s1 w mode small cipher found
        bytes dec =
      ground (arith, split-with_version dek ciphertext s small)

  -- Take values and Base64 that read back what they were made of, and a field whose plaintext the
  -- writer can take. If the writer gets a data encryption key with bytes, a reader, with a client
  -- and a world of its own, gets one with the same bytes when it asks for that key's version (for
  -- no version, where keys are not rotated), and decryption undoes what encryption did, then
  -- `transform` in the mode write returns a value, and `transform` of that value in the mode read
  -- returns the plaintext as a value of the field's type.
  pub transform-transform :
      (ctx ctx' : RuleContext) (field : FieldType) (value : M) (plaintext key ciphertext : List ℕ)
      (dek dek' : Dek) (s s1 r r1 : TransformState W) (w w' : W)
      → IsLawful
      → ctx.rule_mode ≡ write
      → ctx'.rule_mode ≡ read
      → to_bytes executor values t field value ≡ ok (some plaintext)
      → get_or_create_dek executor t ctx (version_to_write t) s ≡ (ok dek, s1)
      → dek.version < 2 ^ 32
      → key_bytes executor values t dek ≡ some key
      → executor.encrypt t.algorithm key plaintext s1.world ≡ (ok ciphertext, w)
      → get_or_create_dek executor t ctx' (version_to_read dek) r ≡ (ok dek', r1)
      → key_bytes executor values t dek' ≡ some key
      → executor.decrypt t.algorithm key ciphertext r1.world ≡ (ok plaintext, w')
      → (written : M) × (transform executor values t ctx field value s
          ≡ (ok written, record s1 { world = w }))
        × (transform executor values t ctx' field written r ≡ (
          ok (object_or executor values t written (to_object executor values t field plaintext)),
          record r1 { world = w' },
        ))
  transform-transform ctx ctx' field value plaintext key ciphertext dek dek' s s1 r r1 w w' law mode
        mode' plain found small bytes enc found' bytes' dec =
      let frame = with_version executor values t dek ciphertext in
      let written = sealed executor values t field frame in
      (
        written,
        writes ctx field value plaintext key ciphertext dek s s1 w mode plain found bytes enc,
        reads ctx' field written plaintext key ciphertext dek dek' r r1 w' mode' small
            (ciphertext_of-sealed field value plaintext frame r law plain) found' bytes' dec,
      )
