-- ===== src/Encryption.antt =====
-- `EncryptionExecutorTransform::transform` (src/rules/encryption/EncryptionExecutor.cpp): a field is
-- encrypted when it is written, and decrypted when it is read. A key that is rotated has its version
-- in front of the ciphertext.
pub mod Keys
pub mod RoundTrip
pub mod Rotation
pub mod Readers
use libschemaregistry.Dek.{Dek, get_key_material_bytes}
use libschemaregistry.Encryption.Keys.{
  Executor, Transform, TransformState, with_executor, get_or_create_dek,
}
use libschemaregistry.Exec.{Exec, pure, raise, ◌>>=◌, bind_outcome}
use libschemaregistry.FieldRules.{
  FieldType, string_type, bytes_type, record_type, enum_type, array_type, map_type, combined_type,
  fixed_type, int_type, long_type, float_type, double_type, boolean_type, null_type,
}
use libschemaregistry.Model.{Mode, read, write, upgrade, downgrade, up_down, write_read}
use libschemaregistry.Outcome.{Outcome, ok, throw, undefined, serde_error}
use libschemaregistry.Prelude.{
  ℕ, ◌+◌, ◌*◌, ◌/◌, ◌%◌, ◌^◌, ◌-◌, Bool, List, [], ◌∷◌, ◌++◌, Option, none, some, Text, ltb,
  if◌then◌else◌,
}
use libschemaregistry.Rules.{RuleContext}

-- `SerdeValue`: its two conversions, and the two that make one in the format of the context.
pub record SerdeValue (M : Type 0) : Type 0 where
  pub as_string : M → Outcome Text
  pub as_bytes : M → Outcome (List ℕ)
  pub new_string : Text → M
  pub new_bytes : List ℕ → M

unfoldable pub is_dek_rotated : Transform → Bool
is_dek_rotated t = ltb 0 t.dek_expiry_days

-- A magic byte 0 and the version, in big-endian order.
unfoldable pub prefix_version : ℕ → List ℕ → List ℕ
prefix_version version ciphertext =
    0
    ∷ version / 2 ^ 24 % 256
    ∷ version / 2 ^ 16 % 256
    ∷ version / 2 ^ 8 % 256
    ∷ version % 256
    ∷ ciphertext

-- The magic byte is not looked at.
unfoldable pub extract_version : List ℕ → Option ℕ × List ℕ
extract_version (magic ∷ a ∷ b ∷ c ∷ d ∷ rest) =
    (some (a * 2 ^ 24 + b * 2 ^ 16 + c * 2 ^ 8 + d), rest)
extract_version ciphertext = (none, ciphertext)

abbrev given : {A : Type 0} → Outcome A → Outcome (Option A)
given (ok a) = ok (some a)
given (throw e) = throw e
given undefined = undefined

unfoldable pub version_to_write : Transform → Option ℕ
version_to_write t = if is_dek_rotated t then some (2 ^ 32 - 1) else none

module _ {W M : Type 0} (executor : Executor W) (values : SerdeValue M) (t : Transform) where
  open executor use {base64_escape, base64_unescape}

  unfoldable pub to_bytes : FieldType → M → Outcome (Option (List ℕ))
  to_bytes string_type value = given (values.as_string value)
  to_bytes bytes_type value = given (values.as_bytes value)
  to_bytes _ value = ok none

  unfoldable pub to_object : FieldType → List ℕ → Option M
  to_object string_type value = some (values.new_string value)
  to_object bytes_type value = some (values.new_bytes value)
  to_object _ value = none

  -- What is written for a ciphertext, by the type of the field.
  unfoldable pub sealed : FieldType → List ℕ → M
  sealed string_type ciphertext = values.new_string (base64_escape ciphertext)
  sealed _ ciphertext = values.new_bytes ciphertext

  abbrev pub with_version : Dek → List ℕ → List ℕ
  with_version dek ciphertext =
      if is_dek_rotated t then prefix_version dek.version ciphertext else ciphertext

  abbrev pub key_bytes : Dek → Option (List ℕ)
  key_bytes dek = (get_key_material_bytes base64_escape base64_unescape dek).0

  unfoldable pub encrypted : FieldType → Dek → List ℕ → Option (List ℕ) → Exec (TransformState W) M
  encrypted field dek plaintext none = raise (serde_error "no key material found")
  encrypted field dek plaintext (some key) = do
    ciphertext ← with_executor (executor.encrypt t.algorithm key plaintext)
    pure (sealed field (with_version dek ciphertext))

  unfoldable pub write_field : RuleContext → FieldType → Option (List ℕ) → Exec (TransformState W) M
  write_field ctx field none = raise (serde_error "unsupported field type")
  write_field ctx field (some plaintext) = do
    dek ← get_or_create_dek executor t ctx (version_to_write t)
    encrypted field dek plaintext (key_bytes dek)

  -- `absl::Base64Unescape`
  unfoldable pub or_not_base64 : Option (List ℕ) → Exec (TransformState W) (Option (List ℕ))
  or_not_base64 none = raise (serde_error "could not decode base64 ciphertext")
  or_not_base64 (some bytes) = pure (some bytes)

  unfoldable pub ciphertext_of : FieldType → M → Exec (TransformState W) (Option (List ℕ))
  ciphertext_of string_type value =
      bind_outcome (values.as_string value) (λ s. or_not_base64 (base64_unescape s))
  ciphertext_of field value = bind_outcome (to_bytes field value) pure

  -- The version and the rest, where the key is rotated.
  unfoldable pub or_no_version : Option ℕ × List ℕ → Exec (TransformState W) (Option ℕ × List ℕ)
  or_no_version (none, rest) = raise (serde_error "no version found")
  or_no_version (some v, rest) = pure (some v, rest)

  unfoldable pub split_version : List ℕ → Exec (TransformState W) (Option ℕ × List ℕ)
  split_version ciphertext s =
      let (r, s') = or_no_version (extract_version ciphertext) s in
      if is_dek_rotated t then (r, s') else (ok (none, ciphertext), s)

  unfoldable pub object_or : M → Option M → M
  object_or value none = value
  object_or value (some m) = m

  -- The bytes of the key are dereferenced without a check.
  unfoldable pub opened : FieldType → M → List ℕ → Option (List ℕ) → Exec (TransformState W) M
  opened field value ciphertext none s = (undefined, s)
  opened field value ciphertext (some key) s =
      (do
        plaintext ← with_executor (executor.decrypt t.algorithm key ciphertext)
        pure (object_or value (to_object field plaintext)))
        s

  unfoldable pub read_field :
      RuleContext → FieldType → M → Option (List ℕ) → Exec (TransformState W) M
  read_field ctx field value none = pure value
  read_field ctx field value (some bytes) = do
    frame ← split_version bytes
    dek ← get_or_create_dek executor t ctx frame.0
    opened field value frame.1 (key_bytes dek)

  unfoldable pub transform_in : Mode → RuleContext → FieldType → M → Exec (TransformState W) M
  transform_in write ctx field value = do
    plaintext ← bind_outcome (to_bytes field value) pure
    write_field ctx field plaintext
  transform_in read ctx field value = do
    ciphertext ← ciphertext_of field value
    read_field ctx field value ciphertext
  transform_in _ ctx field value = raise (serde_error "unsupported rule mode")

  unfoldable pub transform : RuleContext → FieldType → M → Exec (TransformState W) M
  transform ctx field value = transform_in ctx.rule_mode ctx field value
