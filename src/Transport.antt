-- ===== src/Transport.antt =====
-- Where the schema identifier of a message travels: the serializers and deserializers of identifiers
-- in src/serdes/SerdeConfig.cpp, over the wire format and the headers.
pub mod Laws
use libschemaregistry.Headers.{SerdeHeader, SerdeHeaders, insert, get_last_header_value}
use libschemaregistry.Outcome.{
  Outcome, ok, throw, undefined, serialization_error, while_serializing, ◌>>=◌,
}
use libschemaregistry.Prelude.{ℕ, List, [], ◌∷◌, ◌++◌, Option, none, some, String, Text, codes}
use libschemaregistry.Wire.{SchemaId, id_to_bytes, guid_to_bytes, read_from_bytes}

pub data SerdeType : Type 0 where
  serde_key serde_value : SerdeType

pub record SerializationContext : Type 0 where
  pub topic : Text
  pub serde_type : SerdeType
  pub headers : Option SerdeHeaders

-- `catch (const std::exception &e) { throw SerializationError(prefix + e.what()); }`
unfoldable pub or_serialization_error : {A : Type 0} → String → Outcome A → Outcome A
or_serialization_error prefix (ok a) = ok a
or_serialization_error prefix (throw e) = throw (while_serializing prefix e)
or_serialization_error prefix undefined = undefined

-- KEY_SCHEMA_ID_HEADER and VALUE_SCHEMA_ID_HEADER
unfoldable pub header_key : SerdeType → Text
header_key serde_key = codes "__key_schema_id"
header_key serde_value = codes "__value_schema_id"

unfoldable pub prefix_schema_id_serializer :
    List ℕ → SerializationContext → SchemaId → Outcome (List ℕ)
prefix_schema_id_serializer payload ctx schema_id =
    or_serialization_error "Failed to serialize schema ID: "
      (id_to_bytes schema_id >>= λ bytes. ok (bytes ++ payload))

-- The header that is added; it is added to the caller's headers, and the payload stays as it is.
unfoldable pub with_header :
    List ℕ
    → SerializationContext
    → SchemaId
    → Option SerdeHeaders
    → Outcome (List ℕ × SerializationContext)
with_header payload ctx schema_id none =
    throw (serialization_error (codes "Headers are required for header schema ID serialization"))
with_header payload ctx schema_id (some headers) = guid_to_bytes schema_id >>= λ bytes.
    let header : SerdeHeader = record { key = header_key ctx.serde_type; value = some bytes } in
    ok (payload, record ctx { headers = some (insert header headers) })

unfoldable pub header_schema_id_serializer :
    List ℕ → SerializationContext → SchemaId → Outcome (List ℕ × SerializationContext)
header_schema_id_serializer payload ctx schema_id =
    or_serialization_error "Failed to serialize schema ID to header: "
      (with_header payload ctx schema_id ctx.headers)

-- The last value of the header, if there is one.
unfoldable pub header_value : SerializationContext → Option SerdeHeaders → Option (List ℕ)
header_value ctx none = none
header_value ctx (some headers) = get_last_header_value (header_key ctx.serde_type) headers

-- A header with a value that is not empty; nothing of the payload is consumed then.
unfoldable pub read_either : List ℕ → SchemaId → Option (List ℕ) → Outcome (SchemaId × ℕ)
read_either payload schema_id none = read_from_bytes schema_id payload
read_either payload schema_id (some []) = read_from_bytes schema_id payload
read_either payload schema_id (some (b ∷ bytes)) =
    read_from_bytes schema_id (b ∷ bytes) >>= λ p. ok (p.0, 0)

unfoldable pub dual_schema_id_deserializer :
    List ℕ → SerializationContext → SchemaId → Outcome (SchemaId × ℕ)
dual_schema_id_deserializer payload ctx schema_id =
    or_serialization_error "Failed to deserialize schema ID: "
      (read_either payload schema_id (header_value ctx ctx.headers))

unfoldable pub prefix_schema_id_deserializer :
    List ℕ → SerializationContext → SchemaId → Outcome (SchemaId × ℕ)
prefix_schema_id_deserializer payload ctx schema_id =
    or_serialization_error "Failed to deserialize schema ID from prefix: "
      (read_from_bytes schema_id payload)
