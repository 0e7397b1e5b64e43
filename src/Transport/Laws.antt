-- ===== src/Transport/Laws.antt =====
-- Identifiers written by the serializers of src/serdes/SerdeConfig.cpp are read back.
use libschemaregistry.Headers.{SerdeHeader, SerdeHeaders, insert, get_last_header_value}
use libschemaregistry.Headers.Order.{last_header-insert}
use libschemaregistry.Outcome.{ok}
use mathlib.Core.List.{append-nil}
use libschemaregistry.Prelude.{
  drop, drop-append, ℕ, ◌^◌, ◌<◌, List, [], ◌∷◌, ◌++◌, none, some, ◌≡◌, ◌≢◌, arith, ◌∙◌, All,
  length,
}
use libschemaregistry.Transport.{
  SerializationContext, or_serialization_error, header_key, with_header, header_value, read_either,
  prefix_schema_id_serializer, header_schema_id_serializer, dual_schema_id_deserializer,
  prefix_schema_id_deserializer,
}
use libschemaregistry.Wire.Guid.{
  IsByte, guid_to_bytes-format_guid, read_guid-append, read_indexes-other,
}
use libschemaregistry.Wire.RoundTrip.{read-id_to_bytes}
use libschemaregistry.Wire.{
  append_indexes, SchemaId, protobuf, format_guid, guid_to_bytes, read_from_bytes,
}

read_guid_frame :
    (t : SchemaId) (bytes : List ℕ)
    → t.serde_format ≢ protobuf
    → length bytes ≡ 16
    → read_from_bytes t (1 ∷ bytes) ≡ ok (record t { guid = some (format_guid 1 bytes) }, 17)
unfolding read_from_bytes
read_guid_frame t bytes f n = ground (
  arith,
  append-nil bytes,
  read_guid-append bytes [] n,
  read_indexes-other (record t { guid = some (format_guid 1 bytes) }) 17 [] f,
)

written_bytes :
    (s : SchemaId) (bytes : List ℕ)
    → s.guid ≡ some (format_guid 1 bytes)
    → length bytes ≡ 16
    → All IsByte bytes
    → s.message_indexes ≡ none
    → guid_to_bytes s ≡ ok (1 ∷ bytes)
unfolding append_indexes
written_bytes s bytes g n h m = guid_to_bytes-format_guid s bytes g n h ∙ ground arith

-- The header that has been added is the one that is read.
added_header :
    (ctx : SerializationContext) (headers : SerdeHeaders) (bytes : List ℕ)
    → get_last_header_value
        (header_key ctx.serde_type)
        (insert (record { key = header_key ctx.serde_type; value = some bytes }) headers)
      ≡ some bytes
unfolding get_last_header_value
added_header ctx headers bytes = ground (
  arith,
  (last_header-insert (header_key ctx.serde_type)
      (record { key = header_key ctx.serde_type; value = some bytes }) headers).0,
)

-- For Avro and JSON: a GUID that is the text of sixteen bytes is written as one header, with the
-- magic byte 1 and those bytes under the key of the context's side, behind the headers that there
-- are, all of which stay, and with the rest of the context and the payload unchanged; and the
-- deserializer reads that GUID from these headers, whatever the payload, consuming nothing of it.
pub dual-header_schema_id_serializer :
    (s t : SchemaId) (ctx : SerializationContext) (headers : SerdeHeaders)
    (bytes payload other : List ℕ)
    → s.guid ≡ some (format_guid 1 bytes)
    → length bytes ≡ 16
    → All IsByte bytes
    → s.message_indexes ≡ none
    → t.serde_format ≢ protobuf
    → ctx.headers ≡ some headers
    → let header : SerdeHeader = record {
      key = header_key ctx.serde_type;
      value = some (1 ∷ bytes);
    } in
      let sent = record ctx { headers = some (headers ++ (header ∷ [])) } in
      (header_schema_id_serializer payload ctx s ≡ ok (payload, sent))
      × (dual_schema_id_deserializer other sent t ≡ ok (record t { guid = s.guid }, 0))
unfolding header_schema_id_serializer dual_schema_id_deserializer or_serialization_error with_header
    header_value read_either insert
dual-header_schema_id_serializer s t ctx headers bytes payload other g n h m f c = (
  ground (arith, written_bytes s bytes g n h m),
  ground (arith, added_header ctx headers (1 ∷ bytes), read_guid_frame t bytes f n),
)

-- For Avro and JSON: an identifier written before the payload is read back where the headers have
-- none, and the payload starts after the five bytes that are reported.
pub dual-prefix_schema_id_serializer :
    (s t : SchemaId) (ctx : SerializationContext) (id : ℕ) (payload : List ℕ)
    → s.id ≡ some id
    → id < 2 ^ 32
    → s.message_indexes ≡ none
    → t.serde_format ≢ protobuf
    → header_value ctx ctx.headers ≡ none
    → (message : List ℕ) × (prefix_schema_id_serializer payload ctx s ≡ ok message)
      × (dual_schema_id_deserializer message ctx t ≡ ok (record t { id = some id }, 5))
      × (prefix_schema_id_deserializer message ctx t ≡ ok (record t { id = some id }, 5))
      × (drop 5 message ≡ payload)
unfolding prefix_schema_id_serializer prefix_schema_id_deserializer dual_schema_id_deserializer
    or_serialization_error read_either
dual-prefix_schema_id_serializer s t ctx id payload i b m f none_there =
    let (bytes, written, size, read) = read-id_to_bytes s t id payload i b m f in
    (
      bytes ++ payload,
      ground (arith, written),
      ground (arith, read),
      ground (arith, read),
      drop-append 5 bytes payload size,
    )
