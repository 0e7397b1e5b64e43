-- ===== src/Tests/Wire.antt =====
-- Frames of schema identifiers (src/serdes/Serde.cpp) at concrete inputs.
use libschemaregistry.Wire.{SchemaId, avro, protobuf, id_to_bytes, guid_to_bytes, read_from_bytes}
use libschemaregistry.Wire.RoundTrip.{IsIndexes, read-id_to_bytes_protobuf}
use libschemaregistry.Wire.Bounds.{InBounds, read_from_bytes-InBounds}
use libschemaregistry.Wire.Guid.{IsByte, guid_to_bytes-read}
use libschemaregistry.Outcome.{ok}
use libschemaregistry.Prelude.{ℕ, All, List, [], ◌∷◌, ◌++◌, none, some, length, ◌≡◌, refl, arith}

abbrev blank_avro : SchemaId
blank_avro = record { serde_format = avro; id = none; guid = none; message_indexes = none }

abbrev blank_protobuf : SchemaId
blank_protobuf = record { serde_format = protobuf; id = none; guid = none; message_indexes = none }

abbrev written_avro : SchemaId
written_avro = record { serde_format = avro; id = some 513; guid = none; message_indexes = none }

abbrev written_protobuf : SchemaId
written_protobuf = record {
  serde_format = protobuf;
  id = some 513;
  guid = none;
  message_indexes = some (1 ∷ 200 ∷ []);
}

one_two_hundred-IsIndexes : IsIndexes (1 ∷ 200 ∷ [])
one_two_hundred-IsIndexes = record {
  some_index = λ e. cc e;
  each = (omega arith, (omega arith, tt));
  fits = omega arith;
}

read-id_to_bytes_protobuf_example :
    (bytes : List ℕ) × (id_to_bytes written_protobuf ≡ ok bytes)
    × (read_from_bytes blank_protobuf (bytes ++ (9 ∷ 9 ∷ []))
        ≡ ok (
          record blank_protobuf { id = some 513; message_indexes = some (1 ∷ 200 ∷ []) },
          length bytes,
        ))
read-id_to_bytes_protobuf_example =
    read-id_to_bytes_protobuf written_protobuf blank_protobuf 513 (1 ∷ 200 ∷ []) (9 ∷ 9 ∷ []) refl
      (omega arith) refl one_two_hundred-IsIndexes refl

abbrev guid_bytes : List ℕ
guid_bytes = 137 ∷ 121 ∷ 31 ∷ 0 ∷ 1 ∷ 2 ∷ 3 ∷ 4 ∷ 5 ∷ 6 ∷ 7 ∷ 8 ∷ 9 ∷ 10 ∷ 11 ∷ 255 ∷ []

guid_bytes-AreBytes : All IsByte guid_bytes
guid_bytes-AreBytes = (
  omega arith,
  (
    omega arith,
    (
      omega arith,
      (
        omega arith,
        (
          omega arith,
          (
            omega arith,
            (
              omega arith,
              (
                omega arith,
                (
                  omega arith,
                  (
                    omega arith,
                    (
                      omega arith,
                      (omega arith, (omega arith, (omega arith, (omega arith, (omega arith, tt))))),
                    ),
                  ),
                ),
              ),
            ),
          ),
        ),
      ),
    ),
  ),
)

guid_to_bytes-read_example :
    (t : SchemaId) × (read_from_bytes blank_avro (1 ∷ (guid_bytes ++ (42 ∷ []))) ≡ ok (t, 17))
    × (guid_to_bytes t ≡ ok (1 ∷ guid_bytes))
guid_to_bytes-read_example =
    guid_to_bytes-read blank_avro guid_bytes (42 ∷ []) (λ e. cc e) refl refl guid_bytes-AreBytes

read_from_bytes-InBounds_example :
    InBounds blank_avro
      (0 ∷ 0 ∷ 0 ∷ 2 ∷ 1 ∷ 7 ∷ [])
      (read_from_bytes blank_avro (0 ∷ 0 ∷ 0 ∷ 2 ∷ 1 ∷ 7 ∷ []))
read_from_bytes-InBounds_example = read_from_bytes-InBounds blank_avro (0 ∷ 0 ∷ 0 ∷ 2 ∷ 1 ∷ 7 ∷ [])
