-- ===== src/Wire/Guid.antt =====
-- Reading and writing a `SchemaId` by its GUID (src/serdes/Serde.cpp).
use libschemaregistry.Outcome.{ok}
use libschemaregistry.Prelude.{
  ℕ, ◌+◌, ◌*◌, ◌/◌, ◌%◌, ◌<◌, List, [], ◌∷◌, ◌++◌, none, some, ◌≡◌, ◌≢◌, ◌∙◌, refl, All, arith,
  length, length-append, take-append, drop-append, Text,
}
use libschemaregistry.Wire.{
  SchemaId, protobuf, hex_digit, hex_value, stoul_byte, strip_dashes, parse_pairs, format_guid,
  read_guid, read_indexes, read_from_bytes, append_indexes, guid_to_bytes,
}

abbrev pub IsByte : ℕ → Type 0
IsByte b = b < 256

-- Two digits for each byte.
hex_text : List ℕ → Text
hex_text [] = []
hex_text (b ∷ bytes) = hex_digit (b / 16) ∷ hex_digit (b % 16) ∷ hex_text bytes

hex_value-hex_digit : (d : ℕ) → d < 16 → hex_value (hex_digit d) ≡ some d
unfolding hex_value hex_digit
hex_value-hex_digit d h = ground arith

stoul_byte-hex_digit :
    (b : ℕ) → IsByte b → stoul_byte (hex_digit (b / 16)) (hex_digit (b % 16)) ≡ ok b
unfolding stoul_byte
stoul_byte-hex_digit b h =
    ground (
      arith,
      hex_value-hex_digit (b / 16) (omega arith),
      hex_value-hex_digit (b % 16) (omega arith),
    )

hex_digit-no_dash : (d : ℕ) → d < 16 → hex_digit d ≢ b'-'
unfolding hex_digit
hex_digit-no_dash d h = ground arith

strip_dashes-format_guid :
    (i : ℕ) (bytes : List ℕ)
    → All IsByte bytes
    → strip_dashes (format_guid i bytes) ≡ hex_text bytes
unfolding strip_dashes format_guid hex_text
strip_dashes-format_guid i [] h = refl
strip_dashes-format_guid i (b ∷ bytes) (hb, hbs) = ground (
  arith,
  strip_dashes-format_guid (i + 1) bytes hbs,
  hex_digit-no_dash (b / 16) (omega arith),
  hex_digit-no_dash (b % 16) (omega arith),
)

parse_pairs-hex_text : (bytes : List ℕ) → All IsByte bytes → parse_pairs (hex_text bytes) ≡ ok bytes
unfolding parse_pairs hex_text
parse_pairs-hex_text [] h = refl
parse_pairs-hex_text (b ∷ bytes) (hb, hbs) =
    ground (arith, stoul_byte-hex_digit b hb, parse_pairs-hex_text bytes hbs)

length-hex_text : (bytes : List ℕ) → length (hex_text bytes) ≡ 2 * length bytes
unfolding hex_text
length-hex_text [] = refl
length-hex_text (b ∷ bytes) = omega (arith, length-hex_text bytes)

-- The canonical text of a GUID is written as its sixteen bytes behind the magic byte, with the
-- index array, if any, behind them.
pub guid_to_bytes-format_guid :
    (s : SchemaId) (bytes : List ℕ)
    → s.guid ≡ some (format_guid 1 bytes)
    → length bytes ≡ 16
    → All IsByte bytes
    → guid_to_bytes s ≡ ok (append_indexes s (1 ∷ bytes))
unfolding guid_to_bytes
guid_to_bytes-format_guid s bytes e n h =
    ground (
      arith,
      strip_dashes-format_guid 1 bytes h,
      length-hex_text bytes,
      parse_pairs-hex_text bytes h,
    )

pub read_guid-append :
    (bytes payload : List ℕ)
    → length bytes ≡ 16
    → read_guid (bytes ++ payload) ≡ ok (format_guid 1 bytes, payload)
unfolding read_guid
read_guid-append bytes payload n = ground (
  arith,
  length-append bytes payload,
  take-append 16 bytes payload n,
  drop-append 16 bytes payload n,
)

pub read_indexes-other :
    (s : SchemaId) (total : ℕ) (rest : List ℕ)
    → s.serde_format ≢ protobuf
    → read_indexes s total rest ≡ ok (s, total)
unfolding read_indexes
read_indexes-other s total [] f = refl
read_indexes-other s total (b ∷ rest) f = ground arith

-- For Avro and JSON: a frame of the magic byte and sixteen GUID bytes with any payload behind it
-- is read as a GUID that is written as the same frame, and seventeen bytes are reported.
pub guid_to_bytes-read :
    (s : SchemaId) (bytes payload : List ℕ)
    → s.serde_format ≢ protobuf
    → s.message_indexes ≡ none
    → length bytes ≡ 16
    → All IsByte bytes
    → (t : SchemaId) × (read_from_bytes s (1 ∷ (bytes ++ payload)) ≡ ok (t, 17))
      × (guid_to_bytes t ≡ ok (1 ∷ bytes))
unfolding append_indexes read_from_bytes
guid_to_bytes-read s bytes payload f m n h = (
  record s { guid = some (format_guid 1 bytes) },
  ground (
    arith,
    read_guid-append bytes payload n,
    read_indexes-other (record s { guid = some (format_guid 1 bytes) }) 17 payload f,
  ),
  guid_to_bytes-format_guid (record s { guid = some (format_guid 1 bytes) }) bytes refl n h
      ∙ ground arith,
)
