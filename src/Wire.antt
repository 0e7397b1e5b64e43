-- ===== src/Wire.antt =====
-- `SchemaId` of src/serdes/Serde.cpp: the schema identifier in front of a serialized message.
-- A byte is a number below 256, and an `int32_t` is its bit pattern, a number below 2 ^ 32, which
-- is negative from 2 ^ 31 on. A mask `& 0x7F` is `% 128`, `>> k` is a division, and `|` is `+`
-- where the two sides share no bit, as everywhere in this file.
pub mod Varint
pub mod RoundTrip
pub mod Indexes
pub mod Bounds
pub mod Guid
use mathlib.Core.Logic.{dite}
use mathlib.Core.WellFounded.{Acc, WellFounded}
use libschemaregistry.Outcome.{Outcome, ok, throw, undefined, serde_error, std_exception, ◌>>=◌}
use libschemaregistry.Prelude.{
  ℕ, zero, suc, ◌+◌, ◌-◌, ◌*◌, ◌/◌, ◌%◌, ◌^◌, ◌<◌, Bool, ◌&&◌, ◌||◌, List, [], ◌∷◌, ◌++◌, Option,
  none, some, Text, codes, arith, ltb, leb, ◌==◌, if◌then◌else◌, length, take, drop, dec_le,
}

pub data SerdeFormat : Type 0 where
  avro json protobuf : SerdeFormat

pub record SchemaId : Type 0 where
  pub serde_format : SerdeFormat
  pub id : Option ℕ
  pub guid : Option Text
  pub message_indexes : Option (List ℕ)

abbrev pub magic_byte_v0 : ℕ
magic_byte_v0 = 0

abbrev pub magic_byte_v1 : ℕ
magic_byte_v1 = 1

-- `acc |= bits << shift` on an `int32_t`. The shift is undefined from 32 on, and where the shifted
-- value does not fit 32 bits (C++17).
unfoldable pub or_shifted : ℕ → ℕ → ℕ → Outcome ℕ
or_shifted acc bits shift =
    if ltb shift 32 && ltb (bits * 2 ^ shift) (2 ^ 32)
    then ok (acc + bits * 2 ^ shift)
    else undefined

-- The loop that reads one variable-length number: the value, the position behind it and the bytes
-- from there on. It also ends where the buffer does.
unfoldable pub read_varint : List ℕ → ℕ → ℕ → ℕ → Outcome (ℕ × ℕ × List ℕ)
read_varint [] value shift pos = ok (value, pos, [])
read_varint (byte ∷ buf) value shift pos = do
  value' ← or_shifted value (byte % 128) shift
  let rest = read_varint buf value' (shift + 7) (pos + 1)
  if ltb byte 128 then ok (value', pos + 1, buf) else rest

-- `for (int i = 0; i < len && pos < buf.size(); ++i)`, over the rounds that `len` allows.
unfoldable pub read_values : ℕ → List ℕ → ℕ → List ℕ → Outcome (List ℕ × ℕ)
read_values zero buf pos out = ok (out, pos)
read_values (suc n) [] pos out = ok (out, pos)
read_values (suc n) (b ∷ buf) pos out = do
  (value, pos', rest) ← read_varint (b ∷ buf) 0 0 pos
  read_values n rest pos' (out ++ value ∷ [])

-- The rounds of a loop up to a signed bound.
unfoldable pub rounds : ℕ → ℕ
rounds len = if ltb len (2 ^ 31) then len else 0

unfoldable pub read_index_array_and_data : List ℕ → Outcome (List ℕ × ℕ)
read_index_array_and_data [] = ok (0 ∷ [], 1)
read_index_array_and_data (b ∷ buf) =
    if b == 0
    then ok (0 ∷ [], 1)
    else do (len, pos, rest) ← read_varint (b ∷ buf) 0 0 0; read_values (rounds len) rest pos []

-- One digit under `std::hex`.
unfoldable pub hex_digit : ℕ → ℕ
hex_digit d = if ltb d 10 then b'0' + d else b'a' + (d - 10)

-- `xxxxxxxx-xxxx-xxxx-xxxx-xxxxxxxxxxxx`, from the byte numbered `i` on.
unfoldable pub format_guid : ℕ → List ℕ → Text
format_guid i [] = []
format_guid i (b ∷ bytes) =
    let rest = format_guid (i + 1) bytes in
    hex_digit (b / 16)
    ∷ hex_digit (b % 16)
    ∷ (if i == 4 || i == 6 || i == 8 || i == 10 then b'-' ∷ rest else rest)

-- The four bytes behind the magic byte, big-endian.
unfoldable pub read_id : List ℕ → Outcome (ℕ × List ℕ)
read_id (b1 ∷ b2 ∷ b3 ∷ b4 ∷ rest) = ok (b1 * 2 ^ 24 + b2 * 2 ^ 16 + b3 * 2 ^ 8 + b4, rest)
read_id _ = throw (serde_error "Insufficient bytes for schema ID")

unfoldable pub read_guid : List ℕ → Outcome (Text × List ℕ)
read_guid bytes =
    if ltb (length bytes) 16
    then throw (serde_error "Insufficient bytes for schema GUID")
    else ok (format_guid 1 (take 16 bytes), drop 16 bytes)

-- The message indexes of a Protobuf message, if any byte is left.
unfoldable pub read_indexes : SchemaId → ℕ → List ℕ → Outcome (SchemaId × ℕ)
read_indexes s total [] = ok (s, total)
read_indexes s total (b ∷ rest) = elim s.serde_format [
  | protobuf ↦ do
    (msg_indexes, bytes_read) ← read_index_array_and_data (b ∷ rest)
    ok (record s { message_indexes = some msg_indexes }, total + bytes_read)
  | _ ↦ ok (s, total)
]

-- The object after the call, and the bytes read.
unfoldable pub read_from_bytes : SchemaId → List ℕ → Outcome (SchemaId × ℕ)
read_from_bytes s [] = throw (serde_error "Empty byte array")
read_from_bytes s (magic ∷ bytes) =
    if magic == magic_byte_v0
    then (do (id, rest) ← read_id bytes; read_indexes (record s { id = some id }) 5 rest)
    else if magic == magic_byte_v1
    then (do (guid, rest) ← read_guid bytes; read_indexes (record s { guid = some guid }) 17 rest)
    else throw (serde_error "Invalid magic byte")

Acc-below : (k n : ℕ) → n < k → Acc ◌<◌ n
Acc-below zero n h = elim h [ ]
Acc-below (suc k) n h = Acc.intro n (λ m hm. Acc-below k m (omega arith))

unfoldable pub lt_wf : WellFounded ◌<◌
unfolding Acc-below
lt_wf = record { apply = λ n. Acc-below (suc n) n (omega arith) }

-- `while (value >= 0x80) { push((value & 0x7F) | 0x80); value >>= 7; } push(value & 0x7F)`, with
-- the signed comparison: a negative value ends the loop at once.
unfoldable pub put_varint_acc : (value : ℕ) → Acc ◌<◌ value → List ℕ
put_varint_acc value (Acc.intro _ smaller) =
    dite (dec_le 128 value)
      (λ h.
        let rest = put_varint_acc (value / 128) (smaller (value / 128) (omega arith)) in
        if ltb value (2 ^ 31) then (value % 128 + 128) ∷ rest else value % 128 ∷ [])
      (λ _. value % 128 ∷ [])

unfoldable pub put_varint : ℕ → List ℕ
put_varint value = put_varint_acc value (lt_wf.apply value)

unfoldable pub put_varints : List ℕ → List ℕ
put_varints [] = []
put_varints (v ∷ vs) = put_varint v ++ put_varints vs

-- `toEncodedIndexArray` on the indexes that are set.
unfoldable pub encode_indexes : List ℕ → List ℕ
encode_indexes (zero ∷ []) = 0 ∷ []
encode_indexes idx = put_varint (length idx % 2 ^ 32) ++ put_varints idx

-- `if (auto encoded_idx = toEncodedIndexArray()) bytes.insert(bytes.end(), ...)`.
unfoldable pub append_indexes : SchemaId → List ℕ → List ℕ
append_indexes s bytes = elim s.message_indexes [
  | none ↦ bytes
  | some idx ↦ bytes ++ encode_indexes idx
]

unfoldable pub id_to_bytes : SchemaId → Outcome (List ℕ)
id_to_bytes s = elim s.id [
  | none ↦ throw (serde_error "Schema ID is not set")
  | some id ↦ ok (
      append_indexes s
        (magic_byte_v0 ∷ id / 2 ^ 24 % 256 ∷ id / 2 ^ 16 % 256 ∷ id / 2 ^ 8 % 256 ∷ id % 256 ∷ []))
]

-- The digit that `strtoul` reads in base 16.
unfoldable pub hex_value : ℕ → Option ℕ
hex_value c =
    if leb b'0' c && leb c b'9'
    then some (c - b'0')
    else if leb b'a' c && leb c b'f'
    then some (c - b'a' + 10)
    else if leb b'A' c && leb c b'F'
    then some (c - b'A' + 10)
    else none

-- `std::isspace` in the "C" locale.
unfoldable pub is_space : ℕ → Bool
is_space c = c == 32 || leb 9 c && leb c 13

-- `static_cast<uint8_t>(std::stoul(byte_str, nullptr, 16))` on a text of two characters: leading
-- space, a sign, the digits, and what follows the digits is ignored. No digit is an error.
unfoldable pub stoul_byte : ℕ → ℕ → Outcome ℕ
stoul_byte c d = elim (hex_value c) [
  | some hi ↦ ok (elim (hex_value d) [ some lo ↦ hi * 16 + lo | none ↦ hi ])
  | none ↦ elim (hex_value d) [
    | none ↦ throw (std_exception (codes "stoul"))
    | some lo ↦
        if is_space c || c == b'+'
        then ok lo
        else if c == b'-'
        then ok ((256 - lo) % 256)
        else throw (std_exception (codes "stoul"))
  ]
]

unfoldable pub strip_dashes : Text → Text
strip_dashes [] = []
strip_dashes (c ∷ cs) = let rest = strip_dashes cs in if c == b'-' then rest else c ∷ rest

unfoldable pub parse_pairs : Text → Outcome (List ℕ)
parse_pairs (c ∷ d ∷ cs) = do byte ← stoul_byte c d; rest ← parse_pairs cs; ok (byte ∷ rest)
parse_pairs _ = ok []

unfoldable pub guid_to_bytes : SchemaId → Outcome (List ℕ)
guid_to_bytes s = elim s.guid [
  | none ↦ throw (serde_error "Schema GUID is not set")
  | some guid ↦
      let hex = strip_dashes guid in
      if length hex == 32
      then (do bytes ← parse_pairs hex; ok (append_indexes s (magic_byte_v1 ∷ bytes)))
      else throw (serde_error "Invalid UUID format")
]
