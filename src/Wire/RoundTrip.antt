-- ===== src/Wire/RoundTrip.antt =====
-- Writing a `SchemaId` by its number and reading it back (src/serdes/Serde.cpp).
use mathlib.Core.List.{append_assoc}
use libschemaregistry.Outcome.{ok}
use libschemaregistry.Prelude.{
  ℕ, zero, suc, ◌+◌, ◌*◌, ◌/◌, ◌%◌, ◌^◌, ◌<◌, List, [], ◌∷◌, ◌++◌, none, some, ◌≡◌, ◌≢◌, refl, ap,
  ◌∙◌, All, arith, length, length-append,
}
use libschemaregistry.Wire.{
  SchemaId, protobuf, read_index_array_and_data, read_from_bytes, rounds, encode_indexes,
  id_to_bytes, append_indexes, read_id, read_indexes, put_varint, put_varints, magic_byte_v0,
}
use libschemaregistry.Wire.Varint.{
  IsIndex, put_varint-cons, read_varint-put_varint, read_values-put_varints,
}

-- Indexes that the format can carry: at least one, none negative, and an `int32_t` number of them.
pub record IsIndexes (idx : List ℕ) : Type 0 where
  pub some_index : idx ≢ []
  pub each : All IsIndex idx
  pub fits : IsIndex (length idx)

-- The reader takes its long way on a length that is not zero.
read_long :
    (n : ℕ) (idx rest : List ℕ)
    → length idx ≡ suc n
    → All IsIndex idx
    → IsIndex (suc n)
    → read_index_array_and_data (put_varint (suc n) ++ (put_varints idx ++ rest))
      ≡ ok (idx, length (put_varint (suc n)) + length (put_varints idx))
unfolding read_index_array_and_data rounds
read_long n idx rest e h fits =
    let (b, bs, shape, pos) = put_varint-cons (suc n) fits in
    let first = read_varint-put_varint (suc n) 0 (put_varints idx ++ rest) fits in
    let second = read_values-put_varints idx [] (length (put_varint (suc n))) rest h in
    ground (arith, shape, pos, first, second, e)

short_length : (n : ℕ) → IsIndex n → n % 2 ^ 32 ≡ n
short_length n h = omega arith

encode_indexes-long :
    (i j : ℕ) (is : List ℕ)
    → IsIndex (suc (suc (length is)))
    → encode_indexes (i ∷ j ∷ is) ≡ put_varint (suc (suc (length is))) ++ put_varints (i ∷ j ∷ is)
unfolding encode_indexes
encode_indexes-long zero j is h = rw (short_length (suc (suc (length is))) h)
encode_indexes-long (suc i) j is h = rw (short_length (suc (suc (length is))) h)

cons-append :
    (xs : List ℕ) {b : ℕ} {bs : List ℕ} (ys : List ℕ)
    → xs ≡ b ∷ bs
    → (c : ℕ) × (cs : List ℕ) × (xs ++ ys ≡ c ∷ cs)
cons-append xs {b} {bs} ys e = (b, bs ++ ys, ap (λ l. l ++ ys) e)

encode_indexes-cons :
    (idx : List ℕ) → IsIndexes idx → (b : ℕ) × (bs : List ℕ) × (encode_indexes idx ≡ b ∷ bs)
unfolding encode_indexes
encode_indexes-cons [] h = absurd (h.some_index refl)
encode_indexes-cons (zero ∷ []) h = (0, [], refl)
encode_indexes-cons (suc n ∷ []) h =
    let (b, bs, e, _) = put_varint-cons 1 h.fits in
    cons-append (put_varint 1) (put_varints (suc n ∷ [])) e
encode_indexes-cons (i ∷ j ∷ is) h =
    let (b, bs, e, _) = put_varint-cons (suc (suc (length is))) h.fits in
    rw (encode_indexes-long i j is h.fits)
      (cons-append (put_varint (suc (suc (length is)))) (put_varints (i ∷ j ∷ is)) e)

-- The index array is read back, whatever follows it.
pub read-encode_indexes :
    (idx rest : List ℕ)
    → IsIndexes idx
    → read_index_array_and_data (encode_indexes idx ++ rest) ≡ ok (idx, length (encode_indexes idx))
unfolding encode_indexes
read-encode_indexes [] rest h = absurd (h.some_index refl)
read-encode_indexes (zero ∷ []) rest h = unfold read_index_array_and_data in refl
read-encode_indexes (suc n ∷ []) rest h =
    rw (append_assoc, length-append) (read_long 0 (suc n ∷ []) rest refl h.each h.fits)
read-encode_indexes (i ∷ j ∷ is) rest h =
    rw (encode_indexes-long i j is h.fits, append_assoc, length-append)
      (read_long (suc (length is)) (i ∷ j ∷ is) rest refl h.each h.fits)

-- The number in the frame is the number that was written.
big_endian :
    (id : ℕ)
    → id < 2 ^ 32
    → id / 2 ^ 24 % 256 * 2 ^ 24 + id / 2 ^ 16 % 256 * 2 ^ 16 + id / 2 ^ 8 % 256 * 2 ^ 8 + id % 256
      ≡ id
big_endian id h = omega arith

abbrev frame : ℕ → List ℕ
frame id = magic_byte_v0 ∷ id / 2 ^ 24 % 256 ∷ id / 2 ^ 16 % 256 ∷ id / 2 ^ 8 % 256 ∷ id % 256 ∷ []

read-frame :
    (t : SchemaId) (id : ℕ) (rest : List ℕ)
    → id < 2 ^ 32
    → read_from_bytes t (frame id ++ rest) ≡ read_indexes (record t { id = some id }) 5 rest
unfolding read_from_bytes read_id
read-frame t id rest h = rw (big_endian id h)

-- For Avro and JSON: the frame of a set identifier is five bytes, and reading them with any payload
-- behind them stores the identifier and reports five bytes.
pub read-id_to_bytes :
    (s t : SchemaId) (id : ℕ) (payload : List ℕ)
    → s.id ≡ some id
    → id < 2 ^ 32
    → s.message_indexes ≡ none
    → t.serde_format ≢ protobuf
    → (bytes : List ℕ) × (id_to_bytes s ≡ ok bytes)
      × (length bytes ≡ 5)
      × (read_from_bytes t (bytes ++ payload) ≡ ok (record t { id = some id }, 5))
unfolding id_to_bytes append_indexes read_indexes
read-id_to_bytes s t id [] e h m f = (frame id, ground arith, refl, read-frame t id [] h)
read-id_to_bytes s t id (p ∷ payload) e h m f =
    (frame id, ground arith, refl, read-frame t id (p ∷ payload) h ∙ ground arith)

-- For Protobuf: an identifier below 2 ^ 32 and message indexes, at least one, none negative and
-- their number an `int32_t`, are written and read back with any payload behind them, and the
-- number of bytes read is the length of the frame.
pub read-id_to_bytes_protobuf :
    (s t : SchemaId) (id : ℕ) (idx payload : List ℕ)
    → s.id ≡ some id
    → id < 2 ^ 32
    → s.message_indexes ≡ some idx
    → IsIndexes idx
    → t.serde_format ≡ protobuf
    → (bytes : List ℕ) × (id_to_bytes s ≡ ok bytes)
      × (read_from_bytes t (bytes ++ payload)
          ≡ ok (record t { id = some id; message_indexes = some idx }, length bytes))
unfolding id_to_bytes append_indexes read_indexes
read-id_to_bytes_protobuf s t id idx payload e h m v f =
    let (b, bs, shape) = encode_indexes-cons idx v in
    let indexes = read-encode_indexes idx payload v in
    (
      frame id ++ encode_indexes idx,
      ground arith,
      read-frame t id (encode_indexes idx ++ payload) h ∙ ground (arith, shape, indexes),
    )
