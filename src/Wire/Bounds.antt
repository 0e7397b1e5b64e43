-- ===== src/Wire/Bounds.antt =====
-- Reading a `SchemaId` stays inside the buffer, and where it does not return (src/serdes/Serde.cpp).
use libschemaregistry.Outcome.{Exception, Outcome, serde_error, ok, throw, undefined, ◌>>=◌}
use libschemaregistry.Prelude.{
  ℕ, suc, ◌+◌, ◌≤◌, ◌<◌, ◌≢◌, ◌⊎◌, List, [], ◌∷◌, some, ◌≡◌, refl, arith, length, length-drop, inl,
  inr, ℕ_discrete, sym, subst, ◌∙◌, Text,
}
use libschemaregistry.Wire.{SchemaId, protobuf, read_id, read_guid, read_indexes, read_from_bytes}
use libschemaregistry.Wire.Indexes.{Indexed, read_indexes-Indexed}

read_id-length :
    (bytes : List ℕ) (id : ℕ) (rest : List ℕ)
    → read_id bytes ≡ ok (id, rest)
    → length bytes ≡ 4 + length rest
unfolding read_id
read_id-length (b1 ∷ b2 ∷ b3 ∷ b4 ∷ r) id rest h = ground arith
read_id-length _ id rest h = cc

read_guid-length :
    (bytes guid rest : List ℕ) → read_guid bytes ≡ ok (guid, rest) → length bytes ≡ 16 + length rest
unfolding read_guid
read_guid-length bytes guid rest h = ground (arith, length-drop 16 bytes)

-- The bytes have a frame: the magic byte 0 and four bytes, or the magic byte 1 and sixteen.
abbrev pub HasFrame : List ℕ → Type 0
HasFrame [] = ⊥
HasFrame (magic ∷ bytes) = ((magic ≡ 0) × (4 ≤ length bytes)) ⊎ ((magic ≡ 1) × (16 ≤ length bytes))

-- How a call on the bytes ends: it returns with what was read inside the buffer; or it throws on
-- bytes without a frame; or an index of a Protobuf message is undefined, which takes five bytes.
abbrev pub InBounds : SchemaId → List ℕ → Outcome (SchemaId × ℕ) → Type 0
InBounds s bytes (ok p) = HasFrame bytes × (5 ≤ p.1) × (p.1 ≤ length bytes)
InBounds s bytes (throw e) = ¬ HasFrame bytes
InBounds s bytes undefined = HasFrame bytes × (s.serde_format ≡ protobuf) × (10 ≤ length bytes)

framed-InBounds :
    (s t : SchemaId) (magic total : ℕ) (bytes rest : List ℕ) (m : Outcome (SchemaId × ℕ))
    → HasFrame (magic ∷ bytes)
    → 5 ≤ total
    → suc (length bytes) ≡ total + length rest
    → t.serde_format ≡ s.serde_format
    → Indexed t total rest m
    → InBounds s (magic ∷ bytes) m
framed-InBounds s t magic total bytes rest (ok p) frame five same f (above, below) =
    (frame, omega arith, omega arith)
framed-InBounds s t magic total bytes rest (throw e) frame five same f h = absurd h
framed-InBounds s t magic total bytes rest undefined frame five same f (format, long) =
    (frame, sym f ∙ format, omega arith)

cut_id : (bytes : List ℕ) (e : Exception) → read_id bytes ≡ throw e → length bytes < 4
unfolding read_id
cut_id [] e h = ground arith
cut_id (a ∷ []) e h = ground arith
cut_id (a ∷ b ∷ []) e h = ground arith
cut_id (a ∷ b ∷ c ∷ []) e h = ground arith
cut_id (a ∷ b ∷ c ∷ d ∷ rest) e h = absurd (cc h)

read_id-defined : (bytes : List ℕ) → read_id bytes ≢ undefined
unfolding read_id
read_id-defined (a ∷ b ∷ c ∷ d ∷ rest) h = cc h
read_id-defined _ h = cc h

id-InBounds :
    (s : SchemaId) (bytes : List ℕ) (m : Outcome (ℕ × List ℕ))
    → read_id bytes ≡ m
    → InBounds s (0 ∷ bytes) (m >>= λ p. read_indexes (record s { id = some p.0 }) 5 p.1)
id-InBounds s bytes (ok (id, rest)) h =
    let size = read_id-length bytes id rest h in
    framed-InBounds s (record s { id = some id }) 0 5 bytes rest _ (inl (refl, omega arith))
      (omega arith) (omega arith) refl (read_indexes-Indexed (record s { id = some id }) 5 rest)
id-InBounds s bytes (throw e) h =
    let cut = cut_id bytes e h in
    λ frame. elim frame [ inl (_, long) ↦ omega arith | inr (one, _) ↦ omega arith ]
id-InBounds s bytes undefined h = absurd (read_id-defined bytes h)

guid-InBounds :
    (s : SchemaId) (bytes : List ℕ) (m : Outcome (Text × List ℕ))
    → read_guid bytes ≡ m
    → InBounds s (1 ∷ bytes) (m >>= λ p. read_indexes (record s { guid = some p.0 }) 17 p.1)
unfolding read_guid
guid-InBounds s bytes (ok (guid, rest)) h =
    let size = read_guid-length bytes guid rest h in
    framed-InBounds s (record s { guid = some guid }) 1 17 bytes rest _ (inr (refl, omega arith))
      (omega arith) (omega arith) refl
      (read_indexes-Indexed (record s { guid = some guid }) 17 rest)
guid-InBounds s bytes (throw e) h =
    let cut : length bytes < 16 = ground arith in
    λ frame. elim frame [ inl (zero_byte, _) ↦ omega arith | inr (_, long) ↦ omega arith ]
guid-InBounds s bytes undefined h = ground arith

-- Every call of `readFromBytes`, on whatever bytes, ends in one of three ways. It returns; then
-- the bytes have a frame, at least five bytes are reported as read, and not more than there are. It
-- throws; then the bytes have no frame: they are empty, their magic byte is neither 0 nor 1, or the
-- identifier or the GUID is cut off. Or its behaviour is undefined; then they have a frame, and are
-- a Protobuf message of ten bytes or more.
pub read_from_bytes-InBounds :
    (s : SchemaId) (bytes : List ℕ) → InBounds s bytes (read_from_bytes s bytes)
unfolding read_from_bytes
read_from_bytes-InBounds s [] = λ h. h
read_from_bytes-InBounds s (magic ∷ bytes) = elim (ℕ_discrete magic 0) [
  | yes v0 ↦ rw v0 (id-InBounds s bytes (read_id bytes) refl)
  | no other ↦ elim (ℕ_discrete magic 1) [
    | yes v1 ↦ rw v1 (guid-InBounds s bytes (read_guid bytes) refl)
    | no neither ↦
        subst (InBounds s (magic ∷ bytes)) {x = throw (serde_error "Invalid magic byte")}
          (ground arith) (λ frame. elim frame [ inl (v0, _) ↦ other v0 | inr (v1, _) ↦ neither v1 ])
  ]
]
