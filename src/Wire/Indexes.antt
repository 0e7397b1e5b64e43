-- ===== src/Wire/Indexes.antt =====
-- How reading the indexes of a Protobuf message ends: inside the buffer, without an exception, and
-- undefined where a shift is too large (src/serdes/Serde.cpp).
use libschemaregistry.Outcome.{Exception, Outcome, ok, throw, undefined, ◌>>=◌, >>=-eq-ok}
use libschemaregistry.Prelude.{
  ℕ, zero, suc, ◌+◌, ◌*◌, ◌%◌, ◌^◌, ◌≤◌, ◌<◌, ◌≢◌, List, [], ◌∷◌, ◌++◌, some, ◌≡◌, refl, All, arith,
  ◌==◌, length, inl, inr, Bool-cases, dec_lt, subst,
}
use libschemaregistry.Wire.{
  SerdeFormat, SchemaId, avro, json, protobuf, or_shifted, read_varint, read_values, rounds,
  read_index_array_and_data, read_indexes,
}

-- What the loop has read and what is left make up the buffer.
read_varint-position :
    (buf : List ℕ) (value shift pos v p : ℕ) (rest : List ℕ)
    → read_varint buf value shift pos ≡ ok (v, p, rest)
    → p + length rest ≡ pos + length buf
unfolding read_varint or_shifted
read_varint-position [] value shift pos v p rest h = ground arith
read_varint-position (byte ∷ buf) value shift pos v p rest h =
    let next = value + byte % 128 * 2 ^ shift in
    ground (arith, read_varint-position buf next (shift + 7) (pos + 1) v p rest)

read_values-position :
    (n : ℕ) (buf : List ℕ) (pos : ℕ) (out idx : List ℕ) (p : ℕ)
    → read_values n buf pos out ≡ ok (idx, p)
    → p ≤ pos + length buf
unfolding read_values
read_values-position zero buf pos out idx p h = ground arith
read_values-position (suc n) [] pos out idx p h = ground arith
read_values-position (suc n) (b ∷ buf) pos out idx p h =
    let ((v, q, r), e, k) = >>=-eq-ok (read_varint (b ∷ buf) 0 0 pos) _ h in
    omega (
      arith,
      read_values-position n r q (out ++ v ∷ []) idx p k,
      read_varint-position (b ∷ buf) 0 0 pos v q r e,
    )

read_index_array_and_data-position :
    (b : ℕ) (buf idx : List ℕ) (p : ℕ)
    → read_index_array_and_data (b ∷ buf) ≡ ok (idx, p)
    → p ≤ length (b ∷ buf)
unfolding read_index_array_and_data
read_index_array_and_data-position b buf idx p h = elim (Bool-cases (b == 0)) [
  | inl zero_byte ↦ ground arith
  | inr other ↦
      let ((len, q, r), e, k) = >>=-eq-ok (read_varint (b ∷ buf) 0 0 0) _ (rw other at h) in
      omega (
        arith,
        read_values-position (rounds len) r q [] idx p k,
        read_varint-position (b ∷ buf) 0 0 0 len q r e,
      )
]

-- A number of at most four bytes is read without a shift that is undefined.
read_varint-defined :
    (buf : List ℕ) (pos : ℕ) → length buf < 5 → read_varint buf 0 0 pos ≢ undefined
unfolding read_varint or_shifted
read_varint-defined [] pos h = ground arith
read_varint-defined (a ∷ []) pos h = ground arith
read_varint-defined (a ∷ b ∷ []) pos h = ground arith
read_varint-defined (a ∷ b ∷ c ∷ []) pos h = ground arith
read_varint-defined (a ∷ b ∷ c ∷ d ∷ []) pos h = ground arith
read_varint-defined (a ∷ b ∷ c ∷ d ∷ e ∷ buf) pos h = absurd (omega arith)

-- A reading of indexes ends without an exception, and is undefined on five or more bytes only.
abbrev Ends {ℓ} : {A : Type ℓ} → List ℕ → Outcome A → Type 0
Ends buf (ok a) = Unit
Ends buf (throw e) = ⊥
Ends buf undefined = 5 ≤ length buf

Ends->>= {ℓ} :
    {A B : Type ℓ} (buf : List ℕ) (m : Outcome A) (f : A → Outcome B)
    → Ends buf m
    → ((a : A) → m ≡ ok a → Ends buf (f a))
    → Ends buf (m >>= f)
Ends->>= buf (ok a) f h k = k a refl
Ends->>= buf (throw e) f h k = absurd h
Ends->>= buf undefined f h k = h

Ends-longer {ℓ} :
    {A : Type ℓ} (buf rest : List ℕ) (m : Outcome A)
    → length rest ≤ length buf
    → Ends rest m
    → Ends buf m
Ends-longer buf rest (ok a) le h = tt
Ends-longer buf rest (throw e) le h = h
Ends-longer buf rest undefined le h = omega arith

read_varint-no_throw :
    (buf : List ℕ) (value shift pos : ℕ) (e : Exception) → read_varint buf value shift pos ≢ throw e
unfolding read_varint or_shifted
read_varint-no_throw [] value shift pos e = ground arith
read_varint-no_throw (byte ∷ buf) value shift pos e =
    let next = value + byte % 128 * 2 ^ shift in
    ground (arith, read_varint-no_throw buf next (shift + 7) (pos + 1) e)

read_varint-rest :
    (buf : List ℕ) (value shift pos v p : ℕ) (rest : List ℕ)
    → read_varint buf value shift pos ≡ ok (v, p, rest)
    → length rest ≤ length buf
unfolding read_varint or_shifted
read_varint-rest [] value shift pos v p rest h = ground arith
read_varint-rest (byte ∷ buf) value shift pos v p rest h =
    let next = value + byte % 128 * 2 ^ shift in
    ground (arith, read_varint-rest buf next (shift + 7) (pos + 1) v p rest)

read_varint-Ends : (buf : List ℕ) (pos : ℕ) → Ends buf (read_varint buf 0 0 pos)
read_varint-Ends buf pos = by_outcome (read_varint buf 0 0 pos) refl
  where
    by_outcome : (m : Outcome (ℕ × ℕ × List ℕ)) → read_varint buf 0 0 pos ≡ m → Ends buf m
    by_outcome (ok a) e = tt
    by_outcome (throw x) e = absurd (read_varint-no_throw buf 0 0 pos x e)
    by_outcome undefined e = elim (dec_lt (length buf) 5) [
      | yes short ↦ absurd (read_varint-defined buf pos short e)
      | no long ↦ omega arith
    ]

read_values-Ends :
    (n : ℕ) (buf : List ℕ) (pos : ℕ) (out : List ℕ) → Ends buf (read_values n buf pos out)
unfolding read_values
read_values-Ends zero buf pos out = tt
read_values-Ends (suc n) [] pos out = tt
read_values-Ends (suc n) (b ∷ buf) pos out =
    Ends->>= (b ∷ buf) (read_varint (b ∷ buf) 0 0 pos) _ (read_varint-Ends (b ∷ buf) pos)
      (λ (value, q, rest) e.
        Ends-longer (b ∷ buf) rest _ (read_varint-rest (b ∷ buf) 0 0 pos value q rest e)
          (read_values-Ends n rest q (out ++ value ∷ [])))

read_index_array_and_data-Ends : (buf : List ℕ) → Ends buf (read_index_array_and_data buf)
unfolding read_index_array_and_data
read_index_array_and_data-Ends [] = tt
read_index_array_and_data-Ends (b ∷ buf) = elim (Bool-cases (b == 0)) [
  | inl zero_byte ↦ rw zero_byte tt
  | inr other ↦ rw other (
      Ends->>= (b ∷ buf) (read_varint (b ∷ buf) 0 0 0) _ (read_varint-Ends (b ∷ buf) 0)
        (λ (len, pos, rest) e.
          Ends-longer (b ∷ buf) rest _ (read_varint-rest (b ∷ buf) 0 0 0 len pos rest e)
            (read_values-Ends (rounds len) rest pos [])))
]

-- How reading the indexes behind a frame of `total` bytes ends.
abbrev pub Indexed : SchemaId → ℕ → List ℕ → Outcome (SchemaId × ℕ) → Type 0
Indexed s total rest (ok p) = (total ≤ p.1) × (p.1 ≤ total + length rest)
Indexed s total rest (throw e) = ⊥
Indexed s total rest undefined = (s.serde_format ≡ protobuf) × (5 ≤ length rest)

pub read_indexes-Indexed :
    (s : SchemaId) (total : ℕ) (rest : List ℕ) → Indexed s total rest (read_indexes s total rest)
unfolding read_indexes
read_indexes-Indexed s total [] = omega arith
read_indexes-Indexed s total (b ∷ rest) = by_format s.serde_format refl
  where
    by_outcome :
        (m : Outcome (List ℕ × ℕ))
        → read_index_array_and_data (b ∷ rest) ≡ m
        → Ends (b ∷ rest) m
        → s.serde_format ≡ protobuf
        → Indexed s total
            (b ∷ rest)
            (m >>= λ p. ok (record s { message_indexes = some p.0 }, total + p.1))
    by_outcome (ok (idx, p)) e h f =
        (omega arith, omega (arith, read_index_array_and_data-position b rest idx p e))
    by_outcome (throw x) e h f = h
    by_outcome undefined e h f = (f, h)

    by_format :
        (f : SerdeFormat)
        → s.serde_format ≡ f
        → Indexed s total (b ∷ rest) (read_indexes s total (b ∷ rest))
    by_format avro e = ground arith
    by_format json e = ground arith
    by_format protobuf e = subst (Indexed s total (b ∷ rest)) (ground arith) (
        by_outcome (read_index_array_and_data (b ∷ rest)) refl
          (read_index_array_and_data-Ends (b ∷ rest)) e)

-- A number of six or more bytes is shifted by 35 bits: the behaviour is undefined, whatever the
-- first five continuation bytes carry and whatever follows.
pub read_index_array_and_data_overlong :
    (b1 b2 b3 b4 b5 b6 : ℕ) (rest : List ℕ)
    → All (λ b. 128 ≤ b) (b1 ∷ b2 ∷ b3 ∷ b4 ∷ b5 ∷ [])
    → read_index_array_and_data (b1 ∷ b2 ∷ b3 ∷ b4 ∷ b5 ∷ b6 ∷ rest) ≡ undefined
unfolding read_index_array_and_data read_varint or_shifted
read_index_array_and_data_overlong b1 b2 b3 b4 b5 b6 rest h = ground arith
