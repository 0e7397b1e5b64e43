-- ===== src/Cache/Counts.antt =====
-- How often a key stands in the list and in the map of `TtlLruCache`, and what each of their
-- operations does to that number and to the lengths.
use libschemaregistry.Cache.{remove, back, pop_back}
use libschemaregistry.Prelude.Dict.{Dict, lookup, insert, erase}
use libschemaregistry.Prelude.{
  ℕ, suc, ◌+◌, ◌≤◌, List, [], ◌∷◌, none, some, ite, ◌≡◌, refl, arith, length,
}

module _ {K : Type 0} where
  pub length-pop_back :
      (x : K) (xs : List K) → back xs ≡ some x → length xs ≡ length (pop_back xs) + 1
  unfolding back pop_back
  length-pop_back x [] h = cc
  length-pop_back x (y ∷ []) h = refl
  length-pop_back x (y ∷ z ∷ xs) h = omega (arith, length-pop_back x (z ∷ xs) h)

  pub back-some : (n : ℕ) (xs : List K) → length xs ≡ suc n → (y : K) × (back xs ≡ some y)
  unfolding back
  back-some n [] h = cc
  back-some n (x ∷ []) h = (x, refl)
  back-some n (x ∷ y ∷ xs) h = back-some (length xs) (y ∷ xs) refl

module _ {K : Type 0} (dec : Discrete K) where
  unfoldable pub count : K → List K → ℕ
  count k [] = 0
  count k (j ∷ xs) = ite (dec j k) (suc (count k xs)) (count k xs)

  pub count-remove :
      (k j : K) (xs : List K) → count j (remove dec k xs) ≡ ite (dec k j) 0 (count j xs)
  unfolding count remove
  count-remove k j [] = ground arith
  count-remove k j (x ∷ xs) = ground (arith, count-remove k j xs)

  pub length-remove : (k : K) (xs : List K) → length (remove dec k xs) + count k xs ≡ length xs
  unfolding count remove
  length-remove k [] = omega arith
  length-remove k (x ∷ xs) = ground (arith, length-remove k xs)

  -- The last key stands in the list, and dropping the last node takes one of it away.
  pub count-pop_back :
      (x j : K) (xs : List K)
      → back xs ≡ some x
      → count j xs ≡ count j (pop_back xs) + ite (dec x j) 1 0
  unfolding count back pop_back
  count-pop_back x j [] h = cc
  count-pop_back x j (y ∷ []) h = ground arith
  count-pop_back x j (y ∷ z ∷ xs) h = ground (arith, count-pop_back x j (z ∷ xs) h)

  pub count-back : (x : K) (xs : List K) → back xs ≡ some x → 1 ≤ count x xs
  count-back x xs h = ground (arith, count-pop_back x x xs h)

module _ {K V : Type 0} (dec : Discrete K) where
  abbrev pub keys : Dict K V → List K
  keys [] = []
  keys ((k, _) ∷ m) = k ∷ keys m

  -- The number of entries of a key.
  abbrev pub entries_of : K → Dict K V → ℕ
  entries_of k m = count dec k (keys m)

  pub entries_of-erase :
      (k j : K) (m : Dict K V) → entries_of j (erase dec k m) ≡ ite (dec k j) 0 (entries_of j m)
  unfolding count erase
  entries_of-erase k j [] = ground arith
  entries_of-erase k j ((i, _) ∷ m) = ground (arith, entries_of-erase k j m)

  pub length-erase : (k : K) (m : Dict K V) → length (erase dec k m) + entries_of k m ≡ length m
  unfolding count erase
  length-erase k [] = omega arith
  length-erase k ((i, _) ∷ m) = ground (arith, length-erase k m)

  pub entries_of-none : (k : K) (m : Dict K V) → lookup dec k m ≡ none → entries_of k m ≡ 0
  unfolding count lookup
  entries_of-none k [] h = refl
  entries_of-none k ((i, _) ∷ m) h = ground (arith, entries_of-none k m)

  pub entries_of-some :
      (k : K) (v : V) (m : Dict K V) → lookup dec k m ≡ some v → 1 ≤ entries_of k m
  unfolding count lookup
  entries_of-some k v [] h = cc
  entries_of-some k v ((i, _) ∷ m) h = ground (arith, entries_of-some k v m)

  -- Writing to a key that is there changes no key, and writing to a new key adds it.
  pub entries_of-insert :
      (k j : K) (v : V) (m : Dict K V)
      → entries_of j (insert dec k v m) ≡ elim (lookup dec k m) [
        | none ↦ entries_of j m + ite (dec k j) 1 0
        | some _ ↦ entries_of j m
      ]
  unfolding count lookup insert
  entries_of-insert k j v [] = ground arith
  entries_of-insert k j v ((i, w) ∷ m) = ground (arith, entries_of-insert k j v m)

  pub length-insert :
      (k : K) (v : V) (m : Dict K V)
      → length (insert dec k v m)
        ≡ elim (lookup dec k m) [ none ↦ length m + 1 | some _ ↦ length m ]
  unfolding lookup insert
  length-insert k v [] = refl
  length-insert k v ((i, w) ∷ m) = ground (arith, length-insert k v m)
