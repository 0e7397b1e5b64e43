-- ===== src/Headers/Order.antt =====
-- Which header `lastHeader` of `SerdeHeaders` (src/serdes/Serde.cpp) finds.
use libschemaregistry.Headers.{
  SerdeHeader, SerdeHeaders, count, try_get, get, insert, first_of, last_header, remove,
}
use libschemaregistry.Outcome.{ok}
use libschemaregistry.Prelude.{
  [], ◌∷◌, ◌++◌, reverse, none, some, Text, text_dec, length, ite, ◌≡◌, refl, sym, ap, arith,
  get_elem?,
}
use mathlib.Core.List.{reverse-cons, append-nil}

reverse-snoc : (xs : SerdeHeaders) (x : SerdeHeader) → reverse (xs ++ (x ∷ [])) ≡ x ∷ reverse xs
reverse-snoc [] x = refl
reverse-snoc (y ∷ ys) x =
    rw (reverse-cons y (ys ++ (x ∷ [])), reverse-cons y ys)
      (ap (λ zs. zs ++ (y ∷ [])) (reverse-snoc ys x))

remove-append :
    (key : Text) (xs ys : SerdeHeaders) → remove key (xs ++ ys) ≡ remove key xs ++ remove key ys
unfolding remove
remove-append key [] ys = refl
remove-append key (x ∷ xs) ys = ground (arith, remove-append key xs ys)

remove-reverse :
    (key : Text) (xs : SerdeHeaders) → reverse (remove key xs) ≡ remove key (reverse xs)
unfolding remove
remove-reverse key [] = refl
remove-reverse key (x ∷ xs) =
    rw (reverse-cons x xs, remove-append key (reverse xs) (x ∷ []), ← remove-reverse key xs)
      (elim (text_dec x.key key)
        as (λ d.
          reverse (ite d (remove key xs) (x ∷ remove key xs))
          ≡ reverse (remove key xs) ++ ite d [] (x ∷ [])) [
            | yes p ↦ sym (append-nil (reverse (remove key xs)))
            | no p ↦ reverse-cons x (remove key xs)
          ])

first_of-remove :
    (j key : Text) (xs : SerdeHeaders)
    → first_of j (remove key xs) ≡ ite (text_dec key j) none (first_of j xs)
unfolding first_of remove
first_of-remove j key [] = ground arith
first_of-remove j key (x ∷ xs) = ground (arith, first_of-remove j key xs)

get_elem?-length :
    (xs : SerdeHeaders) (x : SerdeHeader) → get_elem? (xs ++ (x ∷ [])) (length xs) ≡ some x
get_elem?-length [] x = refl
get_elem?-length (y ∷ ys) x = get_elem?-length ys x

at_count :
    (headers : SerdeHeaders) (header : SerdeHeader)
    → get (count headers) (insert header headers) ≡ ok header
unfolding get try_get count insert
at_count headers header = rw (get_elem?-length headers header, get) refl

-- A header inserted is from then on the last of its key and the one at the index that was the
-- count; the last header of another key is as before.
pub last_header-insert :
    (j : Text) (header : SerdeHeader) (headers : SerdeHeaders)
    → (last_header j (insert header headers)
        ≡ ite (text_dec header.key j) (some header) (last_header j headers))
      × (get (count headers) (insert header headers) ≡ ok header)
unfolding last_header insert first_of
last_header-insert j header headers =
    (rw (reverse-snoc headers header) (ground arith), at_count headers header)

-- After `remove` no header of the key is left, and the last header of another key is as before.
pub last_header-remove :
    (j key : Text) (headers : SerdeHeaders)
    → last_header j (remove key headers) ≡ ite (text_dec key j) none (last_header j headers)
unfolding last_header
last_header-remove j key headers =
    rw (remove-reverse key headers) (first_of-remove j key (reverse headers))
