-- ===== src/Headers.antt =====
-- `SerdeHeaders` (src/serdes/Serde.cpp): the headers of a message, in order. The mutex is taken for
-- the whole of each call, so that calls are steps.
pub mod Order
use libschemaregistry.Outcome.{Exception, Outcome, ok, throw}
use libschemaregistry.Prelude.{
  ℕ, List, [], ◌∷◌, ◌++◌, reverse, length, get_elem?, Option, none, some, Text, text_dec, codes,
  to_string, ite,
}

pub record SerdeHeader : Type 0 where
  pub key : Text
  pub value : Option (List ℕ)

abbrev pub SerdeHeaders : Type 0
SerdeHeaders = List SerdeHeader

unfoldable pub count : SerdeHeaders → ℕ
count headers = length headers

unfoldable pub try_get : ℕ → SerdeHeaders → Option SerdeHeader
try_get idx headers = get_elem? headers idx

unfoldable pub get : ℕ → SerdeHeaders → Outcome SerdeHeader
get idx headers = elim (try_get idx headers) [
  | some header ↦ ok header
  | none ↦ throw (
      Exception.std_exception (
        codes "headers index out of bounds: the count is "
        ++ (to_string (count headers) ++ (codes " but the index is " ++ to_string idx))))
]

unfoldable pub insert : SerdeHeader → SerdeHeaders → SerdeHeaders
insert header headers = headers ++ (header ∷ [])

-- The loop of `lastHeader`, over the headers from the last on.
unfoldable pub first_of : Text → SerdeHeaders → Option SerdeHeader
first_of key [] = none
first_of key (h ∷ hs) = ite (text_dec h.key key) (some h) (first_of key hs)

unfoldable pub last_header : Text → SerdeHeaders → Option SerdeHeader
last_header key headers = first_of key (reverse headers)

unfoldable pub get_last_header_value : Text → SerdeHeaders → Option (List ℕ)
get_last_header_value key headers = elim (last_header key headers) [
  | none ↦ none
  | some header ↦ header.value
]

unfoldable pub remove : Text → SerdeHeaders → SerdeHeaders
remove key [] = []
remove key (h ∷ hs) = let rest = remove key hs in ite (text_dec h.key key) rest (h ∷ rest)
