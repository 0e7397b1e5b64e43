-- ===== src/Url.antt =====
-- `urlEncode` of the registry clients (src/rest/SchemaRegistryClient.cpp and
-- src/rest/DekRegistryClient.cpp), and the text of an `int32_t`. `std::isalnum` is given a `char`,
-- which is signed: for the bytes from 128 to 254 that is a negative number other than EOF, and
-- the call is undefined; the byte 255 is EOF. The locale is "C".
pub mod RoundTrip
use libschemaregistry.Outcome.{Outcome, ok, undefined, ◌>>=◌}
use libschemaregistry.Prelude.{
  ℕ, ◌-◌, ◌+◌, ◌/◌, ◌%◌, ◌^◌, Bool, ◌&&◌, ◌||◌, [], ◌∷◌, ◌++◌, Text, to_string, ltb, leb, ◌==◌,
  if◌then◌else◌,
}

unfoldable pub is_alnum : ℕ → Bool
is_alnum c = leb 48 c && leb c 57 || leb 65 c && leb c 90 || leb 97 c && leb c 122

-- What stays as it is: letters, digits, '-', '_', '.' and '~'.
unfoldable pub is_unreserved : ℕ → Bool
is_unreserved c = is_alnum c || c == 45 || c == 95 || c == 46 || c == 126

-- A digit under `std::hex` and `std::uppercase`.
unfoldable pub hex_upper : ℕ → ℕ
hex_upper d = if ltb d 10 then 48 + d else 55 + d

unfoldable pub encode_char : ℕ → Outcome Text
encode_char c =
    if ltb c 128 || c == 255
    then ok (if is_unreserved c then c ∷ [] else 37 ∷ hex_upper (c / 16) ∷ hex_upper (c % 16) ∷ [])
    else undefined

unfoldable pub url_encode : Text → Outcome Text
url_encode [] = ok []
url_encode (c ∷ s) = do escaped ← encode_char c; rest ← url_encode s; ok (escaped ++ rest)

-- `std::to_string` of an `int32_t`, from its bit pattern.
unfoldable pub int32_to_string : ℕ → Text
int32_to_string n = if ltb n (2 ^ 31) then to_string n else 45 ∷ to_string (2 ^ 32 - n)
