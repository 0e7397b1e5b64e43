-- ===== src/Url/RoundTrip.antt =====
-- `urlEncode` against a decoder of percent escapes.
use libschemaregistry.Outcome.{ok, >>=-eq-ok}
use libschemaregistry.Prelude.{
  ℕ, ◌-◌, ◌+◌, ◌*◌, ◌/◌, ◌%◌, ◌<◌, true, [], ◌∷◌, ◌++◌, Option, none, some, Text, ltb, ◌==◌,
  if◌then◌else◌, ◌≡◌, ◌≢◌, arith, inl, inr, Bool-cases, ap,
}
use libschemaregistry.Url.{is_alnum, is_unreserved, hex_upper, encode_char, url_encode}

-- How far the decoder is in an escape.
pub data Escape : Type 0 where
  outside : Escape
  after_percent : Escape
  after_digit : ℕ → Escape

abbrev pub from_hex : ℕ → ℕ
from_hex c = if ltb c 58 then c - 48 else c - 55

abbrev pub prepend : ℕ → Option Text → Option Text
prepend c none = none
prepend c (some s) = some (c ∷ s)

-- The reference: a percent sign and two digits stand for a byte, any other byte for itself.
unfoldable pub percent_decode_from : Escape → Text → Option Text
percent_decode_from outside [] = some []
percent_decode_from after_percent [] = none
percent_decode_from (after_digit d) [] = none
percent_decode_from outside (c ∷ s) =
    let plain = percent_decode_from outside s in
    let escaped = percent_decode_from after_percent s in
    if c == 37 then escaped else prepend c plain
percent_decode_from after_percent (c ∷ s) = percent_decode_from (after_digit (from_hex c)) s
percent_decode_from (after_digit d) (c ∷ s) =
    prepend (16 * d + from_hex c) (percent_decode_from outside s)

abbrev pub percent_decode : Text → Option Text
percent_decode s = percent_decode_from outside s

from_hex-hex_upper : (d : ℕ) → d < 16 → from_hex (hex_upper d) ≡ d
unfolding hex_upper
from_hex-hex_upper d h = ground arith

not_percent : (c : ℕ) → is_unreserved c ≡ true → c ≢ 37
unfolding is_unreserved is_alnum
not_percent c h p = ground arith

decode-plain :
    (c : ℕ) (t : Text)
    → is_unreserved c ≡ true
    → percent_decode (c ∷ t) ≡ prepend c (percent_decode t)
unfolding percent_decode_from
decode-plain c t h = ground (arith, not_percent c h)

decode-escape :
    (c : ℕ) (t : Text)
    → c < 256
    → percent_decode (37 ∷ hex_upper (c / 16) ∷ hex_upper (c % 16) ∷ t)
      ≡ prepend c (percent_decode t)
unfolding percent_decode_from
decode-escape c t h =
    ap (λ n. prepend n (percent_decode t))
      (omega (
        arith,
        from_hex-hex_upper (c / 16) (omega arith),
        from_hex-hex_upper (c % 16) (omega arith),
      ))

decode-encode_char :
    (c : ℕ) (e t : Text)
    → encode_char c ≡ ok e
    → percent_decode (e ++ t) ≡ prepend c (percent_decode t)
unfolding encode_char
decode-encode_char c e t h = elim (Bool-cases (is_unreserved c)) [
  | inl plain ↦ ground (arith, decode-plain c t plain)
  | inr other ↦ ground (arith, decode-escape c t)
]

-- Whenever `urlEncode` returns, the decoder gives back the text that was encoded.
pub decode-url_encode : (s t : Text) → url_encode s ≡ ok t → percent_decode t ≡ some s
unfolding url_encode percent_decode_from
decode-url_encode [] t h = ground arith
decode-url_encode (c ∷ s) t h =
    let (e, head, more) = >>=-eq-ok (encode_char c) _ h in
    let (rest, tail, joined) = >>=-eq-ok (url_encode s) _ more in
    ground (arith, decode-encode_char c e rest head, decode-url_encode s rest tail)

-- Different texts get different encodings, so that no two subjects share the path of a request.
pub url_encode-inj : (s s' t : Text) → url_encode s ≡ ok t → url_encode s' ≡ ok t → s ≡ s'
url_encode-inj s s' t h h' = cc (decode-url_encode s t h, decode-url_encode s' t h')
