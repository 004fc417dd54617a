-- ===== src/Api/Parser/Tokens.antt =====
-- src/api/page_token.rs, and `parse_page_token` and `parse_paging` of src/api/parser.rs. A `usize`
-- has 64 bits, its bytes from the lowest to the highest.
use deltio.Prelude.{
  Bytes, Option, [], arith, false, if◌then◌else◌, is_empty, length, negsuc, none, pos, refl, some,
  suc, zero, ℕ, ℤ, ◌%◌, ◌*◌, ◌+◌, ◌/◌, ◌<◌, ◌==◌, ◌^◌, ◌∷◌, ◌≡◌, nat_eq,
}
use native.Mathlib.Nat.{pow-suc}
use deltio.Results.{Result, ok, err, ok_or, map_ok, ◌>>=◌}
use deltio.Paging.{Paging, new_paging}
use deltio.Api.Proto.{Status, invalid_argument}
use deltio.Api.Parser.Base64.{Base64}

to_ne_bytes : ℕ → ℕ → Bytes
to_ne_bytes zero value = []
to_ne_bytes (suc width) value = (value % 256) ∷ to_ne_bytes width (value / 256)

from_ne_bytes : Bytes → ℕ
from_ne_bytes [] = 0
from_ne_bytes (c ∷ s) = c + 256 * from_ne_bytes s

from_ne_bytes-to_ne_bytes :
    (width value : ℕ) → value < 256 ^ width → from_ne_bytes (to_ne_bytes width value) ≡ value
unfolding from_ne_bytes to_ne_bytes
from_ne_bytes-to_ne_bytes zero value h = omega arith
from_ne_bytes-to_ne_bytes (suc width) value h =
    omega (arith, from_ne_bytes-to_ne_bytes width (value / 256) (omega (arith, pow-suc 256 width)))

length-to_ne_bytes : (width value : ℕ) → length (to_ne_bytes width value) ≡ width
unfolding to_ne_bytes
length-to_ne_bytes zero value = refl
length-to_ne_bytes (suc width) value = omega (arith, length-to_ne_bytes width (value / 256))

-- A client's paging as a page token and a size.
module _ ⦃b : Base64⦄ where
  pub encode_token : ℕ → Bytes
  unfolding to_ne_bytes
  encode_token value = b.encode (to_ne_bytes 8 value)

  try_decode : Bytes → Option ℕ
  unfolding from_ne_bytes
  try_decode encoded = elim (b.decode encoded) [
    | none ↦ none
    | some bytes ↦ if length bytes == 8 then some (from_ne_bytes bytes) else none
  ]

  parse_page_token : Bytes → Result Status (Option ℕ)
  unfolding try_decode
  parse_page_token raw_value =
      if is_empty raw_value
      then ok none
      else map_ok some (ok_or (try_decode raw_value) invalid_argument)

  abbrev page_size_of : ℤ → Result Status ℕ
  page_size_of (pos n) = ok n
  page_size_of (negsuc n) = err invalid_argument

  unfoldable pub parse_paging : ℤ → Bytes → Result Status Paging
  unfolding parse_page_token
  parse_paging raw_size token = parse_page_token token >>= λ page_token.
      page_size_of raw_size >>= λ page_size. ok (new_paging page_size page_token)

  -- The token that ends a page.
  abbrev pub next_page_token : Option ℕ → Bytes
  next_page_token none = []
  next_page_token (some offset) = encode_token offset

  try_decode-encode_token :
      (value : ℕ) → value < 2 ^ 64 → try_decode (encode_token value) ≡ some value
  unfolding try_decode encode_token
  try_decode-encode_token value h = ground (
    arith,
    b.decode-encode (to_ne_bytes 8 value),
    length-to_ne_bytes 8 value,
    from_ne_bytes-to_ne_bytes 8 value,
  )

  encode_token-is_empty : (value : ℕ) → is_empty (encode_token value) ≡ false
  unfolding encode_token
  encode_token-is_empty value = b.encode-is_empty (to_ne_bytes 8 value)

  -- A client that sends back the token of a page gets the paging at the offset that the page had,
  -- a 64-bit word, and the first page where there was none, whatever size it asks for.
  pub parse_paging-next_page_token :
      (asked : ℕ) (offset : Option ℕ)
      → ((n : ℕ) → offset ≡ some n → n < 2 ^ 64)
      → parse_paging (pos asked) (next_page_token offset) ≡ ok (new_paging asked offset)
  unfolding parse_paging
  parse_paging-next_page_token asked none h = refl
  parse_paging-next_page_token asked (some offset) h =
      ground (arith, encode_token-is_empty offset, try_decode-encode_token offset, h offset refl)
