-- ===== src/Api/Parser/Base64.antt =====
-- The codec of the third-party crate base64, its standard alphabet, as an interface.
use deltio.Prelude.{Bytes, Option, is_empty, some, ◌≡◌, nat_eq}

-- Decoding is the inverse of encoding, and only the empty text encodes no bytes.
pub record Base64 : Type 0 where
  pub encode : Bytes → Bytes
  pub decode : Bytes → Option Bytes
  pub decode-encode : (s : Bytes) → decode (encode s) ≡ some s
  pub encode-is_empty : (s : Bytes) → is_empty (encode s) ≡ is_empty s
