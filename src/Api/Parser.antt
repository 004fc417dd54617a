-- ===== src/Api/Parser.antt =====
-- src/api/parser.rs, with src/api/page_token.rs: the fields of a request. An `i32` or `i64` is its
-- value; a `Duration` is its nanoseconds. base64 is a third-party codec, a parameter.
pub mod Fields
pub mod Updates
pub mod Base64
pub mod Tokens
pub mod Bounds
pub mod Masks
