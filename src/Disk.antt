-- ===== src/Disk.antt =====
-- disk_cache.rs: the format of a cached response on disk (`encode_record`, `decode_record`). Bytes
-- are numbers below 256, and a content type is its UTF-8 bytes.
pub mod Bytes
pub mod Slices
pub mod Layout
pub mod RoundTrip
pub mod Truncated
pub mod Files
use replex.Prelude.{
  ℕ, ◌+◌, ◌-◌, ◌^◌, ◌||◌, Bool, true, false, not, Option, none, some, List, [], ◌∷◌, ◌++◌, ltb, leb,
  ◌==◌, if◌then◌else◌, length, take, drop, and_then, unwrap_or,
}
use replex.Prelude.Text.{text_eq, codes}
use replex.Disk.Bytes.{to_be_bytes, from_be_bytes, is_utf8}

pub record CacheRecord : Type 0 where
  pub content_type : Option (List ℕ)
  pub body : List ℕ

abbrev pub cache_magic : List ℕ
cache_magic = codes "RPC1"

abbrev pub slice : ℕ → ℕ → List ℕ → List ℕ
slice a b stored = take (b - a) (drop a stored)

-- On `usize`, which has 64 bits.
abbrev pub checked_add : ℕ → ℕ → Option ℕ
checked_add a b = if ltb (a + b) (2 ^ 64) then some (a + b) else none

unfoldable pub encode_record : Option (List ℕ) → List ℕ → Option (List ℕ)
unfolding to_be_bytes
encode_record content_type body =
    let ct = unwrap_or content_type [] in
    if ltb (length ct) (2 ^ 16)
    then (if ltb (length body) (2 ^ 64)
        then some (
            cache_magic
            ++ (to_be_bytes 2 (length ct) ++ (ct ++ (to_be_bytes 8 (length body) ++ body))))
        else none)
    else none

-- The content type, where there is one, has to be UTF-8.
unfoldable pub decode_content_type : ℕ → List ℕ → Option (Option (List ℕ))
unfolding is_utf8
decode_content_type ct_len bytes =
    if ct_len == 0 then some none else if is_utf8 bytes then some (some bytes) else none

unfoldable pub decode_body : List ℕ → ℕ → ℕ → ℕ → Option CacheRecord
unfolding from_be_bytes decode_content_type
decode_body stored ct_len body_len_start body_len_end =
    if ltb (length stored) body_len_end
    then none
    else and_then
        (checked_add body_len_end (from_be_bytes (slice body_len_start body_len_end stored)))
        (λ body_end.
          if ltb (length stored) body_end
          then none
          else and_then (decode_content_type ct_len (slice 6 body_len_start stored))
              (λ content_type. some (record {
                content_type = content_type;
                body = slice body_len_end body_end stored;
              })))

unfoldable pub decode_record : List ℕ → Option CacheRecord
unfolding decode_body text_eq
decode_record stored =
    if ltb (length stored) (length cache_magic) || not (text_eq (slice 0 4 stored) cache_magic)
    then some (record { content_type = none; body = stored })
    else if ltb (length stored) 6
    then none
    else let ct_len = from_be_bytes (slice 4 6 stored) in
      and_then (checked_add 6 ct_len) (λ body_len_start.
        and_then (checked_add body_len_start 8)
          (λ body_len_end. decode_body stored ct_len body_len_start body_len_end))
