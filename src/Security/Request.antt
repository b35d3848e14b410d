-- ===== src/Security/Request.antt =====
-- auth/context.rs: the context of a request (`RequestContextMiddleware`), with the Plex server that
-- the name of the requested host may encode. BASE32 and UTF-8 are not part of the repository.
pub mod Approved
use replex.Prelude.{
  ℕ, leb, ◌-◌, ◌+◌, ◌%◌, ◌^◌, ◌&&◌, ◌||◌, Bool, true, false, not, Option, none, some, List, [], ◌∷◌,
  any, map, is_empty, is_some, map_or, or_else, unwrap_or, and_then, if◌then◌else◌,
}
use mathlib.Core.List.{reverse}
use replex.Prelude.Text.{Text, codes, starts_with, strip_prefix, trim}
use replex.Config.{Config}
use replex.Config.Upstream.{UrlLibrary, trim_slashes, allows_upstream_host}
use replex.Hub.{token_scope}

-- `decode` is BASE32 of data_encoding over bytes.
pub record Decoders : Type 0 where
  pub decode : Text → Option (List ℕ)
  pub from_utf8 : List ℕ → Option Text

-- `str::strip_suffix`
unfoldable pub strip_suffix : Text → Text → Option Text
unfolding strip_prefix
strip_suffix suffix s =
    map_or (strip_prefix (reverse suffix) (reverse s)) none (λ r. some (reverse r))

abbrev pub ascii_upper : ℕ → ℕ
ascii_upper c = if leb b'a' c && leb c b'z' then c - 32 else c

-- What `.trim()` leaves, if it is the address of a host, without a query and a fragment.
unfoldable pub stream_address : UrlLibrary → Text → Option Text
unfolding starts_with trim_slashes
stream_address url value =
    if not (starts_with (codes "http://") value || starts_with (codes "https://") value)
    then none
    else and_then (url.parse value) (λ parsed.
      if not (is_some (url.host_str parsed))
        || is_some (url.query parsed)
        || is_some (url.fragment parsed)
      then none
      else some (trim_slashes value))

-- `host` is the HOST header, if it is text.
unfoldable pub decoded_replex_stream_host : UrlLibrary → Decoders → Option Text → Option Text
unfolding strip_suffix stream_address trim
decoded_replex_stream_host url decoders host = and_then host (λ name.
    and_then (strip_suffix (codes ".replex.stream") name) (λ encoded.
      if is_empty encoded
      then none
      else and_then (decoders.decode (map ascii_upper encoded)) (λ output.
        if is_empty output
        then none
        else and_then (decoders.from_utf8 output) (λ value. stream_address url (trim value)))))

-- The context without the client's own parameters (`plex`). `number` is what the `request_id` is
-- written from.
pub record RequestContext : Type 0 where
  pub upstream_host : Text
  pub number : ℕ
  pub token_scope : Text

-- What becomes of a request.
pub data Handled : Type 0 where
  no_state : Handled
  rejected : Handled
  next : RequestContext → Handled

-- `RequestContextMiddleware::handle`, with the counter of requests. `config` is that of the state,
-- if there is one, and `token` that of the client.
module _ (url : UrlLibrary) (decoders : Decoders) (fingerprint : Text → Text) where
  unfoldable pub admit : Config → Option Text → Option Text → ℕ → Handled × ℕ
  unfolding token_scope
  admit config token decoded_host counter = (
    next (record {
      upstream_host = unwrap_or (or_else decoded_host config.host) [];
      number = counter;
      token_scope = token_scope fingerprint token;
    }),
    (counter + 1) % 2 ^ 64,
  )

  unfoldable pub decide : Config → Option Text → Option Text → ℕ → Handled × ℕ
  unfolding admit allows_upstream_host
  decide config token none counter = admit config token none counter
  decide config token (some candidate) counter =
      if allows_upstream_host url config candidate
      then admit config token (some candidate) counter
      else (rejected, counter)

  unfoldable pub handle_request : Option Config → Option Text → Option Text → ℕ → Handled × ℕ
  unfolding decide decoded_replex_stream_host
  handle_request none host token counter = (no_state, counter)
  handle_request (some config) host token counter =
      decide config token (decoded_replex_stream_host url decoders host) counter
