-- ===== src/Identity/Configured.antt =====
-- plex_client.rs `fetch_current_identity`: what the configuration says of tokens that Plex rejects.
use replex.Prelude.{◌++◌, Bool, true, Option, none, some, map_or, and_then, if◌then◌else◌}
use replex.Prelude.Int.{pos}
use replex.Prelude.Text.{Text, codes, is_text}
use replex.Policy.Entries.{
  token_fingerprint, legacy_client_identifier, username_fallback, ResolvedIdentity,
}
use replex.Config.{Config, TokenIdentityBinding, username, client_identifier}
use replex.Identity.Answers.{invalid_token, Result, ok, error, PlexContext, get_key, non_empty}

-- What the configuration says of the tokens that Plex does not know.
unfoldable pub by_username_header : Config → PlexContext → Result ResolvedIdentity
by_username_header config context =
    if config.allow_username_fallback
    then map_or (non_empty context.username) (error invalid_token) (λ u. ok (record {
      identity = record { id = pos 0; uuid = codes "unverified-" ++ u; username = u };
      source = username_fallback;
    }))
    else error invalid_token

unfoldable pub by_client_identifier : Config → PlexContext → Result ResolvedIdentity
unfolding by_username_header get_key
by_client_identifier config context =
    elim (and_then {B = Text × Text} context.client_identifier
      (λ cid. map_or (get_key config.client_identity_map cid) none (λ u. some (cid, u)))) [
        | none ↦ by_username_header config context
        | some (cid, u) ↦ ok (record {
          identity = record { id = pos 0; uuid = codes "cid-" ++ cid; username = u };
          source = legacy_client_identifier;
        })
      ]

-- Whether a binding lets a client use the token.
unfoldable pub binding_allows : TokenIdentityBinding → Option Text → Bool
unfolding is_text
binding_allows binding client =
    map_or (client_identifier binding) true (λ required. is_text client required)

unfoldable pub by_configuration : Config → PlexContext → Text → Result ResolvedIdentity
unfolding by_client_identifier get_key binding_allows
by_configuration config context print = elim (get_key config.token_identity_map print) [
  | none ↦ by_client_identifier config context
  | some binding ↦
      if binding_allows binding context.client_identifier
      then ok (record {
        identity = record {
          id = pos 0;
          uuid = codes "token-sha256-" ++ print;
          username = username binding;
        };
        source = token_fingerprint;
      })
      else error invalid_token
]
