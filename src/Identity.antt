-- ===== src/Identity.antt =====
-- plex_client.rs: who a request's token belongs to. What plex.tv and the server answer is not part
-- of the repository, and neither is the digest of a token.
pub mod Xml
pub mod Answers
pub mod Configured
pub mod Justified
pub mod Machine
pub mod Chain
pub mod Cached
use replex.Prelude.{
  ℕ, ◌++◌, ◌==◌, ◌&&◌, ◌||◌, not, Bool, true, false, Option, none, some, List, [], ◌∷◌, is_empty,
  map_or, and_then, unwrap_or, length, if◌then◌else◌,
}
use replex.Prelude.Int.{ℤ, pos}
use replex.Prelude.Text.{Text, codes, text_eq, is_text, contains}
use replex.Prelude.Text.Decimal.{parse_i64}
use replex.Policy.Entries.{
  UserIdentity, IdentitySource, verified_plex, shared_resource, shared_server, token_fingerprint,
  legacy_client_identifier, username_fallback, ResolvedIdentity,
}
use replex.Cache.{Cache}
use replex.Config.{Config, TokenIdentityBinding, username, client_identifier}
use replex.Identity.Answers.{
  IdentityError, invalid_token, missing_token, upstream, Result, ok, error, Answer, unreachable,
  answered, RawUser, RawResource, PlexContext, Outside, get_key, non_empty, scan_resources,
  scan_servers, identity_of_user,
}
use replex.Identity.Configured.{by_configuration}

module _ (machines : Cache Text Text) (out : Outside) (config : Config) (host : Text) where
  -- A step that may fail, and that may remember the server's machine id.
  abbrev pub Chained : Type 0 → Type 0
  Chained A = machines.Store → Result A × machines.Store

  unfoldable pub server_machine_id : Chained Text
  server_machine_id s = elim (machines.lookup s host) [
    | some id ↦ (ok id, s)
    | none ↦ elim (and_then out.root (λ parsed. parsed)) [
      | none ↦ (error upstream, s)
      | some id ↦ (ok id, machines.insert s host id)
    ]
  ]

  unfoldable pub listed_resources : Text → Answer (List RawResource) → Result (Option UserIdentity)
  unfolding scan_resources
  listed_resources machine_id unreachable = error upstream
  listed_resources machine_id (answered status body) =
      if status == 200
      then map_or body (error upstream) (λ rs. ok (scan_resources machine_id rs))
      else if status == 401 || (status == 403 || status == 404)
      then ok none
      else error upstream

  unfoldable pub asked_resources :
      Text → Result Text × machines.Store → Result (Option UserIdentity) × machines.Store
  unfolding listed_resources
  asked_resources token (error e, s) = (error e, s)
  asked_resources token (ok machine_id, s) =
      if out.header_ok token
      then (listed_resources machine_id (out.resources token), s)
      else (error upstream, s)

  unfoldable pub resolve_shared_user : Text → Chained (Option UserIdentity)
  unfolding server_machine_id asked_resources
  resolve_shared_user token s = asked_resources token (server_machine_id s)

  unfoldable pub listed_servers : Text → Answer Text → Result (Option UserIdentity)
  unfolding scan_servers
  listed_servers token unreachable = error upstream
  listed_servers token (answered status body) =
      if status == 200 then ok (scan_servers token (unwrap_or body [])) else ok none

  unfoldable pub asked_servers :
      Text → Text → Result Text × machines.Store → Result (Option UserIdentity) × machines.Store
  unfolding listed_servers
  asked_servers admin token (error e, s) = (error e, s)
  asked_servers admin token (ok machine_id, s) =
      (listed_servers token (out.shared_servers admin machine_id), s)

  unfoldable pub resolve_via_shared_servers : Text → Chained (Option UserIdentity)
  unfolding server_machine_id asked_servers
  resolve_via_shared_servers token s = elim config.token [
    | none ↦ (ok none, s)
    | some admin ↦ asked_servers admin token (server_machine_id s)
  ]

  -- The rest of the chain, once a stronger source had nothing to say.
  unfoldable pub after_servers :
      PlexContext
      → Text
      → Result (Option UserIdentity) × machines.Store
      → Result ResolvedIdentity × machines.Store
  unfolding by_configuration
  after_servers context token (error e, s) = (error e, s)
  after_servers context token (ok (some i), s) =
      (ok (record { identity = i; source = shared_server }), s)
  after_servers context token (ok none, s) =
      (by_configuration config context (out.fingerprint token), s)

  unfoldable pub after_resources :
      PlexContext
      → Text
      → Result (Option UserIdentity) × machines.Store
      → Result ResolvedIdentity × machines.Store
  unfolding after_servers resolve_via_shared_servers
  after_resources context token (error e, s) = (error e, s)
  after_resources context token (ok (some i), s) =
      (ok (record { identity = i; source = shared_resource }), s)
  after_resources context token (ok none, s) =
      after_servers context token (resolve_via_shared_servers token s)

  unfoldable pub fetched :
      PlexContext
      → Text
      → Answer RawUser
      → machines.Store
      → Result ResolvedIdentity × machines.Store
  unfolding identity_of_user after_resources resolve_shared_user
  fetched context token unreachable s = (error upstream, s)
  fetched context token (answered status body) s =
      if status == 200
      then (map_or body (error upstream) (λ raw. ok (identity_of_user raw)), s)
      else if status == 401 || status == 403
      then after_resources context token (resolve_shared_user token s)
      else (error upstream, s)

  unfoldable pub fetch_current_identity : PlexContext → Text → Chained ResolvedIdentity
  unfolding fetched
  fetch_current_identity context token s =
      if out.header_ok token then fetched context token (out.user token) s else (error upstream, s)

  module _ (identities : Cache Text ResolvedIdentity) where
    -- The two caches of the client that the chain uses.
    pub record Caches : Type 0 where
      pub known : identities.Store
      pub machine_ids : machines.Store

    unfoldable pub remembered :
        Text → Caches → Result ResolvedIdentity × machines.Store → Result ResolvedIdentity × Caches
    remembered print s (error e, m) = (error e, record s { machine_ids = m })
    remembered print s (ok r, m) =
        (ok r, record { known = identities.insert s.known print r; machine_ids = m })

    unfoldable pub get_current_identity : PlexContext → Caches → Result ResolvedIdentity × Caches
    unfolding remembered fetch_current_identity
    get_current_identity context s = elim context.token [
      | none ↦ (error missing_token, s)
      | some token ↦ elim (identities.lookup s.known (out.fingerprint token)) [
        | some r ↦ (ok r, s)
        | none ↦
            remembered (out.fingerprint token) s
              (fetch_current_identity context token s.machine_ids)
      ]
    ]
