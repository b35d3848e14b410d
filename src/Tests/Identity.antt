-- ===== src/Tests/Identity.antt =====
-- The identity chain and its cache.
use replex.Prelude.{◌≡◌, refl, true, false, none, some, [], ◌∷◌, arith}
use replex.Prelude.Int.{pos}
use replex.Prelude.Text.{Text, codes, text_eq, is_text, contains, starts_with}
use replex.Policy.Limit.{unlimited}
use replex.Policy.Entries.{ResolvedIdentity, shared_resource}
use replex.Cache.Assoc.{assoc, find_key}
use replex.Config.{Config, detailed}
use replex.Identity.Answers.{Result, ok, answered, Outside, PlexContext, scan_resources}
use replex.Identity.{
  fetch_current_identity, fetched, after_resources, asked_resources, listed_resources,
  resolve_shared_user, server_machine_id, Caches, get_current_identity,
}
use replex.Identity.Justified.{IsJustified}
use replex.Identity.Machine.{GivesOurs}
use replex.Identity.Chain.{IsMachineOf, fetch_current_identity-IsJustified}
use replex.Identity.Cached.{HoldsKnown, IsKnownFor, get_current_identity-IsKnownFor}
use replex.Tests.Data.{text_cache}

-- The token `t` is bound to Ann, for the client `tv` only.
abbrev config : Config
config = record {
  host = none;
  token = none;
  interleave = false;
  hub_restrictions = false;
  hero_rows = some (codes "continue" ∷ []);
  warm_interval = 300;
  redirect_streams_host = none;
  allowed_upstream_hosts = none;
  identity_api_base = none;
  port = none;
  ssl_enable = false;
  ssl_domain = none;
  exclude_watched = false;
  hub_stale_ttl = 0;
  warm_tokens = none;
  disable_user_state = false;
  disable_leaf_count = false;
  redirect_streams = false;
  video_transcode_fallback_for = none;
  resolution_policy_enabled = true;
  user_resolution_policies = [];
  resolution_default = unlimited;
  resolution_policy_fail_closed = true;
  allow_username_fallback = false;
  token_identity_map = (codes "t", detailed (codes "Ann") (some (codes "tv"))) ∷ [];
  client_identity_map = [];
  hidden_collections = none;
}

-- Plex rejects every token, and lists nothing.
abbrev silent : Outside
silent = record {
  header_ok = λ t. true;
  fingerprint = λ t. t;
  user = λ t. answered 401 none;
  resources = λ t. answered 404 none;
  shared_servers = λ a m. answered 500 none;
  root = some (some (codes "m"));
}

-- Plex rejects every token, and lists this server as shared with Bob.
abbrev sharing : Outside
sharing = record silent {
  resources = λ t. answered 200 (
      some (
        record {
          client_identifier = some (codes "m");
          provides = some (codes "server");
          source_title = some (codes "Bob");
          owner_id = none;
        }
        ∷ []));
}

abbrev bob : ResolvedIdentity
bob = record {
  identity = record { id = pos 0; uuid = codes "shared-Bob"; username = codes "Bob" };
  source = shared_resource;
}

abbrev from_tv : PlexContext
from_tv = record {
  token = some (codes "t");
  client_identifier = some (codes "tv");
  username = none;
}

abbrev from_phone : PlexContext
from_phone = record {
  token = some (codes "t");
  client_identifier = some (codes "phone");
  username = none;
}

fetch_current_identity-IsJustified_example :
    IsJustified
      (IsMachineOf sharing text_cache (codes "h") text_cache.empty)
      sharing
      config
      from_tv
      (codes "t")
      bob
unfolding text_cache
fetch_current_identity-IsJustified_example =
    fetch_current_identity-IsJustified sharing config from_tv (codes "t") text_cache (codes "h")
      text_cache.empty bob
      (unfold fetch_current_identity fetched after_resources resolve_shared_user asked_resources
          listed_resources server_machine_id scan_resources contains starts_with is_text text_eq
          find_key assoc in
        refl)

-- Nothing is cached.
abbrev fresh : Caches text_cache silent config (codes "h") text_cache
unfolding text_cache
fresh = record { known = []; machine_ids = [] }

-- The server has one machine id, and gives it.
abbrev IsM : Text → Type 0
IsM id = id ≡ codes "m"

gives_m : GivesOurs IsM silent
gives_m id e = ground arith

fresh-HoldsKnown : HoldsKnown IsM text_cache silent config (codes "h") text_cache gives_m fresh
unfolding fresh text_cache
fresh-HoldsKnown = (
  (λ print r h. absurd (ground (arith, text_cache.lookup-empty print))),
  (λ id h. absurd (ground (arith, text_cache.lookup-empty (codes "h")))),
)

abbrev get_identity :
    PlexContext
    → Caches text_cache silent config (codes "h") text_cache
    → Result ResolvedIdentity × Caches text_cache silent config (codes "h") text_cache
get_identity = get_current_identity text_cache silent config (codes "h") text_cache

get_current_identity-IsKnownFor_example :
    HoldsKnown IsM text_cache silent config
      (codes "h")
      text_cache
      gives_m
      (get_identity from_tv fresh).1
    × ((r : ResolvedIdentity)
        → (get_identity from_tv fresh).0 ≡ ok r
        → (token : Text) × (from_tv.token ≡ some token)
          × IsKnownFor IsM text_cache silent config
              (codes "h")
              text_cache
              gives_m
              (silent.fingerprint token)
              r)
get_current_identity-IsKnownFor_example =
    get_current_identity-IsKnownFor IsM text_cache silent config (codes "h") text_cache gives_m
      from_tv fresh fresh-HoldsKnown
