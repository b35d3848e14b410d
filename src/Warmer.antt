-- ===== src/Warmer.antt =====
-- hub_cache.rs: the background warmer, which fetches the hub payloads of each configured account
-- ahead of its requests.
pub mod Releases
pub mod Shares
use replex.Prelude.{
  ℕ, ◌&&◌, ◌==◌, Bool, true, false, not, Option, none, some, List, [], ◌∷◌, ◌++◌, map, filter, any,
  head, is_empty, map_or, unwrap_or, if◌then◌else◌,
}
use replex.Prelude.Sorted.{sort, leb_text}
use replex.Prelude.Text.{Text, codes}
use replex.Cache.{Cache}
use replex.Config.{Config}
use replex.Hub.{
  Hubs, is_global, hub_cache_key, track_fetched, claim_refresh, end_refresh, refresh_hub_entry,
}
use replex.CacheKeys.{join, cache_key_for_request}
use replex.Transform.{MediaContainer}
use replex.HubRoute.{Upstream, fetch_hubs_payload}

unfoldable pub warm_token_list : Config → List Text
warm_token_list config =
    let tokens = unwrap_or config.warm_tokens [] in
    if not (is_empty tokens) then tokens else map_or config.token [] (λ t. t ∷ [])

abbrev promoted_path : Text → Text → Text
promoted_path section joined =
    codes "/hubs/promoted?contentdirectoryid="
    ++ (section ++ (codes "&pinnedcontentdirectoryid=" ++ joined))

-- `sections` are the libraries that Plex lists, if it does; without any there is nothing to warm.
unfoldable pub warm_paths : Option (List Text) → List Text
unfolding sort join
warm_paths none = []
warm_paths (some []) = []
warm_paths (some (s ∷ ss)) =
    let joined = join (codes ",") (sort leb_text (s ∷ ss)) in
    promoted_path joined joined
    ∷ codes "/hubs/home"
    ∷ (codes "/hubs/continueWatching?contentdirectoryid=" ++ joined)
    ∷ map (λ section. promoted_path section joined) (s ∷ ss)

-- A path to warm with a token.
pub record WarmStep : Type 0 where
  pub token : Text
  pub path : Text

abbrev pub steps_of : Text → List Text → List WarmStep
steps_of token paths = map (λ path. record { token = token; path = path }) paths

-- The libraries that a token sees; `none` if Plex does not say, or no client can be built.
abbrev Sections : Type 0
Sections = Text → Option (List Text)

unfoldable pub shared_steps : Sections → List Text → List WarmStep
unfolding warm_paths is_global filter
shared_steps sections [] = []
shared_steps sections (first_token ∷ tokens) =
    steps_of first_token (filter is_global (warm_paths (sections first_token)))

unfoldable pub own_steps : Sections → List Text → List WarmStep
unfolding warm_paths is_global filter
own_steps sections [] = []
own_steps sections (token ∷ tokens) =
    steps_of token (filter (λ p. not (is_global p)) (warm_paths (sections token)))
    ++ own_steps sections tokens

-- The hubs that `warm_cycle` warms, in order: what all accounts share with the first token, and then
-- the rest with each. `first` is what Plex says the first time.
unfoldable pub warm_cycle : Sections → Sections → Config → List WarmStep
unfolding shared_steps own_steps warm_token_list
warm_cycle first sections config =
    if config.warm_interval == 0
    then []
    else shared_steps first (warm_token_list config) ++ own_steps sections (warm_token_list config)

-- `parse` takes a path with a query apart: the path, and its parameters.
module _ (fingerprint : Text → Text) (parse : Text → Text × (Text → Option Text))
    (payloads : Cache Text MediaContainer) (times : Cache Text ℕ) (get : Text → Upstream)
    (clock : Text → ℕ) where
  abbrev pub State : Type 0
  State = Hubs MediaContainer payloads times

  abbrev pub warm_fetch_path : Text → Text
  warm_fetch_path path =
      if any (λ c. c == b'?') path
      then path ++ codes "&includeGuids=1&count=50"
      else path ++ codes "?includeGuids=1&count=50"

  abbrev pub warm_key : WarmStep → Text
  warm_key step =
      let probe = parse (warm_fetch_path step.path) in
      hub_cache_key fingerprint (cache_key_for_request probe.0 probe.1) (some step.token)

  -- One path: nothing, if a refresh of its key is running.
  unfoldable pub warm_hub : WarmStep → State → State
  unfolding claim_refresh end_refresh refresh_hub_entry
  warm_hub step s =
      let key = warm_key step in
      let claim = claim_refresh MediaContainer payloads times key s in
      let fetched = fetch_hubs_payload (get step.token) (warm_fetch_path step.path) in
      if claim.0
      then end_refresh MediaContainer payloads times key
          (refresh_hub_entry MediaContainer payloads times key (clock key) fetched claim.1)
      else claim.1

  unfoldable pub warm_hubs : List WarmStep → State → State
  warm_hubs [] s = s
  warm_hubs (step ∷ steps) s = warm_hubs steps (warm_hub step s)
