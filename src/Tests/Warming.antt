-- ===== src/Tests/Warming.antt =====
-- Selections of libraries in two orders, and a pass of the warmer.
use replex.Prelude.{
  ◌≡◌, refl, ◌↔◌, ◌⊎◌, true, All, Option, none, some, List, [], ◌∷◌, map, if◌then◌else◌, arith,
}
use replex.Prelude.Text.{Text, codes, text_eq, trim, ascii_lower}
use replex.Identity.Answers.{Answer, answered}
use replex.Config.{Config}
use replex.Hub.{Hubs, is_global, token_scope, hub_cache_key}
use replex.CacheKeys.{join, cache_key_for_request, selection_names}
use replex.CacheKeys.Selections.{NoChar, IsId}
use replex.CacheKeys.Sharing.{Asks, SameIds, hub_cache_key_iff}
use replex.Transform.{MediaContainer}
use replex.Transform.Policy.Safety.{bare}
use replex.Warmer.{WarmStep, warm_cycle, warm_hubs}
use replex.Warmer.Releases.{warm_hubs-inflight}
use replex.Tests.Data.{text_cache}
use replex.Tests.Accounts.{settings}
use replex.Tests.Storage.{digest}

-- One client writes the name as Plex does, the other in lower case and with the ids the other way
-- round.
abbrev ids : List Text
ids = codes "23" ∷ codes "6" ∷ []

abbrev sdi : List Text
sdi = codes "6" ∷ codes "23" ∷ []

abbrev one_client : Text → Option Text
one_client name = if text_eq name (codes "contentDirectoryID") then some (codes "23,6") else none

abbrev other_client : Text → Option Text
other_client name = if text_eq name (codes "contentdirectoryid") then some (codes "6,23") else none

id_23 : IsId (codes "23")
id_23 = (((λ e. ground arith), ((λ e. ground arith), tt)), unfold trim in refl, refl)

id_6 : IsId (codes "6")
id_6 = (((λ e. ground arith), tt), unfold trim in refl, refl)

-- A digest that tells no tokens apart.
abbrev short_digest : Text → Text
short_digest token = b'7' ∷ []

-- Both select the two libraries.
abbrev both : Text → Option (List Text)
both name = if text_eq name (codes "contentDirectoryID") then some ids else none

abbrev both_turned : Text → Option (List Text)
both_turned name = if text_eq name (codes "contentDirectoryID") then some sdi else none

no_amp_23 : NoChar b'&' (codes "23")
no_amp_23 = ((λ e. ground arith), ((λ e. ground arith), tt))

no_amp_6 : NoChar b'&' (codes "6")
no_amp_6 = ((λ e. ground arith), tt)

one_client-Asks : Asks one_client both
unfolding text_eq ascii_lower join
one_client-Asks = (
  (refl, ((λ e. ground arith), (id_23, (id_6, tt)), (no_amp_23, (no_amp_6, tt)))),
  ((refl, tt), ((refl, tt), ((refl, tt), tt))),
)

other_client-Asks : Asks other_client both_turned
unfolding text_eq ascii_lower join
other_client-Asks = (
  (refl, ((λ e. ground arith), (id_6, (id_23, tt)), (no_amp_6, (no_amp_23, tt)))),
  ((refl, tt), ((refl, tt), ((refl, tt), tt))),
)

path_free : NoChar b'?' (codes "/a")
path_free = ((λ e. ground arith), ((λ e. ground arith), tt))

hub_cache_key_iff_example :
    (hub_cache_key short_digest (cache_key_for_request (codes "/a") one_client) (some (codes "t"))
      ≡ hub_cache_key short_digest
          (cache_key_for_request (codes "/a") other_client)
          (some (codes "u")))
    ↔ ((codes "/a" ≡ codes "/a")
        × ((is_global (cache_key_for_request (codes "/a") one_client) ≡ true)
            ⊎ (token_scope short_digest (some (codes "t"))
                ≡ token_scope short_digest (some (codes "u"))))
        × All (λ name. SameIds (both name) (both_turned name)) selection_names)
hub_cache_key_iff_example =
    hub_cache_key_iff short_digest one_client other_client both both_turned (codes "/a")
      (codes "/a") (some (codes "t")) (some (codes "u")) (λ token. ((λ e. ground arith), tt))
      one_client-Asks other_client-Asks path_free path_free

abbrev two_tokens : Config
two_tokens = record settings { warm_tokens = some (codes "t" ∷ codes "u" ∷ []) }

abbrev listing : Text → Option (List Text)
listing token = some ids

abbrev watching : WarmStep
watching = record {
  token = codes "u";
  path = codes "/hubs/continueWatching?contentdirectoryid=23,6";
}

-- Three shared paths and two, and one for each of the two tokens.
paths_warmed :
    map (λ step. step.token) (warm_cycle listing listing two_tokens)
    ≡ codes "t" ∷ codes "t" ∷ codes "t" ∷ codes "t" ∷ codes "t" ∷ codes "u" ∷ []
unfolding warm_cycle
paths_warmed = refl

abbrev answers : Text → Text → Answer MediaContainer
answers token path = answered 200 (some (bare none))

abbrev idle_hubs : Hubs MediaContainer text_cache text_cache
idle_hubs = record {
  payloads = text_cache.empty;
  fetched_at = text_cache.empty;
  last_attempt = text_cache.empty;
  inflight = codes "hubcache:u:a:/x" ∷ [];
}

abbrev whole : Text → Text × (Text → Option Text)
whole path = (path, λ name. none)

abbrev warm_steps : List WarmStep
warm_steps = record { token = codes "t"; path = codes "/hubs/home" } ∷ []

warm_hubs-inflight_example :
    (warm_hubs digest whole text_cache text_cache answers (λ key. 7) warm_steps idle_hubs).inflight
    ≡ codes "hubcache:u:a:/x" ∷ []
warm_hubs-inflight_example =
    warm_hubs-inflight digest whole text_cache text_cache answers (λ key. 7) warm_steps idle_hubs
