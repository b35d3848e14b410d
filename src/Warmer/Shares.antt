-- ===== src/Warmer/Shares.antt =====
-- What a pass of the warmer fetches, and with which token.
use mathlib.Core.List.{Memᴰ}
use mathlib.Core.List.Memᴰ
use replex.Prelude.{◌≡◌, ◌≢◌, ◌⊎◌, Option, none, some, List, [], ◌∷◌, ◌++◌, head}
use replex.Prelude.Sorted.{sort, leb_text}
use replex.Prelude.Text.{Text, codes}
use replex.CacheKeys.{join}
use replex.Config.{Config}
use replex.Warmer.{WarmStep}

-- The tokens to warm with: those that are configured, if there are any, and else that of the server.
abbrev pub AreTokens : Config → List Text → Type 0
AreTokens config tokens =
    (tokens ≢ [])
    × ((config.warm_tokens ≡ some tokens)
        ⊎ (((config.warm_tokens ≡ none) ⊎ (config.warm_tokens ≡ some []))
            × (t : Text) × (config.token ≡ some t)
            × (tokens ≡ t ∷ [])))

-- All the libraries that Plex lists for a token, in order and with commas between them.
abbrev joined : List Text → Text
joined ids = join (codes ",") (sort leb_text ids)

-- The paths, for some libraries, whose payload all accounts share.
pub data IsSharedPath (ids : List Text) : Text → Type 0 where
  of_home : IsSharedPath ids (codes "/hubs/home")
  of_all : IsSharedPath ids (
      codes "/hubs/promoted?contentdirectoryid="
      ++ (joined ids ++ (codes "&pinnedcontentdirectoryid=" ++ joined ids)))
  of_one :
      (id : Text)
      → Memᴰ id ids
      → IsSharedPath ids (
          codes "/hubs/promoted?contentdirectoryid="
          ++ (id ++ (codes "&pinnedcontentdirectoryid=" ++ joined ids)))

-- The path that each account has a payload of its own for.
abbrev pub own_path : List Text → Text
own_path ids = codes "/hubs/continueWatching?contentdirectoryid=" ++ joined ids

-- What a pass is to fetch: with the first token the shared paths, and with each token the path of
-- its own, each for the libraries that Plex lists for the token, if there are any.
pub data IsDue (first sections : Text → Option (List Text)) (tokens : List Text)
    : WarmStep → Type 0 where
  is_shared :
      (token path : Text) (ids : List Text)
      → head tokens ≡ some token
      → first token ≡ some ids
      → ids ≢ []
      → IsSharedPath ids path
      → IsDue first sections tokens (record { token = token; path = path })
  is_own :
      (token : Text) (ids : List Text)
      → Memᴰ token tokens
      → sections token ≡ some ids
      → ids ≢ []
      → IsDue first sections tokens (record { token = token; path = own_path ids })
