-- ===== src/Tests/Hubs.antt =====
-- A home screen: a row of the collections of two libraries under one title, a hidden collection, an
-- empty row, and what to go on watching.
use replex.Prelude.{
  ◌≡◌, refl, true, false, none, some, List, [], ◌∷◌, All, filter, map, length, not, any, ℕ, ◌↔◌,
  inl, inr, Bool-cases, if◌then◌else◌,
}
use mathlib.Core.List.{Permᴰ}
use replex.Prelude.Int.{pos}
use replex.Prelude.Text.{Text, codes, starts_with, is_text, trim}
use replex.Prelude.{find}
use replex.Policy.Entries.{resolve_policy}
use replex.Transform.Policy.{collection_visibility}
use replex.Transform.Style.{style_hub}
use replex.Transform.Hubs.{keeps_hub, drop_watched, point_to_replex, hide_state}
use replex.Artwork.{Image, is_cover_art, upsert_cover_art}
use replex.Artwork.CoverArt.{upsert_cover_art-filter}
use replex.Identity.Answers.{Answer, answered}
use replex.Config.{Config}
use replex.Metrics.{started}
use replex.Metadata.Children.{children}
use replex.Metadata.{MetaData, node, nil, of_list, item_of}
use replex.Transform.{MediaContainer, in_hub, with_items, items, slot_of, children_mut}
use replex.Transform.Policy.Safety.{bare, everything}
use replex.Transform.Chain.{one_list}
use replex.Transform.Hubs.{Collections, has_no_size}
use replex.Transform.Hubs.Hidden.{Shown}
use replex.Transform.Interleave.{Itertools, interleave_hubs, add_hubs}
use replex.Transform.Interleave.Items.{all_items}
use replex.Transform.Interleave.Keeps.{Permᴰ-interleave_hubs}
use replex.Transform.Style.{HubContext, chrome}
use replex.HubRoute.{
  after_fetch, HubTools, HubRequest, HubState, after_answer, obtain, fetch_hubs_payload, present,
  cached_hubs_response,
}
use replex.HubRoute.Fetch.{Answers, fetch_hubs_payload_iff}
use replex.HubRoute.Safety.{Plain, cached_hubs_response-Shown}
use replex.HubRoute.Routed.{Routed, present-Routed}
use replex.Security.{current_policy}
use replex.Tests.Data.{ann, movie, item_fields, text_cache}
use replex.Tests.Responses.{known, ann_policy}
use replex.Tests.Accounts.{settings}
use replex.Tests.Storage.{digest}

abbrev alternate : List MetaData → List MetaData → List MetaData
alternate [] ys = ys
alternate (x ∷ xs) [] = x ∷ xs
alternate (x ∷ xs) (y ∷ ys) = x ∷ y ∷ alternate xs ys

abbrev itertools : Itertools
itertools = record {
  interleave = alternate;
  interleave_turn = λ x y xs ys. refl;
  interleave_left = left;
  interleave_right = λ ys. refl;
}
  where
    left : (xs : List MetaData) → alternate xs [] ≡ xs
    left [] = refl
    left (x ∷ xs) = refl

abbrev row : Text → Text → Text → List MetaData → MetaData
row title key context children =
    node
      (record (item_fields title (codes "movie") []) {
        key = some key;
        context = some context;
        hub_identifier = some (codes "custom.collection.1.7");
        size = some (pos (length children));
      })
      (of_list children) nil nil

abbrev films : MetaData
films =
    row (codes "Films") (codes "/library/collections/7/children")
      (codes "hub.custom.collection.1.7") (movie ∷ [])

abbrev more_films : MetaData
more_films =
    row (codes "Films") (codes "/hubs/library/collections/8/children")
      (codes "hub.custom.collection.2.8") (movie ∷ movie ∷ [])

abbrev secret : MetaData
secret =
    row (codes " Secret ") (codes "/library/collections/9/children")
      (codes "hub.custom.collection.1.9") (movie ∷ [])

abbrev nothing : MetaData
nothing =
    row (codes "Nothing") (codes "/library/collections/5/children")
      (codes "hub.custom.collection.1.5") []

abbrev home : MediaContainer
home = with_items in_hub (films ∷ nothing ∷ secret ∷ more_films ∷ []) (bare (some (pos 4)))

abbrev plain_home : Plain home
plain_home =
    one_list in_hub (some (pos 4)) (films ∷ nothing ∷ secret ∷ more_films ∷ [])
      (tt, (tt, (tt, (tt, tt))))

abbrev interleaving : Config
interleaving = record settings { interleave = true }

abbrev from_web : HubContext
from_web = record {
  platform = some chrome;
  product = some (codes "Plex Web");
  device = none;
  model = none;
  token = some (codes "t");
  forwarded_host = none;
  host = some (codes "tv.example");
  forwarded_proto = none;
  exclude_continue_watching = true;
  count = some (pos 2);
}

abbrev plex : Collections
plex = record {
  get_section_collections = λ id. none;
  get_collection = λ id. none;
  get_collection_children = λ id offset limit. none;
}

abbrev tools : HubTools
tools = record {
  config = interleaving;
  plex = plex;
  itertools = itertools;
  situation = known;
  context = from_web;
}

Permᴰ-interleave_hubs_example :
    Permᴰ
      (all_items (filter (λ hub. not (has_no_size hub)) (children_mut home)))
      (all_items (items (slot_of home) (interleave_hubs itertools interleaving home)))
Permᴰ-interleave_hubs_example =
    Permᴰ-interleave_hubs itertools interleaving home refl
      (unfold filter has_no_size children_mut slot_of children in (refl, (refl, (refl, tt))))

-- The rows of one title are one row, with the key of both.
merged_keys :
    map (λ x. (item_of x).key) (items in_hub (interleave_hubs itertools interleaving home))
    ≡ some (codes "/library/collections/7,8/children")
      ∷ some (codes "/library/collections/9/children")
      ∷ []
unfolding interleave_hubs add_hubs
merged_keys = refl

-- A server without /hubs/home.
abbrev moved : Text → Answer MediaContainer
moved path =
    if starts_with (codes "/hubs/home") path then answered 404 none else answered 200 (some home)

fetch_hubs_payload_iff_example :
    (fetch_hubs_payload moved (codes "/hubs/home?count=50") ≡ some home)
    ↔ Answers moved (codes "/hubs/home?count=50") home
fetch_hubs_payload_iff_example = fetch_hubs_payload_iff moved (codes "/hubs/home?count=50") home

fetched_home : fetch_hubs_payload moved (codes "/hubs/home?count=50") ≡ some home
unfolding fetch_hubs_payload after_answer
fetched_home = refl

abbrev two_covers : List Image
two_covers =
    record { kind = codes "coverArt"; url = codes "/old"; alt = none }
    ∷ record { kind = codes "background"; url = codes "/b"; alt = none }
    ∷ record { kind = codes "coverArt"; url = codes "/older"; alt = none }
    ∷ []

upsert_cover_art-filter_example :
    (filter is_cover_art (upsert_cover_art two_covers (codes "A") (codes "/new"))
      ≡ record { kind = codes "coverArt"; url = codes "/new"; alt = some (codes "A") } ∷ [])
    × (filter
          (λ image. not (is_cover_art image))
          (upsert_cover_art two_covers (codes "A") (codes "/new"))
        ≡ filter (λ image. not (is_cover_art image)) two_covers)
upsert_cover_art-filter_example = upsert_cover_art-filter two_covers (codes "A") (codes "/new")

present-Routed_example : All Routed (everything (present tools false home))
present-Routed_example = present-Routed tools home plain_home

-- One row is left: the two of one title, cut down to two items, with a key that leads back.
presented_keys :
    map (λ x. (item_of x).key) (present tools false home).hub
    ≡ some (codes "/replex/shelf/library/collections/7,8/children") ∷ []
unfolding present interleave_hubs collection_visibility resolve_policy any find is_text trim
    keeps_hub drop_watched style_hub point_to_replex hide_state
presented_keys = refl

abbrev asking : HubRequest
asking = record {
  path = codes "/hubs/promoted";
  get_query = λ name. none;
  token = some (codes "t");
  compatibility_passthrough = true;
  has_state = true;
  has_client = true;
  now = 5;
  tools = tools;
}

abbrev cold : HubState digest text_cache text_cache moved
cold = record {
  hubs = record {
    payloads = text_cache.empty;
    fetched_at = text_cache.empty;
    last_attempt = text_cache.empty;
    inflight = [];
  };
  metrics = started;
  spawned_refreshes = [];
}

moved-Plain :
    (path : Text) (status : ℕ) (c : MediaContainer)
    → moved path ≡ answered status (some c)
    → Plain c
moved-Plain path status c e = elim (Bool-cases (starts_with (codes "/hubs/home") path)) [
  | inl gone ↦ absurd (let f = rw gone at e in cc)
  | inr there ↦ let f : home ≡ c = let g = rw there at e in cc in rw (← f) plain_home
]

nothing_cached :
    (key : Text) (c : MediaContainer) → text_cache.lookup text_cache.empty key ≡ some c → ⊥
nothing_cached key c e = let f = (text_cache {V = MediaContainer}).lookup-empty key in cc

cached_hubs_response-Shown_example : All (Shown ann_policy) (everything (present tools true home))
cached_hubs_response-Shown_example =
    cached_hubs_response-Shown digest text_cache text_cache moved ann_policy ann asking cold
      (present tools true home) (unfold current_policy in refl)
      (λ key c e. absurd (nothing_cached key c e)) moved-Plain
      (unfold cached_hubs_response obtain after_fetch fetch_hubs_payload after_answer text_cache in
        refl)
