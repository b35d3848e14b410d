-- ===== src/Tests/Playback.antt =====
-- Streams, playback requests and fallbacks.
use replex.Prelude.{Memᴰ, ◌⊎◌, inl, inr, ◌≡◌, refl, ◌≢◌, true, none, some, List, [], ◌∷◌, arith}
use replex.Prelude.Int.{pos}
use replex.Prelude.Text.{Text, codes, text_eq, trim, to_lowercase}
use replex.Media.{Media}
use replex.Policy.Limit.{p1080, parse}
use replex.Policy.Entries.{ResolutionPolicy, verified_plex}
use replex.Policy.Classify.{classify, classify_dimensions, class_of_dimensions}
use replex.Cache.Assoc.{assoc, find_key}
use replex.Queries.Assoc.{pairs, get_first}
use replex.Parts.{
  IsSound, insert_parts, cache_part_classification, cache_part_classification-IsSound,
  part_classification_allowed,
}
use replex.Metrics.{started}
use replex.Security.{RequestSecurityContext, SecurityContextState, resolved, unavailable, failed}
use replex.Stream.{
  StreamRequest, status, redirected, protected_redirect_stream, decide_stream, deliver_under,
  deliver, stream_delivery,
}
use replex.Stream.Safety.{
  Permitted, restricted_never_redirected, restricted_part-Permitted, IsAccounted,
  delivered_is_accounted,
}
use replex.Enforce.{
  PlaybackRequest, Playback, item, key_path, key_max_bitrate, cap_bitrate,
  enforce_resolution_policy,
}
use replex.Enforce.Cap.{IsCapped, cap_bitrate-IsCapped}
use replex.Enforce.Pinning.{DistinctIds, PinsAllowed, enforce_resolution_policy-PinsAllowed}
use replex.Tests.Data.{uhd, fhd, versions, ann, runtime, part_cache}

abbrev pub policy : ResolutionPolicy
policy = record { limit = p1080; max_bitrate = some (pos 10000); hidden_collections = [] }

abbrev pub known_account : RequestSecurityContext
known_account = record {
  identity = ann;
  token_scope = codes "t";
  policy = policy;
  identity_source = verified_plex;
}

abbrev pub security : SecurityContextState
security = resolved known_account

-- A direct request for the part of the permitted version.
abbrev stream : StreamRequest
stream = record {
  has_state = true;
  redirect_streams = true;
  runtime = runtime;
  has_context = true;
  has_client = true;
  security = some security;
  user = failed (codes "unused");
  part = some (pos 21);
}

abbrev unknown : StreamRequest
unknown = record stream { security = some (unavailable true (codes "timeout")) }

abbrev parts : part_cache.Store
parts = cache_part_classification part_cache part_cache.empty versions

parts-IsSound : IsSound part_cache versions parts
parts-IsSound =
    cache_part_classification-IsSound part_cache [] versions part_cache.empty
      (λ id c e. absurd (ground (arith, part_cache.lookup-empty id)))

restricted_never_redirected_example :
    (protected_redirect_stream part_cache parts stream started).0 ≢ redirected
restricted_never_redirected_example =
    restricted_never_redirected part_cache parts stream started policy refl refl refl

restricted_part-Permitted_example : Permitted versions policy (pos 21)
restricted_part-Permitted_example =
    restricted_part-Permitted part_cache parts stream started versions policy (pos 21) parts-IsSound
      refl refl refl refl
      (unfold protected_redirect_stream decide_stream deliver_under deliver stream_delivery
          part_classification_allowed cache_part_classification insert_parts part_cache assoc
          find_key classify classify_dimensions class_of_dimensions parse trim to_lowercase
          text_eq in
        refl)

delivered_is_accounted_example :
    (stream.has_state ≡ true)
    × (stream.has_context ≡ true)
    × (stream.has_client ≡ true)
    × IsAccounted part_cache parts stream started
delivered_is_accounted_example = delivered_is_accounted part_cache parts stream started refl (
    inl (
      unfold protected_redirect_stream decide_stream deliver_under deliver stream_delivery
        part_classification_allowed cache_part_classification insert_parts part_cache assoc find_key
        classify classify_dimensions class_of_dimensions parse trim to_lowercase text_eq in
      refl))

-- An account that is not known, with policies that fail closed.
unknown_account_refused :
    (protected_redirect_stream part_cache parts unknown started).0 ≡ status 503
unfolding protected_redirect_stream decide_stream
unknown_account_refused = refl

abbrev pub playback : PlaybackRequest
playback = record {
  has_state = true;
  runtime = runtime;
  has_context = true;
  has_client = true;
  uri_parses = true;
  security = some security;
  user = failed (codes "unused");
  screen = none;
  get_item = λ path. item (some versions);
}

-- A request for the prohibited version.
abbrev pub asked : List (Text × Text)
asked =
    (key_path, codes "/library/metadata/5")
    ∷ (codes "mediaIndex", codes "0")
    ∷ (key_max_bitrate, codes "9000")
    ∷ (codes "videoBitrate", codes "50000")
    ∷ []

abbrev pub before : Playback pairs part_cache
unfolding pairs
before = record { queries = asked; refused = none; parts = part_cache.empty; metrics = started }

cap_bitrate-IsCapped_example :
    IsCapped pairs part_cache playback
      (pos 4000)
      before.queries
      (cap_bitrate pairs part_cache playback (pos 4000) before.queries)
cap_bitrate-IsCapped_example =
    cap_bitrate-IsCapped pairs part_cache playback (pos 4000) before.queries refl (omega arith)
      (omega arith)

mem_versions : (x : Media) → Memᴰ x versions → (x ≡ uhd) ⊎ (x ≡ fhd)
mem_versions x (Memᴰ.head e) = inl e
mem_versions x (Memᴰ.tail (Memᴰ.head e)) = inr e
mem_versions x (Memᴰ.tail (Memᴰ.tail m)) = elim m [ ]

pub versions-DistinctIds : DistinctIds versions
versions-DistinctIds x y at_x at_y e = ground (arith, mem_versions x at_x, mem_versions y at_y, e)

enforce_resolution_policy-PinsAllowed_example :
    (r : Playback pairs part_cache) × (enforce_resolution_policy pairs part_cache playback before
      ≡ some r)
    × PinsAllowed pairs part_cache policy versions none r
unfolding before
enforce_resolution_policy-PinsAllowed_example =
    enforce_resolution_policy-PinsAllowed pairs part_cache playback known_account versions before
      (codes "/library/metadata/5") refl refl refl refl refl refl
      (unfold pairs get_first text_eq in refl) refl refl refl versions-DistinctIds (omega arith)
