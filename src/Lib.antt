-- ===== src/Lib.antt =====
-- Replex, a proxy in front of Plex Media Server that applies resolution limits per account, hides
-- collections, caches hubs and responses, and gates streams.
--
-- The parts, and how they interact. A request meets the middleware (Security), which finds the
-- account (Identity) and its policy. Responses of Plex go through the transforms (Transform), which
-- strip the versions that the policy prohibits (Metadata/Filter) and record the facts of the others
-- (Parts). Playback requests are capped and pinned to a permitted version (Enforce), and then pass
-- the other handlers of their route (Playback); direct requests for the bytes of a part are judged
-- by the recorded facts (Stream). Hub payloads are cached and refreshed in the background (Hub), and
-- fetched ahead of requests (Warmer); on their way out (HubRoute) they pass the account's visibility
-- and then the transforms of rows, which filter, style, merge and relabel them (Transform/Hubs,
-- Transform/Style, Transform/Interleave). Other answers are cached on disk (Disk) under keys of their
-- own (CacheKeys); library payloads from the disk pass the policy transforms again (LibraryCache).
-- The configuration is checked at start-up (Config/Validate), and says which servers a request may
-- be sent on to (Config/Upstream, Security/Request).
--
-- Which file models which code:
--   Media, Metadata, Metadata/Children    src/models.rs: Media, MediaPart, Stream, MetaData and its
--                                         methods
--   Metadata/Filter, Transform/Policy     src/transform/resolution_policy.rs: both transforms, and
--                                         apply_policy_transforms of src/routes.rs
--   Transform                             src/models.rs: MediaContainer; src/transform/mod.rs:
--                                         Transform, apply_to
--   Policy/Limit .. Policy/Select         src/resolution_policy.rs: ResolutionLimit, the entries and
--                                         their deserialization, resolve_policy, classify,
--                                         media_allowed, best_allowed_media
--   Policy/Snapshot                       src/policy_store.rs
--   Transform/Hubs                        src/transform/restrictions.rs, hub_watched.rs,
--                                         hub_limit.rs, hub_section_directory.rs, user_state.rs,
--                                         hub_key.rs
--   Transform/Interleave                  src/transform/hub_interleave.rs, library_interleave.rs;
--                                         src/utils.rs: merge_children_keys
--   Transform/Style, Artwork              src/transform/hub_style.rs, media_style.rs,
--                                         collection_style.rs; src/models.rs: Image, Meta, is_hero,
--                                         get_label_value
--   Config                                src/config.rs: the settings that the model reads
--   Config/Upstream, Config/Validate      src/config.rs: allows_upstream_host, validate
--   Parts                                 src/plex_client.rs: PartMediaClassification,
--                                         part_classification_allowed, cache_part_classification
--   Security                              src/auth/context.rs, plex_client_from_depot of
--                                         src/routes.rs, current_policy of
--                                         src/transform/resolution_policy.rs
--   Security/Request                      src/auth/context.rs: RequestContextMiddleware,
--                                         decoded_replex_stream_host
--   Stream                                src/routes.rs: stream_delivery, deliver_stream,
--                                         protected_redirect_stream
--   Enforce, Queries                      src/routes.rs: enforce_resolution_policy; src/utils.rs:
--                                         replace_query
--   Playback, Playback/Fallbacks ..       src/routes.rs: auto_select_version,
--                                         force_maximum_quality, get_transcoding_for_request,
--                                         video_transcode_fallback, direct_stream_fallback, and the
--                                         playback routes of route_with_state; src/utils.rs:
--                                         add_query_param_salvo
--   Identity, Identity/Answers ..         src/plex_client.rs: get_current_identity,
--   Identity/Xml, Identity/Machine       fetch_current_identity, resolve_shared_user,
--                                         resolve_via_shared_servers, parse_xml_attrs,
--                                         server_machine_id
--   Disk                                  src/disk_cache.rs: encode_record, decode_record
--   Disk/Files                            src/disk_cache.rs: commit_record, remove,
--                                         ensure_capacity, init, clear_all, get_full, put_full
--   Hub                                   src/hub_cache.rs, src/account_scope.rs
--   CacheKeys                             src/routes.rs: canonical_library_path,
--                                         library_cache_key_for, normalize_library_fetch,
--                                         canonical_photo_key, photo_cache_key_for, request_token,
--                                         cache_key_for_request, canonical_fetch_path
--   HubRoute                              src/routes.rs: cached_hubs_response,
--                                         transform_hubs_response, shape_canonical_hubs;
--                                         src/hub_cache.rs: fetch_hubs_payload
--   Warmer                                src/hub_cache.rs: warm_token_list, warm_paths, warm_cycle,
--                                         warm_hubs_for_token
--   LibraryCache                          src/routes.rs: library_cache_lookup, library_cache_store
--   Jobs, Metrics, Selection              src/jobs.rs, src/observability.rs,
--                                         src/playback_selection.rs
--
-- Code that is not part of the repository is a parameter: the concurrent caches (Cache), which may
-- drop any entry at any time; the multimap of a query (Queries); the digests of tokens and of
-- keys; the parsing and printing of URLs; the interleaving of two lists (itertools); BASE32 and
-- UTF-8; the outcome of each operation on the file system; what Plex answers. Cache/Assoc and
-- Queries/Assoc are instances.
-- Within the handling of one request, or of one response, the policy snapshot and the answer to the
-- lookup of the account are taken as fixed, and so is what Plex says of collections.
--
-- Text is a list of code points or bytes. Numbers of 64 bits keep their wrap-around where the code
-- computes with them (Prelude/Int, Metrics, Policy/Snapshot, Disk/Files). These loops are on fuel:
-- that of apply_to (Transform.each_item), with a unit of fuel for each item of the response, since
-- each turn removes the item at hand or goes past it; and the loops over the attributes and over the
-- entries of the shared servers' answer (Identity/Xml), with a unit for each character, since each
-- turn goes on with a shorter text; and the loop that trims the path of an address (Config/Upstream),
-- with one unit, since a path that was trimmed has nothing left to trim.
--
-- An operation on the disk cache is one step: the lock for commits is kept, but no two operations
-- interleave between a read and what follows it. Reading a file fails only where it is missing.
--
-- Not modelled: HTTP and its proxying, the parsing and printing of JSON and of the settings, logging,
-- the handlers that list libraries and collections (they call the transforms modelled here on what
-- Plex answers), the prefetch of posters and library pages, the cache of artwork in memory, and the
-- administration routes.
pub mod Prelude
pub mod Media
pub mod Config
pub mod Policy
pub mod Artwork
pub mod Metadata
pub mod Cache
pub mod Parts
pub mod Metrics
pub mod Security
pub mod Identity
pub mod Stream
pub mod Queries
pub mod Enforce
pub mod Playback
pub mod Transform
pub mod Disk
pub mod Hub
pub mod Jobs
pub mod CacheKeys
pub mod HubRoute
pub mod Warmer
pub mod LibraryCache
pub mod Selection
pub mod Tests
