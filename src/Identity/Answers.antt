-- ===== src/Identity/Answers.antt =====
-- plex_client.rs: the answers that the identity chain reads, and the accounts that it finds in them.
use replex.Prelude.{
  ℕ, ◌++◌, ◌&&◌, not, Bool, false, Option, none, some, List, [], ◌∷◌, is_empty, map_or, and_then,
  unwrap_or, length, if◌then◌else◌,
}
use replex.Prelude.Int.{ℤ, pos}
use replex.Prelude.Text.{Text, codes, text_eq, is_text, contains}
use replex.Prelude.Text.Decimal.{parse_i64}
use replex.Policy.Entries.{UserIdentity, verified_plex, ResolvedIdentity}
use replex.Config.{username}
use replex.Identity.Xml.{parse_xml_attrs, pieces, cut_at}

-- The texts of the errors are for the log.
pub data IdentityError : Type 0 where
  invalid_token missing_token upstream : IdentityError

pub data Result (A : Type 0) : Type 0 where
  ok : A → Result A
  error : IdentityError → Result A

-- The answer to a request: a status, and the body if it reads as what is expected.
pub data Answer (A : Type 0) : Type 0 where
  unreachable : Answer A
  answered : ℕ → Option A → Answer A

pub record RawUser : Type 0 where
  pub id : ℤ
  pub uuid : Text
  pub username : Option Text
  pub title : Option Text

pub record RawResource : Type 0 where
  pub client_identifier : Option Text
  pub provides : Option Text
  pub source_title : Option Text
  pub owner_id : Option ℤ

-- The part of the request that decides about the account.
pub record PlexContext : Type 0 where
  pub token : Option Text
  pub client_identifier : Option Text
  pub username : Option Text

-- What is outside: whether a token can stand in a header, the digest of a token, and the answers.
-- `root` is `none` where the server cannot be reached, and `some none` where its answer does not
-- parse.
pub record Outside : Type 0 where
  pub header_ok : Text → Bool
  pub fingerprint : Text → Text
  pub user : Text → Answer RawUser
  pub resources : Text → Answer (List RawResource)
  pub shared_servers : Text → Text → Answer Text
  pub root : Option (Option Text)

-- The first value of a key.
unfoldable pub get_key : {A : Type 0} → List (Text × A) → Text → Option A
unfolding text_eq
get_key [] k = none
get_key ((j, v) ∷ m) k = let rest = get_key m k in if text_eq j k then some v else rest

abbrev pub non_empty : Option Text → Option Text
non_empty none = none
non_empty (some t) = if is_empty t then none else some t

abbrev pub shared_identity : ℤ → Text → UserIdentity
shared_identity id username = record {
  id = id;
  uuid = codes "shared-" ++ username;
  username = username;
}

abbrev pub is_ours : Text → RawResource → Bool
is_ours machine_id r =
    is_text r.client_identifier machine_id
    && map_or r.provides false (λ p. contains (codes "server") p)

-- The first resource that is this server decides.
unfoldable pub scan_resources : Text → List RawResource → Option UserIdentity
scan_resources machine_id [] = none
scan_resources machine_id (r ∷ rs) =
    let rest = scan_resources machine_id rs in
    if not (is_ours machine_id r)
    then rest
    else map_or (non_empty r.source_title) none
        (λ u. some (shared_identity (unwrap_or r.owner_id (pos 0)) u))

abbrev pub tag_attrs : Text → List (Text × Text)
tag_attrs tag = parse_xml_attrs (map_or (cut_at b'>' tag) tag (λ r. r.0))

-- The first entry with the token and a name decides.
unfoldable pub scan_tags : Text → List Text → Option UserIdentity
unfolding get_key parse_xml_attrs cut_at
scan_tags token [] = none
scan_tags token (tag ∷ tags) =
    let rest = scan_tags token tags in
    let attrs = tag_attrs tag in
    if is_text (get_key attrs (codes "accessToken")) token
    then (elim (non_empty (get_key attrs (codes "username"))) [
      | none ↦ rest
      | some u ↦ some (
          shared_identity (unwrap_or (and_then (get_key attrs (codes "userID")) parse_i64) (pos 0))
            u)
    ])
    else rest

unfoldable pub scan_servers : Text → Text → Option UserIdentity
unfolding scan_tags pieces
scan_servers token body = scan_tags token (pieces (length body) (codes "<SharedServer ") body)

unfoldable pub identity_of_user : RawUser → ResolvedIdentity
identity_of_user raw = record {
  identity = record {
    id = raw.id;
    uuid = raw.uuid;
    username = unwrap_or raw.username (unwrap_or raw.title (codes "user-" ++ raw.uuid));
  };
  source = verified_plex;
}
