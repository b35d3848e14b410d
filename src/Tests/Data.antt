-- ===== src/Tests/Data.antt =====
-- An item with two versions, an account with a limit, and small caches.
use replex.Prelude.{◌≡◌, ◌↔◌, Bool, true, ◌&&◌, none, some, List, [], ◌∷◌, arith}
use replex.Prelude.Int.{ℤ, pos, leb_ℤ}
use replex.Prelude.Text.{Text, codes, text_eq, text_eq_iff}
use replex.Media.{Media}
use replex.Policy.Limit.{p480, p1080}
use replex.Policy.Entries.{PolicyEntry, UserIdentity, ResolvedIdentity, verified_plex}
use replex.Policy.Snapshot.{PolicySnapshot}
use replex.Cache.{Cache}
use replex.Cache.Assoc.{assoc}
use replex.Parts.{PartMediaClassification}
use replex.Metadata.{Item, MetaData, node, nil}

abbrev pub uhd : Media
uhd = record {
  id = pos 1;
  bitrate = some (pos 20000);
  video_resolution = some (codes "4k");
  width = some (pos 3840);
  height = some (pos 2160);
  parts = record { id = pos 11; streams = [] } ∷ [];
}

abbrev pub fhd : Media
fhd = record {
  id = pos 2;
  bitrate = some (pos 8000);
  video_resolution = some (codes "1080");
  width = some (pos 1920);
  height = some (pos 1080);
  parts = record { id = pos 21; streams = [] } ∷ [];
}

-- Beyond 4K, with a label that says otherwise.
abbrev pub mislabelled : Media
mislabelled = record fhd { width = some (pos 7680); height = some (pos 4320) }

abbrev pub unlabelled : Media
unlabelled = record fhd { video_resolution = none }

abbrev pub versions : List Media
versions = uhd ∷ fhd ∷ []

abbrev pub ann : UserIdentity
ann = record { id = pos 7; uuid = codes "u7"; username = codes "ann" }

abbrev pub ann_entry : PolicyEntry
ann_entry = record {
  username = some (codes "ann");
  uuid = none;
  max_resolution = p1080;
  max_bitrate = some (pos 10000);
  visible_collections = codes "Kids" ∷ [];
}

abbrev pub runtime : PolicySnapshot
runtime = record {
  enabled = true;
  entries = ann_entry ∷ [];
  default_limit = p480;
  fail_closed = true;
  hidden_collections = codes "Kids" ∷ codes "Secret" ∷ [];
  generation = 1;
}

abbrev pub ann_resolved : ResolvedIdentity
ann_resolved = record { identity = ann; source = verified_plex }

abbrev pub item_fields : Text → Text → List Media → Item
item_fields title kind media = record {
  rating_key = none;
  key = none;
  title = title;
  kind = kind;
  library_section_id = none;
  context = none;
  hub_identifier = none;
  size = none;
  style = none;
  leaf_count = none;
  viewed_leaf_count = none;
  view_count = none;
  labels = [];
  media = media;
  user_state = none;
  guid = none;
  parent_guid = none;
  art = none;
  thumb = none;
  images = [];
  meta = none;
}

abbrev pub movie : MetaData
movie = node (item_fields (codes "A") (codes "movie") versions) nil nil nil

abbrev pub collection : MetaData
collection = node (item_fields (codes " Secret ") (codes "collection") []) nil nil nil

abbrev pub same_id : ℤ → ℤ → Bool
same_id a b = leb_ℤ a b && leb_ℤ b a

pub same_id_iff : (a b : ℤ) → (same_id a b ≡ true) ↔ (a ≡ b)
same_id_iff a b = ground arith

unfoldable pub part_cache : Cache ℤ PartMediaClassification
unfolding assoc
part_cache = assoc same_id same_id_iff

unfoldable pub text_cache : {V : Type 0} → Cache Text V
unfolding assoc
text_cache = assoc text_eq text_eq_iff
