-- ===== src/Tests/LibraryCache.antt =====
-- A library payload that is served from the disk.
use replex.Prelude.{
  ℕ, ◌≡◌, refl, sym, ◌∙◌, true, none, some, List, [], ◌∷◌, All, arith, find, filter,
}
use replex.Prelude.Int.{pos}
use replex.Prelude.Text.{Text, codes, text_eq, is_text, starts_with, ascii_lower}
use replex.Prelude.Text.Decimal.{show}
use replex.Prelude.Sorted.{sort, leb_pair, leb_text, insert_sorted}
use replex.Policy.Entries.{resolve_policy, matched_entry}
use replex.Security.{current_policy}
use replex.Metrics.{started}
use replex.Disk.{encode_record, decode_record, decode_body, decode_content_type}
use replex.Disk.Bytes.{to_be_bytes, from_be_bytes, is_utf8}
use replex.Disk.Files.{
  Directory, read, write_file, remove_file, temp_path, commit_record, ensure_capacity, get_full,
  put_full,
}
use replex.Disk.Files.Dropping.{Records, Reachable, empty, put_done, put_record, record_of}
use replex.Transform.{in_metadata}
use replex.Transform.Policy.{apply_policy_transforms}
use replex.Transform.Policy.Safety.{everything, Visible}
use replex.Hub.{token_scope}
use replex.CacheKeys.{
  library_pairs, is_library_key_noise, canonical_library_path, library_cache_key_for,
}
use replex.LibraryCache.{
  LibraryRequest, Shared, library_key, library_cache_lookup, on_disk, after_policy,
}
use replex.LibraryCache.Safety.{library_cache_lookup-Visible}
use replex.Tests.Data.{ann, movie, collection, part_cache}
use replex.Tests.Responses.{known, ann_policy, response, sent}
use replex.Tests.Disk.{working, new_directory, name_of, name_of-injective, name_of_entry, body}
use replex.Tests.Keys.{urls}
use replex.Tests.Storage.{digest}

abbrev request : LibraryRequest
request = record {
  path = codes "/library/sections/1/all";
  raw = [];
  token = some (codes "t");
  has_state = true;
  has_client = true;
  situation = known;
  io = working;
  parse = λ b. some response;
}

abbrev key : Text
key = library_key urls digest name_of part_cache request

abbrev put_before : Directory
put_before = (put_full name_of working 100 key body none new_directory).0

abbrev records : Records
records = put_record key (record_of name_of name_of-injective name_of_entry body none) (λ k. none)

abbrev plain : List ℕ
plain = 82 ∷ 80 ∷ 67 ∷ 49 ∷ 0 ∷ 0 ∷ 0 ∷ 0 ∷ 0 ∷ 0 ∷ 0 ∷ 0 ∷ 0 ∷ 2 ∷ 255 ∷ 216 ∷ []

put_before-Reachable : Reachable name_of name_of-injective name_of_entry records put_before
put_before-Reachable =
    put_done (λ k. none) new_directory working 100 key body none (empty new_directory refl)
      (unfold is_utf8 in refl)
      (λ encoded e.
        let written : encode_record none body ≡ some plain =
          unfold encode_record to_be_bytes in refl in
        let same : some plain ≡ some encoded = sym written ∙ e in ground (arith, same))
      (unfold put_full commit_record encode_record in refl)

abbrev shared : Shared urls digest name_of part_cache
shared = record { directory = put_before; parts = part_cache.empty; metrics = started }

library_cache_lookup-Visible_example : All (Visible ann_policy) (everything (sent known).0)
library_cache_lookup-Visible_example =
    library_cache_lookup-Visible urls digest name_of name_of-injective name_of_entry part_cache
      request ann_policy ann (unfold current_policy in refl)
      (unfold resolve_policy matched_entry find text_eq is_text in refl) records shared
      (sent known).0 put_before-Reachable
      (λ r e. (in_metadata, some (pos 2), movie ∷ collection ∷ [], refl))
      (unfold library_cache_lookup on_disk after_policy apply_policy_transforms put_full get_full
          commit_record ensure_capacity encode_record to_be_bytes write_file remove_file read
          temp_path show find filter text_eq decode_record decode_body decode_content_type
          from_be_bytes is_utf8 library_cache_key_for canonical_library_path library_pairs
          is_library_key_noise ascii_lower starts_with sort insert_sorted leb_pair leb_text
          token_scope in
        refl)
