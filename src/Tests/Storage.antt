-- ===== src/Tests/Storage.antt =====
-- Records on disk, and hub payloads.
use replex.Prelude.{All, ℕ, ◌≤◌, ◌≡◌, refl, ◌≢◌, none, some, List, [], ◌∷◌, take, arith, any}
use replex.Prelude.Text.{Text, codes}
use replex.Disk.{encode_record, decode_record}
use replex.Disk.Bytes.{to_be_bytes, is_utf8}
use replex.Disk.RoundTrip.{decode_record-encode_record}
use replex.Disk.Truncated.{decode_record-truncated}
use replex.Hub.{Hubs, member, insert_key, begin_refresh, claim_refresh}
use replex.Hub.SingleFlight.{System, begins, starts, goes_on, count, Reachable-single_flight}
use replex.Cache.Assoc.{assoc, find_key}
use replex.Tests.Data.{text_cache}

abbrev stored : List ℕ
stored =
    82 ∷ 80 ∷ 67 ∷ 49 ∷ 0 ∷ 3 ∷ 112 ∷ 110 ∷ 103 ∷ 0 ∷ 0 ∷ 0 ∷ 0 ∷ 0 ∷ 0 ∷ 0 ∷ 2 ∷ 255 ∷ 216 ∷ []

decode_record-encode_record_example :
    decode_record stored
    ≡ some (record { content_type = some (codes "png"); body = 255 ∷ 216 ∷ [] })
decode_record-encode_record_example =
    decode_record-encode_record (some (codes "png")) (255 ∷ 216 ∷ []) stored
      (unfold encode_record to_be_bytes in refl) (unfold is_utf8 in refl) (omega arith)

decode_record-truncated_example : decode_record (take 17 stored) ≡ none
decode_record-truncated_example =
    decode_record-truncated (some (codes "png")) (255 ∷ 216 ∷ []) stored 17
      (unfold encode_record to_be_bytes in refl) (omega arith) (omega arith)

-- A digest of one letter.
abbrev pub digest : Text → Text
digest [] = codes "0"
digest (c ∷ t) = codes "a"

pub digest_hex : (token : Text) → All (λ c. c ≢ b':') (digest token)
digest_hex [] = ((λ e. ground arith), tt)
digest_hex (c ∷ t) = ((λ e. ground arith), tt)

abbrev no_hubs : Hubs Unit text_cache text_cache
no_hubs = record {
  payloads = text_cache.empty;
  fetched_at = text_cache.empty;
  last_attempt = text_cache.empty;
  inflight = [];
}

abbrev home : Text
home = codes "home"

abbrev refreshing : Hubs Unit text_cache text_cache
refreshing = record no_hubs {
  last_attempt = text_cache.insert text_cache.empty home 5;
  inflight = home ∷ [];
}

abbrev idle : System Unit text_cache text_cache
idle = record { hubs = no_hubs; working = [] }

abbrev busy : System Unit text_cache text_cache
busy = record { hubs = refreshing; working = home ∷ [] }

Reachable-single_flight_example : count home (home ∷ []) ≤ 1
Reachable-single_flight_example = Reachable-single_flight Unit text_cache text_cache busy home (
    goes_on idle busy (starts idle refl refl) (
      begins home 5 idle refreshing (
        unfold begin_refresh claim_refresh insert_key member any text_cache assoc find_key in
        refl)))
