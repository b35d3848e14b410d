-- ===== src/Policy/Classify.antt =====
-- `classify`, `classify_dimensions` and `media_allowed`.
pub mod Bounds
use replex.Prelude.{Bool, true, false, ◌&&◌, ◌||◌, Option, none, some, and_then, if◌then◌else◌}
use replex.Prelude.Int.{ℤ, pos, ltb_ℤ}
use replex.Media.{Media}
use replex.Policy.Limit.{ResolutionLimit, p480, p720, p1080, p2160, parse, leb_limit, max_limit}
use replex.Policy.Entries.{ResolutionPolicy, is_unrestricted}

-- The thresholds, for dimensions that are known and positive.
unfoldable pub class_of_dimensions : ℤ → ℤ → Option ResolutionLimit
class_of_dimensions w h =
    if ltb_ℤ (pos 4096) w || ltb_ℤ (pos 2160) h
    then none
    else if ltb_ℤ (pos 1920) w || ltb_ℤ (pos 1080) h
    then some p2160
    else if ltb_ℤ (pos 1280) w || ltb_ℤ (pos 720) h
    then some p1080
    else if ltb_ℤ (pos 720) w || ltb_ℤ (pos 480) h
    then some p720
    else some p480

unfoldable pub classify_dimensions : Option ℤ → Option ℤ → Option ResolutionLimit
unfolding class_of_dimensions
classify_dimensions (some w) (some h) =
    if ltb_ℤ (pos 0) w && ltb_ℤ (pos 0) h then class_of_dimensions w h else none
classify_dimensions (some w) none = none
classify_dimensions none height = none

-- Where label and dimensions disagree, the higher class.
abbrev combine : Option ResolutionLimit → Option ResolutionLimit → Option ResolutionLimit
combine (some a) (some b) = some (max_limit a b)
combine (some a) none = some a
combine none b = b

unfoldable pub classify : Media → Option ResolutionLimit
classify m = combine (and_then m.video_resolution parse) (classify_dimensions m.width m.height)

abbrev within : Option ResolutionLimit → ResolutionLimit → Bool
within (some c) limit = leb_limit c limit
within none limit = false

unfoldable pub media_allowed : Media → ResolutionPolicy → Bool
media_allowed m policy = if is_unrestricted policy then true else within (classify m) policy.limit
