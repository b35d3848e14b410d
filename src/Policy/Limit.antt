-- ===== src/Policy/Limit.antt =====
-- `ResolutionLimit`, ordered by strictness, and its parser.
use replex.Prelude.{ℕ, ◌≡◌, Bool, true, false, ◌||◌, Option, none, some, arith, leb, if◌then◌else◌}
use replex.Prelude.Text.{Text, codes, text_eq, trim, to_lowercase}

pub data ResolutionLimit : Type 0 where
  p480 p720 p1080 p2160 unlimited : ResolutionLimit

-- The derived order: the position of the variant.
abbrev pub rank : ResolutionLimit → ℕ
rank p480 = 0
rank p720 = 1
rank p1080 = 2
rank p2160 = 3
rank unlimited = 4

abbrev pub leb_limit : ResolutionLimit → ResolutionLimit → Bool
leb_limit a b = leb (rank a) (rank b)

abbrev pub max_limit : ResolutionLimit → ResolutionLimit → ResolutionLimit
max_limit a b = if leb_limit a b then b else a

abbrev pub is_unlimited : ResolutionLimit → Bool
is_unlimited unlimited = true
is_unlimited p480 = false
is_unlimited p720 = false
is_unlimited p1080 = false
is_unlimited p2160 = false

-- The match of `ResolutionLimit::parse`, on the trimmed text in lower case.
limit_of : Text → Option ResolutionLimit
unfolding text_eq
limit_of s =
    if text_eq s (codes "480")
    then some p480
    else if text_eq s (codes "720")
    then some p720
    else if text_eq s (codes "1080") || text_eq s (codes "2k")
    then some p1080
    else if text_eq s (codes "4k") || text_eq s (codes "2160")
    then some p2160
    else if text_eq s (codes "unlimited") || text_eq s (codes "")
    then some unlimited
    else none

unfoldable pub parse : Text → Option ResolutionLimit
unfolding limit_of trim to_lowercase
parse s = limit_of (to_lowercase (trim s))

pub leb_limit_trans :
    (a b c : ResolutionLimit) → leb_limit a b ≡ true → leb_limit b c ≡ true → leb_limit a c ≡ true
leb_limit_trans a b c h k = ground arith

pub rank-eq : (a b : ResolutionLimit) → rank a ≡ rank b → a ≡ b
rank-eq a b h = ground arith
