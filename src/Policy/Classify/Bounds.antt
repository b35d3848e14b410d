-- ===== src/Policy/Classify/Bounds.antt =====
-- What `media_allowed` lets through, in pixels, and where the label decides alone.
use replex.Prelude.{
  ℕ, ◌≤◌, ◌<◌, ◌≡◌, and_then, Option-cases, ◌≢◌, inl, inr, ◌↔◌, true, none, some, arith,
}
use replex.Prelude.Int.{pos}
use replex.Media.{Media}
use replex.Policy.Limit.{ResolutionLimit, p480, p720, p1080, p2160, unlimited, parse, rank}
use replex.Policy.Entries.{ResolutionPolicy}
use replex.Policy.Classify.{class_of_dimensions, classify_dimensions, classify, media_allowed}

-- The widest and tallest frame of a class.
abbrev pub max_width : ResolutionLimit → ℕ
max_width p480 = 720
max_width p720 = 1280
max_width p1080 = 1920
max_width p2160 = 4096
max_width unlimited = 4096

abbrev pub max_height : ResolutionLimit → ℕ
max_height p480 = 480
max_height p720 = 720
max_height p1080 = 1080
max_height p2160 = 2160
max_height unlimited = 2160

-- `Fits l w h`: a frame of `w` by `h` pixels is within the class `l`.
abbrev pub Fits : ResolutionLimit → ℕ → ℕ → Type 0
Fits l w h = (w ≤ max_width l) × (h ≤ max_height l)

rank_le : (l : ResolutionLimit) → rank l ≤ 4
rank_le l = ground arith

pub Fits-mono : (a b : ResolutionLimit) (w h : ℕ) → rank a ≤ rank b → Fits a w h → Fits b w h
Fits-mono p480 b w h r f = ground arith
Fits-mono p720 b w h r f = ground arith
Fits-mono p1080 b w h r f = ground arith
Fits-mono p2160 b w h r f = ground arith
Fits-mono unlimited b w h r f = ground arith

-- A frame gets the least class that it fits, and no class beyond 4K.
class-Fits :
    (w h : ℕ) (c : ResolutionLimit) → class_of_dimensions (pos w) (pos h) ≡ some c → Fits c w h
unfolding class_of_dimensions
class-Fits w h c e = ground arith

class_least :
    (w h : ℕ) (c l : ResolutionLimit)
    → class_of_dimensions (pos w) (pos h) ≡ some c
    → Fits l w h
    → rank c ≤ rank l
unfolding class_of_dimensions
class_least w h c p480 e f = ground arith
class_least w h c _ e f = ground arith

class-ne-none : (w h : ℕ) → Fits unlimited w h → class_of_dimensions (pos w) (pos h) ≢ none
unfolding class_of_dimensions
class-ne-none w h f e = ground arith

class_some :
    (w h : ℕ)
    → Fits unlimited w h
    → (c : ResolutionLimit) × (class_of_dimensions (pos w) (pos h) ≡ some c)
class_some w h f = elim (Option-cases (class_of_dimensions (pos w) (pos h))) [
  | inl e ↦ absurd (class-ne-none w h f e)
  | inr r ↦ r
]

class_beyond : (w h : ℕ) → ¬ Fits unlimited w h → class_of_dimensions (pos w) (pos h) ≡ none
unfolding class_of_dimensions
class_beyond w h f = ground arith

-- A version of `w` by `h` pixels.
pub record HasFrame (m : Media) (w h : ℕ) : Type 0 where
  pub width : m.width ≡ some (pos w)
  pub height : m.height ≡ some (pos h)
  pub wide : 0 < w
  pub tall : 0 < h

dimensions-HasFrame :
    (m : Media) (w h : ℕ)
    → HasFrame m w h
    → classify_dimensions m.width m.height ≡ class_of_dimensions (pos w) (pos h)
unfolding classify_dimensions
dimensions-HasFrame m w h f = rw (f.width, f.height) (ground (arith, f.wide, f.tall))

-- Under a restricted policy no version is let through whose known frame, at most 4K, exceeds the
-- account's class, whatever its label says.
pub media_allowed-Fits :
    (m : Media) (p : ResolutionPolicy) (w h : ℕ)
    → HasFrame m w h
    → Fits unlimited w h
    → p.limit ≢ unlimited
    → media_allowed m p ≡ true
    → Fits p.limit w h
unfolding media_allowed classify
media_allowed-Fits m p w h f small r a =
    let c = class_some w h small in
    Fits-mono c.0 p.limit w h (ground (arith, dimensions-HasFrame m w h f, c.1))
      (class-Fits w h c.0 c.1)

-- A version without a label that names a class is let through exactly when its frame fits.
pub media_allowed_unlabelled :
    (m : Media) (p : ResolutionPolicy) (w h : ℕ)
    → HasFrame m w h
    → and_then m.video_resolution parse ≡ none
    → p.limit ≢ unlimited
    → (media_allowed m p ≡ true) ↔ Fits p.limit w h
unfolding media_allowed classify
media_allowed_unlabelled m p w h f label r = (sound, complete)
  where
    sound : media_allowed m p ≡ true → Fits p.limit w h
    sound a = elim (Option-cases (class_of_dimensions (pos w) (pos h))) [
      | inl e ↦ absurd (ground (arith, dimensions-HasFrame m w h f))
      | inr c ↦
          Fits-mono c.0 p.limit w h (ground (arith, dimensions-HasFrame m w h f, c.1))
            (class-Fits w h c.0 c.1)
    ]

    complete : Fits p.limit w h → media_allowed m p ≡ true
    complete fits =
        let c = class_some w h (Fits-mono p.limit unlimited w h (rank_le p.limit) fits) in
        ground (arith, dimensions-HasFrame m w h f, c.1, class_least w h c.0 p.limit c.1 fits)

-- A frame beyond 4K has no class of its own, so a label within the limit decides alone: such a
-- version is let through.
pub media_allowed_mislabelled :
    (m : Media) (p : ResolutionPolicy) (w h : ℕ) (c : ResolutionLimit)
    → HasFrame m w h
    → ¬ Fits unlimited w h
    → and_then m.video_resolution parse ≡ some c
    → rank c ≤ rank p.limit
    → media_allowed m p ≡ true
unfolding media_allowed classify
media_allowed_mislabelled m p w h c f big label r =
    ground (arith, dimensions-HasFrame m w h f, class_beyond w h big)
