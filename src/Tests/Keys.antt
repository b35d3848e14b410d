-- ===== src/Tests/Keys.antt =====
-- The keys of cached library payloads.
use replex.Prelude.{◌≡◌, refl, ap, ◌∙◌, ◌↔◌, true, some, [], ◌∷◌, ◌++◌, arith, length}
use mathlib.Core.List.{Permᴰ}
use replex.Prelude.Text.{Text, codes}
use replex.Hub.{token_scope}
use replex.CacheKeys.{Pairs, Urls, library_pairs, library_cache_key_for}
use replex.CacheKeys.Library.{library_cache_key_for_iff}
use replex.Tests.Storage.{digest, digest_hex}

-- A text behind its length.
abbrev framed : Text → Text → Text
framed s rest = length s ∷ s ++ rest

abbrev framed_pairs : Pairs → Text
framed_pairs [] = []
framed_pairs ((k, v) ∷ ps) = framed k (framed v (framed_pairs ps))

same_length : (s t x y : Text) → length s ≡ length t → s ++ x ≡ t ++ y → (s ≡ t) × (x ≡ y)
same_length [] [] x y n e = (refl, e)
same_length [] (d ∷ t) x y n e = absurd (omega (arith, n))
same_length (c ∷ s) [] x y n e = absurd (omega (arith, n))
same_length (c ∷ s) (d ∷ t) x y n e =
    let r = same_length s t x y (ground arith) (ground arith) in
    let first : c ≡ d = ground arith in (ground (arith, first, r.0), r.1)

framed-injective : (s t x y : Text) → framed s x ≡ framed t y → (s ≡ t) × (x ≡ y)
framed-injective s t x y e = same_length s t x y (ground arith) (ground arith)

framed_pairs-injective : (ps qs : Pairs) → framed_pairs ps ≡ framed_pairs qs → ps ≡ qs
framed_pairs-injective [] [] e = refl
framed_pairs-injective [] (b ∷ qs) e = cc
framed_pairs-injective (a ∷ ps) [] e = cc
framed_pairs-injective (a ∷ ps) (b ∷ qs) e =
    let k = framed-injective a.0 b.0 _ _ e in
    let v = framed-injective a.1 b.1 _ _ k.1 in
    let rest = framed_pairs-injective ps qs v.1 in pairs a b k.0 v.0 ps qs rest
  where
    pairs :
        (a b : Text × Text) → a.0 ≡ b.0 → a.1 ≡ b.1 → (ps qs : Pairs) → ps ≡ qs → a ∷ ps ≡ b ∷ qs
    pairs a b e f ps qs g =
        ap (λ x. (x, a.1) ∷ ps) e ∙ ap (λ y. (b.0, y) ∷ ps) f ∙ ap (λ r. b ∷ r) g

-- The query of the first request is in another order, and has a token.
abbrev query_of : Text → Pairs
query_of [] =
    (codes "Sort", codes "year")
    ∷ (codes "X-Plex-Token", codes "t")
    ∷ (codes "type", codes "1")
    ∷ []
query_of (c ∷ s) = (codes "type", codes "1") ∷ (codes "sort", codes "year") ∷ []

abbrev pub urls : Urls
urls = record {
  parse = λ raw. some (codes "/library/sections/1/all", query_of raw);
  print = λ p ps. framed p (framed_pairs ps);
  print_path = λ p ps. p;
  is_uri = λ t. true;
}

printed : (p q : Text) (ps qs : Pairs) → urls.print p ps ≡ urls.print q qs → (p ≡ q) × (ps ≡ qs)
printed p q ps qs e =
    let r = framed-injective p q (framed_pairs ps) (framed_pairs qs) e in
    (r.0, framed_pairs-injective ps qs r.1)

library_cache_key_for_iff_example :
    (library_cache_key_for urls digest [] (some (codes "t"))
      ≡ library_cache_key_for urls digest (codes "b") (some (codes "u")))
    ↔ ((token_scope digest (some (codes "t")) ≡ token_scope digest (some (codes "u")))
        × (codes "/library/sections/1/all" ≡ codes "/library/sections/1/all")
        × Permᴰ (library_pairs (query_of [])) (library_pairs (query_of (codes "b"))))
library_cache_key_for_iff_example =
    library_cache_key_for_iff urls digest digest_hex printed [] (codes "b") (some (codes "t"))
      (some (codes "u")) (codes "/library/sections/1/all") (codes "/library/sections/1/all")
      (query_of []) (query_of (codes "b")) refl refl
