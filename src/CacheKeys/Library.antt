-- ===== src/CacheKeys/Library.antt =====
-- Which requests share a cached library payload.
use replex.Prelude.{◌≡◌, refl, sym, ◌∙◌, ◌↔◌, Option, some, ◌++◌}
use mathlib.Core.List.{Permᴰ}
use mathlib.Core.List.Permᴰ
use replex.Prelude.Sorted.{sort, leb_pair, Permᴰ-sort, sort_pairs-Permᴰ}
use replex.Prelude.Text.{Text, codes, append-cancel}
use replex.Hub.{token_scope}
use replex.Hub.Keys.{NoColon, NoColon-token_scope, first_colon}
use replex.CacheKeys.{Pairs, Urls, library_pairs, canonical_library_path, library_cache_key_for}

module _ (urls : Urls) (fingerprint : Text → Text)
    (hex : (token : Text) → NoColon (fingerprint token))
    (printed : (p q : Text) (ps qs : Pairs)
      → urls.print p ps ≡ urls.print q qs
      → (p ≡ q) × (ps ≡ qs)) where
  canonical_of :
      (raw p : Text) (ps : Pairs)
      → urls.parse raw ≡ some (p, ps)
      → canonical_library_path urls fingerprint raw
        ≡ codes "library:" ++ urls.print p (sort leb_pair (library_pairs ps))
  unfolding canonical_library_path
  canonical_of raw p ps parses = rw parses refl

  sorted_Permᴰ : (ps qs : Pairs) → sort leb_pair ps ≡ sort leb_pair qs → Permᴰ ps qs
  sorted_Permᴰ ps qs e =
      Permᴰ.trans (Permᴰ-sort leb_pair ps) (rw e (Permᴰ.symm (Permᴰ-sort leb_pair qs)))

  -- With token digests that have no colon, and a printer of URLs that loses nothing: two library
  -- requests that parse share a cache entry exactly when their tokens have the same scope, they have
  -- the same path, and the pairs that a key keeps (with the names in lower case, without the tokens,
  -- the client's metadata and what only shapes fields) are the same in some order.
  pub library_cache_key_for_iff :
      (raw other : Text) (t u : Option Text) (p q : Text) (ps qs : Pairs)
      → urls.parse raw ≡ some (p, ps)
      → urls.parse other ≡ some (q, qs)
      → (library_cache_key_for urls fingerprint raw t
          ≡ library_cache_key_for urls fingerprint other u)
        ↔ ((token_scope fingerprint t ≡ token_scope fingerprint u)
            × (p ≡ q)
            × Permᴰ (library_pairs ps) (library_pairs qs))
  unfolding library_cache_key_for
  library_cache_key_for_iff raw other t u p q ps qs parses parses_too = (there, back)
    where
      there :
          library_cache_key_for urls fingerprint raw t
            ≡ library_cache_key_for urls fingerprint other u
          → (token_scope fingerprint t ≡ token_scope fingerprint u)
            × (p ≡ q)
            × Permᴰ (library_pairs ps) (library_pairs qs)
      there e =
          let parts =
            first_colon (token_scope fingerprint t) (token_scope fingerprint u)
              (canonical_library_path urls fingerprint raw)
              (canonical_library_path urls fingerprint other)
              (NoColon-token_scope fingerprint hex t) (NoColon-token_scope fingerprint hex u)
              (append-cancel (codes "library:u:") _ _ e) in
          let texts =
            append-cancel (codes "library:") _ _
              (sym (canonical_of raw p ps parses) ∙ parts.1 ∙ canonical_of other q qs parses_too) in
          let same = printed p q _ _ texts in
          (parts.0, same.0, sorted_Permᴰ (library_pairs ps) (library_pairs qs) same.1)

      back :
          (token_scope fingerprint t ≡ token_scope fingerprint u)
            × (p ≡ q)
            × Permᴰ (library_pairs ps) (library_pairs qs)
          → library_cache_key_for urls fingerprint raw t
            ≡ library_cache_key_for urls fingerprint other u
      back (scopes, paths, pairs) =
          let sorted = sort_pairs-Permᴰ pairs in
          let texts : canonical_library_path urls fingerprint raw
              ≡ canonical_library_path urls fingerprint other =
            rw (canonical_of raw p ps parses, canonical_of other q qs parses_too, paths, sorted)
              refl in
          rw (scopes, texts) refl
