-- ===== src/Hub/Keys.antt =====
-- Which requests share a cached hub payload.
use replex.Prelude.{
  ℕ, zero, suc, ◌≡◌, refl, ◌≢◌, ◌⊎◌, inl, inr, true, false, Option, none, some, [], ◌∷◌, ◌++◌, All,
  arith, take, Bool-cases,
}
use replex.Prelude.Text.{Text, codes}
use replex.Hub.{token_scope, is_global, hub_cache_key}

-- No colon in a text.
abbrev pub NoColon : Text → Type 0
NoColon = All (λ c. c ≢ b':')

NoColon-take : (n : ℕ) (s : Text) → NoColon s → NoColon (take n s)
NoColon-take zero s h = tt
NoColon-take (suc n) [] h = tt
NoColon-take (suc n) (c ∷ s) h = (h.0, NoColon-take n s h.1)

-- The first colon splits a text in one way.
pub first_colon :
    (s t p q : Text) → NoColon s → NoColon t → s ++ b':' ∷ p ≡ t ++ b':' ∷ q → (s ≡ t) × (p ≡ q)
first_colon [] [] p q h k e = (refl, ground arith)
first_colon [] (d ∷ t) p q h k e = absurd (k.0 (ground arith))
first_colon (c ∷ s) [] p q h k e = absurd (h.0 (ground arith))
first_colon (c ∷ s) (d ∷ t) p q h k e =
    let r = first_colon s t p q h.1 k.1 (ground arith) in (ground (arith, r.0), r.1)

module _ (fingerprint : Text → Text) (hex : (token : Text) → NoColon (fingerprint token)) where
  pub NoColon-token_scope : (token : Option Text) → NoColon (token_scope fingerprint token)
  unfolding token_scope
  NoColon-token_scope none =
      ((λ e. ground arith), ((λ e. ground arith), ((λ e. ground arith), ((λ e. ground arith), tt))))
  NoColon-token_scope (some token) = NoColon-take 16 (fingerprint token) (hex token)

  global_key :
      (p : Text) (token : Option Text)
      → is_global p ≡ true
      → hub_cache_key fingerprint p token ≡ codes "hubcache:" ++ (codes "global:" ++ p)
  unfolding hub_cache_key
  global_key p none h = rw h refl
  global_key p (some token) h = rw h refl

  personal_key :
      (p : Text) (token : Option Text)
      → is_global p ≡ false
      → hub_cache_key fingerprint p token
        ≡ codes "hubcache:" ++ (codes "u:" ++ (token_scope fingerprint token ++ b':' ∷ p))
  unfolding hub_cache_key token_scope
  personal_key p none h = rw h refl
  personal_key p (some token) h = rw h refl

  -- With digests that have no colon, two requests for hubs meet in the cache only with the same path, and then either the path is
  -- one that all accounts share, or their tokens have the same scope.
  pub hub_cache_key_shared :
      (p q : Text) (t u : Option Text)
      → hub_cache_key fingerprint p t ≡ hub_cache_key fingerprint q u
      → (p ≡ q) × ((is_global p ≡ true) ⊎ (token_scope fingerprint t ≡ token_scope fingerprint u))
  hub_cache_key_shared p q t u e = elim (Bool-cases (is_global p)) [
    | inl shared_p ↦ elim (Bool-cases (is_global q)) [
      | inl shared_q ↦
          (ground (arith, global_key p t shared_p, global_key q u shared_q), inl shared_p)
      | inr own_q ↦ absurd (ground (arith, global_key p t shared_p, personal_key q u own_q))
    ]
    | inr own_p ↦ elim (Bool-cases (is_global q)) [
      | inl shared_q ↦ absurd (ground (arith, personal_key p t own_p, global_key q u shared_q))
      | inr own_q ↦
          let r =
            first_colon (token_scope fingerprint t) (token_scope fingerprint u) p q
              (NoColon-token_scope t) (NoColon-token_scope u)
              (ground (arith, personal_key p t own_p, personal_key q u own_q)) in
          (r.1, inr r.0)
    ]
  ]

  -- With digests that have no colon, a path of the promoted or home hubs has one entry for all tokens.
  pub hub_cache_key-global :
      (p : Text) (t u : Option Text)
      → is_global p ≡ true
      → hub_cache_key fingerprint p t ≡ hub_cache_key fingerprint p u
  hub_cache_key-global p t u h = ground (arith, global_key p t h, global_key p u h)

  -- Tokens of one scope have one key for a path, and so do all tokens for a path that is shared.
  pub hub_cache_key_same :
      (p : Text) (t u : Option Text)
      → (is_global p ≡ true) ⊎ (token_scope fingerprint t ≡ token_scope fingerprint u)
      → hub_cache_key fingerprint p t ≡ hub_cache_key fingerprint p u
  hub_cache_key_same p t u (inl shared) = hub_cache_key-global p t u shared
  hub_cache_key_same p t u (inr same) = elim (Bool-cases (is_global p)) [
    | inl shared ↦ hub_cache_key-global p t u shared
    | inr own ↦ rw (personal_key p t own, personal_key p u own, same) refl
  ]
