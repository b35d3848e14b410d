-- ===== src/Security/Request/Approved.antt =====
-- That a request, with the credentials in it, goes only to a server that the configuration approves.
use replex.Prelude.{
  ℕ, ◌≡◌, ap, ◌∙◌, ◌⊎◌, inl, inr, Bool, true, false, Option, none, some, [], arith, Memᴰ, any-true,
  map_or, unwrap_or, or_else, Bool-cases, Option-cases,
}
use replex.Prelude.Text.{Text, text_eq, text_eq_iff}
use replex.Config.{Config}
use replex.Config.Upstream.{
  UrlLibrary, normalize_base_url, upstream_matches_allowlist, approved, allows_upstream_host,
}
use replex.Security.Request.{
  Decoders, RequestContext, next, admit, decide, decoded_replex_stream_host, handle_request,
}

-- A text and an address of the configuration have one normal form.
abbrev pub IsApproved : UrlLibrary → Config → Text → Type 0
IsApproved url config candidate =
    (a : Text) × Memᴰ a (approved config)
    × (n : Text) × (normalize_base_url url a ≡ some n)
    × (normalize_base_url url candidate ≡ some n)

module _ (url : UrlLibrary) (config : Config) where
  -- Whether an address has a normal form.
  abbrev matches : Text → Text → Bool
  matches c a = map_or (normalize_base_url url a) false (λ n. text_eq n c)

  normal_form : (a c : Text) → matches c a ≡ true → normalize_base_url url a ≡ some c
  normal_form a c h = elim (Option-cases (normalize_base_url url a)) [
    | inl wild ↦ absurd (let f = rw wild at h in cc)
    | inr (n, e) ↦ e ∙ ap some ((text_eq_iff n c).0 (rw e at h))
  ]

  allows_upstream_host-IsApproved :
      (candidate : Text)
      → allows_upstream_host url config candidate ≡ true
      → IsApproved url config candidate
  unfolding allows_upstream_host upstream_matches_allowlist
  allows_upstream_host-IsApproved candidate h =
      elim (Option-cases (normalize_base_url url candidate)) [
        | inl wild ↦ absurd (let f = rw (wild, upstream_matches_allowlist) at h in cc)
        | inr (c, e) ↦
            let r =
              any-true (matches c) (approved config) (rw (e, upstream_matches_allowlist) at h) in
            (r.0, r.1, c, normal_form r.0 c r.2, e)
      ]

  module _ (decoders : Decoders) (fingerprint : Text → Text) where
    -- Where a request may go: to the configured server, or to one that is approved.
    abbrev Goes : Text → Type 0
    Goes host = (host ≡ unwrap_or config.host []) ⊎ IsApproved url config host

    admit-Goes :
        (token decoded : Option Text) (counter k : ℕ) (context : RequestContext)
        → admit url decoders fingerprint config token decoded counter ≡ (next context, k)
        → context.upstream_host ≡ unwrap_or (or_else decoded config.host) []
    unfolding admit
    admit-Goes token decoded counter k context e = ground arith

    decide-Goes :
        (token decoded : Option Text) (counter k : ℕ) (context : RequestContext)
        → decide url decoders fingerprint config token decoded counter ≡ (next context, k)
        → Goes context.upstream_host
    unfolding decide
    decide-Goes token none counter k context e = inl (admit-Goes token none counter k context e)
    decide-Goes token (some candidate) counter k context e =
        elim (Bool-cases (allows_upstream_host url config candidate)) [
          | inr refused ↦ absurd (let f = rw refused at e in cc)
          | inl allowed ↦
              let same = admit-Goes token (some candidate) counter k context (rw allowed at e) in
              inr (rw same (allows_upstream_host-IsApproved candidate allowed))
        ]

    -- A request that is handed on goes to the configured server, or to one whose address has the
    -- normal form of an address that the configuration names, whatever the HOST header encodes.
    pub handle_request-IsApproved :
        (host token : Option Text) (counter k : ℕ) (context : RequestContext)
        → handle_request url decoders fingerprint (some config) host token counter
          ≡ (next context, k)
        → (context.upstream_host ≡ unwrap_or config.host [])
          ⊎ IsApproved url config context.upstream_host
    unfolding handle_request
    handle_request-IsApproved host token counter k context e =
        decide-Goes token (decoded_replex_stream_host url decoders host) counter k context e
