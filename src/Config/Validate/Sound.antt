-- ===== src/Config/Validate/Sound.antt =====
-- What a configuration that was accepted at start-up guarantees to the code that reads it.
use replex.Prelude.{
  any-mem, All-append, ◌≡◌, refl, ◌∙◌, inl, inr, ◌&&◌, true, Option, none, some, List, [], ◌∷◌,
  arith, All, All-mem, Memᴰ, find, find-mem, map_or, unwrap_or, Option-cases, Bool-cases,
  if◌then◌else◌,
}
use replex.Prelude.Int.{ℤ, pos, ◌≤ℤ◌}
use replex.Prelude.Text.{Text, codes, text_eq_refl}
use replex.Policy.Limit.{ResolutionLimit}
use replex.Policy.Entries.{
  PolicyEntry, UserIdentity, by_uuid, by_username, matched_entry, resolve_policy,
}
use replex.Config.{Config}
use replex.Config.Upstream.{
  UrlLibrary, is_base, trim_slashes, trim_path, normalize_base_url, upstream_matches_allowlist,
  approved, optional, allows_upstream_host,
}
use replex.Config.Validate.{
  validate_base_url, Checked, ok, err, ◌andthen◌, each, if_some, blank, validate_policy,
  validate_port, validate_binding, validate_hosts, validate, missing_host, missing_ssl_domain,
}

andthen-ok : (a b : Checked) → (a andthen b) ≡ ok → (a ≡ ok) × (b ≡ ok)
andthen-ok ok b h = (refl, h)
andthen-ok (err e) b h = cc

each-ok {ℓ} :
    {A : Type ℓ} (check : A → Checked) (xs : List A)
    → each check xs ≡ ok
    → All (λ x. check x ≡ ok) xs
each-ok check [] h = tt
each-ok check (x ∷ xs) h =
    let r = andthen-ok (check x) (each check xs) h in (r.0, each-ok check xs r.1)

-- A bitrate of a checked entry.
validate_policy-positive :
    (p : PolicyEntry) (b : ℤ) → validate_policy p ≡ ok → p.max_bitrate ≡ some b → pos 1 ≤ℤ b
unfolding validate_policy
validate_policy-positive p b h e = ground arith

matched_entry-mem :
    (policies : List PolicyEntry) (who : UserIdentity) (p : PolicyEntry)
    → matched_entry policies who ≡ some p
    → Memᴰ p policies
unfolding matched_entry
matched_entry-mem policies who p e = elim (Option-cases (find (by_uuid who) policies)) [
  | inr (q, f) ↦ find-mem (by_uuid who) p policies (f ∙ (rw (f, matched_entry) at e))
  | inl unnamed ↦ find-mem (by_username who) p policies (rw (unnamed, matched_entry) at e)
]

module _ (url : UrlLibrary) (config : Config) (disk_size : Option Text) where
  validate-entries :
      validate url config disk_size ≡ ok
      → All (λ p. validate_policy p ≡ ok) config.user_resolution_policies
  unfolding validate
  validate-entries h =
      let r1 = andthen-ok (map_or config.host (err missing_host) (validate_hosts url config)) _ h in
      let r2 = andthen-ok (if_some validate_port config.port) _ r1.1 in
      let r3 =
        andthen-ok
          (if config.ssl_enable && map_or config.ssl_domain true blank
            then err missing_ssl_domain
            else ok)
          _ r2.1 in
      let r4 = andthen-ok (each validate_binding config.client_identity_map) _ r3.1 in
      let r5 = andthen-ok (each validate_policy config.user_resolution_policies) _ r4.1 in
      each-ok validate_policy config.user_resolution_policies r5.0

  -- With a configuration that was accepted at start-up, the policy of any account has a bitrate cap
  -- of at least 1, if it has one, whatever the default limit and the hidden collections are.
  pub validate-positive_cap :
      (default_limit : ResolutionLimit) (hidden : List Text) (who : UserIdentity) (b : ℤ)
      → validate url config disk_size ≡ ok
      → (resolve_policy config.user_resolution_policies default_limit hidden who).max_bitrate
        ≡ some b
      → pos 1 ≤ℤ b
  unfolding resolve_policy
  validate-positive_cap default_limit hidden who b h e =
      elim (Option-cases (matched_entry config.user_resolution_policies who)) [
        | inl unmatched ↦ absurd (let f = rw (unmatched, resolve_policy) at e in cc)
        | inr (p, found) ↦
            validate_policy-positive p b
              (All-mem (λ p. validate_policy p ≡ ok) p (validate-entries h)
                (matched_entry-mem config.user_resolution_policies who p found))
              (rw (found, resolve_policy) at e)
      ]

  -- The addresses of an accepted configuration.
  validate-hosts :
      validate url config disk_size ≡ ok
      → (host : Text) × (config.host ≡ some host) × (validate_hosts url config host ≡ ok)
  unfolding validate
  validate-hosts h = elim (Option-cases config.host) [
    | inl missing ↦ absurd (let f = rw missing at h in cc)
    | inr (host, e) ↦ (host, e, (andthen-ok (validate_hosts url config host) _ (rw e at h)).0)
  ]

  abbrev HasNormalForm : Text → Type 0
  HasNormalForm a = (n : Text) × (normalize_base_url url a ≡ some n)

  validate_base_url-HasNormalForm :
      (field value : Text) → validate_base_url url field value ≡ ok → HasNormalForm value
  unfolding validate_base_url normalize_base_url
  validate_base_url-HasNormalForm field value h = elim (Option-cases (url.parse value)) [
    | inl unparsed ↦ absurd (let f = rw unparsed at h in cc)
    | inr (u, e) ↦ elim (Bool-cases (is_base url u)) [
      | inr partial ↦ absurd (let f = rw (e, partial) at h in cc)
      | inl base ↦ (trim_slashes (url.print (trim_path url 1 u)), rw (e, base) refl)
    ]
  ]

  All-HasNormalForm :
      (field : Text) (xs : List Text)
      → All (λ a. validate_base_url url field a ≡ ok) xs
      → All HasNormalForm xs
  All-HasNormalForm field [] h = tt
  All-HasNormalForm field (a ∷ xs) h =
      (validate_base_url-HasNormalForm field a h.0, All-HasNormalForm field xs h.1)

  optional-HasNormalForm :
      (field : Text) (a : Option Text)
      → if_some (validate_base_url url field) a ≡ ok
      → All HasNormalForm (optional a)
  optional-HasNormalForm field none h = tt
  optional-HasNormalForm field (some a) h = (validate_base_url-HasNormalForm field a h, tt)

  approved-HasNormalForm : validate url config disk_size ≡ ok → All HasNormalForm (approved config)
  unfolding approved validate_hosts
  approved-HasNormalForm h =
      let v = validate-hosts h in
      let r1 = andthen-ok (validate_base_url url (codes "REPLEX_HOST") v.0) _ v.2 in
      let r2 =
        andthen-ok
          (if_some (validate_base_url url (codes "REPLEX_REDIRECT_STREAMS_HOST"))
            config.redirect_streams_host)
          _ r1.1 in
      let r3 =
        andthen-ok
          (each (validate_base_url url (codes "REPLEX_ALLOWED_UPSTREAM_HOSTS"))
            (unwrap_or config.allowed_upstream_hosts []))
          _ r2.1 in
      rw v.1 (
        validate_base_url-HasNormalForm (codes "REPLEX_HOST") v.0 r1.0,
        All-append HasNormalForm (optional config.redirect_streams_host)
            (unwrap_or config.allowed_upstream_hosts [])
            (optional-HasNormalForm (codes "REPLEX_REDIRECT_STREAMS_HOST")
              config.redirect_streams_host r2.0)
            (All-HasNormalForm (codes "REPLEX_ALLOWED_UPSTREAM_HOSTS")
              (unwrap_or config.allowed_upstream_hosts []) (each-ok _ _ r3.0)),
      )

  -- Each address of a configuration that was accepted at start-up (that of the server, of the
  -- redirected streams, and those of the list of approved ones) is approved by it.
  pub validate-allows_upstream_host :
      (a : Text)
      → validate url config disk_size ≡ ok
      → Memᴰ a (approved config)
      → allows_upstream_host url config a ≡ true
  unfolding allows_upstream_host upstream_matches_allowlist
  validate-allows_upstream_host a h m =
      let f : HasNormalForm a = All-mem HasNormalForm a (approved-HasNormalForm h) m in
      rw f.1 (any-mem _ m (rw f.1 (text_eq_refl f.0)))
