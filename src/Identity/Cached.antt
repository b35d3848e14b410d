-- ===== src/Identity/Cached.antt =====
-- The cache of accounts, which is keyed by the digest of the token alone.
use replex.Prelude.{
  ◌≡◌, refl, ap, ◌∙◌, ◌≢◌, inl, inr, true, false, Option, none, some, ◌++◌, arith, Bool-cases,
  Option-cases,
}
use replex.Prelude.Int.{pos}
use replex.Prelude.Text.{Text, codes, is_text}
use replex.Policy.Entries.{ResolvedIdentity, token_fingerprint}
use replex.Policy.Entries.Resolve.{is_text_iff}
use replex.Cache.{Cache}
use replex.Config.{Config, detailed}
use replex.Identity.Answers.{
  invalid_token, Result, ok, error, answered, RawUser, PlexContext, Outside, get_key,
}
use replex.Identity.Configured.{by_configuration, binding_allows}
use replex.Identity.{
  fetch_current_identity, fetched, after_resources, after_servers, resolve_shared_user,
  resolve_via_shared_servers, Caches, remembered, get_current_identity,
}
use replex.Identity.Justified.{IsJustified}
use replex.Identity.Machine.{GivesOurs, RemembersOurs, fetch_current_identity-Remembers}
use replex.Identity.Chain.{fetch_current_identity-Backed}

-- `IsOurs`: the machine ids of this server, the one that it gives among them.
module _ (IsOurs : Text → Type 0) (machines : Cache Text Text) (out : Outside) (config : Config)
    (host : Text) (identities : Cache Text ResolvedIdentity) (gives : GivesOurs IsOurs out) where
  abbrev State : Type 0
  State = Caches machines out config host identities

  abbrev get_identity : PlexContext → State → Result ResolvedIdentity × State
  get_identity = get_current_identity machines out config host identities

  -- An account that the chain justifies for a token with this digest, in some request.
  abbrev pub IsKnownFor : Text → ResolvedIdentity → Type 0
  IsKnownFor print r =
      (context : PlexContext) × (token : Text) × (out.fingerprint token ≡ print)
      × IsJustified IsOurs out config context token r

  -- The cached accounts are such for their digests, and the cached machine ids are this server's.
  abbrev pub HoldsKnown : State → Type 0
  HoldsKnown s =
      ((print : Text) (r : ResolvedIdentity)
        → identities.lookup s.known print ≡ some r
        → IsKnownFor print r)
      × RemembersOurs IsOurs machines host s.machine_ids

  abbrev GivesKnown : Text → Result ResolvedIdentity × State → Type 0
  GivesKnown print p = HoldsKnown p.1 × ((r : ResolvedIdentity) → p.0 ≡ ok r → IsKnownFor print r)

  remembered-GivesKnown :
      (context : PlexContext) (token : Text) (s : State)
      (fetch : Result ResolvedIdentity × machines.Store)
      → HoldsKnown s
      → RemembersOurs IsOurs machines host fetch.1
      → ((r : ResolvedIdentity) → fetch.0 ≡ ok r → IsJustified IsOurs out config context token r)
      → GivesKnown
          (out.fingerprint token)
          (remembered machines out config host identities (out.fingerprint token) s fetch)
  unfolding remembered
  remembered-GivesKnown context token s (error e, m) held ours justified =
      ((held.0, ours), λ r h. cc)
  remembered-GivesKnown context token s (ok i, m) held ours justified =
      let known : IsKnownFor (out.fingerprint token) i = (context, token, refl, justified i refl) in
      (
        (
          (λ print r h.
              elim (identities.lookup-insert s.known (out.fingerprint token) print i r h) [
                | inl fresh ↦ (context, token, fresh.0, rw fresh.1 (justified i refl))
                | inr before ↦ held.0 print r before
              ]),
          ours,
        ),
        (λ r h. let e : i ≡ r = ground arith in rw (← e) known),
      )

  -- In any request: if the cache of accounts holds, under each digest, only accounts that the chain
  -- justifies for a token with that digest, and that of machine ids only ids of this server, then so
  -- they do after a lookup, whatever the caches drop; and a lookup finds an account only for a request with a token, and one that the chain
  -- justifies for a token with the same digest.
  pub get_current_identity-IsKnownFor :
      (context : PlexContext) (s : State)
      → HoldsKnown s
      → HoldsKnown (get_identity context s).1
        × ((r : ResolvedIdentity)
            → (get_identity context s).0 ≡ ok r
            → (token : Text) × (context.token ≡ some token) × IsKnownFor (out.fingerprint token) r)
  unfolding get_current_identity
  get_current_identity-IsKnownFor context s held = elim (Option-cases context.token) [
    | inl anonymous ↦ rw (anonymous, get_current_identity) (held, λ r h. cc)
    | inr (token, given) ↦ elim (Option-cases (identities.lookup s.known (out.fingerprint token))) [
      | inr (i, cached) ↦
          rw (given, cached, get_current_identity)
            (
              held,
              (λ r h.
                  let e : i ≡ r = ground arith in
                  (token, refl, rw (← e) (held.0 (out.fingerprint token) i cached))),
            )
      | inl unknown ↦
          let fetch = fetch_current_identity machines out config host context token s.machine_ids in
          let known =
            remembered-GivesKnown context token s fetch held
              (fetch_current_identity-Remembers IsOurs out config token machines host gives context
                s.machine_ids held.1)
              (λ r e.
                fetch_current_identity-Backed IsOurs out config context token machines host gives
                  s.machine_ids r held.1 e) in
          rw (given, unknown, get_current_identity) (known.0, λ r h. (token, refl, known.1 r h))
    ]
  ]

module _ (machines : Cache Text Text) (out : Outside) (config : Config) (host : Text)
    (identities : Cache Text ResolvedIdentity) where
  abbrev AnyState : Type 0
  AnyState = Caches machines out config host identities

  abbrev look_up : PlexContext → AnyState → Result ResolvedIdentity × AnyState
  look_up = get_current_identity machines out config host identities

  -- Where Plex rejects a token and lists nothing for it, the configuration decides.
  fetch-by_configuration :
      (token : Text) (body : Option RawUser) (m m1 m2 : machines.Store) (context : PlexContext)
      → out.header_ok token ≡ true
      → out.user token ≡ answered 401 body
      → resolve_shared_user machines out config host token m ≡ (ok none, m1)
      → resolve_via_shared_servers machines out config host token m1 ≡ (ok none, m2)
      → fetch_current_identity machines out config host context token m
        ≡ (by_configuration config context (out.fingerprint token), m2)
  unfolding fetch_current_identity fetched after_resources after_servers
  fetch-by_configuration token body m m1 m2 context fine rejected unlisted unshared =
      rw (fine, rejected, unlisted, unshared) refl

  -- A token that Plex rejects and does not list, with a digest that the configuration binds to a user
  -- name for one client only, and caches that have no account for the digest, and keep the one that
  -- is put in: from the client that is not the required one the chain refuses the token; but once
  -- the required client has asked, the other client is given its account.
  pub get_current_identity_ignores_client :
      (context other : PlexContext) (s : AnyState) (token user required : Text)
      (body : Option RawUser) (m1 m2 : machines.Store)
      → context.token ≡ some token
      → other.token ≡ some token
      → out.header_ok token ≡ true
      → out.user token ≡ answered 401 body
      → resolve_shared_user machines out config host token s.machine_ids ≡ (ok none, m1)
      → resolve_via_shared_servers machines out config host token m1 ≡ (ok none, m2)
      → get_key config.token_identity_map (out.fingerprint token)
        ≡ some (detailed user (some required))
      → context.client_identifier ≡ some required
      → other.client_identifier ≢ some required
      → identities.lookup s.known (out.fingerprint token) ≡ none
      → ((r : ResolvedIdentity)
          → identities.lookup
              (identities.insert s.known (out.fingerprint token) r)
              (out.fingerprint token)
            ≡ some r)
      → ((look_up other s).0 ≡ error invalid_token)
        × ((r : ResolvedIdentity) × ((look_up other (look_up context s).1).0 ≡ ok r)
            × (r.identity.username ≡ user))
  unfolding get_current_identity remembered by_configuration binding_allows
  get_current_identity_ignores_client context other s token user required body m1 m2 mine theirs
        fine rejected unlisted unshared bound right wrong unknown kept =
      let print = out.fingerprint token in
      let r : ResolvedIdentity = record {
        identity = record { id = pos 0; uuid = codes "token-sha256-" ++ print; username = user };
        source = token_fingerprint;
      } in
      let same : is_text (some required) required ≡ true =
        (is_text_iff (some required) required).1 refl in
      let differs : is_text other.client_identifier required ≡ false =
        elim (Bool-cases (is_text other.client_identifier required)) [
          | inl equal ↦ absurd (wrong ((is_text_iff other.client_identifier required).0 equal))
          | inr unequal ↦ unequal
        ] in
      let accepts : by_configuration config context print ≡ ok r =
        rw (bound, by_configuration, right, same) refl in
      let refuses : by_configuration config other print ≡ error invalid_token =
        rw (bound, by_configuration, differs) refl in
      let chain = fetch-by_configuration token body s.machine_ids m1 m2 in
      let cached : AnyState = record {
        known = identities.insert s.known print r;
        machine_ids = m2;
      } in
      let first : look_up context s ≡ (ok r, cached) =
        rw
          (
            mine,
            get_current_identity,
            unknown,
            chain context fine rejected unlisted unshared,
            accepts,
          )
          refl in
      let second : (look_up other cached).0 ≡ ok r =
        rw (theirs, get_current_identity, kept r) refl in
      (
        rw
            (
              theirs,
              get_current_identity,
              unknown,
              chain other fine rejected unlisted unshared,
              refuses,
            )
            refl,
        (r, ap (λ p. (look_up other p.1).0) first ∙ second, refl),
      )
