-- ===== src/Identity/Machine.antt =====
-- What the identity chain remembers of the server's machine id.
use replex.Prelude.{
  ◌≡◌, refl, inl, inr, ◌||◌, ◌==◌, Option, none, some, arith, and_then, Bool-cases, Option-cases,
}
use replex.Prelude.Text.{Text}
use replex.Policy.Entries.{UserIdentity}
use replex.Cache.{Cache}
use replex.Config.{Config}
use replex.Identity.Answers.{
  Result, ok, error, Answer, unreachable, answered, RawUser, PlexContext, Outside,
}
use replex.Identity.{
  fetch_current_identity, fetched, after_resources, after_servers, resolve_shared_user,
  asked_servers, asked_resources, resolve_via_shared_servers, server_machine_id,
}

-- The id under which the server itself answers is one of its ids.
abbrev pub GivesOurs : (Text → Type 0) → Outside → Type 0
GivesOurs IsOurs out = (id : Text) → out.root ≡ some (some id) → IsOurs id

-- A cached machine id is one of this server's.
abbrev pub RemembersOurs :
    (Text → Type 0) → (machines : Cache Text Text) → Text → machines.Store → Type 0
RemembersOurs IsOurs machines host s = (id : Text) → machines.lookup s host ≡ some id → IsOurs id

-- A machine id that is found is one of this server's, and what is remembered stays so.
abbrev pub MachineFound :
    (Text → Type 0) → (machines : Cache Text Text) → Text → Result Text × machines.Store → Type 0
MachineFound IsOurs machines host p =
    ((id : Text) → p.0 ≡ ok id → IsOurs id) × RemembersOurs IsOurs machines host p.1

module _ (IsOurs : Text → Type 0) (out : Outside) (config : Config) (token : Text)
    (machines : Cache Text Text) (host : Text) (gives : GivesOurs IsOurs out) where
  abbrev Remembers : machines.Store → Type 0
  Remembers = RemembersOurs IsOurs machines host

  abbrev FindsOurs : Result Text × machines.Store → Type 0
  FindsOurs = MachineFound IsOurs machines host

  pub server_machine_id-FindsOurs :
      (s : machines.Store) → Remembers s → FindsOurs (server_machine_id machines out config host s)
  unfolding server_machine_id
  server_machine_id-FindsOurs s held = elim (Option-cases (machines.lookup s host)) [
    | inr (id, there) ↦
        rw (there, server_machine_id) ((λ j e. held j (ground (arith, there, e))), λ j e. held j e)
    | inl unknown ↦ elim (Option-cases (and_then out.root (λ parsed. parsed))) [
      | inl silent ↦ rw (unknown, silent, server_machine_id) ((λ j e. cc), λ j e. held j e)
      | inr (id, answer) ↦
          let ours : IsOurs id = gives id (ground (arith, answer)) in
          rw (unknown, answer, server_machine_id)
            (
              (λ j e. let same : id ≡ j = ground arith in rw (← same) ours),
              (λ j e. elim (machines.lookup-insert s host host id j e) [
                | inl fresh ↦ rw fresh.1 ours
                | inr before ↦ held j before
              ]),
            )
    ]
  ]

  asked_resources-store :
      (asked : Result Text × machines.Store)
      → (asked_resources machines out config host token asked).1 ≡ asked.1
  unfolding asked_resources
  asked_resources-store (error e, s) = refl
  asked_resources-store (ok machine_id, s) = ground arith

  pub resolve_shared_user-Remembers :
      (s : machines.Store)
      → Remembers s
      → Remembers (resolve_shared_user machines out config host token s).1
  unfolding resolve_shared_user
  resolve_shared_user-Remembers s held =
      rw (asked_resources-store (server_machine_id machines out config host s))
        (server_machine_id-FindsOurs s held).1

  asked_servers-store :
      (admin : Text) (asked : Result Text × machines.Store)
      → (asked_servers machines out config host admin token asked).1 ≡ asked.1
  unfolding asked_servers
  asked_servers-store admin (error e, s) = refl
  asked_servers-store admin (ok machine_id, s) = refl

  resolve_via_shared_servers-Remembers :
      (s : machines.Store)
      → Remembers s
      → Remembers (resolve_via_shared_servers machines out config host token s).1
  unfolding resolve_via_shared_servers
  resolve_via_shared_servers-Remembers s held = elim (Option-cases config.token) [
    | inl nobody ↦ rw (nobody, resolve_via_shared_servers) held
    | inr (admin, mine) ↦
        rw
          (
            mine,
            resolve_via_shared_servers,
            asked_servers-store admin (server_machine_id machines out config host s),
          )
          (server_machine_id-FindsOurs s held).1
  ]

  module _ (context : PlexContext) where
    after_servers-store :
        (found : Result (Option UserIdentity) × machines.Store)
        → (after_servers machines out config host context token found).1 ≡ found.1
    unfolding after_servers
    after_servers-store (error e, s) = refl
    after_servers-store (ok none, s) = refl
    after_servers-store (ok (some i), s) = refl

    after_resources-Remembers :
        (found : Result (Option UserIdentity) × machines.Store)
        → Remembers found.1
        → Remembers (after_resources machines out config host context token found).1
    unfolding after_resources
    after_resources-Remembers (error e, s) held = held
    after_resources-Remembers (ok (some i), s) held = held
    after_resources-Remembers (ok none, s) held =
        rw (after_servers-store (resolve_via_shared_servers machines out config host token s))
          (resolve_via_shared_servers-Remembers s held)

    fetched-Remembers :
        (answer : Answer RawUser) (s : machines.Store)
        → Remembers s
        → Remembers (fetched machines out config host context token answer s).1
    unfolding fetched
    fetched-Remembers unreachable s held = held
    fetched-Remembers (answered status body) s held = elim (Bool-cases (status == 200)) [
      | inl fine ↦ rw (fine, fetched) held
      | inr other ↦ elim (Bool-cases (status == 401 || status == 403)) [
        | inr odd ↦ rw (other, odd, fetched) held
        | inl rejects ↦
            rw (other, rejects, fetched)
              (after_resources-Remembers (resolve_shared_user machines out config host token s)
                (resolve_shared_user-Remembers s held))
      ]
    ]

    -- The chain remembers only machine ids of this server.
    pub fetch_current_identity-Remembers :
        (s : machines.Store)
        → Remembers s
        → Remembers (fetch_current_identity machines out config host context token s).1
    unfolding fetch_current_identity
    fetch_current_identity-Remembers s held = elim (Bool-cases (out.header_ok token)) [
      | inr bad ↦ rw (bad, fetch_current_identity) held
      | inl fine ↦ rw (fine, fetch_current_identity) (fetched-Remembers (out.user token) s held)
    ]
