-- ===== src/Policy/Deserialize.antt =====
-- `deserialize_user_resolution_policies`, after serde has read the raw entries: entries that name
-- no account are skipped, and a limit that does not parse fails the whole configuration.
use replex.Prelude.{
  ◌≡◌, refl, inl, inr, Bool, true, ◌||◌, Option, none, some, List, [], ◌∷◌, Memᴰ, arith, is_some,
  if◌then◌else◌, Bool-cases, Option-cases,
}
use replex.Prelude.Int.{ℤ}
use replex.Prelude.Text.{Text}
use replex.Policy.Limit.{ResolutionLimit, parse}
use replex.Policy.Entries.{PolicyEntry}

pub record RawPolicyEntry : Type 0 where
  pub username : Option Text
  pub uuid : Option Text
  pub max_resolution : Text
  pub max_bitrate : Option ℤ
  pub visible_collections : List Text

-- `Err` carries the text of the limit that is not known.
pub data Parsed : Type 0 where
  ok : List PolicyEntry → Parsed
  unknown_limit : Text → Parsed

abbrev pub names_account : RawPolicyEntry → Bool
names_account e = is_some e.username || is_some e.uuid

abbrev pub entry_of : RawPolicyEntry → ResolutionLimit → PolicyEntry
entry_of e limit = record {
  username = e.username;
  uuid = e.uuid;
  max_resolution = limit;
  max_bitrate = e.max_bitrate;
  visible_collections = e.visible_collections;
}

abbrev pub push_entry : PolicyEntry → Parsed → Parsed
push_entry p (ok ps) = ok (p ∷ ps)
push_entry p (unknown_limit t) = unknown_limit t

abbrev with_limit : RawPolicyEntry → Option ResolutionLimit → Parsed → Parsed
with_limit e none rest = unknown_limit e.max_resolution
with_limit e (some limit) rest = push_entry (entry_of e limit) rest

unfoldable pub entries_of_raw : List RawPolicyEntry → Parsed
entries_of_raw [] = ok []
entries_of_raw (e ∷ raw) =
    let rest = entries_of_raw raw in
    if names_account e then with_limit e (parse e.max_resolution) rest else rest

-- `Reads raw ps`: `ps` are the entries of `raw` that name an account, in order, each with the limit
-- that its text parses to.
pub data Reads : List RawPolicyEntry → List PolicyEntry → Type 0 where
  nil : Reads [] []
  skip :
      {e : RawPolicyEntry} {raw : List RawPolicyEntry} {ps : List PolicyEntry}
      → e.username ≡ none
      → e.uuid ≡ none
      → Reads raw ps
      → Reads (e ∷ raw) ps
  take :
      {e : RawPolicyEntry} {raw : List RawPolicyEntry} {ps : List PolicyEntry}
      (limit : ResolutionLimit)
      → parse e.max_resolution ≡ some limit
      → Reads raw ps
      → Reads (e ∷ raw) (entry_of e limit ∷ ps)

named_ok :
    (e : RawPolicyEntry) (raw : List RawPolicyEntry) (ps : List PolicyEntry) (r : Parsed)
    → ((qs : List PolicyEntry) → r ≡ ok qs → Reads raw qs)
    → with_limit e (parse e.max_resolution) r ≡ ok ps
    → Reads (e ∷ raw) ps
named_ok e raw ps r ih h = elim (Option-cases (parse e.max_resolution)) [
  | inl bad ↦ absurd (ground (arith, bad))
  | inr good ↦ pushed good.0 good.1 r ih (rw good.1 at h)
]
  where
    pushed :
        (limit : ResolutionLimit)
        → parse e.max_resolution ≡ some limit
        → (s : Parsed) → ((qs : List PolicyEntry) → s ≡ ok qs → Reads raw qs)
        → push_entry (entry_of e limit) s ≡ ok ps
        → Reads (e ∷ raw) ps
    pushed limit good (ok qs) ih k =
        let e' : entry_of e limit ∷ qs ≡ ps = ground arith in
        rw (← e') (Reads.take limit good (ih qs refl))
    pushed limit good (unknown_limit t) ih k = cc

-- A configuration that is accepted has exactly the entries that name an account, in order.
pub entries_of_raw-Reads :
    (raw : List RawPolicyEntry) (ps : List PolicyEntry) → entries_of_raw raw ≡ ok ps → Reads raw ps
unfolding entries_of_raw
entries_of_raw-Reads [] ps h = let e : [] ≡ ps = ground arith in rw (← e) Reads.nil
entries_of_raw-Reads (e ∷ raw) ps h = elim (Bool-cases (names_account e)) [
  | inl yes' ↦
      named_ok e raw ps (entries_of_raw raw) (λ qs. entries_of_raw-Reads raw qs) (rw yes' at h)
  | inr no' ↦ Reads.skip (ground arith) (ground arith) (entries_of_raw-Reads raw ps (rw no' at h))
]

-- A configuration is refused only for an entry that names an account and whose limit does not parse.
pub entries_of_raw_refused :
    (raw : List RawPolicyEntry) (t : Text)
    → entries_of_raw raw ≡ unknown_limit t
    → (e : RawPolicyEntry) × Memᴰ e raw
      × (names_account e ≡ true)
      × (e.max_resolution ≡ t)
      × (parse t ≡ none)
unfolding entries_of_raw
entries_of_raw_refused [] t h = cc
entries_of_raw_refused (e ∷ raw) t h = elim (Bool-cases (names_account e)) [
  | inl named ↦ elim (Option-cases (parse e.max_resolution)) [
    | inl bad ↦ (e, Memᴰ.head refl, named, ground (arith, bad), ground (arith, bad))
    | inr good ↦ later (entries_of_raw_refused raw t (ground (arith, good.1)))
  ]
  | inr unnamed ↦ later (entries_of_raw_refused raw t (rw unnamed at h))
]
  where
    later :
        (f : RawPolicyEntry) × Memᴰ f raw
          × (names_account f ≡ true)
          × (f.max_resolution ≡ t)
          × (parse t ≡ none)
        → (f : RawPolicyEntry) × Memᴰ f (e ∷ raw)
          × (names_account f ≡ true)
          × (f.max_resolution ≡ t)
          × (parse t ≡ none)
    later (f, m, named, text, bad) = (f, Memᴰ.tail m, named, text, bad)
