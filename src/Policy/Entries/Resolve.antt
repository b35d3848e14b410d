-- ===== src/Policy/Entries/Resolve.antt =====
-- Which entry governs an account, and what `resolve_policy` makes of it.
use replex.Prelude.{
  ◌≡◌, refl, inl, inr, ◌↔◌, ◌++◌, Bool, true, false, not, Option, none, some, List, [], ◌∷◌, All,
  Memᴰ, arith, find, map_or, and_then, Option-cases, Bool-cases, mem-filter, mem_of_mem-filter,
  test_of_mem-filter, any-mem, any-true,
}
use replex.Prelude.Text.{Text, text_eq_iff, is_text}
use replex.Policy.Limit.{ResolutionLimit}
use replex.Policy.Entries.{
  PolicyEntry, UserIdentity, ResolutionPolicy, matched_entry, resolve_policy, by_uuid, by_username,
  listed,
}

-- `p` is the first of `xs` with the property `P`.
pub record IsFirst (P : PolicyEntry → Type 0) (xs : List PolicyEntry) (p : PolicyEntry)
    : Type 0 where
  pub before : List PolicyEntry
  pub after : List PolicyEntry
  pub splits : xs ≡ before ++ p ∷ after
  pub holds : P p
  pub none_before : All (λ q. ¬ P q) before

abbrev pub HasUuid : UserIdentity → PolicyEntry → Type 0
HasUuid who p = p.uuid ≡ some who.uuid

abbrev pub HasUsername : UserIdentity → PolicyEntry → Type 0
HasUsername who p = p.username ≡ some who.username

-- The entry that governs an account: the first with its uuid, else the first with its user name.
pub data Governs (policies : List PolicyEntry) (who : UserIdentity)
    : Option PolicyEntry → Type 0 where
  uuid_match : {p : PolicyEntry} → IsFirst (HasUuid who) policies p → Governs policies who (some p)
  username_match :
      {p : PolicyEntry}
      → All (λ q. ¬ HasUuid who q) policies
      → IsFirst (HasUsername who) policies p
      → Governs policies who (some p)
  unmatched :
      All (λ q. ¬ HasUuid who q) policies
      → All (λ q. ¬ HasUsername who q) policies
      → Governs policies who none

pub is_text_iff : (o : Option Text) (t : Text) → (is_text o t ≡ true) ↔ (o ≡ some t)
unfolding is_text
is_text_iff none t = (λ h. cc, λ h. cc)
is_text_iff (some s) t =
    (λ h. ground (arith, text_eq_iff s t), λ h. ground (arith, text_eq_iff s t))

module _ (test : PolicyEntry → Bool) (P : PolicyEntry → Type 0)
    (decides : (p : PolicyEntry) → (test p ≡ true) ↔ P p) where
  fails : (p : PolicyEntry) → test p ≡ false → ¬ P p
  fails p h k = let t = (decides p).1 k in cc

  find-IsFirst : (xs : List PolicyEntry) (p : PolicyEntry) → find test xs ≡ some p → IsFirst P xs p
  unfolding find
  find-IsFirst [] p h = cc
  find-IsFirst (x ∷ xs) p h = elim (Bool-cases (test x)) [
    | inl t ↦ record {
      before = [];
      after = xs;
      splits = ground arith;
      holds = let e : x ≡ p = ground arith in rw (← e) ((decides x).0 t);
      none_before = tt;
    }
    | inr f ↦
        let r = find-IsFirst xs p (rw f at h) in
        record {
          before = x ∷ r.before;
          after = r.after;
          splits = ground (arith, r.splits);
          holds = r.holds;
          none_before = (fails x f, r.none_before);
        }
  ]

  find-none : (xs : List PolicyEntry) → find test xs ≡ none → All (λ q. ¬ P q) xs
  unfolding find
  find-none [] h = tt
  find-none (x ∷ xs) h = elim (Bool-cases (test x)) [
    | inl t ↦ absurd (ground arith)
    | inr f ↦ (fails x f, find-none xs (rw f at h))
  ]

module _ (policies : List PolicyEntry) (who : UserIdentity) where
  by_uuid_iff : (p : PolicyEntry) → (by_uuid who p ≡ true) ↔ HasUuid who p
  by_uuid_iff p = is_text_iff p.uuid who.uuid

  by_username_iff : (p : PolicyEntry) → (by_username who p ≡ true) ↔ HasUsername who p
  by_username_iff p = is_text_iff p.username who.username

  matched_entry-Governs : Governs policies who (matched_entry policies who)
  unfolding matched_entry
  matched_entry-Governs = elim (Option-cases (find (by_uuid who) policies)) [
    | inr r ↦ rw (r.1, matched_entry) (uuid_match (find-IsFirst _ _ by_uuid_iff policies r.0 r.1))
    | inl no_uuid ↦ elim (Option-cases (find (by_username who) policies)) [
      | inr r ↦
          rw (no_uuid, matched_entry, r.1)
            (username_match (find-none _ _ by_uuid_iff policies no_uuid)
              (find-IsFirst _ _ by_username_iff policies r.0 r.1))
      | inl no_name ↦
          rw (no_uuid, matched_entry, no_name)
            (unmatched (find-none _ _ by_uuid_iff policies no_uuid)
              (find-none _ _ by_username_iff policies no_name))
    ]
  ]

-- The policy that `entry` (or no entry) gives, over the configured defaults.
pub record Applies (entry : Option PolicyEntry) (default_limit : ResolutionLimit)
    (hidden : List Text) (r : ResolutionPolicy) : Type 0 where
  pub limit : r.limit ≡ map_or entry default_limit (λ p. p.max_resolution)
  pub bitrate : r.max_bitrate ≡ and_then entry (λ p. p.max_bitrate)
  pub hidden_only :
      (title : Text)
      → Memᴰ title r.hidden_collections
      → Memᴰ title hidden × ¬ Memᴰ title (map_or entry [] (λ p. p.visible_collections))
  pub hidden_all :
      (title : Text)
      → Memᴰ title hidden
      → ¬ Memᴰ title (map_or entry [] (λ p. p.visible_collections))
      → Memᴰ title r.hidden_collections

listed-mem : (titles : List Text) (title : Text) → Memᴰ title titles → listed titles title ≡ true
listed-mem titles title m = any-mem _ m ((text_eq_iff title title).1 refl)

mem-listed : (titles : List Text) (title : Text) → listed titles title ≡ true → Memᴰ title titles
mem-listed titles title h =
    let r = any-true _ titles h in
    let e : r.0 ≡ title = (text_eq_iff r.0 title).0 r.2 in rw e at r.1

-- The policy of an account is that of the first entry with its uuid, else of the first with its
-- user name, else the default; of the hidden collections it sees just those its entry lists.
pub resolve_policy-Applies :
    (policies : List PolicyEntry) (default_limit : ResolutionLimit) (hidden : List Text)
    (who : UserIdentity)
    → (entry : Option PolicyEntry) × Governs policies who entry
      × Applies entry default_limit hidden (resolve_policy policies default_limit hidden who)
unfolding resolve_policy
resolve_policy-Applies policies default_limit hidden who = (
  matched_entry policies who,
  matched_entry-Governs policies who,
  record {
    limit = refl;
    bitrate = refl;
    hidden_only = λ title m. (
      mem_of_mem-filter _ hidden m,
      λ v. let t = test_of_mem-filter _ hidden m in ground (arith, listed-mem _ title v, t),
    );
    hidden_all = λ title m v. mem-filter _ m (not_listed title v);
  },
)
  where
    visible : List Text
    visible = map_or (matched_entry policies who) [] (λ p. p.visible_collections)

    not_listed : (title : Text) → ¬ Memᴰ title visible → not (listed visible title) ≡ true
    not_listed title v = elim (Bool-cases (listed visible title)) [
      | inl h ↦ absurd (v (mem-listed visible title h))
      | inr h ↦ rw h
    ]
