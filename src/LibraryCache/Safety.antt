-- ===== src/LibraryCache/Safety.antt =====
-- A payload from the disk is stripped under the policy of the account that asks for it now.
use replex.Prelude.{
  ℕ, ◌≡◌, refl, ap, inl, inr, Bool, true, false, Option, none, some, List, All, arith, Bool-cases,
}
use replex.Prelude.Int.{ℤ}
use replex.Prelude.Text.{Text}
use replex.Cache.{Cache}
use replex.Parts.{PartMediaClassification}
use replex.Policy.Entries.{ResolutionPolicy, UserIdentity, is_unrestricted}
use replex.Security.{current_policy}
use replex.Metadata.{MetaData}
use replex.Disk.{CacheRecord}
use replex.Disk.Files.{is_temp_file, get_full}
use replex.Disk.Files.Dropping.{Records, Reachable, get_full-Reachable}
use replex.Transform.{MediaContainer, Slot, with_items}
use replex.Transform.Policy.{apply_policy_transforms}
use replex.Transform.Policy.Safety.{bare, everything, Visible, apply_policy_transforms-Visible}
use replex.CacheKeys.{Urls}
use replex.LibraryCache.{
  LibraryRequest, served, Shared, is_section, library_key, missed, after_policy, on_disk,
  library_cache_lookup,
}

module _ (urls : Urls) (fingerprint path_for_key : Text → Text)
    (injective : (a b : Text) → path_for_key a ≡ path_for_key b → a ≡ b)
    (entry : (key : Text) → is_temp_file (path_for_key key) ≡ false)
    (cache : Cache ℤ PartMediaClassification) where
  abbrev State : Type 0
  State = Shared urls fingerprint path_for_key cache

  -- A body that reads as a response with its items in one list.
  abbrev pub ReadsAsOne : LibraryRequest → List ℕ → Type 0
  ReadsAsOne req body =
      (k : Slot) × (n : Option ℤ) × (xs : List MetaData) × (req.parse body
        ≡ some (with_items k xs (bare n)))

  module _ (req : LibraryRequest) (policy : ResolutionPolicy) (who : UserIdentity)
      (known : current_policy req.situation.runtime req.situation.client req.situation.account
        ≡ some (policy, who))
      (restricted : is_unrestricted policy ≡ false) where
    after_policy-served :
        (o : Option (MediaContainer × cache.Store)) (s : State) (c : MediaContainer)
        → (after_policy urls fingerprint path_for_key cache req o s).0 ≡ served c
        → (parts : cache.Store) × (o ≡ some (c, parts))
    unfolding after_policy missed
    after_policy-served none s c h = cc
    after_policy-served (some r) s c h =
        let e : r.0 ≡ c = ground arith in (r.1, ap (λ x. some (x, r.1)) e)

    applied-Visible :
        (parsed : Option MediaContainer) (has_client : Bool) (parts after : cache.Store)
        (c : MediaContainer) (k : Slot) (n : Option ℤ) (xs : List MetaData)
        → parsed ≡ some (with_items k xs (bare n))
        → apply_policy_transforms cache req.situation parsed has_client parts ≡ some (c, after)
        → All (Visible policy) (everything c)
    unfolding apply_policy_transforms
    applied-Visible parsed true parts after c k n xs reads sent =
        apply_policy_transforms-Visible cache req.situation policy who k n xs parts (c, after) known
          restricted (rw reads at sent)
    applied-Visible parsed false parts after c k n xs reads sent =
        let never : ◌≡◌ {A = Option (MediaContainer × cache.Store)} none (some (c, after)) =
          rw reads at sent in
        cc

    on_disk-Visible :
        (s : State) (o : Option CacheRecord) (c : MediaContainer)
        → ((r : CacheRecord) → o ≡ some r → ReadsAsOne req r.body)
        → (on_disk urls fingerprint path_for_key cache req s o).0 ≡ served c
        → All (Visible policy) (everything c)
    unfolding on_disk missed
    on_disk-Visible s none c reads h = cc
    on_disk-Visible s (some r) c reads h =
        let one = reads r refl in
        let sent = after_policy-served _ _ c h in
        applied-Visible (req.parse r.body) req.has_client s.parts sent.0 c one.0 one.1 one.2 one.3
          sent.1

    -- For an account with a policy that restricts resolutions, and a directory that puts, reads,
    -- removals, restarts and clearings led to (on names that differ by key and are not temporary),
    -- where the record that was last put under the request's key, if there is one, reads as a
    -- response with its items in one list: what the lookup serves from the disk has, in any list and
    -- at any depth, no version that the policy prohibits now, and among its items no collection that
    -- is hidden from the account now, whatever policy held when the record was put.
    pub library_cache_lookup-Visible :
        (stored : Records) (s : State) (c : MediaContainer)
        → Reachable path_for_key injective entry stored s.directory
        → ((r : CacheRecord)
            → stored (library_key urls fingerprint path_for_key cache req) ≡ some r
            → ReadsAsOne req r.body)
        → (library_cache_lookup urls fingerprint path_for_key cache req s).0 ≡ served c
        → All (Visible policy) (everything c)
    unfolding library_cache_lookup
    library_cache_lookup-Visible stored s c reached reads h =
        let key = library_key urls fingerprint path_for_key cache req in
        let got = get_full path_for_key req.io key s.directory in
        elim (Bool-cases (is_section urls fingerprint path_for_key cache req)) [
          | inr other ↦ absurd (ground (arith, other))
          | inl section ↦
              on_disk-Visible (record s { directory = got.1 }) got.0 c
                (λ r e. reads r (
                  get_full-Reachable path_for_key injective entry stored s.directory req.io key r
                    reached e))
                (ground (arith, section))
        ]
