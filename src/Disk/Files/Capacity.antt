-- ===== src/Disk/Files/Capacity.antt =====
-- Making room ends below the limit, or with no entry left.
use replex.Prelude.{
  ℕ, ◌<◌, ◌≤◌, ◌≡◌, refl, sym, ap, ◌∙◌, ◌⊎◌, inl, inr, Bool, true, false, not, none, some, List, [],
  ◌∷◌, Memᴰ, arith, find, ltb, Bool-cases, Option-cases, find-some, find-mem, mem-filter,
}
use replex.Prelude.Text.{Text, text_eq_iff}
use replex.Disk.Files.{
  File, Directory, Io, named, remove_file, read, is_temp_file, cached, total_wrapping,
  clean_threshold, insert_by_age, sort_by_age, evict, ensure_capacity,
}
use replex.Disk.Files.Lookup.{read-remove_self, read-remove_file}

mem-insert_by_age : (f g : File) (fs : List File) → Memᴰ g (f ∷ fs) → Memᴰ g (insert_by_age f fs)
unfolding insert_by_age
mem-insert_by_age f g [] m = m
mem-insert_by_age f g (h ∷ fs) m =
    let first = λ (e : g ≡ f). mem-insert_by_age f g fs (Memᴰ.head e) in
    let rest = λ (n : Memᴰ g fs). mem-insert_by_age f g fs (Memᴰ.tail n) in
    elim (Bool-cases (ltb h.mtime f.mtime)) [
      | inr here ↦ rw here m
      | inl later ↦ rw later (behind first rest m)
    ]
  where
    behind :
        (g ≡ f → Memᴰ g (insert_by_age f fs))
        → (Memᴰ g fs → Memᴰ g (insert_by_age f fs))
        → Memᴰ g (f ∷ h ∷ fs)
        → Memᴰ g (h ∷ insert_by_age f fs)
    behind first rest (Memᴰ.head e) = Memᴰ.tail (first e)
    behind first rest (Memᴰ.tail (Memᴰ.head e)) = Memᴰ.head e
    behind first rest (Memᴰ.tail (Memᴰ.tail n)) = Memᴰ.tail (rest n)

mem-sort_by_age : (g : File) (fs : List File) → Memᴰ g fs → Memᴰ g (sort_by_age fs)
unfolding sort_by_age
mem-sort_by_age g [] m = elim m [ ]
mem-sort_by_age g (f ∷ fs) (Memᴰ.head e) = mem-insert_by_age f g (sort_by_age fs) (Memᴰ.head e)
mem-sort_by_age g (f ∷ fs) (Memᴰ.tail m) =
    mem-insert_by_age f g (sort_by_age fs) (Memᴰ.tail (mem-sort_by_age g fs m))

-- The files that can be read are among those of a list.
abbrev Covers : List File → (Text → Bool) → List File → Type 0
Covers fs entry files =
    (p : Text) (c : List ℕ)
    → entry p ≡ true
    → read p files ≡ some c
    → (f : File) × Memᴰ f fs × (f.name ≡ p)

cached-Covers :
    (files : List File) → Covers (sort_by_age (cached files)) (λ p. not (is_temp_file p)) files
unfolding cached read
cached-Covers files p c entry there = elim (Option-cases (find (named p) files)) [
  | inl missing ↦ absurd (ground (arith, missing))
  | inr (f, found) ↦
      let e : f.name ≡ p = (text_eq_iff f.name p).0 (find-some (named p) f files found) in
      (
        f,
        mem-sort_by_age f (cached files) (
            mem-filter (λ g. not (is_temp_file g.name)) (find-mem (named p) f files found)
              (rw e entry)),
        e,
      )
]

Covers-tail :
    (f : File) (fs : List File) (entry : Text → Bool) (files : List File)
    → Covers (f ∷ fs) entry files
    → Covers fs entry (remove_file f.name files)
Covers-tail f fs entry files covers p c e there =
    tail (covers p c e (read-remove_file f.name p files c there))
  where
    tail : ((g : File) × Memᴰ g (f ∷ fs) × (g.name ≡ p)) → (g : File) × Memᴰ g fs × (g.name ≡ p)
    tail (g, Memᴰ.tail m, same) = (g, m, same)
    tail (g, Memᴰ.head k, same) =
        let at : f.name ≡ p = ap (λ h. h.name) (sym k) ∙ same in
        let gone = read-remove_self f.name files in
        let moved : read f.name (remove_file f.name files) ≡ read p (remove_file f.name files) =
          ap (λ n. read n (remove_file f.name files)) at in
        cc

abbrev Empty : (Text → Bool) → List File → Type 0
Empty entry files = (p : Text) → entry p ≡ true → read p files ≡ none

evict-Empty :
    (io : Io) (target : ℕ) (entry : Text → Bool) (fs : List File) (d : Directory)
    → ((p : Text) → io.unlink_ok p ≡ true)
    → Covers fs entry d.files
    → ((evict io target fs d).current_size < target) ⊎ Empty entry (evict io target fs d).files
unfolding evict
evict-Empty io target entry [] d unlinks covers = inr (λ p e. elim (Option-cases (read p d.files)) [
  | inl missing ↦ missing
  | inr (c, there) ↦ elim (covers p c e there).1 [ ]
])
evict-Empty io target entry (f ∷ fs) d unlinks covers =
    elim (Bool-cases (ltb d.current_size target)) [
      | inl small ↦ rw small (inl (ground arith))
      | inr large ↦
          rw (large, unlinks f.name)
            (evict-Empty io target entry fs _ unlinks
              (λ p c e there. Covers-tail f fs entry d.files covers p c e there))
    ]

clean_threshold-le : (max : ℕ) → clean_threshold max ≤ max
unfolding clean_threshold
clean_threshold-le max = omega arith

-- Where every removal is allowed, making room ends with a tracked size below the limit, or with no
-- entry left to read.
pub ensure_capacity-Empty :
    (io : Io) (max : ℕ) (d : Directory)
    → ((p : Text) → io.unlink_ok p ≡ true)
    → ((ensure_capacity io max d).current_size < max)
      ⊎ ((p : Text) → is_temp_file p ≡ false → read p (ensure_capacity io max d).files ≡ none)
unfolding ensure_capacity
ensure_capacity-Empty io max d unlinks =
    let files = cached d.files in
    let scanned = record d { current_size = total_wrapping files } in
    elim (Bool-cases (ltb d.current_size max)) [
      | inl small ↦ rw small (inl (ground arith))
      | inr large ↦ elim (Bool-cases (ltb (total_wrapping files) (clean_threshold max))) [
        | inl enough ↦ rw (large, enough) (inl (let le = clean_threshold-le max in ground arith))
        | inr full ↦
            rw (large, full)
              (elim (evict-Empty io (clean_threshold max) (λ p. not (is_temp_file p))
                (sort_by_age files) scanned unlinks (cached-Covers d.files)) [
                  | inl below ↦ inl (let le = clean_threshold-le max in omega (arith, below))
                  | inr gone ↦ inr (λ p still. gone p (rw still refl))
                ])
      ]
    ]
