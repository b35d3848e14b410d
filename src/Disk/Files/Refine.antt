-- ===== src/Disk/Files/Refine.antt =====
-- What each operation on the directory leaves to read at names that are not temporary.
use replex.Prelude.{
  ℕ, ◌≡◌, sym, ap, ◌∙◌, ◌≢◌, inl, inr, Bool, true, false, some, List, [], ◌∷◌, ltb, if◌then◌else◌,
  Bool-cases, Option-cases,
}
use replex.Prelude.Text.{Text}
use replex.Disk.Files.{
  File, Directory, Io, remove_file, read, write_file, try_remove, is_temp_file, temp_path,
  commit_record, remove, cached, total_wrapping, sort_by_age, clean_threshold, without, evict,
  ensure_capacity,
}
use replex.Disk.Files.Lookup.{
  read-write_self, read-write_ne, read-remove_file, is_temp_file-temp_path,
}

-- Whatever is read at a name that is not temporary was read there before.
abbrev pub Keeps : List File → List File → Type 0
Keeps new old =
    (p : Text) (c : List ℕ) → is_temp_file p ≡ false → read p new ≡ some c → read p old ≡ some c

Keeps-trans : (a b c : List File) → Keeps a b → Keeps b c → Keeps a c
Keeps-trans a b c h k p bytes entry r = k p bytes entry (h p bytes entry r)

remove_file-Keeps : (p : Text) (fs : List File) → Keeps (remove_file p fs) fs
remove_file-Keeps p fs r c entry h = read-remove_file p r fs c h

try_remove-Keeps : (io : Io) (p : Text) (fs : List File) → Keeps (try_remove io p fs) fs
try_remove-Keeps io p fs = elim (Bool-cases (io.unlink_ok p)) [
  | inl fine ↦ rw fine (remove_file-Keeps p fs)
  | inr fails ↦ rw fails (λ r c entry h. h)
]

temp_ne : (f p : Text) → is_temp_file f ≡ true → is_temp_file p ≡ false → f ≢ p
temp_ne f p temp entry e = let k = ap is_temp_file e in cc

pub write_temp-Keeps :
    (f : File) (fs : List File) → is_temp_file f.name ≡ true → Keeps (write_file f fs) fs
write_temp-Keeps f fs temp p c entry h =
    sym (read-write_ne f p fs (temp_ne f.name p temp entry)) ∙ h

pub remove-Keeps : (io : Io) (p : Text) (d : Directory) → Keeps (remove io p d).files d.files
unfolding remove
remove-Keeps io p d = elim (Option-cases (read p d.files)) [
  | inl missing ↦ rw missing (λ r c entry h. h)
  | inr (bytes, there) ↦ elim (Bool-cases (io.unlink_ok p)) [
    | inl fine ↦ rw (there, fine) (remove_file-Keeps p d.files)
    | inr fails ↦ rw (there, fails) (λ r c entry h. h)
  ]
]

without-Keeps : (io : Io) (f : File) (d : Directory) → Keeps (without io f d).files d.files
without-Keeps io f d = elim (Bool-cases (io.unlink_ok f.name)) [
  | inl fine ↦ rw fine (remove_file-Keeps f.name d.files)
  | inr fails ↦ rw fails (λ r c entry h. h)
]

evict-Keeps :
    (io : Io) (target : ℕ) (fs : List File) (d : Directory)
    → Keeps (evict io target fs d).files d.files
unfolding evict
evict-Keeps io target [] d = λ r c entry h. h
evict-Keeps io target (f ∷ fs) d = elim (Bool-cases (ltb d.current_size target)) [
  | inl small ↦ rw small (λ r c entry h. h)
  | inr large ↦ rw large (
      Keeps-trans (evict io target fs (without io f d)).files (without io f d).files d.files
        (evict-Keeps io target fs (without io f d)) (without-Keeps io f d))
]

pub ensure_capacity-Keeps :
    (io : Io) (max : ℕ) (d : Directory) → Keeps (ensure_capacity io max d).files d.files
unfolding ensure_capacity
ensure_capacity-Keeps io max d =
    let scanned = record d { current_size = total_wrapping (cached d.files) } in
    let same : Keeps d.files d.files = λ r c entry h. h in
    elim (Bool-cases (ltb d.current_size max)) [
      | inl small ↦ rw small same
      | inr large ↦
          elim (Bool-cases (ltb (total_wrapping (cached d.files)) (clean_threshold max))) [
            | inl enough ↦ rw (large, enough) same
            | inr full ↦
                rw (large, full)
                  (evict-Keeps io (clean_threshold max) (sort_by_age (cached d.files)) scanned)
          ]
    ]

-- What a commit leaves to read: the new record at its entry, if it succeeds, and nothing new at any
-- other entry.
abbrev pub Commits : Text → List ℕ → Directory → Directory × Bool → Type 0
Commits path encoded d r =
    if r.1
    then (read path r.0.files ≡ some encoded)
      × ((p : Text) (c : List ℕ)
          → path ≢ p
          → is_temp_file p ≡ false
          → read p r.0.files ≡ some c
          → read p d.files ≡ some c)
    else Keeps r.0.files d.files

pub commit_record-Commits :
    (io : Io) (path : Text) (encoded : List ℕ) (d : Directory)
    → is_temp_file path ≡ false
    → Commits path encoded d (commit_record io path encoded d)
unfolding commit_record
commit_record-Commits io path encoded d entry =
    let tmp = temp_path path io.process_id d.write_counter in
    let temp = is_temp_file-temp_path path io.process_id d.write_counter in
    let file : List ℕ → File = λ bytes. record { name = tmp; contents = bytes; mtime = io.now } in
    let written = write_file (file encoded) d.files in
    let writes : Keeps written d.files = write_temp-Keeps (file encoded) d.files temp in
    let final : File = record { name = path; contents = encoded; mtime = io.now } in
    elim (Bool-cases io.write_ok) [
      | inr fails ↦ elim (Option-cases io.left_behind) [
        | inl nothing ↦ rw (fails, nothing) (try_remove-Keeps io tmp d.files)
        | inr (bytes, some_bytes) ↦
            let partial = write_file (file bytes) d.files in
            rw (fails, some_bytes)
              (Keeps-trans (try_remove io tmp partial) partial d.files
                (try_remove-Keeps io tmp partial) (write_temp-Keeps (file bytes) d.files temp))
      ]
      | inl wrote ↦ elim (Bool-cases io.rename_ok) [
        | inr fails ↦
            rw (wrote, fails)
              (Keeps-trans (try_remove io tmp written) written d.files
                (try_remove-Keeps io tmp written) writes)
        | inl renamed ↦
            rw (wrote, renamed)
              (
                read-write_self final (remove_file tmp written),
                (λ p c other still h. writes p c still (
                    remove_file-Keeps tmp written p c still
                      (sym (read-write_ne final p (remove_file tmp written) other) ∙ h))),
              )
      ]
    ]
