-- ===== src/Disk/Files/Accounting.antt =====
-- The tracked size is that of the entries in the directory.
use Prim.Native.Nat.{min}
use replex.Prelude.{
  ℕ, ◌+◌, ◌-◌, ◌<◌, ◌^◌, ◌≡◌, refl, sym, ap, ◌∙◌, ◌≢◌, inl, inr, true, false, none, List, [], ◌∷◌,
  arith, length, map_or, filter, find, if◌then◌else◌, Bool-cases, Option-cases,
}
use replex.Prelude.Text.{Text, text_eq, text_eq_iff}
use replex.Disk.Files.{
  File, Directory, Io, remove_file, read, write_file, try_remove, is_temp_file, temp_path,
  commit_record, u64_max, saturating_add,
}
use replex.Disk.Files.Lookup.{
  read-remove_self, read-remove_ne, read-remove_file, is_temp_file-temp_path,
}

-- What a name counts.
abbrev counted : Text → ℕ → ℕ
counted name n = if is_temp_file name then 0 else n

unfoldable pub total : List File → ℕ
total [] = 0
total (f ∷ fs) = counted f.name (length f.contents) + total fs

-- No two files have one name.
abbrev pub Unique : List File → Type 0
Unique [] = Unit
Unique (f ∷ fs) = (read f.name fs ≡ none) × Unique fs

abbrev read_length : Text → List File → ℕ
read_length p fs = map_or (read p fs) 0 length

remove_absent : (p : Text) (fs : List File) → read p fs ≡ none → remove_file p fs ≡ fs
unfolding read remove_file find filter
remove_absent p [] h = refl
remove_absent p (f ∷ fs) h = elim (Bool-cases (text_eq f.name p)) [
  | inl here ↦ absurd (ground (arith, here))
  | inr there ↦ rw there (ap (λ gs. f ∷ gs) (remove_absent p fs (ground (arith, there))))
]

absent-remove : (p r : Text) (fs : List File) → read r fs ≡ none → read r (remove_file p fs) ≡ none
absent-remove p r fs h = elim (Option-cases (read r (remove_file p fs))) [
  | inl missing ↦ missing
  | inr (c, there) ↦ let before = read-remove_file p r fs c there in absurd (cc)
]

Unique-remove : (p : Text) (fs : List File) → Unique fs → Unique (remove_file p fs)
unfolding remove_file filter
Unique-remove p [] u = tt
Unique-remove p (f ∷ fs) u = elim (Bool-cases (text_eq f.name p)) [
  | inl here ↦ rw here (Unique-remove p fs u.1)
  | inr there ↦ rw there (absent-remove p f.name fs u.0, Unique-remove p fs u.1)
]

Unique-write : (f : File) (fs : List File) → Unique fs → Unique (write_file f fs)
unfolding write_file
Unique-write f fs u = (read-remove_self f.name fs, Unique-remove f.name fs u)

total-remove :
    (p : Text) (fs : List File)
    → Unique fs
    → total (remove_file p fs) + counted p (read_length p fs) ≡ total fs
unfolding total remove_file filter read find
total-remove p [] u = elim (Bool-cases (is_temp_file p)) [
  | inl temp ↦ rw temp refl
  | inr entry ↦ rw entry refl
]
total-remove p (f ∷ fs) u = elim (Bool-cases (text_eq f.name p)) [
  | inl here ↦
      let e : f.name ≡ p = (text_eq_iff f.name p).0 here in
      let gone : read p fs ≡ none = ap (λ n. read n fs) (sym e) ∙ u.0 in
      let k : total (remove_file p fs) ≡ total fs = ap total (remove_absent p fs gone) in
      let c : counted f.name (length f.contents) ≡ counted p (length f.contents) =
        ap (λ n. counted n (length f.contents)) e in
      rw here (omega (arith, k, c))
  | inr there ↦ let rest = total-remove p fs u.1 in rw there (omega (arith, rest))
]

total-remove_temp :
    (p : Text) (fs : List File)
    → Unique fs
    → is_temp_file p ≡ true
    → total (remove_file p fs) ≡ total fs
total-remove_temp p fs u temp =
    let r = total-remove p fs u in
    let z : counted p (read_length p fs) ≡ 0 = rw temp refl in omega (arith, r, z)

total-remove_entry :
    (p : Text) (fs : List File)
    → Unique fs
    → is_temp_file p ≡ false
    → total (remove_file p fs) + read_length p fs ≡ total fs
total-remove_entry p fs u entry =
    let r = total-remove p fs u in
    let z : counted p (read_length p fs) ≡ read_length p fs = rw entry refl in omega (arith, r, z)

total-write_temp :
    (f : File) (fs : List File)
    → Unique fs
    → is_temp_file f.name ≡ true
    → total (write_file f fs) ≡ total fs
unfolding write_file total
total-write_temp f fs u temp =
    let r = total-remove_temp f.name fs u temp in rw temp (omega (arith, r))

-- The tracked size is the sum of the lengths of the files that are not temporary, and no two files
-- have one name.
abbrev pub IsExact : Directory → Type 0
IsExact d = Unique d.files × (d.current_size ≡ total d.files)

abbrev Exact : List File → ℕ → Type 0
Exact fs n = Unique fs × (n ≡ total fs)

write_temp-Exact :
    (f : File) (fs : List File) (n : ℕ)
    → is_temp_file f.name ≡ true
    → Exact fs n
    → Exact (write_file f fs) n
write_temp-Exact f fs n temp x = (Unique-write f fs x.0, x.1 ∙ sym (total-write_temp f fs x.0 temp))

remove_temp-Exact :
    (p : Text) (fs : List File) (n : ℕ)
    → is_temp_file p ≡ true
    → Exact fs n
    → Exact (remove_file p fs) n
remove_temp-Exact p fs n temp x =
    (Unique-remove p fs x.0, x.1 ∙ sym (total-remove_temp p fs x.0 temp))

try_remove-Exact :
    (io : Io) (p : Text) (fs : List File) (n : ℕ)
    → is_temp_file p ≡ true
    → Exact fs n
    → Exact (try_remove io p fs) n
try_remove-Exact io p fs n temp x = elim (Bool-cases (io.unlink_ok p)) [
  | inl fine ↦ rw fine (remove_temp-Exact p fs n temp x)
  | inr fails ↦ rw fails x
]

-- The replacement of an entry.
replaced-Exact :
    (f : File) (fs : List File) (n : ℕ)
    → is_temp_file f.name ≡ false
    → Exact fs n
    → total (write_file f fs) < 2 ^ 64
    → Exact
        (write_file f fs)
        (saturating_add (n - read_length f.name fs) (min u64_max (length f.contents)))
unfolding write_file total
replaced-Exact f fs n entry x fits =
    let r = total-remove_entry f.name fs x.0 entry in
    let w : counted f.name (length f.contents) ≡ length f.contents = rw entry refl in
    (unfold write_file in Unique-write f fs x.0, omega (arith, r, w, x.1, fits))

-- Writing an entry, whether it succeeds or fails at any step, keeps the tracked size the sum of the
-- lengths of the files that are not temporary and the names of the files distinct, as long as the
-- entries that are left have fewer than 2 ^ 64 bytes.
pub commit_record-IsExact :
    (io : Io) (path : Text) (encoded : List ℕ) (d : Directory)
    → is_temp_file path ≡ false
    → IsExact d
    → total (commit_record io path encoded d).0.files < 2 ^ 64
    → IsExact (commit_record io path encoded d).0
unfolding commit_record
commit_record-IsExact io path encoded d entry exact fits =
    let tmp = temp_path path io.process_id d.write_counter in
    let temp = is_temp_file-temp_path path io.process_id d.write_counter in
    let file : List ℕ → File = λ bytes. record { name = tmp; contents = bytes; mtime = io.now } in
    let written = write_file (file encoded) d.files in
    let final : File = record { name = path; contents = encoded; mtime = io.now } in
    let wrote_exact = write_temp-Exact (file encoded) d.files d.current_size temp exact in
    elim (Bool-cases io.write_ok) [
      | inr fails ↦ elim (Option-cases io.left_behind) [
        | inl nothing ↦
            rw (fails, nothing) (try_remove-Exact io tmp d.files d.current_size temp exact)
        | inr (bytes, some_bytes) ↦
            rw (fails, some_bytes)
              (try_remove-Exact io tmp (write_file (file bytes) d.files) d.current_size temp
                (write_temp-Exact (file bytes) d.files d.current_size temp exact))
      ]
      | inl wrote ↦ elim (Bool-cases io.rename_ok) [
        | inr fails ↦
            rw (wrote, fails) (try_remove-Exact io tmp written d.current_size temp wrote_exact)
        | inl renamed ↦
            let rest = remove_file tmp written in
            let ne : tmp ≢ path = λ e. let k = ap is_temp_file e in cc in
            let same : read_length path rest ≡ read_length path written =
              ap (λ o. map_or o 0 length) (read-remove_ne tmp path written ne) in
            let small : total (write_file final rest) < 2 ^ 64 = rw (wrote, renamed) at fits in
            let done =
              replaced-Exact final rest d.current_size entry
                (remove_temp-Exact tmp written d.current_size temp wrote_exact) small in
            rw (wrote, renamed) (rw same at done)
      ]
    ]
