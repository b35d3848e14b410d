-- ===== src/Disk/Files/Lookup.antt =====
-- What is read after each operation on the directory.
use replex.Prelude.{
  ℕ, ◌≡◌, refl, sym, ap, ◌∙◌, ◌≢◌, inl, inr, Bool, true, false, not, none, some, List, [], ◌∷◌,
  ◌++◌, arith, filter, find, Bool-cases,
}
use replex.Prelude.Text.{
  Text, codes, text_eq, text_eq_iff, text_eq_refl, contains, starts_with, starts_with_append,
}
use replex.Prelude.Text.Decimal.{show}
use replex.Disk.Files.{File, named, remove_file, read, write_file, is_temp_file, temp_path}

text_eq_ne : (a b : Text) → a ≢ b → text_eq a b ≡ false
text_eq_ne a b ne = elim (Bool-cases (text_eq a b)) [
  | inl same ↦ absurd (ne ((text_eq_iff a b).0 same))
  | inr other ↦ other
]

-- Files that a test drops are not read.
read-filter_kept :
    (keep : File → Bool) (p : Text) (fs : List File)
    → ((f : File) → f.name ≡ p → keep f ≡ true)
    → read p (filter keep fs) ≡ read p fs
unfolding read filter find
read-filter_kept keep p [] all = refl
read-filter_kept keep p (f ∷ fs) all = elim (Bool-cases (text_eq f.name p)) [
  | inl here ↦ ground (arith, all f ((text_eq_iff f.name p).0 here), here)
  | inr there ↦ ground (arith, read-filter_kept keep p fs all, there)
]

pub read-remove_self : (p : Text) (fs : List File) → read p (remove_file p fs) ≡ none
unfolding read remove_file filter find
read-remove_self p [] = refl
read-remove_self p (f ∷ fs) = ground (arith, read-remove_self p fs)

pub read-remove_ne : (p r : Text) (fs : List File) → p ≢ r → read r (remove_file p fs) ≡ read r fs
unfolding remove_file
read-remove_ne p r fs ne =
    read-filter_kept (λ f. not (named p f)) r fs
      (λ f e. rw (text_eq_ne f.name p (λ g. ne (sym g ∙ e))) refl)

pub read-write_self : (f : File) (fs : List File) → read f.name (write_file f fs) ≡ some f.contents
unfolding read write_file find
read-write_self f fs = rw (text_eq_refl f.name) refl

pub read-write_ne :
    (f : File) (r : Text) (fs : List File) → f.name ≢ r → read r (write_file f fs) ≡ read r fs
unfolding read write_file find
read-write_ne f r fs ne = rw (text_eq_ne f.name r ne) (read-remove_ne f.name r fs ne)

read-filter_dropped :
    (keep : Text → Bool) (p : Text) (fs : List File)
    → keep p ≡ false
    → read p (filter (λ f. keep f.name) fs) ≡ none
unfolding read filter find
read-filter_dropped keep p [] dropped = refl
read-filter_dropped keep p (f ∷ fs) dropped = elim (Bool-cases (keep f.name)) [
  | inr gone ↦ rw gone (read-filter_dropped keep p fs dropped)
  | inl kept ↦
      let other : text_eq f.name p ≡ false = text_eq_ne f.name p (λ e. ground (arith, ap keep e)) in
      rw (kept, other) (read-filter_dropped keep p fs dropped)
]

-- Dropping files by their names uncovers nothing.
pub read-filter_names :
    (keep : Text → Bool) (p : Text) (fs : List File) (c : List ℕ)
    → read p (filter (λ f. keep f.name) fs) ≡ some c
    → read p fs ≡ some c
read-filter_names keep p fs c h = elim (Bool-cases (keep p)) [
  | inl kept ↦ sym (read-filter_kept (λ f. keep f.name) p fs (λ f e. rw e kept)) ∙ h
  | inr dropped ↦ let gone = read-filter_dropped keep p fs dropped in cc
]

pub read-remove_file :
    (p r : Text) (fs : List File) (c : List ℕ)
    → read r (remove_file p fs) ≡ some c
    → read r fs ≡ some c
unfolding remove_file
read-remove_file p r fs c h = read-filter_names (λ n. not (text_eq n p)) r fs c h

-- Touching a file changes nothing that is read.
pub read-write_same :
    (f : File) (fs : List File) (p : Text) (c : List ℕ)
    → read f.name fs ≡ some f.contents
    → read p (write_file f fs) ≡ some c
    → read p fs ≡ some c
read-write_same f fs p c there h = elim (Bool-cases (text_eq f.name p)) [
  | inl same ↦
      let e = (text_eq_iff f.name p).0 same in
      let new = ap (λ n. read n (write_file f fs)) e in
      let old = ap (λ n. read n fs) e in sym old ∙ there ∙ sym (read-write_self f fs) ∙ new ∙ h
  | inr other ↦
      sym (read-write_ne f p fs (λ e. let k = text_eq_iff f.name p in ground (arith, k.1 e))) ∙ h
]

contains-starts_with : (t s : Text) → starts_with t s ≡ true → contains t s ≡ true
unfolding contains
contains-starts_with t [] h = h
contains-starts_with t (c ∷ s) h = rw h refl

contains-append : (t a b : Text) → contains t (a ++ (t ++ b)) ≡ true
unfolding contains
contains-append t [] b = contains-starts_with t (t ++ b) (starts_with_append t b)
contains-append t (c ∷ a) b = ground (arith, contains-append t a b)

-- A temporary name is one.
pub is_temp_file-temp_path :
    (path : Text) (process_id counter : ℕ) → is_temp_file (temp_path path process_id counter) ≡ true
unfolding is_temp_file temp_path
is_temp_file-temp_path path process_id counter =
    rw (contains-append (codes ".tmp.") path (show process_id ++ (codes "." ++ show counter)))
      (ground arith)
