-- ===== src/Tests/Disk.antt =====
-- The directory of the disk cache.
use replex.Prelude.{
  ◌^◌, ℕ, ◌+◌, ◌<◌, ◌≤◌, ◌≡◌, refl, ◌∙◌, sym, ◌⊎◌, true, false, none, some, List, [], ◌∷◌, All,
  arith, map, find, filter,
}
use mathlib.Core.List.{reverse, reverse_aux}
use replex.Prelude.Text.{Text, codes, text_eq, starts_with, ends_with, contains}
use replex.Prelude.Text.Decimal.{show}
use replex.Disk.{encode_record, decode_record, decode_body, decode_content_type}
use replex.Disk.Bytes.{to_be_bytes, from_be_bytes, is_utf8}
use replex.Disk.Files.{
  Directory, Io, read, write_file, remove_file, is_temp_file, temp_path, commit_record,
  ensure_capacity, get_full, put_full,
}
use replex.Disk.Files.Dropping.{
  Reachable, empty, put_done, put_record, record_of, get_full-Reachable,
}
use replex.Disk.Files.Accounting.{IsExact, total, commit_record-IsExact}
use replex.Disk.Files.Capacity.{ensure_capacity-Empty}

abbrev pub working : Io
working = record {
  create_ok = true;
  write_ok = true;
  rename_ok = true;
  unlink_ok = λ p. true;
  left_behind = none;
  now = 7;
  process_id = 1;
}

abbrev pub new_directory : Directory
new_directory = record { files = []; current_size = 0; write_counter = 0 }

-- Names without letters.
abbrev pub name_of : Text → Text
name_of key = map (λ c. c + 200) key

pub name_of-injective : (a b : Text) → name_of a ≡ name_of b → a ≡ b
name_of-injective [] [] e = refl
name_of-injective [] (c ∷ b) e = cc
name_of-injective (c ∷ a) [] e = cc
name_of-injective (c ∷ a) (d ∷ b) e =
    let rest : name_of a ≡ name_of b = ground arith in
    let first : c ≡ d = ground arith in
    let same = name_of-injective a b rest in ground (arith, first, same)

high-contains : (s : Text) → contains (codes ".tmp.") (name_of s) ≡ false
unfolding contains starts_with
high-contains [] = refl
high-contains (c ∷ s) = ground (arith, high-contains s)

abbrev High : Text → Type 0
High = All (λ c. 200 ≤ c)

High-reverse_aux : (s t : Text) → High s → High t → High (reverse_aux s t)
High-reverse_aux [] t h k = k
High-reverse_aux (c ∷ s) t h k = High-reverse_aux s (c ∷ t) h.1 (h.0, k)

High-name_of : (s : Text) → High (name_of s)
High-name_of [] = tt
High-name_of (c ∷ s) = (omega arith, High-name_of s)

no_letter : (c : ℕ) (p s : Text) → c < 200 → High s → starts_with (c ∷ p) s ≡ false
unfolding starts_with
no_letter c p [] low high = refl
no_letter c p (d ∷ s) low high = ground (arith, high.0)

pub name_of_entry : (key : Text) → is_temp_file (name_of key) ≡ false
unfolding is_temp_file ends_with
name_of_entry key =
    rw
      (
        no_letter b'p' (codes "mt.") (reverse (name_of key)) (omega arith)
            (High-reverse_aux (name_of key) [] (High-name_of key) tt),
        high-contains key,
      )
      refl

abbrev pub body : List ℕ
body = 255 ∷ 216 ∷ []

abbrev pub stored : List ℕ
stored =
    82 ∷ 80 ∷ 67 ∷ 49 ∷ 0 ∷ 3 ∷ 112 ∷ 110 ∷ 103 ∷ 0 ∷ 0 ∷ 0 ∷ 0 ∷ 0 ∷ 0 ∷ 0 ∷ 2 ∷ 255 ∷ 216 ∷ []

abbrev after_put : Directory
after_put = (put_full name_of working 100 (codes "k") body (some (codes "png")) new_directory).0

after_put-Reachable :
    Reachable name_of name_of-injective name_of_entry
      (put_record
        (codes "k")
        (record_of name_of name_of-injective name_of_entry body (some (codes "png")))
        (λ key. none))
      after_put
after_put-Reachable =
    put_done (λ key. none) new_directory working 100 (codes "k") body (some (codes "png"))
      (empty new_directory refl) (unfold is_utf8 in refl)
      (λ encoded e.
        let known : encode_record (some (codes "png")) body ≡ some stored =
          unfold encode_record to_be_bytes in refl in
        let same : some stored ≡ some encoded = sym known ∙ e in ground (arith, same))
      (unfold put_full commit_record encode_record in refl)

get_full-Reachable_example :
    put_record
      (codes "k")
      (record_of name_of name_of-injective name_of_entry body (some (codes "png")))
      (λ key. none)
      (codes "k")
    ≡ some (record { content_type = some (codes "png"); body = body })
get_full-Reachable_example =
    get_full-Reachable name_of name_of-injective name_of_entry
      (put_record (codes "k")
        (record_of name_of name_of-injective name_of_entry body (some (codes "png"))) (λ key. none))
      after_put working (codes "k") (record { content_type = some (codes "png"); body = body })
      after_put-Reachable
      (unfold put_full get_full commit_record ensure_capacity encode_record to_be_bytes write_file
          remove_file read temp_path show find filter text_eq decode_record decode_body
          decode_content_type from_be_bytes is_utf8 in
        refl)

-- Two entries and a limit that they exceed.
abbrev full : Directory
full = record {
  files =
      record { name = codes "a"; contents = 1 ∷ 2 ∷ 3 ∷ []; mtime = 2 }
      ∷ record { name = codes "b"; contents = 4 ∷ 5 ∷ []; mtime = 1 }
      ∷ [];
  current_size = 5;
  write_counter = 0;
}

ensure_capacity-Empty_example :
    ((ensure_capacity working 4 full).current_size < 4)
    ⊎ ((p : Text) → is_temp_file p ≡ false → read p (ensure_capacity working 4 full).files ≡ none)
ensure_capacity-Empty_example = ensure_capacity-Empty working 4 full (λ p. refl)

full-IsExact : IsExact full
full-IsExact = (
  (unfold read find text_eq in refl, (unfold read find in refl, tt)),
  unfold total is_temp_file ends_with contains starts_with in refl,
)

commit_record-IsExact_example : IsExact (commit_record working (codes "k") body full).0
commit_record-IsExact_example =
    commit_record-IsExact working (codes "k") body full
      (unfold is_temp_file ends_with contains starts_with in refl) full-IsExact small
  where
    small : total (commit_record working (codes "k") body full).0.files < 2 ^ 64
    small =
        unfold commit_record write_file remove_file read temp_path show find filter text_eq total
          is_temp_file ends_with contains starts_with in
        omega arith
