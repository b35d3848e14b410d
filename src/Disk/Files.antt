-- ===== src/Disk/Files.antt =====
-- disk_cache.rs: the directory of the cache and the tracked size. The file system is not part of the
-- repository: `Io` says which of its operations succeed, and what it leaves where a write fails. A
-- file is known by its name, which for an entry is the digest of its key.
pub mod Lookup
pub mod Refine
pub mod Dropping
pub mod Capacity
pub mod Accounting
use replex.Prelude.{
  ℕ, ◌+◌, ◌-◌, ◌*◌, ◌%◌, ◌/◌, ◌^◌, ◌||◌, ◌&&◌, Bool, true, false, not, Option, none, some, List, [],
  ◌∷◌, ◌++◌, ltb, leb, filter, find, map_or, length, if◌then◌else◌,
}
use Prim.Native.Nat.{min}
use replex.Prelude.Text.{Text, codes, text_eq, ends_with, contains}
use replex.Prelude.Text.Decimal.{show}
use replex.Disk.{CacheRecord, encode_record, decode_record}

pub record File : Type 0 where
  pub name : Text
  pub contents : List ℕ
  pub mtime : ℕ

-- The directory, `CURRENT_SIZE` and `WRITE_COUNTER`.
pub record Directory : Type 0 where
  pub files : List File
  pub current_size : ℕ
  pub write_counter : ℕ

pub record Io : Type 0 where
  pub create_ok : Bool
  pub write_ok : Bool
  pub rename_ok : Bool
  pub unlink_ok : Text → Bool
  pub left_behind : Option (List ℕ)
  pub now : ℕ
  pub process_id : ℕ

abbrev pub u64_max : ℕ
u64_max = 2 ^ 64 - 1

abbrev pub saturating_add : ℕ → ℕ → ℕ
saturating_add a b = min u64_max (a + b)

-- The file system's operations on the directory.
abbrev pub named : Text → File → Bool
named p f = text_eq f.name p

unfoldable pub remove_file : Text → List File → List File
unfolding filter
remove_file p fs = filter (λ f. not (named p f)) fs

unfoldable pub read : Text → List File → Option (List ℕ)
unfolding find
read p fs = map_or (find (named p) fs) none (λ f. some f.contents)

unfoldable pub write_file : File → List File → List File
unfolding remove_file
write_file f fs = f ∷ remove_file f.name fs

abbrev pub try_remove : Io → Text → List File → List File
try_remove io p fs = if io.unlink_ok p then remove_file p fs else fs

-- The names.
unfoldable pub is_temp_file : Text → Bool
unfolding ends_with contains
is_temp_file name = ends_with (codes ".tmp") name || contains (codes ".tmp.") name

unfoldable pub temp_path : Text → ℕ → ℕ → Text
temp_path path process_id counter =
    path ++ (codes ".tmp." ++ (show process_id ++ (codes "." ++ show counter)))

-- A record goes to a temporary file that replaces the entry; whether that succeeded comes with it.
unfoldable pub commit_record : Io → Text → List ℕ → Directory → Directory × Bool
unfolding write_file remove_file read temp_path
commit_record io path encoded d =
    let tmp = temp_path path io.process_id d.write_counter in
    let counted = record d { write_counter = (d.write_counter + 1) % 2 ^ 64 } in
    let temp : List ℕ → File = λ bytes. record { name = tmp; contents = bytes; mtime = io.now } in
    let partial = map_or io.left_behind d.files (λ bytes. write_file (temp bytes) d.files) in
    let written = write_file (temp encoded) d.files in
    let old_len = map_or (read path written) 0 length in
    if not io.write_ok
    then (record counted { files = try_remove io tmp partial }, false)
    else if not io.rename_ok
    then (record counted { files = try_remove io tmp written }, false)
    else (
      record counted {
        files =
            write_file (record { name = path; contents = encoded; mtime = io.now })
              (remove_file tmp written);
        current_size = saturating_add (d.current_size - old_len) (min u64_max (length encoded));
      },
      true,
    )

unfoldable pub remove : Io → Text → Directory → Directory
unfolding read remove_file
remove io path d = map_or (read path d.files) d (λ bytes.
    if io.unlink_ok path
    then record d { files = remove_file path d.files; current_size = d.current_size - length bytes }
    else d)

-- `clean_threshold`
unfoldable pub clean_threshold : ℕ → ℕ
clean_threshold max = min u64_max (max * 85) / 100

unfoldable pub cached : List File → List File
unfolding filter is_temp_file
cached fs = filter (λ f. not (is_temp_file f.name)) fs

-- The sums of the two scans of the directory.
unfoldable pub total_wrapping : List File → ℕ
total_wrapping [] = 0
total_wrapping (f ∷ fs) = (length f.contents + total_wrapping fs) % 2 ^ 64

unfoldable pub total_saturating : List File → ℕ
total_saturating [] = 0
total_saturating (f ∷ fs) = saturating_add (length f.contents) (total_saturating fs)

-- `sort_by_key`: stable, the oldest first.
unfoldable pub insert_by_age : File → List File → List File
insert_by_age f [] = f ∷ []
insert_by_age f (g ∷ gs) =
    let rest = insert_by_age f gs in if ltb g.mtime f.mtime then g ∷ rest else f ∷ g ∷ gs

unfoldable pub sort_by_age : List File → List File
unfolding insert_by_age
sort_by_age [] = []
sort_by_age (f ∷ fs) = insert_by_age f (sort_by_age fs)

-- One turn of the loop that makes room.
abbrev pub without : Io → File → Directory → Directory
without io f d =
    if io.unlink_ok f.name
    then record d {
      files = remove_file f.name d.files;
      current_size = d.current_size - length f.contents;
    }
    else d

unfoldable pub evict : Io → ℕ → List File → Directory → Directory
unfolding remove_file
evict io target [] d = d
evict io target (f ∷ fs) d =
    let rest = evict io target fs (without io f d) in if ltb d.current_size target then d else rest

unfoldable pub ensure_capacity : Io → ℕ → Directory → Directory
unfolding clean_threshold cached total_wrapping sort_by_age evict
ensure_capacity io max d =
    let files = cached d.files in
    let scanned = record d { current_size = total_wrapping files } in
    if ltb d.current_size max
    then d
    else if ltb scanned.current_size (clean_threshold max)
    then scanned
    else evict io (clean_threshold max) (sort_by_age files) scanned

unfoldable pub init : Io → Directory → Directory
unfolding cached total_saturating
init io d = record d {
  files = filter (λ f. not (is_temp_file f.name && io.unlink_ok f.name)) d.files;
  current_size = total_saturating (cached d.files);
}

-- With the number of files that went.
unfoldable pub clear_all : Io → Directory → Directory × ℕ
unfolding filter
clear_all io d = (
  record d { files = filter (λ f. not (io.unlink_ok f.name)) d.files; current_size = 0 },
  length (filter (λ f. io.unlink_ok f.name) d.files),
)

module _ (path_for_key : Text → Text) where
  -- A record that does not decode is removed; another one is the newest from now on.
  unfoldable pub get_full : Io → Text → Directory → Option CacheRecord × Directory
  unfolding read decode_record write_file remove
  get_full io key d = elim (read (path_for_key key) d.files) [
    | none ↦ (none, d)
    | some stored ↦ elim (decode_record stored) [
      | none ↦ (none, remove io (path_for_key key) d)
      | some r ↦ (
        some r,
        record d {
          files =
              write_file (record { name = path_for_key key; contents = stored; mtime = io.now })
                d.files;
        },
      )
    ]
  ]

  unfoldable pub put_full : Io → ℕ → Text → List ℕ → Option (List ℕ) → Directory → Directory × Bool
  unfolding encode_record commit_record ensure_capacity
  put_full io max key body content_type d =
      if not io.create_ok then (d, false) else (elim (encode_record content_type body) [
        | none ↦ (d, false)
        | some encoded ↦
            let r = commit_record io (path_for_key key) encoded d in
            if r.1 then (ensure_capacity io max r.0, true) else (r.0, false)
      ])
