-- ===== src/Disk/Files/Dropping.antt =====
-- The directory of the cache stands for a map from keys to the records that were last put, of which
-- it may lose any.
use replex.Prelude.{
  ℕ, ◌<◌, ◌^◌, ◌≡◌, refl, sym, ap, ◌∙◌, inl, inr, Bool, true, false, not, ◌&&◌, Option, none, some,
  List, [], arith, find, unwrap_or, length, if◌then◌else◌, Bool-cases, Option-cases,
}
use replex.Prelude.Text.{Text, text_eq, text_eq_iff, text_eq_refl}
use replex.Disk.{CacheRecord, encode_record, decode_record}
use replex.Disk.Bytes.{is_utf8}
use replex.Disk.RoundTrip.{some_text, decode_record-encode_record}
use replex.Disk.Files.{
  File, Directory, Io, read, is_temp_file, commit_record, remove, ensure_capacity, init, clear_all,
  get_full, put_full,
}
use replex.Disk.Files.Lookup.{read-write_same, read-filter_names}
use replex.Disk.Files.Refine.{Keeps, remove-Keeps, ensure_capacity-Keeps, commit_record-Commits}

-- The record that was last put for each key.
abbrev pub Records : Type 0
Records = Text → Option CacheRecord

abbrev pub put_record : Text → CacheRecord → Records → Records
put_record key r stored k = if text_eq k key then some r else stored k

module _ (path_for_key : Text → Text)
    (injective : (a b : Text) → path_for_key a ≡ path_for_key b → a ≡ b)
    (entry : (key : Text) → is_temp_file (path_for_key key) ≡ false) where
  -- What can be read is what was last put.
  abbrev pub Represents : Records → Directory → Type 0
  Represents stored d =
      (key : Text) (bytes : List ℕ) (r : CacheRecord)
      → read (path_for_key key) d.files ≡ some bytes
      → decode_record bytes ≡ some r
      → stored key ≡ some r

  Represents-Keeps :
      (stored : Records) (new old : Directory)
      → Keeps new.files old.files
      → Represents stored old
      → Represents stored new
  Represents-Keeps stored new old keeps rep key bytes r there reads =
      rep key bytes r (keeps (path_for_key key) bytes (entry key) there) reads

  -- The record that a body and its content type read back as.
  abbrev pub record_of : List ℕ → Option (List ℕ) → CacheRecord
  record_of body content_type = record {
    content_type = some_text (unwrap_or content_type []);
    body = body;
  }

  -- The states that the operations lead to, with what was put.
  pub data Reachable : Records → Directory → Type 0 where
    empty : (d : Directory) → d.files ≡ [] → Reachable (λ key. none) d
    put_done :
        (stored : Records) (d : Directory) (io : Io) (max : ℕ) (key : Text) (body : List ℕ)
        (content_type : Option (List ℕ))
        → Reachable stored d
        → is_utf8 (unwrap_or content_type []) ≡ true
        → ((encoded : List ℕ)
            → encode_record content_type body ≡ some encoded
            → length encoded < 2 ^ 64)
        → (put_full path_for_key io max key body content_type d).1 ≡ true
        → Reachable
            (put_record key (record_of body content_type) stored)
            (put_full path_for_key io max key body content_type d).0
    put_failed :
        (stored : Records) (d : Directory) (io : Io) (max : ℕ) (key : Text) (body : List ℕ)
        (content_type : Option (List ℕ))
        → Reachable stored d
        → (put_full path_for_key io max key body content_type d).1 ≡ false
        → Reachable stored (put_full path_for_key io max key body content_type d).0
    got :
        (stored : Records) (d : Directory) (io : Io) (key : Text)
        → Reachable stored d
        → Reachable stored (get_full path_for_key io key d).1
    removed :
        (stored : Records) (d : Directory) (io : Io) (key : Text)
        → Reachable stored d
        → Reachable stored (remove io (path_for_key key) d)
    started :
        (stored : Records) (d : Directory) (io : Io)
        → Reachable stored d
        → Reachable stored (init io d)
    cleared :
        (stored : Records) (d : Directory) (io : Io)
        → Reachable stored d
        → Reachable stored (clear_all io d).0

  module _ (io : Io) (key : Text) (encoded : List ℕ) (d : Directory) where
    abbrev committed : Directory × Bool
    committed = commit_record io (path_for_key key) encoded d

    commit_failed-Represents :
        (stored : Records)
        → committed.1 ≡ false
        → Represents stored d
        → Represents stored committed.0
    commit_failed-Represents stored failed rep =
        let commits = commit_record-Commits io (path_for_key key) encoded d (entry key) in
        Represents-Keeps stored committed.0 d (rw failed at commits) rep

    commit_done-Represents :
        (stored : Records) (r : CacheRecord)
        → committed.1 ≡ true
        → decode_record encoded ≡ some r
        → Represents stored d
        → Represents (put_record key r stored) committed.0
    commit_done-Represents stored r done reads rep k bytes x there decodes =
        let commits =
          rw done at (commit_record-Commits io (path_for_key key) encoded d (entry key)) in
        elim (Bool-cases (text_eq k key)) [
          | inl same ↦
              let e : k ≡ key = (text_eq_iff k key).0 same in
              let at : read (path_for_key key) committed.0.files ≡ some bytes =
                sym (ap (λ j. read (path_for_key j) committed.0.files) e) ∙ there in
              let c = commits.0 in
              let b : encoded ≡ bytes = cc in
              let d : decode_record encoded ≡ some x = ap decode_record b ∙ decodes in
              let y : r ≡ x = cc in rw same (ap some y)
          | inr other ↦ rw other (
              rep k bytes x
                (commits.1 (path_for_key k) bytes
                  (λ e. let f = injective key k e in ground (arith, text_eq_refl k)) (entry k)
                  there)
                decodes)
        ]

  put_failed-Represents :
      (stored : Records) (d : Directory) (io : Io) (max : ℕ) (key : Text) (body : List ℕ)
      (content_type : Option (List ℕ))
      → (put_full path_for_key io max key body content_type d).1 ≡ false
      → Represents stored d
      → Represents stored (put_full path_for_key io max key body content_type d).0
  unfolding put_full
  put_failed-Represents stored d io max key body content_type failed rep =
      elim (Bool-cases io.create_ok) [
        | inr nowhere ↦ rw nowhere rep
        | inl there ↦ elim (Option-cases (encode_record content_type body)) [
          | inl large ↦ rw (there, large) rep
          | inr (encoded, fits) ↦ elim (Bool-cases (committed io key encoded d).1) [
            | inl done ↦ absurd (ground (arith, there, fits, done))
            | inr fails ↦
                rw (there, fits, fails) (commit_failed-Represents io key encoded d stored fails rep)
          ]
        ]
      ]

  put_done-Represents :
      (stored : Records) (d : Directory) (io : Io) (max : ℕ) (key : Text) (body : List ℕ)
      (content_type : Option (List ℕ))
      → is_utf8 (unwrap_or content_type []) ≡ true
      → ((encoded : List ℕ)
          → encode_record content_type body ≡ some encoded
          → length encoded < 2 ^ 64)
      → (put_full path_for_key io max key body content_type d).1 ≡ true
      → Represents stored d
      → Represents
          (put_record key (record_of body content_type) stored)
          (put_full path_for_key io max key body content_type d).0
  unfolding put_full
  put_done-Represents stored d io max key body content_type valid fits done rep =
      let now = put_record key (record_of body content_type) stored in
      elim (Bool-cases io.create_ok) [
        | inr nowhere ↦ absurd (ground (arith, nowhere))
        | inl there ↦ elim (Option-cases (encode_record content_type body)) [
          | inl large ↦ absurd (ground (arith, there, large))
          | inr (encoded, small) ↦ elim (Bool-cases (committed io key encoded d).1) [
            | inr fails ↦ absurd (ground (arith, there, small, fails))
            | inl does ↦
                let c = (committed io key encoded d).0 in
                rw (there, small, does)
                  (Represents-Keeps now (ensure_capacity io max c) c
                    (ensure_capacity-Keeps io max c)
                    (commit_done-Represents io key encoded d stored (record_of body content_type)
                      does
                      (decode_record-encode_record content_type body encoded small valid
                        (fits encoded small))
                      rep))
          ]
        ]
      ]

  get_full-Represents :
      (stored : Records) (d : Directory) (io : Io) (key : Text)
      → Represents stored d
      → Represents stored (get_full path_for_key io key d).1
  unfolding get_full
  get_full-Represents stored d io key rep =
      let path = path_for_key key in
      elim (Option-cases (read path d.files)) [
        | inl missing ↦ rw (missing, get_full) rep
        | inr (bytes, there) ↦ elim (Option-cases (decode_record bytes)) [
          | inl corrupt ↦
              rw (there, get_full, corrupt)
                (Represents-Keeps stored (remove io path d) d (remove-Keeps io path d) rep)
          | inr (r, reads) ↦
              let touched : File = record { name = path; contents = bytes; mtime = io.now } in
              rw (there, get_full, reads)
                (λ k c x h decodes.
                  rep k c x (read-write_same touched d.files (path_for_key k) c there h) decodes)
        ]
      ]

  Reachable-Represents :
      (stored : Records) (d : Directory) → Reachable stored d → Represents stored d
  unfolding init clear_all
  Reachable-Represents stored d (empty d0 nothing) = λ key bytes r there decodes.
      absurd (let none_there : read (path_for_key key) [] ≡ none = unfold read find in refl in cc)
  Reachable-Represents stored d
        (put_done old d0 io max key body content_type before valid fits done) =
      put_done-Represents old d0 io max key body content_type valid fits done
        (Reachable-Represents old d0 before)
  Reachable-Represents stored d (put_failed old d0 io max key body content_type before failed) =
      put_failed-Represents old d0 io max key body content_type failed
        (Reachable-Represents old d0 before)
  Reachable-Represents stored d (got old d0 io key before) =
      get_full-Represents old d0 io key (Reachable-Represents old d0 before)
  Reachable-Represents stored d (removed old d0 io key before) =
      Represents-Keeps old (remove io (path_for_key key) d0) d0
        (remove-Keeps io (path_for_key key) d0) (Reachable-Represents old d0 before)
  Reachable-Represents stored d (started old d0 io before) =
      Represents-Keeps old (init io d0) d0
        (λ p c still h.
          read-filter_names (λ n. not (is_temp_file n && io.unlink_ok n)) p d0.files c h)
        (Reachable-Represents old d0 before)
  Reachable-Represents stored d (cleared old d0 io before) =
      Represents-Keeps old (clear_all io d0).0 d0
        (λ p c still h. read-filter_names (λ n. not (io.unlink_ok n)) p d0.files c h)
        (Reachable-Represents old d0 before)

  -- The cache as a map that forgets. The names that keys have on disk differ and are not temporary.
  -- From an empty directory, whatever fails, after any puts (of bodies that fit into 2 ^ 64 bytes
  -- with their content types, which are UTF-8), reads, removals, restarts and clearings: what a read
  -- returns for a key is the record of the last put for that key that succeeded.
  pub get_full-Reachable :
      (stored : Records) (d : Directory) (io : Io) (key : Text) (r : CacheRecord)
      → Reachable stored d
      → (get_full path_for_key io key d).0 ≡ some r
      → stored key ≡ some r
  unfolding get_full
  get_full-Reachable stored d io key r reached returns =
      elim (Option-cases (read (path_for_key key) d.files)) [
        | inl missing ↦ absurd (ground (arith, missing))
        | inr (bytes, there) ↦ elim (Option-cases (decode_record bytes)) [
          | inl corrupt ↦ absurd (ground (arith, there, corrupt))
          | inr (x, decodes) ↦
              let same : x ≡ r = ground (arith, there, decodes) in
              Reachable-Represents stored d reached key bytes r there (decodes ∙ ap some same)
        ]
      ]
