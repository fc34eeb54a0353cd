-- ===== src/Manifest/Append.antt =====
-- internal/storage/manifest.go, appendRecord with rollbackOrPoison and poison: the file of the open
-- manifest, its records in memory, and what faults leave of them. The line of an entry, which is
-- JSON with a checksum, is an argument; there is none where it cannot be encoded.
use mathlib.Core.List.{append-nil, append_assoc}
use dripsql.Base.{
  ℕ, ◌+◌, ◌≡◌, refl, sym, ap, ◌∙◌, Bool, true, false, Option, none, some, List, [], ◌∷◌, ◌++◌,
  if◌then◌else◌, length, take, Bool-cases, inl, inr,
}
use dripsql.Base.Bytes.{truncate, truncate-append}
use dripsql.Manifest.Records.{Entry}
use dripsql.Manifest.Handle.{Manifest, append_record}

pub data Outcome : Type 0 where
  written closed not_encoded io : Outcome

-- Which calls fail: a write after a number of bytes.
pub record Faults : Type 0 where
  pub seek : Bool
  pub write : Option ℕ
  pub sync : Bool
  pub trunc : Bool
  pub seek_back : Bool

-- `handle` is false where m.f is nil.
pub record ManifestFile : Type 0 where
  pub file : List ℕ
  pub handle : Bool
  pub manifest : Manifest

unfoldable pub poison : ManifestFile → Outcome × ManifestFile
poison m = (io, record m { handle = false })

unfoldable pub rollback_or_poison : Faults → ℕ → ManifestFile → Outcome × ManifestFile
unfolding poison
rollback_or_poison faults offset m =
    if faults.trunc
    then poison m
    else if faults.seek_back
    then poison (record m { file = truncate offset m.file })
    else (io, record m { file = truncate offset m.file })

-- Write of the line at the end of the file, which fails or not, and Sync.
unfoldable pub write_line :
    Option ℕ → Faults → List ℕ → Entry → ManifestFile → Outcome × ManifestFile
unfolding rollback_or_poison
write_line (some n) faults line e m =
    rollback_or_poison faults (length m.file) (record m { file = m.file ++ take n line })
write_line none faults line e m =
    if faults.sync
    then rollback_or_poison faults (length m.file) (record m { file = m.file ++ line })
    else (written, record m { file = m.file ++ line; manifest = append_record e m.manifest })

unfoldable pub seek_and_write :
    Faults → Option (List ℕ) → Entry → ManifestFile → Outcome × ManifestFile
unfolding write_line poison
seek_and_write faults none e m = (not_encoded, m)
seek_and_write faults (some line) e m =
    if faults.seek then poison m else write_line faults.write faults line e m

-- Manifest.appendRecord; the entry is encoded with its version.
unfoldable pub append_to_file :
    (Entry → Option (List ℕ)) → Faults → Entry → ManifestFile → Outcome × ManifestFile
unfolding seek_and_write
append_to_file encode faults e m =
    if m.handle
    then seek_and_write faults (encode (record e { version = m.manifest.version + 1 })) e m
    else (closed, m)

module _ (encode : Entry → Option (List ℕ)) where
  abbrev pub line_of : Option (List ℕ) → List ℕ
  line_of none = []
  line_of (some line) = line

  unfoldable pub lines : List Entry → List ℕ
  lines [] = []
  lines (e ∷ es) = line_of (encode e) ++ lines es

  -- While the manifest is open its file is the header and the lines of its records.
  unfoldable pub OnDisk : List ℕ → ManifestFile → Type 0
  unfolding lines
  OnDisk header m = m.handle ≡ true → m.file ≡ header ++ lines m.manifest.records

  lines-snoc : (es : List Entry) (e : Entry) → lines (es ++ e ∷ []) ≡ lines es ++ line_of (encode e)
  unfolding lines
  lines-snoc [] e = append-nil (line_of (encode e))
  lines-snoc (f ∷ es) e =
      ap (λ l. line_of (encode f) ++ l) (lines-snoc es e)
      ∙ sym (append_assoc (line_of (encode f)) (lines es) (line_of (encode e)))

  -- What a failed write left is cut off, or the file is closed.
  rollback-OnDisk :
      (faults : Faults) (header landed : List ℕ) (m : ManifestFile)
      → OnDisk header m
      → OnDisk header
          (rollback_or_poison faults (length m.file) (record m { file = m.file ++ landed })).1
  unfolding OnDisk rollback_or_poison poison
  rollback-OnDisk faults header landed m h = elim (Bool-cases faults.trunc) [
    | inl e ↦ rw e (λ k. cc)
    | inr e ↦ elim (Bool-cases faults.seek_back) [
      | inl b ↦ rw (e, b) (λ k. cc)
      | inr b ↦ rw (e, b, truncate-append m.file landed (length m.file) refl) h
    ]
  ]

  module _ (header : List ℕ) (e : Entry) (m : ManifestFile) (h : OnDisk header m) where
    abbrev versioned : Entry
    versioned = record e { version = m.manifest.version + 1 }

    write-OnDisk :
        (fault : Option ℕ) (faults : Faults) (line : List ℕ)
        → encode versioned ≡ some line
        → OnDisk header (write_line fault faults line e m).1
    unfolding write_line OnDisk append_record
    write-OnDisk (some n) faults line l = rollback-OnDisk faults header (take n line) m h
    write-OnDisk none faults line l = elim (Bool-cases faults.sync) [
      | inl s ↦ rw s (rollback-OnDisk faults header line m h)
      | inr s ↦ rw s (λ k.
          ap (λ f. f ++ line) (h k)
          ∙ append_assoc header (lines m.manifest.records) line
          ∙ ap (λ r. header ++ r)
              (ap (λ o. lines m.manifest.records ++ line_of o) (sym l)
                ∙ sym (lines-snoc m.manifest.records versioned)))
    ]

    seek-OnDisk :
        (faults : Faults) (line : Option (List ℕ))
        → encode versioned ≡ line
        → OnDisk header (seek_and_write faults line e m).1
    unfolding seek_and_write OnDisk poison
    seek-OnDisk faults none l = h
    seek-OnDisk faults (some line) l = elim (Bool-cases faults.seek) [
      | inl s ↦ rw s (λ k. cc)
      | inr s ↦ simp s (write-OnDisk faults.write faults line l)
    ]

    -- Whatever fails, an append keeps it that while the manifest is open its file is the header and
    -- the lines of its records.
    pub append_to_file-OnDisk :
        (faults : Faults) → OnDisk header (append_to_file encode faults e m).1
    unfolding append_to_file OnDisk
    append_to_file-OnDisk faults = elim (Bool-cases m.handle) [
      | inl open_ ↦ simp open_ (seek-OnDisk faults (encode versioned) refl)
      | inr shut ↦ simp shut (λ k. cc)
    ]
