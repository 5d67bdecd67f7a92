-- ===== src/Portability/Roundtrip.antt =====
-- What is exported can be restored.
use personal_agent_runtime.Base.{
  ℕ, pos, ◌*◌, ◌≤◌, String, Bool, true, false, some, List, [], ◌∷◌, ◌==◌, string_eq, ◌≡◌, ◌⊎◌, inl,
  inr, refl, ap, ◌∙◌, arith, Bool-cases, Option-cases, length,
}
use personal_agent_runtime.Base.Table.{find}
use personal_agent_runtime.Json.{Json, str, int, obj, fields, Fields, get, is_str_at}
use personal_agent_runtime.Json.Canonical.{canonical}
use personal_agent_runtime.Store.{Result, ok, raised}
use personal_agent_runtime.Portability.Laws.{restored}
use personal_agent_runtime.Portability.{
  Bytes, StateFiles, Place, Archive, Libraries, db_name, manifest_name, max_manifest_bytes,
  max_database_bytes, max_compression_ratio, conflicts, read_entry, has_both, is_supported,
  manifest_of, entry_of, artifact_of, export_state, manifest_fields, verified, sound, checkpointed,
  restore_state,
}

module _ (lib : Libraries) where
  -- The limits on the sizes of an entry
  abbrev pub Fits : Bytes → ℕ → Type 0
  Fits content limit =
      (length content ≤ limit)
      × ((length content ≡ 0)
          ⊎ ((1 ≤ lib.deflated content)
              × (length content ≤ max_compression_ratio * lib.deflated content)))

  entry-read :
      (name : String) (content : Bytes) (limit : ℕ) (archive : Archive)
      → find (λ e. e.name == name) archive ≡ some (entry_of lib name content)
      → Fits content limit
      → read_entry archive name limit ≡ ok content
  unfolding read_entry
  entry-read name content limit archive here (bound, inl empty) = ground (arith, here, bound, empty)
  entry-read name content limit archive here (bound, inr (some_size, ratio)) =
      ground (arith, here, bound, some_size, ratio)

  -- The members of a manifest, in the order of their keys
  abbrev pub sorted_manifest : String → Fields
  sorted_manifest digest = fields (
      ("database", str db_name)
      ∷ ("format", str "personal-agent-runtime-shared-state")
      ∷ ("sha256", str digest)
      ∷ ("version", int (pos 1))
      ∷ [])

  canonical-manifest_of :
      (digest : String) → canonical (manifest_of digest) ≡ obj (sorted_manifest digest)
  unfolding canonical
  canonical-manifest_of digest = refl

  sorted_manifest-is_supported : (digest : String) → is_supported (sorted_manifest digest) ≡ true
  unfolding is_supported is_str_at get string_eq
  sorted_manifest-is_supported digest = refl

  verified-ok :
      (archive : Archive) (raw payload : Bytes) (m : Fields)
      → has_both archive ≡ true
      → read_entry archive manifest_name max_manifest_bytes ≡ ok raw
      → manifest_fields lib (lib.loads raw) ≡ ok m
      → is_supported m ≡ true
      → read_entry archive db_name max_database_bytes ≡ ok payload
      → is_str_at "sha256" (lib.hexdigest payload) m ≡ true
      → verified lib archive ≡ ok (m, payload)
  unfolding verified
  verified-ok archive raw payload m both e1 e2 known e3 same =
      rw (verified, both) (rw e1 (rw e2 (rw known (rw e3 (rw same refl)))))

  same_text : (s : String) → (s == s) ≡ true
  same_text s = ground arith

  sorted_manifest-digest :
      (digest : String) → is_str_at "sha256" digest (sorted_manifest digest) ≡ true
  unfolding is_str_at get string_eq
  sorted_manifest-digest digest = same_text digest

  module _ (snapshot : Bytes)
      (readable : lib.loads (lib.dumps (manifest_of (lib.hexdigest snapshot)))
        ≡ some (canonical (manifest_of (lib.hexdigest snapshot))))
      (manifest_fits : Fits (lib.dumps (manifest_of (lib.hexdigest snapshot))) max_manifest_bytes)
      (fits : Fits snapshot max_database_bytes) where
    verified-artifact_of :
        verified lib (artifact_of lib snapshot)
        ≡ ok (sorted_manifest (lib.hexdigest snapshot), snapshot)
    unfolding find string_eq
    verified-artifact_of =
        let digest = lib.hexdigest snapshot in
        let raw =
          entry-read manifest_name (lib.dumps (manifest_of digest)) max_manifest_bytes
            (artifact_of lib snapshot) refl manifest_fits in
        let payload =
          entry-read db_name snapshot max_database_bytes (artifact_of lib snapshot) refl fits in
        verified-ok (artifact_of lib snapshot) (lib.dumps (manifest_of digest)) snapshot
          (sorted_manifest digest) refl raw
          (ap (manifest_fields lib) (readable ∙ ap some (canonical-manifest_of digest)))
          (sorted_manifest-is_supported digest) payload (sorted_manifest-digest digest)

    restored_artifact :
        lib.integrity_check snapshot ≡ ok true
        → (new : StateFiles) (r : Result Bool × StateFiles) → checkpointed lib new.database new ≡ r
        → r.0 ≡ ok true
        → restore_state lib (artifact_of lib snapshot) new
          ≡ (ok (sorted_manifest (lib.hexdigest snapshot)), restored snapshot)
    unfolding restore_state
    restored_artifact sound new (ok true, files) is idle =
        rw (restore_state, verified-artifact_of) (rw sound (rw is refl))
    restored_artifact sound new (ok false, files) is idle = cc
    restored_artifact sound new (raised x, files) is idle = cc

    export_state-archive :
        (artifact : Place) (protected : List Place) (files : StateFiles) (manifest : Json)
        (archive : Archive)
        → lib.backup files ≡ ok snapshot
        → export_state lib artifact protected files ≡ ok (manifest, archive)
        → archive ≡ artifact_of lib snapshot
    unfolding export_state
    export_state-archive artifact protected files manifest archive backed h =
        elim (Option-cases files.database) [
          | inl n ↦ absurd (ground (arith, h, n))
          | inr (b, e) ↦ elim (Bool-cases (conflicts artifact protected)) [
            | inl c ↦ absurd (ground (arith, h, e, c))
            | inr c ↦ ground (arith, h, e, c, backed)
          ]
        ]

    -- What was exported is restored: where the libraries read back the manifest that they wrote, both
    -- entries are within the limits, SQLite finds the snapshot sound and the destination is new or its log could be
    -- checkpointed, the restore puts the snapshot in place.
    pub restore_state-export_state :
        (artifact : Place) (protected : List Place) (files : StateFiles) (manifest : Json)
        (archive : Archive)
        → lib.backup files ≡ ok snapshot
        → export_state lib artifact protected files ≡ ok (manifest, archive)
        → lib.integrity_check snapshot ≡ ok true
        → (new : StateFiles) → (checkpointed lib new.database new).0 ≡ ok true
        → restore_state lib archive new
          ≡ (ok (sorted_manifest (lib.hexdigest snapshot)), restored snapshot)
    unfolding restore_state export_state
    restore_state-export_state artifact protected files manifest archive backed exported sound new
          idle =
        let archive_is =
          export_state-archive artifact protected files manifest archive backed exported in
        ap (λ a. restore_state lib a new) archive_is
        ∙ restored_artifact sound new (checkpointed lib new.database new) refl idle
