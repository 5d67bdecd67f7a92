-- ===== src/Portability/Laws.antt =====
-- Nothing is restored that was not verified.
use mathlib.Core.Path.{subst}
use personal_agent_runtime.Base.{
  Bool, true, false, Option, none, some, string_eq, ◌≡◌, ◌⊎◌, inl, inr, refl, sym, ap, ◌∙◌, arith,
  Bool-cases,
}
use personal_agent_runtime.Json.{Fields, is_str_at}
use personal_agent_runtime.Store.{ok-injective, Error, Result, ok, raised}
use personal_agent_runtime.Tasks.Effects.{Result-cases}
use personal_agent_runtime.Portability.{
  Bytes, StateFiles, Archive, Libraries, db_name, manifest_name, max_manifest_bytes,
  max_database_bytes, read_entry, has_both, is_supported, manifest_fields, verified, checkpointed,
  replaced, restore_state,
}

-- A file that was restored: the log is gone.
abbrev pub restored : Bytes → StateFiles
restored payload = record { database = some payload; wal = none; shm = none }

module _ (lib : Libraries) where
  replaced-ok :
      (m : Fields) (payload : Bytes) (r : Result Bool × StateFiles) (manifest : Fields)
      (files' : StateFiles)
      → replaced lib m payload r ≡ (ok manifest, files')
      → (m ≡ manifest) × (files' ≡ restored payload)
  replaced-ok m payload (raised e, files) manifest files' h = cc
  replaced-ok m payload (ok false, files) manifest files' h = cc
  replaced-ok m payload (ok true, files) manifest files' h =
      (ok-injective m manifest (ap (λ x. x.0) h), sym (ap (λ x. x.1) h))

  replaced-raised :
      (m : Fields) (payload : Bytes) (r : Result Bool × StateFiles) (x : Error)
      (files' : StateFiles)
      → replaced lib m payload r ≡ (raised x, files')
      → files' ≡ r.1
  replaced-raised m payload (raised e, files) x files' h = sym (ap (λ r. r.1) h)
  replaced-raised m payload (ok false, files) x files' h = sym (ap (λ r. r.1) h)
  replaced-raised m payload (ok true, files) x files' h = cc

  checkpointed-files :
      (o : Option Bytes) (files : StateFiles)
      → ((checkpointed lib o files).1 ≡ files)
        ⊎ ((checkpointed lib o files).1 ≡ (lib.checkpoint files).1)
  checkpointed-files none files = inl refl
  checkpointed-files (some b) files = inr refl

  verified-digest :
      (archive : Archive) (manifest : Fields) (payload : Bytes)
      → verified lib archive ≡ ok (manifest, payload)
      → (read_entry archive db_name max_database_bytes ≡ ok payload)
        × (is_supported manifest ≡ true)
        × (is_str_at "sha256" (lib.hexdigest payload) manifest ≡ true)
  unfolding verified
  verified-digest archive manifest payload h = elim (Bool-cases (has_both archive)) [
    | inr n ↦ absurd (ground (arith, h, n))
    | inl both ↦ elim (Result-cases (read_entry archive manifest_name max_manifest_bytes)) [
      | inr (x, e) ↦ absurd (ground (arith, h, both, e))
      | inl (raw, e1) ↦ elim (Result-cases (manifest_fields lib (lib.loads raw))) [
        | inr (x, e) ↦ absurd (ground (arith, h, both, e1, e))
        | inl (m, e2) ↦ elim (Bool-cases (is_supported m)) [
          | inr n ↦ absurd (ground (arith, h, both, e1, e2, n))
          | inl known ↦ elim (Result-cases (read_entry archive db_name max_database_bytes)) [
            | inr (x, e) ↦ absurd (ground (arith, h, both, e1, e2, known, e))
            | inl (content, e3) ↦ elim (Bool-cases (is_str_at "sha256" (lib.hexdigest content) m)) [
              | inr n ↦ absurd (ground (arith, h, both, e1, e2, known, e3, n))
              | inl same ↦
                  let is : ◌≡◌ {A = Result (Fields × Bytes)} (ok (m, content))
                      (ok (manifest, payload)) =
                    ground (arith, h, both, e1, e2, known, e3, same) in
                  let pair = ok-injective (m, content) (manifest, payload) is in
                  let manifest_is : m ≡ manifest = ap (λ p. p.0) pair in
                  let payload_is : content ≡ payload = ap (λ p. p.1) pair in
                  (
                    e3 ∙ ap ok payload_is,
                    subst (λ x. is_supported x ≡ true) manifest_is known,
                    subst (λ x. is_str_at "sha256" (lib.hexdigest x) manifest ≡ true) payload_is
                        (subst (λ x. is_str_at "sha256" (lib.hexdigest content) x ≡ true)
                          manifest_is same),
                  )
            ]
          ]
        ]
      ]
    ]
  ]

  -- A restore that returned has put in place the bytes of the archive whose digest stands in the
  -- manifest, of a known format and version, which SQLite finds sound, and has removed the log.
  pub restore_state-verified :
      (archive : Archive) (files files' : StateFiles) (manifest : Fields)
      → restore_state lib archive files ≡ (ok manifest, files')
      → (payload : Bytes) × (read_entry archive db_name max_database_bytes ≡ ok payload)
        × (is_supported manifest ≡ true)
        × (is_str_at "sha256" (lib.hexdigest payload) manifest ≡ true)
        × (lib.integrity_check payload ≡ ok true)
        × (files' ≡ restored payload)
  unfolding restore_state
  restore_state-verified archive files files' manifest h =
      elim (Result-cases (verified lib archive)) [
        | inr (x, e) ↦ absurd (ground (arith, h, e))
        | inl ((m, payload), e) ↦ elim (Result-cases (lib.integrity_check payload)) [
          | inr (x, i) ↦ absurd (ground (arith, h, e, i))
          | inl (false, i) ↦ absurd (ground (arith, h, e, i))
          | inl (true, i) ↦
              let (manifest_is, files_is) =
                replaced-ok m payload (checkpointed lib files.database files) manifest files'
                  (ground (arith, h, e, i)) in
              let (read, known, digest) =
                verified-digest archive manifest payload
                  (e ∙ ap (λ x. ok (x, payload)) manifest_is) in
              (payload, read, known, digest, i, files_is)
        ]
      ]

  -- An exception leaves the files as they were, but for a checkpoint of their own log.
  pub restore_state-raised :
      (archive : Archive) (files files' : StateFiles) (x : Error)
      → restore_state lib archive files ≡ (raised x, files')
      → (files' ≡ files) ⊎ (files' ≡ (lib.checkpoint files).1)
  unfolding restore_state
  restore_state-raised archive files files' x h = elim (Result-cases (verified lib archive)) [
    | inr (y, e) ↦ inl (ground (arith, h, e))
    | inl ((m, payload), e) ↦ elim (Result-cases (lib.integrity_check payload)) [
      | inr (y, i) ↦ inl (ground (arith, h, e, i))
      | inl (false, i) ↦ inl (ground (arith, h, e, i))
      | inl (true, i) ↦
          let left =
            replaced-raised m payload (checkpointed lib files.database files) x files'
              (ground (arith, h, e, i)) in
          elim (checkpointed-files files.database files) [
            | inl s ↦ inl (left ∙ s)
            | inr s ↦ inr (left ∙ s)
          ]
    ]
  ]
