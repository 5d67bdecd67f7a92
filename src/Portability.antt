-- ===== src/Portability.antt =====
-- Export and restore of the state file: par/portability.py.
pub mod Laws
pub mod Roundtrip
use personal_agent_runtime.Base.{
  ℕ, pos, negsuc, ◌+◌, ◌*◌, ◌^◌, String, ◌<>◌, Bool, true, false, Option, none, some, List, [], ◌∷◌,
  ◌==◌, string_eq, if◌then◌else◌, not, ◌&&◌, ◌||◌, is_some, is_same, ltb, length,
}
use personal_agent_runtime.Base.Table.{find}
use personal_agent_runtime.Json.{
  Json, bool, int, float, str, obj, Fields, end, Float, finite, get, object, is_str_at,
}
use personal_agent_runtime.Store.{
  ◌|>>◌, value_error, key_error, runtime_error, attribute_error, file_not_found, Result, ok, raised,
}

-- The bytes of a file
abbrev pub Bytes : Type 0
Bytes = List ℕ

abbrev pub db_name : String
db_name = "runtime.db"

abbrev pub manifest_name : String
manifest_name = "manifest.json"

abbrev pub max_manifest_bytes : ℕ
max_manifest_bytes = 64 * 1024

abbrev pub max_database_bytes : ℕ
max_database_bytes = 1024 * 1024 * 1024

abbrev pub max_compression_ratio : ℕ
max_compression_ratio = 100

-- The SQLite files of a database: the file itself, its log and the index of the log
pub record StateFiles : Type 0 where
  pub database : Option Bytes
  pub wal : Option Bytes
  pub shm : Option Bytes

-- A path: what it resolves to, and the identity of the file, if there is one
pub record Place : Type 0 where
  pub resolved : String
  pub inode : Option ℕ

-- An entry of an archive, as its header and `read` say
pub record Entry : Type 0 where
  pub name : String
  pub file_size : ℕ
  pub compress_size : ℕ
  pub content : Bytes

abbrev pub Archive : Type 0
Archive = List Entry

-- `_same_file_if_exists`
abbrev pub same_file_if_exists : Option ℕ → Option ℕ → Bool
same_file_if_exists none _ = false
same_file_if_exists (some a) none = false
same_file_if_exists (some a) (some b) = is_same a b

-- `_validate_export_destination`
unfoldable pub conflicts : Place → List Place → Bool
conflicts artifact [] = false
conflicts artifact (p ∷ protected) =
    (artifact.resolved == p.resolved || same_file_if_exists artifact.inode p.inode)
    || conflicts artifact protected

-- `_read_entry`
unfoldable pub read_entry : Archive → String → ℕ → Result Bytes
read_entry archive name max_bytes = elim (find (λ e. e.name == name) archive) [
  | none ↦ raised (key_error ("There is no item named " <> (name <> " in the archive")))
  | some e ↦
      if ltb max_bytes e.file_size
      then raised (value_error ("portable artifact entry " <> (name <> " exceeds size limit")))
      else if ltb 0 e.file_size
          && (is_same e.compress_size 0
              || ltb (max_compression_ratio * e.compress_size) e.file_size)
      then raised
          (value_error ("portable artifact entry " <> (name <> " exceeds compression ratio limit")))
      else ok e.content
]

-- `len(entries) != 2 or set(entries) != {DB_NAME, MANIFEST_NAME}`, negated
abbrev pub has_both : Archive → Bool
has_both (a ∷ (b ∷ [])) =
    (a.name == db_name && b.name == manifest_name) || (a.name == manifest_name && b.name == db_name)
has_both _ = false

-- `value == 1`
abbrev pub equals_one : Option Json → Bool
equals_one (some (int (pos n))) = is_same n 1
equals_one (some (bool b)) = b
equals_one (some (float (finite (pos m) (pos e)))) = is_same (m * 2 ^ e) 1
equals_one (some (float (finite (pos m) (negsuc k)))) = is_same m (2 ^ (k + 1))
equals_one _ = false

unfoldable pub is_supported : Fields → Bool
is_supported manifest =
    is_str_at "format" "personal-agent-runtime-shared-state" manifest
    && (equals_one (get "version" manifest) && is_str_at "database" db_name manifest)

abbrev pub manifest_of : String → Json
manifest_of digest = object (
    ("format", str "personal-agent-runtime-shared-state")
    ∷ ("version", int (pos 1))
    ∷ ("database", str db_name)
    ∷ ("sha256", str digest)
    ∷ [])

-- What the libraries do: the SHA-256 digest; the JSON text of a value and back; the size of deflated
-- bytes; and SQLite's backup of the committed state, its integrity check, and the checkpoint of its log
-- (whether it was not busy, and the files that it leaves).
pub record Libraries : Type 0 where
  pub hexdigest : Bytes → String
  pub dumps : Json → Bytes
  pub loads : Bytes → Option Json
  pub deflated : Bytes → ℕ
  pub backup : StateFiles → Result Bytes
  pub integrity_check : Bytes → Result Bool
  pub checkpoint : StateFiles → Result Bool × StateFiles

module _ (lib : Libraries) where
  abbrev pub entry_of : String → Bytes → Entry
  entry_of name content = record {
    name = name;
    file_size = length content;
    compress_size = lib.deflated content;
    content = content;
  }

  abbrev pub artifact_of : Bytes → Archive
  artifact_of snapshot =
      entry_of db_name snapshot
      ∷ entry_of manifest_name (lib.dumps (manifest_of (lib.hexdigest snapshot)))
      ∷ []

  unfoldable pub export_state : Place → List Place → StateFiles → Result (Json × Archive)
  unfolding conflicts
  export_state artifact protected files =
      if not (is_some files.database)
      then raised file_not_found
      else if conflicts artifact protected
      then raised (value_error "portable artifact destination conflicts with SQLite state files")
      else lib.backup files |>> λ snapshot.
          ok (manifest_of (lib.hexdigest snapshot), artifact_of snapshot)

  abbrev pub manifest_fields : Option Json → Result Fields
  manifest_fields none = raised (value_error "not a JSON text")
  manifest_fields (some (obj d)) = ok d
  manifest_fields (some _) = raised attribute_error

  -- The reading of an archive, up to the comparison of the digests
  unfoldable pub verified : Archive → Result (Fields × Bytes)
  unfolding read_entry is_supported
  verified archive =
      if not (has_both archive)
      then raised (value_error "portable artifact contains unexpected or duplicate files")
      else read_entry archive manifest_name max_manifest_bytes |>> λ raw.
          manifest_fields (lib.loads raw) |>> λ manifest.
          if not (is_supported manifest)
          then raised (value_error "unsupported portable artifact format or version")
          else read_entry archive db_name max_database_bytes |>> λ payload.
              if is_str_at "sha256" (lib.hexdigest payload) manifest
              then ok (manifest, payload)
              else raised (value_error "portable artifact integrity check failed")

  abbrev pub sound : Bytes → Result (Unit {0})
  sound payload = lib.integrity_check payload |>> λ answer.
      if answer
      then ok tt
      else raised (value_error "restored SQLite database failed integrity_check")

  -- The checkpoint of the destination, if there is one
  abbrev pub checkpointed : Option Bytes → StateFiles → Result Bool × StateFiles
  checkpointed none files = (ok true, files)
  checkpointed (some _) files = lib.checkpoint files

  abbrev pub replaced : Fields → Bytes → Result Bool × StateFiles → Result Fields × StateFiles
  replaced manifest payload (raised e, files) = (raised e, files)
  replaced manifest payload (ok false, files) = (
    raised (runtime_error "cannot safely checkpoint destination SQLite WAL before restore"),
    files,
  )
  replaced manifest payload (ok true, files) =
      (ok manifest, record { database = some payload; wal = none; shm = none })

  unfoldable pub restore_state : Archive → StateFiles → Result Fields × StateFiles
  unfolding verified
  restore_state archive files = elim (verified archive) [
    | raised e ↦ (raised e, files)
    | ok (manifest, payload) ↦ elim (sound payload) [
      | raised e ↦ (raised e, files)
      | ok _ ↦ replaced manifest payload (checkpointed files.database files)
    ]
  ]
