-- ===== src/Tests/Restore.antt =====
-- An export and its restore, with libraries that do as little as they may.
use personal_agent_runtime.Base.{true, none, some, [], ◌∷◌, ◌≡◌, inr, refl, arith, string_eq}
use personal_agent_runtime.Json.{is_str_at}
use personal_agent_runtime.Json.Canonical.{canonical}
use personal_agent_runtime.Store.{ok, raised, file_not_found}
use personal_agent_runtime.Portability.{
  Bytes, StateFiles, Place, Libraries, db_name, max_database_bytes, conflicts, read_entry,
  is_supported, manifest_of, artifact_of, export_state, restore_state,
}
use personal_agent_runtime.Portability.Laws.{restored, restore_state-verified}
use personal_agent_runtime.Portability.Roundtrip.{sorted_manifest, restore_state-export_state}

abbrev snapshot : Bytes
snapshot = 83 ∷ 81 ∷ []

abbrev text : Bytes
text = 123 ∷ 125 ∷ []

abbrev libraries : Libraries
libraries = record {
  hexdigest = λ b. "ab";
  dumps = λ v. text;
  loads = λ b. some (canonical (manifest_of "ab"));
  deflated = λ b. 1;
  backup = λ f. elim f.database [ none ↦ raised file_not_found | some b ↦ ok b ];
  integrity_check = λ b. ok true;
  checkpoint = λ f. (ok true, record f { wal = none });
}

abbrev source : StateFiles
source = record { database = some snapshot; wal = none; shm = none }

abbrev destination : StateFiles
destination = record { database = some text; wal = some text; shm = none }

abbrev place : Place
place = record { resolved = "/backup/a.zip"; inode = none }

abbrev state_place : Place
state_place = record { resolved = "/state/runtime.db"; inode = some 7 }

restore_state-export_state_example :
    restore_state libraries (artifact_of libraries snapshot) destination
    ≡ (ok (sorted_manifest libraries "ab"), restored snapshot)
unfolding export_state conflicts string_eq
restore_state-export_state_example =
    restore_state-export_state libraries snapshot refl (omega arith, inr (omega arith, omega arith))
      (omega arith, inr (omega arith, omega arith)) place (state_place ∷ []) source
      (manifest_of "ab") (artifact_of libraries snapshot) refl refl refl destination refl

restore_state-verified_example :
    (payload : Bytes) × (read_entry (artifact_of libraries snapshot) db_name max_database_bytes
      ≡ ok payload)
    × (is_supported (sorted_manifest libraries "ab") ≡ true)
    × (is_str_at "sha256" "ab" (sorted_manifest libraries "ab") ≡ true)
    × (libraries.integrity_check payload ≡ ok true)
    × (restored snapshot ≡ restored payload)
restore_state-verified_example =
    restore_state-verified libraries (artifact_of libraries snapshot) destination
      (restored snapshot) (sorted_manifest libraries "ab") restore_state-export_state_example
