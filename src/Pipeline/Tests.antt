-- ===== src/Pipeline/Tests.antt =====
-- A driver with one primary artifact, the file storage with one failing call, and the theorems at them.
use netbox_plugin_backup.Prelude.{
  ℕ, ◌+◌, ◌≡◌, ◌⊎◌, nat_beq, nat_eq, list_eq, Text, codes, refl, Bool, true, false, Option, none,
  some, List, [], ◌∷◌, String, Result, ok, err, All₂, count_if, string_eq,
}
use netbox_plugin_backup.Pipeline.{
  Failure, CollectedArtifact, PreparedArtifact, bytes, Driver, ExecutionContext, RevisionSnapshot,
  StorageKey, Env, BackupResult, World, is_expected, expected_error,
}
use netbox_plugin_backup.Pipeline.Prepare.{
  is_primary, prepared, prepare_each, prepare_artifacts, normalize_artifact, has_duplicate_types,
  IsPrepared, prepare_artifacts-ok,
}
use netbox_plugin_backup.Pipeline.Gather.{
  Gathered, gather, device_credentials, receiver_credentials, first_primary, is_content_changed,
  is_raw_changed,
}
use netbox_plugin_backup.Pipeline.Execute.{
  execute, attempt, handle, call, logged, put, remembered, store_each, finish, finish_revision,
  rollback, rollback_storage, deleted, settle_expected,
}
use netbox_plugin_backup.Pipeline.Outcome.{Settled, execute-Settled}
use netbox_plugin_backup.Prelude.Texts.{split}
use netbox_plugin_backup.Storage.{Fault}
use netbox_plugin_backup.Storage.Local
use netbox_plugin_backup.Storage.Local.{
  FilePath, Disk, disk_objects, held, delete, delete_with, path_of, parts,
}
use netbox_plugin_backup.Storage.Local.Laws.{same_text_key}
use netbox_plugin_backup.Pipeline.StorageLaws.{IsStorage}
use netbox_plugin_backup.Pipeline.OnLocal.{key_text, on_local, on_local-IsStorage}
use netbox_plugin_backup.Pipeline.Rollback.{IsLeft, execute_failure_restores}
use netbox_plugin_backup.Pipeline.Stored.{Backed, execute-Backed}
use netbox_plugin_backup.Pipeline.Unchanged.{execute_unchanged}

abbrev artifact : String → Bool → CollectedArtifact
artifact artifact_type primary = record {
  artifact_type = artifact_type;
  filename = artifact_type;
  content = "interface ether1 # now";
  format = "text";
  is_primary = primary;
}

abbrev collected : List CollectedArtifact
collected = artifact "running" true ∷ artifact "startup" false ∷ []

abbrev driver : Driver
driver = record {
  collect = λ credentials receiver. ok collected;
  validate = λ a. ok (record { valid = true; error_code = ""; safe_message = "" });
  normalize = λ a. bytes "interface ether1";
  normalizer_version = "1";
}

abbrev items : List PreparedArtifact
items =
    prepared (λ s. s) (artifact "running" true) "interface ether1"
    ∷ prepared (λ s. s) (artifact "startup" false) "interface ether1"
    ∷ []

prepares : prepare_artifacts driver (λ s. s) collected ≡ ok items
unfolding prepare_artifacts prepare_each normalize_artifact has_duplicate_types
prepares = refl

prepare_artifacts-ok_example :
    (count_if is_primary collected ≡ 1)
    × (has_duplicate_types collected ≡ false)
    × All₂ (IsPrepared driver (λ s. s)) collected items
prepare_artifacts-ok_example = prepare_artifacts-ok driver (λ s. s) collected items prepares

abbrev context_of : ExecutionContext
context_of = record {
  target_id = 4;
  device_id = 7;
  driver_id = "mikrotik";
  is_changed_only = true;
  secret_provider_id = "vault";
  secret_reference = "device/7";
  has_receiver = false;
  receiver_secret_provider_id = "";
  receiver_secret_reference = "";
}

-- The file storage, where one call of the operating system fails.
abbrev digits : ℕ → Text
digits n = (48 + n) ∷ []

abbrev env : ℕ → Option RevisionSnapshot → Env Disk
env broken latest =
    on_local (λ n. nat_beq n broken) digits
      (record {
        context = ok context_of;
        create_driver = λ d. ok driver;
        resolve = λ provider reference. ok "secret";
        latest = λ target. ok latest;
        repository = λ c. ok (some 1);
        put = λ d key content. (d, ok 0);
        delete = λ d key. (d, ok tt);
        revision_uuid = "u1";
        sha256_hex = λ text. text;
        truncate = λ text. text;
      })

abbrev objects : Disk → StorageKey → Option (List ℕ)
objects d k = disk_objects d (key_text digits k)

abbrev same : StorageKey → StorageKey → Bool
same k l = same_text_key (key_text digits k) (key_text digits l)

laws :
    (broken : ℕ) (latest : Option RevisionSnapshot)
    → IsStorage (env broken latest) objects codes same
laws broken latest = on_local-IsStorage (λ n. nat_beq n broken) digits (env broken latest)

abbrev blank : Disk
blank = record { files = λ p. none; calls = 0 }

nothing_held : (r : Result Fault FilePath) → held r blank.files ≡ none
nothing_held (ok p) = refl
nothing_held (err e) = refl

abbrev some_key : StorageKey
some_key = record { device_id = 7; revision_uuid = "u1"; filename = "running" }

execute-Settled_example : Settled (env 3 none) (execute (env 3 none) blank)
execute-Settled_example = execute-Settled (env 3 none) blank

-- The first artifact was stored when the mode of the second one's file could not be set.
abbrev broken_off : Result Failure BackupResult × World Disk
broken_off = attempt (env 3 none) (record { store = blank; calls = []; stored_keys = [] })

execute_failure_restores_example :
    (objects (execute (env 3 none) blank).1.store some_key ≡ objects blank some_key)
    ⊎ IsLeft (env 3 none) objects codes same (laws 3 none) blank broken_off.1 some_key
unfolding execute attempt handle call logged put remembered store_each finish finish_revision
    rollback rollback_storage deleted settle_expected gather device_credentials receiver_credentials
    first_primary is_content_changed is_raw_changed prepare_artifacts prepare_each
    normalize_artifact has_duplicate_types is_expected expected_error Local.put delete delete_with
    path_of parts split
execute_failure_restores_example =
    execute_failure_restores (env 3 none) objects codes same (laws 3 none) blank
      (λ o h. nothing_held (path_of (key_text digits o))) some_key refl

execute-Backed_example :
    Backed
      (env 9 none)
      objects
      codes
      same
      (laws 9 none)
      (execute (env 9 none) blank).1.calls
      (execute (env 9 none) blank).1
unfolding execute attempt handle call logged put remembered store_each finish finish_revision gather
    device_credentials receiver_credentials first_primary is_content_changed is_raw_changed
    prepare_artifacts prepare_each normalize_artifact has_duplicate_types Local.put path_of parts
    split
execute-Backed_example = execute-Backed (env 9 none) objects codes same (laws 9 none) blank refl

abbrev same_revision : RevisionSnapshot
same_revision = record {
  revision_id = 3;
  normalized_hash = "interface ether1";
  primary_raw_hash = "interface ether1 # before";
}

abbrev gathered : Gathered
gathered = record {
  context = context_of;
  prepared = items;
  primary = prepared (λ s. s) (artifact "running" true) "interface ether1";
  latest = some same_revision;
}

execute_unchanged_example : (execute (env 9 (some same_revision)) blank).1.store ≡ blank
unfolding gather device_credentials receiver_credentials first_primary is_content_changed
    prepare_artifacts prepare_each normalize_artifact has_duplicate_types
execute_unchanged_example =
    execute_unchanged (env 9 (some same_revision)) blank context_of gathered refl refl refl
