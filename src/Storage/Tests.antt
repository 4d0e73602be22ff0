-- ===== src/Storage/Tests.antt =====
-- The theorems on the file storage, applied to one small disk.
use netbox_plugin_backup.Prelude.{
  false, ℕ, ◌≡◌, ◌≢◌, refl, Bool, none, some, [], ◌∷◌, ok, err, All, nat_beq, codes, list_eq,
  nat_eq, ◌==◌, if◌then◌else◌,
}
use netbox_plugin_backup.Prelude.Texts.{split}
use netbox_plugin_backup.Storage.{storage_error, IsQuarantine}
use netbox_plugin_backup.Storage.Local.Trash.{IsTrashOf, local_storage-IsQuarantine}
use netbox_plugin_backup.Storage.Local.{
  FilePath, parts, path_of, Disk, put, stage_delete, stage_with, restore_staged_delete,
  restore_with, local_storage, disk_objects,
}
use netbox_plugin_backup.Storage.Quarantine.{Staging, stage_each, restore_staged}
use netbox_plugin_backup.Storage.Roundtrip.{restore_staged-stage_each}
use netbox_plugin_backup.Storage.Local.Laws.{same_text_key, local_storage-IsReversible, put_orphan}
use netbox_plugin_backup.Storage.Local.Confined.{IsSegment, path_of-IsSegment}

-- The second call of the operating system fails.
abbrev second_fails : ℕ → Bool
second_fails n = nat_beq n 1

abbrev running : FilePath
running = codes "a" ∷ codes "running" ∷ []

-- A disk with one file.
abbrev disk : Disk
disk = record { files = λ p. if p == running then some (7 ∷ []) else none; calls = 0 }

running-path : path_of (codes "a/running") ≡ ok running
unfolding path_of parts split
running-path = refl

local_storage-IsQuarantine_example :
    IsQuarantine (local_storage second_fails) disk_objects same_text_key IsTrashOf
local_storage-IsQuarantine_example = local_storage-IsQuarantine second_fails

put_orphan_example :
    ((put second_fails disk (codes "a/running") (1 ∷ [])).1
      ≡ err (storage_error "Local configuration write failed."))
    × (disk_objects (put second_fails disk (codes "a/running") (1 ∷ [])).0 (codes "a/running")
        ≡ some (1 ∷ []))
put_orphan_example =
    put_orphan second_fails disk (codes "a/running") (1 ∷ []) running running-path refl refl

path_of-IsSegment_example : (running ≢ []) × All IsSegment running
path_of-IsSegment_example = path_of-IsSegment (codes "a/running") running running-path

abbrev never : ℕ → Bool
never n = false

abbrev staged_disk : Staging (local_storage never)
staged_disk =
    stage_each (local_storage never) (codes "n") (codes "a/running" ∷ codes "gone" ∷ []) disk [] 0

restored-all :
    (restore_staged (local_storage never) staged_disk.staged false staged_disk.store).1 ≡ ok false
unfolding stage_each stage_delete stage_with restore_staged restore_staged_delete restore_with
    path_of parts split
restored-all = refl

restore_staged-stage_each_example :
    disk_objects
      (restore_staged (local_storage never) staged_disk.staged false staged_disk.store).0
      (codes "a/running")
    ≡ some (7 ∷ [])
unfolding path_of parts split
restore_staged-stage_each_example =
    restore_staged-stage_each (local_storage never) disk_objects same_text_key
      (local_storage-IsReversible never) (codes "n") (codes "a/running" ∷ codes "gone" ∷ []) disk
      restored-all (codes "a/running")
