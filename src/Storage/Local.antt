-- ===== src/Storage/Local.antt =====
-- netbox_config_backup/storage/local.py: files below a root that has no symbolic links. A disk is
-- the files by their path below the root, and the number of calls of the operating system so far;
-- `fails` says which of these raise OSError. `os.replace` is atomic. The temporary file of `put` is
-- not modelled, nor are the directories that are made.
pub mod Laws
pub mod Confined
pub mod Trash
use netbox_plugin_backup.Prelude.{
  ℕ, suc, ◌+◌, ◌≡◌, Bool, true, false, not, ◌&&◌, ◌||◌, Option, none, some, is_some, List, [], ◌∷◌,
  ◌++◌, String, Result, ok, err, ◌>>=◌, ◌>>◌, require, length, keep_if, any_of, leb, nat_beq, ltb,
  ◌==◌, nat_eq, list_eq, list_beq, Text, codes, split, has_char, if◌then◌else◌,
}
use netbox_plugin_backup.Storage.{Fault, storage_error, Bytes, ConfigStorage, View}

abbrev pub slash : ℕ
slash = 47

-- The segments of a path.
abbrev pub FilePath : Type 0
FilePath = List Text

abbrev pub is_empty_text : Text → Bool
is_empty_text [] = true
is_empty_text (c ∷ text) = false

abbrev pub starts_with : ℕ → Text → Bool
starts_with c [] = false
starts_with c (x ∷ text) = nat_beq x c

-- `PurePosixPath(key).parts` of a relative path: empty segments and single dots are dropped.
unfoldable pub parts : Text → FilePath
parts key = keep_if (λ part. not (is_empty_text part) && not (part == codes ".")) (split slash key)

-- `_path`: below a root without symbolic links only the root itself escapes.
unfoldable pub path_of : Text → Result Fault FilePath
path_of key = do
  require (not (is_empty_text key) && not (has_char 92 key)) (storage_error "Invalid storage key.")
  require (not (starts_with slash key) && not (any_of (λ part. part == codes "..") (parts key)))
      (storage_error "Invalid storage key.")
  require (not (list_beq (parts key) [])) (storage_error "Storage key escapes the configured root.")
  ok (parts key)

pub record Disk : Type 0 where
  pub files : FilePath → Option Bytes
  pub calls : ℕ

abbrev pub write_file : FilePath → Option Bytes → Disk → Disk
write_file p content d = record d { files = λ q. if q == p then content else d.files q }

abbrev pub tick : Disk → Disk
tick d = record d { calls = d.calls + 1 }

abbrev move_file : FilePath → FilePath → Disk → Disk
move_file source destination d = record d {
  files = λ q. if q == destination then d.files source else if q == source then none else d.files q;
}

-- A path that cannot be made raises before the disk is touched.
abbrev pub at_path :
    {A : Type 0}
    → Result Fault FilePath
    → Disk
    → (FilePath → Disk × Result Fault A)
    → Disk × Result Fault A
at_path (ok p) d act = act p
at_path (err e) d act = (d, err e)

-- One call of the operating system, and what follows it.
abbrev pub os_call :
    {A : Type 0}
    → (ℕ → Bool)
    → Disk
    → String
    → (Disk → Disk × Result Fault A)
    → Disk × Result Fault A
os_call fails d message act =
    if fails d.calls then (tick d, err (storage_error message)) else act (tick d)

-- `[A-Za-z0-9_-]{1,100}`
abbrev pub is_namespace_char : ℕ → Bool
is_namespace_char c =
    (leb 65 c && leb c 90)
    || (leb 97 c && leb c 122)
    || (leb 48 c && leb c 57)
    || nat_beq c 95
    || nat_beq c 45

abbrev pub is_namespace : Text → Bool
is_namespace text =
    ltb 0 (length text)
    && leb (length text) 100
    && not (any_of (λ c. not (is_namespace_char c)) text)

abbrev pub staged_key_of : Text → Text → Text
staged_key_of namespace key = codes ".retention-trash/" ++ (namespace ++ (slash ∷ key))

module _ (fails : ℕ → Bool) where
  -- The file is written and replaced in one step; the mode of the new file is set after it.
  unfoldable pub put : Disk → Text → Bytes → Disk × Result Fault ℕ
  put d key content = at_path (path_of key) d λ p.
      os_call fails d "Local configuration write failed." λ d1.
        os_call fails (write_file p (some content) d1) "Local configuration write failed."
          λ d2. (d2, ok (length content))

  unfoldable pub get : Disk → Text → Result Fault Bytes
  get d key = do
    p ← path_of key
    elim (d.files p) [
      | none ↦ err (storage_error "Local configuration read failed.")
      | some content ↦
          if fails d.calls
          then err (storage_error "Local configuration read failed.")
          else ok content
    ]

  unfoldable pub exists : Disk → Text → Result Fault Bool
  exists d key = do p ← path_of key; ok (is_some (d.files p))

  unfoldable pub delete_with : Disk → Result Fault FilePath → Disk × Result Fault (Unit {0})
  delete_with d path =
      at_path path d λ p.
        os_call fails d "Local configuration delete failed." λ d1. (write_file p none d1, ok tt)

  unfoldable pub delete : Disk → Text → Disk × Result Fault (Unit {0})
  unfolding delete_with
  delete d key = delete_with d (path_of key)

  -- The paths of the object and of its place in the quarantine, if they can be made.
  unfoldable pub stage_with :
      Disk
      → Result Fault FilePath
      → Result Fault FilePath
      → Text
      → Disk × Result Fault (Option Text)
  stage_with d source_path destination_path staged_key = at_path source_path d λ source.
      if not (is_some (d.files source))
      then (d, ok none)
      else at_path destination_path d λ destination.
        if is_some (d.files destination)
        then (d, err (storage_error "Storage quarantine object already exists."))
        else os_call fails d "Local configuration quarantine failed."
            λ d1. (move_file source destination d1, ok (some staged_key))

  unfoldable pub stage_delete : Disk → Text → Text → Disk × Result Fault (Option Text)
  unfolding stage_with
  stage_delete d key namespace =
      if is_namespace namespace
      then stage_with d (path_of key) (path_of (staged_key_of namespace key))
          (staged_key_of namespace key)
      else (d, err (storage_error "Invalid storage quarantine namespace."))

  unfoldable pub restore_with :
      Disk → Result Fault FilePath → Result Fault FilePath → Disk × Result Fault (Unit {0})
  restore_with d source_path destination_path = at_path source_path d λ source.
      if not (is_some (d.files source))
      then (d, err (storage_error "Quarantined configuration object is missing."))
      else at_path destination_path d λ destination.
        if is_some (d.files destination)
        then (d, err (storage_error "Configuration restore destination already exists."))
        else os_call fails d "Local configuration restore failed."
            λ d1. (move_file source destination d1, ok tt)

  unfoldable pub restore_staged_delete : Disk → Text → Text → Disk × Result Fault (Unit {0})
  unfolding restore_with
  restore_staged_delete d key staged_key = restore_with d (path_of staged_key) (path_of key)

  unfoldable pub purge_staged_delete : Disk → Text → Disk × Result Fault (Unit {0})
  unfolding delete
  purge_staged_delete d staged_key = delete d staged_key

  abbrev pub local_storage : ConfigStorage Disk Text
  local_storage = record {
    put = put;
    get = get;
    exists = exists;
    delete = delete;
    stage_delete = stage_delete;
    restore_staged_delete = restore_staged_delete;
    purge_staged_delete = purge_staged_delete;
  }

-- What the disk holds at a key, and the keys of one path.
abbrev pub held : Result Fault FilePath → (FilePath → Option Bytes) → Option Bytes
held (ok p) files = files p
held (err e) files = none

abbrev pub disk_objects : Disk → View Text
disk_objects d key = held (path_of key) d.files
