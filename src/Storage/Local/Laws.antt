-- ===== src/Storage/Local/Laws.antt =====
-- Proofs on netbox_config_backup/storage/local.py: its reversible deletion.
use netbox_plugin_backup.Prelude.{
  ℕ, ◌+◌, ◌≡◌, refl, ap, Bool, true, false, Option, none, some, is_some, Result, ok, err, ◌==◌,
  nat_eq, list_eq, list_beq_iff, Text, Bool-cases, inl, inr, arith, if◌then◌else◌,
}
use netbox_plugin_backup.Storage.{Fault, storage_error, Bytes, moved, IsReversible}
use netbox_plugin_backup.Storage.Local.{
  FilePath, path_of, Disk, os_call, move_file, tick, put, delete_with, delete, stage_with,
  stage_delete, restore_with, restore_staged_delete, purge_staged_delete, local_storage, held,
  disk_objects, is_namespace, staged_key_of,
}

-- Two keys are the same if both name one path, or neither names one.
abbrev pub same_path : Result Fault FilePath → Result Fault FilePath → Bool
same_path (ok p) (ok q) = p == q
same_path (ok p) (err f) = false
same_path (err e) (ok q) = false
same_path (err e) (err f) = true

abbrev pub same_text_key : Text → Text → Bool
same_text_key k l = same_path (path_of k) (path_of l)

path_beq_refl : (p : FilePath) → (p == p) ≡ true
path_beq_refl p = (list_beq_iff p p).1 refl

pub same_path_refl : (r : Result Fault FilePath) → same_path r r ≡ true
same_path_refl (ok p) = path_beq_refl p
same_path_refl (err e) = refl

pub same_path-held :
    (files : FilePath → Option Bytes) (r q : Result Fault FilePath)
    → same_path r q ≡ true
    → held r files ≡ held q files
same_path-held files (ok p) (ok q) h = ap files ((list_beq_iff p q).0 h)
same_path-held files (ok p) (err f) h = cc
same_path-held files (err e) (ok q) h = cc
same_path-held files (err e) (err f) h = refl

-- The objects after a move, by the paths of the keys.
abbrev moved_files :
    Result Fault FilePath
    → Result Fault FilePath
    → (FilePath → Option Bytes)
    → Result Fault FilePath
    → Option Bytes
moved_files source destination files x =
    if same_path x destination
    then held source files
    else if same_path x source
    then none
    else held x files

module _ (fails : ℕ → Bool) where
  move_held :
      (d : Disk) (p q : FilePath) (x : Result Fault FilePath)
      → held x (move_file p q d).files ≡ moved_files (ok p) (ok q) d.files x
  move_held d p q (ok x) = refl
  move_held d p q (err e) = refl

  -- The move of an object that is there, from one path to another.
  abbrev stage_there : Disk → FilePath → Text → FilePath → Disk × Result Fault (Option Text)
  stage_there d p staged q =
      if is_some (d.files q)
      then (d, err (storage_error "Storage quarantine object already exists."))
      else os_call fails d "Local configuration quarantine failed."
          λ d1. (move_file p q d1, ok (some staged))

  stage_there_moves :
      (d : Disk) (p q : FilePath) (staged t : Text)
      → (stage_there d p staged q).1 ≡ ok (some t)
      → (t ≡ staged) × (d.files q ≡ none) × ((stage_there d p staged q).0 ≡ move_file p q (tick d))
  stage_there_moves d p q staged t h = (ground arith, ground arith, ground arith)

  pub stage_with_moves :
      (d : Disk) (source destination : Result Fault FilePath) (staged t : Text)
      → (stage_with fails d source destination staged).1 ≡ ok (some t)
      → (t ≡ staged)
        × (held destination d.files ≡ none)
        × ((x : Result Fault FilePath)
            → held x (stage_with fails d source destination staged).0.files
              ≡ moved_files source destination d.files x)
  unfolding stage_with
  stage_with_moves d (err e) destination staged t h = absurd (cc)
  stage_with_moves d (ok p) (err e) staged t h = absurd (ground arith)
  stage_with_moves d (ok p) (ok q) staged t h = elim (Bool-cases (is_some (d.files p))) [
    | inr missing ↦ absurd (ground (arith, rw missing at h))
    | inl there ↦
        let (same, free, after) = stage_there_moves d p q staged t (rw there at h) in
        (same, free, λ x. rw there (rw after (move_held (tick d) p q x)))
  ]

  abbrev is_moved : Result Fault (Option Text) → Bool
  is_moved (ok (some t)) = true
  is_moved r = false

  stage_there_keeps :
      (d : Disk) (p q : FilePath) (staged : Text)
      → is_moved (stage_there d p staged q).1 ≡ false
      → (stage_there d p staged q).0.files ≡ d.files
  stage_there_keeps d p q staged h = ground arith

  stage_with_keeps :
      (d : Disk) (source destination : Result Fault FilePath) (staged : Text)
      → is_moved (stage_with fails d source destination staged).1 ≡ false
      → (stage_with fails d source destination staged).0.files ≡ d.files
  unfolding stage_with
  stage_with_keeps d (err e) destination staged h = refl
  stage_with_keeps d (ok p) (err e) staged h = ground arith
  stage_with_keeps d (ok p) (ok q) staged h = elim (Bool-cases (is_some (d.files p))) [
    | inr missing ↦ rw missing refl
    | inl there ↦ rw there (stage_there_keeps d p q staged (rw there at h))
  ]

  stage_delete_keeps :
      (d : Disk) (k namespace : Text)
      → is_moved (stage_delete fails d k namespace).1 ≡ false
      → (x : Text) → disk_objects (stage_delete fails d k namespace).0 x ≡ disk_objects d x
  unfolding stage_delete
  stage_delete_keeps d k namespace h x = elim (Bool-cases (is_namespace namespace)) [
    | inr bad ↦ rw bad refl
    | inl good ↦ rw good (
        ap (held (path_of x)) (
          stage_with_keeps d (path_of k) (path_of (staged_key_of namespace k))
            (staged_key_of namespace k) (rw good at h)))
  ]

  stage_delete_moves :
      (d : Disk) (k t namespace : Text)
      → (stage_delete fails d k namespace).1 ≡ ok (some t)
      → (disk_objects d t ≡ none)
        × ((x : Text)
            → disk_objects (stage_delete fails d k namespace).0 x
              ≡ moved same_text_key k t (disk_objects d) x)
  unfolding stage_delete
  stage_delete_moves d k t namespace h = elim (Bool-cases (is_namespace namespace)) [
    | inr bad ↦ absurd (ground (arith, rw bad at h))
    | inl good ↦
        let staged = staged_key_of namespace k in
        let (same, free, moves) =
          stage_with_moves d (path_of k) (path_of staged) staged t (rw good at h) in
        (rw same free, λ x. rw good (rw same (moves (path_of x))))
  ]

  restore_there :
      (d : Disk) (source destination : Result Fault FilePath)
      → (restore_with fails d source destination).1 ≡ ok tt
      → (x : Result Fault FilePath)
      → held x (restore_with fails d source destination).0.files
        ≡ moved_files source destination d.files x
  unfolding restore_with
  restore_there d (err e) destination h x = absurd (cc)
  restore_there d (ok p) (err e) h x = absurd (ground arith)
  restore_there d (ok p) (ok q) h x = elim (Bool-cases (is_some (d.files p))) [
    | inr missing ↦ absurd (ground (arith, rw missing at h))
    | inl there ↦ elim (Bool-cases (is_some (d.files q))) [
      | inl taken ↦ absurd (ground (arith, rw (there, taken) at h))
      | inr free ↦ elim (Bool-cases (fails d.calls)) [
        | inl failed ↦ absurd (ground (arith, rw (there, free, failed) at h))
        | inr works ↦ rw (there, free, works) (move_held (tick d) p q x)
      ]
    ]
  ]

  restore_frees :
      (d : Disk) (source destination : Result Fault FilePath)
      → (restore_with fails d source destination).1 ≡ ok tt
      → (is_some (held source d.files) ≡ true) × (held destination d.files ≡ none)
  unfolding restore_with
  restore_frees d (err e) destination h = absurd (cc)
  restore_frees d (ok p) (err e) h = absurd (ground arith)
  restore_frees d (ok p) (ok q) h = (ground arith, ground arith)

  restore_keeps :
      (d : Disk) (source destination : Result Fault FilePath) (e : Fault)
      → (restore_with fails d source destination).1 ≡ err e
      → (restore_with fails d source destination).0.files ≡ d.files
  unfolding restore_with
  restore_keeps d (err f) destination e h = refl
  restore_keeps d (ok p) (err f) e h = ground arith
  restore_keeps d (ok p) (ok q) e h = ground arith

  pub delete_with_keeps :
      (d : Disk) (path : Result Fault FilePath) (e : Fault)
      → (delete_with fails d path).1 ≡ err e
      → (delete_with fails d path).0.files ≡ d.files
  unfolding delete_with
  delete_with_keeps d (err f) e h = refl
  delete_with_keeps d (ok p) e h = ground arith

  pub delete_with_removes :
      (d : Disk) (path : Result Fault FilePath)
      → (delete_with fails d path).1 ≡ ok tt
      → (x : Result Fault FilePath)
      → held x (delete_with fails d path).0.files
        ≡ (if same_path x path then none else held x d.files)
  unfolding delete_with
  delete_with_removes d (err e) h x = absurd (cc)
  delete_with_removes d (ok p) h (ok x) = elim (Bool-cases (fails d.calls)) [
    | inl failed ↦ absurd (ground (arith, rw failed at h))
    | inr works ↦ rw works refl
  ]
  delete_with_removes d (ok p) h (err e) = refl

  -- The file storage keeps the promises of the interface.
  pub local_storage-IsReversible : IsReversible (local_storage fails) disk_objects same_text_key
  unfolding restore_staged_delete purge_staged_delete delete
  local_storage-IsReversible = record {
    same_refl = λ k. same_path_refl (path_of k);
    same_objects = λ d k l h. same_path-held d.files (path_of k) (path_of l) h;
    stage_moves = λ d k t namespace h. stage_delete_moves d k t namespace h;
    stage_misses = λ d k namespace h x. stage_delete_keeps d k namespace (rw h refl) x;
    stage_raises = λ d k namespace e h x. stage_delete_keeps d k namespace (rw h refl) x;
    restore_moves = λ d k t h x. restore_there d (path_of t) (path_of k) h (path_of x);
    restore_frees = λ d k t h. restore_frees d (path_of t) (path_of k) h;
    restore_raises =
        λ d k t e h x. ap (held (path_of x)) (restore_keeps d (path_of t) (path_of k) e h);
    purge_raises = λ d t e h x. ap (held (path_of x)) (delete_with_keeps d (path_of t) e h);
    purge_removes = λ d t h x. delete_with_removes d (path_of t) h (path_of x);
  }

  -- When the mode of a written file cannot be set, `put` raises, and yet the file is there.
  pub put_orphan :
      (d : Disk) (key : Text) (content : Bytes) (p : FilePath)
      → path_of key ≡ ok p
      → fails d.calls ≡ false
      → fails (d.calls + 1) ≡ true
      → ((put fails d key content).1 ≡ err (storage_error "Local configuration write failed."))
        × (disk_objects (put fails d key content).0 key ≡ some content)
  unfolding put
  put_orphan d key content p h a b = (simp (h, a, b), simp (h, a, b, path_beq_refl p))
