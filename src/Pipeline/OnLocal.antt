-- ===== src/Pipeline/OnLocal.antt =====
-- services/backup.py with storage/local.py: a run whose storage is the file storage.
use netbox_plugin_backup.Prelude.{
  ℕ, ◌+◌, ◌≡◌, refl, ◌≢◌, sym, ap, ◌∙◌, ◌⊎◌, inl, inr, Bool, true, some, ◌∷◌, ◌++◌, String, Result,
  ok, err, ◌==◌, nat_eq, list_eq, Text, codes, length, Bool-cases, arith, if◌then◌else◌,
}
use netbox_plugin_backup.Storage.{Fault, Bytes}
use netbox_plugin_backup.Storage.Local.{
  FilePath, path_of, Disk, at_path, os_call, write_file, put, delete_with, delete, held,
  disk_objects,
}
use netbox_plugin_backup.Storage.Local.Confined.{path_of-raises}
use netbox_plugin_backup.Storage.Local.Laws.{
  same_path, same_text_key, same_path_refl, same_path-held, delete_with_removes, delete_with_keeps,
}
use netbox_plugin_backup.Pipeline.{Failure, storage_error, internal, StorageKey, Env}
use netbox_plugin_backup.Pipeline.StorageLaws.{IsStorage}

-- The `StorageError` and the other exceptions of a storage, as a run sees them.
abbrev failure_of : Fault → Failure
failure_of (Fault.storage_error message) = storage_error message
failure_of Fault.unexpected = internal

abbrev pub seen : {A : Type 0} → Disk × Result Fault A → Disk × Result Failure A
seen (d, ok a) = (d, ok a)
seen (d, err e) = (d, err (failure_of e))

failed_put : (d : Disk) (e : Failure) (n : ℕ) → ◌≢◌ {A = Result Failure ℕ} (err e) (ok n)
failed_put d e n h = cc

stored_put : (n : ℕ) (e : Failure) → ◌≢◌ {A = Result Failure ℕ} (ok n) (err e)
stored_put n e h = cc

seen_store : {A : Type 0} (x : Disk × Result Fault A) → (seen x).0 ≡ x.0
seen_store (d, ok a) = refl
seen_store (d, err f) = refl

seen_ok : (x : Disk × Result Fault (Unit {0})) → (seen x).1 ≡ ok tt → x.1 ≡ ok tt
seen_ok (d, ok u) h = refl
seen_ok (d, err f) h = cc

seen_err :
    (x : Disk × Result Fault (Unit {0})) (e : Failure)
    → (seen x).1 ≡ err e
    → (f : Fault) × (x.1 ≡ err f) × (failure_of f ≡ e)
seen_err (d, ok u) e h = absurd (cc)
seen_err (d, err f) e h = (f, refl, ground arith)

raises_known :
    {m : String}
    → ◌≢◌ {A = Result Fault (Unit {0})} (err (Fault.storage_error m)) (err Fault.unexpected)
raises_known h = cc

returned_known : ◌≢◌ {A = Result Fault (Unit {0})} (ok tt) (err Fault.unexpected)
returned_known h = cc

module _ (fails : ℕ → Bool) where
  delete_with_unexpected :
      (d : Disk) (path : Result Fault FilePath)
      → path ≢ err Fault.unexpected
      → (delete_with fails d path).1 ≢ err Fault.unexpected
  unfolding delete_with
  delete_with_unexpected d (err (Fault.storage_error m)) k h = cc
  delete_with_unexpected d (err Fault.unexpected) k h = k refl
  delete_with_unexpected d (ok p) k h = elim (Bool-cases (fails d.calls)) [
    | inl a ↦ raises_known (simp a at h)
    | inr a ↦ returned_known (simp a at h)
  ]

  delete_with_raises :
      (d : Disk) (path : Result Fault FilePath) (f : Fault)
      → path ≢ err Fault.unexpected
      → (delete_with fails d path).1 ≡ err f
      → (m : String) × (failure_of f ≡ storage_error m)
  delete_with_raises d path (Fault.storage_error m) k h = (m, refl)
  delete_with_raises d path Fault.unexpected k h = absurd (delete_with_unexpected d path k h)

  -- The body of `put` at a path.
  abbrev put_with : Disk → Result Fault FilePath → Bytes → Disk × Result Fault ℕ
  put_with d path content = at_path path d λ p.
      os_call fails d "Local configuration write failed." λ d1.
        os_call fails (write_file p (some content) d1) "Local configuration write failed."
          λ d2. (d2, ok (length content))

  put_with_writes :
      (d : Disk) (path x : Result Fault FilePath) (content : Bytes) (n : ℕ)
      → (seen (put_with d path content)).1 ≡ ok n
      → held x (seen (put_with d path content)).0.files
        ≡ (if same_path x path then some content else held x d.files)
  put_with_writes d (err e) x content n h = absurd (cc)
  put_with_writes d (ok p) (ok x) content n h = elim (Bool-cases (fails d.calls)) [
    | inl a ↦ absurd (failed_put d _ n (simp a at h))
    | inr a ↦ elim (Bool-cases (fails (d.calls + 1))) [
      | inl b ↦ absurd (failed_put d _ n (simp (a, b) at h))
      | inr b ↦ simp (a, b)
    ]
  ]
  put_with_writes d (ok p) (err e) content n h = refl

  put_with_raises :
      (d : Disk) (path x : Result Fault FilePath) (content : Bytes) (e : Failure)
      → (seen (put_with d path content)).1 ≡ err e
      → (held x (seen (put_with d path content)).0.files ≡ held x d.files)
        ⊎ ((same_path x path ≡ true)
            × (held x (seen (put_with d path content)).0.files ≡ some content))
  put_with_raises d (err f) x content e h = inl refl
  put_with_raises d (ok p) (ok x) content e h = elim (Bool-cases (fails d.calls)) [
    | inl a ↦ inl (simp a)
    | inr a ↦ elim (Bool-cases (fails (d.calls + 1))) [
      | inl b ↦ elim (Bool-cases (x == p)) [
        | inl same ↦ inr (same, simp (a, b, same))
        | inr other ↦ inl (simp (a, b, other))
      ]
      | inr b ↦ absurd (stored_put _ e (simp (a, b) at h))
    ]
  ]
  put_with_raises d (ok p) (err f) content e h = inl refl

-- A storage key as the text of the path that `execute` makes of it, where `digits` prints a number.
abbrev pub key_text : (ℕ → Text) → StorageKey → Text
key_text digits k =
    codes "devices/"
    ++ (digits k.device_id
        ++ (codes "/revisions/" ++ (codes k.revision_uuid ++ (47 ∷ codes k.filename))))

-- The environment of a run with the file storage.
abbrev pub on_local : (ℕ → Bool) → (ℕ → Text) → Env Disk → Env Disk
on_local fails digits env = record env {
  put = λ d key content. seen (put fails d (key_text digits key) (codes content));
  delete = λ d key. seen (delete fails d (key_text digits key));
}

-- The file storage keeps what a run relies on, whichever calls of the operating system fail.
pub on_local-IsStorage :
    (fails : ℕ → Bool) (digits : ℕ → Text) (env : Env Disk)
    → IsStorage
        (on_local fails digits env)
        (λ d k. disk_objects d (key_text digits k))
        codes
        (λ k l. same_text_key (key_text digits k) (key_text digits l))
unfolding put delete
on_local-IsStorage fails digits env = record {
  same_refl = λ k. same_path_refl (path_of (key_text digits k));
  same_objects = λ d k l h.
      same_path-held d.files (path_of (key_text digits k)) (path_of (key_text digits l)) h;
  put_writes = λ d key content n k h.
      put_with_writes fails d (path_of (key_text digits key)) (path_of (key_text digits k))
        (codes content) n h;
  put_raises = λ d key content e k h.
      put_with_raises fails d (path_of (key_text digits key)) (path_of (key_text digits k))
        (codes content) e h;
  delete_removes = λ d key k h.
      let x = delete_with fails d (path_of (key_text digits key)) in
      ap (λ y. held (path_of (key_text digits k)) y.files) (seen_store x)
      ∙ delete_with_removes fails d (path_of (key_text digits key)) (seen_ok x h)
          (path_of (key_text digits k));
  delete_raises = λ d key k e h.
      let x = delete_with fails d (path_of (key_text digits key)) in
      let (f, raised, same) = seen_err x e h in
      let (m, known) =
        delete_with_raises fails d (path_of (key_text digits key)) f
          (path_of-raises (key_text digits key)) raised in
      (
        (m, sym same ∙ known),
        ap (λ y. held (path_of (key_text digits k)) y.files) (seen_store x)
            ∙ ap (held (path_of (key_text digits k)))
                (delete_with_keeps fails d (path_of (key_text digits key)) f raised),
      );
}
