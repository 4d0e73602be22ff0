-- ===== src/Storage/Local/Confined.antt =====
-- Proofs on `_path` of netbox_config_backup/storage/local.py: the paths of keys.
use netbox_plugin_backup.Prelude.{
  String, Result, err, require, ◌>>◌, key_ne, ◌≡◌, ◌≢◌, subst, Bool, true, false, not, ◌&&◌, List,
  [], ◌∷◌, ok, require-eq-ok, ok-injective, All, keep_if, any_of, ◌==◌, nat_eq, list_eq, list_beq,
  list_beq_iff, Text, codes, split, split-All, has_char, Bool-cases, inl, inr, arith,
}
use netbox_plugin_backup.Storage.{Fault, storage_error, unexpected}
use netbox_plugin_backup.Storage.Local.{FilePath, slash, is_empty_text, starts_with, parts, path_of}

-- A segment that names something below its directory.
abbrev pub IsSegment : Text → Type 0
IsSegment part =
    (part ≢ []) × (part ≢ codes ".") × (part ≢ codes "..") × (has_char slash part ≡ false)

abbrev is_kept : Text → Bool
is_kept part = not (is_empty_text part) && not (part == codes ".")

kept-IsSegment :
    (part : Text)
    → is_kept part ≡ true
    → has_char slash part ≡ false
    → (part == codes "..") ≡ false
    → IsSegment part
kept-IsSegment [] k s d = cc
kept-IsSegment (c ∷ part) k s d =
    (λ e. cc, key_ne (c ∷ part) (codes ".") (ground arith), key_ne (c ∷ part) (codes "..") d, s)

split-IsSegment :
    (xs : List Text)
    → All (λ part. has_char slash part ≡ false) xs
    → any_of (λ part. part == codes "..") (keep_if is_kept xs) ≡ false
    → All IsSegment (keep_if is_kept xs)
split-IsSegment [] s h = tt
split-IsSegment (x ∷ xs) s h = elim (Bool-cases (is_kept x)) [
  | inl k ↦
      let h' = rw k at h in
      rw k
        (kept-IsSegment x k s.0 (ground (arith, h')), split-IsSegment xs s.1 (ground (arith, h')))
  | inr k ↦ rw k (split-IsSegment xs s.1 (rw k at h))
]

-- The path of a key that is accepted has the parts of the key.
pub path_of-parts : (key : Text) (p : FilePath) → path_of key ≡ ok p → parts key ≡ p
unfolding path_of
path_of-parts key p h =
    let (usable, r0) =
      require-eq-ok (not (is_empty_text key) && not (has_char 92 key))
        (storage_error "Invalid storage key.") _ h in
    let (relative, r1) =
      require-eq-ok
        (not (starts_with slash key) && not (any_of (λ part. part == codes "..") (parts key)))
        (storage_error "Invalid storage key.") _ r0 in
    let (inside, r2) =
      require-eq-ok (not (list_beq (parts key) []))
        (storage_error "Storage key escapes the configured root.") _ r1 in
    ok-injective r2

-- A key that is accepted names a path of at least one segment below the root: no segment is empty,
-- a single or double dot, or has a slash in it.
pub path_of-IsSegment :
    (key : Text) (p : FilePath) → path_of key ≡ ok p → (p ≢ []) × All IsSegment p
unfolding path_of parts
path_of-IsSegment key p h =
    let (usable, r0) =
      require-eq-ok (not (is_empty_text key) && not (has_char 92 key))
        (storage_error "Invalid storage key.") _ h in
    let (relative, r1) =
      require-eq-ok
        (not (starts_with slash key) && not (any_of (λ part. part == codes "..") (parts key)))
        (storage_error "Invalid storage key.") _ r0 in
    let (inside, r2) =
      require-eq-ok (not (list_beq (parts key) []))
        (storage_error "Storage key escapes the configured root.") _ r1 in
    subst (λ q. (q ≢ []) × All IsSegment q) (ok-injective r2)
      (
        λ e. absurd (ground (arith, (list_beq_iff (parts key) []).1 e, inside)),
        split-IsSegment (split slash key) (split-All slash key) (ground (arith, relative)),
      )

require-unexpected :
    {A : Type 0} (test : Bool) (message : String) (rest : Result Fault A)
    → (require test (storage_error message) >> rest) ≡ err unexpected
    → rest ≡ err unexpected
require-unexpected true message rest h = h
require-unexpected false message rest h = absurd (cc)

path_known : (p : FilePath) → ◌≢◌ {A = Result Fault FilePath} (ok p) (err unexpected)
path_known p h = cc

-- A key that is refused raises StorageError.
pub path_of-raises : (key : Text) → path_of key ≢ err unexpected
unfolding path_of
path_of-raises key h =
    let r0 =
      require-unexpected (not (is_empty_text key) && not (has_char 92 key)) "Invalid storage key." _
        h in
    let r1 =
      require-unexpected
        (not (starts_with slash key) && not (any_of (λ part. part == codes "..") (parts key)))
        "Invalid storage key." _ r0 in
    path_known (parts key) (
      require-unexpected (not (list_beq (parts key) [])) "Storage key escapes the configured root."
        _ r1)
