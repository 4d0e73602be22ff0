-- ===== src/Storage/Local/Trash.antt =====
-- `stage_delete` of netbox_config_backup/storage/local.py: where the quarantine keeps a file.
use netbox_plugin_backup.Prelude.{
  ℕ, ◌≡◌, refl, sym, ap, subst, ◌≢◌, ◌∙◌, Bool, true, false, not, ◌&&◌, some, [], ◌∷◌, ◌++◌, Result,
  ok, err, keep_if, any_of, nat_beq, nat_eq, list_eq, list_beq_iff, ◌==◌, Text, codes, split-append,
  has_char, Bool-cases, inl, inr, arith,
}
use netbox_plugin_backup.Storage.{Fault, IsQuarantine}
use netbox_plugin_backup.Storage.Local.{
  FilePath, Disk, slash, is_empty_text, parts, path_of, is_namespace, is_namespace_char,
  staged_key_of, stage_with, stage_delete, local_storage, disk_objects,
}
use netbox_plugin_backup.Storage.Local.Laws.{
  same_text_key, stage_with_moves, local_storage-IsReversible,
}
use netbox_plugin_backup.Storage.Local.Confined.{path_of-parts}

-- The path `.retention-trash/<namespace>/<path>`.
abbrev pub trash_path : Text → FilePath → FilePath
trash_path namespace p = codes ".retention-trash" ∷ namespace ∷ p

-- The key `t` names the path of `k` below the namespace's directory of the quarantine.
abbrev pub IsTrashOf : Text → Text → Text → Type 0
IsTrashOf namespace k t =
    (p : FilePath) × (path_of k ≡ ok p) × (path_of t ≡ ok (trash_path namespace p))

named_char : (c : ℕ) → is_namespace_char c ≡ true → nat_beq c 47 ≡ false
named_char c h = ground arith

named_chars :
    (text : Text) → any_of (λ c. not (is_namespace_char c)) text ≡ false → has_char 47 text ≡ false
named_chars [] h = refl
named_chars (c ∷ text) h =
    let good : is_namespace_char c ≡ true = ground arith in
    ground (arith, named_char c good, named_chars text (ground arith))

abbrev is_kept : Text → Bool
is_kept part = not (is_empty_text part) && not (part == codes ".")

dot_is_no_namespace : is_namespace (codes ".") ≢ true
dot_is_no_namespace h = cc

namespace_kept : (n : Text) → is_namespace n ≡ true → is_kept n ≡ true
namespace_kept [] h = absurd (cc)
namespace_kept (c ∷ n) h = elim (Bool-cases ((c ∷ n) == codes ".")) [
  | inl e ↦ absurd (
      dot_is_no_namespace
        (subst (λ x. is_namespace x ≡ true) ((list_beq_iff (c ∷ n) (codes ".")).0 e) h))
  | inr e ↦ rw e refl
]

parts_staged :
    (n key : Text) → is_namespace n ≡ true → parts (staged_key_of n key) ≡ trash_path n (parts key)
unfolding parts
parts_staged n key h =
    ap (keep_if is_kept) (
      split-append slash (codes ".retention-trash") (n ++ (slash ∷ key)) refl
      ∙ ap (λ rest. codes ".retention-trash" ∷ rest)
          (split-append slash n key (named_chars n (ground (arith, h)))))
    ∙ rw (namespace_kept n h) refl

staged_is_placed :
    (fails : ℕ → Bool) (d : Disk) (n key staged t : Text)
    (source destination : Result Fault FilePath)
    → path_of key ≡ source
    → path_of staged ≡ destination
    → parts staged ≡ trash_path n (parts key)
    → (stage_with fails d source destination staged).1 ≡ ok (some t)
    → IsTrashOf n key t
unfolding stage_with
staged_is_placed fails d n key staged t (err e) destination h k s m = absurd (cc)
staged_is_placed fails d n key staged t (ok p) (err e) h k s m = absurd (ground arith)
staged_is_placed fails d n key staged t (ok p) (ok q) h k s m =
    let (same, free, moves) = stage_with_moves fails d (ok p) (ok q) staged t m in
    (
      p,
      h,
      rw (same, k)
          (ap ok (sym (path_of-parts staged q k) ∙ s ∙ ap (trash_path n) (path_of-parts key p h))),
    )

module _ (fails : ℕ → Bool) where
  stage_delete_places :
      (d : Disk) (k t namespace : Text)
      → (stage_delete fails d k namespace).1 ≡ ok (some t)
      → IsTrashOf namespace k t
  unfolding stage_delete
  stage_delete_places d k t namespace h = elim (Bool-cases (is_namespace namespace)) [
    | inr bad ↦ absurd (ground (arith, rw bad at h))
    | inl good ↦
        staged_is_placed fails d namespace k (staged_key_of namespace k) t (path_of k)
          (path_of (staged_key_of namespace k)) refl refl (parts_staged namespace k good)
          (rw good at h)
  ]

  -- Whichever calls of the operating system fail, the file storage keeps the promises of the
  -- interface. Staging moves a file to the same path below the namespace's directory of
  -- `.retention-trash`, where there was no file; restoring moves a file back to a path where there is
  -- none; purging removes one; and a call of these that raises changes no file.
  pub local_storage-IsQuarantine :
      IsQuarantine (local_storage fails) disk_objects same_text_key IsTrashOf
  local_storage-IsQuarantine = record {
    reversible = local_storage-IsReversible fails;
    stage_places = λ d k t namespace h. stage_delete_places d k t namespace h;
  }
