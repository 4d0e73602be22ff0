-- ===== src/ArchiveSafety/Tests.antt =====
-- The theorem on the checks of an archive, applied to a gzipped tar archive.
use netbox_plugin_backup.Prelude.{
  ℕ, ◌≡◌, refl, true, false, none, some, [], ◌∷◌, err, pos, Text, codes, nat_eq, list_eq, string_eq,
}
use netbox_plugin_backup.Prelude.Texts.{split}
use netbox_plugin_backup.ArchiveSafety.{
  Content, TarMember, TarKind, normalize, first_of, is_unsafe, check_entries, zip_entries,
  tgz_entries, entries_of, check_archive, validate_archive, rejected,
}

abbrev member : Text → ℕ → TarKind → TarMember
member name size kind = record { name = name; size = pos size; kind = kind }

-- Two files and a directory.
abbrev backup : Content
backup = record {
  zip = none;
  tgz = some (
      member (codes "conf/../conf/a.cfg") 10 TarKind.regular
      ∷ member (codes "../conf") 0 TarKind.other
      ∷ member (codes "b.cfg") 20 TarKind.regular
      ∷ []);
}

-- A name that leaves the directory, however it comes back, in a zip file with a directory.
abbrev zipped : Content
zipped = record {
  zip = some (
      record { filename = codes "../"; file_size = pos 0; is_dir = true }
      ∷ record { filename = codes "a/..\\../etc/a"; file_size = pos 1; is_dir = false }
      ∷ []);
  tgz = none;
}

traversal :
    validate_archive zipped "zip" 2000 100
    ≡ err (rejected "The device backup archive contains an unsafe path.")
unfolding validate_archive check_archive entries_of zip_entries check_entries is_unsafe normalize
    first_of split
traversal = refl

-- A link is refused.
linked :
    validate_archive
      (record { zip = none; tgz = some (member (codes "a") 1 TarKind.symbolic_link ∷ []) })
      "tgz"
      2000
      100
    ≡ err (rejected "The device backup archive contains an unsafe path.")
unfolding validate_archive check_archive entries_of tgz_entries check_entries is_unsafe normalize
    first_of split
linked = refl
