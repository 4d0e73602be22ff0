-- ===== src/ArchiveSafety/Laws.antt =====
-- Proofs on netbox_config_backup/drivers/archive_safety.py: which archives pass the checks.
use netbox_plugin_backup.Prelude.{
  ℕ, ◌+◌, ◌≤◌, ◌≡◌, ◌⊎◌, Bool, true, false, not, some, List, [], ◌∷◌, count_if, String, nat_eq,
  list_eq, All, ℤ, pos, negsuc, if◌then◌else◌,
}
use netbox_plugin_backup.ArchiveSafety.{Entry, ZipMember, TarMember, TarKind, Content, is_file_kind}
use netbox_plugin_backup.ArchiveSafety.Confined.{IsConfined}

-- An entry that passes the checks.
abbrev IsFine : Entry → Type 0
IsFine e = IsConfined e.name × (e.is_link ≡ false) × (n : ℕ) × (e.size ≡ pos n)

-- The sizes added up; an entry of a negative size adds nothing.
abbrev size_of : ℤ → ℕ
size_of (pos n) = n
size_of (negsuc n) = 0

total_size_of : List Entry → ℕ
total_size_of [] = 0
total_size_of (e ∷ entries) = size_of e.size + total_size_of entries

-- A member that unpacking cannot hurt: a directory of a zip file; or a file whose name is confined,
-- with a size that is a number. A tar archive may also have members that are neither files nor links.
pub IsSafeZip : ZipMember → Type 0
IsSafeZip m = (m.is_dir ≡ true) ⊎ (IsConfined m.filename × (n : ℕ) × (m.file_size ≡ pos n))

pub IsSafeTgz : TarMember → Type 0
IsSafeTgz m =
    (m.kind ≡ TarKind.other)
    ⊎ ((m.kind ≡ TarKind.regular) × IsConfined m.name × (n : ℕ) × (m.size ≡ pos n))

abbrev pub is_zip_file : ZipMember → Bool
is_zip_file m = not m.is_dir

abbrev pub is_tgz_file : TarMember → Bool
is_tgz_file m = is_file_kind m.kind

-- The sizes of the members that count, added up.
abbrev pub sizes_of : {A : Type 0} → (A → Bool) → (A → ℤ) → List A → ℕ
sizes_of counts size [] = 0
sizes_of counts size (m ∷ ms) =
    if counts m then size_of (size m) + sizes_of counts size ms else sizes_of counts size ms

-- What passing the checks says of the members.
pub record IsSafe {A : Type 0} (P : A → Type 0) (counts : A → Bool) (size : A → ℤ) (ms : List A)
    (max_entries max_bytes total : ℕ) : Type 0 where
  pub safe : All P ms
  pub some_file : 1 ≤ count_if counts ms
  pub few_files : count_if counts ms ≤ max_entries
  pub summed : sizes_of counts size ms ≡ total
  pub small : total ≤ max_bytes

-- What passing the checks says of an archive of either format.
pub IsSafeArchive : Content → String → ℕ → ℕ → ℕ → Type 0
IsSafeArchive content kind max_entries max_bytes total =
    ((kind ≡ "zip")
      × (ms : List ZipMember) × (content.zip ≡ some ms)
      × IsSafe IsSafeZip is_zip_file (λ m. m.file_size) ms max_entries max_bytes total)
    ⊎ ((kind ≡ "tgz")
        × (ms : List TarMember) × (content.tgz ≡ some ms)
        × IsSafe IsSafeTgz is_tgz_file (λ m. m.size) ms max_entries max_bytes total)
