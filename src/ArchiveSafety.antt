-- ===== src/ArchiveSafety.antt =====
-- netbox_config_backup/drivers/archive_safety.py: the checks on a device's backup archive. Reading the archive formats is a parameter: the members that zipfile and
-- tarfile give, with the size that each declares and its kind, or nothing if they raise. The extraction
-- of members is not modelled. `posixpath.normpath` is modelled on the segments of a path.
pub mod Confined
pub mod Laws
mod Tests
use netbox_plugin_backup.Prelude.{
  ℕ, suc, ◌+◌, Bool, true, false, not, ◌&&◌, ◌||◌, Option, none, some, List, [], ◌∷◌, ◌++◌, map,
  reverse, String, Result, ok, err, ◌>>=◌, ◌>>◌, require, any_of, keep_if, length, leb, ltb,
  nat_beq, nat_eq, string_eq, list_eq, ◌==◌, ℤ, pos, negsuc, Text, codes, split, has_char,
  if◌then◌else◌,
}

-- `ArchiveCheck(False, message)` as an error, `ArchiveCheck(True)` as the total size.
pub data Rejection : Type 0 where
  rejected : String → Rejection

-- A name, a size and whether the entry is a link, as `_entries` gives them.
pub record Entry : Type 0 where
  pub name : Text
  pub size : ℤ
  pub is_link : Bool

-- One component of a path: nothing or a dot, two dots, or a name.
pub data Segment : Type 0 where
  here up : Segment
  down : Text → Segment

abbrev pub segment_of : Text → Segment
segment_of part =
    if part == [] || part == codes "." then here else if part == codes ".." then up else down part

-- `name.replace("\\", "/")`
abbrev pub with_slashes : Text → Text
with_slashes name = map (λ c. if nat_beq c 92 then 47 else c) name

abbrev pub segments_of : Text → List Segment
segments_of name = map segment_of (split 47 (with_slashes name))

abbrev pub is_absolute : Text → Bool
is_absolute [] = false
is_absolute (c ∷ name) = nat_beq c 47 || nat_beq c 92

-- One turn of `normpath`: the components so far, the last one first.
abbrev pub norm_step : Bool → Segment → List Segment → List Segment
norm_step absolute here stack = stack
norm_step absolute (down part) stack = down part ∷ stack
norm_step absolute up [] = if absolute then [] else up ∷ []
norm_step absolute up (up ∷ stack) = up ∷ up ∷ stack
norm_step absolute up (here ∷ stack) = stack
norm_step absolute up (down part ∷ stack) = stack

unfoldable pub normalize : Bool → List Segment → List Segment → List Segment
normalize absolute [] stack = stack
normalize absolute (s ∷ segments) stack = normalize absolute segments (norm_step absolute s stack)

-- The first component of the normalized path; without any the path is a dot.
unfoldable pub first_of : List Segment → Segment
first_of [] = here
first_of (s ∷ []) = s
first_of (s ∷ t ∷ stack) = first_of (t ∷ stack)

abbrev pub is_up : Segment → Bool
is_up up = true
is_up here = false
is_up (down part) = false

abbrev pub names_drive : Segment → Bool
names_drive (down part) = has_char 58 part
names_drive here = false
names_drive up = false

-- A path that is refused: no name, one that leaves the directory, an absolute one, a drive, a link.
unfoldable pub is_unsafe : Entry → Bool
unfolding normalize first_of
is_unsafe e =
    let absolute = is_absolute e.name in
    let first = first_of (normalize absolute (segments_of e.name) []) in
    e.name == [] || is_up first || absolute || names_drive first || e.is_link

abbrev unsafe_path : Rejection
unsafe_path = rejected "The device backup archive contains an unsafe path."

abbrev pub too_large : Rejection
too_large = rejected "The expanded device backup archive is too large."

-- The loop over the entries, with the total so far.
abbrev pub add_size : ℕ → ℕ → ℤ → Result Rejection ℕ
add_size limit total (negsuc n) = err too_large
add_size limit total (pos n) = if ltb limit (total + n) then err too_large else ok (total + n)

unfoldable pub check_entries : ℕ → List Entry → ℕ → Result Rejection ℕ
unfolding is_unsafe
check_entries limit [] total = ok total
check_entries limit (e ∷ entries) total = do
  require (not (is_unsafe e)) unsafe_path
  next ← add_size limit total e.size
  check_entries limit entries next

abbrev pub is_nonempty_list : {A : Type 0} → List A → Bool
is_nonempty_list [] = false
is_nonempty_list (x ∷ xs) = true

-- A member of `ZipFile.infolist`, and one of `TarFile.getmembers` with the kind that `isfile`,
-- `issym` and `islnk` tell: directories, devices and pipes are other.
pub record ZipMember : Type 0 where
  pub filename : Text
  pub file_size : ℤ
  pub is_dir : Bool

pub data TarKind : Type 0 where
  regular symbolic_link hard_link other : TarKind

pub record TarMember : Type 0 where
  pub name : Text
  pub size : ℤ
  pub kind : TarKind

-- What the two libraries read from the content, or nothing if they raise.
pub record Content : Type 0 where
  pub zip : Option (List ZipMember)
  pub tgz : Option (List TarMember)

unfoldable pub zip_entries : List ZipMember → List Entry
zip_entries [] = []
zip_entries (m ∷ ms) =
    let rest = zip_entries ms in
    if m.is_dir
    then rest
    else record { name = m.filename; size = m.file_size; is_link = false } ∷ rest

abbrev pub is_link_kind : TarKind → Bool
is_link_kind TarKind.symbolic_link = true
is_link_kind TarKind.hard_link = true
is_link_kind _ = false

abbrev pub is_file_kind : TarKind → Bool
is_file_kind TarKind.regular = true
is_file_kind _ = false

unfoldable pub tgz_entries : List TarMember → List Entry
tgz_entries [] = []
tgz_entries (m ∷ ms) =
    let rest = tgz_entries ms in
    if is_file_kind m.kind || is_link_kind m.kind
    then record { name = m.name; size = m.size; is_link = is_link_kind m.kind } ∷ rest
    else rest

abbrev pub read_members :
    {A : Type 0} → (List A → List Entry) → Option (List A) → Option (List Entry)
read_members entries none = none
read_members entries (some ms) = some (entries ms)

-- `_entries`: nothing if it raises, which it does for another kind too.
unfoldable pub entries_of : Content → String → Option (List Entry)
unfolding zip_entries tgz_entries
entries_of content kind =
    if kind == "zip"
    then read_members zip_entries content.zip
    else if kind == "tgz"
    then read_members tgz_entries content.tgz
    else none

unfoldable pub check_archive : Option (List Entry) → ℕ → ℕ → Result Rejection ℕ
check_archive none max_entries max_bytes =
    err (rejected "The device backup archive is invalid or corrupted.")
check_archive (some entries) max_entries max_bytes = do
  require (is_nonempty_list entries) (rejected "The device backup archive contains no files.")
  require (leb (length entries) max_entries)
      (rejected "The device backup archive contains too many files.")
  check_entries max_bytes entries 0

unfoldable pub validate_archive : Content → String → ℕ → ℕ → Result Rejection ℕ
unfolding check_archive entries_of
validate_archive content kind max_entries max_bytes =
    check_archive (entries_of content kind) max_entries max_bytes
