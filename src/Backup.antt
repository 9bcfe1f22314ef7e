-- ===== src/Backup.antt =====
-- internal/backup/backup.go: what Create puts into an archive, what Restore writes, and what Cleanup removes.
-- Paths are absolute and clean: the row of their parts, each a row of bytes. The name of an entry of an
-- archive is the row of the parts between its slashes, so a part may be empty, `.` or `..`. The files of the system
-- are an association list from paths to bytes. Whether a file can be made is an argument, and so are the
-- files that the walk over the data directory meets, each with its bytes if it can be read.
pub mod Paths
pub mod Restored
pub mod Created
pub mod Retention
mod Tests
use remotty.Base.{
  ℕ, zero, suc, ◌-◌, String, Bool, true, false, ◌&&◌, ◌||◌, not, List, [], ◌∷◌, ◌++◌, Option, none,
  some, ◌==◌, nat_key, list_key, if◌then◌else◌, lookup, insert, ltb, length, is_some,
}
use remotty.Base.Int.{ℤ, pos, pos_part, leb_ℤ}
use remotty.Base.Text
use remotty.Base.Text.{codes}
use remotty.Backup.Paths.{Part, FilePath, target_path, rendered, has_prefix}

abbrev pub Files : Type 0
Files = List (FilePath × List ℕ)

pub record Entry : Type 0 where
  pub name : FilePath
  pub is_dir : Bool
  pub bytes : List ℕ

abbrev pub config_name : FilePath
config_name = codes "config.yaml" ∷ []

abbrev pub restored_config : FilePath
restored_config = codes "remotty.yaml" ∷ []

-- The `switch` on the name: what is joined to the target directory.
abbrev pub below_data : FilePath → FilePath
below_data [] = []
below_data (part ∷ []) = part ∷ []
below_data (part ∷ next ∷ parts) =
    if part == codes "data" then next ∷ parts else part ∷ next ∷ parts

abbrev pub relative_name : FilePath → FilePath
relative_name name = if name == config_name then restored_config else below_data name

pub data RestoreError : Type 0 where
  path_traversal cannot_write broken_archive : RestoreError

pub record Restoring : Type 0 where
  pub files : Files
  pub error : Option RestoreError

-- One entry of the archive.
unfoldable pub restore_entry : (FilePath → Bool) → FilePath → Entry → Files → Restoring
restore_entry makes dir entry files =
    let target = target_path dir (relative_name entry.name) in
    if not (has_prefix (rendered dir) (rendered target))
    then record { files = files; error = some path_traversal }
    else (if entry.is_dir
        then (if makes target
            then record { files = files; error = none }
            else record { files = files; error = some cannot_write })
        else (if makes target
            then record { files = insert target entry.bytes files; error = none }
            else record { files = files; error = some cannot_write }))

-- The loop of `Restore`, over an archive that ends well or breaks off.
unfoldable pub restore : (FilePath → Bool) → FilePath → List Entry → Bool → Files → Restoring
restore makes dir [] ends_well files = record {
  files = files;
  error = if ends_well then none else some broken_archive;
}
restore makes dir (entry ∷ entries) ends_well files =
    let done = restore_entry makes dir entry files in
    let rest = restore makes dir entries ends_well done.files in
    elim done.error [ none ↦ rest | some e ↦ done ]

-- A file that is met, by its path below the data directory.
pub record Found : Type 0 where
  pub rel : FilePath
  pub bytes : Option (List ℕ)

abbrev pub backup_dir_name : Part
backup_dir_name = codes "backups"

abbrev pub in_backups : FilePath → Bool
in_backups [] = false
in_backups (part ∷ parts) = part == backup_dir_name

abbrev pub file_entry : FilePath → List ℕ → Entry
file_entry name bytes = record { name = name; is_dir = false; bytes = bytes }

-- `addFileToTar` after the entries so far; a file that cannot be read ends the backup.
abbrev pub add_file : FilePath → Option (List ℕ) → Option (List Entry) → Option (List Entry)
add_file name none rest = none
add_file name (some bytes) none = none
add_file name (some bytes) (some rest) = some (file_entry name bytes ∷ rest)

-- The walk over the data directory, the backups left out.
unfoldable pub add_data : List Found → Option (List Entry)
add_data [] = some []
add_data (f ∷ fs) =
    let rest = add_data fs in
    if in_backups f.rel then rest else add_file (codes "data" ∷ f.rel) f.bytes rest

abbrev pub common_paths : List FilePath
common_paths =
    (codes "remotty.yaml" ∷ []) ∷ (codes "config.yaml" ∷ []) ∷ (codes "remotty.yml" ∷ []) ∷ []

unfoldable pub find_file : FilePath → List Found → Option Found
find_file rel [] = none
find_file rel (f ∷ fs) = if f.rel == rel then some f else find_file rel fs

abbrev pub is_at : Option FilePath → FilePath → Bool
is_at none p = false
is_at (some rel) p = rel == p

abbrev pub or_next : Option Found → Option Found → Option Found
or_next none rest = rest
or_next (some f) rest = some f

-- The first of the common paths that is there and is not the path of the configuration.
unfoldable pub common_file : Option FilePath → List FilePath → List Found → Option Found
unfolding find_file
common_file config [] fs = none
common_file config (p ∷ ps) fs =
    let rest = common_file config ps fs in
    if is_at config p then rest else or_next (find_file p fs) rest

-- The configuration file that is given and there: its path below the data directory, if it is
-- below it, and its bytes, if it can be read.
pub record ConfigFile : Type 0 where
  pub below : Option FilePath
  pub bytes : Option (List ℕ)

abbrev pub add_config : Option ConfigFile → Option (List Entry) → Option (List Entry)
add_config none rest = rest
add_config (some config) rest = add_file config_name config.bytes rest

abbrev pub add_common : Option Found → Option (List Entry) → Option (List Entry)
add_common none rest = rest
add_common (some f) rest = add_file f.rel f.bytes rest

abbrev pub not_empty : Option (List Entry) → Option (List Entry)
not_empty (some (e ∷ es)) = some (e ∷ es)
not_empty other = none

abbrev pub config_path : Option ConfigFile → Option FilePath
config_path none = none
config_path (some config) = config.below

-- `Create`: the entries of the archive, or none where it fails or there is nothing to keep.
unfoldable pub create : Option ConfigFile → List Found → Option (List Entry)
unfolding add_data common_file
create config found = not_empty (
    add_config config
      (add_common (common_file (config_path config) common_paths found) (add_data found)))

-- A backup that `List` finds, with its name and the time of its last change.
pub record Backup : Type 0 where
  pub name : String
  pub created : ℕ

-- `sort.Slice`, the newest first.
unfoldable pub insert_backup : Backup → List Backup → List Backup
insert_backup b [] = b ∷ []
insert_backup b (c ∷ cs) = if ltb b.created c.created then c ∷ insert_backup b cs else b ∷ c ∷ cs

unfoldable pub newest_first : List Backup → List Backup
unfolding insert_backup
newest_first [] = []
newest_first (b ∷ bs) = insert_backup b (newest_first bs)

-- What the directory of backups contains; the time of the last change is missing where it cannot be asked.
pub record DirEntry : Type 0 where
  pub name : String
  pub is_dir : Bool
  pub changed : Option ℕ

abbrev pub ends_with : List ℕ → List ℕ → Bool
ends_with [] end = [] == end
ends_with (c ∷ text) end = (c ∷ text) == end || ends_with text end

abbrev pub is_backup : DirEntry → Bool
is_backup e =
    not e.is_dir
    && (Text.has_prefix e.name "remotty_backup_" && ends_with (codes e.name) (codes ".tar.gz"))

-- The loop of `List`.
unfoldable pub backups_among : List DirEntry → List Backup
backups_among [] = []
backups_among (e ∷ es) =
    let rest = backups_among es in
    if is_backup e
    then (elim e.changed [
      | none ↦ rest
      | some time ↦ record { name = e.name; created = time } ∷ rest
    ])
    else rest

-- `List`, of a directory that can be read.
unfoldable pub list_backups : List DirEntry → List Backup
unfolding newest_first backups_among
list_backups es = newest_first (backups_among es)

abbrev pub max_backups : ℕ
max_backups = 10

-- 30 days, in nanoseconds.
abbrev pub max_backup_age : ℕ
max_backup_age = 2592000000000000

-- Beyond the number to keep, or before the cutoff.
abbrev pub is_stale : ℕ → ℕ → ℕ → Backup → Bool
is_stale keep cutoff i b = not (ltb i keep) || ltb b.created cutoff

-- The loop of `Cleanup`: what is kept, of backups from the index `i` on. A file that cannot be removed stays.
unfoldable pub keep_backups : (Backup → Bool) → ℕ → ℕ → ℕ → List Backup → List Backup
keep_backups removes keep cutoff i [] = []
keep_backups removes keep cutoff i (b ∷ bs) =
    let rest = keep_backups removes keep cutoff (suc i) bs in
    if is_stale keep cutoff i b && removes b then rest else b ∷ rest

abbrev pub or_else : ℤ → ℕ → ℕ
or_else n least = if leb_ℤ n (pos 0) then least else pos_part n

-- `Cleanup`, at a time that is not before the age: the backups that are left.
unfoldable pub cleanup_backups : (Backup → Bool) → ℤ → ℤ → ℕ → List DirEntry → List Backup
unfolding keep_backups list_backups
cleanup_backups removes max_keep max_age now es =
    keep_backups removes (or_else max_keep max_backups) (now - or_else max_age max_backup_age) 0
      (list_backups es)
