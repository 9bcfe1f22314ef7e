-- ===== src/Backup/Tests.antt =====
-- The theorems on backups at concrete inputs.
use remotty.Base.{
  ◌-◌, ◌≡◌, refl, ◌≢◌, Bool, true, false, List, [], ◌∷◌, ◌++◌, none, some, arith, insert, nat_key,
  list_key,
}
use remotty.Base.Int.{pos}
use remotty.Base.Text.{codes}
use remotty.Backup.Paths.{FilePath, target_path, walk, reverse_onto, rendered, has_prefix}
use remotty.Backup.{
  Entry, Found, ConfigFile, file_entry, create, add_data, common_file, find_file, DirEntry,
  backups_among, list_backups, restore, restore_entry, cleanup_backups, keep_backups, newest_first,
  insert_backup, path_traversal,
}
use remotty.Backup.Restored.{IsContained, restore-IsContained, restore-sibling}
use remotty.Backup.Created.{AreFound, IsRestored, restore-create}
use remotty.Backup.Retention.{IsRetained, cleanup_backups-IsRetained}

abbrev makes : FilePath → Bool
makes path = true

-- /d/r
abbrev dir : FilePath
dir = codes "d" ∷ codes "r" ∷ []

-- ../r-x/f
abbrev sibling : FilePath
sibling = codes ".." ∷ codes "r-x" ∷ codes "f" ∷ []

restore-IsContained_example :
    IsContained dir
      (file_entry sibling (1 ∷ []) ∷ [])
      []
      (restore makes dir (file_entry sibling (1 ∷ []) ∷ []) true [])
restore-IsContained_example =
    restore-IsContained makes dir (file_entry sibling (1 ∷ []) ∷ []) true [] (omega arith)
      (omega arith)

restore-sibling_example :
    (restore_entry makes dir (file_entry sibling (1 ∷ [])) [] ≡ record {
      files = insert (codes "d" ∷ codes "r-x" ∷ codes "f" ∷ []) (1 ∷ []) [];
      error = none;
    })
    × ((rest : FilePath) → (codes "d" ∷ codes "r-x" ∷ codes "f" ∷ []) ≢ dir ++ rest)
restore-sibling_example =
    restore-sibling makes (codes "d" ∷ []) (codes "r") (codes "-x") (codes "f" ∷ []) (1 ∷ []) []
      (λ e. cc) ((refl, refl), ((refl, refl), tt)) refl

traversal_test :
    restore makes dir (file_entry (codes ".." ∷ codes "etc" ∷ []) (1 ∷ []) ∷ []) true []
    ≡ record { files = []; error = some path_traversal }
unfolding restore restore_entry target_path walk reverse_onto rendered has_prefix
traversal_test = refl

-- The data directory has a configuration and a backup.
abbrev found : List Found
found =
    (record { rel = codes "backups" ∷ codes "b" ∷ []; bytes = some (9 ∷ []) })
    ∷ (record { rel = codes "remotty.yaml" ∷ []; bytes = some (2 ∷ []) })
    ∷ []

abbrev given : ConfigFile
given = record { below = none; bytes = some (1 ∷ []) }

abbrev archive : List Entry
archive =
    file_entry (codes "config.yaml" ∷ []) (1 ∷ [])
    ∷ file_entry (codes "remotty.yaml" ∷ []) (2 ∷ [])
    ∷ file_entry (codes "data" ∷ codes "remotty.yaml" ∷ []) (2 ∷ [])
    ∷ []

archive_test : create (some given) found ≡ some archive
unfolding create add_data common_file find_file
archive_test = refl

found-AreFound : AreFound found
unfolding find_file
found-AreFound = (
  (record { some_part = λ e. cc; plain = ((refl, refl), ((refl, refl), tt)) }, refl),
  ((record { some_part = λ e. cc; plain = ((refl, refl), tt) }, refl), tt),
)

restore-create_example : IsRestored dir found (restore makes dir archive true [])
restore-create_example =
    restore-create makes dir (some given) found archive [] (λ path. refl) found-AreFound
      archive_test

abbrev listing : List DirEntry
listing =
    (record { name = "remotty_backup_1.tar.gz"; is_dir = false; changed = some 10 })
    ∷ (record { name = "remotty_backup_3.tar.gz"; is_dir = false; changed = some 30 })
    ∷ (record { name = "notes.txt"; is_dir = false; changed = some 39 })
    ∷ (record { name = "remotty_backup_2.tar.gz"; is_dir = false; changed = some 20 })
    ∷ []

cleanup_backups-IsRetained_example :
    IsRetained 2
      (40 - 25)
      (backups_among listing)
      (cleanup_backups (λ b. true) (pos 2) (pos 25) 40 listing)
cleanup_backups-IsRetained_example =
    cleanup_backups-IsRetained (λ b. true) (pos 2) (pos 25) 40 listing (λ b. refl)

cleanup_test :
    cleanup_backups (λ b. true) (pos 2) (pos 25) 40 listing
    ≡ (record { name = "remotty_backup_3.tar.gz"; created = 30 })
      ∷ (record { name = "remotty_backup_2.tar.gz"; created = 20 })
      ∷ []
unfolding cleanup_backups keep_backups list_backups backups_among newest_first insert_backup
cleanup_test = refl
