-- ===== src/Backup/Restored.antt =====
-- internal/backup/backup.go, Restore: where it writes.
use mathlib.Core.Path.{subst}
use remotty.Base.{
  ℕ, ◌≡◌, refl, ◌≢◌, Bool, true, false, not, List, [], ◌∷◌, ◌++◌, none, some, ◌==◌, nat_key,
  list_key, lookup, insert, lookup-insert, arith, ap, ◌∙◌, All, ==_iff, Bool-cases, Option-cases,
  inl, inr, if_true, if_false, if_case,
}
use remotty.Base.Text.{codes}
use remotty.Backup.Paths.{
  Part, FilePath, NoSlash, IsBeside, IsPlain, rendered, has_prefix, target_path, prefix_iff,
  target_path-NoSlash, target_path-up, beside-prefix,
}
use remotty.Backup.{
  Files, Entry, config_name, restored_config, below_data, relative_name, path_traversal, Restoring,
  restore_entry, restore,
}

-- Where an entry is restored to.
abbrev pub target_of : FilePath → Entry → FilePath
target_of dir entry = target_path dir (relative_name entry.name)

-- The parts of the names have no slash, since the slashes are what parts them.
abbrev pub IsNamed : Entry → Type 0
IsNamed entry = All NoSlash entry.name

relative_name-NoSlash : (name : FilePath) → All NoSlash name → All NoSlash (relative_name name)
relative_name-NoSlash name h =
    if_case (All NoSlash) (name == config_name) restored_config (below_data name) (λ e. omega arith)
      (λ e. below name h)
  where
    below : (name : FilePath) → All NoSlash name → All NoSlash (below_data name)
    below [] h = tt
    below (part ∷ []) h = h
    below (part ∷ next ∷ parts) h =
        if_case (All NoSlash) (part == codes "data") (next ∷ parts) (part ∷ next ∷ parts) (λ e. h.1)
          (λ e. h)

target_of-IsBeside :
    (dir : FilePath) (entry : Entry)
    → All NoSlash dir
    → IsNamed entry
    → has_prefix (rendered dir) (rendered (target_of dir entry)) ≡ true
    → IsBeside dir (target_of dir entry)
target_of-IsBeside dir entry h k e =
    (prefix_iff dir (target_of dir entry) h (
        target_path-NoSlash dir (relative_name entry.name) h
          (relative_name-NoSlash entry.name k))).0
      e

-- A file is written at the target.
pub written_others :
    (target path : FilePath) (bytes : List ℕ) (files : Files)
    → target ≢ path
    → lookup path (insert target bytes files) ≡ lookup path files
written_others target path bytes files apart =
    lookup-insert target path bytes files
    ∙ if_false (target == path) _ _ (elim (Bool-cases (target == path)) [
      | inl e ↦ absurd (apart ((==_iff target path).0 e))
      | inr e ↦ e
    ])

entry_others :
    (makes : FilePath → Bool) (dir : FilePath) (entry : Entry) (files : Files) (path : FilePath)
    → All NoSlash dir
    → IsNamed entry
    → ¬ IsBeside dir path
    → lookup path (restore_entry makes dir entry files).files ≡ lookup path files
unfolding restore_entry
entry_others makes dir entry files path h k outside =
    let target = target_of dir entry in
    let same = λ (r : Restoring). lookup path r.files ≡ lookup path files in
    if_case same (not (has_prefix (rendered dir) (rendered target))) _ _ (λ e. refl)
      (λ e.
        if_case same entry.is_dir _ _ (λ d. if_case same (makes target) _ _ (λ m. refl) (λ m. refl))
          (λ d.
            if_case same (makes target) _ _
              (λ m. written_others target path entry.bytes files (λ q.
                outside
                  (subst (IsBeside dir) q (target_of-IsBeside dir entry h k (ground (arith, e))))))
              (λ m. refl)))

refused :
    (makes : FilePath → Bool) (dir : FilePath) (entry : Entry) (files : Files)
    → has_prefix (rendered dir) (rendered (target_of dir entry)) ≡ false
    → (restore_entry makes dir entry files).error ≡ some path_traversal
unfolding restore_entry
refused makes dir entry files e =
    let stops : not (has_prefix (rendered dir) (rendered (target_of dir entry))) ≡ true =
      ground (arith, e) in
    ap (λ (r : Restoring). r.error) (if_true _ _ _ stops)

entry-IsBeside :
    (makes : FilePath → Bool) (dir : FilePath) (entry : Entry) (files : Files)
    → All NoSlash dir
    → IsNamed entry
    → (restore_entry makes dir entry files).error ≡ none
    → IsBeside dir (target_of dir entry)
unfolding restore_entry
entry-IsBeside makes dir entry files h k fine =
    elim (Bool-cases (has_prefix (rendered dir) (rendered (target_of dir entry)))) [
      | inl e ↦ target_of-IsBeside dir entry h k e
      | inr e ↦ absurd (cc (fine, refused makes dir entry files e))
    ]

-- What `Restore` did, with an error or without one.
pub record IsContained (dir : FilePath) (entries : List Entry) (files : Files) (out : Restoring)
    : Type 0 where
  pub others : (path : FilePath) → ¬ IsBeside dir path → lookup path out.files ≡ lookup path files
  pub all_beside : out.error ≡ none → All (λ entry. IsBeside dir (target_of dir entry)) entries

-- Whatever an archive contains, Restore changes no file that is not beside the directory it restores into, which means
-- at or below it, or at or below one with the same parent whose name begins with the name of the directory; and
-- where it ends without an error, the target of every entry is beside the directory. The parts of the directory and of the
-- names in the archive have no slash.
pub restore-IsContained :
    (makes : FilePath → Bool) (dir : FilePath) (entries : List Entry) (ends_well : Bool)
    (files : Files)
    → All NoSlash dir
    → All IsNamed entries
    → IsContained dir entries files (restore makes dir entries ends_well files)
unfolding restore
restore-IsContained makes dir [] ends_well files h k = record {
  others = λ path outside. refl;
  all_beside = λ fine. tt;
}
restore-IsContained makes dir (entry ∷ entries) ends_well files h k =
    let done = restore_entry makes dir entry files in
    let rest = restore-IsContained makes dir entries ends_well done.files h k.1 in
    elim (Option-cases done.error) [
      | inl fine ↦
          rw (fine, restore)
            (record {
              others = λ path outside.
                  rest.others path outside ∙ entry_others makes dir entry files path h k.0 outside;
              all_beside =
                  λ q. (entry-IsBeside makes dir entry files h k.0 fine, rest.all_beside q);
            })
      | inr (e, failed) ↦
          rw (failed, restore)
            (record {
              others = λ path outside. entry_others makes dir entry files path h k.0 outside;
              all_beside = λ q. absurd (cc (q, failed));
            })
    ]

-- A file whose target passes the check and can be made.
pub restore_entry-writes :
    (makes : FilePath → Bool) (dir : FilePath) (entry : Entry) (files : Files) (target : FilePath)
    → target_of dir entry ≡ target
    → has_prefix (rendered dir) (rendered target) ≡ true
    → entry.is_dir ≡ false
    → makes target ≡ true
    → restore_entry makes dir entry files
      ≡ record { files = insert target entry.bytes files; error = none }
unfolding restore_entry
restore_entry-writes makes dir entry files target at passes plain made =
    let passes' : not (has_prefix (rendered dir) (rendered (target_of dir entry))) ≡ false =
      ap (λ t. not (has_prefix (rendered dir) (rendered t))) at ∙ ap not passes in
    let made' : makes (target_of dir entry) ≡ true = ap makes at ∙ made in
    if_false _ _ _ passes'
    ∙ if_false _ _ _ plain
    ∙ if_true _ _ _ made'
    ∙ ap (λ t. record { files = insert t entry.bytes files; error = none }) at

longer_part : (d s : Part) → s ≢ [] → (d ++ s) ≢ d
longer_part [] s h e = h e
longer_part (c ∷ d) s h e = longer_part d s h (cc (e))

not_below :
    (parents : FilePath) (d s : Part) (name rest : FilePath)
    → s ≢ []
    → (parents ++ ((d ++ s) ∷ name)) ≢ ((parents ++ (d ∷ [])) ++ rest)
not_below [] d s name rest h e = longer_part d s h (cc (e))
not_below (p ∷ parents) d s name rest h e = not_below parents d s name rest h (cc (e))

-- The check of Restore looks at the text of the path only: for a directory with the name `d` in any parent, an entry
-- of an archive whose name leads up and then into `d` with something after it, and that can be made, is written there
-- without an error, which is not at or below the directory.
pub restore-sibling :
    (makes : FilePath → Bool) (parents : FilePath) (d s : Part) (name : FilePath) (bytes : List ℕ)
    (files : Files)
    → s ≢ []
    → All IsPlain ((d ++ s) ∷ name)
    → let dir = parents ++ (d ∷ []) in
      let target = parents ++ ((d ++ s) ∷ name) in
      makes target ≡ true
      → (restore_entry makes dir
            (record { name = (46 ∷ 46 ∷ []) ∷ ((d ++ s) ∷ name); is_dir = false; bytes = bytes })
            files
          ≡ record { files = insert target bytes files; error = none })
        × ((rest : FilePath) → target ≢ dir ++ rest)
restore-sibling makes parents d s name bytes files some' plain made = (
  restore_entry-writes makes (parents ++ (d ∷ []))
      (record { name = (46 ∷ 46 ∷ []) ∷ ((d ++ s) ∷ name); is_dir = false; bytes = bytes }) files
      (parents ++ ((d ++ s) ∷ name)) (target_path-up parents d ((d ++ s) ∷ name) plain)
      (beside-prefix parents d s name) refl made,
  λ rest. not_below parents d s name rest some',
)
