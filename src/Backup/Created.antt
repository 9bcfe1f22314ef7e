-- ===== src/Backup/Created.antt =====
-- internal/backup/backup.go: what Restore makes of an archive of Create.
use mathlib.Core.Path.{subst}
use remotty.Base.{
  ℕ, ◌≡◌, refl, ◌≢◌, ◌⊎◌, inl, inr, Bool, true, false, List, [], ◌∷◌, ◌++◌, Option, none, some,
  ◌==◌, nat_key, list_key, lookup, insert, lookup-insert, ap, ◌∙◌, sym, All, ==_iff, ==_self,
  Bool-cases, if_true, if_false, true≢false, some_inj,
}
use remotty.Base.Text.{codes}
use remotty.Backup.Paths.{FilePath, IsPlain, target_path, target_path-plain, below-prefix}
use remotty.Backup.{
  Files, Entry, Found, ConfigFile, config_name, relative_name, in_backups, file_entry, add_file,
  add_data, add_config, add_common, common_file, common_paths, config_path, not_empty, create,
  find_file, is_at, or_next, restored_config, Restoring, restore_entry, restore,
}
use remotty.Backup.Restored.{written_others, restore_entry-writes}

-- The path of a file below the data directory: it has parts, and each stands for itself.
pub record IsBelow (rel : FilePath) : Type 0 where
  pub some_part : rel ≢ []
  pub plain : All IsPlain rel

-- The walk meets each file once.
abbrev pub AreFound : List Found → Type 0
AreFound [] = Unit {0}
AreFound (f ∷ fs) = (IsBelow f.rel × (find_file f.rel fs ≡ none)) × AreFound fs

-- An entry that is restored leaves the rest of the archive to be restored.
next_entry :
    (makes : FilePath → Bool) (dir : FilePath) (entry : Entry) (entries : List Entry)
    (ends_well : Bool) (files next : Files)
    → restore_entry makes dir entry files ≡ record { files = next; error = none }
    → restore makes dir (entry ∷ entries) ends_well files ≡ restore makes dir entries ends_well next
unfolding restore
next_entry makes dir entry entries ends_well files next done =
    rw (done, restore) (ap (λ (r : Restoring). restore makes dir entries ends_well r.files) done)

data_target : (rel : FilePath) → rel ≢ [] → relative_name (codes "data" ∷ rel) ≡ rel
data_target [] h = absurd (h refl)
data_target (part ∷ parts) h = refl

-- An entry below `data/` goes to its path below the directory.
data_entry :
    (makes : FilePath → Bool) (dir rel : FilePath) (bytes : List ℕ) (files : Files)
    → ((path : FilePath) → makes path ≡ true)
    → IsBelow rel
    → restore_entry makes dir (file_entry (codes "data" ∷ rel) bytes) files
      ≡ record { files = insert (dir ++ rel) bytes files; error = none }
data_entry makes dir rel bytes files made w =
    restore_entry-writes makes dir (file_entry (codes "data" ∷ rel) bytes) files (dir ++ rel)
      (ap (target_path dir) (data_target rel w.some_part) ∙ target_path-plain dir rel w.plain)
      (below-prefix dir rel) refl (made (dir ++ rel))

same_below : (dir rel other : FilePath) → (dir ++ rel) ≡ (dir ++ other) → rel ≡ other
same_below [] rel other e = e
same_below (d ∷ dir) rel other e = same_below dir rel other (cc (e))

other_file :
    (dir rel other : FilePath) (bytes : List ℕ) (files : Files)
    → rel ≢ other
    → lookup (dir ++ other) (insert (dir ++ rel) bytes files) ≡ lookup (dir ++ other) files
other_file dir rel other bytes files apart =
    written_others (dir ++ rel) (dir ++ other) bytes files (λ e. apart (same_below dir rel other e))

own_file :
    (path : FilePath) (bytes : List ℕ) (files : Files)
    → lookup path (insert path bytes files) ≡ some bytes
own_file path bytes files = lookup-insert path path bytes files ∙ if_true _ _ _ (==_self path)

add_file-some :
    (name : FilePath) (o : Option (List ℕ)) (rest : Option (List Entry)) (entries : List Entry)
    → add_file name o rest ≡ some entries
    → (bytes : List ℕ) × ((es : List Entry) × (((o ≡ some bytes) × (rest ≡ some es))
          × (entries ≡ file_entry name bytes ∷ es)))
add_file-some name none rest entries e = absurd (cc)
add_file-some name (some bytes) none entries e = absurd (cc)
add_file-some name (some bytes) (some es) entries e =
    (bytes, (es, ((refl, refl), sym (some_inj _ _ e))))

-- What restoring the entries of a walk does: no error, each file of the walk outside the backups is there, and what the walk
-- did not meet is as it was.
record IsReplayed (dir : FilePath) (fs : List Found) (files : Files) (out : Restoring)
    : Type 0 where
  no_error : out.error ≡ none
  there :
      (rel : FilePath) (f : Found) (bytes : List ℕ)
      → find_file rel fs ≡ some f
      → in_backups rel ≡ false
      → f.bytes ≡ some bytes
      → lookup (dir ++ rel) out.files ≡ some bytes
  others :
      (rel : FilePath)
      → find_file rel fs ≡ none
      → lookup (dir ++ rel) out.files ≡ lookup (dir ++ rel) files

nothing_restored :
    (makes : FilePath → Bool) (dir : FilePath) (files : Files)
    → IsReplayed dir [] files (restore makes dir [] true files)
unfolding restore find_file
nothing_restored makes dir files = record {
  no_error = refl;
  there = λ rel f bytes q. absurd (cc);
  others = λ rel q. refl;
}

-- The files after one that is restored.
kept-IsReplayed :
    (dir : FilePath) (f : Found) (fs : List Found) (files : Files) (bytes : List ℕ)
    (out : Restoring)
    → find_file f.rel fs ≡ none
    → f.bytes ≡ some bytes
    → IsReplayed dir fs (insert (dir ++ f.rel) bytes files) out
    → IsReplayed dir (f ∷ fs) files out
unfolding find_file
kept-IsReplayed dir f fs files bytes out once read rest = record {
  no_error = rest.no_error;
  there = λ rel g bs q inside held. elim (Bool-cases (f.rel == rel)) [
    | inl same ↦
        let at : f.rel ≡ rel = (==_iff f.rel rel).0 same in
        let it : f ≡ g = some_inj f g (sym (if_true (f.rel == rel) _ _ same) ∙ q) in
        let value : some bytes ≡ some bs = sym read ∙ ap (λ (f : Found). f.bytes) it ∙ held in
        ap (λ r. lookup (dir ++ r) out.files) (sym at)
        ∙ rest.others f.rel once
        ∙ own_file (dir ++ f.rel) bytes files
        ∙ value
    | inr apart ↦ rest.there rel g bs (sym (if_false _ _ _ apart) ∙ q) inside held
  ];
  others = λ rel q. elim (Bool-cases (f.rel == rel)) [
    | inl same ↦ absurd (cc (sym (if_true (f.rel == rel) (some f) (find_file rel fs) same) ∙ q))
    | inr apart ↦
        rest.others rel (sym (if_false _ _ _ apart) ∙ q)
        ∙ other_file dir f.rel rel bytes files (λ e. true≢false ((==_iff f.rel rel).1 e) apart)
  ];
}

data-IsReplayed :
    (makes : FilePath → Bool) (dir : FilePath) (fs : List Found) (entries : List Entry)
    (files : Files)
    → ((path : FilePath) → makes path ≡ true)
    → AreFound fs
    → add_data fs ≡ some entries
    → IsReplayed dir fs files (restore makes dir entries true files)
unfolding add_data find_file
data-IsReplayed makes dir [] entries files made w e =
    subst (λ es. IsReplayed dir [] files (restore makes dir es true files)) (some_inj [] entries e)
      (nothing_restored makes dir files)
data-IsReplayed makes dir (f ∷ fs) entries files made w e = elim (Bool-cases (in_backups f.rel)) [
  | inl kept_out ↦
      let rest =
        data-IsReplayed makes dir fs entries files made w.1 (sym (if_true _ _ _ kept_out) ∙ e) in
      record {
        no_error = rest.no_error;
        there = λ rel g bs q out read. elim (Bool-cases (f.rel == rel)) [
          | inl same ↦
              absurd (true≢false kept_out (ap in_backups ((==_iff f.rel rel).0 same) ∙ out))
          | inr apart ↦ rest.there rel g bs (sym (if_false _ _ _ apart) ∙ q) out read
        ];
        others = λ rel q. elim (Bool-cases (f.rel == rel)) [
          | inl same ↦
              absurd (cc (sym (if_true (f.rel == rel) (some f) (find_file rel fs) same) ∙ q))
          | inr apart ↦ rest.others rel (sym (if_false _ _ _ apart) ∙ q)
        ];
      }
  | inr kept ↦
      let (bytes, (es, ((read, walked), first))) =
        add_file-some (codes "data" ∷ f.rel) f.bytes (add_data fs) entries
          (sym (if_false _ _ _ kept) ∙ e) in
      let rest =
        data-IsReplayed makes dir fs es (insert (dir ++ f.rel) bytes files) made w.1 walked in
      let step =
        ap (λ es. restore makes dir es true files) first
        ∙ next_entry makes dir _ es true files _
            (data_entry makes dir f.rel bytes files made w.0.0) in
      subst (IsReplayed dir (f ∷ fs) files) (sym step)
        (kept-IsReplayed dir f fs files bytes _ w.0.1 read rest)
]

-- An entry in front of the data goes below the directory too.
abbrev IsFront : FilePath → Type 0
IsFront name = IsBelow (relative_name name)

front_entry :
    (makes : FilePath → Bool) (dir name : FilePath) (bytes : List ℕ) (files : Files)
    → ((path : FilePath) → makes path ≡ true)
    → IsFront name
    → restore_entry makes dir (file_entry name bytes) files
      ≡ record { files = insert (dir ++ relative_name name) bytes files; error = none }
front_entry makes dir name bytes files made w =
    restore_entry-writes makes dir (file_entry name bytes) files (dir ++ relative_name name)
      (target_path-plain dir (relative_name name) w.plain) (below-prefix dir (relative_name name))
      refl (made (dir ++ relative_name name))

find_file-rel :
    (rel : FilePath) (fs : List Found) (f : Found) → find_file rel fs ≡ some f → f.rel ≡ rel
unfolding find_file
find_file-rel rel [] f e = absurd (cc)
find_file-rel rel (g ∷ fs) f e = elim (Bool-cases (g.rel == rel)) [
  | inl same ↦
      ap (λ (f : Found). f.rel) (some_inj f g (sym e ∙ if_true (g.rel == rel) _ _ same))
      ∙ (==_iff g.rel rel).0 same
  | inr apart ↦ find_file-rel rel fs f (sym (if_false (g.rel == rel) _ _ apart) ∙ e)
]

or_next-cases :
    (a b : Option Found) (f : Found) → or_next a b ≡ some f → (a ≡ some f) ⊎ (b ≡ some f)
or_next-cases none b f e = inr e
or_next-cases (some g) b f e = inl e

common_file-IsFront :
    (config : Option FilePath) (ps : List FilePath) (fs : List Found) (f : Found)
    → All IsFront ps
    → common_file config ps fs ≡ some f
    → IsFront f.rel
unfolding common_file
common_file-IsFront config [] fs f h e = absurd (cc)
common_file-IsFront config (p ∷ ps) fs f h e = elim (Bool-cases (is_at config p)) [
  | inl own ↦ common_file-IsFront config ps fs f h.1 (sym (if_true (is_at config p) _ _ own) ∙ e)
  | inr other ↦
      elim (or_next-cases (find_file p fs) _ f (sym (if_false (is_at config p) _ _ other) ∙ e)) [
        | inl found ↦ subst IsFront (sym (find_file-rel p fs f found)) h.0
        | inr later ↦ common_file-IsFront config ps fs f h.1 later
      ]
]

config-IsBelow : IsBelow restored_config
config-IsBelow = record { some_part = λ e. cc; plain = ((refl, refl), tt) }

common-IsFront : All IsFront common_paths
common-IsFront = (
  config-IsBelow,
  (config-IsBelow, (record { some_part = λ e. cc; plain = ((refl, refl), tt) }, tt)),
)

-- The data of an archive, behind the entries of the configuration.
record HasData (makes : FilePath → Bool) (dir : FilePath) (fs : List Found) (entries : List Entry)
    (files : Files) : Type 0 where
  data_entries : List Entry
  before : Files
  walked : add_data fs ≡ some data_entries
  same : restore makes dir entries true files ≡ restore makes dir data_entries true before

front-HasData :
    (makes : FilePath → Bool) (dir name : FilePath) (o : Option (List ℕ))
    (rest : Option (List Entry)) (fs : List Found) (entries : List Entry) (files : Files)
    → ((path : FilePath) → makes path ≡ true)
    → IsFront name
    → ((es : List Entry) (files : Files) → rest ≡ some es → HasData makes dir fs es files)
    → add_file name o rest ≡ some entries
    → HasData makes dir fs entries files
front-HasData makes dir name o rest fs entries files made w later e =
    let (bytes, (es, ((read, walked), first))) = add_file-some name o rest entries e in
    let next = insert (dir ++ relative_name name) bytes files in
    let done = later es next walked in
    record {
      data_entries = done.data_entries;
      before = done.before;
      walked = done.walked;
      same =
          ap (λ es. restore makes dir es true files) first
          ∙ next_entry makes dir (file_entry name bytes) es true files next
              (front_entry makes dir name bytes files made w)
          ∙ done.same;
    }

common-HasData :
    (makes : FilePath → Bool) (dir : FilePath) (config : Option FilePath) (common : Option Found)
    (fs : List Found) (entries : List Entry) (files : Files)
    → ((path : FilePath) → makes path ≡ true)
    → common ≡ common_file config common_paths fs
    → add_common common (add_data fs) ≡ some entries
    → HasData makes dir fs entries files
common-HasData makes dir config none fs entries files made q e = record {
  data_entries = entries;
  before = files;
  walked = e;
  same = refl;
}
common-HasData makes dir config (some f) fs entries files made q e =
    front-HasData makes dir f.rel f.bytes (add_data fs) fs entries files made
      (common_file-IsFront config common_paths fs f common-IsFront (sym q))
      (λ es files walked. record {
        data_entries = es;
        before = files;
        walked = walked;
        same = refl;
      })
      e

config-HasData :
    (makes : FilePath → Bool) (dir : FilePath) (config : Option ConfigFile) (fs : List Found)
    (entries : List Entry) (files : Files)
    → ((path : FilePath) → makes path ≡ true)
    → add_config config
        (add_common (common_file (config_path config) common_paths fs) (add_data fs))
      ≡ some entries
    → HasData makes dir fs entries files
config-HasData makes dir none fs entries files made e =
    common-HasData makes dir none _ fs entries files made refl e
config-HasData makes dir (some config) fs entries files made e =
    front-HasData makes dir config_name config.bytes _ fs entries files made config-IsBelow
      (λ es files q. common-HasData makes dir config.below _ fs es files made refl q) e

not_empty-some :
    (o : Option (List Entry)) (entries : List Entry) → not_empty o ≡ some entries → o ≡ some entries
not_empty-some none entries e = absurd (cc)
not_empty-some (some []) entries e = absurd (cc)
not_empty-some (some (x ∷ xs)) entries e = e

-- The files of a data directory are restored.
pub record IsRestored (dir : FilePath) (fs : List Found) (out : Restoring) : Type 0 where
  pub no_error : out.error ≡ none
  pub there :
      (rel : FilePath) (f : Found) (bytes : List ℕ)
      → find_file rel fs ≡ some f
      → in_backups rel ≡ false
      → f.bytes ≡ some bytes
      → lookup (dir ++ rel) out.files ≡ some bytes

-- What Create puts into an archive, Restore brings back: where Create succeeds and every file can be made, restoring into any
-- directory ends without an error, and each file that was in the data directory, outside its backups, is then at the same path
-- below that directory with the same bytes. So a file `remotty.yaml` of the data directory wins over the
-- configuration file that was given. The walk meets each file once, and its path has parts that stand for themselves.
pub restore-create :
    (makes : FilePath → Bool) (dir : FilePath) (config : Option ConfigFile) (fs : List Found)
    (entries : List Entry) (files : Files)
    → ((path : FilePath) → makes path ≡ true)
    → AreFound fs
    → create config fs ≡ some entries
    → IsRestored dir fs (restore makes dir entries true files)
unfolding create
restore-create makes dir config fs entries files made found e =
    let w = config-HasData makes dir config fs entries files made (not_empty-some _ entries e) in
    let done = data-IsReplayed makes dir fs w.data_entries w.before made found w.walked in
    subst (IsRestored dir fs) (sym w.same) (record { no_error = done.no_error; there = done.there })
