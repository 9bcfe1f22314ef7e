-- ===== src/Backup/Paths.antt =====
-- Go's path/filepath on absolute paths: Clean and Join, and what a prefix of the text of a path means.
use remotty.Base.{
  append_nil, ℕ, ◌≡◌, refl, ◌≢◌, ◌↔◌, Bool, true, false, ◌&&◌, ◌||◌, List, [], ◌∷◌, ◌++◌, ◌==◌,
  nat_key, list_key, if◌then◌else◌, nat_beq, arith, ap, ◌∙◌, sym, All, if_case, if_false,
}

-- A part of a path, and a path: the parts between its slashes.
abbrev pub Part : Type 0
Part = List ℕ

abbrev pub FilePath : Type 0
FilePath = List Part

abbrev pub slash : ℕ
slash = 47

-- An empty part and `.` mean nothing, and `..` leads up.
abbrev pub is_idle : Part → Bool
is_idle part = part == [] || part == (46 ∷ [])

abbrev pub is_up : Part → Bool
is_up part = part == (46 ∷ 46 ∷ [])

abbrev pub parent : FilePath → FilePath
parent [] = []
parent (part ∷ parts) = parts

-- One part walked, from a path whose last part comes first.
abbrev pub enter : FilePath → Part → FilePath
enter at part = if is_idle part then at else (if is_up part then parent at else part ∷ at)

-- The parts walked, from a path whose last part comes first.
unfoldable pub walk : FilePath → FilePath → FilePath
walk at [] = at
walk at (part ∷ parts) = walk (enter at part) parts

unfoldable pub reverse_onto : FilePath → FilePath → FilePath
reverse_onto [] onto = onto
reverse_onto (part ∷ parts) onto = reverse_onto parts (part ∷ onto)

-- `filepath.Join dir name`, which is clean.
unfoldable pub target_path : FilePath → FilePath → FilePath
unfolding walk reverse_onto
target_path dir name = reverse_onto (walk (reverse_onto dir []) name) []

-- The text of a path; that of the root is empty here, which changes no prefix.
unfoldable pub rendered : FilePath → List ℕ
rendered [] = []
rendered (part ∷ parts) = slash ∷ (part ++ rendered parts)

-- `strings.HasPrefix text start`, the start first.
unfoldable pub has_prefix : List ℕ → List ℕ → Bool
has_prefix [] text = true
has_prefix (c ∷ start) [] = false
has_prefix (c ∷ start) (t ∷ text) = nat_beq c t && has_prefix start text

-- The path is at or below the directory, or at or below one whose name begins with that of the directory.
abbrev pub IsBeside : FilePath → FilePath → Type 0
IsBeside [] path = Unit {0}
IsBeside (d ∷ ds) [] = ⊥
IsBeside (d ∷ []) (p ∷ ps) = has_prefix d p ≡ true
IsBeside (d ∷ d' ∷ ds) (p ∷ ps) = (d ≡ p) × IsBeside (d' ∷ ds) ps

-- A part has no slash.
abbrev pub NoSlash : Part → Type 0
NoSlash part = All (λ c. c ≢ slash) part

-- The last part of a directory against the part of a path, with what follows.
prefix_last :
    (d p : Part) (ps : FilePath) → NoSlash d → has_prefix d (p ++ rendered ps) ≡ has_prefix d p
unfolding has_prefix rendered
prefix_last [] p ps h = refl
prefix_last (c ∷ d) [] [] h = refl
prefix_last (c ∷ d) [] (q ∷ qs) h = ground (arith, h.0)
prefix_last (c ∷ d) (e ∷ p) ps h = rw (prefix_last d p ps h.1) refl

-- A part of a directory that is not its last.
prefix_inner :
    (d p : Part) (start : List ℕ) (ps : FilePath)
    → NoSlash d
    → NoSlash p
    → (has_prefix (d ++ (slash ∷ start)) (p ++ rendered ps) ≡ true)
      ↔ ((d ≡ p) × (has_prefix (slash ∷ start) (rendered ps) ≡ true))
unfolding has_prefix rendered
prefix_inner [] [] start ps h k = ((λ e. (refl, e)), λ e. e.1)
prefix_inner [] (c ∷ p) start ps h k = ((λ e. absurd (k.0 (ground (arith, e)))), λ e. absurd (cc))
prefix_inner (c ∷ d) [] start [] h k = ((λ e. absurd (cc)), λ e. absurd (cc))
prefix_inner (c ∷ d) [] start (q ∷ qs) h k =
    ((λ e. absurd (h.0 (ground (arith, e)))), λ e. absurd (cc))
prefix_inner (c ∷ d) (e ∷ p) start ps h k =
    let rest = prefix_inner d p start ps h.1 k.1 in
    (
      (λ q.
          let here : c ≡ e = ground (arith, q) in
          let there = rest.0 (ground (arith, q)) in (cc (here, there.0), there.1)),
      λ q.
          let here : c ≡ e = cc (q.0) in
          let there : d ≡ p = cc (q.0) in ground (arith, here, rest.1 (there, q.1)),
    )

-- For paths whose parts have no slash, the text of the one begins with that of the other exactly if the one is
-- beside the other.
pub prefix_iff :
    (ds ps : FilePath)
    → All NoSlash ds
    → All NoSlash ps
    → (has_prefix (rendered ds) (rendered ps) ≡ true) ↔ IsBeside ds ps
unfolding has_prefix rendered
prefix_iff [] ps h k = ((λ e. tt), λ e. refl)
prefix_iff (d ∷ ds) [] h k = ((λ e. absurd (cc)), λ e. absurd e)
prefix_iff (d ∷ []) (p ∷ ps) h k =
    let same = ap (λ l. has_prefix l (p ++ rendered ps)) (append_nil d) ∙ prefix_last d p ps h.0 in
    ((λ e. sym same ∙ e), λ e. same ∙ e)
prefix_iff (d ∷ d' ∷ ds) (p ∷ ps) h k =
    let split = prefix_inner d p (d' ++ rendered ds) ps h.0 k.0 in
    let rest = prefix_iff (d' ∷ ds) ps h.1 k.1 in
    ((λ e. ((split.0 e).0, rest.0 (split.0 e).1)), λ e. split.1 (e.0, rest.1 e.1))

-- Clean paths have parts without a slash where their rows have.
walk-NoSlash :
    (at parts : FilePath) → All NoSlash at → All NoSlash parts → All NoSlash (walk at parts)
unfolding walk
walk-NoSlash at [] h k = h
walk-NoSlash at (part ∷ parts) h k =
    walk-NoSlash (enter at part) parts
      (if_case (All NoSlash) (is_idle part) _ _ (λ e. h)
        (λ e. if_case (All NoSlash) (is_up part) _ _ (λ e. parent-NoSlash at h) (λ e. (k.0, h))))
      k.1
  where
    parent-NoSlash : (at : FilePath) → All NoSlash at → All NoSlash (parent at)
    parent-NoSlash [] h = tt
    parent-NoSlash (part ∷ parts) h = h.1

reverse_onto-NoSlash :
    (parts onto : FilePath)
    → All NoSlash parts
    → All NoSlash onto
    → All NoSlash (reverse_onto parts onto)
unfolding reverse_onto
reverse_onto-NoSlash [] onto h k = k
reverse_onto-NoSlash (part ∷ parts) onto h k = reverse_onto-NoSlash parts (part ∷ onto) h.1 (h.0, k)

pub target_path-NoSlash :
    (dir name : FilePath) → All NoSlash dir → All NoSlash name → All NoSlash (target_path dir name)
unfolding target_path
target_path-NoSlash dir name h k =
    reverse_onto-NoSlash (walk (reverse_onto dir []) name) []
      (walk-NoSlash (reverse_onto dir []) name (reverse_onto-NoSlash dir [] h tt) k) tt

-- A part that stands for itself.
abbrev pub IsPlain : Part → Type 0
IsPlain part = (is_idle part ≡ false) × (is_up part ≡ false)

walk-plain : (at parts : FilePath) → All IsPlain parts → walk at parts ≡ reverse_onto parts at
unfolding walk reverse_onto
walk-plain at [] h = refl
walk-plain at (part ∷ parts) h =
    ap (λ at. walk at parts) (if_false _ _ _ h.0.0 ∙ if_false _ _ _ h.0.1)
    ∙ walk-plain (part ∷ at) parts h.1

reverse_onto-twice :
    (parts onto last : FilePath)
    → reverse_onto (reverse_onto parts onto) last ≡ reverse_onto onto (parts ++ last)
unfolding reverse_onto
reverse_onto-twice [] onto last = refl
reverse_onto-twice (part ∷ parts) onto last = reverse_onto-twice parts (part ∷ onto) last

reverse_onto-append :
    (parts more onto : FilePath)
    → reverse_onto (parts ++ more) onto ≡ reverse_onto more (reverse_onto parts onto)
unfolding reverse_onto
reverse_onto-append [] more onto = refl
reverse_onto-append (part ∷ parts) more onto = reverse_onto-append parts more (part ∷ onto)

-- A row of plain parts is joined as it is.
pub target_path-plain :
    (dir name : FilePath) → All IsPlain name → target_path dir name ≡ dir ++ name
unfolding target_path reverse_onto
target_path-plain dir name h =
    ap (λ at. reverse_onto at []) (walk-plain (reverse_onto dir []) name h)
    ∙ reverse_onto-twice name (reverse_onto dir []) []
    ∙ reverse_onto-twice dir [] (name ++ [])
    ∙ ap (λ l. dir ++ l) (append_nil name)

-- A row that leads up first is joined to the parent.
pub target_path-up :
    (ds : FilePath) (d : Part) (name : FilePath)
    → All IsPlain name
    → target_path (ds ++ (d ∷ [])) ((46 ∷ 46 ∷ []) ∷ name) ≡ ds ++ name
unfolding target_path reverse_onto walk
target_path-up ds d name h =
    ap (λ at. reverse_onto (walk (parent at) name) []) (reverse_onto-append ds (d ∷ []) [])
    ∙ target_path-plain ds name h

prefix_grows : (d s more : List ℕ) → has_prefix d ((d ++ s) ++ more) ≡ true
unfolding has_prefix
prefix_grows [] s more = refl
prefix_grows (c ∷ d) s more = ground (arith, prefix_grows d s more)

prefix_same :
    (part start text : List ℕ) → has_prefix (part ++ start) (part ++ text) ≡ has_prefix start text
unfolding has_prefix
prefix_same [] start text = refl
prefix_same (c ∷ part) start text = ground (arith, prefix_same part start text)

-- The text of a directory begins the text of what is below it, or of what is beside it.
pub beside-prefix :
    (ds : FilePath) (d s : Part) (ps : FilePath)
    → has_prefix (rendered (ds ++ (d ∷ []))) (rendered (ds ++ ((d ++ s) ∷ ps))) ≡ true
unfolding has_prefix rendered
beside-prefix [] d s ps =
    ap (λ l. has_prefix l ((d ++ s) ++ rendered ps)) (append_nil d) ∙ prefix_grows d s (rendered ps)
beside-prefix (e ∷ ds) d s ps =
    prefix_same e (rendered (ds ++ (d ∷ []))) (rendered (ds ++ ((d ++ s) ∷ ps)))
    ∙ beside-prefix ds d s ps

pub below-prefix : (dir name : FilePath) → has_prefix (rendered dir) (rendered (dir ++ name)) ≡ true
unfolding has_prefix rendered
below-prefix [] name = refl
below-prefix (d ∷ dir) name =
    prefix_same d (rendered dir) (rendered (dir ++ name)) ∙ below-prefix dir name
