-- ===== src/Backup/Retention.antt =====
-- internal/backup/backup.go, Cleanup: which backups are left.
use mathlib.Core.Path.{subst}
use remotty.Base.{
  ℕ, suc, ◌-◌, ◌≤◌, ◌<◌, ◌≡◌, refl, ◌⊎◌, inl, inr, Bool, true, ◌&&◌, List, [], ◌∷◌, ltb, length,
  arith, ap, ◌∙◌, sym, All, All-map, Bool-cases, if_true, if_case,
}
use remotty.Base.Int.{ℤ}
use remotty.Backup.{
  Backup, DirEntry, backups_among, list_backups, is_stale, insert_backup, newest_first,
  keep_backups, or_else, max_backups, max_backup_age, cleanup_backups,
}

abbrev pub Mem : Backup → List Backup → Type 0
Mem b [] = ⊥
Mem b (c ∷ cs) = (b ≡ c) ⊎ Mem b cs

-- The newest come first.
abbrev IsNewestFirst : List Backup → Type 0
IsNewestFirst [] = Unit {0}
IsNewestFirst (b ∷ bs) = All (λ c. c.created ≤ b.created) bs × IsNewestFirst bs

insert_backup-All :
    (n : ℕ) (b : Backup) (bs : List Backup)
    → b.created ≤ n
    → All (λ c. c.created ≤ n) bs
    → All (λ c. c.created ≤ n) (insert_backup b bs)
unfolding insert_backup
insert_backup-All n b [] h k = (h, tt)
insert_backup-All n b (c ∷ cs) h k =
    if_case (All (λ c. c.created ≤ n)) (ltb b.created c.created) _ _
      (λ e. (k.0, insert_backup-All n b cs h k.1)) (λ e. (h, k))

older :
    (m n : ℕ) (bs : List Backup) → m ≤ n → All (λ c. c.created ≤ m) bs → All (λ c. c.created ≤ n) bs
older m n bs h k =
    All-map (λ c. c.created ≤ m) (λ c. c.created ≤ n) bs (λ c q. omega (arith, h, q)) k

insert_backup-IsNewestFirst :
    (b : Backup) (bs : List Backup) → IsNewestFirst bs → IsNewestFirst (insert_backup b bs)
unfolding insert_backup
insert_backup-IsNewestFirst b [] h = (tt, tt)
insert_backup-IsNewestFirst b (c ∷ cs) h =
    if_case IsNewestFirst (ltb b.created c.created) _ _
      (λ e. (
        insert_backup-All c.created b cs (ground (arith, e)) h.0,
        insert_backup-IsNewestFirst b cs h.1,
      ))
      (λ e.
        let later : c.created ≤ b.created = ground (arith, e) in
        ((later, older c.created b.created cs later h.0), h))

newest_first-IsNewestFirst : (bs : List Backup) → IsNewestFirst (newest_first bs)
unfolding newest_first
newest_first-IsNewestFirst [] = tt
newest_first-IsNewestFirst (b ∷ bs) =
    insert_backup-IsNewestFirst b (newest_first bs) (newest_first-IsNewestFirst bs)

insert_backup-Mem :
    (a b : Backup) (bs : List Backup)
    → (Mem a (insert_backup b bs) → (a ≡ b) ⊎ Mem a bs)
      × ((a ≡ b) ⊎ Mem a bs → Mem a (insert_backup b bs))
unfolding insert_backup
insert_backup-Mem a b [] = ((λ h. h), λ h. h)
insert_backup-Mem a b (c ∷ cs) =
    let rest = insert_backup-Mem a b cs in
    if_case (λ l. (Mem a l → (a ≡ b) ⊎ Mem a (c ∷ cs)) × ((a ≡ b) ⊎ Mem a (c ∷ cs) → Mem a l))
      (ltb b.created c.created) _ _
      (λ e. (
        (λ h. elim h [
          | inl q ↦ inr (inl q)
          | inr m ↦ elim (rest.0 m) [ inl q ↦ inl q | inr m' ↦ inr (inr m') ]
        ]),
        λ h. elim h [
          | inl q ↦ inr (rest.1 (inl q))
          | inr m ↦ elim m [ inl q ↦ inl q | inr m' ↦ inr (rest.1 (inr m')) ]
        ],
      ))
      (λ e. ((λ h. h), λ h. h))

newest_first-Mem :
    (a : Backup) (bs : List Backup)
    → (Mem a (newest_first bs) → Mem a bs) × (Mem a bs → Mem a (newest_first bs))
unfolding newest_first
newest_first-Mem a [] = ((λ h. h), λ h. h)
newest_first-Mem a (b ∷ bs) =
    let here = insert_backup-Mem a b (newest_first bs) in
    let rest = newest_first-Mem a bs in
    (
      (λ h. elim (here.0 h) [ inl q ↦ inl q | inr m ↦ inr (rest.0 m) ]),
      λ h. elim h [ inl q ↦ here.1 (inl q) | inr m ↦ here.1 (inr (rest.1 m)) ],
    )

All-Mem : (P : Backup → Type 0) (bs : List Backup) (a : Backup) → All P bs → Mem a bs → P a
All-Mem P [] a h m = absurd m
All-Mem P (b ∷ bs) a h (inl q) = subst P (sym q) h.0
All-Mem P (b ∷ bs) a h (inr m) = All-Mem P bs a h.1 m

-- What a cleanup leaves of some backups: the newest ones.
pub record IsRetained (keep cutoff : ℕ) (backups out : List Backup) : Type 0 where
  pub few : length out ≤ keep
  pub recent : All (λ b. cutoff ≤ b.created) out
  pub from : (b : Backup) → Mem b out → Mem b backups
  pub newest :
      (b : Backup)
      → Mem b backups
      → cutoff ≤ b.created
      → Mem b out ⊎ ((length out ≡ keep) × All (λ c. b.created ≤ c.created) out)

past_keep :
    (removes : Backup → Bool) (keep cutoff i : ℕ) (bs : List Backup)
    → ((b : Backup) → removes b ≡ true)
    → keep ≤ i
    → keep_backups removes keep cutoff i bs ≡ []
unfolding keep_backups
past_keep removes keep cutoff i [] all h = refl
past_keep removes keep cutoff i (b ∷ bs) all h =
    let gone : (is_stale keep cutoff i b && removes b) ≡ true = ground (arith, all b, h) in
    if_true _ _ _ gone ∙ past_keep removes keep cutoff (suc i) bs all (omega arith)

nothing_left : (cutoff : ℕ) (bs : List Backup) → IsRetained 0 cutoff bs []
nothing_left cutoff bs = record {
  few = omega arith;
  recent = tt;
  from = λ b h. absurd h;
  newest = λ b h k. inr (refl, tt);
}

-- The newest backup is kept, and the rest are seen to.
keep_one :
    (keep cutoff : ℕ) (b : Backup) (bs out : List Backup)
    → cutoff ≤ b.created
    → All (λ c. c.created ≤ b.created) bs
    → IsRetained keep cutoff bs out
    → IsRetained (suc keep) cutoff (b ∷ bs) (b ∷ out)
keep_one keep cutoff b bs out fresh newest w = record {
  few = omega (arith, w.few);
  recent = (fresh, w.recent);
  from = λ a h. elim h [ inl q ↦ inl q | inr m ↦ inr (w.from a m) ];
  newest = λ a h k. elim h [
    | inl q ↦ inl (inl q)
    | inr m ↦ elim (w.newest a m k) [
      | inl kept ↦ inl (inr kept)
      | inr (full, newer) ↦
          inr (omega (arith, full), (All-Mem (λ c. c.created ≤ b.created) bs a newest m, newer))
    ]
  ];
}

-- A backup before the cutoff goes, and so do all that follow, which are not newer.
drop_one :
    (keep fewer cutoff : ℕ) (b : Backup) (bs out : List Backup)
    → fewer ≤ keep
    → b.created < cutoff
    → All (λ c. c.created ≤ b.created) bs
    → IsRetained fewer cutoff bs out
    → IsRetained keep cutoff (b ∷ bs) out
drop_one keep fewer cutoff b bs out less stale newest w = record {
  few = omega (arith, w.few, less);
  recent = w.recent;
  from = λ a h. inr (w.from a h);
  newest = λ a h k. elim h [
    | inl q ↦ absurd (omega (arith, k, stale, ap (λ (b : Backup). b.created) q))
    | inr m ↦ absurd (omega (arith, k, stale, All-Mem (λ c. c.created ≤ b.created) bs a newest m))
  ];
}

keep_backups-IsRetained :
    (removes : Backup → Bool) (keep cutoff i : ℕ) (bs : List Backup)
    → ((b : Backup) → removes b ≡ true)
    → IsNewestFirst bs
    → IsRetained (keep - i) cutoff bs (keep_backups removes keep cutoff i bs)
unfolding keep_backups
keep_backups-IsRetained removes keep cutoff i [] all h = record {
  few = omega arith;
  recent = tt;
  from = λ b m. m;
  newest = λ b m k. absurd m;
}
keep_backups-IsRetained removes keep cutoff i (b ∷ bs) all h = elim (Bool-cases (ltb i keep)) [
  | inr past ↦
      let over : keep ≤ i = ground (arith, past) in
      let none' : 0 ≡ keep - i = omega (arith, over) in
      subst (λ n. IsRetained n cutoff (b ∷ bs) (keep_backups removes keep cutoff i (b ∷ bs))) none'
        (subst (IsRetained 0 cutoff (b ∷ bs))
          (sym (past_keep removes keep cutoff i (b ∷ bs) all over)) (nothing_left cutoff (b ∷ bs)))
  | inl inside ↦
      let rest = keep_backups-IsRetained removes keep cutoff (suc i) bs all h.1 in
      if_case (IsRetained (keep - i) cutoff (b ∷ bs)) (is_stale keep cutoff i b && removes b) _ _
        (λ stale.
          drop_one (keep - i) (keep - suc i) cutoff b bs _ (omega arith)
            (ground (arith, stale, inside)) h.0 rest)
        (λ fresh.
          let more : suc (keep - suc i) ≡ keep - i = ground (arith, inside) in
          subst
            (λ n. IsRetained n cutoff (b ∷ bs) (b ∷ keep_backups removes keep cutoff (suc i) bs))
            more
            (keep_one (keep - suc i) cutoff b bs _ (ground (arith, fresh, inside, all b)) h.0 rest))
]

-- Cleanup keeps the newest backups and no others: where every file can be removed, at most as many are left as it may keep, none of
-- them from before the cutoff, and a backup that is not from before the cutoff is left, unless as many are left as it may keep and none of
-- those is older. A number or an age that is not positive stands for 10 backups and 30 days.
pub cleanup_backups-IsRetained :
    (removes : Backup → Bool) (max_keep max_age : ℤ) (now : ℕ) (es : List DirEntry)
    → ((b : Backup) → removes b ≡ true)
    → IsRetained
        (or_else max_keep max_backups)
        (now - or_else max_age max_backup_age)
        (backups_among es)
        (cleanup_backups removes max_keep max_age now es)
unfolding cleanup_backups list_backups
cleanup_backups-IsRetained removes max_keep max_age now es all =
    let keep = or_else max_keep max_backups in
    let cutoff = now - or_else max_age max_backup_age in
    let w =
      keep_backups-IsRetained removes keep cutoff 0 (newest_first (backups_among es)) all
        (newest_first-IsNewestFirst (backups_among es)) in
    record {
      few = omega (arith, w.few);
      recent = w.recent;
      from = λ b h. (newest_first-Mem b (backups_among es)).0 (w.from b h);
      newest = λ b h k. elim (w.newest b ((newest_first-Mem b (backups_among es)).1 h) k) [
        | inl kept ↦ inl kept
        | inr (full, newer) ↦ inr (omega (arith, full), newer)
      ];
    }
