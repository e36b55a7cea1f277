-- ===== src/Backups/Newest.antt =====
-- src/backup.rs: which backups the retention keeps.
use quma_custom.Prelude.{
  ℕ, zero, suc, ◌+◌, ◌-◌, ◌≤◌, ◌<◌, String, ◌≡◌, refl, sym, ap, ◌∙◌, subst, inl, inr, Bool, true,
  not, Option, some, List, [], ◌∷◌, Memᴰ, arith, ltb, ltb→lt, ltb→le, le→ltb, foldl, ◌==◌, nat_eq,
  string_eq, Bool-cases, beq_self, beq_ne, length, take, drop, filter, List-cases,
  mem_of_mem-filter,
}
use quma_custom.Sql.{count_where, delete_where}
use quma_custom.Sql.Distinct.{Distinct, filter-Distinct, Distinct-unique}
use quma_custom.Sql.OrderBy.{
  order_by, first, order_by-filter, order_by-Distinct, length-order_by, mem_of_mem-order_by,
}
use quma_custom.Backups.Table.{
  BackupRecord, Db, older, older-IsOrder, is_mod_backup, is_full_backup, delete_backup,
  count_backups_for_mod, count_full_backups, oldest_backup_for_mod, oldest_full_backup,
}
use quma_custom.Backups.Retention.{
  remove_backup_dir, prune, enforce_retention, enforce_retention_mod, enforce_retention_full,
}

-- The backups that a test selects, the oldest first.
abbrev pub by_age : (BackupRecord → Bool) → Db → List BackupRecord
by_age cat db = order_by older (filter cat db.backups)

-- The rows of `xs` but the one with the id.
abbrev others : ℕ → BackupRecord → Bool
others id b = not (b.id == id)

filter-filter :
    (p q : BackupRecord → Bool) (xs : List BackupRecord)
    → filter p (filter q xs) ≡ filter q (filter p xs)
filter-filter p q [] = refl
filter-filter p q (x ∷ xs) =
    let rest = filter-filter p q xs in
    elim (Bool-cases (p x)) [
      | inl y ↦ elim (Bool-cases (q x)) [
        | inl z ↦ rw (z, y, z) (ap (λ s. x ∷ s) rest)
        | inr z ↦ rw (z, y, z) rest
      ]
      | inr y ↦ elim (Bool-cases (q x)) [ inl z ↦ rw (z, y) rest | inr z ↦ rw (z, y) rest ]
    ]

filter_all :
    (p : BackupRecord → Bool) (xs : List BackupRecord)
    → ((x : BackupRecord) → Memᴰ x xs → p x ≡ true)
    → filter p xs ≡ xs
filter_all p [] h = refl
filter_all p (x ∷ xs) h =
    rw (h x (Memᴰ.head refl)) (ap (λ s. x ∷ s) (filter_all p xs (λ y m. h y (Memᴰ.tail m))))

-- Without the oldest, the others are left, in their order.
by_age-delete_backup :
    (cat : BackupRecord → Bool) (db : Db) (x : BackupRecord) (rest : List BackupRecord)
    → Distinct BackupRecord.id db.backups
    → by_age cat db ≡ x ∷ rest
    → by_age cat (delete_backup x.id db) ≡ rest
unfolding delete_backup delete_where
by_age-delete_backup cat db x rest d e =
    ap (order_by older) (filter-filter cat (others x.id) db.backups)
    ∙ order_by-filter older older-IsOrder (others x.id) (filter cat db.backups)
    ∙ ap (filter (others x.id)) e
    ∙ rw (beq_self x.id)
        (filter_all (others x.id) rest (λ y m. rw (beq_ne y.id x.id (apart.0 y m))))
  where
    apart : Distinct BackupRecord.id (x ∷ rest)
    apart = subst (Distinct BackupRecord.id) e (
        order_by-Distinct older BackupRecord.id (filter cat db.backups)
          (filter-Distinct BackupRecord.id cat db.backups d))

delete_backup-Distinct :
    (id : ℕ) (db : Db)
    → Distinct BackupRecord.id db.backups
    → Distinct BackupRecord.id (delete_backup id db).backups
unfolding delete_backup delete_where
delete_backup-Distinct id db d = filter-Distinct BackupRecord.id (others id) db.backups d

-- and a row of another kind is not touched.
others-delete_backup :
    (cat : BackupRecord → Bool) (db : Db) (x : BackupRecord) (rest : List BackupRecord)
    → Distinct BackupRecord.id db.backups
    → by_age cat db ≡ x ∷ rest
    → filter (λ b. not (cat b)) (delete_backup x.id db).backups
      ≡ filter (λ b. not (cat b)) db.backups
unfolding delete_backup delete_where
others-delete_backup cat db x rest d e =
    filter-filter (λ b. not (cat b)) (others x.id) db.backups
    ∙ filter_all (others x.id) (filter (λ b. not (cat b)) db.backups) (λ y m.
      let (k, out) = mem_of_mem-filter (λ b. not (cat b)) db.backups m in
      rw (
        beq_ne y.id x.id (λ same.
          let own = Distinct-unique BackupRecord.id db.backups d k selected.0 same in
          let clash : not true ≡ true =
            subst (λ c. not c ≡ true) selected.1 (subst (λ b. not (cat b) ≡ true) own out) in
          absurd (cc))))
  where
    selected : Memᴰ x db.backups × (cat x ≡ true)
    selected = mem_of_mem-filter cat db.backups (
        mem_of_mem-order_by older (filter cat db.backups) (subst (Memᴰ x) (sym e) (Memᴰ.head refl)))

module _ {Disk : Type 0} (exists : String → Disk → Bool) (remove_dir_all : String → Disk → Disk)
    (cat : BackupRecord → Bool) (count_fn : Db → ℕ) (oldest_fn : Db → Option BackupRecord)
    (counts : (db : Db) → count_fn db ≡ length (by_age cat db))
    (finds : (db : Db) → oldest_fn db ≡ first (by_age cat db)) (max_backups : ℕ) where
  -- The retention deletes the rows beyond the newest ones, with their directories.
  abbrev IsPruned : Disk → Db → Option (Disk × Db) → Type 0
  IsPruned disk db r =
      let rows = by_age cat db in
      let excess = length rows - max_backups in
      (db' : Db) × (r
        ≡ some (foldl (remove_backup_dir exists remove_dir_all) disk (take excess rows), db'))
      × (by_age cat db' ≡ drop excess rows)
      × (filter (λ b. not (cat b)) db'.backups ≡ filter (λ b. not (cat b)) db.backups)

  few-IsPruned :
      (disk : Disk) (db : Db) → count_fn db ≤ max_backups → IsPruned disk db (some (disk, db))
  few-IsPruned disk db few =
      let none_left : length (by_age cat db) - max_backups ≡ 0 = omega (arith, counts db) in
      (db, rw none_left refl, rw none_left refl, refl)

  -- One more round before.
  more-IsPruned :
      (disk : Disk) (db : Db) (x : BackupRecord) (rest : List BackupRecord) (r : Option (Disk × Db))
      → Distinct BackupRecord.id db.backups
      → by_age cat db ≡ x ∷ rest
      → max_backups ≤ length rest
      → IsPruned (remove_backup_dir exists remove_dir_all disk x) (delete_backup x.id db) r
      → IsPruned disk db r
  more-IsPruned disk db x rest r d e many (db', result, keeps, apart) =
      let left = by_age-delete_backup cat db x rest d e in
      let excess : length (by_age cat db) - max_backups ≡ suc (length rest - max_backups) =
        omega (arith, ap length e) in
      (
        db',
        rw (excess, e) (rw left at result),
        rw (excess, e) (rw left at keeps),
        apart ∙ others-delete_backup cat db x rest d e,
      )

  prune_more :
      (fuel : ℕ) (disk : Disk) (db : Db) (x : BackupRecord)
      → ltb max_backups (count_fn db) ≡ true
      → oldest_fn db ≡ some x
      → prune exists remove_dir_all count_fn oldest_fn max_backups (suc fuel) disk db
        ≡ prune exists remove_dir_all count_fn oldest_fn max_backups fuel
            (remove_backup_dir exists remove_dir_all disk x)
            (delete_backup x.id db)
  unfolding prune
  prune_more fuel disk db x many e = rw (many, e, prune)

  prune-IsPruned :
      (fuel : ℕ) (disk : Disk) (db : Db)
      → Distinct BackupRecord.id db.backups
      → count_fn db ≤ fuel + max_backups
      → IsPruned disk db (prune exists remove_dir_all count_fn oldest_fn max_backups fuel disk db)
  unfolding prune
  prune-IsPruned zero disk db d enough =
      rw (le→ltb max_backups (count_fn db) (omega arith), prune)
        (few-IsPruned disk db (omega arith))
  prune-IsPruned (suc fuel) disk db d enough = elim (Bool-cases (ltb max_backups (count_fn db))) [
    | inl many ↦ elim (List-cases (by_age cat db)) [
      | inl empty ↦
          absurd (omega (arith, counts db, ap length empty, ltb→lt max_backups (count_fn db) many))
      | inr (x, rest, e) ↦
          subst (IsPruned disk db) (sym (prune_more fuel disk db x many (finds db ∙ ap first e))) (
            more-IsPruned disk db x rest _ d e
              (omega (arith, counts db, ap length e, ltb→lt max_backups (count_fn db) many))
              (prune-IsPruned fuel (remove_backup_dir exists remove_dir_all disk x)
                (delete_backup x.id db) (delete_backup-Distinct x.id db d)
                (omega (
                  arith,
                  counts db,
                  ap length e,
                  counts (delete_backup x.id db),
                  ap length (by_age-delete_backup cat db x rest d e),
                ))))
    ]
    | inr few ↦ rw (few, prune) (few-IsPruned disk db (ltb→le max_backups (count_fn db) few))
  ]

pub counts_mod :
    (forge_mod_id : ℕ) (db : Db)
    → count_backups_for_mod forge_mod_id db ≡ length (by_age (is_mod_backup forge_mod_id) db)
unfolding count_backups_for_mod count_where
counts_mod forge_mod_id db =
    sym (length-order_by older (filter (is_mod_backup forge_mod_id) db.backups))

finds_mod :
    (forge_mod_id : ℕ) (db : Db)
    → oldest_backup_for_mod forge_mod_id db ≡ first (by_age (is_mod_backup forge_mod_id) db)
unfolding oldest_backup_for_mod
finds_mod forge_mod_id db = refl

-- With a limit, pruning the backups of a mod ends and leaves its newest ones, as many as the limit
-- says, and all other backups; the directories of the deleted ones are removed, the oldest first.
pub enforce_retention_mod_newest :
    {Disk : Type 0} (exists : String → Disk → Bool) (remove_dir_all : String → Disk → Disk)
    (max_backups forge_mod_id : ℕ) (disk : Disk) (db : Db)
    → 0 < max_backups
    → Distinct BackupRecord.id db.backups
    → let cat = is_mod_backup forge_mod_id in
      let rows = by_age cat db in
      let excess = length rows - max_backups in
      (db' : Db) × (enforce_retention_mod exists remove_dir_all max_backups forge_mod_id disk db
        ≡ some (foldl (remove_backup_dir exists remove_dir_all) disk (take excess rows), db'))
      × (by_age cat db' ≡ drop excess rows)
      × (filter (λ b. not (cat b)) db'.backups ≡ filter (λ b. not (cat b)) db.backups)
unfolding enforce_retention_mod enforce_retention
enforce_retention_mod_newest exists remove_dir_all max_backups forge_mod_id disk db pos d =
    rw (beq_ne max_backups 0 (λ e. omega arith)) (
      prune-IsPruned exists remove_dir_all (is_mod_backup forge_mod_id)
        (count_backups_for_mod forge_mod_id) (oldest_backup_for_mod forge_mod_id)
        (counts_mod forge_mod_id) (finds_mod forge_mod_id) max_backups
        (count_backups_for_mod forge_mod_id db) disk db d (omega arith))

finds_full : (db : Db) → oldest_full_backup db ≡ first (by_age is_full_backup db)
unfolding oldest_full_backup
finds_full db = refl

counts_full : (db : Db) → count_full_backups db ≡ length (by_age is_full_backup db)
unfolding count_full_backups count_where
counts_full db = sym (length-order_by older (filter is_full_backup db.backups))

-- With a limit, pruning the full backups ends and leaves the newest ones, as many as the limit says,
-- and all other backups; the directories of the deleted ones are removed, the oldest first.
pub enforce_retention_full_newest :
    {Disk : Type 0} (exists : String → Disk → Bool) (remove_dir_all : String → Disk → Disk)
    (max_backups : ℕ) (disk : Disk) (db : Db)
    → 0 < max_backups
    → Distinct BackupRecord.id db.backups
    → let rows = by_age is_full_backup db in
      let excess = length rows - max_backups in
      (db' : Db) × (enforce_retention_full exists remove_dir_all max_backups disk db
        ≡ some (foldl (remove_backup_dir exists remove_dir_all) disk (take excess rows), db'))
      × (by_age is_full_backup db' ≡ drop excess rows)
      × (filter (λ b. not (is_full_backup b)) db'.backups
          ≡ filter (λ b. not (is_full_backup b)) db.backups)
unfolding enforce_retention_full enforce_retention
enforce_retention_full_newest exists remove_dir_all max_backups disk db pos d =
    rw (beq_ne max_backups 0 (λ e. omega arith)) (
      prune-IsPruned exists remove_dir_all is_full_backup count_full_backups oldest_full_backup
        counts_full finds_full max_backups (count_full_backups db) disk db d (omega arith))
