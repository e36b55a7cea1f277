-- ===== src/Backups/Recorded.antt =====
-- src/backup.rs: the end of `backup_mod`, which records a backup and then prunes old ones.
use mathlib.Core.Option as Option
use mathlib.Core.List.Memᴰ as M
use quma_custom.Prelude.{
  ℕ, zero, suc, ◌+◌, ◌-◌, ◌≤◌, ◌<◌, String, ◌≡◌, refl, sym, ap, ◌∙◌, subst, inl, inr, Bool, true,
  false, Option, none, some, List, [], ◌∷◌, ◌++◌, Memᴰ, arith, nat_eq, string_eq, Bool-cases,
  beq_self, length, drop, filter, length-append, mem_of_mem-filter,
}
use Prim.Native.String.{compare}
use quma_custom.Prelude.Texts.{compare_flip, Ordering-cases}
use quma_custom.Sql.Keys.{IsKeyed}
use quma_custom.Sql.Distinct.{Distinct, insert-Distinct}
use quma_custom.Sql.OrderBy.{order_by, insert, mem_of_mem-order_by}
use quma_custom.Accounts.Tables.{text_lt}
use quma_custom.Recovery.State.{InstalledMod}
use quma_custom.Sql.{ok}
use quma_custom.Backups.Table.{
  next_id, is_trigger, is_backup_type, BackupRecord, Db, older, is_mod_backup, insert_backup,
  count_backups_for_mod,
}
use quma_custom.Backups.Retention.{prune_recorded, enforce_retention_mod, record_mod_backup}
use quma_custom.Backups.Newest.{by_age, counts_mod, enforce_retention_mod_newest}

-- A row that is after all others is put last.
order_by_last :
    (xs : List BackupRecord) (x : BackupRecord)
    → ((y : BackupRecord) → Memᴰ y xs → older y x ≡ true)
    → order_by older (xs ++ x ∷ []) ≡ order_by older xs ++ x ∷ []
order_by_last [] x h = refl
order_by_last (y ∷ ys) x h =
    ap (insert older y) (order_by_last ys x (λ z m. h z (Memᴰ.tail m)))
    ∙ insert_before (order_by older ys)
  where
    insert_before :
        (zs : List BackupRecord) → insert older y (zs ++ x ∷ []) ≡ insert older y zs ++ x ∷ []
    insert_before [] = rw (h y (Memᴰ.head refl))
    insert_before (z ∷ zs) = elim (Bool-cases (older y z)) [
      | inl here ↦ rw here
      | inr later ↦ rw later (ap (λ s. z ∷ s) (insert_before zs))
    ]

filter_last :
    (p : BackupRecord → Bool) (xs : List BackupRecord) (x : BackupRecord)
    → p x ≡ true
    → filter p (xs ++ x ∷ []) ≡ filter p xs ++ x ∷ []
filter_last p [] x h = rw h
filter_last p (y ∷ ys) x h = elim (Bool-cases (p y)) [
  | inl keep ↦ rw keep (ap (λ s. y ∷ s) (filter_last p ys x h))
  | inr skip ↦ rw skip (filter_last p ys x h)
]

mem-drop_last :
    (n : ℕ) (xs : List BackupRecord) (x : BackupRecord)
    → n ≤ length xs
    → Memᴰ x (drop n (xs ++ x ∷ []))
mem-drop_last zero xs x h = M.append_right xs (Memᴰ.head refl)
mem-drop_last (suc n) [] x h = absurd (omega arith)
mem-drop_last (suc n) (y ∷ ys) x h = mem-drop_last n ys x (omega arith)

length-drop_le : (n m : ℕ) (xs : List BackupRecord) → length xs ≤ n + m → length (drop n xs) ≤ m
length-drop_le zero m xs h = omega arith
length-drop_le (suc n) m [] h = omega arith
length-drop_le (suc n) m (x ∷ xs) h = length-drop_le n m xs (omega arith)

-- The row that `record_mod_backup` inserts.
abbrev pub mod_backup_row : InstalledMod → String → String → String → ℕ → String → ℕ → BackupRecord
mod_backup_row mod_info trigger bid backup_path total_size now id = record {
  id = id;
  backup_type = "mod";
  trigger = trigger;
  backup_id = bid;
  mod_db_id = some mod_info.id;
  forge_mod_id = mod_info.forge_mod_id;
  forge_version_id = mod_info.forge_version_id;
  mod_name = some mod_info.name;
  mod_slug = mod_info.slug;
  mod_version = some mod_info.version;
  backup_path = backup_path;
  backup_size = some total_size;
  created_at = now;
  restored_at = none;
}

older_of_time :
    (b x : BackupRecord)
    → text_lt x.created_at b.created_at ≡ false
    → b.id ≤ x.id
    → older b x ≡ true
unfolding older
older_of_time b x h k = elim (Ordering-cases (compare b.created_at x.created_at)) [
  | inl less ↦ rw less
  | inr (inl same) ↦ rw same (ground arith)
  | inr (inr more) ↦
      let clash : true ≡ false = rw (compare_flip b.created_at x.created_at more, text_lt) at h in
      absurd (cc)
]

module _ {Disk : Type 0} (exists : String → Disk → Bool) (remove_dir_all : String → Disk → Disk)
    (forge_mod_id max_backups : ℕ) (pos : 0 < max_backups) (disk : Disk) (db : Db)
    (x : BackupRecord) (keyed : IsKeyed BackupRecord.id (next_id db.backups) db.backups)
    (distinct : Distinct BackupRecord.id db.backups) (fresh : x.id ≡ (next_id db.backups))
    (own : is_mod_backup forge_mod_id x ≡ true)
    (latest : (b : BackupRecord)
      → Memᴰ b db.backups
      → text_lt x.created_at b.created_at ≡ false) where
  abbrev with_row : Db
  with_row = record { backups = db.backups ++ x ∷ [] }

  by_age-with_row :
      by_age (is_mod_backup forge_mod_id) with_row
      ≡ by_age (is_mod_backup forge_mod_id) db ++ x ∷ []
  by_age-with_row =
      ap (order_by older) (filter_last (is_mod_backup forge_mod_id) db.backups x own)
      ∙ order_by_last (filter (is_mod_backup forge_mod_id) db.backups) x (λ b m.
        let k = (mem_of_mem-filter (is_mod_backup forge_mod_id) db.backups m).0 in
        older_of_time b x (latest b k) (omega (arith, keyed.below b k, fresh)))

  -- The latest backup survives the pruning that follows it.
  enforce_retention_mod_latest :
      (r : Disk × Db) × (enforce_retention_mod exists remove_dir_all max_backups forge_mod_id disk
          with_row
        ≡ some r)
      × Memᴰ x r.1.backups
      × (count_backups_for_mod forge_mod_id r.1 ≤ max_backups)
  enforce_retention_mod_latest =
      let cat = is_mod_backup forge_mod_id in
      let old = by_age cat db in
      let (db', e, kept, apart) =
        enforce_retention_mod_newest exists remove_dir_all max_backups forge_mod_id disk with_row
          pos (insert-Distinct BackupRecord.id db.backups x fresh keyed distinct) in
      let size = ap length by_age-with_row ∙ length-append old (x ∷ []) in
      let stays : Memᴰ x (by_age cat db') = subst (Memᴰ x) (sym kept) (
        subst (λ rows. Memᴰ x (drop (length rows - max_backups) rows)) (sym by_age-with_row)
          (mem-drop_last _ old x (omega (arith, length-append old (x ∷ []))))) in
      (
        (_, db'),
        e,
        (mem_of_mem-filter cat db'.backups
            (mem_of_mem-order_by older (filter cat db'.backups) stays)).0,
        omega (
          arith,
          counts_mod forge_mod_id db',
          ap length kept,
          length-drop_le (length (by_age cat with_row) - max_backups) max_backups
              (by_age cat with_row) (omega arith),
        ),
      )

case_some :
    {A : Type 0} (o : Option ℕ) {n : ℕ} (a : A) (f : ℕ → A)
    → o ≡ some n
    → elim o [ none ↦ a | some m ↦ f m ] ≡ f n
case_some o a f e = rw e

-- Where the limit is positive, no backup is later than `now` and the trigger is one that the table
-- allows, recording the backup of a mod with a
-- Forge id ends well: the new backup stays, and the mod has no more backups than the limit.
pub record_mod_backup_stays :
    {Disk : Type 0} (exists : String → Disk → Bool) (remove_dir_all : String → Disk → Disk)
    (mod_info : InstalledMod) (trigger bid backup_path : String) (total_size : ℕ) (now : String)
    (max_backups forge_mod_id : ℕ) (disk : Disk) (db : Db)
    → is_trigger trigger ≡ true
    → mod_info.forge_mod_id ≡ some forge_mod_id
    → 0 < max_backups
    → IsKeyed BackupRecord.id (next_id db.backups) db.backups
    → Distinct BackupRecord.id db.backups
    → ((b : BackupRecord) → Memᴰ b db.backups → text_lt now b.created_at ≡ false)
    → (r : Disk × Db) × (record_mod_backup exists remove_dir_all mod_info trigger bid backup_path
          total_size now max_backups disk db
        ≡ ok (some (r.0, r.1, next_id db.backups)))
      × Memᴰ
          (mod_backup_row mod_info trigger bid backup_path total_size now (next_id db.backups))
          r.1.backups
      × (count_backups_for_mod forge_mod_id r.1 ≤ max_backups)
unfolding record_mod_backup prune_recorded insert_backup is_backup_type
record_mod_backup_stays exists remove_dir_all mod_info trigger bid backup_path total_size now
      max_backups forge_mod_id disk db allowed forge pos keyed distinct latest =
    let x = mod_backup_row mod_info trigger bid backup_path total_size now (next_id db.backups) in
    let (r, e, stays, few) =
      enforce_retention_mod_latest exists remove_dir_all forge_mod_id max_backups pos disk db x
        keyed distinct refl (rw (forge, beq_self forge_mod_id)) latest in
    (
      r,
      rw (allowed) (
          ap ok (
            case_some mod_info.forge_mod_id _ _ forge
            ∙ ap (Option.map (λ s. (s.0, s.1, next_id db.backups))) e)),
      stays,
      few,
    )
