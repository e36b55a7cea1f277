-- ===== src/Toggle/Outcomes.antt =====
-- src/ops.rs: disabling and enabling change the tables as a whole or not at all.
use quma_custom.Prelude.{
  ap, ◌∙◌, sym, subst, ℕ, String, ◌≡◌, refl, ◌⊎◌, inl, inr, Bool, true, false, none, some, List,
  nat_eq, string_eq, Bool-cases, Option-cases,
}
use quma_custom.Backups.Table.{BackupRecord}
use quma_custom.Toggle.Tables.{
  but_backups, Db, get_mod, get_addon, set_mod_disabled, set_addon_disabled,
}
use quma_custom.Toggle.Disk.{Place, rename_batch}
use quma_custom.Toggle.Moves.{
  auto_backup_mod, backed_up, enable_files, layout, lay_out, Env, Outcome, OpsError, bail, then_or,
  commit, move_in_transaction, move_to_stash, move_home, tidy, disable_mod, enable_mod,
  disable_addon, enable_addon,
}

module _ {Fs : Type 0} where
  -- But for `backups`, the operation succeeds and leaves the tables of `db'`, or it fails and leaves
  -- those of `db`.
  unfoldable pub IsAtomic : Db → Db → Outcome Fs → Type 0
  IsAtomic db db' o =
      ((o.error ≡ none) × (but_backups o.db ≡ but_backups db'))
      ⊎ ((e : OpsError) × (o.error ≡ some e) × (but_backups o.db ≡ but_backups db))

module _ {Fs : Type 0} (env : Env Fs) (db db' : Db) where
  bail-IsAtomic : (e : OpsError) (d : Fs) → IsAtomic db db' (bail env e d db)
  unfolding IsAtomic
  bail-IsAtomic e d = inr (e, refl, refl)

  then_or-IsAtomic :
      (r : Fs × Bool) (e : OpsError) (k : Fs → Outcome Fs)
      → ((d : Fs) → IsAtomic db db' (k d))
      → IsAtomic db db' (then_or env r e db k)
  unfolding then_or
  then_or-IsAtomic (d, false) e k h = bail-IsAtomic e d
  then_or-IsAtomic (d, true) e k h = h d

  backed_up-IsAtomic :
      (id : ℕ) (trigger : String) (d : Fs) (k : Fs → Db → Outcome Fs)
      → ((d : Fs) (b : List BackupRecord) → IsAtomic db db' (k d (record db { backups = b })))
      → IsAtomic db db' (backed_up env id trigger d db k)
  unfolding backed_up IsAtomic
  backed_up-IsAtomic id trigger d k h =
      elim (Bool-cases (auto_backup_mod env id trigger d db.backups).2) [
        | inl ok ↦ rw ok (h (auto_backup_mod env id trigger d db.backups).0 _)
        | inr failed ↦ rw failed (inr (OpsError.backup_failed, refl, refl))
      ]

  commit-IsAtomic :
      (completed : List (Place × Place)) (d : Fs) → IsAtomic db db' (commit env completed d db db')
  unfolding commit IsAtomic
  commit-IsAtomic completed d = elim (Bool-cases env.commits) [
    | inl will ↦ rw will (inl (refl, refl))
    | inr lost ↦ rw lost (inr (OpsError.commit_failed, refl, refl))
  ]

  tidy-IsAtomic :
      (paths : List String) (o : Outcome Fs)
      → IsAtomic db db' o
      → IsAtomic db db' (tidy env paths o)
  unfolding tidy IsAtomic
  tidy-IsAtomic paths o h = h

module _ {Fs : Type 0} (env : Env Fs) (db : Db) (write : Db → Db) where
  move_in_transaction-IsAtomic :
      (renames : List (Place × Place)) (d : Fs)
      → IsAtomic db (write db) (move_in_transaction env renames write d db)
  unfolding move_in_transaction
  move_in_transaction-IsAtomic renames d = elim (Option-cases ((rename_batch env.fs renames d).1)) [
    | inl failed ↦
        rw (failed, move_in_transaction) (bail-IsAtomic env db (write db) OpsError.rename_failed _)
    | inr (done, e) ↦ rw (e, move_in_transaction) (commit-IsAtomic env db (write db) done _)
  ]

  move_to_stash-IsAtomic :
      (renames : List (Place × Place)) (d : Fs)
      → IsAtomic db (write db) (move_to_stash env renames write d db)
  unfolding move_to_stash
  move_to_stash-IsAtomic renames d =
      then_or-IsAtomic env db (write db) _ _ _ (λ d.
        then_or-IsAtomic env db (write db) _ _ _ (λ d. move_in_transaction-IsAtomic renames d))

  move_home-IsAtomic :
      (renames : List (Place × Place)) (d : Fs)
      → IsAtomic db (write db) (move_home env renames write d db)
  unfolding move_home
  move_home-IsAtomic renames d =
      then_or-IsAtomic env db (write db) _ _ _ (λ d. move_in_transaction-IsAtomic renames d)

module _ {Fs : Type 0} (env : Env Fs) where
  enable_files-IsAtomic :
      (id : ℕ) (d : Fs) (db : Db)
      → IsAtomic db (set_mod_disabled id false db) (enable_files env id d db)
  unfolding enable_files IsAtomic set_mod_disabled
  enable_files-IsAtomic id d db = elim (Option-cases (get_mod id db)) [
    | inl absent ↦
        rw (absent, enable_files)
          (bail-IsAtomic env db (set_mod_disabled id false db) OpsError.not_found d)
    | inr (row, found) ↦ elim (Bool-cases row.disabled) [
      | inl set ↦
          rw (found, set, enable_files)
            (backed_up-IsAtomic env db (set_mod_disabled id false db) _ _ _ _ (λ d b.
              tidy-IsAtomic env db (set_mod_disabled id false db) _ _ (
                move_home-IsAtomic env (record db { backups = b }) (set_mod_disabled id false) _
                  d)))
      | inr not_set ↦
          rw (found, not_set, enable_files)
            (bail-IsAtomic env db (set_mod_disabled id false db) OpsError.not_disabled d)
    ]
  ]

  -- What enabling leaves where it succeeds: the flag is cleared, and the layout of mod sync refreshed.
  abbrev pub IsEnabled : ℕ → Db → Outcome Fs → Type 0
  IsEnabled id db o =
      ((o.error ≡ none)
        × ((d : Fs) × (db1 : Db) × (but_backups db1 ≡ but_backups (set_mod_disabled id false db))
            × (o.db ≡ (layout env id d db1).1)))
      ⊎ ((e : OpsError) × (o.error ≡ some e) × (but_backups o.db ≡ but_backups db))

  lay_out-IsEnabled :
      (id : ℕ) (db : Db) (o : Outcome Fs)
      → IsAtomic db (set_mod_disabled id false db) o
      → IsEnabled id db (lay_out env id o)
  unfolding IsAtomic lay_out
  lay_out-IsEnabled id db o (inl (ok, same)) =
      subst (IsEnabled id db) (sym (success ok)) (inl (refl, (o.fs, o.db, same, refl)))
    where
      success :
          o.error ≡ none
          → lay_out env id o ≡ record {
            fs = (layout env id o.fs o.db).0;
            db = (layout env id o.fs o.db).1;
            error = none;
          }
      success e = rw (e, lay_out)
  lay_out-IsEnabled id db o (inr (e, failed, same)) =
      inr (e, (ap (λ z. z.error) kept ∙ failed), (ap (λ z. but_backups z.db) kept ∙ same))
    where
      kept : lay_out env id o ≡ o
      kept = simp (failed, lay_out)

-- But for `backups`, disabling a mod succeeds and sets its flag, or fails and leaves the tables alone.
-- Enabling it succeeds, clears its flag and refreshes the layout of mod sync, or fails and leaves the
-- tables alone. Disabling and enabling an addon succeed and set or clear its flag, or fail and leave the
-- tables alone.
pub disable_enable-IsAtomic :
    {Fs : Type 0} (env : Env Fs) (id : ℕ) (d : Fs) (db : Db)
    → IsAtomic db (set_mod_disabled id true db) (disable_mod env id d db)
      × IsEnabled env id db (enable_mod env id d db)
      × IsAtomic db (set_addon_disabled id true db) (disable_addon env id d db)
      × IsAtomic db (set_addon_disabled id false db) (enable_addon env id d db)
unfolding disable_mod enable_mod disable_addon enable_addon IsAtomic set_mod_disabled
    set_addon_disabled
disable_enable-IsAtomic env id d db = (
  elim (Option-cases (get_mod id db)) [
    | inl absent ↦
        rw (absent, disable_mod)
          (bail-IsAtomic env db (set_mod_disabled id true db) OpsError.not_found d)
    | inr (row, found) ↦ elim (Bool-cases row.disabled) [
      | inl set ↦
          rw (found, set, disable_mod)
            (bail-IsAtomic env db (set_mod_disabled id true db) OpsError.already_disabled d)
      | inr not_set ↦
          rw (found, not_set, disable_mod)
            (backed_up-IsAtomic env db (set_mod_disabled id true db) _ _ _ _ (λ d b.
              move_to_stash-IsAtomic env (record db { backups = b }) (set_mod_disabled id true) _
                d))
    ]
  ],
  lay_out-IsEnabled env id db (enable_files env id d db) (enable_files-IsAtomic env id d db),
  elim (Option-cases (get_addon id db)) [
    | inl absent ↦
        rw (absent, disable_addon)
          (bail-IsAtomic env db (set_addon_disabled id true db) OpsError.not_found d)
    | inr (row, found) ↦ elim (Bool-cases row.disabled) [
      | inl set ↦
          rw (found, set, disable_addon)
            (bail-IsAtomic env db (set_addon_disabled id true db) OpsError.already_disabled d)
      | inr not_set ↦
          rw (found, not_set, disable_addon)
            (backed_up-IsAtomic env db (set_addon_disabled id true db) _ _ _ _ (λ d b.
              move_to_stash-IsAtomic env (record db { backups = b }) (set_addon_disabled id true) _
                d))
    ]
  ],
  elim (Option-cases (get_addon id db)) [
    | inl absent ↦
        rw (absent, enable_addon)
          (bail-IsAtomic env db (set_addon_disabled id false db) OpsError.not_found d)
    | inr (row, found) ↦ elim (Bool-cases row.disabled) [
      | inl set ↦
          rw (found, set, enable_addon)
            (backed_up-IsAtomic env db (set_addon_disabled id false db) _ _ _ _ (λ d b.
              tidy-IsAtomic env db (set_addon_disabled id false db) _ _ (
                move_home-IsAtomic env (record db { backups = b }) (set_addon_disabled id false) _
                  d)))
      | inr not_set ↦
          rw (found, not_set, enable_addon)
            (bail-IsAtomic env db (set_addon_disabled id false db) OpsError.not_disabled d)
    ]
  ],
)
