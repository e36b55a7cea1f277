-- ===== src/Backups/Names.antt =====
-- src/backup.rs: the name of a new backup's directory.
use quma_custom.Prelude.{
  ℕ, zero, suc, ◌+◌, ◌≤◌, ◌<◌, String, ◌≡◌, refl, ◌⊎◌, inl, inr, Bool, true, false, not, Option,
  none, some, arith, ◌==◌, nat_eq, string_eq, if◌then◌else◌, Bool-cases, unwrap_or, nat_beq_iff,
}
use Prim.Native.String.{◌++◌ as concat}

-- `show` prints a number.
abbrev pub candidate : (ℕ → String) → String → ℕ → String
candidate show id suffix = concat id (concat "_" (show suffix))

-- `exists` says which names are taken in the directory, and `drawn` is the
-- number that would be drawn.
module _ (exists : String → Bool) (show : ℕ → String) where
  -- The `for` loop over the next `n` suffixes.
  unfoldable pub free_suffix : ℕ → ℕ → String → Option String
  free_suffix zero suffix id = none
  free_suffix (suc n) suffix id =
      let rest = free_suffix n (suffix + 1) id in
      if not (exists (candidate show id suffix)) then some (candidate show id suffix) else rest

  unfoldable pub unique_backup_id : String → ℕ → String
  unique_backup_id id drawn =
      if not (exists id) then id else unwrap_or (free_suffix 99 1 id) (candidate show id drawn)

  free_suffix-cases :
      (n suffix : ℕ) (id : String)
      → ((name : String) × (free_suffix n suffix id ≡ some name) × (exists name ≡ false))
        ⊎ ((free_suffix n suffix id ≡ none)
            × ((s : ℕ) → suffix ≤ s → s < suffix + n → exists (candidate show id s) ≡ true))
  unfolding free_suffix
  free_suffix-cases zero suffix id = inr (refl, λ s low high. absurd (omega arith))
  free_suffix-cases (suc n) suffix id = elim (Bool-cases (exists (candidate show id suffix))) [
    | inl taken ↦ elim (free_suffix-cases n (suffix + 1) id) [
      | inl (name, e, free) ↦ inl (name, rw taken e, free)
      | inr (e, all_taken) ↦ inr (
        rw taken e,
        λ s low high. elim (Bool-cases (s == suffix)) [
          | inl same ↦ rw ((nat_beq_iff s suffix).0 same) taken
          | inr differ ↦ all_taken s (ground arith) (omega arith)
        ],
      )
    ]
    | inr free ↦ inl (candidate show id suffix, rw free, free)
  ]

  -- The name of a new backup is not taken, unless the time and all its suffixes below 100 are.
  pub unique_backup_id-free :
      (id : String) (drawn : ℕ)
      → (exists (unique_backup_id id drawn) ≡ false)
        ⊎ ((exists id ≡ true) × ((s : ℕ) → 1 ≤ s → s < 100 → exists (candidate show id s) ≡ true))
  unfolding unique_backup_id
  unique_backup_id-free id drawn = elim (Bool-cases (exists id)) [
    | inl taken ↦ elim (free_suffix-cases 99 1 id) [
      | inl (name, e, free) ↦ inl (rw (taken, e) free)
      | inr (e, all_taken) ↦ inr (taken, λ s low high. all_taken s low (omega arith))
    ]
    | inr free ↦ inl (rw free free)
  ]
