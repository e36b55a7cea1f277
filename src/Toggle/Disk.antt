-- ===== src/Toggle/Disk.antt =====
-- src/ops.rs: batches of renames that are undone when one fails, and the disk that they work on.
use quma_custom.Prelude.{
  ℕ, zero, suc, ◌-◌, String, ◌≡◌, refl, sym, ap, ◌∙◌, inl, inr, Bool, true, false, Option, none,
  some, List, [], ◌∷◌, ◌++◌, nat_eq, string_eq, if◌then◌else◌, Bool-cases, Option-cases, unwrap_or,
  length, take,
}
use quma_custom.Toggle.Paths.{split, join}

-- A path below the server's directory, or below the stash of what is disabled.
pub data Place : Type 0 where
  home stash : String → Place

-- What `std::fs` answers and does. A rename that fails, `none`, moves nothing; the others may leave
-- work half done, and say whether they failed.
pub record FileSystem (Fs : Type 0) : Type 0 where
  pub exists : Place → Fs → Bool
  pub is_dir : Place → Fs → Bool
  pub rename : Place → Place → Fs → Option Fs
  pub remove_dir_all : Place → Fs → Fs × Bool
  pub remove_file : Place → Fs → Fs × Bool
  pub create_dir_all_of_parent : Place → Fs → Fs × Bool
  pub is_empty_dir : Place → Fs → Bool
  pub remove_dir : Place → Fs → Fs

module _ {Fs : Type 0} (fs : FileSystem Fs) where
  -- A failed undo is logged, and the next is tried.
  abbrev undo : Place × Place → Fs → Fs
  undo r d = unwrap_or (fs.rename r.1 r.0 d) d

  -- The last first
  unfoldable pub undo_renames : List (Place × Place) → Fs → Fs
  undo_renames [] d = d
  undo_renames (r ∷ rs) d = undo r (undo_renames rs d)

  unfoldable pub rename_rest :
      List (Place × Place) → List (Place × Place) → Fs → Fs × Option (List (Place × Place))
  rename_rest completed [] d = (d, some completed)
  rename_rest completed (r ∷ rs) d = elim (fs.exists r.0 d) [
    | true ↦ elim (fs.rename r.0 r.1 d) [
      | none ↦ (undo_renames completed d, none)
      | some d' ↦ rename_rest (completed ++ r ∷ []) rs d'
    ]
    | false ↦ rename_rest completed rs d
  ]

  unfoldable pub rename_batch : List (Place × Place) → Fs → Fs × Option (List (Place × Place))
  rename_batch renames d = rename_rest [] renames d

  -- The loop that removes what stands in the stash where something is moved to.
  unfoldable pub remove_stale : List (Place × Place) → Fs → Fs × Bool
  remove_stale [] d = (d, true)
  remove_stale (r ∷ rs) d = elim (fs.exists r.1 d) [
    | false ↦ remove_stale rs d
    | true ↦
        let (d', ok) = if fs.is_dir r.1 d then fs.remove_dir_all r.1 d else fs.remove_file r.1 d in
        elim ok [ true ↦ remove_stale rs d' | false ↦ (d', false) ]
  ]

  unfoldable pub create_parents : List (Place × Place) → Fs → Fs × Bool
  create_parents [] d = (d, true)
  create_parents (r ∷ rs) d =
      let (d', ok) = fs.create_dir_all_of_parent r.1 d in
      elim ok [ true ↦ create_parents rs d' | false ↦ (d', false) ]

  -- The directories above a path, the nearest first, below the root.
  unfoldable pub ancestors : ℕ → List String → List String
  ancestors zero parts = []
  ancestors (suc n) parts = join (take (suc n) parts) ∷ ancestors n parts

  unfoldable pub remove_empty : List String → Fs → Fs
  remove_empty [] d = d
  remove_empty (dir ∷ dirs) d = elim (fs.is_empty_dir (stash dir) d) [
    | true ↦ remove_empty dirs (fs.remove_dir (stash dir) d)
    | false ↦ d
  ]

  unfoldable pub cleanup_empty_stash_dirs : List String → Fs → Fs
  cleanup_empty_stash_dirs [] d = d
  cleanup_empty_stash_dirs (rel_path ∷ paths) d =
      let parts = split rel_path in
      cleanup_empty_stash_dirs paths (remove_empty (ancestors (length parts - 1) parts) d)

  -- Nothing stands where the renames move to, at the time of each, and renaming back undoes it.
  abbrev pub IsReversible : List (Place × Place) → Fs → Type 0
  IsReversible [] d = Unit
  IsReversible (r ∷ rs) d =
      ((d' : Fs) → fs.rename r.0 r.1 d ≡ some d' → fs.rename r.1 r.0 d' ≡ some d)
      × ((d' : Fs) → fs.rename r.0 r.1 d ≡ some d' → IsReversible rs d')
      × (fs.exists r.0 d ≡ false → IsReversible rs d)

  undo_renames-append :
      (xs : List (Place × Place)) (r : Place × Place) (d : Fs)
      → undo_renames (xs ++ r ∷ []) d ≡ undo_renames xs (undo r d)
  unfolding undo_renames
  undo_renames-append [] r d = refl
  undo_renames-append (x ∷ xs) r d = ap (undo x) (undo_renames-append xs r d)

  rename_rest-undoes :
      (completed renames : List (Place × Place)) (start d d' : Fs)
      → undo_renames completed d ≡ start
      → IsReversible renames d
      → rename_rest completed renames d ≡ (d', none)
      → d' ≡ start
  unfolding rename_rest
  rename_rest-undoes completed [] start d d' back rev e =
      let clash : some completed ≡ none = ap (λ p. p.1) e in absurd (cc)
  rename_rest-undoes completed (r ∷ rs) start d d' back rev e =
      elim (Bool-cases (fs.exists r.0 d)) [
        | inl there ↦ elim (Option-cases (fs.rename r.0 r.1 d)) [
          | inl failed ↦ sym (ap (λ p. p.0) (rw (there, failed, rename_rest) at e)) ∙ back
          | inr (d1, moved) ↦
              rename_rest-undoes (completed ++ r ∷ []) rs start d1 d'
                (undo_renames-append completed r d1
                  ∙ ap (λ o. undo_renames completed (unwrap_or o d1)) (rev.0 d1 moved)
                  ∙ back)
                (rev.1 d1 moved) (rw (there, moved, rename_rest) at e)
        ]
        | inr absent ↦
            rename_rest-undoes completed rs start d d' back (rev.2 absent)
              (rw (absent, rename_rest) at e)
      ]

  -- A batch of renames that fails leaves the disk as it was, where each rename that is done can be
  -- undone by renaming back.
  pub rename_batch-undoes :
      (renames : List (Place × Place)) (d d' : Fs)
      → IsReversible renames d
      → rename_batch renames d ≡ (d', none)
      → d' ≡ d
  unfolding rename_batch undo_renames
  rename_batch-undoes renames d d' rev e = rename_rest-undoes [] renames d d d' refl rev e
