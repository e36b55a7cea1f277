-- ===== src/Recovery/Recorded.antt =====
-- src/ops.rs: the database after the recovery of an update whose files are all in place.
use quma_custom.Prelude.{
  ◌≢◌, beq_ne, any-mem, eq_iff, Memᴰ, ℕ, String, ◌≡◌, refl, sym, ap, ◌∙◌, inl, inr, Bool, true,
  false, Option, some, List, [], ◌∷◌, ◌++◌, map, ◌==◌, nat_eq, string_eq, Bool-cases, beq_self,
  length, any, filter,
}
use quma_custom.Sql.{mem_of_mem-delete_where, delete_where}
use quma_custom.Recovery.State.{
  is_taken, World, InstalledMod, InstalledFile, PendingUpdate, ExtractedFile, get_mod,
  delete_pending_update, delete_files_for_mod, insert_file, record_extracted_files, update_mod,
  is_file_of, file_row,
}
use quma_custom.Recovery.Recover.{
  count_verified_files, assess_recovery_state, apply_outcome, recover_single_mod_update,
}

module _ {A : Type 0} (p : A → Bool) where
  filter-deleted : (xs : List A) → filter p (delete_where p xs) ≡ []
  unfolding delete_where
  filter-deleted [] = refl
  filter-deleted (x ∷ xs) =
      let rest = filter-deleted xs in
      elim (Bool-cases (p x)) [ inl h ↦ rw h rest | inr h ↦ rw (h, h) rest ]

  any-deleted : (xs : List A) → any p (delete_where p xs) ≡ false
  unfolding delete_where
  any-deleted [] = refl
  any-deleted (x ∷ xs) =
      let rest = any-deleted xs in
      elim (Bool-cases (p x)) [ inl h ↦ rw h rest | inr h ↦ rw (h, h) rest ]

  filter-last : (xs : List A) (y : A) → p y ≡ true → filter p (xs ++ y ∷ []) ≡ filter p xs ++ y ∷ []
  filter-last [] y h = rw h
  filter-last (x ∷ xs) y h =
      let rest = filter-last xs y h in
      elim (Bool-cases (p x)) [ inl k ↦ rw k (ap (λ z. x ∷ z) rest) | inr k ↦ rw k rest ]

append-last : {A : Type 0} (xs ys : List A) (y : A) → (xs ++ y ∷ []) ++ ys ≡ xs ++ y ∷ ys
append-last [] ys y = refl
append-last (x ∷ xs) ys y = ap (λ z. x ∷ z) (append-last xs ys y)

-- The paths of the files differ from one another.
abbrev pub AreApart : List ExtractedFile → Type 0
AreApart [] = Unit
AreApart (x ∷ xs) = ((y : ExtractedFile) → Memᴰ y xs → y.path ≢ x.path) × AreApart xs

-- No row has the path of one of the files.
abbrev AreFree : List ExtractedFile → List InstalledFile → Type 0
AreFree files rows = (x : ExtractedFile) → Memᴰ x files → is_taken x.path rows ≡ false

is_taken-last :
    (path : String) (rows : List InstalledFile) (y : InstalledFile)
    → is_taken path rows ≡ false
    → y.file_path ≢ path
    → is_taken path (rows ++ y ∷ []) ≡ false
is_taken-last path [] y h other = rw (beq_ne y.file_path path other)
is_taken-last path (x ∷ xs) y h other = elim (Bool-cases (x.file_path == path)) [
  | inl hit ↦ let clash : true ≡ false = rw hit at h in absurd (cc)
  | inr miss ↦ rw miss (is_taken-last path xs y (rw miss at h) other)
]

-- Files whose paths are free and differ are recorded, after the rows that there were.
record_extracted_files-rows :
    (id : ℕ) (files : List ExtractedFile) (w : World)
    → AreApart files
    → AreFree files w.files
    → (w' : World) × (record_extracted_files id files w ≡ some w')
      × (filter (is_file_of id) w'.files
          ≡ filter (is_file_of id) w.files ++ map (file_row id) files)
unfolding record_extracted_files insert_file
record_extracted_files-rows id [] w apart free =
    (w, refl, sym (append_nil (filter (is_file_of id) w.files)))
  where
    append_nil : (xs : List InstalledFile) → xs ++ [] ≡ xs
    append_nil [] = refl
    append_nil (x ∷ xs) = ap (λ z. x ∷ z) (append_nil xs)
record_extracted_files-rows id (file ∷ files) w (first, apart) free =
    let w1 : World = record w { files = w.files ++ file_row id file ∷ [] } in
    let (w', recorded, rows) = record_extracted_files-rows id files w1 apart (λ x m.
      is_taken-last x.path w.files (file_row id file) (free x (Memᴰ.tail m))
        (λ e. first x m (sym e))) in
    (
      w',
      rw (free file (Memᴰ.head refl), record_extracted_files) recorded,
      rows
          ∙ ap (λ z. z ++ map (file_row id) files)
              (filter-last (is_file_of id) w.files (file_row id file) (beq_self id))
          ∙ append-last (filter (is_file_of id) w.files) (map (file_row id) files)
              (file_row id file),
    )

free_of_others :
    (id : ℕ) (path : String) (rows : List InstalledFile)
    → ((f : InstalledFile) → Memᴰ f rows → is_file_of id f ≡ false → f.file_path ≢ path)
    → is_taken path (delete_where (is_file_of id) rows) ≡ false
free_of_others id path rows others =
    elim (Bool-cases (is_taken path (delete_where (is_file_of id) rows))) [
      | inr free ↦ free
      | inl taken ↦
          let (f, m, e) = any-mem (λ (f : InstalledFile). f.file_path == path) _ taken in
          let (k, other) = mem_of_mem-delete_where (is_file_of id) rows m in
          absurd (others f k other ((eq_iff f.file_path path).0 e))
    ]

-- Where every file of the new version is in place with its hash, both lists can be read, and the new
-- paths differ and are recorded for no other mod or addon, the recovery of a mod's update succeeds:
-- the files recorded for the mod are then those of the new version, in their order, and the marker is
-- gone.
pub recover_single_mod_update-records :
    (new_of : String → Option (List ExtractedFile)) (old_of : String → Option (List String))
    (removable : String → Bool) (now : String) (r : PendingUpdate) (w : World) (m : InstalledMod)
    (new_files : List ExtractedFile) (old_paths : List String)
    → get_mod r.mod_db_id w ≡ some m
    → new_of r.new_file_paths ≡ some new_files
    → old_of r.old_file_paths ≡ some old_paths
    → count_verified_files m.disabled new_files w ≡ length new_files
    → AreApart new_files
    → ((x : ExtractedFile)
        → Memᴰ x new_files
        → (f : InstalledFile) → Memᴰ f w.files
        → is_file_of r.mod_db_id f ≡ false
        → f.file_path ≢ x.path)
    → (w' : World) × (recover_single_mod_update new_of old_of removable now r w ≡ some w')
      × (filter (is_file_of r.mod_db_id) w'.files ≡ map (file_row r.mod_db_id) new_files)
      × (any (λ (p : PendingUpdate). p.id == r.id) w'.pending ≡ false)
unfolding recover_single_mod_update assess_recovery_state apply_outcome delete_pending_update
    update_mod delete_files_for_mod
recover_single_mod_update-records new_of old_of removable now r w m new_files old_paths found parsed
      read complete apart others =
    let all_there : (count_verified_files m.disabled new_files w == length new_files) ≡ true =
      rw complete (beq_self (length new_files)) in
    let (w1, recorded, rows) =
      record_extracted_files-rows r.mod_db_id new_files (delete_files_for_mod r.mod_db_id w) apart
        (λ x k. free_of_others r.mod_db_id x.path w.files (others x k)) in
    (
      delete_pending_update r.id (update_mod r.mod_db_id r.version_id r.version_str now w1),
      rw (found, recover_single_mod_update, parsed, read, all_there, apply_outcome, recorded),
      rows
          ∙ ap (λ z. z ++ map (file_row r.mod_db_id) new_files)
              (filter-deleted (is_file_of r.mod_db_id) w.files),
      any-deleted (λ p. p.id == r.id) _,
    )
