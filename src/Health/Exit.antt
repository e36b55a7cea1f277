-- ===== src/Health/Exit.antt =====
-- src/health.rs: what the exit code of the report says.
use mathlib.Core.List.Memᴰ as M
use quma_custom.Prelude.{
  ℕ, String, ◌≡◌, refl, sym, ap, ◌∙◌, subst, ◌↔◌, inl, inr, true, false, Option, none, some, List,
  [], ◌∷◌, map, Memᴰ, arith, eq_iff, nat_eq, string_eq, Bool-cases, some_injective, Option-cases,
  is_empty,
}
use quma_custom.Recovery.State.{InstalledFile}
use quma_custom.Health.Report.{
  ModsHealth, IntegrityHealth, HealthReport, exit_code, Ping, answered, unanswered, check_server,
  Disk, some_values, missing, modified, differs, check_integrity_parallel,
}

-- The file is there, and it has the hash that is recorded for it, if one is.
unfoldable pub IsIntact : Disk → InstalledFile → Type 0
IsIntact disk file =
    (disk.exists file.file_path ≡ true)
    × ((hash : String)
        → file.file_hash ≡ some hash
        → disk.compute_file_hash file.file_path ≡ some hash)

reachable_iff :
    (ping : Ping) (version : Option String) (expected address : String)
    → ((check_server ping version expected address).reachable ≡ true)
      ↔ ((latency_ms : ℕ) × (ping ≡ answered true latency_ms))
unfolding check_server
reachable_iff (answered true n) version expected address = (λ e. (n, refl), λ k. refl)
reachable_iff (answered false n) version expected address = (λ e. absurd cc, λ (m, e). absurd cc)
reachable_iff (unanswered error) version expected address = (λ e. absurd cc, λ (m, e). absurd cc)

empty_iff {ℓ} : {A : Type ℓ} (xs : List A) → (is_empty xs ≡ true) ↔ (xs ≡ [])
empty_iff [] = (λ e. refl, λ e. refl)
empty_iff (x ∷ xs) = (λ e. absurd cc, λ e. absurd cc)

exit_code_zero_iff :
    (r : HealthReport)
    → (exit_code r ≡ 0) ↔ (
        (r.server.reachable ≡ true)
        × (is_empty r.mods.incompatible_mods ≡ true)
        × (is_empty r.mods.load_failures ≡ true)
        × (is_empty r.integrity.missing_files ≡ true)
        × (is_empty r.integrity.modified_files ≡ true))
unfolding exit_code
exit_code_zero_iff r = ground arith

none_found :
    (g : InstalledFile → Option String) (files : List InstalledFile)
    → (is_empty (some_values (map g files)) ≡ true)
      ↔ ((f : InstalledFile) → Memᴰ f files → g f ≡ none)
none_found g [] = (λ e f m. elim m [ ], λ h. refl)
none_found g (x ∷ xs) = elim (Option-cases (g x)) [
  | inl e ↦ rw e (
    (λ h f m. elim (M.cases_cons m) [
      | inl same ↦ ap g same ∙ e
      | inr k ↦ (none_found g xs).0 h f k
    ]),
    (λ h. (none_found g xs).1 (λ f k. h f (Memᴰ.tail k))),
  )
  | inr (s, e) ↦ rw e (
    (λ h. absurd cc),
    (λ h. let clash : none ≡ some s = sym (h x (Memᴰ.head refl)) ∙ e in absurd cc),
  )
]

module _ (disk : Disk) where
  differs_iff :
      (path hash : String)
      → (differs disk path hash ≡ false) ↔ (disk.compute_file_hash path ≡ some hash)
  unfolding differs
  differs_iff path hash = elim (Option-cases (disk.compute_file_hash path)) [
    | inl e ↦ rw e ((λ h. absurd cc), (λ h. absurd cc))
    | inr (actual, e) ↦ rw e (
      (λ h. ap some ((eq_iff actual hash).0 (ground arith))),
      (λ h. ground (arith, (eq_iff actual hash).1 (some_injective h))),
    )
  ]

  IsIntact-iff :
      (f : InstalledFile) → ((missing disk f ≡ none) × (modified disk f ≡ none)) ↔ IsIntact disk f
  unfolding missing modified IsIntact
  IsIntact-iff f = elim (Bool-cases (disk.exists f.file_path)) [
    | inr gone ↦ rw gone ((λ (h, k). absurd cc), (λ (h, k). absurd cc))
    | inl there ↦ elim (Option-cases f.file_hash) [
      | inl e ↦ rw (there, e) ((λ h. (refl, λ s k. absurd cc)), (λ h. (refl, refl)))
      | inr (hash, e) ↦ elim (Bool-cases (differs disk f.file_path hash)) [
        | inl d ↦
            rw (there, e, d)
              (
                (λ (h, k). absurd cc),
                (λ (t, k).
                    let same : differs disk f.file_path hash ≡ false =
                      (differs_iff f.file_path hash).1 (k hash refl) in
                    absurd cc),
              )
        | inr d ↦
            rw (there, e, d)
              ((λ h. (refl, λ s k. (differs_iff f.file_path hash).0 d ∙ k)), (λ h. (refl, refl)))
      ]
    ]
  ]

  IsIntact-files :
      (files : List InstalledFile)
      → ((is_empty (some_values (map (missing disk) files)) ≡ true)
          × (is_empty (some_values (map (modified disk) files)) ≡ true))
        ↔ ((f : InstalledFile) → Memᴰ f files → IsIntact disk f)
  IsIntact-files files = (
    λ (gone, changed) f m. (IsIntact-iff f).0 (
      (none_found (missing disk) files).0 gone f m,
      (none_found (modified disk) files).0 changed f m,
    ),
    λ h. (
      (none_found (missing disk) files).1 (λ f m. ((IsIntact-iff f).1 (h f m)).0),
      (none_found (modified disk) files).1 (λ f m. ((IsIntact-iff f).1 (h f m)).1),
    ),
  )

  lists_of_check :
      (files : List InstalledFile) (integrity : IntegrityHealth)
      → check_integrity_parallel disk files ≡ some integrity
      → (integrity.missing_files ≡ some_values (map (missing disk) files))
        × (integrity.modified_files ≡ some_values (map (modified disk) files))
  unfolding check_integrity_parallel missing modified differs
  lists_of_check files integrity e = elim (Option-cases disk.scan_mod_directories) [
    | inl failed ↦ let clash : none ≡ some integrity = rw (failed) at e in absurd cc
    | inr (found, listed) ↦
        let same = some_injective (rw (listed) at e) in
        (
          sym (ap (λ (i : IntegrityHealth). i.missing_files) same),
          sym (ap (λ (i : IntegrityHealth). i.modified_files) same),
        )
  ]

-- Where the files could be checked, the exit code of the report is 0 exactly when the server answered
-- its ping without an error, no mod is incompatible or failed to load, and each tracked file is on the
-- disk with the hash that is recorded for it, if one is.
pub exit_code-check :
    (disk : Disk) (files : List InstalledFile) (integrity : IntegrityHealth) (ping : Ping)
    (version : Option String) (expected address : String) (mods : ModsHealth)
    → check_integrity_parallel disk files ≡ some integrity
    → (exit_code (record {
      server = check_server ping version expected address;
      mods = mods;
      integrity = integrity;
    })
        ≡ 0)
      ↔ (((latency_ms : ℕ) × (ping ≡ answered true latency_ms))
          × (mods.incompatible_mods ≡ [])
          × (mods.load_failures ≡ [])
          × ((f : InstalledFile) → Memᴰ f files → IsIntact disk f))
exit_code-check disk files integrity ping version expected address mods e =
    let (gone, changed) = lists_of_check disk files integrity e in
    let zero = exit_code_zero_iff (record {
      server = check_server ping version expected address;
      mods = mods;
      integrity = integrity;
    }) in
    let up = reachable_iff ping version expected address in
    let intact = IsIntact-files disk files in
    (
      λ h.
          let (reached, fits, loads, none_gone, none_changed) = zero.0 h in
          (
            up.0 reached,
            (empty_iff _).0 fits,
            (empty_iff _).0 loads,
            intact.0 (
              subst (λ xs. is_empty xs ≡ true) gone none_gone,
              subst (λ xs. is_empty xs ≡ true) changed none_changed,
            ),
          ),
      λ (reached, fits, loads, h).
          let (none_gone, none_changed) = intact.1 h in
          zero.1 (
            up.1 reached,
            (empty_iff _).1 fits,
            (empty_iff _).1 loads,
            subst (λ xs. is_empty xs ≡ true) (sym gone) none_gone,
            subst (λ xs. is_empty xs ≡ true) (sym changed) none_changed,
          ),
    )
