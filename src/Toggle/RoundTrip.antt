-- ===== src/Toggle/RoundTrip.antt =====
-- src/ops.rs: a mod that is disabled and enabled again.
use quma_custom.Prelude.{
  ℕ, ◌≡◌, refl, sym, ap, ◌∙◌, inl, inr, true, false, none, some, List, [], ◌∷◌, Memᴰ, ◌==◌, nat_eq,
  string_eq, Bool-cases, Option-cases, nat_beq_iff,
}
use quma_custom.Sql.{find_where-some, update_where}
use quma_custom.Sql.Distinct.{Distinct, Distinct-unique}
use quma_custom.Recovery.State.{InstalledMod}
use quma_custom.Toggle.Tables.{but_backups, Db, get_mod, set_mod_disabled}
use quma_custom.Toggle.Moves.{layout, Env, Outcome, disable_mod, enable_mod}
use quma_custom.Toggle.Outcomes.{IsAtomic, IsEnabled, disable_enable-IsAtomic}

reset_rows :
    (id : ℕ) (xs : List InstalledMod)
    → ((m : InstalledMod) → Memᴰ m xs → m.id == id ≡ true → m.disabled ≡ false)
    → update_where
        (λ m. m.id == id)
        (λ m. record m { disabled = false })
        (update_where (λ m. m.id == id) (λ m. record m { disabled = true }) xs)
      ≡ xs
unfolding update_where
reset_rows id [] h = refl
reset_rows id (x ∷ xs) h =
    let rest = reset_rows id xs (λ m k. h m (Memᴰ.tail k)) in
    elim (Bool-cases (x.id == id)) [
      | inl hit ↦
          let was = h x (Memᴰ.head refl) hit in
          rw (hit, hit) (λ i. record x { disabled = sym was i } ∷ rest i)
      | inr miss ↦ rw (miss, miss) (ap (λ ys. x ∷ ys) rest)
    ]

was_enabled :
    {Fs : Type 0} (env : Env Fs) (id : ℕ) (d : Fs) (db : Db)
    → (disable_mod env id d db).error ≡ none
    → (m : InstalledMod) × (get_mod id db ≡ some m) × (m.disabled ≡ false)
unfolding disable_mod
was_enabled env id d db ok = elim (Option-cases (get_mod id db)) [
  | inl absent ↦ let clash = rw (absent, disable_mod) at ok in absurd (cc)
  | inr (m, found) ↦ elim (Bool-cases m.disabled) [
    | inl set ↦ let clash = rw (found, set, disable_mod) at ok in absurd (cc)
    | inr not_set ↦ (m, found, not_set)
  ]
]

pub of_success :
    {Fs : Type 0} (db db' : Db) (o : Outcome Fs)
    → IsAtomic db db' o
    → o.error ≡ none
    → but_backups o.db ≡ but_backups db'
unfolding IsAtomic
of_success db db' o (inl (ok, same)) h = same
of_success db db' o (inr (e, failed, same)) h = let clash = sym failed ∙ h in absurd (cc)

set_mod_disabled-set_mod_disabled :
    (id : ℕ) (db : Db) (m : InstalledMod)
    → Distinct InstalledMod.id db.mods
    → get_mod id db ≡ some m
    → m.disabled ≡ false
    → set_mod_disabled id false (set_mod_disabled id true db) ≡ db
unfolding set_mod_disabled get_mod
set_mod_disabled-set_mod_disabled id db m d found was =
    let (k, own) = find_where-some (λ r. r.id == id) db.mods m found in
    ap (λ rows. record db { mods = rows })
      (reset_rows id db.mods (λ r k' own'.
        let same : r.id ≡ m.id = (nat_beq_iff r.id id).0 own' ∙ sym ((nat_beq_iff m.id id).0 own) in
        ap InstalledMod.disabled (Distinct-unique InstalledMod.id db.mods d k' k same) ∙ was))

enabled_tables :
    {Fs : Type 0} (env : Env Fs) (id : ℕ) (db : Db) (o : Outcome Fs)
    → IsEnabled env id db o
    → env.ensure_mod_layout ≡ none
    → o.error ≡ none
    → but_backups o.db ≡ but_backups (set_mod_disabled id false db)
unfolding layout
enabled_tables env id db o (inl (ok, (d, db1, same, laid))) plain h =
    ap but_backups (laid ∙ no_layout plain) ∙ same
  where
    no_layout : env.ensure_mod_layout ≡ none → (layout env id d db1).1 ≡ db1
    no_layout e = rw (e, layout)
enabled_tables env id db o (inr (e, failed, same)) plain h =
    let clash = sym failed ∙ h in absurd (cc)

-- Where the keys of mods differ and mod sync is not configured, disabling a mod and enabling it again,
-- when both succeed, leave the tables of mods, addons and files as they were.
pub enable_mod-disable_mod :
    {Fs : Type 0} (env : Env Fs) (id : ℕ) (d d' : Fs) (db : Db)
    → Distinct InstalledMod.id db.mods
    → env.ensure_mod_layout ≡ none
    → (disable_mod env id d db).error ≡ none
    → (enable_mod env id d' (disable_mod env id d db).db).error ≡ none
    → but_backups (enable_mod env id d' (disable_mod env id d db).db).db ≡ but_backups db
unfolding set_mod_disabled
enable_mod-disable_mod env id d d' db distinct plain off on =
    let (m, found, was) = was_enabled env id d db off in
    enabled_tables env id (disable_mod env id d db).db
      (enable_mod env id d' (disable_mod env id d db).db)
      (disable_enable-IsAtomic env id d' (disable_mod env id d db).db).1 plain on
    ∙ ap (λ z. but_backups (set_mod_disabled id false z))
        (of_success _ _ (disable_mod env id d db) (disable_enable-IsAtomic env id d db).0 off)
    ∙ ap but_backups (set_mod_disabled-set_mod_disabled id db m distinct found was)
