-- ===== src/Rbac/Grants.antt =====
-- What the transactions of src/db/rbac.rs leave in `role_permissions`.
use quma_custom.Prelude.{
  ℕ, String, ◌≡◌, ◌≢◌, refl, sym, ap, ◌∙◌, subst, true, some, Memᴰ, List, [], ◌∷◌, ◌++◌, arith,
  ◌==◌, nat_eq, string_eq, eq_iff, beq_ne, nat_beq_iff, Bool-cases, Option-cases, inl, inr, mem-any,
  any-mem, mem-filter, map, filter, ◌⊎◌,
}
use mathlib.Core.List.Memᴰ as M
use mathlib.Core.Option.{some-injective}
use quma_custom.Sql.{ok, err, constraint_violation, mem-delete_where, mem-flat_map, delete_where}
use quma_custom.Sql.Keys.{IsKeyed}
use quma_custom.Rbac.Permission.{
  Permission, users_manage, as_str, from_slug, permission_eq, permission_beq_iff,
}
use quma_custom.Rbac.Tables.{
  Db, User, RoleRecord, Grant, granted, known_permissions, get_permissions_for_role,
}
use quma_custom.Rbac.Roles.{contains, has_grant, insert_grants, replace_grants}
use quma_custom.Rbac.Managers.{Holds, HasManager}

pub insert_cases :
    (role_id : ℕ) (ps : List Permission) (grants : List Grant)
    → (insert_grants role_id ps grants ≡ err constraint_violation)
      ⊎ ((grants' : List Grant) × (insert_grants role_id ps grants ≡ ok grants'))
unfolding insert_grants
insert_cases role_id [] grants = inr (grants, refl)
insert_cases role_id (p ∷ ps) grants = elim (Bool-cases (has_grant role_id (as_str p) grants)) [
  | inl twice ↦ inl (rw twice)
  | inr fresh ↦ rw fresh (insert_cases role_id ps (grants ++ (role_id, as_str p) ∷ []))
]

pub insert_grants-keeps :
    (role_id : ℕ) (ps : List Permission) (grants : List Grant) {g : Grant} {grants' : List Grant}
    → insert_grants role_id ps grants ≡ ok grants'
    → Memᴰ g grants
    → Memᴰ g grants'
unfolding insert_grants
insert_grants-keeps role_id [] grants e m =
    let same : grants ≡ _ = ground arith in subst (Memᴰ _) same m
insert_grants-keeps role_id (p ∷ ps) grants e m =
    elim (Bool-cases (has_grant role_id (as_str p) grants)) [
      | inl twice ↦ absurd (ground arith)
      | inr fresh ↦
          insert_grants-keeps role_id ps (grants ++ (role_id, as_str p) ∷ []) (rw fresh at e)
            (M.append_left _ m)
    ]

pub insert_grants-adds :
    (role_id : ℕ) (ps : List Permission) (grants : List Grant) {p : Permission}
    {grants' : List Grant}
    → insert_grants role_id ps grants ≡ ok grants'
    → Memᴰ p ps
    → Memᴰ (role_id, as_str p) grants'
unfolding insert_grants
insert_grants-adds role_id [] grants e m = elim m [ ]
insert_grants-adds role_id (q ∷ ps) grants {p} e m =
    elim (Bool-cases (has_grant role_id (as_str q) grants)) [
      | inl twice ↦ absurd (ground arith)
      | inr fresh ↦
          let e' = (rw fresh at e) in
          elim (M.cases_cons m) [
            | inl now ↦
                insert_grants-keeps role_id ps _ e'
                  (M.append_right grants (Memᴰ.head (ap (λ r. (role_id, as_str r)) now)))
            | inr later ↦
                insert_grants-adds role_id ps (grants ++ (role_id, as_str q) ∷ []) e' later
          ]
    ]

known_permissions-mem :
    (slugs : List String) {slug : String} {p : Permission}
    → Memᴰ slug slugs
    → from_slug slug ≡ some p
    → Memᴰ p (known_permissions slugs)
unfolding known_permissions
known_permissions-mem [] m e = elim m [ ]
known_permissions-mem (s ∷ slugs) {p = p} m e = elim (Option-cases (from_slug s)) [
  | inl unknown ↦ elim (M.cases_cons m) [
    | inl now ↦ absurd (let k = ap from_slug now in cc)
    | inr later ↦ rw (unknown, known_permissions) (known_permissions-mem slugs later e)
  ]
  | inr (q, known) ↦ elim (M.cases_cons m) [
    | inl now ↦
        let same : some p ≡ some q = sym e ∙ ap from_slug now ∙ known in
        rw (known, known_permissions) (Memᴰ.head (some-injective p q same))
    | inr later ↦ rw (known, known_permissions) (Memᴰ.tail (known_permissions-mem slugs later e))
  ]
]

mem-granted :
    {permission : String} {u : User} {db : Db} (h : Holds permission u db)
    → Memᴰ (h.role, h.grant) (granted db)
unfolding granted
mem-granted h =
    mem-flat_map (λ (r : RoleRecord). map (λ rp. (r, rp)) (filter (λ (rp : Grant). r.id == rp.0) _))
      h.role_mem
      (M.map (λ (g : Grant). (h.role, g))
        (mem-filter (λ (g : Grant). h.role.id == g.0) h.grant_mem ((nat_beq_iff _ _).1 h.role_id)))

-- A user's grant is in the set that is loaded for the user's role.
pub Holds-loaded :
    {permission : String} {u : User} {db : Db} {p : Permission} (role_name : String)
    → Holds permission u db
    → u.role ≡ role_name
    → from_slug permission ≡ some p
    → Memᴰ p (get_permissions_for_role role_name db)
unfolding get_permissions_for_role
Holds-loaded {db = db} role_name h e known =
    let named : (h.role.name == role_name) ≡ true = (eq_iff _ _).1 (sym h.role_name ∙ e) in
    let row : RoleRecord × Grant = (h.role, h.grant) in
    let m : Memᴰ row (filter (λ (w : RoleRecord × Grant). w.0.name == role_name) (granted db)) =
      mem-filter (λ (w : RoleRecord × Grant). w.0.name == role_name) (mem-granted h) named in
    known_permissions-mem _ (M.cast (sym h.slug) (M.map (λ (w : RoleRecord × Grant). w.1.1) m))
      known

pub contains_of_mem : {p : Permission} {ps : List Permission} → Memᴰ p ps → contains ps p ≡ true
contains_of_mem {p} m = mem-any (λ q. q == p) m ((permission_beq_iff p p).1 refl)

mem_of_contains : (p : Permission) (ps : List Permission) → contains ps p ≡ true → Memᴰ p ps
mem_of_contains p ps h =
    let (q, m, e) = any-mem (λ q. q == p) ps h in M.cast (sym ((permission_beq_iff q p).0 e)) m

-- A manager of another role keeps the grant that is theirs.
pub kept_grant :
    (role : RoleRecord) (permissions : List Permission) (db : Db) {db' : Db} {next : ℕ}
    (h : HasManager db)
    → IsKeyed RoleRecord.id next db.roles
    → Memᴰ role db.roles
    → h.user.role ≢ role.name
    → replace_grants role permissions db ≡ ok db'
    → HasManager db'
unfolding replace_grants
kept_grant role permissions db {db'} h keyed m other e =
    let left = delete_where (λ (g : Grant). g.0 == role.id) db.role_permissions in
    elim (insert_cases role.id permissions left) [
      | inl failed ↦ absurd (let e' = (rw failed at e) in cc)
      | inr (grants, done) ↦
          let same : record db { role_permissions = grants } ≡ db' =
            let e' = (rw done at e) in ground arith in
          let apart : h.holds.grant.0 ≢ role.id = λ k. other (
            h.holds.role_name
            ∙ ap RoleRecord.name
                (keyed.unique h.holds.role role h.holds.role_mem m (h.holds.role_id ∙ k))) in
          subst HasManager same (record {
            user = h.user;
            user_mem = h.user_mem;
            holds = record {
              role = h.holds.role;
              grant = h.holds.grant;
              role_mem = h.holds.role_mem;
              grant_mem = insert_grants-keeps role.id permissions left done (
                  mem-delete_where (λ (g : Grant). g.0 == role.id) h.holds.grant_mem
                    (beq_ne _ _ apart));
              role_name = h.holds.role_name;
              role_id = h.holds.role_id;
              slug = h.holds.slug;
            };
            enabled = h.enabled;
          })
    ]

-- A manager of the role itself keeps managing if the new grants say so.
pub new_grant :
    (role : RoleRecord) (permissions : List Permission) (db : Db) {db' : Db} (h : HasManager db)
    → Memᴰ role db.roles
    → h.user.role ≡ role.name
    → contains permissions users_manage ≡ true
    → replace_grants role permissions db ≡ ok db'
    → HasManager db'
unfolding replace_grants
new_grant role permissions db {db'} h m own granted_anew e =
    let left = delete_where (λ (g : Grant). g.0 == role.id) db.role_permissions in
    elim (insert_cases role.id permissions left) [
      | inl failed ↦ absurd (let e' = (rw failed at e) in cc)
      | inr (grants, done) ↦
          let same : record db { role_permissions = grants } ≡ db' =
            let e' = (rw done at e) in ground arith in
          subst HasManager same (record {
            user = h.user;
            user_mem = h.user_mem;
            holds = record {
              role = role;
              grant = (role.id, as_str users_manage);
              role_mem = m;
              grant_mem =
                  insert_grants-adds role.id permissions left done
                    (mem_of_contains users_manage permissions granted_anew);
              role_name = own;
              role_id = refl;
              slug = unfold as_str in refl;
            };
            enabled = h.enabled;
          })
    ]
