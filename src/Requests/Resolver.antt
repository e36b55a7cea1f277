-- ===== src/Requests/Resolver.antt =====
-- `resolve_request` of src/web/handlers/requests.rs: who is recorded as the one who resolved.
use quma_custom.Prelude.{
  true, any, subst, nat_beq_iff, ℕ, String, ◌≡◌, refl, sym, ap, ◌∙◌, not, ◌&&◌, Option, some, ◌==◌,
  nat_eq, if◌then◌else◌, Bool-cases, inl, inr, is_some,
}
use quma_custom.Sql.{ok, find_where, update_where, find_where-some, find_where-update_where}
use quma_custom.Sql.Keys.{IsKeyed, update_where-IsKeyed}
use quma_custom.Requests.Status.{RequestStatus, as_str}
use quma_custom.Requests.Tables.{is_user, Db, ModRequest, get_mod_request}
use quma_custom.Requests.Writes.{status_in, set_request_resolver}
use quma_custom.Requests.Handlers.{Action, allowed_from, target, resolve_request}
use quma_custom.Requests.Transitions.{moved, transition_request_status_compare_and_set}

-- The row with a resolver: the first one stays.
abbrev pub with_resolver : ℕ → Option String → String → ModRequest → ModRequest
with_resolver by comment now r =
    if not (is_some r.resolved_by)
    then record r { resolved_by = some by; resolved_at = some now; resolve_comment = comment }
    else r

-- The row with the action's status, if the action is allowed from the one that it has.
abbrev pub with_target : Action → ModRequest → ModRequest
with_target action r =
    if status_in (allowed_from action) r.status
    then record r { status = as_str (target action) }
    else r

-- The database that setting the resolver leaves.
abbrev resolved : ℕ → ℕ → Option String → (now : String) → Db → Db
resolved id by comment now db = record db {
  requests =
      update_where (λ r. r.id == id && not (is_some r.resolved_by))
        (λ r. record r { resolved_by = some by; resolved_at = some now; resolve_comment = comment })
        db.requests;
}

set_request_resolver-known :
    (id by : ℕ) (comment : Option String) (now : String) (db : Db)
    → is_user by db ≡ true
    → set_request_resolver id by comment now db ≡ ok (resolved id by comment now db)
unfolding set_request_resolver
set_request_resolver-known id by comment now db known =
    elim (Bool-cases
      (any (λ (r : ModRequest). r.id == id && not (is_some r.resolved_by)) db.requests)) [
        | inl hit ↦ rw (hit, known)
        | inr miss ↦ rw miss
      ]

resolved-get :
    (id by : ℕ) (comment : Option String) (now : String) (db : Db) (r : ModRequest)
    → get_mod_request id db ≡ some r
    → get_mod_request id (resolved id by comment now db) ≡ some (with_resolver by comment now r)
unfolding get_mod_request
resolved-get id by comment now db r e =
    let hit = (find_where-some (λ (x : ModRequest). x.id == id) db.requests r e).1 in
    find_where-update_where (λ (x : ModRequest). x.id == id)
      (λ x. x.id == id && not (is_some x.resolved_by))
      (λ x. record x { resolved_by = some by; resolved_at = some now; resolve_comment = comment })
      db.requests r (λ x. refl) e
    ∙ rw hit refl

moved-get :
    (id : ℕ) (to : RequestStatus) (by : Option ℕ) (comment : Option String) (now : String) (db : Db)
    (r : ModRequest)
    → get_mod_request id db ≡ some r
    → get_mod_request id (moved r to by comment now db) ≡ some (record r { status = as_str to })
unfolding get_mod_request update_where
moved-get id to by comment now db r e =
    let hit = (find_where-some (λ (x : ModRequest). x.id == id) db.requests r e).1 in
    let own : r.id ≡ id = (nat_beq_iff r.id id).0 hit in
    subst
      (λ i.
        find_where (λ (x : ModRequest). x.id == id)
          (update_where (λ x. x.id == i) (λ x. record x { status = as_str to }) db.requests)
        ≡ some (record r { status = as_str to }))
      (sym own)
      (find_where-update_where (λ (x : ModRequest). x.id == id) (λ x. x.id == id)
          (λ x. record x { status = as_str to }) db.requests r (λ x. refl) e
        ∙ rw hit refl)

with_resolver-status :
    (by : ℕ) (comment : Option String) (now : String) (r : ModRequest)
    → (with_resolver by comment now r).status ≡ r.status
with_resolver-status by comment now r = elim (Bool-cases (is_some r.resolved_by)) [
  | inl old ↦ rw old
  | inr new ↦ rw new
]

-- Resolving a request whose id is a key, by a user who is in the table, succeeds, and answers whether
-- the action was allowed. The row gets the action's status if so, and a resolver if it had none,
-- whether the action was allowed or not: a refused action still records its user, and a reopened
-- request keeps its first resolver.
pub resolve_request_row :
    (id : ℕ) (action : Action) (by : ℕ) (comment : Option String) (now : String) (db : Db)
    (r : ModRequest)
    → IsKeyed ModRequest.id db.next_request_id db.requests
    → get_mod_request id db ≡ some r
    → is_user by db ≡ true
    → (db' : Db) × (resolve_request id action by comment now db
        ≡ ok (status_in (allowed_from action) r.status, db'))
      × (get_mod_request id db' ≡ some (with_target action (with_resolver by comment now r)))
unfolding resolve_request
resolve_request_row id action by comment now db r k e known =
    let db1 : Db = resolved id by comment now db in
    let r1 : ModRequest = with_resolver by comment now r in
    let found : get_mod_request id db1 ≡ some r1 = resolved-get id by comment now db r e in
    let keyed : IsKeyed ModRequest.id db1.next_request_id db1.requests =
      update_where-IsKeyed ModRequest.id _ _ (λ x. refl) k in
    let moves =
      transition_request_status_compare_and_set id (allowed_from action) (target action) (some by)
        comment now db1 r1 keyed found in
    let status : r1.status ≡ r.status = with_resolver-status by comment now r in
    let same = ap (status_in (allowed_from action)) status in
    elim (Bool-cases (status_in (allowed_from action) r1.status)) [
      | inl fits ↦ (
        moved r1 (target action) (some by) comment now db1,
        rw (set_request_resolver-known id by comment now db known, moves, fits, known)
            (ap (λ b. ok (b, moved r1 (target action) (some by) comment now db1))
              (sym fits ∙ same)),
        rw fits (moved-get id (target action) (some by) comment now db1 r1 found),
      )
      | inr unfit ↦ (
        db1,
        rw (set_request_resolver-known id by comment now db known, moves, unfit)
            (ap (λ b. ok (b, db1)) (sym unfit ∙ same)),
        rw unfit found,
      )
    ]
