-- ===== src/Requests/Transitions.antt =====
-- src/db/requests.rs: what the two transitions change, and when.
use mathlib.Core.List.Memᴰ as M
use quma_custom.Prelude.{
  map, ◌++◌, ◌+◌, ℕ, String, ◌≡◌, ◌≢◌, refl, sym, ap, ◌∙◌, Bool, true, false, ◌&&◌, Option, some,
  none, List, [], ◌∷◌, Memᴰ, arith, ◌==◌, nat_eq, string_eq, if◌then◌else◌, Bool-cases, inl, inr,
  beq_ne, nat_beq_iff, mem-filter, mem_of_mem-filter, find, is_empty, length,
}
use quma_custom.Sql.{
  Result, ok, err, constraint_violation, after, update_where, find_where, find_where-some,
  mem-update_where_hit, mem-update_where_miss,
}
use quma_custom.Sql.Keys.{IsKeyed}
use quma_custom.Sql.Distinct.{Distinct, filter-Distinct}
use quma_custom.Requests.Status.{RequestStatus, as_str}
use quma_custom.Requests.Tables.{is_user_or_null, Db, ModRequest, get_mod_request}
use quma_custom.Requests.Writes.{
  status_in, set_status, set_statuses, matching_requests, transition_request_status,
  transition_request_by_forge_mod_id,
}
use quma_custom.Requests.Audit.{IsAudited, set_status-IsAudited}

find_narrower :
    (p q : ModRequest → Bool) (rows : List ModRequest) (r : ModRequest)
    → find p rows ≡ some r
    → q r ≡ true
    → find (λ x. p x && q x) rows ≡ some r
find_narrower p q [] r e h = absurd (cc)
find_narrower p q (x ∷ xs) r e h = elim (Bool-cases (p x)) [
  | inl hit ↦
      let same : x ≡ r = ground arith in
      let also : q x ≡ true = ap q same ∙ h in rw (hit, also) (ap some same)
  | inr miss ↦ rw miss (find_narrower p q xs r (rw miss at e) h)
]

find-none :
    (p : ModRequest → Bool) (rows : List ModRequest)
    → ((x : ModRequest) → Memᴰ x rows → p x ≡ false)
    → find p rows ≡ none
find-none p [] h = refl
find-none p (x ∷ xs) h = rw (h x (Memᴰ.head refl)) (find-none p xs (λ y m. h y (Memᴰ.tail m)))

-- The database once the request has the new status: its row in the table, and one row of the log.
abbrev pub moved : ModRequest → RequestStatus → Option ℕ → Option String → (now : String) → Db → Db
moved r to by comment now db = record db {
  requests =
      map (λ (x : ModRequest). if x.id == r.id then record x { status = as_str to } else x)
        db.requests;
  log =
      db.log
      ++ (record {
        id = db.next_log_id;
        request_id = r.id;
        from_status = r.status;
        to_status = as_str to;
        changed_by = by;
        changed_at = now;
        comment = comment;
      })
        ∷ [];
  next_log_id = db.next_log_id + 1;
}

-- The compare-and-set: where ids are keys, a request is moved exactly when its status is one of the
-- expected ones and the user who moves it, if any, is in the table; then its row has the new status, no
-- other row changes, and one row of the log records both statuses. Where the status is not expected
-- the answer is `false` and nothing is written; where the user is not there the call is an error.
pub transition_request_status_compare_and_set :
    (id : ℕ) (expected : List RequestStatus) (to : RequestStatus) (by : Option ℕ)
    (comment : Option String) (now : String) (db : Db) (r : ModRequest)
    → IsKeyed ModRequest.id db.next_request_id db.requests
    → get_mod_request id db ≡ some r
    → transition_request_status id expected to by comment now db ≡ (
        if status_in expected r.status
        then (if is_user_or_null by db
            then ok (true, moved r to by comment now db)
            else err constraint_violation)
        else ok (false, db))
unfolding transition_request_status get_mod_request find_where set_status update_where
transition_request_status_compare_and_set id expected to by comment now db r k e =
    elim (Bool-cases (status_in expected r.status)) [
      | inl fits ↦
          rw
            (
              find_narrower (λ (x : ModRequest). x.id == id) (λ x. status_in expected x.status)
                  db.requests r e fits,
              transition_request_status,
            )
            (rw fits (elim (Bool-cases (is_user_or_null by db)) [
              | inl known ↦
                  rw known (
                    ap (λ i. ok (true, moved (record r { id = i }) to by comment now db)) (sym own))
              | inr unknown ↦ rw unknown
            ]))
      | inr unfit ↦
          rw
            (
              find-none (λ (x : ModRequest). x.id == id && status_in expected x.status) db.requests
                  (λ x m. other x m unfit),
              transition_request_status,
            )
            (rw unfit)
    ]
  where
    own : r.id ≡ id
    own =
        (nat_beq_iff r.id id).0 (find_where-some (λ (y : ModRequest). y.id == id) db.requests r e).1

    other :
        (x : ModRequest)
        → Memᴰ x db.requests
        → status_in expected r.status ≡ false
        → (x.id == id && status_in expected x.status) ≡ false
    other x m unfit = elim (Bool-cases (x.id == id)) [
      | inr miss ↦ rw miss
      | inl hit ↦
          let (mr, hr) = find_where-some (λ (y : ModRequest). y.id == id) db.requests r e in
          let same : x ≡ r =
            k.unique x r m mr ((nat_beq_iff _ _).0 hit ∙ sym ((nat_beq_iff _ _).0 hr)) in
          let lacks : status_in expected x.status ≡ false =
            ap (λ (y : ModRequest). status_in expected y.status) same ∙ unfit in
          rw (hit, lacks)
    ]

module _ (new : String) (by : Option ℕ) (comment : Option String) (now : String) where
  set_statuses-miss :
      (rs : List ModRequest) (db : Db) (r : ModRequest)
      → ((x : ModRequest) → Memᴰ x rs → x.id ≢ r.id)
      → Memᴰ r db.requests
      → Memᴰ r (set_statuses rs new by comment now db).requests
  unfolding set_statuses set_status
  set_statuses-miss [] db r apart m = m
  set_statuses-miss (x ∷ rs) db r apart m =
      set_statuses-miss rs (set_status x.id x.status new by comment now db) r
        (λ y k. apart y (Memᴰ.tail k))
        (mem-update_where_miss (λ (y : ModRequest). y.id == x.id) _ m
          (beq_ne r.id x.id (λ e. apart x (Memᴰ.head refl) (sym e))))

  set_statuses-hit :
      (rs : List ModRequest) (db : Db) (r : ModRequest)
      → Distinct ModRequest.id rs
      → Memᴰ r rs
      → Memᴰ r db.requests
      → Memᴰ (record r { status = new }) (set_statuses rs new by comment now db).requests
  unfolding set_statuses set_status
  set_statuses-hit [] db r d k m = elim k [ ]
  set_statuses-hit (x ∷ rs) db r d k m = elim (M.cases_cons k) [
    | inl now_it ↦
        set_statuses-miss rs (set_status x.id x.status new by comment now db)
          (record r { status = new }) (λ y ky e. d.0 y ky (e ∙ ap ModRequest.id now_it))
          (mem-update_where_hit (λ (y : ModRequest). y.id == x.id) _ m
            ((nat_beq_iff _ _).1 (ap ModRequest.id now_it)))
    | inr later ↦ set_statuses-hit rs (set_status x.id x.status new by comment now db) r d.1 later (
        mem-update_where_miss (λ (y : ModRequest). y.id == x.id) _ m
          (beq_ne r.id x.id (d.0 r later)))
  ]

  pub set_statuses-IsAudited :
      (rs : List ModRequest) (db : Db)
      → Distinct ModRequest.id rs
      → ((r : ModRequest) → Memᴰ r rs → Memᴰ r db.requests)
      → IsAudited db
      → IsAudited (set_statuses rs new by comment now db)
  unfolding set_statuses
  set_statuses-IsAudited [] db d present h = h
  set_statuses-IsAudited (x ∷ rs) db d present h =
      set_statuses-IsAudited rs (set_status x.id x.status new by comment now db) d.1
        (λ r m.
          unfold set_status in
          mem-update_where_miss (λ (y : ModRequest). y.id == x.id) _ (present r (Memᴰ.tail m))
            (beq_ne r.id x.id (d.0 r m)))
        (set_status-IsAudited x new by comment now db h (present x (Memᴰ.head refl)))

-- The requests for a mod whose status is one of the expected ones.
abbrev pub is_matching : ℕ → List RequestStatus → ModRequest → Bool
is_matching forge_mod_id from r = r.forge_mod_id == forge_mod_id && status_in from r.status

pub matching_requests-mem :
    (forge_mod_id : ℕ) (from : List RequestStatus) (db : Db) {r : ModRequest}
    → Memᴰ r (matching_requests forge_mod_id from db)
    → Memᴰ r db.requests × (is_matching forge_mod_id from r ≡ true)
unfolding matching_requests
matching_requests-mem forge_mod_id from db {r} m =
    let (m1, fits) = mem_of_mem-filter (λ (x : ModRequest). status_in from x.status) _ m in
    let (m2, same) =
      mem_of_mem-filter (λ (x : ModRequest). x.forge_mod_id == forge_mod_id) db.requests m1 in
    (m2, rw (same, fits))

pub matching_requests-Distinct :
    (forge_mod_id : ℕ) (from : List RequestStatus) (db : Db)
    → Distinct ModRequest.id db.requests
    → Distinct ModRequest.id (matching_requests forge_mod_id from db)
unfolding matching_requests
matching_requests-Distinct forge_mod_id from db d =
    filter-Distinct ModRequest.id _ _ (filter-Distinct ModRequest.id _ db.requests d)

-- The database after a bulk transition is that of the loop, also where nothing matches, unless the
-- user is not in the table.
pub bulk-set_statuses :
    (forge_mod_id : ℕ) (from : List RequestStatus) (to : RequestStatus) (by : Option ℕ)
    (comment : Option String) (now : String) (db : Db)
    → after db (transition_request_by_forge_mod_id forge_mod_id from to by comment now db) ≡ (
        if is_user_or_null by db
        then set_statuses (matching_requests forge_mod_id from db) (as_str to) by comment now db
        else db)
unfolding transition_request_by_forge_mod_id
bulk-set_statuses forge_mod_id from to by comment now db =
    go (matching_requests forge_mod_id from db) (is_user_or_null by db)
  where
    go :
        (rows : List ModRequest) (known : Bool)
        → after db (
            if◌then◌else◌ {A = Result (ℕ × Db)} (is_empty rows) (ok (0, db)) (
              if◌then◌else◌ {A = Result (ℕ × Db)} known
                (ok (length rows, set_statuses rows (as_str to) by comment now db))
                (err constraint_violation)))
          ≡ (if known then set_statuses rows (as_str to) by comment now db else db)
    go [] true = unfold set_statuses in refl
    go [] false = refl
    go (x ∷ xs) true = refl
    go (x ∷ xs) false = refl

-- Where ids are distinct, a bulk transition gives the new status to every request for the mod whose
-- status is one of the expected ones, and leaves every other request as it was; where a user is named
-- who is not in the table, it leaves all as they were.
pub transition_request_by_forge_mod_id_rows :
    (forge_mod_id : ℕ) (from : List RequestStatus) (to : RequestStatus) (by : Option ℕ)
    (comment : Option String) (now : String) (db : Db) (r : ModRequest)
    → IsKeyed ModRequest.id db.next_request_id db.requests
    → Distinct ModRequest.id db.requests
    → Memᴰ r db.requests
    → Memᴰ
        (if is_user_or_null by db && is_matching forge_mod_id from r
          then record r { status = as_str to }
          else r)
        (after db
          (transition_request_by_forge_mod_id forge_mod_id from to by comment now db)).requests
transition_request_by_forge_mod_id_rows forge_mod_id from to by comment now db r k d m =
    let rows = matching_requests forge_mod_id from db in
    rw (bulk-set_statuses forge_mod_id from to by comment now db)
      (elim (Bool-cases (is_user_or_null by db)) [
        | inr unknown ↦ rw unknown m
        | inl known ↦ elim (Bool-cases (is_matching forge_mod_id from r)) [
          | inl hit ↦
              rw (known, hit)
                (set_statuses-hit (as_str to) by comment now rows db r
                  (matching_requests-Distinct forge_mod_id from db d) (matched hit) m)
          | inr miss ↦
              rw (known, miss)
                (set_statuses-miss (as_str to) by comment now rows db r
                  (λ x mx e.
                    let (mx', fits) = matching_requests-mem forge_mod_id from db mx in
                    let same = ap (is_matching forge_mod_id from) (k.unique x r mx' m e) in cc)
                  m)
        ]
      ])
  where
    matched :
        is_matching forge_mod_id from r ≡ true → Memᴰ r (matching_requests forge_mod_id from db)
    matched hit =
        unfold matching_requests in
        mem-filter (λ (x : ModRequest). status_in from x.status)
          (mem-filter (λ (x : ModRequest). x.forge_mod_id == forge_mod_id) m (ground arith))
          (ground arith)
