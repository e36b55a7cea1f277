-- ===== src/Requests/Lifecycle.antt =====
-- The life of a mod request: the steps that the program takes, and what holds after any of them.
use mathlib.Core.List.Memᴰ as M
use quma_custom.Prelude.{
  Bool-cases, ℕ, String, ◌≡◌, refl, sym, ap, ◌∙◌, subst, true, Option, List, [], ◌∷◌, Memᴰ, arith,
  ◌==◌, nat_eq, string_eq, Option-cases, inl, inr, nat_beq_iff, eq_iff, any-mem, ◌&&◌,
}
use quma_custom.Sql.{after, find_where, find_where-some}
use quma_custom.Requests.Status.{
  RequestStatus, pending, approved, queued, installed, rejected, as_str,
}
use quma_custom.Requests.Tables.{is_user_or_null, Db, ModRequest, RequestStatusLog}
use quma_custom.Requests.Writes.{
  status_in, set_status, set_statuses, matching_requests, transition_request_status,
  transition_request_by_forge_mod_id,
}
use quma_custom.Requests.Audit.{IsAudited, set_status-IsAudited}
use quma_custom.Requests.Transitions.{
  matching_requests-mem, matching_requests-Distinct, bulk-set_statuses, set_statuses-IsAudited,
}

-- The changes of status that the program makes, one constructor for each call of a transition.
pub data Edge : RequestStatus → RequestStatus → Type 0 where
  approved_by_user : Edge pending approved
  rejected_pending : Edge pending rejected
  rejected_approved : Edge approved rejected
  reopened : Edge rejected pending
  queued_up : Edge approved queued
  cancelled : Edge queued approved
  cancelled_and_rejected : Edge queued rejected
  installed_at_once : Edge approved installed
  installed_queued : Edge queued installed
  removed : Edge installed approved

-- A row of the log records an edge.
pub record IsLegal (l : RequestStatusLog) : Type 0 where
  pub from : RequestStatus
  pub to : RequestStatus
  pub from_text : l.from_status ≡ as_str from
  pub to_text : l.to_status ≡ as_str to
  pub edge : Edge from to

pub record IsSound (db : Db) : Type 0 where
  pub audited : IsAudited db
  pub legal : (l : RequestStatusLog) → Memᴰ l db.log → IsLegal l

-- A transition whose sources all have an edge to its target.
abbrev pub AllEdges : List RequestStatus → RequestStatus → Type 0
AllEdges [] to = Unit
AllEdges (x ∷ xs) to = Edge x to × AllEdges xs to

edge_of_mem :
    {x to : RequestStatus} (xs : List RequestStatus) → AllEdges xs to → Memᴰ x xs → Edge x to
edge_of_mem [] edges m = elim m [ ]
edge_of_mem {to = to} (y ∷ ys) edges m = elim (M.cases_cons m) [
  | inl here ↦ subst (λ s. Edge s to) (sym here) edges.0
  | inr later ↦ edge_of_mem ys edges.1 later
]

-- The status of a row that a transition accepts is the text of one of its sources.
source_of_status_in :
    (from : List RequestStatus) (s : String)
    → status_in from s ≡ true
    → (x : RequestStatus) × Memᴰ x from × (s ≡ as_str x)
unfolding status_in
source_of_status_in from s h =
    let (x, m, e) = any-mem (λ x. as_str x == s) from h in (x, m, sym ((eq_iff _ _).0 e))

IsLegal-set_status :
    (from : List RequestStatus) (to : RequestStatus) (r : ModRequest) (by : Option ℕ)
    (comment : Option String) (now : String) (db : Db)
    → AllEdges from to
    → status_in from r.status ≡ true
    → ((l : RequestStatusLog) → Memᴰ l db.log → IsLegal l)
    → (l : RequestStatusLog) → Memᴰ l (set_status r.id r.status (as_str to) by comment now db).log
    → IsLegal l
unfolding set_status
IsLegal-set_status from to r by comment now db edges fits legal l m =
    elim (M.append_cases db.log m) [
      | inl old ↦ legal l old
      | inr new ↦
          let same = M.eq_of_singleton new in
          let (x, mx, text) = source_of_status_in from r.status fits in
          record {
            from = x;
            to = to;
            from_text = ap RequestStatusLog.from_status same ∙ text;
            to_text = ap RequestStatusLog.to_status same;
            edge = edge_of_mem from edges mx;
          }
    ]

pub transition-IsSound :
    (id : ℕ) (from : List RequestStatus) (to : RequestStatus) (by : Option ℕ)
    (comment : Option String) (now : String) (db : Db)
    → AllEdges from to
    → IsSound db
    → IsSound (after db (transition_request_status id from to by comment now db))
unfolding transition_request_status
transition-IsSound id from to by comment now db edges h =
    elim (Option-cases
      (find_where (λ (r : ModRequest). r.id == id && status_in from r.status) db.requests)) [
        | inl missing ↦ rw (missing, transition_request_status) h
        | inr (r, found) ↦
            let (m, hit) = find_where-some _ db.requests r found in
            let own : r.id ≡ id = (nat_beq_iff _ _).0 (ground arith) in
            let sound : IsSound (set_status r.id r.status (as_str to) by comment now db) = record {
              audited = set_status-IsAudited r (as_str to) by comment now db h.audited m;
              legal = IsLegal-set_status from to r by comment now db edges (ground arith) h.legal;
            } in
            elim (Bool-cases (is_user_or_null by db)) [
              | inr unknown ↦ rw (found, unknown, transition_request_status) h
              | inl known ↦
                  rw (found, known, transition_request_status)
                    (subst (λ i. IsSound (set_status i r.status (as_str to) by comment now db)) own
                      sound)
            ]
      ]

IsLegal-set_statuses :
    (from : List RequestStatus) (to : RequestStatus) (by : Option ℕ) (comment : Option String)
    (now : String) (rs : List ModRequest) (db : Db)
    → AllEdges from to
    → ((r : ModRequest) → Memᴰ r rs → status_in from r.status ≡ true)
    → ((l : RequestStatusLog) → Memᴰ l db.log → IsLegal l)
    → (l : RequestStatusLog) → Memᴰ l (set_statuses rs (as_str to) by comment now db).log
    → IsLegal l
unfolding set_statuses
IsLegal-set_statuses from to by comment now [] db edges fits legal = legal
IsLegal-set_statuses from to by comment now (r ∷ rs) db edges fits legal =
    IsLegal-set_statuses from to by comment now rs
      (set_status r.id r.status (as_str to) by comment now db) edges (λ x m. fits x (Memᴰ.tail m))
      (IsLegal-set_status from to r by comment now db edges (fits r (Memᴰ.head refl)) legal)

pub bulk-IsSound :
    (forge_mod_id : ℕ) (from : List RequestStatus) (to : RequestStatus) (by : Option ℕ)
    (comment : Option String) (now : String) (db : Db)
    → AllEdges from to
    → IsSound db
    → IsSound (after db (transition_request_by_forge_mod_id forge_mod_id from to by comment now db))
bulk-IsSound forge_mod_id from to by comment now db edges h =
    let rows = matching_requests forge_mod_id from db in
    rw (bulk-set_statuses forge_mod_id from to by comment now db)
      (elim (Bool-cases (is_user_or_null by db)) [
        | inr unknown ↦ rw unknown h
        | inl known ↦ rw known (record {
          audited =
              set_statuses-IsAudited (as_str to) by comment now rows db
                (matching_requests-Distinct forge_mod_id from db h.audited.distinct)
                (λ r m. (matching_requests-mem forge_mod_id from db m).0) h.audited;
          legal =
              IsLegal-set_statuses from to by comment now rows db edges
                (λ r m. let k = (matching_requests-mem forge_mod_id from db m).1 in ground arith)
                h.legal;
        })
      ])
