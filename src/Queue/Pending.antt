-- ===== src/Queue/Pending.antt =====
-- src/db/users.rs: what the queue answers after an insertion, and that it can always be listed.
use mathlib.Core.List.Memᴰ as M
use quma_custom.Prelude.{
  ℕ, ◌+◌, String, ◌≡◌, ap, ◌∙◌, subst, inl, inr, Bool, true, false, ◌&&◌, ◌||◌, Option, none, some,
  List, [], ◌∷◌, ◌++◌, Memᴰ, arith, ltb, ◌==◌, nat_eq, string_eq, if◌then◌else◌, is_some,
}
use quma_custom.Sql.{count_where, mem_of_mem-delete_where}
use quma_custom.Sql.Count.{count-append}
use quma_custom.Queue.Table
use quma_custom.Queue.Table.{
  QueueAction, as_str, Db, PendingRow, PendingOperation, is_mod_op, is_addon_op, insert_pending_op,
  insert_pending_addon_op, insert_pending_url_op, has_pending_op, has_pending_addon_op,
  row_to_pending_op,
}
use quma_custom.Queue.Actions.{try_from_iff}

one_more : (n : ℕ) (b : Bool) → ltb 0 (n + (if b then 1 else 0)) ≡ (b || ltb 0 n)
one_more n true = ground arith
one_more n false = ground arith

has-append :
    (p : PendingRow → Bool) (rows : List PendingRow) (y : PendingRow)
    → ltb 0 (count_where p (rows ++ y ∷ [])) ≡ (p y || ltb 0 (count_where p rows))
has-append p rows y = ap (ltb 0) (count-append p rows y) ∙ one_more (count_where p rows) (p y)

drop_true : (a b : Bool) → (a && b && true) ≡ (a && b)
drop_true a b = ground arith

module _ (action : QueueAction) (item_id : ℕ) (version : Option ℕ) (name : String)
    (metadata queued_by : Option String) (now : String) (db : Db) where
  abbrev mod_row : PendingRow
  mod_row = record {
    id = db.next_id;
    action = as_str action;
    forge_mod_id = some item_id;
    forge_version_id = version;
    mod_name = name;
    metadata = metadata;
    queued_at = now;
    queued_by = queued_by;
    item_type = "mod";
    forge_addon_id = none;
    archive_path = none;
    source = "forge";
    source_url = none;
  }

  abbrev addon_row : PendingRow
  addon_row = record mod_row {
    forge_mod_id = none;
    item_type = "addon";
    forge_addon_id = some item_id;
  }

  insert_pending_op-has :
      (m : ℕ) (a : QueueAction)
      → let db' = (insert_pending_op action item_id version name metadata queued_by now db).1 in
        (has_pending_op m a db'
          ≡ (item_id == m && as_str action == as_str a || has_pending_op m a db))
        × (has_pending_addon_op m a db' ≡ has_pending_addon_op m a db)
  unfolding insert_pending_op has_pending_op has_pending_addon_op
  insert_pending_op-has m a = (
    has-append (is_mod_op m a) db.rows mod_row
        ∙ ap (λ z. z || has_pending_op m a db)
            (drop_true (item_id == m) (as_str action == as_str a)),
    has-append (is_addon_op m a) db.rows mod_row,
  )

  insert_pending_addon_op-has :
      (m : ℕ) (a : QueueAction)
      → let db' =
          (insert_pending_addon_op action item_id version name metadata queued_by now db).1 in
        (has_pending_addon_op m a db'
          ≡ (item_id == m && as_str action == as_str a || has_pending_addon_op m a db))
        × (has_pending_op m a db' ≡ has_pending_op m a db)
  unfolding insert_pending_addon_op has_pending_op has_pending_addon_op
  insert_pending_addon_op-has m a = (
    has-append (is_addon_op m a) db.rows addon_row
        ∙ ap (λ z. z || has_pending_addon_op m a db)
            (drop_true (item_id == m) (as_str action == as_str a)),
    has-append (is_mod_op m a) db.rows addon_row,
  )

  -- After an operation on a mod, or on an addon, is queued the queue says that it has that operation for
  -- that mod, or addon, and nothing else changes in what it says of mods and of addons.
  pub has_pending-insert :
      (m : ℕ) (a : QueueAction)
      → let db_mod = (insert_pending_op action item_id version name metadata queued_by now db).1 in
        let db_addon =
          (insert_pending_addon_op action item_id version name metadata queued_by now db).1 in
        let is_it = item_id == m && as_str action == as_str a in
        ((has_pending_op m a db_mod ≡ (is_it || has_pending_op m a db))
          × (has_pending_addon_op m a db_mod ≡ has_pending_addon_op m a db))
        × (has_pending_addon_op m a db_addon ≡ (is_it || has_pending_addon_op m a db))
        × (has_pending_op m a db_addon ≡ has_pending_op m a db)
  has_pending-insert m a =
      let (is_there, others) = insert_pending_addon_op-has m a in
      (insert_pending_op-has m a, is_there, others)

pub data Step (db db' : Db) : Type 0 where
  insert_op :
      (action : QueueAction) (forge_mod_id : ℕ) (version : Option ℕ) (name : String)
      (metadata queued_by : Option String) (now : String)
      → db' ≡ (Table.insert_pending_op action forge_mod_id version name metadata queued_by now db).1
      → Step db db'
  insert_addon_op :
      (action : QueueAction) (forge_addon_id : ℕ) (version : Option ℕ) (name : String)
      (metadata queued_by : Option String) (now : String)
      → db'
        ≡ (Table.insert_pending_addon_op action forge_addon_id version name metadata queued_by now
            db).1
      → Step db db'
  insert_url_op :
      (action : QueueAction) (name archive_path source : String)
      (source_url queued_by : Option String) (now : String)
      → db'
        ≡ (Table.insert_pending_url_op action name archive_path source source_url queued_by now
            db).1
      → Step db db'
  delete_op : (id : ℕ) → db' ≡ (Table.delete_pending_op id db).1 → Step db db'

pub data Reach (db : Db) : Db → Type 0 where
  here : Reach db db
  next : {u v : Db} → Reach db u → Step u v → Reach db v

abbrev pub no_operations : Db
no_operations = record { rows = []; next_id = 1 }

abbrev IsReadable : Db → Type 0
IsReadable db = (r : PendingRow) → Memᴰ r db.rows → (a : QueueAction) × (r.action ≡ as_str a)

IsReadable-Step : {db db' : Db} → Step db db' → IsReadable db → IsReadable db'
unfolding Table.insert_pending_op Table.insert_pending_addon_op Table.insert_pending_url_op
    Table.delete_pending_op
IsReadable-Step {db} (Step.insert_op action m v name metadata by now e) h r k =
    elim (M.append_cases db.rows (subst (λ (x : Db). Memᴰ r x.rows) e k)) [
      | inl old ↦ h r old
      | inr new ↦ (action, ap PendingRow.action (M.eq_of_singleton new))
    ]
IsReadable-Step {db} (Step.insert_addon_op action m v name metadata by now e) h r k =
    elim (M.append_cases db.rows (subst (λ (x : Db). Memᴰ r x.rows) e k)) [
      | inl old ↦ h r old
      | inr new ↦ (action, ap PendingRow.action (M.eq_of_singleton new))
    ]
IsReadable-Step {db} (Step.insert_url_op action name path source url by now e) h r k =
    elim (M.append_cases db.rows (subst (λ (x : Db). Memᴰ r x.rows) e k)) [
      | inl old ↦ h r old
      | inr new ↦ (action, ap PendingRow.action (M.eq_of_singleton new))
    ]
IsReadable-Step {db} (Step.delete_op id e) h r k =
    h r
      (mem_of_mem-delete_where (λ x. x.id == id) db.rows (subst (λ (x : Db). Memᴰ r x.rows) e k)).0

IsReadable-Reach : {db db' : Db} → Reach db db' → IsReadable db → IsReadable db'
IsReadable-Reach here h = h
IsReadable-Reach (next r s) h = IsReadable-Step s (IsReadable-Reach r h)

-- However the queue was filled and emptied from an empty table, each of its rows is read back as an
-- operation, so that listing it does not fail.
pub row_to_pending_op-Reach :
    {db : Db} (r : PendingRow)
    → Reach no_operations db
    → Memᴰ r db.rows
    → is_some (row_to_pending_op r) ≡ true
unfolding row_to_pending_op
row_to_pending_op-Reach r reached k =
    let (a, written) = IsReadable-Reach reached (λ x m. elim m [ ]) r k in
    rw ((try_from_iff r.action a).1 written, row_to_pending_op, is_some)
