-- ===== src/Queue/Table.antt =====
-- src/db/users.rs: the table `pending_operations`. A row holds the action as a text, as the columns
-- do; reading a row parses it.
use quma_custom.Prelude.{
  ℕ, ◌+◌, String, Bool, false, ◌&&◌, Option, none, some, List, [], ◌∷◌, ◌++◌, ltb, ◌==◌, nat_eq,
  string_eq, if◌then◌else◌,
}
use quma_custom.Sql.{count_where, delete_where}

pub data QueueAction : Type 0 where
  install update remove : QueueAction

unfoldable pub as_str : QueueAction → String
as_str install = "install"
as_str update = "update"
as_str remove = "remove"

-- The error's text is left out.
unfoldable pub try_from : String → Option QueueAction
try_from s =
    if s == "install"
    then some install
    else if s == "update"
    then some update
    else if s == "remove"
    then some remove
    else none

pub record PendingRow : Type 0 where
  pub id : ℕ
  pub action : String
  pub forge_mod_id : Option ℕ
  pub forge_version_id : Option ℕ
  pub mod_name : String
  pub metadata : Option String
  pub queued_at : String
  pub queued_by : Option String
  pub item_type : String
  pub forge_addon_id : Option ℕ
  pub archive_path : Option String
  pub source : String
  pub source_url : Option String

pub record PendingOperation : Type 0 where
  pub id : ℕ
  pub action : QueueAction
  pub forge_mod_id : Option ℕ
  pub forge_version_id : Option ℕ
  pub mod_name : String
  pub metadata : Option String
  pub queued_at : String
  pub queued_by : Option String
  pub item_type : String
  pub forge_addon_id : Option ℕ
  pub archive_path : Option String
  pub source : String
  pub source_url : Option String

pub record Db : Type 0 where
  pub rows : List PendingRow
  pub next_id : ℕ

-- The columns that a statement does not name take the defaults of the schema: the source is `forge`,
-- and `now` is `datetime('now')`.
unfoldable pub insert_pending_op :
    QueueAction → ℕ → Option ℕ → String → Option String → Option String → String → Db → ℕ × Db
insert_pending_op action forge_mod_id forge_version_id mod_name metadata queued_by now db = (
  db.next_id,
  record {
    rows =
        db.rows
        ++ (record {
          id = db.next_id;
          action = as_str action;
          forge_mod_id = some forge_mod_id;
          forge_version_id = forge_version_id;
          mod_name = mod_name;
          metadata = metadata;
          queued_at = now;
          queued_by = queued_by;
          item_type = "mod";
          forge_addon_id = none;
          archive_path = none;
          source = "forge";
          source_url = none;
        })
          ∷ [];
    next_id = db.next_id + 1;
  },
)

unfoldable pub insert_pending_addon_op :
    QueueAction → ℕ → Option ℕ → String → Option String → Option String → String → Db → ℕ × Db
insert_pending_addon_op action forge_addon_id forge_version_id addon_name metadata queued_by now
      db =
    (
      db.next_id,
      record {
        rows =
            db.rows
            ++ (record {
              id = db.next_id;
              action = as_str action;
              forge_mod_id = none;
              forge_version_id = forge_version_id;
              mod_name = addon_name;
              metadata = metadata;
              queued_at = now;
              queued_by = queued_by;
              item_type = "addon";
              forge_addon_id = some forge_addon_id;
              archive_path = none;
              source = "forge";
              source_url = none;
            })
              ∷ [];
        next_id = db.next_id + 1;
      },
    )

unfoldable pub insert_pending_url_op :
    QueueAction → String → String → String → Option String → Option String → String → Db → ℕ × Db
insert_pending_url_op action mod_name archive_path source source_url queued_by now db = (
  db.next_id,
  record {
    rows =
        db.rows
        ++ (record {
          id = db.next_id;
          action = as_str action;
          forge_mod_id = none;
          forge_version_id = none;
          mod_name = mod_name;
          metadata = none;
          queued_at = now;
          queued_by = queued_by;
          item_type = "mod";
          forge_addon_id = none;
          archive_path = some archive_path;
          source = source;
          source_url = source_url;
        })
          ∷ [];
    next_id = db.next_id + 1;
  },
)

-- `column = ?` does not hold of NULL.
abbrev pub is_id : Option ℕ → ℕ → Bool
is_id none id = false
is_id (some x) id = x == id

abbrev pub is_mod_op : ℕ → QueueAction → PendingRow → Bool
is_mod_op forge_mod_id action r =
    is_id r.forge_mod_id forge_mod_id && r.action == as_str action && r.item_type == "mod"

abbrev pub is_addon_op : ℕ → QueueAction → PendingRow → Bool
is_addon_op forge_addon_id action r =
    is_id r.forge_addon_id forge_addon_id && r.action == as_str action && r.item_type == "addon"

unfoldable pub has_pending_op : ℕ → QueueAction → Db → Bool
has_pending_op forge_mod_id action db = ltb 0 (count_where (is_mod_op forge_mod_id action) db.rows)

unfoldable pub has_pending_addon_op : ℕ → QueueAction → Db → Bool
has_pending_addon_op forge_addon_id action db =
    ltb 0 (count_where (is_addon_op forge_addon_id action) db.rows)

unfoldable pub delete_pending_op : ℕ → Db → ℕ × Db
delete_pending_op id db = (
  count_where (λ (r : PendingRow). r.id == id) db.rows,
  record db { rows = delete_where (λ r. r.id == id) db.rows },
)

abbrev with_action : PendingRow → QueueAction → PendingOperation
with_action r action = record {
  id = r.id;
  action = action;
  forge_mod_id = r.forge_mod_id;
  forge_version_id = r.forge_version_id;
  mod_name = r.mod_name;
  metadata = r.metadata;
  queued_at = r.queued_at;
  queued_by = r.queued_by;
  item_type = r.item_type;
  forge_addon_id = r.forge_addon_id;
  archive_path = r.archive_path;
  source = r.source;
  source_url = r.source_url;
}

-- `none` where the text is no action: the whole listing then fails.
unfoldable pub row_to_pending_op : PendingRow → Option PendingOperation
row_to_pending_op r = elim (try_from r.action) [
  | none ↦ none
  | some action ↦ some (with_action r action)
]
