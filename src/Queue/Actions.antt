-- ===== src/Queue/Actions.antt =====
-- src/db/users.rs: the text of a queued action.
use quma_custom.Prelude.{String, ◌≡◌, refl, ap, ◌∙◌, ◌↔◌, some, arith, nat_eq, string_eq, eq_iff}
use quma_custom.Queue.Table.{QueueAction, install, update, remove, as_str, try_from}

try_from-as_str : (a : QueueAction) → try_from (as_str a) ≡ some a
unfolding try_from as_str
try_from-as_str install = refl
try_from-as_str update = refl
try_from-as_str remove = refl

-- A text is read as an action exactly when it is what the action is written as.
pub try_from_iff : (s : String) (a : QueueAction) → (try_from s ≡ some a) ↔ (s ≡ as_str a)
unfolding try_from as_str
try_from_iff s a = (
  λ h. ground (arith, eq_iff s "install", eq_iff s "update", eq_iff s "remove"),
  λ e. ap try_from e ∙ try_from-as_str a,
)
