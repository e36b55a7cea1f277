-- ===== src/Requests/Status.antt =====
-- src/db/requests.rs: the statuses of a mod request and their text.
use quma_custom.Prelude.{
  String, ◌≡◌, refl, ap, ◌∙◌, ◌↔◌, some, none, Option, arith, eq_iff, ◌==◌, string_eq,
  if◌then◌else◌,
}

pub data RequestStatus : Type 0 where
  pending approved queued installed rejected : RequestStatus

unfoldable pub as_str : RequestStatus → String
as_str pending = "pending"
as_str approved = "approved"
as_str queued = "queued"
as_str installed = "installed"
as_str rejected = "rejected"

-- `Err` of `from_str` only carries a message, so it is `none`.
unfoldable pub from_str : String → Option RequestStatus
from_str s =
    if s == "pending"
    then some pending
    else if s == "approved"
    then some approved
    else if s == "queued"
    then some queued
    else if s == "installed"
    then some installed
    else if s == "rejected"
    then some rejected
    else none

from_str-as_str : (x : RequestStatus) → from_str (as_str x) ≡ some x
unfolding from_str as_str
from_str-as_str pending = refl
from_str-as_str _ = refl

-- A text is read as a status exactly when it is what the status is written as.
pub from_str_iff : (s : String) (x : RequestStatus) → (from_str s ≡ some x) ↔ (s ≡ as_str x)
unfolding from_str as_str
from_str_iff s x = (
  λ h. ground (
    arith,
    eq_iff s "pending",
    eq_iff s "approved",
    eq_iff s "queued",
    eq_iff s "installed",
    eq_iff s "rejected",
  ),
  λ e. ap from_str e ∙ from_str-as_str x,
)
