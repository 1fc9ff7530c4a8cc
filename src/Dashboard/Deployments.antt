-- ===== src/Dashboard/Deployments.antt =====
-- dashboard/src/pages/Deployments.tsx: the releases, their rows, and the three actions. `locale` is
-- `new Date(s).toLocaleString()`.
pub mod Laws
use Prim.Native.String.{◌++◌}
use go_php.Prelude.{
  String, Option, none, some, Bool, true, false, not, List, [], ◌∷◌, map, length, ◌==◌,
  if◌then◌else◌,
}
use go_php.Prelude.Decimal.{print_ℕ}
use go_php.Dashboard.Types.{Release, ReleaseState, created, active, draining, stopped, failed}
use go_php.Dashboard.Hooks.{Fetch, Settled, resolved, rejected, message_or}
use go_php.Dashboard.Hooks
use go_php.Dashboard.Client.Calls.{
  Call, create_deployment, activate_deployment, rollback_deployment,
}
use go_php.Dashboard.Notice.{Toast, toast, success, error}
use go_php.Dashboard.Sites.{or_empty}

pub record Page : Type 0 where
  pub data_ : Fetch (List Release)
  pub modal_open : Bool
  pub version : String
  pub toast_ : Option Toast

unfoldable pub initial : Page
unfolding Hooks.initial
initial = record { data_ = Hooks.initial; modal_open = false; version = "1.0.1"; toast_ = none }

-- The three handlers, up to their awaits. The server is told no source directory.
unfoldable pub create_call : Page → Call
unfolding create_deployment
create_call p = create_deployment p.version none

unfoldable pub activate_call : Release → Call
unfolding activate_deployment
activate_call r = activate_deployment r.id

unfoldable pub rollback_call : Call
unfolding rollback_deployment
rollback_call = rollback_deployment

-- What follows the awaits. `at` is the page of the render that the click belongs to.
unfoldable pub create_settled : Page → Settled (Unit {0}) → Page → Page
unfolding Hooks.load
create_settled at (resolved _) p = record p {
  toast_ = toast ("Deployment release v" ++ (at.version ++ " created")) success;
  modal_open = false;
  data_ = Hooks.load p.data_;
}
create_settled at (rejected e) p = record p {
  toast_ = toast (message_or e "Deployment failed") error;
}

unfoldable pub activate_settled : String → Settled (Unit {0}) → Page → Page
unfolding Hooks.load
activate_settled id (resolved _) p = record p {
  toast_ = toast ("Release " ++ (id ++ " activated successfully")) success;
  data_ = Hooks.load p.data_;
}
activate_settled id (rejected e) p = record p {
  toast_ = toast (message_or e "Activation failed") error;
}

unfoldable pub rollback_settled : Settled (Unit {0}) → Page → Page
unfolding Hooks.load
rollback_settled (resolved _) p = record p {
  toast_ = toast "Rolled back to previous active release" success;
  data_ = Hooks.load p.data_;
}
rollback_settled (rejected e) p = record p { toast_ = toast (message_or e "Rollback failed") error }

abbrev pub is_active : ReleaseState → Bool
is_active active = true
is_active _ = false

abbrev state_text : ReleaseState → String
state_text created = "created"
state_text active = "active"
state_text draining = "draining"
state_text stopped = "stopped"
state_text failed = "failed"

abbrev state_class : ReleaseState → String
state_class active = "bg-success/10 text-success"
state_class failed = "bg-error/10 text-error"
state_class _ = "bg-bg text-text-muted"

-- A row: `activate` is the call of its button, if it has one.
pub record Row : Type 0 where
  pub id : String
  pub version : String
  pub state : String
  pub state_class_ : String
  pub has_check : Bool
  pub created_at : String
  pub activate : Option Call

unfoldable pub row : (String → String) → Release → Row
unfolding activate_call
row locale r = record {
  id = r.id;
  version = r.version;
  state = state_text r.state;
  state_class_ = state_class r.state;
  has_check = is_active r.state;
  created_at = locale r.created_at;
  activate = if not (is_active r.state) then some (activate_call r) else none;
}

pub data CardBody : Type 0 where
  loading_text no_deployments : CardBody
  table : List Row → CardBody

body_of : (String → String) → List Release → CardBody
body_of locale [] = no_deployments
body_of locale (r ∷ rs) = table (map (row locale) (r ∷ rs))

unfoldable pub card : (String → String) → Page → String × CardBody
unfolding body_of row
card locale p =
    let rs = or_empty p.data_.value in
    (
      print_ℕ (length rs) ++ (" Release" ++ (if length rs == 1 then "" else "s")),
      if p.data_.loading then loading_text else body_of locale rs,
    )
