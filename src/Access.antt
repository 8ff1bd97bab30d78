-- ===== src/Access.antt =====
-- Object-level authorization of app/api/admin.py and app/api/deps.py.
pub mod Gates
use open_whistle.Base.{
  ℕ, Bool, true, false, not, ◌&&◌, ◌||◌, Option, none, some, if◌then◌else◌, opt_eq, is_some, any,
}
use open_whistle.Base.Outcome.{Outcome, ok, ◌>>=◌, ◌>>◌, demand, present}
use text.Mathlib.Text.{◌==◌ as str_eq}
use open_whistle.Models.{
  User, Report, Db, Settings, is_superadmin, is_case_manager, is_privileged, get_report,
}

unfoldable pub can_access_report : Settings → User → Report → Bool
can_access_report s user report =
    if is_superadmin user.role
    then true
    else if s.multi_tenancy_enabled && not (opt_eq user.org_id report.org_id)
    then false
    else if is_case_manager user.role
    then opt_eq report.assigned_to_id (some user.id)
    else true

-- The query arguments that confine a caller to an organisation.
pub record OrgScope : Type 0 where
  pub scope_org : Bool
  pub org_id : Option ℕ

unfoldable pub org_scope : Settings → User → OrgScope
org_scope s user =
    let scope = s.multi_tenancy_enabled && not (is_superadmin user.role) in
    record { scope_org = scope; org_id = if scope then user.org_id else none }

unfoldable pub own_cases_only : User → Option ℕ
own_cases_only user = if is_case_manager user.role then some user.id else none

unfoldable pub require_same_org : Settings → User → Option ℕ → Outcome (Unit {0})
unfolding org_scope
require_same_org s user target_org_id =
    let scope = org_scope s user in
    demand (not (scope.scope_org && not (opt_eq target_org_id scope.org_id))) 404

unfoldable pub require_may_manage : Settings → User → User → Outcome (Unit {0})
unfolding require_same_org
require_may_manage s user target = do
  require_same_org s user target.org_id
  demand (not (is_superadmin target.role && not (is_superadmin user.role))) 403
  demand (not (s.demo_mode && any (λ name. str_eq target.username name) s.demo_usernames)) 403

unfoldable pub get_authorized_report : Settings → Db → ℕ → User → Outcome Report
unfolding can_access_report get_report
get_authorized_report s db report_id user = do
  report ← present (get_report db report_id) 404
  demand (can_access_report s user report) 404
  ok report

unfoldable pub can_reveal_identity : Settings → User → Report → Bool
can_reveal_identity s user report =
    if is_some report.assigned_to_id
    then opt_eq report.assigned_to_id (some user.id)
    else if not (is_privileged user.role)
    then false
    else not s.multi_tenancy_enabled || opt_eq user.org_id report.org_id

-- deps.py: `require_admin` is `require_role(admin, superadmin)`. A dependency hands on the user
-- that it was given.
unfoldable pub require_admin : User → Outcome (Unit {0})
require_admin user = demand (is_privileged user.role) 403

unfoldable pub require_superadmin : User → Outcome (Unit {0})
require_superadmin user = demand (is_superadmin user.role) 403

unfoldable pub require_instance_admin : Settings → User → Outcome (Unit {0})
unfolding require_admin
require_instance_admin s user = do
  require_admin user
  demand (not (s.multi_tenancy_enabled && not (is_superadmin user.role))) 403

unfoldable pub require_tenants : Settings → User → Outcome (Unit {0})
unfolding require_superadmin
require_tenants s user = do require_superadmin user; demand s.multi_tenancy_enabled 404

unfoldable pub may_run_the_instance : Settings → User → Bool
may_run_the_instance s user =
    if is_superadmin user.role then true else is_privileged user.role && not s.multi_tenancy_enabled
