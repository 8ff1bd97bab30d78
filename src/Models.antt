-- ===== src/Models.antt =====
-- app/models: the rows that the services work on, and the database that holds them. A UUID is a
-- number: its text is fixed-width lower-case hexadecimal, so `str(a) < str(b)` is the numbers' order.
use open_whistle.Base.{
  ℕ, String, Bool, true, false, Option, none, some, List, [], ◌∷◌, ◌++◌, ◌==◌, if◌then◌else◌, find,
}
use open_whistle.Calendar.{Datetime}

-- app/models/user.py
pub data Role : Type 0 where
  case_manager admin superadmin : Role

pub record User : Type 0 where
  pub id : ℕ
  pub username : String
  pub password_hash : Option String
  pub totp_enabled : Bool
  pub role : Role
  pub is_active : Bool
  pub must_change_password : Bool
  pub org_id : Option ℕ
  pub created_by_id : Option ℕ

-- app/models/report.py
pub data Status : Type 0 where
  received in_review pending_feedback closed : Status

pub data Sender : Type 0 where
  whistleblower office : Sender

pub record Message : Type 0 where
  pub sender : Sender
  pub content : String
  pub sent_at : Datetime

pub record Note : Type 0 where
  pub author_id : Option ℕ
  pub author_username : String
  pub content : String

pub record DeletionRequest : Type 0 where
  pub requested_by_id : Option ℕ
  pub requested_by_username : String

pub record CaseLink : Type 0 where
  pub id : ℕ
  pub report_id_a : ℕ
  pub report_id_b : ℕ
  pub linked_by_id : Option ℕ
  pub linked_by_username : String

-- The messages stand in the order of `sent_at`, as the relationship loads them.
pub record Report : Type 0 where
  pub id : ℕ
  pub case_number : String
  pub org_id : Option ℕ
  pub category : String
  pub description : String
  pub encrypted_dek : String
  pub status : Status
  pub location_id : Option ℕ
  pub secure_email : Option String
  pub assigned_to_id : Option ℕ
  pub submitted_at : Datetime
  pub acknowledged_at : Option Datetime
  pub feedback_due_at : Option Datetime
  pub feedback_sent_at : Option Datetime
  pub closed_at : Option Datetime
  pub messages : List Message
  pub notes : List Note
  pub deletion_request : Option DeletionRequest

-- The codes of `AuditAction` that the modelled handlers write.
pub data AuditAction : Type 0 where
  report_status_changed report_assigned report_unassigned report_note_added : AuditAction
  report_message_sent report_delete_requested report_delete_confirmed : AuditAction
  report_delete_cancelled report_acknowledged report_link_added report_link_removed : AuditAction
  report_auto_deleted report_viewed identity_revealed : AuditAction
  admin_created admin_role_changed admin_deactivated admin_reactivated admin_totp_reset :
      AuditAction
  auth_login auth_local_review_login auth_totp_setup auth_sso_linked auth_sso_unlinked : AuditAction
  auth_password_changed auth_spraying_suspected : AuditAction

-- `detail` is the JSON object, its values texts or null.
pub record AuditLog : Type 0 where
  pub admin_id : Option ℕ
  pub admin_username : String
  pub action : AuditAction
  pub report_id : Option ℕ
  pub org_id : Option ℕ
  pub detail : List (String × Option String)

pub record Db : Type 0 where
  pub users : List User
  pub reports : List Report
  pub links : List CaseLink
  pub audit : List AuditLog

pub record Settings : Type 0 where
  pub multi_tenancy_enabled : Bool
  pub demo_mode : Bool
  pub demo_usernames : List String

abbrev pub is_superadmin : Role → Bool
is_superadmin Role.superadmin = true
is_superadmin _ = false

abbrev pub is_case_manager : Role → Bool
is_case_manager Role.case_manager = true
is_case_manager _ = false

-- role in (AdminRole.admin, AdminRole.superadmin)
abbrev pub is_privileged : Role → Bool
is_privileged Role.case_manager = false
is_privileged _ = true

abbrev pub status_eq : Status → Status → Bool
status_eq Status.received Status.received = true
status_eq Status.in_review Status.in_review = true
status_eq Status.pending_feedback Status.pending_feedback = true
status_eq Status.closed Status.closed = true
status_eq _ _ = false

-- select(Report).where(Report.id == id)
unfoldable pub get_report : Db → ℕ → Option Report
get_report db id = find (λ r. r.id == id) db.reports

unfoldable pub get_user : Db → ℕ → Option User
get_user db id = find (λ u. u.id == id) db.users

-- The flush of a changed row.
unfoldable pub save_report : Report → List Report → List Report
save_report r [] = []
save_report r (x ∷ xs) = (if x.id == r.id then r else x) ∷ save_report r xs

unfoldable pub save_user : User → List User → List User
save_user u [] = []
save_user u (x ∷ xs) = (if x.id == u.id then u else x) ∷ save_user u xs

-- The organisation of the report that an entry is about.
unfoldable pub report_org : Option Report → Option ℕ
report_org none = none
report_org (some r) = r.org_id

-- services/audit.py `log`: the report's organisation, else `target_org`, else the actor's.
unfoldable pub log :
    User → AuditAction → Option ℕ → List (String × Option String) → Option (Option ℕ) → Db → Db
unfolding get_report report_org
log actor action report_id detail target_org db =
    let given : Option ℕ = elim target_org [ none ↦ actor.org_id | some org ↦ org ] in
    let org : Option ℕ = elim report_id [
      | none ↦ given
      | some id ↦ report_org (get_report db id)
    ] in
    let entry : AuditLog = record {
      admin_id = some actor.id;
      admin_username = actor.username;
      action = action;
      report_id = report_id;
      org_id = org;
      detail = detail;
    } in
    record db { audit = db.audit ++ entry ∷ [] }

-- services/audit.py `log_system`
unfoldable pub log_system : AuditAction → List (String × Option String) → Option ℕ → Db → Db
log_system action detail org_id db =
    let entry : AuditLog = record {
      admin_id = none;
      admin_username = "system";
      action = action;
      report_id = none;
      org_id = org_id;
      detail = detail;
    } in
    record db { audit = db.audit ++ entry ∷ [] }
