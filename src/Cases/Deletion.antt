-- ===== src/Cases/Deletion.antt =====
-- The four-eyes deletion of app/api/admin.py and app/services/report.py.
use open_whistle.Base.{
  ℕ, String, not, ◌||◌, none, some, List, [], ◌∷◌, ◌==◌, opt_eq, is_some, keep, any,
}
use open_whistle.Base.Outcome.{Outcome, ok, ◌>>=◌, ◌>>◌, demand, present}
use text.Mathlib.Text.{◌==◌ as str_eq}
use open_whistle.Models.{User, Report, DeletionRequest, Db, Settings, AuditAction, save_report, log}
use open_whistle.Access.{get_authorized_report, require_admin}
use open_whistle.Reports.{request_deletion, cancel_deletion_request}
use open_whistle.Makers.{one_made_the_other}

-- What Redis holds of cases: whistleblower sessions (a key with the report that it opens), the
-- two queues of the digest, and the marks of sent reminders.
pub record Redis : Type 0 where
  pub status_sessions : List (String × ℕ)
  pub new_reports : List String
  pub new_messages : List String
  pub ack_reminders : List String
  pub feedback_reminders : List String

-- services/report.py `end_status_sessions`
unfoldable pub end_status_sessions : List ℕ → Redis → Redis
end_status_sessions report_ids redis = record redis {
  status_sessions = keep (λ e. not (any (λ id. e.1 == id) report_ids)) redis.status_sessions;
}

abbrev pub without : String → List String → List String
without case_number cases = keep (λ c. not (str_eq c case_number)) cases

-- services/notifications.py `forget_case`
unfoldable pub forget_case : String → Redis → Redis
forget_case case_number redis = record redis {
  new_reports = without case_number redis.new_reports;
  new_messages = without case_number redis.new_messages;
  ack_reminders = without case_number redis.ack_reminders;
  feedback_reminders = without case_number redis.feedback_reminders;
}

-- DELETE FROM reports, with the rows that reference it ON DELETE CASCADE.
unfoldable pub delete_report : ℕ → Db → Db
delete_report id db = record db {
  reports = keep (λ r. not (r.id == id)) db.reports;
  links = keep (λ l. not ((l.report_id_a == id) || (l.report_id_b == id))) db.links;
  audit = keep (λ e. not (opt_eq e.report_id (some id))) db.audit;
}

-- services/report.py `confirm_deletion`; the files in the object store are not modelled.
unfoldable pub confirm_deletion : Db → Report → DeletionRequest → User → Db
unfolding log delete_report
confirm_deletion db report request confirmer =
    let detail =
      ("case_number", some report.case_number)
      ∷ ("requested_by", some request.requested_by_username)
      ∷ ("confirmed_by", some confirmer.username)
      ∷ [] in
    delete_report report.id
      (log confirmer AuditAction.report_delete_confirmed none detail (some report.org_id) db)

module _ (s : Settings) where
  unfoldable pub request_delete : Db → User → ℕ → Outcome Db
  unfolding require_admin get_authorized_report request_deletion log save_report
  request_delete db current_user report_id = do
    require_admin current_user
    report ← get_authorized_report s db report_id current_user
    demand (not (is_some report.deletion_request)) 409
    let after = request_deletion report current_user
    ok (
        log current_user AuditAction.report_delete_requested (some after.id) [] none
          (record db { reports = save_report after db.reports }))

  unfoldable pub confirm_delete : Db → Redis → User → ℕ → Outcome (Db × Redis)
  unfolding require_admin get_authorized_report one_made_the_other confirm_deletion
      end_status_sessions forget_case
  confirm_delete db redis current_user report_id = do
    require_admin current_user
    report ← get_authorized_report s db report_id current_user
    request ← present report.deletion_request 400
    related ← one_made_the_other db request.requested_by_id current_user.id
    demand (not (opt_eq request.requested_by_id (some current_user.id) || related)) 409
    let after = confirm_deletion db report request current_user
    ok (after, forget_case report.case_number (end_status_sessions (report_id ∷ []) redis))

  unfoldable pub cancel_delete : Db → User → ℕ → Outcome Db
  unfolding require_admin get_authorized_report cancel_deletion_request log save_report
  cancel_delete db current_user report_id = do
    require_admin current_user
    report ← get_authorized_report s db report_id current_user
    request ← present report.deletion_request 400
    demand (opt_eq request.requested_by_id (some current_user.id)) 403
    let after = cancel_deletion_request report
    ok (
        log current_user AuditAction.report_delete_cancelled (some after.id) [] none
          (record db { reports = save_report after db.reports }))
