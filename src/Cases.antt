-- ===== src/Cases.antt =====
-- The case routes of app/api/admin.py. A route returns the database that it commits; where it
-- raises, nothing is committed. `current_user` is the row that the session dependency loaded.
pub mod Deletion
pub mod Links
pub mod FourEyes
pub mod Routes
pub mod Reveal
use open_whistle.Base.{
  ℕ, zero, suc, ◌+◌, ◌-◌, ◌*◌, ◌/◌, ◌%◌, ◌≤◌, ◌<◌, min, max, String, ◌≡◌, refl, sym, ap, ◌∙◌,
  ◌≡⟨◌⟩◌, ◌∎, ◌≢◌, ◌↔◌, ◌⊎◌, inl, inr, Bool, true, false, not, ◌&&◌, ◌||◌, Option, none, some, List,
  [], ◌∷◌, ◌++◌, map, arith, ltb, leb, ◌==◌, if◌then◌else◌, opt_eq, is_some, ltb→lt, lt→ltb, leb→le,
  le→leb, ==→eq, ==-refl, opt_eq→eq, opt_eq_refl, Bool-cases, Option-cases, length, take, drop,
  keep, find, any, all, length-append, length-keep-le, find_sound, All, All-append, All-keep,
}
use open_whistle.Base.Int.{
  ℤ, pos, negsuc, pos_part, neg_part, sub_ℕ, ◌+ℤ◌, ◌≤ℤ◌, ltb_ℤ, leb_ℤ, floor_div, floor_mod,
}
use open_whistle.Base.Outcome.{
  Outcome, ok, http, raised, ◌>>=◌, ◌>>◌, demand, present, >>=-eq-ok, demand-eq-ok, present-eq-ok,
}
use text.Mathlib.Text.{◌==◌ as str_eq}
use open_whistle.Base.Text.{characters, strip, is_empty}
use open_whistle.Calendar.{Datetime}
use open_whistle.Models.{
  User, Report, Status, Db, Settings, AuditAction, AuditLog, save_report, get_user, log,
}
use open_whistle.Access.{get_authorized_report, can_reveal_identity, require_admin}
use open_whistle.Reports.{
  Vault, is_valid_transition, add_admin_message, acknowledge_report, update_report_status,
  assign_report, add_note,
}

unfoldable pub status_value : Status → String
status_value Status.received = "received"
status_value Status.in_review = "in_review"
status_value Status.pending_feedback = "pending_feedback"
status_value Status.closed = "closed"

-- ReportStatus(new_status); ValueError for any other text
unfoldable pub parse_status : String → Option Status
parse_status text =
    if str_eq text "received"
    then some Status.received
    else if str_eq text "in_review"
    then some Status.in_review
    else if str_eq text "pending_feedback"
    then some Status.pending_feedback
    else if str_eq text "closed"
    then some Status.closed
    else none

-- The row that a route changed, in the table.
abbrev pub store : Report → Db → Db
store report db = record db { reports = save_report report db.reports }

unfoldable pub username_of : Option User → Option String
username_of none = none
username_of (some user) = some user.username

unfoldable pub assigned_user : Db → Option ℕ → Option User
unfolding get_user
assigned_user db none = none
assigned_user db (some id) = get_user db id

-- A reason between 10 and 500 characters.
unfoldable pub validated_reason : String → Option String
unfolding strip characters
validated_reason raw =
    let reason = strip raw in
    if leb 10 (characters reason) && leb (characters reason) 500 then some reason else none

-- `_reveal_gate`: an unassigned case goes to who reveals its identity.
unfoldable pub handled_case : Db → User → Report → Db
unfolding assign_report log save_report
handled_case db current_user report =
    if is_some report.assigned_to_id
    then db
    else log current_user AuditAction.report_assigned (some report.id)
        (("from", none) ∷ ("to", some current_user.username) ∷ []) none
        (store (assign_report report (some current_user)) db)

-- A refused reason is an audited view, answered with 422 and committed; any other is a reveal.
unfoldable pub audited_reveal : (String → String) → Db → User → Report → Option String → Db × Bool
unfolding log handled_case
audited_reveal encrypt db current_user report none =
    (log current_user AuditAction.report_viewed (some report.id) [] none db, false)
audited_reveal encrypt db current_user report (some valid) = (
  log current_user AuditAction.identity_revealed (some report.id)
      (("reason", some (encrypt valid)) ∷ []) none (handled_case db current_user report),
  true,
)

module _ (s : Settings) where
  unfoldable pub acknowledge : Datetime → Db → User → ℕ → Outcome Db
  unfolding get_authorized_report acknowledge_report log save_report status_value
  acknowledge now db current_user report_id = do
    report ← get_authorized_report s db report_id current_user
    after ← acknowledge_report now report
    let detail =
        ("old_status", some (status_value report.status))
        ∷ ("new_status", some (status_value after.status))
        ∷ []
    ok (
        log current_user AuditAction.report_acknowledged (some after.id) detail none
          (store after db))

  unfoldable pub update_status : Datetime → Db → User → ℕ → String → Outcome Db
  unfolding get_authorized_report parse_status is_valid_transition update_report_status log
      save_report status_value
  update_status now db current_user report_id new_status = do
    report ← get_authorized_report s db report_id current_user
    status ← present (parse_status new_status) 400
    demand (is_valid_transition report.status status) 400
    let after = update_report_status now report status
    let detail =
        ("old", some (status_value report.status)) ∷ ("new", some (status_value status)) ∷ []
    ok (
        log current_user AuditAction.report_status_changed (some after.id) detail none
          (store after db))

  -- The entry is written before the message; one transaction commits both.
  unfoldable pub admin_reply : Vault → Datetime → Db → User → ℕ → String → Outcome Db
  unfolding get_authorized_report strip is_empty add_admin_message log save_report
  admin_reply v now db current_user report_id content = do
    report ← get_authorized_report s db report_id current_user
    demand (not (is_empty (strip content))) 422
    let logged = log current_user AuditAction.report_message_sent (some report.id) [] none db
    after ← add_admin_message v now report (strip content)
    ok (store after logged)

  -- The form's `admin_id`: empty, no UUID, or a UUID.
  unfoldable pub choose_assignee : Db → Report → Option (Option ℕ) → Outcome (Option User)
  unfolding get_user
  choose_assignee db report none = ok none
  choose_assignee db report (some none) = http 400
  choose_assignee db report (some (some aid)) = do
    assignee ← present (get_user db aid) 404
    demand assignee.is_active 400
    demand
        (not (
          s.multi_tenancy_enabled
          && is_some report.org_id
          && not (opt_eq assignee.org_id report.org_id)))
        400
    ok (some assignee)

  unfoldable pub assign : Db → User → ℕ → Option (Option ℕ) → Outcome Db
  unfolding require_admin get_authorized_report choose_assignee username_of assigned_user
      assign_report log save_report
  assign db current_user report_id admin_id = do
    require_admin current_user
    report ← get_authorized_report s db report_id current_user
    assignee ← choose_assignee db report admin_id
    let old_assignee = username_of (assigned_user db report.assigned_to_id)
    let after = assign_report report assignee
    let action =
        if is_some assignee then AuditAction.report_assigned else AuditAction.report_unassigned
    let detail = ("from", old_assignee) ∷ ("to", username_of assignee) ∷ []
    ok (log current_user action (some after.id) detail none (store after db))

  unfoldable pub note : Vault → Db → User → ℕ → String → Outcome Db
  unfolding get_authorized_report strip is_empty add_note log save_report
  note v db current_user report_id content = do
    report ← get_authorized_report s db report_id current_user
    demand (not (is_empty (strip content))) 422
    let after = add_note v report current_user (strip content)
    ok (log current_user AuditAction.report_note_added (some after.id) [] none (store after db))

  -- Whether the identity is shown, and the database.
  unfoldable pub reveal_identity : (String → String) → Db → User → ℕ → String → Outcome (Db × Bool)
  unfolding get_authorized_report can_reveal_identity validated_reason audited_reveal
  reveal_identity encrypt db current_user report_id reason = do
    report ← get_authorized_report s db report_id current_user
    demand (can_reveal_identity s current_user report) 403
    ok (audited_reveal encrypt db current_user report (validated_reason reason))
