-- ===== src/Reports/Lifecycle.antt =====
-- The states that a report goes through under the operations of app/services/report.py.
use open_whistle.Base.{String, ◌≡◌, true, Option, arith, is_some}
use open_whistle.Base.Outcome.{ok}
use open_whistle.Calendar.{Datetime, IsValid}
use open_whistle.Models.{User, Report, Status, status_eq}
use open_whistle.Reports.{
  Vault, is_valid_transition, add_whistleblower_message, add_admin_message, acknowledge_report,
  update_report_status, assign_report, add_note, request_deletion, cancel_deletion_request,
}

-- A closed case has its closing time and no other case has one; feedback follows the
-- acknowledgement; the feedback deadline is set.
pub record IsCoherent (r : Report) : Type 0 where
  pub closed_stamped : is_some r.closed_at ≡ status_eq r.status Status.closed
  pub feedback_acknowledged : is_some r.feedback_sent_at ≡ true → is_some r.acknowledged_at ≡ true
  pub due_set : is_some r.feedback_due_at ≡ true

-- One operation on a report, as the routes call it: a status change only along a valid transition.
pub data Step (v : Vault) (r r' : Report) : Type 0 where
  acknowledge : (now : Datetime) → acknowledge_report now r ≡ ok r' → Step v r r'
  set_status :
      (now : Datetime) (new : Status)
      → is_valid_transition r.status new ≡ true
      → r' ≡ update_report_status now r new
      → Step v r r'
  reply :
      (now : Datetime) (content : String)
      → IsValid now
      → add_admin_message v now r content ≡ ok r'
      → Step v r r'
  write :
      (now : Datetime) (content : String)
      → IsValid now
      → add_whistleblower_message v now r content ≡ ok r'
      → Step v r r'
  assign : (admin : Option User) → r' ≡ assign_report r admin → Step v r r'
  note : (author : User) (content : String) → r' ≡ add_note v r author content → Step v r r'
  request : (requester : User) → r' ≡ request_deletion r requester → Step v r r'
  cancel : r' ≡ cancel_deletion_request r → Step v r r'

pub data Reach (v : Vault) (r : Report) : Report → Type 0 where
  here : Reach v r r
  next : {s t : Report} → Reach v r s → Step v s t → Reach v r t

module _ (v : Vault) where
  acknowledge_report-IsCoherent :
      (now : Datetime) (r r' : Report)
      → IsCoherent r
      → acknowledge_report now r ≡ ok r'
      → IsCoherent r'
  unfolding acknowledge_report
  acknowledge_report-IsCoherent now r r' c h = ground arith

  update_report_status-IsCoherent :
      (now : Datetime) (r : Report) (new : Status)
      → IsCoherent r
      → IsCoherent (update_report_status now r new)
  unfolding update_report_status
  update_report_status-IsCoherent now r new c = ground arith

  add_admin_message-IsCoherent :
      (now : Datetime) (content : String) (r r' : Report)
      → IsCoherent r
      → add_admin_message v now r content ≡ ok r'
      → IsCoherent r'
  unfolding add_admin_message
  add_admin_message-IsCoherent now content r r' c h = ground arith

  add_whistleblower_message-IsCoherent :
      (now : Datetime) (content : String) (r r' : Report)
      → IsCoherent r
      → add_whistleblower_message v now r content ≡ ok r'
      → IsCoherent r'
  unfolding add_whistleblower_message
  add_whistleblower_message-IsCoherent now content r r' c h = ground arith

  Step-IsCoherent : (r r' : Report) → Step v r r' → IsCoherent r → IsCoherent r'
  Step-IsCoherent r r' (acknowledge now e) c = acknowledge_report-IsCoherent now r r' c e
  Step-IsCoherent r r' (set_status now new _ e) c =
      rw e (update_report_status-IsCoherent now r new c)
  Step-IsCoherent r r' (reply now content _ e) c = add_admin_message-IsCoherent now content r r' c e
  Step-IsCoherent r r' (write now content _ e) c =
      add_whistleblower_message-IsCoherent now content r r' c e
  Step-IsCoherent r r' (assign admin e) c = rw e (unfold assign_report in ground arith)
  Step-IsCoherent r r' (note author content e) c = rw e (unfold add_note in ground arith)
  Step-IsCoherent r r' (request requester e) c = rw e (unfold request_deletion in ground arith)
  Step-IsCoherent r r' (cancel e) c = rw e (unfold cancel_deletion_request in ground arith)

  -- Through any operations a coherent report stays coherent: it has a closing time exactly while
  -- it is closed, feedback only after an acknowledgement, and a feedback deadline.
  pub Reach-IsCoherent : {r r' : Report} → IsCoherent r → Reach v r r' → IsCoherent r'
  Reach-IsCoherent c here = c
  Reach-IsCoherent c (next {s} {t} path step) = Step-IsCoherent s t step (Reach-IsCoherent c path)
