-- ===== src/Reports.antt =====
-- app/services/report.py: the operations on one report, and the states it goes through.
-- A service call works on the loaded row; its caller saves it and commits.
pub mod Listing
pub mod Pages
pub mod Order
pub mod Lifecycle
pub mod Monotone
pub mod Thread
use open_whistle.Base.{
  ℕ, zero, suc, String, ◌≡◌, Bool, true, false, not, ◌&&◌, Option, none, some, List, [], ◌∷◌, ◌++◌,
  if◌then◌else◌, is_some,
}
use open_whistle.Base.Outcome.{Outcome, ok, ◌>>=◌}
use text.Mathlib.Text.{◌==◌ as str_eq}
use open_whistle.Calendar.{Datetime, ltb_time, leb_time, add_micro}
use open_whistle.Deadlines.{feedback_due}
use open_whistle.Models.{User, Report, Message, Note, Sender, Status, DeletionRequest, status_eq}

-- Fernet, of the package cryptography: a token under a key is opened by that key.
pub record Vault : Type 0 where
  pub encrypt_field : String → String → String
  pub decrypt_field : String → String → Option String
  pub round_trip : (key text : String) → decrypt_field key (encrypt_field key text) ≡ some text

unfoldable pub day_floor : Datetime → Datetime
day_floor moment = record moment { micros = 0 }

-- `index == 0 or msg.sender == ReportSender.whistleblower`
unfoldable pub whistleblower_caused : Message → ℕ → Bool
whistleblower_caused msg zero = true
whistleblower_caused msg (suc index) = elim msg.sender [
  | Sender.whistleblower ↦ true
  | Sender.office ↦ false
]

-- STATUS_TRANSITIONS
unfoldable pub is_valid_transition : Status → Status → Bool
is_valid_transition Status.received new = elim new [
  | Status.in_review ↦ true
  | Status.closed ↦ true
  | _ ↦ false
]
is_valid_transition Status.in_review new = elim new [
  | Status.pending_feedback ↦ true
  | Status.closed ↦ true
  | Status.received ↦ true
  | _ ↦ false
]
is_valid_transition Status.pending_feedback new = elim new [
  | Status.closed ↦ true
  | Status.in_review ↦ true
  | _ ↦ false
]
is_valid_transition Status.closed new = elim new [ Status.in_review ↦ true | _ ↦ false ]

unfoldable pub encrypt_message_content : Vault → Report → String → String
encrypt_message_content v report content =
    if str_eq report.encrypted_dek "" then content else v.encrypt_field report.encrypted_dek content

-- select(func.max(ReportMessage.sent_at))
unfoldable pub latest_sent_at : List Message → Option Datetime
latest_sent_at [] = none
latest_sent_at (m ∷ ms) = elim (latest_sent_at ms) [
  | none ↦ some m.sent_at
  | some t ↦ some (if ltb_time t m.sent_at then m.sent_at else t)
]

unfoldable pub next_sent_at : Report → Datetime → Outcome Datetime
unfolding latest_sent_at add_micro
next_sent_at report earliest = elim (latest_sent_at report.messages) [
  | none ↦ ok earliest
  | some latest ↦ if leb_time earliest latest then add_micro latest else ok earliest
]

-- The row that both directions of the thread insert.
abbrev pub new_message : Vault → Report → Sender → String → Datetime → Message
new_message v report sender content sent_at = record {
  sender = sender;
  content = encrypt_message_content v report content;
  sent_at = sent_at;
}

unfoldable pub add_whistleblower_message : Vault → Datetime → Report → String → Outcome Report
unfolding next_sent_at day_floor encrypt_message_content
add_whistleblower_message v now report content = do
  sent_at ← next_sent_at report (day_floor now)
  let msg = new_message v report Sender.whistleblower content sent_at
  ok (record report { messages = report.messages ++ msg ∷ [] })

unfoldable pub add_admin_message : Vault → Datetime → Report → String → Outcome Report
unfolding next_sent_at encrypt_message_content
add_admin_message v now report content = do
  sent_at ← next_sent_at report now
  let msg = new_message v report Sender.office content sent_at
  let first = is_some report.acknowledged_at && not (is_some report.feedback_sent_at)
  let feedback_sent_at = if first then some msg.sent_at else report.feedback_sent_at
  ok (record report { feedback_sent_at = feedback_sent_at; messages = report.messages ++ msg ∷ [] })

unfoldable pub acknowledge_report : Datetime → Report → Outcome Report
unfolding feedback_due
acknowledge_report now report = do
  acknowledged ←
      (if is_some report.acknowledged_at then ok report else (do
        due ← feedback_due report.submitted_at (some now)
        ok (record report { acknowledged_at = some now; feedback_due_at = some due })))
  ok (
      if status_eq acknowledged.status Status.received
      then record acknowledged { status = Status.in_review }
      else acknowledged)

unfoldable pub update_report_status : Datetime → Report → Status → Report
update_report_status now report new_status =
    let moved = record report { status = new_status } in
    if status_eq new_status Status.closed
    then (if is_some report.closed_at then moved else record moved { closed_at = some now })
    else if is_some report.closed_at
    then record moved { closed_at = none }
    else moved

unfoldable pub assign_report : Report → Option User → Report
assign_report report admin = record report {
  assigned_to_id = elim admin [ none ↦ none | some user ↦ some user.id ];
}

unfoldable pub add_note : Vault → Report → User → String → Report
unfolding encrypt_message_content
add_note v report author content =
    let note : Note = record {
      author_id = some author.id;
      author_username = author.username;
      content = encrypt_message_content v report content;
    } in
    record report { notes = report.notes ++ note ∷ [] }

unfoldable pub request_deletion : Report → User → Report
request_deletion report requester =
    let request : DeletionRequest = record {
      requested_by_id = some requester.id;
      requested_by_username = requester.username;
    } in
    record report { deletion_request = some request }

unfoldable pub cancel_deletion_request : Report → Report
cancel_deletion_request report = record report { deletion_request = none }
