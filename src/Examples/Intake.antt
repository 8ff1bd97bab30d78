-- ===== src/Examples/Intake.antt =====
-- A report that is filed, opened and answered.
use open_whistle.Intake.Numbers.{create_report-first_new}
use open_whistle.Models.{Status}
use open_whistle.Deadlines.{feedback_due}
use open_whistle.Reports.{day_floor}
use open_whistle.Base.{none}
use open_whistle.Base.{
  String, ◌≡◌, refl, ◌≢◌, true, false, none, some, [], ◌∷◌, ◌++◌, arith, if◌then◌else◌,
}
use open_whistle.Base.Outcome.{ok}
use text.Mathlib.Text.{◌==◌ as str_eq}
use Prim.Native.String.{[], ◌∷◌}
use open_whistle.Base.Text.{strip, bytes}
use open_whistle.Calendar.{Datetime, advance, next_day, days_in_month}
use open_whistle.Models.{Sender, Report}
use text.Mathlib.TextEquality.{eq_iff}
use open_whistle.Intake.Replies.{Session, Server, Answer, session_report, reply_post, is_closed}
use open_whistle.Intake.Lifetime.{IsReplaced, reply_post-IsReplaced}
use open_whistle.Intake.RoundTrip.{
  add_whistleblower_message-decrypt_report_fields, create_report-decrypt_report_fields,
}
use open_whistle.Reports.{add_whistleblower_message, day_floor}
use open_whistle.Examples.{glass, morning, second_case}
use open_whistle.Intake.{
  Row, Filing, Receipts, Desk, new_row, create_report, decrypt_report_fields,
  authenticate_whistleblower, verify_pin,
}
use open_whistle.Intake.Numbers.{create_report-authenticate_whistleblower}

abbrev filing : Filing
filing = record {
  report_id = 9;
  org_id = none;
  category = "fraud";
  description = "Bribes were paid.";
  is_confidential = false;
  location_id = none;
  confidential_name_enc = none;
  confidential_contact_enc = none;
  secure_email_enc = none;
  pin_hash = "pin";
  encrypted_dek = "key";
  now = morning;
}

abbrev receipts : Receipts
receipts = record {
  receipt = λ lang. if str_eq lang "de" then "Danke." else "Thank you.";
  default = "en";
  languages = "en" ∷ "de" ∷ [];
}

abbrev old_row : Row
old_row = record {
  report = second_case;
  pin_hash = "old";
  is_confidential = false;
  confidential_name = none;
  confidential_contact = none;
}

abbrev due : Datetime
due = record { year = 2026; month = 8; day = 8; micros = 86399999999 }

abbrev filed_row : Row
unfolding new_row day_floor
filed_row = new_row glass receipts filing (some 1) due "OW-2026-00003"

-- The first number drawn is in use.
filing_it :
    create_report glass receipts
      (some 1)
      (old_row ∷ [])
      filing
      ("OW-2026-00002" ∷ "OW-2026-00003" ∷ [])
    ≡ ok (filed_row, old_row ∷ filed_row ∷ [])
unfolding create_report filed_row advance next_day days_in_month
filing_it = refl

on_time : feedback_due (day_floor filing.now) none ≡ ok due
unfolding feedback_due advance next_day days_in_month day_floor
on_time = refl

create_report-first_new_example :
    (row : Row) × (create_report glass receipts
        (some 1)
        (old_row ∷ [])
        filing
        ("OW-2026-00002" ∷ "OW-2026-00003" ∷ [])
      ≡ ok (row, old_row ∷ row ∷ []))
    × (row.report.case_number ≡ "OW-2026-00003")
    × (row.report.id ≡ 9)
    × (row.report.status ≡ Status.received)
create_report-first_new_example =
    create_report-first_new glass receipts (some 1) (old_row ∷ []) filing
      ("OW-2026-00002" ∷ "OW-2026-00003" ∷ []) due "OW-2026-00003" on_time refl refl

abbrev desk : Desk
desk = record {
  checkpw = str_eq;
  hmac = λ t. t;
  upper = λ t. t;
  lower = λ t. t;
  access_lockout_minutes = 60;
  max_access_attempts = 10;
}

right_pin : verify_pin str_eq (strip " pin ") "pin" ≡ true
unfolding verify_pin strip bytes
right_pin = refl

typed_number : strip " OW-2026-00003" ≡ filed_row.report.case_number
unfolding strip filed_row
typed_number = refl

create_report-authenticate_whistleblower_example :
    authenticate_whistleblower desk 50
      (old_row ∷ filed_row ∷ [])
      (λ k. none)
      " OW-2026-00003"
      " pin "
    ≡ ((some filed_row, 0), λ k. none)
create_report-authenticate_whistleblower_example =
    create_report-authenticate_whistleblower glass receipts (some 1) (old_row ∷ [])
      (old_row ∷ filed_row ∷ []) filing ("OW-2026-00002" ∷ "OW-2026-00003" ∷ []) filed_row desk 50
      (λ k. none) " OW-2026-00003" " pin " filing_it right_pin typed_number

create_report-decrypt_report_fields_example :
    decrypt_report_fields glass receipts (some "de") filed_row.report
    ≡ ("Bribes were paid.", "Danke." ∷ [])
create_report-decrypt_report_fields_example =
    create_report-decrypt_report_fields glass receipts (some 1) (old_row ∷ [])
      (old_row ∷ filed_row ∷ []) filing ("OW-2026-00002" ∷ "OW-2026-00003" ∷ []) filed_row "de"
      filing_it refl refl

abbrev answered : Report
answered = record second_case {
  messages =
      record {
        sender = Sender.whistleblower;
        content = "More.";
        sent_at = record morning { micros = 0 };
      }
      ∷ [];
}

answering : add_whistleblower_message glass morning second_case "More." ≡ ok answered
unfolding add_whistleblower_message
answering = refl

add_whistleblower_message-decrypt_report_fields_example :
    decrypt_report_fields glass receipts (some "de") answered ≡ (
      (decrypt_report_fields glass receipts (some "de") second_case).0,
      (decrypt_report_fields glass receipts (some "de") second_case).1 ++ "More." ∷ [],
    )
add_whistleblower_message-decrypt_report_fields_example =
    add_whistleblower_message-decrypt_report_fields glass receipts morning second_case answered
      "More." (some "de") answering

abbrev opened : Session
opened = record { report_id = 8; expires = 7200 }

abbrev signed_in : Server
signed_in = record {
  rows = old_row ∷ [];
  sessions = λ k. if str_eq k "first" then some opened else none;
  counters = λ k. none;
}

abbrev same_key : String → String
same_key k = k

in_session : session_report desk same_key glass 100 (some "first") signed_in ≡ some old_row
unfolding session_report
in_session = refl

another_key : same_key "second" ≢ same_key "first"
another_key e = ground (arith, (eq_iff "second" "first").1 e)

replying :
    (reply_post desk same_key glass 100 morning
      (some "first")
      ""
      "second"
      "More."
      ""
      ""
      signed_in).answer
    ≡ Answer.replied "second" false
unfolding reply_post
replying = refl

reply_post-IsReplaced_example :
    (◌≡◌ {A = String} "second" "second")
    × (false ≡ is_closed desk same_key glass old_row)
    × IsReplaced same_key "first" "second" opened 8
        (reply_post desk same_key glass 100 morning
          (some "first")
          ""
          "second"
          "More."
          ""
          ""
          signed_in).server
reply_post-IsReplaced_example =
    reply_post-IsReplaced desk same_key glass 100 morning "first" "" "second" "More." "" "" old_row
      signed_in opened "second" false in_session refl another_key replying
