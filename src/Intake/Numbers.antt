-- ===== src/Intake/Numbers.antt =====
-- Filing a report gives it a number of its own, and the number and PIN open it.
use open_whistle.Base.{not, Bool-cases}
use open_whistle.Models.{Status}
use open_whistle.Base.{
  ℕ, String, ◌≡◌, refl, sym, ap, ◌∙◌, inl, inr, Bool, true, false, Option, none, some, List, [],
  ◌∷◌, ◌++◌, arith, take, find, if-either,
}
use open_whistle.Base.Outcome.{ok, >>=-eq-ok}
use mathlib.Core.Path.{subst}
use text.Mathlib.Text.{◌==◌ as str_eq}
use text.Mathlib.TextEquality.{eq_iff}
use Prim.Native.String.{[], ◌∷◌}
use open_whistle.Base.Text.{strip}
use open_whistle.Calendar.{Datetime}
use open_whistle.Deadlines.{feedback_due}
use open_whistle.Reports.{Vault, day_floor}
use open_whistle.RateLimit.{Store}
use open_whistle.Intake.{
  Row, Filing, Receipts, Desk, new_row, insert_report, create_report, has_id, has_case_number,
  verify_pin, get_report_by_credentials, authenticate_whistleblower,
}

-- What a report is added to, and that its identifier and its number are new.
pub record IsFiled (rows : List Row) (id : ℕ) (row : Row) (after : List Row) : Type 0 where
  pub appended : after ≡ rows ++ row ∷ []
  pub identifier : row.report.id ≡ id
  pub new_id : has_id rows id ≡ false
  pub new_number : has_case_number rows row.report.case_number ≡ false

insert_report-IsFiled :
    (rows : List Row) (make : String → Row) (id : ℕ) (drawn : List String) (row : Row)
    (after : List Row)
    → ((n : String) → (make n).report.id ≡ id)
    → ((n : String) → (make n).report.case_number ≡ n)
    → insert_report rows make drawn ≡ ok (row, after)
    → IsFiled rows id row after
unfolding insert_report
insert_report-IsFiled rows make id [] row after ids numbers h = absurd (ground (arith, h))
insert_report-IsFiled rows make id (n ∷ drawn) row after ids numbers h =
    elim (if-either (has_id rows (make n).report.id) _ _ _ h) [
      | inl (_, e) ↦ absurd (ground (arith, e))
      | inr (unused, h) ↦ elim (if-either (has_case_number rows n) _ _ _ h) [
        | inl (_, e) ↦ insert_report-IsFiled rows make id drawn row after ids numbers e
        | inr (unnumbered, e) ↦
            let same : make n ≡ row = cc in
            let result : rows ++ make n ∷ [] ≡ after = cc in
            record {
              appended = sym result ∙ ap (λ r. rows ++ r ∷ []) same;
              identifier = ap (λ (r : Row). r.report.id) (sym same) ∙ ids n;
              new_id = ap (has_id rows) (sym (ids n)) ∙ unused;
              new_number =
                  ap (has_case_number rows)
                    (ap (λ (r : Row). r.report.case_number) (sym same) ∙ numbers n)
                  ∙ unnumbered;
            }
      ]
    ]

-- The insertion that a report was filed by.
record Inserted (v : Vault) (t : Receipts) (rows : List Row) (f : Filing) (row : Row)
    (after : List Row) : Type 0 where
  org_id : Option ℕ
  due : Datetime
  drawn : List String
  inserted : insert_report rows (new_row v t f org_id due) drawn ≡ ok (row, after)

create_report-Inserted :
    (v : Vault) (t : Receipts) (default_org_id : Option ℕ) (rows after : List Row) (f : Filing)
    (drawn : List String) (row : Row)
    → create_report v t default_org_id rows f drawn ≡ ok (row, after)
    → Inserted v t rows f row after
unfolding create_report
create_report-Inserted v t default_org_id rows after f drawn row h =
    let (due, _, h) = >>=-eq-ok (feedback_due (day_floor f.now) none) _ h in
    record { org_id = _; due = due; drawn = take 5 drawn; inserted = h }

-- A report that is created is added to the others under the identifier asked for, and neither the
-- identifier nor its case number was in use.
pub create_report-IsFiled :
    (v : Vault) (t : Receipts) (default_org_id : Option ℕ) (rows after : List Row) (f : Filing)
    (drawn : List String) (row : Row)
    → create_report v t default_org_id rows f drawn ≡ ok (row, after)
    → IsFiled rows f.report_id row after
unfolding new_row
create_report-IsFiled v t default_org_id rows after f drawn row h =
    let i = create_report-Inserted v t default_org_id rows after f drawn row h in
    insert_report-IsFiled rows (new_row v t f i.org_id i.due) f.report_id i.drawn row after
      (λ n. refl) (λ n. refl) i.inserted

insert_report-first_new :
    (rows : List Row) (make : String → Row) (drawn : List String) (number : String)
    → ((n : String) → has_id rows (make n).report.id ≡ false)
    → find (λ n. not (has_case_number rows n)) drawn ≡ some number
    → insert_report rows make drawn ≡ ok (make number, rows ++ make number ∷ [])
unfolding insert_report
insert_report-first_new rows make [] number free h = absurd (ground (arith, h))
insert_report-first_new rows make (n ∷ drawn) number free h =
    elim (Bool-cases (has_case_number rows n)) [
      | inl e ↦
          let rest : find (λ n. not (has_case_number rows n)) drawn ≡ some number =
            ground (arith, e, h) in
          rw (free n, e) (insert_report-first_new rows make drawn number free rest)
      | inr e ↦ let same : n ≡ number = ground (arith, e, h) in rw (free n, e) (rw same refl)
    ]

-- With a deadline that the calendar has and an unused identifier, a report is filed as received,
-- under the identifier, at the end of the table, and under the first of the five case numbers
-- drawn that no report has, if there is one.
pub create_report-first_new :
    (v : Vault) (t : Receipts) (default_org_id : Option ℕ) (rows : List Row) (f : Filing)
    (drawn : List String) (due : Datetime) (number : String)
    → feedback_due (day_floor f.now) none ≡ ok due
    → has_id rows f.report_id ≡ false
    → find (λ n. not (has_case_number rows n)) (take 5 drawn) ≡ some number
    → (row : Row) × (create_report v t default_org_id rows f drawn ≡ ok (row, rows ++ row ∷ []))
      × (row.report.case_number ≡ number)
      × (row.report.id ≡ f.report_id)
      × (row.report.status ≡ Status.received)
unfolding create_report new_row
create_report-first_new v t default_org_id rows f drawn due number on_time free h =
    let org_id : Option ℕ = elim f.org_id [ none ↦ default_org_id | some org ↦ some org ] in
    (
      new_row v t f org_id due number,
      rw on_time (
          insert_report-first_new rows (new_row v t f org_id due) (take 5 drawn) number (λ n. free)
            h),
      refl,
      refl,
      refl,
    )

-- A predicate of every row of an insertion.
insert_report-holds :
    (P : Row → Type 0) (rows : List Row) (make : String → Row) (drawn : List String) (row : Row)
    (after : List Row)
    → ((n : String) → P (make n))
    → insert_report rows make drawn ≡ ok (row, after)
    → P row
unfolding insert_report
insert_report-holds P rows make [] row after p h = absurd (ground (arith, h))
insert_report-holds P rows make (n ∷ drawn) row after p h =
    elim (if-either (has_id rows (make n).report.id) _ _ _ h) [
      | inl (_, e) ↦ absurd (ground (arith, e))
      | inr (_, h) ↦ elim (if-either (has_case_number rows n) _ _ _ h) [
        | inl (_, e) ↦ insert_report-holds P rows make drawn row after p e
        | inr (_, e) ↦ let same : make n ≡ row = cc in subst P same (p n)
      ]
    ]

pub create_report-holds :
    (P : Row → Type 0) (v : Vault) (t : Receipts) (default_org_id : Option ℕ)
    (rows after : List Row) (f : Filing) (drawn : List String) (row : Row)
    → ((org_id : Option ℕ) (due : Datetime) (n : String) → P (new_row v t f org_id due n))
    → create_report v t default_org_id rows f drawn ≡ ok (row, after)
    → P row
create_report-holds P v t default_org_id rows after f drawn row p h =
    let i = create_report-Inserted v t default_org_id rows after f drawn row h in
    insert_report-holds P rows (new_row v t f i.org_id i.due) i.drawn row after (p i.org_id i.due)
      i.inserted

find-append_new :
    (rows : List Row) (row : Row)
    → has_case_number rows row.report.case_number ≡ false
    → find (λ (r : Row). str_eq r.report.case_number row.report.case_number) (rows ++ row ∷ [])
      ≡ some row
find-append_new [] row h = rw ((eq_iff row.report.case_number row.report.case_number).1 refl) refl
find-append_new (r ∷ rows) row h = ground (arith, h, find-append_new rows row)

authenticate_whistleblower-found :
    (d : Desk) (now : ℕ) (rows : List Row) (redis : Store) (case_number pin : String) (row : Row)
    → get_report_by_credentials d.checkpw rows (d.upper (strip case_number)) (d.lower (strip pin))
      ≡ some row
    → authenticate_whistleblower d now rows redis case_number pin ≡ ((some row, 0), redis)
unfolding authenticate_whistleblower
authenticate_whistleblower-found d now rows redis case_number pin row h =
    rw (h, authenticate_whistleblower) refl

get_report_by_credentials-found :
    (checkpw : String → String → Bool) (rows : List Row) (case_number pin : String) (row : Row)
    → find (λ (r : Row). str_eq r.report.case_number case_number) rows ≡ some row
    → verify_pin checkpw pin row.pin_hash ≡ true
    → get_report_by_credentials checkpw rows case_number pin ≡ some row
unfolding get_report_by_credentials
get_report_by_credentials-found checkpw rows case_number pin row found right =
    ground (arith, found, right)

-- The case number and PIN of a report that was just created open it, in any spelling that
-- trimming and case bring back to them and whatever the counters of failed attempts hold, and the
-- counters stay as they are.
pub create_report-authenticate_whistleblower :
    (v : Vault) (t : Receipts) (default_org_id : Option ℕ) (rows after : List Row) (f : Filing)
    (drawn : List String) (row : Row) (d : Desk) (now : ℕ) (redis : Store)
    (case_number pin : String)
    → create_report v t default_org_id rows f drawn ≡ ok (row, after)
    → verify_pin d.checkpw (d.lower (strip pin)) f.pin_hash ≡ true
    → d.upper (strip case_number) ≡ row.report.case_number
    → authenticate_whistleblower d now after redis case_number pin ≡ ((some row, 0), redis)
unfolding new_row
create_report-authenticate_whistleblower v t default_org_id rows after f drawn row d now redis
      case_number pin h right typed =
    let filed = create_report-IsFiled v t default_org_id rows after f drawn row h in
    let hash : row.pin_hash ≡ f.pin_hash =
      create_report-holds (λ r. r.pin_hash ≡ f.pin_hash) v t default_org_id rows after f drawn row
        (λ org_id due n. refl) h in
    authenticate_whistleblower-found d now after redis case_number pin row (
      get_report_by_credentials-found d.checkpw after (d.upper (strip case_number))
        (d.lower (strip pin)) row
        (subst (λ n. find (λ (r : Row). str_eq r.report.case_number n) after ≡ some row) (sym typed)
          (subst
            (λ rs.
              find (λ (r : Row). str_eq r.report.case_number row.report.case_number) rs ≡ some row)
            (sym filed.appended) (find-append_new rows row filed.new_number)))
        (ap (verify_pin d.checkpw (d.lower (strip pin))) hash ∙ right))
