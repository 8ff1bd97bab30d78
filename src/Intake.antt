-- ===== src/Intake.antt =====
-- The reporter's side of app/services/report.py: filing a report, and opening it again with its case
-- number and PIN; app/services/encryption.py `decrypt_field_safe`.
pub mod Replies
pub mod Numbers
pub mod RoundTrip
pub mod Lifetime
use open_whistle.Base.{
  ℕ, zero, suc, ◌+◌, ◌-◌, ◌*◌, ◌/◌, ◌%◌, ◌≤◌, ◌<◌, min, max, String, ◌≡◌, refl, sym, ap, ◌∙◌,
  ◌≡⟨◌⟩◌, ◌∎, ◌≢◌, ◌↔◌, ◌⊎◌, inl, inr, Bool, true, false, not, ◌&&◌, ◌||◌, Option, none, some, List,
  [], ◌∷◌, ◌++◌, map, arith, ltb, leb, ◌==◌, if◌then◌else◌, opt_eq, is_some, ltb→lt, lt→ltb, leb→le,
  le→leb, ==→eq, ==-refl, opt_eq→eq, opt_eq_refl, Bool-cases, Option-cases, length, take, drop,
  keep, find, any, all, length-append, length-keep-le, find_sound, All, All-append, All-keep,
  some_inj, if-either, if-holds,
}
use open_whistle.Base.Int.{
  ℤ, pos, negsuc, pos_part, neg_part, sub_ℕ, ◌+ℤ◌, ◌≤ℤ◌, ltb_ℤ, leb_ℤ, floor_div, floor_mod,
}
use open_whistle.Base.Outcome.{
  Outcome, ok, http, raised, ◌>>=◌, ◌>>◌, demand, present, >>=-eq-ok, demand-eq-ok, present-eq-ok,
}
use text.Mathlib.Text.{◌==◌ as str_eq, starts_with}
use Prim.Native.String.{[], ◌∷◌}
use open_whistle.Base.Text.{strip, bytes}
use open_whistle.Calendar.{Datetime}
use open_whistle.Deadlines.{feedback_due}
use open_whistle.Models.{Report, Message, Note, Sender, Status}
use open_whistle.Reports.{Vault, day_floor}
use open_whistle.RateLimit.{Store, record_whistleblower_failure, get_whistleblower_lockout_ttl}

-- A report with the columns that only filing and opening it read.
pub record Row : Type 0 where
  pub report : Report
  pub pin_hash : String
  pub is_confidential : Bool
  pub confidential_name : Option String
  pub confidential_contact : Option String

-- The arguments of `create_report`, and what it draws.
pub record Filing : Type 0 where
  pub report_id : ℕ
  pub org_id : Option ℕ
  pub category : String
  pub description : String
  pub is_confidential : Bool
  pub location_id : Option ℕ
  pub confidential_name_enc : Option String
  pub confidential_contact_enc : Option String
  pub secure_email_enc : Option String
  pub pin_hash : String
  pub encrypted_dek : String
  pub now : Datetime

-- The receipt in a language, from the locale files, and the languages.
pub record Receipts : Type 0 where
  pub receipt : String → String
  pub default : String
  pub languages : List String

abbrev pub failed : String
failed = "[DECRYPTION FAILED — check ENCRYPTION_KEY/SECRET_KEY]"

unfoldable pub decrypt_field_safe : Vault → String → String → String
decrypt_field_safe v key text = elim (v.decrypt_field key text) [
  | some plain ↦ plain
  | none ↦ if starts_with text "gAAAA" then failed else text
]

-- The receipt in the reader's language, in whichever it was stored.
unfoldable pub in_language : Receipts → Option String → Message → String → String
in_language t none m text = text
in_language t (some lang) m text =
    let is_office : Bool = elim m.sender [ Sender.office ↦ true | Sender.whistleblower ↦ false ] in
    if is_office && any (λ code. str_eq text (t.receipt code)) t.languages
    then t.receipt lang
    else text

-- A report without a key is older than encryption.
unfoldable pub decrypt_report_fields :
    Vault → Receipts → Option String → Report → String × List String
unfolding decrypt_field_safe in_language
decrypt_report_fields v t lang report =
    let plain : String → String = λ text.
      if str_eq report.encrypted_dek ""
      then text
      else decrypt_field_safe v report.encrypted_dek text in
    (
      plain report.description,
      map (λ (m : Message). in_language t lang m (plain m.content)) report.messages,
    )

unfoldable pub decrypt_note_contents : Vault → Report → List String
unfolding decrypt_field_safe
decrypt_note_contents v report =
    map
      (λ (n : Note).
        if str_eq report.encrypted_dek ""
        then n.content
        else decrypt_field_safe v report.encrypted_dek n.content)
      report.notes

-- The row of one attempt.
unfoldable pub new_row : Vault → Receipts → Filing → Option ℕ → Datetime → String → Row
unfolding day_floor
new_row v t f org_id due case_number =
    let today = day_floor f.now in
    let receipt : Message = record {
      sender = Sender.office;
      content = v.encrypt_field f.encrypted_dek (t.receipt t.default);
      sent_at = today;
    } in
    record {
      report = record {
        id = f.report_id;
        case_number = case_number;
        org_id = org_id;
        category = f.category;
        description = v.encrypt_field f.encrypted_dek f.description;
        encrypted_dek = f.encrypted_dek;
        status = Status.received;
        location_id = f.location_id;
        secure_email = f.secure_email_enc;
        assigned_to_id = none;
        submitted_at = today;
        acknowledged_at = none;
        feedback_due_at = some due;
        feedback_sent_at = none;
        closed_at = none;
        messages = receipt ∷ [];
        notes = [];
        deletion_request = none;
      };
      pin_hash = f.pin_hash;
      is_confidential = f.is_confidential;
      confidential_name = f.confidential_name_enc;
      confidential_contact = f.confidential_contact_enc;
    }

abbrev pub has_id : List Row → ℕ → Bool
has_id rows id = any (λ (r : Row). r.report.id == id) rows

abbrev pub has_case_number : List Row → String → Bool
has_case_number rows case_number = any (λ (r : Row). str_eq r.report.case_number case_number) rows

-- One attempt for each case number drawn: the unique index on it refuses one in use, and the primary
-- key refuses the identifier for good.
unfoldable pub insert_report : List Row → (String → Row) → List String → Outcome (Row × List Row)
insert_report rows row [] = raised
insert_report rows row (case_number ∷ drawn) =
    let again = insert_report rows row drawn in
    if has_id rows (row case_number).report.id
    then raised
    else if has_case_number rows case_number
    then again
    else ok (row case_number, rows ++ row case_number ∷ [])

-- At most five attempts.
unfoldable pub create_report :
    Vault → Receipts → Option ℕ → List Row → Filing → List String → Outcome (Row × List Row)
unfolding new_row insert_report feedback_due day_floor
create_report v t default_org_id rows f drawn = do
  let org_id : Option ℕ = elim f.org_id [ none ↦ default_org_id | some org ↦ some org ]
  due ← feedback_due (day_floor f.now) none
  insert_report rows (new_row v t f org_id due) (take 5 drawn)

module _ (checkpw : String → String → Bool) where
  -- `_bcrypt_check`
  unfoldable pub verify_pin : String → String → Bool
  unfolding bytes
  verify_pin plain hashed = if ltb 72 (bytes plain) then false else checkpw plain hashed

  unfoldable pub get_report_by_credentials : List Row → String → String → Option Row
  unfolding verify_pin
  get_report_by_credentials rows case_number plain_pin =
      elim (find (λ (r : Row). str_eq r.report.case_number case_number) rows) [
        | none ↦ none
        | some row ↦ if verify_pin plain_pin row.pin_hash then some row else none
      ]

-- What opening a case takes from outside, and its settings.
pub record Desk : Type 0 where
  pub checkpw : String → String → Bool
  pub hmac : String → String
  pub upper : String → String
  pub lower : String → String
  pub access_lockout_minutes : ℕ
  pub max_access_attempts : ℕ

-- The report, or the seconds of a lockout message; with the counters.
unfoldable pub authenticate_whistleblower :
    Desk → ℕ → List Row → Store → String → String → (Option Row × ℕ) × Store
unfolding get_report_by_credentials record_whistleblower_failure get_whistleblower_lockout_ttl strip
authenticate_whistleblower d now rows redis case_number pin =
    let case_key = d.upper (strip case_number) in
    let (failures, counted) =
      record_whistleblower_failure d.hmac d.access_lockout_minutes now case_key redis in
    let lockout =
      max 1 (get_whistleblower_lockout_ttl d.hmac d.access_lockout_minutes now case_key counted) in
    elim (get_report_by_credentials d.checkpw rows case_key (d.lower (strip pin))) [
      | some row ↦ ((some row, 0), redis)
      | none ↦
          if leb_ℤ failures (pos d.max_access_attempts)
          then ((none, 0), counted)
          else ((none, lockout), counted)
    ]
