-- ===== src/Intake/RoundTrip.antt =====
-- What is written into a case reads back.
use open_whistle.Base.{
  ℕ, String, ◌≡◌, refl, sym, ap, ◌∙◌, inl, inr, true, false, Option, none, some, List, [], ◌∷◌,
  ◌++◌, map, if◌then◌else◌, Bool-cases, any,
}
use open_whistle.Base.Outcome.{ok, >>=-eq-ok}
use mathlib.Core.Path.{subst}
use text.Mathlib.Text.{◌==◌ as str_eq}
use Prim.Native.String.{[], ◌∷◌}
use open_whistle.Calendar.{Datetime}
use open_whistle.Models.{Report, Message, Sender}
use open_whistle.Reports.{
  Vault, add_whistleblower_message, encrypt_message_content, next_sent_at, day_floor, new_message,
}
use open_whistle.Intake.{
  Row, Filing, Receipts, new_row, create_report, decrypt_field_safe, in_language,
  decrypt_report_fields,
}
use open_whistle.Intake.Numbers.{create_report-holds}

decrypt_field_safe-encrypt_field :
    (v : Vault) (key text : String) → decrypt_field_safe v key (v.encrypt_field key text) ≡ text
unfolding decrypt_field_safe
decrypt_field_safe-encrypt_field v key text = rw (v.round_trip key text, decrypt_field_safe) refl

-- What is stored under a key reads back, and so does what is stored without one.
reads_back :
    (v : Vault) (report : Report) (content : String)
    → (if str_eq report.encrypted_dek ""
        then encrypt_message_content v report content
        else decrypt_field_safe v report.encrypted_dek (encrypt_message_content v report content))
      ≡ content
unfolding encrypt_message_content
reads_back v report content = elim (Bool-cases (str_eq report.encrypted_dek "")) [
  | inl e ↦ rw e refl
  | inr e ↦ rw e (decrypt_field_safe-encrypt_field v report.encrypted_dek content)
]

map-append_one :
    {A B : Type 0} (f : A → B) (xs : List A) (a : A) → map f (xs ++ a ∷ []) ≡ map f xs ++ f a ∷ []
map-append_one f [] a = refl
map-append_one f (x ∷ xs) a = ap (λ ys. f x ∷ ys) (map-append_one f xs a)

-- A text of the reporter is not the office's receipt.
in_language-whistleblower :
    (t : Receipts) (lang : Option String) (m : Message) (text : String)
    → m.sender ≡ Sender.whistleblower
    → in_language t lang m text ≡ text
unfolding in_language
in_language-whistleblower t none m text e = refl
in_language-whistleblower t (some lang) m text e = rw e refl

-- After a message of the reporter the case reads in any language, or without one, as it did, with
-- the text of the message at the end of the thread, whether the case is encrypted or older than
-- encryption.
pub add_whistleblower_message-decrypt_report_fields :
    (v : Vault) (t : Receipts) (now : Datetime) (report after : Report) (content : String)
    (lang : Option String)
    → add_whistleblower_message v now report content ≡ ok after
    → decrypt_report_fields v t lang after ≡ (
      (decrypt_report_fields v t lang report).0,
      (decrypt_report_fields v t lang report).1 ++ content ∷ [],
    )
unfolding add_whistleblower_message decrypt_report_fields
add_whistleblower_message-decrypt_report_fields v t now report after content lang h =
    let (sent_at, _, h) = >>=-eq-ok (next_sent_at report (day_floor now)) _ h in
    let new = new_message v report Sender.whistleblower content sent_at in
    let same : record report { messages = report.messages ++ new ∷ [] } ≡ after = cc in
    let read : Message → String = λ m. in_language t lang m (
      if str_eq report.encrypted_dek ""
      then m.content
      else decrypt_field_safe v report.encrypted_dek m.content) in
    subst
      (λ r. decrypt_report_fields v t lang r ≡ (
        (decrypt_report_fields v t lang report).0,
        (decrypt_report_fields v t lang report).1 ++ content ∷ [],
      ))
      same
      (ap (λ texts. ((decrypt_report_fields v t lang report).0, texts))
        (map-append_one read report.messages new
          ∙ ap (λ text. map read report.messages ++ text ∷ [])
              (in_language-whistleblower t lang new _ refl ∙ reads_back v report content)))

pair_eq : {A B : Type 0} {a a' : A} {b b' : B} → a ≡ a' → b ≡ b' → ◌≡◌ {A = A × B} (a, b) (a', b')
pair_eq e e' = cc

receipt_in :
    (t : Receipts) (lang text : String)
    → text ≡ t.receipt t.default
    → any (λ code. str_eq (t.receipt t.default) (t.receipt code)) t.languages ≡ true
    → (if any (λ code. str_eq text (t.receipt code)) t.languages then t.receipt lang else text)
      ≡ t.receipt lang
receipt_in t lang text e known =
    subst
      (λ x.
        (if any (λ code. str_eq x (t.receipt code)) t.languages then t.receipt lang else x)
        ≡ t.receipt lang)
      (sym e) (rw known refl)

-- A report that was created under a key reads back in a language as its description and the
-- receipt in that language, if the receipt in the default language is that of a known language.
pub create_report-decrypt_report_fields :
    (v : Vault) (t : Receipts) (default_org_id : Option ℕ) (rows after : List Row) (f : Filing)
    (drawn : List String) (row : Row) (lang : String)
    → create_report v t default_org_id rows f drawn ≡ ok (row, after)
    → str_eq f.encrypted_dek "" ≡ false
    → any (λ code. str_eq (t.receipt t.default) (t.receipt code)) t.languages ≡ true
    → decrypt_report_fields v t (some lang) row.report ≡ (f.description, t.receipt lang ∷ [])
unfolding new_row decrypt_report_fields in_language
create_report-decrypt_report_fields v t default_org_id rows after f drawn row lang h key known =
    create_report-holds
      (λ r. decrypt_report_fields v t (some lang) r.report ≡ (f.description, t.receipt lang ∷ [])) v
      t default_org_id rows after f drawn row
      (λ org_id due n.
        pair_eq (rw key (decrypt_field_safe-encrypt_field v f.encrypted_dek f.description)) (
          ap (λ text. text ∷ [])
            (receipt_in t lang _
              (rw key (decrypt_field_safe-encrypt_field v f.encrypted_dek (t.receipt t.default)))
              known)))
      h
