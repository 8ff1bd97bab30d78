-- ===== src/Wizard.antt =====
-- The steps of a submission in app/api/reports.py: what a POST of the wizard does to the draft. The
-- answer is always the redirect to the page, so only the draft that is saved is modelled. A key that
-- is missing from the dictionary is `none`.
pub mod Filled
pub mod Anonymous
pub mod Filed
use open_whistle.Base.Text.{truncate}
use open_whistle.Base.{
  ℕ, zero, suc, ◌+◌, ◌-◌, ◌*◌, ◌/◌, ◌%◌, ◌≤◌, ◌<◌, min, max, String, ◌≡◌, refl, sym, ap, ◌∙◌,
  ◌≡⟨◌⟩◌, ◌∎, ◌≢◌, ◌↔◌, ◌⊎◌, inl, inr, Bool, true, false, not, ◌&&◌, ◌||◌, Option, none, some, List,
  [], ◌∷◌, ◌++◌, map, arith, ltb, leb, ◌==◌, if◌then◌else◌, opt_eq, is_some, ltb→lt, lt→ltb, leb→le,
  le→leb, ==→eq, ==-refl, opt_eq→eq, opt_eq_refl, Bool-cases, Option-cases, length, take, drop,
  keep, find, any, all, length-append, length-keep-le, find_sound, All, All-append, All-keep,
}
use open_whistle.Base.Int.{
  ℤ, pos, negsuc, pos_part, neg_part, sub_ℕ, ◌+ℤ◌, ◌≤ℤ◌, ltb_ℤ, leb_ℤ, floor_div, floor_mod,
}
use open_whistle.Base.Outcome.{
  Outcome, ok, http, raised, ◌>>=◌, ◌>>◌, demand, present, >>=-eq-ok, demand-eq-ok, present-eq-ok,
}
use text.Mathlib.Text.{◌==◌ as str_eq}
use Prim.Native.String.{[], ◌∷◌}
use open_whistle.Base.Text.{strip, is_empty, characters}

abbrev pub step_mode : ℕ
step_mode = 1

abbrev pub step_location : ℕ
step_location = 2

abbrev pub step_category : ℕ
step_category = 3

abbrev pub step_description : ℕ
step_description = 4

abbrev pub step_attachments : ℕ
step_attachments = 5

abbrev pub step_review : ℕ
step_review = 6

-- An uploaded file: its name, its type and its bytes in base64.
pub record File : Type 0 where
  pub filename : String
  pub content_type : String
  pub content : String

pub record Draft : Type 0 where
  pub step : Option ℕ
  pub org_id : Option (Option ℕ)
  pub submission_mode : Option String
  pub confidential_name : Option String
  pub confidential_contact : Option String
  pub secure_email : Option String
  pub location_id : Option ℕ
  pub category : Option String
  pub description : Option String
  pub file_data : List File
  pub flash_error : Option String
  pub flash_field_error : Option String
  pub report_id : Option ℕ

-- {}
abbrev pub empty_draft : Draft
empty_draft = record {
  step = none;
  org_id = none;
  submission_mode = none;
  confidential_name = none;
  confidential_contact = none;
  secure_email = none;
  location_id = none;
  category = none;
  description = none;
  file_data = [];
  flash_error = none;
  flash_field_error = none;
  report_id = none;
}

-- Whose wizard a request is on.
pub record Tenant : Type 0 where
  pub scoped : Bool
  pub org_id : Option ℕ

pub record Location : Type 0 where
  pub id : ℕ
  pub is_active : Bool
  pub org_id : Option ℕ

-- What a request of the wizard reads besides its form and its draft.
pub record Instance : Type 0 where
  pub submission_mode_enabled : Bool
  pub notify_email_enabled : Bool
  pub tenant : Tenant
  pub locations : List Location
  pub categories : List String

-- What became of the uploaded files: refused with a reason, or read, with whether Redis has room.
pub data Upload : Type 0 where
  refused : String → Upload
  read : List File → Bool → Upload

-- A location is empty, no UUID, or a UUID.
pub record Form : Type 0 where
  pub action : String
  pub step : ℕ
  pub submission_mode : String
  pub confidential_name : String
  pub confidential_contact : String
  pub secure_email : String
  pub location_id : Option (Option ℕ)
  pub category : String
  pub description : String
  pub files : Upload

abbrev pub get_or {ℓ} : {A : Type ℓ} → Option A → A → A
get_or none default = default
get_or (some a) default = a

-- dict.setdefault
abbrev pub set_default {ℓ} : {A : Type ℓ} → Option A → A → Option A
set_default none default = some default
set_default (some a) default = some a

-- The wizard shows the locations that are active and, with a scope, the organisation's.
abbrev pub is_offered : Tenant → Location → Bool
is_offered tenant l = l.is_active && not (tenant.scoped && not (opt_eq l.org_id tenant.org_id))

unfoldable pub has_locations : Instance → Bool
has_locations i = any (is_offered i.tenant) i.locations

unfoldable pub mode_error : Instance → Option String → Option String
mode_error i mode =
    let allowed : Bool = elim mode [
      | none ↦ false
      | some m ↦ str_eq m "anonymous" || (i.submission_mode_enabled && str_eq m "confidential")
    ] in
    if allowed then none else some "mode_required"

unfoldable pub location_error : Instance → Option (Option ℕ) → Option String
location_error i none = none
location_error i (some none) = some "invalid_location"
location_error i (some (some id)) = elim (find (λ l. l.id == id) i.locations) [
  | none ↦ some "invalid_location"
  | some l ↦ if is_offered i.tenant l then none else some "invalid_location"
]

unfoldable pub category_error : Instance → Option String → Option String
category_error i none = some "category_required"
category_error i (some category) =
    if any (λ slug. str_eq slug category) i.categories then none else some "category_required"

-- len(description.strip()), and 0 for no text
unfoldable pub description_length : Option String → ℕ
unfolding strip characters
description_length none = 0
description_length (some text) = characters (strip text)

unfoldable pub length_error : ℕ → Option String
length_error length =
    if ltb length 10
    then some "description_too_short"
    else if ltb 10000 length
    then some "description_too_long"
    else none

unfoldable pub description_error : Option String → Option String
unfolding description_length length_error
description_error description = length_error (description_length description)

-- The first error of a step, with the step.
abbrev pub first_error : List (ℕ × Option String) → Option (ℕ × String)
first_error [] = none
first_error ((step, none) ∷ rest) = first_error rest
first_error ((step, some error) ∷ rest) = some (step, error)

unfoldable pub draft_error : Instance → Draft → Option (ℕ × String)
unfolding has_locations mode_error location_error category_error description_error
draft_error i state =
    let location : Option (Option ℕ) = elim state.location_id [
      | none ↦ none
      | some id ↦ some (some id)
    ] in
    first_error (
      (step_mode, mode_error i state.submission_mode)
      ∷ (step_location, (if has_locations i then location_error i location else none))
      ∷ (step_category, category_error i state.category)
      ∷ (step_description, description_error state.description)
      ∷ [])

abbrev pub fail : ℕ → String → Draft → Draft
fail step error state = record state { step = some step; flash_error = some error }

unfoldable pub post_mode : (String → Bool) → Instance → Form → Draft → Draft
unfolding mode_error has_locations strip is_empty
post_mode valid_email i form state =
    let mode = if i.submission_mode_enabled then form.submission_mode else "anonymous" in
    let next = if has_locations i then step_location else step_category in
    let email = if i.notify_email_enabled then strip form.secure_email else "" in
    let confidential : Draft = record state {
      submission_mode = some mode;
      confidential_name = some (strip form.confidential_name);
      confidential_contact = some (strip form.confidential_contact);
      secure_email = some email;
    } in
    let anonymous : Draft = record state {
      submission_mode = some mode;
      confidential_name = none;
      confidential_contact = none;
      secure_email = none;
    } in
    elim (mode_error i (some mode)) [
      | some error ↦ fail step_mode error state
      | none ↦
          if str_eq mode "confidential"
          then (if not (is_empty email) && not (valid_email email)
              then fail step_mode "email_invalid" confidential
              else record confidential { step = some next })
          else record anonymous { step = some next }
    ]

unfoldable pub post_location : Instance → Form → Draft → Draft
unfolding has_locations location_error
post_location i form state =
    let chosen : Option ℕ = elim form.location_id [ none ↦ none | some id ↦ id ] in
    if has_locations i
    then (elim (location_error i form.location_id) [
      | some error ↦ fail step_location error state
      | none ↦ record state { location_id = chosen; step = some step_category }
    ])
    else record state { step = some step_category }

unfoldable pub post_category : Instance → Form → Draft → Draft
unfolding category_error
post_category i form state = elim (category_error i (some form.category)) [
  | some error ↦ fail step_category error state
  | none ↦ record state { category = some form.category; step = some step_description }
]

unfoldable pub post_description : Form → Draft → Draft
unfolding description_error strip truncate
post_description form state =
    let text = strip form.description in
    let kept : Draft = record state { description = some (truncate 10000 text) } in
    elim (description_error (some text)) [
      | some error ↦ fail step_description error kept
      | none ↦ record kept { step = some step_attachments }
    ]

unfoldable pub post_attachments : Form → Draft → Draft
post_attachments form state = elim form.files [
  | refused reason ↦ record (fail step_attachments "attachments_rejected" state) {
    flash_field_error = some reason;
  }
  | read [] room ↦ record state { step = some step_review }
  | read (f ∷ fs) room ↦
      if room
      then record state { file_data = f ∷ fs; step = some step_review }
      else fail step_attachments "attachments_no_room" state
]

unfoldable pub post_back : Instance → Draft → Draft
unfolding has_locations
post_back i state =
    let prev = get_or state.step step_mode - 1 in
    let shown = if not (has_locations i) && (prev == step_location) then step_mode else prev in
    record state { step = some (max step_mode shown) }

unfoldable pub is_empty_draft : Draft → Bool
is_empty_draft d = not (
    is_some d.step
    || is_some d.org_id
    || is_some d.submission_mode
    || is_some d.category
    || is_some d.description
    || is_some d.flash_error
    || is_some d.report_id)

-- The step that the form is for, which is the draft's; `none` is the final submit.
unfoldable pub post_step : (String → Bool) → Instance → Form → Draft → Option Draft
unfolding post_mode post_location post_category post_description post_attachments
post_step valid_email i form state =
    if form.step == step_mode
    then some (post_mode valid_email i form state)
    else if form.step == step_location
    then some (post_location i form state)
    else if form.step == step_category
    then some (post_category i form state)
    else if form.step == step_description
    then some (post_description form state)
    else if form.step == step_attachments
    then some (post_attachments form state)
    else if form.step == step_review
    then none
    else some (record state { step = some step_mode })

-- A draft joins the organisation of the first wizard that saves it.
unfoldable pub with_org : Instance → Draft → Draft
with_org i state = record state {
  org_id = if i.tenant.scoped then some (get_or state.org_id i.tenant.org_id) else state.org_id;
}

-- A stale page, or an unknown action: the draft's own step is shown.
unfoldable pub post_stale : Draft → Draft
unfolding is_empty_draft
post_stale state = record state {
  flash_error = if is_empty_draft state then some "session_incomplete" else state.flash_error;
  step = set_default state.step step_mode;
}

abbrev pub is_stale : Form → Draft → Bool
is_stale form state =
    not (str_eq form.action "next" || str_eq form.action "back")
    || (str_eq form.action "next" && not (form.step == get_or state.step step_mode))

-- What the POST saves; `none` is the final submit. `valid_email` is `_valid_email`.
unfoldable pub post : (String → Bool) → Instance → Form → Draft → Option Draft
unfolding post_stale with_org post_back post_step
post valid_email i form state =
    if is_stale form state
    then some (post_stale state)
    else if str_eq form.action "back"
    then some (post_back i (with_org i state))
    else post_step valid_email i form (with_org i state)

-- What GET /submit keeps of the draft that it shows: the error is shown once, and a wizard that has
-- lost its locations moves on from them.
unfoldable pub visit : Instance → Draft → Draft
unfolding has_locations
visit i state =
    let lost = not (has_locations i) && (get_or state.step step_mode == step_location) in
    record state {
      step = if lost then some step_category else state.step;
      flash_error = none;
      flash_field_error = none;
    }

-- `_save_submission` gives a draft its report's identifier, once.
unfoldable pub with_report_id : ℕ → Draft → Draft
unfolding is_empty_draft
with_report_id fresh_id state =
    if is_empty_draft state
    then state
    else record state { report_id = set_default state.report_id fresh_id }

-- The arguments of `create_report` and `create_attachments`. `encrypt` is services/crypto.py's.
pub record Submission : Type 0 where
  pub category : String
  pub description : String
  pub is_confidential : Bool
  pub location_id : Option ℕ
  pub confidential_name_enc : Option String
  pub confidential_contact_enc : Option String
  pub secure_email_enc : Option String
  pub files : List File
  pub org_id : Option ℕ

unfoldable pub sealed : (String → String) → Bool → Option String → Option String
unfolding strip is_empty
sealed encrypt wanted field =
    let text = strip (get_or field "") in
    if wanted && not (is_empty text) then some (encrypt text) else none

-- The final submit of a draft: what it files, or the first step that no longer passes.
unfoldable pub final_submission : (String → String) → Instance → Draft → Submission ⊎ (ℕ × String)
unfolding draft_error sealed strip has_locations
final_submission encrypt i state = elim (draft_error i state) [
  | some error ↦ inr error
  | none ↦
      let confidential = str_eq (get_or state.submission_mode "") "confidential" in
      inl (record {
        category = get_or state.category "";
        description = strip (get_or state.description "");
        is_confidential = confidential;
        location_id = if has_locations i then state.location_id else none;
        confidential_name_enc = sealed encrypt confidential state.confidential_name;
        confidential_contact_enc = sealed encrypt confidential state.confidential_contact;
        secure_email_enc =
            sealed encrypt (confidential && i.notify_email_enabled) state.secure_email;
        files = state.file_data;
        org_id = i.tenant.org_id;
      })
]
