-- ===== src/Wizard/Anonymous.antt =====
-- Who is named in a draft, and in the report that it becomes.
use open_whistle.Base.{
  String, ◌≡◌, refl, ap, ◌∙◌, ◌⊎◌, inl, inr, Bool, true, false, Option, none, some, arith, ◌==◌,
  some_inj, if-either,
}
use text.Mathlib.Text.{◌==◌ as str_eq}
use open_whistle.Wizard.{
  Draft, Instance, Form, Submission, get_or, post, post_mode, post_location, post_category,
  post_description, post_attachments, post_back, post_stale, post_step, with_org, is_stale,
  step_mode, final_submission, sealed, step_location, step_category, step_description,
  step_attachments, step_review,
}
use mathlib.Core.Path.{subst}
use open_whistle.Wizard.Filled.{Posts, fresh, then_post}

abbrev pub is_confidential : Draft → Bool
is_confidential d = str_eq (get_or d.submission_mode "") "confidential"

abbrev pub NamesNobody : Draft → Type 0
NamesNobody d =
    (d.confidential_name ≡ none) × (d.confidential_contact ≡ none) × (d.secure_email ≡ none)

-- The draft is confidential, or it names nobody.
abbrev IsDiscreet : Draft → Type 0
IsDiscreet d = (is_confidential d ≡ true) ⊎ NamesNobody d

post_mode-IsDiscreet :
    (v : String → Bool) (i : Instance) (form : Form) (d : Draft)
    → IsDiscreet d
    → IsDiscreet (post_mode v i form d)
unfolding post_mode
post_mode-IsDiscreet v i form d h = ground arith

-- The four fields of another draft.
record HasSameNames (d d' : Draft) : Type 0 where
  mode : d'.submission_mode ≡ d.submission_mode
  name : d'.confidential_name ≡ d.confidential_name
  contact : d'.confidential_contact ≡ d.confidential_contact
  email : d'.secure_email ≡ d.secure_email

HasSameNames-IsDiscreet : (d d' : Draft) → HasSameNames d d' → IsDiscreet d → IsDiscreet d'
HasSameNames-IsDiscreet d d' s (inl e) =
    inl (ap (λ m. str_eq (get_or m "") "confidential") s.mode ∙ e)
HasSameNames-IsDiscreet d d' s (inr (a, b, c)) = inr (s.name ∙ a, s.contact ∙ b, s.email ∙ c)

post_location-names :
    (i : Instance) (form : Form) (d : Draft) → HasSameNames d (post_location i form d)
unfolding post_location
post_location-names i form d = record {
  mode = ground arith;
  name = ground arith;
  contact = ground arith;
  email = ground arith;
}

post_category-names :
    (i : Instance) (form : Form) (d : Draft) → HasSameNames d (post_category i form d)
unfolding post_category
post_category-names i form d = record {
  mode = ground arith;
  name = ground arith;
  contact = ground arith;
  email = ground arith;
}

post_description-names : (form : Form) (d : Draft) → HasSameNames d (post_description form d)
unfolding post_description
post_description-names form d = record {
  mode = ground arith;
  name = ground arith;
  contact = ground arith;
  email = ground arith;
}

post_attachments-names : (form : Form) (d : Draft) → HasSameNames d (post_attachments form d)
unfolding post_attachments
post_attachments-names form d = record {
  mode = ground arith;
  name = ground arith;
  contact = ground arith;
  email = ground arith;
}

post_step-IsDiscreet :
    (v : String → Bool) (i : Instance) (form : Form) (d d' : Draft)
    → post_step v i form d ≡ some d'
    → IsDiscreet d
    → IsDiscreet d'
unfolding post_step
post_step-IsDiscreet v i form d d' h f = elim (if-either (form.step == step_mode) _ _ _ h) [
  | inl (_, e) ↦ subst IsDiscreet (some_inj e) (post_mode-IsDiscreet v i form d f)
  | inr (_, h) ↦ elim (if-either (form.step == step_location) _ _ _ h) [
    | inl (_, e) ↦
        HasSameNames-IsDiscreet d d'
          (subst (HasSameNames d) (some_inj e) (post_location-names i form d)) f
    | inr (_, h) ↦ elim (if-either (form.step == step_category) _ _ _ h) [
      | inl (_, e) ↦
          HasSameNames-IsDiscreet d d'
            (subst (HasSameNames d) (some_inj e) (post_category-names i form d)) f
      | inr (_, h) ↦ elim (if-either (form.step == step_description) _ _ _ h) [
        | inl (_, e) ↦
            HasSameNames-IsDiscreet d d'
              (subst (HasSameNames d) (some_inj e) (post_description-names form d)) f
        | inr (_, h) ↦ elim (if-either (form.step == step_attachments) _ _ _ h) [
          | inl (_, e) ↦
              HasSameNames-IsDiscreet d d'
                (subst (HasSameNames d) (some_inj e) (post_attachments-names form d)) f
          | inr (_, h) ↦ elim (if-either (form.step == step_review) _ _ _ h) [
            | inl (_, e) ↦ ground (arith, e)
            | inr (_, e) ↦ subst IsDiscreet (some_inj e) f
          ]
        ]
      ]
    ]
  ]
]

post-IsDiscreet :
    (v : String → Bool) (i : Instance) (form : Form) (d d' : Draft)
    → post v i form d ≡ some d'
    → IsDiscreet d
    → IsDiscreet d'
unfolding post post_stale with_org post_back
post-IsDiscreet v i form d d' h f = elim (if-either (is_stale form d) _ _ _ h) [
  | inl (_, e) ↦ subst IsDiscreet (some_inj e) f
  | inr (_, h) ↦ elim (if-either (str_eq form.action "back") _ _ _ h) [
    | inl (_, e) ↦ subst IsDiscreet (some_inj e) f
    | inr (_, h) ↦ post_step-IsDiscreet v i form (with_org i d) d' h f
  ]
]

Posts-IsDiscreet : {v : String → Bool} {d : Draft} → Posts v d → IsDiscreet d
Posts-IsDiscreet fresh = inr (refl, refl, refl)
Posts-IsDiscreet {v} (then_post {d} {d'} before i form h) =
    post-IsDiscreet v i form d d' h (Posts-IsDiscreet before)

-- A draft that posts of the wizard made of an empty one, and whose mode is not confidential,
-- holds no name, no contact and no address, also after a confidential pass.
pub Posts-NamesNobody :
    {v : String → Bool} {d : Draft} → Posts v d → is_confidential d ≡ false → NamesNobody d
Posts-NamesNobody posts h = elim (Posts-IsDiscreet posts) [
  | inl e ↦ ground (arith, h, e)
  | inr names_nobody ↦ names_nobody
]

-- What identifies the reporter in the report that is filed.
abbrev pub IsAnonymous : Submission → Type 0
IsAnonymous s =
    (s.confidential_name_enc ≡ none)
    × (s.confidential_contact_enc ≡ none)
    × (s.secure_email_enc ≡ none)

sealed-unwanted :
    (encrypt : String → String) (field : Option String) → sealed encrypt false field ≡ none
unfolding sealed
sealed-unwanted encrypt field = refl

pub final_submission-IsAnonymous :
    (encrypt : String → String) (i : Instance) (d : Draft) (s : Submission)
    → final_submission encrypt i d ≡ inl s
    → is_confidential d ≡ false
    → IsAnonymous s
unfolding final_submission sealed
final_submission-IsAnonymous encrypt i d s h e = ground (arith, h, e)
