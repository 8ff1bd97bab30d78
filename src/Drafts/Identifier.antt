-- ===== src/Drafts/Identifier.antt =====
-- The identifier of a draft's report through the pages of the wizard.
use open_whistle.Wizard.{visit}
use open_whistle.Base.{refl}
use open_whistle.Base.{
  ℕ, String, ◌≡◌, sym, ap, inl, inr, Bool, some, arith, ◌==◌, some_inj, if-either,
}
use text.Mathlib.Text.{◌==◌ as str_eq}
use mathlib.Core.Path.{subst}
use open_whistle.Wizard.{
  Draft, Instance, Form, post, post_mode, post_location, post_category, post_description,
  post_attachments, post_back, post_stale, post_step, with_org, with_report_id, is_stale, step_mode,
  step_location, step_category, step_description, step_attachments,
}

post_mode-id :
    (v : String → Bool) (i : Instance) (form : Form) (d : Draft)
    → (post_mode v i form d).report_id ≡ d.report_id
unfolding post_mode
post_mode-id v i form d = ground arith

post_location-id :
    (i : Instance) (form : Form) (d : Draft) → (post_location i form d).report_id ≡ d.report_id
unfolding post_location
post_location-id i form d = ground arith

post_category-id :
    (i : Instance) (form : Form) (d : Draft) → (post_category i form d).report_id ≡ d.report_id
unfolding post_category
post_category-id i form d = ground arith

post_description-id : (form : Form) (d : Draft) → (post_description form d).report_id ≡ d.report_id
unfolding post_description
post_description-id form d = ground arith

post_attachments-id : (form : Form) (d : Draft) → (post_attachments form d).report_id ≡ d.report_id
unfolding post_attachments
post_attachments-id form d = ground arith

post_step-id :
    (v : String → Bool) (i : Instance) (form : Form) (d d' : Draft)
    → post_step v i form d ≡ some d'
    → d'.report_id ≡ d.report_id
unfolding post_step
post_step-id v i form d d' h = elim (if-either (form.step == step_mode) _ _ _ h) [
  | inl (_, e) ↦ subst (λ x. x.report_id ≡ d.report_id) (some_inj e) (post_mode-id v i form d)
  | inr (_, h) ↦ elim (if-either (form.step == step_location) _ _ _ h) [
    | inl (_, e) ↦ subst (λ x. x.report_id ≡ d.report_id) (some_inj e) (post_location-id i form d)
    | inr (_, h) ↦ elim (if-either (form.step == step_category) _ _ _ h) [
      | inl (_, e) ↦ subst (λ x. x.report_id ≡ d.report_id) (some_inj e) (post_category-id i form d)
      | inr (_, h) ↦ elim (if-either (form.step == step_description) _ _ _ h) [
        | inl (_, e) ↦
            subst (λ x. x.report_id ≡ d.report_id) (some_inj e) (post_description-id form d)
        | inr (_, h) ↦ elim (if-either (form.step == step_attachments) _ _ _ h) [
          | inl (_, e) ↦
              subst (λ x. x.report_id ≡ d.report_id) (some_inj e) (post_attachments-id form d)
          | inr (_, h) ↦ ground arith
        ]
      ]
    ]
  ]
]

pub post-id :
    (v : String → Bool) (i : Instance) (form : Form) (d d' : Draft)
    → post v i form d ≡ some d'
    → d'.report_id ≡ d.report_id
unfolding post post_stale with_org post_back
post-id v i form d d' h = elim (if-either (is_stale form d) _ _ _ h) [
  | inl (_, e) ↦ ap (λ x. x.report_id) (sym (some_inj e))
  | inr (_, h) ↦ elim (if-either (str_eq form.action "back") _ _ _ h) [
    | inl (_, e) ↦ ap (λ x. x.report_id) (sym (some_inj e))
    | inr (_, h) ↦ post_step-id v i form (with_org i d) d' h
  ]
]

pub with_report_id-id :
    (fresh_id id : ℕ) (d : Draft)
    → d.report_id ≡ some id
    → (with_report_id fresh_id d).report_id ≡ some id
unfolding with_report_id
with_report_id-id fresh_id id d h = ground arith

pub visit-id : (i : Instance) (d : Draft) → (visit i d).report_id ≡ d.report_id
unfolding visit
visit-id i d = refl
