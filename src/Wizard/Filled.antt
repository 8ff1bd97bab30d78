-- ===== src/Wizard/Filled.antt =====
-- What a draft holds by the time that it is at a step of the wizard.
use open_whistle.Base.{
  ℕ, ◌≤◌, String, ◌≡◌, refl, sym, ap, ◌∙◌, ◌⊎◌, inl, inr, Bool, true, false, not, ◌&&◌, ◌||◌,
  Option, none, some, arith, ◌==◌, if◌then◌else◌, is_some, ==→eq,
}
use open_whistle.Wizard.{
  str_eq, post_stale, with_org, is_stale, post_step, step_location, step_category, step_description,
  step_attachments, step_review, length_error, description_length, Instance, Form, Draft,
  empty_draft, get_or, step_mode, post, post_mode, post_location, post_category, post_description,
  post_attachments, post_back, description_error,
}
use open_whistle.Base.Text.{strip, characters, truncate}
use open_whistle.Base.Strip.{strip_idem, truncate-eq_self}
use mathlib.Core.Path.{subst}

-- The drafts that posts of the wizard make, each with the instance as it was at that time.
pub data Posts (valid_email : String → Bool) : Draft → Type 0 where
  fresh : Posts valid_email empty_draft
  then_post :
      {d d' : Draft}
      → Posts valid_email d
      → (i : Instance) (form : Form) → post valid_email i form d ≡ some d'
      → Posts valid_email d'

-- Past a step, its answer is there, and the description is neither too short nor too long.
pub record IsFilled (d : Draft) : Type 0 where
  pub one_of_six : (1 ≤ get_or d.step step_mode) × (get_or d.step step_mode ≤ 6)
  pub mode : 2 ≤ get_or d.step step_mode → is_some d.submission_mode ≡ true
  pub category : 4 ≤ get_or d.step step_mode → is_some d.category ≡ true
  pub description : 5 ≤ get_or d.step step_mode → description_error d.description ≡ none

length_error-le : (n : ℕ) → length_error n ≡ none → n ≤ 10000
unfolding length_error
length_error-le n h = ground arith

description_error-kept :
    (text : String)
    → description_error (some (strip text)) ≡ none
    → description_error (some (truncate 10000 (strip text))) ≡ none
unfolding description_error description_length
description_error-kept text h =
    let short : characters (strip text) ≤ 10000 =
      length_error-le (characters (strip text))
        (subst (λ s. length_error (characters s) ≡ none) (strip_idem text) h) in
    subst (λ s. length_error (characters (strip s)) ≡ none)
      (sym (truncate-eq_self 10000 (strip text) short)) h

module _ (i : Instance) (form : Form) (d : Draft) where
  post_mode-IsFilled : (valid_email : String → Bool) → IsFilled (post_mode valid_email i form d)
  unfolding post_mode
  post_mode-IsFilled valid_email = ground arith

  post_location-IsFilled :
      IsFilled d → get_or d.step step_mode ≡ 2 → IsFilled (post_location i form d)
  unfolding post_location
  post_location-IsFilled f e = ground arith

  post_category-IsFilled :
      IsFilled d → get_or d.step step_mode ≡ 3 → IsFilled (post_category i form d)
  unfolding post_category
  post_category-IsFilled f e = ground arith

  post_description-IsFilled :
      IsFilled d → get_or d.step step_mode ≡ 4 → IsFilled (post_description form d)
  unfolding post_description
  post_description-IsFilled f e = ground (arith, description_error-kept form.description)

  post_attachments-IsFilled :
      IsFilled d → get_or d.step step_mode ≡ 5 → IsFilled (post_attachments form d)
  unfolding post_attachments
  post_attachments-IsFilled f e = ground arith

  post_back-IsFilled : IsFilled d → IsFilled (post_back i d)
  unfolding post_back
  post_back-IsFilled f = ground arith

-- One of two answers.
restarted : (b : Bool) (x d' : Draft) → (if b then none else some x) ≡ some d' → x ≡ d'
restarted true x d' h = cc
restarted false x d' h = cc

if-either :
    (b : Bool) (x : Draft) (rest : Option Draft) (d' : Draft)
    → (if b then some x else rest) ≡ some d'
    → ((b ≡ true) × (x ≡ d')) ⊎ ((b ≡ false) × (rest ≡ some d'))
if-either true x rest d' h = inl (refl, cc)
if-either false x rest d' h = inr (refl, h)

with_org-IsFilled : (i : Instance) (d : Draft) → IsFilled d → IsFilled (with_org i d)
unfolding with_org
with_org-IsFilled i d f = record {
  one_of_six = f.one_of_six;
  mode = f.mode;
  category = f.category;
  description = f.description;
}

post_stale-IsFilled : (d : Draft) → IsFilled d → IsFilled (post_stale d)
unfolding post_stale
post_stale-IsFilled d f = ground arith

post_step-IsFilled :
    (valid_email : String → Bool) (i : Instance) (form : Form) (d d' : Draft)
    → form.step ≡ get_or d.step step_mode
    → post_step valid_email i form d ≡ some d'
    → IsFilled d
    → IsFilled d'
unfolding post_step
post_step-IsFilled valid_email i form d d' e h f =
    elim (if-either (form.step == step_mode) _ _ d' h) [
      | inl (_, same) ↦ subst IsFilled same (post_mode-IsFilled i form d valid_email)
      | inr (_, h) ↦ elim (if-either (form.step == step_location) _ _ d' h) [
        | inl (at, same) ↦
            subst IsFilled same (post_location-IsFilled i form d f (sym e ∙ ==→eq form.step 2 at))
        | inr (_, h) ↦ elim (if-either (form.step == step_category) _ _ d' h) [
          | inl (at, same) ↦
              subst IsFilled same (post_category-IsFilled i form d f (sym e ∙ ==→eq form.step 3 at))
          | inr (_, h) ↦ elim (if-either (form.step == step_description) _ _ d' h) [
            | inl (at, same) ↦
                subst IsFilled same
                  (post_description-IsFilled i form d f (sym e ∙ ==→eq form.step 4 at))
            | inr (_, h) ↦ elim (if-either (form.step == step_attachments) _ _ d' h) [
              | inl (at, same) ↦
                  subst IsFilled same
                    (post_attachments-IsFilled i form d f (sym e ∙ ==→eq form.step 5 at))
              | inr (_, h) ↦
                  subst IsFilled
                    (restarted (form.step == step_review) (record d { step = some step_mode }) d' h)
                    (record {
                      one_of_six = (omega arith, omega arith);
                      mode = λ p. absurd (omega (arith, p));
                      category = λ p. absurd (omega (arith, p));
                      description = λ p. absurd (omega (arith, p));
                    })
            ]
          ]
        ]
      ]
    ]

current-test : (a b c : Bool) → not (a || b) || (a && not c) ≡ false → b ≡ false → c ≡ true
current-test a b c h e = ground arith

-- A request that is not stale and does not go back is for the step the draft stands on.
is_stale-current :
    (form : Form) (d : Draft)
    → is_stale form d ≡ false
    → str_eq form.action "back" ≡ false
    → form.step ≡ get_or d.step step_mode
unfolding is_stale
is_stale-current form d now forth =
    ==→eq form.step (get_or d.step step_mode) (current-test _ _ _ now forth)

post-IsFilled :
    (valid_email : String → Bool) (i : Instance) (form : Form) (d d' : Draft)
    → post valid_email i form d ≡ some d'
    → IsFilled d
    → IsFilled d'
unfolding post
post-IsFilled valid_email i form d d' h f = elim (if-either (is_stale form d) _ _ d' h) [
  | inl (_, same) ↦ subst IsFilled same (post_stale-IsFilled d f)
  | inr (current, h) ↦ elim (if-either (str_eq form.action "back") _ _ d' h) [
    | inl (_, same) ↦
        subst IsFilled same (post_back-IsFilled i form (with_org i d) (with_org-IsFilled i d f))
    | inr (forth, h) ↦
        post_step-IsFilled valid_email i form (with_org i d) d'
          (is_stale-current form d current forth) h (with_org-IsFilled i d f)
  ]
]

pub Posts-IsFilled : {valid_email : String → Bool} {d : Draft} → Posts valid_email d → IsFilled d
Posts-IsFilled fresh = record {
  one_of_six = (omega arith, omega arith);
  mode = λ p. absurd (omega (arith, p));
  category = λ p. absurd (omega (arith, p));
  description = λ p. absurd (omega (arith, p));
}
Posts-IsFilled {valid_email} (then_post {d} {d'} before i form h) =
    post-IsFilled valid_email i form d d' h (Posts-IsFilled before)

-- What the review page may rely on.
pub record IsComplete (d : Draft) : Type 0 where
  pub mode : is_some d.submission_mode ≡ true
  pub category : is_some d.category ≡ true
  pub description : description_error d.description ≡ none

-- A draft that posts of the wizard made of an empty one, under any settings, and that stands on
-- the review step has a mode, a category and a description of an allowed length.
pub Posts-IsComplete :
    {valid_email : String → Bool} {d : Draft}
    → Posts valid_email d
    → d.step ≡ some step_review
    → IsComplete d
Posts-IsComplete {valid_email} {d} posts e =
    let filled = Posts-IsFilled posts in
    let at : get_or d.step step_mode ≡ 6 = ap (λ o. get_or o step_mode) e in
    record {
      mode = filled.mode (omega (arith, at));
      category = filled.category (omega (arith, at));
      description = filled.description (omega (arith, at));
    }
