-- ===== src/Wizard/Filed.antt =====
-- What the final submit files, and what it files nothing from.
use open_whistle.Base.{
  ℕ, ◌≤◌, String, ◌≡◌, refl, sym, ap, ◌∙◌, ◌⊎◌, inl, inr, Bool, true, ◌&&◌, Option, none, some,
  List, [], ◌∷◌, arith, ◌==◌, if◌then◌else◌, Bool-cases, Option-cases, find, any,
}
use text.Mathlib.Text.{◌==◌ as str_eq}
use open_whistle.Base.Text.{strip, characters}
use open_whistle.Base.Strip.{strip_idem}
use mathlib.Core.Path.{subst}
use open_whistle.Wizard.{
  Instance, Draft, Location, Submission, get_or, is_offered, has_locations, mode_error,
  location_error, category_error, description_length, length_error, description_error, draft_error,
  final_submission,
}

-- Whether the location is one that the wizard shows.
abbrev pub is_shown : Instance → ℕ → Bool
is_shown i id = any (λ l. (l.id == id) && is_offered i.tenant l) i.locations

pub record IsValid (i : Instance) (s : Submission) : Type 0 where
  pub category : any (λ slug. str_eq slug s.category) i.categories ≡ true
  pub long_enough : 10 ≤ description_length (some s.description)
  pub short_enough : description_length (some s.description) ≤ 10000
  pub location :
      (s.location_id ≡ none) ⊎ ((id : ℕ) × (s.location_id ≡ some id) × (is_shown i id ≡ true))

length_error-none : (n : ℕ) → length_error n ≡ none → (10 ≤ n) × (n ≤ 10000)
unfolding length_error
length_error-none n h = ground arith

draft_error-none :
    (i : Instance) (d : Draft)
    → draft_error i d ≡ none
    → (mode_error i d.submission_mode ≡ none)
      × (category_error i d.category ≡ none)
      × (description_error d.description ≡ none)
unfolding draft_error
draft_error-none i d h = ground (arith, h)

draft_error-location :
    (i : Instance) (d : Draft) (id : ℕ)
    → draft_error i d ≡ none
    → has_locations i ≡ true
    → d.location_id ≡ some id
    → location_error i (some (some id)) ≡ none
unfolding draft_error
draft_error-location i d id h e at = ground (arith, h, e, at)

find-any :
    {A : Type 0} (p q : A → Bool) (xs : List A) (x : A)
    → find p xs ≡ some x
    → q x ≡ true
    → any (λ y. p y && q y) xs ≡ true
find-any p q [] x h e = ground (arith, h)
find-any p q (y ∷ xs) x h e = ground (arith, h, e, find-any p q xs x)

location_error-none :
    (i : Instance) (id : ℕ) → location_error i (some (some id)) ≡ none → is_shown i id ≡ true
unfolding location_error
location_error-none i id h = elim (Option-cases (find (λ l. l.id == id) i.locations)) [
  | inl e ↦ ground (arith, h, e)
  | inr (l, e) ↦
      find-any (λ (l : Location). l.id == id) (is_offered i.tenant) i.locations l e
        (ground (arith, h, e))
]

category_error-none :
    (i : Instance) (category : Option String)
    → category_error i category ≡ none
    → any (λ slug. str_eq slug (get_or category "")) i.categories ≡ true
unfolding category_error
category_error-none i none h = ground (arith, h)
category_error-none i (some category) h = ground (arith, h)

description_length-strip :
    (description : Option String)
    → description_length (some (strip (get_or description ""))) ≡ description_length description
unfolding description_length
description_length-strip none = refl
description_length-strip (some text) = ap characters (strip_idem text)

error-length :
    (d : Draft)
    → description_error d.description ≡ none
    → length_error (description_length d.description) ≡ none
unfolding description_error
error-length d h = h

final_submission-error :
    (encrypt : String → String) (i : Instance) (d : Draft) (s : Submission)
    → final_submission encrypt i d ≡ inl s
    → draft_error i d ≡ none
unfolding final_submission
final_submission-error encrypt i d s h = ground (arith, h)

final_submission-fields :
    (encrypt : String → String) (i : Instance) (d : Draft) (s : Submission)
    → final_submission encrypt i d ≡ inl s
    → (s.category ≡ get_or d.category "")
      × (s.description ≡ strip (get_or d.description ""))
      × (s.location_id ≡ (if has_locations i then d.location_id else none))
unfolding final_submission
final_submission-fields encrypt i d s h = ground (arith, h)

offered :
    (i : Instance) (d : Draft)
    → draft_error i d ≡ none
    → ((if has_locations i then d.location_id else none) ≡ none)
      ⊎ ((id : ℕ) × ((if has_locations i then d.location_id else none) ≡ some id)
          × (is_shown i id ≡ true))
offered i d h = elim (Bool-cases (has_locations i)) [
  | inl e ↦ elim (Option-cases d.location_id) [
    | inl nowhere ↦ inl (rw (e, nowhere) refl)
    | inr (id, at) ↦
        inr (id, rw (e, at) refl, location_error-none i id (draft_error-location i d id h e at))
  ]
  | inr e ↦ inl (rw e refl)
]

-- What the final submit of any draft files has a category of the wizard, a description of 10 to
-- 10000 characters once trimmed, and no location or one that the wizard shows.
pub final_submission-IsValid :
    (encrypt : String → String) (i : Instance) (d : Draft) (s : Submission)
    → final_submission encrypt i d ≡ inl s
    → IsValid i s
final_submission-IsValid encrypt i d s h =
    let valid = final_submission-error encrypt i d s h in
    let fields = final_submission-fields encrypt i d s h in
    let (_, category_fits, description_fits) = draft_error-none i d valid in
    let bounds = length_error-none (description_length (some s.description)) (
      ap length_error
        (ap (λ x. description_length (some x)) fields.1 ∙ description_length-strip d.description)
      ∙ error-length d description_fits) in
    record {
      category =
          subst (λ x. any (λ slug. str_eq slug x) i.categories ≡ true) (sym fields.0)
            (category_error-none i d.category category_fits);
      long_enough = bounds.0;
      short_enough = bounds.1;
      location =
          subst (λ o. (o ≡ none) ⊎ ((id : ℕ) × (o ≡ some id) × (is_shown i id ≡ true)))
            (sym fields.2) (offered i d valid);
    }
