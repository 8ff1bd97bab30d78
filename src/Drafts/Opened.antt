-- ===== src/Drafts/Opened.antt =====
-- What the tokens of a draft decrypt to, and what a lookup of its report finds.
use open_whistle.Drafts.Identifier.{visit-id}
use open_whistle.Base.{
  ℕ, String, ◌≡◌, refl, sym, ap, ◌∙◌, inl, inr, Bool, Option, none, some, List, [], ◌∷◌, arith,
  ==-refl, Option-cases, some_inj, if-holds,
}
use open_whistle.Drafts.Invariant.{AtMostOne, Carries, AllCarry, Tells}
use open_whistle.Drafts.Steps.{Store, Cipher, IsSound, Edit, posted, attachments, visited}
use mathlib.Core.Path.{subst}
use text.Mathlib.Text.{◌==◌ as str_eq}
use text.Mathlib.TextEquality.{eq_iff}
use Prim.Native.String.{[], ◌∷◌}
use open_whistle.Wizard.{Draft}
use open_whistle.Drafts.{
  Keys, Filed, received, claim_draft, committed_case_number, recovery, outcome,
}
use open_whistle.Drafts.Identifier.{post-id}

found_filed :
    (id : ℕ) (case_number : String)
    → committed_case_number (record { id = id; case_number = case_number } ∷ []) id
      ≡ some case_number
unfolding committed_case_number
found_filed id case_number = rw (==-refl id) refl

-- The report with the identifier is the one that is filed.
pub committed_case_number-AtMostOne :
    (id : ℕ) (case_number : String) (reports : List Filed)
    → committed_case_number reports id ≡ some case_number
    → AtMostOne id reports
    → reports ≡ record { id = id; case_number = case_number } ∷ []
unfolding committed_case_number
committed_case_number-AtMostOne id case_number reports h (inl none_filed) =
    ground (arith, h, none_filed)
committed_case_number-AtMostOne id case_number reports h (inr (filed, one)) =
    subst (λ n. reports ≡ record { id = id; case_number = n } ∷ [])
      (some_inj (sym (found_filed id filed) ∙ ap (λ rs. committed_case_number rs id) (sym one) ∙ h))
      one

pub committed_case_number-none :
    (id : ℕ) (reports : List Filed)
    → committed_case_number reports id ≡ none
    → AtMostOne id reports
    → reports ≡ []
unfolding committed_case_number
committed_case_number-none id reports h (inl none_filed) = none_filed
committed_case_number-none id reports h (inr (filed, one)) = absurd (
    ground
      (arith, sym (found_filed id filed) ∙ ap (λ rs. committed_case_number rs id) (sym one) ∙ h))

module _ (c : Cipher) (valid_email : String → Bool) (sound : IsSound c) where
  pub AllCarry-id :
      (id : ℕ) (o : Option String) (token : String) (d : Draft)
      → AllCarry c id o
      → o ≡ some token
      → c.decrypt_draft token ≡ some d
      → d.report_id ≡ some id
  AllCarry-id id none token d h e opened = ground (arith, e)
  AllCarry-id id (some t) token d (d', opened', h) e opened =
      ap (λ x. x.report_id)
        (some_inj (sym opened ∙ ap c.decrypt_draft (sym (some_inj e)) ∙ opened'))
      ∙ h

  pub AllCarry-token :
      (id : ℕ) (o : Option String) (token : String)
      → AllCarry c id o
      → o ≡ some token
      → Carries c id token
  AllCarry-token id none token h e = ground (arith, e)
  AllCarry-token id (some t) token h e = subst (Carries c id) (some_inj e) h

  pub Edit-id :
      {d d' : Draft} (id : ℕ)
      → Edit c valid_email d d'
      → d.report_id ≡ some id
      → d'.report_id ≡ some id
  Edit-id {d} {d'} id (posted i form h) e = post-id valid_email i form d d' h ∙ e
  Edit-id id (attachments files) e = e
  Edit-id {d} id (visited i) e = visit-id i d ∙ e

  pub claim_draft-answer :
      (nonce token : String) (k : Keys)
      → (claim_draft nonce k).answer ≡ some token
      → k.draft ≡ some token
  unfolding claim_draft
  claim_draft-answer nonce token k h = ground arith

  pub outcome-Tells :
      (id iv : ℕ) (s : Store) (our_case pin : Option String) (case_number : String)
      → s.reports ≡ record { id = id; case_number = case_number } ∷ []
      → Tells c id s (outcome (c.encrypt_result iv) our_case case_number pin)
  unfolding outcome
  outcome-Tells id iv s none pin case_number h = inl refl
  outcome-Tells id iv s (some our) pin case_number h =
      if-holds (Tells c id s) (str_eq our case_number) _ _
        (λ e.
          let (back, opened, same) = sound.result iv (record { case_number = our; pin = pin }) in
          inr (
            back,
            opened,
            h
                ∙ ap (λ n. record { id = id; case_number = n } ∷ [])
                    (sym (same ∙ (eq_iff our case_number).0 e)),
          ))
        (λ _. inl refl)

  pub recovery-Tells :
      (id iv : ℕ) (s : Store) (d : Draft)
      → AtMostOne id s.reports
      → d.report_id ≡ some id
      → Tells c id s (recovery (c.encrypt_result iv) s.reports d)
  unfolding recovery
  recovery-Tells id iv s d one h =
      subst
        (λ o. Tells c id s (elim o [
          | none ↦ ""
          | some id ↦ elim (committed_case_number s.reports id) [
            | none ↦ ""
            | some n ↦ c.encrypt_result iv (received n)
          ]
        ]))
        (sym h)
        (elim (Option-cases (committed_case_number s.reports id)) [
          | inl e ↦ rw e (inl refl)
          | inr (n, e) ↦ rw e (
              let (back, opened, same) = sound.result iv (received n) in
              inr (
                back,
                opened,
                committed_case_number-AtMostOne id n s.reports e one
                    ∙ ap (λ m. record { id = id; case_number = m } ∷ []) (sym same),
              ))
        ])
