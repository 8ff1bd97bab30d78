-- ===== src/Examples/Drafts.antt =====
-- A draft whose tokens are as many marks as its report's identifier, one more: a submit that files it,
-- and one that dies.
use open_whistle.Base.{
  ℕ, zero, suc, ◌+◌, ◌-◌, String, ◌≡◌, refl, ap, ◌∙◌, Option, none, some, ◌∷◌, arith, ◌==◌,
  if◌then◌else◌,
}
use open_whistle.Wizard.{Draft, draft_error}
use open_whistle.Drafts.{claim_draft, committed_case_number}
use open_whistle.Drafts.Steps.{
  Cipher, IsSound, claim, create, commit, committed, finish, World, start, Reach, here, then_act,
}
use open_whistle.Drafts.Invariant.{AtMostOne, IsKept, AllTell}
use open_whistle.Drafts.Recovered.{
  Reach-AtMostOne, Reach-IsKept, Reach-AllTell, IsBack, draft-IsBack,
}
use open_whistle.Examples.Reporters.{small_office, any_email, reviewed}
use Prim.Native.String.{◌∷◌}
use open_whistle.Base.Text.{characters}

abbrev marks : ℕ → String
marks zero = ""
marks (suc n) = "x" ∷ marks n

abbrev token_of : Option ℕ → String
token_of none = ""
token_of (some id) = marks (suc id)

abbrev id_of : String → Option ℕ
unfolding characters
id_of token = if characters token == 0 then none else some (characters token - 1)

abbrev marking : Cipher
marking = record {
  encrypt_draft = λ iv d. token_of d.report_id;
  decrypt_draft = λ token. some (record reviewed { report_id = id_of token });
  encrypt_result = λ iv r. r.case_number;
  decrypt_result = λ token. some (record { case_number = token; pin = none });
}

characters-marks : (n : ℕ) → characters (marks n) ≡ n
unfolding characters
characters-marks zero = refl
characters-marks (suc n) = ap (λ m. m + 1) (characters-marks n) ∙ omega arith

id_of-token_of : (o : Option ℕ) → id_of (token_of o) ≡ o
unfolding characters
id_of-token_of none = refl
id_of-token_of (some id) =
    ap (λ n. if n == 0 then none else some (n - 1)) (characters-marks (suc id)) ∙ ground arith

marking-IsSound : IsSound marking
marking-IsSound = record {
  draft = λ iv d. (
    record reviewed { report_id = id_of (token_of d.report_id) },
    refl,
    id_of-token_of d.report_id,
  );
  result = λ iv r. (record { case_number = r.case_number; pin = none }, refl, refl);
}

abbrev token : String
token = marks 8

abbrev mine : Draft
mine = record reviewed { report_id = id_of token }

mine-id : mine.report_id ≡ some 7
unfolding characters
mine-id = refl

abbrev Run : World marking any_email → Type 0
Run w = Reach marking any_email (start marking any_email token) w

abbrev claimed_at_noon : (w : World marking any_email) × Run w
unfolding claim_draft
claimed_at_noon = (_, then_act here 0 (claim "noon" refl refl))

valid : draft_error small_office mine ≡ none
unfolding draft_error
valid = refl

abbrev filed_at_noon : (w : World marking any_email) × Run w
unfolding claim_draft committed_case_number claimed_at_noon
filed_at_noon = (
  _,
  then_act
      (then_act
        (then_act (then_act claimed_at_noon.1 0 (create small_office "OW-2026-00007" valid)) 0
          (commit mine-id refl))
        0 (committed 0 (some "pin") mine-id refl))
      0 finish,
)

Reach-AtMostOne_example : AtMostOne 7 filed_at_noon.0.store.reports
Reach-AtMostOne_example =
    Reach-AtMostOne marking any_email marking-IsSound 7 refl mine-id filed_at_noon.1

Reach-IsKept_example : IsKept 7 claimed_at_noon.0.store
Reach-IsKept_example =
    Reach-IsKept marking any_email marking-IsSound 7 refl mine-id claimed_at_noon.1

Reach-AllTell_example : AllTell marking 7 filed_at_noon.0.store filed_at_noon.0.store.keys.result
Reach-AllTell_example =
    Reach-AllTell marking any_email marking-IsSound 7 refl mine-id filed_at_noon.1

draft-IsBack_example :
    (w : World marking any_email) × Reach marking any_email claimed_at_noon.0 w
    × IsBack marking any_email marking-IsSound 7 w
unfolding claimed_at_noon
draft-IsBack_example =
    draft-IsBack marking any_email marking-IsSound 7 refl mine-id claimed_at_noon.1 refl refl
