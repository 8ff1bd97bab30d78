-- ===== src/Examples/Reporters.antt =====
-- A reporter's draft, its final submit that dies, and a case that is opened again.
use open_whistle.Base.{String, ◌≡◌, refl, inl, Bool, true, false, none, some, [], ◌∷◌}
use Prim.Native.String.{[], ◌∷◌}
use open_whistle.Wizard.{
  Draft, empty_draft, Instance, Form, Upload, post, final_submission, Submission,
}
use open_whistle.Wizard.Filled.{Posts, fresh, then_post, IsComplete, Posts-IsComplete}
use open_whistle.Wizard.Anonymous.{NamesNobody, Posts-NamesNobody}
use open_whistle.Wizard.Filed.{IsValid, final_submission-IsValid}

abbrev pub small_office : Instance
small_office = record {
  submission_mode_enabled = true;
  notify_email_enabled = false;
  tenant = record { scoped = false; org_id = none };
  locations = [];
  categories = "fraud" ∷ [];
}

abbrev blank : Form
blank = record {
  action = "next";
  step = 1;
  submission_mode = "";
  confidential_name = "";
  confidential_contact = "";
  secure_email = "";
  location_id = none;
  category = "";
  description = "";
  files = Upload.read [] true;
}

abbrev pub any_email : String → Bool
any_email address = true

abbrev pub chosen : Draft
chosen = record empty_draft { submission_mode = some "anonymous"; step = some 3 }

abbrev pub categorised : Draft
categorised = record chosen { category = some "fraud"; step = some 4 }

abbrev pub described : Draft
described = record categorised { description = some "Bribes were paid."; step = some 5 }

abbrev pub reviewed : Draft
reviewed = record described { step = some 6 }

choosing :
    post any_email small_office (record blank { submission_mode = "anonymous" }) empty_draft
    ≡ some chosen
unfolding post
choosing = refl

categorising :
    post any_email small_office (record blank { step = 3; category = "fraud" }) chosen
    ≡ some categorised
unfolding post
categorising = refl

describing :
    post any_email small_office
      (record blank { step = 4; description = " Bribes were paid. " })
      categorised
    ≡ some described
unfolding post
describing = refl

attaching : post any_email small_office (record blank { step = 5 }) described ≡ some reviewed
unfolding post
attaching = refl

a_draft : Posts any_email reviewed
a_draft =
    then_post
      (then_post
        (then_post
          (then_post fresh small_office (record blank { submission_mode = "anonymous" }) choosing)
          small_office (record blank { step = 3; category = "fraud" }) categorising)
        small_office (record blank { step = 4; description = " Bribes were paid. " }) describing)
      small_office (record blank { step = 5 }) attaching

Posts-IsComplete_example : IsComplete reviewed
Posts-IsComplete_example = Posts-IsComplete a_draft refl

Posts-NamesNobody_example : NamesNobody reviewed
Posts-NamesNobody_example = Posts-NamesNobody a_draft refl

abbrev filed : Submission
filed = record {
  category = "fraud";
  description = "Bribes were paid.";
  is_confidential = false;
  location_id = none;
  confidential_name_enc = none;
  confidential_contact_enc = none;
  secure_email_enc = none;
  files = [];
  org_id = none;
}

filing : final_submission (λ text. text) small_office reviewed ≡ inl filed
unfolding final_submission
filing = refl

final_submission-IsValid_example : IsValid small_office filed
final_submission-IsValid_example =
    final_submission-IsValid (λ text. text) small_office reviewed filed filing
