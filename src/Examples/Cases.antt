-- ===== src/Examples/Cases.antt =====
-- The case routes on the office of the tests.
use open_whistle.Base.{ℕ, String, ◌≡◌, refl, ◌≢◌, ◌↔◌, ◌⊎◌, Bool, true, none, some, [], ◌∷◌, arith}
use open_whistle.Base.Outcome.{ok, http}
use open_whistle.Models.{
  Report, DeletionRequest, CaseLink, Db, AuditAction, log, get_report, is_privileged,
}
use open_whistle.Access.{can_access_report, get_authorized_report}
use open_whistle.Access.Gates.{MayOpen, get_authorized_report_iff}
use open_whistle.Makers.{contains, makers, one_made_the_other}
use open_whistle.Makers.Ancestry.{maker, one_made_the_other_iff}
use open_whistle.Cases.{store, assign, reveal_identity}
use open_whistle.Cases.Reveal.{IsRecorded, reveal_identity-IsRecorded}
use open_whistle.Cases.Routes.{CaseRequest, IsOneStep, CaseRequest-IsOneStep}
use open_whistle.Cases.Deletion.{
  Redis, confirm_deletion, confirm_delete, end_status_sessions, forget_case,
}
use open_whistle.Cases.FourEyes.{IsErased, confirm_delete-four_eyes, confirm_delete-IsErased}
use open_whistle.Cases.Links.{link_report, unlink_report, link_cases, unlink_cases, normalize_ids}
use open_whistle.Cases.Links.Pairs.{IsTidy, link_report-IsTidy}
use open_whistle.Examples.{
  settings, alice, bob, first_case, second_case, request, office, redis, glass,
}

abbrev erased_office : Db × Redis
erased_office = (
  confirm_deletion office first_case request bob,
  forget_case "OW-2026-00001" (end_status_sessions (7 ∷ []) redis),
)

bob_confirms : confirm_delete settings office redis bob 7 ≡ ok erased_office
unfolding confirm_delete open_whistle.Makers.created_by
bob_confirms = refl

alice_cannot : confirm_delete settings office redis alice 7 ≡ http 409
unfolding confirm_delete open_whistle.Makers.created_by
alice_cannot = refl

confirm_delete-four_eyes_example :
    (r : Report) × (q : DeletionRequest) × (get_report office 7 ≡ some r)
    × (r.deletion_request ≡ some q)
    × (is_privileged bob.role ≡ true)
    × (can_access_report settings bob r ≡ true)
    × ((a : ℕ)
        → q.requested_by_id ≡ some a
        → (a ≢ 2) × ((n : ℕ) → (maker office n 2 ≢ some a) × (maker office n a ≢ some 2)))
confirm_delete-four_eyes_example =
    confirm_delete-four_eyes settings office redis bob 7 erased_office bob_confirms

confirm_delete-IsErased_example :
    (r : Report) × (get_report office 7 ≡ some r)
    × IsErased r bob office erased_office.0 erased_office.1
confirm_delete-IsErased_example =
    confirm_delete-IsErased settings office redis bob 7 erased_office bob_confirms

abbrev assigned_case : Report
assigned_case = record second_case { assigned_to_id = some 3 }

abbrev assigned_office : Db
assigned_office =
    log bob AuditAction.report_assigned (some 8) (("from", none) ∷ ("to", some "carol") ∷ []) none
      (store assigned_case office)

bob_assigns : assign settings office bob 8 (some (some 3)) ≡ ok assigned_office
unfolding assign
bob_assigns = refl

CaseRequest-IsOneStep_example : IsOneStep settings glass office bob 8 assigned_office
CaseRequest-IsOneStep_example =
    CaseRequest-IsOneStep settings glass office assigned_office bob 8
      (CaseRequest.assigns (some (some 3)) bob_assigns)

one_made_the_other_iff_example :
    (answer : Bool) × (one_made_the_other office (some 2) 3 ≡ ok answer)
    × ((answer ≡ true) ↔ ((n : ℕ) × ((maker office n 3 ≡ some 2) ⊎ (maker office n 2 ≡ some 3))))
one_made_the_other_iff_example = one_made_the_other_iff office 2 3

carols_makers : makers office 3 ≡ some (2 ∷ 3 ∷ [])
unfolding makers open_whistle.Makers.created_by
carols_makers = refl

get_authorized_report_iff_example :
    ((get_authorized_report settings office 8 bob ≡ ok second_case)
      ↔ ((get_report office 8 ≡ some second_case) × MayOpen settings bob second_case))
    × ((get_authorized_report settings office 8 bob ≡ http 404)
        ↔ ((x : Report) → get_report office 8 ≡ some x → ¬ MayOpen settings bob x))
get_authorized_report_iff_example = get_authorized_report_iff settings office 8 bob second_case

abbrev same_text : String → String
same_text text = text

abbrev linked_office : Db
linked_office =
    log bob AuditAction.report_link_added (some 8) (("linked_with", some "OW-2026-00001") ∷ []) none
      (link_cases 20 office second_case first_case bob)

bob_links : link_report settings same_text 20 office bob 8 " OW-2026-00001" ≡ ok linked_office
unfolding link_report
bob_links = refl

office-IsTidy : IsTidy office.links
unfolding IsTidy
office-IsTidy = tt

link_report-IsTidy_example : IsTidy linked_office.links
link_report-IsTidy_example =
    link_report-IsTidy settings same_text 20 office linked_office bob 8 " OW-2026-00001" bob_links
      office-IsTidy

abbrev the_link : CaseLink
the_link = record {
  id = 20;
  report_id_a = 7;
  report_id_b = 8;
  linked_by_id = some 2;
  linked_by_username = "bob";
}

linked_office-IsTidy : IsTidy linked_office.links
unfolding IsTidy log link_cases normalize_ids
linked_office-IsTidy = (omega arith, tt, tt)

abbrev unlinked_office : Db
unlinked_office =
    log bob AuditAction.report_link_removed (some 7) [] none (unlink_cases linked_office the_link)

bob_unlinks : unlink_report settings linked_office bob 7 20 ≡ ok unlinked_office
unfolding unlink_report link_cases
bob_unlinks = refl

abbrev revealed_office : Db
revealed_office =
    log bob AuditAction.identity_revealed (some 8)
      (("reason", some "Needed for the interview") ∷ []) none
      (log bob AuditAction.report_assigned (some 8) (("from", none) ∷ ("to", some "bob") ∷ []) none
        (store (record second_case { assigned_to_id = some 2 }) office))

bob_reveals :
    reveal_identity settings same_text office bob 8 "Needed for the interview"
    ≡ ok (revealed_office, true)
unfolding reveal_identity
bob_reveals = refl

reveal_identity-IsRecorded_example : IsRecorded settings office bob 8 revealed_office true
reveal_identity-IsRecorded_example =
    reveal_identity-IsRecorded settings same_text office revealed_office bob 8
      "Needed for the interview" true bob_reveals
