-- ===== src/Reports/Monotone.antt =====
-- What the operations on a report change, and which way its status moves.
use open_whistle.Base.{◌≡◌, ◌∙◌, true, arith, is_some}
use open_whistle.Models.{Report}
use open_whistle.Reports.{
  Vault, add_whistleblower_message, add_admin_message, acknowledge_report, update_report_status,
  assign_report, add_note, request_deletion, cancel_deletion_request,
}
use open_whistle.Reports.Lifecycle.{
  Step, Reach, acknowledge, set_status, reply, write, assign, note, request, cancel, here, next,
}

-- The first acknowledgement and the first feedback stay, and with the acknowledgement the
-- deadline; the case number, the receipt and the organisation do not change.
pub record Keeps (r r' : Report) : Type 0 where
  pub acknowledged :
      is_some r.acknowledged_at ≡ true
      → (r'.acknowledged_at ≡ r.acknowledged_at) × (r'.feedback_due_at ≡ r.feedback_due_at)
  pub feedback : is_some r.feedback_sent_at ≡ true → r'.feedback_sent_at ≡ r.feedback_sent_at
  pub case_number : r'.case_number ≡ r.case_number
  pub submitted : r'.submitted_at ≡ r.submitted_at
  pub org : r'.org_id ≡ r.org_id

Keeps-trans : (r s t : Report) → Keeps r s → Keeps s t → Keeps r t
Keeps-trans r s t k l = record {
  acknowledged = λ h.
      let (a, d) = k.acknowledged h in let (a', d') = l.acknowledged (rw a h) in (a' ∙ a, d' ∙ d);
  feedback = λ h. let f = k.feedback h in l.feedback (rw f h) ∙ f;
  case_number = l.case_number ∙ k.case_number;
  submitted = l.submitted ∙ k.submitted;
  org = l.org ∙ k.org;
}

module _ (v : Vault) where
  Step-Keeps : (r r' : Report) → Step v r r' → Keeps r r'
  Step-Keeps r r' (acknowledge now e) = unfold acknowledge_report in ground arith
  Step-Keeps r r' (set_status now new _ e) = rw e (unfold update_report_status in ground arith)
  Step-Keeps r r' (reply now content _ e) = unfold add_admin_message in ground arith
  Step-Keeps r r' (write now content _ e) = unfold add_whistleblower_message in ground arith
  Step-Keeps r r' (assign admin e) = rw e (unfold assign_report in ground arith)
  Step-Keeps r r' (note author content e) = rw e (unfold add_note in ground arith)
  Step-Keeps r r' (request requester e) = rw e (unfold request_deletion in ground arith)
  Step-Keeps r r' (cancel e) = rw e (unfold cancel_deletion_request in ground arith)

  -- Through any operations, an acknowledgement once given and its feedback deadline, the time of
  -- the first feedback, the case number, the receipt and the organisation stay.
  pub Reach-Keeps : {r r' : Report} → Reach v r r' → Keeps r r'
  Reach-Keeps {r} here = ground arith
  Reach-Keeps {r} (next {s} {t} path step) =
      Keeps-trans r s t (Reach-Keeps path) (Step-Keeps s t step)
