-- ===== src/Cases/Reveal.antt =====
-- The reveal of a reporter's identity: who gets it, and what it leaves behind.
use open_whistle.Base.{
  ℕ, String, ◌≡◌, refl, inl, inr, Bool, true, not, ◌&&◌, Option, none, some, List, [], ◌∷◌, ◌++◌,
  if◌then◌else◌, is_some, Bool-cases,
}
use open_whistle.Base.Outcome.{ok, demand, >>=-eq-ok, demand-eq-ok}
use open_whistle.Models.{
  User, Report, AuditLog, AuditAction, Db, Settings, get_report, save_report, log,
}
use open_whistle.Access.{get_authorized_report, can_access_report, can_reveal_identity}
use open_whistle.Access.Gates.{get_authorized_report-ok}
use open_whistle.Reports.{assign_report}
use mathlib.Core.Path.{subst}
use open_whistle.Cases.{handled_case, audited_reveal, validated_reason, reveal_identity}

-- What a reveal that succeeds has done: the caller could open the case and see its identity, the
-- log ends with the caller's entry, and an identity that was shown belongs to a case with a handler.
pub record IsRecorded (s : Settings) (db : Db) (u : User) (id : ℕ) (db' : Db) (revealed : Bool)
    : Type 0 where
  pub report : Report
  pub stored : get_report db id ≡ some report
  pub access : can_access_report s u report ≡ true
  pub allowed : can_reveal_identity s u report ≡ true
  pub entry : AuditLog
  pub earlier : List AuditLog
  pub logged : db'.audit ≡ earlier ++ entry ∷ []
  pub by_caller : entry.admin_id ≡ some u.id
  pub about_it : entry.report_id ≡ some report.id
  pub action :
      entry.action ≡ (if revealed then AuditAction.identity_revealed else AuditAction.report_viewed)
  pub reports : db'.reports ≡ (
      if revealed && not (is_some report.assigned_to_id)
      then save_report (assign_report report (some u)) db.reports
      else db.reports)

-- The table of reports after a reveal.
handled_case-reports :
    (db : Db) (u : User) (r : Report)
    → (handled_case db u r).reports ≡ (
        if true && not (is_some r.assigned_to_id)
        then save_report (assign_report r (some u)) db.reports
        else db.reports)
unfolding handled_case log
handled_case-reports db u r = elim (Bool-cases (is_some r.assigned_to_id)) [
  | inl e ↦ rw e refl
  | inr e ↦ rw e refl
]

module _ (s : Settings) where
  audited_reveal-IsRecorded :
      (encrypt : String → String) (db : Db) (u : User) (id : ℕ) (r : Report)
      (reason : Option String)
      → get_report db id ≡ some r
      → can_access_report s u r ≡ true
      → can_reveal_identity s u r ≡ true
      → IsRecorded s db u id
          (audited_reveal encrypt db u r reason).0
          (audited_reveal encrypt db u r reason).1
  unfolding audited_reveal log
  audited_reveal-IsRecorded encrypt db u id r none stored access allowed = record {
    report = r;
    stored = stored;
    access = access;
    allowed = allowed;
    entry = _;
    earlier = db.audit;
    logged = refl;
    by_caller = refl;
    about_it = refl;
    action = refl;
    reports = refl;
  }
  audited_reveal-IsRecorded encrypt db u id r (some valid) stored access allowed = record {
    report = r;
    stored = stored;
    access = access;
    allowed = allowed;
    entry = _;
    earlier = (handled_case db u r).audit;
    logged = refl;
    by_caller = refl;
    about_it = refl;
    action = refl;
    reports = handled_case-reports db u r;
  }

  -- A reveal that succeeds found a case that its caller may open and whose identity the caller
  -- may see, and ends the audit log with an entry of the caller about the case: a reveal if the
  -- identity is shown, else a view. A case whose identity is shown goes to the caller if it had
  -- no assignee, and no other report changes.
  pub reveal_identity-IsRecorded :
      (encrypt : String → String) (db db' : Db) (u : User) (id : ℕ) (reason : String)
      (revealed : Bool)
      → reveal_identity s encrypt db u id reason ≡ ok (db', revealed)
      → IsRecorded s db u id db' revealed
  unfolding reveal_identity
  reveal_identity-IsRecorded encrypt db db' u id reason revealed h =
      let (r, found, h₁) = >>=-eq-ok (get_authorized_report s db id u) _ h in
      let (_, may, h₂) = >>=-eq-ok (demand (can_reveal_identity s u r) 403) _ h₁ in
      let (stored, access) = get_authorized_report-ok s db id u r found in
      let result = audited_reveal encrypt db u r (validated_reason reason) in
      let same : result ≡ (db', revealed) = cc in
      subst (λ (out : Db × Bool). IsRecorded s db u id out.0 out.1) same
        (audited_reveal-IsRecorded encrypt db u id r (validated_reason reason) stored access
          (demand-eq-ok (can_reveal_identity s u r) 403 may))
