-- ===== src/Cases/Routes.antt =====
-- What the case routes do to the reports: one operation on one report that the caller may access.
use open_whistle.Cases.{
  strip, is_empty, acknowledge, parse_status, update_status, admin_reply, choose_assignee, assign,
  note,
}
use open_whistle.Base.{ℕ, String, ◌≡◌, refl, true, not, Option, some, arith, opt_eq, is_some}
use open_whistle.Base.Outcome.{ok, demand, present, >>=-eq-ok, demand-eq-ok}
use open_whistle.Calendar.{Datetime, IsValid}
use open_whistle.Models.{User, Report, Db, Settings, get_report, save_report, log, is_privileged}
use open_whistle.Access.{get_authorized_report, can_access_report, require_admin}
use open_whistle.Access.Gates.{get_authorized_report-ok}
use open_whistle.Reports.{Vault, is_valid_transition, add_admin_message, acknowledge_report}
use open_whistle.Reports.Lifecycle.{Step}
use open_whistle.Cases.Deletion.{request_delete, cancel_delete}

module _ (s : Settings) (v : Vault) where
  -- A request on a case that succeeds, confirming a deletion aside.
  pub data CaseRequest (db : Db) (u : User) (id : ℕ) (db' : Db) : Type 0 where
    acknowledges : (now : Datetime) → acknowledge s now db u id ≡ ok db' → CaseRequest db u id db'
    updates :
        (now : Datetime) (text : String)
        → update_status s now db u id text ≡ ok db'
        → CaseRequest db u id db'
    replies :
        (now : Datetime) (content : String)
        → IsValid now
        → admin_reply s v now db u id content ≡ ok db'
        → CaseRequest db u id db'
    assigns :
        (chosen : Option (Option ℕ)) → assign s db u id chosen ≡ ok db' → CaseRequest db u id db'
    notes : (content : String) → note s v db u id content ≡ ok db' → CaseRequest db u id db'
    requests_deletion : request_delete s db u id ≡ ok db' → CaseRequest db u id db'
    cancels_deletion : cancel_delete s db u id ≡ ok db' → CaseRequest db u id db'

  -- One step of the stored report, which the caller may access, and no other report changes.
  pub record IsOneStep (db : Db) (u : User) (id : ℕ) (db' : Db) : Type 0 where
    pub before : Report
    pub after : Report
    pub stored : get_report db id ≡ some before
    pub access : can_access_report s u before ≡ true
    pub step : Step v before after
    pub saved : db'.reports ≡ save_report after db.reports

  one_step :
      (db db' : Db) (u : User) (id : ℕ) (r r' : Report)
      → get_authorized_report s db id u ≡ ok r
      → Step v r r'
      → db'.reports ≡ save_report r' db.reports
      → IsOneStep db u id db'
  one_step db db' u id r r' found step saved =
      let (stored, access) = get_authorized_report-ok s db id u r found in
      record {
        before = r;
        after = r';
        stored = stored;
        access = access;
        step = step;
        saved = saved;
      }

  -- A request that acknowledges a case, changes its status, replies at a valid time, assigns,
  -- notes, or asks for its deletion or takes that back, and succeeds, is one step of the life
  -- cycle of the stored report, which the caller may access, and saves that report alone.
  pub CaseRequest-IsOneStep :
      (db db' : Db) (u : User) (id : ℕ) → CaseRequest db u id db' → IsOneStep db u id db'
  unfolding acknowledge update_status admin_reply assign note request_delete cancel_delete log
      require_admin
  CaseRequest-IsOneStep db db' u id (acknowledges now h) =
      let (r, found, h₁) = >>=-eq-ok (get_authorized_report s db id u) _ h in
      let (r', done_so, h₂) = >>=-eq-ok (acknowledge_report now r) _ h₁ in
      one_step db db' u id r r' found (Step.acknowledge now done_so) (ground arith)
  CaseRequest-IsOneStep db db' u id (updates now text h) =
      let (r, found, h₁) = >>=-eq-ok (get_authorized_report s db id u) _ h in
      let (new, _, h₂) = >>=-eq-ok (present (parse_status text) 400) _ h₁ in
      let (_, valid, h₃) = >>=-eq-ok (demand (is_valid_transition r.status new) 400) _ h₂ in
      one_step db db' u id r _ found
        (Step.set_status now new (demand-eq-ok (is_valid_transition r.status new) 400 valid) refl)
        (ground arith)
  CaseRequest-IsOneStep db db' u id (replies now content v_now h) =
      let (r, found, h₁) = >>=-eq-ok (get_authorized_report s db id u) _ h in
      let (_, _, h₂) = >>=-eq-ok (demand (not (is_empty (strip content))) 422) _ h₁ in
      let (r', sent, h₃) = >>=-eq-ok (add_admin_message v now r (strip content)) _ h₂ in
      one_step db db' u id r r' found (Step.reply now (strip content) v_now sent) (ground arith)
  CaseRequest-IsOneStep db db' u id (assigns chosen h) =
      let (_, _, h₁) = >>=-eq-ok (demand (is_privileged u.role) 403) _ h in
      let (r, found, h₂) = >>=-eq-ok (get_authorized_report s db id u) _ h₁ in
      let (assignee, _, h₃) = >>=-eq-ok (choose_assignee s db r chosen) _ h₂ in
      one_step db db' u id r _ found (Step.assign assignee refl) (ground arith)
  CaseRequest-IsOneStep db db' u id (notes content h) =
      let (r, found, h₁) = >>=-eq-ok (get_authorized_report s db id u) _ h in
      let (_, _, h₂) = >>=-eq-ok (demand (not (is_empty (strip content))) 422) _ h₁ in
      one_step db db' u id r _ found (Step.note u (strip content) refl) (ground arith)
  CaseRequest-IsOneStep db db' u id (requests_deletion h) =
      let (_, _, h₁) = >>=-eq-ok (demand (is_privileged u.role) 403) _ h in
      let (r, found, h₂) = >>=-eq-ok (get_authorized_report s db id u) _ h₁ in
      let (_, _, h₃) = >>=-eq-ok (demand (not (is_some r.deletion_request)) 409) _ h₂ in
      one_step db db' u id r _ found (Step.request u refl) (ground arith)
  CaseRequest-IsOneStep db db' u id (cancels_deletion h) =
      let (_, _, h₁) = >>=-eq-ok (demand (is_privileged u.role) 403) _ h in
      let (r, found, h₂) = >>=-eq-ok (get_authorized_report s db id u) _ h₁ in
      let (q, _, h₃) = >>=-eq-ok (present r.deletion_request 400) _ h₂ in
      let (_, _, h₄) = >>=-eq-ok (demand (opt_eq q.requested_by_id (some u.id)) 403) _ h₃ in
      one_step db db' u id r _ found (Step.cancel refl) (ground arith)
