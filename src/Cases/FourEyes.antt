-- ===== src/Cases/FourEyes.antt =====
-- What a confirmed deletion needed, and what it leaves.
use open_whistle.Base.{
  ℕ, String, ◌≡◌, refl, ◌≢◌, inl, inr, Bool, true, false, not, ◌||◌, Option, none, some, List, [],
  ◌∷◌, ◌++◌, arith, ◌==◌, opt_eq, Bool-cases, keep, find, any, All, All-of_keep, keep-append,
}
use open_whistle.Base.Outcome.{ok, demand, present, >>=-eq-ok, demand-eq-ok, present-eq-ok}
use text.Mathlib.TextEquality.{eq_iff}
use text.Mathlib.Text.{◌==◌ as str_eq}
use open_whistle.Models.{
  AuditLog, AuditAction, CaseLink, log, User, Report, DeletionRequest, Db, Settings, is_privileged,
  get_report,
}
use open_whistle.Access.{get_authorized_report, require_admin, can_access_report}
use open_whistle.Access.Gates.{get_authorized_report-ok, id-get_report}
use open_whistle.Makers.{one_made_the_other}
use open_whistle.Makers.Ancestry.{maker, one_made_the_other_iff}
use open_whistle.Cases.Deletion.{
  delete_report, without, Redis, end_status_sessions, forget_case, confirm_deletion, confirm_delete,
}

-- The facts that a successful confirmation rests on.
pub record Confirmed (s : Settings) (db : Db) (redis : Redis) (u : User) (id : ℕ) (res : Db × Redis)
    : Type 0 where
  pub report : Report
  pub request : DeletionRequest
  pub stored : get_report db id ≡ some report
  pub access : can_access_report s u report ≡ true
  pub privileged : is_privileged u.role ≡ true
  pub pending : report.deletion_request ≡ some request
  pub unrelated : one_made_the_other db request.requested_by_id u.id ≡ ok false
  pub another : opt_eq request.requested_by_id (some u.id) ≡ false
  pub result : res ≡ (
    confirm_deletion db report request u,
    forget_case report.case_number (end_status_sessions (id ∷ []) redis),
  )

unrelated-ok :
    (a : Option ℕ) (id : ℕ) (related : Bool)
    → demand (not (opt_eq a (some id) || related)) 409 ≡ ok tt
    → (opt_eq a (some id) ≡ false) × (related ≡ false)
unrelated-ok a id related h = ground arith

confirm_delete-ok :
    (s : Settings) (db : Db) (redis : Redis) (u : User) (id : ℕ) (res : Db × Redis)
    → confirm_delete s db redis u id ≡ ok res
    → Confirmed s db redis u id res
unfolding confirm_delete require_admin
confirm_delete-ok s db redis u id res h =
    let (c, admin, h₁) = >>=-eq-ok (demand (is_privileged u.role) 403) _ h in
    let (r, found, h₂) = >>=-eq-ok (get_authorized_report s db id u) _ h₁ in
    let (stored, access) = get_authorized_report-ok s db id u r found in
    let (q, pending, h₃) = >>=-eq-ok (present r.deletion_request 400) _ h₂ in
    let (related, made, h₄) = >>=-eq-ok (one_made_the_other db q.requested_by_id u.id) _ h₃ in
    let (t, free, h₅) =
      >>=-eq-ok (demand (not (opt_eq q.requested_by_id (some u.id) || related)) 409) _ h₄ in
    let (another, unrelated) = unrelated-ok q.requested_by_id u.id related free in
    record {
      report = r;
      request = q;
      stored = stored;
      access = access;
      privileged = demand-eq-ok (is_privileged u.role) 403 admin;
      pending = present-eq-ok r.deletion_request 400 pending;
      unrelated = rw made (rw unrelated);
      another = another;
      result = cc;
    }

strangers :
    (db : Db) (a b : ℕ)
    → one_made_the_other db (some a) b ≡ ok false
    → (n : ℕ) → (maker db n b ≢ some a) × (maker db n a ≢ some b)
strangers db a b h n =
    let (answer, asked, i) = one_made_the_other_iff db a b in
    let no : answer ≡ false = cc in (λ up. cc (i.1 (n, inl up)), λ up. cc (i.1 (n, inr up)))

-- A confirmed deletion had a pending request, and its confirmer is an admin or a superadmin with
-- access to the case. If the request names its account, that is not the confirmer, did not make
-- the confirmer's account and was not made by it, directly or through others.
pub confirm_delete-four_eyes :
    (s : Settings) (db : Db) (redis : Redis) (u : User) (id : ℕ) (res : Db × Redis)
    → confirm_delete s db redis u id ≡ ok res
    → (r : Report) × (q : DeletionRequest) × (get_report db id ≡ some r)
      × (r.deletion_request ≡ some q)
      × (is_privileged u.role ≡ true)
      × (can_access_report s u r ≡ true)
      × ((a : ℕ)
          → q.requested_by_id ≡ some a
          → (a ≢ u.id) × ((n : ℕ) → (maker db n u.id ≢ some a) × (maker db n a ≢ some u.id)))
confirm_delete-four_eyes s db redis u id res h =
    let c = confirm_delete-ok s db redis u id res h in
    (
      c.report,
      c.request,
      c.stored,
      c.pending,
      c.privileged,
      c.access,
      λ a e. (ground (arith, c.another), strangers db a u.id (rw (← e) c.unrelated)),
    )

keep_absent :
    (p : Report → Bool) (id : ℕ) (xs : List Report)
    → ((r : Report) → p r ≡ true → (r.id == id) ≡ false)
    → find (λ r. r.id == id) (keep p xs) ≡ none
keep_absent p id [] f = refl
keep_absent p id (x ∷ xs) f = elim (Bool-cases (p x)) [
  | inl e ↦ rw (e, f x e) (keep_absent p id xs f)
  | inr e ↦ rw e (keep_absent p id xs f)
]

-- No report under the identifier and no link with it, no session that opens it, its case number in
-- no queue and on no reminder, and the confirmation at the end of the audit log.
pub record IsErased (r : Report) (u : User) (db : Db) (after : Db) (redis : Redis) : Type 0 where
  pub gone : get_report after r.id ≡ none
  pub unlinked : All (λ (l : CaseLink). (l.report_id_a ≢ r.id) × (l.report_id_b ≢ r.id)) after.links
  pub signed_out : All (λ (e : String × ℕ). e.1 ≢ r.id) redis.status_sessions
  pub unqueued :
      All (λ c. c ≢ r.case_number) redis.new_reports
      × All (λ c. c ≢ r.case_number) redis.new_messages
  pub unmarked :
      All (λ c. c ≢ r.case_number) redis.ack_reminders
      × All (λ c. c ≢ r.case_number) redis.feedback_reminders
  pub recorded :
      (e : AuditLog) × (after.audit
        ≡ keep (λ x. not (opt_eq x.report_id (some r.id))) db.audit ++ e ∷ [])
      × (e.action ≡ AuditAction.report_delete_confirmed)
      × (e.admin_id ≡ some u.id)
      × (e.report_id ≡ none)
      × (e.org_id ≡ r.org_id)

without-All : (c : String) (xs : List String) → All (λ x. x ≢ c) (without c xs)
without-All c xs =
    All-of_keep (λ x. x ≢ c) (λ x. not (str_eq x c)) (λ x h e. ground (arith, eq_iff x c)) xs

erased :
    (db : Db) (redis : Redis) (u : User) (r : Report) (q : DeletionRequest)
    → IsErased r u db
        (confirm_deletion db r q u)
        (forget_case r.case_number (end_status_sessions (r.id ∷ []) redis))
unfolding confirm_deletion delete_report log forget_case end_status_sessions get_report
erased db redis u r q = record {
  gone = keep_absent (λ x. not (x.id == r.id)) r.id db.reports (λ x h. ground arith);
  unlinked =
      All-of_keep (λ (l : CaseLink). (l.report_id_a ≢ r.id) × (l.report_id_b ≢ r.id))
        (λ l. not ((l.report_id_a == r.id) || (l.report_id_b == r.id)))
        (λ l h. (ground arith, ground arith)) db.links;
  signed_out =
      All-of_keep (λ (e : String × ℕ). e.1 ≢ r.id) (λ e. not (any (λ id. e.1 == id) (r.id ∷ [])))
        (λ e h. ground arith) redis.status_sessions;
  unqueued =
      (without-All r.case_number redis.new_reports, without-All r.case_number redis.new_messages);
  unmarked = (
    without-All r.case_number redis.ack_reminders,
    without-All r.case_number redis.feedback_reminders,
  );
  recorded = (
    _,
    keep-append (λ (x : AuditLog). not (opt_eq x.report_id (some r.id))) db.audit (_ ∷ []),
    refl,
    refl,
    refl,
    refl,
  );
}

-- A confirmed deletion leaves no report under the identifier, no link with it, no session that
-- opens it, its case number in no queue and on no reminder, and ends the audit log with the entry
-- of the confirmation.
pub confirm_delete-IsErased :
    (s : Settings) (db : Db) (redis : Redis) (u : User) (id : ℕ) (res : Db × Redis)
    → confirm_delete s db redis u id ≡ ok res
    → (r : Report) × (get_report db id ≡ some r) × IsErased r u db res.0 res.1
confirm_delete-IsErased s db redis u id res h =
    let c = confirm_delete-ok s db redis u id res h in
    let same = id-get_report db id c.report c.stored in
    (c.report, c.stored, rw (c.result, ← same) (erased db redis u c.report c.request))
