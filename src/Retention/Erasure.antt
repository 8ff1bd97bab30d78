-- ===== src/Retention/Erasure.antt =====
-- What a run deletes, and what it leaves and records.
use open_whistle.Base.{inl, inr, ◌<◌, ◌↔◌, Option-cases, some_inj}
use open_whistle.Calendar.{stamp}
use open_whistle.Models.{Status}
use open_whistle.Base.{
  append-nil, append_assoc, keep-keep, keep-true, keep-append, ℕ, String, ◌≡◌, refl, sym, ap, ◌∙◌,
  ◌≢◌, Bool, true, false, not, ◌&&◌, Option, none, some, List, [], ◌∷◌, ◌++◌, map, arith, ◌==◌,
  opt_eq, keep, any,
}
use open_whistle.Base.Outcome.{ok}
use open_whistle.Calendar.{Datetime}
use open_whistle.Models.{Report, AuditLog, AuditAction, Db, log_system}
use open_whistle.Cases.Deletion.{Redis, delete_report}
use open_whistle.Retention.{cutoff, is_past, auto_detail, delete_all, run_retention_cleanup}

-- A case that is closed, and was before the cutoff.
pub record IsExpired (closed_before : Datetime) (r : Report) : Type 0 where
  pub closed : r.status ≡ Status.closed
  pub at : Datetime
  pub closed_at : r.closed_at ≡ some at
  pub before : stamp at < stamp closed_before

is_past_iff :
    (closed_before : Datetime) (r : Report)
    → (is_past closed_before r ≡ true) ↔ IsExpired closed_before r
is_past_iff closed_before r = elim (Option-cases r.closed_at) [
  | inl e ↦ (λ h. absurd (ground (arith, e, h)), λ x. absurd (ground (arith, e, x.closed_at)))
  | inr (at, e) ↦ (
    λ h. record {
      closed = ground (arith, e, h);
      at = at;
      closed_at = e;
      before = ground (arith, e, h);
    },
    λ x.
        let same : at ≡ x.at = some_inj (sym e ∙ x.closed_at) in
        ground (arith, e, same, x.closed, x.before),
  )
]

module _ (text : Datetime → String) (printed : ℕ → String) (retention_days : ℕ) where
  -- Among the reports, one that is expired.
  abbrev pub is_among : List Report → ℕ → Bool
  is_among expired id = any (λ e. id == e.id) expired

  delete_all-reports :
      (expired : List Report) (db : Db)
      → (delete_all text printed retention_days expired db).reports
        ≡ keep (λ r. not (is_among expired r.id)) db.reports
  unfolding delete_all delete_report log_system
  delete_all-reports [] db = sym (keep-true (λ (r : Report). true) (λ r. refl) db.reports)
  delete_all-reports (x ∷ xs) db =
      delete_all-reports xs _
      ∙ keep-keep (λ (r : Report). not (is_among xs r.id)) (λ r. not (r.id == x.id))
          (λ r. not (is_among (x ∷ xs) r.id)) (λ r. ground arith) db.reports

  -- The entry of a deleted report.
  abbrev pub auto_entry : Report → AuditLog
  auto_entry r = record {
    admin_id = none;
    admin_username = "system";
    action = AuditAction.report_auto_deleted;
    report_id = none;
    org_id = r.org_id;
    detail = auto_detail text printed retention_days r;
  }

  abbrev about : List Report → AuditLog → Bool
  about expired e = elim e.report_id [ none ↦ false | some id ↦ is_among expired id ]

  about-step :
      (x : Report) (xs : List Report) (e : AuditLog)
      → not (about (x ∷ xs) e) ≡ (not (opt_eq e.report_id (some x.id)) && not (about xs e))
  about-step x xs e = ground arith

  about-entry : (xs : List Report) (x : Report) → not (about xs (auto_entry x)) ≡ true
  about-entry xs x = refl

  delete_all-audit :
      (expired : List Report) (db : Db)
      → (delete_all text printed retention_days expired db).audit
        ≡ keep (λ e. not (about expired e)) db.audit ++ map auto_entry expired
  unfolding delete_all delete_report log_system
  delete_all-audit [] db = sym (
      ap (λ kept. kept ++ []) (keep-true (λ e. not (about [] e)) (λ e. ground arith) db.audit)
      ∙ append-nil db.audit)
  delete_all-audit (x ∷ xs) db =
      let entry = auto_entry x in
      let first =
        keep (λ (e : AuditLog). not (opt_eq e.report_id (some x.id))) (db.audit ++ entry ∷ []) in
      let both =
        keep-keep (λ (e : AuditLog). not (about xs e)) (λ e. not (opt_eq e.report_id (some x.id)))
          (λ e. not (about (x ∷ xs) e)) (about-step x xs) (db.audit ++ entry ∷ []) in
      let split = keep-append (λ (e : AuditLog). not (about (x ∷ xs) e)) db.audit (entry ∷ []) in
      delete_all-audit xs _
      ∙ ap (λ kept. kept ++ map auto_entry xs) (both ∙ split)
      ∙ append_assoc (keep (λ (e : AuditLog). not (about (x ∷ xs) e)) db.audit) (entry ∷ [])
          (map auto_entry xs)

  delete_all-users :
      (expired : List Report) (db : Db)
      → (delete_all text printed retention_days expired db).users ≡ db.users
  unfolding delete_all delete_report log_system
  delete_all-users [] db = refl
  delete_all-users (x ∷ xs) db = delete_all-users xs _

  -- A report survives exactly if no expired one has its identifier. The log gains an entry of the
  -- system for each expired report and loses only the entries about one.
  pub record IsCleaned (expired : List Report) (db after : Db) : Type 0 where
    pub reports : after.reports ≡ keep (λ r. not (is_among expired r.id)) db.reports
    pub audit : after.audit ≡ keep (λ e. not (about expired e)) db.audit ++ map auto_entry expired
    pub users : after.users ≡ db.users

  run-db :
      (lock : Option Bool) (now closed_before : Datetime) (db : Db) (redis : Redis)
      → cutoff now retention_days ≡ ok closed_before
      → lock ≢ some false
      → (run_retention_cleanup text printed retention_days true lock now db redis).0
        ≡ delete_all text printed retention_days (keep (is_past closed_before) db.reports) db
  unfolding run_retention_cleanup
  run-db none now closed_before db redis due free = rw due refl
  run-db (some true) now closed_before db redis due free = rw due refl
  run-db (some false) now closed_before db redis due free = absurd (free refl)

  -- An enabled run whose cutoff exists, and that finds its lock free or gets no answer for it,
  -- deletes from the reports exactly those with the identifier of an expired case, adds one entry
  -- of the system for each such case to the audit log, takes only entries about them from it, and
  -- leaves the accounts. Expired is exactly a case whose status is closed and whose closing time
  -- is before the cutoff.
  pub run-IsCleaned :
      (lock : Option Bool) (now closed_before : Datetime) (db : Db) (redis : Redis)
      → cutoff now retention_days ≡ ok closed_before
      → lock ≢ some false
      → ((r : Report) → (is_past closed_before r ≡ true) ↔ IsExpired closed_before r)
        × IsCleaned
            (keep (is_past closed_before) db.reports)
            db
            (run_retention_cleanup text printed retention_days true lock now db redis).0
  run-IsCleaned lock now closed_before db redis due free =
      let expired = keep (is_past closed_before) db.reports in
      (
        is_past_iff closed_before,
        rw (run-db lock now closed_before db redis due free) (record {
          reports = delete_all-reports expired db;
          audit = delete_all-audit expired db;
          users = delete_all-users expired db;
        }),
      )
