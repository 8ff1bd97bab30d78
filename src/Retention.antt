-- ===== src/Retention.antt =====
-- app/services/retention.py: the daily deletion of closed cases. The files of the deleted cases in
-- the object store, the connections and the log lines are not modelled.
pub mod Erasure
use mathlib.Core.Option
use open_whistle.Base.{
  ℕ, zero, suc, ◌+◌, ◌-◌, ◌*◌, ◌/◌, ◌%◌, ◌≤◌, ◌<◌, min, max, String, ◌≡◌, refl, sym, ap, ◌∙◌,
  ◌≡⟨◌⟩◌, ◌∎, ◌≢◌, ◌↔◌, ◌⊎◌, inl, inr, Bool, true, false, not, ◌&&◌, ◌||◌, Option, none, some, List,
  [], ◌∷◌, ◌++◌, map, arith, ltb, leb, ◌==◌, if◌then◌else◌, opt_eq, is_some, ltb→lt, lt→ltb, leb→le,
  le→leb, ==→eq, ==-refl, opt_eq→eq, opt_eq_refl, Bool-cases, Option-cases, length, take, drop,
  keep, find, any, all, length-append, length-keep-le, find_sound, All, All-append, All-keep,
}
use open_whistle.Base.Int.{
  ℤ, pos, negsuc, pos_part, neg_part, sub_ℕ, ◌+ℤ◌, ◌≤ℤ◌, ltb_ℤ, leb_ℤ, floor_div, floor_mod,
}
use open_whistle.Base.Outcome.{
  Outcome, ok, http, raised, ◌>>=◌, ◌>>◌, demand, present, >>=-eq-ok, demand-eq-ok, present-eq-ok,
}
use open_whistle.Calendar.{Datetime, ltb_time, sub_days}
use open_whistle.Models.{Report, Status, AuditAction, Db, status_eq, log_system}
use open_whistle.Deadlines.{add_months}
use open_whistle.Cases.Deletion.{Redis, delete_report, end_status_sessions, forget_case}

-- -n
abbrev pub minus : ℕ → ℤ
minus zero = pos 0
minus (suc n) = negsuc n

unfoldable pub cutoff : Datetime → ℕ → Outcome Datetime
unfolding add_months sub_days
cutoff now days = do years ← add_months now (minus (12 * (days / 365))); sub_days years (days % 365)

-- The condition of the query.
abbrev pub is_past : Datetime → Report → Bool
is_past closed_before r = elim r.closed_at [
  | none ↦ false
  | some at ↦ status_eq r.status Status.closed && ltb_time at closed_before
]

-- `text` prints the closing time and the days into the entry.
module _ (text : Datetime → String) (printed : ℕ → String) (retention_days : ℕ) where
  abbrev pub auto_detail : Report → List (String × Option String)
  auto_detail r =
      ("case_number", some r.case_number)
      ∷ ("closed_at", Option.map text r.closed_at)
      ∷ ("retention_days", some (printed retention_days))
      ∷ ("reason", some "GDPR Art. 5(1)(e) / HinSchG §11 — retention period exceeded")
      ∷ []

  -- The loop over the reports found.
  unfoldable pub delete_all : List Report → Db → Db
  unfolding log_system delete_report
  delete_all [] db = db
  delete_all (r ∷ rs) db =
      delete_all rs (
        delete_report r.id (log_system AuditAction.report_auto_deleted (auto_detail r) r.org_id db))

  unfoldable pub forget_all : List Report → Redis → Redis
  unfolding forget_case
  forget_all [] redis = redis
  forget_all (r ∷ rs) redis = forget_all rs (forget_case r.case_number redis)

  -- `lock` is what Redis answers to SET NX: no answer, or whether the lock was free. An exception
  -- leaves the database as it was.
  unfoldable pub run_retention_cleanup : Bool → Option Bool → Datetime → Db → Redis → Db × Redis
  unfolding cutoff delete_all forget_all end_status_sessions
  run_retention_cleanup enabled lock now db redis =
      let run : Db × Redis = elim (cutoff now retention_days) [
        | raised ↦ (db, redis)
        | http n ↦ (db, redis)
        | ok closed_before ↦
            let found = keep (is_past closed_before) db.reports in
            let after = delete_all found db in
            elim lock [
              | none ↦ (after, redis)
              | some free ↦
                  (after, forget_all found (end_status_sessions (map (λ r. r.id) found) redis))
            ]
      ] in
      if not enabled
      then (db, redis)
      else elim lock [ none ↦ run | some free ↦ if free then run else (db, redis) ]
