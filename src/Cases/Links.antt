-- ===== src/Cases/Links.antt =====
-- Links between cases: app/services/report.py and the link routes of app/api/admin.py.
pub mod Pairs
use open_whistle.Base.{
  ℕ, String, not, ◌&&◌, ◌||◌, Option, none, some, List, [], ◌∷◌, ◌++◌, map, ltb, ◌==◌,
  if◌then◌else◌, is_some, keep, find,
}
use open_whistle.Base.Outcome.{Outcome, ok, ◌>>=◌, ◌>>◌, demand, present}
use text.Mathlib.Text.{◌==◌ as str_eq}
use open_whistle.Base.Text.{strip}
use open_whistle.Models.{User, Report, CaseLink, Db, Settings, AuditAction, log}
use open_whistle.Access.{get_authorized_report, can_access_report}

unfoldable pub normalize_ids : ℕ → ℕ → ℕ × ℕ
normalize_ids id_a id_b = if ltb id_a id_b then (id_a, id_b) else (id_b, id_a)

unfoldable pub get_link : Db → ℕ → Option CaseLink
get_link db link_id = find (λ l. l.id == link_id) db.links

unfoldable pub get_link_between : Db → ℕ → ℕ → Option CaseLink
unfolding normalize_ids
get_link_between db report_id_a report_id_b =
    let pair = normalize_ids report_id_a report_id_b in
    find (λ l. (l.report_id_a == pair.0) && (l.report_id_b == pair.1)) db.links

-- `link_id` is the fresh uuid4.
unfoldable pub link_cases : ℕ → Db → Report → Report → User → Db
unfolding normalize_ids
link_cases link_id db report_a report_b actor =
    let pair = normalize_ids report_a.id report_b.id in
    let link : CaseLink = record {
      id = link_id;
      report_id_a = pair.0;
      report_id_b = pair.1;
      linked_by_id = some actor.id;
      linked_by_username = actor.username;
    } in
    record db { links = db.links ++ link ∷ [] }

unfoldable pub unlink_cases : Db → CaseLink → Db
unlink_cases db link = record db { links = keep (λ l. not (l.id == link.id)) db.links }

-- The linked report of each link, seen from one side.
unfoldable pub get_linked_reports : Db → ℕ → List (ℕ × ℕ)
get_linked_reports db id =
    map (λ l. (l.report_id_b, l.id)) (keep (λ l. l.report_id_a == id) db.links)
    ++ map (λ l. (l.report_id_a, l.id)) (keep (λ l. l.report_id_b == id) db.links)

unfoldable pub get_report_by_case_number : Db → String → Option Report
get_report_by_case_number db case_number = find (λ r. str_eq r.case_number case_number) db.reports

module _ (s : Settings) where
  -- `upper` is Python's `str.upper`.
  unfoldable pub link_report : (String → String) → ℕ → Db → User → ℕ → String → Outcome Db
  unfolding get_authorized_report can_access_report get_report_by_case_number strip get_link_between
      link_cases log
  link_report upper link_id db current_user report_id case_number = do
    report ← get_authorized_report s db report_id current_user
    other ← present (get_report_by_case_number db (upper (strip case_number))) 404
    demand (can_access_report s current_user other) 404
    demand (not (other.id == report.id)) 400
    demand (not (is_some (get_link_between db report.id other.id))) 409
    ok (
        log current_user AuditAction.report_link_added (some report.id)
          (("linked_with", some other.case_number) ∷ []) none
          (link_cases link_id db report other current_user))

  unfoldable pub unlink_report : Db → User → ℕ → ℕ → Outcome Db
  unfolding get_authorized_report get_link unlink_cases log
  unlink_report db current_user report_id link_id = do
    report ← get_authorized_report s db report_id current_user
    link ← present (get_link db link_id) 404
    demand ((link.report_id_a == report.id) || (link.report_id_b == report.id)) 404
    ok (
        log current_user AuditAction.report_link_removed (some report.id) [] none
          (unlink_cases db link))
